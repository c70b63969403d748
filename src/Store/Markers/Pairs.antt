-- ===== src/Store/Markers/Pairs.antt =====
-- Starts and ends of markers.
use statsig_go_sdk.Prelude.{
  ℕ, suc, ◌+◌, String, ◌≡◌, Bool, true, false, ◌&&◌, Option, none, some, List, [], ◌∷◌, ◌++◌, ◌==◌,
  arith, is_some, if◌then◌else◌,
}
use statsig_go_sdk.Diagnostics.{Marker}
use statsig_go_sdk.Diagnostics.Markers.{log_process}

abbrev same_text : Option String → Option String → Bool
same_text none none = true
same_text (some s) (some t) = s == t
same_text none (some t) = false
same_text (some s) none = false

-- A marker of an action, on a key, a step and a list's file.
abbrev pub is_marker : String → String → Option String → Option String → Marker → Bool
is_marker action key step url m =
    same_text m.action (some action)
    && (m.key == key && (same_text m.step step && same_text m.url url))

abbrev pub count_markers : String → String → Option String → Option String → List Marker → ℕ
count_markers action key step url [] = 0
count_markers action key step url (m ∷ ms) =
    let rest = count_markers action key step url ms in
    if is_marker action key step url m then suc rest else rest

-- Every start has its end: of each key, step and file there are as many ends as starts.
abbrev pub IsPaired : List Marker → Type 0
IsPaired ms =
    (key : String) (step url : Option String)
    → count_markers "start" key step url ms ≡ count_markers "end" key step url ms

-- The message of every marker can be written: no nil field is dereferenced.
abbrev pub IsSpoken : List Marker → Type 0
IsSpoken [] = Unit
IsSpoken (m ∷ ms) = (is_some (log_process m) ≡ true) × IsSpoken ms

count-append :
    (action key : String) (step url : Option String) (ms ns : List Marker)
    → count_markers action key step url (ms ++ ns)
      ≡ count_markers action key step url ms + count_markers action key step url ns
count-append action key step url [] ns = ground arith
count-append action key step url (m ∷ ms) ns =
    ground (arith, count-append action key step url ms ns)

pub IsPaired-append : (ms ns : List Marker) → IsPaired ms → IsPaired ns → IsPaired (ms ++ ns)
IsPaired-append ms ns h g key step url = ground (
  arith,
  count-append "start" key step url ms ns,
  count-append "end" key step url ms ns,
  h key step url,
  g key step url,
)

pub IsSpoken-append : (ms ns : List Marker) → IsSpoken ms → IsSpoken ns → IsSpoken (ms ++ ns)
IsSpoken-append [] ns h g = g
IsSpoken-append (m ∷ ms) ns (one, h) g = (one, IsSpoken-append ms ns h g)

-- Markers between a start and an end of the same kind.
pub IsPaired-between :
    (m n : Marker) (ms : List Marker)
    → ((key : String) (step url : Option String)
        → (is_marker "start" key step url m ≡ is_marker "end" key step url n)
          × (is_marker "end" key step url m ≡ false)
          × (is_marker "start" key step url n ≡ false))
    → IsPaired ms
    → IsPaired (m ∷ (ms ++ (n ∷ [])))
IsPaired-between m n ms same h key step url = ground (
  arith,
  same key step url,
  h key step url,
  count-append "start" key step url ms (n ∷ []),
  count-append "end" key step url ms (n ∷ []),
)
