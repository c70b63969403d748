-- ===== src/Store/IdLists/Laws.antt =====
-- The contents of ID lists: which IDs a list holds after its lines, in one part or in several.
use mathlib.Core.List.{map-append}
use statsig_go_sdk.Prelude.{
  ◌≡◌, ◌↔◌, refl, Bool, true, false, not, ◌&&◌, ◌||◌, Option, none, some, List, [], ◌∷◌, ◌++◌,
  arith, nat_eq, or_default, if◌then◌else◌,
}
use statsig_go_sdk.Text.{Codes, split, split_first}
use statsig_go_sdk.Text.Space.{replace_crlf, trim_space}
use statsig_go_sdk.Store.IdLists.Lines.{
  same_codes, holds, remove, put, Change, add, delete, keep, change_of, content_lines, changes_of,
  apply_change, apply_changes, apply_content,
}

same_codes_iff : (s t : Codes) → (same_codes s t ≡ true) ↔ (s ≡ t)
same_codes_iff [] [] = ground arith
same_codes_iff [] (d ∷ t) = ground arith
same_codes_iff (c ∷ s) [] = ground arith
same_codes_iff (c ∷ s) (d ∷ t) = ground (arith, same_codes_iff s t)

holds-put :
    (id j : Codes) (ids : List Codes) → holds id (put j ids) ≡ (same_codes id j || holds id ids)
unfolding holds put
holds-put id j ids = refl

holds-remove :
    (id j : Codes) (ids : List Codes)
    → holds id (remove j ids) ≡ (not (same_codes id j) && holds id ids)
unfolding holds remove
holds-remove id j [] = ground arith
holds-remove id j (i ∷ ids) =
    ground
      (arith, holds-remove id j ids, same_codes_iff id j, same_codes_iff id i, same_codes_iff j i)

-- What a change does with an ID: `true` adds it, `false` removes it.
abbrev pub names : Codes → Change → Option Bool
names id (add j) = if same_codes id j then some true else none
names id (delete j) = if same_codes id j then some false else none
names id keep = none

-- What the last change that names an ID does with it.
abbrev pub last_change : Codes → List Change → Option Bool
last_change id [] = none
last_change id (change ∷ changes) = elim (last_change id changes) [
  | some b ↦ some b
  | none ↦ names id change
]

holds-apply_change :
    (id : Codes) (change : Change) (ids : List Codes)
    → holds id (apply_change change ids) ≡ or_default (names id change) (holds id ids)
unfolding apply_change
holds-apply_change id (add j) ids = ground (arith, holds-put id j ids)
holds-apply_change id (delete j) ids = ground (arith, holds-remove id j ids)
holds-apply_change id keep ids = refl

apply_all : List Change → List Codes → List Codes
apply_all [] ids = ids
apply_all (change ∷ changes) ids = apply_all changes (apply_change change ids)

apply_changes-apply_all :
    (changes : List Change) (ids : List Codes)
    → apply_changes changes (some ids) ≡ some (some (apply_all changes ids))
unfolding apply_changes apply_all
apply_changes-apply_all [] ids = refl
apply_changes-apply_all (change ∷ changes) ids =
    apply_changes-apply_all changes (apply_change change ids)

holds-apply_all :
    (id : Codes) (changes : List Change) (ids : List Codes)
    → holds id (apply_all changes ids) ≡ or_default (last_change id changes) (holds id ids)
unfolding apply_all
holds-apply_all id [] ids = refl
holds-apply_all id (change ∷ changes) ids =
    ground (
      arith,
      holds-apply_all id changes (apply_change change ids),
      holds-apply_change id change ids,
    )

-- The content of a download always applies to a list that has a set of IDs. Afterwards the set
-- holds an ID exactly if the last line that names the ID adds it, or if no line names it and the
-- set held it before.
pub apply_content-holds :
    (content : Codes) (ids : List Codes)
    → (ids' : List Codes) × (apply_content content (some ids) ≡ some (some ids'))
      × ((id : Codes)
          → holds id ids'
            ≡ or_default (last_change id (changes_of (content_lines content))) (holds id ids))
unfolding apply_content
apply_content-holds content ids = (
  apply_all (changes_of (content_lines content)) ids,
  apply_changes-apply_all (changes_of (content_lines content)) ids,
  λ id. holds-apply_all id (changes_of (content_lines content)) ids,
)

-- A text that does not end with a carriage return.
abbrev pub EndsClean : Codes → Type 0
EndsClean [] = Unit
EndsClean (c ∷ []) = nat_eq c 13 ≡ false
EndsClean (c ∷ d ∷ s) = EndsClean (d ∷ s)

replace_crlf-line :
    (s t : Codes)
    → EndsClean s
    → replace_crlf (s ++ (10 ∷ t)) ≡ replace_crlf s ++ (10 ∷ replace_crlf t)
unfolding replace_crlf
replace_crlf-line [] t h = refl
replace_crlf-line (c ∷ []) t h = rw h
replace_crlf-line (c ∷ d ∷ s) t h = ground (arith, replace_crlf-line (d ∷ s) t h)

split_first-line :
    (s t : Codes)
    → split_first 10 (s ++ (10 ∷ t)) ≡ ((split_first 10 s).0, (split_first 10 s).1 ++ split 10 t)
unfolding split split_first
split_first-line [] t = refl
split_first-line (c ∷ s) t = ground (arith, split_first-line s t)

split-line : (s t : Codes) → split 10 (s ++ (10 ∷ t)) ≡ split 10 s ++ split 10 t
unfolding split
split-line s t = rw (split_first-line s t)

-- The lines of a text that is cut at a line feed.
content_lines-append :
    (s t : Codes) → EndsClean s → content_lines (s ++ (10 ∷ t)) ≡ content_lines s ++ content_lines t
unfolding content_lines
content_lines-append s t h =
    rw (replace_crlf-line s t h, split-line (replace_crlf s) (replace_crlf t))
      (map-append trim_space (split 10 (replace_crlf s)) (split 10 (replace_crlf t)))

apply_all-append :
    (xs ys : List Change) (ids : List Codes)
    → apply_all (xs ++ ys) ids ≡ apply_all ys (apply_all xs ids)
unfolding apply_all
apply_all-append [] ys ids = refl
apply_all-append (x ∷ xs) ys ids = apply_all-append xs ys (apply_change x ids)

-- A list that grows by downloads is the list of the whole file: if a file is cut at a line feed
-- into two parts, and the first does not end with a carriage return, then applying the second part
-- after the first gives what the whole file gives.
pub apply_content-append :
    (s t : Codes) (ids ids' : List Codes)
    → EndsClean s
    → apply_content s (some ids) ≡ some (some ids')
    → apply_content (s ++ (10 ∷ t)) (some ids) ≡ apply_content t (some ids')
unfolding apply_content
apply_content-append s t ids ids' h first =
    rw
      (
        content_lines-append s t h,
        map-append change_of (content_lines s) (content_lines t),
        apply_changes-apply_all (changes_of (content_lines s) ++ changes_of (content_lines t)) ids,
        apply_changes-apply_all (changes_of (content_lines t)) ids',
      )
      (ground (
        arith,
        apply_all-append (changes_of (content_lines s)) (changes_of (content_lines t)) ids,
        apply_changes-apply_all (changes_of (content_lines s)) ids,
      ))
