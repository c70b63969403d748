-- ===== src/Store/IdLists/Entries.antt =====
-- What a sync makes of one entry, whatever happens to the others.
use statsig_go_sdk.Prelude.{
  ℕ, ◌+◌, String, ◌≡◌, refl, sym, ap, ◌∙◌, inl, inr, Bool, true, false, Option, none, some, List,
  ◌==◌, arith, eq_refl, leb, is_some, or_default, Bool-cases, Option-cases, if◌then◌else◌,
}
use statsig_go_sdk.Dict.{lookup-insert, lookup-erase}
use statsig_go_sdk.Text.{Codes}
use statsig_go_sdk.Store.State.{IdList, Store, get_id_list}
use statsig_go_sdk.Store.IdLists.Lines.{apply_content}
use statsig_go_sdk.Store.IdLists.{
  ServerList, Download, failed, body, set_id_list, delete_id_list, placeholder, local_list,
  is_invalid, is_newer, reset_list, is_malformed, download_list, grow_list, sync_list, ◌>>=◌,
}
use statsig_go_sdk.Store.IdLists.Schedule.{grown, start_list}

-- The entry after a download; the outer `none` is a crash.
abbrev pub finish_entry : IdList → Download → Option IdList → Option (Option IdList)
finish_entry list failed old = some old
finish_entry list (body len content) old =
    if leb len 0
    then some old
    else if is_malformed content
    then some none
    else (apply_content content list.ids >>= λ ids.
        some (some (record list { ids = ids; size = list.size + len })))

-- The entry after the whole of a job, if there is one.
abbrev pub job_entry :
    (String → ℕ → Download) → Option IdList → Option IdList → Option (Option IdList)
job_entry remote none old = some old
job_entry remote (some list) old = finish_entry list (remote list.url list.size) old

-- The entry after a round of the loop, and the job that it starts.
abbrev pub start_entry : String → ServerList → Option IdList → Option IdList × Option IdList
start_entry name server old =
    let local = or_default old (placeholder name) in
    if is_invalid server local
    then (some local, none)
    else if is_newer server local
    then (some (reset_list server local), grown server (reset_list server local))
    else (some local, grown server local)

-- The entry after a sync.
abbrev pub sync_entry :
    (String → ℕ → Download) → String → ServerList → Option IdList → Option (Option IdList)
sync_entry remote name server old =
    let (started, job) = start_entry name server old in job_entry remote job started

-- A step on a store that is a step on one entry.
abbrev pub Only : String → Option Store → Store → Option (Option IdList) → Type 0
Only name none s after = after ≡ none
Only name (some s') s after =
    (after ≡ some (get_id_list s' name))
    × ((other : String) → (name == other) ≡ false → get_id_list s' other ≡ get_id_list s other)

Only-if :
    (b : Bool) (name : String) (s : Store) (m n : Option Store) (x y : Option (Option IdList))
    → Only name m s x
    → Only name n s y
    → Only name (if b then m else n) s (if b then x else y)
Only-if true name s m n x y h g = h
Only-if false name s m n x y h g = g

Only-same : (s : Store) (name : String) → Only name (some s) s (some (get_id_list s name))
Only-same s name = (refl, λ other h. refl)

pub Only-set :
    (s : Store) (name : String) (list : IdList)
    → Only name (some (set_id_list s name list)) s (some (some list))
Only-set s name list = (
  ground (arith, lookup-insert name name list s.id_lists, eq_refl name),
  λ other h. ground (arith, lookup-insert name other list s.id_lists),
)

Only-delete : (s : Store) (name : String) → Only name (some (delete_id_list s name)) s (some none)
Only-delete s name = (
  ground (arith, lookup-erase name name s.id_lists, eq_refl name),
  λ other h. ground (arith, lookup-erase name other s.id_lists),
)

Only-applied :
    (s : Store) (name : String) (list : IdList) (len : ℕ) (m : Option (Option (List Codes)))
    → Only name
        (m >>= λ ids. some (set_id_list s name (record list { ids = ids; size = list.size + len })))
        s
        (m >>= λ ids. some (some (record list { ids = ids; size = list.size + len })))
Only-applied s name list len none = refl
Only-applied s name list len (some ids) =
    Only-set s name (record list { ids = ids; size = list.size + len })

pub download_list-Only :
    (s : Store) (name : String) (list : IdList) (d : Download)
    → Only name (download_list s name list d) s (finish_entry list d (get_id_list s name))
unfolding download_list
download_list-Only s name list failed = Only-same s name
download_list-Only s name list (body len content) =
    Only-if (leb len 0) name s _ _ _ _ (Only-same s name) (
      Only-if (is_malformed content) name s _ _ _ _ (Only-delete s name)
        (Only-applied s name list len (apply_content content list.ids)))

pub Only-then :
    (name : String) (s s' : Store) (m : Option Store) {x : Option (Option IdList)}
    (y : Option (Option IdList))
    → Only name (some s') s x
    → Only name m s' y
    → Only name m s y
Only-then name s s' none y (_, frame) h = h
Only-then name s s' (some t) y (_, frame) (h, frame') =
    (h, λ other e. frame' other e ∙ frame other e)

-- A round, as an entry and a job.
abbrev pub Starts : String → Store → Store × Option IdList → Option IdList × Option IdList → Type 0
Starts name s r e = Only name (some r.0) s (some e.0) × (r.1 ≡ e.1)

known-Only :
    (s : Store) (name : String)
    → Only name
        (some (if is_some (get_id_list s name) then s else set_id_list s name (local_list s name)))
        s
        (some (some (local_list s name)))
known-Only s name = elim (Option-cases (get_id_list s name)) [
  | inr (list, known) ↦ rw known (ap some (sym known), λ other h. refl)
  | inl missing ↦ rw missing (Only-set s name (placeholder name))
]

decided-Starts :
    (s known : Store) (name : String) (server : ServerList) (list : IdList)
    → Only name (some known) s (some (some list))
    → Starts name s
        (if is_invalid server list
          then (known, none)
          else if is_newer server list
          then (
            set_id_list known name (reset_list server list),
            grown server (reset_list server list),
          )
          else (known, grown server list))
        (if is_invalid server list
          then (some list, none)
          else if is_newer server list
          then (some (reset_list server list), grown server (reset_list server list))
          else (some list, grown server list))
decided-Starts s known name server list h = elim (Bool-cases (is_invalid server list)) [
  | inl invalid ↦ rw invalid (h, refl)
  | inr valid ↦ elim (Bool-cases (is_newer server list)) [
    | inl newer ↦
        rw (valid, newer)
          (
            Only-then name s known (some (set_id_list known name (reset_list server list)))
                (some (some (reset_list server list))) h
                (Only-set known name (reset_list server list)),
            refl,
          )
    | inr old ↦ rw (valid, old) (h, refl)
  ]
]

-- The entry and the job after a round: `start_list` is `start_entry`.
pub start_list-start_entry :
    (s : Store) (name : String) (server : ServerList)
    → Starts name s (start_list s name server) (start_entry name server (get_id_list s name))
unfolding start_list
start_list-start_entry s name server =
    decided-Starts s _ name server (local_list s name) (known-Only s name)

module _ (remote : String → ℕ → Download) where
  pub run_download : Store → String → Option IdList → Option Store
  run_download s name none = some s
  run_download s name (some list) = download_list s name list (remote list.url list.size)

  -- A round in sequence is a start and its download.
  pub sync_list-start_list :
      (s : Store) (name : String) (server : ServerList)
      → sync_list remote s name server
        ≡ run_download (start_list s name server).0 name (start_list s name server).1
  unfolding sync_list grow_list start_list run_download
  sync_list-start_list s name server = ground arith

  same_value : {x y : Option IdList} → some x ≡ some y → x ≡ y
  same_value h = cc

  download_from :
      (s : Store) (name : String) (list : IdList) (old : Option IdList)
      → old ≡ get_id_list s name
      → Only name
          (download_list s name list (remote list.url list.size))
          s
          (finish_entry list (remote list.url list.size) old)
  download_from s name list old h =
      rw h (download_list-Only s name list (remote list.url list.size))

  run_download-Only :
      (s s' : Store) (name : String) (job : Option IdList) (e : Option IdList × Option IdList)
      → Starts name s (s', job) e
      → Only name (run_download s' name job) s (job_entry remote e.1 e.0)
  unfolding run_download
  run_download-Only s s' name none e (h, same) = rw (sym same) h
  run_download-Only s s' name (some list) e (h, same) =
      rw (sym same) (Only-then name s s' _ _ h (download_from s' name list e.0 (same_value h.0)))

  -- A round in sequence is `sync_entry`.
  pub sync_list-Only :
      (s : Store) (name : String) (server : ServerList)
      → Only name
          (sync_list remote s name server)
          s
          (sync_entry remote name server (get_id_list s name))
  sync_list-Only s name server =
      rw (sync_list-start_list s name server)
        (run_download-Only s _ name _ _ (start_list-start_entry s name server))
