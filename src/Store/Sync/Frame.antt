-- ===== src/Store/Sync/Frame.antt =====
-- What the operations of a sync leave alone.
use statsig_go_sdk.Prelude.{
  ℕ, String, ◌≡◌, refl, Bool, true, false, Option, none, some, List, [], ◌∷◌, leb, is_some,
  if◌then◌else◌,
}
use statsig_go_sdk.Prelude.Int.{pos, leb_ℤ}
use statsig_go_sdk.Dict.{Dict}
use statsig_go_sdk.Text.{Codes}
use statsig_go_sdk.Store.State.{IdList, Store, get_id_list}
use statsig_go_sdk.Store.IdLists.Lines.{apply_content}
use statsig_go_sdk.Store.IdLists.{
  ServerList, Download, failed, body, set_id_list, local_list, is_invalid, is_newer, reset_list,
  is_malformed, download_list, grow_list, sync_list, sync_lists, only_named, sync_id_lists, ◌>>=◌,
}

-- Two stores that differ in their ID lists alone.
abbrev pub SameSpecs : Store → Store → Type 0
SameSpecs s t = record s { id_lists = [] } ≡ record t { id_lists = [] }

-- A sync step, if it ends, ends in a store with the same specs.
abbrev pub Keeps : Store → Option Store → Type 0
Keeps s none = Unit
Keeps s (some t) = SameSpecs s t

Keeps-if :
    (s : Store) (b : Bool) (m n : Option Store)
    → Keeps s m
    → Keeps s n
    → Keeps s (if b then m else n)
Keeps-if s true m n h g = h
Keeps-if s false m n h g = g

Keeps-set :
    (s t : Store) (name : String) (list : IdList) (m : Option (Option (List Codes)))
    (f : Option (List Codes) → IdList)
    → SameSpecs s t
    → Keeps s (m >>= λ ids. some (set_id_list t name (f ids)))
Keeps-set s t name list none f h = tt
Keeps-set s t name list (some ids) f h = h

download_list-Keeps :
    (s t : Store) (name : String) (list : IdList) (d : Download)
    → SameSpecs s t
    → Keeps s (download_list t name list d)
unfolding download_list
download_list-Keeps s t name list failed h = h
download_list-Keeps s t name list (body len content) h = Keeps-if s (leb len 0) _ _ h (
    Keeps-if s (is_malformed content) _ _ h
      (Keeps-set s t name list (apply_content content list.ids) _ h))

module _ (remote : String → ℕ → Download) where
  grow_list-Keeps :
      (s t : Store) (name : String) (server : ServerList) (list : IdList)
      → SameSpecs s t
      → Keeps s (grow_list remote t name server list)
  unfolding grow_list
  grow_list-Keeps s t name server list h =
      Keeps-if s (leb_ℤ server.size (pos list.size)) _ _ h
        (download_list-Keeps s t name list (remote list.url list.size) h)

  known-SameSpecs :
      (s t : Store) (b : Bool) (name : String) (list : IdList)
      → SameSpecs s t
      → SameSpecs s (if b then t else set_id_list t name list)
  known-SameSpecs s t true name list h = h
  known-SameSpecs s t false name list h = h

  sync_list-Keeps :
      (s t : Store) (name : String) (server : ServerList)
      → SameSpecs s t
      → Keeps s (sync_list remote t name server)
  unfolding sync_list
  sync_list-Keeps s t name server h = Keeps-if s (is_invalid server (local_list t name)) _ _ known (
      Keeps-if s (is_newer server (local_list t name)) _ _
        (grow_list-Keeps s _ name server (reset_list server (local_list t name)) known)
        (grow_list-Keeps s _ name server (local_list t name) known))
    where
      known :
          SameSpecs s
            (if is_some (get_id_list t name) then t else set_id_list t name (local_list t name))
      known = known-SameSpecs s t (is_some (get_id_list t name)) name (local_list t name) h

  then_sync-Keeps :
      (s : Store) (m : Option Store) (servers : Dict ServerList)
      → Keeps s m
      → ((t : Store) → SameSpecs s t → Keeps s (sync_lists remote t servers))
      → Keeps s (m >>= λ t. sync_lists remote t servers)
  then_sync-Keeps s none servers h g = tt
  then_sync-Keeps s (some t) servers h g = g t h

  sync_lists-Keeps :
      (s : Store) (servers : Dict ServerList) (t : Store)
      → SameSpecs s t
      → Keeps s (sync_lists remote t servers)
  unfolding sync_lists
  sync_lists-Keeps s [] t h = h
  sync_lists-Keeps s ((name, server) ∷ servers) t h =
      then_sync-Keeps s (sync_list remote t name server) servers (sync_list-Keeps s t name server h)
        (sync_lists-Keeps s servers)

  only_named-Keeps :
      (s : Store) (m : Option Store) (servers : Dict ServerList)
      → Keeps s m
      → Keeps s (m >>= λ t. some (record t { id_lists = only_named servers t.id_lists }))
  only_named-Keeps s none servers h = tt
  only_named-Keeps s (some t) servers h = h

  -- A sync of the ID lists changes nothing else of the store.
  pub sync_id_lists-Keeps :
      (s : Store) (answer : Option (Dict ServerList)) → Keeps s (sync_id_lists remote s answer)
  unfolding sync_id_lists
  sync_id_lists-Keeps s none = refl
  sync_id_lists-Keeps s (some servers) =
      only_named-Keeps s (sync_lists remote s servers) servers (sync_lists-Keeps s servers s refl)
