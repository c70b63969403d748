-- ===== src/Store/IdLists/Valid.antt =====
-- The ID lists of a store through a sync.
use statsig_go_sdk.Prelude.{
  ℕ, ◌+◌, String, ◌≡◌, refl, ap, ◌∙◌, ◌⊎◌, inl, inr, Bool, true, false, Option, none, some, List,
  [], ◌∷◌, ◌==◌, arith, eq_iff, leb, is_some, Bool-cases, Option-cases, if◌then◌else◌,
}
use statsig_go_sdk.Prelude.Int.{pos, leb_ℤ}
use statsig_go_sdk.Dict.{Dict, lookup, lookup-insert, lookup-erase}
use statsig_go_sdk.Text.{Codes}
use statsig_go_sdk.Store.State.{IdList, Store, get_id_list}
use statsig_go_sdk.Store.IdLists.Lines.{apply_content}
use statsig_go_sdk.Store.IdLists.Laws.{apply_content-holds}
use statsig_go_sdk.Store.IdLists.{
  ServerList, Download, failed, body, set_id_list, delete_id_list, placeholder, local_list,
  is_invalid, is_newer, reset_list, is_malformed, download_list, grow_list, sync_list, sync_lists,
  only_named, sync_id_lists, ◌>>=◌,
}

-- A list that has a file has a set of IDs: the nil set is that of a placeholder alone.
abbrev pub HasIds : IdList → Type 0
HasIds list = (list.file_id == "") ≡ false → is_some list.ids ≡ true

pub record IsValid (s : Store) : Type 0 where
  pub has_ids : (name : String) (list : IdList) → get_id_list s name ≡ some list → HasIds list

-- A sync step ends in a valid store: it does not crash.
abbrev pub Syncs : Option Store → Type 0
Syncs m = (s' : Store) × (m ≡ some s') × IsValid s'

pub set_id_list-IsValid :
    (s : Store) (name : String) (list : IdList)
    → IsValid s
    → HasIds list
    → IsValid (set_id_list s name list)
set_id_list-IsValid s name list v h = record {
  has_ids = λ k l e. ground (arith, lookup-insert name k list s.id_lists, v.has_ids k l);
}

delete_id_list-IsValid : (s : Store) (name : String) → IsValid s → IsValid (delete_id_list s name)
delete_id_list-IsValid s name v = record {
  has_ids = λ k l e. ground (arith, lookup-erase name k s.id_lists, v.has_ids k l);
}

Syncs-if : (b : Bool) {m n : Option Store} → Syncs m → Syncs n → Syncs (if b then m else n)
Syncs-if true h g = h
Syncs-if false h g = g

applied :
    (s : Store) (name : String) (list : IdList) (len : ℕ) (ids : List Codes)
    (m : Option (Option (List Codes)))
    → m ≡ some (some ids)
    → IsValid s
    → Syncs (
        m >>= λ ids'.
        some (set_id_list s name (record list { ids = ids'; size = list.size + len })))
applied s name list len ids m e v = (
  set_id_list s name (record list { ids = some ids; size = list.size + len }),
  rw e,
  set_id_list-IsValid s name (record list { ids = some ids; size = list.size + len }) v (λ _. refl),
)

pub download_list-Syncs :
    (s : Store) (name : String) (list : IdList) (d : Download)
    → IsValid s
    → is_some list.ids ≡ true
    → Syncs (download_list s name list d)
unfolding download_list
download_list-Syncs s name list failed v h = (s, refl, v)
download_list-Syncs s name list (body len content) v h =
    Syncs-if (leb len 0) (s, refl, v)
      (Syncs-if (is_malformed content)
        (delete_id_list s name, refl, delete_id_list-IsValid s name v)
        (elim (Option-cases list.ids) [
          | inl nil ↦ absurd (ground (arith, nil))
          | inr (ids, known) ↦
              let (ids', done, _) = apply_content-holds content ids in
              applied s name list len ids' (apply_content content list.ids)
                (ap (apply_content content) known ∙ done) v
        ]))

-- A list that is neither skipped nor reset has the file of the server's entry.
pub same_file :
    (server : ServerList) (list : IdList)
    → is_invalid server list ≡ false
    → is_newer server list ≡ false
    → (list.file_id == "") ≡ false
same_file server list valid old =
    ground
      (arith, eq_iff server.file_id list.file_id, eq_iff server.file_id "", eq_iff list.file_id "")

pub known-IsValid :
    (s : Store) (name : String)
    → IsValid s
    → IsValid (if is_some (get_id_list s name) then s else set_id_list s name (local_list s name))
      × HasIds (local_list s name)
known-IsValid s name v = elim (Option-cases (get_id_list s name)) [
  | inr (list, known) ↦ rw known (v, v.has_ids name list known)
  | inl missing ↦ rw missing (set_id_list-IsValid s name (placeholder name) v (λ e. cc), λ e. cc)
]

module _ (remote : String → ℕ → Download) where
  grow_list-Syncs :
      (s : Store) (name : String) (server : ServerList) (list : IdList)
      → IsValid s
      → is_some list.ids ≡ true
      → Syncs (grow_list remote s name server list)
  unfolding grow_list
  grow_list-Syncs s name server list v h =
      Syncs-if (leb_ℤ server.size (pos list.size)) (s, refl, v)
        (download_list-Syncs s name list (remote list.url list.size) v h)

  decided-Syncs :
      (known : Store) (name : String) (server : ServerList) (list : IdList)
      → IsValid known
      → HasIds list
      → Syncs (
          if is_invalid server list
          then some known
          else if is_newer server list
          then grow_list remote
              (set_id_list known name (reset_list server list))
              name
              server
              (reset_list server list)
          else grow_list remote known name server list)
  decided-Syncs known name server list v h = elim (Bool-cases (is_invalid server list)) [
    | inl invalid ↦ rw invalid (known, refl, v)
    | inr valid ↦ elim (Bool-cases (is_newer server list)) [
      | inl newer ↦
          rw (valid, newer)
            (grow_list-Syncs (set_id_list known name (reset_list server list)) name server
              (reset_list server list)
              (set_id_list-IsValid known name (reset_list server list) v (λ _. refl)) refl)
      | inr old ↦
          rw (valid, old)
            (grow_list-Syncs known name server list v (h (same_file server list valid old)))
    ]
  ]

  pub sync_list-Syncs :
      (s : Store) (name : String) (server : ServerList)
      → IsValid s
      → Syncs (sync_list remote s name server)
  unfolding sync_list
  sync_list-Syncs s name server v =
      let (known, h) = known-IsValid s name v in
      decided-Syncs _ name server (local_list s name) known h

  then_sync :
      (m : Option Store) (s : Store) (servers : Dict ServerList)
      → m ≡ some s
      → Syncs (sync_lists remote s servers)
      → Syncs (m >>= λ s'. sync_lists remote s' servers)
  then_sync m s servers e h = rw e h

  sync_lists-Syncs :
      (servers : Dict ServerList) (s : Store) → IsValid s → Syncs (sync_lists remote s servers)
  unfolding sync_lists
  sync_lists-Syncs [] s v = (s, refl, v)
  sync_lists-Syncs ((name, server) ∷ servers) s v =
      let (s', one, v') = sync_list-Syncs s name server v in
      then_sync (sync_list remote s name server) s' servers one (sync_lists-Syncs servers s' v')

pub lookup-only_named :
    (servers : Dict ServerList) (name : String) (lists : Dict IdList)
    → lookup name (only_named servers lists)
      ≡ (if is_some (lookup name servers) then lookup name lists else none)
unfolding only_named lookup
lookup-only_named servers name [] = ground arith
lookup-only_named servers name ((j, list) ∷ lists) =
    ground (arith, lookup-only_named servers name lists, eq_iff j name)

named_only :
    (s : Store) (servers : Dict ServerList)
    → IsValid s
    → IsValid (record s { id_lists = only_named servers s.id_lists })
named_only s servers v = record {
  has_ids = λ k l e. ground (arith, lookup-only_named servers k s.id_lists, v.has_ids k l);
}

-- The server names a list; a request that failed rules out no name.
abbrev pub is_named : String → Option (Dict ServerList) → Bool
is_named name none = true
is_named name (some servers) = is_some (lookup name servers)

named_or_gone :
    (servers : Dict ServerList) (name : String) (lists : Dict IdList)
    → (lookup name (only_named servers lists) ≡ none) ⊎ (is_some (lookup name servers) ≡ true)
named_or_gone servers name lists = elim (Bool-cases (is_some (lookup name servers))) [
  | inl named ↦ inr named
  | inr unnamed ↦ inl (ground (arith, lookup-only_named servers name lists))
]

-- A sync of the ID lists never crashes on a nil set, whatever the server announces and whatever is
-- downloaded: from a store in which every list that has a file has a set of IDs, it ends in such a
-- store. If the request succeeded, the lists that are left are among those that the server named.
pub sync_id_lists-IsValid :
    (remote : String → ℕ → Download) (s : Store) (answer : Option (Dict ServerList))
    → IsValid s
    → (s' : Store) × (sync_id_lists remote s answer ≡ some s')
      × IsValid s'
      × ((name : String) → (get_id_list s' name ≡ none) ⊎ (is_named name answer ≡ true))
unfolding sync_id_lists
sync_id_lists-IsValid remote s none v = (s, refl, v, λ name. inr refl)
sync_id_lists-IsValid remote s (some servers) v =
    let (t, ran, w) = sync_lists-Syncs remote servers s v in
    (
      record t { id_lists = only_named servers t.id_lists },
      rw ran,
      named_only t servers w,
      λ name. named_or_gone servers name t.id_lists,
    )
