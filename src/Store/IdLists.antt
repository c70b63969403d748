-- ===== src/Store/IdLists.antt =====
-- store.go: `syncIDLists`. The downloads of one sync run concurrently, each on a list of its own;
-- this file runs them in the order of the visit, Schedule in any order. `none` is a crash on a nil
-- `*sync.Map`.
pub mod Lines
pub mod Laws
pub mod Valid
pub mod Schedule
pub mod Entries
pub mod Apart
pub mod Interleaving
pub mod Completion
use statsig_go_sdk.Prelude.{
  ℕ, ◌+◌, String, Bool, true, false, not, ◌&&◌, ◌||◌, Option, none, some, List, [], ◌∷◌, ◌==◌, leb,
  ltb, length, nat_eq, is_some, or_default, if◌then◌else◌,
}
use statsig_go_sdk.Prelude.Int.{ℤ, pos, ltb_ℤ, leb_ℤ}
use statsig_go_sdk.Dict.{Dict, lookup, insert, erase}
use statsig_go_sdk.Text.{Codes}
use statsig_go_sdk.Store.State.{IdList, Store, get_id_list}
use statsig_go_sdk.Store.IdLists.Lines.{apply_content}

infixl 5 ◌>>=◌
abbrev pub ◌>>=◌ {ℓ κ} : {A : Type ℓ} {B : Type κ} → Option A → (A → Option B) → Option B
some a >>= f = f a
none >>= f = none

-- An `idList` as the server announces it.
pub record ServerList : Type 0 where
  pub size : ℤ
  pub creation_time : ℤ
  pub url : String
  pub file_id : String

-- What the download of a list's new part gives.
pub data Download : Type 0 where
  -- no response, or a length or a body that cannot be read
  failed : Download
  -- the length in the header, and the content
  body : ℕ → Codes → Download

-- `setIDList` and `deleteIDList`
abbrev pub set_id_list : Store → String → IdList → Store
set_id_list s name list = record s { id_lists = insert name list s.id_lists }

abbrev pub delete_id_list : Store → String → Store
delete_id_list s name = record s { id_lists = erase name s.id_lists }

-- `&idList{Name: name}`
abbrev pub placeholder : String → IdList
placeholder name = record {
  name = name;
  size = 0;
  creation_time = pos 0;
  url = "";
  file_id = "";
  ids = none;
}

abbrev pub local_list : Store → String → IdList
local_list s name = or_default (get_id_list s name) (placeholder name)

-- The server's entry is skipped.
abbrev pub is_invalid : ServerList → IdList → Bool
is_invalid server local =
    server.url == "" || ltb_ℤ server.creation_time local.creation_time || server.file_id == ""

-- The server has a newer file.
abbrev pub is_newer : ServerList → IdList → Bool
is_newer server local =
    not (server.file_id == local.file_id) && leb_ℤ local.creation_time server.creation_time

abbrev pub reset_list : ServerList → IdList → IdList
reset_list server local = record {
  name = local.name;
  size = 0;
  creation_time = server.creation_time;
  url = server.url;
  file_id = server.file_id;
  ids = some [];
}

-- `len(content) <= 1 || (content[0] != '-' && content[0] != '+')`
abbrev pub is_malformed : Codes → Bool
is_malformed [] = true
is_malformed (c ∷ []) = true
is_malformed (c ∷ d ∷ s) = not (nat_eq c b'-') && not (nat_eq c b'+')

-- The goroutine of one list, from its response on.
unfoldable pub download_list : Store → String → IdList → Download → Option Store
download_list s name list failed = some s
download_list s name list (body len content) =
    if leb len 0
    then some s
    else if is_malformed content
    then some (delete_id_list s name)
    else (apply_content content list.ids >>= λ ids.
        some (set_id_list s name (record list { ids = ids; size = list.size + len })))

module _ (remote : String → ℕ → Download) where
  -- The new part is asked for, from the size that is known.
  unfoldable pub grow_list : Store → String → ServerList → IdList → Option Store
  unfolding download_list
  grow_list s name server list =
      if leb_ℤ server.size (pos list.size)
      then some s
      else download_list s name list (remote list.url list.size)

  -- One round of the loop over the server's lists.
  unfoldable pub sync_list : Store → String → ServerList → Option Store
  unfolding grow_list
  sync_list s name server =
      let local = local_list s name in
      let known = if is_some (get_id_list s name) then s else set_id_list s name local in
      if is_invalid server local
      then some known
      else if is_newer server local
      then grow_list (set_id_list known name (reset_list server local)) name server
          (reset_list server local)
      else grow_list known name server local

  unfoldable pub sync_lists : Store → Dict ServerList → Option Store
  unfolding sync_list
  sync_lists s [] = some s
  sync_lists s ((name, server) ∷ servers) = sync_list s name server >>= λ s'. sync_lists s' servers

-- The lists that the server no longer names are deleted.
unfoldable pub only_named : Dict ServerList → Dict IdList → Dict IdList
only_named servers [] = []
only_named servers ((name, list) ∷ lists) =
    let rest = only_named servers lists in
    if is_some (lookup name servers) then (name, list) ∷ rest else rest

-- `syncIDLists`; `none` for the server's answer is a failed request.
unfoldable pub sync_id_lists :
    (String → ℕ → Download) → Store → Option (Dict ServerList) → Option Store
unfolding sync_lists only_named
sync_id_lists remote s none = some s
sync_id_lists remote s (some servers) = sync_lists remote s servers >>= λ s'.
    some (record s' { id_lists = only_named servers s'.id_lists })
