-- ===== src/Store/IdLists/Lines.antt =====
-- store.go: the content of an ID list, a line for each ID that is added or removed.
use statsig_go_sdk.Prelude.{
  Bool, true, false, ◌&&◌, ◌||◌, Option, none, some, List, [], ◌∷◌, map, nat_eq, if◌then◌else◌,
}
use statsig_go_sdk.Text.{Codes, split}
use statsig_go_sdk.Text.Space.{trim_space, replace_crlf}

abbrev pub same_codes : Codes → Codes → Bool
same_codes [] [] = true
same_codes (c ∷ s) (d ∷ t) = nat_eq c d && same_codes s t
same_codes _ _ = false

-- The set of a `sync.Map`'s keys: whether it holds one, `Store` and `Delete`.
unfoldable pub holds : Codes → List Codes → Bool
holds id [] = false
holds id (j ∷ ids) = same_codes id j || holds id ids

unfoldable pub remove : Codes → List Codes → List Codes
remove id [] = []
remove id (j ∷ ids) = let rest = remove id ids in if same_codes id j then rest else j ∷ rest

unfoldable pub put : Codes → List Codes → List Codes
put id ids = id ∷ ids

-- What a trimmed line asks for; a line of one character or less, or with another operation, asks
-- for nothing.
pub data Change : Type 0 where
  add delete : Codes → Change
  keep : Change

unfoldable pub change_of : Codes → Change
change_of [] = keep
change_of (op ∷ []) = keep
change_of (op ∷ c ∷ id) =
    if nat_eq op b'+' then add (c ∷ id) else if nat_eq op b'-' then delete (c ∷ id) else keep

unfoldable pub content_lines : Codes → List Codes
content_lines content = map trim_space (split 10 (replace_crlf content))

unfoldable pub apply_change : Change → List Codes → List Codes
unfolding remove put
apply_change (add id) ids = put id ids
apply_change (delete id) ids = remove id ids
apply_change keep ids = ids

abbrev pub changes_of : List Codes → List Change
changes_of = map change_of

-- The loop over the lines. A change of a nil map crashes.
unfoldable pub apply_changes : List Change → Option (List Codes) → Option (Option (List Codes))
unfolding apply_change
apply_changes [] ids = some ids
apply_changes (change ∷ changes) (some ids) = apply_changes changes (some (apply_change change ids))
apply_changes (keep ∷ changes) none = apply_changes changes none
apply_changes (add id ∷ changes) none = none
apply_changes (delete id ∷ changes) none = none

unfoldable pub apply_content : Codes → Option (List Codes) → Option (Option (List Codes))
apply_content content ids = apply_changes (changes_of (content_lines content)) ids
