-- ===== src/Text/Space.antt =====
-- `strings.TrimSpace`, and `strings.ReplaceAll(s, "\r\n", "\n")`.
use mathlib.Core.List.{reverse}
use statsig_go_sdk.Prelude.{ℕ, Bool, false, ◌||◌, ◌&&◌, List, [], ◌∷◌, leb, nat_eq, if◌then◌else◌}

-- `unicode.IsSpace`
unfoldable pub is_space : ℕ → Bool
is_space c =
    leb 9 c && leb c 13
    || nat_eq c 32
    || nat_eq c 0x85
    || nat_eq c 0xa0
    || nat_eq c 0x1680
    || leb 0x2000 c && leb c 0x200a
    || nat_eq c 0x2028
    || nat_eq c 0x2029
    || nat_eq c 0x202f
    || nat_eq c 0x205f
    || nat_eq c 0x3000

unfoldable pub trim_left : List ℕ → List ℕ
unfolding is_space
trim_left [] = []
trim_left (c ∷ s) = let rest = trim_left s in if is_space c then rest else c ∷ s

unfoldable pub trim_space : List ℕ → List ℕ
unfolding trim_left
trim_space s = reverse (trim_left (reverse (trim_left s)))

-- Whether a text goes on with a line feed.
abbrev pub starts_line : List ℕ → Bool
starts_line [] = false
starts_line (c ∷ s) = nat_eq c 10

-- A carriage return is dropped before a line feed.
unfoldable pub replace_crlf : List ℕ → List ℕ
replace_crlf [] = []
replace_crlf (c ∷ s) =
    let rest = replace_crlf s in if nat_eq c 13 && starts_line s then rest else c ∷ rest
