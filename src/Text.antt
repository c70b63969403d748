-- ===== src/Text.antt =====
-- The parts of Go's `strings` and `strconv` that evaluator.go calls. A text is a sequence of code
-- points: a native `String` where it is only compared, a list of code points where it is walked.
pub mod Parse
pub mod Space
use Prim.Native.Char.{Char, code}
use mathlib.Core.List.{reverse}
use statsig_go_sdk.Prelude.{
  ℕ, String, ◌≡◌, refl, Bool, true, false, ◌&&◌, ◌||◌, List, [], ◌∷◌, ◌++◌, map, arith, leb, nat_eq,
  nat_eq_iff, if◌then◌else◌,
}

abbrev pub Codes : Type 0
Codes = List ℕ

abbrev pub codes : String → Codes
codes String.[] = []
codes (String.◌∷◌ c s) = code c ∷ codes s

-- The letter of the second row below a letter of the first; any other character stays.
letter_below : String → String → Char → Char
letter_below (String.◌∷◌ upper uppers) (String.◌∷◌ lower lowers) c =
    let rest = letter_below uppers lowers c in if nat_eq (code upper) (code c) then lower else rest
letter_below _ _ c = c

-- `unicode.ToLower`: the letters of ASCII, and `lower_rune` for what lies beyond.
unfoldable pub lower_char : (Char → Char) → Char → Char
unfolding letter_below
lower_char lower_rune c =
    if leb 128 (code c)
    then lower_rune c
    else letter_below "ABCDEFGHIJKLMNOPQRSTUVWXYZ" "abcdefghijklmnopqrstuvwxyz" c

-- `strings.ToLower`
unfoldable pub lower_all : (Char → Char) → String → String
unfolding lower_char
lower_all lower_rune String.[] = String.[]
lower_all lower_rune (String.◌∷◌ c s) =
    String.◌∷◌ (lower_char lower_rune c) (lower_all lower_rune s)

-- `strings.HasPrefix`
unfoldable pub has_prefix : Codes → Codes → Bool
has_prefix s [] = true
has_prefix [] (t ∷ ts) = false
has_prefix (c ∷ s) (t ∷ ts) = nat_eq c t && has_prefix s ts

-- `strings.HasSuffix`
unfoldable pub has_suffix : Codes → Codes → Bool
unfolding has_prefix
has_suffix s t = has_prefix (reverse s) (reverse t)

-- `strings.Contains`
unfoldable pub contains : Codes → Codes → Bool
unfolding has_prefix
contains [] t = has_prefix [] t
contains (c ∷ s) t = has_prefix (c ∷ s) t || contains s t

-- `strings.Split` by one code point: the first part and the parts that follow.
unfoldable pub split_first : ℕ → Codes → Codes × List Codes
split_first sep [] = ([], [])
split_first sep (c ∷ s) =
    let (part, parts) = split_first sep s in
    if nat_eq c sep then ([], part ∷ parts) else (c ∷ part, parts)

unfoldable pub split : ℕ → Codes → List Codes
unfolding split_first
split sep s = let (part, parts) = split_first sep s in part ∷ parts

-- `strings.Join` by one code point.
unfoldable pub join : ℕ → List Codes → Codes
join sep [] = []
join sep (part ∷ []) = part
join sep (part ∷ next ∷ parts) = part ++ (sep ∷ join sep (next ∷ parts))

-- A text is a prefix of every text that extends it.
pub has_prefix_self : (s t : Codes) → has_prefix (s ++ t) s ≡ true
unfolding has_prefix
has_prefix_self [] t = refl
has_prefix_self (c ∷ s) t = ground (arith, has_prefix_self s t)

lowered : lower_all (λ c. c) "Pass_GATE" ≡ "pass_gate"
unfolding lower_all
lowered = refl

split_version : split b'.' (codes "1.20.x") ≡ codes "1" ∷ codes "20" ∷ codes "x" ∷ []
unfolding split
split_version = refl

suffixes :
    (has_suffix (codes "a@b.com") (codes ".com") && contains (codes "abc") (codes "bc")) ≡ true
unfolding has_suffix contains
suffixes = refl
