-- ===== src/Text/Parse.antt =====
-- `strconv.ParseInt(s, 10, 64)`: the number that it returns beside an error is part of the
-- behaviour, since the version comparison reads it and drops the error.
use statsig_go_sdk.Prelude.{
  ℕ, zero, suc, ◌+◌, ◌-◌, ◌*◌, ◌^◌, ◌≤◌, ◌<◌, ◌≡◌, refl, Bool, true, false, ◌&&◌, List, [], ◌∷◌,
  arith, leb, ltb, nat_eq, if◌then◌else◌,
}
use statsig_go_sdk.Prelude.Int.{ℤ, pos, negsuc, neg, pos_part, neg_part}

-- The outcome of `ParseUint`.
pub data Unsigned : Type 0 where
  syntax range : Unsigned
  value : ℕ → Unsigned

abbrev is_digit : ℕ → Bool
is_digit c = leb b'0' c && leb c b'9'

-- The digit loop: the first digit that leaves 64 bits ends it, whatever follows.
unfoldable pub parse_digits : ℕ → List ℕ → Unsigned
parse_digits n [] = value n
parse_digits n (c ∷ s) =
    let rest = parse_digits (n * 10 + (c - b'0')) s in
    if is_digit c then if leb (2 ^ 64) (n * 10 + (c - b'0')) then range else rest else syntax

unfoldable pub parse_uint : List ℕ → Unsigned
unfolding parse_digits
parse_uint [] = syntax
parse_uint (c ∷ s) = parse_digits 0 (c ∷ s)

-- What `ParseInt` returns: the number, and whether an error comes with it.
pub record Parsed : Type 0 where
  pub number : ℤ
  pub failed : Bool

-- Past 64 bits the number is held at the end of the range.
abbrev signed : Bool → Unsigned → Parsed
signed minus syntax = record { number = pos 0; failed = true }
signed true range = record { number = neg (2 ^ 63); failed = true }
signed false range = record { number = pos (2 ^ 63 - 1); failed = true }
signed true (value n) =
    if ltb (2 ^ 63) n
    then record { number = neg (2 ^ 63); failed = true }
    else record { number = neg n; failed = false }
signed false (value n) =
    if leb (2 ^ 63) n
    then record { number = pos (2 ^ 63 - 1); failed = true }
    else record { number = pos n; failed = false }

unfoldable pub parse_int : List ℕ → Parsed
unfolding parse_uint
parse_int [] = record { number = pos 0; failed = true }
parse_int (c ∷ s) =
    if nat_eq c b'-'
    then signed true (parse_uint s)
    else if nat_eq c b'+'
    then signed false (parse_uint s)
    else signed false (parse_uint (c ∷ s))

-- Whatever the text, the number lies in the range of an `int64`.
abbrev pub IsInt64 : ℤ → Type 0
IsInt64 n = (pos_part n < 2 ^ 63) × (neg_part n ≤ 2 ^ 63)

signed-IsInt64 : (minus : Bool) (u : Unsigned) → IsInt64 (signed minus u).number
signed-IsInt64 minus syntax = omega arith
signed-IsInt64 true range = omega arith
signed-IsInt64 false range = omega arith
signed-IsInt64 true (value zero) = ground arith
signed-IsInt64 true (value (suc n)) = ground arith
signed-IsInt64 false (value n) = ground arith

pub parse_int-IsInt64 : (s : List ℕ) → IsInt64 (parse_int s).number
unfolding parse_int
parse_int-IsInt64 [] = omega arith
parse_int-IsInt64 (c ∷ s) = ground (
  arith,
  signed-IsInt64 true (parse_uint s),
  signed-IsInt64 false (parse_uint s),
  signed-IsInt64 false (parse_uint (c ∷ s)),
)

parse_runs : parse_int (b'-' ∷ b'4' ∷ b'2' ∷ []) ≡ record { number = negsuc 41; failed = false }
unfolding parse_int
parse_runs = refl
