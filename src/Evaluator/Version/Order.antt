-- ===== src/Evaluator/Version/Order.antt =====
-- The comparison of versions is a total preorder.
use statsig_go_sdk.Prelude.{
  ℕ, zero, suc, ◌+◌, ◌-◌, ◌≤◌, ◌≡◌, ◌≢◌, refl, sym, List, [], ◌∷◌, max, length, arith,
}
use statsig_go_sdk.Prelude.Int.{ℤ, pos, negsuc}
use statsig_go_sdk.Text.{Codes, split}
use statsig_go_sdk.Evaluator.Version.{next_parts, compare_parts, compare_versions_helper}

abbrev pub opposite : ℤ → ℤ
opposite (pos zero) = pos zero
opposite (pos (suc n)) = negsuc n
opposite (negsuc n) = pos (suc n)

compare_parts-opposite :
    (n : ℕ) (ps qs : List Codes) → compare_parts n qs ps ≡ opposite (compare_parts n ps qs)
unfolding compare_parts
compare_parts-opposite zero ps qs = refl
compare_parts-opposite (suc n) ps qs =
    ground (arith, compare_parts-opposite n (next_parts ps) (next_parts qs))

compare_parts-nil : (n : ℕ) → compare_parts n [] [] ≡ pos 0
unfolding compare_parts
compare_parts-nil zero = refl
compare_parts-nil (suc n) = ground (arith, compare_parts-nil n)

length-next_parts : (ps : List Codes) → length (next_parts ps) ≡ length ps - 1
length-next_parts [] = omega arith
length-next_parts (p ∷ ps) = omega arith

-- Rounds past the longer version compare "0" with "0".
compare_parts_more :
    (n m : ℕ) (ps qs : List Codes)
    → length ps ≤ n
    → length qs ≤ n
    → n ≤ m
    → compare_parts m ps qs ≡ compare_parts n ps qs
unfolding compare_parts
compare_parts_more zero m [] [] h g e = compare_parts-nil m
compare_parts_more zero m (p ∷ ps) qs h g e = absurd (omega arith)
compare_parts_more zero m [] (q ∷ qs) h g e = absurd (omega arith)
compare_parts_more (suc n) zero ps qs h g e = absurd (omega arith)
compare_parts_more (suc n) (suc m) ps qs h g e =
    let rest =
      compare_parts_more n m (next_parts ps) (next_parts qs) (omega (arith, length-next_parts ps))
        (omega (arith, length-next_parts qs)) (omega arith) in
    rw rest

compare_parts-le_trans :
    (n : ℕ) (ps qs rs : List Codes)
    → compare_parts n ps qs ≢ pos 1
    → compare_parts n qs rs ≢ pos 1
    → compare_parts n ps rs ≢ pos 1
unfolding compare_parts
compare_parts-le_trans zero ps qs rs h g = h
compare_parts-le_trans (suc n) ps qs rs h g =
    ground (arith, compare_parts-le_trans n (next_parts ps) (next_parts qs) (next_parts rs))

compare_parts-lt_trans :
    (n : ℕ) (ps qs rs : List Codes)
    → compare_parts n ps qs ≡ negsuc 0
    → compare_parts n qs rs ≢ pos 1
    → compare_parts n ps rs ≡ negsuc 0
unfolding compare_parts
compare_parts-lt_trans zero ps qs rs h g = h
compare_parts-lt_trans (suc n) ps qs rs h g =
    ground (arith, compare_parts-lt_trans n (next_parts ps) (next_parts qs) (next_parts rs))

abbrev rounds : Codes → Codes → Codes → ℕ
rounds a b c = length (split b'.' a) + length (split b'.' b) + length (split b'.' c)

-- `compare_versions_helper` with as many rounds as three versions need.
helper_rounds :
    (m : ℕ) (a b : Codes)
    → length (split b'.' a) ≤ m
    → length (split b'.' b) ≤ m
    → compare_versions_helper a b ≡ compare_parts m (split b'.' a) (split b'.' b)
unfolding compare_versions_helper
helper_rounds m a b h g = sym (
    compare_parts_more (max (length (split b'.' a)) (length (split b'.' b))) m (split b'.' a)
      (split b'.' b) (omega arith) (omega arith) (omega arith))

-- Swapping the two versions swaps the sign: 0 stays 0, 1 becomes -1 and -1 becomes 1.
pub compare_versions_helper-opposite :
    (a b : Codes) → compare_versions_helper b a ≡ opposite (compare_versions_helper a b)
compare_versions_helper-opposite a b =
    rw
      (
        helper_rounds (rounds a b a) b a (omega arith) (omega arith),
        helper_rounds (rounds a b a) a b (omega arith) (omega arith),
      )
      (compare_parts-opposite (rounds a b a) (split b'.' a) (split b'.' b))

-- If a version is not above a second, and the second is not above a third, then the first is not
-- above the third, whatever the numbers of their parts.
pub compare_versions_helper-le_trans :
    (a b c : Codes)
    → compare_versions_helper a b ≢ pos 1
    → compare_versions_helper b c ≢ pos 1
    → compare_versions_helper a c ≢ pos 1
compare_versions_helper-le_trans a b c h g =
    rw (helper_rounds (rounds a b c) a c (omega arith) (omega arith)) (
      compare_parts-le_trans (rounds a b c) (split b'.' a) (split b'.' b) (split b'.' c)
        (rw (helper_rounds (rounds a b c) a b (omega arith) (omega arith)) at h)
        (rw (helper_rounds (rounds a b c) b c (omega arith) (omega arith)) at g))

-- If a version is below a second, and the second is not above a third, then the first is below
-- the third.
pub compare_versions_helper-lt_trans :
    (a b c : Codes)
    → compare_versions_helper a b ≡ negsuc 0
    → compare_versions_helper b c ≢ pos 1
    → compare_versions_helper a c ≡ negsuc 0
compare_versions_helper-lt_trans a b c h g =
    rw (helper_rounds (rounds a b c) a c (omega arith) (omega arith)) (
      compare_parts-lt_trans (rounds a b c) (split b'.' a) (split b'.' b) (split b'.' c)
        (rw (helper_rounds (rounds a b c) a b (omega arith) (omega arith)) at h)
        (rw (helper_rounds (rounds a b c) b c (omega arith) (omega arith)) at g))
