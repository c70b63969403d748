-- ===== src/Dict.antt =====
-- Go's `map[string]V`: lookup with a comma-ok, assignment, `delete` and a `range` that copies.
-- A map is an association list with one entry for each key; its order stands for the order in
-- which a `range` visits it. A read of a nil map is a read of the empty one.
use statsig_go_sdk.Prelude.{
  ℕ, suc, ◌≤◌, ◌<◌, String, ◌≡◌, refl, Option, none, some, List, [], ◌∷◌, arith, ◌==◌, eq_iff,
  is_some, if◌then◌else◌,
}

-- A key with its value.
abbrev pub Entry {ℓ} : Type ℓ → Type ℓ
Entry V = String × V

abbrev pub Dict {ℓ} : Type ℓ → Type ℓ
Dict V = List (Entry V)

module _ {ℓ} {V : Type ℓ} where
  -- `v, ok := m[key]`
  unfoldable pub lookup : String → Dict V → Option V
  lookup key [] = none
  lookup key (entry ∷ rest) = if entry.0 == key then some entry.1 else lookup key rest

  -- `m[key] = v`
  unfoldable pub insert : String → V → Dict V → Dict V
  insert key value [] = (key, value) ∷ []
  insert key value (entry ∷ rest) =
      let added = insert key value rest in
      if entry.0 == key then (key, value) ∷ rest else entry ∷ added

  -- `delete(m, key)`
  unfoldable pub erase : String → Dict V → Dict V
  erase key [] = []
  erase key (entry ∷ rest) =
      let left = erase key rest in if entry.0 == key then left else entry ∷ left

  -- `for k, v := range b { a[k] = v }`
  unfoldable pub merge : Dict V → Dict V → Dict V
  merge a [] = a
  merge a (entry ∷ rest) = merge (insert entry.0 entry.1 a) rest

  -- One entry for each key.
  abbrev pub NodupKeys : Dict V → Type ℓ
  NodupKeys [] = Unit
  NodupKeys (entry ∷ rest) = (lookup entry.0 rest ≡ none) × NodupKeys rest

  pub lookup-nil : (key : String) → lookup key [] ≡ none
  unfolding lookup
  lookup-nil key = refl

  pub lookup-cons :
      (key : String) (entry : Entry V) (rest : Dict V)
      → lookup key (entry ∷ rest) ≡ (if entry.0 == key then some entry.1 else lookup key rest)
  unfolding lookup
  lookup-cons key entry rest = refl

  -- An assignment is read back, and leaves the other keys alone.
  pub lookup-insert :
      (key other : String) (value : V) (m : Dict V)
      → lookup other (insert key value m) ≡ (if key == other then some value else lookup other m)
  unfolding lookup insert
  lookup-insert key other value [] = refl
  lookup-insert key other value (entry ∷ rest) = ground (
    arith,
    lookup-insert key other value rest,
    eq_iff entry.0 other,
    eq_iff entry.0 key,
    eq_iff key other,
  )

  pub lookup-erase :
      (key other : String) (m : Dict V)
      → lookup other (erase key m) ≡ (if key == other then none else lookup other m)
  unfolding lookup erase
  lookup-erase key other [] = ground arith
  lookup-erase key other (entry ∷ rest) = ground (
    arith,
    lookup-erase key other rest,
    eq_iff entry.0 other,
    eq_iff entry.0 key,
    eq_iff key other,
  )

  pub insert-NodupKeys :
      (key : String) (value : V) (m : Dict V) → NodupKeys m → NodupKeys (insert key value m)
  unfolding insert
  insert-NodupKeys key value [] h = (lookup-nil key, tt)
  insert-NodupKeys key value (entry ∷ rest) (fresh, u) = ground (
    arith,
    insert-NodupKeys key value rest u,
    lookup-insert key entry.0 value rest,
    eq_iff entry.0 key,
    eq_iff key entry.0,
  )

-- What a merge leaves under a key: the last map's entry, or the first map's.
pub lookup-merge {ℓ} :
    {V : Type ℓ} (key : String) (a b : Dict V)
    → NodupKeys b
    → lookup key (merge a b) ≡ (if is_some (lookup key b) then lookup key b else lookup key a)
unfolding lookup merge
lookup-merge key a [] h = refl
lookup-merge key a (entry ∷ rest) (fresh, u) = ground (
  arith,
  lookup-merge key (insert entry.0 entry.1 a) rest u,
  lookup-insert entry.0 key entry.1 a,
  eq_iff entry.0 key,
)

-- `len(m)`
pub size {ℓ} : {V : Type ℓ} → Dict V → ℕ
size [] = 0
size (_ ∷ m) = suc (size m)

pub size-nil {ℓ} : (V : Type ℓ) → size {V = V} [] ≡ 0
unfolding size
size-nil V = refl

pub size-cons {ℓ} : {V : Type ℓ} (entry : Entry V) (m : Dict V) → size (entry ∷ m) ≡ suc (size m)
unfolding size
size-cons entry m = refl

pub size-insert {ℓ} :
    {V : Type ℓ} (key : String) (value : V) (m : Dict V) → size (insert key value m) ≤ suc (size m)
unfolding insert size
size-insert key value [] = ground arith
size-insert key value (entry ∷ rest) = ground (arith, size-insert key value rest)

size-erase {ℓ} : {V : Type ℓ} (key : String) (m : Dict V) → size (erase key m) ≤ size m
unfolding erase size
size-erase key [] = ground arith
size-erase key (entry ∷ rest) = ground (arith, size-erase key rest)

-- What is found is what goes.
pub size-erase_found {ℓ} :
    {V : Type ℓ} (key : String) (value : V) (m : Dict V)
    → lookup key m ≡ some value
    → size (erase key m) < size m
unfolding erase size lookup
size-erase_found key value [] found = ground arith
size-erase_found key value (entry ∷ rest) found =
    ground (arith, size-erase key rest, size-erase_found key value rest)

pub ruleset dict_laws = (lookup-nil, lookup-insert, lookup-erase)
