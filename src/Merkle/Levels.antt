-- ===== src/Merkle/Levels.antt =====
-- The tree read from below, level by level: `pair` makes the next level of nodes, `root` is the
-- last level, and a path collects the sibling of a node at each level. RFC 6962 splits from above.
use cryptovalid_opencore.Prelude.{
  ℕ, zero, suc, ◌+◌, ◌-◌, ◌*◌, ◌/◌, ◌≤◌, ◌<◌, ◌≡◌, refl, ap, arith, Bool, List, [], ◌∷◌, ◌++◌,
  length, get_or, take, drop, take-nil, drop-nil, true, false, ltb, lt→ltb, odd, if◌then◌else◌,
}
use cryptovalid_opencore.Bytes.{Bytes, Digest}
use cryptovalid_opencore.Merkle.{node_hash}

abbrev pub double : ℕ → ℕ
double zero = zero
double (suc n) = suc (suc (double n))

pub double_lem : (n : ℕ) → double n ≡ n * 2
double_lem zero = refl
double_lem (suc n) = omega (arith, double_lem n)

abbrev pub at : List Bytes → ℕ → Bytes
at level i = get_or level i []

-- A sibling's hash, with `true` where the node under it is the right child.
abbrev pub Step : Type 0
Step = Bool × Bytes

abbrev pub is_right : Step → Bool
is_right s = s.0

abbrev pub hash_of : Step → Bytes
hash_of s = s.1

-- the sibling of node i, where it has one on its level
unfoldable pub sibling : ℕ → List Bytes → List Step
sibling i level =
    if odd i
    then (true, at level (i - 1)) ∷ []
    else if ltb (i + 1) (length level)
    then (false, at level (i + 1)) ∷ []
    else []

module _ (D : Digest) where
  unfoldable pub pair : List Bytes → List Bytes
  pair [] = []
  pair (a ∷ []) = a ∷ []
  pair (a ∷ b ∷ rest) = node_hash D a b ∷ pair rest

  unfoldable pub root_fuel : ℕ → List Bytes → Bytes
  root_fuel fuel [] = []
  root_fuel fuel (a ∷ []) = a
  root_fuel zero (a ∷ b ∷ rest) = []
  root_fuel (suc fuel) (a ∷ b ∷ rest) = root_fuel fuel (pair (a ∷ b ∷ rest))

  unfoldable pub root : List Bytes → Bytes
  root level = root_fuel (length level) level

  unfoldable pub path_fuel : ℕ → ℕ → List Bytes → List Step
  path_fuel fuel i [] = []
  path_fuel fuel i (a ∷ []) = []
  path_fuel zero i (a ∷ b ∷ rest) = []
  path_fuel (suc fuel) i (a ∷ b ∷ rest) =
      sibling i (a ∷ b ∷ rest) ++ path_fuel fuel (i / 2) (pair (a ∷ b ∷ rest))

  -- the siblings of leaf i and of its ancestors, from below
  unfoldable pub path : ℕ → List Bytes → List Step
  path i level = path_fuel (length level) i level

  pub length-pair : (xs : List Bytes) → length (pair xs) ≡ (length xs + 1) / 2
  unfolding pair
  length-pair [] = refl
  length-pair (a ∷ []) = refl
  length-pair (a ∷ b ∷ rest) = omega (arith, length-pair rest)

  pub take-pair : (k : ℕ) (xs : List Bytes) → take k (pair xs) ≡ pair (take (double k) xs)
  unfolding pair
  take-pair zero xs = refl
  take-pair (suc k) [] = refl
  take-pair (suc k) (a ∷ []) = rw (take-nil k, take-nil (suc (double k)))
  take-pair (suc k) (a ∷ b ∷ rest) = ap (λ t. node_hash D a b ∷ t) (take-pair k rest)

  pub drop-pair : (k : ℕ) (xs : List Bytes) → drop k (pair xs) ≡ pair (drop (double k) xs)
  unfolding pair
  drop-pair zero xs = refl
  drop-pair (suc k) [] = refl
  drop-pair (suc k) (a ∷ []) = rw (drop-nil k, drop-nil (suc (double k)))
  drop-pair (suc k) (a ∷ b ∷ rest) = drop-pair k rest

  -- node i of the next level hashes its two children
  pub at-pair :
      (i : ℕ) (xs : List Bytes)
      → double i + 1 < length xs
      → at (pair xs) i ≡ node_hash D (at xs (double i)) (at xs (suc (double i)))
  unfolding pair
  at-pair i [] h = elim h [ ]
  at-pair i (a ∷ []) h = absurd (omega arith)
  at-pair zero (a ∷ b ∷ rest) h = refl
  at-pair (suc i) (a ∷ b ∷ rest) h = at-pair i rest (omega arith)

  -- the last node of a level with an odd number of them goes up as it is
  pub at-pair_last :
      (i : ℕ) (xs : List Bytes) → double i + 1 ≡ length xs → at (pair xs) i ≡ at xs (double i)
  unfolding pair
  at-pair_last i [] h = absurd (omega arith)
  at-pair_last zero (a ∷ []) h = refl
  at-pair_last (suc i) (a ∷ []) h = absurd (omega arith)
  at-pair_last zero (a ∷ b ∷ rest) h = absurd (omega arith)
  at-pair_last (suc i) (a ∷ b ∷ rest) h = at-pair_last i rest (omega arith)

  root_fuel_irrelevant :
      (f g : ℕ) (xs : List Bytes)
      → length xs ≤ f + 1
      → length xs ≤ g + 1
      → root_fuel f xs ≡ root_fuel g xs
  unfolding root_fuel
  root_fuel_irrelevant f g [] p q = refl
  root_fuel_irrelevant f g (a ∷ []) p q = refl
  root_fuel_irrelevant zero g (a ∷ b ∷ rest) p q = absurd (omega arith)
  root_fuel_irrelevant (suc f) zero (a ∷ b ∷ rest) p q = absurd (omega arith)
  root_fuel_irrelevant (suc f) (suc g) (a ∷ b ∷ rest) p q =
      let l = length-pair (a ∷ b ∷ rest) in
      root_fuel_irrelevant f g (pair (a ∷ b ∷ rest)) (omega arith) (omega arith)

  path_fuel_irrelevant :
      (f g i : ℕ) (xs : List Bytes)
      → length xs ≤ f + 1
      → length xs ≤ g + 1
      → path_fuel f i xs ≡ path_fuel g i xs
  unfolding path_fuel
  path_fuel_irrelevant f g i [] p q = refl
  path_fuel_irrelevant f g i (a ∷ []) p q = refl
  path_fuel_irrelevant zero g i (a ∷ b ∷ rest) p q = absurd (omega arith)
  path_fuel_irrelevant (suc f) zero i (a ∷ b ∷ rest) p q = absurd (omega arith)
  path_fuel_irrelevant (suc f) (suc g) i (a ∷ b ∷ rest) p q =
      let l = length-pair (a ∷ b ∷ rest) in
      ap (λ t. sibling i (a ∷ b ∷ rest) ++ t)
        (path_fuel_irrelevant f g (i / 2) (pair (a ∷ b ∷ rest)) (omega arith) (omega arith))

  -- one level up the root is the same
  pub root-pair : (xs : List Bytes) → root xs ≡ root (pair xs)
  unfolding root root_fuel
  root-pair [] = unfold pair in refl
  root-pair (a ∷ []) = unfold pair in refl
  root-pair (a ∷ b ∷ rest) =
      let l = length-pair (a ∷ b ∷ rest) in
      root_fuel_irrelevant (suc (length rest)) (length (pair (a ∷ b ∷ rest))) (pair (a ∷ b ∷ rest))
        (omega arith) (omega arith)

  pub path-pair :
      (i : ℕ) (xs : List Bytes) → i < length xs → path i xs ≡ sibling i xs ++ path (i / 2) (pair xs)
  unfolding path path_fuel
  path-pair i [] h = elim h [ ]
  path-pair zero (a ∷ []) h = unfold pair sibling in refl
  path-pair (suc i) (a ∷ []) h = absurd (omega arith)
  path-pair i (a ∷ b ∷ rest) h =
      let l = length-pair (a ∷ b ∷ rest) in
      ap (λ t. sibling i (a ∷ b ∷ rest) ++ t)
        (path_fuel_irrelevant (suc (length rest)) (length (pair (a ∷ b ∷ rest))) (i / 2)
          (pair (a ∷ b ∷ rest)) (omega arith) (omega arith))

  pub root_one : (xs : List Bytes) → length xs ≡ 1 → root xs ≡ at xs 0
  unfolding root root_fuel
  root_one [] h = refl
  root_one (a ∷ []) h = refl
  root_one (a ∷ b ∷ rest) h = absurd (omega arith)

  pub path_one : (i : ℕ) (xs : List Bytes) → length xs ≡ 1 → path i xs ≡ []
  unfolding path path_fuel
  path_one i [] h = refl
  path_one i (a ∷ []) h = refl
  path_one i (a ∷ b ∷ rest) h = absurd (omega arith)

  -- the parent of a right child, of a left child and of a child without a sibling
  pub parent_right :
      (i : ℕ) (xs : List Bytes)
      → odd i ≡ true
      → i < length xs
      → at (pair xs) (i / 2) ≡ node_hash D (at xs (i - 1)) (at xs i)
  parent_right i xs e h =
      let d = double_lem (i / 2) in
      let below : double (i / 2) ≡ i - 1 = ground arith in
      let same : suc (i - 1) ≡ i = ground arith in
      rw same at (rw below at (at-pair (i / 2) xs (ground arith)))

  pub parent_left :
      (i : ℕ) (xs : List Bytes)
      → odd i ≡ false
      → i + 1 < length xs
      → at (pair xs) (i / 2) ≡ node_hash D (at xs i) (at xs (i + 1))
  parent_left i xs e h =
      let d = double_lem (i / 2) in
      let below : double (i / 2) ≡ i = ground arith in
      let next : suc i ≡ i + 1 = omega arith in
      rw next at (rw below at (at-pair (i / 2) xs (ground arith)))

  pub parent_alone :
      (i : ℕ) (xs : List Bytes) → odd i ≡ false → i + 1 ≡ length xs → at (pair xs) (i / 2) ≡ at xs i
  parent_alone i xs e h =
      let d = double_lem (i / 2) in
      let below : double (i / 2) ≡ i = ground arith in
      rw below at (at-pair_last (i / 2) xs (ground arith))

pub sibling_right :
    (i : ℕ) (xs : List Bytes) → odd i ≡ true → sibling i xs ≡ (true, at xs (i - 1)) ∷ []
unfolding sibling
sibling_right i xs e = rw e

pub sibling_left :
    (i : ℕ) (xs : List Bytes)
    → odd i ≡ false
    → i + 1 < length xs
    → sibling i xs ≡ (false, at xs (i + 1)) ∷ []
unfolding sibling
sibling_left i xs e h = rw (e, lt→ltb (i + 1) (length xs) h)

pub sibling_alone :
    (i : ℕ) (xs : List Bytes) → odd i ≡ false → i + 1 ≡ length xs → sibling i xs ≡ []
unfolding sibling
sibling_alone i xs e h = ground arith
