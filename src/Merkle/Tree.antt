-- ===== src/Merkle/Tree.antt =====
-- cryptovalid_merkle.py: `mth`, which splits from above, and the levels, which are built from
-- below.
use cryptovalid_opencore.Prelude.{
  ℕ, zero, suc, ◌+◌, ◌-◌, ◌*◌, ◌≤◌, ◌<◌, ◌≡◌, refl, sym, ap, ap₂, ◌∙◌, ◌≡⟨◌⟩◌, ◌∎, arith, List, [],
  ◌∷◌, length, map, take, drop, length-take, length-drop, length-map, take-map, drop-map,
  get_or-take, get_or-drop,
}
use cryptovalid_opencore.Bytes.{Bytes, Digest}
use cryptovalid_opencore.Merkle.{leaf_hash, node_hash, largest_pow2_below, mth_fuel, mth}
use cryptovalid_opencore.Merkle.Split.{split-pos, split-lt, split-double}
use cryptovalid_opencore.Merkle.Levels.{
  double, double_lem, sibling, pair, root, length-pair, take-pair, drop-pair, root-pair, root_one,
}

abbrev pub split_at : List Bytes → ℕ
split_at xs = largest_pow2_below (length xs)

pub sibling-take :
    (i k : ℕ) (xs : List Bytes)
    → i < double k
    → double k ≤ length xs
    → sibling i (take (double k) xs) ≡ sibling i xs
unfolding sibling
sibling-take i k xs p q = ground (
  arith,
  length-take (double k) xs,
  double_lem k,
  get_or-take (double k) (i - 1) xs [],
  get_or-take (double k) (i + 1) xs [],
)

pub sibling-drop :
    (i k : ℕ) (xs : List Bytes)
    → double k ≤ i
    → sibling (i - double k) (drop (double k) xs) ≡ sibling i xs
unfolding sibling
sibling-drop i k xs p = ground (
  arith,
  length-drop (double k) xs,
  double_lem k,
  get_or-drop (double k) (i - double k - 1) xs [],
  get_or-drop (double k) (i - double k + 1) xs [],
)

module _ (D : Digest) where
  pub double-split_at :
      (xs : List Bytes) → 3 ≤ length xs → double (split_at (pair D xs)) ≡ split_at xs
  double-split_at xs h =
      double_lem _
      ∙ (ap (λ n. largest_pow2_below n * 2) (length-pair D xs) ∙ sym (split-double (length xs) h))

  pub root_two : (a b : Bytes) → root D (a ∷ b ∷ []) ≡ node_hash D a b
  unfolding pair
  root_two a b = root-pair D (a ∷ b ∷ []) ∙ root_one D (node_hash D a b ∷ []) refl

  -- the root of a level hashes the roots of its two parts
  root-split_below :
      (bound : ℕ) (xs : List Bytes)
      → length xs ≤ bound
      → 2 ≤ length xs
      → root D xs ≡ node_hash D (root D (take (split_at xs) xs)) (root D (drop (split_at xs) xs))
  root-split_below zero xs p q = absurd (omega arith)
  root-split_below (suc bound) [] p q = absurd (omega arith)
  root-split_below (suc bound) (a ∷ []) p q = absurd (omega arith)
  root-split_below (suc bound) (a ∷ b ∷ []) p q =
      unfold largest_pow2_below in
      root_two a b
      ∙ ap₂ (node_hash D) (sym (root_one D (a ∷ []) refl)) (sym (root_one D (b ∷ []) refl))
  root-split_below (suc bound) (a ∷ b ∷ c ∷ rest) p q =
      let xs : List Bytes = a ∷ b ∷ c ∷ rest in
      let l = length-pair D xs in
      let e = double-split_at xs (omega arith) in
      root D xs
      ≡⟨ root-pair D xs ⟩ root D (pair D xs)
      ≡⟨ root-split_below bound (pair D xs) (omega arith) (omega arith) ⟩
        node_hash D (root D (take (split_at (pair D xs)) (pair D xs)))
          (root D (drop (split_at (pair D xs)) (pair D xs)))
      ≡⟨ (rw (take-pair D (split_at (pair D xs)) xs, drop-pair D (split_at (pair D xs)) xs, e)) ⟩
        node_hash D (root D (pair D (take (split_at xs) xs)))
          (root D (pair D (drop (split_at xs) xs)))
      ≡⟨ ap₂ (node_hash D) (sym (root-pair D _)) (sym (root-pair D _)) ⟩
        node_hash D (root D (take (split_at xs) xs)) (root D (drop (split_at xs) xs)) ∎

  pub root-split :
      (xs : List Bytes)
      → 2 ≤ length xs
      → root D xs ≡ node_hash D (root D (take (split_at xs) xs)) (root D (drop (split_at xs) xs))
  root-split xs = root-split_below (length xs) xs (omega arith)

  pub root-split_map :
      (f : Bytes → Bytes) (xs : List Bytes)
      → 2 ≤ length xs
      → root D (map f xs)
        ≡ node_hash D
            (root D (take (split_at xs) (map f xs)))
            (root D (drop (split_at xs) (map f xs)))
  root-split_map f xs h =
      rw (length-map f xs) at (root-split (map f xs) (omega (arith, length-map f xs)))

  -- `mth` hashes the leaves and takes the root of that level
  mth_fuel-eq-root :
      (fuel : ℕ) (leaves : List Bytes)
      → 1 ≤ length leaves
      → length leaves ≤ suc fuel
      → mth_fuel D fuel leaves ≡ root D (map (leaf_hash D) leaves)
  unfolding mth_fuel
  mth_fuel-eq-root fuel [] p q = elim p [ ]
  mth_fuel-eq-root fuel (d ∷ []) p q = sym (root_one D (leaf_hash D d ∷ []) refl)
  mth_fuel-eq-root zero (d ∷ e ∷ rest) p q = absurd (omega arith)
  mth_fuel-eq-root (suc fuel) (d ∷ e ∷ rest) p q =
      let leaves : List Bytes = d ∷ e ∷ rest in
      let f : Bytes → Bytes = leaf_hash D in
      let k = split_at leaves in
      let pos = split-pos (length leaves) (omega arith) in
      let lt = split-lt (length leaves) (omega arith) in
      let lt_left = length-take k leaves in
      let lt_right = length-drop k leaves in
      ap₂ (node_hash D)
        (mth_fuel-eq-root fuel (take k leaves) (omega arith) (omega arith)
          ∙ ap (root D) (sym (take-map f k leaves)))
        (mth_fuel-eq-root fuel (drop k leaves) (omega arith) (omega arith)
          ∙ ap (root D) (sym (drop-map f k leaves)))
      ∙ sym (root-split_map f leaves (omega arith))

  -- For a list of at least one leaf the recursion of `mth` returns the root of the tree that is built
  -- level by level: the leaf hashes are paired, a last node without a partner goes up as it is, until
  -- one is left.
  pub mth-eq-root :
      (leaves : List Bytes) → 1 ≤ length leaves → mth D leaves ≡ root D (map (leaf_hash D) leaves)
  unfolding mth
  mth-eq-root leaves h = mth_fuel-eq-root (length leaves) leaves h (omega arith)
