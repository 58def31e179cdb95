-- ===== src/Merkle/Descent.antt =====
-- Chains of node hashes that end in `mth` of a list of leaves, followed down the tree of those
-- leaves.
use cryptovalid_opencore.Prelude.{
  ℕ, ◌+◌, ◌-◌, ◌≤◌, ◌<◌, ◌≡◌, refl, sym, ap, ◌∙◌, arith, Bool, true, false, ◌⊎◌, inl, inr, List, [],
  ◌∷◌, ◌++◌, length, map, take, drop, length-take, length-drop, length-append, take-map, drop-map,
  get_or, get_or-take, get_or-drop, ◌==◌, ==_iff, Bool-cases,
}
use cryptovalid_opencore.Bytes.{Bytes, Digest, Collision, hash_inject}
use cryptovalid_opencore.Merkle.{leaf_hash, node_hash, largest_pow2_below, mth}
use cryptovalid_opencore.Merkle.Split.{split-pos, split-lt}
use cryptovalid_opencore.Merkle.Levels.{Step, is_right, root_one}
use cryptovalid_opencore.Merkle.Tree.{split_at, mth-eq-root, root-split_map}

-- appended lists that agree, with a part of one length
append_inject : (a b c d : Bytes) → length a ≡ length c → a ++ b ≡ c ++ d → (a ≡ c) × (b ≡ d)
append_inject [] b [] d l e = (refl, e)
append_inject [] b (x ∷ c) d l e = absurd (omega arith)
append_inject (x ∷ a) b [] d l e = absurd (omega arith)
append_inject (x ∷ a) b (y ∷ c) d l e =
    let heads : x ≡ y = cc in
    let tails : a ++ b ≡ c ++ d = cc in
    let (front, back) = append_inject a b c d (omega arith) tails in (cc, back)

append_inject_back : (a b c d : Bytes) → length b ≡ length d → a ++ b ≡ c ++ d → (a ≡ c) × (b ≡ d)
append_inject_back a b c d l e =
    append_inject a b c d (omega (arith, length-append a b, length-append c d, ap length e)) e

-- The leaves that a sequence of directions from the root may reach, in a tree of n leaves.
pub data Reaches : ℕ → List Bool → ℕ → Type 0 where
  here : {n : ℕ} → n ≡ 1 → Reaches n [] 0
  left :
      {n : ℕ} {ds : List Bool} {i : ℕ}
      → 2 ≤ n
      → Reaches (largest_pow2_below n) ds i
      → Reaches n (false ∷ ds) i
  right :
      {n : ℕ} {ds : List Bool} {i j : ℕ}
      → 2 ≤ n
      → Reaches (n - largest_pow2_below n) ds i
      → j ≡ largest_pow2_below n + i
      → Reaches n (true ∷ ds) j

module _ (D : Digest) where
  -- the prefixes 0 and 1 keep leaves and nodes apart
  leaf_inject : (a b : Bytes) → leaf_hash D a ≡ leaf_hash D b → (a ≡ b) ⊎ Collision D
  unfolding leaf_hash
  leaf_inject a b e = elim (hash_inject D (0 ∷ a) (0 ∷ b) e) [ inl p ↦ inl (cc) | inr c ↦ inr c ]

  leaf-ne-node : (a b c : Bytes) → leaf_hash D a ≡ node_hash D b c → Collision D
  unfolding leaf_hash node_hash
  leaf-ne-node a b c e = elim (hash_inject D (0 ∷ a) (1 ∷ b ++ c) e) [
    | inl p ↦ absurd (grind arith)
    | inr c ↦ c
  ]

  pub node_inject :
      (a b c d : Bytes)
      → (length a ≡ length c) ⊎ (length b ≡ length d)
      → node_hash D a b ≡ node_hash D c d
      → ((a ≡ c) × (b ≡ d)) ⊎ Collision D
  unfolding node_hash
  node_inject a b c d l e = elim (hash_inject D (1 ∷ a ++ b) (1 ∷ c ++ d) e) [
    | inl p ↦
        let same : a ++ b ≡ c ++ d = cc in
        elim l [
          | inl front ↦ inl (append_inject a b c d front same)
          | inr back ↦ inl (append_inject_back a b c d back same)
        ]
    | inr c ↦ inr c
  ]

  -- the hash that a chain of steps, the topmost first, makes of `h`
  unfoldable pub value : Bytes → List Step → Bytes
  value h [] = h
  value h ((true, p) ∷ steps) = node_hash D p (value h steps)
  value h ((false, p) ∷ steps) = node_hash D (value h steps) p

  length-value : (d : Bytes) (steps : List Step) → length (value (leaf_hash D d) steps) ≡ 32
  unfolding value leaf_hash node_hash
  length-value d [] = D.length-hash (0 ∷ d)
  length-value d ((true, p) ∷ steps) = D.length-hash (1 ∷ p ++ value (leaf_hash D d) steps)
  length-value d ((false, p) ∷ steps) = D.length-hash (1 ∷ value (leaf_hash D d) steps ++ p)

  pub mth_one : (xs : List Bytes) → length xs ≡ 1 → mth D xs ≡ leaf_hash D (get_or xs 0 [])
  mth_one [] h = absurd (omega arith)
  mth_one (x ∷ []) h = mth-eq-root D (x ∷ []) (omega arith) ∙ root_one D (leaf_hash D x ∷ []) refl
  mth_one (x ∷ y ∷ xs) h = absurd (omega arith)

  -- the recursion of `mth` with no fuel
  pub mth-split :
      (xs : List Bytes)
      → 2 ≤ length xs
      → mth D xs ≡ node_hash D (mth D (take (split_at xs) xs)) (mth D (drop (split_at xs) xs))
  mth-split xs h =
      let f : Bytes → Bytes = leaf_hash D in
      let k = split_at xs in
      let pos = split-pos (length xs) h in
      let lt = split-lt (length xs) h in
      let in_left = length-take k xs in
      let in_right = length-drop k xs in
      rw
        (
          mth-eq-root D xs (omega arith),
          mth-eq-root D (take k xs) (omega arith),
          mth-eq-root D (drop k xs) (omega arith),
          ← take-map f k xs,
          ← drop-map f k xs,
        )
        (root-split_map D f xs h)

  pub length-mth : (xs : List Bytes) → 1 ≤ length xs → length (mth D xs) ≡ 32
  length-mth xs h = elim (Bool-cases (length xs == 1)) [
    | inl one ↦
        rw (mth_one xs ((==_iff _ _).0 one))
          (unfold leaf_hash in D.length-hash (0 ∷ get_or xs 0 []))
    | inr more ↦ rw (mth-split xs (ground arith)) (
        unfold node_hash in
        D.length-hash (1 ∷ mth D (take (split_at xs) xs) ++ mth D (drop (split_at xs) xs)))
  ]

  -- what a chain of directions `ds` over the leaf `d` finds in the tree of `xs`
  abbrev pub Found : Bytes → List Bool → List Bytes → Type 0
  Found d ds xs = (i : ℕ) × Reaches (length xs) ds i × (i < length xs) × (get_or xs i [] ≡ d)

  Found-left :
      (d : Bytes) (ds : List Bool) (xs : List Bytes)
      → 2 ≤ length xs
      → Found d ds (take (split_at xs) xs)
      → Found d (false ∷ ds) xs
  Found-left d ds xs h (i, r, lt, e) =
      let k = split_at xs in
      let small = split-lt (length xs) h in
      let size : length (take k xs) ≡ k = omega (arith, length-take k xs) in
      (i, left h (rw size at r), omega arith, sym (get_or-take k i xs [] (omega arith)) ∙ e)

  Found-right :
      (d : Bytes) (ds : List Bool) (xs : List Bytes)
      → 2 ≤ length xs
      → Found d ds (drop (split_at xs) xs)
      → Found d (true ∷ ds) xs
  Found-right d ds xs h (i, r, lt, e) =
      let k = split_at xs in
      let size = length-drop k xs in
      (k + i, right h (rw size at r) refl, omega arith, sym (get_or-drop k i xs []) ∙ e)

  -- A chain over a leaf hash that gives `mth xs` follows directions that reach a leaf of xs, and
  -- that leaf is its start.
  pub descend :
      (d : Bytes) (steps : List Step) (xs : List Bytes)
      → 1 ≤ length xs
      → value (leaf_hash D d) steps ≡ mth D xs
      → Found d (map is_right steps) xs ⊎ Collision D
  unfolding value
  descend d [] xs p e = elim (Bool-cases (length xs == 1)) [
    | inl one ↦
        let single : length xs ≡ 1 = (==_iff _ _).0 one in
        elim (leaf_inject d (get_or xs 0 []) (e ∙ mth_one xs single)) [
          | inl same ↦ inl (0, here single, p, sym same)
          | inr c ↦ inr c
        ]
    | inr more ↦ inr (leaf-ne-node d _ _ (e ∙ mth-split xs (ground arith)))
  ]
  descend d ((true, p) ∷ steps) xs q e = elim (Bool-cases (length xs == 1)) [
    | inl one ↦ inr (leaf-ne-node _ _ _ (sym (e ∙ mth_one xs ((==_iff _ _).0 one))))
    | inr more ↦
        let two : 2 ≤ length xs = ground arith in
        let k = split_at xs in
        let lt = split-lt (length xs) two in
        let rest : 1 ≤ length (drop k xs) = omega (arith, length-drop k xs) in
        let sizes = length-value d steps ∙ sym (length-mth (drop k xs) rest) in
        elim (node_inject _ _ _ _ (inr sizes) (e ∙ mth-split xs two)) [
          | inl (_, below) ↦ elim (descend d steps (drop k xs) rest below) [
            | inl found ↦ inl (Found-right d (map is_right steps) xs two found)
            | inr c ↦ inr c
          ]
          | inr c ↦ inr c
        ]
  ]
  descend d ((false, p) ∷ steps) xs q e = elim (Bool-cases (length xs == 1)) [
    | inl one ↦ inr (leaf-ne-node _ _ _ (sym (e ∙ mth_one xs ((==_iff _ _).0 one))))
    | inr more ↦
        let two : 2 ≤ length xs = ground arith in
        let k = split_at xs in
        let pos = split-pos (length xs) two in
        let rest : 1 ≤ length (take k xs) = omega (arith, length-take k xs) in
        let sizes = length-value d steps ∙ sym (length-mth (take k xs) rest) in
        elim (node_inject _ _ _ _ (inl sizes) (e ∙ mth-split xs two)) [
          | inl (below, _) ↦ elim (descend d steps (take k xs) rest below) [
            | inl found ↦ inl (Found-left d (map is_right steps) xs two found)
            | inr c ↦ inr c
          ]
          | inr c ↦ inr c
        ]
  ]
