-- ===== src/Merkle/Audit.antt =====
-- cryptovalid_merkle.py: `inclusion_proof` and the path of a leaf, read from below.
use cryptovalid_opencore.Prelude.{
  ℕ, zero, suc, ◌-◌, ◌/◌, ◌≤◌, ◌<◌, ◌≡◌, refl, sym, ap, ap₂, ◌∙◌, map-append, ◌≡⟨◌⟩◌, ◌∎, arith,
  true, false, inl, inr, some, List, [], ◌∷◌, ◌++◌, append_assoc, length, map, take, drop,
  length-take, length-drop, length-map, take-map, drop-map, ltb, ◌==◌, lt→ltb, ltb→lt, ==_iff,
  Bool-cases,
}
use cryptovalid_opencore.Bytes.{Bytes, Digest}
use cryptovalid_opencore.Merkle.{
  leaf_hash, node_hash, largest_pow2_below, inclusion_fuel, inclusion_proof,
}
use cryptovalid_opencore.Merkle.Split.{split-pos, split-lt}
use cryptovalid_opencore.Merkle.Levels.{
  Step, hash_of, double, double_lem, sibling, pair, root, path, length-pair, take-pair, drop-pair,
  root-pair, path-pair, root_one, path_one,
}
use cryptovalid_opencore.Merkle.Tree.{
  split_at, double-split_at, mth-eq-root, sibling-take, sibling-drop,
}

pub last_hash :
    {steps : List Step} (front : List Step) (last : Step)
    → steps ≡ front ++ last ∷ []
    → map hash_of steps ≡ map hash_of front ++ hash_of last ∷ []
last_hash front last e = ap (map hash_of) e ∙ map-append hash_of front (last ∷ [])

module _ (D : Digest) where
  path_two : (a b : Bytes) → path D 0 (a ∷ b ∷ []) ≡ (false, b) ∷ []
  unfolding pair sibling
  path_two a b =
      path-pair D 0 (a ∷ b ∷ []) (omega arith)
      ∙ ap (λ t. (false, b) ∷ t) (path_one D 0 (node_hash D a b ∷ []) refl)

  path_two_right : (a b : Bytes) → path D 1 (a ∷ b ∷ []) ≡ (true, a) ∷ []
  unfolding pair sibling
  path_two_right a b =
      path-pair D 1 (a ∷ b ∷ []) (omega arith)
      ∙ ap (λ t. (true, a) ∷ t) (path_one D 0 (node_hash D a b ∷ []) refl)

  path_two_left_split :
      (i : ℕ) (a b : Bytes)
      → i < 1
      → path D i (a ∷ b ∷ []) ≡ path D i (a ∷ []) ++ (false, root D (b ∷ [])) ∷ []
  path_two_left_split zero a b h =
      path_two a b
      ∙ sym (
          ap₂ (λ t r. t ++ (false, r) ∷ []) (path_one D 0 (a ∷ []) refl) (root_one D (b ∷ []) refl))
  path_two_left_split (suc i) a b h = absurd (omega arith)

  path_two_right_split :
      (i : ℕ) (a b : Bytes)
      → 1 ≤ i
      → i < 2
      → path D i (a ∷ b ∷ []) ≡ path D (i - 1) (b ∷ []) ++ (true, root D (a ∷ [])) ∷ []
  path_two_right_split i a b p q =
      let one : i ≡ 1 = omega arith in
      rw one (
        path_two_right a b
        ∙ sym (
            ap₂ (λ t r. t ++ (true, r) ∷ []) (path_one D 0 (b ∷ []) refl)
              (root_one D (a ∷ []) refl)))

  path-pair_append :
      (i : ℕ) (xs : List Bytes) (ys : List Step)
      → i < length xs
      → sibling i xs ++ (path D (i / 2) (pair D xs) ++ ys) ≡ path D i xs ++ ys
  path-pair_append i xs ys h = sym (
      ap (λ t. t ++ ys) (path-pair D i xs h)
      ∙ append_assoc (sibling i xs) (path D (i / 2) (pair D xs)) ys)

  -- a path in the left part ends with the root of the right part
  path-left_below :
      (bound i : ℕ) (xs : List Bytes)
      → length xs ≤ bound
      → 2 ≤ length xs
      → i < split_at xs
      → path D i xs
        ≡ path D i (take (split_at xs) xs) ++ (false, root D (drop (split_at xs) xs)) ∷ []
  path-left_below zero i xs p q r = absurd (omega arith)
  path-left_below (suc bound) i [] p q r = absurd (omega arith)
  path-left_below (suc bound) i (a ∷ []) p q r = absurd (omega arith)
  path-left_below (suc bound) i (a ∷ b ∷ []) p q r =
      unfold largest_pow2_below in path_two_left_split i a b r
  path-left_below (suc bound) i (a ∷ b ∷ c ∷ rest) p q r =
      let xs : List Bytes = a ∷ b ∷ c ∷ rest in
      let l = length-pair D xs in
      let e = double-split_at D xs (omega arith) in
      let k = split_at (pair D xs) in
      let d = double_lem k in
      let lt = split-lt (length xs) (omega arith) in
      let lt_left = length-take (double k) xs in
      path D i xs
      ≡⟨ path-pair D i xs (omega arith) ⟩ sibling i xs ++ path D (i / 2) (pair D xs)
      ≡⟨ ap (λ t. sibling i xs ++ t)
          (path-left_below bound (i / 2) (pair D xs) (omega arith) (omega arith) (omega arith)) ⟩
        sibling i xs
        ++ (path D (i / 2) (take k (pair D xs)) ++ (false, root D (drop k (pair D xs))) ∷ [])
      ≡⟨ (rw (
        take-pair D k xs,
        drop-pair D k xs,
        ← sibling-take i k xs (omega arith) (omega arith),
        ← root-pair D (drop (double k) xs),
      )) ⟩
        sibling i (take (double k) xs)
        ++ (path D (i / 2) (pair D (take (double k) xs))
            ++ (false, root D (drop (double k) xs)) ∷ [])
      ≡⟨ path-pair_append i (take (double k) xs) ((false, root D (drop (double k) xs)) ∷ [])
          (omega arith) ⟩
        path D i (take (double k) xs) ++ (false, root D (drop (double k) xs)) ∷ []
      ≡⟨ (rw e) ⟩ path D i (take (split_at xs) xs) ++ (false, root D (drop (split_at xs) xs)) ∷ [] ∎

  path-right_below :
      (bound i : ℕ) (xs : List Bytes)
      → length xs ≤ bound
      → 2 ≤ length xs
      → split_at xs ≤ i
      → i < length xs
      → path D i xs
        ≡ path D (i - split_at xs) (drop (split_at xs) xs)
          ++ (true, root D (take (split_at xs) xs)) ∷ []
  path-right_below zero i xs p q r h = absurd (omega arith)
  path-right_below (suc bound) i [] p q r h = absurd (omega arith)
  path-right_below (suc bound) i (a ∷ []) p q r h = absurd (omega arith)
  path-right_below (suc bound) i (a ∷ b ∷ []) p q r h =
      unfold largest_pow2_below in path_two_right_split i a b r h
  path-right_below (suc bound) i (a ∷ b ∷ c ∷ rest) p q r h =
      let xs : List Bytes = a ∷ b ∷ c ∷ rest in
      let l = length-pair D xs in
      let e = double-split_at D xs (omega arith) in
      let k = split_at (pair D xs) in
      let d = double_lem k in
      let lt_right = length-drop (double k) xs in
      let halves : i / 2 - k ≡ (i - double k) / 2 = omega arith in
      path D i xs
      ≡⟨ path-pair D i xs h ⟩ sibling i xs ++ path D (i / 2) (pair D xs)
      ≡⟨ ap (λ t. sibling i xs ++ t)
          (path-right_below bound (i / 2) (pair D xs) (omega arith) (omega arith) (omega arith)
            (omega arith)) ⟩
        sibling i xs
        ++ (path D (i / 2 - k) (drop k (pair D xs)) ++ (true, root D (take k (pair D xs))) ∷ [])
      ≡⟨ (rw (
        take-pair D k xs,
        drop-pair D k xs,
        ← sibling-drop i k xs (omega arith),
        ← root-pair D (take (double k) xs),
        halves,
      )) ⟩
        sibling (i - double k) (drop (double k) xs)
        ++ (path D ((i - double k) / 2) (pair D (drop (double k) xs))
            ++ (true, root D (take (double k) xs)) ∷ [])
      ≡⟨ path-pair_append (i - double k) (drop (double k) xs)
          ((true, root D (take (double k) xs)) ∷ []) (omega arith) ⟩
        path D (i - double k) (drop (double k) xs) ++ (true, root D (take (double k) xs)) ∷ []
      ≡⟨ (rw e) ⟩
        path D (i - split_at xs) (drop (split_at xs) xs)
        ++ (true, root D (take (split_at xs) xs)) ∷ [] ∎

  pub path-left :
      (i : ℕ) (xs : List Bytes)
      → 2 ≤ length xs
      → i < split_at xs
      → path D i xs
        ≡ path D i (take (split_at xs) xs) ++ (false, root D (drop (split_at xs) xs)) ∷ []
  path-left i xs = path-left_below (length xs) i xs (omega arith)

  pub path-right :
      (i : ℕ) (xs : List Bytes)
      → 2 ≤ length xs
      → split_at xs ≤ i
      → i < length xs
      → path D i xs
        ≡ path D (i - split_at xs) (drop (split_at xs) xs)
          ++ (true, root D (take (split_at xs) xs)) ∷ []
  path-right i xs = path-right_below (length xs) i xs (omega arith)

  abbrev pub hashed : List Bytes → List Bytes
  hashed = map (leaf_hash D)

  path-left_map :
      (i : ℕ) (leaves : List Bytes)
      → 2 ≤ length leaves
      → i < split_at leaves
      → path D i (hashed leaves)
        ≡ path D i (hashed (take (split_at leaves) leaves))
          ++ (false, root D (hashed (drop (split_at leaves) leaves))) ∷ []
  path-left_map i leaves p q =
      rw
        (
          ← take-map (leaf_hash D) (split_at leaves) leaves,
          ← drop-map (leaf_hash D) (split_at leaves) leaves,
        )
        (rw (length-map (leaf_hash D) leaves) at (
          path-left i (hashed leaves) (rw (length-map (leaf_hash D) leaves) p)
            (rw (length-map (leaf_hash D) leaves) q)))

  path-right_map :
      (i : ℕ) (leaves : List Bytes)
      → 2 ≤ length leaves
      → split_at leaves ≤ i
      → i < length leaves
      → path D i (hashed leaves)
        ≡ path D (i - split_at leaves) (hashed (drop (split_at leaves) leaves))
          ++ (true, root D (hashed (take (split_at leaves) leaves))) ∷ []
  path-right_map i leaves p q r =
      rw
        (
          ← take-map (leaf_hash D) (split_at leaves) leaves,
          ← drop-map (leaf_hash D) (split_at leaves) leaves,
        )
        (rw (length-map (leaf_hash D) leaves) at (
          path-right i (hashed leaves) (rw (length-map (leaf_hash D) leaves) p)
            (rw (length-map (leaf_hash D) leaves) q) (rw (length-map (leaf_hash D) leaves) r)))

  inclusion_fuel-eq-path :
      (fuel i : ℕ) (leaves : List Bytes)
      → i < length leaves
      → length leaves ≤ fuel
      → inclusion_fuel D fuel i leaves ≡ some (map hash_of (path D i (hashed leaves)))
  unfolding inclusion_fuel
  inclusion_fuel-eq-path zero i leaves p q = absurd (omega arith)
  inclusion_fuel-eq-path (suc fuel) i leaves p q = elim (Bool-cases (length leaves == 1)) [
    | inl one ↦
        rw (lt→ltb i (length leaves) p, one)
          (ap (λ t. some (map hash_of t))
            (sym (
              path_one D i (hashed leaves) (
                omega (arith, length-map (leaf_hash D) leaves, (==_iff (length leaves) 1).0 one)))))
    | inr more ↦
        let two : 2 ≤ length leaves = ground arith in
        let k = split_at leaves in
        let pos = split-pos (length leaves) two in
        let lt = split-lt (length leaves) two in
        let lt_left = length-take k leaves in
        let lt_right = length-drop k leaves in
        elim (Bool-cases (ltb i k)) [
          | inl left ↦
              rw
                (
                  lt→ltb i (length leaves) p,
                  more,
                  left,
                  inclusion_fuel-eq-path fuel i (take k leaves) (ground arith) (omega arith),
                  mth-eq-root D (drop k leaves) (omega arith),
                )
                (ap some (
                  sym (
                    last_hash (path D i (hashed (take k leaves)))
                      (false, root D (hashed (drop k leaves)))
                      (path-left_map i leaves two (ltb→lt i k left)))))
          | inr right ↦
              let above : k ≤ i = ground arith in
              rw
                (
                  lt→ltb i (length leaves) p,
                  more,
                  right,
                  inclusion_fuel-eq-path fuel (i - k) (drop k leaves) (omega arith) (omega arith),
                  mth-eq-root D (take k leaves) (omega arith),
                )
                (ap some (
                  sym (
                    last_hash (path D (i - k) (hashed (drop k leaves)))
                      (true, root D (hashed (take k leaves)))
                      (path-right_map i leaves two above p))))
        ]
  ]

  -- For an index inside the list `inclusion_proof` returns the siblings of the nodes on the way from
  -- the leaf to the root, from the bottom up, with nothing for a level where the node is alone.
  pub inclusion_proof-eq-path :
      (i : ℕ) (leaves : List Bytes)
      → i < length leaves
      → inclusion_proof D i leaves ≡ some (map hash_of (path D i (hashed leaves)))
  unfolding inclusion_proof
  inclusion_proof-eq-path i leaves p =
      inclusion_fuel-eq-path (length leaves) i leaves p (omega arith)
