-- ===== src/Merkle/Subproof.antt =====
-- cryptovalid_merkle.py: `_subproof`, which splits from above, and the proof that is read from
-- below.
use cryptovalid_opencore.Prelude.{
  ℕ, zero, suc, ◌-◌, ◌/◌, ◌≤◌, ◌<◌, ◌≡◌, refl, sym, ap, ◌≡⟨◌⟩◌, ◌∎, arith, Bool, false, inl, inr,
  List, [], ◌∷◌, ◌++◌, length, length-take, length-drop, length-map, take-map, drop-map, take, drop,
  leb, leb→le, odd, ◌==◌, ==_iff, Bool-cases,
}
use cryptovalid_opencore.Bytes.{Bytes, Digest}
use cryptovalid_opencore.Merkle.{leaf_hash, largest_pow2_below, subproof_fuel}
use cryptovalid_opencore.Merkle.Split.{split-pos, split-lt}
use cryptovalid_opencore.Merkle.Levels.{
  double, double_lem, pair, root, length-pair, take-pair, drop-pair, root-pair,
}
use cryptovalid_opencore.Merkle.Tree.{split_at, double-split_at, mth-eq-root}
use cryptovalid_opencore.Merkle.Audit.{hashed}
use cryptovalid_opencore.Merkle.Anchor.{
  sub, sub-whole, sub-odd, sub_one, sub_even, InLeft, InRight, left_odd, right_odd,
}

module _ (D : Digest) where
  InLeft-two :
      (m : ℕ) (xs : List Bytes) (b : Bool)
      → length xs ≡ 2
      → 1 ≤ m
      → m ≤ split_at xs
      → InLeft D m xs b
  unfolding largest_pow2_below
  InLeft-two m [] b e p q = absurd (omega arith)
  InLeft-two m (a ∷ []) b e p q = absurd (omega arith)
  InLeft-two m (a ∷ c ∷ []) b e p q =
      let one : m ≡ 1 = omega arith in
      rw one
        (left_odd D 1 (a ∷ c ∷ []) b refl (omega arith) (omega arith) (sub_one D (a ∷ []) b refl))
  InLeft-two m (a ∷ c ∷ d ∷ xs) b e p q = absurd (omega arith)

  InLeft-below :
      (bound m : ℕ) (xs : List Bytes) (b : Bool)
      → length xs ≤ bound
      → 2 ≤ length xs
      → 1 ≤ m
      → m ≤ split_at xs
      → InLeft D m xs b
  InLeft-below zero m xs b p q r h = absurd (omega arith)
  InLeft-below (suc bound) m xs b p q r h = elim (Bool-cases (length xs == 2)) [
    | inl two ↦ InLeft-two m xs b ((==_iff _ _).0 two) r h
    | inr more ↦
        let three : 3 ≤ length xs = ground arith in
        let k = split_at xs in
        let k' = split_at (pair D xs) in
        let d = double_lem k' in
        let twice = double-split_at D xs three in
        let lt = split-lt (length xs) q in
        let l = length-pair D xs in
        let in_left : length (take k xs) ≡ k = omega (arith, length-take k xs) in
        elim (Bool-cases (odd m)) [
          | inl o ↦
              let below : m < length (take k xs) = ground arith in
              left_odd D m xs b o q h (sub-odd D m (take k xs) b o below)
          | inr e ↦
              sub D m xs b
              ≡⟨ sub_even D m xs b e r (omega arith) ⟩ sub D (m / 2) (pair D xs) b
              ≡⟨ InLeft-below bound (m / 2) (pair D xs) b (omega arith) (omega arith) (ground arith)
                  (omega arith) ⟩
                sub D (m / 2) (take k' (pair D xs)) b ++ root D (drop k' (pair D xs)) ∷ []
              ≡⟨ (rw (
                take-pair D k' xs,
                drop-pair D k' xs,
                ← root-pair D (drop (double k') xs),
                twice,
              )) ⟩
                sub D (m / 2) (pair D (take k xs)) b ++ root D (drop k xs) ∷ []
              ≡⟨ ap (λ t. t ++ root D (drop k xs) ∷ [])
                  (sym (sub_even D m (take k xs) b e r (omega arith))) ⟩
                sub D m (take k xs) b ++ root D (drop k xs) ∷ [] ∎
        ]
  ]

  InRight-below :
      (bound m : ℕ) (xs : List Bytes) (b : Bool)
      → length xs ≤ bound
      → 3 ≤ length xs
      → split_at xs < m
      → m < length xs
      → InRight D m xs b
  InRight-below zero m xs b p q r h = absurd (omega arith)
  InRight-below (suc bound) m xs b p q r h =
      let k = split_at xs in
      let k' = split_at (pair D xs) in
      let d = double_lem k' in
      let twice = double-split_at D xs q in
      let pos = split-pos (length xs) (omega arith) in
      let l = length-pair D xs in
      let in_right : length (drop k xs) ≡ length xs - k = length-drop k xs in
      elim (Bool-cases (odd m)) [
        | inl o ↦ right_odd D m xs b o (ground arith) (omega arith) r h
        | inr e ↦
            let e' : odd (m - k) ≡ false = ground arith in
            let half : m / 2 - k' ≡ (m - k) / 2 = ground arith in
            sub D m xs b
            ≡⟨ sub_even D m xs b e (omega arith) (omega arith) ⟩ sub D (m / 2) (pair D xs) b
            ≡⟨ InRight-below bound (m / 2) (pair D xs) b (omega arith) (ground arith) (ground arith)
                (ground arith) ⟩
              sub D (m / 2 - k') (drop k' (pair D xs)) false ++ root D (take k' (pair D xs)) ∷ []
            ≡⟨ (rw (
              take-pair D k' xs,
              drop-pair D k' xs,
              ← root-pair D (take (double k') xs),
              twice,
              half,
            )) ⟩
              sub D ((m - k) / 2) (pair D (drop k xs)) false ++ root D (take k xs) ∷ []
            ≡⟨ ap (λ t. t ++ root D (take k xs) ∷ [])
                (sym (sub_even D (m - k) (drop k xs) false e' (omega arith) (omega arith))) ⟩
              sub D (m - k) (drop k xs) false ++ root D (take k xs) ∷ [] ∎
      ]

  -- over leaves, with the sizes of their lists
  in_left_leaves :
      (m : ℕ) (leaves : List Bytes) (b : Bool)
      → 2 ≤ length leaves
      → 1 ≤ m
      → m ≤ split_at leaves
      → sub D m (hashed D leaves) b
        ≡ sub D m (hashed D (take (split_at leaves) leaves)) b
          ++ root D (hashed D (drop (split_at leaves) leaves)) ∷ []
  in_left_leaves m leaves b p q r =
      let f : Bytes → Bytes = leaf_hash D in
      let size = length-map f leaves in
      rw (← take-map f (split_at leaves) leaves, ← drop-map f (split_at leaves) leaves)
        (rw size at (
          InLeft-below (length leaves) m (hashed D leaves) b (omega arith) (omega arith) q
            (rw size r)))

  in_right_leaves :
      (m : ℕ) (leaves : List Bytes) (b : Bool)
      → 3 ≤ length leaves
      → split_at leaves < m
      → m < length leaves
      → sub D m (hashed D leaves) b
        ≡ sub D (m - split_at leaves) (hashed D (drop (split_at leaves) leaves)) false
          ++ root D (hashed D (take (split_at leaves) leaves)) ∷ []
  in_right_leaves m leaves b p q r =
      let f : Bytes → Bytes = leaf_hash D in
      let size = length-map f leaves in
      rw (← take-map f (split_at leaves) leaves, ← drop-map f (split_at leaves) leaves)
        (rw size at (
          InRight-below (length leaves) m (hashed D leaves) b (omega arith) (omega arith)
            (rw size q) (rw size r)))

  pub subproof_fuel-eq-sub :
      (fuel m : ℕ) (leaves : List Bytes) (b : Bool)
      → 1 ≤ m
      → m ≤ length leaves
      → length leaves ≤ fuel
      → subproof_fuel D fuel m leaves b ≡ sub D m (hashed D leaves) b
  unfolding subproof_fuel
  subproof_fuel-eq-sub zero m leaves b p q r = absurd (omega arith)
  subproof_fuel-eq-sub (suc fuel) m leaves b p q r = elim (Bool-cases (m == length leaves)) [
    | inl all ↦
        let same = (==_iff m (length leaves)).0 all in
        let size = length-map (leaf_hash D) leaves in
        rw (all, mth-eq-root D leaves (omega arith))
          (sym (sub-whole D m (hashed D leaves) b p (omega arith)))
    | inr less ↦
        let two : 2 ≤ length leaves = ground arith in
        let k = split_at leaves in
        let pos = split-pos (length leaves) two in
        let lt = split-lt (length leaves) two in
        let lt_left = length-take k leaves in
        let lt_right = length-drop k leaves in
        elim (Bool-cases (leb m k)) [
          | inl left ↦
              let inside = leb→le m k left in
              rw
                (
                  less,
                  left,
                  subproof_fuel-eq-sub fuel m (take k leaves) b p (omega arith) (omega arith),
                  mth-eq-root D (drop k leaves) (omega arith),
                )
                (sym (in_left_leaves m leaves b two p inside))
          | inr right ↦
              let beyond : k < m = ground arith in
              let proper : m < length leaves = ground arith in
              rw
                (
                  less,
                  right,
                  subproof_fuel-eq-sub fuel (m - k) (drop k leaves) false (omega arith)
                      (omega arith) (omega arith),
                  mth-eq-root D (take k leaves) (omega arith),
                )
                (sym (in_right_leaves m leaves b (omega arith) beyond proper))
        ]
  ]
