-- ===== src/Merkle/Anchor.antt =====
-- The proof of `_subproof`, read from below: the node at which the old tree ends on the first level
-- where it has no sibling to the left, and then the path of that node in the new tree.
use cryptovalid_opencore.Prelude.{
  ℕ, zero, suc, ◌-◌, ◌/◌, ◌≤◌, ◌<◌, ◌≡◌, sym, ap, ap₂, ◌∙◌, ◌≡⟨◌⟩◌, ◌∎, arith, Bool, true, false,
  ◌&&◌, inl, inr, List, [], ◌∷◌, ◌++◌, append_assoc, map, length, length-drop, get_or-take,
  get_or-drop, take, drop, odd, ◌==◌, ==_iff, Bool-cases, if◌then◌else◌,
}
use cryptovalid_opencore.Bytes.{Bytes, Digest}
use cryptovalid_opencore.Merkle.Split.{split-pos, split-lt}
use cryptovalid_opencore.Merkle.Levels.{
  hash_of, at, pair, root, path, length-pair, root-pair, root_one, path_one,
}
use cryptovalid_opencore.Merkle.Tree.{split_at}
use cryptovalid_opencore.Merkle.Audit.{last_hash, path-left, path-right}

module _ (D : Digest) where
  abbrev pub whole : Bool → List Bytes → List Bytes
  whole b level = if b then [] else root D level ∷ []

  abbrev pub anchor : ℕ → Bool → List Bytes → List Bytes
  anchor m b level = if b && m == 1 then [] else at level (m - 1) ∷ []

  abbrev pub walk : ℕ → List Bytes → List Bytes
  walk i level = map hash_of (path D i level)

  -- m is the number of nodes of the old tree on this level; fuel m is enough
  sub_fuel : ℕ → ℕ → List Bytes → Bool → List Bytes
  sub_fuel zero m level b = []
  sub_fuel (suc fuel) m level b =
      let higher = sub_fuel fuel (m / 2) (pair D level) b in
      if m == length level
      then whole b level
      else if odd m
      then anchor m b level ++ walk (m - 1) level
      else higher

  pub sub : ℕ → List Bytes → Bool → List Bytes
  sub m = sub_fuel m m

  sub_fuel_irrelevant :
      (f g m : ℕ) (level : List Bytes) (b : Bool)
      → 1 ≤ m
      → m ≤ f
      → m ≤ g
      → sub_fuel f m level b ≡ sub_fuel g m level b
  unfolding sub_fuel
  sub_fuel_irrelevant zero g m level b p q r = absurd (omega arith)
  sub_fuel_irrelevant (suc f) zero m level b p q r = absurd (omega arith)
  sub_fuel_irrelevant (suc f) (suc g) m level b p q r = elim (Bool-cases (odd m)) [
    | inl o ↦ rw o
    | inr e ↦ rw (
      e,
      sub_fuel_irrelevant f g (m / 2) (pair D level) b (ground arith) (ground arith) (ground arith),
    )
  ]

  pub sub-whole :
      (m : ℕ) (level : List Bytes) (b : Bool)
      → 1 ≤ m
      → m ≡ length level
      → sub m level b ≡ whole b level
  unfolding sub sub_fuel
  sub-whole zero level b p e = elim p [ ]
  sub-whole (suc m) level b p e = let same = (==_iff (suc m) (length level)).1 e in rw same

  pub sub-odd :
      (m : ℕ) (level : List Bytes) (b : Bool)
      → odd m ≡ true
      → m < length level
      → sub m level b ≡ anchor m b level ++ walk (m - 1) level
  unfolding sub sub_fuel
  sub-odd zero level b e h = absurd (cc)
  sub-odd (suc m) level b e h =
      let differ : (suc m == length level) ≡ false = ground arith in rw (differ, e)

  pub sub_one :
      (level : List Bytes) (b : Bool)
      → length level ≡ 1
      → sub 1 level b ≡ anchor 1 b level ++ walk 0 level
  sub_one level true e =
      sub-whole 1 level true (omega arith) (sym e) ∙ sym (ap (map hash_of) (path_one D 0 level e))
  sub_one level false e =
      sub-whole 1 level false (omega arith) (sym e)
      ∙ ap₂ (λ r t. r ∷ t) (root_one D level e) (sym (ap (map hash_of) (path_one D 0 level e)))

  sub_up :
      (m : ℕ) (level : List Bytes) (b : Bool)
      → odd m ≡ false
      → 1 ≤ m
      → (m == length level) ≡ false
      → sub m level b ≡ sub (m / 2) (pair D level) b
  unfolding sub sub_fuel
  sub_up zero level b e p h = elim p [ ]
  sub_up (suc m) level b e p h =
      rw (h, e)
        (sub_fuel_irrelevant m (suc m / 2) (suc m / 2) (pair D level) b (ground arith)
          (ground arith) (omega arith))

  -- an even number of nodes ends in a right child: one level up nothing is lost
  pub sub_even :
      (m : ℕ) (level : List Bytes) (b : Bool)
      → odd m ≡ false
      → 1 ≤ m
      → m ≤ length level
      → sub m level b ≡ sub (m / 2) (pair D level) b
  sub_even m level b e p h = elim (Bool-cases (m == length level)) [
    | inl same ↦
        let top = (==_iff _ _).0 same in
        sub-whole m level b p top
        ∙ (ap (λ r. if b then [] else r ∷ []) (root-pair D level)
            ∙ sym (
                sub-whole (m / 2) (pair D level) b (ground arith)
                  (ground (arith, length-pair D level))))
    | inr differ ↦ sub_up m level b e p differ
  ]

  -- the old tree ends in the left part of the new one
  abbrev pub InLeft : ℕ → List Bytes → Bool → Type 0
  InLeft m xs b =
      sub m xs b ≡ sub m (take (split_at xs) xs) b ++ root D (drop (split_at xs) xs) ∷ []

  -- or in its right part
  abbrev pub InRight : ℕ → List Bytes → Bool → Type 0
  InRight m xs b =
      sub m xs b
      ≡ sub (m - split_at xs) (drop (split_at xs) xs) false ++ root D (take (split_at xs) xs) ∷ []

  anchor-take :
      (m k : ℕ) (b : Bool) (xs : List Bytes)
      → 1 ≤ m
      → m ≤ k
      → anchor m b (take k xs) ≡ anchor m b xs
  anchor-take m k b xs p q =
      ap (λ t. if b && m == 1 then [] else t ∷ []) (get_or-take k (m - 1) xs [] (omega arith))

  pub left_odd :
      (m : ℕ) (xs : List Bytes) (b : Bool)
      → odd m ≡ true
      → 2 ≤ length xs
      → m ≤ split_at xs
      → sub m (take (split_at xs) xs) b
        ≡ anchor m b (take (split_at xs) xs) ++ walk (m - 1) (take (split_at xs) xs)
      → InLeft m xs b
  left_odd m xs b o h p ends =
      let k = split_at xs in
      let lt = split-lt (length xs) h in
      let last : ℕ = m - 1 in
      sub m xs b
      ≡⟨ sub-odd m xs b o (omega arith) ⟩ anchor m b xs ++ walk (m - 1) xs
      ≡⟨ ap (λ t. anchor m b xs ++ t)
          (last_hash (path D (m - 1) (take k xs)) (false, root D (drop k xs))
            (path-left D (m - 1) xs h (ground arith))) ⟩
        anchor m b xs ++ (walk (m - 1) (take k xs) ++ root D (drop k xs) ∷ [])
      ≡⟨ sym (append_assoc (anchor m b xs) (walk (m - 1) (take k xs)) (root D (drop k xs) ∷ [])) ⟩
        (anchor m b xs ++ walk (m - 1) (take k xs)) ++ root D (drop k xs) ∷ []
      ≡⟨ ap (λ t. t ++ root D (drop k xs) ∷ [])
          (ap (λ t. t ++ walk (m - 1) (take k xs)) (sym (anchor-take m k b xs (ground arith) p))
            ∙ sym ends) ⟩
        sub m (take k xs) b ++ root D (drop k xs) ∷ [] ∎

  pub right_odd :
      (m : ℕ) (xs : List Bytes) (b : Bool)
      → odd m ≡ true
      → odd (m - split_at xs) ≡ true
      → 2 ≤ length xs
      → split_at xs < m
      → m < length xs
      → InRight m xs b
  right_odd m xs b o o' h p q =
      let k = split_at xs in
      let pos = split-pos (length xs) h in
      let not_one : (b && m == 1) ≡ false = ground arith in
      let same : m - k - 1 ≡ m - 1 - k = omega arith in
      let node : at (drop k xs) (m - 1 - k) ≡ at xs (m - 1) =
        get_or-drop k (m - 1 - k) xs [] ∙ ap (at xs) (omega arith) in
      let start : anchor (m - k) false (drop k xs) ++ walk (m - k - 1) (drop k xs)
          ≡ at xs (m - 1) ∷ walk (m - 1 - k) (drop k xs) =
        rw (same, node) in
      sub m xs b
      ≡⟨ sub-odd m xs b o q ⟩ anchor m b xs ++ walk (m - 1) xs
      ≡⟨ (rw not_one (
          ap (λ t. at xs (m - 1) ∷ t)
            (last_hash (path D (m - 1 - k) (drop k xs)) (true, root D (take k xs))
              (path-right D (m - 1) xs h (omega arith) (omega arith))))) ⟩
        at xs (m - 1) ∷ (walk (m - 1 - k) (drop k xs) ++ root D (take k xs) ∷ [])
      ≡⟨ ap (λ t. t ++ root D (take k xs) ∷ [])
          (sym (sub-odd (m - k) (drop k xs) false o' (omega (arith, length-drop k xs)) ∙ start)) ⟩
        sub (m - k) (drop k xs) false ++ root D (take k xs) ∷ [] ∎
