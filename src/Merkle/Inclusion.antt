-- ===== src/Merkle/Inclusion.antt =====
-- cryptovalid_merkle.py: the loop of `verify_inclusion` on the path of a leaf.
use cryptovalid_opencore.Prelude.{
  ℕ, zero, suc, ◌+◌, ◌-◌, ◌/◌, ◌≤◌, ◌<◌, ◌≡◌, refl, ap, ◌∙◌, arith, Bool, true, false, ◌&&◌, inl,
  inr, some, List, [], ◌∷◌, length, map, length-map, get_or-map, get_or, leb, ltb, ◌==◌, odd,
  ltb→lt, Bool-cases,
}
use cryptovalid_opencore.Bytes.{Bytes, Digest, bytes_eq, bytes_eq_iff}
use cryptovalid_opencore.Merkle.{
  leaf_hash, node_hash, mth, shift_even, inclusion_step, inclusion_loop, inclusion_proof,
  verify_inclusion,
}
use cryptovalid_opencore.Merkle.Levels.{
  hash_of, at, pair, root, path, length-pair, parent_right, parent_left, parent_alone,
  sibling_right, sibling_left, sibling_alone, root-pair, path-pair, root_one, path_one,
}
use cryptovalid_opencore.Merkle.Tree.{mth-eq-root}
use cryptovalid_opencore.Merkle.Audit.{hashed, inclusion_proof-eq-path}

shift_even_fuel : (f g fn sn : ℕ) → fn ≤ f → fn ≤ g → shift_even f fn sn ≡ shift_even g fn sn
unfolding shift_even
shift_even_fuel zero zero fn sn p q = refl
shift_even_fuel zero (suc g) fn sn p q = ground arith
shift_even_fuel (suc f) zero fn sn p q = ground arith
shift_even_fuel (suc f) (suc g) fn sn p q = ground (arith, shift_even_fuel f g (fn / 2) (sn / 2))

pub shift_even-odd : (f fn sn : ℕ) → odd fn ≡ true → shift_even f fn sn ≡ (fn, sn)
unfolding shift_even
shift_even-odd zero fn sn h = refl
shift_even-odd (suc f) fn sn h = rw h

pub shift_even_again :
    (fn sn : ℕ)
    → odd fn ≡ false
    → 0 < fn
    → shift_even fn fn sn ≡ shift_even (fn / 2) (fn / 2) (sn / 2)
unfolding shift_even
shift_even_again zero sn h p = absurd (omega arith)
shift_even_again (suc fn) sn h p =
    let positive : (suc fn == 0) ≡ false = ground arith in
    rw (h, positive)
      (shift_even_fuel fn (suc fn / 2) (suc fn / 2) (sn / 2) (omega arith) (omega arith))

abbrev pub accepts : Bytes → ℕ × Bytes → Bool
accepts top r = r.0 == 0 && bytes_eq r.1 top

module _ (D : Digest) where
  pub step_odd :
      (fn sn : ℕ) (h p : Bytes)
      → odd fn ≡ true
      → inclusion_step D fn sn h p ≡ (fn / 2, sn / 2, node_hash D p h)
  unfolding inclusion_step
  step_odd fn sn h p e = elim (Bool-cases (fn == sn)) [
    | inl same ↦ rw (same, shift_even-odd fn fn sn e)
    | inr differ ↦ rw (differ, e, shift_even-odd fn fn sn e)
  ]

  pub step_even :
      (fn sn : ℕ) (h p : Bytes)
      → odd fn ≡ false
      → fn < sn
      → inclusion_step D fn sn h p ≡ (fn / 2, sn / 2, node_hash D h p)
  unfolding inclusion_step
  step_even fn sn h p e q = let differ : (fn == sn) ≡ false = ground arith in rw (differ, e)

  -- the last node of a level with an odd number of them has no sibling there: the round goes on a
  -- level higher
  pub step_alone :
      (fn : ℕ) (h p : Bytes)
      → odd fn ≡ false
      → 0 < fn
      → inclusion_step D fn fn h p ≡ inclusion_step D (fn / 2) (fn / 2) h p
  unfolding inclusion_step
  step_alone fn h p e q =
      let same : (fn == fn) ≡ true = ground arith in
      let same' : (fn / 2 == fn / 2) ≡ true = ground arith in
      rw (same, same', shift_even_again fn fn e q)

  pub accepts_alone :
      (fn : ℕ) (h : Bytes) (proof : List Bytes) (top : Bytes)
      → odd fn ≡ false
      → 0 < fn
      → accepts top (inclusion_loop D fn fn h proof)
        ≡ accepts top (inclusion_loop D (fn / 2) (fn / 2) h proof)
  unfolding inclusion_loop
  accepts_alone fn h [] top e q = ground arith
  accepts_alone fn h (p ∷ proof) top e q =
      ap (λ s. accepts top (inclusion_loop D s.0 s.1 s.2 proof)) (step_alone fn h p e q)

  pub loop_odd :
      (fn sn : ℕ) (h p : Bytes) (proof : List Bytes)
      → odd fn ≡ true
      → inclusion_loop D fn sn h (p ∷ proof)
        ≡ inclusion_loop D (fn / 2) (sn / 2) (node_hash D p h) proof
  unfolding inclusion_loop
  loop_odd fn sn h p proof e = ap (λ s. inclusion_loop D s.0 s.1 s.2 proof) (step_odd fn sn h p e)

  pub loop_even :
      (fn sn : ℕ) (h p : Bytes) (proof : List Bytes)
      → odd fn ≡ false
      → fn < sn
      → inclusion_loop D fn sn h (p ∷ proof)
        ≡ inclusion_loop D (fn / 2) (sn / 2) (node_hash D h p) proof
  unfolding inclusion_loop
  loop_even fn sn h p proof e q =
      ap (λ s. inclusion_loop D s.0 s.1 s.2 proof) (step_even fn sn h p e q)

  -- the rest of a path is walked from the parent, on the next level
  up_right :
      (i : ℕ) (xs : List Bytes)
      → odd i ≡ true
      → i < length xs
      → inclusion_loop D i (length xs - 1) (at xs i) (map hash_of (path D i xs))
        ≡ inclusion_loop D
            (i / 2)
            (length (pair D xs) - 1)
            (at (pair D xs) (i / 2))
            (map hash_of (path D (i / 2) (pair D xs)))
  up_right i xs e h =
      let size : length (pair D xs) - 1 ≡ (length xs - 1) / 2 = omega (arith, length-pair D xs) in
      rw (path-pair D i xs h, sibling_right i xs e, size, parent_right D i xs e h)
        (loop_odd i (length xs - 1) (at xs i) (at xs (i - 1))
          (map hash_of (path D (i / 2) (pair D xs))) e)

  up_left :
      (i : ℕ) (xs : List Bytes)
      → odd i ≡ false
      → i + 1 < length xs
      → inclusion_loop D i (length xs - 1) (at xs i) (map hash_of (path D i xs))
        ≡ inclusion_loop D
            (i / 2)
            (length (pair D xs) - 1)
            (at (pair D xs) (i / 2))
            (map hash_of (path D (i / 2) (pair D xs)))
  up_left i xs e h =
      let size : length (pair D xs) - 1 ≡ (length xs - 1) / 2 = omega (arith, length-pair D xs) in
      rw (path-pair D i xs (omega arith), sibling_left i xs e h, size, parent_left D i xs e h)
        (loop_even i (length xs - 1) (at xs i) (at xs (i + 1))
          (map hash_of (path D (i / 2) (pair D xs))) e (omega arith))

  up_alone :
      (i : ℕ) (xs : List Bytes)
      → odd i ≡ false
      → 0 < i
      → i + 1 ≡ length xs
      → accepts
          (root D xs)
          (inclusion_loop D i (length xs - 1) (at xs i) (map hash_of (path D i xs)))
        ≡ accepts (root D xs) (
            inclusion_loop D
              (i / 2)
              (length (pair D xs) - 1)
              (at (pair D xs) (i / 2))
              (map hash_of (path D (i / 2) (pair D xs))))
  up_alone i xs e q h =
      let here : length xs - 1 ≡ i = omega arith in
      let size : length (pair D xs) - 1 ≡ i / 2 = ground (arith, length-pair D xs) in
      rw
        (
          path-pair D i xs (omega arith),
          sibling_alone i xs e h,
          here,
          size,
          parent_alone D i xs e h,
        )
        (accepts_alone i (at xs i) (map hash_of (path D (i / 2) (pair D xs))) (root D xs) e q)

  path_accepted_one :
      (i : ℕ) (xs : List Bytes)
      → length xs ≡ 1
      → i < 1
      → accepts
          (root D xs)
          (inclusion_loop D i (length xs - 1) (at xs i) (map hash_of (path D i xs)))
        ≡ true
  unfolding inclusion_loop
  path_accepted_one zero xs e h =
      rw (path_one D 0 xs e, root_one D xs e, e) ((bytes_eq_iff (at xs 0) (at xs 0)).1 refl)
  path_accepted_one (suc i) xs e h = absurd (omega arith)

  path_accepted_below :
      (bound i : ℕ) (xs : List Bytes)
      → length xs ≤ bound
      → i < length xs
      → accepts
          (root D xs)
          (inclusion_loop D i (length xs - 1) (at xs i) (map hash_of (path D i xs)))
        ≡ true
  path_accepted_below zero i xs p q = absurd (omega arith)
  path_accepted_below (suc bound) i xs p q =
      let l = length-pair D xs in
      elim (Bool-cases (length xs == 1)) [
        | inl one ↦ path_accepted_one i xs (ground arith) (ground arith)
        | inr more ↦
            let smaller : length (pair D xs) ≤ bound = ground arith in
            let inside : i / 2 < length (pair D xs) = ground arith in
            let higher =
              rw (← root-pair D xs) at
                (path_accepted_below bound (i / 2) (pair D xs) smaller inside) in
            elim (Bool-cases (odd i)) [
              | inl right ↦ rw (up_right i xs right q) higher
              | inr left ↦ elim (Bool-cases (ltb (i + 1) (length xs))) [
                | inl paired ↦ rw (up_left i xs left (ltb→lt _ _ paired)) higher
                | inr alone ↦ up_alone i xs left (ground arith) (ground arith) ∙ higher
              ]
            ]
      ]

  -- For every leaf of a tree `inclusion_proof` returns a proof, and `verify_inclusion` accepts it
  -- with the size and the root of that tree.
  pub verify_inclusion_complete :
      (m : ℕ) (leaves : List Bytes)
      → m < length leaves
      → (proof : List Bytes) × (inclusion_proof D m leaves ≡ some proof)
        × (verify_inclusion D m (length leaves) (get_or leaves m []) proof (mth D leaves) ≡ true)
  unfolding verify_inclusion
  verify_inclusion_complete m leaves h = (
    map hash_of (path D m (hashed D leaves)),
    inclusion_proof-eq-path D m leaves h,
    let size = length-map (leaf_hash D) leaves in
        let inside : leb (length leaves) m ≡ false = ground arith in
        rw (inside, mth-eq-root D leaves (omega arith))
          (rw (size, get_or-map (leaf_hash D) leaves m [] [] h) at
            (path_accepted_below (length leaves) m (hashed D leaves) (omega arith) (omega arith))),
  )
