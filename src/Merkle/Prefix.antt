-- ===== src/Merkle/Prefix.antt =====
-- cryptovalid_merkle.py: `verify_consistency` on an arbitrary proof of 32-byte nodes.
use Prim.Native.Nat.{bit_and}
use cryptovalid_opencore.Prelude.{
  ℕ, zero, suc, ◌-◌, ◌/◌, ◌≤◌, ◌<◌, ◌≡◌, sym, ap, ◌∙◌, arith, true, false, ◌&&◌, ◌||◌, ◌⊎◌, inl,
  inr, List, [], ◌∷◌, length, length-map, take, take-length, ltb, odd, ◌==◌, ==_iff, Bool-cases,
  if◌then◌else◌,
}
use cryptovalid_opencore.Bytes.{Bytes, Digest, Collision, bytes_eq, bytes_eq_iff}
use cryptovalid_opencore.Merkle.{is_empty, leaf_hash, mth, walk_consistency, verify_consistency}
use cryptovalid_opencore.Merkle.Levels.{
  double, double_lem, pair, root, length-pair, take-pair, root-pair,
}
use cryptovalid_opencore.Merkle.Tree.{mth-eq-root}
use cryptovalid_opencore.Merkle.Audit.{hashed}
use cryptovalid_opencore.Merkle.Walk.{Digests, AllDigests}
use cryptovalid_opencore.Merkle.Consistency.{
  walk_up, walk_here, Carried-take, verify_within, old_root-eq, last_node,
}
use cryptovalid_opencore.Merkle.Genuine.{Digests-pair, Digests-hashed, Genuine-below}

module _ (D : Digest) where
  abbrev Prefix : ℕ → List Bytes → Bytes → Type 0
  Prefix m level old = (old ≡ root D (take m level)) ⊎ Collision D

  prefix_here :
      (m : ℕ) (level : List Bytes) (first : Bytes) (rest : List Bytes) (old : Bytes)
      → odd m ≡ true
      → m < length level
      → Digests level
      → AllDigests rest
      → walk_consistency D m (length level) (first ∷ rest) old (root D level) ≡ true
      → Prefix m level old
  prefix_here m level first rest old e q h ds ok =
      let positive : 1 ≤ m = ground arith in
      let ends = sym (walk_here D m (length level) first rest old (root D level) e) ∙ ok in
      elim (Genuine-below D (length level) (m - 1) (take m level) level old first first rest
        (omega arith) (Carried-take D m level positive (omega arith)) h ds ends) [
          | inr x ↦ inr x
          | inl (at_new, at_old) ↦ inl (at_old (at_new ∙ sym (last_node D m level positive)))
        ]

  prefix_below :
      (bound m : ℕ) (level : List Bytes) (first : Bytes) (rest : List Bytes) (old : Bytes)
      → m ≤ bound
      → 1 ≤ m
      → m < length level
      → Digests level
      → AllDigests rest
      → walk_consistency D m (length level) (first ∷ rest) old (root D level) ≡ true
      → Prefix m level old
  prefix_below zero m level first rest old p q r h ds ok = absurd (omega arith)
  prefix_below (suc bound) m level first rest old p q r h ds ok = elim (Bool-cases (odd m)) [
    | inl o ↦ prefix_here m level first rest old o r h ds ok
    | inr e ↦
        let d = double_lem (m / 2) in
        let twice : double (m / 2) ≡ m = ground arith in
        let l = length-pair D level in
        let up =
          rw
            (
              walk_up D m (length level) (first ∷ rest) old (root D level) e q,
              ← length-pair D level,
              root-pair D level,
            )
            at ok in
        elim (prefix_below bound (m / 2) (pair D level) first rest old (omega arith) (ground arith)
          (ground arith) (Digests-pair D level h) ds up) [
            | inr x ↦ inr x
            | inl same ↦ inl (
                same
                ∙ (ap (root D) (rw twice at (take-pair D (m / 2) level))
                    ∙ sym (root-pair D (take m level))))
          ]
  ]

  abbrev PrefixRoot : ℕ → List Bytes → Bytes → Type 0
  PrefixRoot m leaves old =
      ((1 ≤ m) × (m ≤ length leaves) × (old ≡ mth D (take m leaves))) ⊎ Collision D

  -- an accepted walk has a first hash
  sound_walked :
      (m : ℕ) (leaves : List Bytes) (proof : List Bytes) (old : Bytes)
      → AllDigests proof
      → ((first : Bytes) (rest : List Bytes)
          → AllDigests rest
          → walk_consistency D m (length leaves) (first ∷ rest) old (mth D leaves) ≡ true
          → PrefixRoot m leaves old)
      → walk_consistency D m (length leaves) proof old (mth D leaves) ≡ true
      → PrefixRoot m leaves old
  unfolding walk_consistency
  sound_walked m leaves [] old ds finish ok = cc
  sound_walked m leaves (first ∷ rest) old (d, ds) finish ok = finish first rest ds ok

  sound_within :
      (m : ℕ) (leaves : List Bytes) (proof : List Bytes) (old : Bytes)
      → AllDigests proof
      → 1 ≤ m
      → m < length leaves
      → walk_consistency D m
          (length leaves)
          (if bit_and m (m - 1) == 0 then old ∷ proof else proof)
          old
          (mth D leaves)
        ≡ true
      → PrefixRoot m leaves old
  sound_within m leaves proof old ds p q ok =
      let size = length-map (leaf_hash D) leaves in
      let finish : (first : Bytes) (rest : List Bytes)
          → AllDigests rest
          → walk_consistency D m (length leaves) (first ∷ rest) old (mth D leaves) ≡ true
          → PrefixRoot m leaves old =
        λ first rest rest_ds walked.
          elim (prefix_below m m (hashed D leaves) first rest old (omega arith) p
            (omega (arith, size)) (Digests-hashed D leaves) rest_ds
            (rw (size, ← mth-eq-root D leaves (omega arith)) walked)) [
              | inr x ↦ inr x
              | inl same ↦ inl (p, omega arith, same ∙ sym (old_root-eq D m leaves p (omega arith)))
            ] in
      elim (Bool-cases (bit_and m (m - 1) == 0)) [
        | inl power ↦ finish old proof ds (rw power at ok)
        | inr other ↦ sound_walked m leaves proof old ds finish (rw other at ok)
      ]

  sound_equal :
      (leaves : List Bytes) (proof : List Bytes) (old : Bytes)
      → 1 ≤ length leaves
      → verify_consistency D (length leaves) (length leaves) proof old (mth D leaves) ≡ true
      → PrefixRoot (length leaves) leaves old
  unfolding verify_consistency
  sound_equal leaves proof old p ok =
      let some_old : (length leaves == 0) ≡ false = ground arith in
      let inside : ltb (length leaves) (length leaves) ≡ false = ground arith in
      let equal : (length leaves == length leaves) ≡ true = ground arith in
      let parts : (is_empty proof && bytes_eq old (mth D leaves)) ≡ true =
        rw (some_old, inside, equal) at ok in
      let same : bytes_eq old (mth D leaves) ≡ true = ground arith in
      inl (
        p,
        omega arith,
        (bytes_eq_iff old (mth D leaves)).0 same ∙ ap (mth D) (sym (take-length leaves)),
      )

  verify_consistency_accepts :
      (m n : ℕ) (proof : List Bytes) (old new : Bytes)
      → verify_consistency D m n proof old new ≡ true
      → (1 ≤ m) × (m ≤ n)
  unfolding verify_consistency
  verify_consistency_accepts m n proof old new ok = elim (Bool-cases (m == 0 || ltb n m)) [
    | inl refused ↦ cc (rw refused at ok)
    | inr inside ↦ (ground arith, ground arith)
  ]

  -- Whatever proof of 32-byte nodes `verify_consistency` accepts for an old size m and an old root,
  -- with the size and the root of a list of leaves, m is at least 1 and at most that size and the
  -- old root is the root of the first m leaves, or a collision of the digest is at hand.
  pub verify_consistency_sound :
      (m : ℕ) (leaves : List Bytes) (proof : List Bytes) (old : Bytes)
      → AllDigests proof
      → verify_consistency D m (length leaves) proof old (mth D leaves) ≡ true
      → ((1 ≤ m) × (m ≤ length leaves) × (old ≡ mth D (take m leaves))) ⊎ Collision D
  verify_consistency_sound m leaves proof old ds ok =
      let (some_old, inside) =
        verify_consistency_accepts m (length leaves) proof old (mth D leaves) ok in
      elim (Bool-cases (m == length leaves)) [
        | inl equal ↦
            let here = (==_iff _ _).0 equal in
            rw here (sound_equal leaves proof old (omega arith) (rw here at ok))
        | inr differ ↦
            let below : m < length leaves = ground arith in
            sound_within m leaves proof old ds some_old below
              (sym (verify_within D m (length leaves) proof old (mth D leaves) some_old below) ∙ ok)
      ]
