-- ===== src/Merkle/Verdicts.antt =====
-- cryptovalid_merkle.py: `consistency_verdict`, the three-valued check that a monitor reports.
use cryptovalid_opencore.Prelude.{
  ℕ, ◌≤◌, ◌<◌, ◌≡◌, ◌≢◌, refl, arith, true, ◌||◌, ◌⊎◌, inl, inr, List, length, take, ltb, ◌==◌,
  Bool-cases,
}
use cryptovalid_opencore.Bytes.{Bytes, Digest, Collision}
use cryptovalid_opencore.Merkle.{
  mth, verify_consistency, consistency_verdict, Verdict, consistent, inconsistent,
  could_not_compare,
}
use cryptovalid_opencore.Merkle.Walk.{AllDigests}
use cryptovalid_opencore.Merkle.Prefix.{verify_consistency_sound}

module _ (D : Digest) where
  verdict_accepts :
      (m n : ℕ) (proof : List Bytes) (old new : Bytes)
      → consistency_verdict D m n proof old new ≡ consistent
      → verify_consistency D m n proof old new ≡ true
  unfolding consistency_verdict
  verdict_accepts m n proof old new e = elim (Bool-cases (m == 0 || ltb n m)) [
    | inl out ↦ cc (rw out at e)
    | inr comparable ↦ elim (Bool-cases (verify_consistency D m n proof old new)) [
      | inl ok ↦ ok
      | inr refused ↦ cc (rw (comparable, refused) at e)
    ]
  ]

  not_comparable_sizes :
      (m n : ℕ) (proof : List Bytes) (old new : Bytes)
      → consistency_verdict D m n proof old new ≡ could_not_compare
      → (m ≡ 0) ⊎ (n < m)
  unfolding consistency_verdict
  not_comparable_sizes m n proof old new e = elim (Bool-cases (m == 0 || ltb n m)) [
    | inl out ↦ ground arith
    | inr comparable ↦ elim (Bool-cases (verify_consistency D m n proof old new)) [
      | inl ok ↦ cc (rw (comparable, ok) at e)
      | inr refused ↦ cc (rw (comparable, refused) at e)
    ]
  ]

  Answers : Verdict → Type 0
  Answers v = (v ≡ consistent) ⊎ (v ≡ inconsistent) ⊎ (v ≡ could_not_compare)

  answers : (v : Verdict) → Answers v
  unfolding Answers
  answers consistent = inl refl
  answers inconsistent = inr (inl refl)
  answers could_not_compare = inr (inr refl)

  -- A monitor that holds an old root, for a size m of at least 1 and at most the size of the new
  -- tree, that is not the root of the first m leaves gets the answer inconsistent for every proof of
  -- 32-byte nodes, or a collision of the digest is at hand.
  pub verdict_fork :
      (m : ℕ) (leaves : List Bytes) (proof : List Bytes) (old : Bytes)
      → AllDigests proof
      → 1 ≤ m
      → m ≤ length leaves
      → old ≢ mth D (take m leaves)
      → (consistency_verdict D m (length leaves) proof old (mth D leaves) ≡ inconsistent)
        ⊎ Collision D
  unfolding Answers
  verdict_fork m leaves proof old ds p q fork =
      let v = consistency_verdict D m (length leaves) proof old (mth D leaves) in
      elim (answers v) [
        | inl accepted ↦
            elim (verify_consistency_sound D m leaves proof old ds
              (verdict_accepts m (length leaves) proof old (mth D leaves) accepted)) [
                | inr x ↦ inr x
                | inl (_, _, same) ↦ absurd (fork same)
              ]
        | inr (inl refused) ↦ inl refused
        | inr (inr not_comparable) ↦
            elim (not_comparable_sizes m (length leaves) proof old (mth D leaves) not_comparable) [
              | inl none_old ↦ absurd (omega arith)
              | inr larger ↦ absurd (omega arith)
            ]
      ]
