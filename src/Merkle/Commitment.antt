-- ===== src/Merkle/Commitment.antt =====
-- cryptovalid_merkle.py: two lists of leaves under one root, and an old and a new list under a
-- consistency proof.
use cryptovalid_opencore.Prelude.{
  ℕ, zero, suc, ◌≤◌, ◌<◌, ◌≡◌, refl, sym, ap₂, arith, true, ◌⊎◌, inl, inr, List, [], ◌∷◌, length,
  length-take, take, get_or, ltb, Bool-cases,
}
use cryptovalid_opencore.Bytes.{Bytes, Digest, Collision}
use cryptovalid_opencore.Merkle.{mth, verify_inclusion, verify_consistency}
use cryptovalid_opencore.Merkle.Inclusion.{verify_inclusion_complete}
use cryptovalid_opencore.Merkle.Soundness.{verify_inclusion_sound}
use cryptovalid_opencore.Merkle.Walk.{AllDigests}
use cryptovalid_opencore.Merkle.Prefix.{verify_consistency_sound}

-- the first k items are the same
abbrev AgreeTo : ℕ → List Bytes → List Bytes → Type 0
AgreeTo k xs ys = (j : ℕ) → j < k → get_or xs j [] ≡ get_or ys j []

AgreeTo-all : (xs ys : List Bytes) → length xs ≡ length ys → AgreeTo (length xs) xs ys → xs ≡ ys
AgreeTo-all [] [] size agree = refl
AgreeTo-all [] (y ∷ ys) size agree = absurd (omega arith)
AgreeTo-all (x ∷ xs) [] size agree = absurd (omega arith)
AgreeTo-all (x ∷ xs) (y ∷ ys) size agree =
    ap₂ (λ h t. h ∷ t) (agree 0 (omega arith))
      (AgreeTo-all xs ys (omega arith) (λ j p. agree (suc j) (omega arith)))

module _ (D : Digest) where
  leaf_agrees :
      (xs ys : List Bytes) (m : ℕ)
      → length xs ≡ length ys
      → mth D xs ≡ mth D ys
      → m < length xs
      → (get_or xs m [] ≡ get_or ys m []) ⊎ Collision D
  leaf_agrees xs ys m size roots p =
      let (proof, made, checked) = verify_inclusion_complete D m ys (omega arith) in
      let against : verify_inclusion D m (length xs) (get_or ys m []) proof (mth D xs) ≡ true =
        rw (size, roots) checked in
      elim (verify_inclusion_sound D m xs (get_or ys m []) proof against) [
        | inr x ↦ inr x
        | inl (_, same) ↦ inl same
      ]

  leaves_agree :
      (xs ys : List Bytes) (k : ℕ)
      → length xs ≡ length ys
      → mth D xs ≡ mth D ys
      → k ≤ length xs
      → AgreeTo k xs ys ⊎ Collision D
  leaves_agree xs ys zero size roots p = inl (λ j q. absurd (omega arith))
  leaves_agree xs ys (suc k) size roots p = elim (leaves_agree xs ys k size roots (omega arith)) [
    | inr x ↦ inr x
    | inl before ↦ elim (leaf_agrees xs ys k size roots (omega arith)) [
      | inr x ↦ inr x
      | inl same ↦ inl (λ j q. elim (Bool-cases (ltb j k)) [
        | inl below ↦ before j (ground arith)
        | inr here ↦ let last : j ≡ k = ground arith in rw last same
      ])
    ]
  ]

  -- Two lists of one size for which `mth` returns one root are the same list, or a collision of the
  -- digest is at hand.
  pub mth-inject :
      (xs ys : List Bytes) → length xs ≡ length ys → mth D xs ≡ mth D ys → (xs ≡ ys) ⊎ Collision D
  mth-inject xs ys size roots = elim (leaves_agree xs ys (length xs) size roots (omega arith)) [
    | inr x ↦ inr x
    | inl agree ↦ inl (AgreeTo-all xs ys size agree)
  ]

  -- Whatever proof of 32-byte nodes `verify_consistency` accepts with the sizes and the roots of an old
  -- and a new list of leaves, the new list begins with the old one, or a collision of the digest is at
  -- hand.
  pub append_only :
      (old leaves : List Bytes) (proof : List Bytes)
      → AllDigests proof
      → verify_consistency D (length old) (length leaves) proof (mth D old) (mth D leaves) ≡ true
      → (take (length old) leaves ≡ old) ⊎ Collision D
  append_only old leaves proof ds ok =
      elim (verify_consistency_sound D (length old) leaves proof (mth D old) ds ok) [
        | inr x ↦ inr x
        | inl (_, inside, same) ↦
            mth-inject (take (length old) leaves) old
              (omega (arith, length-take (length old) leaves)) (sym same)
      ]
