-- ===== src/Merkle/Consistency.antt =====
-- cryptovalid_merkle.py: `verify_consistency` on the proof of `consistency_proof`.
use Prim.Native.Nat.{bit_and}
use cryptovalid_opencore.Prelude.{
  ℕ, zero, suc, ◌+◌, ◌-◌, ◌/◌, ◌≤◌, ◌<◌, ◌≡◌, refl, sym, ap, ◌∙◌, arith, true, false, inl, inr,
  some, List, [], ◌∷◌, length, length-take, length-map, take-map, take, take-length, get_or-take,
  ltb, leb, odd, ◌==◌, ==_iff, Bool-cases, if◌then◌else◌,
}
use cryptovalid_opencore.Bits.{pow2_test_even, pow2_test_odd}
use cryptovalid_opencore.Bytes.{Bytes, Digest, bytes_eq_iff}
use cryptovalid_opencore.Merkle.{
  leaf_hash, mth, shift_odd, consistency_loop, roots_agree, consistency_proof, walk_consistency,
  verify_consistency,
}
use cryptovalid_opencore.Merkle.Levels.{
  at, double, double_lem, pair, root, length-pair, take-pair, root-pair, root_one,
}
use cryptovalid_opencore.Merkle.Tree.{mth-eq-root}
use cryptovalid_opencore.Merkle.Audit.{hashed}
use cryptovalid_opencore.Merkle.Walk.{Carried}
use cryptovalid_opencore.Merkle.Growth.{arrives}
use cryptovalid_opencore.Merkle.Anchor.{sub, walk, sub-odd, sub_even}
use cryptovalid_opencore.Merkle.Subproof.{subproof_fuel-eq-sub}

shift_odd_fuel : (f g fn sn : ℕ) → fn ≤ f → fn ≤ g → shift_odd f fn sn ≡ shift_odd g fn sn
unfolding shift_odd
shift_odd_fuel zero zero fn sn p q = refl
shift_odd_fuel zero (suc g) fn sn p q = ground arith
shift_odd_fuel (suc f) zero fn sn p q = ground arith
shift_odd_fuel (suc f) (suc g) fn sn p q = ground (arith, shift_odd_fuel f g (fn / 2) (sn / 2))

shift_odd_again :
    (fn sn : ℕ) → odd fn ≡ true → shift_odd fn fn sn ≡ shift_odd (fn / 2) (fn / 2) (sn / 2)
unfolding shift_odd
shift_odd_again zero sn e = absurd (cc)
shift_odd_again (suc fn) sn e =
    rw e (shift_odd_fuel fn (suc fn / 2) (suc fn / 2) (sn / 2) (ground arith) (omega arith))

pub shift_odd_even : (f fn sn : ℕ) → odd fn ≡ false → shift_odd f fn sn ≡ (fn, sn)
unfolding shift_odd
shift_odd_even zero fn sn e = refl
shift_odd_even (suc f) fn sn e = rw e

module _ (D : Digest) where
  -- an old tree of even size: the walk starts a level higher
  pub walk_up :
      (m n : ℕ) (proof : List Bytes) (old new : Bytes)
      → odd m ≡ false
      → 1 ≤ m
      → walk_consistency D m n proof old new
        ≡ walk_consistency D (m / 2) ((n + 1) / 2) proof old new
  unfolding walk_consistency
  walk_up m n [] old new e h = refl
  walk_up m n (first ∷ rest) old new e h =
      let fn : (m - 1) / 2 ≡ m / 2 - 1 = ground arith in
      let sn : (n - 1) / 2 ≡ (n + 1) / 2 - 1 = omega arith in
      ap (λ s. roots_agree old new (consistency_loop D s.0 s.1 first first rest))
        (rw (fn, sn) at (shift_odd_again (m - 1) (n - 1) (ground arith)))

  pub walk_here :
      (m n : ℕ) (first : Bytes) (rest : List Bytes) (old new : Bytes)
      → odd m ≡ true
      → walk_consistency D m n (first ∷ rest) old new
        ≡ roots_agree old new (consistency_loop D (m - 1) (n - 1) first first rest)
  unfolding walk_consistency
  walk_here m n first rest old new e =
      ap (λ s. roots_agree old new (consistency_loop D s.0 s.1 first first rest))
        (shift_odd_even (m - 1) (m - 1) (n - 1) (ground arith))

  pub Carried-take :
      (m : ℕ) (level : List Bytes)
      → 1 ≤ m
      → m ≤ length level
      → Carried D (m - 1) (take m level) level
  Carried-take m level p q = record {
    size = omega (arith, length-take m level);
    inside = omega arith;
    agree = λ j h. get_or-take m j level [] (omega arith);
  }

  -- the proof that is walked: `[old_root] + p` where m is a power of two
  abbrev walked : ℕ → List Bytes → List Bytes
  walked m level =
      if bit_and m (m - 1) == 0
      then root D (take m level) ∷ sub D m level true
      else sub D m level true

  abbrev Accepted : ℕ → List Bytes → Type 0
  Accepted m level =
      walk_consistency D m (length level) (walked m level) (root D (take m level)) (root D level)
      ≡ true

  pub last_node :
      (m : ℕ) (level : List Bytes) → 1 ≤ m → at (take m level) (m - 1) ≡ at level (m - 1)
  last_node m level h = get_or-take m (m - 1) level [] (omega arith)

  walked-odd :
      (m : ℕ) (level : List Bytes)
      → odd m ≡ true
      → m < length level
      → walked m level ≡ at level (m - 1) ∷ walk D (m - 1) level
  walked-odd m level e h = elim (Bool-cases (m == 1)) [
    | inl one ↦
        let is_one = (==_iff m 1).0 one in
        let size : length (take m level) ≡ 1 = omega (arith, length-take m level) in
        let top : root D (take m level) ≡ at level (m - 1) =
          root_one D (take m level) size
          ∙ (ap (at (take m level)) (omega arith) ∙ last_node m level (omega arith)) in
        rw (pow2_test_odd m e, sub-odd D m level true e h, one, top)
    | inr more ↦ rw (pow2_test_odd m e, sub-odd D m level true e h, more)
  ]

  Accepted-odd : (m : ℕ) (level : List Bytes) → odd m ≡ true → m < length level → Accepted m level
  Accepted-odd m level e h =
      let positive : 1 ≤ m = ground arith in
      rw
        (
          walked-odd m level e h,
          walk_here m (length level) (at level (m - 1)) (walk D (m - 1) level)
              (root D (take m level)) (root D level) e,
        )
        (rw (last_node m level positive) at
          (arrives D (m - 1) (take m level) level (Carried-take m level positive (omega arith))))

  Accepted-below :
      (bound m : ℕ) (level : List Bytes) → m ≤ bound → 1 ≤ m → m < length level → Accepted m level
  Accepted-below zero m level p q r = absurd (omega arith)
  Accepted-below (suc bound) m level p q r = elim (Bool-cases (odd m)) [
    | inl o ↦ Accepted-odd m level o r
    | inr e ↦
        let d = double_lem (m / 2) in
        let twice : double (m / 2) ≡ m = ground arith in
        let old_top : root D (take m level) ≡ root D (take (m / 2) (pair D level)) =
          root-pair D (take m level)
          ∙ ap (root D) (sym (rw twice at (take-pair D (m / 2) level))) in
        let l = length-pair D level in
        rw
          (
            walk_up m (length level) (walked m level) (root D (take m level)) (root D level) e q,
            pow2_test_even m e q,
            old_top,
            sub_even D m level true e q (omega arith),
            root-pair D level,
            ← length-pair D level,
          )
          (Accepted-below bound (m / 2) (pair D level) (omega arith) (ground arith) (ground arith))
  ]

  proof_within :
      (m : ℕ) (leaves : List Bytes)
      → 1 ≤ m
      → m < length leaves
      → consistency_proof D m leaves ≡ some (sub D m (hashed D leaves) true)
  unfolding consistency_proof
  proof_within m leaves p q =
      let some_old : ltb 0 m ≡ true = ground arith in
      let inside : leb m (length leaves) ≡ true = ground arith in
      let differ : (m == length leaves) ≡ false = ground arith in
      rw (some_old, inside, differ)
        (ap some
          (subproof_fuel-eq-sub D (length leaves) m leaves true p (omega arith) (omega arith)))

  pub verify_within :
      (m n : ℕ) (proof : List Bytes) (old new : Bytes)
      → 1 ≤ m
      → m < n
      → verify_consistency D m n proof old new
        ≡ walk_consistency D m n (if bit_and m (m - 1) == 0 then old ∷ proof else proof) old new
  unfolding verify_consistency
  verify_within m n proof old new p q =
      let some_old : (m == 0) ≡ false = ground arith in
      let inside : ltb n m ≡ false = ground arith in
      let differ : (m == n) ≡ false = ground arith in rw (some_old, inside, differ)

  pub old_root-eq :
      (m : ℕ) (leaves : List Bytes)
      → 1 ≤ m
      → m ≤ length leaves
      → mth D (take m leaves) ≡ root D (take m (hashed D leaves))
  old_root-eq m leaves p q =
      mth-eq-root D (take m leaves) (omega (arith, length-take m leaves))
      ∙ ap (root D) (sym (take-map (leaf_hash D) m leaves))

  same_size :
      (m : ℕ) (leaves : List Bytes)
      → 1 ≤ m
      → m ≡ length leaves
      → (consistency_proof D m leaves ≡ some [])
        × (verify_consistency D m (length leaves) [] (mth D (take m leaves)) (mth D leaves) ≡ true)
  unfolding consistency_proof verify_consistency
  same_size m leaves p e =
      let some_old : ltb 0 (length leaves) ≡ true = ground arith in
      let not_none : (length leaves == 0) ≡ false = ground arith in
      let inside : leb (length leaves) (length leaves) ≡ true = ground arith in
      let inside' : ltb (length leaves) (length leaves) ≡ false = ground arith in
      let same : (length leaves == length leaves) ≡ true = ground arith in
      rw e (
        rw (some_old, inside, same),
        rw (not_none, inside', same, take-length leaves)
            ((bytes_eq_iff (mth D leaves) (mth D leaves)).1 refl),
      )

  -- For every size m of an old tree inside the new one, `consistency_proof` returns a proof, and
  -- `verify_consistency` accepts it with the two sizes and the two roots.
  pub verify_consistency_complete :
      (m : ℕ) (leaves : List Bytes)
      → 1 ≤ m
      → m ≤ length leaves
      → (proof : List Bytes) × (consistency_proof D m leaves ≡ some proof)
        × (verify_consistency D m (length leaves) proof (mth D (take m leaves)) (mth D leaves)
            ≡ true)
  verify_consistency_complete m leaves p q = elim (Bool-cases (m == length leaves)) [
    | inl all ↦
        let (made, checked) = same_size m leaves p ((==_iff _ _).0 all) in ([], made, checked)
    | inr less ↦
        let inside : m < length leaves = ground arith in
        let size = length-map (leaf_hash D) leaves in
        (
          sub D m (hashed D leaves) true,
          proof_within m leaves p inside,
          rw
              (
                verify_within m (length leaves) (sub D m (hashed D leaves) true)
                    (mth D (take m leaves)) (mth D leaves) p inside,
                old_root-eq m leaves p q,
                mth-eq-root D leaves (omega arith),
              )
              (rw size at (Accepted-below m m (hashed D leaves) (omega arith) p (omega arith))),
        )
  ]
