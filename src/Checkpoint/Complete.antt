-- ===== src/Checkpoint/Complete.antt =====
-- The consistency proofs that are made are accepted.
use cryptovalid_opencore.Prelude.{
  ℕ, zero, suc, ◌-◌, ◌≤◌, ◌≡◌, refl, ap, inl, inr, Bool, true, false, not, ◌&&◌, Bool-cases, some,
  List, [], ◌∷◌, map, length, take, take-length, drop, ltb, leb, ◌==◌, ==_iff, if-holds, arith,
}
use cryptovalid_opencore.Bytes.{Bytes, bytes_eq_iff, Digest}
use cryptovalid_opencore.Json.{Text}
use cryptovalid_opencore.Encoding.{b64encode}
use cryptovalid_opencore.Encoding.Base64.{AreBytes}
use cryptovalid_opencore.Raises.{Raises, ok}
use cryptovalid_opencore.Texts.{is_nil}
use cryptovalid_opencore.Merkle.{
  leaf_hash, node_hash, mth_fuel, mth, largest_pow2_below, subproof_fuel, consistency_proof,
  verify_consistency,
}
use cryptovalid_opencore.Merkle.Consistency.{verify_consistency_complete}
use cryptovalid_opencore.Checkpoint.{NoteError}
use cryptovalid_opencore.Checkpoint.Parsed.{refuse_if-ok}
use cryptovalid_opencore.Checkpoint.Strict.{b64decode_strict-b64encode}
use cryptovalid_opencore.Checkpoint.Proofs.{
  decode_proof, all_digests, consistent, proof_or_empty, consistency_proof_b64,
  verify_consistency_b64,
}
use cryptovalid_opencore.Dicts.All.{All, snoc-All}

-- 32 bytes
abbrev IsDigest : Bytes → Type 0
IsDigest h = (length h ≡ 32) × AreBytes h

decode_proof-encoded :
    (hs : List Bytes) → All IsDigest hs → decode_proof (map b64encode hs) ≡ some hs
unfolding decode_proof
decode_proof-encoded [] h = refl
decode_proof-encoded (x ∷ hs) h =
    rw (b64decode_strict-b64encode x h.0.1, decode_proof-encoded hs h.1) refl

all_digests-All : (hs : List Bytes) → All IsDigest hs → all_digests hs ≡ true
unfolding all_digests
all_digests-All [] h = refl
all_digests-All (x ∷ hs) h = rw (h.0.0, all_digests-All hs h.1) (ground arith)

texts_inject : (a b : List Text) → ◌≡◌ {A = Raises NoteError (List Text)} (ok a) (ok b) → a ≡ b
texts_inject a b h = cc h

-- what holds of every digest holds of a root and of the nodes of a proof
module _ (D : Digest) (P : Bytes → Type 0) (holds : (b : Bytes) → P (D.hash b)) where
  pub mth-holds : (leaves : List Bytes) → P (mth D leaves)
  unfolding mth mth_fuel leaf_hash node_hash
  mth-holds [] = holds []
  mth-holds (d ∷ []) = holds (0 ∷ d)
  mth-holds (d ∷ e ∷ rest) = holds _

  subproof-All :
      (fuel m : ℕ) (leaves : List Bytes) (b : Bool) → All P (subproof_fuel D fuel m leaves b)
  unfolding subproof_fuel
  subproof-All zero m leaves b = tt
  subproof-All (suc fuel) m leaves b =
      if-holds (All P) (m == length leaves)
        (λ _. if-holds (All P) b (λ _. tt) (λ _. (mth-holds leaves, tt)))
        (λ _.
          if-holds (All P) (leb m k)
            (λ _.
              snoc-All P _ _ (subproof-All fuel m (take k leaves) b) (mth-holds (drop k leaves)))
            (λ _.
              snoc-All P _ _ (subproof-All fuel (m - k) (drop k leaves) false)
                (mth-holds (take k leaves))))
    where
      k : ℕ
      k = largest_pow2_below (length leaves)

  pub consistency_proof-All :
      (m : ℕ) (leaves : List Bytes) → All P (proof_or_empty D (consistency_proof D m leaves))
  unfolding consistency_proof
  consistency_proof-All m leaves =
      if-holds (λ p. All P (proof_or_empty D p)) (ltb 0 m && leb m (length leaves))
        (λ _.
          if-holds (λ p. All P (proof_or_empty D p)) (m == length leaves) (λ _. tt)
            (λ _. subproof-All (length leaves) m leaves true))
        (λ _. tt)

module _ (D : Digest) (bytes : (b : Bytes) → AreBytes (D.hash b)) where
  hash-IsDigest : (b : Bytes) → IsDigest (D.hash b)
  hash-IsDigest b = (D.length-hash b, bytes b)

  no_proof :
      (k : ℕ) (ls : List Bytes) (hs : List Bytes)
      → 1 ≤ k
      → k ≤ length ls
      → (k == length ls) ≡ true
      → consistency_proof D k ls ≡ some hs
      → hs ≡ []
  unfolding consistency_proof
  no_proof k ls hs low high same made =
      let inside : (ltb 0 k && leb k (length ls)) ≡ true = ground arith in
      let e : some [] ≡ some hs = rw (inside, same) at made in cc e

  -- The base64 proof that is made for an old size between 1 and the number of leaves verifies between the
  -- root of the first leaves and the root of all of them, where the numbers of every digest are bytes.
  pub consistency_proof_b64-verifies :
      (m : ℕ) (leaves : List Bytes) (proof : List Text)
      → consistency_proof_b64 D leaves m ≡ ok proof
      → verify_consistency_b64 D m (mth D (take m leaves)) (length leaves) (mth D leaves) proof
        ≡ true
  unfolding consistency_proof_b64 verify_consistency_b64
  consistency_proof_b64-verifies m leaves proof h =
      let g = refuse_if-ok (not (ltb 0 m && leb m (length leaves))) _ _ h in
      let low : 1 ≤ m = ground (arith, g.0) in
      let high : m ≤ length leaves = ground (arith, g.0) in
      let (hs, made, checks) = verify_consistency_complete D m leaves low high in
      let all = rw made at (consistency_proof-All D IsDigest hash-IsDigest m leaves) in
      let text : map b64encode hs ≡ proof = rw made at (texts_inject _ _ g.1) in
      let read : decode_proof proof ≡ some hs = rw (← text) (decode_proof-encoded hs all) in
      rw (read, verify_consistency_b64) (accepted m leaves hs low high all made checks)
    where
      accepted :
          (k : ℕ) (ls : List Bytes) (hs : List Bytes)
          → 1 ≤ k
          → k ≤ length ls
          → All IsDigest hs
          → consistency_proof D k ls ≡ some hs
          → verify_consistency D k (length ls) hs (mth D (take k ls)) (mth D ls) ≡ true
          → consistent D k (mth D (take k ls)) (length ls) (mth D ls) hs ≡ true
      accepted k ls hs low high all made checks = elim (Bool-cases (k == length ls)) [
        | inl same ↦
            let here : k ≡ length ls = (==_iff _ _).0 same in
            let none_needed : hs ≡ [] = no_proof k ls hs low high same made in
            let roots : mth D (take k ls) ≡ mth D ls = rw (here, take-length ls) refl in
            rw (all_digests-All hs all, same, (bytes_eq_iff _ _).1 roots) (ap is_nil none_needed)
        | inr other ↦
            let pos : ltb 0 k ≡ true = ground arith in
            let less : ltb k (length ls) ≡ true = ground (arith, other) in
            rw (all_digests-All hs all, other, pos, less) checks
      ]
