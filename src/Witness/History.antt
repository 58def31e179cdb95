-- ===== src/Witness/History.antt =====
-- What the history of an origin says of the tree that was cosigned last.
use cryptovalid_opencore.Prelude.{
  ℕ, zero, suc, ◌≤◌, ◌<◌, ◌≡◌, refl, sym, ap, ◌∙◌, ◌⊎◌, inl, inr, true, false, Option, none, some,
  List, [], ◌∷◌, length, take, length-take, take-length, arith,
}
use cryptovalid_opencore.Bytes.{Bytes, bytes_eq, Digest, Collision}
use cryptovalid_opencore.Json.{Text}
use cryptovalid_opencore.Merkle.{mth, verify_consistency}
use cryptovalid_opencore.Merkle.Walk.{AllDigests}
use cryptovalid_opencore.Merkle.Prefix.{verify_consistency_sound}
use cryptovalid_opencore.Checkpoint.Notes.{NoteKeys}
use cryptovalid_opencore.Checkpoint.Proofs.{
  decode_proof, all_digests, consistent, verify_consistency_b64,
}
use cryptovalid_opencore.Dicts.{lookup}
use cryptovalid_opencore.Witness.{Entry, Cosigned, empty_store}
use cryptovalid_opencore.Witness.Cosign.{Signer}
use cryptovalid_opencore.Witness.Requests.{Submission, run}
use cryptovalid_opencore.Witness.Chain.{root_of, records, View, view_of, Extends, IsChain}
use cryptovalid_opencore.Witness.Kept.{empty_store-IsKept}
use cryptovalid_opencore.Witness.Runs.{run-IsKept}

some_inject : (v w : View) → some v ≡ some w → v ≡ w
some_inject v w h = cc h

take-take : (m n : ℕ) (xs : List Bytes) → m ≤ n → take m (take n xs) ≡ take m xs
take-take zero n xs h = refl
take-take (suc m) zero xs h = absurd (omega arith)
take-take (suc m) (suc n) [] h = refl
take-take (suc m) (suc n) (x ∷ xs) h = ap (λ t. x ∷ t) (take-take m n xs (omega arith))

all_digests-AllDigests : (hs : List Bytes) → all_digests hs ≡ true → AllDigests hs
unfolding all_digests
all_digests-AllDigests [] h = tt
all_digests-AllDigests (x ∷ hs) h = (ground arith, all_digests-AllDigests hs (ground arith))

-- membership in a list
abbrev pub Among : Cosigned → List Cosigned → Type 0
Among r [] = ⊥
Among r (q ∷ rs) = (r ≡ q) ⊎ Among r rs

module _ (D : Digest) where
  -- an accepted base64 proof between two sizes decodes to digests that verify
  b64-verifies :
      (m n : ℕ) (old new : Bytes) (proof : List Text)
      → m < n
      → verify_consistency_b64 D m old n new proof ≡ true
      → (hs : List Bytes) × AllDigests hs × (verify_consistency D m n hs old new ≡ true)
  unfolding verify_consistency_b64
  b64-verifies m n old new proof below h = by_proof (decode_proof proof) h
    where
      by_proof :
          (p : Option (List Bytes))
          → elim p [ none ↦ false | some hs ↦ consistent D m old n new hs ] ≡ true
          → (hs : List Bytes) × AllDigests hs × (verify_consistency D m n hs old new ≡ true)
      by_proof none e = cc e
      by_proof (some hs) e =
          (hs, all_digests-AllDigests hs (ground (arith, e, below)), ground (arith, e, below))

  -- the root of a view is that of the first leaves
  abbrev pub IsPrefix : List Bytes → View → Type 0
  IsPrefix leaves v = (root_of v.1 ≡ mth D (take v.0 leaves)) ⊎ Collision D

  module _ (leaves : List Bytes) where
    step-IsPrefix :
        (v q : View)
        → 0 < v.0
        → q.0 ≤ length leaves
        → Extends D v q
        → IsPrefix leaves q
        → IsPrefix leaves v
    step-IsPrefix v q some_leaves inside (below, inl z) p = absurd (omega arith)
    step-IsPrefix v q some_leaves inside (below, inr (proof, ok)) (inr x) = inr x
    step-IsPrefix v q some_leaves inside (below, inr (proof, ok)) (inl same) =
        let (hs, digests, checks) = b64-verifies v.0 q.0 _ _ proof below ok in
        let size : length (take q.0 leaves) ≡ q.0 = omega (arith, length-take q.0 leaves) in
        let checks' : verify_consistency D v.0 (length (take q.0 leaves)) hs (root_of v.1)
              (mth D (take q.0 leaves))
            ≡ true =
          rw (size, ← same) checks in
        elim (verify_consistency_sound D v.0 (take q.0 leaves) hs (root_of v.1) digests checks') [
          | inr x ↦ inr x
          | inl (_, _, root) ↦ inl (root ∙ ap (mth D) (take-take v.0 q.0 leaves (omega arith)))
        ]

    -- from the first view of a chain that ends in the tree of the leaves
    chain-IsPrefix :
        (v : View) (rs : List Cosigned) (last : View)
        → last.0 ≡ length leaves
        → root_of last.1 ≡ mth D leaves
        → IsChain D (some v) rs (some last)
        → (v.0 ≤ length leaves) × (0 < v.0 → IsPrefix leaves v)
    chain-IsPrefix v [] last size root c =
        let same : v ≡ last = some_inject v last c in
        (rw same (omega (arith, size)), λ _. inl (rw (same, size, take-length leaves) root))
    chain-IsPrefix v (q ∷ rs) last size root (e, c) =
        let (inside, prefix) = chain-IsPrefix (view_of q) rs last size root c in
        (
          omega (arith, e.0),
          λ some_leaves.
              step-IsPrefix v (view_of q) some_leaves inside e (prefix (omega (arith, e.0))),
        )

    -- of every record of the chain
    records-IsPrefix :
        (v : Option View) (rs : List Cosigned) (last : View)
        → last.0 ≡ length leaves
        → root_of last.1 ≡ mth D leaves
        → IsChain D v rs (some last)
        → (r : Cosigned) → Among r rs
        → (r.size ≤ length leaves) × (0 < r.size → IsPrefix leaves (view_of r))
    records-IsPrefix v [] last size root c r m = absurd m
    records-IsPrefix v (q ∷ rs) last size root c r (inl e) =
        rw e (chain-IsPrefix (view_of q) rs last size root c.1)
    records-IsPrefix v (q ∷ rs) last size root c r (inr m) =
        records-IsPrefix (some (view_of q)) rs last size root c.1 r m

  -- no two roots at one size
  later-larger :
      (v : View) (rs : List Cosigned) (last : Option View)
      → IsChain D (some v) rs last
      → (r : Cosigned) → Among r rs
      → v.0 < r.size
  later-larger v [] last c r m = absurd m
  later-larger v (q ∷ rs) last c r (inl e) = rw e c.0.0
  later-larger v (q ∷ rs) last c r (inr m) =
      omega (arith, c.0.0, later-larger (view_of q) rs last c.1 r m)

  chain_one_root :
      (v : Option View) (rs : List Cosigned) (last : Option View)
      → IsChain D v rs last
      → (r q : Cosigned) → Among r rs
      → Among q rs
      → r.size ≡ q.size
      → r ≡ q
  chain_one_root v [] last c r q m n e = absurd m
  chain_one_root v (x ∷ rs) last c r q (inl a) (inl b) e = a ∙ sym b
  chain_one_root v (x ∷ rs) last c r q (inl a) (inr n) e =
      let l : x.size < q.size = later-larger (view_of x) rs last c.1 q n in
      absurd (omega (arith, l, e, ap (λ (y : Cosigned). y.size) a))
  chain_one_root v (x ∷ rs) last c r q (inr m) (inl b) e =
      let l : x.size < r.size = later-larger (view_of x) rs last c.1 r m in
      absurd (omega (arith, l, e, ap (λ (y : Cosigned). y.size) b))
  chain_one_root v (x ∷ rs) last c r q (inr m) (inr n) e =
      chain_one_root (some (view_of x)) rs last c.1 r q m n e

module _ (D : Digest) (K : NoteKeys) (w : Signer) (ms : List Submission) where
  -- After any requests to a witness that starts with no files, no two records of the history of one
  -- origin have the same size: two records of an origin with one size are the same record.
  pub history_one_root :
      (o : Text) (r q : Cosigned)
      → Among r (records o (run D K w ms empty_store).history)
      → Among q (records o (run D K w ms empty_store).history)
      → r.size ≡ q.size
      → r ≡ q
  history_one_root o r q m n e =
      chain_one_root D none _ _ ((run-IsKept D K w ms empty_store (empty_store-IsKept D)).chain o) r
        q m n e

  -- After any requests to a witness that starts with no files: if the stored checkpoint of an origin has
  -- the size and the root of a list of leaves, then every record of the origin's history has at most that
  -- size, and its root is the root of the first leaves, as many as its size, unless that is 0, or a
  -- collision of the digest is at hand.
  pub history_append_only :
      (o : Text) (e : Entry) (leaves : List Bytes)
      → lookup bytes_eq o (run D K w ms empty_store).state.origins ≡ some e
      → e.size ≡ length leaves
      → root_of e.root_b64 ≡ mth D leaves
      → (r : Cosigned) → Among r (records o (run D K w ms empty_store).history)
      → (r.size ≤ length leaves)
        × ((r.size ≡ 0) ⊎ (root_of r.root_b64 ≡ mth D (take r.size leaves)) ⊎ Collision D)
  history_append_only o e leaves stored size root r m =
      let chain = (run-IsKept D K w ms empty_store (empty_store-IsKept D)).chain o in
      let (inside, prefix) =
        records-IsPrefix D leaves none (records o (run D K w ms empty_store).history)
          (e.size, e.root_b64) size root (rw stored at chain) r m in
      (inside, by_size r.size refl prefix)
    where
      by_size :
          (n : ℕ)
          → r.size ≡ n
          → (0 < r.size → IsPrefix D leaves (view_of r))
          → (r.size ≡ 0) ⊎ (root_of r.root_b64 ≡ mth D (take r.size leaves)) ⊎ Collision D
      by_size zero z p = inl z
      by_size (suc n) z p = inr (p (omega (arith, z)))
