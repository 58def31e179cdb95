-- ===== src/Verifier/Binding.antt =====
-- verifier.py: two ledgers that end in the same self_hash.
use cryptovalid_opencore.Prelude.{
  ℕ, suc, ◌+◌, ◌≤◌, ◌≡◌, refl, sym, ap, ap₂, ◌∙◌, arith, ◌⊎◌, inl, inr, List, [], ◌∷◌, map, length,
  Bool-cases, Option,
}
use cryptovalid_opencore.Bytes.{bytes_eq, Digest, Collision, hash_inject}
use cryptovalid_opencore.Json.{
  Text, pos, Json, null, num, str, Members, empty, member, get, sort_keys,
}
use cryptovalid_opencore.Json.Roundtrip.{ScalarMembers}
use cryptovalid_opencore.Entry.{idx_key, prev_hash_key, self_hash_key, contains, canonical_payload}
use cryptovalid_opencore.Outcome.{Algo, sha256, sha3_256, Options, Line, TipError, pass}
use cryptovalid_opencore.Checks.{entries_of, genesis_prev}
use cryptovalid_opencore.Verifier.{
  hash_with, hash_of_entry, last_hash, text_of, algo_used, verify_ledger,
}
use cryptovalid_opencore.Verifier.Chain.{Wellformed, pass_iff}
use cryptovalid_opencore.Verifier.Commitment.{hexdigest-inject, payload-commits}

abbrev pub AllScalars : List Members → Type 0
AllScalars [] = Unit
AllScalars (e ∷ es) = ScalarMembers e × AllScalars es

get_str :
    (key t : Text) (e : Members) (default : Json)
    → get key e null ≡ str t
    → get key e default ≡ str t
unfolding get
get_str key t empty default h = absurd (cc)
get_str key t (member k v e) default h = elim (Bool-cases (bytes_eq k key)) [
  | inl same ↦ rw same (rw same at h)
  | inr other ↦ rw other (get_str key t e default (rw other at h))
]

abbrev text_in : Json → Text
text_in (str t) = t
text_in v = []

abbrev index_in : Json → ℕ
index_in (num (pos n)) = n
index_in v = 0

module _ (D S : Digest) where
  abbrev pub digest_of : Algo → Digest
  digest_of sha256 = D
  digest_of sha3_256 = S

  hash_of_entry-inject :
      (algo : Algo) (e f : Members)
      → hash_of_entry D S algo e ≡ hash_of_entry D S algo f
      → (canonical_payload e ≡ canonical_payload f) ⊎ Collision (digest_of algo)
  unfolding hash_with
  hash_of_entry-inject sha256 e f h =
      hash_inject D (canonical_payload e) (canonical_payload f) (hexdigest-inject _ _ h)
  hash_of_entry-inject sha3_256 e f h =
      hash_inject S (canonical_payload e) (canonical_payload f) (hexdigest-inject _ _ h)

  -- the hash that the next entry must link to
  abbrev end_hash : Algo → Text → List Members → Text
  end_hash algo prev [] = prev
  end_hash algo prev (e ∷ es) = end_hash algo (hash_of_entry D S algo e) es

  last_hash-eq :
      (algo : Algo) (prev : Text) (i : ℕ) (e : Members) (es : List Members)
      → Wellformed D S algo prev i (e ∷ es)
      → last_hash (e ∷ es) ≡ end_hash algo prev (e ∷ es)
  unfolding last_hash
  last_hash-eq algo prev i e [] (c, h, l, n, w) =
      ap text_of (get_str self_hash_key (hash_of_entry D S algo e) e (str []) h)
  last_hash-eq algo prev i e (f ∷ es) (c, h, l, n, w) =
      last_hash-eq algo (hash_of_entry D S algo e) (suc i) f es w

  -- the entry that the list ends in
  abbrev EndEntry : Algo → Text → ℕ → Type 0
  EndEntry algo hash index =
      (z : Members) × ScalarMembers z
      × (hash ≡ hash_of_entry D S algo z)
      × (get idx_key z null ≡ num (pos index))

  end_entry :
      (algo : Algo) (prev : Text) (i : ℕ) (e : Members) (es : List Members)
      → Wellformed D S algo prev i (e ∷ es)
      → AllScalars (e ∷ es)
      → EndEntry algo (end_hash algo prev (e ∷ es)) (i + length es)
  end_entry algo prev i e [] (c, h, l, n, w) (s, ss) =
      (e, s, refl, n ∙ ap (λ k. num (pos k)) (omega arith))
  end_entry algo prev i e (f ∷ es) (c, h, l, n, w) (s, ss) =
      let (z, sz, hz, nz) = end_entry algo (hash_of_entry D S algo e) (suc i) f es w ss in
      (z, sz, hz, nz ∙ ap (λ k. num (pos k)) (omega arith))

  abbrev Same : Algo → Text → Text → List Members → List Members → Type 0
  Same algo p q es fs =
      ((map canonical_payload es ≡ map canonical_payload fs) × (p ≡ q)) ⊎ Collision (digest_of algo)

  Same-contents :
      (algo : Algo) (p q : Text) (i : ℕ) (es fs : List Members)
      → length es ≡ length fs
      → AllScalars es
      → AllScalars fs
      → Wellformed D S algo p i es
      → Wellformed D S algo q i fs
      → end_hash algo p es ≡ end_hash algo q fs
      → Same algo p q es fs
  Same-contents algo p q i [] [] size ss st w v same = inl (refl, same)
  Same-contents algo p q i [] (f ∷ fs) size ss st w v same = absurd (omega arith)
  Same-contents algo p q i (e ∷ es) [] size ss st w v same = absurd (omega arith)
  Same-contents algo p q i (e ∷ es) (f ∷ fs) size (se, ss) (sf, st) (c, h, l, n, w) (d, k, m, o, v)
        same =
      elim (Same-contents algo (hash_of_entry D S algo e) (hash_of_entry D S algo f) (suc i) es fs
        (omega arith) ss st w v same) [
          | inr x ↦ inr x
          | inl (rest, hashes) ↦ elim (hash_of_entry-inject algo e f hashes) [
            | inr x ↦ inr x
            | inl payload ↦
                let linked =
                  payload-commits e f prev_hash_key se sf (unfold contains bytes_eq in refl)
                    payload in
                let prevs : sort_keys (str p) ≡ sort_keys (str q) =
                  ap sort_keys (sym l) ∙ (linked ∙ ap sort_keys m) in
                inl (ap₂ (λ x xs. x ∷ xs) payload rest, unfold sort_keys in ap text_in prevs)
          ]
        ]

  same_size :
      (algo : Algo) (p q : Text) (es fs : List Members)
      → 1 ≤ length es
      → 1 ≤ length fs
      → AllScalars es
      → AllScalars fs
      → Wellformed D S algo p 0 es
      → Wellformed D S algo q 0 fs
      → end_hash algo p es ≡ end_hash algo q fs
      → (length es ≡ length fs) ⊎ Collision (digest_of algo)
  same_size algo p q [] fs a b ss st w v same = absurd (omega arith)
  same_size algo p q (e ∷ es) [] a b ss st w v same = absurd (omega arith)
  same_size algo p q (e ∷ es) (f ∷ fs) a b ss st w v same =
      let (z, sz, hz, nz) = end_entry algo p 0 e es w ss in
      let (y, sy, hy, ny) = end_entry algo q 0 f fs v st in
      elim (hash_of_entry-inject algo z y (sym hz ∙ (same ∙ hy))) [
        | inr x ↦ inr x
        | inl payload ↦
            let numbered =
              payload-commits z y idx_key sz sy (unfold contains bytes_eq in refl) payload in
            let indices : sort_keys (num (pos (0 + length es)))
                ≡ sort_keys (num (pos (0 + length fs))) =
              ap sort_keys (sym nz) ∙ (numbered ∙ ap sort_keys ny) in
            let index : 0 + length es ≡ 0 + length fs = unfold sort_keys in ap index_in indices in
            inl (omega arith)
      ]

  last_hash-end :
      (algo : Algo) (prev : Text) (es : List Members)
      → 1 ≤ length es
      → Wellformed D S algo prev 0 es
      → last_hash es ≡ end_hash algo prev es
  last_hash-end algo prev [] h w = absurd (omega arith)
  last_hash-end algo prev (e ∷ es) h w = last_hash-eq algo prev 0 e es w

  Wellformed-commits :
      (algo : Algo) (p : Text) (es fs : List Members)
      → 1 ≤ length es
      → 1 ≤ length fs
      → AllScalars es
      → AllScalars fs
      → Wellformed D S algo p 0 es
      → Wellformed D S algo p 0 fs
      → last_hash es ≡ last_hash fs
      → (map canonical_payload es ≡ map canonical_payload fs) ⊎ Collision (digest_of algo)
  Wellformed-commits algo p es fs a b ss st w v same =
      let ends = sym (last_hash-end algo p es a w) ∙ (same ∙ last_hash-end algo p fs b v) in
      elim (same_size algo p p es fs a b ss st w v ends) [
        | inr x ↦ inr x
        | inl size ↦ elim (Same-contents algo p p 0 es fs size ss st w v ends) [
          | inr x ↦ inr x
          | inl (contents, _) ↦ inl contents
        ]
      ]

  -- Two ledgers that `verify_ledger` answers PASS for, with the same algorithm used and whose entries'
  -- strings hold no surrogates, and whose last self_hash is the same, hold the same number of entries
  -- with the same canonical payloads in the same order, or a collision of that algorithm's digest is at
  -- hand.
  pub last_hash-commits :
      (check check' : ℕ → Text → Text → Members → Option TipError) (o o' : Options)
      (lines lines' : List Line)
      → (verify_ledger D S check o lines).verdict ≡ pass
      → (verify_ledger D S check' o' lines').verdict ≡ pass
      → algo_used D S o (entries_of lines) ≡ algo_used D S o' (entries_of lines')
      → AllScalars (entries_of lines)
      → AllScalars (entries_of lines')
      → last_hash (entries_of lines) ≡ last_hash (entries_of lines')
      → (map canonical_payload (entries_of lines) ≡ map canonical_payload (entries_of lines'))
        ⊎ Collision (digest_of (algo_used D S o (entries_of lines)))
  last_hash-commits check check' o o' lines lines' ok ok' algos ss st same =
      let (_, some_entry, w, _, _) = (pass_iff D S check o lines).0 ok in
      let (_, some_entry', v, _, _) = (pass_iff D S check' o' lines').0 ok' in
      Wellformed-commits (algo_used D S o (entries_of lines)) genesis_prev (entries_of lines)
        (entries_of lines') some_entry some_entry' ss st w (rw (← algos) at v) same
