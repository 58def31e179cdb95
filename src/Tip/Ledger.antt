-- ===== src/Tip/Ledger.antt =====
-- verifier.py's `verify_ledger` with cryptovalid_tip.py's `check_tip`.
use cryptovalid_opencore.Prelude.{
  ℕ, ◌≡◌, sym, ap, ◌∙◌, arith, true, ◌⊎◌, inl, inr, Option, some, List, map, length,
}
use cryptovalid_opencore.Bytes.{Digest, Collision}
use cryptovalid_opencore.Json.{Text, Members}
use cryptovalid_opencore.Entry.{canonical_payload}
use cryptovalid_opencore.Outcome.{TipError, Options, Line, Receipt, pass}
use cryptovalid_opencore.Checks.{entries_of}
use cryptovalid_opencore.Verifier.{given, last_hash, first_hash, algo_used, verify_ledger}
use cryptovalid_opencore.Verifier.Chain.{pass_iff}
use cryptovalid_opencore.Verifier.Binding.{AllScalars, digest_of, last_hash-commits}
use cryptovalid_opencore.Tip.{
  Schemes, entries_in, ledger_id_in, tip_sha256_in, TipOptions, check_tip,
}
use cryptovalid_opencore.Tip.Accepted.{Signed, check_tip-accepts}

-- the arguments that `verify_ledger` hands on to `check_tip`
abbrev pub tip_options : Options → Text → Text → TipOptions
tip_options o not_before expect_ledger_id = record {
  trusted = o.trusted_pubkey;
  trusted_pq = o.trusted_pq_pubkey;
  not_before = not_before;
  expect_ledger_id = expect_ledger_id;
}

-- `check_tip` as `verify_ledger` calls it
abbrev pub tip_check : Schemes → TipOptions → ℕ → Text → Text → Members → Option TipError
tip_check c o n last first tip = check_tip c o n last (some first) tip

module _ (D S : Digest) (c : Schemes) where
  abbrev pub verify_with_tip : Options → Text → Text → List Line → Receipt
  verify_with_tip o not_before expect lines =
      verify_ledger D S (tip_check c (tip_options o not_before expect)) o lines

  -- PASS with a trusted log key and a tip: the tip could be read, its payload is signed by the trusted
  -- keys, and its number of entries, its hash and its ledger id are the ledger's number of entries, last
  -- self_hash and first self_hash.
  pub tip_seals :
      (o : Options) (not_before expect : Text) (lines : List Line) (doc : Option Members)
      → given o.trusted_pubkey ≡ true
      → o.tip_file ≡ some doc
      → (verify_with_tip o not_before expect lines).verdict ≡ pass
      → (tip : Members) × (doc ≡ some tip)
        × Signed c (tip_options o not_before expect) tip
        × (entries_in tip ≡ length (entries_of lines))
        × (tip_sha256_in tip ≡ last_hash (entries_of lines))
        × (ledger_id_in tip ≡ first_hash (entries_of lines))
  tip_seals o not_before expect lines doc keyed there ok =
      let check = tip_check c (tip_options o not_before expect) in
      let (_, some_entry, _, _, tip_ok) = (pass_iff D S check o lines).0 ok in
      elim (rw there at tip_ok) [
        | inl (unkeyed, _) ↦ cc
        | inr (_, tip, same, accepted) ↦
            let (signed, (entries, last, own, _, _)) =
              check_tip-accepts c (tip_options o not_before expect) (length (entries_of lines))
                (last_hash (entries_of lines)) (some (first_hash (entries_of lines))) tip
                accepted in
            elim own [
              | inl no_entry ↦ absurd (ground arith)
              | inr first ↦ (tip, same, signed, entries, last, first)
            ]
      ]

  -- Two ledgers that pass with a trusted log key against the same tip, with the same algorithm used and
  -- whose entries' strings hold no surrogates, hold the same canonical payloads in the same order, or a
  -- collision of that algorithm's digest is at hand.
  pub tip_pins :
      (o o' : Options) (nb nb' ex ex' : Text) (lines lines' : List Line) (tip : Members)
      → given o.trusted_pubkey ≡ true
      → given o'.trusted_pubkey ≡ true
      → o.tip_file ≡ some (some tip)
      → o'.tip_file ≡ some (some tip)
      → (verify_with_tip o nb ex lines).verdict ≡ pass
      → (verify_with_tip o' nb' ex' lines').verdict ≡ pass
      → algo_used D S o (entries_of lines) ≡ algo_used D S o' (entries_of lines')
      → AllScalars (entries_of lines)
      → AllScalars (entries_of lines')
      → (map canonical_payload (entries_of lines) ≡ map canonical_payload (entries_of lines'))
        ⊎ Collision (digest_of D S (algo_used D S o (entries_of lines)))
  tip_pins o o' nb nb' ex ex' lines lines' tip k k' t t' ok ok' algos ss st =
      let (a, same, _, _, last, _) = tip_seals o nb ex lines (some tip) k t ok in
      let (b, same', _, _, last', _) = tip_seals o' nb' ex' lines' (some tip) k' t' ok' in
      let one : a ≡ b = cc in
      last_hash-commits D S (tip_check c (tip_options o nb ex))
        (tip_check c (tip_options o' nb' ex')) o o' lines lines' ok ok' algos ss st
        (sym last ∙ (ap tip_sha256_in one ∙ last'))
