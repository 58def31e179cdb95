-- ===== src/Tip/Tails.antt =====
-- cryptovalid_tip.py: the last checks of `check_tip`, on the end of the file.
use cryptovalid_opencore.Prelude.{
  ℕ, ◌<◌, ◌≡◌, ◌≢◌, refl, sym, ◌∙◌, arith, Bool, true, false, not, ◌&&◌, ◌⊎◌, inl, inr, Option,
  none, some, [], ◌∷◌, ltb, ltb→lt, Bool-cases,
}
use cryptovalid_opencore.Bytes.{bytes_eq, bytes_eq_iff}
use cryptovalid_opencore.Json.{Text, Members}
use cryptovalid_opencore.Outcome.{TipError, tail_truncated, unsealed_tail, tail_rewritten}
use cryptovalid_opencore.Verifier.{given}
use cryptovalid_opencore.Instant.{parse_instant}
use cryptovalid_opencore.Tip.{
  Schemes, entries_in, ledger_id_in, tip_sha256_in, ts_in, first_of, TipOptions, before, of_another,
  verify_tip_signature, state_checks, check_tip, absent,
}

-- this ledger's where there is an entry and a first self_hash is given
abbrev pub OwnIfGiven : Option Text → ℕ → Text → Type 0
OwnIfGiven none n id = Unit
OwnIfGiven (some first) n id = (n ≡ 0) ⊎ (id ≡ first)

-- the tip is the expected ledger's, this ledger's, and not too old
abbrev pub OwnAndFresh : TipOptions → ℕ → Option Text → Members → Type 0
OwnAndFresh o n first tip =
    ((given o.expect_ledger_id ≡ false) ⊎ (ledger_id_in tip ≡ o.expect_ledger_id))
    × OwnIfGiven first n (ledger_id_in tip)
    × ((given o.not_before ≡ false)
        ⊎ ((absent (parse_instant o.not_before) ≡ false)
            × (before (parse_instant (ts_in tip)) (parse_instant o.not_before) ≡ false)))

and-false_left : (a b : Bool) → a ≡ false → (a && b) ≡ false
and-false_left a b e = rw e

and-false_right : (a b : Bool) → b ≡ false → (a && b) ≡ false
and-false_right true b e = e
and-false_right false b e = refl

differs-false : (a b : Text) → a ≡ b → not (bytes_eq a b) ≡ false
differs-false a b e = rw ((bytes_eq_iff a b).1 e)

differs-true : (a b : Text) → bytes_eq a b ≡ false → a ≢ b
differs-true a b e same = cc (sym e ∙ (bytes_eq_iff a b).1 same)

OwnIfGiven-passes :
    (first : Option Text) (n : ℕ) (id : Text)
    → OwnIfGiven first n id
    → of_another first n id ≡ false
OwnIfGiven-passes none n id own = refl
OwnIfGiven-passes (some first) n id (inl no_entry) = and-false_left (ltb 0 n) _ (ground arith)
OwnIfGiven-passes (some first) n id (inr same) = and-false_right _ _ (differs-false _ _ same)

module _ (c : Schemes) where
  -- the checks of the tail, after the others
  abbrev tail_answer : ℕ → Text → Members → Option TipError
  tail_answer n last tip = first_of (
      (ltb n (entries_in tip), tail_truncated)
      ∷ (ltb (entries_in tip) n, unsealed_tail)
      ∷ (not (bytes_eq last (tip_sha256_in tip)), tail_rewritten)
      ∷ [])

  check_tip-tail_answer :
      (o : TipOptions) (n : ℕ) (last : Text) (first : Option Text) (tip : Members)
      → verify_tip_signature c tip o.trusted o.trusted_pq ≡ none
      → OwnAndFresh o n first tip
      → check_tip c o n last first tip ≡ tail_answer n last tip
  unfolding check_tip state_checks first_of
  check_tip-tail_answer o n last first tip signed (expected, own, fresh) =
      let e1 : (given o.expect_ledger_id && not (bytes_eq (ledger_id_in tip) o.expect_ledger_id))
          ≡ false =
        elim expected [
          | inl any ↦ and-false_left _ _ any
          | inr same ↦ and-false_right _ _ (differs-false _ _ same)
        ] in
      let e2 = OwnIfGiven-passes first n (ledger_id_in tip) own in
      let e3 : (given o.not_before && absent (parse_instant o.not_before)) ≡ false = elim fresh [
        | inl any ↦ and-false_left _ _ any
        | inr (readable, _) ↦ and-false_right _ _ readable
      ] in
      let e4 : (given o.not_before
            && before (parse_instant (ts_in tip)) (parse_instant o.not_before))
          ≡ false =
        elim fresh [
          | inl any ↦ and-false_left _ _ any
          | inr (_, later) ↦ and-false_right _ _ later
        ] in
      rw (signed, e1, e2, e3, e4)

  -- For a tip whose signatures verify, that is the expected ledger's and this ledger's and is not dated
  -- before the instant not_before, `check_tip` answers tail_truncated where the file has fewer entries
  -- than the tip, unsealed_tail where it has more, tail_rewritten where it has as many and another last
  -- hash, and nothing where count and hash are the tip's.
  pub tail_verdict :
      (o : TipOptions) (n : ℕ) (last : Text) (first : Option Text) (tip : Members)
      → verify_tip_signature c tip o.trusted o.trusted_pq ≡ none
      → OwnAndFresh o n first tip
      → ((n < entries_in tip) × (check_tip c o n last first tip ≡ some tail_truncated))
        ⊎ ((entries_in tip < n) × (check_tip c o n last first tip ≡ some unsealed_tail))
        ⊎ ((n ≡ entries_in tip)
            × (last ≢ tip_sha256_in tip)
            × (check_tip c o n last first tip ≡ some tail_rewritten))
        ⊎ ((n ≡ entries_in tip)
            × (last ≡ tip_sha256_in tip)
            × (check_tip c o n last first tip ≡ none))
  unfolding first_of
  tail_verdict o n last first tip signed own =
      let answer = check_tip-tail_answer o n last first tip signed own in
      elim (Bool-cases (ltb n (entries_in tip))) [
        | inl fewer ↦ inl (ltb→lt _ _ fewer, answer ∙ rw fewer refl)
        | inr enough ↦ elim (Bool-cases (ltb (entries_in tip) n)) [
          | inl more ↦ inr (inl (ltb→lt _ _ more, answer ∙ rw (enough, more) refl))
          | inr equal ↦
              let same : n ≡ entries_in tip = ground arith in
              elim (Bool-cases (bytes_eq last (tip_sha256_in tip))) [
                | inl hash ↦ inr (
                    inr (
                      inr
                        (same, (bytes_eq_iff _ _).0 hash, answer ∙ rw (enough, equal, hash) refl)))
                | inr other ↦ inr (
                    inr
                      (inl (same, differs-true _ _ other, answer ∙ rw (enough, equal, other) refl)))
              ]
        ]
      ]
