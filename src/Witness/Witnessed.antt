-- ===== src/Witness/Witnessed.antt =====
-- What an OK of `verify_witnessed` means.
use cryptovalid_opencore.Prelude.{
  ℕ, ◌+◌, ◌≤◌, ◌≡◌, refl, sym, ap, inl, inr, true, false, not, Bool-cases, none, some, List, [],
  ◌∷◌, ◌++◌, length, ltb, arith,
}
use cryptovalid_opencore.Bytes.{Bytes, bytes_eq, Digest}
use cryptovalid_opencore.Json.{Text}
use cryptovalid_opencore.Raises.{Raises, ok, raised, >>=-eq-ok}
use cryptovalid_opencore.Texts.{is_nil}
use cryptovalid_opencore.Checkpoint.{NoteError, Vkey, Checkpoint, parse_checkpoint}
use cryptovalid_opencore.Checkpoint.Parsed.{refuse_if-ok}
use cryptovalid_opencore.Checkpoint.Notes.{NoteKeys}
use cryptovalid_opencore.Checkpoint.Verify.{
  NoteStatus, valid, non_valida, non_verificata, Verified, NoteReport, verify_note,
}
use cryptovalid_opencore.Dicts.{or_default}
use cryptovalid_opencore.Dicts.All.{All}
use cryptovalid_opencore.Witness.Requests.{
  all_log_types, one_name, trusted_origin, log_signed, parse_vkeys,
}
use cryptovalid_opencore.Witness.Relying.{
  Policy, WitnessReport, Times, witness_times, names_where, is_fresh, judge_age, judge_witnesses,
  judge_checkpoint, judge_note, judge_status, judged, usable, verify_witnessed,
}
use cryptovalid_opencore.Witness.Freshness.{
  Distinct, OneOf, Cosigned, names_where-All, names_where-Distinct, witness_times-Cosigned,
}

report_inject :
    (a b : WitnessReport) → ◌≡◌ {A = Raises NoteError WitnessReport} (ok a) (ok b) → a ≡ b
report_inject a b h = cc h

-- the newest time of some verified line of the witness is fresh
abbrev pub FreshIn : Policy → ℕ → List Verified → Text → Type 0
FreshIn q age vs n = (t : ℕ) × Cosigned vs n t × (t ≤ q.now + q.clock_skew_s) × (q.now ≤ t + age)

is_fresh-bounds :
    (q : Policy) (age t : ℕ)
    → is_fresh q age t ≡ true
    → (t ≤ q.now + q.clock_skew_s) × (q.now ≤ t + age)
is_fresh-bounds q age t h = (ground (arith, h), ground (arith, h))

-- what the relying party asked for
pub record Witnessed (q : Policy) (age : ℕ) (v : NoteReport) (r : WitnessReport) : Type 0 where
  pub checkpoint : Checkpoint
  pub parses : parse_checkpoint (or_default [] v.text) ≡ ok checkpoint
  pub names : List Text
  pub fresh : r.fresh_witnesses ≡ some names
  pub enough : q.min_witnesses ≤ length names
  pub distinct : Distinct names
  pub each_fresh : All (FreshIn q age v.verified) names

module _ (q : Policy) (age : ℕ) (asked : q.max_age_s ≡ some age) (v : NoteReport)
    (r : WitnessReport) (good : r.stato ≡ valid) where
  abbrev Enough : Times → Type 0
  Enough wits =
      (r.fresh_witnesses ≡ some (names_where (is_fresh q age) wits))
      × (q.min_witnesses ≤ length (names_where (is_fresh q age) wits))

  judge_age-Enough :
      (wits : Times) (out : WitnessReport)
      → out.stato ≡ non_valida
      → judge_age q wits out ≡ r
      → Enough wits
  unfolding judge_age
  judge_age-Enough wits out bad made =
      let m = rw asked at made in
      elim (Bool-cases (ltb (length (names_where (is_fresh q age) wits)) q.min_witnesses)) [
        | inl few ↦
            let n = rw few at m in absurd (cc (ap (λ (x : WitnessReport). x.stato) n, bad, good))
        | inr many ↦
            let n = rw many at m in
            (sym (ap (λ (x : WitnessReport). x.fresh_witnesses) n), ground (arith, many))
      ]

  judge_witnesses-Enough :
      (wits : Times) (out : WitnessReport)
      → out.stato ≡ non_valida
      → judge_witnesses q wits out ≡ r
      → Enough wits
  unfolding judge_witnesses
  judge_witnesses-Enough wits out bad made = elim (Bool-cases (ltb (length wits) q.min_witnesses)) [
    | inl few ↦
        let n = rw few at made in absurd (cc (ap (λ (x : WitnessReport). x.stato) n, bad, good))
    | inr many ↦ judge_age-Enough wits _ bad (rw many at made)
  ]

  All-listed :
      (vs all : List Verified)
      → ((u : Verified) → OneOf u vs → OneOf u all)
      → All (λ u. OneOf u all) vs
  All-listed [] all f = tt
  All-listed (u ∷ vs) all f = (f u (inl refl), All-listed vs all (λ x m. f x (inr m)))

  checked :
      (cp : Checkpoint)
      → parse_checkpoint (or_default [] v.text) ≡ ok cp
      → Enough (witness_times v.verified [])
      → Witnessed q age v r
  checked cp parses (fresh, enough) =
      let times =
        witness_times-Cosigned v.verified v.verified []
          (All-listed v.verified v.verified (λ u m. m)) (tt, tt) in
      record {
        checkpoint = cp;
        parses = parses;
        names = names_where (is_fresh q age) (witness_times v.verified []);
        fresh = fresh;
        enough = enough;
        distinct = names_where-Distinct (is_fresh q age) _ times.1;
        each_fresh =
            names_where-All (is_fresh q age) (Cosigned v.verified) (FreshIn q age v.verified)
              (λ n t c f. let b = is_fresh-bounds q age t f in (t, c, b.0, b.1)) _ times.0;
      }

  judge_checkpoint-Witnessed :
      (keys : List Vkey) → judge_checkpoint q keys v ≡ r → Witnessed q age v r
  unfolding judge_checkpoint
  judge_checkpoint-Witnessed keys made =
      by_parse (parse_checkpoint (or_default [] v.text)) refl made
    where
      by_parse :
          (p : Raises NoteError Checkpoint)
          → parse_checkpoint (or_default [] v.text) ≡ p
          → judged q keys v p ≡ r
          → Witnessed q age v r
      by_parse (raised e) parses m = absurd (cc (ap (λ (x : WitnessReport). x.stato) m, good))
      by_parse (ok cp) parses m =
          elim (Bool-cases (bytes_eq cp.origin (trusted_origin q.expected_origin keys))) [
            | inr other ↦
                let n = rw other at m in absurd (cc (ap (λ (x : WitnessReport). x.stato) n, good))
            | inl same ↦ checked cp parses (judge_witnesses-Enough _ _ refl (rw same at m))
          ]

  pub judge_note-Witnessed :
      (keys : List Vkey)
      → judge_note q keys v ≡ r
      → Witnessed q age v r × (v.stato ≡ valid) × (log_signed keys v.verified ≡ true)
  unfolding judge_note
  judge_note-Witnessed keys made = by_status v.stato refl made
    where
      by_status :
          (s : NoteStatus)
          → v.stato ≡ s
          → judge_status q keys v s ≡ r
          → Witnessed q age v r × (v.stato ≡ valid) × (log_signed keys v.verified ≡ true)
      by_status non_verificata e m = absurd (cc (ap (λ (x : WitnessReport). x.stato) m, good))
      by_status non_valida e m = absurd (cc (ap (λ (x : WitnessReport). x.stato) m, good))
      by_status valid e m = elim (Bool-cases (log_signed keys v.verified)) [
        | inr unsigned ↦
            let n = rw unsigned at m in absurd (cc (ap (λ (x : WitnessReport). x.stato) n, good))
        | inl signed ↦ (judge_checkpoint-Witnessed keys (rw signed at m), e, signed)
      ]

-- Whenever verify_witnessed reports OK where a greatest age is asked: verify_note accepts the note for the
-- trusted log keys and the usable witness keys, with a verified line of a trusted log key; the text is a
-- checkpoint; and the fresh witnesses in the report are at least as many as required, no two with one
-- name, each with a verified cosignature that is not in the future by more than the clock's skew and not
-- older than the greatest age.
pub verify_witnessed-Witnessed :
    (D : Digest) (K : NoteKeys) (q : Policy) (note : Bytes) (r : WitnessReport) (age : ℕ)
    → q.max_age_s ≡ some age
    → verify_witnessed D K q note ≡ ok r
    → r.stato ≡ valid
    → (v : NoteReport) × (keys : List Vkey) × (trusted : List Text) × (parse_vkeys D q.log_vkeys
        ≡ ok keys)
      × (usable D K q.witness_vkeys ≡ ok trusted)
      × (verify_note D K note (q.log_vkeys ++ trusted) ≡ ok v)
      × (v.stato ≡ valid)
      × (log_signed keys v.verified ≡ true)
      × Witnessed q age v r
unfolding verify_witnessed
verify_witnessed-Witnessed D K q note r age asked h good =
    let g1 = refuse_if-ok (ltb q.min_witnesses 1) _ _ h in
    let g2 = refuse_if-ok (is_nil q.log_vkeys) _ _ g1.1 in
    let (keys, parsed, h3) = >>=-eq-ok (parse_vkeys D q.log_vkeys) _ g2.1 in
    let g4 = refuse_if-ok (not (all_log_types keys)) _ _ h3 in
    let g5 =
      refuse_if-ok (elim q.expected_origin [ none ↦ not (one_name keys) | some o ↦ false ]) _ _
        g4.1 in
    let (trusted, made, h6) = >>=-eq-ok (usable D K q.witness_vkeys) _ g5.1 in
    let (v, verified, h7) = >>=-eq-ok (verify_note D K note (q.log_vkeys ++ trusted)) _ h6 in
    let w = judge_note-Witnessed q age asked v r good keys (report_inject _ _ h7) in
    (v, keys, trusted, parsed, made, verified, w.1, w.2, w.0)
