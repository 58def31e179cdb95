-- ===== src/Witness/Relying.antt =====
-- cryptovalid_witness.py: `verify_witnessed`, the check of a relying party. Times, the clock's skew and the
-- greatest age are ints that are at least 0.
use cryptovalid_opencore.Prelude.{
  ℕ, ◌+◌, ◌-◌, Bool, true, false, not, ◌&&◌, ◌||◌, Option, none, some, List, [], ◌∷◌, ◌++◌, length,
  ltb, leb, ◌==◌, if◌then◌else◌,
}
use cryptovalid_opencore.Bytes.{Bytes, bytes_eq, Digest}
use cryptovalid_opencore.Json.{Text, ℤ, pos, negsuc, text_ltb}
use cryptovalid_opencore.Raises.{Raises, ok, raised, ◌>>=◌, ◌>>◌}
use cryptovalid_opencore.Texts.{is_nil}
use cryptovalid_opencore.Checkpoint.{
  NoteError, no_log_key, not_a_log_key, origin_needed, bad_min_witnesses, not_a_witness_key,
  refuse_if, type_cosig_v1, type_mldsa44, parse_vkey, Vkey, Checkpoint, parse_checkpoint,
}
use cryptovalid_opencore.Checkpoint.Notes.{NoteKeys}
use cryptovalid_opencore.Checkpoint.Verify.{
  NoteStatus, valid, non_valida, non_verificata, Motive, Verified, NoteReport, verify_note,
}
use cryptovalid_opencore.Dicts.{or_default, lookup, set}
use cryptovalid_opencore.Witness.Requests.{
  is_log_type, all_log_types, one_name, trusted_origin, log_signed, parse_vkeys,
}

pub record Policy : Type 0 where
  pub log_vkeys : List Text
  pub witness_vkeys : List Text
  pub min_witnesses : ℕ
  pub max_age_s : Option ℕ
  pub now : ℕ
  pub clock_skew_s : ℕ
  pub expected_origin : Option Text

pub data WitnessMotive : Type 0 where
  note_motive : Option Motive → WitnessMotive
  no_trusted_log : WitnessMotive
  unreadable_checkpoint : NoteError → WitnessMotive
  unexpected_origin : WitnessMotive
  few_witnesses : ℕ → WitnessMotive
  few_fresh_witnesses : ℕ → WitnessMotive

pub record WitnessReport : Type 0 where
  pub stato : NoteStatus
  pub witnesses : List Text
  pub fresh_witnesses : Option (List Text)
  pub future_witnesses : Option (List Text)
  pub freshness_s : Option ℤ
  pub motivo : Option WitnessMotive
  pub checkpoint : Option Checkpoint

-- the newest cosignature of each witness
abbrev pub Times : Type 0
Times = List (Text × ℕ)

abbrev pub max_of : ℕ → ℕ → ℕ
max_of a b = if ltb a b then b else a

abbrev pub is_cosigner_type : ℕ → Bool
is_cosigner_type t = t == type_cosig_v1 || t == type_mldsa44

abbrev pub with_time : Verified → Times → Times
with_time v wits =
    set bytes_eq v.name
      (max_of (or_default 0 (lookup bytes_eq v.name wits)) (or_default 0 v.timestamp)) wits

unfoldable pub witness_times : List Verified → Times → Times
witness_times [] wits = wits
witness_times (v ∷ vs) wits =
    witness_times vs (if is_cosigner_type v.typ then with_time v wits else wits)

unfoldable pub insert_name : Text → List Text → List Text
insert_name n [] = n ∷ []
insert_name n (m ∷ ms) = if text_ltb m n then m ∷ insert_name n ms else n ∷ m ∷ ms

-- `sorted` of the names whose time passes a test
unfoldable pub names_where : (ℕ → Bool) → Times → List Text
names_where test [] = []
names_where test ((n, t) ∷ wits) =
    let rest = names_where test wits in if test t then insert_name n rest else rest

-- `max(present.values())`, of the times that are not in the future
unfoldable pub newest : (ℕ → Bool) → Times → Option ℕ
newest test [] = none
newest test ((n, t) ∷ wits) =
    let rest = newest test wits in if test t then some (max_of (or_default 0 rest) t) else rest

abbrev difference : ℕ → ℕ → ℤ
difference a b = if leb b a then pos (a - b) else negsuc (b - a - 1)

abbrev age_of : ℕ → Option ℕ → Option ℤ
age_of now none = none
age_of now (some t) = some (difference now t)

abbrev pub in_future : Policy → ℕ → Bool
in_future q t = ltb (q.now + q.clock_skew_s) t

-- `now - t <= max_age_s`, and not in the future
abbrev pub is_fresh : Policy → ℕ → ℕ → Bool
is_fresh q max_age t = not (in_future q t) && leb q.now (t + max_age)

abbrev pub blank : WitnessReport
blank = record {
  stato = non_valida;
  witnesses = [];
  fresh_witnesses = none;
  future_witnesses = none;
  freshness_s = none;
  motivo = none;
  checkpoint = none;
}

unfoldable pub judge_age : Policy → Times → WitnessReport → WitnessReport
judge_age q wits out = elim q.max_age_s [
  | none ↦ record out { stato = valid }
  | some max_age ↦
      let fresh = names_where (is_fresh q max_age) wits in
      let dated : WitnessReport = record out {
        fresh_witnesses = some fresh;
        future_witnesses = some (names_where (in_future q) wits);
        freshness_s = age_of q.now (newest (λ t. not (in_future q t)) wits);
      } in
      if ltb (length fresh) q.min_witnesses
      then record dated { motivo = some (few_fresh_witnesses (length fresh)) }
      else record dated { stato = valid }
]

unfoldable pub judge_witnesses : Policy → Times → WitnessReport → WitnessReport
judge_witnesses q wits out =
    let named : WitnessReport = record out { witnesses = names_where (λ t. true) wits } in
    if ltb (length wits) q.min_witnesses
    then record named { motivo = some (few_witnesses (length wits)) }
    else judge_age q wits named

-- of a text that was parsed, or not
abbrev pub judged : Policy → List Vkey → NoteReport → Raises NoteError Checkpoint → WitnessReport
judged q keys v (raised e) = record blank { motivo = some (unreadable_checkpoint e) }
judged q keys v (ok cp) =
    let out : WitnessReport = record blank { checkpoint = some cp } in
    if not (bytes_eq cp.origin (trusted_origin q.expected_origin keys))
    then record out { motivo = some unexpected_origin }
    else judge_witnesses q (witness_times v.verified []) out

unfoldable pub judge_checkpoint : Policy → List Vkey → NoteReport → WitnessReport
judge_checkpoint q keys v = judged q keys v (parse_checkpoint (or_default [] v.text))

-- of a report's status
abbrev pub judge_status : Policy → List Vkey → NoteReport → NoteStatus → WitnessReport
judge_status q keys v non_verificata = record blank {
  stato = non_verificata;
  motivo = some (note_motive v.motivo);
}
judge_status q keys v non_valida = record blank { motivo = some (note_motive v.motivo) }
judge_status q keys v valid =
    if not (log_signed keys v.verified)
    then record blank { motivo = some no_trusted_log }
    else judge_checkpoint q keys v

unfoldable pub judge_note : Policy → List Vkey → NoteReport → WitnessReport
judge_note q keys v = judge_status q keys v v.stato

module _ (D : Digest) (K : NoteKeys) where
  -- the vkeys of the witnesses whose type is verified
  unfoldable pub usable : List Text → Raises NoteError (List Text)
  usable [] = ok []
  usable (wv ∷ vkeys) = do
    key ← parse_vkey D wv false
    refuse_if (is_log_type key.typ) not_a_witness_key
    rest ← usable vkeys
    ok (if is_cosigner_type key.typ then wv ∷ rest else rest)

  unfoldable pub verify_witnessed : Policy → Bytes → Raises NoteError WitnessReport
  verify_witnessed q note = do
    refuse_if (ltb q.min_witnesses 1) bad_min_witnesses
    refuse_if (is_nil q.log_vkeys) no_log_key
    keys ← parse_vkeys D q.log_vkeys
    refuse_if (not (all_log_types keys)) not_a_log_key
    refuse_if (elim q.expected_origin [ none ↦ not (one_name keys) | some o ↦ false ]) origin_needed
    trusted ← usable q.witness_vkeys
    v ← verify_note D K note (q.log_vkeys ++ trusted)
    ok (judge_note q keys v)
