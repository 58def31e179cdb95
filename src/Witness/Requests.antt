-- ===== src/Witness/Requests.antt =====
-- cryptovalid_witness.py: `witness_cosign`, from the note to the locked part, and a run of requests.
use cryptovalid_opencore.Prelude.{
  ℕ, ◌+◌, Bool, true, false, not, ◌&&◌, ◌||◌, Option, none, some, List, [], ◌∷◌, length, take, drop,
  ltb, ◌==◌, if◌then◌else◌,
}
use cryptovalid_opencore.Bytes.{Bytes, bytes_eq, Digest}
use cryptovalid_opencore.Json.{Text}
use cryptovalid_opencore.Entry.{contains}
use cryptovalid_opencore.Raises.{Raises, ok, raised, ◌>>=◌, ◌>>◌}
use cryptovalid_opencore.Texts.{split, is_nil, without_last}
use cryptovalid_opencore.Utf8.{utf8_encode, utf8_decode}
use cryptovalid_opencore.Checkpoint.{
  NoteError, no_log_key, not_a_log_key, no_mldsa, origin_needed, refuse_if, type_ed25519,
  type_ecdsa, type_cosig_v1, type_mldsa44, max_sigs, key_id, Vkey, parse_vkey, Checkpoint,
  parse_checkpoint,
}
use cryptovalid_opencore.Checkpoint.Notes.{NoteKeys, Signature, split_note}
use cryptovalid_opencore.Checkpoint.Verify.{
  NoteStatus, valid, non_valida, non_verificata, Verified, NoteReport, verify_note,
}
use cryptovalid_opencore.Dicts.{or_default}
use cryptovalid_opencore.Witness.{
  Store, Reason, malformed_note, log_signature, no_log_signature, bad_checkpoint, other_origin,
  long_proof, long_origin, no_room_left, refused, Answer, max_proof,
}
use cryptovalid_opencore.Witness.Cosign.{Call, Signer, cosign_locked}

-- the arguments of `witness_cosign`
pub record Submission : Type 0 where
  pub note : Bytes
  pub log_vkeys : List Text
  pub proof : List Text
  pub timestamp : Option ℕ
  pub old_size : Option ℕ
  pub expected_origin : Option Text
  pub now : ℕ
  pub now_signing : ℕ

-- `C.parse_vkey(k)[2] in LOG_KEY_TYPES`
abbrev pub is_log_type : ℕ → Bool
is_log_type t = t == type_ed25519 || t == type_ecdsa

unfoldable pub all_log_types : List Vkey → Bool
all_log_types [] = true
all_log_types (v ∷ vs) = is_log_type v.typ && all_log_types vs

-- `name in log_names`
unfoldable pub is_log_name : Text → List Vkey → Bool
is_log_name name [] = false
is_log_name name (k ∷ ks) = bytes_eq k.name name || is_log_name name ks

-- `any(s["name"] in log_names and s["type"] in LOG_KEY_TYPES for s in verified)`
unfoldable pub log_signed : List Vkey → List Verified → Bool
log_signed keys [] = false
log_signed keys (v ∷ vs) = (is_log_name v.name keys && is_log_type v.typ) || log_signed keys vs

unfoldable pub all_named : Text → List Vkey → Bool
all_named name [] = true
all_named name (v ∷ vs) = bytes_eq v.name name && all_named name vs

-- `len(log_names) == 1`
unfoldable pub one_name : List Vkey → Bool
one_name [] = false
one_name (k ∷ ks) = all_named k.name ks

abbrev first_name : List Vkey → Text
first_name [] = []
first_name (k ∷ ks) = k.name

abbrev pub trusted_origin : Option Text → List Vkey → Text
trusted_origin expected keys = or_default (first_name keys) expected

-- `(name, kid) in trusted`
unfoldable pub is_trusted : Text → Bytes → List Vkey → Bool
is_trusted name kid [] = false
is_trusted name kid (k ∷ ks) =
    (bytes_eq k.name name && bytes_eq k.kid kid) || is_trusted name kid ks

-- `dict.fromkeys`: the lines of trusted keys, once each
unfoldable pub trusted_lines : List Vkey → List Text → List Signature → List Text → List Text
trusted_lines keys [] sigs seen = []
trusted_lines keys (l ∷ ls) [] seen = []
trusted_lines keys (l ∷ ls) (s ∷ sigs) seen =
    let fresh = is_trusted s.0 (take 4 s.1) keys && not (contains seen l) in
    let rest = trusted_lines keys ls sigs (if fresh then l ∷ seen else seen) in
    if fresh then l ∷ rest else rest

-- the lines that are not the witness's own
unfoldable pub kept_lines : Text → List Bytes → List Text → List Signature → List Text
kept_lines name own [] sigs = []
kept_lines name own (l ∷ ls) [] = []
kept_lines name own (l ∷ ls) (s ∷ sigs) =
    let rest = kept_lines name own ls sigs in
    if bytes_eq s.0 name && contains own (take 4 s.1) then rest else l ∷ rest

abbrev pub status_of : NoteStatus → ℕ
status_of valid = 200
status_of non_valida = 403
status_of non_verificata = 500

abbrev pub is_valid : NoteStatus → Bool
is_valid valid = true
is_valid s = false

abbrev pub blank : Answer
blank = record {
  stato = refused;
  motivo = none;
  note = none;
  cosignature = none;
  evidenza = none;
  origin = none;
  size = none;
  http_status = 400;
  stored_size = none;
}

-- the answer of a check before the lock
abbrev pub refusal : Option Checkpoint → Reason → ℕ → Answer
refusal none why status = record blank { motivo = some why; http_status = status }
refusal (some cp) why status = record blank {
  motivo = some why;
  http_status = status;
  origin = some cp.origin;
  size = some cp.size;
}

-- what the checks before the lock end in: a refusal, or the arguments of the locked part
pub data Screened : Type 0 where
  answered : Option Checkpoint → Reason → ℕ → Screened
  to_lock : Call → Screened

module _ (D : Digest) where
  unfoldable pub parse_vkeys : List Text → Raises NoteError (List Vkey)
  parse_vkeys [] = ok []
  parse_vkeys (v ∷ vs) = do key ← parse_vkey D v true; keys ← parse_vkeys vs; ok (key ∷ keys)

  -- the keys of the logs: the first that is of another type ends it
  unfoldable pub log_keys : List Text → Raises NoteError (List Vkey)
  log_keys [] = ok []
  log_keys (v ∷ vs) = do
    key ← parse_vkey D v true
    refuse_if (not (is_log_type key.typ)) not_a_log_key
    keys ← log_keys vs
    ok (key ∷ keys)

module _ (D : Digest) (K : NoteKeys) where
  -- the ids of the witness's own keys; `screen_checkpoint` raises first where the second cannot be made
  abbrev pub own_kids : Signer → List Bytes
  own_kids w = key_id D w.name type_cosig_v1 (K.ed_public w.seed) ∷ elim w.pq_seed [
    | none ↦ []
    | some seed ↦ key_id D w.name type_mldsa44 (K.mldsa_public seed) ∷ []
  ]

  abbrev pub has_pq : Signer → Bool
  has_pq w = elim w.pq_seed [ none ↦ false | some seed ↦ true ]

  -- from the parsed checkpoint on
  unfoldable pub screen_checkpoint :
      Signer
      → Submission
      → List Vkey
      → Text
      → List Text
      → List Signature
      → Checkpoint
      → Raises NoteError Screened
  screen_checkpoint w m keys text ls sigs cp =
      let kept = kept_lines w.name (own_kids w) ls sigs in
      let n_lines = if has_pq w then 2 else 1 in
      if not (bytes_eq cp.origin (trusted_origin m.expected_origin keys))
      then ok (answered (some cp) other_origin 400)
      else if ltb max_proof (length m.proof)
      then ok (answered (some cp) long_proof 400)
      else do
        refuse_if (has_pq w && not K.mldsa_available) no_mldsa
        ok (
            if has_pq w && ltb 255 (length (utf8_encode cp.origin))
            then answered (some cp) long_origin 400
            else if ltb max_sigs (length kept + n_lines)
            then answered (some cp) no_room_left 400
            else to_lock (record {
              cp = cp;
              text = text;
              proof = m.proof;
              trusted_lines = trusted_lines keys ls sigs [];
              kept = kept;
              timestamp = m.timestamp;
              old_size = m.old_size;
              now = m.now;
              now_signing = m.now_signing;
            }))

  -- `note.decode("utf-8")[len(v["text"]) + 1:].split("\n")[:-1]`
  abbrev pub signature_lines : Bytes → Text → List Text
  signature_lines note text =
      split 10 (without_last (drop (length text + 1) (or_default [] (utf8_decode note))))

  unfoldable pub screen_text :
      Signer → Submission → List Vkey → Text → List Signature → Raises NoteError Screened
  screen_text w m keys text sigs = elim (parse_checkpoint text) [
    | raised e ↦ ok (answered none (bad_checkpoint e) 400)
    | ok cp ↦ screen_checkpoint w m keys text (signature_lines m.note text) sigs cp
  ]

  unfoldable pub screen_report :
      Signer → Submission → List Vkey → List Signature → NoteReport → Raises NoteError Screened
  screen_report w m keys sigs v =
      if not (is_valid v.stato)
      then ok (answered none log_signature (status_of v.stato))
      else if not (log_signed keys v.verified)
      then ok (answered none no_log_signature 403)
      else do
        refuse_if (elim m.expected_origin [ none ↦ not (one_name keys) | some o ↦ false ])
            origin_needed
        screen_text w m keys (or_default [] v.text) sigs

  -- of a note that splits
  abbrev pub after_split : Signer → Submission → List Signature → Raises NoteError Screened
  after_split w m sigs = do
    refuse_if (is_nil m.log_vkeys) no_log_key
    keys ← log_keys D m.log_vkeys
    v ← verify_note D K m.note m.log_vkeys
    screen_report w m keys sigs v

  unfoldable pub screen : Signer → Submission → Raises NoteError Screened
  screen w m = elim (split_note m.note) [
    | raised e ↦ ok (answered none (malformed_note e) 400)
    | ok (text, sigs) ↦ after_split w m sigs
  ]

  unfoldable pub witness_cosign : Signer → Submission → Store → Store × Raises NoteError Answer
  witness_cosign w m s = elim (screen w m) [
    | raised e ↦ (s, raised e)
    | ok (answered cp why status) ↦ (s, ok (refusal cp why status))
    | ok (to_lock call) ↦ cosign_locked D K call w s
  ]

  -- requests one after the other: the lock on the state file keeps them apart
  unfoldable pub run : Signer → List Submission → Store → Store
  run w [] s = s
  run w (m ∷ ms) s = run w ms (witness_cosign w m s).0
