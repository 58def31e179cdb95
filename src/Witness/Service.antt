-- ===== src/Witness/Service.antt =====
-- cryptovalid_witness.py: the body of an add-checkpoint request and `WitnessService`. A response's text is
-- a constructor of `Body`; the response that an exception ends in is `witness_error`.
use cryptovalid_opencore.Prelude.{
  ℕ, Bool, true, false, not, ◌&&◌, ◌||◌, Option, none, some, List, [], ◌∷◌, ◌++◌, length, drop,
  take, ltb, ◌==◌, if◌then◌else◌,
}
use cryptovalid_opencore.Bytes.{Bytes, bytes_eq, Digest}
use cryptovalid_opencore.Json.{Text, digits}
use cryptovalid_opencore.Raises.{Raises, ok, raised, ◌>>=◌, ◌>>◌}
use cryptovalid_opencore.Texts.{codes, split, cut, partition_blank, has_control, is_nil, lines}
use cryptovalid_opencore.Utf8.{utf8_encode, utf8_decode}
use cryptovalid_opencore.Checkpoint.{
  NoteError, bad_origin, no_log_key, not_a_log_key, body_not_utf8, body_no_blank_line,
  missing_checkpoint, empty_proof_line, bad_old_line, many_proof_lines, proof_line_encoding,
  refuse_if, b64decode_strict, decoded_or, parse_vkey, is_decimal, value_of,
}
use cryptovalid_opencore.Checkpoint.Notes.{NoteKeys}
use cryptovalid_opencore.Dicts.{or_default, lookup, set}
use cryptovalid_opencore.Witness.{Store, Reason, Decision, cosigned, Answer, max_proof}
use cryptovalid_opencore.Witness.Cosign.{Signer}
use cryptovalid_opencore.Witness.Requests.{Submission, is_log_type, witness_cosign}

pub record AddCheckpoint : Type 0 where
  pub old_size : ℕ
  pub proof : List Text
  pub note : Bytes

abbrev body_text : Option Text → Raises NoteError Text
body_text none = raised body_not_utf8
body_text (some s) = ok s

abbrev body_parts : Option (Text × Text) → Raises NoteError (Text × Text)
body_parts none = raised body_no_blank_line
body_parts (some parts) = ok parts

abbrev starts_line : Text → Bool
starts_line [] = false
starts_line (c ∷ t) = c == 10

-- a length that is not 32 raises inside the `try`, and ends as the encoding's message
unfoldable pub check_proof_lines : List Text → Raises NoteError (Unit {0})
check_proof_lines [] = ok tt
check_proof_lines (p ∷ ps) = do
  h ← decoded_or (b64decode_strict p) proof_line_encoding
  refuse_if (not (length h == 32)) proof_line_encoding
  check_proof_lines ps

-- `old (0|[1-9][0-9]{0,19})` in full
abbrev pub is_old_line : Text → Bool
is_old_line t = bytes_eq (take 4 t) (codes "old ") && is_decimal (drop 4 t)

unfoldable pub head_of : List Text → Bytes → Raises NoteError AddCheckpoint
head_of [] note = raised bad_old_line
head_of (old ∷ proof) note = do
  refuse_if (not (is_old_line old)) bad_old_line
  refuse_if (ltb max_proof (length proof)) many_proof_lines
  check_proof_lines proof
  ok (record { old_size = value_of (drop 4 old); proof = proof; note = note })

unfoldable pub parse_add_checkpoint_body : Bytes → Raises NoteError AddCheckpoint
parse_add_checkpoint_body body = do
  s ← body_text (utf8_decode body)
  (head, note) ← body_parts (partition_blank s)
  refuse_if (is_nil note) missing_checkpoint
  refuse_if (starts_line note) empty_proof_line
  head_of (split 10 head) (utf8_encode note)

unfoldable pub format_add_checkpoint_body : ℕ → List Text → Bytes → Bytes
format_add_checkpoint_body old_size proof note =
    utf8_encode (codes "old " ++ (digits old_size ++ (10 ∷ (lines proof ++ 10 ∷ [])))) ++ note

-- the vkeys that are trusted for each origin
abbrev pub Logs : Type 0
Logs = List (Text × List Text)

pub data Body : Type 0 where
  rejected : NoteError → Body
  unknown_origin : Body
  witness_error : Body
  size_line : Option ℕ → Body
  motive : Option Reason → Body
  cosignature : Option Bytes → Body

pub record Response : Type 0 where
  pub status : ℕ
  pub body : Body

module _ (D : Digest) where
  unfoldable pub log_key : Text → Raises NoteError Text
  log_key v = do
    key ← parse_vkey D v true
    refuse_if (not (is_log_type key.typ)) not_a_log_key
    ok key.name

  -- `self.logs.setdefault(origin, []).append(v)`
  abbrev append_log : Text → Text → Logs → Logs
  append_log origin v logs =
      set bytes_eq origin (or_default [] (lookup bytes_eq origin logs) ++ v ∷ []) logs

  unfoldable pub add_named : List Text → Logs → Raises NoteError Logs
  add_named [] logs = ok logs
  add_named (v ∷ vs) logs = do name ← log_key v; add_named vs (append_log name v logs)

  unfoldable pub add_vkeys : Text → List Text → Logs → Raises NoteError Logs
  add_vkeys origin [] logs = ok logs
  add_vkeys origin (v ∷ vs) logs = do
    name ← log_key v
    add_vkeys origin vs (append_log origin v logs)

  unfoldable pub add_origins : Logs → Logs → Raises NoteError Logs
  add_origins [] logs = ok logs
  add_origins ((origin, vs) ∷ origins) logs = do
    refuse_if (is_nil origin || has_control origin) bad_origin
    more ← add_vkeys origin vs logs
    add_origins origins more

  -- `WitnessService.__init__`
  unfoldable pub trusted_logs : List Text → Logs → Raises NoteError Logs
  trusted_logs log_vkeys origins = do
    named ← add_named log_vkeys []
    logs ← add_origins origins named
    refuse_if (is_nil logs) no_log_key
    ok logs

-- `note.split(b"\n", 1)[0]`
abbrev first_line : Bytes → Bytes
first_line note = elim (cut 10 note) [ none ↦ note | some (line, rest) ↦ line ]

abbrev pub origin_of : Bytes → Text
origin_of note = or_default [] (utf8_decode (first_line note))

abbrev is_cosigned : Decision → Bool
is_cosigned cosigned = true
is_cosigned d = false

unfoldable pub respond : Raises NoteError Answer → Response
respond (raised e) = record { status = 500; body = witness_error }
respond (ok r) =
    if r.http_status == 409
    then record { status = 409; body = size_line r.stored_size }
    else if not (is_cosigned r.stato)
    then record { status = r.http_status; body = motive r.motivo }
    else record { status = 200; body = cosignature r.cosignature }

module _ (D : Digest) (K : NoteKeys) where
  abbrev pub submission_of : AddCheckpoint → Text → List Text → Option ℕ → ℕ → ℕ → Submission
  submission_of r origin vkeys timestamp now now_signing = record {
    note = r.note;
    log_vkeys = vkeys;
    proof = r.proof;
    timestamp = timestamp;
    old_size = some r.old_size;
    expected_origin = some origin;
    now = now;
    now_signing = now_signing;
  }

  -- with the keys that are trusted for the origin, if it is known
  abbrev pub serve_known :
      Signer → Option (List Text) → AddCheckpoint → Option ℕ → ℕ → ℕ → Store → Store × Response
  serve_known w none r timestamp now now_signing s =
      (s, record { status = 404; body = unknown_origin })
  serve_known w (some vkeys) r timestamp now now_signing s =
      let m = submission_of r (origin_of r.note) vkeys timestamp now now_signing in
      let served = witness_cosign D K w m s in (served.0, respond served.1)

  abbrev pub serve_parsed :
      Signer → Logs → Raises NoteError AddCheckpoint → Option ℕ → ℕ → ℕ → Store → Store × Response
  serve_parsed w logs (raised e) timestamp now now_signing s =
      (s, record { status = 400; body = rejected e })
  serve_parsed w logs (ok r) timestamp now now_signing s =
      serve_known w (lookup bytes_eq (origin_of r.note) logs) r timestamp now now_signing s

  -- `add_checkpoint`
  unfoldable pub add_checkpoint :
      Signer → Logs → Bytes → Option ℕ → ℕ → ℕ → Store → Store × Response
  add_checkpoint w logs body timestamp now now_signing s =
      serve_parsed w logs (parse_add_checkpoint_body body) timestamp now now_signing s
