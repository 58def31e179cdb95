-- ===== src/Witness/Submit.antt =====
-- cryptovalid_witness.py: `submit_checkpoint`, the client of a witness. The answers of the network are the
-- argument `post`, which takes how many requests came before and the body.
use cryptovalid_opencore.Prelude.{
  ℕ, Bool, true, false, not, ◌&&◌, ◌||◌, Option, none, some, List, [], ◌∷◌, ◌++◌, length, take,
  drop, ltb, leb, ◌==◌, if◌then◌else◌,
}
use cryptovalid_opencore.Bytes.{Bytes, bytes_eq, Digest}
use cryptovalid_opencore.Json.{Text}
use cryptovalid_opencore.Entry.{contains}
use cryptovalid_opencore.Raises.{Raises, ok, raised, ◌>>=◌, ◌>>◌}
use cryptovalid_opencore.Texts.{split, ends_line, without_last, is_nil, lines}
use cryptovalid_opencore.Utf8.{utf8_encode, utf8_decode}
use cryptovalid_opencore.Checkpoint.{
  NoteError, not_a_witness_key, refuse_if, Vkey, parse_vkey, is_decimal, value_of,
}
use cryptovalid_opencore.Checkpoint.Notes.{NoteKeys, Signature, em_dash, split_note, note_text_or}
use cryptovalid_opencore.Checkpoint.Verify.{NoteStatus, valid, non_valida}
use cryptovalid_opencore.Checkpoint.Proofs.{consistency_proof_b64}
use cryptovalid_opencore.Witness.Requests.{is_log_type, is_trusted, parse_vkeys, signature_lines}
use cryptovalid_opencore.Witness.Relying.{
  Policy, WitnessMotive, WitnessReport, insert_name, verify_witnessed,
}
use cryptovalid_opencore.Witness.Service.{format_add_checkpoint_body}

pub record Reply : Type 0 where
  pub status : ℕ
  pub body : Bytes

pub data SubmitMotive : Type 0 where
  unparsable_size : SubmitMotive
  witness_knows : ℕ → SubmitMotive
  http_status : ℕ → SubmitMotive
  not_signature_lines : Option NoteError → SubmitMotive
  no_trusted_line : SubmitMotive
  not_verified : Option WitnessMotive → SubmitMotive

pub record Submitted : Type 0 where
  pub stato : NoteStatus
  pub status : Option ℕ
  pub note : Option Bytes
  pub witnesses : List Text
  pub motivo : Option SubmitMotive

-- the arguments besides the note and its leaves
pub record Client : Type 0 where
  pub witness_vkeys : List Text
  pub log_vkeys : List Text
  pub expected_origin : Option Text
  pub post : ℕ → Bytes → Reply

abbrev pub failed : ℕ → SubmitMotive → Submitted
failed status why = record {
  stato = non_valida;
  status = some status;
  note = none;
  witnesses = [];
  motivo = some why;
}

-- `rstrip("\n")`
unfoldable pub rstrip : Bytes → Bytes
rstrip [] = []
rstrip (c ∷ t) = let rest = rstrip t in if is_nil rest && c == 10 then [] else c ∷ rest

-- on the bytes of a line: a decoder that replaces what is not UTF-8 keeps these and the newlines
abbrev starts_with_dash : Bytes → Bool
starts_with_dash l = bytes_eq (take 4 l) (utf8_encode (em_dash ∷ 32 ∷ []))

unfoldable pub all_dashes : List Bytes → Bool
all_dashes [] = true
all_dashes (l ∷ ls) = starts_with_dash l && all_dashes ls

abbrev pub looks_signed : Bytes → Bool
looks_signed body = ends_line body && all_dashes (split 10 (rstrip body))

-- a line with its signature
abbrev pub SignedLine : Type 0
SignedLine = Text × Signature

-- `zip`, and the lines whose key passes a test
unfoldable pub lines_where : (Signature → Bool) → List Text → List Signature → List SignedLine
lines_where test [] sigs = []
lines_where test (l ∷ ls) [] = []
lines_where test (l ∷ ls) (s ∷ sigs) =
    let rest = lines_where test ls sigs in if test s then (l, s) ∷ rest else rest

abbrev pub of_key : List Vkey → Signature → Bool
of_key keys (name, raw) = is_trusted name (take 4 raw) keys

-- `(n, r[:4]) in new_keys`
unfoldable pub is_new_key : List SignedLine → Signature → Bool
is_new_key [] s = false
is_new_key ((l, t) ∷ new) s =
    (bytes_eq t.0 s.0 && bytes_eq (take 4 t.1) (take 4 s.1)) || is_new_key new s

unfoldable pub texts_of : List SignedLine → List Text
texts_of [] = []
texts_of ((l, s) ∷ rest) = l ∷ texts_of rest

-- `sorted({n for _, n, _ in keep_new})`
unfoldable pub names_of : List SignedLine → List Text
names_of [] = []
names_of ((l, s) ∷ rest) =
    let names = names_of rest in if contains names s.0 then names else insert_name s.0 names

module _ (D : Digest) (K : NoteKeys) where
  abbrev pub taken_from :
      List Vkey
      → Bytes
      → Text
      → List Signature
      → List Signature
      → Text
      → Text × List SignedLine × List SignedLine
  taken_from keys note text own new s =
      let keep_new =
        lines_where (of_key keys) (split 10 (without_last s)) (drop (length own) new) in
      (
        text,
        lines_where (λ t. not (is_new_key keep_new t)) (signature_lines D K note text) own,
        keep_new,
      )

  -- the text, the note's own lines with their signatures, and the lines taken from the answer
  unfoldable pub taken_lines :
      List Vkey → Bytes → Bytes → Raises NoteError (Text × List SignedLine × List SignedLine)
  taken_lines keys note body = do
    (text, own) ← split_note note
    (whole, new) ← split_note (note ++ body)
    s ← note_text_or (utf8_decode body)
    ok (taken_from keys note text own new s)

  unfoldable pub witness_keys : List Text → Raises NoteError (List Vkey)
  witness_keys [] = ok []
  witness_keys (v ∷ vs) = do
    key ← parse_vkey D v false
    refuse_if (is_log_type key.typ) not_a_witness_key
    keys ← witness_keys vs
    ok (key ∷ keys)

  abbrev pub client_policy : Client → Policy
  client_policy c = record {
    log_vkeys = c.log_vkeys;
    witness_vkeys = c.witness_vkeys;
    min_witnesses = 1;
    max_age_s = none;
    now = 0;
    clock_skew_s = 0;
    expected_origin = c.expected_origin;
  }

  -- of the status that verify_witnessed reports
  abbrev pub settled_as : ℕ → Bytes → List Text → WitnessReport → NoteStatus → Submitted
  settled_as status cosigned names v valid = record {
    stato = valid;
    status = some status;
    note = some cosigned;
    witnesses = names;
    motivo = none;
  }
  settled_as status cosigned names v other = failed status (not_verified v.motivo)

  abbrev pub settled : ℕ → Bytes → List Text → WitnessReport → Submitted
  settled status cosigned names v = settled_as status cosigned names v v.stato

  unfoldable pub with_lines :
      Client → ℕ → Text → List SignedLine → List SignedLine → Raises NoteError Submitted
  with_lines c status text kept keep_new = elim (is_nil keep_new) [
    | true ↦ ok (failed status no_trusted_line)
    | false ↦ do
      let cosigned =
          utf8_encode (text ++ (10 ∷ (lines (texts_of kept) ++ lines (texts_of keep_new))))
      v ← verify_witnessed D K (client_policy c) cosigned
      ok (settled status cosigned (names_of keep_new) v)
  ]

  abbrev pub accept_lines :
      Client
      → ℕ
      → Raises NoteError (Text × List SignedLine × List SignedLine)
      → Raises NoteError Submitted
  accept_lines c status (raised e) = ok (failed status (not_signature_lines (some e)))
  accept_lines c status (ok (text, kept, keep_new)) = with_lines c status text kept keep_new

  -- of the last answer
  unfoldable pub judge_reply : Client → List Vkey → Bytes → Reply → Raises NoteError Submitted
  judge_reply c keys note r =
      if not (r.status == 200)
      then ok (failed r.status (http_status r.status))
      else if not (looks_signed r.body)
      then ok (failed r.status (not_signature_lines none))
      else accept_lines c r.status (taken_lines keys note r.body)

  abbrev pub proof_from : List Bytes → ℕ → Raises NoteError (List Text)
  proof_from leaves old =
      if ltb old (length leaves) then consistency_proof_b64 D leaves old else ok []

  -- after a 409: with the size that the witness answered
  unfoldable pub submit_again :
      Client → List Vkey → Bytes → List Bytes → Bytes → Raises NoteError Submitted
  submit_again c keys note leaves body =
      let old = value_of (without_last body) in
      if not (ends_line body && is_decimal (without_last body))
      then ok (failed 409 unparsable_size)
      else if not (ltb 0 old && leb old (length leaves))
      then ok (failed 409 (witness_knows old))
      else do
        proof ← proof_from leaves old
        judge_reply c keys note (c.post 1 (format_add_checkpoint_body old proof note))

  unfoldable pub submit_checkpoint : Client → Bytes → List Bytes → Raises NoteError Submitted
  submit_checkpoint c note leaves = do
    keys ← witness_keys c.witness_vkeys
    parse_vkeys D c.log_vkeys
    let r = c.post 0 (format_add_checkpoint_body 0 [] note)
    if r.status == 409 then submit_again c keys note leaves r.body else judge_reply c keys note r
