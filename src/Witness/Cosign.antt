-- ===== src/Witness/Cosign.antt =====
-- cryptovalid_witness.py: `_cosign_locked`, from the loaded state to the answer.
use cryptovalid_opencore.Prelude.{
  ℕ, Bool, true, false, not, ◌&&◌, ◌||◌, Option, none, some, List, [], ◌∷◌, ◌++◌, length, drop, ltb,
  ◌==◌, if◌then◌else◌,
}
use cryptovalid_opencore.Bytes.{Bytes, bytes_eq, Digest}
use cryptovalid_opencore.Json.{Text}
use cryptovalid_opencore.Encoding.{b64decode, b64encode}
use cryptovalid_opencore.Raises.{Raises, ok, raised, ◌>>=◌, ◌>>◌}
use cryptovalid_opencore.Texts.{is_nil, lines}
use cryptovalid_opencore.Utf8.{utf8_encode, utf8_decode}
use cryptovalid_opencore.Checkpoint.{
  NoteError, stale_timestamp, bad_witness_timestamp, refuse_if, Checkpoint,
}
use cryptovalid_opencore.Checkpoint.Notes.{
  NoteKeys, good_timestamp, note_text_or, cosign_v1, cosign_v1_mldsa44,
}
use cryptovalid_opencore.Checkpoint.Proofs.{verify_consistency_b64}
use cryptovalid_opencore.Dicts.{or_default, lookup, set, remove}
use cryptovalid_opencore.Witness.{
  Entry, rollback, unproven_extension, split_view, State, Evidence, Cosigned, Store, Reason,
  old_size_too_large, old_size_mismatch, bad_empty_root, rolled_back, equivocation,
  proof_where_none, no_consistency_proof, proof_for_first, cosigned, refused, Answer,
}
use cryptovalid_opencore.Witness.Recording.{
  Request, ev, roots_at, first_other, record_proof, record_refusal, paired,
}
use cryptovalid_opencore.Witness.Pending.{note_future}

-- the arguments of `_cosign_locked`; a timestamp and an old size are ints that are at least 0
pub record Call : Type 0 where
  pub cp : Checkpoint
  pub text : Text
  pub proof : List Text
  pub trusted_lines : List Text
  pub kept : List Text
  pub timestamp : Option ℕ
  pub old_size : Option ℕ
  -- what `int(time.time())` returns, when the request is registered and when it is signed
  pub now : ℕ
  pub now_signing : ℕ

pub record Signer : Type 0 where
  pub name : Text
  pub seed : Bytes
  pub pq_seed : Option Bytes

abbrev pub request_of : Call → Request
request_of a = record {
  cp = a.cp;
  root_b64 = b64encode a.cp.root;
  presentato = a.text ++ (10 ∷ lines a.trusted_lines);
  registrato = or_default a.now a.timestamp;
}

abbrev pub stored_size : Option Entry → ℕ
stored_size none = 0
stored_size (some prev) = prev.size

abbrev older_than : Option ℕ → Option Entry → Bool
older_than (some ts) (some prev) = ltb ts prev.cosigned_at
older_than ts prev = false

abbrev bad_time : Option ℕ → Bool
bad_time none = false
bad_time (some ts) = not (good_timestamp ts)

unfoldable pub check_times : Option ℕ → Option Entry → Raises NoteError (Unit {0})
check_times timestamp prev = do
  refuse_if (older_than timestamp prev) stale_timestamp
  refuse_if (bad_time timestamp) bad_witness_timestamp

-- refusals in a row, with their status: the first whose condition holds
unfoldable pub first_refusal : List (Bool × Reason × ℕ) → Option (Reason × ℕ)
first_refusal [] = none
first_refusal ((c, why, status) ∷ rest) = if c then some (why, status) else first_refusal rest

abbrev pub prev_root : Entry → Bytes
prev_root prev = or_default [] (b64decode prev.root_b64)

abbrev pub size_wrong : Option ℕ → ℕ → Bool
size_wrong none bound = false
size_wrong (some n) bound = ltb bound n

abbrev pub size_differs : Option ℕ → ℕ → Bool
size_differs none stored = false
size_differs (some n) stored = not (n == stored)

-- `EMPTY_ROOT`
abbrev pub empty_root : Digest → Bytes
empty_root D = D.hash []

module _ (D : Digest) where
  abbrev pub bad_empty : Checkpoint → Bool
  bad_empty cp = cp.size == 0 && not (bytes_eq cp.root (empty_root D))

  abbrev pub seen : Store × Option Evidence → Store × Raises NoteError (Option Evidence)
  seen (s, found) = (s, ok found)

  -- what is looked at before the old-size gate
  unfoldable pub observe :
      Request → Option Entry → Store → Store × Raises NoteError (Option Evidence)
  observe x none s =
      if bad_empty x.cp
      then (s, ok none)
      else if ltb 0 x.cp.size
      then note_future D x s
      else (s, ok none)
  observe x (some prev) s =
      if bad_empty x.cp
      then (s, ok none)
      else if ltb x.cp.size prev.size
      then seen (record_refusal D x rollback prev none s)
      else if x.cp.size == prev.size && not (bytes_eq x.root_b64 prev.root_b64)
      then (
        record_proof D x (some prev.note) prev.root_b64 s,
        ok (some (ev x split_view true (some prev.note) prev.size)),
      )
      else if ltb prev.size x.cp.size
      then note_future D x s
      else (s, ok none)

  unfoldable pub entry_rules : Option Entry → Call → List (Bool × Reason × ℕ)
  entry_rules none a = (not (is_nil a.proof), proof_for_first, 422) ∷ []
  entry_rules (some prev) a =
      let no_proof = prev.size == 0 || a.cp.size == prev.size in
      (ltb a.cp.size prev.size, rolled_back, 400)
      ∷ (a.cp.size == prev.size && not (bytes_eq a.cp.root (prev_root prev)), equivocation, 422)
      ∷ (no_proof && not (is_nil a.proof), proof_where_none, 422)
      ∷ (
        not no_proof
            && not
                (verify_consistency_b64 D prev.size (prev_root prev) a.cp.size a.cp.root a.proof),
        no_consistency_proof,
        422,
      )
      ∷ []

  -- the returns between the gate and the cosignature
  unfoldable pub rules : Option Entry → Call → List (Bool × Reason × ℕ)
  rules prev a =
      (size_wrong a.old_size a.cp.size, old_size_too_large, 400)
      ∷ (size_differs a.old_size (stored_size prev), old_size_mismatch, 409)
      ∷ (bad_empty a.cp, bad_empty_root, 422)
      ∷ entry_rules prev a

  abbrev pub answer_of : Call → Option Entry → Option Evidence → Answer
  answer_of a prev found = record {
    stato = refused;
    motivo = none;
    note = none;
    cosignature = none;
    evidenza = found;
    origin = some a.cp.origin;
    size = some a.cp.size;
    http_status = 400;
    stored_size = some (stored_size prev);
  }

  abbrev pub is_unproven : Reason → Bool
  is_unproven no_consistency_proof = true
  is_unproven why = false

  -- `_refused("unproven-extension")` of the last rule
  unfoldable pub note_unproven :
      Request → Option Entry → Reason → Option Evidence → Store → Store × Option Evidence
  note_unproven x none why found s = (s, found)
  note_unproven x (some prev) why found s =
      if is_unproven why then record_refusal D x unproven_extension prev found s else (s, found)

  unfoldable pub refuse :
      Call → Option Entry → Reason → ℕ → Option Evidence → Store → Store × Raises NoteError Answer
  refuse a prev why status found s =
      let (s', e) = note_unproven (request_of a) prev why found s in
      (s', ok (record (answer_of a prev e) { motivo = some why; http_status = status }))

  -- the pending root at this size that the cosignature contradicts
  unfoldable pub contradict : Request → Option Evidence → Store → Store
  contradict x (some e) s = s
  contradict x none s =
      (paired D x (first_other x.root_b64 false (roots_at x.cp.origin x.cp.size s.state)) none s).0

  abbrev pub settle : Request → State → State
  settle x s = record s {
    pending = elim (lookup bytes_eq x.cp.origin s.pending) [
      | none ↦ s.pending
      | some sizes ↦ set bytes_eq x.cp.origin (remove (◌==◌) x.cp.size sizes) s.pending
    ];
  }

  abbrev pub is_new : Option Entry → Request → Bool
  is_new none x = true
  is_new (some prev) x = not (bytes_eq prev.root_b64 x.root_b64) || not (prev.size == x.cp.size)

  abbrev pub entry_for : Request → Text → ℕ → Entry
  entry_for x note ts = record {
    size = x.cp.size;
    root_b64 = x.root_b64;
    note = note;
    cosigned_at = ts;
  }

  abbrev pub history_line : Request → Text → ℕ → Cosigned
  history_line x note ts = record {
    origin = x.cp.origin;
    size = x.cp.size;
    root_b64 = x.root_b64;
    note = note;
    cosigned_at = ts;
  }

  -- the writes of an accepted checkpoint
  unfoldable pub commit : Request → Option Entry → Text → ℕ → Store → Store
  commit x prev note ts s =
      let settled = settle x s.state in
      record s {
        state = record settled {
          origins = set bytes_eq x.cp.origin (entry_for x note ts) settled.origins;
        };
        history = if is_new prev x then s.history ++ history_line x note ts ∷ [] else s.history;
      }

module _ (D : Digest) (K : NoteKeys) where
  abbrev cosign_pq : Bytes → Signer → ℕ → Raises NoteError Bytes
  cosign_pq note w ts = elim w.pq_seed [
    | none ↦ ok note
    | some seed ↦ cosign_v1_mldsa44 D K note w.name seed ts
  ]

  -- the note with the witness's own lines, and those lines
  unfoldable pub sign : Call → Signer → ℕ → Raises NoteError (Bytes × Bytes × Text)
  sign a w ts = do
    let base = utf8_encode (a.text ++ (10 ∷ lines a.kept))
    ed ← cosign_v1 D K base w.name w.seed ts
    both ← cosign_pq ed w ts
    own ← note_text_or (utf8_decode (drop (length base) both))
    ok (both, drop (length base) both, own)

  -- an exception leaves the state file as it was; a line of evidence is already written
  unfoldable pub finish :
      Call
      → Option Entry
      → Option Evidence
      → State
      → Store
      → ℕ
      → Raises NoteError (Bytes × Bytes × Text)
      → Store × Raises NoteError Answer
  finish a prev found before s ts (raised e) = (record s { state = before }, raised e)
  finish a prev found before s ts (ok (note, added, own)) = (
    commit D (request_of a) prev ((request_of a).presentato ++ own) ts s,
    ok (record (answer_of D a prev found) {
      stato = cosigned;
      note = some note;
      cosignature = some added;
      http_status = 200;
    }),
  )

  unfoldable pub accept :
      Call
      → Signer
      → Option Entry
      → Option Evidence
      → State
      → Store
      → Store × Raises NoteError Answer
  accept a w prev found before s =
      let ts = or_default a.now_signing a.timestamp in
      finish a prev found before (contradict D (request_of a) found s) ts (sign a w ts)

  unfoldable pub judge :
      Call
      → Signer
      → Option Entry
      → State
      → Store × Option Evidence
      → Store × Raises NoteError Answer
  judge a w prev before (s, found) = elim (first_refusal (rules D prev a)) [
    | some (why, status) ↦ refuse D a prev why status found s
    | none ↦ accept a w prev found before s
  ]

  -- an exception of what is looked at first leaves the state file as it was
  abbrev pub observed :
      Call
      → Signer
      → Option Entry
      → State
      → Store × Raises NoteError (Option Evidence)
      → Store × Raises NoteError Answer
  observed a w prev before (s, raised e) = (record s { state = before }, raised e)
  observed a w prev before (s, ok found) = judge a w prev before (s, found)

  unfoldable pub cosign_locked : Call → Signer → Store → Store × Raises NoteError Answer
  cosign_locked a w s =
      let prev = lookup bytes_eq a.cp.origin s.state.origins in
      elim (check_times a.timestamp prev) [
        | raised e ↦ (s, raised e)
        | ok _ ↦ observed a w prev s.state (observe D (request_of a) prev s)
      ]
