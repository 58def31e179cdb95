-- ===== src/Witness/Screens.antt =====
-- What a submission that reaches the lock has passed.
use cryptovalid_opencore.Prelude.{
  ℕ, ◌≡◌, refl, Bool, true, false, not, ◌&&◌, Option, none, some, List, [], ◌∷◌, length, ltb, ◌+◌,
  if◌then◌else◌, arith,
}
use cryptovalid_opencore.Bytes.{bytes_eq, bytes_eq_iff, Digest}
use cryptovalid_opencore.Json.{Text}
use cryptovalid_opencore.Raises.{Raises, ok, raised, >>=-eq-ok}
use cryptovalid_opencore.Texts.{is_nil}
use cryptovalid_opencore.Utf8.{utf8_encode}
use cryptovalid_opencore.Checkpoint.{
  NoteError, Vkey, parse_vkey, Checkpoint, parse_checkpoint, max_sigs,
}
use cryptovalid_opencore.Checkpoint.Parsed.{refuse_if-ok}
use cryptovalid_opencore.Checkpoint.Notes.{NoteKeys, Signature, split_note}
use cryptovalid_opencore.Checkpoint.Verify.{
  NoteStatus, valid, non_valida, non_verificata, NoteReport, verify_note,
}
use cryptovalid_opencore.Dicts.{or_default}
use cryptovalid_opencore.Witness.{Reason, malformed_note, bad_checkpoint, max_proof}
use cryptovalid_opencore.Witness.Cosign.{Call, Signer}
use cryptovalid_opencore.Witness.Requests.{
  Submission, all_log_types, log_signed, trusted_origin, Screened, answered, to_lock, is_log_type,
  parse_vkeys, log_keys, screen_checkpoint, screen_text, screen_report, screen, kept_lines,
  signature_lines, own_kids, has_pq, is_valid, after_split, one_name,
}

-- the note is signed by a trusted log key, and its text is the checkpoint of the trusted origin
pub record Screens (D : Digest) (K : NoteKeys) (m : Submission) (a : Call) : Type 0 where
  pub keys : List Vkey
  pub report : NoteReport
  pub parsed_keys : parse_vkeys D m.log_vkeys ≡ ok keys
  pub log_types : all_log_types keys ≡ true
  pub verified : verify_note D K m.note m.log_vkeys ≡ ok report
  pub status : report.stato ≡ valid
  pub signed : log_signed keys report.verified ≡ true
  pub text : a.text ≡ or_default [] report.text
  pub checkpoint : parse_checkpoint a.text ≡ ok a.cp
  pub origin : a.cp.origin ≡ trusted_origin m.expected_origin keys
  pub proof : a.proof ≡ m.proof
  pub timestamp : a.timestamp ≡ m.timestamp
  pub old_size : a.old_size ≡ m.old_size

-- a part of them, for the checkpoint of a text
pub record OfText (m : Submission) (keys : List Vkey) (text : Text) (a : Call) : Type 0 where
  pub text_is : a.text ≡ text
  pub checkpoint : parse_checkpoint text ≡ ok a.cp
  pub origin : bytes_eq a.cp.origin (trusted_origin m.expected_origin keys) ≡ true
  pub proof : a.proof ≡ m.proof
  pub timestamp : a.timestamp ≡ m.timestamp
  pub old_size : a.old_size ≡ m.old_size

ok_inject : {A : Type 0} (a b : A) → ◌≡◌ {A = Raises NoteError A} (ok a) (ok b) → a ≡ b
ok_inject a b h = cc h

pub keys_inject : (a b : List Vkey) → ◌≡◌ {A = Raises NoteError (List Vkey)} (ok a) (ok b) → a ≡ b
keys_inject a b h = cc h

log_keys-parsed :
    (D : Digest) (vs : List Text) (ks : List Vkey)
    → log_keys D vs ≡ ok ks
    → (parse_vkeys D vs ≡ ok ks) × (all_log_types ks ≡ true)
unfolding log_keys parse_vkeys all_log_types
log_keys-parsed D [] ks h = let e = keys_inject _ _ h in (h, rw (← e) refl)
log_keys-parsed D (v ∷ vs) ks h =
    let (key, read, h1) = >>=-eq-ok (parse_vkey D v true) _ h in
    let typed = refuse_if-ok (not (is_log_type key.typ)) _ _ h1 in
    let (keys, rest, h2) = >>=-eq-ok (log_keys D vs) _ typed.1 in
    let all = log_keys-parsed D vs keys rest in
    let e = keys_inject (key ∷ keys) ks h2 in
    (rw (read, all.0) h2, rw (← e, all.1) (ground (arith, typed.0)))

valid_only : (s : NoteStatus) → is_valid s ≡ true → s ≡ valid
valid_only valid h = refl
valid_only non_valida h = cc h
valid_only non_verificata h = cc h

not_returned :
    (c : Bool) (cp : Option Checkpoint) (why : Reason) (status : ℕ) (k : Raises NoteError Screened)
    {a : Call}
    → (if c then ok (answered cp why status) else k) ≡ ok (to_lock a)
    → (c ≡ false) × (k ≡ ok (to_lock a))
not_returned true cp why status k h = cc h
not_returned false cp why status k h = (refl, h)

lock_inject : (a b : Call) → to_lock a ≡ to_lock b → a ≡ b
lock_inject a b h = cc h

not_answered :
    (c : Bool) (cp : Option Checkpoint) (why : Reason) (status : ℕ) (k : Screened) {a : Call}
    → (if c then answered cp why status else k) ≡ to_lock a
    → (c ≡ false) × (k ≡ to_lock a)
not_answered true cp why status k h = cc h
not_answered false cp why status k h = (refl, h)

module _ (D : Digest) (K : NoteKeys) (w : Signer) (m : Submission) (a : Call) where
  screen_checkpoint-OfText :
      (keys : List Vkey) (text : Text) (ls : List Text) (sigs : List Signature) (cp : Checkpoint)
      → parse_checkpoint text ≡ ok cp
      → screen_checkpoint D K w m keys text ls sigs cp ≡ ok (to_lock a)
      → OfText m keys text a
  unfolding screen_checkpoint
  screen_checkpoint-OfText keys text ls sigs cp p h =
      let p1 =
        not_returned (not (bytes_eq cp.origin (trusted_origin m.expected_origin keys))) _ _ _ _ h in
      let p2 = not_returned (ltb max_proof (length m.proof)) _ _ _ _ p1.1 in
      let made_key = refuse_if-ok (has_pq D K w && not K.mldsa_available) _ _ p2.1 in
      let p3 =
        not_answered (has_pq D K w && ltb 255 (length (utf8_encode cp.origin))) _ _ _ _
          (ok_inject _ _ made_key.1) in
      let p4 =
        not_answered
          (ltb max_sigs
            (length (kept_lines w.name (own_kids D K w) ls sigs) + (if has_pq D K w then 2 else 1)))
          _ _ _ _ p3.1 in
      let made = lock_inject _ _ p4.1 in
      rw (← made) (record {
        text_is = refl;
        checkpoint = p;
        origin = ground (arith, p1.0);
        proof = refl;
        timestamp = refl;
        old_size = refl;
      })

  screen_text-OfText :
      (keys : List Vkey) (text : Text) (sigs : List Signature)
      → screen_text D K w m keys text sigs ≡ ok (to_lock a)
      → OfText m keys text a
  unfolding screen_text
  screen_text-OfText keys text sigs h = by_parse (parse_checkpoint text) refl h
    where
      by_parse :
          (r : Raises NoteError Checkpoint)
          → parse_checkpoint text ≡ r
          → ◌≡◌ {A = Raises NoteError Screened}
              (elim r [
                | raised e ↦ ok (answered none (bad_checkpoint e) 400)
                | ok cp ↦
                    screen_checkpoint D K w m keys text (signature_lines D K m.note text) sigs cp
              ])
              (ok (to_lock a))
          → OfText m keys text a
      by_parse (raised e) p h = cc h
      by_parse (ok cp) p h = screen_checkpoint-OfText keys text _ sigs cp p h

  screen_report-Screens :
      (keys : List Vkey) (sigs : List Signature) (v : NoteReport)
      → parse_vkeys D m.log_vkeys ≡ ok keys
      → all_log_types keys ≡ true
      → verify_note D K m.note m.log_vkeys ≡ ok v
      → screen_report D K w m keys sigs v ≡ ok (to_lock a)
      → Screens D K m a
  unfolding screen_report
  screen_report-Screens keys sigs v parsed types verified h =
      let p1 = not_returned (not (is_valid v.stato)) _ _ _ _ h in
      let p2 = not_returned (not (log_signed keys v.verified)) _ _ _ _ p1.1 in
      let p3 =
        refuse_if-ok (elim m.expected_origin [ none ↦ not (one_name keys) | some o ↦ false ]) _ _
          p2.1 in
      let t = screen_text-OfText keys (or_default [] v.text) sigs p3.1 in
      record {
        keys = keys;
        report = v;
        parsed_keys = parsed;
        log_types = types;
        verified = verified;
        status = valid_only v.stato (ground (arith, p1.0));
        signed = ground (arith, p2.0);
        text = t.text_is;
        checkpoint = rw t.text_is t.checkpoint;
        origin = (bytes_eq_iff _ _).0 t.origin;
        proof = t.proof;
        timestamp = t.timestamp;
        old_size = t.old_size;
      }

  screen_parts :
      (r : Raises NoteError (Text × List Signature))
      → elim r [
        | raised e ↦ ok (answered none (malformed_note e) 400)
        | ok (text, sigs) ↦ after_split D K w m sigs
      ]
        ≡ ok (to_lock a)
      → Screens D K m a
  screen_parts (raised e) h = cc h
  screen_parts (ok (text, sigs)) h =
      let p1 = refuse_if-ok (is_nil m.log_vkeys) _ _ h in
      let (keys, read, h1) = >>=-eq-ok (log_keys D m.log_vkeys) _ p1.1 in
      let (parsed, types) = log_keys-parsed D m.log_vkeys keys read in
      let (v, verified, h2) = >>=-eq-ok (verify_note D K m.note m.log_vkeys) _ h1 in
      screen_report-Screens keys sigs v parsed types verified h2

  pub screen-Screens : screen D K w m ≡ ok (to_lock a) → Screens D K m a
  unfolding screen
  screen-Screens h = screen_parts (split_note m.note) h
