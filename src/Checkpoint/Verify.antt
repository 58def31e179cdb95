-- ===== src/Checkpoint/Verify.antt =====
-- cryptovalid_checkpoint.py: `verify_note`.
use cryptovalid_opencore.Prelude.{
  ℕ, suc, ◌+◌, Bool, true, false, not, ◌&&◌, ◌||◌, Option, none, some, List, [], ◌∷◌, ◌++◌, length,
  take, drop, ltb, ◌==◌, if◌then◌else◌,
}
use cryptovalid_opencore.Bytes.{Bytes, bytes_eq, Digest}
use cryptovalid_opencore.Json.{Text}
use cryptovalid_opencore.Raises.{Raises, ok, raised, ◌>>=◌}
use cryptovalid_opencore.Texts.{codes, count, is_nil}
use cryptovalid_opencore.Utf8.{utf8_encode}
use cryptovalid_opencore.Checkpoint.{
  NoteError, ambiguous_key, type_ed25519, type_ecdsa, type_mldsa44, mldsa44_sig, supported, Vkey,
  parse_vkey, parse_checkpoint,
}
use cryptovalid_opencore.Checkpoint.Notes.{
  NoteKeys, Signature, split_note, unpack_q, good_timestamp, cosig_message, mldsa44_message,
}

pub data NoteStatus : Type 0 where
  valid : NoteStatus
  non_valida : NoteStatus
  non_verificata : NoteStatus

pub data Motive : Type 0 where
  malformed : NoteError → Motive
  no_ed25519 : Motive
  does_not_verify : Text → Motive
  no_mldsa44 : Motive
  no_known_key : Motive

-- a line that verified: its key's name and type, and a cosignature's time
pub record Verified : Type 0 where
  pub name : Text
  pub typ : ℕ
  pub timestamp : Option ℕ

pub record NoteReport : Type 0 where
  pub stato : NoteStatus
  pub text : Option Text
  pub verified : List Verified
  pub ignored : ℕ
  pub ignored_vkeys : ℕ
  pub motivo : Option Motive

-- `known[(name, kid)]`
unfoldable pub known_key : Text → Bytes → List Vkey → Option Vkey
known_key name kid [] = none
known_key name kid (v ∷ known) =
    if bytes_eq v.name name && bytes_eq v.kid kid then some v else known_key name kid known

abbrev pub same_key : Vkey → Vkey → Bool
same_key v w = v.typ == w.typ && bytes_eq v.material w.material

unfoldable pub add_known : Vkey → List Vkey → Raises NoteError (List Vkey)
add_known v known = elim (known_key v.name v.kid known) [
  | none ↦ ok (known ++ v ∷ [])
  | some w ↦ if same_key w v then ok known else raised (ambiguous_key v.name v.kid)
]

abbrev pub is_ecdsa_curve : Option Text → Bool
is_ecdsa_curve none = false
is_ecdsa_curve (some c) =
    bytes_eq c (codes "secp256r1")
    || bytes_eq c (codes "secp384r1")
    || bytes_eq c (codes "secp521r1")

-- `(name, raw) in seen`
unfoldable pub was_seen : Signature → List Signature → Bool
was_seen s [] = false
was_seen s (r ∷ seen) = (bytes_eq r.0 s.0 && bytes_eq r.1 s.1) || was_seen s seen

-- of the signature of a known key
pub data SignatureOutcome : Type 0 where
  verifies : Verified → SignatureOutcome
  unverifiable : SignatureOutcome
  fails : SignatureOutcome

pub data LineOutcome : Type 0 where
  unknown : LineOutcome
  repeated : LineOutcome
  checked : SignatureOutcome → LineOutcome

abbrev pub verifies_if : Bool → Verified → SignatureOutcome
verifies_if true v = verifies v
verifies_if false v = fails

-- the loop's variables
pub record Scan : Type 0 where
  pub done : List Verified
  pub skipped : ℕ
  pub seen : List Signature
  pub pending : ℕ

module _ (D : Digest) (K : NoteKeys) where
  -- the keys to verify with, and how many vkeys are of other types
  unfoldable pub known_keys : List Text → List Vkey → ℕ → Raises NoteError (List Vkey × ℕ)
  known_keys [] known other = ok (known, other)
  known_keys (v ∷ vkeys) known other = elim (parse_vkey D v false) [
    | raised e ↦ raised e
    | ok key ↦ elim (supported key.typ) [
      | false ↦ known_keys vkeys known (suc other)
      | true ↦ elim (add_known key known) [
        | raised e ↦ raised e
        | ok more ↦ known_keys vkeys more other
      ]
    ]
  ]

  -- an ML-DSA-44 line whose timestamp is good
  abbrev pub mldsa_line : Text → Vkey → Bytes → ℕ → Verified → SignatureOutcome
  mldsa_line text key body ts v = elim (parse_checkpoint text) [
    | raised e ↦ fails
    | ok cp ↦ elim (mldsa44_message key.name ts cp.origin 0 cp.size cp.root) [
      | raised e ↦ fails
      | ok message ↦ verifies_if (K.mldsa_verify key.material message (drop 8 body)) v
    ]
  ]

  -- the signature of a known key
  unfoldable pub check_signature : Text → Vkey → Bytes → SignatureOutcome
  check_signature text key body =
      let ts = unpack_q 0 (take 8 body) in
      let plain : Verified = record { name = key.name; typ = key.typ; timestamp = none } in
      let timed : Verified = record { name = key.name; typ = key.typ; timestamp = some ts } in
      if key.typ == type_ed25519
      then verifies_if (length body == 64 && K.ed_verify key.material (utf8_encode text) body) plain
      else if key.typ == type_ecdsa
      then verifies_if
          (is_ecdsa_curve (K.ec_curve key.material)
            && K.ec_verify key.material (utf8_encode text) body)
          plain
      else if key.typ == type_mldsa44
      then (if not K.mldsa_available
          then unverifiable
          else if not (length body == 8 + mldsa44_sig && good_timestamp ts)
          then fails
          else mldsa_line text key body ts timed)
      else verifies_if
          (length body == 72
            && not (ltb (count 10 text) 2)
            && good_timestamp ts
            && K.ed_verify key.material (cosig_message ts text) (drop 8 body))
          timed

  unfoldable pub check_line : Text → List Vkey → List Signature → Signature → LineOutcome
  check_line text known seen (name, raw) = elim (known_key name (take 4 raw) known) [
    | none ↦ unknown
    | some key ↦ elim (was_seen (name, raw) seen) [
      | true ↦ repeated
      | false ↦ checked (check_signature text key (drop 4 raw))
    ]
  ]

  abbrev pub seen_with : Scan → Signature → Scan
  seen_with s line = record s { seen = line ∷ s.seen }

  -- the loop, or the name of a known key whose line does not verify and the lines ignored before it
  unfoldable pub check_lines : Text → List Vkey → List Signature → Scan → Raises (Text × ℕ) Scan
  check_lines text known [] s = ok s
  check_lines text known (line ∷ ls) s = elim (check_line text known s.seen line) [
    | unknown ↦ check_lines text known ls (record s { skipped = suc s.skipped })
    | repeated ↦ check_lines text known ls s
    | checked (verifies v) ↦
        check_lines text known ls (record (seen_with s line) { done = s.done ++ v ∷ [] })
    | checked unverifiable ↦
        check_lines text known ls (record (seen_with s line) { pending = suc s.pending })
    | checked fails ↦ raised (line.0, s.skipped)
  ]

  abbrev pub start : Scan
  start = record { done = []; skipped = 0; seen = []; pending = 0 }

  -- the end of the function
  abbrev pub concluded : NoteReport → Raises (Text × ℕ) Scan → NoteReport
  concluded out (raised (name, skipped)) = record out {
    ignored = skipped;
    motivo = some (does_not_verify name);
  }
  concluded out (ok s) =
      let counted = record out { verified = s.done; ignored = s.skipped } in
      if not (s.pending == 0)
      then record counted { stato = non_verificata; motivo = some no_mldsa44 }
      else if is_nil s.done
      then record counted { motivo = some no_known_key }
      else record counted { stato = valid }

  unfoldable pub report_of :
      List Vkey → NoteReport → Raises NoteError (Text × List Signature) → NoteReport
  report_of known out (raised e) = record out { motivo = some (malformed e) }
  report_of known out (ok (text, sigs)) =
      let out' = record out { text = some text } in
      if not K.ed_available
      then record out' { stato = non_verificata; motivo = some no_ed25519 }
      else concluded out' (check_lines text known sigs start)

  unfoldable pub verify_note : Bytes → List Text → Raises NoteError NoteReport
  verify_note note vkeys = do
    (known, other) ← known_keys vkeys [] 0
    let out : NoteReport = record {
      stato = non_valida;
      text = none;
      verified = [];
      ignored = 0;
      ignored_vkeys = other;
      motivo = none;
    }
    ok (report_of known out (split_note note))
