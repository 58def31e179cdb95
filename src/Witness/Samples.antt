-- ===== src/Witness/Samples.antt =====
-- A log of five entries, its signed checkpoints and a witness, with toy signature schemes: a signature is
-- the seed and a checksum of the message.
use cryptovalid_opencore.Prelude.{ℕ, zero, suc, true, false, none, some, List, [], ◌∷◌, ◌++◌, take}
use cryptovalid_opencore.Bytes.{Bytes, bytes_eq}
use cryptovalid_opencore.Json.{Text}
use cryptovalid_opencore.Samples.{toy, toy_hash}
use cryptovalid_opencore.Raises.{Raises, ok, raised}
use cryptovalid_opencore.Texts.{codes}
use cryptovalid_opencore.Checkpoint.{NoteError, type_ed25519, vkey}
use cryptovalid_opencore.Checkpoint.Notes.{NoteKeys, sign_note}
use cryptovalid_opencore.Checkpoint.Proofs.{ledger_checkpoint, consistency_proof_b64}
use cryptovalid_opencore.Witness.Cosign.{Signer}
use cryptovalid_opencore.Witness.Requests.{Submission}

abbrev pub toy_keys : NoteKeys
toy_keys = record {
  ed_available = true;
  ed_public = λ seed. seed;
  ed_sign = λ seed message. seed ++ toy_hash message;
  ed_verify = λ key message sig. bytes_eq sig (key ++ toy_hash message);
  mldsa_available = false;
  mldsa_public = λ seed. [];
  mldsa_sign = λ seed message. [];
  mldsa_verify = λ key message sig. false;
  ec_curve = λ key. none;
  ec_verify = λ key message sig. false;
}

abbrev copies : ℕ → ℕ → Bytes
copies zero b = []
copies (suc n) b = b ∷ copies n b

abbrev pub log_seed : Bytes
log_seed = copies 32 7

abbrev pub log_name : Text
log_name = codes "log.example/a"

abbrev pub or_nil {ℓ} : {A : Type ℓ} → Raises NoteError (List A) → List A
or_nil (ok a) = a
or_nil (raised e) = []

abbrev pub log_vkey : Text
log_vkey = or_nil (vkey toy log_name type_ed25519 log_seed)

abbrev pub log : List Bytes
log = (10 ∷ []) ∷ (20 ∷ 1 ∷ []) ∷ (30 ∷ []) ∷ (40 ∷ 2 ∷ 3 ∷ []) ∷ (50 ∷ []) ∷ []

abbrev pub forked : List Bytes
forked = (10 ∷ []) ∷ (20 ∷ 1 ∷ []) ∷ (30 ∷ []) ∷ (40 ∷ 2 ∷ 4 ∷ []) ∷ (50 ∷ []) ∷ []

abbrev pub note_of : List Bytes → Bytes
note_of leaves =
    or_nil
      (sign_note toy toy_keys (or_nil (ledger_checkpoint toy leaves log_name)) log_name log_seed)

abbrev pub submit : List Bytes → List Text → ℕ → Submission
submit leaves proof ts = record {
  note = note_of leaves;
  log_vkeys = log_vkey ∷ [];
  proof = proof;
  timestamp = some ts;
  old_size = none;
  expected_origin = none;
  now = 0;
  now_signing = 0;
}

abbrev pub first_request : Submission
first_request = submit (take 2 log) [] 1000

abbrev pub second_request : Submission
second_request = submit log (or_nil (consistency_proof_b64 toy log 2)) 1001

abbrev pub forked_request : Submission
forked_request = submit forked [] 1002

abbrev pub requests : List Submission
requests = first_request ∷ second_request ∷ forked_request ∷ []

abbrev pub witness : Signer
witness = record { name = codes "witness.example"; seed = copies 32 9; pq_seed = none }
