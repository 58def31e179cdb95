-- ===== src/Witness.antt =====
-- cryptovalid_witness.py: the state file, the evidence and the history that a witness keeps, and what it
-- answers. The history and the evidence are the records of their files' lines.
pub mod Recording
pub mod Pending
pub mod Cosign
pub mod Requests
pub mod Service
pub mod Relying
pub mod Http
pub mod Served
pub mod Submit
pub mod Submitted
pub mod Frames
pub mod Effects
pub mod Chain
pub mod Kept
pub mod Screens
pub mod Runs
pub mod History
pub mod Notes
pub mod Recorded
pub mod Waiting
pub mod Observed
pub mod Proof
pub mod Trimming
pub mod Rooted
pub mod Invariants
pub mod RootedRuns
pub mod Bounds
pub mod Acceptance
pub mod Freshness
pub mod Witnessed
pub mod Samples
mod Tests
mod RelyingTests
mod SubmitTests
use cryptovalid_opencore.Prelude.{ℕ, Bool, Option, List, []}
use cryptovalid_opencore.Bytes.{Bytes}
use cryptovalid_opencore.Json.{Text}
use cryptovalid_opencore.Checkpoint.{NoteError}

-- the checkpoint last cosigned for an origin
pub record Entry : Type 0 where
  pub size : ℕ
  pub root_b64 : Text
  pub note : Text
  pub cosigned_at : ℕ

pub data Kind : Type 0 where
  rollback : Kind
  unproven_extension : Kind
  split_view : Kind
  split_view_unkept : Kind

pub record Refusal : Type 0 where
  pub tipo : Kind
  pub size : ℕ
  pub root_b64 : Text
  pub quando : ℕ

pub record Ring : Type 0 where
  pub count : ℕ
  pub last : List Refusal

-- the roots refused at a size, with their notes where those are kept
abbrev pub Roots : Type 0
Roots = List (Text × Option Text)

-- by size, whose decimal text is the key in the file
abbrev pub Sizes : Type 0
Sizes = List (ℕ × Roots)

pub record State : Type 0 where
  pub origins : List (Text × Entry)
  pub pending : List (Text × Sizes)
  pub proofs_seen : List Text
  pub refusals : List (Text × Ring)

pub record Evidence : Type 0 where
  pub tipo : Kind
  pub prova : Bool
  pub origin : Text
  pub size_precedente : ℕ
  pub size_presentato : ℕ
  pub precedente : Option Text
  pub presentato : Text
  pub registrato : ℕ
  pub precedente_root_b64 : Option Text

-- a line of the history file
pub record Cosigned : Type 0 where
  pub origin : Text
  pub size : ℕ
  pub root_b64 : Text
  pub note : Text
  pub cosigned_at : ℕ

-- the three files
pub record Store : Type 0 where
  pub state : State
  pub evidence : List Evidence
  pub history : List Cosigned

pub data Reason : Type 0 where
  malformed_note : NoteError → Reason
  log_signature : Reason
  no_log_signature : Reason
  bad_checkpoint : NoteError → Reason
  other_origin : Reason
  long_proof : Reason
  long_origin : Reason
  no_room_left : Reason
  old_size_too_large : Reason
  old_size_mismatch : Reason
  bad_empty_root : Reason
  rolled_back : Reason
  equivocation : Reason
  proof_where_none : Reason
  no_consistency_proof : Reason
  proof_for_first : Reason

pub data Decision : Type 0 where
  cosigned : Decision
  refused : Decision

pub record Answer : Type 0 where
  pub stato : Decision
  pub motivo : Option Reason
  pub note : Option Bytes
  pub cosignature : Option Bytes
  pub evidenza : Option Evidence
  pub origin : Option Text
  pub size : Option ℕ
  pub http_status : ℕ
  pub stored_size : Option ℕ

abbrev pub ring_size : ℕ
ring_size = 100

abbrev pub pending_bytes : ℕ
pending_bytes = 262144

abbrev pub pending_note : ℕ
pending_note = 16384

abbrev pub history_scan : ℕ
history_scan = 4194304

abbrev pub proofs_seen_size : ℕ
proofs_seen_size = 10000

abbrev pub max_proof : ℕ
max_proof = 63

-- `_load_state` where there is no file
abbrev pub empty_store : Store
empty_store = record {
  state = record { origins = []; pending = []; proofs_seen = []; refusals = [] };
  evidence = [];
  history = [];
}
