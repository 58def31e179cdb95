-- ===== src/Outcome.antt =====
-- The data of verifier.py's `verify_ledger`: its arguments, what it reports and the receipt. A message is
-- a constructor with what it reports.
use cryptovalid_opencore.Prelude.{ℕ, Bool, Option, List}
use cryptovalid_opencore.Ed25519Order.{Problem}
use cryptovalid_opencore.Json.{Text, Json, Members}

pub data Algo : Type 0 where
  sha256 : Algo
  sha3_256 : Algo

-- a line that was decoded: an object, another value, or the message of the decoder that refused it
pub data Line : Type 0 where
  object : Members → Line
  not_object : Line
  refused : Text → Line

-- what cryptovalid_tip.py's `check_tip` finds wrong, in the order of the code
pub data TipError : Type 0 where
  tip_kind : TipError
  tip_missing_field : TipError
  tip_entries : TipError
  tip_strings : TipError
  tip_ids : TipError
  tip_signature_format : TipError
  tip_pq_signature_format : TipError
  tip_pq_key_format : TipError
  tip_ts : TipError
  tip_no_trusted_key : TipError
  bad_trusted_key : TipError
  other_log_key : TipError
  not_strict : Problem → TipError
  bad_signature : TipError
  pq_missing : TipError
  other_pq_key : TipError
  bad_trusted_pq_key : TipError
  bad_pq_signature : TipError
  ledger_id_mismatch : TipError
  tip_of_another_ledger : TipError
  bad_not_before : TipError
  tip_rolled_back : TipError
  tail_truncated : TipError
  unsealed_tail : TipError
  tail_rewritten : TipError

pub data Error : Type 0 where
  undecodable : ℕ → Text → Error
  not_a_json_object : ℕ → Error
  idx_mismatch : ℕ → Option Json → Error
  empty_ledger : Error
  pq_key_without_log_key : ℕ → Error
  tip_untrusted : ℕ → Error
  tip_refused : ℕ → TipError → Error
  tip_unreadable : ℕ → Error
  tip_missing : ℕ → Error

pub data HashFailure : Type 0 where
  missing_self_hash : Json → HashFailure
  hash_mismatch : Json → Json → Text → HashFailure

pub record LinkFailure : Type 0 where
  pub idx : Json
  pub expected_prev : Json
  pub actual_prev : Json

pub record SchemaFailure : Type 0 where
  pub idx : Json
  pub unknown : List Text

pub record TsBackwards : Type 0 where
  pub idx : Json
  pub prev_ts : Text
  pub ts : Text

-- the tip in the receipt: whether it was checked, and the answer
pub record TipReport : Type 0 where
  pub checked : Bool
  pub ok : Bool

-- `verify_ledger`'s arguments: an absent or empty key is the empty text; `tip_file` is the tip that
-- is given or stands beside the ledger, `some none` when `load_tip` raises
pub record Options : Type 0 where
  pub algo : Option Algo
  pub tip_file : Option (Option Members)
  pub trusted_pubkey : Text
  pub trusted_pq_pubkey : Text
  pub require_tip : Bool

pub data Outcome : Type 0 where
  pass : Outcome
  fail : Outcome

pub record Receipt : Type 0 where
  pub algorithm_used : Algo
  pub entries_count : ℕ
  pub hash_recomputed_ok : ℕ
  pub hash_recompute_passed : Bool
  pub hash_failures : List HashFailure
  pub link_ok : ℕ
  pub link_passed : Bool
  pub link_failures : List LinkFailure
  pub idx_monotonic : Bool
  pub ts_monotonic : Bool
  pub ts_backwards : List TsBackwards
  pub parse_errors : List Error
  pub schema_failures : List SchemaFailure
  pub chain_integrity : Bool
  pub tip : Option TipReport
  pub verdict : Outcome
  pub signatures_not_checked : ℕ
