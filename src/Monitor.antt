-- ===== src/Monitor.antt =====
-- cryptovalid_monitor.py: `run`, from the receipt of the snapshot and the leaves of the ledger to the alerts
-- and the state that is written. The search for patterns comes after the verdict and is left out.
pub mod Growth
mod Tests
use cryptovalid_opencore.Prelude.{
  ℕ, Bool, true, false, not, ◌&&◌, ◌||◌, Option, none, some, List, [], ◌∷◌, ◌++◌, length, ltb, ◌==◌,
  if◌then◌else◌,
}
use cryptovalid_opencore.Bytes.{Bytes, bytes_eq, Digest}
use cryptovalid_opencore.Json.{Text}
use cryptovalid_opencore.Checks.{hexdigest}
use cryptovalid_opencore.Outcome.{Outcome, pass, fail, Receipt}
use cryptovalid_opencore.Texts.{is_nil}
use cryptovalid_opencore.Merkle.{mth, consistency_proof, verify_consistency}
use cryptovalid_opencore.Checkpoint.Notes.{NoteKeys}
use cryptovalid_opencore.Checkpoint.Proofs.{proof_or_empty}
use cryptovalid_opencore.Receipts.{
  TreeHead, HeadAnswer, head_ok, parse_hex, signed_tree_head, verify_sth,
}

-- the state file
pub record Baseline : Type 0 where
  pub tree_size : ℕ
  pub root_sha256 : Text
  pub ts : Text
  pub sth : Option TreeHead
  pub log_pubkey_hex : Option Text

-- the arguments: the seed of the key file, the trusted key (empty for none), the published head; and
-- `silence`, whether a time is more than `max_silence_h` hours ago, where that is given
pub record Watch : Type 0 where
  pub keyfile : Option Bytes
  pub trusted_pubkey : Text
  pub sth_file : Option TreeHead
  pub silence : Option (Text → Bool)
  pub now : Text

pub data Alert : Type 0 where
  snapshot_verdict : Outcome → Alert
  snapshot_ts : Alert
  state_unsigned : Alert
  state_tampered : HeadAnswer → Alert
  state_incoherent : Alert
  truncation : ℕ → ℕ → Alert
  rewrite : Alert
  fork : ℕ → ℕ → Alert
  log_key_changed : Alert
  silent : Alert

pub data Consistency : Type 0 where
  not_checked : Consistency
  shrank : Consistency
  same_size : Bool → Consistency
  old_empty : Consistency
  growth : Bool → Consistency

pub record Report : Type 0 where
  pub ok : Bool
  pub alerts : List Alert
  pub consistency : Consistency
  pub written : Option Baseline

abbrev passed : Outcome → Bool
passed pass = true
passed fail = false

abbrev pub alert_if : Bool → Alert → List Alert
alert_if true a = a ∷ []
alert_if false a = []

unfoldable pub snapshot_alerts : Receipt → List Alert
snapshot_alerts snap =
    alert_if (not (passed snap.verdict)) (snapshot_verdict snap.verdict)
    ++ alert_if (not snap.ts_monotonic) snapshot_ts

module _ (D : Digest) (K : NoteKeys) where
  -- the key that the saved head is checked against
  abbrev pub pk_trusted : Watch → Text
  pk_trusted w =
      if is_nil w.trusted_pubkey
      then elim w.keyfile [ none ↦ [] | some seed ↦ hexdigest (K.ed_public seed) ]
      else w.trusted_pubkey

  abbrev agrees : TreeHead → Baseline → Bool
  agrees sth b = sth.tree_size == b.tree_size && bytes_eq sth.root_sha256 b.root_sha256

  abbrev head_alerts : Text → Baseline → Option TreeHead → List Alert
  head_alerts pk b none = state_unsigned ∷ []
  head_alerts pk b (some sth) =
      let v = verify_sth D K sth pk in
      if not (head_ok v)
      then state_tampered v ∷ []
      else if not (agrees sth b)
      then state_incoherent ∷ []
      else []

  unfoldable pub baseline_alerts : Watch → Baseline → List Alert
  baseline_alerts w b = if is_nil (pk_trusted w) then [] else head_alerts (pk_trusted w) b b.sth

  -- the proof that is made for the saved size, checked against the saved root
  abbrev pub grown : List Bytes → ℕ → Bytes → Bool
  grown leaves n1 root1 =
      verify_consistency D n1 (length leaves) (proof_or_empty D (consistency_proof D n1 leaves))
        root1 (mth D leaves)

  -- `none` where `bytes.fromhex` raises
  unfoldable pub compare_sizes : List Bytes → Baseline → Option (List Alert × Consistency)
  compare_sizes leaves b =
      let n1 = b.tree_size in
      let n2 = length leaves in
      let same = bytes_eq b.root_sha256 (hexdigest (mth D leaves)) in
      if ltb n2 n1
      then some (truncation n1 n2 ∷ [], shrank)
      else if n2 == n1
      then some (alert_if (not same) rewrite, same_size same)
      else if n1 == 0
      then some ([], old_empty)
      else elim (parse_hex b.root_sha256) [
        | none ↦ none
        | some root1 ↦
            some
              (alert_if (not (grown leaves n1 root1)) (fork n1 n2), growth (grown leaves n1 root1))
      ]

  abbrev key_alerts : Option Bytes → Option Text → List Alert
  key_alerts (some seed) (some key) =
      alert_if (not (is_nil key) && not (bytes_eq (hexdigest (K.ed_public seed)) key))
        log_key_changed
  key_alerts seed key = []

  abbrev silence_alerts : Watch → List Bytes → Baseline → List Alert
  silence_alerts w leaves b = elim w.silence [
    | none ↦ []
    | some too_long ↦ alert_if (length leaves == b.tree_size && too_long b.ts) silent
  ]

  abbrev pub with_baseline :
      Watch
      → List Bytes
      → Baseline
      → Option (List Alert × Consistency)
      → Option (List Alert × Consistency)
  with_baseline w leaves b none = none
  with_baseline w leaves b (some (alerts, c)) = some (
    baseline_alerts w b
        ++ (alerts ++ (key_alerts w.keyfile b.log_pubkey_hex ++ silence_alerts w leaves b)),
    c,
  )

  unfoldable pub check_baseline :
      Watch → List Bytes → Option Baseline → Option (List Alert × Consistency)
  check_baseline w leaves none = some ([], not_checked)
  check_baseline w leaves (some b) = with_baseline w leaves b (compare_sizes leaves b)

  abbrev pub plain : Watch → List Bytes → Baseline
  plain w leaves = record {
    tree_size = length leaves;
    root_sha256 = hexdigest (mth D leaves);
    ts = w.now;
    sth = none;
    log_pubkey_hex = none;
  }

  abbrev here : List Bytes → ℕ → Text → Bool
  here leaves size root = size == length leaves && bytes_eq root (hexdigest (mth D leaves))

  abbrev pub published : Watch → List Bytes → Option TreeHead → Option TreeHead
  published w leaves none = none
  published w leaves (some sth) =
      if head_ok (verify_sth D K sth w.trusted_pubkey) && here leaves sth.tree_size sth.root_sha256
      then some sth
      else none

  abbrev pub kept : List Bytes → Option Baseline → Option (TreeHead × Option Text)
  kept leaves none = none
  kept leaves (some b) = elim b.sth [
    | none ↦ none
    | some sth ↦
        if here leaves b.tree_size b.root_sha256 then some (sth, b.log_pubkey_hex) else none
  ]

  -- from the published head, or else the one that is kept
  abbrev pub signed_state :
      Watch → List Bytes → Option TreeHead → Option (TreeHead × Option Text) → Option Baseline
  signed_state w leaves (some sth) k =
      some (record (plain w leaves) { sth = some sth; log_pubkey_hex = some w.trusted_pubkey })
  signed_state w leaves none (some (sth, key)) =
      some (record (plain w leaves) { sth = some sth; log_pubkey_hex = key })
  signed_state w leaves none none = none

  -- the state of an auditor, if its baseline advances or stays signed
  unfoldable pub auditor_state : Watch → List Bytes → Option Baseline → Option Baseline
  auditor_state w leaves prev =
      signed_state w leaves (published w leaves w.sth_file) (kept leaves prev)

  abbrev pub state_with : Option Bytes → Watch → List Bytes → Option Baseline → Option Baseline
  state_with (some seed) w leaves prev =
      let sth = signed_tree_head D K leaves seed w.now in
      some (record (plain w leaves) { sth = some sth; log_pubkey_hex = some sth.log_pubkey_hex })
  state_with none w leaves prev =
      if is_nil w.trusted_pubkey then some (plain w leaves) else auditor_state w leaves prev

  -- the state that a green run writes
  unfoldable pub next_state : Watch → List Bytes → Option Baseline → Option Baseline
  next_state w leaves prev = state_with w.keyfile w leaves prev

  abbrev pub verdict_of : Watch → List Bytes → Option Baseline → List Alert → Consistency → Report
  verdict_of w leaves prev alerts c = record {
    ok = is_nil alerts;
    alerts = alerts;
    consistency = c;
    written = if is_nil alerts then next_state w leaves prev else none;
  }

  -- `none` where it raises ValueError
  abbrev pub run_from :
      Watch
      → Receipt
      → List Bytes
      → Option Baseline
      → Option (List Alert × Consistency)
      → Option Report
  run_from w snap leaves prev none = none
  run_from w snap leaves prev (some (alerts, c)) =
      some (verdict_of w leaves prev (snapshot_alerts snap ++ alerts) c)

  -- `none` where it raises ValueError
  unfoldable pub run : Watch → Receipt → List Bytes → Option Baseline → Option Report
  run w snap leaves prev = run_from w snap leaves prev (check_baseline w leaves prev)

-- a run on one version of the ledger
pub record Visit : Type 0 where
  pub watch : Watch
  pub snapshot : Receipt
  pub leaves : List Bytes

-- the state file, and the versions of the ledger that it was written for, the last one first
abbrev pub Log : Type 0
Log = Option Baseline × List (List Bytes)

abbrev pub advance : Log → Visit → Option Baseline → Log
advance log v none = log
advance log v (some b) = (some b, v.leaves ∷ log.1)

-- a run that raises or that writes nothing leaves the state
abbrev pub after_run : Log → Visit → Option Report → Log
after_run log v none = log
after_run log v (some r) = advance log v r.written

module _ (D : Digest) (K : NoteKeys) where
  unfoldable pub visits : Log → List Visit → Log
  visits log [] = log
  visits log (v ∷ vs) = visits (after_run log v (run D K v.watch v.snapshot v.leaves log.0)) vs
