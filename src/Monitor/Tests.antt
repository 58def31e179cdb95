-- ===== src/Monitor/Tests.antt =====
-- A writer's runs on a log that grows, and on one whose history was rewritten.
use cryptovalid_opencore.Bytes.{bytes_eq}
use cryptovalid_opencore.Json.{
  text_ltb, get, has, insert, digits_fuel, digits, dumps_int, hex_digit, unicode_escape,
  short_escape, escape, escapes, dumps_str, dumps, sort_keys, sort_elements, sort_members,
  dumps_sorted, dumps_elements, dumps_members,
}
use cryptovalid_opencore.Checks.{
  entries_of, line_errors, insert_key, unknown_keys, schema_check, idx_check, link_check, ts_check,
  signed_count, hexdigest,
}
use cryptovalid_opencore.Entry.{
  contains, without, canonical_payload, int_eq, size, py_eq, elements_eq, members_in,
}
use cryptovalid_opencore.Merkle.{
  pow2_loop, largest_pow2_below, shift_even, shift_odd, leaf_hash, node_hash, mth_fuel, mth,
  inclusion_fuel, inclusion_proof, inclusion_step, inclusion_loop, verify_inclusion, subproof_fuel,
  consistency_proof, consistency_step, consistency_loop, walk_consistency, verify_consistency,
  consistency_verdict,
}
use cryptovalid_opencore.Receipts.{hex_value, parse_hex, sth_payload, signed_tree_head, verify_sth}
use cryptovalid_opencore.Monitor.{
  snapshot_alerts, baseline_alerts, compare_sizes, check_baseline, auditor_state, next_state, run,
  visits,
}
use cryptovalid_opencore.Prelude.{
  ◌≡◌, refl, ◌⊎◌, true, false, none, some, List, [], ◌∷◌, Option, take,
}
use cryptovalid_opencore.Bytes.{Bytes, Collision}
use cryptovalid_opencore.Dicts.All.{All}
use cryptovalid_opencore.Outcome.{sha256, pass, Receipt}
use cryptovalid_opencore.Samples.{toy, toy_AreBytes}
use cryptovalid_opencore.Texts.{codes}
use cryptovalid_opencore.Witness.Samples.{toy_keys, log, log_seed}
use cryptovalid_opencore.Monitor.{Watch, Report, fork, truncation, Visit, not_checked}
use cryptovalid_opencore.Encoding.Base64.{AreBytes}
use cryptovalid_opencore.Checkpoint.Complete.{mth-holds}
use cryptovalid_opencore.Monitor.Growth.{RootBytes, Prefix, green_run-Extends}

abbrev snapshot : Receipt
snapshot = record {
  algorithm_used = sha256;
  entries_count = 5;
  hash_recomputed_ok = 5;
  hash_recompute_passed = true;
  hash_failures = [];
  link_ok = 5;
  link_passed = true;
  link_failures = [];
  idx_monotonic = true;
  ts_monotonic = true;
  ts_backwards = [];
  parse_errors = [];
  schema_failures = [];
  chain_integrity = true;
  tip = none;
  verdict = pass;
  signatures_not_checked = 0;
}

abbrev writer : Watch
writer = record {
  keyfile = some log_seed;
  trusted_pubkey = [];
  sth_file = none;
  silence = none;
  now = codes "2026-09-30";
}

abbrev visit : List Bytes → Visit
visit leaves = record { watch = writer; snapshot = snapshot; leaves = leaves }

abbrev earlier : List Visit
earlier = visit (take 2 log) ∷ visit (take 3 log) ∷ []

abbrev none_report : Report
none_report = record { ok = false; alerts = []; consistency = not_checked; written = none }

abbrev or_report : Option Report → Report
or_report none = none_report
or_report (some r) = r

abbrev report : List Bytes → Report
report leaves =
    or_report (run toy toy_keys writer snapshot leaves (visits toy toy_keys (none, []) earlier).0)

report_made :
    run toy toy_keys writer snapshot log (visits toy toy_keys (none, []) earlier).0
    ≡ some (report log)
unfolding bytes_eq text_ltb get has insert digits_fuel digits dumps_int hex_digit unicode_escape
    short_escape escape escapes dumps_str dumps sort_keys sort_elements sort_members dumps_sorted
    dumps_elements dumps_members entries_of line_errors insert_key unknown_keys schema_check
    idx_check link_check ts_check signed_count hexdigest contains without canonical_payload int_eq
    size py_eq elements_eq members_in pow2_loop largest_pow2_below shift_even shift_odd leaf_hash
    node_hash mth_fuel mth inclusion_fuel inclusion_proof inclusion_step inclusion_loop
    verify_inclusion subproof_fuel consistency_proof consistency_step consistency_loop
    walk_consistency verify_consistency consistency_verdict hex_value parse_hex sth_payload
    signed_tree_head verify_sth snapshot_alerts baseline_alerts compare_sizes check_baseline
    auditor_state next_state run visits
report_made = refl

report_green : (report log).ok ≡ true
unfolding bytes_eq text_ltb get has insert digits_fuel digits dumps_int hex_digit unicode_escape
    short_escape escape escapes dumps_str dumps sort_keys sort_elements sort_members dumps_sorted
    dumps_elements dumps_members entries_of line_errors insert_key unknown_keys schema_check
    idx_check link_check ts_check signed_count hexdigest contains without canonical_payload int_eq
    size py_eq elements_eq members_in pow2_loop largest_pow2_below shift_even shift_odd leaf_hash
    node_hash mth_fuel mth inclusion_fuel inclusion_proof inclusion_step inclusion_loop
    verify_inclusion subproof_fuel consistency_proof consistency_step consistency_loop
    walk_consistency verify_consistency consistency_verdict hex_value parse_hex sth_payload
    signed_tree_head verify_sth snapshot_alerts baseline_alerts compare_sizes check_baseline
    auditor_state next_state run visits
report_green = refl

versions : (visits toy toy_keys (none, []) earlier).1 ≡ take 3 log ∷ take 2 log ∷ []
unfolding bytes_eq text_ltb get has insert digits_fuel digits dumps_int hex_digit unicode_escape
    short_escape escape escapes dumps_str dumps sort_keys sort_elements sort_members dumps_sorted
    dumps_elements dumps_members entries_of line_errors insert_key unknown_keys schema_check
    idx_check link_check ts_check signed_count hexdigest contains without canonical_payload int_eq
    size py_eq elements_eq members_in pow2_loop largest_pow2_below shift_even shift_odd leaf_hash
    node_hash mth_fuel mth inclusion_fuel inclusion_proof inclusion_step inclusion_loop
    verify_inclusion subproof_fuel consistency_proof consistency_step consistency_loop
    walk_consistency verify_consistency consistency_verdict hex_value parse_hex sth_payload
    signed_tree_head verify_sth snapshot_alerts baseline_alerts compare_sizes check_baseline
    auditor_state next_state run visits
versions = refl

-- the file lost entries, and it has another first entry
shrunk : (report (take 2 log)).alerts ≡ truncation 3 2 ∷ []
unfolding bytes_eq text_ltb get has insert digits_fuel digits dumps_int hex_digit unicode_escape
    short_escape escape escapes dumps_str dumps sort_keys sort_elements sort_members dumps_sorted
    dumps_elements dumps_members entries_of line_errors insert_key unknown_keys schema_check
    idx_check link_check ts_check signed_count hexdigest contains without canonical_payload int_eq
    size py_eq elements_eq members_in pow2_loop largest_pow2_below shift_even shift_odd leaf_hash
    node_hash mth_fuel mth inclusion_fuel inclusion_proof inclusion_step inclusion_loop
    verify_inclusion subproof_fuel consistency_proof consistency_step consistency_loop
    walk_consistency verify_consistency consistency_verdict hex_value parse_hex sth_payload
    signed_tree_head verify_sth snapshot_alerts baseline_alerts compare_sizes check_baseline
    auditor_state next_state run visits
shrunk = refl

forked_log : (report ((9 ∷ []) ∷ log)).alerts ≡ fork 3 6 ∷ []
unfolding bytes_eq text_ltb get has insert digits_fuel digits dumps_int hex_digit unicode_escape
    short_escape escape escapes dumps_str dumps sort_keys sort_elements sort_members dumps_sorted
    dumps_elements dumps_members entries_of line_errors insert_key unknown_keys schema_check
    idx_check link_check ts_check signed_count hexdigest contains without canonical_payload int_eq
    size py_eq elements_eq members_in pow2_loop largest_pow2_below shift_even shift_odd leaf_hash
    node_hash mth_fuel mth inclusion_fuel inclusion_proof inclusion_step inclusion_loop
    verify_inclusion subproof_fuel consistency_proof consistency_step consistency_loop
    walk_consistency verify_consistency consistency_verdict hex_value parse_hex sth_payload
    signed_tree_head verify_sth snapshot_alerts baseline_alerts compare_sizes check_baseline
    auditor_state next_state run visits
forked_log = refl

earlier_roots : All (RootBytes toy toy_keys) earlier
earlier_roots = (
  mth-holds toy AreBytes toy_AreBytes (take 2 log),
  (mth-holds toy AreBytes toy_AreBytes (take 3 log), tt),
)

green_run-Extends_example :
    All (λ old. Prefix old log) (visits toy toy_keys (none, []) earlier).1 ⊎ Collision toy
green_run-Extends_example =
    green_run-Extends toy toy_keys earlier (visit log) (report log) earlier_roots report_made
      report_green
