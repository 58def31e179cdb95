-- ===== src/Witness/Tests.antt =====
-- Runs of a witness on three requests of a log that forks, and the properties at concrete inputs.
use cryptovalid_opencore.Bytes.{bytes_eq, Collision}
use cryptovalid_opencore.Entry.{contains}
use cryptovalid_opencore.Checks.{hexdigest}
use cryptovalid_opencore.Json.{text_ltb, digits_fuel, digits, hex_digit, short_escape}
use cryptovalid_opencore.Json.Reader.{is_digit, read_digits}
use cryptovalid_opencore.Encoding.{fromhex, b64_value, b64_char, b64decode, b64encode}
use cryptovalid_opencore.Texts.{
  split, join, cut, ends_line, without_last, cut_blank, partition_blank, has_control,
  has_control_in_line, count, lines, any_nil, all_name, all_digits, codes,
}
use cryptovalid_opencore.Utf8.{encode_char, utf8_encode, lead, follow, utf8_decode}
use cryptovalid_opencore.Merkle.{
  pow2_loop, largest_pow2_below, shift_even, shift_odd, leaf_hash, node_hash, mth_fuel, mth,
  subproof_fuel, consistency_proof, consistency_step, consistency_loop, walk_consistency,
  verify_consistency,
}
use cryptovalid_opencore.Checkpoint.{
  is_b64, is_b64_strict, b64decode_strict, all_hex_digits, key_id, vkey, vkey_ecdsa, typed_vkey,
  vkey_of, parse_vkey, any_bad_extension, checkpoint_text, parse_lines, parse_checkpoint,
}
use cryptovalid_opencore.Checkpoint.Notes.{
  check_note_bytes, line_parts, split_line, split_lines, split_note, sig_line, unpack_q,
  cosig_message, mldsa44_message, sign_note, cosign_v1, cosign_v1_mldsa44,
}
use cryptovalid_opencore.Checkpoint.Verify.{
  known_key, add_known, was_seen, known_keys, check_signature, check_line, check_lines, report_of,
  verify_note,
}
use cryptovalid_opencore.Checkpoint.Proofs.{
  decode_proof, all_digests, ledger_checkpoint, consistency_proof_b64, verify_consistency_b64,
}
use cryptovalid_opencore.Dicts.{lookup, set, remove}
use cryptovalid_opencore.Witness.Recording.{
  proof_key, record_proof, json_size, line_size, scanned, cosigned_among, cosigned_at,
  refused_before, update, first_other, partner_in, remembered, ring_of, ring_with, remember,
  sizes_of, roots_at, candidates, record_refusal,
}
use cryptovalid_opencore.Witness.Pending.{
  note_count, roots_bytes, byte_count, smallest, pop_at, drop_smallest, too_much, trim_fuel, trim,
  small, with_root, with_pending, note_future,
}
use cryptovalid_opencore.Witness.Cosign.{
  check_times, first_refusal, observe, entry_rules, rules, note_unproven, refuse, contradict,
  commit, sign, finish, accept, judge, cosign_locked, Call,
}
use cryptovalid_opencore.Witness.Requests.{
  all_log_types, is_log_name, log_signed, all_named, one_name, is_trusted, trusted_lines,
  kept_lines, parse_vkeys, log_keys, screen_checkpoint, screen_text, screen_report, screen,
  witness_cosign, run, Submission,
}
use cryptovalid_opencore.Witness.Chain.{records, root_of}
use cryptovalid_opencore.Prelude.{
  ◌≤◌, ◌≡◌, ◌↔◌, ◌⊎◌, inl, refl, arith, true, none, some, List, [], ◌∷◌, take, length, map,
}
use cryptovalid_opencore.Samples.{toy}
use cryptovalid_opencore.Dicts.All.{All}
use cryptovalid_opencore.Witness.{Entry, Cosigned, Store, Sizes, Evidence, empty_store}
use cryptovalid_opencore.Witness.Effects.{cosigns}
use cryptovalid_opencore.Witness.History.{Among, history_append_only, history_one_root}
use cryptovalid_opencore.Witness.Notes.{EvidenceNote}
use cryptovalid_opencore.Witness.Proof.{Sealed, Listed, evidence-Split}
use cryptovalid_opencore.Witness.Bounds.{StoreBounded, run-Bounded}
use cryptovalid_opencore.Witness.Trimming.{Rooted, Fits, trim-Fits}
use cryptovalid_opencore.Witness.Acceptance.{Timely, Acceptable, Signs, cosigned_iff}
use cryptovalid_opencore.Witness.Rooted.{Looks}
use cryptovalid_opencore.Witness.Cosign.{request_of}
use cryptovalid_opencore.Witness.RootedRuns.{run-Looks}
use cryptovalid_opencore.Witness.Samples.{
  toy_keys, witness, log, log_name, first_request, second_request, requests,
}

abbrev two_requests : List Submission
two_requests = first_request ∷ second_request ∷ []

abbrev small_line : Cosigned
small_line = record {
  origin = log_name;
  size = 2;
  root_b64 = codes "3S4AAAAAAAAAAAAAAAAAAAAAAAAAAAAAAAAAAAAAAAA=";
  note =
      codes
        "log.example/a\n2\n3S4AAAAAAAAAAAAAAAAAAAAAAAAAAAAAAAAAAAAAAAA=\n\n— log.example/a NowAAAcHBwcHBwcHBwcHBwcHBwcHBwcHBwcHBwcHBwcHBwcHJlgAAAAAAAAAAAAAAAAAAAAAAAAAAAAAAAAAAAAAAAA=\n— witness.example NIgAAAAAAAAAAAPoCQkJCQkJCQkJCQkJCQkJCQkJCQkJCQkJCQkJCQkJCQmcaQAAAAAAAAAAAAAAAAAAAAAAAAAAAAAAAAAAAAAAAA==\n";
  cosigned_at = 1000;
}

abbrev large_entry : Entry
large_entry = record {
  size = 5;
  root_b64 = codes "eDUAAAAAAAAAAAAAAAAAAAAAAAAAAAAAAAAAAAAAAAA=";
  note =
      codes
        "log.example/a\n5\neDUAAAAAAAAAAAAAAAAAAAAAAAAAAAAAAAAAAAAAAAA=\n\n— log.example/a NowAAAcHBwcHBwcHBwcHBwcHBwcHBwcHBwcHBwcHBwcHBwcHiNIAAAAAAAAAAAAAAAAAAAAAAAAAAAAAAAAAAAAAAAA=\n— witness.example NIgAAAAAAAAAAAPpCQkJCQkJCQkJCQkJCQkJCQkJCQkJCQkJCQkJCQkJCQnaaQAAAAAAAAAAAAAAAAAAAAAAAAAAAAAAAAAAAAAAAA==\n";
  cosigned_at = 1001;
}

abbrev served : Store
served = run toy toy_keys witness two_requests empty_store

entry_stored : lookup bytes_eq log_name served.state.origins ≡ some large_entry
unfolding bytes_eq contains hexdigest text_ltb digits_fuel digits hex_digit short_escape is_digit
    read_digits fromhex b64_value b64_char b64decode b64encode split join cut ends_line without_last
    cut_blank partition_blank has_control has_control_in_line count lines any_nil all_name
    all_digits encode_char utf8_encode lead follow utf8_decode pow2_loop largest_pow2_below
    shift_even shift_odd leaf_hash node_hash mth_fuel mth subproof_fuel consistency_proof
    consistency_step consistency_loop walk_consistency verify_consistency is_b64 is_b64_strict
    b64decode_strict all_hex_digits key_id vkey vkey_ecdsa typed_vkey vkey_of parse_vkey
    any_bad_extension checkpoint_text parse_lines parse_checkpoint check_note_bytes line_parts
    split_line split_lines split_note sig_line unpack_q cosig_message mldsa44_message sign_note
    cosign_v1 cosign_v1_mldsa44 known_key add_known was_seen known_keys check_signature check_line
    check_lines report_of verify_note decode_proof all_digests ledger_checkpoint
    consistency_proof_b64 verify_consistency_b64 lookup set remove proof_key record_proof json_size
    line_size scanned cosigned_among cosigned_at refused_before update first_other partner_in
    remembered ring_of ring_with remember sizes_of roots_at candidates record_refusal note_count
    roots_bytes byte_count smallest pop_at drop_smallest too_much trim_fuel trim small with_root
    with_pending note_future check_times first_refusal observe entry_rules rules note_unproven
    refuse contradict commit sign finish accept judge cosign_locked all_log_types is_log_name
    log_signed all_named one_name is_trusted trusted_lines kept_lines parse_vkeys log_keys
    screen_checkpoint screen_text screen_report screen witness_cosign run records
entry_stored = refl

small-Among : Among small_line (records log_name served.history)
unfolding bytes_eq contains hexdigest text_ltb digits_fuel digits hex_digit short_escape is_digit
    read_digits fromhex b64_value b64_char b64decode b64encode split join cut ends_line without_last
    cut_blank partition_blank has_control has_control_in_line count lines any_nil all_name
    all_digits encode_char utf8_encode lead follow utf8_decode pow2_loop largest_pow2_below
    shift_even shift_odd leaf_hash node_hash mth_fuel mth subproof_fuel consistency_proof
    consistency_step consistency_loop walk_consistency verify_consistency is_b64 is_b64_strict
    b64decode_strict all_hex_digits key_id vkey vkey_ecdsa typed_vkey vkey_of parse_vkey
    any_bad_extension checkpoint_text parse_lines parse_checkpoint check_note_bytes line_parts
    split_line split_lines split_note sig_line unpack_q cosig_message mldsa44_message sign_note
    cosign_v1 cosign_v1_mldsa44 known_key add_known was_seen known_keys check_signature check_line
    check_lines report_of verify_note decode_proof all_digests ledger_checkpoint
    consistency_proof_b64 verify_consistency_b64 lookup set remove proof_key record_proof json_size
    line_size scanned cosigned_among cosigned_at refused_before update first_other partner_in
    remembered ring_of ring_with remember sizes_of roots_at candidates record_refusal note_count
    roots_bytes byte_count smallest pop_at drop_smallest too_much trim_fuel trim small with_root
    with_pending note_future check_times first_refusal observe entry_rules rules note_unproven
    refuse contradict commit sign finish accept judge cosign_locked all_log_types is_log_name
    log_signed all_named one_name is_trusted trusted_lines kept_lines parse_vkeys log_keys
    screen_checkpoint screen_text screen_report screen witness_cosign run records
small-Among = inl refl

large_root : root_of large_entry.root_b64 ≡ mth toy log
unfolding bytes_eq contains hexdigest text_ltb digits_fuel digits hex_digit short_escape is_digit
    read_digits fromhex b64_value b64_char b64decode b64encode split join cut ends_line without_last
    cut_blank partition_blank has_control has_control_in_line count lines any_nil all_name
    all_digits encode_char utf8_encode lead follow utf8_decode pow2_loop largest_pow2_below
    shift_even shift_odd leaf_hash node_hash mth_fuel mth subproof_fuel consistency_proof
    consistency_step consistency_loop walk_consistency verify_consistency is_b64 is_b64_strict
    b64decode_strict all_hex_digits key_id vkey vkey_ecdsa typed_vkey vkey_of parse_vkey
    any_bad_extension checkpoint_text parse_lines parse_checkpoint check_note_bytes line_parts
    split_line split_lines split_note sig_line unpack_q cosig_message mldsa44_message sign_note
    cosign_v1 cosign_v1_mldsa44 known_key add_known was_seen known_keys check_signature check_line
    check_lines report_of verify_note decode_proof all_digests ledger_checkpoint
    consistency_proof_b64 verify_consistency_b64 lookup set remove proof_key record_proof json_size
    line_size scanned cosigned_among cosigned_at refused_before update first_other partner_in
    remembered ring_of ring_with remember sizes_of roots_at candidates record_refusal note_count
    roots_bytes byte_count smallest pop_at drop_smallest too_much trim_fuel trim small with_root
    with_pending note_future check_times first_refusal observe entry_rules rules note_unproven
    refuse contradict commit sign finish accept judge cosign_locked all_log_types is_log_name
    log_signed all_named one_name is_trusted trusted_lines kept_lines parse_vkeys log_keys
    screen_checkpoint screen_text screen_report screen witness_cosign run records
large_root = refl

history_append_only_example :
    (small_line.size ≤ length log)
    × ((small_line.size ≡ 0) ⊎ (root_of small_line.root_b64 ≡ mth toy (take 2 log)) ⊎ Collision toy)
history_append_only_example =
    history_append_only toy toy_keys witness two_requests log_name large_entry log entry_stored refl
      large_root small_line small-Among

history_one_root_example : small_line ≡ small_line
history_one_root_example =
    history_one_root toy toy_keys witness two_requests log_name small_line small_line small-Among
      small-Among refl

-- the third request brings another root at the size of the second
abbrev all_three : Store
all_three = run toy toy_keys witness requests empty_store

fork_recorded : map (λ (e : Evidence). e.prova) all_three.evidence ≡ true ∷ []
unfolding bytes_eq contains hexdigest text_ltb digits_fuel digits hex_digit short_escape is_digit
    read_digits fromhex b64_value b64_char b64decode b64encode split join cut ends_line without_last
    cut_blank partition_blank has_control has_control_in_line count lines any_nil all_name
    all_digits encode_char utf8_encode lead follow utf8_decode pow2_loop largest_pow2_below
    shift_even shift_odd leaf_hash node_hash mth_fuel mth subproof_fuel consistency_proof
    consistency_step consistency_loop walk_consistency verify_consistency is_b64 is_b64_strict
    b64decode_strict all_hex_digits key_id vkey vkey_ecdsa typed_vkey vkey_of parse_vkey
    any_bad_extension checkpoint_text parse_lines parse_checkpoint check_note_bytes line_parts
    split_line split_lines split_note sig_line unpack_q cosig_message mldsa44_message sign_note
    cosign_v1 cosign_v1_mldsa44 known_key add_known was_seen known_keys check_signature check_line
    check_lines report_of verify_note decode_proof all_digests ledger_checkpoint
    consistency_proof_b64 verify_consistency_b64 lookup set remove proof_key record_proof json_size
    line_size scanned cosigned_among cosigned_at refused_before update first_other partner_in
    remembered ring_of ring_with remember sizes_of roots_at candidates record_refusal note_count
    roots_bytes byte_count smallest pop_at drop_smallest too_much trim_fuel trim small with_root
    with_pending note_future check_times first_refusal observe entry_rules rules note_unproven
    refuse contradict commit sign finish accept judge cosign_locked all_log_types is_log_name
    log_signed all_named one_name is_trusted trusted_lines kept_lines parse_vkeys log_keys
    screen_checkpoint screen_text screen_report screen witness_cosign run
fork_recorded = refl

evidence-Split_example :
    All
      (EvidenceNote (Sealed toy toy_keys (λ m. Listed m requests)))
      (run toy toy_keys witness requests empty_store).evidence
evidence-Split_example = evidence-Split toy toy_keys witness requests

run-Bounded_example : StoreBounded (run toy toy_keys witness requests empty_store)
run-Bounded_example =
    run-Bounded toy toy_keys witness requests empty_store
      (record { pending = tt; refusals = tt; proofs = omega arith })

abbrev few_sizes : Sizes
few_sizes = (7, (codes "a", none) ∷ []) ∷ (3, (codes "b", some (codes "note")) ∷ []) ∷ []

trim-Fits_example : (t : Sizes) × (trim few_sizes ≡ some t) × Fits t × Rooted t
trim-Fits_example = trim-Fits few_sizes (tt, (tt, tt))

-- the pending root of the smallest size goes first
smallest_goes : drop_smallest few_sizes ≡ some ((7, (codes "a", none) ∷ []) ∷ [])
unfolding note_count roots_bytes byte_count smallest pop_at drop_smallest too_much trim_fuel trim
    small with_root with_pending note_future
smallest_goes = refl

-- a size without roots, at which `next` raises StopIteration
no_root_raises : drop_smallest ((3, []) ∷ few_sizes) ≡ none
unfolding note_count roots_bytes byte_count smallest pop_at drop_smallest too_much trim_fuel trim
    small with_root with_pending note_future
no_root_raises = refl

abbrev first_call : Call
first_call = record {
  cp = record { origin = log_name; size = 2; root = mth toy (take 2 log); extensions = [] };
  text = codes "log.example/a\n2\n3S4AAAAAAAAAAAAAAAAAAAAAAAAAAAAAAAAAAAAAAAA=\n";
  proof = [];
  trusted_lines = [];
  kept = [];
  timestamp = some 1000;
  old_size = some 0;
  now = 1000;
  now_signing = 1000;
}

cosigned_iff_example :
    (cosigns (cosign_locked toy toy_keys first_call witness empty_store).1 ≡ true) ↔ (
      Timely (some 1000) (lookup bytes_eq log_name empty_store.state.origins)
      × Acceptable toy (lookup bytes_eq log_name empty_store.state.origins) first_call
      × Signs toy toy_keys first_call witness)
cosigned_iff_example = cosigned_iff toy toy_keys first_call witness empty_store tt

run-Looks_example :
    Looks toy
      (request_of first_call)
      (observe toy (request_of first_call) none (run toy toy_keys witness requests empty_store))
run-Looks_example = run-Looks toy toy_keys witness requests (request_of first_call) none
