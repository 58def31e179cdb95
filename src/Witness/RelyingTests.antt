-- ===== src/Witness/RelyingTests.antt =====
-- A run of the check of a relying party on a cosigned note.
use cryptovalid_opencore.Bytes.{bytes_eq, Bytes}
use cryptovalid_opencore.Entry.{contains}
use cryptovalid_opencore.Checks.{hexdigest}
use cryptovalid_opencore.Json.{text_ltb, digits_fuel, digits, hex_digit, short_escape, Text}
use cryptovalid_opencore.Json.Reader.{is_digit, read_digits}
use cryptovalid_opencore.Encoding.{fromhex, b64_value, b64_char, b64decode, b64encode}
use cryptovalid_opencore.Texts.{
  split, join, cut, ends_line, without_last, cut_blank, partition_blank, has_control,
  has_control_in_line, count, lines, any_nil, all_name, all_digits,
}
use cryptovalid_opencore.Utf8.{encode_char, utf8_encode, lead, follow, utf8_decode}
use cryptovalid_opencore.Merkle.{
  pow2_loop, largest_pow2_below, shift_even, shift_odd, leaf_hash, node_hash, mth_fuel, mth,
  subproof_fuel, consistency_proof, consistency_step, consistency_loop, walk_consistency,
  verify_consistency,
}
use cryptovalid_opencore.Checkpoint.{
  is_b64, is_b64_strict, b64decode_strict, all_hex_digits, key_id, vkey, vkey_ecdsa, typed_vkey,
  vkey_of, parse_vkey, any_bad_extension, checkpoint_text, parse_lines, parse_checkpoint, NoteError,
  Vkey, type_cosig_v1,
}
use cryptovalid_opencore.Checkpoint.Notes.{
  check_note_bytes, line_parts, split_line, split_lines, split_note, sig_line, unpack_q,
  cosig_message, mldsa44_message, sign_note, cosign_v1, cosign_v1_mldsa44,
}
use cryptovalid_opencore.Checkpoint.Verify.{
  known_key, add_known, was_seen, known_keys, check_signature, check_line, check_lines, report_of,
  verify_note, NoteReport, valid, non_valida,
}
use cryptovalid_opencore.Checkpoint.Proofs.{
  decode_proof, all_digests, ledger_checkpoint, consistency_proof_b64, verify_consistency_b64,
}
use cryptovalid_opencore.Dicts.{lookup, set, remove}
use cryptovalid_opencore.Witness.Requests.{
  all_log_types, is_log_name, log_signed, all_named, one_name, is_trusted, trusted_lines,
  kept_lines, parse_vkeys, log_keys, screen_checkpoint, screen_text, screen_report, screen,
  witness_cosign, run,
}
use cryptovalid_opencore.Witness.Relying.{
  witness_times, insert_name, names_where, newest, judge_age, judge_witnesses, judge_checkpoint,
  judge_note, usable, verify_witnessed, Policy, WitnessReport, blank,
}
use cryptovalid_opencore.Prelude.{◌≡◌, refl, true, none, some, List, [], ◌∷◌, ◌++◌}
use cryptovalid_opencore.Samples.{toy}
use cryptovalid_opencore.Raises.{ok, raised, Raises}
use cryptovalid_opencore.Witness.Witnessed.{Witnessed, verify_witnessed-Witnessed}
use cryptovalid_opencore.Witness.Samples.{toy_keys, witness, log, log_vkey, note_of, or_nil}

abbrev witness_vkey : Text
witness_vkey = or_nil (vkey toy witness.name type_cosig_v1 witness.seed)

abbrev cosigned_note : Bytes
cosigned_note = or_nil (cosign_v1 toy toy_keys (note_of log) witness.name witness.seed 1000)

abbrev policy : Policy
policy = record {
  log_vkeys = log_vkey ∷ [];
  witness_vkeys = witness_vkey ∷ [];
  min_witnesses = 1;
  max_age_s = some 60;
  now = 1050;
  clock_skew_s = 5;
  expected_origin = none;
}

abbrev or_witness_report : Raises NoteError WitnessReport → WitnessReport
or_witness_report (ok r) = r
or_witness_report (raised e) = blank

abbrev report : WitnessReport
report = or_witness_report (verify_witnessed toy toy_keys policy cosigned_note)

report_made : verify_witnessed toy toy_keys policy cosigned_note ≡ ok report
unfolding bytes_eq contains hexdigest text_ltb digits_fuel digits hex_digit short_escape is_digit
    read_digits fromhex b64_value b64_char b64decode b64encode split join cut ends_line without_last
    cut_blank partition_blank has_control has_control_in_line count lines any_nil all_name
    all_digits encode_char utf8_encode lead follow utf8_decode pow2_loop largest_pow2_below
    shift_even shift_odd leaf_hash node_hash mth_fuel mth subproof_fuel consistency_proof
    consistency_step consistency_loop walk_consistency verify_consistency is_b64 is_b64_strict
    b64decode_strict all_hex_digits key_id vkey vkey_ecdsa typed_vkey vkey_of parse_vkey
    any_bad_extension checkpoint_text parse_lines parse_checkpoint check_note_bytes line_parts
    split_line split_lines split_note sig_line unpack_q cosig_message mldsa44_message sign_note
    cosign_v1 cosign_v1_mldsa44 known_key add_known was_seen known_keys check_signature check_line
    check_lines report_of verify_note decode_proof all_digests ledger_checkpoint
    consistency_proof_b64 verify_consistency_b64 lookup set remove all_log_types is_log_name
    log_signed all_named one_name is_trusted trusted_lines kept_lines parse_vkeys log_keys
    screen_checkpoint screen_text screen_report screen witness_cosign run witness_times insert_name
    names_where newest judge_age judge_witnesses judge_checkpoint judge_note usable verify_witnessed
report_made = refl

report_valid : report.stato ≡ valid
unfolding bytes_eq contains hexdigest text_ltb digits_fuel digits hex_digit short_escape is_digit
    read_digits fromhex b64_value b64_char b64decode b64encode split join cut ends_line without_last
    cut_blank partition_blank has_control has_control_in_line count lines any_nil all_name
    all_digits encode_char utf8_encode lead follow utf8_decode pow2_loop largest_pow2_below
    shift_even shift_odd leaf_hash node_hash mth_fuel mth subproof_fuel consistency_proof
    consistency_step consistency_loop walk_consistency verify_consistency is_b64 is_b64_strict
    b64decode_strict all_hex_digits key_id vkey vkey_ecdsa typed_vkey vkey_of parse_vkey
    any_bad_extension checkpoint_text parse_lines parse_checkpoint check_note_bytes line_parts
    split_line split_lines split_note sig_line unpack_q cosig_message mldsa44_message sign_note
    cosign_v1 cosign_v1_mldsa44 known_key add_known was_seen known_keys check_signature check_line
    check_lines report_of verify_note decode_proof all_digests ledger_checkpoint
    consistency_proof_b64 verify_consistency_b64 lookup set remove all_log_types is_log_name
    log_signed all_named one_name is_trusted trusted_lines kept_lines parse_vkeys log_keys
    screen_checkpoint screen_text screen_report screen witness_cosign run witness_times insert_name
    names_where newest judge_age judge_witnesses judge_checkpoint judge_note usable verify_witnessed
report_valid = refl

-- a minute later the cosignature is too old
stale :
    (or_witness_report
      (verify_witnessed toy toy_keys (record policy { now = 1061 }) cosigned_note)).stato
    ≡ non_valida
unfolding bytes_eq contains hexdigest text_ltb digits_fuel digits hex_digit short_escape is_digit
    read_digits fromhex b64_value b64_char b64decode b64encode split join cut ends_line without_last
    cut_blank partition_blank has_control has_control_in_line count lines any_nil all_name
    all_digits encode_char utf8_encode lead follow utf8_decode pow2_loop largest_pow2_below
    shift_even shift_odd leaf_hash node_hash mth_fuel mth subproof_fuel consistency_proof
    consistency_step consistency_loop walk_consistency verify_consistency is_b64 is_b64_strict
    b64decode_strict all_hex_digits key_id vkey vkey_ecdsa typed_vkey vkey_of parse_vkey
    any_bad_extension checkpoint_text parse_lines parse_checkpoint check_note_bytes line_parts
    split_line split_lines split_note sig_line unpack_q cosig_message mldsa44_message sign_note
    cosign_v1 cosign_v1_mldsa44 known_key add_known was_seen known_keys check_signature check_line
    check_lines report_of verify_note decode_proof all_digests ledger_checkpoint
    consistency_proof_b64 verify_consistency_b64 lookup set remove all_log_types is_log_name
    log_signed all_named one_name is_trusted trusted_lines kept_lines parse_vkeys log_keys
    screen_checkpoint screen_text screen_report screen witness_cosign run witness_times insert_name
    names_where newest judge_age judge_witnesses judge_checkpoint judge_note usable verify_witnessed
stale = refl

verify_witnessed-Witnessed_example :
    (v : NoteReport) × (keys : List Vkey) × (trusted : List Text) × (parse_vkeys toy (log_vkey ∷ [])
      ≡ ok keys)
    × (usable toy toy_keys (witness_vkey ∷ []) ≡ ok trusted)
    × (verify_note toy toy_keys cosigned_note ((log_vkey ∷ []) ++ trusted) ≡ ok v)
    × (v.stato ≡ valid)
    × (log_signed keys v.verified ≡ true)
    × Witnessed policy 60 v report
verify_witnessed-Witnessed_example =
    verify_witnessed-Witnessed toy toy_keys policy cosigned_note report 60 refl report_made
      report_valid
