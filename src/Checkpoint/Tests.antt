-- ===== src/Checkpoint/Tests.antt =====
-- Runs of the checkpoint and note functions, and the properties at concrete inputs.
use cryptovalid_opencore.Bytes.{bytes_eq, Bytes}
use cryptovalid_opencore.Entry.{contains}
use cryptovalid_opencore.Checks.{hexdigest}
use cryptovalid_opencore.Json.{text_ltb, digits_fuel, digits, hex_digit, short_escape, Text}
use cryptovalid_opencore.Json.Reader.{is_digit, read_digits}
use cryptovalid_opencore.Encoding.{fromhex, b64_value, b64_char, b64decode, b64encode}
use cryptovalid_opencore.Texts.{
  split, join, cut, ends_line, without_last, cut_blank, partition_blank, has_control,
  has_control_in_line, count, lines, any_nil, all_name, all_digits, codes,
}
use cryptovalid_opencore.Utf8.{encode_char, utf8_encode, lead, follow, utf8_decode}
use cryptovalid_opencore.Merkle.{
  pow2_loop, largest_pow2_below, shift_even, shift_odd, leaf_hash, node_hash, mth_fuel, mth,
  subproof_fuel, consistency_proof, consistency_step, consistency_loop, walk_consistency,
  verify_consistency,
}
use cryptovalid_opencore.Checkpoint.{
  is_b64, is_b64_strict, b64decode_strict, all_hex_digits, key_id, vkey, vkey_ecdsa, typed_vkey,
  vkey_of, parse_vkey, any_bad_extension, checkpoint_text, parse_lines, parse_checkpoint, NoteError,
  size_format, Checkpoint,
}
use cryptovalid_opencore.Checkpoint.Notes.{
  check_note_bytes, line_parts, split_line, split_lines, split_note, sig_line, unpack_q,
  cosig_message, mldsa44_message, sign_note, cosign_v1, cosign_v1_mldsa44,
}
use cryptovalid_opencore.Checkpoint.Verify.{
  known_key, add_known, was_seen, known_keys, check_signature, check_line, check_lines, report_of,
  verify_note, NoteReport, valid, non_valida,
}
use cryptovalid_opencore.Checkpoint.Proofs.{
  decode_proof, all_digests, ledger_checkpoint, consistency_proof_b64, verify_consistency_b64,
}
use cryptovalid_opencore.Prelude.{◌≡◌, refl, arith, true, none, List, [], ◌∷◌, take}
use cryptovalid_opencore.Samples.{toy, toy_AreBytes}
use cryptovalid_opencore.Encoding.Base64.{AreBytes}
use cryptovalid_opencore.Raises.{Raises, ok, raised}
use cryptovalid_opencore.Checkpoint.Accepted.{Accepted, verify_note-Accepted}
use cryptovalid_opencore.Checkpoint.Roundtrip.{
  checkpoint_text-parsed, parse_checkpoint-checkpoint_text,
}
use cryptovalid_opencore.Checkpoint.Complete.{consistency_proof_b64-verifies}
use cryptovalid_opencore.Witness.Samples.{toy_keys, log, note_of, log_vkey, log_name, or_nil}

abbrev none_report : NoteReport
none_report = record {
  stato = non_valida;
  text = none;
  verified = [];
  ignored = 0;
  ignored_vkeys = 0;
  motivo = none;
}

abbrev or_report : Raises NoteError NoteReport → NoteReport
or_report (ok r) = r
or_report (raised e) = none_report

abbrev signed : Bytes
signed = note_of (take 2 log)

abbrev report : NoteReport
report = or_report (verify_note toy toy_keys signed (log_vkey ∷ []))

report_made : verify_note toy toy_keys signed (log_vkey ∷ []) ≡ ok report
unfolding bytes_eq contains hexdigest text_ltb digits_fuel digits hex_digit short_escape is_digit
    read_digits fromhex b64_value b64_char b64decode b64encode split join cut ends_line without_last
    cut_blank partition_blank has_control has_control_in_line count lines any_nil all_name
    all_digits encode_char utf8_encode lead follow utf8_decode pow2_loop largest_pow2_below
    shift_even shift_odd leaf_hash node_hash mth_fuel mth subproof_fuel consistency_proof
    consistency_step consistency_loop walk_consistency verify_consistency is_b64 is_b64_strict
    b64decode_strict all_hex_digits key_id vkey vkey_ecdsa typed_vkey vkey_of parse_vkey
    any_bad_extension checkpoint_text parse_lines parse_checkpoint check_note_bytes line_parts
    split_line split_lines split_note sig_line unpack_q cosig_message mldsa44_message sign_note
    cosign_v1 cosign_v1_mldsa44 known_key add_known was_seen known_keys check_signature check_line
    check_lines report_of verify_note decode_proof all_digests ledger_checkpoint
    consistency_proof_b64 verify_consistency_b64
report_made = refl

report_valid : report.stato ≡ valid
unfolding bytes_eq contains hexdigest text_ltb digits_fuel digits hex_digit short_escape is_digit
    read_digits fromhex b64_value b64_char b64decode b64encode split join cut ends_line without_last
    cut_blank partition_blank has_control has_control_in_line count lines any_nil all_name
    all_digits encode_char utf8_encode lead follow utf8_decode pow2_loop largest_pow2_below
    shift_even shift_odd leaf_hash node_hash mth_fuel mth subproof_fuel consistency_proof
    consistency_step consistency_loop walk_consistency verify_consistency is_b64 is_b64_strict
    b64decode_strict all_hex_digits key_id vkey vkey_ecdsa typed_vkey vkey_of parse_vkey
    any_bad_extension checkpoint_text parse_lines parse_checkpoint check_note_bytes line_parts
    split_line split_lines split_note sig_line unpack_q cosig_message mldsa44_message sign_note
    cosign_v1 cosign_v1_mldsa44 known_key add_known was_seen known_keys check_signature check_line
    check_lines report_of verify_note decode_proof all_digests ledger_checkpoint
    consistency_proof_b64 verify_consistency_b64
report_valid = refl

verify_note-Accepted_example : Accepted toy toy_keys signed (log_vkey ∷ []) report
verify_note-Accepted_example =
    verify_note-Accepted toy toy_keys signed (log_vkey ∷ []) report report_made report_valid

abbrev tree_root : Bytes
tree_root = mth toy log

abbrev checkpoint : Checkpoint
checkpoint = record { origin = log_name; size = 5; root = tree_root; extensions = codes "x" ∷ [] }

abbrev text : Text
text = codes "log.example/a\n5\neDUAAAAAAAAAAAAAAAAAAAAAAAAAAAAAAAAAAAAAAAA=\nx\n"

text_parses : parse_checkpoint text ≡ ok checkpoint
unfolding bytes_eq contains hexdigest text_ltb digits_fuel digits hex_digit short_escape is_digit
    read_digits fromhex b64_value b64_char b64decode b64encode split join cut ends_line without_last
    cut_blank partition_blank has_control has_control_in_line count lines any_nil all_name
    all_digits encode_char utf8_encode lead follow utf8_decode pow2_loop largest_pow2_below
    shift_even shift_odd leaf_hash node_hash mth_fuel mth subproof_fuel consistency_proof
    consistency_step consistency_loop walk_consistency verify_consistency is_b64 is_b64_strict
    b64decode_strict all_hex_digits key_id vkey vkey_ecdsa typed_vkey vkey_of parse_vkey
    any_bad_extension checkpoint_text parse_lines parse_checkpoint check_note_bytes line_parts
    split_line split_lines split_note sig_line unpack_q cosig_message mldsa44_message sign_note
    cosign_v1 cosign_v1_mldsa44 known_key add_known was_seen known_keys check_signature check_line
    check_lines report_of verify_note decode_proof all_digests ledger_checkpoint
    consistency_proof_b64 verify_consistency_b64
text_parses = refl

text_written : checkpoint_text checkpoint ≡ ok text
unfolding bytes_eq contains hexdigest text_ltb digits_fuel digits hex_digit short_escape is_digit
    read_digits fromhex b64_value b64_char b64decode b64encode split join cut ends_line without_last
    cut_blank partition_blank has_control has_control_in_line count lines any_nil all_name
    all_digits encode_char utf8_encode lead follow utf8_decode pow2_loop largest_pow2_below
    shift_even shift_odd leaf_hash node_hash mth_fuel mth subproof_fuel consistency_proof
    consistency_step consistency_loop walk_consistency verify_consistency is_b64 is_b64_strict
    b64decode_strict all_hex_digits key_id vkey vkey_ecdsa typed_vkey vkey_of parse_vkey
    any_bad_extension checkpoint_text parse_lines parse_checkpoint check_note_bytes line_parts
    split_line split_lines split_note sig_line unpack_q cosig_message mldsa44_message sign_note
    cosign_v1 cosign_v1_mldsa44 known_key add_known was_seen known_keys check_signature check_line
    check_lines report_of verify_note decode_proof all_digests ledger_checkpoint
    consistency_proof_b64 verify_consistency_b64
text_written = refl

checkpoint_text-parsed_example : checkpoint_text checkpoint ≡ ok text
checkpoint_text-parsed_example = checkpoint_text-parsed text checkpoint text_parses

root_AreBytes : AreBytes tree_root
unfolding bytes_eq contains hexdigest text_ltb digits_fuel digits hex_digit short_escape is_digit
    read_digits fromhex b64_value b64_char b64decode b64encode split join cut ends_line without_last
    cut_blank partition_blank has_control has_control_in_line count lines any_nil all_name
    all_digits encode_char utf8_encode lead follow utf8_decode pow2_loop largest_pow2_below
    shift_even shift_odd leaf_hash node_hash mth_fuel mth subproof_fuel consistency_proof
    consistency_step consistency_loop walk_consistency verify_consistency is_b64 is_b64_strict
    b64decode_strict all_hex_digits key_id vkey vkey_ecdsa typed_vkey vkey_of parse_vkey
    any_bad_extension checkpoint_text parse_lines parse_checkpoint check_note_bytes line_parts
    split_line split_lines split_note sig_line unpack_q cosig_message mldsa44_message sign_note
    cosign_v1 cosign_v1_mldsa44 known_key add_known was_seen known_keys check_signature check_line
    check_lines report_of verify_note decode_proof all_digests ledger_checkpoint
    consistency_proof_b64 verify_consistency_b64
root_AreBytes = ground arith

parse_checkpoint-checkpoint_text_example : parse_checkpoint text ≡ ok checkpoint
parse_checkpoint-checkpoint_text_example =
    parse_checkpoint-checkpoint_text checkpoint text root_AreBytes text_written

-- a leading zero is refused
leading_zero :
    parse_checkpoint (codes "o\n05\neDUAAAAAAAAAAAAAAAAAAAAAAAAAAAAAAAAAAAAAAAA=\n")
    ≡ raised size_format
unfolding bytes_eq contains hexdigest text_ltb digits_fuel digits hex_digit short_escape is_digit
    read_digits fromhex b64_value b64_char b64decode b64encode split join cut ends_line without_last
    cut_blank partition_blank has_control has_control_in_line count lines any_nil all_name
    all_digits encode_char utf8_encode lead follow utf8_decode pow2_loop largest_pow2_below
    shift_even shift_odd leaf_hash node_hash mth_fuel mth subproof_fuel consistency_proof
    consistency_step consistency_loop walk_consistency verify_consistency is_b64 is_b64_strict
    b64decode_strict all_hex_digits key_id vkey vkey_ecdsa typed_vkey vkey_of parse_vkey
    any_bad_extension checkpoint_text parse_lines parse_checkpoint check_note_bytes line_parts
    split_line split_lines split_note sig_line unpack_q cosig_message mldsa44_message sign_note
    cosign_v1 cosign_v1_mldsa44 known_key add_known was_seen known_keys check_signature check_line
    check_lines report_of verify_note decode_proof all_digests ledger_checkpoint
    consistency_proof_b64 verify_consistency_b64
leading_zero = refl

abbrev proof : List Text
proof = or_nil (consistency_proof_b64 toy log 2)

proof_made : consistency_proof_b64 toy log 2 ≡ ok proof
unfolding bytes_eq contains hexdigest text_ltb digits_fuel digits hex_digit short_escape is_digit
    read_digits fromhex b64_value b64_char b64decode b64encode split join cut ends_line without_last
    cut_blank partition_blank has_control has_control_in_line count lines any_nil all_name
    all_digits encode_char utf8_encode lead follow utf8_decode pow2_loop largest_pow2_below
    shift_even shift_odd leaf_hash node_hash mth_fuel mth subproof_fuel consistency_proof
    consistency_step consistency_loop walk_consistency verify_consistency is_b64 is_b64_strict
    b64decode_strict all_hex_digits key_id vkey vkey_ecdsa typed_vkey vkey_of parse_vkey
    any_bad_extension checkpoint_text parse_lines parse_checkpoint check_note_bytes line_parts
    split_line split_lines split_note sig_line unpack_q cosig_message mldsa44_message sign_note
    cosign_v1 cosign_v1_mldsa44 known_key add_known was_seen known_keys check_signature check_line
    check_lines report_of verify_note decode_proof all_digests ledger_checkpoint
    consistency_proof_b64 verify_consistency_b64
proof_made = refl

consistency_proof_b64-verifies_example :
    verify_consistency_b64 toy 2 (mth toy (take 2 log)) 5 tree_root proof ≡ true
consistency_proof_b64-verifies_example =
    consistency_proof_b64-verifies toy toy_AreBytes 2 log proof proof_made
