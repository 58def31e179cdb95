-- ===== src/Witness/SubmitTests.antt =====
-- The client against the modelled service: the witness has cosigned a smaller checkpoint, answers 409 with
-- its size, and then cosigns.
use cryptovalid_opencore.Bytes.{bytes_eq}
use cryptovalid_opencore.Entry.{
  contains, without, canonical_payload, int_eq, size, py_eq, elements_eq, members_in,
}
use cryptovalid_opencore.Checks.{
  entries_of, line_errors, insert_key, unknown_keys, schema_check, idx_check, link_check, ts_check,
  signed_count, hexdigest,
}
use cryptovalid_opencore.Json.{
  text_ltb, get, has, insert, digits_fuel, digits, dumps_int, hex_digit, unicode_escape,
  short_escape, escape, escapes, dumps_str, dumps, sort_keys, sort_elements, sort_members,
  dumps_sorted, dumps_elements, dumps_members,
}
use cryptovalid_opencore.Json.Reader.{
  hex_value, short_value, read_low, read_unit, read_escape, read_char, read_text, is_digit,
  read_digits, read_key, read_value, read_elements, read_members,
}
use cryptovalid_opencore.Encoding.{
  all_hex, fromhex, b64_value, b64_char, b64decode, b64encode, b64_strict,
}
use cryptovalid_opencore.Texts.{
  split, join, cut, ends_line, without_last, cut_blank, partition_blank, has_control,
  has_control_in_line, count, lines, any_nil, all_name, all_digits,
}
use cryptovalid_opencore.Utf8.{encode_char, utf8_encode, lead, follow, utf8_decode}
use cryptovalid_opencore.Merkle.{
  pow2_loop, largest_pow2_below, shift_even, shift_odd, leaf_hash, node_hash, mth_fuel, mth,
  inclusion_fuel, inclusion_proof, inclusion_step, inclusion_loop, verify_inclusion, subproof_fuel,
  consistency_proof, consistency_step, consistency_loop, walk_consistency, verify_consistency,
  consistency_verdict,
}
use cryptovalid_opencore.Checkpoint.{
  is_b64, is_b64_strict, b64decode_strict, all_hex_digits, key_id, vkey, vkey_ecdsa, typed_vkey,
  vkey_of, parse_vkey, any_bad_extension, checkpoint_text, parse_lines, parse_checkpoint,
}
use cryptovalid_opencore.Checkpoint.Notes.{
  check_note_bytes, line_parts, split_line, split_lines, split_note, sig_line, unpack_q,
  cosig_message, mldsa44_message, sign_note, cosign_v1, cosign_v1_mldsa44,
}
use cryptovalid_opencore.Checkpoint.Verify.{
  known_key, add_known, was_seen, known_keys, check_signature, check_line, check_lines, report_of,
  verify_note,
}
use cryptovalid_opencore.Checkpoint.Proofs.{
  decode_proof, all_digests, ledger_checkpoint, consistency_proof_b64, verify_consistency_b64,
}
use cryptovalid_opencore.Dicts.{lookup, set, remove}
use cryptovalid_opencore.Witness.Recording.{
  proof_key, record_proof, json_size, line_size, scanned, cosigned_among, cosigned_at,
  refused_before, update, first_other, partner_in, remembered, ring_of, ring_with, remember,
  sizes_of, roots_at, candidates, record_refusal,
}
use cryptovalid_opencore.Witness.Pending.{
  note_count, roots_bytes, byte_count, smallest, pop_at, drop_smallest, too_much, trim_fuel, trim,
  small, with_root, with_pending, note_future,
}
use cryptovalid_opencore.Witness.Cosign.{
  check_times, first_refusal, observe, entry_rules, rules, note_unproven, refuse, contradict,
  commit, sign, finish, accept, judge, cosign_locked,
}
use cryptovalid_opencore.Witness.Requests.{
  all_log_types, is_log_name, log_signed, all_named, one_name, is_trusted, trusted_lines,
  kept_lines, parse_vkeys, log_keys, screen_checkpoint, screen_text, screen_report, screen,
  witness_cosign, run,
}
use cryptovalid_opencore.Witness.Service.{
  check_proof_lines, head_of, parse_add_checkpoint_body, format_add_checkpoint_body, log_key,
  add_named, add_vkeys, add_origins, trusted_logs, respond, add_checkpoint,
}
use cryptovalid_opencore.Witness.Relying.{
  witness_times, insert_name, names_where, newest, judge_age, judge_witnesses, judge_checkpoint,
  judge_note, usable, verify_witnessed,
}
use cryptovalid_opencore.Witness.Submit.{
  rstrip, all_dashes, lines_where, is_new_key, texts_of, names_of, taken_lines, witness_keys,
  with_lines, judge_reply, submit_again, submit_checkpoint,
}
use cryptovalid_opencore.Texts.{codes}
use cryptovalid_opencore.Witness.Chain.{IsKept}
use cryptovalid_opencore.Witness.Kept.{empty_store-IsKept}
use cryptovalid_opencore.Witness.Http.{HttpRequest, all_equal, content_length, do_post}
use cryptovalid_opencore.Witness.Served.{do_post-IsKept}
use cryptovalid_opencore.Dicts.All.{All}
use cryptovalid_opencore.Prelude.{false, ◌≡◌, refl, none, some, [], ◌∷◌, ◌++◌, take}
use cryptovalid_opencore.Bytes.{Bytes}
use cryptovalid_opencore.Json.{Text}
use cryptovalid_opencore.Samples.{toy}
use cryptovalid_opencore.Raises.{Raises, ok, raised}
use cryptovalid_opencore.Checkpoint.{NoteError, type_cosig_v1}
use cryptovalid_opencore.Checkpoint.Verify.{non_valida}
use cryptovalid_opencore.Witness.{Store, empty_store}
use cryptovalid_opencore.Witness.Service.{Body, size_line, cosignature, Response}
use cryptovalid_opencore.Witness.Submit.{Reply, Submitted, http_status, Client}
use cryptovalid_opencore.Witness.Samples.{
  toy_keys, witness, log, log_name, log_vkey, note_of, first_request, or_nil,
}

abbrev witness_vkey : Text
witness_vkey = or_nil (vkey toy witness.name type_cosig_v1 witness.seed)

abbrev store : Store
store = run toy toy_keys witness (first_request ∷ []) empty_store

abbrev bytes_of : Body → Bytes
bytes_of (size_line (some n)) = digits n ++ 10 ∷ []
bytes_of (cosignature (some b)) = b
bytes_of b = []

abbrev reply_of : Response → Reply
reply_of r = record { status = r.status; body = bytes_of r.body }

abbrev client : Client
client = record {
  witness_vkeys = witness_vkey ∷ [];
  log_vkeys = log_vkey ∷ [];
  expected_origin = none;
  post = λ n body.
      reply_of
        (add_checkpoint toy toy_keys witness ((log_name, log_vkey ∷ []) ∷ []) body (some 1001) 0 0
          store).1;
}

abbrev none_submitted : Submitted
none_submitted = record {
  stato = non_valida;
  status = none;
  note = none;
  witnesses = [];
  motivo = none;
}

abbrev or_submitted : Raises NoteError Submitted → Submitted
or_submitted (ok r) = r
or_submitted (raised e) = none_submitted

abbrev submitted : Submitted
submitted = or_submitted (submit_checkpoint toy toy_keys client (note_of log) log)

witness_named : submitted.witnesses ≡ witness.name ∷ []
unfolding bytes_eq contains without canonical_payload int_eq size py_eq elements_eq members_in
    entries_of line_errors insert_key unknown_keys schema_check idx_check link_check ts_check
    signed_count hexdigest text_ltb get has insert digits_fuel digits dumps_int hex_digit
    unicode_escape short_escape escape escapes dumps_str dumps sort_keys sort_elements sort_members
    dumps_sorted dumps_elements dumps_members hex_value short_value read_low read_unit read_escape
    read_char read_text is_digit read_digits read_key read_value read_elements read_members all_hex
    fromhex b64_value b64_char b64decode b64encode b64_strict split join cut ends_line without_last
    cut_blank partition_blank has_control has_control_in_line count lines any_nil all_name
    all_digits encode_char utf8_encode lead follow utf8_decode pow2_loop largest_pow2_below
    shift_even shift_odd leaf_hash node_hash mth_fuel mth inclusion_fuel inclusion_proof
    inclusion_step inclusion_loop verify_inclusion subproof_fuel consistency_proof consistency_step
    consistency_loop walk_consistency verify_consistency consistency_verdict is_b64 is_b64_strict
    b64decode_strict all_hex_digits key_id vkey vkey_ecdsa typed_vkey vkey_of parse_vkey
    any_bad_extension checkpoint_text parse_lines parse_checkpoint check_note_bytes line_parts
    split_line split_lines split_note sig_line unpack_q cosig_message mldsa44_message sign_note
    cosign_v1 cosign_v1_mldsa44 known_key add_known was_seen known_keys check_signature check_line
    check_lines report_of verify_note decode_proof all_digests ledger_checkpoint
    consistency_proof_b64 verify_consistency_b64 lookup set remove proof_key record_proof json_size
    line_size scanned cosigned_among cosigned_at refused_before update first_other partner_in
    remembered ring_of ring_with remember sizes_of roots_at candidates record_refusal note_count
    roots_bytes byte_count smallest pop_at drop_smallest too_much trim_fuel trim small with_root
    with_pending note_future check_times first_refusal observe entry_rules rules note_unproven
    refuse contradict commit sign finish accept judge cosign_locked all_log_types is_log_name
    log_signed all_named one_name is_trusted trusted_lines kept_lines parse_vkeys log_keys
    screen_checkpoint screen_text screen_report screen witness_cosign run check_proof_lines head_of
    parse_add_checkpoint_body format_add_checkpoint_body log_key add_named add_vkeys add_origins
    trusted_logs respond add_checkpoint witness_times insert_name names_where newest judge_age
    judge_witnesses judge_checkpoint judge_note usable verify_witnessed rstrip all_dashes
    lines_where is_new_key texts_of names_of taken_lines witness_keys with_lines judge_reply
    submit_again submit_checkpoint
witness_named = refl

-- the same size with another root
fork_refused :
    (or_submitted (
      submit_checkpoint toy toy_keys client
        (note_of ((9 ∷ []) ∷ take 1 log))
        ((9 ∷ []) ∷ take 1 log))).motivo
    ≡ some (http_status 422)
unfolding bytes_eq contains without canonical_payload int_eq size py_eq elements_eq members_in
    entries_of line_errors insert_key unknown_keys schema_check idx_check link_check ts_check
    signed_count hexdigest text_ltb get has insert digits_fuel digits dumps_int hex_digit
    unicode_escape short_escape escape escapes dumps_str dumps sort_keys sort_elements sort_members
    dumps_sorted dumps_elements dumps_members hex_value short_value read_low read_unit read_escape
    read_char read_text is_digit read_digits read_key read_value read_elements read_members all_hex
    fromhex b64_value b64_char b64decode b64encode b64_strict split join cut ends_line without_last
    cut_blank partition_blank has_control has_control_in_line count lines any_nil all_name
    all_digits encode_char utf8_encode lead follow utf8_decode pow2_loop largest_pow2_below
    shift_even shift_odd leaf_hash node_hash mth_fuel mth inclusion_fuel inclusion_proof
    inclusion_step inclusion_loop verify_inclusion subproof_fuel consistency_proof consistency_step
    consistency_loop walk_consistency verify_consistency consistency_verdict is_b64 is_b64_strict
    b64decode_strict all_hex_digits key_id vkey vkey_ecdsa typed_vkey vkey_of parse_vkey
    any_bad_extension checkpoint_text parse_lines parse_checkpoint check_note_bytes line_parts
    split_line split_lines split_note sig_line unpack_q cosig_message mldsa44_message sign_note
    cosign_v1 cosign_v1_mldsa44 known_key add_known was_seen known_keys check_signature check_line
    check_lines report_of verify_note decode_proof all_digests ledger_checkpoint
    consistency_proof_b64 verify_consistency_b64 lookup set remove proof_key record_proof json_size
    line_size scanned cosigned_among cosigned_at refused_before update first_other partner_in
    remembered ring_of ring_with remember sizes_of roots_at candidates record_refusal note_count
    roots_bytes byte_count smallest pop_at drop_smallest too_much trim_fuel trim small with_root
    with_pending note_future check_times first_refusal observe entry_rules rules note_unproven
    refuse contradict commit sign finish accept judge cosign_locked all_log_types is_log_name
    log_signed all_named one_name is_trusted trusted_lines kept_lines parse_vkeys log_keys
    screen_checkpoint screen_text screen_report screen witness_cosign run check_proof_lines head_of
    parse_add_checkpoint_body format_add_checkpoint_body log_key add_named add_vkeys add_origins
    trusted_logs respond add_checkpoint witness_times insert_name names_where newest judge_age
    judge_witnesses judge_checkpoint judge_note usable verify_witnessed rstrip all_dashes
    lines_where is_new_key texts_of names_of taken_lines witness_keys with_lines judge_reply
    submit_again submit_checkpoint
fork_refused = refl

abbrev posted : HttpRequest
posted = record {
  path = codes "/add-checkpoint";
  content_lengths = codes "300" ∷ codes "300" ∷ [];
  transfer_encoding = false;
  rfile = format_add_checkpoint_body 0 [] (note_of (take 2 log));
}

do_post-IsKept_example :
    IsKept toy
      (do_post toy toy_keys witness
        ((log_name, log_vkey ∷ []) ∷ [])
        []
        posted
        (some 1000)
        0
        0
        empty_store).0
do_post-IsKept_example =
    do_post-IsKept toy toy_keys witness ((log_name, log_vkey ∷ []) ∷ []) (some 1000) 0 0 empty_store
      (empty_store-IsKept toy) [] posted

one_length : content_length posted.content_lengths false ≡ some 300
unfolding content_length all_equal bytes_eq all_digits read_digits is_digit
one_length = refl
