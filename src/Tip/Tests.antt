-- ===== src/Tip/Tests.antt =====
-- Runs of `check_tip` beside the sample ledger, and the properties at concrete inputs.
use cryptovalid_opencore.Prelude.{
  ◌≢◌, inr, ◌<◌, inl, ◌++◌, length, ◌≡◌, refl, true, false, ◌⊎◌, none, some, [], ◌∷◌, map, take,
  Option, ℕ, zero, suc,
}
use cryptovalid_opencore.Bytes.{Bytes, bytes_eq, Collision}
use cryptovalid_opencore.Samples.{toy}
use cryptovalid_opencore.Json.{
  Text, text_ltb, pos, num, str, Members, empty, member, get, has, insert, sort_keys, digits_fuel,
  digits, dumps_int, hex_digit, unicode_escape, short_escape, escape, escapes, dumps_str,
  dumps_sorted, dumps,
}
use cryptovalid_opencore.Entry.{ts_key, contains, without, canonical_payload, int_eq, py_eq}
use cryptovalid_opencore.Outcome.{
  tail_rewritten, unsealed_tail, tail_truncated, sha256, Options, pass, fail,
}
use cryptovalid_opencore.Checks.{
  entries_of, line_errors, insert_key, unknown_keys, schema_check, idx_check, link_check, hexdigest,
}
use cryptovalid_opencore.Verifier.{
  given, first_hash, last_hash, pq_errors, hash_with, hash_check, tip_checked, tip_branch,
  integrity, algo_used, verify_ledger,
}
use cryptovalid_opencore.Verifier.Binding.{digest_of}
use cryptovalid_opencore.SampleLedger.{ledger, AllScalars-ledger}
use cryptovalid_opencore.Instant.{
  parse_instant, ts_fields, digits_exact, literal, span_digits, fraction, offset, instant_of,
  seconds_from_day_0, minus_ℤ, int_from, days_in_month, days_before_month, int_ltb, instant_ltb,
}
use cryptovalid_opencore.Ed25519Order.{
  strict_problem, key_problem, r_problem, decode, decode_y, from_little, curve_d, minus, pow,
  pow_fuel, sqrt_minus_one, is_neutral, scalar_mul, mul_fuel, add,
}
use cryptovalid_opencore.Encoding.{fromhex, all_hex, b64_strict}
use cryptovalid_opencore.Tip.{
  Schemes, kind, kind_key, entries_key, ledger_id_key, tip_sha256_key, signature_hex_key,
  tip_payload, entries_in, ledger_id_in, tip_sha256_in, first_of, format_checks, signature_checks,
  verify_tip_signature, state_checks, check_tip,
}
use cryptovalid_opencore.Tip.Accepted.{Signed, Describes, check_tip-accepts}
use cryptovalid_opencore.Tip.Tails.{OwnAndFresh, tail_verdict}
use cryptovalid_opencore.Tip.Ledger.{tip_options, verify_with_tip, tip_seals, tip_pins}

abbrev fill : ℕ → ℕ → Bytes
fill zero b = []
fill (suc n) b = b ∷ fill n b

-- the base point of the curve, as a key and as the R of a signature
abbrev base_point : Bytes
base_point = 88 ∷ fill 31 102

-- a signature scheme of the runs: the base point and a digest of the key and the payload
abbrev toy_sign : Bytes → Bytes → Bytes
toy_sign key payload = base_point ++ toy.hash (key ++ payload)

abbrev toy_schemes : Schemes
toy_schemes = record {
  ed25519_verify = λ key payload signature. bytes_eq signature (toy_sign key payload);
  mldsa65_verify = λ key payload signature. false;
}

abbrev log_key : Text
log_key = hexdigest base_point

abbrev ts_sealed : Text
ts_sealed =
    50 ∷ 48 ∷ 50 ∷ 54 ∷ 45 ∷ 49 ∷ 48 ∷ 45 ∷ 49 ∷ 52 ∷ 84 ∷ 49 ∷ 48 ∷ 58 ∷ 48 ∷ 48 ∷ 58 ∷ 48 ∷ 48
    ∷ 46 ∷ 53 ∷ 43 ∷ 48 ∷ 50 ∷ 58 ∷ 48 ∷ 48 ∷ []

abbrev sealed_payload : Bytes
sealed_payload =
    tip_payload 2 (first_hash (entries_of ledger)) (last_hash (entries_of ledger)) ts_sealed

abbrev tip : Members
tip = member kind_key (str kind) (
    member entries_key (num (pos 2)) (
      member ledger_id_key (str (first_hash (entries_of ledger))) (
        member tip_sha256_key (str (last_hash (entries_of ledger))) (
          member ts_key (str ts_sealed) (
            member signature_hex_key (str (hexdigest (toy_sign (fromhex log_key) sealed_payload)))
              empty)))))

abbrev with_tip : Options
with_tip = record {
  algo = some sha256;
  tip_file = some (some tip);
  trusted_pubkey = log_key;
  trusted_pq_pubkey = [];
  require_tip = true;
}

abbrev since : Text
since =
    50 ∷ 48 ∷ 50 ∷ 54 ∷ 45 ∷ 49 ∷ 48 ∷ 45 ∷ 49 ∷ 52 ∷ 84 ∷ 48 ∷ 56 ∷ 58 ∷ 48 ∷ 48 ∷ 58 ∷ 48 ∷ 48
    ∷ 90 ∷ []

sealed_passes : (verify_with_tip toy toy toy_schemes with_tip since [] ledger).verdict ≡ pass
unfolding verify_ledger integrity algo_used hash_check link_check idx_check line_errors schema_check
    unknown_keys insert_key pq_errors tip_branch tip_checked check_tip verify_tip_signature first_of
    format_checks signature_checks state_checks all_hex fromhex b64_strict tip_payload parse_instant
    ts_fields digits_exact literal span_digits fraction offset instant_of seconds_from_day_0 minus_ℤ
    int_from days_in_month days_before_month int_ltb instant_ltb first_hash last_hash entries_of
    hash_with hexdigest hex_digit canonical_payload without contains get has py_eq int_eq bytes_eq
    dumps dumps_sorted sort_keys insert text_ltb dumps_str escapes escape short_escape
    unicode_escape dumps_int digits digits_fuel strict_problem key_problem r_problem decode decode_y
    from_little curve_d minus pow pow_fuel sqrt_minus_one is_neutral scalar_mul mul_fuel add
sealed_passes = refl

truncated_fails :
    (verify_with_tip toy toy toy_schemes with_tip since [] (take 1 ledger)).verdict ≡ fail
unfolding verify_ledger integrity algo_used hash_check link_check idx_check line_errors schema_check
    unknown_keys insert_key pq_errors tip_branch tip_checked check_tip verify_tip_signature first_of
    format_checks signature_checks state_checks all_hex fromhex b64_strict tip_payload parse_instant
    ts_fields digits_exact literal span_digits fraction offset instant_of seconds_from_day_0 minus_ℤ
    int_from days_in_month days_before_month int_ltb instant_ltb first_hash last_hash entries_of
    hash_with hexdigest hex_digit canonical_payload without contains get has py_eq int_eq bytes_eq
    dumps dumps_sorted sort_keys insert text_ltb dumps_str escapes escape short_escape
    unicode_escape dumps_int digits digits_fuel strict_problem key_problem r_problem decode decode_y
    from_little curve_d minus pow pow_fuel sqrt_minus_one is_neutral scalar_mul mul_fuel add
truncated_fails = refl

sealed_accepted :
    check_tip toy_schemes
      (tip_options with_tip since [])
      2
      (last_hash (entries_of ledger))
      (some (first_hash (entries_of ledger)))
      tip
    ≡ none
unfolding check_tip verify_tip_signature first_of format_checks signature_checks state_checks
    all_hex fromhex b64_strict tip_payload parse_instant ts_fields digits_exact literal span_digits
    fraction offset instant_of seconds_from_day_0 minus_ℤ int_from days_in_month days_before_month
    int_ltb instant_ltb first_hash last_hash entries_of hash_with hexdigest hex_digit
    canonical_payload without contains get has py_eq int_eq bytes_eq dumps dumps_sorted sort_keys
    insert text_ltb dumps_str escapes escape short_escape unicode_escape dumps_int digits
    digits_fuel strict_problem key_problem r_problem decode decode_y from_little curve_d minus pow
    pow_fuel sqrt_minus_one is_neutral scalar_mul mul_fuel add
sealed_accepted = refl

check_tip-accepts_example :
    Signed toy_schemes (tip_options with_tip since []) tip
    × Describes toy_schemes
        (tip_options with_tip since [])
        2
        (last_hash (entries_of ledger))
        (some (first_hash (entries_of ledger)))
        tip
check_tip-accepts_example =
    check_tip-accepts toy_schemes (tip_options with_tip since []) 2 (last_hash (entries_of ledger))
      (some (first_hash (entries_of ledger))) tip sealed_accepted

keyed : given with_tip.trusted_pubkey ≡ true
unfolding hexdigest
keyed = refl

tip_seals_example :
    (t : Members) × (◌≡◌ {A = Option Members} (some tip) (some t))
    × Signed toy_schemes (tip_options with_tip since []) t
    × (entries_in t ≡ length (entries_of ledger))
    × (tip_sha256_in t ≡ last_hash (entries_of ledger))
    × (ledger_id_in t ≡ first_hash (entries_of ledger))
tip_seals_example =
    tip_seals toy toy toy_schemes with_tip since [] ledger (some tip) keyed refl sealed_passes

tip_pins_example :
    (map canonical_payload (entries_of ledger) ≡ map canonical_payload (entries_of ledger))
    ⊎ Collision (digest_of toy toy (algo_used toy toy with_tip (entries_of ledger)))
tip_pins_example =
    tip_pins toy toy toy_schemes with_tip with_tip since since [] [] ledger ledger tip keyed keyed
      refl refl sealed_passes sealed_passes refl AllScalars-ledger AllScalars-ledger

sealed_signed : verify_tip_signature toy_schemes tip log_key [] ≡ none
unfolding verify_tip_signature first_of format_checks signature_checks state_checks all_hex fromhex
    b64_strict tip_payload parse_instant ts_fields digits_exact literal span_digits fraction offset
    instant_of seconds_from_day_0 minus_ℤ int_from days_in_month days_before_month int_ltb
    instant_ltb first_hash last_hash entries_of hash_with hexdigest hex_digit canonical_payload
    without contains get has py_eq int_eq bytes_eq dumps dumps_sorted sort_keys insert text_ltb
    dumps_str escapes escape short_escape unicode_escape dumps_int digits digits_fuel strict_problem
    key_problem r_problem decode decode_y from_little curve_d minus pow pow_fuel sqrt_minus_one
    is_neutral scalar_mul mul_fuel add
sealed_signed = refl

sealed_own :
    OwnAndFresh (tip_options with_tip since []) 1 (some (first_hash (entries_of ledger))) tip
unfolding verify_tip_signature first_of format_checks signature_checks state_checks all_hex fromhex
    b64_strict tip_payload parse_instant ts_fields digits_exact literal span_digits fraction offset
    instant_of seconds_from_day_0 minus_ℤ int_from days_in_month days_before_month int_ltb
    instant_ltb first_hash last_hash entries_of hash_with hexdigest hex_digit canonical_payload
    without contains get has py_eq int_eq bytes_eq dumps dumps_sorted sort_keys insert text_ltb
    dumps_str escapes escape short_escape unicode_escape dumps_int digits digits_fuel strict_problem
    key_problem r_problem decode decode_y from_little curve_d minus pow pow_fuel sqrt_minus_one
    is_neutral scalar_mul mul_fuel add
sealed_own = (inl refl, inr refl, inr (refl, refl))

tail_verdict_example :
    ((1 < entries_in tip)
      × (check_tip toy_schemes
            (tip_options with_tip since [])
            1
            log_key
            (some (first_hash (entries_of ledger)))
            tip
          ≡ some tail_truncated))
    ⊎ ((entries_in tip < 1)
        × (check_tip toy_schemes
              (tip_options with_tip since [])
              1
              log_key
              (some (first_hash (entries_of ledger)))
              tip
            ≡ some unsealed_tail))
    ⊎ ((1 ≡ entries_in tip)
        × (log_key ≢ tip_sha256_in tip)
        × (check_tip toy_schemes
              (tip_options with_tip since [])
              1
              log_key
              (some (first_hash (entries_of ledger)))
              tip
            ≡ some tail_rewritten))
    ⊎ ((1 ≡ entries_in tip)
        × (log_key ≡ tip_sha256_in tip)
        × (check_tip toy_schemes
              (tip_options with_tip since [])
              1
              log_key
              (some (first_hash (entries_of ledger)))
              tip
            ≡ none))
tail_verdict_example =
    tail_verdict toy_schemes (tip_options with_tip since []) 1 log_key
      (some (first_hash (entries_of ledger))) tip sealed_signed sealed_own
