-- ===== src/Verifier/Tests.antt =====
-- Runs of `verify_ledger` on a ledger of two entries, and the properties at concrete inputs.
use cryptovalid_opencore.Prelude.{
  ℕ, ◌≡◌, ◌↔◌, refl, arith, false, ◌⊎◌, inl, inr, none, some, [], ◌∷◌, map, take, Option,
}
use cryptovalid_opencore.Bytes.{bytes_eq, Collision}
use cryptovalid_opencore.Samples.{toy}
use cryptovalid_opencore.Json.{
  Text, text_ltb, negsuc, null, num, str, obj, Members, empty, member, get, has, insert, sort_keys,
  digits_fuel, digits, dumps_int, hex_digit, unicode_escape, short_escape, escape, escapes,
  dumps_str, dumps_sorted, dumps,
}
use cryptovalid_opencore.Json.Roundtrip.{Scalars, ScalarMembers}
use cryptovalid_opencore.Json.Sorting.{dumps-inject}
use cryptovalid_opencore.Entry.{
  idx_key, ts_key, prev_hash_key, attestation_keys, signature_key, contains, without,
  canonical_payload, int_eq, py_eq,
}
use cryptovalid_opencore.Outcome.{tip_kind, sha256, object, refused, Options, TipError, pass, fail}
use cryptovalid_opencore.Checks.{
  entries_of, line_errors, insert_key, unknown_keys, schema_check, idx_check, link_check, hexdigest,
}
use cryptovalid_opencore.Verifier.{
  pq_errors, hash_with, hash_check, tip_checked, tip_branch, integrity, algo_used, verify_ledger,
}
use cryptovalid_opencore.Verifier.Chain.{Accepted, pass_iff}
use cryptovalid_opencore.Verifier.Commitment.{payload-commits}
use cryptovalid_opencore.Verifier.Binding.{digest_of, last_hash-commits}
use cryptovalid_opencore.Verifier.Prefixes.{prefix_passes}
use cryptovalid_opencore.SampleLedger.{
  first_entry, second_entry, ledger, ScalarText-small, ScalarMembers-small, second-Scalars,
  AllScalars-ledger,
}

-- a `check_tip` that refuses every tip
abbrev no_tip : ℕ → Text → Text → Members → Option TipError
no_tip n last first tip = some tip_kind

abbrev plain : Options
plain = record {
  algo = some sha256;
  tip_file = none;
  trusted_pubkey = [];
  trusted_pq_pubkey = [];
  require_tip = false;
}

passes : (verify_ledger toy toy no_tip plain ledger).verdict ≡ pass
unfolding verify_ledger integrity algo_used hash_check link_check idx_check line_errors schema_check
    unknown_keys insert_key pq_errors tip_branch tip_checked entries_of hash_with hexdigest
    canonical_payload without contains get has py_eq int_eq bytes_eq dumps dumps_sorted sort_keys
    insert text_ltb dumps_str escapes escape short_escape unicode_escape hex_digit dumps_int digits
    digits_fuel
passes = refl

refuses_decode : (verify_ledger toy toy no_tip plain (refused [] ∷ ledger)).verdict ≡ fail
unfolding verify_ledger integrity algo_used hash_check link_check idx_check line_errors schema_check
    unknown_keys insert_key pq_errors tip_branch tip_checked entries_of hash_with hexdigest
    canonical_payload without contains get has py_eq int_eq bytes_eq dumps dumps_sorted sort_keys
    insert text_ltb dumps_str escapes escape short_escape unicode_escape hex_digit dumps_int digits
    digits_fuel
refuses_decode = refl

refuses_order :
    (verify_ledger toy toy no_tip plain (object second_entry ∷ object first_entry ∷ [])).verdict
    ≡ fail
unfolding verify_ledger integrity algo_used hash_check link_check idx_check line_errors schema_check
    unknown_keys insert_key pq_errors tip_branch tip_checked entries_of hash_with hexdigest
    canonical_payload without contains get has py_eq int_eq bytes_eq dumps dumps_sorted sort_keys
    insert text_ltb dumps_str escapes escape short_escape unicode_escape hex_digit dumps_int digits
    digits_fuel
refuses_order = refl

pass_iff_example :
    ((verify_ledger toy toy no_tip plain ledger).verdict ≡ pass)
    ↔ Accepted toy toy no_tip plain ledger
pass_iff_example = pass_iff toy toy no_tip plain ledger

prefix_passes_example : (verify_ledger toy toy no_tip plain (take 1 ledger)).verdict ≡ pass
prefix_passes_example = prefix_passes toy toy no_tip plain ledger 1 refl passes (omega arith)

last_hash-commits_example :
    (map canonical_payload (entries_of ledger) ≡ map canonical_payload (entries_of ledger))
    ⊎ Collision (digest_of toy toy (algo_used toy toy plain (entries_of ledger)))
last_hash-commits_example =
    last_hash-commits toy toy no_tip no_tip plain plain ledger ledger passes passes refl
      AllScalars-ledger AllScalars-ledger refl

-- an attestation that is added later
abbrev signed_entry : Members
signed_entry = member signature_key (str (48 ∷ 49 ∷ [])) second_entry

signed-Scalars : ScalarMembers signed_entry
unfolding hash_with hexdigest hex_digit canonical_payload without contains bytes_eq dumps
    dumps_sorted sort_keys insert text_ltb dumps_str escapes escape short_escape unicode_escape
    dumps_int digits digits_fuel
signed-Scalars = ScalarMembers-small signed_entry refl

same_payload : canonical_payload second_entry ≡ canonical_payload signed_entry
unfolding canonical_payload without contains bytes_eq dumps dumps_sorted sort_keys insert text_ltb
    dumps_str escapes escape short_escape unicode_escape hex_digit dumps_int digits digits_fuel
same_payload = refl

not_attested : contains attestation_keys prev_hash_key ≡ false
unfolding contains bytes_eq
not_attested = refl

payload-commits_example :
    sort_keys (get prev_hash_key second_entry null)
    ≡ sort_keys (get prev_hash_key signed_entry null)
payload-commits_example =
    payload-commits second_entry signed_entry prev_hash_key second-Scalars signed-Scalars
      not_attested same_payload

abbrev two_keys : Members
two_keys = member ts_key (num (negsuc 6)) (member idx_key (str (233 ∷ 34 ∷ 128512 ∷ [])) empty)

abbrev swapped_keys : Members
swapped_keys = member idx_key (str (233 ∷ 34 ∷ 128512 ∷ [])) (member ts_key (num (negsuc 6)) empty)

two_keys-Scalars : Scalars (obj two_keys)
unfolding Scalars
two_keys-Scalars = (
  ScalarText-small ts_key refl,
  tt,
  (
    ScalarText-small idx_key refl,
    (inl (omega arith), (inl (omega arith), (inr (omega arith, omega arith), tt))),
    tt,
  ),
)

swapped_keys-Scalars : Scalars (obj swapped_keys)
unfolding Scalars
swapped_keys-Scalars = (
  ScalarText-small idx_key refl,
  (inl (omega arith), (inl (omega arith), (inr (omega arith, omega arith), tt))),
  (ScalarText-small ts_key refl, tt, tt),
)

same_text : dumps (obj two_keys) ≡ dumps (obj swapped_keys)
unfolding canonical_payload without contains bytes_eq dumps dumps_sorted sort_keys insert text_ltb
    dumps_str escapes escape short_escape unicode_escape hex_digit dumps_int digits digits_fuel
same_text = refl

dumps-inject_example : sort_keys (obj two_keys) ≡ sort_keys (obj swapped_keys)
dumps-inject_example =
    dumps-inject (obj two_keys) (obj swapped_keys) two_keys-Scalars swapped_keys-Scalars same_text
