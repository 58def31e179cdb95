-- ===== src/SampleLedger.antt =====
-- A ledger of two entries for the runs, hashed with the digest of Samples.
use cryptovalid_opencore.Prelude.{
  ℕ, ltb, ◌&&◌, ◌≡◌, refl, arith, Bool, true, false, inl, List, [], ◌∷◌,
}
use cryptovalid_opencore.Bytes.{bytes_eq}
use cryptovalid_opencore.Samples.{toy}
use cryptovalid_opencore.Json.{
  Text, text_ltb, pos, null, bool, num, str, arr, obj, Members, empty, member, insert, sort_keys,
  digits_fuel, digits, dumps_int, hex_digit, unicode_escape, short_escape, escape, escapes,
  dumps_str, dumps_sorted, dumps,
}
use cryptovalid_opencore.Json.Roundtrip.{ScalarMembers}
use cryptovalid_opencore.Json.Escapes.{ScalarText}
use cryptovalid_opencore.Entry.{
  idx_key, ts_key, data_key, prev_hash_key, self_hash_key, contains, without, canonical_payload,
}
use cryptovalid_opencore.Outcome.{sha256, Line, object}
use cryptovalid_opencore.Checks.{entries_of, genesis_prev, hexdigest}
use cryptovalid_opencore.Verifier.{hash_with, hash_of_entry}
use cryptovalid_opencore.Verifier.Binding.{AllScalars}

abbrev pub body : ℕ → Text → Text → Members
body i content prev = member idx_key (num (pos i)) (
    member ts_key (str (50 ∷ 48 ∷ 50 ∷ 54 ∷ []))
      (member data_key (str content) (member prev_hash_key (str prev) empty)))

abbrev pub sealed : Members → Members
sealed e = member self_hash_key (str (hash_of_entry toy toy sha256 e)) e

abbrev pub first_entry : Members
first_entry = sealed (body 0 (97 ∷ 34 ∷ 98 ∷ []) genesis_prev)

abbrev pub second_entry : Members
second_entry = sealed (body 1 (122 ∷ []) (hash_of_entry toy toy sha256 first_entry))

abbrev pub ledger : List Line
ledger = object first_entry ∷ object second_entry ∷ []

-- strings below the surrogates only
abbrev pub small_text : Text → Bool
small_text [] = true
small_text (c ∷ t) = ltb c 55296 && small_text t

abbrev pub small : Members → Bool
small empty = true
small (member k (str t) ms) = small_text k && small_text t && small ms
small (member k (num n) ms) = small_text k && small ms
small (member k v ms) = false

pub ScalarText-small : (t : Text) → small_text t ≡ true → ScalarText t
ScalarText-small [] h = tt
ScalarText-small (c ∷ t) h = (inl (ground arith), ScalarText-small t (ground arith))

pub ScalarMembers-small : (ms : Members) → small ms ≡ true → ScalarMembers ms
unfolding ScalarMembers
ScalarMembers-small empty h = tt
ScalarMembers-small (member k (str t) ms) h = (
  ScalarText-small k (ground arith),
  ScalarText-small t (ground arith),
  ScalarMembers-small ms (ground arith),
)
ScalarMembers-small (member k (num n) ms) h =
    (ScalarText-small k (ground arith), tt, ScalarMembers-small ms (ground arith))
ScalarMembers-small (member k null ms) h = cc
ScalarMembers-small (member k (bool b) ms) h = cc
ScalarMembers-small (member k (arr es) ms) h = cc
ScalarMembers-small (member k (obj os) ms) h = cc

pub second-Scalars : ScalarMembers second_entry
unfolding hash_with hexdigest hex_digit canonical_payload without contains bytes_eq dumps
    dumps_sorted sort_keys insert text_ltb dumps_str escapes escape short_escape unicode_escape
    dumps_int digits digits_fuel entries_of
second-Scalars = ScalarMembers-small second_entry refl

pub AllScalars-ledger : AllScalars (entries_of ledger)
unfolding hash_with hexdigest hex_digit canonical_payload without contains bytes_eq dumps
    dumps_sorted sort_keys insert text_ltb dumps_str escapes escape short_escape unicode_escape
    dumps_int digits digits_fuel entries_of
AllScalars-ledger = (ScalarMembers-small first_entry refl, (second-Scalars, tt))
