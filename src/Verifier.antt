-- ===== src/Verifier.antt =====
-- verifier.py: `verify_ledger` from the decoded lines of the file to the fields of the receipt.
pub mod Hashes
pub mod Chain
pub mod Commitment
pub mod Binding
pub mod Prefixes
mod Tests
use cryptovalid_opencore.Prelude.{
  ℕ, zero, suc, ◌+◌, ◌-◌, ◌/◌, ◌%◌, Bool, true, false, not, ◌&&◌, ◌||◌, Option, none, some, List,
  [], ◌∷◌, ◌++◌, length, take, ltb, ◌==◌, if◌then◌else◌,
}
use cryptovalid_opencore.Bytes.{Bytes, bytes_eq, Digest}
use cryptovalid_opencore.Json.{
  Text, text_ltb, ℤ, pos, negsuc, Json, null, bool, num, str, arr, obj, Elements, end, element,
  Members, empty, member, get, has, hex_digit, dumps,
}
use cryptovalid_opencore.Entry.{
  idx_key, ts_key, prev_hash_key, self_hash_key, entry_keys, signature_keys, contains,
  canonical_payload, py_eq,
}
use cryptovalid_opencore.Outcome.{
  Algo, Error, HashFailure, Line, LinkFailure, Options, Outcome, Receipt, SchemaFailure, TipReport,
  TipError, TsBackwards, empty_ledger, fail, hash_mismatch, idx_mismatch, undecodable,
  missing_self_hash, not_a_json_object, not_object, object, pass, pq_key_without_log_key, refused,
  sha256, sha3_256, tip_missing, tip_refused, tip_unreadable, tip_untrusted,
}
use cryptovalid_opencore.Checks.{
  entries_of, genesis_prev, hexdigest, idx_check, insert_key, is_index, is_none, is_null,
  line_errors, link_check, schema_check, shown_idx, signed_count, ts_check, unknown_keys,
  zero_digits,
}

-- `if x` on an argument that is a text or None
abbrev pub given : Text → Bool
given [] = false
given (c ∷ t) = true

abbrev pub text_of : Json → Text
text_of (str t) = t
text_of v = []

-- the self_hash of the first and of the last entry, as `check_tip` receives them
unfoldable pub first_hash : List Members → Text
first_hash [] = genesis_prev
first_hash (e ∷ es) = text_of (get self_hash_key e (str []))

unfoldable pub last_hash : List Members → Text
last_hash [] = genesis_prev
last_hash (e ∷ []) = text_of (get self_hash_key e (str []))
last_hash (e ∷ f ∷ es) = last_hash (f ∷ es)

unfoldable pub pq_errors : Options → ℕ → List Error
pq_errors o n =
    if given o.trusted_pq_pubkey && not (given o.trusted_pubkey)
    then pq_key_without_log_key n ∷ []
    else []

-- a trusted post-quantum key implies a required tip
abbrev pub tip_needed : Options → Bool
tip_needed o = o.require_tip || given o.trusted_pq_pubkey

abbrev pub empty_errors : List Members → List Error
empty_errors [] = empty_ledger ∷ []
empty_errors (e ∷ es) = []

abbrev pub tip_answer : ℕ → Option TipError → Option TipReport × List Error
tip_answer n none = (some (record { checked = true; ok = true }), [])
tip_answer n (some why) = (some (record { checked = true; ok = false }), tip_refused n why ∷ [])

-- the argument, or what was detected, or sha256
abbrev pub chosen : Option Algo → Option Algo → Algo
chosen (some algo) detected = algo
chosen none (some algo) = algo
chosen none none = sha256

module _ (sha256_digest sha3_digest : Digest) where
  unfoldable pub hash_with : Algo → Bytes → Text
  hash_with sha256 payload = hexdigest (sha256_digest.hash payload)
  hash_with sha3_256 payload = hexdigest (sha3_digest.hash payload)

  abbrev pub hash_of_entry : Algo → Members → Text
  hash_of_entry algo e = hash_with algo (canonical_payload e)

  unfoldable pub detect_algo : List Members → Option Algo
  detect_algo [] = none
  detect_algo (e ∷ es) =
      let stored = get self_hash_key e null in
      if not (has self_hash_key e)
      then none
      else if py_eq (str (hash_of_entry sha256 e)) stored
      then some sha256
      else if py_eq (str (hash_of_entry sha3_256 e)) stored
      then some sha3_256
      else none

  -- the loop over the hashes: how many were recomputed, and the failures
  unfoldable pub hash_check : Algo → ℕ → List Members → ℕ × List HashFailure
  hash_check algo i [] = (0, [])
  hash_check algo i (e ∷ es) =
      let rest = hash_check algo (suc i) es in
      let expected = get self_hash_key e null in
      let computed = hash_of_entry algo e in
      if is_null expected
      then (rest.0, missing_self_hash (shown_idx i e) ∷ rest.1)
      else if py_eq (str computed) expected
      then (suc rest.0, rest.1)
      else (rest.0, hash_mismatch (shown_idx i e) expected computed ∷ rest.1)

  unfoldable pub algo_used : Options → List Members → Algo
  algo_used o es = chosen o.algo (detect_algo es)

module _ (sha256_digest sha3_digest : Digest)
    (check_tip : ℕ → Text → Text → Members → Option TipError) where
  -- the branch of a trusted log key: what `load_tip` and `check_tip` give
  unfoldable pub tip_checked : List Members → Option Members → Option TipReport × List Error
  tip_checked es none =
      (some (record { checked = true; ok = false }), tip_unreadable (length es) ∷ [])
  tip_checked es (some tip) =
      tip_answer (length es) (check_tip (length es) (last_hash es) (first_hash es) tip)

  -- the tip in the receipt, and the errors it adds
  unfoldable pub tip_branch :
      Options → List Members → Option (Option Members) → Option TipReport × List Error
  tip_branch o es none = (none, if tip_needed o then tip_missing (length es) ∷ [] else [])
  tip_branch o es (some doc) = if given o.trusted_pubkey then tip_checked es doc else (
    some (record { checked = false; ok = false }),
    if tip_needed o then tip_untrusted (length es) ∷ [] else [],
  )

  -- `chain_integrity`: what the loops found and the errors that were added after them
  unfoldable pub integrity : Options → Algo → List Line → Bool
  integrity o algo lines =
      let es = entries_of lines in
      is_none (hash_check sha256_digest sha3_digest algo 0 es).1
      && is_none (link_check (str genesis_prev) 0 es).1
      && is_none (idx_check 0 es)
      && is_none (line_errors 0 lines)
      && is_none (schema_check 0 es)
      && is_none (empty_errors es)
      && is_none (pq_errors o (length es))
      && is_none (tip_branch o es o.tip_file).1

  unfoldable pub verify_ledger : Options → List Line → Receipt
  verify_ledger o lines =
      let es = entries_of lines in
      let algo = algo_used sha256_digest sha3_digest o es in
      let hashes = hash_check sha256_digest sha3_digest algo 0 es in
      let links = link_check (str genesis_prev) 0 es in
      let idx_errors = idx_check 0 es in
      let backwards = ts_check null 0 es in
      let schema = schema_check 0 es in
      let tip = tip_branch o es o.tip_file in
      let errors =
        line_errors 0 lines ++ idx_errors ++ empty_errors es ++ pq_errors o (length es) ++ tip.1 in
      let chain = integrity o algo lines in
      record {
        algorithm_used = algo;
        entries_count = length es;
        hash_recomputed_ok = hashes.0;
        hash_recompute_passed = is_none hashes.1;
        hash_failures = take 10 hashes.1;
        link_ok = links.0;
        link_passed = is_none links.1;
        link_failures = take 10 links.1;
        idx_monotonic = is_none idx_errors;
        ts_monotonic = is_none backwards;
        ts_backwards = take 10 backwards;
        parse_errors = take 10 errors;
        schema_failures = take 10 schema;
        chain_integrity = chain;
        tip = tip.0;
        verdict = if chain then pass else fail;
        signatures_not_checked = signed_count es;
      }
