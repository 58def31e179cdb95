-- ===== src/Tip.antt =====
-- cryptovalid_tip.py: the check of a signed chain tip, `verify_tip_signature` and `check_tip`. A tip is the
-- dict that load_tip returns; the answer is what is found wrong, or `none`. The signature schemes are the
-- fields of `Schemes`; an ML-DSA library is there.
pub mod Accepted
pub mod Tails
pub mod Ledger
mod Tests
use cryptovalid_opencore.Prelude.{
  ℕ, zero, suc, ◌+◌, ◌-◌, ◌*◌, ◌/◌, ◌%◌, Bool, true, false, not, ◌&&◌, ◌||◌, Option, none, some,
  List, [], ◌∷◌, ◌++◌, length, ltb, leb, ◌==◌, if◌then◌else◌,
}
use cryptovalid_opencore.Bytes.{Bytes, bytes_eq}
use cryptovalid_opencore.Ed25519Order.{Problem, strict_problem}
use cryptovalid_opencore.Json.{
  Text, ℤ, pos, Json, null, num, str, obj, Members, empty, member, get, has, dumps,
}
use cryptovalid_opencore.Entry.{ts_key, py_eq}
use cryptovalid_opencore.Outcome.{
  TipError, tip_kind, tip_missing_field, tip_entries, tip_strings, tip_ids, tip_signature_format,
  tip_pq_signature_format, tip_pq_key_format, tip_ts, tip_no_trusted_key, bad_trusted_key,
  other_log_key, not_strict, bad_signature, pq_missing, other_pq_key, bad_trusted_pq_key,
  bad_pq_signature, ledger_id_mismatch, tip_of_another_ledger, bad_not_before, tip_rolled_back,
  tail_truncated, unsealed_tail, tail_rewritten,
}
use cryptovalid_opencore.Checks.{is_null}
use cryptovalid_opencore.Verifier.{given, text_of}
use cryptovalid_opencore.Encoding.{is_hex, fromhex, b64_strict}
use cryptovalid_opencore.Instant.{parse_instant, instant_ltb}

abbrev kind_key : Text
kind_key = 107 ∷ 105 ∷ 110 ∷ 100 ∷ []

abbrev entries_key : Text
entries_key = 101 ∷ 110 ∷ 116 ∷ 114 ∷ 105 ∷ 101 ∷ 115 ∷ []

abbrev ledger_id_key : Text
ledger_id_key = 108 ∷ 101 ∷ 100 ∷ 103 ∷ 101 ∷ 114 ∷ 95 ∷ 105 ∷ 100 ∷ []

abbrev tip_sha256_key : Text
tip_sha256_key = 116 ∷ 105 ∷ 112 ∷ 95 ∷ 115 ∷ 104 ∷ 97 ∷ 50 ∷ 53 ∷ 54 ∷ []

abbrev signature_hex_key : Text
signature_hex_key = 115 ∷ 105 ∷ 103 ∷ 110 ∷ 97 ∷ 116 ∷ 117 ∷ 114 ∷ 101 ∷ 95 ∷ 104 ∷ 101 ∷ 120 ∷ []

abbrev signature_pq_hex_key : Text
signature_pq_hex_key =
    115 ∷ 105 ∷ 103 ∷ 110 ∷ 97 ∷ 116 ∷ 117 ∷ 114 ∷ 101 ∷ 95 ∷ 112 ∷ 113 ∷ 95 ∷ 104 ∷ 101 ∷ 120 ∷ []

abbrev log_pubkey_hex_key : Text
log_pubkey_hex_key =
    108 ∷ 111 ∷ 103 ∷ 95 ∷ 112 ∷ 117 ∷ 98 ∷ 107 ∷ 101 ∷ 121 ∷ 95 ∷ 104 ∷ 101 ∷ 120 ∷ []

abbrev log_pq_pubkey_b64_key : Text
log_pq_pubkey_b64_key =
    108 ∷ 111 ∷ 103 ∷ 95 ∷ 112 ∷ 113 ∷ 95 ∷ 112 ∷ 117 ∷ 98 ∷ 107 ∷ 101 ∷ 121 ∷ 95 ∷ 98 ∷ 54 ∷ 52
    ∷ []

abbrev pub kind : Text
kind =
    99 ∷ 114 ∷ 121 ∷ 112 ∷ 116 ∷ 111 ∷ 118 ∷ 97 ∷ 108 ∷ 105 ∷ 100 ∷ 95 ∷ 116 ∷ 105 ∷ 112 ∷ 47 ∷ 49
    ∷ []

pub record Schemes : Type 0 where
  -- key, payload and signature
  pub ed25519_verify : Bytes → Bytes → Bytes → Bool
  pub mldsa65_verify : Bytes → Bytes → Bytes → Bool

abbrev pub absent : {A : Type 0} → Option A → Bool
absent none = true
absent (some a) = false

abbrev is_str : Json → Bool
is_str (str t) = true
is_str v = false

abbrev is_natural : Json → Bool
is_natural (num (pos n)) = true
is_natural v = false

abbrev natural_of : Json → ℕ
natural_of (num (pos n)) = n
natural_of v = 0

abbrev pub entries_in : Members → ℕ
entries_in tip = natural_of (get entries_key tip null)

abbrev pub ledger_id_in : Members → Text
ledger_id_in tip = text_of (get ledger_id_key tip null)

abbrev pub tip_sha256_in : Members → Text
tip_sha256_in tip = text_of (get tip_sha256_key tip null)

abbrev pub ts_in : Members → Text
ts_in tip = text_of (get ts_key tip null)

abbrev pub signature_in : Members → Text
signature_in tip = text_of (get signature_hex_key tip null)

abbrev pub pq_signature_in : Members → Text
pq_signature_in tip = text_of (get signature_pq_hex_key tip null)

-- `tip_payload`
unfoldable pub tip_payload : ℕ → Text → Text → Text → Bytes
tip_payload entries ledger_id tip_sha256 ts = dumps (
    obj (
      member entries_key (num (pos entries)) (
        member kind_key (str kind) (
          member ledger_id_key (str ledger_id)
            (member tip_sha256_key (str tip_sha256) (member ts_key (str ts) empty))))))

abbrev pub payload_of : Members → Bytes
payload_of tip = tip_payload (entries_in tip) (ledger_id_in tip) (tip_sha256_in tip) (ts_in tip)

-- returns in a row: the first whose condition holds
unfoldable pub first_of : List (Bool × TipError) → Option TipError
first_of [] = none
first_of (c ∷ checks) = if c.0 then some c.1 else first_of checks

-- `v in (None, "", key)`
abbrev none_or : Json → Text → Bool
none_or v key = is_null v || py_eq v (str []) || py_eq v (str key)

abbrev hybrid : Members → Bool
hybrid tip = has signature_pq_hex_key tip || has log_pq_pubkey_b64_key tip

abbrev well_sized : Json → Bool
well_sized (str key) = not (absent (b64_strict key 1952))
well_sized v = false

-- up to the verification of the Ed25519 signature
unfoldable pub format_checks : Members → Text → List (Bool × TipError)
format_checks tip trusted =
    (not (py_eq (get kind_key tip null) (str kind)), tip_kind)
    ∷ (
      not (
          has entries_key tip
          && has ledger_id_key tip
          && has tip_sha256_key tip
          && has ts_key tip
          && has signature_hex_key tip),
      tip_missing_field,
    )
    ∷ (not (is_natural (get entries_key tip null)), tip_entries)
    ∷ (
      not (
          is_str (get ledger_id_key tip null)
          && is_str (get tip_sha256_key tip null)
          && is_str (get ts_key tip null)
          && is_str (get signature_hex_key tip null)),
      tip_strings,
    )
    ∷ (not (is_hex 64 (ledger_id_in tip) && is_hex 64 (tip_sha256_in tip)), tip_ids)
    ∷ (not (is_hex 128 (signature_in tip)), tip_signature_format)
    ∷ (
      hybrid tip
          && not (is_str (get signature_pq_hex_key tip null) && is_hex 6618 (pq_signature_in tip)),
      tip_pq_signature_format,
    )
    ∷ (hybrid tip && not (well_sized (get log_pq_pubkey_b64_key tip null)), tip_pq_key_format)
    ∷ (absent (parse_instant (ts_in tip)), tip_ts)
    ∷ (not (given trusted), tip_no_trusted_key)
    ∷ (not (is_hex 64 trusted), bad_trusted_key)
    ∷ (not (none_or (get log_pubkey_hex_key tip null) trusted), other_log_key)
    ∷ []

abbrev or_else : Option TipError → Option TipError → Option TipError
or_else none next = next
or_else (some why) next = some why

abbrev strict_error : Option Problem → Option TipError
strict_error none = none
strict_error (some why) = some (not_strict why)

-- the arguments of `check_tip` that the relying party gives; an absent one is the empty text
pub record TipOptions : Type 0 where
  pub trusted : Text
  pub trusted_pq : Text
  pub not_before : Text
  pub expect_ledger_id : Text

abbrev bytes_or_empty : Option Bytes → Bytes
bytes_or_empty none = []
bytes_or_empty (some raw) = raw

abbrev pub before : Option (ℤ × ℕ) → Option (ℤ × ℕ) → Bool
before (some a) (some b) = instant_ltb a b
before a b = false

-- where a first self_hash is given and there is an entry, the ledger id must be it
abbrev pub of_another : Option Text → ℕ → Text → Bool
of_another none n id = false
of_another (some first) n id = ltb 0 n && not (bytes_eq id first)

module _ (c : Schemes) where
  unfoldable pub signature_checks : Members → Text → Text → List (Bool × TipError)
  signature_checks tip trusted trusted_pq =
      (
        not (c.ed25519_verify (fromhex trusted) (payload_of tip) (fromhex (signature_in tip))),
        bad_signature,
      )
      ∷ (given trusted_pq && not (given (pq_signature_in tip)), pq_missing)
      ∷ (
        given trusted_pq && not (none_or (get log_pq_pubkey_b64_key tip null) trusted_pq),
        other_pq_key,
      )
      ∷ (given trusted_pq && absent (b64_strict trusted_pq 1952), bad_trusted_pq_key)
      ∷ (
        given trusted_pq
            && not (
                c.mldsa65_verify (bytes_or_empty (b64_strict trusted_pq 1952)) (payload_of tip)
                  (fromhex (pq_signature_in tip))),
        bad_pq_signature,
      )
      ∷ []

  unfoldable pub verify_tip_signature : Members → Text → Text → Option TipError
  verify_tip_signature tip trusted trusted_pq = or_else (first_of (format_checks tip trusted)) (
      or_else (strict_error (strict_problem (fromhex trusted) (fromhex (signature_in tip))))
        (first_of (signature_checks tip trusted trusted_pq)))

  unfoldable pub state_checks :
      TipOptions → ℕ → Text → Option Text → Members → List (Bool × TipError)
  state_checks o n last first tip =
      (
        given o.expect_ledger_id && not (bytes_eq (ledger_id_in tip) o.expect_ledger_id),
        ledger_id_mismatch,
      )
      ∷ (of_another first n (ledger_id_in tip), tip_of_another_ledger)
      ∷ (given o.not_before && absent (parse_instant o.not_before), bad_not_before)
      ∷ (
        given o.not_before && before (parse_instant (ts_in tip)) (parse_instant o.not_before),
        tip_rolled_back,
      )
      ∷ (ltb n (entries_in tip), tail_truncated)
      ∷ (ltb (entries_in tip) n, unsealed_tail)
      ∷ (not (bytes_eq last (tip_sha256_in tip)), tail_rewritten)
      ∷ []

  unfoldable pub check_tip : TipOptions → ℕ → Text → Option Text → Members → Option TipError
  check_tip o n last first tip =
      or_else (verify_tip_signature tip o.trusted o.trusted_pq)
        (first_of (state_checks o n last first tip))
