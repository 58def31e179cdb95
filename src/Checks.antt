-- ===== src/Checks.antt =====
-- The loops of verifier.py's `verify_ledger` over the lines and over the entries: schema, idx, links,
-- timestamps and the count of signed entries. Python's None is the JSON null, as `get` without a default
-- returns it.
use cryptovalid_opencore.Prelude.{
  ℕ, zero, suc, ◌/◌, ◌%◌, Bool, true, false, ◌||◌, none, some, List, [], ◌∷◌, ◌==◌, if◌then◌else◌,
}
use cryptovalid_opencore.Bytes.{Bytes}
use cryptovalid_opencore.Json.{
  Text, text_ltb, pos, Json, null, num, str, Members, empty, member, get, has, hex_digit,
}
use cryptovalid_opencore.Entry.{
  idx_key, ts_key, prev_hash_key, self_hash_key, entry_keys, signature_keys, contains, py_eq,
}
use cryptovalid_opencore.Outcome.{
  Error, Line, LinkFailure, SchemaFailure, TsBackwards, idx_mismatch, undecodable,
  not_a_json_object, not_object, object, refused,
}

abbrev pub is_null : Json → Bool
is_null null = true
is_null v = false

-- `isinstance(idx, bool) or idx != i`, negated
abbrev pub is_index : ℕ → Json → Bool
is_index i (num (pos n)) = n == i
is_index i v = false

abbrev pub is_none : {A : Type 0} → List A → Bool
is_none [] = true
is_none (x ∷ xs) = false

-- the loop over the lines: the entries, and an error for each line that is none
unfoldable pub entries_of : List Line → List Members
entries_of [] = []
entries_of (object e ∷ lines) = e ∷ entries_of lines
entries_of (not_object ∷ lines) = entries_of lines
entries_of (refused why ∷ lines) = entries_of lines

unfoldable pub line_errors : ℕ → List Line → List Error
line_errors i [] = []
line_errors i (object e ∷ lines) = line_errors (suc i) lines
line_errors i (not_object ∷ lines) = not_a_json_object i ∷ line_errors (suc i) lines
line_errors i (refused why ∷ lines) = undecodable i why ∷ line_errors (suc i) lines

-- `e.get("idx", i)`, which the failures report
abbrev pub shown_idx : ℕ → Members → Json
shown_idx i e = get idx_key e (num (pos i))

unfoldable pub insert_key : Text → List Text → List Text
insert_key k [] = k ∷ []
insert_key k (l ∷ keys) = if text_ltb l k then l ∷ insert_key k keys else k ∷ l ∷ keys

-- `sorted(k for k in e if k not in ENTRY_KEYS)`
unfoldable pub unknown_keys : Members → List Text
unknown_keys empty = []
unknown_keys (member k v rest) =
    if contains entry_keys k then unknown_keys rest else insert_key k (unknown_keys rest)

unfoldable pub schema_check : ℕ → List Members → List SchemaFailure
schema_check i [] = []
schema_check i (e ∷ es) =
    let unknown = unknown_keys e in
    let rest = schema_check (suc i) es in
    if is_none unknown then rest else record { idx = shown_idx i e; unknown = unknown } ∷ rest

-- every `idx` error, in the order of the entries
unfoldable pub idx_check : ℕ → List Members → List Error
idx_check i [] = []
idx_check i (e ∷ es) =
    let rest = idx_check (suc i) es in
    if is_index i (get idx_key e null)
    then rest
    else idx_mismatch i (if has idx_key e then some (get idx_key e null) else none) ∷ rest

-- the loop over the links: how many hold, and the failures; `expected_prev` is the predecessor's
-- self_hash
unfoldable pub link_check : Json → ℕ → List Members → ℕ × List LinkFailure
link_check expected_prev i [] = (0, [])
link_check expected_prev i (e ∷ es) =
    let rest = link_check (get self_hash_key e null) (suc i) es in
    let actual_prev = get prev_hash_key e null in
    if py_eq actual_prev expected_prev then (suc rest.0, rest.1) else (
      rest.0,
      record { idx = shown_idx i e; expected_prev = expected_prev; actual_prev = actual_prev }
          ∷ rest.1,
    )

abbrev ts_step : ℕ → Members → Json → Json → List TsBackwards → List TsBackwards
ts_step i e (str a) (str b) rest =
    if text_ltb b a then record { idx = shown_idx i e; prev_ts = a; ts = b } ∷ rest else rest
ts_step i e a b rest = rest

-- the loop over the neighbours: `before` is the ts of the entry before the first of the list
unfoldable pub ts_check : Json → ℕ → List Members → List TsBackwards
ts_check before i [] = []
ts_check before i (e ∷ es) =
    ts_step i e before (get ts_key e null) (ts_check (get ts_key e null) (suc i) es)

abbrev has_any : List Text → Members → Bool
has_any [] e = false
has_any (k ∷ keys) e = has k e || has_any keys e

unfoldable pub signed_count : List Members → ℕ
signed_count [] = 0
signed_count (e ∷ es) =
    let rest = signed_count es in if has_any signature_keys e then suc rest else rest

abbrev pub zero_digits : ℕ → Text
zero_digits zero = []
zero_digits (suc n) = 48 ∷ zero_digits n

abbrev pub genesis_prev : Text
genesis_prev = zero_digits 64

unfoldable pub hexdigest : Bytes → Text
hexdigest [] = []
hexdigest (b ∷ bs) = hex_digit (b / 16) ∷ hex_digit (b % 16) ∷ hexdigest bs
