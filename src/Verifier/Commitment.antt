-- ===== src/Verifier/Commitment.antt =====
-- verifier.py: equal canonical payloads, and the items of the entries they come from.
use cryptovalid_opencore.Prelude.{
  ℕ, ◌/◌, ◌%◌, ◌≡◌, refl, sym, ap, ap₂, ◌∙◌, arith, false, inl, inr, List, [], ◌∷◌, ltb, Bool-cases,
}
use cryptovalid_opencore.Bytes.{Bytes, bytes_eq, bytes_eq_iff}
use cryptovalid_opencore.Json.{
  Text, Json, null, obj, Members, empty, member, get, hex_digit, sort_keys,
}
use cryptovalid_opencore.Json.Roundtrip.{Scalars, ScalarMembers}
use cryptovalid_opencore.Json.Sorting.{get-sort_members, dumps-inject}
use cryptovalid_opencore.Entry.{attestation_keys, contains, without, canonical_payload}
use cryptovalid_opencore.Checks.{hexdigest}

hex_digit-inject : (a b : ℕ) → hex_digit a ≡ hex_digit b → a ≡ b
unfolding hex_digit
hex_digit-inject a b e = elim (Bool-cases (ltb a 10)) [
  | inl p ↦ elim (Bool-cases (ltb b 10)) [
    | inl q ↦ omega (arith, rw (p, q) at e)
    | inr q ↦ absurd (ground (arith, rw (p, q) at e))
  ]
  | inr p ↦ elim (Bool-cases (ltb b 10)) [
    | inl q ↦ absurd (ground (arith, rw (p, q) at e))
    | inr q ↦ omega (arith, rw (p, q) at e)
  ]
]

abbrev head_or : Text → ℕ
head_or [] = 0
head_or (c ∷ t) = c

abbrev tail_of : Text → Text
tail_of [] = []
tail_of (c ∷ t) = t

pub hexdigest-inject : (a b : Bytes) → hexdigest a ≡ hexdigest b → a ≡ b
unfolding hexdigest
hexdigest-inject [] [] e = refl
hexdigest-inject [] (b ∷ bs) e = absurd (cc)
hexdigest-inject (a ∷ as') [] e = absurd (cc)
hexdigest-inject (a ∷ as') (b ∷ bs) e =
    let high = hex_digit-inject (a / 16) (b / 16) (ap head_or e) in
    let low = hex_digit-inject (a % 16) (b % 16) (ap (λ t. head_or (tail_of t)) e) in
    ap₂ (λ x xs. x ∷ xs) (omega arith) (hexdigest-inject as' bs (ap (λ t. tail_of (tail_of t)) e))

get-without :
    (keys : List Text) (key : Text) (e : Members) (default : Json)
    → contains keys key ≡ false
    → get key (without keys e) default ≡ get key e default
unfolding get without
get-without keys key empty default h = refl
get-without keys key (member k v e) default h = elim (Bool-cases (bytes_eq k key)) [
  | inl same ↦
      let here : contains keys k ≡ false = rw ((bytes_eq_iff k key).0 same) h in rw (here, same)
  | inr other ↦ elim (Bool-cases (contains keys k)) [
    | inl gone ↦ rw (gone, other) (get-without keys key e default h)
    | inr kept ↦ rw (kept, other) (get-without keys key e default h)
  ]
]

ScalarMembers-without :
    (keys : List Text) (e : Members) → ScalarMembers e → ScalarMembers (without keys e)
unfolding without ScalarMembers
ScalarMembers-without keys empty s = tt
ScalarMembers-without keys (member k v e) (sk, sv, s) = elim (Bool-cases (contains keys k)) [
  | inl gone ↦ rw gone (ScalarMembers-without keys e s)
  | inr kept ↦ rw kept (sk, sv, ScalarMembers-without keys e s)
]

abbrev members_of : Json → Members
members_of (obj ms) = ms
members_of v = empty

-- Two entries whose strings hold no surrogates and whose canonical payloads are the same bytes hold
-- the same value, up to the order of keys inside it, under every key that is not an attestation.
pub payload-commits :
    (e f : Members) (key : Text)
    → ScalarMembers e
    → ScalarMembers f
    → contains attestation_keys key ≡ false
    → canonical_payload e ≡ canonical_payload f
    → sort_keys (get key e null) ≡ sort_keys (get key f null)
unfolding canonical_payload Scalars sort_keys
payload-commits e f key se sf h same =
    let keys = attestation_keys in
    let sorted = ap members_of (
      dumps-inject (obj (without keys e)) (obj (without keys f)) (ScalarMembers-without keys e se)
        (ScalarMembers-without keys f sf) same) in
    ap sort_keys (sym (get-without keys key e null h))
    ∙ (sym (get-sort_members key (without keys e) null)
        ∙ (ap (λ ms. get key ms null) sorted
            ∙ (get-sort_members key (without keys f) null
                ∙ ap sort_keys (get-without keys key f null h))))
