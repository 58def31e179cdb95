-- ===== src/Json/Sorting.antt =====
-- Sorted keys: lookups, and values that `json.dumps` writes alike.
use cryptovalid_opencore.Prelude.{
  ◌≡◌, refl, arith, false, inl, inr, [], ◌∷◌, Bool-cases, if◌then◌else◌,
}
use cryptovalid_opencore.Bytes.{bytes_eq, bytes_eq_iff}
use cryptovalid_opencore.Json.{
  Text, text_ltb, Json, null, bool, num, str, arr, obj, Elements, end, element, Members, empty,
  member, get, insert, sort_keys, sort_elements, sort_members, dumps,
}
use cryptovalid_opencore.Json.Escapes.{ScalarText}
use cryptovalid_opencore.Json.Roundtrip.{
  Scalars, ScalarElements, ScalarMembers, dumps_sorted-inject,
}

text_ltb_irreflexive : (t : Text) → text_ltb t t ≡ false
unfolding text_ltb
text_ltb_irreflexive [] = refl
text_ltb_irreflexive (c ∷ t) = ground (arith, text_ltb_irreflexive t)

-- the inserted key stays in front of the items that it is equal to
get-insert :
    (key k : Text) (v : Json) (ms : Members) (default : Json)
    → get key (insert k v ms) default ≡ (if bytes_eq k key then v else get key ms default)
unfolding insert get
get-insert key k v empty default = refl
get-insert key k v (member l w ms) default = elim (Bool-cases (text_ltb l k)) [
  | inr here ↦ rw here
  | inl later ↦ elim (Bool-cases (bytes_eq l key)) [
    | inr other ↦ rw (later, other) (get-insert key k v ms default)
    | inl same ↦ elim (Bool-cases (bytes_eq k key)) [
      | inr differs ↦ rw (later, same, differs)
      | inl equal ↦
          let first = (bytes_eq_iff l key).0 same in
          let second = (bytes_eq_iff k key).0 equal in
          absurd (cc (rw (first, second, text_ltb_irreflexive key) at later))
    ]
  ]
]

pub get-sort_members :
    (key : Text) (ms : Members) (default : Json)
    → get key (sort_members ms) (sort_keys default) ≡ sort_keys (get key ms default)
unfolding sort_keys get
get-sort_members key empty default = refl
get-sort_members key (member k v ms) default = elim (Bool-cases (bytes_eq k key)) [
  | inl same ↦ rw (get-insert key k (sort_keys v) (sort_members ms) (sort_keys default), same)
  | inr other ↦
      rw (get-insert key k (sort_keys v) (sort_members ms) (sort_keys default), other)
        (get-sort_members key ms default)
]

ScalarMembers-insert :
    (k : Text) (v : Json) (ms : Members)
    → ScalarText k
    → Scalars v
    → ScalarMembers ms
    → ScalarMembers (insert k v ms)
unfolding insert ScalarMembers
ScalarMembers-insert k v empty sk sv s = (sk, sv, tt)
ScalarMembers-insert k v (member l w ms) sk sv (sl, sw, s) = elim (Bool-cases (text_ltb l k)) [
  | inl later ↦ rw later (sl, sw, ScalarMembers-insert k v ms sk sv s)
  | inr here ↦ rw here (sk, sv, (sl, sw, s))
]

mutual
  unfolding sort_keys Scalars

  pub Scalars-sort_keys : (v : Json) → Scalars v → Scalars (sort_keys v)
  Scalars-sort_keys null s = tt
  Scalars-sort_keys (bool b) s = tt
  Scalars-sort_keys (num n) s = tt
  Scalars-sort_keys (str t) s = s
  Scalars-sort_keys (arr es) s = ScalarElements-sort es s
  Scalars-sort_keys (obj ms) s = ScalarMembers-sort ms s

  pub ScalarElements-sort : (es : Elements) → ScalarElements es → ScalarElements (sort_elements es)
  ScalarElements-sort end s = tt
  ScalarElements-sort (element v es) (sv, s) = (Scalars-sort_keys v sv, ScalarElements-sort es s)

  pub ScalarMembers-sort : (ms : Members) → ScalarMembers ms → ScalarMembers (sort_members ms)
  ScalarMembers-sort empty s = tt
  ScalarMembers-sort (member k v ms) (sk, sv, s) =
      ScalarMembers-insert k (sort_keys v) (sort_members ms) sk (Scalars-sort_keys v sv)
        (ScalarMembers-sort ms s)

-- Two values whose strings hold no surrogates and that `json.dumps` with sorted keys writes alike are
-- the same value once their keys are sorted at every level.
pub dumps-inject :
    (v w : Json) → Scalars v → Scalars w → dumps v ≡ dumps w → sort_keys v ≡ sort_keys w
unfolding dumps
dumps-inject v w sv sw e =
    dumps_sorted-inject (sort_keys v) (sort_keys w) (Scalars-sort_keys v sv)
      (Scalars-sort_keys w sw) e
