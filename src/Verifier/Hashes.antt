-- ===== src/Verifier/Hashes.antt =====
-- verifier.py: one entry in the loops of `verify_ledger`.
use cryptovalid_opencore.Prelude.{
  ℕ, suc, ◌≡◌, ◌↔◌, refl, sym, ap, ◌∙◌, true, false, List, [], ◌∷◌, ==_iff, inl, inr, Bool-cases,
}
use cryptovalid_opencore.Bytes.{bytes_eq_iff, Digest}
use cryptovalid_opencore.Json.{
  Text, text_ltb, pos, negsuc, Json, null, bool, num, str, arr, obj, Members, empty, member, get,
}
use cryptovalid_opencore.Entry.{idx_key, prev_hash_key, self_hash_key, entry_keys, contains, py_eq}
use cryptovalid_opencore.Outcome.{Algo}
use cryptovalid_opencore.Checks.{
  is_none, is_null, is_index, insert_key, unknown_keys, schema_check, idx_check, link_check,
}
use cryptovalid_opencore.Verifier.{hash_of_entry, hash_check}

abbrev pub None : {A : Type 0} → List A → Type 0
None xs = is_none xs ≡ true

py_eq-str_left : (a : Text) (v : Json) → (py_eq (str a) v ≡ true) ↔ (v ≡ str a)
unfolding py_eq
py_eq-str_left a null = (λ e. cc, λ e. cc)
py_eq-str_left a (bool b) = (λ e. cc, λ e. cc)
py_eq-str_left a (num n) = (λ e. cc, λ e. cc)
py_eq-str_left a (str t) =
    (λ e. ap str (sym ((bytes_eq_iff a t).0 e)), λ e. (bytes_eq_iff a t).1 (cc))
py_eq-str_left a (arr es) = (λ e. cc, λ e. cc)
py_eq-str_left a (obj ms) = (λ e. cc, λ e. cc)

py_eq-str_right : (a : Text) (v : Json) → (py_eq v (str a) ≡ true) ↔ (v ≡ str a)
unfolding py_eq
py_eq-str_right a null = (λ e. cc, λ e. cc)
py_eq-str_right a (bool b) = (λ e. cc, λ e. cc)
py_eq-str_right a (num n) = (λ e. cc, λ e. cc)
py_eq-str_right a (str t) = (λ e. ap str ((bytes_eq_iff t a).0 e), λ e. (bytes_eq_iff t a).1 (cc))
py_eq-str_right a (arr es) = (λ e. cc, λ e. cc)
py_eq-str_right a (obj ms) = (λ e. cc, λ e. cc)

is_index_iff : (i : ℕ) (v : Json) → (is_index i v ≡ true) ↔ (v ≡ num (pos i))
is_index_iff i null = (λ e. cc, λ e. cc)
is_index_iff i (bool b) = (λ e. cc, λ e. cc)
is_index_iff i (num (pos n)) =
    (λ e. ap (λ k. num (pos k)) ((==_iff n i).0 e), λ e. (==_iff n i).1 (cc))
is_index_iff i (num (negsuc n)) = (λ e. cc, λ e. cc)
is_index_iff i (str t) = (λ e. cc, λ e. cc)
is_index_iff i (arr es) = (λ e. cc, λ e. cc)
is_index_iff i (obj ms) = (λ e. cc, λ e. cc)

insert_key_some : (k : Text) (keys : List Text) → is_none (insert_key k keys) ≡ false
unfolding insert_key
insert_key_some k [] = refl
insert_key_some k (l ∷ keys) = elim (Bool-cases (text_ltb l k)) [ inl e ↦ rw e | inr e ↦ rw e ]

-- every key of the entry is one of ENTRY_KEYS
abbrev pub Closed : Members → Type 0
Closed empty = Unit
Closed (member k v rest) = (contains entry_keys k ≡ true) × Closed rest

unknown_keys_iff : (e : Members) → None (unknown_keys e) ↔ Closed e
unfolding unknown_keys
unknown_keys_iff empty = (λ e. tt, λ e. refl)
unknown_keys_iff (member k v rest) = elim (Bool-cases (contains entry_keys k)) [
  | inl known ↦ (
    λ n. (known, (unknown_keys_iff rest).0 (rw known at n)),
    λ (c, r). rw known ((unknown_keys_iff rest).1 r),
  )
  | inr new ↦ (λ n. cc (rw (new, insert_key_some k (unknown_keys rest)) at n), λ (c, r). cc)
]

pub schema_check-cons :
    (i : ℕ) (e : Members) (es : List Members)
    → None (schema_check i (e ∷ es)) ↔ (Closed e × None (schema_check (suc i) es))
unfolding schema_check
schema_check-cons i e es = elim (Bool-cases (is_none (unknown_keys e))) [
  | inl all ↦ (λ n. ((unknown_keys_iff e).0 all, rw all at n), λ (c, r). rw all r)
  | inr some_new ↦
      (λ n. cc (rw some_new at n), λ (c, r). cc (sym some_new ∙ (unknown_keys_iff e).1 c))
]

pub idx_check-cons :
    (i : ℕ) (e : Members) (es : List Members)
    → None (idx_check i (e ∷ es))
      ↔ ((get idx_key e null ≡ num (pos i)) × None (idx_check (suc i) es))
unfolding idx_check
idx_check-cons i e es = elim (Bool-cases (is_index i (get idx_key e null))) [
  | inl right ↦ (λ n. ((is_index_iff i _).0 right, rw right at n), λ (c, r). rw right r)
  | inr wrong ↦ (λ n. cc (rw wrong at n), λ (c, r). cc (sym wrong ∙ (is_index_iff i _).1 c))
]

pub link_check-cons :
    (prev : Text) (i : ℕ) (e : Members) (es : List Members)
    → None (link_check (str prev) i (e ∷ es)).1 ↔ (
        (get prev_hash_key e null ≡ str prev)
        × None (link_check (get self_hash_key e null) (suc i) es).1)
unfolding link_check
link_check-cons prev i e es = elim (Bool-cases (py_eq (get prev_hash_key e null) (str prev))) [
  | inl linked ↦ (λ n. ((py_eq-str_right prev _).0 linked, rw linked at n), λ (c, r). rw linked r)
  | inr broken ↦
      (λ n. cc (rw broken at n), λ (c, r). cc (sym broken ∙ (py_eq-str_right prev _).1 c))
]

module _ (D S : Digest) where
  abbrev pub SelfHashed : Algo → Members → Type 0
  SelfHashed algo e = get self_hash_key e null ≡ str (hash_of_entry D S algo e)

  pub hash_check-cons :
      (algo : Algo) (i : ℕ) (e : Members) (es : List Members)
      → None (hash_check D S algo i (e ∷ es)).1
        ↔ (SelfHashed algo e × None (hash_check D S algo (suc i) es).1)
  unfolding hash_check
  hash_check-cons algo i e es = elim (Bool-cases (is_null (get self_hash_key e null))) [
    | inl missing ↦ (λ n. cc (rw missing at n), λ (c, r). cc (rw c at missing))
    | inr present ↦
        elim (Bool-cases (py_eq (str (hash_of_entry D S algo e)) (get self_hash_key e null))) [
          | inl same ↦ (
            λ n. ((py_eq-str_left _ _).0 same, rw (present, same) at n),
            λ (c, r). rw (present, same) r,
          )
          | inr differs ↦ (
            λ n. cc (rw (present, differs) at n),
            λ (c, r). cc (sym differs ∙ (py_eq-str_left _ _).1 c),
          )
        ]
  ]
