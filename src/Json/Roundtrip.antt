-- ===== src/Json/Roundtrip.antt =====
-- The reader on whole values whose strings hold no surrogates.
use cryptovalid_opencore.Prelude.{
  ℕ, zero, suc, ◌+◌, ◌/◌, ◌%◌, ◌≤◌, ◌<◌, ◌≡◌, refl, ap, ◌∙◌, arith, Bool, true, false, inl, inr,
  none, some, [], ◌∷◌, ◌++◌, append-nil, append_assoc, length, ltb, Bool-cases,
}
use cryptovalid_opencore.Json.{
  Text, pos, negsuc, Json, null, bool, num, str, arr, obj, Elements, end, element, Members, empty,
  member, digits, digits_fuel, dumps_int, dumps_str, escapes, dumps_sorted, dumps_elements,
  dumps_members,
}
use cryptovalid_opencore.Json.Reader.{is_digit, read_key, read_value, read_elements, read_members}
use cryptovalid_opencore.Json.Escapes.{ScalarText, read_text-escapes}
use cryptovalid_opencore.Json.Numbers.{Stops, read_digits-digits}

-- the fuel that is enough for a value
unfoldable mutual
  pub weight : Json → ℕ
  weight (str t) = 2 + length t
  weight (arr es) = suc (weight_elements es)
  weight (obj ms) = suc (weight_members ms)
  weight v = 1

  pub weight_elements : Elements → ℕ
  weight_elements end = 2
  weight_elements (element v es) = suc (weight v + weight_elements es)

  pub weight_members : Members → ℕ
  weight_members empty = 2
  weight_members (member k v ms) = suc (suc (length k) + weight v + weight_members ms)

-- no string of the value has a surrogate
unfoldable mutual
  pub Scalars : Json → Type 0
  Scalars (str t) = ScalarText t
  Scalars (arr es) = ScalarElements es
  Scalars (obj ms) = ScalarMembers ms
  Scalars v = Unit

  pub ScalarElements : Elements → Type 0
  ScalarElements end = Unit
  ScalarElements (element v es) = Scalars v × ScalarElements es

  pub ScalarMembers : Members → Type 0
  ScalarMembers empty = Unit
  ScalarMembers (member k v ms) = ScalarText k × Scalars v × ScalarMembers ms

abbrev separator : Bool → Text
separator true = []
separator false = 44 ∷ []

abbrev ReadsValue : ℕ → Type 0
ReadsValue f =
    (v : Json) (r : Text)
    → weight v ≤ f
    → Scalars v
    → Stops r
    → read_value f (dumps_sorted v ++ r) ≡ some (v, r)

abbrev ReadsElements : ℕ → Type 0
ReadsElements f =
    (first : Bool) (es : Elements) (r : Text)
    → weight_elements es ≤ f
    → ScalarElements es
    → read_elements f first (dumps_elements (separator first) es ++ r) ≡ some (es, r)

abbrev ReadsMembers : ℕ → Type 0
ReadsMembers f =
    (first : Bool) (ms : Members) (r : Text)
    → weight_members ms ≤ f
    → ScalarMembers ms
    → read_members f first (dumps_members (separator first) ms ++ r) ≡ some (ms, r)

-- the text starts with a digit
abbrev DigitFirst : Text → Type 0
DigitFirst text = (c : ℕ) × (t : Text) × (text ≡ c ∷ t) × (is_digit c ≡ true)

DigitFirst-digits : (fuel n : ℕ) (r : Text) → n < fuel → DigitFirst (digits_fuel fuel n ++ r)
unfolding digits_fuel is_digit
DigitFirst-digits zero n r h = absurd (omega arith)
DigitFirst-digits (suc fuel) n r h = elim (Bool-cases (ltb n 10)) [
  | inl last ↦ (48 + n, r, rw last, ground arith)
  | inr more ↦
      let smaller : n / 10 < fuel = ground arith in
      let (c, t, same, digit) = DigitFirst-digits fuel (n / 10) ((48 + n % 10) ∷ r) smaller in
      (c, t, rw (more, append_assoc (digits_fuel fuel (n / 10)) ((48 + n % 10) ∷ []) r) same, digit)
]

read_natural :
    (f n : ℕ) (r : Text) → Stops r → read_value (suc f) (digits n ++ r) ≡ some (num (pos n), r)
unfolding read_value digits
read_natural f n r h =
    let (c, t, same, digit) = DigitFirst-digits (suc n) n r (omega arith) in
    let whole = read_digits-digits n r h in rw same (rw digit (rw (rw same at whole)))

ReadsValue-next : (f : ℕ) → ReadsElements f → ReadsMembers f → ReadsValue (suc f)
unfolding read_value dumps_sorted dumps_int dumps_str weight Scalars is_digit
ReadsValue-next f elements members null r w s h = refl
ReadsValue-next f elements members (bool true) r w s h = refl
ReadsValue-next f elements members (bool false) r w s h = refl
ReadsValue-next f elements members (num (pos n)) r w s h = read_natural f n r h
ReadsValue-next f elements members (num (negsuc n)) r w s h =
    rw (read_digits-digits (suc n) r h) (ap (λ k. some (num (negsuc k), r)) (omega arith))
ReadsValue-next f elements members (str t) r w s h =
    rw (append_assoc (escapes t) (34 ∷ []) r, read_text-escapes f t r (omega arith) s)
ReadsValue-next f elements members (arr es) r w s h = rw (elements true es r (omega arith) s)
ReadsValue-next f elements members (obj ms) r w s h = rw (members true ms r (omega arith) s)

read_value-close : (f : ℕ) (r : Text) → read_value f (93 ∷ r) ≡ none
unfolding read_value is_digit
read_value-close zero r = refl
read_value-close (suc f) r = refl

Stops-elements : (es : Elements) (r : Text) → Stops (dumps_elements (44 ∷ []) es ++ r)
unfolding dumps_elements is_digit
Stops-elements end r = refl
Stops-elements (element v es) r = refl

Stops-members : (ms : Members) (r : Text) → Stops (dumps_members (44 ∷ []) ms ++ r)
unfolding dumps_members is_digit
Stops-members empty r = refl
Stops-members (member k v ms) r = refl

ReadsElements-next : (f : ℕ) → ReadsValue f → ReadsElements f → ReadsElements (suc f)
unfolding read_elements dumps_elements weight_elements ScalarElements
ReadsElements-next f values elements true end r w s = rw (read_value-close f r)
ReadsElements-next f values elements false end r w s = refl
ReadsElements-next f values elements true (element v es) r w (sv, ses) = rw (
  append_assoc (dumps_sorted v) (dumps_elements (44 ∷ []) es) r,
  values v (dumps_elements (44 ∷ []) es ++ r) (omega arith) sv (Stops-elements es r),
  elements false es r (omega arith) ses,
)
ReadsElements-next f values elements false (element v es) r w (sv, ses) = rw (
  append_assoc (dumps_sorted v) (dumps_elements (44 ∷ []) es) r,
  values v (dumps_elements (44 ∷ []) es ++ r) (omega arith) sv (Stops-elements es r),
  elements false es r (omega arith) ses,
)

read_key-dumps_str :
    (f : ℕ) (k y : Text) → length k < f → ScalarText k → read_key f (dumps_str k ++ y) ≡ some (k, y)
unfolding read_key dumps_str
read_key-dumps_str f k y h s =
    rw (append_assoc (escapes k) (34 ∷ []) y) (read_text-escapes f k y h s)

-- an item of a dict and what follows it
item_text :
    (k : Text) (v : Json) (rest r : Text)
    → (dumps_str k ++ (58 ∷ (dumps_sorted v ++ rest))) ++ r
      ≡ dumps_str k ++ (58 ∷ (dumps_sorted v ++ (rest ++ r)))
item_text k v rest r =
    append_assoc (dumps_str k) (58 ∷ (dumps_sorted v ++ rest)) r
    ∙ ap (λ t. dumps_str k ++ (58 ∷ t)) (append_assoc (dumps_sorted v) rest r)

ReadsMembers-next : (f : ℕ) → ReadsValue f → ReadsMembers f → ReadsMembers (suc f)
unfolding read_members dumps_members weight_members ScalarMembers
ReadsMembers-next f values members true empty r w s = unfold read_key in refl
ReadsMembers-next f values members false empty r w s = refl
ReadsMembers-next f values members true (member k v ms) r w (sk, sv, sms) =
    let rest = dumps_members (44 ∷ []) ms ++ r in
    rw (
      item_text k v (dumps_members (44 ∷ []) ms) r,
      read_key-dumps_str f k (58 ∷ (dumps_sorted v ++ rest)) (omega arith) sk,
      values v rest (omega arith) sv (Stops-members ms r),
      members false ms r (omega arith) sms,
    )
ReadsMembers-next f values members false (member k v ms) r w (sk, sv, sms) =
    let rest = dumps_members (44 ∷ []) ms ++ r in
    rw (
      item_text k v (dumps_members (44 ∷ []) ms) r,
      read_key-dumps_str f k (58 ∷ (dumps_sorted v ++ rest)) (omega arith) sk,
      values v rest (omega arith) sv (Stops-members ms r),
      members false ms r (omega arith) sms,
    )

weight_positive : (v : Json) → 1 ≤ weight v
unfolding weight
weight_positive null = omega arith
weight_positive (bool b) = omega arith
weight_positive (num n) = omega arith
weight_positive (str t) = omega arith
weight_positive (arr es) = omega arith
weight_positive (obj ms) = omega arith

weight_elements_positive : (es : Elements) → 1 ≤ weight_elements es
unfolding weight_elements
weight_elements_positive end = omega arith
weight_elements_positive (element v es) = omega arith

weight_members_positive : (ms : Members) → 1 ≤ weight_members ms
unfolding weight_members
weight_members_positive empty = omega arith
weight_members_positive (member k v ms) = omega arith

reads : (f : ℕ) → ReadsValue f × ReadsElements f × ReadsMembers f
reads zero = (
  λ v r w s h. absurd (omega (arith, weight_positive v)),
  λ first es r w s. absurd (omega (arith, weight_elements_positive es)),
  λ first ms r w s. absurd (omega (arith, weight_members_positive ms)),
)
reads (suc f) =
    let (values, elements, members) = reads f in
    (
      ReadsValue-next f elements members,
      ReadsElements-next f values elements,
      ReadsMembers-next f values members,
    )

pub read_value-dumps_sorted :
    (f : ℕ) (v : Json) → weight v ≤ f → Scalars v → read_value f (dumps_sorted v) ≡ some (v, [])
read_value-dumps_sorted f v w s = rw (append-nil (dumps_sorted v)) at ((reads f).0 v [] w s tt)

pub dumps_sorted-inject :
    (v w : Json) → Scalars v → Scalars w → dumps_sorted v ≡ dumps_sorted w → v ≡ w
dumps_sorted-inject v w sv sw e =
    let f = weight v + weight w in
    let first = read_value-dumps_sorted f v (omega arith) sv in
    let second = read_value-dumps_sorted f w (omega arith) sw in cc
