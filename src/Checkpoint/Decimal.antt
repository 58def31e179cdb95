-- ===== src/Checkpoint/Decimal.antt =====
-- The decimal text of a size.
use cryptovalid_opencore.Prelude.{
  ℕ, zero, suc, ◌+◌, ◌-◌, ◌*◌, ◌/◌, ◌%◌, ◌^◌, ◌<◌, ◌≤◌, ◌≡◌, refl, sym, ap, ◌∙◌, inl, inr, Bool,
  true, false, ◌&&◌, ◌||◌, Bool-cases, [], ◌∷◌, ◌++◌, append_assoc, append-nil, length,
  length-append, ltb, leb, arith,
}
use cryptovalid_opencore.Bytes.{bytes_eq, bytes_eq_iff}
use cryptovalid_opencore.Json.{Text, digits_fuel, digits}
use cryptovalid_opencore.Json.Reader.{is_digit, read_digits}
use cryptovalid_opencore.Json.Numbers.{read_digits-digits}
use cryptovalid_opencore.Texts.{all_digits}
use cryptovalid_opencore.Checkpoint.{value_of, is_decimal, starts_nonzero, max_size}

digits_fuel-enough : (f g n : ℕ) → n < f → n < g → digits_fuel f n ≡ digits_fuel g n
unfolding digits_fuel
digits_fuel-enough zero g n h k = absurd (omega arith)
digits_fuel-enough (suc f) zero n h k = absurd (omega arith)
digits_fuel-enough (suc f) (suc g) n h k = elim (Bool-cases (ltb n 10)) [
  | inl e ↦ rw e refl
  | inr e ↦
      let small : n / 10 < f = ground arith in
      let small' : n / 10 < g = ground arith in
      rw (e, digits_fuel-enough f g (n / 10) small small') refl
]

-- a digit written after a positive number
digits-push :
    (acc c : ℕ) → 0 < acc → 48 ≤ c → c ≤ 57 → digits (acc * 10 + (c - 48)) ≡ digits acc ++ c ∷ []
unfolding digits digits_fuel
digits-push acc c h k l =
    let big : ltb (acc * 10 + (c - 48)) 10 ≡ false = ground arith in
    let q : (acc * 10 + (c - 48)) / 10 ≡ acc = omega arith in
    let r : 48 + (acc * 10 + (c - 48)) % 10 ≡ c = omega arith in
    rw
      (
        big,
        q,
        r,
        digits_fuel-enough (acc * 10 + (c - 48)) (suc acc) acc (omega arith) (omega arith),
      )
      refl

digits-read_digits :
    (acc : ℕ) (s : Text)
    → 0 < acc
    → all_digits s ≡ true
    → digits (read_digits acc s).0 ≡ digits acc ++ s
unfolding read_digits is_digit all_digits
digits-read_digits acc [] h a = sym (append-nil (digits acc))
digits-read_digits acc (c ∷ s) h a =
    let low : 48 ≤ c = ground (arith, a) in
    let high : c ≤ 57 = ground (arith, a) in
    let rest : all_digits s ≡ true = ground (arith, a) in
    let digit : (leb 48 c && ltb c 58) ≡ true = ground arith in
    rw
      (
        digit,
        digits-read_digits (acc * 10 + (c - 48)) s (omega arith) rest,
        digits-push acc c h low high,
      )
      (append_assoc (digits acc) (c ∷ []) s)

one_digit : (c : ℕ) → 49 ≤ c → c ≤ 57 → digits (c - 48) ≡ c ∷ []
unfolding digits digits_fuel
one_digit c h k =
    let e : ltb (c - 48) 10 ≡ true = ground arith in
    let r : 48 + (c - 48) ≡ c = omega arith in rw (e, r) refl

nonzero-value_of :
    (s : Text) → starts_nonzero s ≡ true → all_digits s ≡ true → digits (value_of s) ≡ s
unfolding read_digits is_digit all_digits
nonzero-value_of [] h a = cc h
nonzero-value_of (c ∷ s) h a =
    let low : 49 ≤ c = ground (arith, h) in
    let high : c ≤ 57 = ground (arith, h) in
    let rest : all_digits s ≡ true = ground (arith, a) in
    let digit : (leb 48 c && ltb c 58) ≡ true = ground arith in
    let read : read_digits 0 (c ∷ s) ≡ read_digits (0 * 10 + (c - 48)) s = rw digit refl in
    let head : digits (0 * 10 + (c - 48)) ≡ c ∷ [] =
      ap digits (omega arith) ∙ one_digit c low high in
    ap (λ (r : ℕ × Text). digits r.0) read
    ∙ digits-read_digits (0 * 10 + (c - 48)) s (omega arith) rest
    ∙ ap (λ t. t ++ s) head

-- a decimal without leading zeroes is the text of its value
pub digits-value_of : (s : Text) → is_decimal s ≡ true → digits (value_of s) ≡ s
unfolding digits digits_fuel read_digits is_digit
digits-value_of s h = elim (Bool-cases (bytes_eq s (48 ∷ []))) [
  | inl z ↦ rw ((bytes_eq_iff _ _).0 z) refl
  | inr z ↦
      let first : starts_nonzero s ≡ true = ground (arith, h, z) in
      let rest : all_digits s ≡ true = ground (arith, h, z) in nonzero-value_of s first rest
]

pub value_of-digits : (n : ℕ) → value_of (digits n) ≡ n
value_of-digits n =
    let e = read_digits-digits n [] tt in ap (λ (p : ℕ × Text). p.0) (rw append-nil at e)

all_digits-append : (a b : Text) → all_digits (a ++ b) ≡ (all_digits a && all_digits b)
unfolding all_digits
all_digits-append [] b = refl
all_digits-append (c ∷ a) b = ground (arith, all_digits-append a b)

all_digits-digits_fuel : (f n : ℕ) → all_digits (digits_fuel f n) ≡ true
unfolding digits_fuel all_digits
all_digits-digits_fuel zero n = refl
all_digits-digits_fuel (suc f) n = elim (Bool-cases (ltb n 10)) [
  | inl e ↦ rw e (ground arith)
  | inr e ↦
      rw
        (
          e,
          all_digits-append (digits_fuel f (n / 10)) ((48 + n % 10) ∷ []),
          all_digits-digits_fuel f (n / 10),
        )
        (ground arith)
]

length-digits_fuel : (k f n : ℕ) → n < 10 ^ suc k → length (digits_fuel f n) ≤ suc k
unfolding digits_fuel
length-digits_fuel k zero n h = omega arith
length-digits_fuel zero (suc f) n h =
    let small : n < 10 = h in let e : ltb n 10 ≡ true = ground arith in rw e (omega arith)
length-digits_fuel (suc k) (suc f) n h = elim (Bool-cases (ltb n 10)) [
  | inl e ↦ rw e (omega arith)
  | inr e ↦
      let step : 10 ^ suc (suc k) ≡ 10 * 10 ^ suc k = omega arith in
      let rest = length-digits_fuel k f (n / 10) (omega (arith, h, step)) in
      rw e (omega (arith, length-append (digits_fuel f (n / 10)) ((48 + n % 10) ∷ []), rest))
]

starts_nonzero-append : (a b : Text) → starts_nonzero a ≡ true → starts_nonzero (a ++ b) ≡ true
starts_nonzero-append [] b h = cc h
starts_nonzero-append (c ∷ a) b h = h

starts_nonzero-digits_fuel : (f n : ℕ) → 0 < n → n < f → starts_nonzero (digits_fuel f n) ≡ true
unfolding digits_fuel
starts_nonzero-digits_fuel zero n h k = absurd (omega arith)
starts_nonzero-digits_fuel (suc f) n h k = elim (Bool-cases (ltb n 10)) [
  | inl e ↦ rw e (ground arith)
  | inr e ↦
      let pos : 0 < n / 10 = ground arith in
      let less : n / 10 < f = ground arith in
      rw e (
        starts_nonzero-append (digits_fuel f (n / 10)) _
          (starts_nonzero-digits_fuel f (n / 10) pos less))
]

-- a size is written as such a decimal
pub is_decimal-digits : (n : ℕ) → n ≤ max_size → is_decimal (digits n) ≡ true
unfolding digits digits_fuel bytes_eq
is_decimal-digits zero h = refl
is_decimal-digits (suc n) h =
    let a = starts_nonzero-digits_fuel (suc (suc n)) (suc n) (omega arith) (omega arith) in
    let b = all_digits-digits_fuel (suc (suc n)) (suc n) in
    let c : length (digits (suc n)) ≤ 20 =
      length-digits_fuel 19 (suc (suc n)) (suc n) (omega arith) in
    let d : leb (length (digits (suc n))) 20 ≡ true = ground arith in
    combine (bytes_eq (digits (suc n)) (48 ∷ [])) a b d
  where
    combine :
        (z : Bool) {p q r : Bool} → p ≡ true → q ≡ true → r ≡ true → (z || (p && q && r)) ≡ true
    combine z e f g = rw (e, f, g) (ground arith)

pub all_digits-digits : (n : ℕ) → all_digits (digits n) ≡ true
unfolding digits
all_digits-digits n = all_digits-digits_fuel (suc n) n
