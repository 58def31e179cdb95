-- ===== src/Json/Numbers.antt =====
-- The reader on the numbers that `json.dumps` writes.
use cryptovalid_opencore.Prelude.{
  ℕ, zero, suc, ◌+◌, ◌*◌, ◌/◌, ◌%◌, ◌<◌, ◌≡◌, refl, ap, ◌∙◌, arith, true, false, ◌&&◌, inl, inr, [],
  ◌∷◌, ◌++◌, append_assoc, ltb, leb, Bool-cases,
}
use cryptovalid_opencore.Json.{Text, digits_fuel, digits}
use cryptovalid_opencore.Json.Reader.{is_digit, read_digits}

-- no digit comes first
abbrev pub Stops : Text → Type 0
Stops [] = Unit
Stops (c ∷ t) = is_digit c ≡ false

pub read_digits-stop : (acc : ℕ) (r : Text) → Stops r → read_digits acc r ≡ (acc, r)
unfolding read_digits
read_digits-stop acc [] h = refl
read_digits-stop acc (c ∷ t) h = rw h

read_digits-digit :
    (acc d : ℕ) (r : Text) → d < 10 → read_digits acc ((48 + d) ∷ r) ≡ read_digits (acc * 10 + d) r
unfolding read_digits is_digit
read_digits-digit acc d r h =
    let inside : (leb 48 (48 + d) && ltb (48 + d) 58) ≡ true = ground arith in
    rw inside (ap (λ n. read_digits n r) (omega arith))

read_digits_fuel :
    (fuel n : ℕ) (r : Text) → n < fuel → read_digits 0 (digits_fuel fuel n ++ r) ≡ read_digits n r
unfolding digits_fuel
read_digits_fuel zero n r h = absurd (omega arith)
read_digits_fuel (suc fuel) n r h = elim (Bool-cases (ltb n 10)) [
  | inl last ↦
      rw last (read_digits-digit 0 n r (ground arith) ∙ ap (λ k. read_digits k r) (omega arith))
  | inr more ↦
      let smaller : n / 10 < fuel = ground arith in
      rw
        (
          more,
          append_assoc (digits_fuel fuel (n / 10)) ((48 + n % 10) ∷ []) r,
          read_digits_fuel fuel (n / 10) ((48 + n % 10) ∷ r) smaller,
          read_digits-digit (n / 10) (n % 10) r (omega arith),
        )
        (ap (λ k. read_digits k r) (omega arith))
]

pub read_digits-digits : (n : ℕ) (r : Text) → Stops r → read_digits 0 (digits n ++ r) ≡ (n, r)
unfolding digits
read_digits-digits n r h = read_digits_fuel (suc n) n r (omega arith) ∙ read_digits-stop n r h
