-- ===== src/Json/Escapes.antt =====
-- The reader on the strings that `json.dumps` escapes.
use cryptovalid_opencore.Prelude.{
  ℕ, zero, suc, ◌+◌, ◌-◌, ◌/◌, ◌%◌, ◌≤◌, ◌<◌, ◌≡◌, refl, ap, arith, true, false, ◌&&◌, ◌⊎◌, inl,
  inr, none, some, [], ◌∷◌, ◌++◌, length, append_assoc, ltb, leb, ◌==◌, ==_iff, Bool-cases,
}
use cryptovalid_opencore.Json.{
  Text, hex_digit, unicode_escape, short_escape, escape_with, escape, escapes,
}
use cryptovalid_opencore.Json.Reader.{
  hex_value, short_value, four, read_low, read_unit, read_escape, read_char, read_text,
}

-- a code point that is not a surrogate
abbrev pub IsScalar : ℕ → Type 0
IsScalar c = (c < 55296) ⊎ ((57343 < c) × (c < 1114112))

abbrev pub ScalarText : Text → Type 0
ScalarText [] = Unit
ScalarText (c ∷ t) = IsScalar c × ScalarText t

hex_value-hex_digit : (d : ℕ) → d < 16 → hex_value (hex_digit d) ≡ d
unfolding hex_value hex_digit
hex_value-hex_digit d h = elim (Bool-cases (ltb d 10)) [
  | inl small ↦ let low : leb 97 (48 + d) ≡ false = ground arith in rw (small, low) (omega arith)
  | inr large ↦ let high : leb 97 (87 + d) ≡ true = ground arith in rw (large, high) (omega arith)
]

-- the four digits of a 16-bit unit
four-digits :
    (n : ℕ)
    → n < 65536
    → four
        (hex_digit (n / 4096 % 16))
        (hex_digit (n / 256 % 16))
        (hex_digit (n / 16 % 16))
        (hex_digit (n % 16))
      ≡ n
four-digits n h =
    rw
      (
        hex_value-hex_digit (n / 4096 % 16) (omega arith),
        hex_value-hex_digit (n / 256 % 16) (omega arith),
        hex_value-hex_digit (n / 16 % 16) (omega arith),
        hex_value-hex_digit (n % 16) (omega arith),
      )
      (omega arith)

read_char-unit :
    (n : ℕ) (r : Text)
    → n < 65536
    → (n < 55296) ⊎ (56320 ≤ n)
    → read_char (unicode_escape n ++ r) ≡ some (n, r)
unfolding read_char read_escape read_unit unicode_escape
read_char-unit n r h out =
    let whole = four-digits n h in
    let no_surrogate : (leb 55296 n && ltb n 56320) ≡ false = ground arith in
    rw (whole, no_surrogate)

read_char-pair :
    (c : ℕ) (r : Text)
    → 65536 ≤ c
    → c < 1114112
    → read_char (
        (unicode_escape (55296 + (c - 65536) / 1024 % 1024)
          ++ unicode_escape (56320 + (c - 65536) % 1024))
        ++ r)
      ≡ some (c, r)
unfolding read_char read_escape read_unit read_low unicode_escape
read_char-pair c r h k =
    let high = 55296 + (c - 65536) / 1024 % 1024 in
    let low = 56320 + (c - 65536) % 1024 in
    let whole = four-digits (55296 + (c - 65536) / 1024 % 1024) (omega arith) in
    let whole' = four-digits (56320 + (c - 65536) % 1024) (omega arith) in
    let surrogate : (leb 55296 (55296 + (c - 65536) / 1024 % 1024)
          && ltb (55296 + (c - 65536) / 1024 % 1024) 56320)
        ≡ true =
      ground arith in
    rw (whole, surrogate, whole') (ap (λ t. some (t, r)) (omega arith))

-- a character without a short escape
read_char-plain :
    (c : ℕ) (r : Text)
    → IsScalar c
    → (c == 34) ≡ false
    → (c == 92) ≡ false
    → read_char (escape_with c none ++ r) ≡ some (c, r)
read_char-plain c r scalar a b = elim (Bool-cases (leb 32 c && leb c 126)) [
  | inl printable ↦ unfold read_char in rw (printable, a, b)
  | inr other ↦ elim (Bool-cases (ltb c 65536)) [
    | inl unit ↦ rw (other, unit) (read_char-unit c r (ground arith) (ground arith))
    | inr astral ↦ rw (other, astral) (read_char-pair c r (ground arith) (ground arith))
  ]
]

pub read_char-escape : (c : ℕ) (r : Text) → IsScalar c → read_char (escape c ++ r) ≡ some (c, r)
unfolding escape short_escape read_char read_escape short_value
read_char-escape c r scalar = elim (Bool-cases (c == 34)) [
  | inl quote ↦ rw ((==_iff c 34).0 quote) refl
  | inr a ↦ elim (Bool-cases (c == 92)) [
    | inl backslash ↦ rw ((==_iff c 92).0 backslash) refl
    | inr b ↦ elim (Bool-cases (c == 8)) [
      | inl e ↦ rw ((==_iff c 8).0 e) refl
      | inr d8 ↦ elim (Bool-cases (c == 9)) [
        | inl e ↦ rw ((==_iff c 9).0 e) refl
        | inr d9 ↦ elim (Bool-cases (c == 10)) [
          | inl e ↦ rw ((==_iff c 10).0 e) refl
          | inr d10 ↦ elim (Bool-cases (c == 12)) [
            | inl e ↦ rw ((==_iff c 12).0 e) refl
            | inr d12 ↦ elim (Bool-cases (c == 13)) [
              | inl e ↦ rw ((==_iff c 13).0 e) refl
              | inr d13 ↦ rw (a, b, d8, d9, d10, d12, d13) (read_char-plain c r scalar a b)
            ]
          ]
        ]
      ]
    ]
  ]
]

pub read_text-escapes :
    (fuel : ℕ) (t r : Text)
    → length t < fuel
    → ScalarText t
    → read_text fuel (escapes t ++ 34 ∷ r) ≡ some (t, r)
unfolding read_text escapes
read_text-escapes zero t r h scalars = absurd (omega arith)
read_text-escapes (suc fuel) [] r h scalars = unfold read_char in refl
read_text-escapes (suc fuel) (c ∷ t) r h (scalar, scalars) = rw (
  append_assoc (escape c) (escapes t) (34 ∷ r),
  read_char-escape c (escapes t ++ 34 ∷ r) scalar,
  read_text-escapes fuel t r (omega arith) scalars,
)
