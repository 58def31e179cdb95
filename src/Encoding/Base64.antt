-- ===== src/Encoding/Base64.antt =====
-- Base64 of bytes: what was encoded decodes.
use cryptovalid_opencore.Prelude.{ℕ, ◌+◌, ◌*◌, ◌/◌, ◌%◌, ◌<◌, ◌≡◌, refl, none, some, [], ◌∷◌, arith}
use cryptovalid_opencore.Bytes.{Bytes}
use cryptovalid_opencore.Encoding.{
  b64_value, b64_char, first_byte, second_byte, third_byte, b64decode, b64encode,
}

-- every number is a byte
abbrev pub AreBytes : Bytes → Type 0
AreBytes [] = Unit
AreBytes (b ∷ bs) = (b < 256) × AreBytes bs

pub b64_value-b64_char : (v : ℕ) → v < 64 → b64_value (b64_char v) ≡ some v
unfolding b64_value b64_char
b64_value-b64_char v h = ground arith

-- the padding is outside the alphabet
pub b64_value-padding : b64_value 61 ≡ none
unfolding b64_value
b64_value-padding = refl

first : (a b : ℕ) → a < 256 → b < 256 → first_byte (a / 4) (a % 4 * 16 + b / 16) ≡ a
first a b h k = omega arith

second :
    (a b c : ℕ) → b < 256 → c < 256 → second_byte (a % 4 * 16 + b / 16) (b % 16 * 4 + c / 64) ≡ b
second a b c h k = omega arith

third : (b c : ℕ) → c < 256 → third_byte (b % 16 * 4 + c / 64) (c % 64) ≡ c
third b c h = omega arith

first_alone : (a : ℕ) → a < 256 → first_byte (a / 4) (a % 4 * 16) ≡ a
first_alone a h = omega arith

second_alone : (a b : ℕ) → b < 256 → second_byte (a % 4 * 16 + b / 16) (b % 16 * 4) ≡ b
second_alone a b h = omega arith

pub b64decode-b64encode : (bs : Bytes) → AreBytes bs → b64decode (b64encode bs) ≡ some bs
unfolding b64decode b64encode
b64decode-b64encode [] h = refl
b64decode-b64encode (a ∷ []) h =
    rw
      (
        b64_value-b64_char (a / 4) (omega (arith, h.0)),
        b64_value-b64_char (a % 4 * 16) (omega (arith, h.0)),
        b64_value-padding,
        first_alone a h.0,
      )
      refl
b64decode-b64encode (a ∷ b ∷ []) h =
    rw
      (
        b64_value-b64_char (a / 4) (omega (arith, h.0)),
        b64_value-b64_char (a % 4 * 16 + b / 16) (omega (arith, h.1.0)),
        b64_value-b64_char (b % 16 * 4) (omega arith),
        b64_value-padding,
        first a b h.0 h.1.0,
        second_alone a b h.1.0,
      )
      refl
b64decode-b64encode (a ∷ b ∷ c ∷ bs) h =
    rw
      (
        b64_value-b64_char (a / 4) (omega (arith, h.0)),
        b64_value-b64_char (a % 4 * 16 + b / 16) (omega (arith, h.1.0)),
        b64_value-b64_char (b % 16 * 4 + c / 64) (omega (arith, h.1.1.0)),
        b64_value-b64_char (c % 64) (omega arith),
        b64decode-b64encode bs h.1.1.1,
        first a b h.0 h.1.0,
        second a b c h.1.0 h.1.1.0,
        third b c h.1.1.0,
      )
      refl
