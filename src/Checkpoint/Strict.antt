-- ===== src/Checkpoint/Strict.antt =====
-- The strict base64 of what was encoded.
use cryptovalid_opencore.Prelude.{
  ℕ, ◌+◌, ◌*◌, ◌/◌, ◌%◌, ◌<◌, ◌≡◌, refl, true, false, some, [], ◌∷◌, arith,
}
use cryptovalid_opencore.Bytes.{Bytes}
use cryptovalid_opencore.Encoding.{b64_char, b64encode}
use cryptovalid_opencore.Encoding.Base64.{
  AreBytes, b64_value-b64_char, b64_value-padding, b64decode-b64encode,
}
use cryptovalid_opencore.Checkpoint.{is_b64, is_b64_strict, b64decode_strict}

is_b64-b64_char : (v : ℕ) → v < 64 → is_b64 (b64_char v) ≡ true
unfolding is_b64
is_b64-b64_char v h = rw (b64_value-b64_char v h, is_b64) refl

is_b64-padding : is_b64 61 ≡ false
unfolding is_b64
is_b64-padding = rw (b64_value-padding, is_b64) refl

strict-b64encode : (bs : Bytes) → AreBytes bs → is_b64_strict (b64encode bs) ≡ true
unfolding is_b64_strict b64encode
strict-b64encode [] h = refl
strict-b64encode (a ∷ []) h =
    rw
      (
        is_b64-b64_char (a / 4) (omega (arith, h.0)),
        is_b64-b64_char (a % 4 * 16) (omega (arith, h.0)),
        is_b64-padding,
      )
      refl
strict-b64encode (a ∷ b ∷ []) h =
    rw
      (
        is_b64-b64_char (a / 4) (omega (arith, h.0)),
        is_b64-b64_char (a % 4 * 16 + b / 16) (omega (arith, h.1.0)),
        is_b64-b64_char (b % 16 * 4) (omega arith),
        is_b64-padding,
      )
      refl
strict-b64encode (a ∷ b ∷ c ∷ bs) h =
    rw
      (
        is_b64-b64_char (a / 4) (omega (arith, h.0)),
        is_b64-b64_char (a % 4 * 16 + b / 16) (omega (arith, h.1.0)),
        is_b64-b64_char (b % 16 * 4 + c / 64) (omega (arith, h.1.1.0)),
        is_b64-b64_char (c % 64) (omega arith),
        strict-b64encode bs h.1.1.1,
      )
      refl

pub b64decode_strict-b64encode :
    (bs : Bytes) → AreBytes bs → b64decode_strict (b64encode bs) ≡ some bs
unfolding b64decode_strict
b64decode_strict-b64encode bs h = rw (strict-b64encode bs h) (b64decode-b64encode bs h)
