-- ===== src/Bits.antt =====
-- `m & (m - 1)`, Python's test for a power of two: how it passes from m to m / 2.
use Prim.Native.Nat.{bit_and, digits, bit_and-bitwise}
use cryptovalid_opencore.Prelude.{
  ℕ, zero, suc, ◌+◌, ◌-◌, ◌*◌, ◌/◌, ◌%◌, ◌≤◌, min, ◌≡◌, refl, sym, ap, ◌∙◌, arith, true, false,
  ◌==◌, odd,
}

abbrev conjunction : ℕ → ℕ → ℕ → ℕ
conjunction = digits (λ _. zero) min

conjunction-zero : (n b : ℕ) → conjunction n 0 b ≡ 0
conjunction-zero zero b = refl
conjunction-zero (suc n) b = refl

-- digits beyond those of the first number add nothing
conjunction-extend : (k n a b : ℕ) → a ≤ n → conjunction (n + k) a b ≡ conjunction n a b
conjunction-extend k n zero b h = conjunction-zero (n + k) b ∙ sym (conjunction-zero n b)
conjunction-extend k zero (suc a) b h = absurd (omega arith)
conjunction-extend k (suc n) (suc a) b h =
    let more : suc n + k ≡ suc (n + k) = omega arith in
    rw more (
      ap (λ t. t * 2 + min (suc a % 2) (b % 2))
        (conjunction-extend k n (suc a / 2) (b / 2) (omega arith)))

-- the lowest digit apart
bit_and-digit : (a b : ℕ) → 1 ≤ a → bit_and a b ≡ bit_and (a / 2) (b / 2) * 2 + min (a % 2) (b % 2)
bit_and-digit zero b h = elim h [ ]
bit_and-digit (suc a) b h =
    let rest : suc a / 2 + (a - suc a / 2) ≡ a = omega arith in
    bit_and-bitwise (suc a) b
    ∙ (ap (λ t. t * 2 + min (suc a % 2) (b % 2))
          (rw rest at
            (conjunction-extend (a - suc a / 2) (suc a / 2) (suc a / 2) (b / 2) (omega arith)))
        ∙ ap (λ t. t * 2 + min (suc a % 2) (b % 2)) (sym (bit_and-bitwise (suc a / 2) (b / 2))))

bit_and_self_below : (bound a : ℕ) → a ≤ bound → bit_and a a ≡ a
bit_and_self_below bound zero h = bit_and-bitwise 0 0
bit_and_self_below zero (suc a) h = absurd (omega arith)
bit_and_self_below (suc bound) (suc a) h = omega (
  arith,
  bit_and-digit (suc a) (suc a) (omega arith),
  bit_and_self_below bound (suc a / 2) (omega arith),
)

-- an even number passes the test if its half does
pub pow2_test_even :
    (m : ℕ) → odd m ≡ false → 1 ≤ m → (bit_and m (m - 1) == 0) ≡ (bit_and (m / 2) (m / 2 - 1) == 0)
pow2_test_even m e h =
    let half : (m - 1) / 2 ≡ m / 2 - 1 = ground arith in
    let step = rw half at (bit_and-digit m (m - 1) h) in ground arith

-- an odd number passes the test only if it is 1
pub pow2_test_odd : (m : ℕ) → odd m ≡ true → (bit_and m (m - 1) == 0) ≡ (m == 1)
pow2_test_odd m e =
    let positive : 1 ≤ m = ground arith in
    let half : (m - 1) / 2 ≡ m / 2 = ground arith in
    let step = rw half at (bit_and-digit m (m - 1) positive) in
    let same = bit_and_self_below (m / 2) (m / 2) (omega arith) in ground arith
