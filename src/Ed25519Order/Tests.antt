-- ===== src/Ed25519Order/Tests.antt =====
-- Runs of the curve arithmetic, and the property at a concrete cache.
use cryptovalid_opencore.Prelude.{ℕ, zero, suc, ◌≡◌, refl, none, some, [], ◌∷◌}
use cryptovalid_opencore.Bytes.{Bytes}
use cryptovalid_opencore.Ed25519Order.{
  add, mul_fuel, scalar_mul, is_neutral, sqrt_minus_one, pow_fuel, pow, minus, curve_d, from_little,
  decode_y, decode, key_not_decodable, small_order_key, key_problem, cached, no_keys,
  strict_problem, strict_problem_cached,
}
use cryptovalid_opencore.Ed25519Order.Caching.{Coherent, strict_problem_cached-Coherent}

abbrev fill : ℕ → ℕ → Bytes
fill zero b = []
fill (suc n) b = b ∷ fill n b

-- y = 0, a point of order 4
abbrev zero_key : Bytes
zero_key = fill 32 0

-- the base point
abbrev base_key : Bytes
base_key = 88 ∷ fill 31 102

short_key : key_problem (1 ∷ 2 ∷ []) ≡ some key_not_decodable
unfolding key_problem decode
short_key = refl

zero_key_small : key_problem zero_key ≡ some small_order_key
unfolding key_problem decode decode_y from_little curve_d minus pow pow_fuel sqrt_minus_one
    is_neutral scalar_mul mul_fuel add
zero_key_small = refl

base_key_usable : key_problem base_key ≡ none
unfolding key_problem decode decode_y from_little curve_d minus pow pow_fuel sqrt_minus_one
    is_neutral scalar_mul mul_fuel add
base_key_usable = refl

strict_problem_cached-Coherent_example :
    ((strict_problem_cached base_key (fill 64 7) (cached base_key (key_problem base_key) no_keys)).0
      ≡ strict_problem base_key (fill 64 7))
    × Coherent
        (strict_problem_cached base_key
          (fill 64 7)
          (cached base_key (key_problem base_key) no_keys)).1
strict_problem_cached-Coherent_example =
    strict_problem_cached-Coherent base_key (fill 64 7)
      (cached base_key (key_problem base_key) no_keys) (refl, tt)
