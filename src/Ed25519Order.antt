-- ===== src/Ed25519Order.antt =====
-- ed25519_order.py: the curve arithmetic of RFC 8032 on naturals modulo p, and the refusals of keys and
-- signatures of small or mixed order. A difference is taken modulo p where the code leaves it signed until
-- the product is reduced.
pub mod Caching
mod Tests
use cryptovalid_opencore.Prelude.{
  ℕ, zero, suc, ◌+◌, ◌-◌, ◌*◌, ◌/◌, ◌%◌, ◌^◌, Bool, true, false, not, ◌&&◌, ◌||◌, Option, none,
  some, List, [], ◌∷◌, length, take, ltb, leb, ◌==◌, odd, if◌then◌else◌,
}
use cryptovalid_opencore.Bytes.{Bytes, bytes_eq}

abbrev p : ℕ
p = 2 ^ 255 - 19

-- the order of the base point
abbrev order : ℕ
order = 2 ^ 252 + 27742317777372353535851937790883648493

unfoldable pub minus : ℕ → ℕ → ℕ
minus a b = (a + (p - b % p)) % p

-- `pow(b, e, p)`, on fuel: the exponents have at most 255 bits
unfoldable pub pow_fuel : ℕ → ℕ → ℕ → ℕ
pow_fuel zero b e = 1
pow_fuel (suc fuel) b e =
    let half = pow_fuel fuel b (e / 2) in
    if e == 0 then 1 else if odd e then half * half % p * b % p else half * half % p

unfoldable pub pow : ℕ → ℕ → ℕ
pow b e = pow_fuel 256 (b % p) e

unfoldable pub curve_d : ℕ
curve_d = minus 0 (121665 * pow 121666 (p - 2))

-- `_I`
unfoldable pub sqrt_minus_one : ℕ
sqrt_minus_one = pow 2 ((p - 1) / 4)

-- extended coordinates X, Y, Z, T
pub data Point : Type 0 where
  point : ℕ → ℕ → ℕ → ℕ → Point

abbrev pub neutral : Point
neutral = point 0 1 1 0

-- `int.from_bytes(b, "little")`
unfoldable pub from_little : Bytes → ℕ
from_little [] = 0
from_little (b ∷ bs) = b + 256 * from_little bs

-- `n.to_bytes(k, "little")`
unfoldable pub to_little : ℕ → ℕ → Bytes
to_little zero n = []
to_little (suc k) n = n % 256 ∷ to_little k (n / 256)

-- the last tests of `decode`: x for the sign bit
abbrev with_sign : ℕ → ℕ → ℕ → Option Point
with_sign x y sign =
    if x == 0 && sign == 1
    then none
    else (let x' = if x % 2 == sign then x else p - x in some (point x' y 1 (x' * y % p)))

-- a square root of u / v, from the candidate x
abbrev root_from : ℕ → ℕ → ℕ → ℕ → ℕ → Option Point
root_from x u v y sign =
    let vxx = v * x % p * x % p in
    if vxx == u
    then with_sign x y sign
    else if vxx == minus 0 u
    then with_sign (x * sqrt_minus_one % p) y sign
    else none

unfoldable pub decode_y : ℕ → ℕ → Option Point
decode_y y sign =
    let u = minus (y * y) 1 in
    let v = (curve_d * y % p * y + 1) % p in
    let x = u * pow v 3 % p * pow (u * pow v 7) ((p - 5) / 8) % p in
    if leb p y then none else root_from x u v y sign

unfoldable pub decode : Bytes → Option Point
decode enc =
    let n = from_little enc in
    if length enc == 32 then decode_y (n % 2 ^ 255) (n / 2 ^ 255) else none

unfoldable pub encode : Point → Bytes
encode (point x y z t) =
    let zi = pow z (p - 2) in to_little 32 (y * zi % p + x * zi % p % 2 * 2 ^ 255)

unfoldable pub add : Point → Point → Point
add (point x1 y1 z1 t1) (point x2 y2 z2 t2) =
    let a = minus y1 x1 * minus y2 x2 % p in
    let b = (y1 + x1) * (y2 + x2) % p in
    let c = t1 * 2 * curve_d * t2 % p in
    let dd = z1 * 2 * z2 % p in
    let e = minus b a in
    let f = minus dd c in
    let g = dd + c in let h = b + a in point (e * f % p) (g * h % p) (f * g % p) (e * h % p)

-- the loop over the bits of k, the highest first, on fuel: a k has at most 256 bits
unfoldable pub mul_fuel : ℕ → ℕ → Point → Point
mul_fuel zero k q = neutral
mul_fuel (suc fuel) k q =
    let r = mul_fuel fuel (k / 2) q in
    if k == 0 then neutral else if odd k then add (add r r) q else add r r

unfoldable pub scalar_mul : ℕ → Point → Point
scalar_mul k q = mul_fuel 256 k q

unfoldable pub is_neutral : Point → Bool
is_neutral (point x y z t) = x % p == 0 && minus y z == 0

pub data Problem : Type 0 where
  key_not_decodable : Problem
  small_order_key : Problem
  mixed_order_key : Problem
  r_not_decodable : Problem
  small_order_r : Problem

abbrev order_problem : Option Point → Option Problem
order_problem none = some key_not_decodable
order_problem (some a) =
    if is_neutral (scalar_mul 8 a)
    then some small_order_key
    else if is_neutral (scalar_mul order a)
    then none
    else some mixed_order_key

unfoldable pub key_problem : Bytes → Option Problem
key_problem key = order_problem (decode key)

abbrev small_r : Option Point → Option Problem
small_r none = some r_not_decodable
small_r (some r) = if is_neutral (scalar_mul 8 r) then some small_order_r else none

unfoldable pub r_problem : Bytes → Option Problem
r_problem sig = small_r (if length sig == 64 then decode (take 32 sig) else none)

-- `key_cache`, a dict by the key's bytes
pub data Cache : Type 0 where
  no_keys : Cache
  cached : Bytes → Option Problem → Cache → Cache

unfoldable pub lookup : Bytes → Cache → Option (Option Problem)
lookup key no_keys = none
lookup key (cached k problem cache) = if bytes_eq k key then some problem else lookup key cache

abbrev or_problem : Option Problem → Option Problem → Option Problem
or_problem none next = next
or_problem (some why) next = some why

abbrev recall : Option (Option Problem) → Bytes → Cache → Option Problem × Cache
recall (some problem) key cache = (problem, cache)
recall none key cache = (key_problem key, cached key (key_problem key) cache)

-- without a cache, and with one: what is found, and the cache afterwards
unfoldable pub strict_problem : Bytes → Bytes → Option Problem
strict_problem key sig = or_problem (key_problem key) (r_problem sig)

unfoldable pub strict_problem_cached : Bytes → Bytes → Cache → Option Problem × Cache
strict_problem_cached key sig cache =
    let known = recall (lookup key cache) key cache in (or_problem known.0 (r_problem sig), known.1)
