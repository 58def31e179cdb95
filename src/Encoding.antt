-- ===== src/Encoding.antt =====
-- cryptovalid_tip.py: the strict encodings of keys and signatures, lowercase hex and `_b64_strict`, with
-- Python's base64 written out.
pub mod Base64
use cryptovalid_opencore.Prelude.{
  ℕ, ◌+◌, ◌-◌, ◌*◌, ◌/◌, ◌%◌, Bool, true, ◌&&◌, ◌||◌, Option, none, some, [], ◌∷◌, ◌++◌, length,
  ltb, leb, ◌==◌, if◌then◌else◌,
}
use cryptovalid_opencore.Bytes.{Bytes, bytes_eq}
use cryptovalid_opencore.Json.{Text}

-- `[0-9a-f]{n}` in full
unfoldable pub all_hex : Text → Bool
all_hex [] = true
all_hex (c ∷ t) = ((leb 48 c && leb c 57) || (leb 97 c && leb c 102)) && all_hex t

abbrev pub is_hex : ℕ → Text → Bool
is_hex n t = length t == n && all_hex t

abbrev digit_value : ℕ → ℕ
digit_value c = if leb 97 c then c - 87 else c - 48

-- `bytes.fromhex` of lowercase digits
unfoldable pub fromhex : Text → Bytes
fromhex (a ∷ b ∷ t) = (digit_value a * 16 + digit_value b) ∷ fromhex t
fromhex t = []

-- the base64 alphabet; `=` and what is outside it are `none`
unfoldable pub b64_value : ℕ → Option ℕ
b64_value c =
    if leb 65 c && leb c 90
    then some (c - 65)
    else if leb 97 c && leb c 122
    then some (c - 71)
    else if leb 48 c && leb c 57
    then some (c + 4)
    else if c == 43
    then some 62
    else if c == 47
    then some 63
    else none

unfoldable pub b64_char : ℕ → ℕ
b64_char v =
    if ltb v 26
    then v + 65
    else if ltb v 52
    then v + 71
    else if ltb v 62
    then v - 4
    else if v == 62
    then 43
    else 47

abbrev pub first_byte : ℕ → ℕ → ℕ
first_byte v w = v * 4 + w / 16

abbrev pub second_byte : ℕ → ℕ → ℕ
second_byte w x = w % 16 * 16 + x / 4

abbrev pub third_byte : ℕ → ℕ → ℕ
third_byte x y = x % 4 * 64 + y

-- one group of four characters, the last of a text with its padding
abbrev pub group : Option ℕ → Option ℕ → Option ℕ → Option ℕ → ℕ → ℕ → Option Bytes
group (some v) (some w) (some x) (some y) c d =
    some (first_byte v w ∷ second_byte w x ∷ third_byte x y ∷ [])
group (some v) (some w) (some x) none c d =
    if d == 61 then some (first_byte v w ∷ second_byte w x ∷ []) else none
group (some v) (some w) none none c d =
    if c == 61 && d == 61 then some (first_byte v w ∷ []) else none
group v w x y c d = none

abbrev pub joined : Option Bytes → Option Bytes → Option Bytes
joined (some a) (some b) = some (a ++ b)
joined a b = none

-- `base64.b64decode(v, validate=True)` of a text in groups of four
unfoldable pub b64decode : Text → Option Bytes
b64decode [] = some []
b64decode (a ∷ b ∷ c ∷ d ∷ t) =
    joined (group (b64_value a) (b64_value b) (b64_value c) (b64_value d) c d) (b64decode t)
b64decode t = none

unfoldable pub b64encode : Bytes → Text
b64encode [] = []
b64encode (a ∷ []) = b64_char (a / 4) ∷ b64_char (a % 4 * 16) ∷ 61 ∷ 61 ∷ []
b64encode (a ∷ b ∷ []) =
    b64_char (a / 4) ∷ b64_char (a % 4 * 16 + b / 16) ∷ b64_char (b % 16 * 4) ∷ 61 ∷ []
b64encode (a ∷ b ∷ c ∷ rest) =
    b64_char (a / 4)
    ∷ b64_char (a % 4 * 16 + b / 16)
    ∷ b64_char (b % 16 * 4 + c / 64)
    ∷ b64_char (c % 64)
    ∷ b64encode rest

abbrev of_size : ℕ → Text → Option Bytes → Option Bytes
of_size n v none = none
of_size n v (some raw) = if length raw == n && bytes_eq (b64encode raw) v then some raw else none

unfoldable pub b64_strict : Text → ℕ → Option Bytes
b64_strict v n = if length v == (n + 2) / 3 * 4 then of_size n v (b64decode v) else none
