-- ===== src/Json.antt =====
-- Decoded JSON values as Python holds them, and `json.dumps(d, sort_keys=True, separators=(",", ":"))`
-- of the standard library, which verifier.py hashes. A text is the list of its code points; the output
-- is ASCII, so its `.encode()` is the same list. The format has no floats.
pub mod Reader
pub mod Escapes
pub mod Numbers
pub mod Roundtrip
pub mod Sorting
use cryptovalid_opencore.Prelude.{
  ℕ, zero, suc, ◌+◌, ◌-◌, ◌*◌, ◌/◌, ◌%◌, Bool, true, false, ◌&&◌, ◌||◌, Option, none, some, List,
  [], ◌∷◌, ◌++◌, ltb, leb, ◌==◌, if◌then◌else◌,
}
use cryptovalid_opencore.Bytes.{bytes_eq}

abbrev pub Text : Type 0
Text = List ℕ

-- `a < b` on str: by code points
unfoldable pub text_ltb : Text → Text → Bool
text_ltb a [] = false
text_ltb [] (d ∷ b) = true
text_ltb (c ∷ a) (d ∷ b) = ltb c d || (c == d && text_ltb a b)

pub data ℤ : Type 0 where
  pos : ℕ → ℤ
  negsuc : ℕ → ℤ

mutual
  pub data Json : Type 0 where
    null : Json
    bool : Bool → Json
    num : ℤ → Json
    str : Text → Json
    arr : Elements → Json
    obj : Members → Json

  pub data Elements : Type 0 where
    end : Elements
    element : Json → Elements → Elements

  -- the items of a dict, in their order
  pub data Members : Type 0 where
    empty : Members
    member : Text → Json → Members → Members

-- `d.get(key, default)`
unfoldable pub get : Text → Members → Json → Json
get key empty default = default
get key (member k v rest) default = if bytes_eq k key then v else get key rest default

-- `key in d`
unfoldable pub has : Text → Members → Bool
has key empty = false
has key (member k v rest) = bytes_eq k key || has key rest

unfoldable pub insert : Text → Json → Members → Members
insert k v empty = member k v empty
insert k v (member l w rest) =
    if text_ltb l k then member l w (insert k v rest) else member k v (member l w rest)

-- `sort_keys=True`, at every level
unfoldable mutual
  pub sort_keys : Json → Json
  sort_keys null = null
  sort_keys (bool b) = bool b
  sort_keys (num n) = num n
  sort_keys (str t) = str t
  sort_keys (arr es) = arr (sort_elements es)
  sort_keys (obj ms) = obj (sort_members ms)

  pub sort_elements : Elements → Elements
  sort_elements end = end
  sort_elements (element v es) = element (sort_keys v) (sort_elements es)

  pub sort_members : Members → Members
  sort_members empty = empty
  sort_members (member k v ms) = insert k (sort_keys v) (sort_members ms)

unfoldable pub digits_fuel : ℕ → ℕ → Text
digits_fuel zero n = []
digits_fuel (suc fuel) n =
    let higher = digits_fuel fuel (n / 10) in
    if ltb n 10 then (48 + n) ∷ [] else higher ++ (48 + n % 10) ∷ []

unfoldable pub digits : ℕ → Text
digits n = digits_fuel (suc n) n

unfoldable pub dumps_int : ℤ → Text
dumps_int (pos n) = digits n
dumps_int (negsuc n) = 45 ∷ digits (suc n)

unfoldable pub hex_digit : ℕ → ℕ
hex_digit d = if ltb d 10 then 48 + d else 87 + d

-- `\uXXXX`
unfoldable pub unicode_escape : ℕ → Text
unicode_escape n =
    92
    ∷ 117
    ∷ hex_digit (n / 4096 % 16)
    ∷ hex_digit (n / 256 % 16)
    ∷ hex_digit (n / 16 % 16)
    ∷ hex_digit (n % 16)
    ∷ []

-- the escapes of `"`, `\`, \b, \t, \n, \f and \r
unfoldable pub short_escape : ℕ → Option ℕ
short_escape c =
    if c == 34 || c == 92
    then some c
    else if c == 8
    then some 98
    else if c == 9
    then some 116
    else if c == 10
    then some 110
    else if c == 12
    then some 102
    else if c == 13
    then some 114
    else none

abbrev pub escape_with : ℕ → Option ℕ → Text
escape_with c (some letter) = 92 ∷ letter ∷ []
escape_with c none =
    if leb 32 c && leb c 126
    then c ∷ []
    else if ltb c 65536
    then unicode_escape c
    else unicode_escape (55296 + (c - 65536) / 1024 % 1024)
      ++ unicode_escape (56320 + (c - 65536) % 1024)

unfoldable pub escape : ℕ → Text
escape c = escape_with c (short_escape c)

unfoldable pub escapes : Text → Text
escapes [] = []
escapes (c ∷ t) = escape c ++ escapes t

unfoldable pub dumps_str : Text → Text
dumps_str t = 34 ∷ escapes t ++ 34 ∷ []

-- `sep` stands before the rest of a container: nothing at its start, a comma after that
unfoldable mutual
  pub dumps_sorted : Json → Text
  dumps_sorted null = 110 ∷ 117 ∷ 108 ∷ 108 ∷ []
  dumps_sorted (bool true) = 116 ∷ 114 ∷ 117 ∷ 101 ∷ []
  dumps_sorted (bool false) = 102 ∷ 97 ∷ 108 ∷ 115 ∷ 101 ∷ []
  dumps_sorted (num n) = dumps_int n
  dumps_sorted (str t) = dumps_str t
  dumps_sorted (arr es) = 91 ∷ dumps_elements [] es
  dumps_sorted (obj ms) = 123 ∷ dumps_members [] ms

  pub dumps_elements : Text → Elements → Text
  dumps_elements sep end = 93 ∷ []
  dumps_elements sep (element v es) = sep ++ dumps_sorted v ++ dumps_elements (44 ∷ []) es

  pub dumps_members : Text → Members → Text
  dumps_members sep empty = 125 ∷ []
  dumps_members sep (member k v ms) =
      sep ++ (dumps_str k ++ (58 ∷ (dumps_sorted v ++ dumps_members (44 ∷ []) ms)))

unfoldable pub dumps : Json → Text
dumps v = dumps_sorted (sort_keys v)
