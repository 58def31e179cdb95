-- ===== src/Json/Reader.antt =====
-- A reader of the texts that `json.dumps` writes, by which they are told apart.
use cryptovalid_opencore.Prelude.{
  ℕ, zero, suc, ◌+◌, ◌-◌, ◌*◌, Bool, true, false, ◌&&◌, Option, none, some, [], ◌∷◌, drop, ltb, leb,
  ◌==◌, if◌then◌else◌,
}
use cryptovalid_opencore.Json.{
  Text, pos, negsuc, Json, null, bool, num, str, arr, obj, Elements, end, element, Members, empty,
  member,
}

infixl 5 ◌>>=◌
abbrev pub ◌>>=◌ : {A B : Type 0} → Option A → (A → Option B) → Option B
none >>= k = none
some a >>= k = k a

abbrev pub pick : {A B : Type 0} → Option A → Option B → (A → Option B) → Option B
pick none other k = other
pick (some a) other k = k a

unfoldable pub hex_value : ℕ → ℕ
hex_value c = if leb 97 c then c - 87 else c - 48

unfoldable pub short_value : ℕ → ℕ
short_value l =
    if l == 98
    then 8
    else if l == 116
    then 9
    else if l == 110
    then 10
    else if l == 102
    then 12
    else if l == 114
    then 13
    else l

abbrev pub four : ℕ → ℕ → ℕ → ℕ → ℕ
four a b c d = hex_value a * 4096 + hex_value b * 256 + hex_value c * 16 + hex_value d

unfoldable pub read_low : ℕ → Text → Option (ℕ × Text)
read_low high (x ∷ y ∷ a ∷ b ∷ c ∷ d ∷ t) =
    some (65536 + (high - 55296) * 1024 + (four a b c d - 56320), t)
read_low high t = none

unfoldable pub read_unit : Text → Option (ℕ × Text)
read_unit (a ∷ b ∷ c ∷ d ∷ t) =
    if leb 55296 (four a b c d) && ltb (four a b c d) 56320
    then read_low (four a b c d) t
    else some (four a b c d, t)
read_unit t = none

unfoldable pub read_escape : Text → Option (ℕ × Text)
read_escape [] = none
read_escape (l ∷ t) = if l == 117 then read_unit t else some (short_value l, t)

-- one character inside a string; `none` at the closing quote
unfoldable pub read_char : Text → Option (ℕ × Text)
read_char [] = none
read_char (c ∷ t) = if c == 34 then none else if c == 92 then read_escape t else some (c, t)

unfoldable pub read_text : ℕ → Text → Option (Text × Text)
read_text zero t = none
read_text (suc fuel) t =
    pick (read_char t) (some ([], drop 1 t))
      (λ s. read_text fuel s.1 >>= λ u. some (s.0 ∷ u.0, u.1))

unfoldable pub is_digit : ℕ → Bool
is_digit c = leb 48 c && ltb c 58

unfoldable pub read_digits : ℕ → Text → ℕ × Text
read_digits acc [] = (acc, [])
read_digits acc (c ∷ t) =
    let more = read_digits (acc * 10 + (c - 48)) t in if is_digit c then more else (acc, c ∷ t)

-- a comma, or nothing before the first item
abbrev pub item : Bool → Text → Option Text
item true t = some t
item false [] = none
item false (c ∷ t) = if c == 44 then some t else none

abbrev natural : ℕ × Text → Option (Json × Text)
natural s = some (num (pos s.0), s.1)

abbrev negative : ℕ × Text → Option (Json × Text)
negative s = some (num (negsuc (s.0 - 1)), s.1)

abbrev as_str : Text × Text → Option (Json × Text)
as_str s = some (str s.0, s.1)

abbrev as_arr : Elements × Text → Option (Json × Text)
as_arr s = some (arr s.0, s.1)

abbrev as_obj : Members × Text → Option (Json × Text)
as_obj s = some (obj s.0, s.1)

-- a string, or `none` where the text does not start with a quote
unfoldable pub read_key : ℕ → Text → Option (Text × Text)
read_key fuel [] = none
read_key fuel (c ∷ t) = if c == 34 then read_text fuel t else none

unfoldable mutual
  pub read_value : ℕ → Text → Option (Json × Text)
  read_value zero t = none
  read_value (suc fuel) [] = none
  read_value (suc fuel) (c ∷ t) =
      if is_digit c
      then natural (read_digits 0 (c ∷ t))
      else if c == 45
      then negative (read_digits 0 t)
      else if c == 110
      then some (null, drop 3 t)
      else if c == 116
      then some (bool true, drop 3 t)
      else if c == 102
      then some (bool false, drop 4 t)
      else if c == 34
      then (read_text fuel t >>= as_str)
      else if c == 91
      then (read_elements fuel true t >>= as_arr)
      else if c == 123
      then (read_members fuel true t >>= as_obj)
      else none

  pub read_elements : ℕ → Bool → Text → Option (Elements × Text)
  read_elements zero first t = none
  read_elements (suc fuel) first t =
      pick (item first t >>= λ u. read_value fuel u) (some (end, drop 1 t))
        (λ s. read_elements fuel false s.1 >>= λ u. some (element s.0 u.0, u.1))

  pub read_members : ℕ → Bool → Text → Option (Members × Text)
  read_members zero first t = none
  read_members (suc fuel) first t =
      pick (item first t >>= λ u. read_key fuel u) (some (empty, drop 1 t)) (λ k.
        read_value fuel (drop 1 k.1) >>= λ s.
        read_members fuel false s.1 >>= λ u. some (member k.0 s.0 u.0, u.1))
