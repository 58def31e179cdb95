-- ===== src/Texts.antt =====
-- Python's `str` methods on lists of code points: the ones that the checkpoint and witness modules call.
pub mod Lines
use Prim.Native.Char.{code}
use Prim.Native.String.{String}
use cryptovalid_opencore.Prelude.{
  ℕ, suc, ◌≡◌, refl, Bool, true, false, not, ◌&&◌, ◌||◌, Option, none, some, List, [], ◌∷◌, ◌++◌,
  ltb, leb, ◌==◌, if◌then◌else◌,
}
use cryptovalid_opencore.Bytes.{Bytes}
use cryptovalid_opencore.Json.{Text}

-- the code points of a literal
abbrev pub codes : String → Text
codes String.[] = []
codes (String.◌∷◌ c s) = code c ∷ codes s

abbrev pub push_char : ℕ → List Text → List Text
push_char c [] = (c ∷ []) ∷ []
push_char c (l ∷ ls) = (c ∷ l) ∷ ls

-- `t.split(d)`
unfoldable pub split : ℕ → Text → List Text
split d [] = [] ∷ []
split d (c ∷ t) = let rest = split d t in if c == d then [] ∷ rest else push_char c rest

-- `d.join(ls)`
unfoldable pub join : ℕ → List Text → Text
join d [] = []
join d (l ∷ []) = l
join d (l ∷ m ∷ ls) = l ++ (d ∷ join d (m ∷ ls))

abbrev put_front : ℕ → Option (Text × Text) → Option (Text × Text)
put_front c none = none
put_front c (some (a, b)) = some (c ∷ a, b)

-- what stands before and after the first `d`
unfoldable pub cut : ℕ → Text → Option (Text × Text)
cut d [] = none
cut d (c ∷ t) = let rest = cut d t in if c == d then some ([], t) else put_front c rest

-- `t.endswith("\n")`
unfoldable pub ends_line : Text → Bool
ends_line [] = false
ends_line (c ∷ []) = c == 10
ends_line (c ∷ d ∷ t) = ends_line (d ∷ t)

-- `t[:-1]`
unfoldable pub without_last : Text → Text
without_last [] = []
without_last (c ∷ []) = []
without_last (c ∷ d ∷ t) = c ∷ without_last (d ∷ t)

-- `i = t.rfind("\n\n")`, then `t[:i + 1]` and `t[i + 2:]`
abbrev at_here : Bool → Text → Option (Text × Text)
at_here true t = some (10 ∷ [], t)
at_here false t = none

abbrev or_here : Option (Text × Text) → Option (Text × Text) → Option (Text × Text)
or_here none here = here
or_here (some later) here = some later

unfoldable pub cut_blank : Text → Option (Text × Text)
cut_blank [] = none
cut_blank (c ∷ []) = none
cut_blank (c ∷ d ∷ t) = or_here (put_front c (cut_blank (d ∷ t))) (at_here (c == 10 && d == 10) t)

-- `t.partition("\n\n")`, `none` without the separator
unfoldable pub partition_blank : Text → Option (Text × Text)
partition_blank [] = none
partition_blank (c ∷ []) = none
partition_blank (c ∷ d ∷ t) =
    let rest = put_front c (partition_blank (d ∷ t)) in
    if c == 10 && d == 10 then some ([], t) else rest

-- `any(ord(c) < 0x20 for c in t)`
unfoldable pub has_control : Text → Bool
has_control [] = false
has_control (c ∷ t) = ltb c 32 || has_control t

-- the same, newlines apart
unfoldable pub has_control_in_line : Text → Bool
has_control_in_line [] = false
has_control_in_line (c ∷ t) = (ltb c 32 && not (c == 10)) || has_control_in_line t

-- `t.count(d)`
unfoldable pub count : ℕ → Text → ℕ
count d [] = 0
count d (c ∷ t) = let rest = count d t in if c == d then suc rest else rest

abbrev pub is_nil {ℓ} : {A : Type ℓ} → List A → Bool
is_nil [] = true
is_nil (x ∷ xs) = false

-- `"".join(l + "\n" for l in ls)`
unfoldable pub lines : List Text → Text
lines [] = []
lines (l ∷ ls) = l ++ (10 ∷ lines ls)

unfoldable pub any_nil : List Text → Bool
any_nil [] = false
any_nil (l ∷ ls) = is_nil l || any_nil ls

-- `\s` in a `str` pattern
abbrev is_space : ℕ → Bool
is_space c =
    (leb 9 c && leb c 13)
    || (leb 28 c && leb c 32)
    || c == 133
    || c == 160
    || c == 5760
    || (leb 8192 c && leb c 8202)
    || c == 8232
    || c == 8233
    || c == 8239
    || c == 8287
    || c == 12288

unfoldable pub all_name : Text → Bool
all_name [] = true
all_name (c ∷ t) = not (is_space c || c == 43 || ltb c 32) && all_name t

-- `[^\s+\x00-\x1f]+` in full
abbrev pub is_name : Text → Bool
is_name t = not (is_nil t) && all_name t

unfoldable pub all_digits : Text → Bool
all_digits [] = true
all_digits (c ∷ t) = leb 48 c && leb c 57 && all_digits t
