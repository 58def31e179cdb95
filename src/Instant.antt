-- ===== src/Instant.antt =====
-- cryptovalid_tip.py: `parse_instant`, the timestamp profile of the tips. A ValueError is `none`; the
-- instant is a pair of epoch seconds and nanoseconds.
use cryptovalid_opencore.Prelude.{
  ℕ, zero, suc, ◌+◌, ◌-◌, ◌*◌, ◌/◌, ◌%◌, Bool, true, false, not, ◌&&◌, ◌||◌, Option, none, some, [],
  ◌∷◌, ◌++◌, length, take, ltb, leb, ◌==◌, if◌then◌else◌,
}
use cryptovalid_opencore.Json.{Text, ℤ, pos, negsuc}

infixl 5 ◌>>=◌
abbrev ◌>>=◌ : {A B : Type 0} → Option A → (A → Option B) → Option B
none >>= k = none
some a >>= k = k a

-- `[0-9]`
abbrev pub is_ascii_digit : ℕ → Bool
is_ascii_digit c = leb 48 c && leb c 57

-- `int(...)` of ASCII digits
unfoldable pub int_from : ℕ → Text → ℕ
int_from acc [] = acc
int_from acc (c ∷ t) = int_from (acc * 10 + (c - 48)) t

-- exactly k digits, and the rest
unfoldable pub digits_exact : ℕ → ℕ → Text → Option (ℕ × Text)
digits_exact zero acc t = some (acc, t)
digits_exact (suc k) acc [] = none
digits_exact (suc k) acc (c ∷ t) =
    let more = digits_exact k (acc * 10 + (c - 48)) t in if is_ascii_digit c then more else none

unfoldable pub literal : ℕ → Text → Option Text
literal d [] = none
literal d (c ∷ t) = if c == d then some t else none

-- the digits at the front, and the rest
unfoldable pub span_digits : Text → Text × Text
span_digits [] = ([], [])
span_digits (c ∷ t) =
    let more = span_digits t in if is_ascii_digit c then (c ∷ more.0, more.1) else ([], c ∷ t)

-- `(?:\.([0-9]{1,9}))?`
abbrev fraction_after : Text × Text → Option (Text × Text)
fraction_after s = if leb 1 (length s.0) && leb (length s.0) 9 then some s else none

unfoldable pub fraction : Text → Option (Text × Text)
fraction [] = some ([], [])
fraction (c ∷ t) = if c == 46 then fraction_after (span_digits t) else some ([], c ∷ t)

-- `(Z|[+-][0-9]{2}:[0-9]{2})` up to the end: the sign's being `-`, the hours and the minutes
abbrev at_end : Bool → ℕ → ℕ × Text → Option (Bool × ℕ × ℕ)
at_end minus hours (minutes, []) = some (minus, hours, minutes)
at_end minus hours (minutes, c ∷ t) = none

abbrev signed_offset : Bool → Text → Option (Bool × ℕ × ℕ)
signed_offset minus t =
    digits_exact 2 0 t >>= λ h. literal 58 h.1 >>= λ u. digits_exact 2 0 u >>= at_end minus h.0

unfoldable pub offset : Text → Option (Bool × ℕ × ℕ)
offset [] = none
offset (c ∷ t) =
    if c == 90
    then (if length t == 0 then some (false, 0, 0) else none)
    else if c == 45
    then signed_offset true t
    else if c == 43
    then signed_offset false t
    else none

-- the groups of `_TS_FIELDS.fullmatch(ts)`
pub record Fields : Type 0 where
  pub year : ℕ
  pub month : ℕ
  pub day : ℕ
  pub hour : ℕ
  pub minute : ℕ
  pub second : ℕ
  pub nanos : Text
  pub minus : Bool
  pub offset_hour : ℕ
  pub offset_minute : ℕ

unfoldable pub ts_fields : Text → Option Fields
ts_fields ts = digits_exact 4 0 ts >>= λ y. literal 45 y.1 >>= λ a. digits_exact 2 0 a >>= λ mo.
    literal 45 mo.1 >>= λ b. digits_exact 2 0 b >>= λ d. literal 84 d.1 >>= λ c.
    digits_exact 2 0 c >>= λ h. literal 58 h.1 >>= λ e. digits_exact 2 0 e >>= λ mi.
    literal 58 mi.1 >>= λ f. digits_exact 2 0 f >>= λ s. fraction s.1 >>= λ fr.
    offset fr.1 >>= λ off. some (record {
      year = y.0;
      month = mo.0;
      day = d.0;
      hour = h.0;
      minute = mi.0;
      second = s.0;
      nanos = fr.0;
      minus = off.0;
      offset_hour = off.1;
      offset_minute = off.2;
    })

abbrev pub leap : ℕ → Bool
leap y = (y % 4 == 0 && not (y % 100 == 0)) || y % 400 == 0

-- the table `dim`, by the month
unfoldable pub days_in_month : ℕ → ℕ → ℕ
days_in_month y mo =
    if mo == 2
    then (if leap y then 29 else 28)
    else if mo == 4 || mo == 6 || mo == 9 || mo == 11
    then 30
    else 31

-- the days before the month in its year
unfoldable pub days_before_month : ℕ → ℕ → ℕ
days_before_month y zero = 0
days_before_month y (suc zero) = 0
days_before_month y (suc (suc mo)) = days_before_month y (suc mo) + days_in_month y (suc mo)

-- `calendar.timegm` counts from day 719163 of the calendar: the seconds up to the instant, from day 0
unfoldable pub seconds_from_day_0 : Fields → ℕ
seconds_from_day_0 t =
    let years = t.year - 1 in
    let days =
      years * 365
      + years / 4
      - years / 100
      + years / 400
      + days_before_month t.year t.month
      + t.day in
    ((days * 24 + t.hour) * 60 + t.minute) * 60 + t.second

unfoldable pub minus_ℤ : ℕ → ℕ → ℤ
minus_ℤ a b = if leb b a then pos (a - b) else negsuc (b - a - 1)

abbrev zeros : ℕ → Text
zeros zero = []
zeros (suc n) = 48 ∷ zeros n

abbrev pub in_range : Fields → Bool
in_range t =
    leb 1 t.year
    && leb 1 t.month
    && leb t.month 12
    && leb t.hour 23
    && leb t.minute 59
    && leb t.second 59
    && leb 1 t.day
    && leb t.day (days_in_month t.year t.month)
    && leb t.offset_hour 23
    && leb t.offset_minute 59

unfoldable pub instant_of : Fields → ℤ × ℕ
instant_of t =
    let shift = t.offset_hour * 3600 + t.offset_minute * 60 in
    let epoch = 719163 * 86400 in
    (
      if t.minus
          then minus_ℤ (seconds_from_day_0 t + shift) epoch
          else minus_ℤ (seconds_from_day_0 t) (epoch + shift),
      int_from 0 (take 9 (t.nanos ++ zeros 9)),
    )

unfoldable pub parse_instant : Text → Option (ℤ × ℕ)
parse_instant ts = ts_fields ts >>= λ t. if in_range t then some (instant_of t) else none

-- `a < b` on the pairs
unfoldable pub int_ltb : ℤ → ℤ → Bool
int_ltb (pos a) (pos b) = ltb a b
int_ltb (pos a) (negsuc b) = false
int_ltb (negsuc a) (pos b) = true
int_ltb (negsuc a) (negsuc b) = ltb b a

unfoldable pub instant_ltb : ℤ × ℕ → ℤ × ℕ → Bool
instant_ltb a b = int_ltb a.0 b.0 || (not (int_ltb b.0 a.0) && ltb a.1 b.1)
