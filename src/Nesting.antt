-- ===== src/Nesting.antt =====
-- verifier.py: `json_nesting_depth`, the scan that refuses a deeply nested line before it is decoded.
pub mod Depth
pub mod Values
mod Tests
use cryptovalid_opencore.Prelude.{
  ℕ, zero, suc, ◌-◌, Bool, true, false, ◌||◌, List, [], ◌∷◌, ltb, ◌==◌, if◌then◌else◌,
}
use cryptovalid_opencore.Json.{Text, ℤ, pos, negsuc}

-- `depth` falls below 0 where brackets close that were never opened
unfoldable pub up : ℤ → ℤ
up (pos n) = pos (suc n)
up (negsuc zero) = pos 0
up (negsuc (suc n)) = negsuc n

unfoldable pub down : ℤ → ℤ
down (pos zero) = negsuc 0
down (pos (suc n)) = pos n
down (negsuc n) = negsuc (suc n)

-- `if depth > max_depth: max_depth = depth`
unfoldable pub raised : ℤ → ℕ → ℕ
raised (pos d) max_depth = if ltb max_depth d then d else max_depth
raised (negsuc d) max_depth = max_depth

-- the variables of the loop
pub data Scan : Type 0 where
  scan_at : ℤ → ℕ → Bool → Bool → Scan

unfoldable pub scan_step : Scan → ℕ → Scan
scan_step (scan_at depth max_depth true true) ch = scan_at depth max_depth true false
scan_step (scan_at depth max_depth true false) ch =
    if ch == 92
    then scan_at depth max_depth true true
    else if ch == 34
    then scan_at depth max_depth false false
    else scan_at depth max_depth true false
scan_step (scan_at depth max_depth false esc) ch =
    if ch == 34
    then scan_at depth max_depth true esc
    else if ch == 91 || ch == 123
    then scan_at (up depth) (raised (up depth) max_depth) false esc
    else if ch == 93 || ch == 125
    then scan_at (down depth) max_depth false esc
    else scan_at depth max_depth false esc

unfoldable pub scan : Scan → Text → Scan
scan s [] = s
scan s (ch ∷ text) = scan (scan_step s ch) text

abbrev pub max_depth_of : Scan → ℕ
max_depth_of (scan_at depth max_depth in_str esc) = max_depth

unfoldable pub json_nesting_depth : Text → ℕ
json_nesting_depth text = max_depth_of (scan (scan_at (pos 0) 0 false false) text)
