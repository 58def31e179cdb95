-- ===== src/Nesting/Values.antt =====
-- verifier.py: the scan of `json_nesting_depth` over a whole value as `json.dumps` writes it.
use cryptovalid_opencore.Prelude.{
  ℕ, suc, ◌+◌, ◌≤◌, ◌≡◌, sym, ap, ◌∙◌, arith, Bool, true, false, [], ◌∷◌, ◌++◌, append-nil,
  append_assoc,
}
use cryptovalid_opencore.Json.{
  Text, pos, negsuc, Json, null, bool, num, str, arr, obj, Elements, end, element, Members, empty,
  member, sort_keys, digits, dumps_int, dumps_str, dumps_sorted, dumps_elements, dumps_members,
  dumps,
}
use cryptovalid_opencore.Nesting.{
  up, down, raised, scan_at, scan_step, scan, max_depth_of, json_nesting_depth,
}
use cryptovalid_opencore.Nesting.Depth.{
  highest, nesting, nesting_elements, nesting_members, scan-dumps_str, scan-digits_fuel,
}

highest_low : (m d : ℕ) → d ≤ m → highest m (d + 0) ≡ m
highest_low m d h = ground arith

highest_up : (m d x : ℕ) → highest (highest m (suc d)) (suc d + x) ≡ highest m (d + suc x)
highest_up m d x = ground arith

highest_two : (m d x y : ℕ) → highest (highest m (d + x)) (d + y) ≡ highest m (d + highest x y)
highest_two m d x y = ground arith

highest_above : (m d x : ℕ) → d ≤ m → d ≤ highest m (d + x)
highest_above m d x h = ground arith

highest_zero : (x : ℕ) → highest 0 (0 + x) ≡ x
highest_zero x = ground arith

abbrev Same : ℕ → ℕ → Text → ℕ → ℕ → Text → Type 0
Same d m text d' m' rest =
    scan (scan_at (pos d) m false false) text ≡ scan (scan_at (pos d') m' false false) rest

-- a comma or nothing before an item
abbrev sep_of : Bool → Text
sep_of true = []
sep_of false = 44 ∷ []

level : (d : ℕ) {m m' : ℕ} (rest : Text) → m ≡ m' → Same d m rest d m' rest
level d rest e = ap (λ k. scan (scan_at (pos d) k false false) rest) e

scan-item :
    (v : Json) (rest : Text) (d m x : ℕ) (r : Text)
    → Same
        (suc d)
        m
        (dumps_sorted v ++ (rest ++ r))
        (suc d)
        (highest m (suc d + nesting v))
        (rest ++ r)
    → Same
        (suc d)
        (highest m (suc d + nesting v))
        (rest ++ r)
        d
        (highest (highest m (suc d + nesting v)) (suc d + x))
        r
    → Same (suc d) m ((dumps_sorted v ++ rest) ++ r) d (highest m (suc d + highest (nesting v) x)) r
scan-item v rest d m x r value after =
    rw (append_assoc (dumps_sorted v) rest r)
      (value ∙ (after ∙ level _ r (highest_two m (suc d) (nesting v) x)))

scan-pair :
    (k : Text) (v : Json) (rest : Text) (d m x : ℕ) (r : Text)
    → Same
        (suc d)
        m
        (dumps_sorted v ++ (rest ++ r))
        (suc d)
        (highest m (suc d + nesting v))
        (rest ++ r)
    → Same
        (suc d)
        (highest m (suc d + nesting v))
        (rest ++ r)
        d
        (highest (highest m (suc d + nesting v)) (suc d + x))
        r
    → Same
        (suc d)
        m
        ((dumps_str k ++ (58 ∷ (dumps_sorted v ++ rest))) ++ r)
        d
        (highest m (suc d + highest (nesting v) x))
        r
scan-pair k v rest d m x r value after =
    rw (append_assoc (dumps_str k) (58 ∷ (dumps_sorted v ++ rest)) r) (
      scan-dumps_str (pos (suc d)) m k (58 ∷ ((dumps_sorted v ++ rest) ++ r))
      ∙ (unfold scan scan_step in scan-item v rest d m x r value after))

mutual
  unfolding scan scan_step up down raised nesting dumps_sorted dumps_int digits

  pub scan-value :
      (v : Json) (d m : ℕ) (r : Text)
      → d ≤ m
      → Same d m (dumps_sorted v ++ r) d (highest m (d + nesting v)) r
  scan-value null d m r h = level _ r (sym (highest_low m d h))
  scan-value (bool true) d m r h = level _ r (sym (highest_low m d h))
  scan-value (bool false) d m r h = level _ r (sym (highest_low m d h))
  scan-value (num (pos n)) d m r h =
      scan-digits_fuel (suc n) n (pos d) m r ∙ level _ r (sym (highest_low m d h))
  scan-value (num (negsuc n)) d m r h =
      scan-digits_fuel (suc (suc n)) (suc n) (pos d) m r ∙ level _ r (sym (highest_low m d h))
  scan-value (str t) d m r h = scan-dumps_str (pos d) m t r ∙ level _ r (sym (highest_low m d h))
  scan-value (arr es) d m r h =
      scan-elements true es d (highest m (suc d)) r (ground arith)
      ∙ level _ r (highest_up m d (nesting_elements es))
  scan-value (obj ms) d m r h =
      scan-members true ms d (highest m (suc d)) r (ground arith)
      ∙ level _ r (highest_up m d (nesting_members ms))

  scan-elements :
      (first : Bool) (es : Elements) (d m : ℕ) (r : Text)
      → suc d ≤ m
      → Same
          (suc d)
          m
          (dumps_elements (sep_of first) es ++ r)
          d
          (highest m (suc d + nesting_elements es))
          r
  scan-elements first end d m r h = level _ r (sym (highest_low m (suc d) h))
  scan-elements true (element v es) d m r h =
      scan-item v (dumps_elements (44 ∷ []) es) d m (nesting_elements es) r
        (scan-value v (suc d) m (dumps_elements (44 ∷ []) es ++ r) h)
        (scan-elements false es d (highest m (suc d + nesting v)) r
          (highest_above m (suc d) (nesting v) h))
  scan-elements false (element v es) d m r h =
      scan-item v (dumps_elements (44 ∷ []) es) d m (nesting_elements es) r
        (scan-value v (suc d) m (dumps_elements (44 ∷ []) es ++ r) h)
        (scan-elements false es d (highest m (suc d + nesting v)) r
          (highest_above m (suc d) (nesting v) h))

  scan-members :
      (first : Bool) (ms : Members) (d m : ℕ) (r : Text)
      → suc d ≤ m
      → Same
          (suc d)
          m
          (dumps_members (sep_of first) ms ++ r)
          d
          (highest m (suc d + nesting_members ms))
          r
  scan-members first empty d m r h = level _ r (sym (highest_low m (suc d) h))
  scan-members true (member k v ms) d m r h =
      scan-pair k v (dumps_members (44 ∷ []) ms) d m (nesting_members ms) r
        (scan-value v (suc d) m (dumps_members (44 ∷ []) ms ++ r) h)
        (scan-members false ms d (highest m (suc d + nesting v)) r
          (highest_above m (suc d) (nesting v) h))
  scan-members false (member k v ms) d m r h =
      scan-pair k v (dumps_members (44 ∷ []) ms) d m (nesting_members ms) r
        (scan-value v (suc d) m (dumps_members (44 ∷ []) ms ++ r) h)
        (scan-members false ms d (highest m (suc d + nesting v)) r
          (highest_above m (suc d) (nesting v) h))

-- For every value the scan of the text that `json.dumps` with sorted keys writes gives how deep its
-- arrays and objects, keys sorted, lie inside each other.
pub json_nesting_depth-dumps : (v : Json) → json_nesting_depth (dumps v) ≡ nesting (sort_keys v)
unfolding json_nesting_depth dumps
json_nesting_depth-dumps v =
    ap max_depth_of (
      rw (append-nil (dumps_sorted (sort_keys v))) at
        (scan-value (sort_keys v) 0 0 [] (omega arith)))
    ∙ unfold scan in highest_zero (nesting (sort_keys v))
