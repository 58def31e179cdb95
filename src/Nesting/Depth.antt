-- ===== src/Nesting/Depth.antt =====
-- verifier.py: the scan of `json_nesting_depth` over strings and numbers as `json.dumps` writes
-- them.
use cryptovalid_opencore.Prelude.{
  ℕ, zero, suc, ◌+◌, ◌-◌, ◌/◌, ◌%◌, ◌<◌, ◌≡◌, refl, ◌∙◌, arith, true, false, ◌&&◌, ◌||◌, inl, inr,
  none, [], ◌∷◌, ◌++◌, append_assoc, ltb, leb, ◌==◌, Bool-cases, if◌then◌else◌,
}
use cryptovalid_opencore.Json.{
  Text, ℤ, Json, arr, obj, Elements, end, element, Members, empty, member, digits_fuel, hex_digit,
  unicode_escape, short_escape, escape_with, escape, escapes, dumps_str,
}
use cryptovalid_opencore.Nesting.{scan_at, scan_step, scan}

abbrev pub highest : ℕ → ℕ → ℕ
highest a b = if ltb a b then b else a

-- how deep arrays and objects lie inside each other
unfoldable mutual
  pub nesting : Json → ℕ
  nesting (arr es) = suc (nesting_elements es)
  nesting (obj ms) = suc (nesting_members ms)
  nesting v = 0

  pub nesting_elements : Elements → ℕ
  nesting_elements end = 0
  nesting_elements (element v es) = highest (nesting v) (nesting_elements es)

  pub nesting_members : Members → ℕ
  nesting_members empty = 0
  nesting_members (member k v ms) = highest (nesting v) (nesting_members ms)

-- a character that changes nothing inside a string
inside :
    (d : ℤ) (m c : ℕ) (r : Text)
    → (c == 92) ≡ false
    → (c == 34) ≡ false
    → scan (scan_at d m true false) (c ∷ r) ≡ scan (scan_at d m true false) r
unfolding scan scan_step
inside d m c r a b = rw (a, b)

-- a character that changes nothing outside a string
outside :
    (d : ℤ) (m c : ℕ) (r : Text)
    → (c == 34) ≡ false
    → (c == 91 || c == 123) ≡ false
    → (c == 93 || c == 125) ≡ false
    → scan (scan_at d m false false) (c ∷ r) ≡ scan (scan_at d m false false) r
unfolding scan scan_step
outside d m c r a b e = rw (a, b, e)

inside_hex :
    (d : ℤ) (m n : ℕ) (r : Text)
    → n < 16
    → scan (scan_at d m true false) (hex_digit n ∷ r) ≡ scan (scan_at d m true false) r
unfolding hex_digit
inside_hex d m n r h = elim (Bool-cases (ltb n 10)) [
  | inl low ↦ rw low (inside d m (48 + n) r (ground arith) (ground arith))
  | inr high ↦ rw high (inside d m (87 + n) r (ground arith) (ground arith))
]

scan-unicode_escape :
    (d : ℤ) (m n : ℕ) (r : Text)
    → scan (scan_at d m true false) (unicode_escape n ++ r) ≡ scan (scan_at d m true false) r
unfolding unicode_escape
scan-unicode_escape d m n r =
    let a = hex_digit (n / 4096 % 16) in
    let b = hex_digit (n / 256 % 16) in
    let c = hex_digit (n / 16 % 16) in
    let e = hex_digit (n % 16) in
    unfold scan scan_step in
    inside_hex d m (n / 4096 % 16) (b ∷ c ∷ e ∷ r) (omega arith)
    ∙ (inside_hex d m (n / 256 % 16) (c ∷ e ∷ r) (omega arith)
        ∙ (inside_hex d m (n / 16 % 16) (e ∷ r) (omega arith)
            ∙ inside_hex d m (n % 16) r (omega arith)))

scan-plain :
    (d : ℤ) (m c : ℕ) (r : Text)
    → (c == 34) ≡ false
    → (c == 92) ≡ false
    → scan (scan_at d m true false) (escape_with c none ++ r) ≡ scan (scan_at d m true false) r
scan-plain d m c r a b = elim (Bool-cases (leb 32 c && leb c 126)) [
  | inl printable ↦ rw printable (inside d m c r b a)
  | inr other ↦ elim (Bool-cases (ltb c 65536)) [
    | inl unit ↦ rw (other, unit) (scan-unicode_escape d m c r)
    | inr astral ↦
        let high = unicode_escape (55296 + (c - 65536) / 1024 % 1024) in
        let low = unicode_escape (56320 + (c - 65536) % 1024) in
        rw (other, astral, append_assoc high low r)
          (scan-unicode_escape d m (55296 + (c - 65536) / 1024 % 1024) (low ++ r)
            ∙ scan-unicode_escape d m (56320 + (c - 65536) % 1024) r)
  ]
]

scan-escape :
    (d : ℤ) (m c : ℕ) (r : Text)
    → scan (scan_at d m true false) (escape c ++ r) ≡ scan (scan_at d m true false) r
unfolding escape short_escape scan scan_step
scan-escape d m c r = elim (Bool-cases (c == 34)) [
  | inl quote ↦ rw quote refl
  | inr a ↦ elim (Bool-cases (c == 92)) [
    | inl backslash ↦ rw (a, backslash) refl
    | inr b ↦ elim (Bool-cases (c == 8)) [
      | inl e ↦ rw (a, b, e) refl
      | inr d8 ↦ elim (Bool-cases (c == 9)) [
        | inl e ↦ rw (a, b, d8, e) refl
        | inr d9 ↦ elim (Bool-cases (c == 10)) [
          | inl e ↦ rw (a, b, d8, d9, e) refl
          | inr d10 ↦ elim (Bool-cases (c == 12)) [
            | inl e ↦ rw (a, b, d8, d9, d10, e) refl
            | inr d12 ↦ elim (Bool-cases (c == 13)) [
              | inl e ↦ rw (a, b, d8, d9, d10, d12, e) refl
              | inr d13 ↦ rw (a, b, d8, d9, d10, d12, d13) (scan-plain d m c r a b)
            ]
          ]
        ]
      ]
    ]
  ]
]

scan-escapes :
    (d : ℤ) (m : ℕ) (t r : Text)
    → scan (scan_at d m true false) (escapes t ++ r) ≡ scan (scan_at d m true false) r
unfolding escapes
scan-escapes d m [] r = refl
scan-escapes d m (c ∷ t) r =
    rw (append_assoc (escape c) (escapes t) r)
      (scan-escape d m c (escapes t ++ r) ∙ scan-escapes d m t r)

pub scan-dumps_str :
    (d : ℤ) (m : ℕ) (t r : Text)
    → scan (scan_at d m false false) (dumps_str t ++ r) ≡ scan (scan_at d m false false) r
unfolding dumps_str
scan-dumps_str d m t r =
    rw (append_assoc (escapes t) (34 ∷ []) r) (unfold scan scan_step in scan-escapes d m t (34 ∷ r))

pub scan-digits_fuel :
    (fuel n : ℕ) (d : ℤ) (m : ℕ) (r : Text)
    → scan (scan_at d m false false) (digits_fuel fuel n ++ r) ≡ scan (scan_at d m false false) r
unfolding digits_fuel
scan-digits_fuel zero n d m r = refl
scan-digits_fuel (suc fuel) n d m r = elim (Bool-cases (ltb n 10)) [
  | inl last ↦ rw last (outside d m (48 + n) r (ground arith) (ground arith) (ground arith))
  | inr more ↦
      rw (more, append_assoc (digits_fuel fuel (n / 10)) ((48 + n % 10) ∷ []) r)
        (scan-digits_fuel fuel (n / 10) d m ((48 + n % 10) ∷ r)
          ∙ outside d m (48 + n % 10) r (ground arith) (ground arith) (ground arith))
]
