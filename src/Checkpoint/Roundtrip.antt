-- ===== src/Checkpoint/Roundtrip.antt =====
-- The text of a checkpoint and its parsing, both ways.
use cryptovalid_opencore.Prelude.{
  ℕ, suc, ◌+◌, ◌/◌, ◌%◌, ◌*◌, ◌<◌, ◌≤◌, ◌≡◌, refl, sym, ap, ◌∙◌, inl, inr, Bool, true, false, not,
  ◌||◌, Bool-cases, List, [], ◌∷◌, ◌++◌, length, ltb, ◌==◌, arith,
}
use cryptovalid_opencore.Bytes.{Bytes, bytes_eq, bytes_eq_iff}
use cryptovalid_opencore.Json.{Text, digits}
use cryptovalid_opencore.Encoding.{b64_char, b64encode}
use cryptovalid_opencore.Encoding.Base64.{AreBytes}
use cryptovalid_opencore.Raises.{Raises, ok}
use cryptovalid_opencore.Texts.{
  split, join, without_last, has_control, has_control_in_line, is_nil, any_nil, all_digits,
}
use cryptovalid_opencore.Texts.Lines.{
  all_free, split-join, split-shape, join-split, ends_line-snoc, without_last-snoc, ends_line-eq,
  has_control-free, has_control_in_line-append, has_control-weaken,
}
use cryptovalid_opencore.Checkpoint.{
  NoteError, Checkpoint, any_bad_extension, checkpoint_text, is_decimal, parse_lines,
  parse_checkpoint, max_size,
}
use cryptovalid_opencore.Checkpoint.Parsed.{refuse_if-ok, parse_checkpoint-Parsed}
use cryptovalid_opencore.Checkpoint.Strict.{b64decode_strict-b64encode}
use cryptovalid_opencore.Checkpoint.Decimal.{
  digits-value_of, value_of-digits, is_decimal-digits, all_digits-digits,
}

unfoldable any_control : List Text → Bool
any_control [] = false
any_control (l ∷ ls) = has_control l || any_control ls

ok_inject : (a b : Text) → ◌≡◌ {A = Raises NoteError Text} (ok a) (ok b) → a ≡ b
ok_inject a b h = cc h

-- a text without control characters but newlines has lines without any
split-any_control : (t : Text) → has_control_in_line t ≡ false → any_control (split 10 t) ≡ false
unfolding any_control split has_control has_control_in_line
split-any_control [] h = refl
split-any_control (c ∷ t) h =
    let rest : has_control_in_line t ≡ false = ground (arith, h) in
    let (l, ls, e) = split-shape 10 t in
    let r : any_control (l ∷ ls) ≡ false = ap any_control (sym e) ∙ split-any_control t rest in
    elim (Bool-cases (c == 10)) [
      | inl same ↦ rw (same, e) r
      | inr other ↦ rw (other, e) (ground (arith, h, other, r))
    ]

bad_extension :
    (ls : List Text) → any_nil ls ≡ false → any_control ls ≡ false → any_bad_extension ls ≡ false
unfolding any_nil any_control any_bad_extension
bad_extension [] h k = refl
bad_extension (l ∷ ls) h k =
    let a : any_nil ls ≡ false = ground (arith, h) in
    let b : any_control ls ≡ false = ground (arith, k) in ground (arith, h, k, bad_extension ls a b)

-- A text that parses as a checkpoint is the text that is written for the checkpoint it gives.
pub checkpoint_text-parsed :
    (text : Text) (c : Checkpoint) → parse_checkpoint text ≡ ok c → checkpoint_text c ≡ ok text
unfolding checkpoint_text any_nil any_control
checkpoint_text-parsed text c h =
    let p = parse_checkpoint-Parsed text c h in
    let q = p.parsed in
    let ls : split 10 (without_last text)
        ≡ c.origin ∷ digits c.size ∷ b64encode c.root ∷ c.extensions =
      rw (q.encoded, ← q.value, digits-value_of q.size q.decimal) q.lines in
    let full = rw ls at p.full in
    let clean = rw ls at (split-any_control (without_last text) p.clean) in
    let origin : (is_nil c.origin || has_control c.origin) ≡ false = ground (arith, full, clean) in
    let root : not (length c.root == 32) ≡ false = ground (arith, q.digest) in
    let nil_ext : any_nil c.extensions ≡ false = ground (arith, full) in
    let control_ext : any_control c.extensions ≡ false = ground (arith, clean) in
    let whole : join 10 (c.origin ∷ digits c.size ∷ b64encode c.root ∷ c.extensions) ++ 10 ∷ []
        ≡ text =
      rw (← ls, join-split) (sym (ends_line-eq text p.newline)) in
    rw (origin, q.in_range, root, bad_extension c.extensions nil_ext control_ext) (ap ok whole)

-- the characters of base64 are printable
b64_char-printable : (v : ℕ) → v < 64 → ltb (b64_char v) 32 ≡ false
unfolding b64_char
b64_char-printable v h = ground arith

b64encode-clean : (bs : Bytes) → AreBytes bs → has_control (b64encode bs) ≡ false
unfolding b64encode has_control
b64encode-clean [] h = refl
b64encode-clean (a ∷ []) h =
    rw
      (
        b64_char-printable (a / 4) (omega (arith, h.0)),
        b64_char-printable (a % 4 * 16) (omega arith),
      )
      refl
b64encode-clean (a ∷ b ∷ []) h =
    rw
      (
        b64_char-printable (a / 4) (omega (arith, h.0)),
        b64_char-printable (a % 4 * 16 + b / 16) (omega (arith, h.1.0)),
        b64_char-printable (b % 16 * 4) (omega arith),
      )
      refl
b64encode-clean (a ∷ b ∷ c ∷ bs) h =
    rw
      (
        b64_char-printable (a / 4) (omega (arith, h.0)),
        b64_char-printable (a % 4 * 16 + b / 16) (omega (arith, h.1.0)),
        b64_char-printable (b % 16 * 4 + c / 64) (omega (arith, h.1.1.0)),
        b64_char-printable (c % 64) (omega arith),
      )
      (b64encode-clean bs h.1.1.1)

b64encode-full : (bs : Bytes) → length bs ≡ 32 → is_nil (b64encode bs) ≡ false
unfolding b64encode
b64encode-full [] h = absurd (omega (arith, h))
b64encode-full (a ∷ []) h = refl
b64encode-full (a ∷ b ∷ []) h = refl
b64encode-full (a ∷ b ∷ c ∷ bs) h = refl

digits-clean : (t : Text) → all_digits t ≡ true → has_control t ≡ false
unfolding all_digits has_control
digits-clean [] h = refl
digits-clean (c ∷ t) h =
    let rest : all_digits t ≡ true = ground (arith, h) in ground (arith, h, digits-clean t rest)

empty_decimal : is_decimal [] ≡ false
unfolding bytes_eq
empty_decimal = refl

digits-full : (n : ℕ) → n ≤ max_size → is_nil (digits n) ≡ false
digits-full n h = by_text (digits n) (is_decimal-digits n h)
  where
    by_text : (t : Text) → is_decimal t ≡ true → is_nil t ≡ false
    by_text [] e = cc (empty_decimal, e)
    by_text (c ∷ t) e = refl

-- lines without control characters, joined
join-clean :
    (l : Text) (ls : List Text)
    → any_control (l ∷ ls) ≡ false
    → has_control_in_line (join 10 (l ∷ ls)) ≡ false
unfolding any_control join has_control_in_line
join-clean l [] h = has_control-weaken l (ground (arith, h))
join-clean l (m ∷ ls) h =
    let rest : any_control (m ∷ ls) ≡ false = ground (arith, h) in
    let here : has_control_in_line l ≡ false = has_control-weaken l (ground (arith, h)) in
    rw (has_control_in_line-append l (10 ∷ join 10 (m ∷ ls)), here)
      (newline (join 10 (m ∷ ls)) (join-clean m ls rest))
  where
    newline : (t : Text) → has_control_in_line t ≡ false → has_control_in_line (10 ∷ t) ≡ false
    newline t e = ground (arith, e)

all_free-clean : (ls : List Text) → any_control ls ≡ false → all_free 10 ls ≡ true
unfolding any_control all_free
all_free-clean [] h = refl
all_free-clean (l ∷ ls) h =
    let a : has_control l ≡ false = ground (arith, h) in
    let b : any_control ls ≡ false = ground (arith, h) in
    ground (arith, has_control-free l a, all_free-clean ls b)

good_extension :
    (ls : List Text)
    → any_bad_extension ls ≡ false
    → (any_nil ls ≡ false) × (any_control ls ≡ false)
unfolding any_nil any_control any_bad_extension
good_extension [] h = (refl, refl)
good_extension (l ∷ ls) h =
    let a : any_bad_extension ls ≡ false = ground (arith, h) in
    let r = good_extension ls a in (ground (arith, h, r.0), ground (arith, h, r.1))

-- The text that is written for a checkpoint parses as that checkpoint, where the numbers of its root are
-- bytes.
pub parse_checkpoint-checkpoint_text :
    (c : Checkpoint) (text : Text)
    → AreBytes c.root
    → checkpoint_text c ≡ ok text
    → parse_checkpoint text ≡ ok c
unfolding checkpoint_text parse_checkpoint parse_lines any_nil any_control all_free
parse_checkpoint-checkpoint_text c text bytes h =
    let g1 = refuse_if-ok (is_nil c.origin || has_control c.origin) _ _ h in
    let g2 = refuse_if-ok (ltb max_size c.size) _ _ g1.1 in
    let g3 = refuse_if-ok (not (length c.root == 32)) _ _ g2.1 in
    let g4 = refuse_if-ok (any_bad_extension c.extensions) _ _ g3.1 in
    let size : c.size ≤ max_size = ground (arith, g2.0) in
    let root : length c.root ≡ 32 = ground (arith, g3.0) in
    let ext = good_extension c.extensions g4.0 in
    let body : Text = join 10 (c.origin ∷ digits c.size ∷ b64encode c.root ∷ c.extensions) in
    let made : body ++ 10 ∷ [] ≡ text = ok_inject _ _ g4.1 in
    let digits_ok = digits-clean (digits c.size) (all_digits-digits c.size) in
    let root_ok = b64encode-clean c.root bytes in
    let clean : any_control (c.origin ∷ digits c.size ∷ b64encode c.root ∷ c.extensions) ≡ false =
      ground (arith, g1.0, digits_ok, root_ok, ext.1) in
    let full : any_nil (c.origin ∷ digits c.size ∷ b64encode c.root ∷ c.extensions) ≡ false =
      ground (arith, g1.0, digits-full c.size size, b64encode-full c.root root, ext.0) in
    let few : ltb (suc (suc (suc (length c.extensions)))) 3 ≡ false = ground arith in
    let ls : split 10 body ≡ c.origin ∷ digits c.size ∷ b64encode c.root ∷ c.extensions =
      split-join 10 c.origin (digits c.size ∷ b64encode c.root ∷ c.extensions)
        (all_free-clean (c.origin ∷ digits c.size ∷ b64encode c.root ∷ c.extensions) clean) in
    rw
      (
        ← made,
        ends_line-snoc body,
        without_last-snoc body 10,
        ls,
        few,
        full,
        join-clean c.origin (digits c.size ∷ b64encode c.root ∷ c.extensions) clean,
        is_decimal-digits c.size size,
        value_of-digits c.size,
        g2.0,
        b64decode_strict-b64encode c.root bytes,
        root,
        (bytes_eq_iff (b64encode c.root) _).1 refl,
      )
      refl
