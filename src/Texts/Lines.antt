-- ===== src/Texts/Lines.antt =====
-- Splitting a text into lines and joining them again.
use cryptovalid_opencore.Prelude.{
  ℕ, ◌≡◌, refl, ap, ◌∙◌, inl, inr, Bool, true, false, not, ◌&&◌, ◌||◌, Bool-cases, List, [], ◌∷◌,
  ◌++◌, ◌==◌, ==_iff, arith,
}
use cryptovalid_opencore.Json.{Text}
use cryptovalid_opencore.Texts.{
  push_char, split, join, ends_line, without_last, has_control, has_control_in_line,
}

-- the separator is not in it
unfoldable pub free : ℕ → Text → Bool
free d [] = true
free d (c ∷ t) = not (c == d) && free d t

unfoldable pub all_free : ℕ → List Text → Bool
all_free d [] = true
all_free d (l ∷ ls) = free d l && all_free d ls

split-free : (d : ℕ) (l : Text) → free d l ≡ true → split d l ≡ l ∷ []
unfolding split free
split-free d [] h = refl
split-free d (c ∷ l) h =
    let other : (c == d) ≡ false = ground (arith, h) in
    let rest : free d l ≡ true = ground (arith, h) in rw (other, split-free d l rest) refl

split-append : (d : ℕ) (l t : Text) → free d l ≡ true → split d (l ++ (d ∷ t)) ≡ l ∷ split d t
unfolding split free
split-append d [] t h = let e : (d == d) ≡ true = ground arith in rw e refl
split-append d (c ∷ l) t h =
    let other : (c == d) ≡ false = ground (arith, h) in
    let rest : free d l ≡ true = ground (arith, h) in rw (other, split-append d l t rest) refl

pub split-join :
    (d : ℕ) (l : Text) (ls : List Text)
    → all_free d (l ∷ ls) ≡ true
    → split d (join d (l ∷ ls)) ≡ l ∷ ls
unfolding join all_free
split-join d l [] h = split-free d l (ground (arith, h))
split-join d l (m ∷ ls) h =
    let here : free d l ≡ true = ground (arith, h) in
    let rest : (free d m && all_free d ls) ≡ true = ground (arith, h) in
    split-append d l (join d (m ∷ ls)) here ∙ ap (λ t. l ∷ t) (split-join d m ls rest)

pub split-shape : (d : ℕ) (t : Text) → (l : Text) × (ls : List Text) × (split d t ≡ l ∷ ls)
unfolding split
split-shape d [] = ([], [], refl)
split-shape d (c ∷ t) =
    let (l, ls, e) = split-shape d t in
    elim (Bool-cases (c == d)) [
      | inl same ↦ ([], split d t, rw same refl)
      | inr other ↦ (c ∷ l, ls, rw (other, e) refl)
    ]

join-push_char :
    (d c : ℕ) (l : Text) (ls : List Text) → join d (push_char c (l ∷ ls)) ≡ c ∷ join d (l ∷ ls)
unfolding join
join-push_char d c l [] = refl
join-push_char d c l (m ∷ ls) = refl

-- the lines of a text, joined, are the text
pub join-split : (d : ℕ) (t : Text) → join d (split d t) ≡ t
unfolding split join
join-split d [] = refl
join-split d (c ∷ t) =
    let (l, ls, e) = split-shape d t in
    let rest : join d (l ∷ ls) ≡ t = rw (← e) (join-split d t) in
    elim (Bool-cases (c == d)) [
      | inl same ↦ rw (same, (==_iff c d).0 same, e) (ap (λ u. d ∷ u) rest)
      | inr other ↦ rw (other, e) (join-push_char d c l ls ∙ ap (λ u. c ∷ u) rest)
    ]

pub ends_line-snoc : (t : Text) → ends_line (t ++ 10 ∷ []) ≡ true
unfolding ends_line
ends_line-snoc [] = refl
ends_line-snoc (c ∷ []) = refl
ends_line-snoc (c ∷ d ∷ t) = ends_line-snoc (d ∷ t)

pub without_last-snoc : (t : Text) (c : ℕ) → without_last (t ++ c ∷ []) ≡ t
unfolding without_last
without_last-snoc [] c = refl
without_last-snoc (b ∷ []) c = refl
without_last-snoc (b ∷ d ∷ t) c = ap (λ u. b ∷ u) (without_last-snoc (d ∷ t) c)

pub ends_line-eq : (t : Text) → ends_line t ≡ true → t ≡ without_last t ++ 10 ∷ []
unfolding ends_line without_last
ends_line-eq [] h = cc h
ends_line-eq (c ∷ []) h = let e : c ≡ 10 = ground (arith, h) in rw e refl
ends_line-eq (c ∷ d ∷ t) h = ap (λ u. c ∷ u) (ends_line-eq (d ∷ t) h)

pub has_control-free : (t : Text) → has_control t ≡ false → free 10 t ≡ true
unfolding has_control free
has_control-free [] h = refl
has_control-free (c ∷ t) h =
    let rest : has_control t ≡ false = ground (arith, h) in
    ground (arith, h, has_control-free t rest)

pub has_control_in_line-append :
    (a b : Text) → has_control_in_line (a ++ b) ≡ (has_control_in_line a || has_control_in_line b)
unfolding has_control_in_line
has_control_in_line-append [] b = refl
has_control_in_line-append (c ∷ a) b = ground (arith, has_control_in_line-append a b)

pub has_control-weaken : (t : Text) → has_control t ≡ false → has_control_in_line t ≡ false
unfolding has_control has_control_in_line
has_control-weaken [] h = refl
has_control-weaken (c ∷ t) h =
    let rest : has_control t ≡ false = ground (arith, h) in
    ground (arith, h, has_control-weaken t rest)
