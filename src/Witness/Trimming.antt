-- ===== src/Witness/Trimming.antt =====
-- The loop of `_note_future` ends within its bounds.
use cryptovalid_opencore.Prelude.{
  ℕ, zero, suc, ◌+◌, ◌≤◌, ◌<◌, ◌≡◌, refl, subst, ◌⊎◌, inl, inr, Bool, true, false, ◌||◌, Bool-cases,
  Option, none, some, [], ◌∷◌, length, ltb, ◌==◌, if◌then◌else◌, if-holds, arith,
}
use cryptovalid_opencore.Dicts.{remove}
use cryptovalid_opencore.Dicts.All.{All, Item}
use cryptovalid_opencore.Witness.{Roots, Sizes, ring_size, pending_bytes}
use cryptovalid_opencore.Witness.Pending.{
  note_count, byte_count, smallest, without_first, after, pop_at, drop_smallest, too_much,
  trim_fuel, trim,
}

measure : Sizes → ℕ
measure sizes = note_count sizes + length sizes

has_size : ℕ → Sizes → Bool
has_size m [] = false
has_size m ((n, roots) ∷ rest) = n == m || has_size m rest

smallest-has_size :
    (n : ℕ) (rest : Sizes) → (smallest n rest ≡ n) ⊎ (has_size (smallest n rest) rest ≡ true)
unfolding smallest has_size
smallest-has_size n [] = inl refl
smallest-has_size n ((m, roots) ∷ rest) = elim (smallest-has_size (if ltb m n then m else n) rest) [
  | inr h ↦ inr (ground (arith, h))
  | inl e ↦ elim (Bool-cases (ltb m n)) [
    | inl l ↦ inr (rw l (ground (arith, rw l at e)))
    | inr l ↦ inl (rw l (rw l at e))
  ]
]

-- every size has a root
abbrev pub HasRoots : ℕ → Roots → Type 0
HasRoots n [] = ⊥
HasRoots n (r ∷ roots) = Unit

abbrev pub Rooted : Sizes → Type 0
Rooted sizes = All (Item HasRoots) sizes

-- what is left, if something is
abbrev Smaller : Sizes → Option Sizes → Type 0
Smaller sizes none = Unit
Smaller sizes (some t) = measure t < measure sizes

abbrev Within : Option Sizes → Type 0
Within none = Unit
Within (some t) = too_much t ≡ false

abbrev LeavesRooted : Option Sizes → Type 0
LeavesRooted none = ⊥
LeavesRooted (some t) = Rooted t

without_first-Smaller :
    (n : ℕ) (roots : Roots) (rest : Sizes)
    → Smaller ((n, roots) ∷ rest) (without_first n roots rest)
unfolding measure note_count
without_first-Smaller n [] rest = tt
without_first-Smaller n (r ∷ []) rest = omega arith
without_first-Smaller n (r ∷ s ∷ roots) rest = omega arith

after-Smaller :
    (n : ℕ) (roots : Roots) (rest : Sizes) (left : Option Sizes)
    → Smaller rest left
    → Smaller ((n, roots) ∷ rest) (after (n, roots) left)
unfolding measure note_count
after-Smaller n roots rest none h = tt
after-Smaller n roots rest (some t) h = omega (arith, h)

pop_at-Smaller : (m : ℕ) (sizes : Sizes) → Smaller sizes (pop_at m sizes)
unfolding pop_at
pop_at-Smaller m [] = tt
pop_at-Smaller m ((n, roots) ∷ rest) =
    if-holds (Smaller ((n, roots) ∷ rest)) (n == m) (λ _. without_first-Smaller n roots rest)
      (λ _. after-Smaller n roots rest (pop_at m rest) (pop_at-Smaller m rest))

drop_smallest-Smaller : (sizes : Sizes) → Smaller sizes (drop_smallest sizes)
unfolding drop_smallest
drop_smallest-Smaller [] = tt
drop_smallest-Smaller ((n, roots) ∷ rest) = pop_at-Smaller (smallest n rest) ((n, roots) ∷ rest)

without_first-Rooted :
    (n : ℕ) (roots : Roots) (rest : Sizes)
    → Rooted ((n, roots) ∷ rest)
    → LeavesRooted (without_first n roots rest)
without_first-Rooted n [] rest h = h.0
without_first-Rooted n (r ∷ []) rest h = h.1
without_first-Rooted n (r ∷ s ∷ roots) rest h = (tt, h.1)

after-Rooted :
    (n : ℕ) (roots : Roots) (left : Option Sizes)
    → HasRoots n roots
    → LeavesRooted left
    → LeavesRooted (after (n, roots) left)
after-Rooted n roots none h k = k
after-Rooted n roots (some t) h k = (h, k)

pop_at-Rooted :
    (m : ℕ) (sizes : Sizes) → Rooted sizes → has_size m sizes ≡ true → LeavesRooted (pop_at m sizes)
unfolding pop_at has_size
pop_at-Rooted m [] r h = absurd (cc h)
pop_at-Rooted m ((n, roots) ∷ rest) r h =
    if-holds LeavesRooted (n == m) (λ _. without_first-Rooted n roots rest r)
      (λ other.
        after-Rooted n roots (pop_at m rest) r.0
          (pop_at-Rooted m rest r.1 (ground (arith, other, h))))

drop_smallest-Rooted :
    (n : ℕ) (roots : Roots) (rest : Sizes)
    → Rooted ((n, roots) ∷ rest)
    → LeavesRooted (drop_smallest ((n, roots) ∷ rest))
unfolding drop_smallest has_size
drop_smallest-Rooted n roots rest r =
    pop_at-Rooted (smallest n rest) ((n, roots) ∷ rest) r (occurs (smallest-has_size n rest))
  where
    occurs :
        (smallest n rest ≡ n) ⊎ (has_size (smallest n rest) rest ≡ true)
        → has_size (smallest n rest) ((n, roots) ∷ rest) ≡ true
    occurs (inl e) = rw e (ground arith)
    occurs (inr h) = ground (arith, h)

nothing_fits : too_much [] ≡ false
unfolding too_much note_count byte_count
nothing_fits = refl

trim_fuel-Within : (fuel : ℕ) (sizes : Sizes) → measure sizes ≤ fuel → Within (trim_fuel fuel sizes)
unfolding trim_fuel measure
trim_fuel-Within zero [] h = nothing_fits
trim_fuel-Within zero (i ∷ sizes) h = absurd (omega arith)
trim_fuel-Within (suc fuel) sizes h = elim (Bool-cases (too_much sizes)) [
  | inr e ↦ rw (e, trim_fuel) e
  | inl e ↦
      rw (e, trim_fuel)
        (next (λ t. trim_fuel-Within fuel t) (drop_smallest sizes) (drop_smallest-Smaller sizes))
]
  where
    next :
        ((t : Sizes) → measure t ≤ fuel → Within (trim_fuel fuel t))
        → (left : Option Sizes) → Smaller sizes left
        → Within (elim left [ none ↦ none | some less ↦ trim_fuel fuel less ])
    next rec none k = tt
    next rec (some less) k = rec less (omega (arith, h, k))

trim_fuel-Rooted : (fuel : ℕ) (sizes : Sizes) → Rooted sizes → LeavesRooted (trim_fuel fuel sizes)
unfolding trim_fuel
trim_fuel-Rooted zero sizes r = r
trim_fuel-Rooted (suc fuel) sizes r = elim (Bool-cases (too_much sizes)) [
  | inr e ↦ rw (e, trim_fuel) r
  | inl e ↦
      rw (e, trim_fuel)
        (next (λ t. trim_fuel-Rooted fuel t) (drop_smallest sizes) (dropped sizes r e))
]
  where
    dropped : (t : Sizes) → Rooted t → too_much t ≡ true → LeavesRooted (drop_smallest t)
    dropped [] k many = absurd (cc (many, nothing_fits))
    dropped ((n, roots) ∷ rest) k many = drop_smallest-Rooted n roots rest k

    next :
        ((t : Sizes) → Rooted t → LeavesRooted (trim_fuel fuel t))
        → (left : Option Sizes) → LeavesRooted left
        → LeavesRooted (elim left [ none ↦ none | some less ↦ trim_fuel fuel less ])
    next rec none k = k
    next rec (some less) k = rec less k

-- within the bounds of an origin
abbrev pub Fits : Sizes → Type 0
Fits sizes = (note_count sizes ≤ ring_size) × (byte_count sizes ≤ pending_bytes)

too_much-Fits : (sizes : Sizes) → too_much sizes ≡ false → Fits sizes
unfolding too_much
too_much-Fits sizes h = ground arith

pub trim-within : (sizes t : Sizes) → trim sizes ≡ some t → Fits t
unfolding trim measure
trim-within sizes t e =
    too_much-Fits t
      (subst Within e (trim_fuel-Within (note_count sizes + length sizes) sizes (omega arith)))

-- The loop that drops the pending roots of the smallest sizes ends, without an exception, with at most
-- 100 roots and at most 262,144 bytes of notes, whatever sizes it starts from that have a root each; and
-- each size that it leaves has a root.
pub trim-Fits :
    (sizes : Sizes) → Rooted sizes → (t : Sizes) × (trim sizes ≡ some t) × Fits t × Rooted t
unfolding trim
trim-Fits sizes r =
    by_trim (trim sizes) refl (trim_fuel-Rooted (note_count sizes + length sizes) sizes r)
  where
    by_trim :
        (left : Option Sizes)
        → trim sizes ≡ left
        → LeavesRooted left
        → (t : Sizes) × (trim sizes ≡ some t) × Fits t × Rooted t
    by_trim none e k = absurd k
    by_trim (some t) e k = (t, e, trim-within sizes t e, k)

remove_fewer :
    (m : ℕ) (sizes : Sizes)
    → (note_count (remove (◌==◌) m sizes) ≤ note_count sizes)
      × (byte_count (remove (◌==◌) m sizes) ≤ byte_count sizes)
unfolding remove note_count byte_count
remove_fewer m [] = (omega arith, omega arith)
remove_fewer m ((k, roots) ∷ rest) =
    let r = remove_fewer m rest in
    if-holds
      (λ t.
        (note_count t ≤ note_count ((k, roots) ∷ rest))
        × (byte_count t ≤ byte_count ((k, roots) ∷ rest)))
      (k == m) (λ _. (omega arith, omega arith)) (λ _. (omega (arith, r.0), omega (arith, r.1)))

pub remove-Fits : (n : ℕ) (sizes : Sizes) → Fits sizes → Fits (remove (◌==◌) n sizes)
remove-Fits n sizes h =
    let r = remove_fewer n sizes in (omega (arith, h.0, r.0), omega (arith, h.1, r.1))
