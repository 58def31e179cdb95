-- ===== src/Merkle/Positions.antt =====
-- The directions from the root to a leaf, and extra steps above the root.
use mathlib.Core.List.{reverse, reverse-append, reverse_aux}
use cryptovalid_opencore.Prelude.{
  ℕ, zero, suc, ◌+◌, ◌-◌, ◌*◌, ◌/◌, ◌≤◌, ◌<◌, ◌≡◌, refl, ap, ◌∙◌, arith, Bool, true, false, inl,
  inr, List, [], ◌∷◌, map, map-append, length, length-map, take, drop, length-take, length-drop,
  ltb, ltb→lt, odd, ◌==◌, ==_iff, Bool-cases,
}
use cryptovalid_opencore.Bytes.{Bytes, Digest}
use cryptovalid_opencore.Merkle.{pow2_loop, largest_pow2_below}
use cryptovalid_opencore.Merkle.Split.{split-pos, split-lt, split-half}
use cryptovalid_opencore.Merkle.Levels.{
  is_right, sibling_right, sibling_left, pair, path, length-pair, path-pair, path_one,
}
use cryptovalid_opencore.Merkle.Tree.{split_at}
use cryptovalid_opencore.Merkle.Audit.{path-left, path-right}
use cryptovalid_opencore.Merkle.Descent.{Reaches, here, left, right}

abbrev pow2 : ℕ → ℕ
pow2 zero = 1
pow2 (suc a) = pow2 a * 2

pow2-pos : (a : ℕ) → 1 ≤ pow2 a
pow2-pos zero = omega arith
pow2-pos (suc a) = omega (arith, pow2-pos a)

-- between two powers of two there is a factor of two
pow2_gap : (a b : ℕ) → pow2 b < pow2 a → pow2 b * 2 ≤ pow2 a
pow2_gap zero b h = absurd (omega (arith, pow2-pos b))
pow2_gap (suc a) zero h = omega (arith, pow2-pos a)
pow2_gap (suc a) (suc b) h = omega (arith, pow2_gap a b (omega arith))

pow2_loop-pow2 : (f n a : ℕ) → (b : ℕ) × (pow2_loop f n (pow2 a) ≡ pow2 b)
unfolding pow2_loop
pow2_loop-pow2 zero n a = (a, refl)
pow2_loop-pow2 (suc f) n a = elim (Bool-cases (ltb (pow2 a) n)) [
  | inl more ↦ rw more (pow2_loop-pow2 f n (suc a))
  | inr done ↦ (a, rw done)
]

half_of_pow2 : (k b : ℕ) → 1 ≤ k → k ≡ pow2 b / 2 → (a : ℕ) × (k ≡ pow2 a)
half_of_pow2 k zero p e = absurd (omega arith)
half_of_pow2 k (suc a) p e = (a, omega arith)

-- the split point is a power of two
pub split-pow2 : (n : ℕ) → 2 ≤ n → (a : ℕ) × (largest_pow2_below n ≡ pow2 a)
unfolding largest_pow2_below
split-pow2 n h =
    let (b, e) = pow2_loop-pow2 n n 0 in
    half_of_pow2 (largest_pow2_below n) b (split-pos n h) (ap (λ t. t / 2) e)

split-le-pow2 : (n a : ℕ) → 2 ≤ n → n ≤ pow2 (suc a) → largest_pow2_below n ≤ pow2 a
split-le-pow2 n a h p =
    let (b, e) = split-pow2 n h in
    let lt = split-lt n h in omega (arith, pow2_gap (suc a) b (omega arith))

-- a tree of at most 2^a leaves has depth at most a
Reaches-depth : {n j : ℕ} {ds : List Bool} (a : ℕ) → Reaches n ds j → n ≤ pow2 a → length ds ≤ a
Reaches-depth a (here e) p = omega arith
Reaches-depth zero (left h r) p = absurd (omega arith)
Reaches-depth {n} (suc a) (left {ds} h r) p =
    omega (arith, Reaches-depth a r (split-le-pow2 n a h p))
Reaches-depth zero (right h r e) p = absurd (omega arith)
Reaches-depth {n} (suc a) (right {ds} h r e) p =
    let half = split-half n h in
    let small = split-le-pow2 n a h p in omega (arith, Reaches-depth a r (omega arith))

Reaches-right :
    {n : ℕ} {ds : List Bool} {j : ℕ}
    → Reaches n (true ∷ ds) j
    → (2 ≤ n) × ((i : ℕ) × Reaches (n - largest_pow2_below n) ds i × (j ≡ largest_pow2_below n + i))
Reaches-right (right {i} h r e) = (h, (i, r, e))

Reaches-left :
    {n : ℕ} {ds : List Bool} {j : ℕ}
    → Reaches n (false ∷ ds) j
    → Reaches (largest_pow2_below n) ds j
Reaches-left (left h r) = r

Reaches-nil : {n j : ℕ} → Reaches n [] j → j ≡ 0
Reaches-nil (here e) = refl

-- e steps to the right in front
abbrev pub spine : ℕ → List Bool → List Bool
spine zero ds = ds
spine (suc e) ds = true ∷ spine e ds

pub spine-true : (e : ℕ) (ds : List Bool) → spine e (true ∷ ds) ≡ true ∷ spine e ds
spine-true zero ds = refl
spine-true (suc e) ds = ap (λ t. true ∷ t) (spine-true e ds)

length-spine : (e : ℕ) (ds : List Bool) → length (spine e ds) ≡ e + length ds
length-spine zero ds = omega arith
length-spine (suc e) ds = omega (arith, length-spine e ds)

length-reverse_aux : (xs ys : List Bool) → length (reverse_aux xs ys) ≡ length xs + length ys
length-reverse_aux [] ys = omega arith
length-reverse_aux (x ∷ xs) ys = omega (arith, length-reverse_aux xs (x ∷ ys))

module _ (D : Digest) where
  abbrev pub dirs : ℕ → List Bytes → List Bool
  dirs i xs = map is_right (path D i xs)

  -- in a tree of 2^a leaves every path has a steps
  length-path-pow2 :
      (a i : ℕ) (xs : List Bytes) → length xs ≡ pow2 a → i < length xs → length (path D i xs) ≡ a
  length-path-pow2 zero i xs e h = ap length (path_one D i xs e)
  length-path-pow2 (suc a) i xs e h =
      let l = length-pair D xs in
      let pos = pow2-pos a in
      let above = length-path-pow2 a (i / 2) (pair D xs) (omega arith) (omega arith) in
      rw (path-pair D i xs h) (elim (Bool-cases (odd i)) [
        | inl r ↦ rw (sibling_right i xs r) (omega arith)
        | inr e' ↦ rw (sibling_left i xs e' (ground arith)) (omega arith)
      ])

  down_left :
      (i : ℕ) (xs : List Bytes)
      → 2 ≤ length xs
      → i < split_at xs
      → reverse (dirs i xs) ≡ false ∷ reverse (dirs i (take (split_at xs) xs))
  down_left i xs h p =
      ap (λ t. reverse (map is_right t)) (path-left D i xs h p)
      ∙ (ap reverse (map-append is_right (path D i (take (split_at xs) xs)) _)
          ∙ reverse-append (dirs i (take (split_at xs) xs)) (false ∷ []))

  down_right :
      (i : ℕ) (xs : List Bytes)
      → 2 ≤ length xs
      → split_at xs ≤ i
      → i < length xs
      → reverse (dirs i xs) ≡ true ∷ reverse (dirs (i - split_at xs) (drop (split_at xs) xs))
  down_right i xs h p q =
      ap (λ t. reverse (map is_right t)) (path-right D i xs h p q)
      ∙ (ap reverse (map-append is_right (path D (i - split_at xs) (drop (split_at xs) xs)) _)
          ∙ reverse-append (dirs (i - split_at xs) (drop (split_at xs) xs)) (true ∷ []))

  -- left of the split point the path has its full length: a step in front leads too deep
  too_deep :
      (e i j : ℕ) (xs : List Bytes)
      → 2 ≤ length xs
      → i < split_at xs
      → Reaches (length xs) (true ∷ spine e (false ∷ reverse (dirs i (take (split_at xs) xs)))) j
      → ⊥
  too_deep e i j xs h p r =
      let k = split_at xs in
      let (b, power) = split-pow2 (length xs) h in
      let small = split-lt (length xs) h in
      let half = split-half (length xs) h in
      let size : length (take k xs) ≡ k = omega (arith, length-take k xs) in
      let full = length-path-pow2 b i (take k xs) (size ∙ power) (omega arith) in
      let (_, (_, below, _)) = Reaches-right r in
      let bound = Reaches-depth b below (omega arith) in
      absurd (
        omega (
          arith,
          bound,
          full,
          length-spine e (false ∷ reverse (dirs i (take k xs))),
          length-reverse_aux (dirs i (take k xs)) [],
          length-map is_right (path D i (take k xs)),
        ))

  unique_one :
      (e i j : ℕ) (xs : List Bytes)
      → length xs ≡ 1
      → i < 1
      → Reaches (length xs) (spine e (reverse (dirs i xs))) j
      → j ≡ i
  unique_one zero i j xs h p r = Reaches-nil (rw (path_one D i xs h) at r) ∙ omega arith
  unique_one (suc e) i j xs h p r = absurd (omega (arith, (Reaches-right r).0))

  unique_left :
      (e i j : ℕ) (xs : List Bytes)
      → ((t : ℕ)
          → Reaches (length (take (split_at xs) xs)) (reverse (dirs i (take (split_at xs) xs))) t
          → t ≡ i)
      → 2 ≤ length xs
      → i < split_at xs
      → Reaches (length xs) (spine e (reverse (dirs i xs))) j
      → j ≡ i
  unique_left zero i j xs ih h p r =
      let small = split-lt (length xs) h in
      let size : length (take (split_at xs) xs) ≡ split_at xs =
        omega (arith, length-take (split_at xs) xs) in
      ih j (rw size (Reaches-left (rw (down_left i xs h p) at r)))
  unique_left (suc e) i j xs ih h p r =
      absurd (too_deep e i j xs h p (rw (down_left i xs h p) at r))

  unique_right :
      (e i j : ℕ) (xs : List Bytes)
      → ((t : ℕ)
          → Reaches
              (length (drop (split_at xs) xs))
              (spine e (reverse (dirs (i - split_at xs) (drop (split_at xs) xs))))
              t
          → t ≡ i - split_at xs)
      → 2 ≤ length xs
      → split_at xs ≤ i
      → i < length xs
      → Reaches (length xs) (spine e (reverse (dirs i xs))) j
      → j ≡ i
  unique_right e i j xs ih h p q r =
      let (_, (t, below, at_j)) = Reaches-right (
        rw (spine-true e (reverse (dirs (i - split_at xs) (drop (split_at xs) xs)))) at
          (rw (down_right i xs h p q) at r)) in
      omega (arith, at_j, ih t (rw (length-drop (split_at xs) xs) below))

  Reaches-unique_below :
      (bound e i j : ℕ) (xs : List Bytes)
      → length xs ≤ bound
      → i < length xs
      → Reaches (length xs) (spine e (reverse (dirs i xs))) j
      → j ≡ i
  Reaches-unique_below zero e i j xs p q r = absurd (omega arith)
  Reaches-unique_below (suc bound) e i j xs p q r = elim (Bool-cases (length xs == 1)) [
    | inl one ↦ unique_one e i j xs ((==_iff _ _).0 one) (ground arith) r
    | inr more ↦
        let two : 2 ≤ length xs = ground arith in
        let k = split_at xs in
        let pos = split-pos (length xs) two in
        let small = split-lt (length xs) two in
        let in_left = length-take k xs in
        let in_right = length-drop k xs in
        elim (Bool-cases (ltb i k)) [
          | inl below ↦
              let inside = ltb→lt i k below in
              unique_left e i j xs
                (λ t r'.
                  Reaches-unique_below bound 0 i t (take k xs) (omega arith) (omega arith) r')
                two inside r
          | inr above ↦
              let beyond : k ≤ i = ground arith in
              unique_right e i j xs
                (λ t r'.
                  Reaches-unique_below bound e (i - k) t (drop k xs) (omega arith) (omega arith) r')
                two beyond q r
        ]
  ]

  -- directions to leaf i, with any number of steps to the right in front, reach no other leaf
  pub Reaches-unique :
      (e i j : ℕ) (xs : List Bytes)
      → i < length xs
      → Reaches (length xs) (spine e (reverse (dirs i xs))) j
      → j ≡ i
  Reaches-unique e i j xs = Reaches-unique_below (length xs) e i j xs (omega arith)
