-- ===== src/Merkle/Split.antt =====
-- The split point of the tree, `_largest_pow2_below`, and how it halves from one level to the next.
use cryptovalid_opencore.Prelude.{
  ℕ, zero, suc, ◌+◌, ◌*◌, ◌/◌, ◌≤◌, ◌<◌, ◌≡◌, refl, sym, ap, ◌∙◌, arith, true, inl, inr, ltb,
  Bool-cases,
}
use cryptovalid_opencore.Merkle.{pow2_loop, largest_pow2_below}

-- any two sufficient fuels give one result
pow2_loop_fuel : (f g n k : ℕ) → 1 ≤ k → n ≤ k + f → n ≤ k + g → pow2_loop f n k ≡ pow2_loop g n k
unfolding pow2_loop
pow2_loop_fuel zero zero n k p a b = refl
pow2_loop_fuel zero (suc g) n k p a b = ground arith
pow2_loop_fuel (suc f) zero n k p a b = ground arith
pow2_loop_fuel (suc f) (suc g) n k p a b = elim (Bool-cases (ltb k n)) [
  | inl less ↦ rw less (pow2_loop_fuel f g n (k * 2) (omega arith) (omega arith) (omega arith))
  | inr more ↦ rw more
]

pow2_loop-double : (f n k : ℕ) → pow2_loop f n (k * 2) ≡ pow2_loop f ((n + 1) / 2) k * 2
unfolding pow2_loop
pow2_loop-double zero n k = refl
pow2_loop-double (suc f) n k = elim (Bool-cases (ltb k ((n + 1) / 2))) [
  | inl less ↦
      let e : ltb (k * 2) n ≡ ltb k ((n + 1) / 2) = ground arith in
      rw (e, less) (pow2_loop-double f n (k * 2))
  | inr more ↦ let e : ltb (k * 2) n ≡ ltb k ((n + 1) / 2) = ground arith in rw (e, more)
]

pow2_loop-ge : (f n k : ℕ) → 1 ≤ k → n ≤ k + f → n ≤ pow2_loop f n k
unfolding pow2_loop
pow2_loop-ge zero n k p a = omega arith
pow2_loop-ge (suc f) n k p a = ground (arith, pow2_loop-ge f n (k * 2) (omega arith) (omega arith))

pow2_loop-lt : (f n k : ℕ) → k < n * 2 → pow2_loop f n k < n * 2
unfolding pow2_loop
pow2_loop-lt zero n k p = p
pow2_loop-lt (suc f) n k p = ground (arith, pow2_loop-lt f n (k * 2))

-- the smallest power of two that is not below n
abbrev ceiling : ℕ → ℕ
ceiling n = pow2_loop n n 1

ceiling-double : (n : ℕ) → 2 ≤ n → ceiling n ≡ ceiling ((n + 1) / 2) * 2
unfolding pow2_loop
ceiling-double zero h = elim h [ ]
ceiling-double (suc n) h =
    let less : ltb 1 (suc n) ≡ true = ground arith in
    rw less (
      pow2_loop-double n (suc n) 1
      ∙ ap (λ r. r * 2)
          (pow2_loop_fuel n ((suc n + 1) / 2) ((suc n + 1) / 2) 1 (omega arith) (omega arith)
            (omega arith)))

-- the split point of n leaves is the power of two that covers half of them
pub split-ceiling : (n : ℕ) → 2 ≤ n → largest_pow2_below n ≡ ceiling ((n + 1) / 2)
unfolding largest_pow2_below
split-ceiling n h = omega (arith, ceiling-double n h)

module _ (n : ℕ) (h : 2 ≤ n) where
  pub split-pos : 1 ≤ largest_pow2_below n
  split-pos = omega (
    arith,
    split-ceiling n h,
    pow2_loop-ge ((n + 1) / 2) ((n + 1) / 2) 1 (omega arith) (omega arith),
  )

  pub split-lt : largest_pow2_below n < n
  unfolding largest_pow2_below
  split-lt = omega (arith, pow2_loop-lt n n 1 (omega arith), split-pos)

  pub split-half : n ≤ largest_pow2_below n * 2
  split-half = omega (
    arith,
    split-ceiling n h,
    pow2_loop-ge ((n + 1) / 2) ((n + 1) / 2) 1 (omega arith) (omega arith),
  )

pub split_two : largest_pow2_below 2 ≡ 1
unfolding largest_pow2_below
split_two = refl

-- one level up there are (n + 1) / 2 nodes, and the split point has halved
pub split-double : (n : ℕ) → 3 ≤ n → largest_pow2_below n ≡ largest_pow2_below ((n + 1) / 2) * 2
split-double n h =
    split-ceiling n (omega arith)
    ∙ (ceiling-double ((n + 1) / 2) (omega arith)
        ∙ ap (λ r. r * 2) (sym (split-ceiling ((n + 1) / 2) (omega arith))))
