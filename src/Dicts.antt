-- ===== src/Dicts.antt =====
-- Python's dicts as lists of items in their order, over the test of equality of their keys.
pub mod All
use cryptovalid_opencore.Prelude.{
  ℕ, ◌-◌, ◌≡◌, refl, ap, ◌≢◌, ◌⊎◌, inl, inr, Bool, true, false, Bool-cases, Option, none, some,
  List, [], ◌∷◌, length, drop, if◌then◌else◌, arith,
}

-- `xs[-n:]`, n > 0
abbrev pub last_n {ℓ} : {A : Type ℓ} → ℕ → List A → List A
last_n n xs = drop (length xs - n) xs

abbrev pub or_default {ℓ} : {A : Type ℓ} → A → Option A → A
or_default d none = d
or_default d (some a) = a

module _ {κ ℓ} {K : Type κ} {V : Type ℓ} (eq : K → K → Bool) where
  -- `d.get(k)`
  unfoldable pub lookup : K → List (K × V) → Option V
  lookup k [] = none
  lookup k ((j, v) ∷ d) = if eq j k then some v else lookup k d

  -- `d[k] = v`: a new key stands last
  unfoldable pub set : K → V → List (K × V) → List (K × V)
  set k v [] = (k, v) ∷ []
  set k v ((j, w) ∷ d) = if eq j k then (j, v) ∷ d else (j, w) ∷ set k v d

  -- `d.pop(k, None)`
  unfoldable pub remove : K → List (K × V) → List (K × V)
  remove k [] = []
  remove k ((j, w) ∷ d) = if eq j k then d else (j, w) ∷ remove k d

  pub lookup-set :
      ((a b : K) → (eq a b ≡ true) → a ≡ b)
      → ((a : K) → eq a a ≡ true)
      → (k j : K) (v : V) (d : List (K × V))
      → lookup j (set k v d) ≡ (if eq k j then some v else lookup j d)
  unfolding lookup set
  lookup-set eq_only eq_refl k j v [] = refl
  lookup-set eq_only eq_refl k j v ((i, w) ∷ d) = elim (Bool-cases (eq i k)) [
    | inl same ↦ rw (same, eq_only i k same) ground arith
    | inr differ ↦
        rw (differ, lookup-set eq_only eq_refl k j v d)
          (elim (Bool-cases (eq k j)) [
            | inr other ↦ rw other refl
            | inl e ↦ let ne : eq i j ≡ false = rw (← eq_only k j e) differ in rw (e, ne) refl
          ])
  ]
