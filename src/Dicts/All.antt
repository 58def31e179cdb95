-- ===== src/Dicts/All.antt =====
-- A property of every item, across the dicts' operations.
use cryptovalid_opencore.Prelude.{
  ℕ, zero, suc, ◌≡◌, inl, inr, Bool, true, Bool-cases, some, List, [], ◌∷◌, ◌++◌, drop, if-holds,
}
use cryptovalid_opencore.Dicts.{lookup, set, remove}

abbrev pub All {ℓ κ} : {A : Type ℓ} → (A → Type κ) → List A → Type κ
All P [] = Unit
All P (x ∷ xs) = P x × All P xs

module _ {ℓ κ} {A : Type ℓ} (P : A → Type κ) where
  pub append-All : (xs ys : List A) → All P xs → All P ys → All P (xs ++ ys)
  append-All [] ys h k = k
  append-All (x ∷ xs) ys h k = (h.0, append-All xs ys h.1 k)

  pub snoc-All : (xs : List A) (y : A) → All P xs → P y → All P (xs ++ y ∷ [])
  snoc-All xs y h k = append-All xs (y ∷ []) h (k, tt)

  pub drop-All : (n : ℕ) (xs : List A) → All P xs → All P (drop n xs)
  drop-All zero xs h = h
  drop-All (suc n) [] h = h
  drop-All (suc n) (x ∷ xs) h = drop-All n xs h.1

pub All-mono {ℓ κ μ} :
    {A : Type ℓ} (P : A → Type κ) (Q : A → Type μ) (xs : List A)
    → ((x : A) → P x → Q x)
    → All P xs
    → All Q xs
All-mono P Q [] f h = tt
All-mono P Q (x ∷ xs) f h = (f x h.0, All-mono P Q xs f h.1)

-- of an item, a property of its key and its value
abbrev pub Item {κ ℓ μ} : {K : Type κ} {V : Type ℓ} → (K → V → Type μ) → K × V → Type μ
Item P i = P i.0 i.1

module _ {κ ℓ μ} {K : Type κ} {V : Type ℓ} (eq : K → K → Bool)
    (eq_only : (a b : K) → (eq a b ≡ true) → a ≡ b) (P : K → V → Type μ) where
  pub lookup-All :
      (k : K) (d : List (K × V)) {v : V} → All (Item P) d → lookup eq k d ≡ some v → P k v
  unfolding lookup
  lookup-All k [] h e = cc e
  lookup-All k ((j, w) ∷ d) {v} h e = elim (Bool-cases (eq j k)) [
    | inl same ↦ let w_is : w ≡ v = cc (rw same at e) in rw (← eq_only j k same, ← w_is) h.0
    | inr differ ↦ lookup-All k d h.1 (rw differ at e)
  ]

  pub set-All :
      (k : K) (v : V) (d : List (K × V)) → All (Item P) d → P k v → All (Item P) (set eq k v d)
  unfolding set
  set-All k v [] h p = (p, tt)
  set-All k v ((j, w) ∷ d) h p =
      if-holds (All (Item P)) (eq j k) (λ same. (rw (eq_only j k same) p, h.1))
        (λ _. (h.0, set-All k v d h.1 p))

  pub remove-All : (k : K) (d : List (K × V)) → All (Item P) d → All (Item P) (remove eq k d)
  unfolding remove
  remove-All k [] h = h
  remove-All k ((j, w) ∷ d) h =
      if-holds (All (Item P)) (eq j k) (λ _. h.1) (λ _. (h.0, remove-All k d h.1))
