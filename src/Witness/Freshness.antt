-- ===== src/Witness/Freshness.antt =====
-- Whom a relying party has counted.
use cryptovalid_opencore.Prelude.{
  ℕ, ◌≡◌, ◌≢◌, refl, sym, ◌⊎◌, Bool, true, false, Option, none, some, List, [], ◌∷◌, ltb, if-holds,
  arith,
}
use cryptovalid_opencore.Bytes.{bytes_eq, bytes_eq_iff}
use cryptovalid_opencore.Json.{Text, text_ltb}
use cryptovalid_opencore.Checkpoint.Verify.{Verified}
use cryptovalid_opencore.Dicts.{or_default, lookup, set}
use cryptovalid_opencore.Dicts.All.{All, Item, set-All, lookup-All}
use cryptovalid_opencore.Witness.Relying.{
  Times, max_of, is_cosigner_type, with_time, witness_times, insert_name, names_where,
}
use cryptovalid_opencore.Witness.Chain.{eq_only}

-- no text twice
abbrev pub Distinct : List Text → Type 0
Distinct [] = Unit
Distinct (n ∷ ns) = All (λ m. m ≢ n) ns × Distinct ns

abbrev pub DistinctKeys : Times → Type 0
DistinctKeys [] = Unit
DistinctKeys ((n, t) ∷ d) = All (Item (λ m s. m ≢ n)) d × DistinctKeys d

pub insert_name-All :
    (P : Text → Type 0) (n : Text) (ns : List Text) → P n → All P ns → All P (insert_name n ns)
unfolding insert_name
insert_name-All P n [] p h = (p, tt)
insert_name-All P n (m ∷ ms) p h =
    if-holds (All P) (text_ltb m n) (λ _. (h.0, insert_name-All P n ms p h.1)) (λ _. (p, h))

insert_name-Distinct :
    (n : Text) (ns : List Text) → All (λ m. m ≢ n) ns → Distinct ns → Distinct (insert_name n ns)
unfolding insert_name
insert_name-Distinct n [] a d = (tt, tt)
insert_name-Distinct n (m ∷ ms) a d =
    if-holds Distinct (text_ltb m n)
      (λ _. (
        insert_name-All (λ x. x ≢ m) n ms (λ e. a.0 (sym e)) d.0,
        insert_name-Distinct n ms a.1 d.1,
      ))
      (λ _. (a, d))

module _ (test : ℕ → Bool) where
  pub names_where-All :
      (Q : Text → ℕ → Type 0) (P : Text → Type 0)
      → ((n : Text) (t : ℕ) → Q n t → test t ≡ true → P n)
      → (d : Times) → All (Item Q) d
      → All P (names_where test d)
  unfolding names_where
  names_where-All Q P f [] h = tt
  names_where-All Q P f ((n, t) ∷ d) h =
      if-holds (All P) (test t)
        (λ e. insert_name-All P n _ (f n t h.0 e) (names_where-All Q P f d h.1))
        (λ _. names_where-All Q P f d h.1)

  pub names_where-Distinct : (d : Times) → DistinctKeys d → Distinct (names_where test d)
  unfolding names_where
  names_where-Distinct [] h = tt
  names_where-Distinct ((n, t) ∷ d) h =
      if-holds Distinct (test t)
        (λ e.
          insert_name-Distinct n _
            (names_where-All (λ m s. m ≢ n) (λ m. m ≢ n) (λ m s p q. p) d h.0)
            (names_where-Distinct d h.1))
        (λ _. names_where-Distinct d h.1)

set-DistinctKeys :
    (k : Text) (v : ℕ) (d : Times) → DistinctKeys d → DistinctKeys (set bytes_eq k v d)
unfolding set
set-DistinctKeys k v [] h = (tt, tt)
set-DistinctKeys k v ((n, t) ∷ d) h =
    if-holds DistinctKeys (bytes_eq n k) (λ _. h)
      (λ other. (
        set-All bytes_eq eq_only (λ m s. m ≢ n) k v d h.0 (apart other),
        set-DistinctKeys k v d h.1,
      ))
  where
    apart : bytes_eq n k ≡ false → k ≢ n
    apart other e = cc (other, (bytes_eq_iff n k).1 (sym e))

-- membership in a list
abbrev pub OneOf : Verified → List Verified → Type 0
OneOf u [] = ⊥
OneOf u (v ∷ vs) = (u ≡ v) ⊎ OneOf u vs

module _ (all : List Verified) where
  -- the name and the time of a verified line of a cosigner
  abbrev pub Cosigned : Text → ℕ → Type 0
  Cosigned n t =
      (u : Verified) × OneOf u all
      × (u.name ≡ n)
      × (is_cosigner_type u.typ ≡ true)
      × (or_default 0 u.timestamp ≡ t)

  with_time-Cosigned :
      (u : Verified) (d : Times)
      → OneOf u all
      → is_cosigner_type u.typ ≡ true
      → All (Item Cosigned) d
      → All (Item Cosigned) (with_time u d)
  with_time-Cosigned u d m c h =
      set-All bytes_eq eq_only Cosigned u.name _ d h (newest (lookup bytes_eq u.name d) refl)
    where
      mine : Cosigned u.name (or_default 0 u.timestamp)
      mine = (u, m, refl, c, refl)

      newest :
          (o : Option ℕ)
          → lookup bytes_eq u.name d ≡ o
          → Cosigned u.name (max_of (or_default 0 o) (or_default 0 u.timestamp))
      newest none e =
          if-holds (Cosigned u.name) (ltb 0 (or_default 0 u.timestamp)) (λ _. mine)
            (λ z. (u, m, refl, c, ground (arith, z)))
      newest (some t) e =
          if-holds (Cosigned u.name) (ltb t (or_default 0 u.timestamp)) (λ _. mine)
            (λ _. lookup-All bytes_eq eq_only Cosigned u.name d h e)

  pub witness_times-Cosigned :
      (vs : List Verified) (d : Times)
      → All (λ u. OneOf u all) vs
      → All (Item Cosigned) d × DistinctKeys d
      → All (Item Cosigned) (witness_times vs d) × DistinctKeys (witness_times vs d)
  unfolding witness_times
  witness_times-Cosigned [] d m h = h
  witness_times-Cosigned (v ∷ vs) d m h = witness_times-Cosigned vs _ m.1 (
      if-holds (λ e. All (Item Cosigned) e × DistinctKeys e) (is_cosigner_type v.typ)
        (λ c. (with_time-Cosigned v d m.0 c h.0, set-DistinctKeys v.name _ d h.1)) (λ _. h))
