-- ===== src/Merkle/Soundness.antt =====
-- cryptovalid_merkle.py: an arbitrary proof in the loop of `verify_inclusion`, read as a climb of
-- the tree.
use mathlib.Core.List.{reverse_aux}
use cryptovalid_opencore.Prelude.{
  ℕ, zero, suc, ◌+◌, ◌-◌, ◌/◌, ◌≤◌, ◌<◌, ◌≡◌, refl, sym, ap, ◌∙◌, arith, Bool, true, false, ◌⊎◌,
  inl, inr, Option, none, some, List, [], ◌∷◌, map, length, length-map, get_or, ltb, ltb→lt, leb,
  odd, ◌==◌, ==_iff, Bool-cases,
}
use cryptovalid_opencore.Bytes.{Bytes, Digest, Collision, bytes_eq, bytes_eq_iff}
use cryptovalid_opencore.Merkle.{
  leaf_hash, node_hash, mth, shift_even, inclusion_step, inclusion_loop, verify_inclusion,
}
use cryptovalid_opencore.Merkle.Levels.{
  Step, is_right, sibling_right, sibling_left, sibling_alone, pair, length-pair, path-pair,
  path_one,
}
use cryptovalid_opencore.Merkle.Audit.{hashed}
use cryptovalid_opencore.Merkle.Inclusion.{accepts, accepts_alone, loop_odd, loop_even}
use cryptovalid_opencore.Merkle.Descent.{value, descend}
use cryptovalid_opencore.Merkle.Positions.{spine, spine-true, dirs, Reaches-unique}

abbrev is_hash : Bytes → Option Bytes → Bool
is_hash top none = false
is_hash top (some h) = bytes_eq h top

module _ (D : Digest) where
  -- the loop of `verify_inclusion` as a walk along directions; a proof that is too long goes on
  -- to the right
  climb : Bytes → List Bool → List Bytes → Option Bytes
  climb h [] [] = some h
  climb h (d ∷ ds) [] = none
  climb h [] (p ∷ ps) = climb (node_hash D p h) [] ps
  climb h (true ∷ ds) (p ∷ ps) = climb (node_hash D p h) ds ps
  climb h (false ∷ ds) (p ∷ ps) = climb (node_hash D h p) ds ps

  at_root :
      (h : Bytes) (proof : List Bytes) (top : Bytes)
      → accepts top (inclusion_loop D 0 0 h proof) ≡ is_hash top (climb h [] proof)
  unfolding inclusion_loop inclusion_step shift_even climb
  at_root h [] top = refl
  at_root h (p ∷ proof) top = at_root (node_hash D p h) proof top

  -- the walk from the parent of node i agrees, for every hash there and every rest of the proof
  abbrev Above : ℕ → List Bytes → Bytes → Type 0
  Above i xs top =
      (h : Bytes) (proof : List Bytes)
      → accepts top (inclusion_loop D (i / 2) (length (pair D xs) - 1) h proof)
        ≡ is_hash top (climb h (dirs D (i / 2) (pair D xs)) proof)

  climb_right :
      (i : ℕ) (xs : List Bytes) (h : Bytes) (proof : List Bytes) (top : Bytes)
      → Above i xs top
      → odd i ≡ true
      → i < length xs
      → accepts top (inclusion_loop D i (length xs - 1) h proof)
        ≡ is_hash top (climb h (true ∷ dirs D (i / 2) (pair D xs)) proof)
  unfolding climb
  climb_right i xs h [] top above e q = unfold inclusion_loop in ground arith
  climb_right i xs h (p ∷ proof) top above e q =
      let size : length (pair D xs) - 1 ≡ (length xs - 1) / 2 = omega (arith, length-pair D xs) in
      rw (loop_odd D i (length xs - 1) h p proof e) (rw size at (above (node_hash D p h) proof))

  climb_left :
      (i : ℕ) (xs : List Bytes) (h : Bytes) (proof : List Bytes) (top : Bytes)
      → Above i xs top
      → odd i ≡ false
      → i + 1 < length xs
      → accepts top (inclusion_loop D i (length xs - 1) h proof)
        ≡ is_hash top (climb h (false ∷ dirs D (i / 2) (pair D xs)) proof)
  unfolding climb
  climb_left i xs h [] top above e q = unfold inclusion_loop in ground arith
  climb_left i xs h (p ∷ proof) top above e q =
      let size : length (pair D xs) - 1 ≡ (length xs - 1) / 2 = omega (arith, length-pair D xs) in
      rw (loop_even D i (length xs - 1) h p proof e (omega arith))
        (rw size at (above (node_hash D h p) proof))

  climb_alone :
      (i : ℕ) (xs : List Bytes) (h : Bytes) (proof : List Bytes) (top : Bytes)
      → Above i xs top
      → odd i ≡ false
      → 0 < i
      → i + 1 ≡ length xs
      → accepts top (inclusion_loop D i (length xs - 1) h proof)
        ≡ is_hash top (climb h (dirs D (i / 2) (pair D xs)) proof)
  climb_alone i xs h proof top above e q r =
      let here : length xs - 1 ≡ i = omega arith in
      let size : length (pair D xs) - 1 ≡ i / 2 = ground (arith, length-pair D xs) in
      rw here (accepts_alone D i h proof top e q ∙ (rw size at (above h proof)))

  climb_one :
      (i : ℕ) (xs : List Bytes) (h : Bytes) (proof : List Bytes) (top : Bytes)
      → length xs ≡ 1
      → i < 1
      → accepts top (inclusion_loop D i (length xs - 1) h proof)
        ≡ is_hash top (climb h (dirs D i xs) proof)
  climb_one zero xs h proof top e q = rw (path_one D 0 xs e, e) (at_root h proof top)
  climb_one (suc i) xs h proof top e q = absurd (omega arith)

  loop-eq-climb :
      (bound i : ℕ) (xs : List Bytes) (h : Bytes) (proof : List Bytes) (top : Bytes)
      → length xs ≤ bound
      → i < length xs
      → accepts top (inclusion_loop D i (length xs - 1) h proof)
        ≡ is_hash top (climb h (dirs D i xs) proof)
  loop-eq-climb zero i xs h proof top p q = absurd (omega arith)
  loop-eq-climb (suc bound) i xs h proof top p q = elim (Bool-cases (length xs == 1)) [
    | inl one ↦ climb_one i xs h proof top ((==_iff _ _).0 one) (ground arith)
    | inr more ↦
        let l = length-pair D xs in
        let smaller : length (pair D xs) ≤ bound = ground arith in
        let inside : i / 2 < length (pair D xs) = ground arith in
        let above : Above i xs top =
          λ h' proof'. loop-eq-climb bound (i / 2) (pair D xs) h' proof' top smaller inside in
        rw (path-pair D i xs q) (elim (Bool-cases (odd i)) [
          | inl r ↦ rw (sibling_right i xs r) (climb_right i xs h proof top above r q)
          | inr e ↦ elim (Bool-cases (ltb (i + 1) (length xs))) [
            | inl paired ↦
                let next = ltb→lt _ _ paired in
                rw (sibling_left i xs e next) (climb_left i xs h proof top above e next)
            | inr alone ↦
                let last : i + 1 ≡ length xs = ground arith in
                rw (sibling_alone i xs e last)
                  (climb_alone i xs h proof top above e (ground arith) last)
          ]
        ])
  ]

  -- the steps that were climbed, the topmost first
  abbrev Climbed : Bytes → List Bool → List Step → Bytes → Type 0
  Climbed h ds acc top =
      (steps : List Step) × (e : ℕ) × (value D h steps ≡ top)
      × (map is_right steps ≡ spine e (reverse_aux ds (map is_right acc)))

  climb-value :
      (h : Bytes) (acc : List Step) (ds : List Bool) (ps : List Bytes) (top : Bytes)
      → climb (value D h acc) ds ps ≡ some top
      → Climbed h ds acc top
  unfolding climb value
  climb-value h acc [] [] top e = (acc, 0, cc, refl)
  climb-value h acc (d ∷ ds) [] top e = cc
  climb-value h acc [] (p ∷ ps) top e =
      let (steps, n, same, turns) = climb-value h ((true, p) ∷ acc) [] ps top e in
      (steps, suc n, same, turns ∙ spine-true n (map is_right acc))
  climb-value h acc (true ∷ ds) (p ∷ ps) top e = climb-value h ((true, p) ∷ acc) ds ps top e
  climb-value h acc (false ∷ ds) (p ∷ ps) top e = climb-value h ((false, p) ∷ acc) ds ps top e

  is_hash-some : (top : Bytes) (o : Option Bytes) → is_hash top o ≡ true → o ≡ some top
  is_hash-some top none e = cc
  is_hash-some top (some h) e = ap some ((bytes_eq_iff h top).0 e)

  verify_inclusion-accepts :
      (m n : ℕ) (datum : Bytes) (proof : List Bytes) (top : Bytes)
      → verify_inclusion D m n datum proof top ≡ true
      → (m < n) × (accepts top (inclusion_loop D m (n - 1) (leaf_hash D datum) proof) ≡ true)
  unfolding verify_inclusion
  verify_inclusion-accepts m n datum proof top e = elim (Bool-cases (leb n m)) [
    | inl beyond ↦ cc (rw beyond at e)
    | inr inside ↦ (ground arith, rw inside at e)
  ]

  -- Whatever proof `verify_inclusion` accepts for a datum at index m, with the size and the root of
  -- a list of leaves, the datum is leaf m of that list, or a collision of the digest is at hand.
  pub verify_inclusion_sound :
      (m : ℕ) (leaves : List Bytes) (datum : Bytes) (proof : List Bytes)
      → verify_inclusion D m (length leaves) datum proof (mth D leaves) ≡ true
      → ((m < length leaves) × (get_or leaves m [] ≡ datum)) ⊎ Collision D
  verify_inclusion_sound m leaves datum proof e =
      let top = mth D leaves in
      let h = leaf_hash D datum in
      let level = hashed D leaves in
      let (inside, accepted) = verify_inclusion-accepts m (length leaves) datum proof top e in
      let size = length-map (leaf_hash D) leaves in
      let walked =
        rw size at (loop-eq-climb (length level) m level h proof top (omega arith) (omega arith)) in
      let (steps, extra, same, turns) =
        climb-value h [] (dirs D m level) proof top
          (unfold value in is_hash-some top _ (sym walked ∙ accepted)) in
      elim (descend D datum steps leaves (omega arith) same) [
        | inr c ↦ inr c
        | inl (i, reached, _, found) ↦
            let at_m =
              Reaches-unique D extra m i level (omega arith) (rw (size, ← turns) reached) in
            inl (inside, rw (← at_m) found)
      ]
