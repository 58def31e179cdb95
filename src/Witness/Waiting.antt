-- ===== src/Witness/Waiting.antt =====
-- The property of the notes, across the roots that wait.
use cryptovalid_opencore.Prelude.{
  ℕ, zero, suc, ◌≡◌, refl, subst, inl, inr, Bool-cases, Option, none, some, [], ◌∷◌, length, leb,
  ◌==◌, if◌then◌else◌, if-holds,
}
use cryptovalid_opencore.Bytes.{bytes_eq, Digest}
use cryptovalid_opencore.Json.{Text}
use cryptovalid_opencore.Utf8.{utf8_encode}
use cryptovalid_opencore.Dicts.{or_default, lookup, set}
use cryptovalid_opencore.Dicts.All.{lookup-All, set-All}
use cryptovalid_opencore.Witness.{Roots, Sizes, State, Evidence, Store, pending_note}
use cryptovalid_opencore.Witness.Recording.{Request, has_note, sizes_of}
use cryptovalid_opencore.Witness.Pending.{
  smallest, without_first, after, pop_at, drop_smallest, too_much, trim_fuel, trim, small,
  with_root, waiting_sizes, with_pending, waits, note_future,
}
use cryptovalid_opencore.Witness.Chain.{eq_only}
use cryptovalid_opencore.Witness.Notes.{
  RootNote, RootsNotes, SizesNotes, StateNotes, StoreNotes, roots_at-notes, partner_in-notes,
  size_only,
}
use cryptovalid_opencore.Witness.Recorded.{paired-notes}

module _ (S : Text → ℕ → Text → Text → Type 0) (D : Digest) (x : Request)
    (mine : S x.cp.origin x.cp.size x.root_b64 x.presentato) where
  -- of what is left, if something is
  abbrev LeftNotes : Text → Option Sizes → Type 0
  LeftNotes o none = Unit
  LeftNotes o (some t) = SizesNotes S o t

  without_first-notes :
      (o : Text) (n : ℕ) (roots : Roots) (rest : Sizes)
      → SizesNotes S o ((n, roots) ∷ rest)
      → LeftNotes o (without_first n roots rest)
  without_first-notes o n [] rest h = tt
  without_first-notes o n (r ∷ []) rest h = h.1
  without_first-notes o n (r ∷ q ∷ rs) rest h = (h.0.1, h.1)

  after-notes :
      (o : Text) (n : ℕ) (roots : Roots) (left : Option Sizes)
      → RootsNotes S o n roots
      → LeftNotes o left
      → LeftNotes o (after (n, roots) left)
  after-notes o n roots none h k = tt
  after-notes o n roots (some t) h k = (h, k)

  pop_at-notes :
      (o : Text) (m : ℕ) (sizes : Sizes) → SizesNotes S o sizes → LeftNotes o (pop_at m sizes)
  unfolding pop_at
  pop_at-notes o m [] h = tt
  pop_at-notes o m ((n, roots) ∷ rest) h =
      if-holds (LeftNotes o) (n == m) (λ _. without_first-notes o n roots rest h)
        (λ _. after-notes o n roots (pop_at m rest) h.0 (pop_at-notes o m rest h.1))

  drop_smallest-notes :
      (o : Text) (sizes : Sizes) → SizesNotes S o sizes → LeftNotes o (drop_smallest sizes)
  unfolding drop_smallest
  drop_smallest-notes o [] h = tt
  drop_smallest-notes o ((n, roots) ∷ rest) h =
      pop_at-notes o (smallest n rest) ((n, roots) ∷ rest) h

  trim-notes :
      (o : Text) (fuel : ℕ) (sizes : Sizes)
      → SizesNotes S o sizes
      → LeftNotes o (trim_fuel fuel sizes)
  unfolding trim_fuel
  trim-notes o zero sizes h = h
  trim-notes o (suc fuel) sizes h = elim (Bool-cases (too_much sizes)) [
    | inl e ↦
        rw (e, trim_fuel)
          (next (λ t. trim-notes o fuel t) (drop_smallest sizes) (drop_smallest-notes o sizes h))
    | inr e ↦ rw (e, trim_fuel) h
  ]
    where
      next :
          ((t : Sizes) → SizesNotes S o t → LeftNotes o (trim_fuel fuel t))
          → (left : Option Sizes) → LeftNotes o left
          → LeftNotes o (elim left [ none ↦ none | some less ↦ trim_fuel fuel less ])
      next rec none k = tt
      next rec (some less) k = rec less k

  small-note : RootNote S x.cp.origin x.cp.size x.root_b64 (small x)
  unfolding small
  small-note =
      if-holds (RootNote S x.cp.origin x.cp.size x.root_b64)
        (leb (length (utf8_encode x.presentato)) pending_note) {x = some x.presentato} {y = none}
        (λ _. mine) (λ _. tt)

  with_root-notes :
      (pend : Roots)
      → RootsNotes S x.cp.origin x.cp.size pend
      → RootsNotes S x.cp.origin x.cp.size (with_root x pend)
  unfolding with_root
  with_root-notes pend h = by_lookup (lookup bytes_eq x.root_b64 pend)
    where
      grown : RootsNotes S x.cp.origin x.cp.size (set bytes_eq x.root_b64 (small x) pend)
      grown =
          set-All bytes_eq eq_only (RootNote S x.cp.origin x.cp.size) x.root_b64 (small x) pend h
            small-note

      by_lookup :
          (l : Option (Option Text))
          → RootsNotes S x.cp.origin x.cp.size (elim l [
            | none ↦ set bytes_eq x.root_b64 (small x) pend
            | some none ↦
                if has_note (small x) then set bytes_eq x.root_b64 (small x) pend else pend
            | some (some n) ↦ pend
          ])
      by_lookup none = grown
      by_lookup (some none) =
          if-holds (RootsNotes S x.cp.origin x.cp.size) (has_note (small x)) (λ _. grown) (λ _. h)
      by_lookup (some (some n)) = h

  sizes_of-notes : (s : State) → StateNotes S s → SizesNotes S x.cp.origin (sizes_of x.cp.origin s)
  unfolding sizes_of
  sizes_of-notes s h = by_lookup (lookup bytes_eq x.cp.origin s.pending) refl
    where
      by_lookup :
          (l : Option Sizes)
          → lookup bytes_eq x.cp.origin s.pending ≡ l
          → SizesNotes S x.cp.origin (or_default [] l)
      by_lookup none e = tt
      by_lookup (some d) e =
          lookup-All bytes_eq eq_only (SizesNotes S) x.cp.origin s.pending h.pending e

  trimmed-notes :
      (s : State) (sizes : Sizes)
      → StateNotes S s
      → trim (waiting_sizes x s) ≡ some sizes
      → SizesNotes S x.cp.origin sizes
  unfolding trim
  trimmed-notes s sizes h e = subst (LeftNotes x.cp.origin) e (
      trim-notes x.cp.origin _ (waiting_sizes x s) (
        set-All (◌==◌) size_only (RootsNotes S x.cp.origin) x.cp.size _ (sizes_of x.cp.origin s)
          (sizes_of-notes s h) (with_root-notes _ (roots_at-notes S x.cp.origin x.cp.size s h))))

  waits-notes :
      (found : Store × Option Evidence) (left : Option Sizes)
      → StoreNotes S found.0
      → trim (waiting_sizes x found.0.state) ≡ left
      → StoreNotes S (waits D x left found).0
  unfolding with_pending
  waits-notes (s, found) none h e = h
  waits-notes (s, found) (some sizes) h e = record {
    state = record {
      entries = h.state.entries;
      pending =
          set-All bytes_eq eq_only (SizesNotes S) x.cp.origin sizes s.state.pending h.state.pending
            (trimmed-notes s.state sizes h.state e);
    };
    evidence = h.evidence;
    history = h.history;
  }

  pub note_future-notes : (s : Store) → StoreNotes S s → StoreNotes S (note_future D x s).0
  unfolding note_future
  note_future-notes s h =
      waits-notes _ _
        (paired-notes S D x mine _ none s
          (partner_in-notes S x _ (roots_at-notes S x.cp.origin x.cp.size s.state h.state)) h)
        refl
