-- ===== src/Witness/Observed.antt =====
-- The property of the notes, across what is observed and decided.
use cryptovalid_opencore.Prelude.{
  ℕ, ◌≡◌, ◌≢◌, refl, sym, true, false, not, ◌&&◌, Option, none, some, ltb, ◌==◌, if-holds, arith,
}
use cryptovalid_opencore.Bytes.{bytes_eq, bytes_eq_iff, Digest}
use cryptovalid_opencore.Json.{Text}
use cryptovalid_opencore.Dicts.{lookup, set, remove}
use cryptovalid_opencore.Dicts.All.{All, Item, lookup-All, set-All, remove-All}
use cryptovalid_opencore.Witness.{
  Entry, rollback, unproven_extension, Sizes, State, Evidence, Store, Reason,
}
use cryptovalid_opencore.Witness.Recording.{Request}
use cryptovalid_opencore.Witness.Cosign.{
  observe, bad_empty, note_unproven, is_unproven, contradict, settle,
}
use cryptovalid_opencore.Witness.Frames.{After, AfterLook}
use cryptovalid_opencore.Witness.Chain.{eq_only}
use cryptovalid_opencore.Witness.Notes.{
  RootsNotes, SizesNotes, EntryNote, StateNotes, StoreNotes, roots_at-notes, first_other-notes,
  size_only,
}
use cryptovalid_opencore.Witness.Recorded.{record_proof-notes, paired-notes, record_refusal-notes}
use cryptovalid_opencore.Witness.Waiting.{note_future-notes}

module _ (S : Text → ℕ → Text → Text → Type 0) (D : Digest) (x : Request)
    (mine : S x.cp.origin x.cp.size x.root_b64 x.presentato) where
  -- of a stored checkpoint
  abbrev pub PrevNote : Option Entry → Type 0
  PrevNote none = Unit
  PrevNote (some prev) = EntryNote S x.cp.origin prev

  pub observe-notes :
      (prev : Option Entry) (s : Store)
      → PrevNote prev
      → StoreNotes S s
      → StoreNotes S (observe D x prev s).0
  unfolding observe
  observe-notes none s p h =
      if-holds (AfterLook (StoreNotes S)) (bad_empty D x.cp) (λ _. h)
        (λ _.
          if-holds (AfterLook (StoreNotes S)) (ltb 0 x.cp.size)
            (λ _. note_future-notes S D x mine s h) (λ _. h))
  observe-notes (some prev) s p h =
      if-holds (AfterLook (StoreNotes S)) (bad_empty D x.cp) (λ _. h)
        λ _.
          if-holds (AfterLook (StoreNotes S)) (ltb x.cp.size prev.size)
            (λ _. record_refusal-notes S D x mine rollback prev none s h)
            λ _.
              if-holds (AfterLook (StoreNotes S))
                (x.cp.size == prev.size && not (bytes_eq x.root_b64 prev.root_b64))
                (λ other.
                  record_proof-notes S D x mine (some prev.note) prev.root_b64 s (differs other)
                    (same_size other) h)
                λ _.
                  if-holds (AfterLook (StoreNotes S)) (ltb prev.size x.cp.size)
                    (λ _. note_future-notes S D x mine s h) (λ _. h)
    where
      differs :
          (x.cp.size == prev.size && not (bytes_eq x.root_b64 prev.root_b64)) ≡ true
          → prev.root_b64 ≢ x.root_b64
      differs other e =
          let same : bytes_eq x.root_b64 prev.root_b64 ≡ true = (bytes_eq_iff _ _).1 (sym e) in
          absurd (ground (arith, other, same))

      same_size :
          (x.cp.size == prev.size && not (bytes_eq x.root_b64 prev.root_b64)) ≡ true
          → S x.cp.origin x.cp.size prev.root_b64 prev.note
      same_size other = let n : prev.size ≡ x.cp.size = ground (arith, other) in rw (← n) p

  pub note_unproven-notes :
      (prev : Option Entry) (why : Reason) (e : Option Evidence) (s : Store)
      → StoreNotes S s
      → StoreNotes S (note_unproven D x prev why e s).0
  unfolding note_unproven
  note_unproven-notes none why e s h = h
  note_unproven-notes (some prev) why e s h =
      if-holds (After (StoreNotes S)) (is_unproven D why)
        (λ _. record_refusal-notes S D x mine unproven_extension prev e s h) (λ _. h)

  pub contradict-notes :
      (e : Option Evidence) (s : Store) → StoreNotes S s → StoreNotes S (contradict D x e s)
  unfolding contradict
  contradict-notes (some e) s h = h
  contradict-notes none s h =
      paired-notes S D x mine _ none s
        (first_other-notes S x false _ (roots_at-notes S x.cp.origin x.cp.size s.state h.state)) h

  pub settle-notes : (s : State) → StateNotes S s → StateNotes S (settle D x s)
  settle-notes s h = record {
    entries = h.entries;
    pending = by_lookup (lookup bytes_eq x.cp.origin s.pending) refl;
  }
    where
      by_lookup :
          (l : Option Sizes)
          → lookup bytes_eq x.cp.origin s.pending ≡ l
          → All (Item (SizesNotes S)) (elim l [
            | none ↦ s.pending
            | some sizes ↦ set bytes_eq x.cp.origin (remove (◌==◌) x.cp.size sizes) s.pending
          ])
      by_lookup none e = h.pending
      by_lookup (some sizes) e =
          set-All bytes_eq eq_only (SizesNotes S) x.cp.origin _ s.pending h.pending (
            remove-All (◌==◌) size_only (RootsNotes S x.cp.origin) x.cp.size sizes
              (lookup-All bytes_eq eq_only (SizesNotes S) x.cp.origin s.pending h.pending e))
