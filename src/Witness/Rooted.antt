-- ===== src/Witness/Rooted.antt =====
-- The roots that wait in the state file: where every size has a root, `_note_future` raises no
-- StopIteration.
use cryptovalid_opencore.Prelude.{
  ℕ, ◌≡◌, refl, not, ◌&&◌, Option, none, some, [], ◌∷◌, ltb, ◌==◌, if◌then◌else◌, if-holds,
}
use cryptovalid_opencore.Bytes.{bytes_eq, Digest}
use cryptovalid_opencore.Json.{Text}
use cryptovalid_opencore.Entry.{contains}
use cryptovalid_opencore.Raises.{Raises, ok}
use cryptovalid_opencore.Checkpoint.{NoteError}
use cryptovalid_opencore.Dicts.{or_default, lookup, set}
use cryptovalid_opencore.Dicts.All.{All, Item, lookup-All, set-All}
use cryptovalid_opencore.Witness.{Entry, rollback, Roots, Sizes, State, Evidence, Store}
use cryptovalid_opencore.Witness.Recording.{
  Request, has_note, sizes_of, roots_at, partner_in, proof_key, record_proof, record_refusal,
  paired,
}
use cryptovalid_opencore.Witness.Pending.{small, with_root, waiting_sizes, note_future}
use cryptovalid_opencore.Witness.Cosign.{bad_empty, observe}
use cryptovalid_opencore.Witness.Chain.{eq_only}
use cryptovalid_opencore.Witness.Notes.{size_only}
use cryptovalid_opencore.Witness.Trimming.{HasRoots, Rooted, trim-Fits}

abbrev pub RootedItem : Text → Sizes → Type 0
RootedItem o sizes = Rooted sizes

-- every size that waits for an origin has a root
abbrev pub AllRooted : State → Type 0
AllRooted s = All (Item RootedItem) s.pending

set-HasRoots :
    (n : ℕ) (k : Text) (v : Option Text) (roots : Roots) → HasRoots n (set bytes_eq k v roots)
unfolding set
set-HasRoots n k v [] = tt
set-HasRoots n k v ((j, w) ∷ roots) = if-holds (HasRoots n) (bytes_eq j k) (λ _. tt) (λ _. tt)

lookup-HasRoots :
    (n : ℕ) (k : Text) (roots : Roots) (v : Option Text)
    → lookup bytes_eq k roots ≡ some v
    → HasRoots n roots
unfolding lookup
lookup-HasRoots n k [] v e = absurd (cc e)
lookup-HasRoots n k (r ∷ roots) v e = tt

with_root-HasRoots : (n : ℕ) (x : Request) (pend : Roots) → HasRoots n (with_root x pend)
unfolding with_root
with_root-HasRoots n x pend = by_lookup (lookup bytes_eq x.root_b64 pend) refl
  where
    by_lookup :
        (l : Option (Option Text))
        → lookup bytes_eq x.root_b64 pend ≡ l
        → HasRoots n (elim l [
          | none ↦ set bytes_eq x.root_b64 (small x) pend
          | some none ↦ if has_note (small x) then set bytes_eq x.root_b64 (small x) pend else pend
          | some (some m) ↦ pend
        ])
    by_lookup none e = set-HasRoots n x.root_b64 (small x) pend
    by_lookup (some none) e =
        if-holds (HasRoots n) (has_note (small x)) (λ _. set-HasRoots n x.root_b64 (small x) pend)
          (λ _. lookup-HasRoots n x.root_b64 pend none e)
    by_lookup (some (some m)) e = lookup-HasRoots n x.root_b64 pend (some m) e

sizes_of-Rooted : (o : Text) (s : State) → AllRooted s → Rooted (sizes_of o s)
unfolding sizes_of
sizes_of-Rooted o s h = by_lookup (lookup bytes_eq o s.pending) refl
  where
    by_lookup : (l : Option Sizes) → lookup bytes_eq o s.pending ≡ l → Rooted (or_default [] l)
    by_lookup none e = tt
    by_lookup (some d) e = lookup-All bytes_eq eq_only RootedItem o s.pending h e

pub waiting_sizes-Rooted : (x : Request) (s : State) → AllRooted s → Rooted (waiting_sizes x s)
waiting_sizes-Rooted x s h =
    set-All (◌==◌) size_only HasRoots x.cp.size _ (sizes_of x.cp.origin s)
      (sizes_of-Rooted x.cp.origin s h) (with_root-HasRoots x.cp.size x _)

module _ (D : Digest) (x : Request) where
  paired-Rooted :
      (p : Option (Text × Option Text)) (e : Option Evidence) (s : Store)
      → AllRooted s.state
      → AllRooted (paired D x p e s).0.state
  unfolding record_proof
  paired-Rooted none e s h = h
  paired-Rooted (some (root, n)) e s h =
      if-holds (λ (t : Store). AllRooted t.state)
        (contains s.state.proofs_seen (proof_key D x n root)) (λ _. h) (λ _. h)

  -- an answer of what is looked at first
  abbrev pub Looks : Store × Raises NoteError (Option Evidence) → Type 0
  Looks r = (found : Option Evidence) × (r.1 ≡ ok found)

  note_future-Looks : (s : Store) → AllRooted s.state → Looks (note_future D x s)
  unfolding note_future
  note_future-Looks s h =
      let found : Store × Option Evidence =
        paired D x (partner_in x.root_b64 (roots_at x.cp.origin x.cp.size s.state)) none s in
      let left =
        trim-Fits (waiting_sizes x found.0.state)
          (waiting_sizes-Rooted x found.0.state (paired-Rooted _ none s h)) in
      rw left.1 (found.1, refl)

  pub observe-Looks :
      (prev : Option Entry) (s : Store) → AllRooted s.state → Looks (observe D x prev s)
  unfolding observe
  observe-Looks none s h =
      if-holds Looks (bad_empty D x.cp) (λ _. (none, refl))
        (λ _. if-holds Looks (ltb 0 x.cp.size) (λ _. note_future-Looks s h) (λ _. (none, refl)))
  observe-Looks (some prev) s h =
      if-holds Looks (bad_empty D x.cp) (λ _. (none, refl))
        λ _.
          if-holds Looks (ltb x.cp.size prev.size)
            (λ _. ((record_refusal D x rollback prev none s).1, refl))
            λ _.
              if-holds Looks (x.cp.size == prev.size && not (bytes_eq x.root_b64 prev.root_b64))
                (λ _. (_, refl))
                λ _.
                  if-holds Looks (ltb prev.size x.cp.size) (λ _. note_future-Looks s h)
                    (λ _. (none, refl))
