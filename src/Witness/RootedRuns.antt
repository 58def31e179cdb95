-- ===== src/Witness/RootedRuns.antt =====
-- The roots that wait, across the requests: no size of the files is left without a root.
use cryptovalid_opencore.Prelude.{◌≡◌, refl, subst, Option, none, some, List, if-holds, ◌==◌}
use cryptovalid_opencore.Bytes.{bytes_eq, Digest}
use cryptovalid_opencore.Json.{Text}
use cryptovalid_opencore.Entry.{contains}
use cryptovalid_opencore.Checkpoint.Notes.{NoteKeys}
use cryptovalid_opencore.Dicts.{lookup, set, remove}
use cryptovalid_opencore.Dicts.All.{All, Item, set-All, remove-All, lookup-All}
use cryptovalid_opencore.Witness.{Entry, Kind, Sizes, State, Store, empty_store}
use cryptovalid_opencore.Witness.Recording.{
  Request, proof_key, record_proof, ring_of, remembered, remember,
}
use cryptovalid_opencore.Witness.Pending.{waiting_sizes, trim, with_pending}
use cryptovalid_opencore.Witness.Cosign.{Signer, observe, settle}
use cryptovalid_opencore.Witness.Requests.{Submission, run}
use cryptovalid_opencore.Witness.Chain.{eq_only}
use cryptovalid_opencore.Witness.Notes.{size_only}
use cryptovalid_opencore.Witness.Trimming.{HasRoots, Rooted, trim-Fits}
use cryptovalid_opencore.Witness.Invariants.{run-Holds}
use cryptovalid_opencore.Witness.Rooted.{
  RootedItem, AllRooted, Looks, waiting_sizes-Rooted, observe-Looks,
}

refusal-Rooted :
    (x : Request) (k : Kind) (s : Store) → AllRooted s.state → AllRooted (remember x k s.state)
unfolding remember
refusal-Rooted x k s h =
    if-holds AllRooted (remembered x k (ring_of x.cp.origin s.state).last) (λ _. h) (λ _. h)

trim-Rooted : (sizes t : Sizes) → Rooted sizes → trim sizes ≡ some t → Rooted t
trim-Rooted sizes t r e =
    let left = trim-Fits sizes r in
    let same : left.0 ≡ t = cc (left.1, e) in subst Rooted same left.3

pending-Rooted :
    (x : Request) (s : Store) (sizes : Sizes)
    → trim (waiting_sizes x s.state) ≡ some sizes
    → AllRooted s.state
    → AllRooted (with_pending x sizes s.state)
unfolding with_pending
pending-Rooted x s sizes e h =
    set-All bytes_eq eq_only RootedItem x.cp.origin sizes s.state.pending h
      (trim-Rooted (waiting_sizes x s.state) sizes (waiting_sizes-Rooted x s.state h) e)

module _ (D : Digest) where
  proof-Rooted :
      (x : Request) (n : Option Text) (root : Text) (s : Store)
      → AllRooted s.state
      → AllRooted (record_proof D x n root s).state
  unfolding record_proof
  proof-Rooted x n root s h =
      if-holds (λ (t : Store). AllRooted t.state)
        (contains s.state.proofs_seen (proof_key D x n root)) (λ _. h) (λ _. h)

  settle-Rooted : (x : Request) (s : State) → AllRooted s → AllRooted (settle D x s)
  settle-Rooted x s h = by_lookup (lookup bytes_eq x.cp.origin s.pending) refl
    where
      by_lookup :
          (l : Option Sizes)
          → lookup bytes_eq x.cp.origin s.pending ≡ l
          → All (Item RootedItem) (elim l [
            | none ↦ s.pending
            | some sizes ↦ set bytes_eq x.cp.origin (remove (◌==◌) x.cp.size sizes) s.pending
          ])
      by_lookup none e = h
      by_lookup (some sizes) e = set-All bytes_eq eq_only RootedItem x.cp.origin _ s.pending h (
          remove-All (◌==◌) size_only HasRoots x.cp.size sizes
            (lookup-All bytes_eq eq_only RootedItem x.cp.origin s.pending h e))

  -- After any requests to a witness that starts with no files, what a further request has looked at before
  -- the old-size gate ends without an exception: no size of the roots that wait was left without a root.
  pub run-Looks :
      (K : NoteKeys) (w : Signer) (ms : List Submission) (x : Request) (prev : Option Entry)
      → Looks D x (observe D x prev (run D K w ms empty_store))
  run-Looks K w ms x prev = observe-Looks D x prev _ (
      run-Holds AllRooted D proof-Rooted refusal-Rooted pending-Rooted settle-Rooted (λ o s h. h) K
        w ms empty_store tt)
