-- ===== src/Witness/Bounds.antt =====
-- What the state file may grow to.
use cryptovalid_opencore.Prelude.{
  ℕ, ◌-◌, ◌≤◌, ◌≡◌, refl, Option, none, some, List, [], ◌∷◌, ◌++◌, length, length-drop, if-holds,
  arith, ◌==◌,
}
use cryptovalid_opencore.Bytes.{bytes_eq, Digest}
use cryptovalid_opencore.Json.{Text}
use cryptovalid_opencore.Entry.{contains}
use cryptovalid_opencore.Checkpoint.Notes.{NoteKeys}
use cryptovalid_opencore.Dicts.{last_n, lookup, set, remove}
use cryptovalid_opencore.Dicts.All.{All, Item, set-All, lookup-All}
use cryptovalid_opencore.Witness.{
  Entry, Kind, Refusal, Ring, Sizes, State, Store, ring_size, proofs_seen_size,
}
use cryptovalid_opencore.Witness.Recording.{
  Request, proof_key, record_proof, ring_of, ring_with, remembered, remember, refusal_of,
}
use cryptovalid_opencore.Witness.Pending.{waiting_sizes, trim, with_pending}
use cryptovalid_opencore.Witness.Cosign.{Signer, settle}
use cryptovalid_opencore.Witness.Requests.{Submission, run}
use cryptovalid_opencore.Witness.Chain.{eq_only}
use cryptovalid_opencore.Witness.Invariants.{run-Holds}
use cryptovalid_opencore.Witness.Trimming.{Fits, trim-within, remove-Fits}

length-last_n : {A : Type 0} (n : ℕ) (xs : List A) → length (last_n n xs) ≤ n
length-last_n n xs = omega (arith, length-drop (length xs - n) xs)

abbrev pub SizesFit : Text → Sizes → Type 0
SizesFit o sizes = Fits sizes

abbrev pub RingFits : Text → Ring → Type 0
RingFits o ring = length ring.last ≤ ring_size

-- for every origin at most 100 pending roots, 256 KiB of their notes and 100 refusals, and 10,000 keys
pub record Bounded (s : State) : Type 0 where
  pub pending : All (Item SizesFit) s.pending
  pub refusals : All (Item RingFits) s.refusals
  pub proofs : length s.proofs_seen ≤ proofs_seen_size

abbrev pub StoreBounded : Store → Type 0
StoreBounded s = Bounded s.state

module _ (D : Digest) (x : Request) where
  proof-Bounded :
      (n : Option Text) (root : Text) (s : Store)
      → StoreBounded s
      → StoreBounded (record_proof D x n root s)
  unfolding record_proof
  proof-Bounded n root s h =
      if-holds StoreBounded (contains s.state.proofs_seen (proof_key D x n root)) (λ _. h)
        (λ _. record {
          pending = h.pending;
          refusals = h.refusals;
          proofs =
              length-last_n proofs_seen_size (s.state.proofs_seen ++ proof_key D x n root ∷ []);
        })

  refusal-Bounded :
      (k : Kind) (s : Store)
      → StoreBounded s
      → StoreBounded (record s { state = remember x k s.state })
  unfolding remember ring_with
  refusal-Bounded k s h =
      if-holds Bounded (remembered x k (ring_of x.cp.origin s.state).last) (λ _. h)
        (λ _. record {
          pending = h.pending;
          refusals =
              set-All bytes_eq eq_only RingFits x.cp.origin
                (ring_with x k (ring_of x.cp.origin s.state)) s.state.refusals h.refusals
                (length-last_n {A = Refusal} ring_size
                  ((ring_of x.cp.origin s.state).last ++ refusal_of x k ∷ []));
          proofs = h.proofs;
        })

  pending-Bounded :
      (s : Store) (sizes : Sizes)
      → trim (waiting_sizes x s.state) ≡ some sizes
      → StoreBounded s
      → StoreBounded (record s { state = with_pending x sizes s.state })
  unfolding with_pending
  pending-Bounded s sizes e h = record {
    pending =
        set-All bytes_eq eq_only SizesFit x.cp.origin _ s.state.pending h.pending
          (trim-within (waiting_sizes x s.state) sizes e);
    refusals = h.refusals;
    proofs = h.proofs;
  }

  settle-Bounded : (s : State) → Bounded s → Bounded (settle D x s)
  settle-Bounded s h = record {
    pending = by_lookup (lookup bytes_eq x.cp.origin s.pending) refl;
    refusals = h.refusals;
    proofs = h.proofs;
  }
    where
      by_lookup :
          (l : Option Sizes)
          → lookup bytes_eq x.cp.origin s.pending ≡ l
          → All (Item SizesFit) (elim l [
            | none ↦ s.pending
            | some sizes ↦ set bytes_eq x.cp.origin (remove (◌==◌) x.cp.size sizes) s.pending
          ])
      by_lookup none e = h.pending
      by_lookup (some sizes) e =
          set-All bytes_eq eq_only SizesFit x.cp.origin _ s.pending h.pending (
            remove-Fits x.cp.size sizes
              (lookup-All bytes_eq eq_only SizesFit x.cp.origin s.pending h.pending e))

origins-Bounded :
    (o : List (Text × Entry)) (s : State) → Bounded s → Bounded (record s { origins = o })
origins-Bounded o s h = record { pending = h.pending; refusals = h.refusals; proofs = h.proofs }

-- Requests never take the state file out of its bounds: from a state with, for every origin, at most
-- 100 pending roots, 262,144 bytes of their notes and 100 remembered refusals, and with at most 10,000
-- keys of recorded pairs, they lead to such a state.
pub run-Bounded :
    (D : Digest) (K : NoteKeys) (w : Signer) (ms : List Submission) (s : Store)
    → StoreBounded s
    → StoreBounded (run D K w ms s)
run-Bounded D K w =
    run-Holds Bounded D (proof-Bounded D) (refusal-Bounded D) (pending-Bounded D) (settle-Bounded D)
      origins-Bounded K w
