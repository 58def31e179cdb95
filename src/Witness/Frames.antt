-- ===== src/Witness/Frames.antt =====
-- What holds of the files before a request is decided: a property that the records, the ring of refusals
-- and the roots that wait keep. The stored checkpoints and the history are the first such property.
use cryptovalid_opencore.Prelude.{
  ◌≡◌, refl, ◌∙◌, not, ◌&&◌, Option, none, some, ltb, ◌==◌, if-holds, arith,
}
use cryptovalid_opencore.Bytes.{bytes_eq, Digest}
use cryptovalid_opencore.Json.{Text}
use cryptovalid_opencore.Raises.{Raises}
use cryptovalid_opencore.Checkpoint.{NoteError}
use cryptovalid_opencore.Witness.{
  Entry, Kind, Sizes, State, Evidence, Store, Reason, rollback, unproven_extension,
}
use cryptovalid_opencore.Witness.Recording.{
  Request, roots_at, remember, record_proof, record_refusal, paired, partner_in, candidates,
}
use cryptovalid_opencore.Witness.Pending.{waiting_sizes, trim, waits, with_pending, note_future}
use cryptovalid_opencore.Witness.Cosign.{bad_empty, is_unproven, observe, note_unproven, contradict}

-- of the store that a function returns beside its evidence
abbrev pub After : (Store → Type 0) → Store × Option Evidence → Type 0
After P r = P r.0

abbrev pub AfterLook : (Store → Type 0) → Store × Raises NoteError (Option Evidence) → Type 0
AfterLook P r = P r.0

module _ (D : Digest) (x : Request) (P : Store → Type 0)
    (on_proof : (n : Option Text) (root : Text) (s : Store) → P s → P (record_proof D x n root s))
    (on_refusal : (k : Kind) (s : Store) → P s → P (record s { state = remember x k s.state }))
    (on_pending : (s : Store) (sizes : Sizes)
      → trim (waiting_sizes x s.state) ≡ some sizes
      → P s
      → P (record s { state = with_pending x sizes s.state })) where
  paired-holds :
      (p : Option (Text × Option Text)) (e : Option Evidence) (s : Store)
      → P s
      → P (paired D x p e s).0
  paired-holds none e s h = h
  paired-holds (some (root, n)) e s h = on_proof n root s h

  record_refusal-holds :
      (k : Kind) (prev : Entry) (e : Option Evidence) (s : Store)
      → P s
      → P (record_refusal D x k prev e s).0
  unfolding record_refusal
  record_refusal-holds k prev e s h =
      let known : Store = record s { state = remember x k s.state } in
      if-holds (After P) (ltb x.cp.size prev.size)
        (λ _. paired-holds (partner_in x.root_b64 (candidates x known)) _ known (on_refusal k s h))
        (λ _. on_refusal k s h)

  note_future-holds : (s : Store) → P s → P (note_future D x s).0
  unfolding note_future
  note_future-holds s h = by_trim (trim (waiting_sizes x found.0.state)) refl
    where
      found : Store × Option Evidence
      found = paired D x (partner_in x.root_b64 (roots_at x.cp.origin x.cp.size s.state)) none s

      by_trim :
          (left : Option Sizes)
          → trim (waiting_sizes x found.0.state) ≡ left
          → AfterLook P (waits D x left found)
      by_trim none e = paired-holds _ none s h
      by_trim (some sizes) e = on_pending found.0 sizes e (paired-holds _ none s h)

  pub observe-holds : (prev : Option Entry) (s : Store) → P s → P (observe D x prev s).0
  unfolding observe
  observe-holds none s h =
      if-holds (AfterLook P) (bad_empty D x.cp) (λ _. h)
        (λ _. if-holds (AfterLook P) (ltb 0 x.cp.size) (λ _. note_future-holds s h) (λ _. h))
  observe-holds (some prev) s h =
      if-holds (AfterLook P) (bad_empty D x.cp) (λ _. h)
        λ _.
          if-holds (AfterLook P) (ltb x.cp.size prev.size)
            (λ _. record_refusal-holds rollback prev none s h)
            λ _.
              if-holds (AfterLook P)
                (x.cp.size == prev.size && not (bytes_eq x.root_b64 prev.root_b64))
                (λ _. on_proof (some prev.note) prev.root_b64 s h)
                λ _.
                  if-holds (AfterLook P) (ltb prev.size x.cp.size) (λ _. note_future-holds s h)
                    (λ _. h)

  pub note_unproven-holds :
      (prev : Option Entry) (why : Reason) (e : Option Evidence) (s : Store)
      → P s
      → P (note_unproven D x prev why e s).0
  unfolding note_unproven
  note_unproven-holds none why e s h = h
  note_unproven-holds (some prev) why e s h =
      if-holds (After P) (is_unproven D why)
        (λ _. record_refusal-holds unproven_extension prev e s h) (λ _. h)

  pub contradict-holds : (e : Option Evidence) (s : Store) → P s → P (contradict D x e s)
  unfolding contradict
  contradict-holds none s h = paired-holds _ none s h
  contradict-holds (some e) s h = h

-- the same stored checkpoints and the same history
abbrev pub Keeps : Store → Store → Type 0
Keeps s t = (t.state.origins ≡ s.state.origins) × (t.history ≡ s.history)

remember-keeps : (x : Request) (k : Kind) (s : State) → (remember x k s).origins ≡ s.origins
unfolding remember
remember-keeps x k s = ground arith

module _ (D : Digest) (x : Request) (s : Store) where
  proof-Keeps :
      (n : Option Text) (root : Text) (t : Store) → Keeps s t → Keeps s (record_proof D x n root t)
  unfolding record_proof
  proof-Keeps n root t h = ground arith

  refusal-Keeps :
      (k : Kind) (t : Store) → Keeps s t → Keeps s (record t { state = remember x k t.state })
  refusal-Keeps k t h = (remember-keeps x k t.state ∙ h.0, h.1)

  pending-Keeps :
      (t : Store) (sizes : Sizes)
      → trim (waiting_sizes x t.state) ≡ some sizes
      → Keeps s t
      → Keeps s (record t { state = with_pending x sizes t.state })
  unfolding with_pending
  pending-Keeps t sizes e h = h

  pub observe-Keeps : (prev : Option Entry) → Keeps s (observe D x prev s).0
  observe-Keeps prev =
      observe-holds D x (Keeps s) proof-Keeps refusal-Keeps pending-Keeps prev s (refl, refl)

  pub note_unproven-Keeps :
      (prev : Option Entry) (why : Reason) (e : Option Evidence) (t : Store)
      → Keeps s t
      → Keeps s (note_unproven D x prev why e t).0
  note_unproven-Keeps = note_unproven-holds D x (Keeps s) proof-Keeps refusal-Keeps pending-Keeps

  pub contradict-Keeps :
      (e : Option Evidence) (t : Store) → Keeps s t → Keeps s (contradict D x e t)
  contradict-Keeps = contradict-holds D x (Keeps s) proof-Keeps refusal-Keeps pending-Keeps
