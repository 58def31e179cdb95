-- ===== src/Witness/Invariants.antt =====
-- A property of the state file that a request's writes keep, across the requests.
use cryptovalid_opencore.Prelude.{ℕ, ◌≡◌, inl, inr, Option, some, Option-cases, List, [], ◌∷◌}
use cryptovalid_opencore.Bytes.{Bytes, bytes_eq, Digest}
use cryptovalid_opencore.Json.{Text}
use cryptovalid_opencore.Raises.{Raises, ok, raised}
use cryptovalid_opencore.Checkpoint.{NoteError}
use cryptovalid_opencore.Checkpoint.Notes.{NoteKeys}
use cryptovalid_opencore.Dicts.{lookup}
use cryptovalid_opencore.Witness.{Entry, Kind, Sizes, State, Evidence, Store, Answer}
use cryptovalid_opencore.Witness.Recording.{Request, record_proof, remember}
use cryptovalid_opencore.Witness.Pending.{waiting_sizes, trim, with_pending}
use cryptovalid_opencore.Witness.Cosign.{
  Call, Signer, request_of, check_times, first_refusal, observe, rules, refuse, contradict, commit,
  settle, finish, accept, judge, observed, cosign_locked,
}
use cryptovalid_opencore.Witness.Requests.{
  Submission, Screened, answered, to_lock, refusal, screen, witness_cosign, run,
}
use cryptovalid_opencore.Witness.Frames.{observe-holds, note_unproven-holds, contradict-holds}

module _ (P : State → Type 0) (D : Digest)
    (on_proof : (x : Request) (n : Option Text) (root : Text) (s : Store)
      → P s.state
      → P (record_proof D x n root s).state)
    (on_refusal : (x : Request) (k : Kind) (s : Store) → P s.state → P (remember x k s.state))
    (on_pending : (x : Request) (s : Store) (sizes : Sizes)
      → trim (waiting_sizes x s.state) ≡ some sizes
      → P s.state
      → P (with_pending x sizes s.state))
    (on_settle : (x : Request) (s : State) → P s → P (settle D x s))
    (on_origins : (o : List (Text × Entry)) (s : State) → P s → P (record s { origins = o }))
    (K : NoteKeys) (w : Signer) where
  abbrev Holds : Store → Type 0
  Holds s = P s.state

  abbrev Leaves : Store × Raises NoteError Answer → Type 0
  Leaves r = P r.0.state

  commit-Holds :
      (x : Request) (prev : Option Entry) (note : Text) (ts : ℕ) (s : Store)
      → Holds s
      → Holds (commit D x prev note ts s)
  unfolding commit
  commit-Holds x prev note ts s h = on_origins _ (settle D x s.state) (on_settle x s.state h)

  judge-Holds :
      (a : Call) (prev : Option Entry) (before : State) (found : Store × Option Evidence)
      → P before
      → Holds found.0
      → Holds (judge D K a w prev before found).0
  unfolding judge accept refuse finish
  judge-Holds a prev before (t, e) b h = elim (Option-cases (first_refusal (rules D prev a))) [
    | inr ((why, status), is_some) ↦
        rw (is_some, judge)
          (note_unproven-holds D (request_of a) Holds (on_proof (request_of a))
            (on_refusal (request_of a)) (on_pending (request_of a)) prev why e t h)
    | inl is_none ↦
        rw (is_none, judge)
          (finished _ _ (
            contradict-holds D (request_of a) Holds (on_proof (request_of a))
              (on_refusal (request_of a)) (on_pending (request_of a)) e t h))
  ]
    where
      finished :
          (ts : ℕ) (r : Raises NoteError (Bytes × Bytes × Text))
          → Holds (contradict D (request_of a) e t)
          → Holds (finish D K a prev e before (contradict D (request_of a) e t) ts r).0
      finished ts (raised err) k = b
      finished ts (ok (note, added, own)) k = commit-Holds (request_of a) prev _ ts _ k

  observed-Holds :
      (a : Call) (prev : Option Entry) (before : State)
      (r : Store × Raises NoteError (Option Evidence))
      → P before
      → Holds r.0
      → Holds (observed D K a w prev before r).0
  observed-Holds a prev before (t, raised e) b h = b
  observed-Holds a prev before (t, ok found) b h = judge-Holds a prev before (t, found) b h

  cosign_locked-Holds : (a : Call) (s : Store) → Holds s → Holds (cosign_locked D K a w s).0
  unfolding cosign_locked
  cosign_locked-Holds a s h = by_times (check_times a.timestamp prev)
    where
      prev : Option Entry
      prev = lookup bytes_eq a.cp.origin s.state.origins

      by_times :
          (c : Raises NoteError (Unit {0}))
          → Leaves (elim c [
            | raised e ↦ (s, raised e)
            | ok _ ↦ observed D K a w prev s.state (observe D (request_of a) prev s)
          ])
      by_times (raised e) = h
      by_times (ok u) = observed-Holds a prev s.state _ h (
          observe-holds D (request_of a) Holds (on_proof (request_of a)) (on_refusal (request_of a))
            (on_pending (request_of a)) prev s h)

  witness_cosign-Holds : (m : Submission) (s : Store) → Holds s → Holds (witness_cosign D K w m s).0
  unfolding witness_cosign
  witness_cosign-Holds m s h = by_screen (screen D K w m)
    where
      by_screen :
          (r : Raises NoteError Screened)
          → Leaves (elim r [
            | raised e ↦ (s, raised e)
            | ok (answered cp why status) ↦ (s, ok (refusal cp why status))
            | ok (to_lock call) ↦ cosign_locked D K call w s
          ])
      by_screen (raised e) = h
      by_screen (ok (answered cp why status)) = h
      by_screen (ok (to_lock a)) = cosign_locked-Holds a s h

  pub run-Holds : (ms : List Submission) (s : Store) → Holds s → Holds (run D K w ms s)
  unfolding run
  run-Holds [] s h = h
  run-Holds (m ∷ ms) s h = run-Holds ms _ (witness_cosign-Holds m s h)
