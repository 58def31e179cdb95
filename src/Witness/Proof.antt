-- ===== src/Witness/Proof.antt =====
-- The notes of the files come from signed checkpoints, and what is recorded as proof is one.
use cryptovalid_opencore.Prelude.{
  ℕ, ◌≡◌, refl, ◌⊎◌, inl, inr, Option, none, some, Option-cases, List, [], ◌∷◌, ◌++◌, append_assoc,
  append-nil, if-holds,
}
use cryptovalid_opencore.Bytes.{Bytes, bytes_eq, Digest}
use cryptovalid_opencore.Json.{Text}
use cryptovalid_opencore.Encoding.{b64encode}
use cryptovalid_opencore.Raises.{Raises, ok, raised}
use cryptovalid_opencore.Texts.{lines}
use cryptovalid_opencore.Checkpoint.{NoteError}
use cryptovalid_opencore.Checkpoint.Notes.{NoteKeys}
use cryptovalid_opencore.Dicts.{lookup}
use cryptovalid_opencore.Dicts.All.{All, All-mono, snoc-All, set-All, lookup-All}
use cryptovalid_opencore.Witness.{Entry, State, Evidence, Store, Answer, empty_store}
use cryptovalid_opencore.Witness.Cosign.{
  Call, Signer, request_of, check_times, first_refusal, observe, rules, refuse, is_new, commit,
  finish, accept, judge, observed, cosign_locked,
}
use cryptovalid_opencore.Witness.Requests.{
  Submission, Screened, answered, to_lock, refusal, screen, witness_cosign, run,
}
use cryptovalid_opencore.Witness.Chain.{eq_only}
use cryptovalid_opencore.Witness.Screens.{Screens, screen-Screens}
use cryptovalid_opencore.Witness.Notes.{EntryNote, RecordNote, EvidenceNote, StateNotes, StoreNotes}
use cryptovalid_opencore.Witness.Observed.{
  PrevNote, observe-notes, note_unproven-notes, contradict-notes, settle-notes,
}

-- of the store that a request leaves beside its answer
abbrev Leaves : (Store → Type 0) → Store × Raises NoteError Answer → Type 0
Leaves P r = P r.0

module _ (S : Text → ℕ → Text → Text → Type 0) (D : Digest) (K : NoteKeys) (a : Call) (w : Signer)
    (mine : (own : Text)
      → S a.cp.origin a.cp.size (b64encode a.cp.root) ((request_of a).presentato ++ own)) where
  abbrev now : S a.cp.origin a.cp.size (b64encode a.cp.root) (request_of a).presentato
  now = rw append-nil at (mine [])

  commit-notes :
      (prev : Option Entry) (own : Text) (ts : ℕ) (s : Store)
      → StoreNotes S s
      → StoreNotes S (commit D (request_of a) prev ((request_of a).presentato ++ own) ts s)
  unfolding commit
  commit-notes prev own ts s h =
      let settled = settle-notes S D (request_of a) now s.state h.state in
      record {
        state = record {
          entries =
              set-All bytes_eq eq_only (EntryNote S) a.cp.origin _ s.state.origins settled.entries
                (mine own);
          pending = settled.pending;
        };
        evidence = h.evidence;
        history =
            if-holds (All (RecordNote S)) (is_new D prev (request_of a))
              (λ _. snoc-All (RecordNote S) s.history _ h.history (mine own)) (λ _. h.history);
      }

  finish-notes :
      (prev : Option Entry) (e : Option Evidence) (before : State) (t : Store) (ts : ℕ)
      (r : Raises NoteError (Bytes × Bytes × Text))
      → StateNotes S before
      → StoreNotes S t
      → StoreNotes S (finish D K a prev e before t ts r).0
  unfolding finish
  finish-notes prev e before t ts (raised err) b h = record {
    state = b;
    evidence = h.evidence;
    history = h.history;
  }
  finish-notes prev e before t ts (ok (note, added, own)) b h = commit-notes prev own ts t h

  judge-notes :
      (prev : Option Entry) (before : State) (found : Store × Option Evidence)
      → StateNotes S before
      → StoreNotes S found.0
      → StoreNotes S (judge D K a w prev before found).0
  unfolding judge accept refuse
  judge-notes prev before (t, e) b h = elim (Option-cases (first_refusal (rules D prev a))) [
    | inr ((why, status), is_some) ↦
        rw (is_some, judge) (note_unproven-notes S D (request_of a) now prev why e t h)
    | inl is_none ↦
        rw (is_none, judge)
          (finish-notes prev e before _ _ _ b (contradict-notes S D (request_of a) now e t h))
  ]

  observed-notes :
      (prev : Option Entry) (before : State) (r : Store × Raises NoteError (Option Evidence))
      → StateNotes S before
      → StoreNotes S r.0
      → StoreNotes S (observed D K a w prev before r).0
  observed-notes prev before (t, raised e) b h = record {
    state = b;
    evidence = h.evidence;
    history = h.history;
  }
  observed-notes prev before (t, ok found) b h = judge-notes prev before (t, found) b h

  pub cosign_locked-notes : (s : Store) → StoreNotes S s → StoreNotes S (cosign_locked D K a w s).0
  unfolding cosign_locked
  cosign_locked-notes s h = by_times (check_times a.timestamp prev)
    where
      prev : Option Entry
      prev = lookup bytes_eq a.cp.origin s.state.origins

      prev-note :
          (p : Option Entry)
          → lookup bytes_eq a.cp.origin s.state.origins ≡ p
          → PrevNote S D (request_of a) now p
      prev-note none e = tt
      prev-note (some p) e =
          lookup-All bytes_eq eq_only (EntryNote S) a.cp.origin s.state.origins h.state.entries e

      by_times :
          (c : Raises NoteError (Unit {0}))
          → Leaves (StoreNotes S) (elim c [
            | raised e ↦ (s, raised e)
            | ok _ ↦ observed D K a w prev s.state (observe D (request_of a) prev s)
          ])
      by_times (raised e) = h
      by_times (ok u) =
          observed-notes prev s.state _ h.state
            (observe-notes S D (request_of a) now prev s (prev-note prev refl) h)

-- a note whose text is a checkpoint that a submission brought, signed by a trusted log key
pub record Sealed (D : Digest) (K : NoteKeys) (Seen : Submission → Type 0) (origin : Text)
    (size : ℕ) (root_b64 : Text) (note : Text) : Type 0 where
  pub submission : Submission
  pub seen : Seen submission
  pub call : Call
  pub screens : Screens D K submission call
  pub rest : Text
  pub note_is : note ≡ call.text ++ (10 ∷ rest)
  pub origin_is : call.cp.origin ≡ origin
  pub size_is : call.cp.size ≡ size
  pub root_is : b64encode call.cp.root ≡ root_b64

module _ (D : Digest) (K : NoteKeys) (w : Signer) (Seen : Submission → Type 0) where
  call-Sealed :
      (m : Submission) (a : Call)
      → Seen m
      → Screens D K m a
      → (own : Text)
      → Sealed D K Seen a.cp.origin a.cp.size
          (b64encode a.cp.root)
          ((request_of a).presentato ++ own)
  call-Sealed m a seen c own = record {
    submission = m;
    seen = seen;
    call = a;
    screens = c;
    rest = lines a.trusted_lines ++ own;
    note_is = append_assoc a.text (10 ∷ lines a.trusted_lines) own;
    origin_is = refl;
    size_is = refl;
    root_is = refl;
  }

  witness_cosign-notes :
      (m : Submission) (s : Store)
      → Seen m
      → StoreNotes (Sealed D K Seen) s
      → StoreNotes (Sealed D K Seen) (witness_cosign D K w m s).0
  unfolding witness_cosign
  witness_cosign-notes m s seen h = by_screen (screen D K w m) refl
    where
      by_screen :
          (r : Raises NoteError Screened)
          → screen D K w m ≡ r
          → Leaves (StoreNotes (Sealed D K Seen)) (elim r [
            | raised e ↦ (s, raised e)
            | ok (answered cp why status) ↦ (s, ok (refusal cp why status))
            | ok (to_lock call) ↦ cosign_locked D K call w s
          ])
      by_screen (raised e) p = h
      by_screen (ok (answered cp why status)) p = h
      by_screen (ok (to_lock a)) p =
          cosign_locked-notes (Sealed D K Seen) D K a w
            (call-Sealed m a seen (screen-Screens D K w m a p)) s h

  run-notes :
      (ms : List Submission) (s : Store)
      → All Seen ms
      → StoreNotes (Sealed D K Seen) s
      → StoreNotes (Sealed D K Seen) (run D K w ms s)
  unfolding run
  run-notes [] s seen h = h
  run-notes (m ∷ ms) s seen h = run-notes ms _ seen.1 (witness_cosign-notes m s seen.0 h)

-- membership in a list
abbrev pub Listed : Submission → List Submission → Type 0
Listed m [] = ⊥
Listed m (n ∷ ms) = (m ≡ n) ⊎ Listed m ms

All-Listed : (ms : List Submission) → All (λ m. Listed m ms) ms
All-Listed [] = tt
All-Listed (m ∷ ms) = (inl refl, All-mono _ _ ms (λ n h. inr h) (All-Listed ms))

empty_store-notes : (S : Text → ℕ → Text → Text → Type 0) → StoreNotes S empty_store
empty_store-notes S = record {
  state = record { entries = tt; pending = tt };
  evidence = tt;
  history = tt;
}

-- After any requests to a witness that starts with no files, every record of its evidence file does not
-- claim to be proof, or is a split view: it names two notes with different roots at the same size of the
-- same origin, and the text of each is a checkpoint with that root, size and origin, which the note of one
-- of the requests carried with a verified signature of a log key trusted for the origin.
pub evidence-Split :
    (D : Digest) (K : NoteKeys) (w : Signer) (ms : List Submission)
    → All (EvidenceNote (Sealed D K (λ m. Listed m ms))) (run D K w ms empty_store).evidence
evidence-Split D K w ms =
    (run-notes D K w (λ m. Listed m ms) ms empty_store (All-Listed ms)
      (empty_store-notes _)).evidence
