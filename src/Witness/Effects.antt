-- ===== src/Witness/Effects.antt =====
-- What a request does to the stored checkpoints and to the history.
use cryptovalid_opencore.Prelude.{
  ℕ, ◌≡◌, refl, ◌⊎◌, inl, inr, Bool, true, false, Option, none, Option-cases, [], ◌∷◌, ◌++◌,
  if◌then◌else◌,
}
use cryptovalid_opencore.Bytes.{Bytes, bytes_eq, Digest}
use cryptovalid_opencore.Json.{Text}
use cryptovalid_opencore.Raises.{Raises, ok, raised}
use cryptovalid_opencore.Checkpoint.{NoteError}
use cryptovalid_opencore.Checkpoint.Notes.{NoteKeys}
use cryptovalid_opencore.Dicts.{lookup, set}
use cryptovalid_opencore.Witness.{
  Entry, Evidence, Store, Reason, Answer, Decision, cosigned, refused,
}
use cryptovalid_opencore.Witness.Cosign.{
  Call, Signer, request_of, check_times, first_refusal, observe, rules, refuse, contradict, is_new,
  entry_for, history_line, commit, finish, accept, judge, observed, cosign_locked,
}
use cryptovalid_opencore.Witness.Frames.{
  Keeps, observe-Keeps, note_unproven-Keeps, contradict-Keeps,
}

abbrev pub is_cosigned : Decision → Bool
is_cosigned cosigned = true
is_cosigned refused = false

-- `r["stato"] == STATO_OK`
abbrev pub cosigns : Raises NoteError Answer → Bool
cosigns (raised e) = false
cosigns (ok r) = is_cosigned r.stato

-- the checkpoint of a request is stored, and is in the history if it is another one than before
pub record Stores (D : Digest) (a : Call) (prev : Option Entry) (s t : Store) : Type 0 where
  pub accepted : first_refusal (rules D prev a) ≡ none
  pub note : Text
  pub time : ℕ
  pub origins :
      t.state.origins
      ≡ set bytes_eq a.cp.origin (entry_for D (request_of a) note time) s.state.origins
  pub history : t.history ≡ (
      if is_new D prev (request_of a)
      then s.history ++ history_line D (request_of a) note time ∷ []
      else s.history)

abbrev pub Effect :
    (D : Digest) (a : Call) (prev : Option Entry) (s : Store)
    → Store × Raises NoteError Answer
    → Type 0
Effect D a prev s r =
    (Keeps s r.0 × (cosigns r.1 ≡ false)) ⊎ (Stores D a prev s r.0 × (cosigns r.1 ≡ true))

module _ (D : Digest) (K : NoteKeys) (a : Call) (w : Signer) (prev : Option Entry) (s : Store) where
  refuse-Effect :
      (why : Reason) (status : ℕ) (e : Option Evidence) (t : Store)
      → Keeps s t
      → Effect D a prev s (refuse D a prev why status e t)
  unfolding refuse
  refuse-Effect why status e t h = inl (note_unproven-Keeps D (request_of a) s prev why e t h, refl)

  finish-Effect :
      (e : Option Evidence) (t : Store) (ts : ℕ) (r : Raises NoteError (Bytes × Bytes × Text))
      → first_refusal (rules D prev a) ≡ none
      → Keeps s t
      → Effect D a prev s (finish D K a prev e s.state t ts r)
  unfolding finish commit
  finish-Effect e t ts (raised err) none_holds h = inl ((refl, h.1), refl)
  finish-Effect e t ts (ok (note, added, own)) none_holds h = inr (
    record {
      accepted = none_holds;
      note = (request_of a).presentato ++ own;
      time = ts;
      origins = rw h.0 refl;
      history = rw h.1 refl;
    },
    refl,
  )

  judge-Effect :
      (found : Store × Option Evidence)
      → Keeps s found.0
      → Effect D a prev s (judge D K a w prev s.state found)
  unfolding judge accept
  judge-Effect (t, e) h = elim (Option-cases (first_refusal (rules D prev a))) [
    | inr ((why, status), is_some) ↦ rw (is_some, judge) (refuse-Effect why status e t h)
    | inl is_none ↦
        rw (is_none, judge)
          (finish-Effect e (contradict D (request_of a) e t) _ _ is_none
            (contradict-Keeps D (request_of a) s e t h))
  ]

  observed-Effect :
      (r : Store × Raises NoteError (Option Evidence))
      → Keeps s r.0
      → Effect D a prev s (observed D K a w prev s.state r)
  observed-Effect (t, raised e) h = inl ((refl, h.1), refl)
  observed-Effect (t, ok found) h = judge-Effect (t, found) h

module _ (D : Digest) (K : NoteKeys) where
  pub cosign_locked-Effect :
      (a : Call) (w : Signer) (s : Store)
      → Effect D a (lookup bytes_eq a.cp.origin s.state.origins) s (cosign_locked D K a w s)
  unfolding cosign_locked
  cosign_locked-Effect a w s =
      by_times (check_times a.timestamp (lookup bytes_eq a.cp.origin s.state.origins))
    where
      prev : Option Entry
      prev = lookup bytes_eq a.cp.origin s.state.origins

      by_times :
          (c : Raises NoteError (Unit {0}))
          → Effect D a prev s (elim c [
            | raised e ↦ (s, raised e)
            | ok _ ↦ observed D K a w prev s.state (observe D (request_of a) prev s)
          ])
      by_times (raised e) = inl ((refl, refl), refl)
      by_times (ok u) = observed-Effect D K a w prev s _ (observe-Keeps D (request_of a) s prev)
