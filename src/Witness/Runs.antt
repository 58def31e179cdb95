-- ===== src/Witness/Runs.antt =====
-- Runs of requests, and the history that they leave.
use cryptovalid_opencore.Prelude.{◌≡◌, refl, ap, inl, inr, true, false, none, some, List, [], ◌∷◌}
use cryptovalid_opencore.Bytes.{bytes_eq, Digest}
use cryptovalid_opencore.Raises.{Raises, ok, raised}
use cryptovalid_opencore.Checkpoint.{NoteError}
use cryptovalid_opencore.Checkpoint.Parsed.{decode-parsed_root}
use cryptovalid_opencore.Checkpoint.Notes.{NoteKeys}
use cryptovalid_opencore.Dicts.{or_default, lookup}
use cryptovalid_opencore.Witness.{Store, Answer}
use cryptovalid_opencore.Witness.Cosign.{Call, Signer, cosign_locked}
use cryptovalid_opencore.Witness.Requests.{
  Submission, Screened, answered, to_lock, screen, witness_cosign, run, refusal,
}
use cryptovalid_opencore.Witness.Frames.{Keeps}
use cryptovalid_opencore.Witness.Effects.{Stores, cosigns, cosign_locked-Effect}
use cryptovalid_opencore.Witness.Chain.{IsKept}
use cryptovalid_opencore.Witness.Kept.{Keeps-IsKept, Stores-IsKept}
use cryptovalid_opencore.Witness.Screens.{Screens, screen-Screens}

-- nothing is stored, or a screened checkpoint that passed the rules
pub data Outcome (D : Digest) (K : NoteKeys) (m : Submission) (s : Store)
    (r : Store × Raises NoteError Answer) : Type 0 where
  declined : Keeps s r.0 → (cosigns r.1 ≡ false) → Outcome D K m s r
  granted :
      (a : Call)
      → Screens D K m a
      → Stores D a (lookup bytes_eq a.cp.origin s.state.origins) s r.0
      → (cosigns r.1 ≡ true)
      → Outcome D K m s r

module _ (D : Digest) (K : NoteKeys) (w : Signer) where
  granted_or_declined :
      (m : Submission) (s : Store) (r : Raises NoteError Screened)
      → screen D K w m ≡ r
      → Outcome D K m s (elim r [
        | raised e ↦ (s, raised e)
        | ok (answered cp why status) ↦ (s, ok (refusal cp why status))
        | ok (to_lock call) ↦ cosign_locked D K call w s
      ])
  granted_or_declined m s (raised x) e = declined (refl, refl) refl
  granted_or_declined m s (ok (answered none why status)) e = declined (refl, refl) refl
  granted_or_declined m s (ok (answered (some cp) why status)) e = declined (refl, refl) refl
  granted_or_declined m s (ok (to_lock a)) e = elim (cosign_locked-Effect D K a w s) [
    | inl (k, n) ↦ declined k n
    | inr (st, y) ↦ granted a (screen-Screens D K w m a e) st y
  ]

  pub witness_cosign-Outcome :
      (m : Submission) (s : Store) → Outcome D K m s (witness_cosign D K w m s)
  unfolding witness_cosign
  witness_cosign-Outcome m s = granted_or_declined m s (screen D K w m) refl

  Outcome-IsKept :
      (m : Submission) (s : Store) (r : Store × Raises NoteError Answer)
      → Outcome D K m s r
      → IsKept D s
      → IsKept D r.0
  Outcome-IsKept m s r (declined k n) h = Keeps-IsKept D s r.0 k h
  Outcome-IsKept m s r (granted a c st y) h =
      Stores-IsKept D a s r.0 h (ap (or_default []) (decode-parsed_root a.text a.cp c.checkpoint))
        st

  pub witness_cosign-IsKept :
      (m : Submission) (s : Store) → IsKept D s → IsKept D (witness_cosign D K w m s).0
  witness_cosign-IsKept m s h = Outcome-IsKept m s _ (witness_cosign-Outcome m s) h

  pub run-IsKept : (ms : List Submission) (s : Store) → IsKept D s → IsKept D (run D K w ms s)
  unfolding run
  run-IsKept [] s h = h
  run-IsKept (m ∷ ms) s h = run-IsKept ms _ (witness_cosign-IsKept m s h)
