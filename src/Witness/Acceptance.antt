-- ===== src/Witness/Acceptance.antt =====
-- When a checkpoint is cosigned.
use cryptovalid_opencore.Prelude.{
  ℕ, ◌≤◌, ◌<◌, ◌≡◌, ◌↔◌, refl, ◌⊎◌, inl, inr, Bool, true, false, not, ◌&&◌, ◌||◌, Bool-cases,
  Option, none, some, Option-cases, List, [], ◌∷◌, ltb, ◌==◌, arith,
}
use cryptovalid_opencore.Bytes.{Bytes, bytes_eq, bytes_eq_iff, Digest}
use cryptovalid_opencore.Json.{Text}
use cryptovalid_opencore.Raises.{Raises, ok, raised}
use cryptovalid_opencore.Texts.{is_nil}
use cryptovalid_opencore.Checkpoint.{
  NoteError, bad_witness_timestamp, stale_timestamp, refuse_if, Checkpoint,
}
use cryptovalid_opencore.Checkpoint.Parsed.{refuse_if-ok}
use cryptovalid_opencore.Checkpoint.Notes.{NoteKeys, good_timestamp, max_timestamp}
use cryptovalid_opencore.Checkpoint.Proofs.{verify_consistency_b64}
use cryptovalid_opencore.Dicts.{or_default, lookup}
use cryptovalid_opencore.Witness.{Entry, State, Store, Evidence, Reason, Answer}
use cryptovalid_opencore.Witness.Cosign.{
  Call, Signer, request_of, check_times, first_refusal, prev_root, stored_size, size_wrong,
  size_differs, empty_root, bad_empty, entry_rules, rules, observe, refuse, sign, finish,
  contradict, accept, judge, observed, cosign_locked,
}
use cryptovalid_opencore.Witness.Effects.{cosigns}
use cryptovalid_opencore.Witness.Chain.{passes}
use cryptovalid_opencore.Witness.Rooted.{AllRooted, Looks, observe-Looks}

module _ (D : Digest) where
  -- against the stored checkpoint: the same again, or the next after the empty tree, without a proof; or a
  -- larger one with a consistency proof that verifies
  abbrev pub Follows : Option Entry → Call → Type 0
  Follows none a = a.proof ≡ []
  Follows (some prev) a =
      ((prev.size ≡ a.cp.size) × (a.cp.root ≡ prev_root prev) × (a.proof ≡ []))
      ⊎ ((prev.size ≡ 0) × (0 < a.cp.size) × (a.proof ≡ []))
      ⊎ ((0 < prev.size)
          × (prev.size < a.cp.size)
          × (verify_consistency_b64 D prev.size (prev_root prev) a.cp.size a.cp.root a.proof
              ≡ true))

  -- the old size that the client states is the stored one, and an empty tree has its root
  pub record Acceptable (prev : Option Entry) (a : Call) : Type 0 where
    pub old_size : (a.old_size ≡ none) ⊎ (a.old_size ≡ some (stored_size prev))
    pub root : (0 < a.cp.size) ⊎ (a.cp.root ≡ empty_root D)
    pub follows : Follows prev a

  some_inject : (m n : ℕ) → some m ≡ some n → m ≡ n
  some_inject m n h = cc h

  nil_only : (ps : List Text) → is_nil ps ≡ true → ps ≡ []
  nil_only [] h = refl
  nil_only (p ∷ ps) h = cc h

  old_size-ok : (o : Option ℕ) (n : ℕ) → size_differs o n ≡ false → (o ≡ none) ⊎ (o ≡ some n)
  old_size-ok none n h = inl refl
  old_size-ok (some m) n h = let e : m ≡ n = ground (arith, h) in inr (rw e refl)

  root-ok : (cp : Checkpoint) → bad_empty D cp ≡ false → (0 < cp.size) ⊎ (cp.root ≡ empty_root D)
  root-ok cp h = elim (Bool-cases (cp.size == 0)) [
    | inr e ↦ inl (ground (arith, e))
    | inl e ↦
        let same : bytes_eq cp.root (empty_root D) ≡ true = ground (arith, h, e) in
        inr ((bytes_eq_iff _ _).0 same)
  ]

  rules-Acceptable :
      (prev : Option Entry) (a : Call) → first_refusal (rules D prev a) ≡ none → Acceptable prev a
  unfolding rules entry_rules
  rules-Acceptable none a h =
      let p1 = passes _ _ _ _ h in
      let p2 = passes _ _ _ _ p1.1 in
      let p3 = passes _ _ _ _ p2.1 in
      let p4 = passes (not (is_nil a.proof)) _ _ _ p3.1 in
      record {
        old_size = old_size-ok a.old_size 0 p2.0;
        root = root-ok a.cp p3.0;
        follows = nil_only a.proof (ground (arith, p4.0));
      }
  rules-Acceptable (some prev) a h =
      let p1 = passes _ _ _ _ h in
      let p2 = passes _ _ _ _ p1.1 in
      let p3 = passes _ _ _ _ p2.1 in
      let p4 = passes _ _ _ _ p3.1 in
      let p5 = passes _ _ _ _ p4.1 in
      let p6 = passes _ _ _ _ p5.1 in
      let p7 = passes _ _ _ _ p6.1 in
      record {
        old_size = old_size-ok a.old_size prev.size p2.0;
        root = root-ok a.cp p3.0;
        follows = by_size p4.0 p5.0 p6.0 p7.0;
      }
    where
      by_size :
          ltb a.cp.size prev.size ≡ false
          → (a.cp.size == prev.size && not (bytes_eq a.cp.root (prev_root prev))) ≡ false
          → ((prev.size == 0 || a.cp.size == prev.size) && not (is_nil a.proof)) ≡ false
          → (not (prev.size == 0 || a.cp.size == prev.size)
              && not
                  (verify_consistency_b64 D prev.size (prev_root prev) a.cp.size a.cp.root a.proof))
            ≡ false
          → Follows (some prev) a
      by_size p4 p5 p6 p7 = elim (Bool-cases (a.cp.size == prev.size)) [
        | inl same ↦ inl (
          ground (arith, same),
          (bytes_eq_iff _ _).0 (ground (arith, same, p5)),
          nil_only a.proof (ground (arith, same, p6)),
        )
        | inr other ↦ elim (Bool-cases (prev.size == 0)) [
          | inl zero ↦ inr (
              inl (
                ground (arith, zero),
                ground (arith, zero, other),
                nil_only a.proof (ground (arith, zero, p6)),
              ))
          | inr more ↦ inr (
              inr
                (ground (arith, more), ground (arith, other, p4), ground (arith, other, more, p7)))
        ]
      ]

  refusal-skips :
      (c : Bool) (why : Reason) (status : ℕ) (rest : List (Bool × Reason × ℕ))
      → c ≡ false
      → first_refusal rest ≡ none
      → first_refusal ((c, why, status) ∷ rest) ≡ none
  unfolding first_refusal
  refusal-skips c why status rest e h = rw e h

  old_size-passes :
      (o : Option ℕ) (n : ℕ) (size : ℕ)
      → (o ≡ none) ⊎ (o ≡ some n)
      → n ≤ size
      → (size_wrong o size ≡ false) × (size_differs o n ≡ false)
  old_size-passes none n size h l = (refl, refl)
  old_size-passes (some m) n size (inl e) l = cc e
  old_size-passes (some m) n size (inr e) l =
      let same : m ≡ n = some_inject m n e in (ground arith, ground arith)

  empty-passes :
      (cp : Checkpoint) → (0 < cp.size) ⊎ (cp.root ≡ empty_root D) → bad_empty D cp ≡ false
  empty-passes cp (inl h) = ground arith
  empty-passes cp (inr e) =
      let same = (bytes_eq_iff cp.root (empty_root D)).1 e in ground (arith, same)

  Follows-passes :
      (prev : Entry) (a : Call)
      → Follows (some prev) a
      → (prev.size ≤ a.cp.size) × (first_refusal (entry_rules D (some prev) a) ≡ none)
  unfolding entry_rules first_refusal
  Follows-passes prev a (inl (size, root, nothing)) =
      let same = (bytes_eq_iff a.cp.root (prev_root prev)).1 root in
      (omega (arith, size), rw (nothing, same) (ground arith))
  Follows-passes prev a (inr (inl (zero, more, nothing))) =
      (omega arith, rw (nothing, zero) (ground arith))
  Follows-passes prev a (inr (inr (some_before, more, proved))) =
      (omega arith, rw proved (ground arith))

  Acceptable-rules :
      (prev : Option Entry) (a : Call) → Acceptable prev a → first_refusal (rules D prev a) ≡ none
  unfolding rules first_refusal entry_rules
  Acceptable-rules none a h =
      let o = old_size-passes a.old_size 0 a.cp.size h.old_size (omega arith) in
      rw (o.0, o.1, empty-passes a.cp h.root) (no_entry h.follows)
    where
      no_entry : a.proof ≡ [] → first_refusal (entry_rules D none a) ≡ none
      no_entry e = rw (e, entry_rules) refl
  Acceptable-rules (some prev) a h =
      let f = Follows-passes prev a h.follows in
      let o = old_size-passes a.old_size prev.size a.cp.size h.old_size f.0 in
      rw (o.0, o.1, empty-passes a.cp h.root) f.1

good_only :
    (ts : ℕ)
    → refuse_if (not (good_timestamp ts)) bad_witness_timestamp ≡ ok tt
    → good_timestamp ts ≡ true
good_only ts h = elim (Bool-cases (good_timestamp ts)) [
  | inl g ↦ g
  | inr bad ↦ absurd (cc (rw bad at h))
]

-- a timestamp that is given is a good one, and not older than the last that was stored
abbrev pub Timely : Option ℕ → Option Entry → Type 0
Timely none prev = Unit
Timely (some ts) none = (1 ≤ ts) × (ts ≤ max_timestamp)
Timely (some ts) (some prev) = (1 ≤ ts) × (ts ≤ max_timestamp) × (prev.cosigned_at ≤ ts)

check_times_iff :
    (t : Option ℕ) (prev : Option Entry) → (check_times t prev ≡ ok tt) ↔ Timely t prev
unfolding check_times
check_times_iff none none = (λ h. tt, λ h. refl)
check_times_iff none (some prev) = (λ h. tt, λ h. refl)
check_times_iff (some ts) none = (
  λ h. let g = good_only ts h in (ground (arith, g), ground (arith, g)),
  λ h. let g : good_timestamp ts ≡ true = ground arith in rw g refl,
)
check_times_iff (some ts) (some prev) = (
  λ h.
      let f = refuse_if-ok (ltb ts prev.cosigned_at) stale_timestamp _ h in
      let g = good_only ts f.1 in (ground (arith, g), ground (arith, g), ground (arith, f.0)),
  λ h.
      let g : good_timestamp ts ≡ true = ground arith in
      let f : ltb ts prev.cosigned_at ≡ false = ground arith in rw (f, g) refl,
)

abbrev answers : Store × Raises NoteError Answer → Bool
answers r = cosigns r.1

module _ (D : Digest) (K : NoteKeys) (a : Call) (w : Signer) where
  -- the witness's own lines are made
  abbrev pub Signs : Type 0
  Signs = (r : Bytes × Bytes × Text) × (sign D K a w (or_default a.now_signing a.timestamp) ≡ ok r)

  judge_iff :
      (prev : Option Entry) (before : State) (found : Store × Option Evidence)
      → (cosigns (judge D K a w prev before found).1 ≡ true) ↔ (Acceptable D prev a × Signs)
  unfolding judge accept refuse finish
  judge_iff prev before (t, e) = elim (Option-cases (first_refusal (rules D prev a))) [
    | inr ((why, status), is_some) ↦
        rw (is_some, judge) (λ h. cc h, λ h. absurd (cc (is_some, Acceptable-rules D prev a h.0)))
    | inl is_none ↦
        rw (is_none, judge)
          (by_sign (sign D K a w (or_default a.now_signing a.timestamp)) refl
            (rules-Acceptable D prev a is_none))
  ]
    where
      by_sign :
          (r : Raises NoteError (Bytes × Bytes × Text))
          → sign D K a w (or_default a.now_signing a.timestamp) ≡ r
          → Acceptable D prev a
          → (cosigns
                (finish D K a prev e before
                  (contradict D (request_of a) e t)
                  (or_default a.now_signing a.timestamp)
                  r).1
              ≡ true)
            ↔ (Acceptable D prev a × Signs)
      by_sign (raised x) f passed = (λ h. cc h, λ (p, (r, made)). absurd (cc (f, made)))
      by_sign (ok r) f passed = (λ h. (passed, (r, f)), λ h. refl)

  observed_iff :
      (prev : Option Entry) (before : State) (r : Store × Raises NoteError (Option Evidence))
      → Looks D (request_of a) r
      → (cosigns (observed D K a w prev before r).1 ≡ true) ↔ (Acceptable D prev a × Signs)
  observed_iff prev before (t, raised e) (found, f) = absurd (cc f)
  observed_iff prev before (t, ok found) h = judge_iff prev before (t, found)

  -- From a state in which every size that waits has a root, a checkpoint that reaches the lock is cosigned
  -- exactly when: a timestamp that is given is between 1 and 2^63-1 and not older than the last stored for
  -- its origin; the old size that is stated, if one is, is the stored size; a checkpoint of size 0 has the root of the empty tree; it is the origin's first and comes without a
  -- proof, or has the stored size and root and no proof, or follows the empty tree without a proof, or is
  -- larger than the stored one and comes with a consistency proof that verifies; and the witness's lines
  -- can be made.
  pub cosigned_iff :
      (s : Store)
      → AllRooted s.state
      → (cosigns (cosign_locked D K a w s).1 ≡ true) ↔ (
          Timely a.timestamp (lookup bytes_eq a.cp.origin s.state.origins)
          × Acceptable D (lookup bytes_eq a.cp.origin s.state.origins) a
          × Signs)
  unfolding cosign_locked
  cosigned_iff s rooted = by_times (check_times a.timestamp prev) refl
    where
      prev : Option Entry
      prev = lookup bytes_eq a.cp.origin s.state.origins

      by_times :
          (c : Raises NoteError (Unit {0}))
          → check_times a.timestamp prev ≡ c
          → (answers (elim c [
            | raised e ↦ (s, raised e)
            | ok _ ↦ observed D K a w prev s.state (observe D (request_of a) prev s)
          ])
              ≡ true)
            ↔ (Timely a.timestamp prev × Acceptable D prev a × Signs)
      by_times (raised e) f =
          (λ h. cc h, λ p. absurd (cc (f, (check_times_iff a.timestamp prev).1 p.0)))
      by_times (ok u) f =
          let j =
            observed_iff prev s.state (observe D (request_of a) prev s)
              (observe-Looks D (request_of a) prev s rooted) in
          (
            λ h. let k = j.0 h in ((check_times_iff a.timestamp prev).0 f, k.0, k.1),
            λ h. j.1 (h.1, h.2),
          )
