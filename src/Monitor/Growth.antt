-- ===== src/Monitor/Growth.antt =====
-- Green runs of the monitor and the versions of the ledger that they saw.
use cryptovalid_opencore.Prelude.{
  ℕ, ◌+◌, ◌*◌, ◌/◌, ◌%◌, ◌<◌, ◌≤◌, ◌≡◌, refl, sym, ap, subst, ◌∙◌, ◌⊎◌, inl, inr, true, false, not,
  Bool-cases, Option, none, some, List, [], ◌∷◌, ◌++◌, append_assoc, append-nil, length, take, drop,
  take-append-drop, ltb, ◌==◌, ==_iff, if-holds, arith,
}
use cryptovalid_opencore.Bytes.{Bytes, bytes_eq, bytes_eq_iff, Digest, Collision}
use cryptovalid_opencore.Json.{Text, hex_digit}
use cryptovalid_opencore.Checks.{hexdigest}
use cryptovalid_opencore.Outcome.{Receipt}
use cryptovalid_opencore.Texts.{is_nil}
use cryptovalid_opencore.Encoding.Base64.{AreBytes}
use cryptovalid_opencore.Dicts.All.{All, All-mono}
use cryptovalid_opencore.Merkle.{mth, consistency_proof, verify_consistency}
use cryptovalid_opencore.Merkle.Walk.{AllDigests}
use cryptovalid_opencore.Merkle.Commitment.{append_only, mth-inject}
use cryptovalid_opencore.Verifier.Commitment.{hexdigest-inject}
use cryptovalid_opencore.Checkpoint.Notes.{NoteKeys}
use cryptovalid_opencore.Checkpoint.Proofs.{proof_or_empty}
use cryptovalid_opencore.Checkpoint.Complete.{consistency_proof-All}
use cryptovalid_opencore.Receipts.{TreeHead, is_space, hex_value, parse_hex}
use cryptovalid_opencore.Monitor.{
  Baseline, Watch, Alert, rewrite, fork, Consistency, same_size, growth, Report, grown, alert_if,
  snapshot_alerts, compare_sizes, check_baseline, with_baseline, baseline_alerts, run_from,
  signed_state, state_with, published, kept, verdict_of, auditor_state, next_state, run, Visit, Log,
  advance, after_run, visits,
}

hex_value-hex_digit : (d : ℕ) → d < 16 → hex_value (hex_digit d) ≡ some d
unfolding hex_value hex_digit
hex_value-hex_digit d h = ground arith

hex_digit-lower : (d : ℕ) → 48 ≤ hex_digit d
unfolding hex_digit
hex_digit-lower d = ground arith

parse_hex-byte :
    (a b x y : ℕ) (t : Text) (bs : Bytes)
    → is_space a ≡ false
    → hex_value a ≡ some x
    → hex_value b ≡ some y
    → parse_hex t ≡ some bs
    → parse_hex (a ∷ b ∷ t) ≡ some ((x * 16 + y) ∷ bs)
unfolding parse_hex
parse_hex-byte a b x y t bs s p q r = rw (s, p, q, r, parse_hex) refl

parse_hex-hexdigest : (bs : Bytes) → AreBytes bs → parse_hex (hexdigest bs) ≡ some bs
unfolding hexdigest parse_hex
parse_hex-hexdigest [] h = refl
parse_hex-hexdigest (b ∷ bs) h =
    let low = hex_digit-lower (b / 16) in
    let dark : is_space (hex_digit (b / 16)) ≡ false = ground (arith, low) in
    let whole : b / 16 * 16 + b % 16 ≡ b = omega arith in
    parse_hex-byte _ _ (b / 16) (b % 16) (hexdigest bs) bs dark
      (hex_value-hex_digit (b / 16) (omega (arith, h.0)))
      (hex_value-hex_digit (b % 16) (omega arith)) (parse_hex-hexdigest bs h.1)
    ∙ ap (λ x. some (x ∷ bs)) whole

is_nil-append :
    {A : Type 0} (xs ys : List A)
    → is_nil (xs ++ ys) ≡ true
    → (is_nil xs ≡ true) × (is_nil ys ≡ true)
is_nil-append [] ys h = (refl, h)
is_nil-append (x ∷ xs) ys h = cc h

AllDigests-All : (hs : List Bytes) → All (λ h. length h ≡ 32) hs → AllDigests hs
AllDigests-All [] h = tt
AllDigests-All (x ∷ hs) h = (h.0, AllDigests-All hs h.1)

nil_only : (xs : List Alert) → is_nil xs ≡ true → xs ≡ []
nil_only [] h = refl
nil_only (x ∷ xs) h = absurd (cc h)

-- the second list begins with the first
abbrev pub Prefix : List Bytes → List Bytes → Type 0
Prefix old new = (rest : List Bytes) × (old ++ rest ≡ new)

Prefix-take : (old new : List Bytes) → take (length old) new ≡ old → Prefix old new
Prefix-take old new h = (
  drop (length old) new,
  ap (λ xs. xs ++ drop (length old) new) (sym h) ∙ take-append-drop (length old) new,
)

Prefix-trans : (a b c : List Bytes) → Prefix a b → Prefix b c → Prefix a c
Prefix-trans a b c (x, p) (y, q) = (x ++ y, sym (append_assoc a x y) ∙ ap (λ xs. xs ++ y) p ∙ q)

-- of the state that a version of the ledger has
abbrev pub Represents : Digest → List Bytes → Baseline → Type 0
Represents D leaves b = (b.tree_size ≡ length leaves) × (b.root_sha256 ≡ hexdigest (mth D leaves))

-- of what the comparison found
abbrev Quiet : Consistency → List Alert → Consistency → Type 0
Quiet c alerts found =
    ◌≡◌ {A = Option (List Alert × Consistency)} (some (alerts, found)) (some ([], c))

module _ (D : Digest) (K : NoteKeys) (old leaves : List Bytes) where
  abbrev Grows : Type 0
  Grows = Prefix old leaves ⊎ Collision D

  equal_sizes : length leaves ≡ length old → mth D old ≡ mth D leaves → Grows
  equal_sizes n e = elim (mth-inject D old leaves (sym n) e) [
    | inl same ↦ inl ([], rw append-nil same)
    | inr x ↦ inr x
  ]

  proven :
      verify_consistency D
          (length old)
          (length leaves)
          (proof_or_empty D (consistency_proof D (length old) leaves))
          (mth D old)
          (mth D leaves)
        ≡ true
      → Grows
  proven ok =
      elim (append_only D old leaves _
        (AllDigests-All _
          (consistency_proof-All D (λ h. length h ≡ 32) D.length-hash (length old) leaves))
        ok) [ inl p ↦ inl (Prefix-take old leaves p) | inr x ↦ inr x ]

  empty_old : (xs : List Bytes) → length xs ≡ 0 → Prefix xs leaves
  empty_old [] h = (leaves, refl)
  empty_old (x ∷ xs) h = absurd (cc h)

  same_roots :
      (b : Baseline) (c : Consistency)
      → Represents D old b
      → length leaves ≡ length old
      → Quiet c
          (alert_if (not (bytes_eq b.root_sha256 (hexdigest (mth D leaves)))) rewrite)
          (same_size (bytes_eq b.root_sha256 (hexdigest (mth D leaves))))
      → Grows
  same_roots b c (n, e) size h =
      elim (Bool-cases (bytes_eq b.root_sha256 (hexdigest (mth D leaves)))) [
        | inl same ↦ equal_sizes size (hexdigest-inject _ _ (sym e ∙ (bytes_eq_iff _ _).0 same))
        | inr other ↦ absurd (cc (rw other at h))
      ]

  grown_only :
      (n : ℕ) (c : Consistency)
      → n ≡ length old
      → Quiet c
          (alert_if (not (grown D K leaves n (mth D old))) (fork n (length leaves)))
          (growth (grown D K leaves n (mth D old)))
      → Grows
  grown_only n c size h = elim (Bool-cases (grown D K leaves n (mth D old))) [
    | inl accepted ↦ proven (rw size at accepted)
    | inr refused ↦ absurd (cc (rw refused at h))
  ]

  compare_sizes-grows :
      (b : Baseline) (c : Consistency)
      → AreBytes (mth D old)
      → Represents D old b
      → compare_sizes D K leaves b ≡ some ([], c)
      → Grows
  unfolding compare_sizes
  compare_sizes-grows b c root (n, e) h = elim (Bool-cases (ltb (length leaves) b.tree_size)) [
    | inl shorter ↦ absurd (cc (rw shorter at h))
    | inr long ↦ elim (Bool-cases (length leaves == b.tree_size)) [
      | inl equal ↦ same_roots b c (n, e) ((==_iff _ _).0 equal ∙ n) (rw (long, equal) at h)
      | inr more ↦ elim (Bool-cases (b.tree_size == 0)) [
        | inl is_zero ↦ inl (empty_old old (sym n ∙ (==_iff _ _).0 is_zero))
        | inr larger ↦
            let read : parse_hex b.root_sha256 ≡ some (mth D old) =
              rw e (parse_hex-hexdigest _ root) in
            grown_only b.tree_size c n (rw read at rw (long, more, larger) at h)
      ]
    ]
  ]

-- a state, where there is one, that a version of the ledger has
abbrev pub Describes : Digest → List Bytes → Option Baseline → Type 0
Describes D leaves none = Unit
Describes D leaves (some b) = Represents D leaves b

module _ (D : Digest) (K : NoteKeys) (w : Watch) (leaves : List Bytes)
    (prev : Option Baseline) where
  signed_state-Describes :
      (o : Option TreeHead) (k : Option (TreeHead × Option Text))
      → Describes D leaves (signed_state D K w leaves o k)
  signed_state-Describes (some sth) k = (refl, refl)
  signed_state-Describes none (some k) = (refl, refl)
  signed_state-Describes none none = tt

  state_with-Describes :
      (seed : Option Bytes) → Describes D leaves (state_with D K seed w leaves prev)
  unfolding auditor_state
  state_with-Describes (some seed) = (refl, refl)
  state_with-Describes none =
      if-holds (Describes D leaves) (is_nil w.trusted_pubkey) (λ _. (refl, refl))
        (λ _. signed_state-Describes (published D K w leaves w.sth_file) (kept D K leaves prev))

  next_state-Describes : Describes D leaves (next_state D K w leaves prev)
  unfolding next_state
  next_state-Describes = state_with-Describes w.keyfile

  -- a run that writes a state was green, and the state has the version of the ledger
  verdict_of-Describes :
      (alerts : List Alert) (c : Consistency)
      → Describes D leaves (verdict_of D K w leaves prev alerts c).written
  verdict_of-Describes alerts c =
      if-holds (Describes D leaves) (is_nil alerts) (λ _. next_state-Describes) (λ _. tt)

  run_from-Describes :
      (snap : Receipt) (o : Option (List Alert × Consistency)) (r : Report)
      → run_from D K w snap leaves prev o ≡ some r
      → Describes D leaves r.written × (((b : Baseline) → r.written ≡ some b → r.ok ≡ true))
  run_from-Describes snap none r h = absurd (cc h)
  run_from-Describes snap (some (alerts, c)) r h =
      let all = snapshot_alerts snap ++ alerts in
      let e : verdict_of D K w leaves prev all c ≡ r = some_inject _ _ h in
      (
        subst (λ (x : Report). Describes D leaves x.written) e (verdict_of-Describes all c),
        subst (λ (x : Report). (b : Baseline) → x.written ≡ some b → x.ok ≡ true) e
            (written_quiet all c),
      )
    where
      some_inject : (x y : Report) → some x ≡ some y → x ≡ y
      some_inject x y h = cc h

      written_quiet :
          (all : List Alert) (c : Consistency) (b : Baseline)
          → (verdict_of D K w leaves prev all c).written ≡ some b
          → is_nil all ≡ true
      written_quiet [] c b h = refl
      written_quiet (a ∷ all) c b h = absurd (cc h)

module _ (D : Digest) (K : NoteKeys) where
  -- a green run after a state of an old version
  green_grows :
      (w : Watch) (snap : Receipt) (leaves old : List Bytes) (b : Baseline) (r : Report)
      → AreBytes (mth D old)
      → Represents D old b
      → run D K w snap leaves (some b) ≡ some r
      → r.ok ≡ true
      → Prefix old leaves ⊎ Collision D
  unfolding run check_baseline
  green_grows w snap leaves old b r root was ran green =
      by_comparison (compare_sizes D K leaves b) refl ran
    where
      by_comparison :
          (o : Option (List Alert × Consistency))
          → compare_sizes D K leaves b ≡ o
          → run_from D K w snap leaves (some b) (with_baseline D K w leaves b o) ≡ some r
          → Prefix old leaves ⊎ Collision D
      by_comparison none e h = absurd (cc h)
      by_comparison (some (alerts, c)) e h =
          let quiet =
            ap (λ (x : Option Report). elim x [ none ↦ true | some y ↦ y.ok ]) h ∙ green in
          let own =
            is_nil-append (baseline_alerts D K w b) _
              (is_nil-append (snapshot_alerts snap) _ quiet).1 in
          let none_found = is_nil-append alerts _ own.1 in
          compare_sizes-grows D K old leaves b c root was
            (e ∙ ap (λ x. some (x, c)) (nil_only alerts none_found.0))

  -- the numbers of the version's root are bytes
  abbrev pub RootBytes : Visit → Type 0
  RootBytes v = AreBytes (mth D v.leaves)

  -- the versions that a state was written for are the beginnings of the last of them
  abbrev Tracked : Log → Type 0
  Tracked (none, olds) = olds ≡ []
  Tracked (some b, olds) =
      (latest : List Bytes) × AreBytes (mth D latest)
      × Represents D latest b
      × All (λ old. Prefix old latest) olds

  Tracked-green :
      (log : Log) (v : Visit) (r : Report)
      → Tracked log
      → run D K v.watch v.snapshot v.leaves log.0 ≡ some r
      → r.ok ≡ true
      → All (λ old. Prefix old v.leaves) log.1 ⊎ Collision D
  Tracked-green (none, olds) v r e ran green = inl (rw e tt)
  Tracked-green (some b, olds) v r (latest, root, was, all) ran green =
      elim (green_grows v.watch v.snapshot v.leaves latest b r root was ran green) [
        | inl p ↦ inl (All-mono _ _ olds (λ old q. Prefix-trans old latest v.leaves q p) all)
        | inr x ↦ inr x
      ]

  after_run-Tracked :
      (log : Log) (v : Visit) (o : Option Report)
      → AreBytes (mth D v.leaves)
      → Tracked log
      → run D K v.watch v.snapshot v.leaves log.0 ≡ o
      → Tracked (after_run log v o) ⊎ Collision D
  unfolding run
  after_run-Tracked log v none root t ran = inl t
  after_run-Tracked log v (some r) root t ran = by_written r.written refl
    where
      found : Describes D v.leaves r.written × ((b : Baseline) → r.written ≡ some b → r.ok ≡ true)
      found = run_from-Describes D K v.watch v.leaves log.0 v.snapshot _ r ran

      by_written : (q : Option Baseline) → r.written ≡ q → Tracked (advance log v q) ⊎ Collision D
      by_written none e = inl t
      by_written (some b) e = elim (Tracked-green log v r t ran (found.1 b e)) [
        | inl all ↦
            inl (v.leaves, root, subst (Describes D v.leaves) e found.0, (([], append-nil _), all))
        | inr x ↦ inr x
      ]

  visits-Tracked :
      (vs : List Visit) (log : Log)
      → All RootBytes vs
      → Tracked log
      → Tracked (visits D K log vs) ⊎ Collision D
  unfolding visits
  visits-Tracked [] log roots t = inl t
  visits-Tracked (v ∷ vs) log roots t = elim (after_run-Tracked log v _ roots.0 t refl) [
    | inl u ↦ visits-Tracked vs _ roots.1 u
    | inr x ↦ inr x
  ]

  -- However the monitor is run on versions of a ledger whose roots are bytes, with any keys, from no state: a
  -- run that then reports no alert saw a version that begins with every version that a state was written
  -- for, or a collision of the digest is at hand.
  pub green_run-Extends :
      (vs : List Visit) (v : Visit) (r : Report)
      → All RootBytes vs
      → run D K v.watch v.snapshot v.leaves (visits D K (none, []) vs).0 ≡ some r
      → r.ok ≡ true
      → All (λ old. Prefix old v.leaves) (visits D K (none, []) vs).1 ⊎ Collision D
  green_run-Extends vs v r roots ran green = elim (visits-Tracked vs (none, []) roots refl) [
    | inl t ↦ Tracked-green _ v r t ran green
    | inr x ↦ inr x
  ]
