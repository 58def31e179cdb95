-- ===== src/Verifier/Chain.antt =====
-- verifier.py: the verdict of `verify_ledger` and the definition of a ledger, a hash chain from 64
-- zeros, numbered from 0, of entries with known keys only.
use cryptovalid_opencore.Prelude.{
  ℕ, suc, ◌≤◌, ◌≡◌, ◌↔◌, refl, sym, ap, ◌∙◌, arith, Bool, true, false, not, ◌&&◌, ◌⊎◌, inl, inr,
  Option, none, some, List, [], ◌∷◌, map, length, Bool-cases, Option-cases,
}
use cryptovalid_opencore.Bytes.{Digest}
use cryptovalid_opencore.Json.{Text, pos, null, num, str, Members, get}
use cryptovalid_opencore.Entry.{idx_key, prev_hash_key}
use cryptovalid_opencore.Outcome.{Algo, Line, object, not_object, refused, Options, TipError, pass}
use cryptovalid_opencore.Checks.{
  schema_check, idx_check, link_check, line_errors, entries_of, genesis_prev,
}
use cryptovalid_opencore.Verifier.{
  empty_errors, pq_errors, tip_needed, given, first_hash, last_hash, hash_of_entry, hash_check,
  tip_checked, tip_branch, integrity, algo_used, verify_ledger,
}
use cryptovalid_opencore.Verifier.Hashes.{
  None, Closed, schema_check-cons, idx_check-cons, link_check-cons, SelfHashed, hash_check-cons,
}

module _ (D S : Digest) where
  -- the entries are numbered from i and chained from the hash prev
  abbrev pub Wellformed : Algo → Text → ℕ → List Members → Type 0
  Wellformed algo prev i [] = Unit
  Wellformed algo prev i (e ∷ es) =
      Closed e
      × SelfHashed D S algo e
      × (get prev_hash_key e null ≡ str prev)
      × (get idx_key e null ≡ num (pos i))
      × Wellformed algo (hash_of_entry D S algo e) (suc i) es

  abbrev Clean : Algo → Text → ℕ → List Members → Type 0
  Clean algo prev i es =
      None (hash_check D S algo i es).1
      × None (link_check (str prev) i es).1
      × None (idx_check i es)
      × None (schema_check i es)

  Clean-iff :
      (algo : Algo) (prev : Text) (i : ℕ) (es : List Members)
      → Clean algo prev i es ↔ Wellformed algo prev i es
  Clean-iff algo prev i [] = (
    λ c. tt,
    λ w. unfold hash_check link_check idx_check schema_check in (refl, refl, refl, refl),
  )
  Clean-iff algo prev i (e ∷ es) =
      let again = Clean-iff algo (hash_of_entry D S algo e) (suc i) es in
      (
        λ (h, l, n, s).
            let (hashed, hs) = (hash_check-cons D S algo i e es).0 h in
            let (linked, ls) = (link_check-cons prev i e es).0 l in
            let (numbered, ns) = (idx_check-cons i e es).0 n in
            let (closed, ss) = (schema_check-cons i e es).0 s in
            (closed, hashed, linked, numbered, again.0 (hs, rw hashed at ls, ns, ss)),
        λ (closed, hashed, linked, numbered, w).
            let (hs, ls, ns, ss) = again.1 w in
            (
              (hash_check-cons D S algo i e es).1 (hashed, hs),
              (link_check-cons prev i e es).1 (linked, rw hashed ls),
              (idx_check-cons i e es).1 (numbered, ns),
              (schema_check-cons i e es).1 (closed, ss),
            ),
      )

module _ (D S : Digest) (check : ℕ → Text → Text → Members → Option TipError) where
  not_object-no_entry :
      (lines : List Line) (es : List Members) → (not_object ∷ lines ≡ map object es) → false ≡ true
  not_object-no_entry lines [] e = cc
  not_object-no_entry lines (m ∷ es) e = cc

  refused-no_entry :
      (why : Text) (lines : List Line) (es : List Members)
      → (refused why ∷ lines ≡ map object es)
      → false ≡ true
  refused-no_entry why lines [] e = cc
  refused-no_entry why lines (m ∷ es) e = cc

  line_errors_iff :
      (i : ℕ) (lines : List Line)
      → None (line_errors i lines) ↔ (lines ≡ map object (entries_of lines))
  unfolding line_errors entries_of
  line_errors_iff i [] = (λ n. refl, λ e. refl)
  line_errors_iff i (object m ∷ lines) =
      let again = line_errors_iff (suc i) lines in
      (λ n. ap (λ t. object m ∷ t) (again.0 n), λ e. again.1 (cc))
  line_errors_iff i (not_object ∷ lines) = (λ n. cc, not_object-no_entry lines (entries_of lines))
  line_errors_iff i (refused why ∷ lines) = (λ n. cc, refused-no_entry why lines (entries_of lines))

  -- what the tip must satisfy: without a trusted log key it is not looked at, and must not be needed
  abbrev pub TipAccepted : Options → List Members → Option (Option Members) → Type 0
  TipAccepted o es none = tip_needed o ≡ false
  TipAccepted o es (some doc) =
      ((given o.trusted_pubkey ≡ false) × (tip_needed o ≡ false))
      ⊎ ((given o.trusted_pubkey ≡ true)
          × (tip : Members) × (doc ≡ some tip)
          × (check (length es) (last_hash es) (first_hash es) tip ≡ none))

  tip_checked_iff :
      (es : List Members) (doc : Option Members)
      → None (tip_checked D S check es doc).1 ↔ (
          (tip : Members) × (doc ≡ some tip)
          × (check (length es) (last_hash es) (first_hash es) tip ≡ none))
  unfolding tip_checked
  tip_checked_iff es none = (λ n. cc, λ (tip, e, ok). cc)
  tip_checked_iff es (some doc) =
      elim (Option-cases (check (length es) (last_hash es) (first_hash es) doc)) [
        | inl good ↦ (λ n. (doc, refl, good), λ h. rw good)
        | inr (why, bad) ↦ (λ n. cc (rw bad at n), λ (tip, e, ok). cc)
      ]

  tip_branch_iff :
      (o : Options) (es : List Members) (file : Option (Option Members))
      → None (tip_branch D S check o es file).1 ↔ TipAccepted o es file
  unfolding tip_branch
  tip_branch_iff o es none = elim (Bool-cases (tip_needed o)) [
    | inl needed ↦ (λ n. cc (rw needed at n), λ t. cc)
    | inr free ↦ (λ n. free, λ t. rw free)
  ]
  tip_branch_iff o es (some doc) = elim (Bool-cases (given o.trusted_pubkey)) [
    | inl keyed ↦ (
      λ n.
          let (tip, same, good) = (tip_checked_iff es doc).0 (rw keyed at n) in
          inr (keyed, tip, same, good),
      λ t. elim t [
        | inl (unkeyed, free) ↦ cc
        | inr (_, tip, same, good) ↦ rw keyed ((tip_checked_iff es doc).1 (tip, same, good))
      ],
    )
    | inr unkeyed ↦ elim (Bool-cases (tip_needed o)) [
      | inl needed ↦ (
        λ n. cc (rw (unkeyed, needed) at n),
        λ t. elim t [ inl (_, free) ↦ cc | inr (keyed, _, _, _) ↦ cc ],
      )
      | inr free ↦ (λ n. inl (unkeyed, free), λ t. rw (unkeyed, free))
    ]
  ]

  -- the arguments fit: a trusted post-quantum key comes with a trusted log key
  abbrev pub KeysFit : Options → Type 0
  KeysFit o = (given o.trusted_pq_pubkey && not (given o.trusted_pubkey)) ≡ false

  pq_errors_iff : (o : Options) (n : ℕ) → None (pq_errors o n) ↔ KeysFit o
  unfolding pq_errors
  pq_errors_iff o n =
      elim (Bool-cases (given o.trusted_pq_pubkey && not (given o.trusted_pubkey))) [
        | inl bad ↦ (λ e. cc (rw bad at e), λ k. cc)
        | inr fits ↦ (λ e. fits, λ k. rw fits)
      ]

  empty_errors_iff : (es : List Members) → None (empty_errors es) ↔ (1 ≤ length es)
  empty_errors_iff [] = (λ n. cc, λ h. absurd (omega arith))
  empty_errors_iff (e ∷ es) = (λ n. omega arith, λ h. refl)

  abbrev pub Accepted : Options → List Line → Type 0
  Accepted o lines =
      (lines ≡ map object (entries_of lines))
      × (1 ≤ length (entries_of lines))
      × Wellformed D S (algo_used D S o (entries_of lines)) genesis_prev 0 (entries_of lines)
      × KeysFit o
      × TipAccepted o (entries_of lines) o.tip_file

  and_iff : (a b : Bool) → (a && b ≡ true) ↔ ((a ≡ true) × (b ≡ true))
  and_iff true b = (λ e. (refl, e), λ (_, e). e)
  and_iff false b = (λ e. cc, λ (e, _). cc)

  integrity_iff :
      (o : Options) (lines : List Line)
      → (integrity D S check o (algo_used D S o (entries_of lines)) lines ≡ true) ↔ Accepted o lines
  unfolding integrity
  integrity_iff o lines =
      let es = entries_of lines in
      let algo = algo_used D S o es in
      (
        λ good.
            let (r1, t) = (and_iff _ _).0 good in
            let (r2, k) = (and_iff _ _).0 r1 in
            let (r3, e) = (and_iff _ _).0 r2 in
            let (r4, s) = (and_iff _ _).0 r3 in
            let (r5, p) = (and_iff _ _).0 r4 in
            let (r6, n) = (and_iff _ _).0 r5 in
            let (h, l) = (and_iff _ _).0 r6 in
            (
              (line_errors_iff 0 lines).0 p,
              (empty_errors_iff es).0 e,
              (Clean-iff D S algo genesis_prev 0 es).0 (h, l, n, s),
              (pq_errors_iff o (length es)).0 k,
              (tip_branch_iff o es o.tip_file).0 t,
            ),
        λ (p, e, w, k, t).
            let (h, l, n, s) = (Clean-iff D S algo genesis_prev 0 es).1 w in
            rw (
              h,
              l,
              n,
              (line_errors_iff 0 lines).1 p,
              s,
              (empty_errors_iff es).1 e,
              (pq_errors_iff o (length es)).1 k,
              (tip_branch_iff o es o.tip_file).1 t,
            ),
      )

  -- `verify_ledger` says PASS exactly when every line is an object, there is at least one, the
  -- entries are well-formed under the algorithm used (each has known keys only, holds the hash of its
  -- own canonical payload, links to the hash of the entry before it, the first to 64 zeros, and has its
  -- position as idx), a trusted post-quantum key comes with a trusted log key, and the tip is
  -- accepted: absent or without a trusted log key it must not be needed, else `check_tip` must accept
  -- it for the number of entries, the last hash and the first hash.
  pub pass_iff :
      (o : Options) (lines : List Line)
      → ((verify_ledger D S check o lines).verdict ≡ pass) ↔ Accepted o lines
  unfolding verify_ledger
  pass_iff o lines =
      let algo = algo_used D S o (entries_of lines) in
      elim (Bool-cases (integrity D S check o algo lines)) [
        | inl good ↦ (λ v. (integrity_iff o lines).0 good, λ a. rw good)
        | inr bad ↦ (λ v. cc (rw bad at v), λ a. cc (sym bad ∙ (integrity_iff o lines).1 a))
      ]
