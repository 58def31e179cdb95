-- ===== src/Tip/Accepted.antt =====
-- cryptovalid_tip.py: the checks of a tip that `check_tip` finds nothing wrong with.
use cryptovalid_opencore.Prelude.{
  ℕ, ◌≡◌, refl, sym, arith, Bool, true, false, not, ◌&&◌, ◌⊎◌, inl, inr, Option, none, some, List,
  ◌∷◌, ltb, Option-cases,
}
use cryptovalid_opencore.Bytes.{Bytes, bytes_eq_iff}
use cryptovalid_opencore.Json.{Text, Members}
use cryptovalid_opencore.Outcome.{TipError}
use cryptovalid_opencore.Verifier.{given}
use cryptovalid_opencore.Instant.{parse_instant}
use cryptovalid_opencore.Encoding.{fromhex, b64_strict}
use cryptovalid_opencore.Tip.{
  Schemes, entries_in, ledger_id_in, tip_sha256_in, ts_in, signature_in, pq_signature_in,
  payload_of, first_of, or_else, TipOptions, before, of_another, signature_checks,
  verify_tip_signature, state_checks, check_tip,
}

first_of-none :
    (c : Bool × TipError) (checks : List (Bool × TipError))
    → first_of (c ∷ checks) ≡ none
    → (c.0 ≡ false) × (first_of checks ≡ none)
unfolding first_of
first_of-none (true, why) checks e = absurd (cc)
first_of-none (false, why) checks e = (refl, e)

or_else-none : (a b : Option TipError) → or_else a b ≡ none → (a ≡ none) × (b ≡ none)
or_else-none none b e = (refl, e)
or_else-none (some why) b e = absurd (cc)

module _ (c : Schemes) where
  -- the signatures over the tip's payload
  abbrev pub Signed : TipOptions → Members → Type 0
  Signed o tip =
      (c.ed25519_verify (fromhex o.trusted) (payload_of tip) (fromhex (signature_in tip)) ≡ true)
      × ((given o.trusted_pq ≡ false)
          ⊎ ((key : Bytes) × (b64_strict o.trusted_pq 1952 ≡ some key)
              × (c.mldsa65_verify key (payload_of tip) (fromhex (pq_signature_in tip)) ≡ true)))

  -- with a first self_hash, where there is an entry: the ledger id is it
  abbrev pub IsOwn : Option Text → ℕ → Text → Type 0
  IsOwn none n id = Unit
  IsOwn (some first) n id = (ltb 0 n ≡ false) ⊎ (id ≡ first)

  -- the state that the tip commits to
  abbrev pub Describes : TipOptions → ℕ → Text → Option Text → Members → Type 0
  Describes o n last first tip =
      (entries_in tip ≡ n)
      × (tip_sha256_in tip ≡ last)
      × IsOwn first n (ledger_id_in tip)
      × ((given o.expect_ledger_id ≡ false) ⊎ (ledger_id_in tip ≡ o.expect_ledger_id))
      × ((given o.not_before ≡ false)
          ⊎ (before (parse_instant (ts_in tip)) (parse_instant o.not_before) ≡ false))

  either : (a b : Bool) → (a && b) ≡ false → (a ≡ false) ⊎ (b ≡ false)
  either true b e = inr e
  either false b e = inl refl

  not-false : (a : Bool) → not a ≡ false → a ≡ true
  not-false true e = refl
  not-false false e = absurd (cc)

  Signed-checks :
      (o : TipOptions) (tip : Members)
      → first_of (signature_checks c tip o.trusted o.trusted_pq) ≡ none
      → Signed o tip
  unfolding signature_checks
  Signed-checks o tip e =
      let (ed, e1) = first_of-none _ _ e in
      let (missing, e2) = first_of-none _ _ e1 in
      let (other, e3) = first_of-none _ _ e2 in
      let (key, e4) = first_of-none _ _ e3 in
      let (pq, e5) = first_of-none _ _ e4 in
      (
        not-false _ ed,
        elim (either _ _ key) [
          | inl unwanted ↦ inl unwanted
          | inr present ↦ elim (either _ _ pq) [
            | inl unwanted ↦ inl unwanted
            | inr invalid ↦ elim (Option-cases (b64_strict o.trusted_pq 1952)) [
              | inl none_there ↦ absurd (cc (rw none_there at present))
              | inr (raw, some_there) ↦
                  inr (raw, some_there, rw some_there at (not-false _ invalid))
            ]
          ]
        ],
      )

  of_another-IsOwn :
      (first : Option Text) (n : ℕ) (id : Text) → of_another first n id ≡ false → IsOwn first n id
  of_another-IsOwn none n id e = tt
  of_another-IsOwn (some first) n id e = elim (either _ _ e) [
    | inl no_entry ↦ inl no_entry
    | inr differs ↦ inr ((bytes_eq_iff id first).0 (not-false _ differs))
  ]

  Describes-checks :
      (o : TipOptions) (n : ℕ) (last : Text) (first : Option Text) (tip : Members)
      → first_of (state_checks c o n last first tip) ≡ none
      → Describes o n last first tip
  unfolding state_checks
  Describes-checks o n last first tip e =
      let (expected, e1) = first_of-none _ _ e in
      let (own, e2) = first_of-none _ _ e1 in
      let (readable, e3) = first_of-none _ _ e2 in
      let (fresh, e4) = first_of-none _ _ e3 in
      let (truncated, e5) = first_of-none _ _ e4 in
      let (unsealed, e6) = first_of-none _ _ e5 in
      let (rewritten, e7) = first_of-none _ _ e6 in
      (
        ground arith,
        sym ((bytes_eq_iff last (tip_sha256_in tip)).0 (not-false _ rewritten)),
        of_another-IsOwn first n (ledger_id_in tip) own,
        elim (either _ _ expected) [
          | inl any ↦ inl any
          | inr differs ↦
              inr ((bytes_eq_iff (ledger_id_in tip) o.expect_ledger_id).0 (not-false _ differs))
        ],
        either _ _ fresh,
      )

  -- `check_tip` finds nothing wrong only with a tip whose payload the trusted Ed25519 key signed, and,
  -- where a trusted post-quantum key is given, that key too, and that commits to exactly the given
  -- number of entries and last hash, where there is an entry to the first hash if one is given, to the
  -- expected ledger where one is given, and is not dated before the instant not_before where one is given.
  pub check_tip-accepts :
      (o : TipOptions) (n : ℕ) (last : Text) (first : Option Text) (tip : Members)
      → check_tip c o n last first tip ≡ none
      → Signed o tip × Describes o n last first tip
  unfolding check_tip verify_tip_signature
  check_tip-accepts o n last first tip e =
      let (signed, state) = or_else-none _ _ e in
      let (format, rest) = or_else-none _ _ signed in
      let (strict, signatures) = or_else-none _ _ rest in
      (Signed-checks o tip signatures, Describes-checks o n last first tip state)
