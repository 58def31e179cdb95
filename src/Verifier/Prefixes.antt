-- ===== src/Verifier/Prefixes.antt =====
-- verifier.py: `verify_ledger` on a shorter prefix of a ledger.
use cryptovalid_opencore.Prelude.{
  ℕ, zero, suc, ◌≤◌, ◌≡◌, refl, sym, ap, ◌∙◌, arith, none, List, [], ◌∷◌, map, length-take, take,
  take-map, Option,
}
use cryptovalid_opencore.Bytes.{Digest}
use cryptovalid_opencore.Json.{Text, Members}
use cryptovalid_opencore.Outcome.{Algo, Line, object, Options, TipError, pass}
use cryptovalid_opencore.Checks.{entries_of, genesis_prev}
use cryptovalid_opencore.Verifier.{chosen, hash_of_entry, detect_algo, algo_used, verify_ledger}
use cryptovalid_opencore.Verifier.Chain.{Wellformed, pass_iff}

entries_of-map : (es : List Members) → entries_of (map object es) ≡ es
unfolding entries_of
entries_of-map [] = refl
entries_of-map (e ∷ es) = ap (λ t. e ∷ t) (entries_of-map es)

-- of lines that are all objects
entries_of-take :
    (k : ℕ) (lines : List Line)
    → lines ≡ map object (entries_of lines)
    → (entries_of (take k lines) ≡ take k (entries_of lines))
      × (take k lines ≡ map object (entries_of (take k lines)))
entries_of-take k lines whole =
    let shorter : take k lines ≡ map object (take k (entries_of lines)) =
      ap (take k) whole ∙ take-map object k (entries_of lines) in
    let entries : entries_of (take k lines) ≡ take k (entries_of lines) =
      ap entries_of shorter ∙ entries_of-map (take k (entries_of lines)) in
    (entries, shorter ∙ ap (map object) (sym entries))

module _ (D S : Digest) (check : ℕ → Text → Text → Members → Option TipError) where
  Wellformed-take :
      (algo : Algo) (prev : Text) (i k : ℕ) (es : List Members)
      → Wellformed D S algo prev i es
      → Wellformed D S algo prev i (take k es)
  Wellformed-take algo prev i zero es w = tt
  Wellformed-take algo prev i (suc k) [] w = tt
  Wellformed-take algo prev i (suc k) (e ∷ es) (c, h, l, n, w) =
      (c, h, l, n, Wellformed-take algo (hash_of_entry D S algo e) (suc i) k es w)

  detect_algo-take :
      (k : ℕ) (es : List Members) → 1 ≤ k → detect_algo D S (take k es) ≡ detect_algo D S es
  unfolding detect_algo
  detect_algo-take zero es h = absurd (omega arith)
  detect_algo-take (suc k) [] h = refl
  detect_algo-take (suc k) (e ∷ es) h = refl

  -- Where no tip is found, every non-empty prefix of the lines of a ledger that `verify_ledger` answers
  -- PASS for gets PASS too.
  pub prefix_passes :
      (o : Options) (lines : List Line) (k : ℕ)
      → o.tip_file ≡ none
      → (verify_ledger D S check o lines).verdict ≡ pass
      → 1 ≤ k
      → (verify_ledger D S check o (take k lines)).verdict ≡ pass
  unfolding algo_used
  prefix_passes o lines k untipped ok h =
      let (whole, some_entry, w, keys, tip) = (pass_iff D S check o lines).0 ok in
      let (entries, objects) = entries_of-take k lines whole in
      let same : detect_algo D S (take k (entries_of lines)) ≡ detect_algo D S (entries_of lines) =
        detect_algo-take k (entries_of lines) h in
      (pass_iff D S check o (take k lines)).1 (
        objects,
        rw entries (omega (arith, length-take k (entries_of lines))),
        rw (entries, same)
            (Wellformed-take (chosen o.algo (detect_algo D S (entries_of lines))) genesis_prev 0 k
              (entries_of lines) w),
        keys,
        rw untipped (rw untipped at tip),
      )
