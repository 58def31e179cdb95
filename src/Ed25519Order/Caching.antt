-- ===== src/Ed25519Order/Caching.antt =====
-- ed25519_order.py: `strict_problem` with and without its cache of keys.
use cryptovalid_opencore.Prelude.{
  ◌≡◌, refl, sym, ap, ◌∙◌, inl, inr, Option, some, Bool-cases, Option-cases,
}
use cryptovalid_opencore.Bytes.{Bytes, bytes_eq, bytes_eq_iff}
use cryptovalid_opencore.Ed25519Order.{
  Problem, key_problem, r_problem, Cache, no_keys, cached, lookup, or_problem, strict_problem,
  strict_problem_cached,
}

-- every key is stored with what is found for it
abbrev pub Coherent : Cache → Type 0
Coherent no_keys = Unit
Coherent (cached key problem cache) = (problem ≡ key_problem key) × Coherent cache

lookup-Coherent :
    (key : Bytes) (cache : Cache) (found : Option Problem)
    → Coherent cache
    → lookup key cache ≡ some found
    → found ≡ key_problem key
unfolding lookup
lookup-Coherent key no_keys found c e = absurd (cc)
lookup-Coherent key (cached k problem cache) found (stored, c) e =
    elim (Bool-cases (bytes_eq k key)) [
      | inl same ↦
          let here = (bytes_eq_iff k key).0 same in
          let hit : some problem ≡ some found = rw same at e in
          let value : problem ≡ found = cc in sym value ∙ (stored ∙ ap key_problem here)
      | inr other ↦ lookup-Coherent key cache found c (rw other at e)
    ]

-- With a cache that stores for every key what key_problem finds for it, strict_problem finds what it
-- finds without a cache, and the cache that it leaves behind stores such values again.
pub strict_problem_cached-Coherent :
    (key sig : Bytes) (cache : Cache)
    → Coherent cache
    → ((strict_problem_cached key sig cache).0 ≡ strict_problem key sig)
      × Coherent (strict_problem_cached key sig cache).1
unfolding strict_problem_cached strict_problem
strict_problem_cached-Coherent key sig cache c = elim (Option-cases (lookup key cache)) [
  | inl missing ↦ rw missing (refl, (refl, c))
  | inr (found, hit) ↦
      let value = lookup-Coherent key cache found c hit in
      rw hit (ap (λ t. or_problem t (r_problem sig)) value, c)
]
