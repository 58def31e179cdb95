-- ===== src/Merkle/Genuine.antt =====
-- cryptovalid_merkle.py: an arbitrary proof in the loop of `verify_consistency`, level by level.
use cryptovalid_opencore.Prelude.{
  ℕ, zero, suc, ◌+◌, ◌-◌, ◌/◌, ◌≤◌, ◌<◌, ◌≡◌, sym, ap, ap₂, ◌∙◌, arith, true, false, ◌⊎◌, inl, inr,
  List, [], ◌∷◌, ◌++◌, length, length-map, get_or-map, get_or, ltb, ltb→lt, odd, ◌==◌, ==_iff,
  Bool-cases,
}
use cryptovalid_opencore.Bytes.{Bytes, Digest, Collision, bytes_eq, bytes_eq_iff}
use cryptovalid_opencore.Merkle.{
  leaf_hash, node_hash, consistency_step, consistency_loop, roots_agree,
}
use cryptovalid_opencore.Merkle.Levels.{
  at, double, double_lem, pair, root, length-pair, at-pair, at-pair_last, parent_right, parent_left,
  parent_alone, root-pair, root_one,
}
use cryptovalid_opencore.Merkle.Audit.{hashed}
use cryptovalid_opencore.Merkle.Descent.{node_inject}
use cryptovalid_opencore.Merkle.Walk.{
  Digests, AllDigests, Carried, Carried-pair, loop_right, loop_left, loop_alone,
}

module _ (D : Digest) where
  length-node : (a b : Bytes) → length (node_hash D a b) ≡ 32
  unfolding node_hash
  length-node a b = D.length-hash (1 ∷ a ++ b)

  pub Digests-pair : (level : List Bytes) → Digests level → Digests (pair D level)
  Digests-pair level h j p =
      let l = length-pair D level in
      let d = double_lem j in
      elim (Bool-cases (ltb (double j + 1) (length level))) [
        | inl inner ↦ rw (at-pair D j level (ltb→lt _ _ inner)) (length-node _ _)
        | inr last ↦ rw (at-pair_last D j level (ground arith)) (h (double j) (ground arith))
      ]

  pub Digests-hashed : (leaves : List Bytes) → Digests (hashed D leaves)
  unfolding leaf_hash
  Digests-hashed leaves j p =
      rw (get_or-map (leaf_hash D) leaves j [] [] (omega (arith, length-map (leaf_hash D) leaves)))
        (D.length-hash (0 ∷ get_or leaves j []))

  -- what an accepted walk from node i says of the hashes that it started with
  abbrev pub Genuine : ℕ → List Bytes → List Bytes → Bytes → Bytes → Bytes → Type 0
  Genuine i old new top_old fr sr =
      ((sr ≡ at new i) × (fr ≡ at old i → top_old ≡ root D old)) ⊎ Collision D

  abbrev pub Ends : ℕ → List Bytes → Bytes → Bytes → Bytes → List Bytes → Type 0
  Ends i new top_old fr sr proof =
      roots_agree top_old (root D new) (consistency_loop D i (length new - 1) fr sr proof) ≡ true

  Ends-one :
      (i : ℕ) (old new : List Bytes) (top_old fr sr : Bytes) (proof : List Bytes)
      → Carried D i old new
      → length new ≡ 1
      → Ends i new top_old fr sr proof
      → Genuine i old new top_old fr sr
  unfolding consistency_loop consistency_step
  Ends-one i old new top_old fr sr [] c e ends =
      let at_zero : i ≡ 0 = omega (arith, c.inside) in
      let parts : (bytes_eq fr top_old ≡ true) × (bytes_eq sr (root D new) ≡ true) = ground arith in
      inl (
        rw at_zero ((bytes_eq_iff sr (root D new)).0 parts.1 ∙ root_one D new e),
        λ same.
            sym ((bytes_eq_iff fr top_old).0 parts.0)
            ∙ (same ∙ (ap (at old) at_zero ∙ sym (root_one D old (omega (arith, c.size))))),
      )
  Ends-one i old new top_old fr sr (p ∷ proof) c e ends = absurd (ground arith)

  -- walks from the next level, for all hashes and proofs
  abbrev Above : ℕ → List Bytes → List Bytes → Bytes → Type 0
  Above i old new top_old =
      (fr sr : Bytes) (proof : List Bytes)
      → AllDigests proof
      → Ends (i / 2) (pair D new) top_old fr sr proof
      → Genuine (i / 2) (pair D old) (pair D new) top_old fr sr

  module _ (i : ℕ) (old new : List Bytes) (top_old fr sr : Bytes) where
    Genuine-right :
        (proof : List Bytes)
        → Above i old new top_old
        → Carried D i old new
        → Digests new
        → AllDigests proof
        → odd i ≡ true
        → Ends i new top_old fr sr proof
        → Genuine i old new top_old fr sr
    Genuine-right [] above c h ds e ends =
        let inside = c.inside in absurd (unfold consistency_loop in ground arith)
    Genuine-right (p ∷ proof) above c h (d, ds) e ends =
        let inside = c.inside in
        let size : (length new - 1) / 2 ≡ length (pair D new) - 1 =
          omega (arith, length-pair D new) in
        let after =
          rw (root-pair D new, loop_right D i (length new - 1) fr sr p proof e (ground arith), size)
            at ends in
        elim (above (node_hash D p fr) (node_hash D p sr) proof ds after) [
          | inr x ↦ inr x
          | inl (at_sr, at_fr) ↦
              elim (node_inject D p sr (at new (i - 1)) (at new i)
                (inl (d ∙ sym (h (i - 1) (omega arith)))) (at_sr ∙ parent_right D i new e inside)) [
                  | inr x ↦ inr x
                  | inl (sibling, same) ↦ inl (
                    same,
                    λ fr_old.
                        at_fr (
                          ap₂ (node_hash D) (sibling ∙ sym (c.agree (i - 1) (ground arith))) fr_old
                          ∙ sym (parent_right D i old e (omega (arith, c.size))))
                        ∙ sym (root-pair D old),
                  )
                ]
        ]

    Genuine-left :
        (proof : List Bytes)
        → Above i old new top_old
        → Carried D i old new
        → Digests new
        → AllDigests proof
        → odd i ≡ false
        → i + 1 < length new
        → Ends i new top_old fr sr proof
        → Genuine i old new top_old fr sr
    Genuine-left [] above c h ds e next ends = absurd (unfold consistency_loop in ground arith)
    Genuine-left (p ∷ proof) above c h (d, ds) e next ends =
        let size : (length new - 1) / 2 ≡ length (pair D new) - 1 =
          omega (arith, length-pair D new) in
        let after =
          rw (root-pair D new, loop_left D i (length new - 1) fr sr p proof e (omega arith), size)
            at ends in
        elim (above fr (node_hash D sr p) proof ds after) [
          | inr x ↦ inr x
          | inl (at_sr, at_fr) ↦
              elim (node_inject D sr p (at new i) (at new (i + 1)) (inr (d ∙ sym (h (i + 1) next)))
                (at_sr ∙ parent_left D i new e next)) [
                  | inr x ↦ inr x
                  | inl (same, _) ↦ inl (
                    same,
                    λ fr_old.
                        at_fr (fr_old ∙ sym (parent_alone D i old e (omega (arith, c.size))))
                        ∙ sym (root-pair D old),
                  )
                ]
        ]

    Genuine-alone :
        (proof : List Bytes)
        → Above i old new top_old
        → Carried D i old new
        → AllDigests proof
        → odd i ≡ false
        → 0 < i
        → i + 1 ≡ length new
        → Ends i new top_old fr sr proof
        → Genuine i old new top_old fr sr
    Genuine-alone proof above c ds e pos last ends =
        let here : length new - 1 ≡ i = omega arith in
        let size : i / 2 ≡ length (pair D new) - 1 = ground (arith, length-pair D new) in
        let after =
          rw (root-pair D new, here, loop_alone D i fr sr proof top_old (root D (pair D new)) e pos)
            at ends in
        elim (above fr sr proof ds (rw (← size) after)) [
          | inr x ↦ inr x
          | inl (at_sr, at_fr) ↦ inl (
            at_sr ∙ parent_alone D i new e last,
            λ fr_old.
                at_fr (fr_old ∙ sym (parent_alone D i old e (omega (arith, c.size))))
                ∙ sym (root-pair D old),
          )
        ]

  pub Genuine-below :
      (bound i : ℕ) (old new : List Bytes) (top_old fr sr : Bytes) (proof : List Bytes)
      → length new ≤ bound
      → Carried D i old new
      → Digests new
      → AllDigests proof
      → Ends i new top_old fr sr proof
      → Genuine i old new top_old fr sr
  Genuine-below zero i old new top_old fr sr proof p c h ds ends = absurd (omega (arith, c.inside))
  Genuine-below (suc bound) i old new top_old fr sr proof p c h ds ends =
      elim (Bool-cases (length new == 1)) [
        | inl one ↦ Ends-one i old new top_old fr sr proof c ((==_iff _ _).0 one) ends
        | inr more ↦
            let l = length-pair D new in
            let smaller : length (pair D new) ≤ bound = ground arith in
            let inside = c.inside in
            let above : Above i old new top_old = λ fr' sr' proof' ds' ends'.
              Genuine-below bound (i / 2) (pair D old) (pair D new) top_old fr' sr' proof' smaller
                (Carried-pair D c) (Digests-pair new h) ds' ends' in
            elim (Bool-cases (odd i)) [
              | inl r ↦ Genuine-right i old new top_old fr sr proof above c h ds r ends
              | inr e ↦ elim (Bool-cases (ltb (i + 1) (length new))) [
                | inl paired ↦
                    Genuine-left i old new top_old fr sr proof above c h ds e (ltb→lt _ _ paired)
                      ends
                | inr alone ↦
                    Genuine-alone i old new top_old fr sr proof above c ds e (ground arith)
                      (ground arith) ends
              ]
            ]
      ]
