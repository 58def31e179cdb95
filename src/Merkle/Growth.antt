-- ===== src/Merkle/Growth.antt =====
-- cryptovalid_merkle.py: the loop of `verify_consistency` along the path of the old tree's last
-- node.
use cryptovalid_opencore.Prelude.{
  ℕ, zero, suc, ◌+◌, ◌-◌, ◌/◌, ◌≤◌, ◌≡◌, refl, sym, ap, ◌∙◌, arith, true, inl, inr, List, map,
  length, ltb, ltb→lt, odd, ◌==◌, ==_iff, Bool-cases,
}
use cryptovalid_opencore.Bytes.{Bytes, Digest, bytes_eq_iff}
use cryptovalid_opencore.Merkle.{node_hash, consistency_loop, roots_agree}
use cryptovalid_opencore.Merkle.Levels.{
  hash_of, at, pair, root, path, length-pair, parent_right, parent_left, parent_alone, root-pair,
  root_one, path_one,
}
use cryptovalid_opencore.Merkle.Walk.{Carried, Carried-pair, walk_right, walk_left, walk_alone}

module _ (D : Digest) where
  -- from node i of both levels, to both roots
  abbrev pub Arrives : ℕ → List Bytes → List Bytes → Type 0
  Arrives i old new =
      roots_agree (root D old) (root D new)
        (consistency_loop D i (length new - 1) (at old i) (at new i) (map hash_of (path D i new)))
      ≡ true

  Arrives-one :
      (i : ℕ) (old new : List Bytes) → Carried D i old new → length new ≡ 1 → Arrives i old new
  unfolding consistency_loop
  Arrives-one zero old new c e =
      let one : length old ≡ 1 = omega (arith, c.size) in
      rw (path_one D 0 new e, root_one D new e, root_one D old one, e)
        (rw ((bytes_eq_iff (at old 0) (at old 0)).1 refl)
          ((bytes_eq_iff (at new 0) (at new 0)).1 refl))
  Arrives-one (suc i) old new c e = absurd (omega (arith, c.inside))

  Arrives-below :
      (bound i : ℕ) (old new : List Bytes)
      → length new ≤ bound
      → Carried D i old new
      → Arrives i old new
  Arrives-below zero i old new p c = absurd (omega (arith, c.inside))
  Arrives-below (suc bound) i old new p c = elim (Bool-cases (length new == 1)) [
    | inl one ↦ Arrives-one i old new c ((==_iff _ _).0 one)
    | inr more ↦
        let l = length-pair D new in
        let smaller : length (pair D new) ≤ bound = ground arith in
        let higher =
          rw (← root-pair D old, ← root-pair D new) at
            (Arrives-below bound (i / 2) (pair D old) (pair D new) smaller (Carried-pair D c)) in
        let last : i + 1 ≡ length old = omega (arith, c.size) in
        elim (Bool-cases (odd i)) [
          | inl r ↦
              let old_parent : node_hash D (at new (i - 1)) (at old i) ≡ at (pair D old) (i / 2) =
                ap (λ t. node_hash D t (at old i)) (sym (c.agree (i - 1) (ground arith)))
                ∙ sym (parent_right D i old r (omega arith)) in
              rw
                (
                  walk_right D i new (at old i) (at new i) r c.inside,
                  old_parent,
                  ← parent_right D i new r c.inside,
                )
                higher
          | inr e ↦ elim (Bool-cases (ltb (i + 1) (length new))) [
            | inl paired ↦
                let next = ltb→lt _ _ paired in
                rw
                  (
                    walk_left D i new (at old i) (at new i) e next,
                    ← parent_alone D i old e last,
                    ← parent_left D i new e next,
                  )
                  higher
            | inr alone ↦
                let last' : i + 1 ≡ length new = ground (arith, c.inside) in
                walk_alone D i new (at old i) (at new i) (root D old) (root D new) e (ground arith)
                  last'
                ∙ rw (← parent_alone D i old e last, ← parent_alone D i new e last') higher
          ]
        ]
  ]

  pub arrives : (i : ℕ) (old new : List Bytes) → Carried D i old new → Arrives i old new
  arrives i old new c = Arrives-below (length new) i old new (omega arith) c
