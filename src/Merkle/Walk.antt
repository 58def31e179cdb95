-- ===== src/Merkle/Walk.antt =====
-- The loop of `verify_consistency`: it carries the last node of the old tree and the node above it
-- in the new tree up the levels, from a level where the old tree ends in a node without a sibling.
use cryptovalid_opencore.Prelude.{
  ℕ, suc, ◌+◌, ◌-◌, ◌/◌, ◌<◌, ◌≡◌, sym, ap, ap₂, ◌∙◌, arith, true, false, inl, inr, some, List, [],
  ◌∷◌, map, length, odd, ◌==◌, Bool-cases,
}
use cryptovalid_opencore.Bytes.{Bytes, Digest}
use cryptovalid_opencore.Merkle.{◌>>=◌, node_hash, consistency_step, consistency_loop, roots_agree}
use cryptovalid_opencore.Merkle.Levels.{
  hash_of, at, double, double_lem, pair, path, length-pair, at-pair, sibling_right, sibling_left,
  sibling_alone, path-pair,
}
use cryptovalid_opencore.Merkle.Inclusion.{shift_even-odd, shift_even_again}

-- the nodes of two levels agree below i
abbrev pub Agree : ℕ → List Bytes → List Bytes → Type 0
Agree i old new = (j : ℕ) → j < i → at old j ≡ at new j

-- every node of a level is a digest of 32 bytes
abbrev pub Digests : List Bytes → Type 0
Digests level = (j : ℕ) → j < length level → length (at level j) ≡ 32

abbrev pub AllDigests : List Bytes → Type 0
AllDigests [] = Unit
AllDigests (p ∷ ps) = (length p ≡ 32) × AllDigests ps

module _ (D : Digest) where
  step_right :
      (fn sn : ℕ) (fr sr c : Bytes)
      → odd fn ≡ true
      → 0 < sn
      → consistency_step D fn sn fr sr c ≡ some (fn / 2, sn / 2, node_hash D c fr, node_hash D c sr)
  unfolding consistency_step
  step_right fn sn fr sr c e h =
      let more : (sn == 0) ≡ false = ground arith in rw (more, e, shift_even-odd fn fn sn e)

  step_left :
      (fn sn : ℕ) (fr sr c : Bytes)
      → odd fn ≡ false
      → fn < sn
      → consistency_step D fn sn fr sr c ≡ some (fn / 2, sn / 2, fr, node_hash D sr c)
  unfolding consistency_step
  step_left fn sn fr sr c e h =
      let more : (sn == 0) ≡ false = ground arith in
      let differ : (fn == sn) ≡ false = ground arith in rw (more, e, differ)

  step_alone :
      (fn : ℕ) (fr sr c : Bytes)
      → odd fn ≡ false
      → 0 < fn
      → consistency_step D fn fn fr sr c ≡ consistency_step D (fn / 2) (fn / 2) fr sr c
  unfolding consistency_step
  step_alone fn fr sr c e h =
      let more : (fn == 0) ≡ false = ground arith in
      let more' : (fn / 2 == 0) ≡ false = ground arith in
      let same : (fn == fn) ≡ true = ground arith in
      let same' : (fn / 2 == fn / 2) ≡ true = ground arith in
      rw (more, more', e, same, same', shift_even_again fn fn e h)
        (elim (Bool-cases (odd (fn / 2))) [ inl o ↦ rw o | inr o ↦ rw o ])

  pub loop_right :
      (fn sn : ℕ) (fr sr c : Bytes) (cs : List Bytes)
      → odd fn ≡ true
      → 0 < sn
      → consistency_loop D fn sn fr sr (c ∷ cs)
        ≡ consistency_loop D (fn / 2) (sn / 2) (node_hash D c fr) (node_hash D c sr) cs
  unfolding consistency_loop
  loop_right fn sn fr sr c cs e h =
      ap (λ r. r >>= λ s. consistency_loop D s.0 s.1 s.2 s.3 cs) (step_right fn sn fr sr c e h)

  pub loop_left :
      (fn sn : ℕ) (fr sr c : Bytes) (cs : List Bytes)
      → odd fn ≡ false
      → fn < sn
      → consistency_loop D fn sn fr sr (c ∷ cs)
        ≡ consistency_loop D (fn / 2) (sn / 2) fr (node_hash D sr c) cs
  unfolding consistency_loop
  loop_left fn sn fr sr c cs e h =
      ap (λ r. r >>= λ s. consistency_loop D s.0 s.1 s.2 s.3 cs) (step_left fn sn fr sr c e h)

  pub loop_alone :
      (fn : ℕ) (fr sr : Bytes) (cs : List Bytes) (old new : Bytes)
      → odd fn ≡ false
      → 0 < fn
      → roots_agree old new (consistency_loop D fn fn fr sr cs)
        ≡ roots_agree old new (consistency_loop D (fn / 2) (fn / 2) fr sr cs)
  unfolding consistency_loop
  loop_alone fn fr sr [] old new e h = ground arith
  loop_alone fn fr sr (c ∷ cs) old new e h =
      ap (λ r. roots_agree old new (r >>= λ s. consistency_loop D s.0 s.1 s.2 s.3 cs))
        (step_alone fn fr sr c e h)

  Agree-pair :
      (i : ℕ) (old new : List Bytes)
      → i < length old
      → i < length new
      → Agree i old new
      → Agree (i / 2) (pair D old) (pair D new)
  Agree-pair i old new p q agree j h =
      let d = double_lem j in
      at-pair D j old (omega arith)
      ∙ (ap₂ (node_hash D) (agree (double j) (omega arith)) (agree (suc (double j)) (omega arith))
          ∙ sym (at-pair D j new (omega arith)))

  -- what holds of a level, of the old tree inside it and of the two hashes that are carried
  pub record Carried (i : ℕ) (old new : List Bytes) : Type 0 where
    pub size : length old ≡ i + 1
    pub inside : i < length new
    pub agree : Agree i old new

  pub Carried-pair :
      {i : ℕ} {old new : List Bytes} → Carried i old new → Carried (i / 2) (pair D old) (pair D new)
  Carried-pair {i} {old} {new} c = record {
    size = omega (arith, length-pair D old, c.size);
    inside = omega (arith, length-pair D new, c.inside);
    agree = Agree-pair i old new (omega (arith, c.size)) c.inside c.agree;
  }

  -- one round of a walk along a path, from the level to the next
  pub walk_right :
      (i : ℕ) (new : List Bytes) (fr sr : Bytes)
      → odd i ≡ true
      → i < length new
      → consistency_loop D i (length new - 1) fr sr (map hash_of (path D i new))
        ≡ consistency_loop D
            (i / 2)
            (length (pair D new) - 1)
            (node_hash D (at new (i - 1)) fr)
            (node_hash D (at new (i - 1)) sr)
            (map hash_of (path D (i / 2) (pair D new)))
  walk_right i new fr sr e h =
      let size : length (pair D new) - 1 ≡ (length new - 1) / 2 =
        omega (arith, length-pair D new) in
      rw (path-pair D i new h, sibling_right i new e, size)
        (loop_right i (length new - 1) fr sr (at new (i - 1))
          (map hash_of (path D (i / 2) (pair D new))) e (ground arith))

  pub walk_left :
      (i : ℕ) (new : List Bytes) (fr sr : Bytes)
      → odd i ≡ false
      → i + 1 < length new
      → consistency_loop D i (length new - 1) fr sr (map hash_of (path D i new))
        ≡ consistency_loop D
            (i / 2)
            (length (pair D new) - 1)
            fr
            (node_hash D sr (at new (i + 1)))
            (map hash_of (path D (i / 2) (pair D new)))
  walk_left i new fr sr e h =
      let size : length (pair D new) - 1 ≡ (length new - 1) / 2 =
        omega (arith, length-pair D new) in
      rw (path-pair D i new (omega arith), sibling_left i new e h, size)
        (loop_left i (length new - 1) fr sr (at new (i + 1))
          (map hash_of (path D (i / 2) (pair D new))) e (omega arith))

  pub walk_alone :
      (i : ℕ) (new : List Bytes) (fr sr top_old top_new : Bytes)
      → odd i ≡ false
      → 0 < i
      → i + 1 ≡ length new
      → roots_agree top_old top_new
          (consistency_loop D i (length new - 1) fr sr (map hash_of (path D i new)))
        ≡ roots_agree top_old top_new (
            consistency_loop D
              (i / 2)
              (length (pair D new) - 1)
              fr
              sr
              (map hash_of (path D (i / 2) (pair D new))))
  walk_alone i new fr sr top_old top_new e h last =
      let here : length new - 1 ≡ i = omega arith in
      let size : length (pair D new) - 1 ≡ i / 2 = ground (arith, length-pair D new) in
      rw (path-pair D i new (omega arith), sibling_alone i new e last, here, size)
        (loop_alone i fr sr (map hash_of (path D (i / 2) (pair D new))) top_old top_new e h)
