-- ===== src/Merkle.antt =====
-- cryptovalid_merkle.py: RFC 6962 tree hashes, inclusion and consistency proofs and their checks.
-- Sizes and indices are naturals; an AssertionError is `none`.
pub mod Split
pub mod Levels
pub mod Tree
pub mod Audit
pub mod Inclusion
pub mod Descent
pub mod Positions
pub mod Soundness
pub mod Walk
pub mod Growth
pub mod Anchor
pub mod Subproof
pub mod Consistency
pub mod Genuine
pub mod Prefix
pub mod Commitment
pub mod Verdicts
mod Tests
use Prim.Native.Nat.{bit_and}
use cryptovalid_opencore.Prelude.{
  ℕ, zero, suc, ◌-◌, ◌*◌, ◌/◌, Bool, true, false, not, ◌&&◌, ◌||◌, Option, none, some, List, [],
  ◌∷◌, ◌++◌, length, take, drop, ltb, leb, ◌==◌, odd, if◌then◌else◌,
}
use cryptovalid_opencore.Bytes.{Bytes, bytes_eq, Digest}

infixl 5 ◌>>=◌
abbrev pub ◌>>=◌ : {A B : Type 0} → Option A → (A → Option B) → Option B
none >>= k = none
some a >>= k = k a

-- `while k < n: k <<= 1`, on fuel
unfoldable pub pow2_loop : ℕ → ℕ → ℕ → ℕ
pow2_loop zero n k = k
pow2_loop (suc fuel) n k = let again = pow2_loop fuel n (k * 2) in if ltb k n then again else k

-- n rounds are enough: k starts at 1 and doubles
unfoldable pub largest_pow2_below : ℕ → ℕ
unfolding pow2_loop
largest_pow2_below n = pow2_loop n n 1 / 2

-- `while not (fn & 1) and fn != 0: fn >>= 1; sn >>= 1`, on fuel
unfoldable pub shift_even : ℕ → ℕ → ℕ → ℕ × ℕ
shift_even zero fn sn = (fn, sn)
shift_even (suc fuel) fn sn =
    let again = shift_even fuel (fn / 2) (sn / 2) in
    if not (odd fn) && not (fn == 0) then again else (fn, sn)

-- `while fn & 1: fn >>= 1; sn >>= 1`, on fuel
unfoldable pub shift_odd : ℕ → ℕ → ℕ → ℕ × ℕ
shift_odd zero fn sn = (fn, sn)
shift_odd (suc fuel) fn sn =
    let again = shift_odd fuel (fn / 2) (sn / 2) in if odd fn then again else (fn, sn)

abbrev pub halve : ℕ × ℕ → ℕ × ℕ
halve s = (s.0 / 2, s.1 / 2)

abbrev pub is_empty : List Bytes → Bool
is_empty [] = true
is_empty (x ∷ xs) = false

-- the tests of the last line of `verify_consistency`, over sn, fr and sr
abbrev pub roots_agree : Bytes → Bytes → Option (ℕ × Bytes × Bytes) → Bool
roots_agree old_root new_root none = false
roots_agree old_root new_root (some (sn, fr, sr)) =
    sn == 0 && bytes_eq fr old_root && bytes_eq sr new_root

-- the three answers of `consistency_verdict`
pub data Verdict : Type 0 where
  consistent : Verdict
  inconsistent : Verdict
  could_not_compare : Verdict

module _ (D : Digest) where
  -- `b"\x00" + data` and `b"\x01" + left + right`, hashed
  unfoldable pub leaf_hash : Bytes → Bytes
  leaf_hash bytes = D.hash (0 ∷ bytes)

  unfoldable pub node_hash : Bytes → Bytes → Bytes
  node_hash left right = D.hash (1 ∷ left ++ right)

  -- the recursion of `mth`; fuel 0 with two leaves or more is never reached from `mth`
  unfoldable pub mth_fuel : ℕ → List Bytes → Bytes
  mth_fuel fuel [] = D.hash []
  mth_fuel fuel (d ∷ []) = leaf_hash d
  mth_fuel zero (d ∷ e ∷ rest) = []
  mth_fuel (suc fuel) (d ∷ e ∷ rest) =
      let leaves : List Bytes = d ∷ e ∷ rest in
      let k = largest_pow2_below (length leaves) in
      node_hash (mth_fuel fuel (take k leaves)) (mth_fuel fuel (drop k leaves))

  unfoldable pub mth : List Bytes → Bytes
  mth leaves = mth_fuel (length leaves) leaves

  -- `assert 0 <= m < n` stands in every call
  unfoldable pub inclusion_fuel : ℕ → ℕ → List Bytes → Option (List Bytes)
  inclusion_fuel zero m leaves = none
  inclusion_fuel (suc fuel) m leaves =
      let k = largest_pow2_below (length leaves) in
      let in_left =
        inclusion_fuel fuel m (take k leaves) >>= λ path. some (path ++ mth (drop k leaves) ∷ []) in
      let in_right = inclusion_fuel fuel (m - k) (drop k leaves) >>= λ path.
      some (path ++ mth (take k leaves) ∷ []) in
      if ltb m (length leaves)
      then (if length leaves == 1 then some [] else if ltb m k then in_left else in_right)
      else none

  unfoldable pub inclusion_proof : ℕ → List Bytes → Option (List Bytes)
  inclusion_proof m leaves = inclusion_fuel (length leaves) m leaves

  -- one round of the loop of `verify_inclusion`, over fn, sn and h
  unfoldable pub inclusion_step : ℕ → ℕ → Bytes → Bytes → ℕ × ℕ × Bytes
  inclusion_step fn sn h p =
      if fn == sn || odd fn
      then (let s = halve (shift_even fn fn sn) in (s.0, s.1, node_hash p h))
      else (fn / 2, sn / 2, node_hash h p)

  unfoldable pub inclusion_loop : ℕ → ℕ → Bytes → List Bytes → ℕ × Bytes
  inclusion_loop fn sn h [] = (sn, h)
  inclusion_loop fn sn h (p ∷ proof) =
      let s = inclusion_step fn sn h p in inclusion_loop s.0 s.1 s.2 proof

  unfoldable pub verify_inclusion : ℕ → ℕ → Bytes → List Bytes → Bytes → Bool
  verify_inclusion m n leaf_data proof root =
      if leb n m
      then false
      else (let r = inclusion_loop m (n - 1) (leaf_hash leaf_data) proof in
          r.0 == 0 && bytes_eq r.1 root)

  unfoldable pub subproof_fuel : ℕ → ℕ → List Bytes → Bool → List Bytes
  subproof_fuel zero m leaves b = []
  subproof_fuel (suc fuel) m leaves b =
      let k = largest_pow2_below (length leaves) in
      let in_left = subproof_fuel fuel m (take k leaves) b ++ mth (drop k leaves) ∷ [] in
      let in_right = subproof_fuel fuel (m - k) (drop k leaves) false ++ mth (take k leaves) ∷ [] in
      if m == length leaves
      then (if b then [] else mth leaves ∷ [])
      else if leb m k
      then in_left
      else in_right

  -- `assert 0 < m <= n`, and `_subproof` under it
  unfoldable pub consistency_proof : ℕ → List Bytes → Option (List Bytes)
  consistency_proof m leaves =
      if ltb 0 m && leb m (length leaves)
      then (if m == length leaves
          then some []
          else some (subproof_fuel (length leaves) m leaves true))
      else none

  -- one round of the loop of `verify_consistency`, over fn, sn, fr and sr; `none` returns False
  unfoldable pub consistency_step : ℕ → ℕ → Bytes → Bytes → Bytes → Option (ℕ × ℕ × Bytes × Bytes)
  consistency_step fn sn fr sr c =
      if sn == 0
      then none
      else if odd fn || fn == sn
      then (let s = halve (shift_even fn fn sn) in some (s.0, s.1, node_hash c fr, node_hash c sr))
      else some (fn / 2, sn / 2, fr, node_hash sr c)

  unfoldable pub consistency_loop : ℕ → ℕ → Bytes → Bytes → List Bytes → Option (ℕ × Bytes × Bytes)
  consistency_loop fn sn fr sr [] = some (sn, fr, sr)
  consistency_loop fn sn fr sr (c ∷ cs) =
      consistency_step fn sn fr sr c >>= λ s. consistency_loop s.0 s.1 s.2 s.3 cs

  -- from `if not p` on
  unfoldable pub walk_consistency : ℕ → ℕ → List Bytes → Bytes → Bytes → Bool
  walk_consistency m n [] old_root new_root = false
  walk_consistency m n (first ∷ rest) old_root new_root =
      let s = shift_odd (m - 1) (m - 1) (n - 1) in
      roots_agree old_root new_root (consistency_loop s.0 s.1 first first rest)

  unfoldable pub verify_consistency : ℕ → ℕ → List Bytes → Bytes → Bytes → Bool
  verify_consistency m n proof old_root new_root =
      if m == 0 || ltb n m
      then false
      else if m == n
      then is_empty proof && bytes_eq old_root new_root
      else walk_consistency m n (if bit_and m (m - 1) == 0 then old_root ∷ proof else proof)
          old_root new_root

  unfoldable pub consistency_verdict : ℕ → ℕ → List Bytes → Bytes → Bytes → Verdict
  consistency_verdict m n proof old_root new_root =
      if m == 0 || ltb n m
      then could_not_compare
      else if verify_consistency m n proof old_root new_root
      then consistent
      else inconsistent
