-- ===== src/Bytes.antt =====
-- Python's `bytes` as lists of numbers, and the digest functions of hashlib that the modules call.
use cryptovalid_opencore.Prelude.{
  ℕ, ◌≡◌, ◌≢◌, ◌↔◌, arith, Bool, true, false, ◌&&◌, List, [], ◌∷◌, ◌==◌, length, ◌⊎◌, inl, inr,
  Bool-cases,
}

abbrev pub Bytes : Type 0
Bytes = List ℕ

-- `a == b` on bytes
unfoldable pub bytes_eq : Bytes → Bytes → Bool
bytes_eq [] [] = true
bytes_eq [] (b ∷ bs) = false
bytes_eq (a ∷ as') [] = false
bytes_eq (a ∷ as') (b ∷ bs) = a == b && bytes_eq as' bs

pub bytes_eq_iff : (a b : Bytes) → (bytes_eq a b ≡ true) ↔ (a ≡ b)
unfolding bytes_eq
bytes_eq_iff [] [] = ground arith
bytes_eq_iff [] (b ∷ bs) = ground arith
bytes_eq_iff (a ∷ as') [] = ground arith
bytes_eq_iff (a ∷ as') (b ∷ bs) = ground (arith, bytes_eq_iff as' bs)

-- A digest of 32 bytes: `hashlib.sha256(b).digest()`. Nothing else is assumed of it.
pub record Digest : Type 0 where
  pub hash : Bytes → Bytes
  pub length-hash : (b : Bytes) → length (hash b) ≡ 32

-- Two inputs with one digest.
pub record Collision (D : Digest) : Type 0 where
  pub fst : Bytes
  pub snd : Bytes
  pub differ : fst ≢ snd
  pub same : D.hash fst ≡ D.hash snd

-- one digest, one input, or a collision
pub hash_inject : (D : Digest) (a b : Bytes) → D.hash a ≡ D.hash b → (a ≡ b) ⊎ Collision D
hash_inject D a b e = elim (Bool-cases (bytes_eq a b)) [
  | inl same ↦ inl ((bytes_eq_iff a b).0 same)
  | inr differ ↦
      inr (record { fst = a; snd = b; differ = λ p. cc (differ, (bytes_eq_iff a b).1 p); same = e })
]
