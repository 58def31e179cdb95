-- ===== src/Samples.antt =====
-- A digest for the runs: a checksum of 32 bytes. The modelled functions ask no more of SHA-256.
use cryptovalid_opencore.Prelude.{
  ℕ, zero, suc, ◌+◌, ◌*◌, ◌%◌, ◌/◌, ◌<◌, ◌≡◌, arith, refl, [], ◌∷◌, length,
}
use cryptovalid_opencore.Bytes.{Bytes, Digest}
use cryptovalid_opencore.Encoding.Base64.{AreBytes}

abbrev pub checksum : ℕ → Bytes → ℕ
checksum acc [] = acc
checksum acc (b ∷ bs) = checksum ((acc * 31 + b + 7) % 65521) bs

abbrev pub zeros : ℕ → Bytes
zeros zero = []
zeros (suc n) = 0 ∷ zeros n

abbrev pub toy_hash : Bytes → Bytes
toy_hash b = checksum 5 b / 256 ∷ checksum 5 b % 256 ∷ zeros 30

pub toy_length : (b : Bytes) → length (toy_hash b) ≡ 32
toy_length b = refl

abbrev pub toy : Digest
toy = record { hash = toy_hash; length-hash = toy_length }

checksum-bound : (acc : ℕ) (b : Bytes) → acc < 65521 → checksum acc b < 65521
checksum-bound acc [] h = h
checksum-bound acc (c ∷ b) h = checksum-bound ((acc * 31 + c + 7) % 65521) b (omega arith)

pub toy_AreBytes : (b : Bytes) → AreBytes (toy.hash b)
toy_AreBytes b = let h = checksum-bound 5 b (omega arith) in ground (arith, h)
