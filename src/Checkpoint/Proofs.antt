-- ===== src/Checkpoint/Proofs.antt =====
-- cryptovalid_checkpoint.py: the checkpoint of a ledger, and consistency proofs in base64.
use cryptovalid_opencore.Prelude.{
  ℕ, Bool, true, false, not, ◌&&◌, Option, none, some, List, [], ◌∷◌, map, length, ltb, leb, ◌==◌,
  if◌then◌else◌,
}
use cryptovalid_opencore.Bytes.{Bytes, bytes_eq, Digest}
use cryptovalid_opencore.Json.{Text}
use cryptovalid_opencore.Encoding.{b64encode}
use cryptovalid_opencore.Raises.{Raises, ok, ◌>>◌}
use cryptovalid_opencore.Texts.{is_nil}
use cryptovalid_opencore.Merkle.{mth, consistency_proof, verify_consistency}
use cryptovalid_opencore.Checkpoint.{
  NoteError, bad_old_size, refuse_if, b64decode_strict, checkpoint_text,
}

abbrev prepend : Option Bytes → Option (List Bytes) → Option (List Bytes)
prepend (some p) (some ps) = some (p ∷ ps)
prepend p ps = none

-- `[b64decode_strict(p) for p in proof_b64]`
unfoldable pub decode_proof : List Text → Option (List Bytes)
decode_proof [] = some []
decode_proof (p ∷ ps) = prepend (b64decode_strict p) (decode_proof ps)

unfoldable pub all_digests : List Bytes → Bool
all_digests [] = true
all_digests (h ∷ hs) = length h == 32 && all_digests hs

module _ (D : Digest) where
  -- from the leaves that `leaves_from_ledger` reads
  unfoldable pub ledger_checkpoint : List Bytes → Text → Raises NoteError Text
  ledger_checkpoint leaves origin =
      checkpoint_text
        (record { origin = origin; size = length leaves; root = mth D leaves; extensions = [] })

  abbrev pub proof_or_empty : Option (List Bytes) → List Bytes
  proof_or_empty none = []
  proof_or_empty (some proof) = proof

  unfoldable pub consistency_proof_b64 : List Bytes → ℕ → Raises NoteError (List Text)
  consistency_proof_b64 leaves old_size = do
    refuse_if (not (ltb 0 old_size && leb old_size (length leaves))) bad_old_size
    ok (map b64encode (proof_or_empty (consistency_proof D old_size leaves)))

  abbrev pub consistent : ℕ → Bytes → ℕ → Bytes → List Bytes → Bool
  consistent old_size old_root new_size new_root proof =
      if not (all_digests proof)
      then false
      else if old_size == new_size
      then bytes_eq old_root new_root && is_nil proof
      else if ltb 0 old_size && ltb old_size new_size
      then verify_consistency D old_size new_size proof old_root new_root
      else false

  unfoldable pub verify_consistency_b64 : ℕ → Bytes → ℕ → Bytes → List Text → Bool
  verify_consistency_b64 old_size old_root new_size new_root proof_b64 =
      elim (decode_proof proof_b64) [
        | none ↦ false
        | some proof ↦ consistent old_size old_root new_size new_root proof
      ]
