-- ===== src/Receipts.antt =====
-- cryptovalid_receipt.py: the signed tree head, `_sth_payload`, `signed_tree_head` and `verify_sth`. A field
-- that is absent from a head is an empty text. Ed25519 is a field of `NoteKeys`.
use cryptovalid_opencore.Prelude.{
  ℕ, ◌+◌, ◌-◌, ◌*◌, Bool, true, false, not, ◌&&◌, ◌||◌, Option, none, some, List, [], ◌∷◌, length,
  leb, ◌==◌, if◌then◌else◌,
}
use cryptovalid_opencore.Bytes.{Bytes, bytes_eq, Digest}
use cryptovalid_opencore.Json.{Text, pos, num, str, obj, empty, member, dumps}
use cryptovalid_opencore.Checks.{hexdigest}
use cryptovalid_opencore.Texts.{codes, is_nil}
use cryptovalid_opencore.Merkle.{mth}
use cryptovalid_opencore.Checkpoint.Notes.{NoteKeys}

pub record TreeHead : Type 0 where
  pub kind : Text
  pub tree_size : ℕ
  pub root_sha256 : Text
  pub ts : Text
  pub signature_hex : Text
  pub log_pubkey_hex : Text

abbrev pub sth_kind : Text
sth_kind = codes "cryptovalid_sth/1"

-- `bytes.fromhex`: digits of either case, with white space between bytes
unfoldable pub hex_value : ℕ → Option ℕ
hex_value c =
    if leb 48 c && leb c 57
    then some (c - 48)
    else if leb 97 c && leb c 102
    then some (c - 87)
    else if leb 65 c && leb c 70
    then some (c - 55)
    else none

abbrev hex_byte : Option ℕ → Option ℕ → Option Bytes → Option Bytes
hex_byte (some a) (some b) (some bs) = some ((a * 16 + b) ∷ bs)
hex_byte a b bs = none

abbrev pub is_space : ℕ → Bool
is_space c = c == 32 || (leb 9 c && leb c 13)

unfoldable pub parse_hex : Text → Option Bytes
parse_hex [] = some []
parse_hex (a ∷ []) = if is_space a then some [] else none
parse_hex (a ∷ b ∷ t) = elim (is_space a) [
  | true ↦ parse_hex (b ∷ t)
  | false ↦ hex_byte (hex_value a) (hex_value b) (parse_hex t)
]

-- `_sth_payload`
unfoldable pub sth_payload : ℕ → Text → Text → Bytes
sth_payload tree_size root_hex ts = dumps (
    obj (
      member (codes "kind") (str sth_kind) (
        member (codes "root_sha256") (str root_hex)
          (member (codes "tree_size") (num (pos tree_size)) (member (codes "ts") (str ts) empty)))))

pub data HeadAnswer : Type 0 where
  unsupported_kind : HeadAnswer
  other_log_key : HeadAnswer
  key_not_trusted : HeadAnswer
  head_verified : HeadAnswer
  head_signature_invalid : HeadAnswer

-- `out["ok"]`
abbrev pub head_ok : HeadAnswer → Bool
head_ok head_verified = true
head_ok why = false

module _ (D : Digest) (K : NoteKeys) where
  -- from the seed of the key file and the time
  unfoldable pub signed_tree_head : List Bytes → Bytes → Text → TreeHead
  signed_tree_head leaves seed ts =
      let root = hexdigest (mth D leaves) in
      record {
        kind = sth_kind;
        tree_size = length leaves;
        root_sha256 = root;
        ts = ts;
        signature_hex = hexdigest (K.ed_sign seed (sth_payload (length leaves) root ts));
        log_pubkey_hex = hexdigest (K.ed_public seed);
      }

  -- an exception of the decoding or of the verification is caught
  abbrev signature_valid : TreeHead → Option Bytes → Option Bytes → Bool
  signature_valid sth (some key) (some sig) =
      K.ed_verify key (sth_payload sth.tree_size sth.root_sha256 sth.ts) sig
  signature_valid sth key sig = false

  -- an empty trusted key is none
  unfoldable pub verify_sth : TreeHead → Text → HeadAnswer
  verify_sth sth trusted =
      let pk = if is_nil trusted then sth.log_pubkey_hex else trusted in
      if not (bytes_eq sth.kind sth_kind)
      then unsupported_kind
      else if not (is_nil trusted) && not (bytes_eq trusted sth.log_pubkey_hex)
      then other_log_key
      else if not (signature_valid sth (parse_hex pk) (parse_hex sth.signature_hex))
      then head_signature_invalid
      else if is_nil trusted
      then key_not_trusted
      else head_verified
