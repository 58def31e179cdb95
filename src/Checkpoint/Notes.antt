-- ===== src/Checkpoint/Notes.antt =====
-- cryptovalid_checkpoint.py: signed notes, their signature lines, and the signatures of a log and of a
-- cosigner. The signature schemes are the fields of `NoteKeys`.
use cryptovalid_opencore.Prelude.{
  ℕ, suc, ◌+◌, ◌*◌, ◌/◌, ◌%◌, Bool, true, false, not, ◌&&◌, ◌||◌, Option, none, some, List, [], ◌∷◌,
  ◌++◌, length, ltb, leb, ◌==◌, if◌then◌else◌,
}
use cryptovalid_opencore.Bytes.{Bytes, bytes_eq, Digest}
use cryptovalid_opencore.Json.{Text, digits}
use cryptovalid_opencore.Encoding.{b64encode}
use cryptovalid_opencore.Raises.{Raises, ok, raised, ◌>>=◌, ◌>>◌}
use cryptovalid_opencore.Texts.{
  codes, split, cut_blank, ends_line, without_last, has_control_in_line, is_name,
}
use cryptovalid_opencore.Utf8.{utf8_encode, utf8_decode}
use cryptovalid_opencore.Checkpoint.{
  NoteError, not_utf8, note_control_characters, note_no_final_newline, no_blank_line,
  many_signatures, malformed_signature, long_signature, signature_encoding, short_signature,
  bad_key_name, long_key_name, bad_text, no_cryptography, no_mldsa, no_room, bad_timestamp,
  cosigned_names, subtree_timestamp, cosigned_root, struct_error, refuse_if, type_ed25519,
  type_cosig_v1, type_mldsa44, max_sigs, max_name_bytes, max_sig_bytes, b64decode_strict,
  decoded_or, key_id, max_size, parse_checkpoint,
}

-- the `cryptography` package
pub record NoteKeys : Type 0 where
  pub ed_available : Bool
  -- seed to key; seed and message; key, message and signature
  pub ed_public : Bytes → Bytes
  pub ed_sign : Bytes → Bytes → Bytes
  pub ed_verify : Bytes → Bytes → Bytes → Bool
  pub mldsa_available : Bool
  pub mldsa_public : Bytes → Bytes
  pub mldsa_sign : Bytes → Bytes → Bytes
  pub mldsa_verify : Bytes → Bytes → Bytes → Bool
  -- the curve of a DER key, if it loads as an elliptic curve key; key, message and signature
  pub ec_curve : Bytes → Option Text
  pub ec_verify : Bytes → Bytes → Bytes → Bool

abbrev pub em_dash : ℕ
em_dash = 8212

-- a signature line: the key name, then the key id and the signature
abbrev pub Signature : Type 0
Signature = Text × Bytes

abbrev pub note_text_or : Option Text → Raises NoteError Text
note_text_or none = raised not_utf8
note_text_or (some s) = ok s

unfoldable pub check_note_bytes : Bytes → Raises NoteError Text
check_note_bytes b = do
  s ← note_text_or (utf8_decode b)
  refuse_if (has_control_in_line s) note_control_characters
  ok s

-- `len(parts) == 3`, the dash and a key name
unfoldable pub line_parts : List Text → Raises NoteError (Text × Text)
line_parts (dash ∷ name ∷ sig ∷ []) =
    if bytes_eq dash (em_dash ∷ []) && is_name name
    then ok (name, sig)
    else raised malformed_signature
line_parts parts = raised malformed_signature

unfoldable pub split_line : Text → Raises NoteError Signature
split_line line = do
  (name, sig) ← line_parts (split 32 line)
  refuse_if (ltb ((max_sig_bytes * 4 + 2) / 3 + 3) (length sig)) long_signature
  raw ← decoded_or (b64decode_strict sig) signature_encoding
  refuse_if (ltb (length raw) 5) short_signature
  refuse_if (ltb max_sig_bytes (length raw)) long_signature
  ok (name, raw)

abbrev with_signature :
    Signature → Raises NoteError (List Signature) → Raises NoteError (List Signature)
with_signature s (ok rest) = ok (s ∷ rest)
with_signature s (raised e) = raised e

-- `seen` signatures were read before these lines
unfoldable pub split_lines : ℕ → List Text → Raises NoteError (List Signature)
split_lines seen [] = ok []
split_lines seen (line ∷ ls) = elim (leb max_sigs seen) [
  | true ↦ raised many_signatures
  | false ↦ elim (split_line line) [
    | raised e ↦ raised e
    | ok s ↦ with_signature s (split_lines (suc seen) ls)
  ]
]

abbrev text_and_block : Text → Raises NoteError (Text × Text)
text_and_block s = elim (cut_blank s) [ none ↦ raised no_blank_line | some parts ↦ ok parts ]

unfoldable pub split_note : Bytes → Raises NoteError (Text × List Signature)
split_note b = do
  s ← check_note_bytes b
  refuse_if (not (ends_line s)) note_no_final_newline
  (text, block) ← text_and_block s
  sigs ← split_lines 0 (split 10 (without_last block))
  ok (text, sigs)

unfoldable pub sig_line : Text → Bytes → Bytes → Raises NoteError Text
sig_line name kid sig = do
  refuse_if (not (is_name name)) bad_key_name
  refuse_if (ltb max_name_bytes (length (utf8_encode name))) long_key_name
  ok (em_dash ∷ 32 ∷ name ++ (32 ∷ b64encode (kid ++ sig) ++ 10 ∷ []))

-- `struct.pack(">Q", n)`
abbrev pub pack_q : ℕ → Bytes
pack_q n =
    n / 72057594037927936 % 256
    ∷ n / 281474976710656 % 256
    ∷ n / 1099511627776 % 256
    ∷ n / 4294967296 % 256
    ∷ n / 16777216 % 256
    ∷ n / 65536 % 256
    ∷ n / 256 % 256
    ∷ n % 256
    ∷ []

-- `struct.unpack(">Q", b)`
unfoldable pub unpack_q : ℕ → Bytes → ℕ
unpack_q acc [] = acc
unpack_q acc (b ∷ bs) = unpack_q (acc * 256 + b) bs

abbrev pub max_timestamp : ℕ
max_timestamp = 9223372036854775807

abbrev pub good_timestamp : ℕ → Bool
good_timestamp ts = leb 1 ts && leb ts max_timestamp

unfoldable pub cosig_message : ℕ → Text → Bytes
cosig_message ts text = codes "cosignature/v1\ntime " ++ (digits ts ++ (10 ∷ utf8_encode text))

abbrev short : Bytes → Bool
short b = leb 1 (length b) && leb (length b) 255

-- `start` and `end` are packed too
unfoldable pub mldsa44_message : Text → ℕ → Text → ℕ → ℕ → Bytes → Raises NoteError Bytes
mldsa44_message cosigner timestamp origin start end root = do
  refuse_if (not (short (utf8_encode cosigner) && short (utf8_encode origin))) cosigned_names
  refuse_if (not (start == 0) && not (timestamp == 0)) subtree_timestamp
  refuse_if (not (length root == 32)) cosigned_root
  refuse_if (ltb max_size timestamp || ltb max_size start || ltb max_size end) struct_error
  ok (
      codes "subtree/v1\n\0"
      ++ (length (utf8_encode cosigner)
          ∷ (utf8_encode cosigner
              ++ (pack_q timestamp
                  ++ (length (utf8_encode origin)
                      ∷ (utf8_encode origin ++ (pack_q start ++ (pack_q end ++ root))))))))

module _ (D : Digest) (K : NoteKeys) where
  unfoldable pub sign_note : Text → Text → Bytes → Raises NoteError Bytes
  sign_note text name seed = do
    refuse_if (not (ends_line text)) bad_text
    refuse_if (has_control_in_line text) note_control_characters
    refuse_if (not K.ed_available) no_cryptography
    line ←
        sig_line name (key_id D name type_ed25519 (K.ed_public seed))
          (K.ed_sign seed (utf8_encode text))
    ok (utf8_encode (text ++ (10 ∷ line)))

  unfoldable pub cosign_v1 : Bytes → Text → Bytes → ℕ → Raises NoteError Bytes
  cosign_v1 note name seed timestamp = do
    (text, sigs) ← split_note note
    parse_checkpoint text
    refuse_if (leb max_sigs (length sigs)) (no_room (length sigs))
    refuse_if (not (good_timestamp timestamp)) bad_timestamp
    refuse_if (not K.ed_available) no_cryptography
    line ←
        sig_line name (key_id D name type_cosig_v1 (K.ed_public seed))
          (pack_q timestamp ++ K.ed_sign seed (cosig_message timestamp text))
    ok (note ++ utf8_encode line)

  unfoldable pub cosign_v1_mldsa44 : Bytes → Text → Bytes → ℕ → Raises NoteError Bytes
  cosign_v1_mldsa44 note name seed timestamp = do
    (text, sigs) ← split_note note
    cp ← parse_checkpoint text
    refuse_if (leb max_sigs (length sigs)) (no_room (length sigs))
    refuse_if (not (good_timestamp timestamp)) bad_timestamp
    refuse_if (not K.mldsa_available) no_mldsa
    message ← mldsa44_message name timestamp cp.origin 0 cp.size cp.root
    line ←
        sig_line name (key_id D name type_mldsa44 (K.mldsa_public seed))
          (pack_q timestamp ++ K.mldsa_sign seed message)
    ok (note ++ utf8_encode line)
