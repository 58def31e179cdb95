-- ===== src/Checkpoint.antt =====
-- cryptovalid_checkpoint.py: the strict base64, the keys of notes and the text of a checkpoint. A text is
-- the list of its code points; an exception is a value of `NoteError`, one constructor for each message,
-- those of cryptovalid_witness.py at the end.
pub mod Notes
pub mod Verify
pub mod Proofs
pub mod Parsed
pub mod Strict
pub mod Decimal
pub mod Signed
pub mod Known
pub mod Accepted
pub mod Complete
mod Tests
pub mod Roundtrip
use cryptovalid_opencore.Prelude.{
  ℕ, suc, ◌+◌, ◌-◌, ◌*◌, ◌/◌, ◌^◌, Bool, true, false, not, ◌&&◌, ◌||◌, Option, none, some, List, [],
  ◌∷◌, ◌++◌, map, length, take, ltb, leb, ◌==◌, if◌then◌else◌,
}
use cryptovalid_opencore.Bytes.{Bytes, bytes_eq, Digest}
use cryptovalid_opencore.Json.{Text, digits}
use cryptovalid_opencore.Json.Reader.{read_digits}
use cryptovalid_opencore.Checks.{hexdigest}
use cryptovalid_opencore.Encoding.{fromhex, b64_value, b64decode, b64encode}
use cryptovalid_opencore.Raises.{Raises, ok, raised, ◌>>=◌, ◌>>◌}
use cryptovalid_opencore.Texts.{
  split, join, cut, ends_line, without_last, has_control, has_control_in_line, is_nil, any_nil,
  is_name, all_digits,
}
use cryptovalid_opencore.Utf8.{utf8_encode}

pub data NoteError : Type 0 where
  bad_key_name : NoteError
  long_key_name : NoteError
  ed25519_key_length : NoteError
  mldsa44_key_length : NoteError
  not_emitted : NoteError
  vkey_shape : NoteError
  vkey_id : NoteError
  vkey_encoding : NoteError
  vkey_material : NoteError
  long_cosigner_name : NoteError
  ecdsa_key_id : NoteError
  unsupported_type : ℕ → NoteError
  vkey_length : ℕ → ℕ → NoteError
  key_id_mismatch : NoteError
  ambiguous_key : Text → Bytes → NoteError
  bad_origin : NoteError
  bad_size : NoteError
  bad_root : NoteError
  bad_extension : NoteError
  no_final_newline : NoteError
  few_lines : NoteError
  control_characters : NoteError
  size_format : NoteError
  root_encoding : NoteError
  root_format : NoteError
  not_utf8 : NoteError
  note_control_characters : NoteError
  note_no_final_newline : NoteError
  no_blank_line : NoteError
  many_signatures : NoteError
  malformed_signature : NoteError
  long_signature : NoteError
  signature_encoding : NoteError
  short_signature : NoteError
  bad_text : NoteError
  no_cryptography : NoteError
  no_mldsa : NoteError
  stop_iteration : NoteError
  no_room : ℕ → NoteError
  bad_timestamp : NoteError
  cosigned_names : NoteError
  subtree_timestamp : NoteError
  cosigned_root : NoteError
  struct_error : NoteError
  bad_old_size : NoteError
  stale_timestamp : NoteError
  bad_witness_timestamp : NoteError
  no_log_key : NoteError
  not_a_log_key : NoteError
  origin_needed : NoteError
  bad_min_witnesses : NoteError
  not_a_witness_key : NoteError
  body_not_utf8 : NoteError
  body_no_blank_line : NoteError
  missing_checkpoint : NoteError
  empty_proof_line : NoteError
  bad_old_line : NoteError
  many_proof_lines : NoteError
  proof_line_encoding : NoteError

-- `if condition: raise NoteError`
abbrev pub refuse_if : Bool → NoteError → Raises NoteError (Unit {0})
refuse_if true e = raised e
refuse_if false e = ok tt

abbrev pub type_ed25519 : ℕ
type_ed25519 = 1

abbrev pub type_ecdsa : ℕ
type_ecdsa = 2

abbrev pub type_cosig_v1 : ℕ
type_cosig_v1 = 4

abbrev pub type_mldsa44 : ℕ
type_mldsa44 = 6

abbrev pub mldsa44_pub : ℕ
mldsa44_pub = 1312

abbrev pub mldsa44_sig : ℕ
mldsa44_sig = 2420

-- `typ in SUPPORTED_TYPES`
abbrev pub supported : ℕ → Bool
supported t = t == type_ed25519 || t == type_ecdsa || t == type_cosig_v1 || t == type_mldsa44

abbrev pub max_sigs : ℕ
max_sigs = 100

abbrev pub max_name_bytes : ℕ
max_name_bytes = 255

abbrev pub max_sig_bytes : ℕ
max_sig_bytes = 8192

unfoldable pub is_b64 : ℕ → Bool
is_b64 c = elim (b64_value c) [ none ↦ false | some v ↦ true ]

-- `_B64_STRICT`
unfoldable pub is_b64_strict : Text → Bool
is_b64_strict [] = true
is_b64_strict (a ∷ b ∷ c ∷ d ∷ t) =
    let rest = is_b64_strict t in
    is_b64 a
    && is_b64 b
    && ((is_b64 c && is_b64 d && rest) || (is_nil t && d == 61 && (is_b64 c || c == 61)))
is_b64_strict t = false

unfoldable pub b64decode_strict : Text → Option Bytes
b64decode_strict s = if is_b64_strict s then b64decode s else none

-- `raise NoteError` where `b64decode_strict` raises
abbrev pub decoded_or : Option Bytes → NoteError → Raises NoteError Bytes
decoded_or none e = raised e
decoded_or (some b) e = ok b

-- one verifier key: `parse_vkey`'s tuple
pub record Vkey : Type 0 where
  pub name : Text
  pub kid : Bytes
  pub typ : ℕ
  pub material : Bytes

abbrev lowered : ℕ → ℕ
lowered c = if leb 65 c && leb c 70 then c + 32 else c

unfoldable pub all_hex_digits : Text → Bool
all_hex_digits [] = true
all_hex_digits (c ∷ t) =
    ((leb 48 c && leb c 57) || (leb 97 c && leb c 102) || (leb 65 c && leb c 70))
    && all_hex_digits t

module _ (D : Digest) where
  unfoldable pub key_id : Text → ℕ → Bytes → Bytes
  key_id name sig_type key = take 4 (D.hash (utf8_encode name ++ (10 ∷ sig_type ∷ key)))

  abbrev vkey_text : Text → Bytes → ℕ → Bytes → Text
  vkey_text name kid sig_type key =
      name ++ (43 ∷ (hexdigest kid ++ (43 ∷ b64encode (sig_type ∷ key))))

  abbrev key_length_check : ℕ → Bytes → Raises NoteError (Unit {0})
  key_length_check sig_type key =
      if sig_type == type_ed25519 || sig_type == type_cosig_v1
      then refuse_if (not (length key == 32)) ed25519_key_length
      else if sig_type == type_mldsa44
      then refuse_if (not (length key == mldsa44_pub)) mldsa44_key_length
      else raised not_emitted

  unfoldable pub vkey : Text → ℕ → Bytes → Raises NoteError Text
  vkey name sig_type key = do
    refuse_if (not (is_name name)) bad_key_name
    refuse_if (ltb max_name_bytes (length (utf8_encode name))) long_key_name
    key_length_check sig_type key
    ok (vkey_text name (key_id name sig_type key) sig_type key)

  unfoldable pub vkey_ecdsa : Text → Bytes → Raises NoteError Text
  vkey_ecdsa name der_spki = do
    refuse_if (not (is_name name)) bad_key_name
    ok (vkey_text name (take 4 (D.hash der_spki)) type_ecdsa der_spki)

  -- `s.split("+", 2)`
  abbrev vkey_parts : Text → Raises NoteError (Text × Text × Text)
  vkey_parts s = elim (cut 43 s) [
    | none ↦ raised vkey_shape
    | some (name, rest) ↦ elim (cut 43 rest) [
      | none ↦ raised vkey_shape
      | some (kid, mat) ↦ if is_name name then ok (name, kid, mat) else raised vkey_shape
    ]
  ]

  -- the key that a type asks for, and its id
  unfoldable pub typed_vkey : Bool → Vkey → Raises NoteError Vkey
  typed_vkey strict v =
      let want = if v.typ == type_mldsa44 then mldsa44_pub else 32 in
      if v.typ == type_ecdsa
      then (if bytes_eq (take 4 (D.hash v.material)) v.kid then ok v else raised ecdsa_key_id)
      else if not (supported v.typ)
      then (if strict then raised (unsupported_type v.typ) else ok v)
      else if not (length v.material == want)
      then raised (vkey_length v.typ want)
      else if bytes_eq (key_id v.name v.typ v.material) v.kid
      then ok v
      else raised key_id_mismatch

  abbrev cosigner_type : ℕ → Bool
  cosigner_type typ = typ == type_cosig_v1 || typ == type_mldsa44

  -- from the decoded material on
  unfoldable pub vkey_of : Bool → Text → Bytes → Bytes → Raises NoteError Vkey
  vkey_of strict name kid [] = raised vkey_material
  vkey_of strict name kid (typ ∷ key) = do
    refuse_if (is_nil key) vkey_material
    refuse_if (cosigner_type typ && ltb max_name_bytes (length (utf8_encode name)))
        long_cosigner_name
    typed_vkey strict (record { name = name; kid = kid; typ = typ; material = key })

  unfoldable pub parse_vkey : Text → Bool → Raises NoteError Vkey
  parse_vkey s strict = do
    (name, kid, mat) ← vkey_parts s
    refuse_if (not (length kid == 8 && all_hex_digits kid)) vkey_id
    material ← decoded_or (b64decode_strict mat) vkey_encoding
    vkey_of strict name (fromhex (map lowered kid)) material

pub record Checkpoint : Type 0 where
  pub origin : Text
  pub size : ℕ
  pub root : Bytes
  pub extensions : List Text

abbrev pub max_size : ℕ
max_size = 18446744073709551615

unfoldable pub any_bad_extension : List Text → Bool
any_bad_extension [] = false
any_bad_extension (e ∷ es) = is_nil e || has_control e || any_bad_extension es

-- a size is an int that is at least 0
unfoldable pub checkpoint_text : Checkpoint → Raises NoteError Text
checkpoint_text c = do
  refuse_if (is_nil c.origin || has_control c.origin) bad_origin
  refuse_if (ltb max_size c.size) bad_size
  refuse_if (not (length c.root == 32)) bad_root
  refuse_if (any_bad_extension c.extensions) bad_extension
  ok (join 10 (c.origin ∷ digits c.size ∷ b64encode c.root ∷ c.extensions) ++ 10 ∷ [])

-- `int(t)` of decimal digits
abbrev pub value_of : Text → ℕ
value_of t = (read_digits 0 t).0

abbrev pub starts_nonzero : Text → Bool
starts_nonzero [] = false
starts_nonzero (c ∷ t) = leb 49 c && leb c 57

-- `0|[1-9][0-9]{0,19}` in full
abbrev pub is_decimal : Text → Bool
is_decimal t = bytes_eq t (48 ∷ []) || (starts_nonzero t && all_digits t && leb (length t) 20)

unfoldable pub parse_lines : List Text → Raises NoteError Checkpoint
parse_lines (origin ∷ size ∷ root_b64 ∷ extensions) = do
  refuse_if (not (is_decimal size) || ltb max_size (value_of size)) size_format
  root ← decoded_or (b64decode_strict root_b64) root_encoding
  refuse_if (not (length root == 32 && bytes_eq (b64encode root) root_b64)) root_format
  ok (record { origin = origin; size = value_of size; root = root; extensions = extensions })
parse_lines ls = raised few_lines

unfoldable pub parse_checkpoint : Text → Raises NoteError Checkpoint
parse_checkpoint text = do
  refuse_if (not (ends_line text)) no_final_newline
  let ls = split 10 (without_last text)
  refuse_if (ltb (length ls) 3 || any_nil ls) few_lines
  refuse_if (has_control_in_line (without_last text)) control_characters
  parse_lines ls
