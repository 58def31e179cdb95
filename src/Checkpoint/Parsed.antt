-- ===== src/Checkpoint/Parsed.antt =====
-- What a text that parses as a checkpoint is.
use cryptovalid_opencore.Prelude.{
  ◌≡◌, refl, inl, inr, Bool, true, false, not, ◌&&◌, ◌||◌, some, Option-cases, List, [], ◌∷◌,
  length, ltb, ◌==◌, arith,
}
use cryptovalid_opencore.Bytes.{Bytes, bytes_eq, bytes_eq_iff}
use cryptovalid_opencore.Json.{Text}
use cryptovalid_opencore.Encoding.{b64decode, b64encode}
use cryptovalid_opencore.Raises.{Raises, ok, ◌>>◌}
use cryptovalid_opencore.Texts.{split, ends_line, without_last, has_control_in_line, any_nil}
use cryptovalid_opencore.Checkpoint.{
  NoteError, refuse_if, b64decode_strict, Checkpoint, max_size, value_of, is_decimal, parse_lines,
  parse_checkpoint,
}

-- a guard that did not raise
pub refuse_if-ok :
    {A : Type 0} (c : Bool) (e : NoteError) (k : Raises NoteError A) {a : A}
    → (refuse_if c e >> k) ≡ ok a
    → (c ≡ false) × (k ≡ ok a)
refuse_if-ok true e k h = cc h
refuse_if-ok false e k h = (refl, h)

-- the lines of a checkpoint, and what its parts are
pub record ParsedLines (ls : List Text) (c : Checkpoint) : Type 0 where
  pub size : Text
  pub root_b64 : Text
  pub lines : ls ≡ c.origin ∷ size ∷ root_b64 ∷ c.extensions
  pub decimal : is_decimal size ≡ true
  pub in_range : ltb max_size c.size ≡ false
  pub value : value_of size ≡ c.size
  pub decoded : b64decode_strict root_b64 ≡ some c.root
  pub digest : (length c.root == 32) ≡ true
  pub encoded : b64encode c.root ≡ root_b64

parse_lines-Parsed : (ls : List Text) (c : Checkpoint) → parse_lines ls ≡ ok c → ParsedLines ls c
unfolding parse_lines
parse_lines-Parsed [] c h = cc h
parse_lines-Parsed (o ∷ []) c h = cc h
parse_lines-Parsed (o ∷ s ∷ []) c h = cc h
parse_lines-Parsed (o ∷ s ∷ r ∷ ext) c h =
    let g1 = refuse_if-ok (not (is_decimal s) || ltb max_size (value_of s)) _ _ h in
    elim (Option-cases (b64decode_strict r)) [
      | inl is_none ↦ absurd (cc (rw is_none at g1.1))
      | inr (raw, is_some) ↦
          let h2 = rw is_some at g1.1 in
          let g2 = refuse_if-ok (not (length raw == 32 && bytes_eq (b64encode raw) r)) _ _ h2 in
          let made : record { origin = o; size = value_of s; root = raw; extensions = ext } ≡ c =
            cc g2.1 in
          let both : (length raw == 32 && bytes_eq (b64encode raw) r) ≡ true =
            ground (arith, g2.0) in
          rw (← made) (record {
            size = s;
            root_b64 = r;
            lines = refl;
            decimal = ground (arith, g1.0);
            in_range = ground (arith, g1.0);
            value = refl;
            decoded = is_some;
            digest = ground (arith, both);
            encoded = (bytes_eq_iff _ _).0 (ground (arith, both));
          })
    ]

pub record Parsed (text : Text) (c : Checkpoint) : Type 0 where
  pub newline : ends_line text ≡ true
  pub full : any_nil (split 10 (without_last text)) ≡ false
  pub clean : has_control_in_line (without_last text) ≡ false
  pub parsed : ParsedLines (split 10 (without_last text)) c

pub parse_checkpoint-Parsed :
    (text : Text) (c : Checkpoint) → parse_checkpoint text ≡ ok c → Parsed text c
unfolding parse_checkpoint
parse_checkpoint-Parsed text c h =
    let ls = split 10 (without_last text) in
    let g1 = refuse_if-ok (not (ends_line text)) _ _ h in
    let g2 = refuse_if-ok (ltb (length ls) 3 || any_nil ls) _ _ g1.1 in
    let g3 = refuse_if-ok (has_control_in_line (without_last text)) _ _ g2.1 in
    record {
      newline = ground (arith, g1.0);
      full = ground (arith, g2.0);
      clean = g3.0;
      parsed = parse_lines-Parsed ls c g3.1;
    }

pub b64decode-strict : (t : Text) {b : Bytes} → b64decode_strict t ≡ some b → b64decode t ≡ some b
unfolding b64decode_strict
b64decode-strict t h = ground arith

-- the root that was read is what its own base64 decodes to
pub decode-parsed_root :
    (text : Text) (c : Checkpoint)
    → parse_checkpoint text ≡ ok c
    → b64decode (b64encode c.root) ≡ some c.root
decode-parsed_root text c h =
    let p = (parse_checkpoint-Parsed text c h).parsed in
    rw p.encoded (b64decode-strict p.root_b64 p.decoded)
