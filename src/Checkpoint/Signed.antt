-- ===== src/Checkpoint/Signed.antt =====
-- What `verify_note` asks of the signature of a known key, type by type.
use cryptovalid_opencore.Prelude.{
  ◌+◌, ◌≤◌, ◌≡◌, refl, ◌⊎◌, inl, inr, Bool, true, false, not, ◌&&◌, Bool-cases, Option, none, some,
  take, drop, length, ◌==◌, ==_iff, if◌then◌else◌, arith,
}
use cryptovalid_opencore.Bytes.{Bytes, bytes_eq, bytes_eq_iff, Digest}
use cryptovalid_opencore.Json.{Text}
use cryptovalid_opencore.Raises.{Raises, ok, raised}
use cryptovalid_opencore.Texts.{codes, count}
use cryptovalid_opencore.Utf8.{utf8_encode}
use cryptovalid_opencore.Checkpoint.{
  NoteError, type_ed25519, type_ecdsa, type_cosig_v1, type_mldsa44, mldsa44_sig, supported, Vkey,
  Checkpoint, parse_checkpoint,
}
use cryptovalid_opencore.Checkpoint.Notes.{
  NoteKeys, unpack_q, max_timestamp, good_timestamp, cosig_message, mldsa44_message,
}
use cryptovalid_opencore.Checkpoint.Verify.{
  Verified, verifies, fails, unverifiable, verifies_if, is_ecdsa_curve, mldsa_line, check_signature,
}

-- what is reported of a log's signature, and of a cosignature
abbrev pub plain : Vkey → Verified
plain key = record { name = key.name; typ = key.typ; timestamp = none }

abbrev pub timed : Vkey → Bytes → Verified
timed key body = record {
  name = key.name;
  typ = key.typ;
  timestamp = some (unpack_q 0 (take 8 body));
}

-- the time that a cosignature carries
abbrev pub GoodTime : Bytes → Type 0
GoodTime body = (1 ≤ unpack_q 0 (take 8 body)) × (unpack_q 0 (take 8 body) ≤ max_timestamp)

abbrev pub IsNamedCurve : Text → Type 0
IsNamedCurve c = (c ≡ codes "secp256r1") ⊎ (c ≡ codes "secp384r1") ⊎ (c ≡ codes "secp521r1")

module _ (K : NoteKeys) (text : Text) (key : Vkey) (body : Bytes) (v : Verified) where
  -- 64 bytes that verify over the text
  pub record Ed25519Signed : Type 0 where
    pub typ : key.typ ≡ type_ed25519
    pub size : length body ≡ 64
    pub signature : K.ed_verify key.material (utf8_encode text) body ≡ true
    pub reported : plain key ≡ v

  -- under a key of one of the three curves, over the text
  pub record EcdsaSigned : Type 0 where
    pub typ : key.typ ≡ type_ecdsa
    pub curve : (c : Text) × (K.ec_curve key.material ≡ some c) × IsNamedCurve c
    pub signature : K.ec_verify key.material (utf8_encode text) body ≡ true
    pub reported : plain key ≡ v

  -- a time and 64 bytes that verify over the time and the text
  pub record Cosigned : Type 0 where
    pub typ : key.typ ≡ type_cosig_v1
    pub size : length body ≡ 72
    pub lines : 2 ≤ count 10 text
    pub time : GoodTime body
    pub signature :
        K.ed_verify key.material (cosig_message (unpack_q 0 (take 8 body)) text) (drop 8 body)
        ≡ true
    pub reported : timed key body ≡ v

  -- a time and 2420 bytes that verify over the message made of the time and the checkpoint
  pub record Mldsa44Signed : Type 0 where
    pub typ : key.typ ≡ type_mldsa44
    pub size : length body ≡ 8 + mldsa44_sig
    pub time : GoodTime body
    pub checkpoint : Checkpoint
    pub parses : parse_checkpoint text ≡ ok checkpoint
    pub message : Bytes
    pub made :
        mldsa44_message key.name
          (unpack_q 0 (take 8 body))
          checkpoint.origin
          0
          checkpoint.size
          checkpoint.root
        ≡ ok message
    pub signature : K.mldsa_verify key.material message (drop 8 body) ≡ true
    pub reported : timed key body ≡ v

  abbrev pub Signed : Type 0
  Signed = Ed25519Signed ⊎ EcdsaSigned ⊎ Cosigned ⊎ Mldsa44Signed

verifies_only : (c : Bool) (u v : Verified) → verifies_if c u ≡ verifies v → (c ≡ true) × (u ≡ v)
verifies_only true u v h = (refl, cc h)
verifies_only false u v h = cc h

curve_only :
    (o : Option Text) → is_ecdsa_curve o ≡ true → (c : Text) × (o ≡ some c) × IsNamedCurve c
curve_only none h = cc h
curve_only (some c) h = (c, refl, named)
  where
    named : IsNamedCurve c
    named = elim (Bool-cases (bytes_eq c (codes "secp256r1"))) [
      | inl a ↦ inl ((bytes_eq_iff _ _).0 a)
      | inr a ↦ elim (Bool-cases (bytes_eq c (codes "secp384r1"))) [
        | inl b ↦ inr (inl ((bytes_eq_iff _ _).0 b))
        | inr b ↦ inr (inr ((bytes_eq_iff _ _).0 (ground (arith, h, a, b))))
      ]
    ]

module _ (D : Digest) (K : NoteKeys) (text : Text) (key : Vkey) (body : Bytes) (v : Verified) where
  mldsa_line-Signed :
      key.typ ≡ type_mldsa44
      → length body ≡ 8 + mldsa44_sig
      → GoodTime body
      → mldsa_line D K text key body (unpack_q 0 (take 8 body)) (timed key body) ≡ verifies v
      → Mldsa44Signed K text key body v
  mldsa_line-Signed typ size time h = by_parse (parse_checkpoint text) refl h
    where
      by_message :
          (cp : Checkpoint) (m : Raises NoteError Bytes)
          → parse_checkpoint text ≡ ok cp
          → mldsa44_message key.name (unpack_q 0 (take 8 body)) cp.origin 0 cp.size cp.root ≡ m
          → elim m [
            | raised e ↦ fails
            | ok message ↦
                verifies_if (K.mldsa_verify key.material message (drop 8 body)) (timed key body)
          ]
            ≡ verifies v
          → Mldsa44Signed K text key body v
      by_message cp (raised e) p made h = cc h
      by_message cp (ok message) p made h =
          let g = verifies_only _ _ _ h in
          record {
            typ = typ;
            size = size;
            time = time;
            checkpoint = cp;
            parses = p;
            message = message;
            made = made;
            signature = g.0;
            reported = g.1;
          }

      by_parse :
          (r : Raises NoteError Checkpoint)
          → parse_checkpoint text ≡ r
          → elim r [
            | raised e ↦ fails
            | ok cp ↦
                elim (mldsa44_message key.name
                  (unpack_q 0 (take 8 body))
                  cp.origin
                  0
                  cp.size
                  cp.root) [
                    | raised e ↦ fails
                    | ok message ↦
                        verifies_if
                          (K.mldsa_verify key.material message (drop 8 body))
                          (timed key body)
                  ]
          ]
            ≡ verifies v
          → Mldsa44Signed K text key body v
      by_parse (raised e) p h = cc h
      by_parse (ok cp) p h =
          by_message cp
            (mldsa44_message key.name (unpack_q 0 (take 8 body)) cp.origin 0 cp.size cp.root) p refl
            h

  mldsa44-Signed :
      key.typ ≡ type_mldsa44
      → (if not K.mldsa_available
          then unverifiable
          else if not (length body == 8 + mldsa44_sig && good_timestamp (unpack_q 0 (take 8 body)))
          then fails
          else mldsa_line D K text key body (unpack_q 0 (take 8 body)) (timed key body))
        ≡ verifies v
      → Mldsa44Signed K text key body v
  mldsa44-Signed typ h = elim (Bool-cases K.mldsa_available) [
    | inr missing ↦ cc (rw missing at h)
    | inl there ↦
        elim (Bool-cases
          (length body == 8 + mldsa44_sig && good_timestamp (unpack_q 0 (take 8 body)))) [
            | inr bad ↦ cc (rw (there, bad) at h)
            | inl good ↦
                mldsa_line-Signed typ (ground (arith, good))
                  (ground (arith, good), ground (arith, good)) (rw (there, good) at h)
          ]
  ]

  pub check_signature-Signed :
      supported key.typ ≡ true
      → check_signature D K text key body ≡ verifies v
      → Signed K text key body v
  unfolding check_signature
  check_signature-Signed known h = elim (Bool-cases (key.typ == type_ed25519)) [
    | inl ed ↦
        let g = verifies_only _ _ _ (rw ed at h) in
        inl (record {
          typ = (==_iff _ _).0 ed;
          size = ground (arith, g.0);
          signature = ground (arith, g.0);
          reported = g.1;
        })
    | inr not_ed ↦ elim (Bool-cases (key.typ == type_ecdsa)) [
      | inl ec ↦
          let g = verifies_only _ _ _ (rw (not_ed, ec) at h) in
          inr (
            inl (record {
              typ = (==_iff _ _).0 ec;
              curve = curve_only (K.ec_curve key.material) (ground (arith, g.0));
              signature = ground (arith, g.0);
              reported = g.1;
            }))
      | inr not_ec ↦ elim (Bool-cases (key.typ == type_mldsa44)) [
        | inl ml ↦
            inr (inr (inr (mldsa44-Signed ((==_iff _ _).0 ml) (rw (not_ed, not_ec, ml) at h))))
        | inr not_ml ↦
            let g = verifies_only _ _ _ (rw (not_ed, not_ec, not_ml) at h) in
            inr (
              inr (
                inl (record {
                  typ = ground (arith, known, not_ed, not_ec, not_ml);
                  size = ground (arith, g.0);
                  lines = ground (arith, g.0);
                  time = (ground (arith, g.0), ground (arith, g.0));
                  signature = ground (arith, g.0);
                  reported = g.1;
                })))
      ]
    ]
  ]
