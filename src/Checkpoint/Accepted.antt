-- ===== src/Checkpoint/Accepted.antt =====
-- What a note that verifies has passed.
use cryptovalid_opencore.Prelude.{
  subst, ℕ, suc, ◌≤◌, ◌≡◌, refl, sym, ap, ◌⊎◌, inl, inr, true, false, ◌&&◌, Bool-cases, Option,
  none, some, List, [], ◌∷◌, ◌++◌, take, drop, ◌==◌, arith,
}
use cryptovalid_opencore.Bytes.{Bytes, bytes_eq, bytes_eq_iff, Digest}
use cryptovalid_opencore.Json.{Text}
use cryptovalid_opencore.Raises.{Raises, ok, raised, >>=-eq-ok}
use cryptovalid_opencore.Texts.{is_nil}
use cryptovalid_opencore.Checkpoint.{NoteError, Vkey}
use cryptovalid_opencore.Checkpoint.Known.{IsSupported, known_key-IsSupported, known_keys-All}
use cryptovalid_opencore.Checkpoint.Signed.{Signed, check_signature-Signed}
use cryptovalid_opencore.Checkpoint.Notes.{NoteKeys, Signature, split_note}
use cryptovalid_opencore.Checkpoint.Verify.{
  valid, non_valida, Verified, NoteReport, known_key, was_seen, LineOutcome, unknown, repeated,
  verifies, unverifiable, fails, checked, Scan, known_keys, check_signature, check_line,
  check_lines, start, concluded, report_of, verify_note, seen_with,
}
use cryptovalid_opencore.Dicts.All.{All, snoc-All}

module _ (D : Digest) (K : NoteKeys) (text : Text) (known : List Vkey) where
  -- the line of a known key that verifies, as `v`
  abbrev pub Verifies : Signature → Verified → Type 0
  Verifies line v =
      (key : Vkey) × (known_key line.0 (take 4 line.1) known ≡ some key)
      × Signed K text key (drop 4 line.1) v

  -- its key is unknown, or it verifies
  abbrev pub LineOk : Signature → Type 0
  LineOk line = (known_key line.0 (take 4 line.1) known ≡ none) ⊎ ((v : Verified) × Verifies line v)

  -- it comes from a line
  abbrev pub FromLine : Verified → Type 0
  FromLine v = (line : Signature) × Verifies line v

  was_seen-LineOk :
      (line : Signature) (seen : List Signature)
      → All LineOk seen
      → was_seen line seen ≡ true
      → LineOk line
  unfolding was_seen
  was_seen-LineOk line [] h e = cc e
  was_seen-LineOk line (r ∷ seen) h e =
      elim (Bool-cases (bytes_eq r.0 line.0 && bytes_eq r.1 line.1)) [
        | inl same ↦
            let a : r.0 ≡ line.0 = (bytes_eq_iff _ _).0 (ground (arith, same)) in
            let b : r.1 ≡ line.1 = (bytes_eq_iff _ _).0 (ground (arith, same)) in rw (← a, ← b) h.0
        | inr other ↦ was_seen-LineOk line seen h.1 (ground (arith, e, other))
      ]

  -- what the outcome of a line says
  LineSays : List Signature → Signature → LineOutcome → Type 0
  LineSays seen line unknown = known_key line.0 (take 4 line.1) known ≡ none
  LineSays seen line repeated = was_seen line seen ≡ true
  LineSays seen line (checked o) =
      (key : Vkey) × (known_key line.0 (take 4 line.1) known ≡ some key)
      × (check_signature D K text key (drop 4 line.1) ≡ o)

  check_line-LineSays :
      (seen : List Signature) (line : Signature)
      → LineSays seen line (check_line D K text known seen line)
  unfolding check_line LineSays
  check_line-LineSays seen line = by_key (known_key line.0 (take 4 line.1) known) refl
    where
      by_key :
          (k : Option Vkey)
          → known_key line.0 (take 4 line.1) known ≡ k
          → LineSays seen line (elim k [
            | none ↦ unknown
            | some key ↦ elim (was_seen line seen) [
              | true ↦ repeated
              | false ↦ checked (check_signature D K text key (drop 4 line.1))
            ]
          ])
      by_key none e = e
      by_key (some key) e = elim (Bool-cases (was_seen line seen)) [
        | inl s ↦
            subst
              (λ b. LineSays seen line (elim b [
                | true ↦ repeated
                | false ↦ checked (check_signature D K text key (drop 4 line.1))
              ]))
              (sym s) s
        | inr s ↦
            subst
              (λ b. LineSays seen line (elim b [
                | true ↦ repeated
                | false ↦ checked (check_signature D K text key (drop 4 line.1))
              ]))
              (sym s) (key, e, refl)
      ]

  -- what the loop keeps: the lines seen, the lines listed, and that nothing was left unverified
  pub record Scanned (s : Scan) : Type 0 where
    pub seen : (s.pending ≡ 0) → All LineOk s.seen
    pub listed : All FromLine s.done

  check_lines-Scanned :
      All IsSupported known
      → (ls : List Signature) (s end : Scan) → check_lines D K text known ls s ≡ ok end
      → Scanned s
      → Scanned end × (s.pending ≤ end.pending) × (end.pending ≡ 0 → All LineOk ls)
  unfolding check_lines LineSays
  check_lines-Scanned types [] s end e h =
      let same : s ≡ end = cc e in (rw (← same) h, rw (← same) (omega arith), λ z. tt)
  check_lines-Scanned types (line ∷ ls) s end e h =
      by_outcome (λ t. check_lines-Scanned types ls t end) (check_line D K text known s.seen line)
        (check_line-LineSays s.seen line) e
    where
      by_outcome :
          ((t : Scan)
            → check_lines D K text known ls t ≡ ok end
            → Scanned t
            → Scanned end × (t.pending ≤ end.pending) × (end.pending ≡ 0 → All LineOk ls))
          → (o : LineOutcome) → LineSays s.seen line o
          → ◌≡◌ {A = Raises (Text × ℕ) Scan}
              (elim o [
                | unknown ↦ check_lines D K text known ls (record s { skipped = suc s.skipped })
                | repeated ↦ check_lines D K text known ls s
                | checked (verifies v) ↦
                    check_lines D K text known ls
                      (record (seen_with D K s line) { done = s.done ++ v ∷ [] })
                | checked unverifiable ↦
                    check_lines D K text known ls
                      (record (seen_with D K s line) { pending = suc s.pending })
                | checked fails ↦ raised (line.0, s.skipped)
              ])
              (ok end)
          → Scanned end × (s.pending ≤ end.pending) × (end.pending ≡ 0 → All LineOk (line ∷ ls))
      by_outcome rec unknown says f =
          let (kept, more, all) =
            rec (record s { skipped = suc s.skipped }) f
              (record { seen = h.seen; listed = h.listed }) in
          (kept, more, λ z. (inl says, all z))
      by_outcome rec repeated says f =
          let (kept, more, all) = rec s f h in
          (
            kept,
            more,
            λ z. (was_seen-LineOk line s.seen (h.seen (omega (arith, more, z))) says, all z),
          )
      by_outcome rec (checked (verifies v)) (key, is_known, says) f =
          let type_ok = known_key-IsSupported line.0 (take 4 line.1) known key types is_known in
          let signed : Verifies line v =
            (key, is_known, check_signature-Signed D K text key (drop 4 line.1) v type_ok says) in
          let (kept, more, all) =
            rec (record (seen_with D K s line) { done = s.done ++ v ∷ [] }) f
              (record {
                seen = λ z. (inr (v, signed), h.seen z);
                listed = snoc-All FromLine s.done v h.listed (line, signed);
              }) in
          (kept, more, λ z. (inr (v, signed), all z))
      by_outcome rec (checked unverifiable) says f =
          let (kept, more, all) =
            rec (record (seen_with D K s line) { pending = suc s.pending }) f
              (record { seen = λ z. absurd (omega (arith, z)); listed = h.listed }) in
          (kept, omega (arith, more), λ z. absurd (omega (arith, more, z)))
      by_outcome rec (checked fails) says f = cc f

report_inject : (a b : NoteReport) → ◌≡◌ {A = Raises NoteError NoteReport} (ok a) (ok b) → a ≡ b
report_inject a b h = cc h

-- the text and the lines of a note, the keys it was verified with, and what the report then says
pub record Accepted (D : Digest) (K : NoteKeys) (note : Bytes) (vkeys : List Text) (r : NoteReport)
    : Type 0 where
  pub text : Text
  pub lines : List Signature
  pub known : List Vkey
  pub other : ℕ
  pub splits : split_note note ≡ ok (text, lines)
  pub keys : known_keys D K vkeys [] 0 ≡ ok (known, other)
  pub text_is : r.text ≡ some text
  pub every_line : All (LineOk D K text known) lines
  pub every_verified : All (FromLine D K text known) r.verified
  pub some_verified : is_nil r.verified ≡ false

module _ (D : Digest) (K : NoteKeys) (note : Bytes) (vkeys : List Text) (r : NoteReport) where
  concluded-Accepted :
      (text : Text) (lines : List Signature) (known : List Vkey) (other : ℕ) (out : NoteReport)
      → split_note note ≡ ok (text, lines)
      → known_keys D K vkeys [] 0 ≡ ok (known, other)
      → out.stato ≡ non_valida
      → out.text ≡ some text
      → (c : Raises (Text × ℕ) Scan) → check_lines D K text known lines (start D K) ≡ c
      → concluded D K out c ≡ r
      → r.stato ≡ valid
      → Accepted D K note vkeys r
  concluded-Accepted text lines known other out splits keys bad text_is (raised x) e made v =
      absurd (cc (ap (λ (q : NoteReport). q.stato) made, v, bad))
  concluded-Accepted text lines known other out splits keys bad text_is (ok s) e made v =
      elim (Bool-cases (s.pending == 0)) [
        | inr waits ↦
            let m = rw waits at made in absurd (cc (ap (λ (q : NoteReport). q.stato) m, v))
        | inl none_waits ↦ elim (Bool-cases (is_nil s.done)) [
          | inl nothing ↦
              let m = rw (none_waits, nothing) at made in
              absurd (cc (ap (λ (q : NoteReport). q.stato) m, v, bad))
          | inr something ↦
              let m = rw (none_waits, something) at made in
              let (kept, more, all) =
                check_lines-Scanned D K text known types lines (start D K) s e begin in
              rw (← m) (record {
                text = text;
                lines = lines;
                known = known;
                other = other;
                splits = splits;
                keys = keys;
                text_is = text_is;
                every_line = all (ground (arith, none_waits));
                every_verified = kept.listed;
                some_verified = something;
              })
        ]
      ]
    where
      types : All IsSupported known
      types = known_keys-All D K vkeys [] 0 (known, other) keys tt

      begin : Scanned D K text known (start D K)
      begin = record { seen = λ z. tt; listed = tt }

-- Whenever verify_note reports OK: the note splits into the text of the report and signature lines, every
-- line whose key name and key id are those of a trusted key of a supported type is signed by that key: it
-- holds 64 bytes that Ed25519 verifies over the text, or a signature that ECDSA verifies over the text under
-- a key of one of the three curves, or a time from 1 to 2^63-1 with 64 bytes that Ed25519 verifies over the
-- time and the text, which has two lines at least, or such a time with 2420 bytes that ML-DSA-44 verifies
-- over the message of the time and of the checkpoint that the text is, as the type of the key says. Every
-- signature that is reported as verified is that of such a line, and at least one is reported.
pub verify_note-Accepted :
    (D : Digest) (K : NoteKeys) (note : Bytes) (vkeys : List Text) (r : NoteReport)
    → verify_note D K note vkeys ≡ ok r
    → r.stato ≡ valid
    → Accepted D K note vkeys r
unfolding verify_note report_of check_lines check_line check_signature
verify_note-Accepted D K note vkeys r h v =
    let (ks, keys, rest) = >>=-eq-ok (known_keys D K vkeys [] 0) _ h in
    by_split ks.0 ks.1 keys (split_note note) refl (report_inject _ _ rest)
  where
    blank : ℕ → NoteReport
    blank other = record {
      stato = non_valida;
      text = none;
      verified = [];
      ignored = 0;
      ignored_vkeys = other;
      motivo = none;
    }

    by_split :
        (known : List Vkey) (other : ℕ)
        → known_keys D K vkeys [] 0 ≡ ok (known, other)
        → (s : Raises NoteError (Text × List Signature)) → split_note note ≡ s
        → report_of D K known (blank other) s ≡ r
        → Accepted D K note vkeys r
    by_split known other keys (raised e) splits made =
        absurd (cc (ap (λ (q : NoteReport). q.stato) made, v))
    by_split known other keys (ok (text, lines)) splits made = elim (Bool-cases K.ed_available) [
      | inr missing ↦
          let m = rw missing at made in absurd (cc (ap (λ (q : NoteReport). q.stato) m, v))
      | inl there ↦
          concluded-Accepted D K note vkeys r text lines known other
            (record (blank other) { text = some text }) splits keys refl refl
            (check_lines D K text known lines (start D K)) refl (rw there at made) v
    ]
