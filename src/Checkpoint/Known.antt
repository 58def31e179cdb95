-- ===== src/Checkpoint/Known.antt =====
-- The trusted keys that `verify_note` looks lines up in.
use cryptovalid_opencore.Prelude.{
  subst, ℕ, suc, ◌≡◌, refl, inl, inr, Bool, true, false, ◌&&◌, Bool-cases, Option, none, some, List,
  [], ◌∷◌, ◌++◌, if◌then◌else◌,
}
use cryptovalid_opencore.Bytes.{Bytes, bytes_eq, Digest}
use cryptovalid_opencore.Json.{Text}
use cryptovalid_opencore.Raises.{Raises, ok, raised}
use cryptovalid_opencore.Checkpoint.{NoteError, ambiguous_key, Vkey, supported, parse_vkey}
use cryptovalid_opencore.Checkpoint.Notes.{NoteKeys}
use cryptovalid_opencore.Checkpoint.Verify.{known_key, add_known, same_key, known_keys}
use cryptovalid_opencore.Dicts.All.{All, snoc-All}

-- of a type that is verified
abbrev pub IsSupported : Vkey → Type 0
IsSupported k = supported k.typ ≡ true

list_inject : (a b : List Vkey) → ◌≡◌ {A = Raises NoteError (List Vkey)} (ok a) (ok b) → a ≡ b
list_inject a b h = cc h

add_known-All :
    (v : Vkey) (known more : List Vkey)
    → IsSupported v
    → add_known v known ≡ ok more
    → All IsSupported known
    → All IsSupported more
unfolding add_known
add_known-All v known more s h all = by_key (known_key v.name v.kid known) h
  where
    by_key :
        (o : Option Vkey)
        → elim o [
          | none ↦ ok (known ++ v ∷ [])
          | some w ↦ if same_key w v then ok known else raised (ambiguous_key v.name v.kid)
        ]
          ≡ ok more
        → All IsSupported more
    by_key none e = subst (All IsSupported) (list_inject _ _ e) (snoc-All IsSupported known v all s)
    by_key (some w) e = elim (Bool-cases (same_key w v)) [
      | inl same ↦ subst (All IsSupported) (list_inject _ _ (rw same at e)) all
      | inr other ↦ cc (rw other at e)
    ]

pub known_keys-All :
    (D : Digest) (K : NoteKeys) (vkeys : List Text) (known : List Vkey) (other : ℕ)
    (end : List Vkey × ℕ)
    → known_keys D K vkeys known other ≡ ok end
    → All IsSupported known
    → All IsSupported end.0
unfolding known_keys
known_keys-All D K [] known other end h all =
    let e : (known, other) ≡ end = pair_inject _ _ h in
    subst (λ (x : List Vkey × ℕ). All IsSupported x.0) e all
  where
    pair_inject :
        (a b : List Vkey × ℕ) → ◌≡◌ {A = Raises NoteError (List Vkey × ℕ)} (ok a) (ok b) → a ≡ b
    pair_inject a b h = cc h
known_keys-All D K (v ∷ vkeys) known other end h all =
    by_key (known_keys-All D K vkeys) (parse_vkey D v false) h
  where
    Rec : Type 0
    Rec =
        (more : List Vkey) (other : ℕ) (end : List Vkey × ℕ)
        → known_keys D K vkeys more other ≡ ok end
        → All IsSupported more
        → All IsSupported end.0

    by_added :
        Rec
        → (key : Vkey) (o : Raises NoteError (List Vkey)) → IsSupported key
        → add_known key known ≡ o
        → elim o [ raised e ↦ raised e | ok more ↦ known_keys D K vkeys more other ] ≡ ok end
        → All IsSupported end.0
    by_added rec key (raised e) s a h = cc h
    by_added rec key (ok more) s a h = rec more other end h (add_known-All key known more s a all)

    by_type :
        Rec
        → (key : Vkey) (b : Bool) → supported key.typ ≡ b
        → elim b [
          | false ↦ known_keys D K vkeys known (suc other)
          | true ↦ elim (add_known key known) [
            | raised e ↦ raised e
            | ok more ↦ known_keys D K vkeys more other
          ]
        ]
          ≡ ok end
        → All IsSupported end.0
    by_type rec key false s h = rec known (suc other) end h all
    by_type rec key true s h = by_added rec key (add_known key known) s refl h

    by_key :
        Rec
        → (r : Raises NoteError Vkey)
        → elim r [
          | raised e ↦ raised e
          | ok key ↦ elim (supported key.typ) [
            | false ↦ known_keys D K vkeys known (suc other)
            | true ↦ elim (add_known key known) [
              | raised e ↦ raised e
              | ok more ↦ known_keys D K vkeys more other
            ]
          ]
        ]
          ≡ ok end
        → All IsSupported end.0
    by_key rec (raised e) h = cc h
    by_key rec (ok key) h = by_type rec key (supported key.typ) refl h

pub known_key-IsSupported :
    (name : Text) (kid : Bytes) (known : List Vkey) (key : Vkey)
    → All IsSupported known
    → known_key name kid known ≡ some key
    → IsSupported key
unfolding known_key
known_key-IsSupported name kid [] key all h = cc h
known_key-IsSupported name kid (v ∷ known) key all h =
    elim (Bool-cases (bytes_eq v.name name && bytes_eq v.kid kid)) [
      | inl here ↦ let e : v ≡ key = cc (rw here at h) in subst IsSupported e all.0
      | inr further ↦ known_key-IsSupported name kid known key all.1 (rw further at h)
    ]
