-- ===== src/Witness/Chain.antt =====
-- The history of an origin: each checkpoint extends the one before it.
use cryptovalid_opencore.Prelude.{
  ℕ, ◌<◌, ◌≡◌, refl, sym, ap, ◌∙◌, ◌⊎◌, inl, inr, Bool, true, false, not, ◌&&◌, ◌||◌, Bool-cases,
  Option, none, some, List, [], ◌∷◌, ◌++◌, ltb, ◌==◌, if◌then◌else◌, arith,
}
use cryptovalid_opencore.Bytes.{Bytes, bytes_eq, bytes_eq_iff, Digest}
use cryptovalid_opencore.Json.{Text}
use cryptovalid_opencore.Encoding.{b64decode, b64encode}
use cryptovalid_opencore.Checkpoint.Proofs.{verify_consistency_b64}
use cryptovalid_opencore.Dicts.{or_default, lookup}
use cryptovalid_opencore.Witness.{Entry, Cosigned, Store, Reason}
use cryptovalid_opencore.Witness.Cosign.{
  Call, request_of, first_refusal, entry_rules, rules, is_new, prev_root,
}

-- the bytes of a root in base64
abbrev pub root_of : Text → Bytes
root_of root_b64 = or_default [] (b64decode root_b64)

-- the history of an origin
unfoldable pub records : Text → List Cosigned → List Cosigned
records o [] = []
records o (r ∷ rs) = if bytes_eq r.origin o then r ∷ records o rs else records o rs

-- a size and a root in base64
abbrev pub View : Type 0
View = ℕ × Text

abbrev pub view_of : Cosigned → View
view_of r = (r.size, r.root_b64)

abbrev pub last_view : Option Entry → Option View
last_view none = none
last_view (some e) = some (e.size, e.root_b64)

-- a larger size, from the empty tree or with a consistency proof that verifies
abbrev pub Extends : Digest → View → View → Type 0
Extends D v w =
    (v.0 < w.0)
    × ((v.0 ≡ 0)
        ⊎ ((proof : List Text) × (verify_consistency_b64 D v.0 (root_of v.1) w.0 (root_of w.1) proof
              ≡ true)))

abbrev pub ExtendsLast : Digest → Option View → View → Type 0
ExtendsLast D none w = Unit
ExtendsLast D (some v) w = Extends D v w

-- from a view through the records to the last view
abbrev pub IsChain : Digest → Option View → List Cosigned → Option View → Type 0
IsChain D v [] last = v ≡ last
IsChain D v (r ∷ rs) last = ExtendsLast D v (view_of r) × IsChain D (some (view_of r)) rs last

pub IsChain-snoc :
    (D : Digest) (v : Option View) (rs : List Cosigned) (last : Option View) (r : Cosigned)
    → IsChain D v rs last
    → ExtendsLast D last (view_of r)
    → IsChain D v (rs ++ r ∷ []) (some (view_of r))
IsChain-snoc D v [] last r c e = (rw c e, refl)
IsChain-snoc D v (q ∷ rs) last r c e = (c.0, IsChain-snoc D (some (view_of q)) rs last r c.1 e)

pub records-append :
    (o : Text) (rs qs : List Cosigned) → records o (rs ++ qs) ≡ records o rs ++ records o qs
unfolding records
records-append o [] qs = refl
records-append o (r ∷ rs) qs = ground (arith, records-append o rs qs)

-- a root as the witness writes it
abbrev pub IsCanonical : Text → Type 0
IsCanonical root_b64 = b64encode (root_of root_b64) ≡ root_b64

-- the invariant of the files
pub record IsKept (D : Digest) (s : Store) : Type 0 where
  pub chain :
      (o : Text)
      → IsChain D none (records o s.history) (last_view (lookup bytes_eq o s.state.origins))
  pub canonical :
      (o : Text) (e : Entry) → lookup bytes_eq o s.state.origins ≡ some e → IsCanonical e.root_b64

pub eq_only : (a b : Text) → (bytes_eq a b ≡ true) → a ≡ b
eq_only a b h = (bytes_eq_iff a b).0 h

pub bytes_eq_refl : (a : Text) → bytes_eq a a ≡ true
bytes_eq_refl a = (bytes_eq_iff a a).1 refl

pub passes :
    (c : Bool) (why : Reason) (status : ℕ) (rest : List (Bool × Reason × ℕ))
    → first_refusal ((c, why, status) ∷ rest) ≡ none
    → (c ≡ false) × (first_refusal rest ≡ none)
unfolding first_refusal
passes true why status rest h = cc h
passes false why status rest h = (refl, h)

module _ (D : Digest) (a : Call) where
  -- what the rules leave of a stored checkpoint and one that is accepted after it
  pub Passed : Entry → Type 0
  Passed prev =
      (ltb a.cp.size prev.size ≡ false)
      × ((a.cp.size == prev.size && not (bytes_eq a.cp.root (prev_root prev))) ≡ false)
      × ((not (prev.size == 0 || a.cp.size == prev.size)
            && not
                (verify_consistency_b64 D prev.size (prev_root prev) a.cp.size a.cp.root a.proof))
          ≡ false)

  pub accepted-Passed : (prev : Entry) → first_refusal (rules D (some prev) a) ≡ none → Passed prev
  unfolding rules entry_rules Passed
  accepted-Passed prev h =
      let p1 = passes _ _ _ _ h in
      let p2 = passes _ _ _ _ p1.1 in
      let p3 = passes _ _ _ _ p2.1 in
      let p4 = passes _ _ _ _ p3.1 in
      let p5 = passes _ _ _ _ p4.1 in
      let p6 = passes _ _ _ _ p5.1 in let p7 = passes _ _ _ _ p6.1 in (p4.0, p5.0, p7.0)

  -- an accepted checkpoint that is not the stored one extends it
  pub accepted-Extends :
      (prev : Entry)
      → IsCanonical prev.root_b64
      → root_of (b64encode a.cp.root) ≡ a.cp.root
      → Passed prev
      → is_new D (some prev) (request_of a) ≡ true
      → Extends D (prev.size, prev.root_b64) (a.cp.size, b64encode a.cp.root)
  unfolding Passed
  accepted-Extends prev canonical same (not_smaller, not_other, proved) new =
      elim (Bool-cases (a.cp.size == prev.size)) [
        | inl e ↦
            let b : bytes_eq a.cp.root (root_of prev.root_b64) ≡ true =
              ground (arith, e, not_other) in
            let r : prev.root_b64 ≡ b64encode a.cp.root =
              sym canonical ∙ ap b64encode (sym ((bytes_eq_iff _ _).0 b)) in
            let t : bytes_eq prev.root_b64 (b64encode a.cp.root) ≡ true = (bytes_eq_iff _ _).1 r in
            absurd (ground (arith, e, t, new))
        | inr e ↦ (ground arith, by_zero e)
      ]
    where
      by_zero :
          (a.cp.size == prev.size) ≡ false
          → (prev.size ≡ 0)
            ⊎ ((proof : List Text) × (verify_consistency_b64 D prev.size
                    (root_of prev.root_b64)
                    a.cp.size
                    (root_of (b64encode a.cp.root))
                    proof
                  ≡ true))
      by_zero e = elim (Bool-cases (prev.size == 0)) [
        | inl z ↦ inl (ground arith)
        | inr z ↦ inr (a.proof, rw same (ground (arith, e, z, proved)))
      ]

  pub accepted-same :
      (prev : Entry)
      → is_new D (some prev) (request_of a) ≡ false
      → ◌≡◌ {A = View} (prev.size, prev.root_b64) (a.cp.size, b64encode a.cp.root)
  accepted-same prev old =
      let r : bytes_eq prev.root_b64 (b64encode a.cp.root) ≡ true = ground arith in
      let n : prev.size ≡ a.cp.size = ground arith in cc (n, (bytes_eq_iff _ _).0 r)
