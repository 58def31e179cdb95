-- ===== src/Witness/Kept.antt =====
-- The invariant of the files, across requests.
use cryptovalid_opencore.Prelude.{
  ◌≡◌, refl, ap, inl, inr, true, false, Bool-cases, Option, none, some, List, append-nil,
  if◌then◌else◌,
}
use cryptovalid_opencore.Bytes.{bytes_eq, Digest}
use cryptovalid_opencore.Json.{Text}
use cryptovalid_opencore.Encoding.{b64encode}
use cryptovalid_opencore.Dicts.{lookup, set, lookup-set}
use cryptovalid_opencore.Witness.{Entry, Store, empty_store}
use cryptovalid_opencore.Witness.Cosign.{Call, request_of, is_new, entry_for, history_line}
use cryptovalid_opencore.Witness.Frames.{Keeps}
use cryptovalid_opencore.Witness.Effects.{Stores}
use cryptovalid_opencore.Witness.Chain.{
  root_of, records, records-append, View, last_view, ExtendsLast, IsChain, IsChain-snoc,
  IsCanonical, IsKept, eq_only, bytes_eq_refl, accepted-Passed, accepted-Extends, accepted-same,
}

pub empty_store-IsKept : (D : Digest) → IsKept D empty_store
unfolding records lookup
empty_store-IsKept D = record { chain = λ o. refl; canonical = λ o e h. cc h }

pub Keeps-IsKept : (D : Digest) (s t : Store) → Keeps s t → IsKept D s → IsKept D t
Keeps-IsKept D s t k h = record {
  chain = λ o. rw (k.0, k.1) (h.chain o);
  canonical = λ o e l. h.canonical o e (rw k.0 at l);
}

lookup-set_text :
    {V : Type 0} (k j : Text) (v : V) (d : List (Text × V))
    → lookup bytes_eq j (set bytes_eq k v d)
      ≡ (if bytes_eq k j then some v else lookup bytes_eq j d)
lookup-set_text = lookup-set bytes_eq eq_only bytes_eq_refl

module _ (D : Digest) (a : Call) (s t : Store) where
  abbrev origin : Text
  origin = a.cp.origin

  abbrev before : Option Entry
  before = lookup bytes_eq origin s.state.origins

  abbrev now_view : View
  now_view = (a.cp.size, b64encode a.cp.root)

  module _ (k : IsKept D s) (same : root_of (b64encode a.cp.root) ≡ a.cp.root)
      (c : Stores D a before s t) where
    -- the checkpoint against the last one
    new-ExtendsLast :
        (prev : Option Entry)
        → before ≡ prev
        → is_new D prev (request_of a) ≡ true
        → ExtendsLast D (last_view prev) now_view
    new-ExtendsLast none e new = tt
    new-ExtendsLast (some prev) e new =
        accepted-Extends D a prev (k.canonical origin prev e) same
          (accepted-Passed D a prev (rw e at c.accepted)) new

    old-view :
        (prev : Option Entry)
        → is_new D prev (request_of a) ≡ false
        → last_view prev ≡ some now_view
    old-view none old = cc old
    old-view (some prev) old = ap some (accepted-same D a prev old)

    IsChain-here : IsChain D none (records origin t.history) (some now_view)
    unfolding records
    IsChain-here = elim (Bool-cases (is_new D before (request_of a))) [
      | inl new ↦
          rw (c.history, new, records-append origin s.history, bytes_eq_refl origin)
            (IsChain-snoc D none (records origin s.history) (last_view before)
              (history_line D (request_of a) c.note c.time) (k.chain origin)
              (new-ExtendsLast before refl new))
      | inr old ↦ rw (c.history, old) (rw (old-view before old) at (k.chain origin))
    ]

    records-other :
        (o : Text) → bytes_eq origin o ≡ false → records o t.history ≡ records o s.history
    unfolding records
    records-other o other = elim (Bool-cases (is_new D before (request_of a))) [
      | inl new ↦
          rw (c.history, new, records-append o s.history, other) (append-nil (records o s.history))
      | inr old ↦ rw (c.history, old) refl
    ]

    pub Stores-IsKept : IsKept D t
    Stores-IsKept = record { chain = chain_at; canonical = canonical_at }
      where
        found :
            (o : Text)
            → lookup bytes_eq o t.state.origins ≡ (
                if bytes_eq origin o
                then some (entry_for D (request_of a) c.note c.time)
                else lookup bytes_eq o s.state.origins)
        found o = rw c.origins (lookup-set_text origin o _ s.state.origins)

        chain_at :
            (o : Text)
            → IsChain D none (records o t.history) (last_view (lookup bytes_eq o t.state.origins))
        chain_at o = elim (Bool-cases (bytes_eq origin o)) [
          | inl e ↦
              let at_o : IsChain D none (records o t.history) (some now_view) =
                rw (← eq_only origin o e) IsChain-here in
              rw (found o, e) at_o
          | inr e ↦ rw (found o, e, records-other o e) (k.chain o)
        ]

        canonical_at :
            (o : Text) (e : Entry)
            → lookup bytes_eq o t.state.origins ≡ some e
            → IsCanonical e.root_b64
        canonical_at o e l = elim (Bool-cases (bytes_eq origin o)) [
          | inl i ↦
              let m : entry_for D (request_of a) c.note c.time ≡ e = cc (rw (found o, i) at l) in
              rw (← m) (ap b64encode same)
          | inr i ↦ k.canonical o e (rw (found o, i) at l)
        ]
