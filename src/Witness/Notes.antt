-- ===== src/Witness/Notes.antt =====
-- A property of the notes that the files hold, by origin, size and root, across what a request records.
use cryptovalid_opencore.Prelude.{
  ℕ, ◌+◌, ◌≡◌, ◌≢◌, refl, ◌⊎◌, Bool, true, false, not, ◌&&◌, ◌||◌, Option, none, some, List, [],
  ◌∷◌, ◌++◌, leb, ◌==◌, ==_iff, if-holds, arith,
}
use cryptovalid_opencore.Bytes.{bytes_eq, bytes_eq_iff}
use cryptovalid_opencore.Json.{Text}
use cryptovalid_opencore.Texts.{is_nil}
use cryptovalid_opencore.Dicts.{or_default, lookup, set}
use cryptovalid_opencore.Dicts.All.{All, Item, snoc-All, lookup-All, set-All}
use cryptovalid_opencore.Witness.{
  Entry, split_view, Refusal, Roots, Sizes, State, Evidence, Cosigned, Store, history_scan,
}
use cryptovalid_opencore.Witness.Recording.{
  Request, has_note, line_size, scanned, cosigned_among, cosigned_at, refused_before, update,
  first_other, partner_in, roots_at, sizes_of, candidates, set_default,
}
use cryptovalid_opencore.Witness.Chain.{eq_only}

pub size_only : (a b : ℕ) → (a == b) ≡ true → a ≡ b
size_only a b h = (==_iff a b).0 h

pub apart : (a b : Text) (c : Bool) → (not (bytes_eq a b) && c) ≡ true → a ≢ b
apart a b c h e = let same = (bytes_eq_iff a b).1 e in cc (rw same at h)

module _ (S : Text → ℕ → Text → Text → Type 0) where
  abbrev pub RootNote : Text → ℕ → Text → Option Text → Type 0
  RootNote o n root none = Unit
  RootNote o n root (some t) = S o n root t

  abbrev pub RootsNotes : Text → ℕ → Roots → Type 0
  RootsNotes o n roots = All (Item (RootNote o n)) roots

  abbrev pub SizesNotes : Text → Sizes → Type 0
  SizesNotes o sizes = All (Item (RootsNotes o)) sizes

  abbrev pub EntryNote : Text → Entry → Type 0
  EntryNote o e = S o e.size e.root_b64 e.note

  abbrev pub RecordNote : Cosigned → Type 0
  RecordNote r = S r.origin r.size r.root_b64 r.note

  -- two notes of different roots at one size of one origin
  pub record Split (e : Evidence) : Type 0 where
    pub tipo : e.tipo ≡ split_view
    pub other : Text
    pub root : Text
    pub differ : other ≢ root
    pub note : Text
    pub precedente : e.precedente ≡ some note
    pub first : S e.origin e.size_presentato other note
    pub second : S e.origin e.size_presentato root e.presentato

  -- a record that claims to be proof is
  abbrev pub EvidenceNote : Evidence → Type 0
  EvidenceNote e = (e.prova ≡ false) ⊎ Split e

  pub record StateNotes (s : State) : Type 0 where
    pub entries : All (Item EntryNote) s.origins
    pub pending : All (Item SizesNotes) s.pending

  pub record StoreNotes (s : Store) : Type 0 where
    pub state : StateNotes s.state
    pub evidence : All EvidenceNote s.evidence
    pub history : All RecordNote s.history

  pub roots_at-notes :
      (o : Text) (n : ℕ) (s : State) → StateNotes s → RootsNotes o n (roots_at o n s)
  unfolding roots_at sizes_of
  roots_at-notes o n s h = at_size (lookup (◌==◌) n sizes) refl
    where
      sizes : Sizes
      sizes = sizes_of o s

      at_origin :
          (d : Option Sizes) → lookup bytes_eq o s.pending ≡ d → SizesNotes o (or_default [] d)
      at_origin none e = tt
      at_origin (some d) e = lookup-All bytes_eq eq_only SizesNotes o s.pending h.pending e

      at_size : (r : Option Roots) → lookup (◌==◌) n sizes ≡ r → RootsNotes o n (or_default [] r)
      at_size none e = tt
      at_size (some r) e =
          lookup-All (◌==◌) size_only (RootsNotes o) n sizes
            (at_origin (lookup bytes_eq o s.pending) refl) e

  scanned-notes : (rs : List Cosigned) → All RecordNote rs → All RecordNote (scanned rs).0
  unfolding scanned
  scanned-notes [] h = h
  scanned-notes (r ∷ rs) h =
      if-holds (All RecordNote) (leb (line_size r + (scanned rs).1) history_scan)
        (λ _. (h.0, scanned-notes rs h.1)) (λ _. scanned-notes rs h.1)

  set_default-notes :
      (o : Text) (n : ℕ) (root t : Text) (found : Roots)
      → RootsNotes o n found
      → S o n root t
      → RootsNotes o n (set_default root t found)
  set_default-notes o n root t found h p = by_lookup (lookup bytes_eq root found)
    where
      by_lookup :
          (l : Option (Option Text))
          → RootsNotes o n (elim l [ none ↦ found ++ (root, some t) ∷ [] | some m ↦ found ])
      by_lookup none = snoc-All (Item (RootNote o n)) found (root, some t) h p
      by_lookup (some m) = h

  cosigned_among-notes :
      (o : Text) (n : ℕ) (rs : List Cosigned) (found : Roots)
      → All RecordNote rs
      → RootsNotes o n found
      → RootsNotes o n (cosigned_among o n rs found)
  unfolding cosigned_among
  cosigned_among-notes o n [] found h k = k
  cosigned_among-notes o n (r ∷ rs) found h k = cosigned_among-notes o n rs _ h.1 (
      if-holds (RootsNotes o n) (bytes_eq r.origin o && r.size == n && not (is_nil r.note))
        (λ here. set_default-notes o n r.root_b64 r.note found k (moved here)) (λ _. k))
    where
      moved :
          (bytes_eq r.origin o && r.size == n && not (is_nil r.note)) ≡ true
          → S o n r.root_b64 r.note
      moved here =
          let eo : r.origin ≡ o = eq_only _ _ (ground (arith, here)) in
          let en : r.size ≡ n = ground (arith, here) in rw (← eo, ← en) h.0

  set-notes :
      (o : Text) (n : ℕ) (root : Text) (t : Option Text) (d : Roots)
      → RootsNotes o n d
      → RootNote o n root t
      → RootsNotes o n (set bytes_eq root t d)
  set-notes o n root t d h p = set-All bytes_eq eq_only (RootNote o n) root t d h p

  refused_before-notes :
      (x : Request) (es : List Refusal) (found : Roots)
      → RootsNotes x.cp.origin x.cp.size found
      → RootsNotes x.cp.origin x.cp.size (refused_before x es found)
  unfolding refused_before
  refused_before-notes x [] found h = h
  refused_before-notes x (e ∷ es) found h = refused_before-notes x es _ (
      if-holds (RootsNotes x.cp.origin x.cp.size)
        (e.size == x.cp.size && not (bytes_eq e.root_b64 x.root_b64))
        (λ _. set-notes _ _ e.root_b64 none found h tt) (λ _. h))

  update-notes :
      (o : Text) (n : ℕ) (d e : Roots)
      → RootsNotes o n d
      → RootsNotes o n e
      → RootsNotes o n (update d e)
  unfolding update
  update-notes o n d [] h k = h
  update-notes o n d ((root, t) ∷ e) h k =
      update-notes o n (set bytes_eq root t d) e (set-notes o n root t d h k.0) k.1

  pub candidates-notes :
      (x : Request) (s : Store) → StoreNotes s → RootsNotes x.cp.origin x.cp.size (candidates x s)
  unfolding candidates cosigned_at
  candidates-notes x s h =
      update-notes _ _ _ _
        (update-notes _ _ _ _ (refused_before-notes x _ [] tt) (roots_at-notes _ _ s.state h.state))
        (cosigned_among-notes _ _ _ [] (scanned-notes s.history h.history) tt)

  -- a root other than the request's, with its note
  abbrev pub PartnerNote : Request → Option (Text × Option Text) → Type 0
  PartnerNote x none = Unit
  PartnerNote x (some p) = (p.0 ≢ x.root_b64) × RootNote x.cp.origin x.cp.size p.0 p.1

  pub first_other-notes :
      (x : Request) (b : Bool) (roots : Roots)
      → RootsNotes x.cp.origin x.cp.size roots
      → PartnerNote x (first_other x.root_b64 b roots)
  unfolding first_other
  first_other-notes x b [] h = tt
  first_other-notes x b ((r, n) ∷ rest) h =
      if-holds (PartnerNote x) (not (bytes_eq r x.root_b64) && (has_note n || not b))
        (λ differs. (other differs, h.0)) (λ _. first_other-notes x b rest h.1)
    where
      other : (not (bytes_eq r x.root_b64) && (has_note n || not b)) ≡ true → r ≢ x.root_b64
      other differs = apart r x.root_b64 (has_note n || not b) differs

  pub partner_in-notes :
      (x : Request) (roots : Roots)
      → RootsNotes x.cp.origin x.cp.size roots
      → PartnerNote x (partner_in x.root_b64 roots)
  unfolding partner_in
  partner_in-notes x roots h = by_first (first_other x.root_b64 true roots) refl
    where
      by_first :
          (p : Option (Text × Option Text))
          → first_other x.root_b64 true roots ≡ p
          → PartnerNote x (elim p [ some q ↦ some q | none ↦ first_other x.root_b64 false roots ])
      by_first none e = first_other-notes x false roots h
      by_first (some q) e = rw e at (first_other-notes x true roots h)
