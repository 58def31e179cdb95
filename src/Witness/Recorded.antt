-- ===== src/Witness/Recorded.antt =====
-- The property of the notes, across a request.
use cryptovalid_opencore.Prelude.{ℕ, ◌≢◌, refl, inl, inr, Option, none, some, ltb, if-holds, arith}
use cryptovalid_opencore.Bytes.{Digest}
use cryptovalid_opencore.Json.{Text}
use cryptovalid_opencore.Entry.{contains}
use cryptovalid_opencore.Dicts.All.{snoc-All}
use cryptovalid_opencore.Witness.{Entry, Kind, State, Evidence, Store}
use cryptovalid_opencore.Witness.Recording.{
  Request, pair_ev, proof_key, record_proof, remember, record_refusal, paired,
}
use cryptovalid_opencore.Witness.Frames.{After}
use cryptovalid_opencore.Witness.Notes.{
  RootNote, EvidenceNote, StateNotes, StoreNotes, PartnerNote, candidates-notes, partner_in-notes,
}

module _ (S : Text → ℕ → Text → Text → Type 0) (D : Digest) (x : Request)
    (mine : S x.cp.origin x.cp.size x.root_b64 x.presentato) where
  pair_ev-note :
      (n : Option Text) (root : Text)
      → root ≢ x.root_b64
      → RootNote S x.cp.origin x.cp.size root n
      → EvidenceNote S (pair_ev x n root)
  pair_ev-note none root d p = inl refl
  pair_ev-note (some t) root d p = inr (record {
    tipo = refl;
    other = root;
    root = x.root_b64;
    differ = d;
    note = t;
    precedente = refl;
    first = p;
    second = mine;
  })

  pub record_proof-notes :
      (n : Option Text) (root : Text) (s : Store)
      → root ≢ x.root_b64
      → RootNote S x.cp.origin x.cp.size root n
      → StoreNotes S s
      → StoreNotes S (record_proof D x n root s)
  unfolding record_proof
  record_proof-notes n root s d p h =
      if-holds (StoreNotes S) (contains s.state.proofs_seen (proof_key D x n root)) (λ _. h)
        (λ _. record {
          state = record { entries = h.state.entries; pending = h.state.pending };
          evidence = snoc-All (EvidenceNote S) s.evidence _ h.evidence (pair_ev-note n root d p);
          history = h.history;
        })

  pub paired-notes :
      (p : Option (Text × Option Text)) (e : Option Evidence) (s : Store)
      → PartnerNote S x p
      → StoreNotes S s
      → StoreNotes S (paired D x p e s).0
  paired-notes none e s p h = h
  paired-notes (some (root, n)) e s p h = record_proof-notes n root s p.0 p.1 h

  remember-notes : (k : Kind) (s : State) → StateNotes S s → StateNotes S (remember x k s)
  unfolding remember
  remember-notes k s h = ground arith

  pub record_refusal-notes :
      (k : Kind) (prev : Entry) (e : Option Evidence) (s : Store)
      → StoreNotes S s
      → StoreNotes S (record_refusal D x k prev e s).0
  unfolding record_refusal
  record_refusal-notes k prev e s h =
      let known : Store = record s { state = remember x k s.state } in
      let still : StoreNotes S known = record {
        state = remember-notes k s.state h.state;
        evidence = h.evidence;
        history = h.history;
      } in
      if-holds (After (StoreNotes S)) (ltb x.cp.size prev.size)
        (λ _.
          paired-notes _ _ known (partner_in-notes S x _ (candidates-notes S x known still)) still)
        (λ _. still)
