-- ===== src/Witness/Recording.antt =====
-- cryptovalid_witness.py: `_ev`, `_proof`, `_cosigned_at` and `_refused` inside `_cosign_locked`.
use cryptovalid_opencore.Prelude.{
  ℕ, suc, ◌+◌, Bool, true, false, not, ◌&&◌, ◌||◌, Option, none, some, List, [], ◌∷◌, ◌++◌, length,
  ltb, leb, ◌==◌, if◌then◌else◌,
}
use cryptovalid_opencore.Bytes.{bytes_eq, Digest}
use cryptovalid_opencore.Json.{Text, digits, text_ltb, short_escape}
use cryptovalid_opencore.Entry.{contains}
use cryptovalid_opencore.Checks.{hexdigest}
use cryptovalid_opencore.Texts.{codes, is_nil}
use cryptovalid_opencore.Utf8.{utf8_encode}
use cryptovalid_opencore.Checkpoint.{Checkpoint}
use cryptovalid_opencore.Dicts.{last_n, or_default, lookup, set}
use cryptovalid_opencore.Witness.{
  Entry, Kind, rollback, unproven_extension, split_view, split_view_unkept, Refusal, Ring, Roots,
  State, Evidence, Cosigned, Store, ring_size, history_scan, proofs_seen_size,
}

-- what the closures of `_cosign_locked` see of a request
pub record Request : Type 0 where
  pub cp : Checkpoint
  pub root_b64 : Text
  pub presentato : Text
  pub registrato : ℕ

abbrev pub same_kind : Kind → Kind → Bool
same_kind rollback rollback = true
same_kind unproven_extension unproven_extension = true
same_kind split_view split_view = true
same_kind split_view_unkept split_view_unkept = true
same_kind a b = false

abbrev pub has_note : Option Text → Bool
has_note none = false
has_note (some n) = true

-- `_ev`
abbrev pub ev : Request → Kind → Bool → Option Text → ℕ → Evidence
ev x tipo prova precedente size = record {
  tipo = tipo;
  prova = prova;
  origin = x.cp.origin;
  size_precedente = size;
  size_presentato = x.cp.size;
  precedente = precedente;
  presentato = x.presentato;
  registrato = x.registrato;
  precedente_root_b64 = none;
}

-- the pair with a root at the same size, whole or half
abbrev pub pair_ev : Request → Option Text → Text → Evidence
pair_ev x (some n) root = ev x split_view true (some n) x.cp.size
pair_ev x none root = record (ev x split_view_unkept false none x.cp.size) {
  precedente_root_b64 = some root;
}

abbrev sorted_pair : Text → Text → Text
sorted_pair a b = if text_ltb b a then b ++ (0 ∷ a) else a ++ (0 ∷ b)

abbrev marker : Option Text → Text
marker (some n) = codes "|full"
marker none = codes "|half"

module _ (D : Digest) where
  unfoldable pub proof_key : Request → Option Text → Text → Text
  proof_key x other_note other_root =
      hexdigest (
        D.hash (
          utf8_encode
            (x.cp.origin ++ (0 ∷ (digits x.cp.size ++ (0 ∷ sorted_pair other_root x.root_b64))))))
      ++ marker other_note

  -- `_proof`
  unfoldable pub record_proof : Request → Option Text → Text → Store → Store
  record_proof x other_note other_root s =
      let key = proof_key x other_note other_root in
      let seen = last_n proofs_seen_size (s.state.proofs_seen ++ key ∷ []) in
      if contains s.state.proofs_seen key then s else record s {
        state = record s.state { proofs_seen = seen };
        evidence = s.evidence ++ pair_ev x other_note other_root ∷ [];
      }

-- the bytes that `json.dumps(ensure_ascii=False)` writes for a character inside a string
abbrev escaped_size : ℕ → Option ℕ → ℕ
escaped_size c (some letter) = 2
escaped_size c none = if ltb c 32 then 6 else length (utf8_encode (c ∷ []))

unfoldable pub json_size : Text → ℕ
json_size [] = 0
json_size (c ∷ t) = escaped_size c (short_escape c) + json_size t

-- the bytes of a line of the history: {"origin": …, "size": …, "root_b64": …, "note": …, "cosigned_at": …}
unfoldable pub line_size : Cosigned → ℕ
line_size r =
    70
    + json_size r.origin
    + length (digits r.size)
    + json_size r.root_b64
    + json_size r.note
    + length (digits r.cosigned_at)

-- the lines that stand whole in the last `_HISTORY_SCAN` bytes, and what those and the rest take
unfoldable pub scanned : List Cosigned → List Cosigned × ℕ
scanned [] = ([], 0)
scanned (r ∷ rs) =
    let (kept, total) = scanned rs in
    let size = line_size r + total in (if leb size history_scan then r ∷ kept else kept, size)

-- `found.setdefault(root, note)`
abbrev pub set_default : Text → Text → Roots → Roots
set_default root n found = elim (lookup bytes_eq root found) [
  | none ↦ found ++ (root, some n) ∷ []
  | some m ↦ found
]

unfoldable pub cosigned_among : Text → ℕ → List Cosigned → Roots → Roots
cosigned_among origin size [] found = found
cosigned_among origin size (r ∷ rs) found =
    let here = bytes_eq r.origin origin && r.size == size && not (is_nil r.note) in
    cosigned_among origin size rs (if here then set_default r.root_b64 r.note found else found)

-- `_cosigned_at`
unfoldable pub cosigned_at : Request → Store → Roots
cosigned_at x s = cosigned_among x.cp.origin x.cp.size (scanned s.history).0 []

unfoldable pub refused_before : Request → List Refusal → Roots → Roots
refused_before x [] found = found
refused_before x (e ∷ es) found =
    let here = e.size == x.cp.size && not (bytes_eq e.root_b64 x.root_b64) in
    refused_before x es (if here then set bytes_eq e.root_b64 none found else found)

-- `d.update(e)`
unfoldable pub update : Roots → Roots → Roots
update d [] = d
update d ((root, n) ∷ e) = update (set bytes_eq root n d) e

-- the first other root, of those with a note and then of all
unfoldable pub first_other : Text → Bool → Roots → Option (Text × Option Text)
first_other root with_note [] = none
first_other root with_note ((r, n) ∷ rest) =
    if not (bytes_eq r root) && (has_note n || not with_note)
    then some (r, n)
    else first_other root with_note rest

unfoldable pub partner_in : Text → Roots → Option (Text × Option Text)
partner_in root roots = elim (first_other root true roots) [
  | some p ↦ some p
  | none ↦ first_other root false roots
]

unfoldable pub remembered : Request → Kind → List Refusal → Bool
remembered x tipo [] = false
remembered x tipo (e ∷ es) =
    (same_kind e.tipo tipo && e.size == x.cp.size && bytes_eq e.root_b64 x.root_b64)
    || remembered x tipo es

unfoldable pub ring_of : Text → State → Ring
ring_of origin s = or_default (record { count = 0; last = [] }) (lookup bytes_eq origin s.refusals)

abbrev pub refusal_of : Request → Kind → Refusal
refusal_of x tipo = record {
  tipo = tipo;
  size = x.cp.size;
  root_b64 = x.root_b64;
  quando = x.registrato;
}

unfoldable pub ring_with : Request → Kind → Ring → Ring
ring_with x tipo ring = record {
  count = suc ring.count;
  last = last_n ring_size (ring.last ++ refusal_of x tipo ∷ []);
}

-- the ring of `_refused`
unfoldable pub remember : Request → Kind → State → State
remember x tipo s =
    let ring = ring_of x.cp.origin s in
    if remembered x tipo ring.last
    then s
    else record s { refusals = set bytes_eq x.cp.origin (ring_with x tipo ring) s.refusals }

unfoldable pub sizes_of : Text → State → List (ℕ × Roots)
sizes_of origin s = or_default [] (lookup bytes_eq origin s.pending)

unfoldable pub roots_at : Text → ℕ → State → Roots
roots_at origin size s = or_default [] (lookup (◌==◌) size (sizes_of origin s))

unfoldable pub candidates : Request → Store → Roots
candidates x s =
    update
      (update (refused_before x (ring_of x.cp.origin s.state).last [])
        (roots_at x.cp.origin x.cp.size s.state))
      (cosigned_at x s)

module _ (D : Digest) where
  -- the record of a pair, and what it says
  abbrev pub paired :
      Request → Option (Text × Option Text) → Option Evidence → Store → Store × Option Evidence
  paired x none otherwise s = (s, otherwise)
  paired x (some (root, n)) otherwise s = (record_proof D x n root s, some (pair_ev x n root))

  -- `_refused`, where `found` is the evidence so far
  unfoldable pub record_refusal :
      Request → Kind → Entry → Option Evidence → Store → Store × Option Evidence
  record_refusal x tipo prev found s =
      let e = or_default (ev x tipo false (some prev.note) prev.size) found in
      let s' : Store = record s { state = remember x tipo s.state } in
      if ltb x.cp.size prev.size
      then paired x (partner_in x.root_b64 (candidates x s')) (some e) s'
      else (s', some e)
