-- ===== src/Witness/Pending.antt =====
-- cryptovalid_witness.py: `_note_future`, the roots that wait beyond the stored size, and their bounds.
use cryptovalid_opencore.Prelude.{
  ℕ, zero, suc, ◌+◌, Bool, true, false, ◌||◌, Option, none, some, [], ◌∷◌, length, ltb, leb, ◌==◌,
  if◌then◌else◌,
}
use cryptovalid_opencore.Bytes.{bytes_eq, Digest}
use cryptovalid_opencore.Json.{Text}
use cryptovalid_opencore.Raises.{Raises, ok, raised}
use cryptovalid_opencore.Utf8.{utf8_encode}
use cryptovalid_opencore.Checkpoint.{NoteError, stop_iteration}
use cryptovalid_opencore.Dicts.{lookup, set}
use cryptovalid_opencore.Witness.{
  Roots, Sizes, State, Evidence, Store, ring_size, pending_bytes, pending_note,
}
use cryptovalid_opencore.Witness.Recording.{
  Request, has_note, sizes_of, roots_at, partner_in, paired,
}

unfoldable pub note_count : Sizes → ℕ
note_count [] = 0
note_count ((n, roots) ∷ rest) = length roots + note_count rest

abbrev note_size : Option Text → ℕ
note_size none = 0
note_size (some t) = length (utf8_encode t)

unfoldable pub roots_bytes : Roots → ℕ
roots_bytes [] = 0
roots_bytes ((root, n) ∷ rest) = note_size n + roots_bytes rest

unfoldable pub byte_count : Sizes → ℕ
byte_count [] = 0
byte_count ((n, roots) ∷ rest) = roots_bytes roots + byte_count rest

-- `min(pend_o, key=int)` of a dict that starts with `n`
unfoldable pub smallest : ℕ → Sizes → ℕ
smallest n [] = n
smallest n ((m, roots) ∷ rest) = smallest (if ltb m n then m else n) rest

-- the pop of a size's first root, and of the size when no root is left; `next` raises StopIteration where
-- the size has none
abbrev pub without_first : ℕ → Roots → Sizes → Option Sizes
without_first n [] rest = none
without_first n (r ∷ []) rest = some rest
without_first n (r ∷ s ∷ roots) rest = some ((n, s ∷ roots) ∷ rest)

abbrev pub after : ℕ × Roots → Option Sizes → Option Sizes
after item none = none
after item (some rest) = some (item ∷ rest)

unfoldable pub pop_at : ℕ → Sizes → Option Sizes
pop_at m [] = none
pop_at m ((n, roots) ∷ rest) =
    if n == m then without_first n roots rest else after (n, roots) (pop_at m rest)

-- one round of the loop
unfoldable pub drop_smallest : Sizes → Option Sizes
drop_smallest [] = none
drop_smallest ((n, roots) ∷ rest) = pop_at (smallest n rest) ((n, roots) ∷ rest)

unfoldable pub too_much : Sizes → Bool
too_much sizes = ltb ring_size (note_count sizes) || ltb pending_bytes (byte_count sizes)

-- the loop, on fuel: a round drops a root
unfoldable pub trim_fuel : ℕ → Sizes → Option Sizes
trim_fuel zero sizes = some sizes
trim_fuel (suc fuel) sizes = elim (too_much sizes) [
  | true ↦ elim (drop_smallest sizes) [ none ↦ none | some less ↦ trim_fuel fuel less ]
  | false ↦ some sizes
]

-- none where the loop raises StopIteration
unfoldable pub trim : Sizes → Option Sizes
trim sizes = trim_fuel (note_count sizes + length sizes) sizes

-- a note that is not too large to keep
unfoldable pub small : Request → Option Text
small x = if leb (length (utf8_encode x.presentato)) pending_note then some x.presentato else none

-- `root_b64 not in pend or (pend[root_b64] is None and small is not None)`
unfoldable pub with_root : Request → Roots → Roots
with_root x pend =
    let grown = set bytes_eq x.root_b64 (small x) pend in
    elim (lookup bytes_eq x.root_b64 pend) [
      | none ↦ grown
      | some none ↦ if has_note (small x) then grown else pend
      | some (some n) ↦ pend
    ]

-- what waits for the origin with the request's root
abbrev pub waiting_sizes : Request → State → Sizes
waiting_sizes x s =
    set (◌==◌) x.cp.size (with_root x (roots_at x.cp.origin x.cp.size s)) (sizes_of x.cp.origin s)

unfoldable pub with_pending : Request → Sizes → State → State
with_pending x sizes s = record s { pending = set bytes_eq x.cp.origin sizes s.pending }

module _ (D : Digest) where
  -- of the sizes that the loop leaves
  abbrev pub waits :
      Request → Option Sizes → Store × Option Evidence → Store × Raises NoteError (Option Evidence)
  waits x none (s, found) = (s, raised stop_iteration)
  waits x (some sizes) (s, found) = (record s { state = with_pending x sizes s.state }, ok found)

  -- `_note_future`
  unfoldable pub note_future : Request → Store → Store × Raises NoteError (Option Evidence)
  note_future x s =
      let partner = partner_in x.root_b64 (roots_at x.cp.origin x.cp.size s.state) in
      let found = paired D x partner none s in waits x (trim (waiting_sizes x found.0.state)) found
