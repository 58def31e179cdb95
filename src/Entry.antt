-- ===== src/Entry.antt =====
-- The entry of a ledger, as verifier.py reads it: its keys, the bytes that its self_hash is computed
-- from, and `==` on decoded values.
use cryptovalid_opencore.Prelude.{
  ℕ, suc, Bool, true, false, ◌&&◌, ◌||◌, List, [], ◌∷◌, ◌==◌, if◌then◌else◌,
}
use cryptovalid_opencore.Bytes.{Bytes, bytes_eq}
use cryptovalid_opencore.Json.{
  Text, ℤ, pos, negsuc, Json, null, bool, num, str, arr, obj, Elements, end, element, Members,
  empty, member, get, has, dumps,
}

abbrev pub idx_key : Text
idx_key = 105 ∷ 100 ∷ 120 ∷ []

abbrev pub ts_key : Text
ts_key = 116 ∷ 115 ∷ []

abbrev pub data_key : Text
data_key = 100 ∷ 97 ∷ 116 ∷ 97 ∷ []

abbrev pub prev_hash_key : Text
prev_hash_key = 112 ∷ 114 ∷ 101 ∷ 118 ∷ 95 ∷ 104 ∷ 97 ∷ 115 ∷ 104 ∷ []

abbrev pub self_hash_key : Text
self_hash_key = 115 ∷ 101 ∷ 108 ∷ 102 ∷ 95 ∷ 104 ∷ 97 ∷ 115 ∷ 104 ∷ []

abbrev pub signature_key : Text
signature_key = 115 ∷ 105 ∷ 103 ∷ 110 ∷ 97 ∷ 116 ∷ 117 ∷ 114 ∷ 101 ∷ []

abbrev pub signer_key : Text
signer_key = 115 ∷ 105 ∷ 103 ∷ 110 ∷ 101 ∷ 114 ∷ []

abbrev pub tsa_token_key : Text
tsa_token_key = 116 ∷ 115 ∷ 97 ∷ 95 ∷ 116 ∷ 111 ∷ 107 ∷ 101 ∷ 110 ∷ []

abbrev pub signature_pq_key : Text
signature_pq_key = 115 ∷ 105 ∷ 103 ∷ 110 ∷ 97 ∷ 116 ∷ 117 ∷ 114 ∷ 101 ∷ 95 ∷ 112 ∷ 113 ∷ []

abbrev pub signer_pq_key : Text
signer_pq_key = 115 ∷ 105 ∷ 103 ∷ 110 ∷ 101 ∷ 114 ∷ 95 ∷ 112 ∷ 113 ∷ []

-- ENTRY_KEYS
abbrev pub entry_keys : List Text
entry_keys =
    idx_key ∷ ts_key ∷ data_key ∷ prev_hash_key ∷ self_hash_key ∷ signature_key ∷ signer_key
    ∷ tsa_token_key ∷ signature_pq_key ∷ signer_pq_key ∷ []

-- the keys that `canonical_payload` leaves out
abbrev pub attestation_keys : List Text
attestation_keys =
    self_hash_key ∷ signature_key ∷ signer_key ∷ signature_pq_key ∷ signer_pq_key ∷ tsa_token_key
    ∷ []

abbrev pub signature_keys : List Text
signature_keys = signature_key ∷ signer_key ∷ signature_pq_key ∷ signer_pq_key ∷ []

-- `k in keys`
unfoldable pub contains : List Text → Text → Bool
contains [] k = false
contains (l ∷ keys) k = bytes_eq l k || contains keys k

unfoldable pub without : List Text → Members → Members
without keys empty = empty
without keys (member k v rest) =
    if contains keys k then without keys rest else member k v (without keys rest)

unfoldable pub canonical_payload : Members → Bytes
canonical_payload entry = dumps (obj (without attestation_keys entry))

-- `a == b` on decoded values: True and False equal 1 and 0
unfoldable pub int_eq : ℤ → ℤ → Bool
int_eq (pos a) (pos b) = a == b
int_eq (pos a) (negsuc b) = false
int_eq (negsuc a) (pos b) = false
int_eq (negsuc a) (negsuc b) = a == b

abbrev number_of : Bool → ℤ
number_of false = pos 0
number_of true = pos 1

unfoldable pub size : Members → ℕ
size empty = 0
size (member k v rest) = suc (size rest)

unfoldable mutual
  pub py_eq : Json → Json → Bool
  py_eq null null = true
  py_eq (bool a) (bool b) = int_eq (number_of a) (number_of b)
  py_eq (bool a) (num b) = int_eq (number_of a) b
  py_eq (num a) (bool b) = int_eq a (number_of b)
  py_eq (num a) (num b) = int_eq a b
  py_eq (str a) (str b) = bytes_eq a b
  py_eq (arr as') (arr bs) = elements_eq as' bs
  py_eq (obj as') (obj bs) = size as' == size bs && members_in as' bs
  py_eq a b = false

  pub elements_eq : Elements → Elements → Bool
  elements_eq end end = true
  elements_eq (element a as') (element b bs) = py_eq a b && elements_eq as' bs
  elements_eq as' bs = false

  -- every item of the first dict is in the second
  pub members_in : Members → Members → Bool
  members_in empty bs = true
  members_in (member k a as') bs = has k bs && py_eq a (get k bs null) && members_in as' bs
