-- ===== src/Utf8.antt =====
-- `t.encode("utf-8")` and the strict `b.decode("utf-8")`.
use cryptovalid_opencore.Prelude.{
  ℕ, zero, suc, ◌+◌, ◌-◌, ◌*◌, ◌/◌, ◌%◌, ◌&&◌, Option, none, some, [], ◌∷◌, ◌++◌, ltb, leb, ◌==◌,
  if◌then◌else◌,
}
use cryptovalid_opencore.Bytes.{Bytes}
use cryptovalid_opencore.Json.{Text}

unfoldable pub encode_char : ℕ → Bytes
encode_char c =
    if ltb c 128
    then c ∷ []
    else if ltb c 2048
    then (192 + c / 64) ∷ (128 + c % 64) ∷ []
    else if ltb c 65536
    then (224 + c / 4096) ∷ (128 + c / 64 % 64) ∷ (128 + c % 64) ∷ []
    else (240 + c / 262144) ∷ (128 + c / 4096 % 64) ∷ (128 + c / 64 % 64) ∷ (128 + c % 64) ∷ []

unfoldable pub utf8_encode : Text → Bytes
utf8_encode [] = []
utf8_encode (c ∷ t) = encode_char c ++ utf8_encode t

-- between bytes: how many are still to come, the bits read, and the range of the next byte
pub data Progress : Type 0 where
  emit : ℕ → Progress
  wait : ℕ → ℕ → ℕ → ℕ → Progress
  bad : Progress

unfoldable pub lead : ℕ → Progress
lead b =
    if ltb b 128
    then emit b
    else if leb 194 b && leb b 223
    then wait 0 (b - 192) 128 191
    else if leb 224 b && leb b 239
    then wait 1 (b - 224) (if b == 224 then 160 else 128) (if b == 237 then 159 else 191)
    else if leb 240 b && leb b 244
    then wait 2 (b - 240) (if b == 240 then 144 else 128) (if b == 244 then 143 else 191)
    else bad

abbrev more_or_emit : ℕ → ℕ → Progress
more_or_emit zero acc = emit acc
more_or_emit (suc more) acc = wait more acc 128 191

unfoldable pub follow : ℕ → ℕ → ℕ → ℕ → ℕ → Progress
follow more acc low high b =
    if leb low b && leb b high then more_or_emit more (acc * 64 + (b - 128)) else bad

abbrev with_char : ℕ → Option Text → Option Text
with_char c none = none
with_char c (some t) = some (c ∷ t)

unfoldable mutual
  pub utf8_decode : Bytes → Option Text
  utf8_decode [] = some []
  utf8_decode (b ∷ bs) = elim (lead b) [
    | emit c ↦ with_char c (utf8_decode bs)
    | wait more acc low high ↦ decode_rest more acc low high bs
    | bad ↦ none
  ]

  decode_rest : ℕ → ℕ → ℕ → ℕ → Bytes → Option Text
  decode_rest more acc low high [] = none
  decode_rest more acc low high (b ∷ bs) = elim (follow more acc low high b) [
    | emit c ↦ with_char c (utf8_decode bs)
    | wait n a l h ↦ decode_rest n a l h bs
    | bad ↦ none
  ]
