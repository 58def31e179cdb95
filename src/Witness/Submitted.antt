-- ===== src/Witness/Submitted.antt =====
-- What an OK of `submit_checkpoint` means.
use cryptovalid_opencore.Prelude.{◌≡◌, ◌≢◌, true, some, List}
use cryptovalid_opencore.Bytes.{Bytes, Digest}
use cryptovalid_opencore.Json.{Text}
use cryptovalid_opencore.Raises.{Raises, ok}
use cryptovalid_opencore.Checkpoint.{type_ed25519, type_ecdsa, Vkey}
use cryptovalid_opencore.Checkpoint.Notes.{NoteKeys}
use cryptovalid_opencore.Checkpoint.Verify.{valid}
use cryptovalid_opencore.Dicts.All.{All}
use cryptovalid_opencore.Witness.Requests.{is_trusted}
use cryptovalid_opencore.Witness.Relying.{WitnessReport, verify_witnessed}
use cryptovalid_opencore.Witness.Submit.{Submitted, Client, client_policy}

-- the name of a key that is trusted
abbrev pub IsKnown : List Vkey → Text → Type 0
IsKnown keys n = (kid : Bytes) × (is_trusted n kid keys ≡ true)

module _ (D : Digest) (K : NoteKeys) (c : Client) (r : Submitted) where
  -- a relying party with the same keys accepts the note
  pub record Verified (keys : List Vkey) : Type 0 where
    pub cosigned : Bytes
    pub note : r.note ≡ some cosigned
    pub report : WitnessReport
    pub verified : verify_witnessed D K (client_policy D K c) cosigned ≡ ok report
    pub stato : report.stato ≡ valid
    pub named : All (IsKnown keys) r.witnesses

-- of neither type of a log's signature
abbrev pub NotLog : Vkey → Type 0
NotLog k = (k.typ ≢ type_ed25519) × (k.typ ≢ type_ecdsa)
