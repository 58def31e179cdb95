-- ===== src/Witness/Http.antt =====
-- cryptovalid_witness.py: `do_POST` of the handler in `serve`, which gives a request's body to the service.
use cryptovalid_opencore.Prelude.{
  ℕ, Bool, true, not, ◌&&◌, ◌||◌, Option, none, some, List, [], ◌∷◌, ◌++◌, length, take, ltb, leb,
  if◌then◌else◌,
}
use cryptovalid_opencore.Bytes.{Bytes, bytes_eq, Digest}
use cryptovalid_opencore.Json.{Text}
use cryptovalid_opencore.Texts.{codes, all_digits}
use cryptovalid_opencore.Checkpoint.{starts_nonzero, value_of}
use cryptovalid_opencore.Checkpoint.Notes.{NoteKeys}
use cryptovalid_opencore.Witness.{Store}
use cryptovalid_opencore.Witness.Cosign.{Signer}
use cryptovalid_opencore.Witness.Service.{Logs, Response, add_checkpoint}

-- the path, the values of Content-Length, whether Transfer-Encoding is there, and what can be read
pub record HttpRequest : Type 0 where
  pub path : Text
  pub content_lengths : List Text
  pub transfer_encoding : Bool
  pub rfile : Bytes

-- a status without a body, after which the connection is closed, or the answer of the service
pub data HttpResponse : Type 0 where
  closed : ℕ → HttpResponse
  answer : Response → HttpResponse

unfoldable pub all_equal : Text → List Text → Bool
all_equal c [] = true
all_equal c (d ∷ ds) = bytes_eq c d && all_equal c ds

-- `0|[1-9][0-9]{0,9}` in full
abbrev pub is_length : Text → Bool
is_length t = bytes_eq t (48 ∷ []) || (starts_nonzero t && all_digits t && leb (length t) 10)

-- the one length, if it is readable
unfoldable pub content_length : List Text → Bool → Option ℕ
content_length [] chunked = none
content_length (c ∷ cs) chunked =
    if all_equal c cs && not chunked && is_length c then some (value_of c) else none

abbrev pub max_body : ℕ
max_body = 2097152

module _ (D : Digest) (K : NoteKeys) where
  abbrev pub post_answer : Store × Response → Store × HttpResponse
  post_answer (s, r) = (s, answer r)

  -- of the length, if there is one
  abbrev pub post_sized :
      Signer → Logs → HttpRequest → Option ℕ → Option ℕ → ℕ → ℕ → Store → Store × HttpResponse
  post_sized w logs q none timestamp now now_signing s = (s, closed 400)
  post_sized w logs q (some n) timestamp now now_signing s =
      if ltb max_body n
      then (s, closed 413)
      else post_answer (add_checkpoint D K w logs (take n q.rfile) timestamp now now_signing s)

  unfoldable pub do_post :
      Signer → Logs → Text → HttpRequest → Option ℕ → ℕ → ℕ → Store → Store × HttpResponse
  do_post w logs prefix q timestamp now now_signing s =
      if not (bytes_eq q.path (prefix ++ codes "/add-checkpoint"))
      then (s, closed 404)
      else post_sized w logs q (content_length q.content_lengths q.transfer_encoding) timestamp now
          now_signing s
