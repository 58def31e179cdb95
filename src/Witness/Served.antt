-- ===== src/Witness/Served.antt =====
-- The history of a witness behind its HTTP interface.
use cryptovalid_opencore.Prelude.{ℕ, not, Option, none, some, List, ◌++◌, take, ltb, if-holds}
use cryptovalid_opencore.Bytes.{Bytes, bytes_eq, Digest}
use cryptovalid_opencore.Json.{Text}
use cryptovalid_opencore.Texts.{codes}
use cryptovalid_opencore.Raises.{Raises, ok, raised}
use cryptovalid_opencore.Checkpoint.{NoteError}
use cryptovalid_opencore.Checkpoint.Notes.{NoteKeys}
use cryptovalid_opencore.Dicts.{lookup}
use cryptovalid_opencore.Witness.{Store}
use cryptovalid_opencore.Witness.Cosign.{Signer}
use cryptovalid_opencore.Witness.Service.{
  AddCheckpoint, Logs, Response, origin_of, serve_known, serve_parsed, add_checkpoint,
  parse_add_checkpoint_body,
}
use cryptovalid_opencore.Witness.Http.{
  HttpRequest, HttpResponse, max_body, content_length, post_answer, post_sized, do_post,
}
use cryptovalid_opencore.Witness.Chain.{IsKept}
use cryptovalid_opencore.Witness.Runs.{witness_cosign-IsKept}

module _ (D : Digest) (K : NoteKeys) (w : Signer) (logs : Logs) (timestamp : Option ℕ)
    (now now_signing : ℕ) (s : Store) (kept : IsKept D s) where
  serve_known-IsKept :
      (o : Option (List Text)) (r : AddCheckpoint)
      → IsKept D (serve_known D K w o r timestamp now now_signing s).0
  serve_known-IsKept none r = kept
  serve_known-IsKept (some vkeys) r = witness_cosign-IsKept D K w _ s kept

  serve_parsed-IsKept :
      (o : Raises NoteError AddCheckpoint)
      → IsKept D (serve_parsed D K w logs o timestamp now now_signing s).0
  serve_parsed-IsKept (raised e) = kept
  serve_parsed-IsKept (ok r) = serve_known-IsKept (lookup bytes_eq (origin_of r.note) logs) r

  add_checkpoint-IsKept :
      (body : Bytes) → IsKept D (add_checkpoint D K w logs body timestamp now now_signing s).0
  unfolding add_checkpoint
  add_checkpoint-IsKept body = serve_parsed-IsKept (parse_add_checkpoint_body body)

  post_answer-IsKept : (x : Store × Response) → IsKept D x.0 → IsKept D (post_answer D K x).0
  post_answer-IsKept (t, r) h = h

  post_sized-IsKept :
      (q : HttpRequest) (n : Option ℕ)
      → IsKept D (post_sized D K w logs q n timestamp now now_signing s).0
  post_sized-IsKept q none = kept
  post_sized-IsKept q (some n) =
      if-holds (λ (x : Store × HttpResponse). IsKept D x.0) (ltb max_body n) (λ _. kept)
        (λ _.
          post_answer-IsKept
            (add_checkpoint D K w logs (take n q.rfile) timestamp now now_signing s)
            (add_checkpoint-IsKept (take n q.rfile)))

  -- Whatever is posted to the witness, the history of every origin stays a chain from one cosigned
  -- checkpoint to the next that ends in the stored one, each step from the empty tree or with a consistency
  -- proof that verifies, and the stored roots stay canonical.
  pub do_post-IsKept :
      (prefix : Text) (q : HttpRequest)
      → IsKept D (do_post D K w logs prefix q timestamp now now_signing s).0
  unfolding do_post
  do_post-IsKept prefix q =
      if-holds (λ (x : Store × HttpResponse). IsKept D x.0)
        (not (bytes_eq q.path (prefix ++ codes "/add-checkpoint"))) (λ _. kept)
        (λ _. post_sized-IsKept q (content_length q.content_lengths q.transfer_encoding))
