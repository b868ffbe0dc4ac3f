-- ===== src/Relay/Blobs.antt =====
-- `_serve_blob` of src/hermes_vylen_gateway/relay.py. The size of a file and what can be read of it
-- are arguments, as is the text of a send that raises an OSError, which the reading catches too.
pub mod Confined
pub mod Whole
mod Tests
use Prim.Native.String as NativeString
use hermes_vylen_gateway.Prelude.{
  ℕ, ◌+◌, String, Bool, true, false, List, [], ◌∷◌, Option, none, some, drop, length, ◌==◌,
  string_eq, if◌then◌else◌,
}
use hermes_vylen_gateway.Prelude.Text.{Text, codes}
use hermes_vylen_gateway.ResponseBuffer.{Bytes, Headers}
use hermes_vylen_gateway.Relay.Frames.{
  response_headers, response_chunk, response_end, response_error, parts,
}
use hermes_vylen_gateway.Relay.Writer.{Relay, Method, send, ◌>>◌, pass}
use hermes_vylen_gateway.Blobs.{BlobEntry, BlobRegistry, lookup}

abbrev pub blob_path_prefix : Text
blob_path_prefix = codes "/__vylen_blob__/"

-- path[len(BLOB_PATH_PREFIX):]
abbrev pub token_of : Text → Text
token_of path = drop (length blob_path_prefix) path

-- entry.path.stat().st_size
pub data Size : Type 0 where
  size_of : ℕ → Size
  stat_failed : String → Size

-- The bytes of a file that f.read gives, and the error that ends them, if one does.
pub record Reading : Type 0 where
  pub read : Bytes
  pub error : Option String

pub record BlobFiles : Type 0 where
  pub size : Text → Size
  pub reading : Text → Reading
  -- str(size)
  pub str : ℕ → String
  -- str.upper
  pub upper : String → String
  -- after so many sends: the text of the OSError that the last one raised
  pub os_error : ℕ → Option String

abbrev pub disposition : String → String
disposition filename = NativeString.◌++◌ "inline; filename=\"" (NativeString.◌++◌ filename "\"")

abbrev pub blob_headers : BlobFiles → BlobEntry → ℕ → Headers
blob_headers fs e size =
    ("Content-Type", e.mime)
    ∷ ("Content-Length", fs.str size)
    ∷ ("Content-Disposition", disposition e.filename)
    ∷ ("Cache-Control", "private, max-age=1800")
    ∷ []

module _ (delivers : ℕ → Bool) (fs : BlobFiles) (request_id : String) where
  -- the headers and the end of an answer without a body
  unfoldable pub send_status : ℕ → Headers → Method
  unfolding send
  send_status status headers =
      send delivers (response_headers request_id status headers)
      >> send delivers (response_end request_id)

  unfoldable pub send_error : String → String → Method
  unfolding send
  send_error code message = send delivers (response_error request_id code message)

  -- one frame for each chunk that f.read gives; _BLOB_CHUNK_BYTES is _RESPONSE_CHUNK_BYTES
  unfoldable pub send_blob_parts : List Bytes → Method
  unfolding send
  send_blob_parts [] = pass
  send_blob_parts (p ∷ ps) = send delivers (response_chunk request_id p) >> send_blob_parts ps

  -- behind the loop of reads, which the clause for OSError is about
  unfoldable pub finish_read : Option String → Relay × Bool → Relay × Bool
  unfolding send send_error
  finish_read none (s, true) = send delivers (response_end request_id) s
  finish_read (some e) (s, true) = send_error "BLOB_READ_FAILED" e s
  finish_read error (s, false) = elim (fs.os_error s.attempts) [
    | none ↦ (s, false)
    | some e ↦ send_error "BLOB_READ_FAILED" e s
  ]

  unfoldable pub send_reading : Reading → Method
  unfolding send_blob_parts finish_read
  send_reading r s = finish_read r.error (send_blob_parts (parts r.read) s)

  unfoldable pub send_blob : Bool → BlobEntry → Size → Method
  unfolding send send_status send_error send_reading
  send_blob head_only e (stat_failed error) = send_error "BLOB_GONE" error
  send_blob head_only e (size_of size) =
      if head_only
      then send_status 200 (blob_headers fs e size)
      else send delivers (response_headers request_id 200 (blob_headers fs e size))
        >> send_reading (fs.reading e.path)

  unfoldable pub send_found : Bool → Option BlobEntry → Method
  unfolding send_status send_blob
  send_found head_only none = send_status 404 (("Content-Type", "text/plain; charset=utf-8") ∷ [])
  send_found head_only (some e) = send_blob head_only e (fs.size e.path)

  unfoldable pub serve_blob :
      BlobRegistry → String → Text → ℕ → Relay → BlobRegistry × (Relay × Bool)
  unfolding send_status send_found
  serve_blob r method path now s =
      let m = fs.upper method in
      let found = lookup r (token_of path) now in
      if m == "GET"
      then (found.0, send_found false found.1 s)
      else (if m == "HEAD"
          then (found.0, send_found true found.1 s)
          else (r, send_status 405 (("Allow", "GET, HEAD") ∷ []) s))
