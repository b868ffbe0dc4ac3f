-- ===== src/Relay/Blobs/Tests.antt =====
-- Instances for `_serve_blob` of src/hermes_vylen_gateway/relay.py.
use hermes_vylen_gateway.Prelude.{◌≡◌, refl, true, [], ◌∷◌, none, arith, nat_beq}
use hermes_vylen_gateway.Prelude.Dict
use hermes_vylen_gateway.Prelude.Text.{Text, codes, text_eq}
use hermes_vylen_gateway.Relay.Frames.{response_headers, response_chunk, response_end, parts}
use hermes_vylen_gateway.Relay.Writer.{Relay, new_writer}
use hermes_vylen_gateway.Blobs.Tests.{registry, registered, entry}
use hermes_vylen_gateway.Relay.Blobs.{BlobFiles, size_of, serve_blob, blob_headers}
use hermes_vylen_gateway.Relay.Blobs.Confined.{Gets, serve_blob-confined}
use hermes_vylen_gateway.Relay.Blobs.Whole.{delivered, serve_blob-whole}

abbrev relay : Relay
relay = record {
  sent = [];
  attempts = 0;
  registry = record { heap = []; buffers = []; grace_seconds = 300; max_bytes = 1000 };
  writer = new_writer "q1" none;
}

abbrev files : BlobFiles
files = record {
  size = λ p. size_of 3;
  reading = λ p. record { read = 7 ∷ 8 ∷ 9 ∷ []; error = none };
  str = λ n. "3";
  upper = λ m. m;
  os_error = λ n. none;
}

abbrev path : Text
path = codes "/__vylen_blob__/tok"

-- The second send fails, which is that of the chunk.
serve_blob-confined_example :
    Gets
      (7 ∷ 8 ∷ 9 ∷ [])
      relay
      (serve_blob (λ n. nat_beq n 0) files "q1" registry "GET" path 100 relay).1.0
unfolding Dict.get
serve_blob-confined_example =
    serve_blob-confined (λ n. nat_beq n 0) files "q1" "GET" path 100 relay registered (omega arith)

serve_blob-whole_example : (serve_blob (λ n. true) files "q1" registry "GET" path 100 relay).1 ≡ (
  delivered relay (
      response_headers "q1" 200 (blob_headers files entry 3)
      ∷ response_chunk "q1" (7 ∷ 8 ∷ 9 ∷ [])
      ∷ response_end "q1"
      ∷ []),
  true,
)
unfolding Dict.get parts
serve_blob-whole_example =
    serve_blob-whole (λ n. true) (λ n. refl) files "q1" "GET" path 100 relay entry 3
      (7 ∷ 8 ∷ 9 ∷ []) registered (omega arith) refl refl refl refl
