-- ===== src/Relay/Blobs/Whole.antt =====
-- What `_serve_blob` of src/hermes_vylen_gateway/relay.py sends over a socket that does not fail.
use hermes_vylen_gateway.Prelude.{
  ℕ, ◌+◌, ◌≤◌, ◌≡◌, refl, ap, sym, ◌∙◌, String, Bool, true, List, [], ◌∷◌, ◌++◌, map, none, some,
  length, length-append, arith, string_eq, append-nil, append_assoc,
}
use hermes_vylen_gateway.Prelude.Dict
use hermes_vylen_gateway.Prelude.Dict.{Dict}
use hermes_vylen_gateway.Prelude.Text.{Text, text_eq}
use hermes_vylen_gateway.ResponseBuffer.{Bytes}
use hermes_vylen_gateway.Relay.Frames.{Frame, response_headers, response_chunk, response_end, parts}
use hermes_vylen_gateway.Relay.Writer.{Relay, Method, send, ◌>>◌, continue}
use hermes_vylen_gateway.Blobs.{BlobEntry, BlobRegistry}
use hermes_vylen_gateway.Blobs.Served.{History, unexpired, lookup-granted}
use hermes_vylen_gateway.Relay.Blobs.{
  BlobFiles, size_of, blob_headers, send_blob_parts, finish_read, send_reading, send_blob,
  send_found, serve_blob, token_of,
}

-- the relay with some more frames sent
abbrev pub delivered : Relay → List Frame → Relay
delivered s frames = record s { sent = s.sent ++ frames; attempts = s.attempts + length frames }

delivered-append :
    (s : Relay) (xs ys : List Frame) → delivered (delivered s xs) ys ≡ delivered s (xs ++ ys)
delivered-append s xs ys =
    ap (λ l. record s { sent = l; attempts = s.attempts + length xs + length ys })
      (append_assoc s.sent xs ys)
    ∙ ap (λ n. record s { sent = s.sent ++ (xs ++ ys); attempts = n })
        (omega (arith, length-append xs ys))

delivered-nil : (s : Relay) → delivered s [] ≡ s
delivered-nil s =
    ap (λ l. record s { sent = l; attempts = s.attempts + 0 }) (append-nil s.sent)
    ∙ ap (λ n. record s { attempts = n }) (omega arith)

module _ (delivers : ℕ → Bool) (reliable : (n : ℕ) → delivers n ≡ true) where
  send-delivered : (f : Frame) (s : Relay) → send delivers f s ≡ (delivered s (f ∷ []), true)
  unfolding send
  send-delivered f s = rw (reliable s.attempts) refl

  then-delivered :
      (f : Frame) (n : Method) (s : Relay) (frames : List Frame)
      → ((t : Relay) → n t ≡ (delivered t frames, true))
      → (send delivers f >> n) s ≡ (delivered s (f ∷ frames), true)
  then-delivered f n s frames h =
      ap (continue n) (send-delivered f s)
      ∙ h (delivered s (f ∷ []))
      ∙ ap (λ t. (t, true)) (delivered-append s (f ∷ []) frames)

  module _ (fs : BlobFiles) (id : String) where
    parts-delivered :
        (ps : List Bytes) (s : Relay)
        → send_blob_parts delivers fs id ps s ≡ (delivered s (map (response_chunk id) ps), true)
    unfolding send_blob_parts
    parts-delivered [] s = ap (λ t. (t, true)) (sym (delivered-nil s))
    parts-delivered (p ∷ ps) s =
        then-delivered (response_chunk id p) (send_blob_parts delivers fs id ps) s
          (map (response_chunk id) ps) (parts-delivered ps)

    reading-delivered :
        (bytes : Bytes) (s : Relay)
        → send_reading delivers fs id (record { read = bytes; error = none }) s
          ≡ (delivered s (map (response_chunk id) (parts bytes) ++ response_end id ∷ []), true)
    unfolding send_reading finish_read
    reading-delivered bytes s =
        let chunks = map (response_chunk id) (parts bytes) in
        ap (finish_read delivers fs id none) (parts-delivered (parts bytes) s)
        ∙ send-delivered (response_end id) (delivered s chunks)
        ∙ ap (λ t. (t, true)) (delivered-append s chunks (response_end id ∷ []))

    -- A GET for a token that was registered, whose time is not over and whose file can be read, is
    -- answered by the headers with its type and size, its bytes cut into parts, and the end, and
    -- the method returns, when every send gets through. The clock does not go back.
    pub serve_blob-whole :
        {ttl t : ℕ} {grants : Dict Text BlobEntry} {r : BlobRegistry} (method : String)
        (path : Text) (now : ℕ) (s : Relay) (e : BlobEntry) (size : ℕ) (bytes : Bytes)
        → History ttl t grants r
        → t ≤ now
        → fs.upper method ≡ "GET"
        → unexpired now (Dict.get (token_of path) grants) ≡ some e
        → fs.size e.path ≡ size_of size
        → fs.reading e.path ≡ record { read = bytes; error = none }
        → (serve_blob delivers fs id r method path now s).1 ≡ (
          delivered s (
              response_headers id 200 (blob_headers fs e size)
                ∷ map (response_chunk id) (parts bytes)
              ++ response_end id ∷ []),
          true,
        )
    unfolding serve_blob send_found send_blob
    serve_blob-whole {ttl} {t} {grants} {r} method path now s e size bytes past le get found sized
          readable =
        rw (get, lookup-granted ttl (token_of path) now past le, found, sized, readable)
          (then-delivered (response_headers id 200 (blob_headers fs e size))
            (send_reading delivers fs id (record { read = bytes; error = none })) s
            (map (response_chunk id) (parts bytes) ++ response_end id ∷ [])
            (reading-delivered bytes))
