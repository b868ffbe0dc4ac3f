-- ===== src/Relay/Blobs/Confined.antt =====
-- The bytes that `_serve_blob` of src/hermes_vylen_gateway/relay.py lets out.
use hermes_vylen_gateway.Prelude.{
  ℕ, ◌+◌, ◌≤◌, ◌≡◌, refl, ap, sym, ◌∙◌, inl, inr, String, Bool, true, false, List, [], ◌∷◌, ◌++◌,
  Option, none, some, ◌==◌, string_eq, Bool-cases, Option-cases, append-nil, append_assoc,
}
use hermes_vylen_gateway.Prelude.Dict
use hermes_vylen_gateway.Prelude.Dict.{Dict}
use hermes_vylen_gateway.Prelude.Text.{Text, text_eq}
use hermes_vylen_gateway.ResponseBuffer.{Bytes, Headers}
use hermes_vylen_gateway.Relay.Frames.{
  Frame, response_headers, response_chunk, response_end, response_error, parts, joined,
  joined-parts,
}
use hermes_vylen_gateway.Relay.Writer.{Relay, Method, send, ◌>>◌}
use hermes_vylen_gateway.Relay.Mirror.{chunk_data, chunk_data-append}
use hermes_vylen_gateway.Blobs.{BlobEntry, BlobRegistry, lookup}
use hermes_vylen_gateway.Blobs.Served.{History, unexpired, lookup-granted}
use hermes_vylen_gateway.Relay.Blobs.{
  BlobFiles, Size, size_of, stat_failed, Reading, blob_headers, send_status, send_error,
  send_blob_parts, finish_read, send_reading, send_blob, send_found, serve_blob, token_of,
}

-- The bytes that the client has got.
abbrev pub received : Relay → Bytes
received s = joined (chunk_data s.sent)

abbrev pub StartsWith : Bytes → Bytes → Type 0
StartsWith whole b = (rest : Bytes) × (b ++ rest ≡ whole)

-- What is received behind `s` is a beginning of some bytes.
abbrev pub Gets : Bytes → Relay → Relay → Type 0
Gets whole s s' = StartsWith (received s ++ whole) (received s')

joined-append : (xs ys : List Bytes) → joined (xs ++ ys) ≡ joined xs ++ joined ys
joined-append [] ys = refl
joined-append (x ∷ xs) ys =
    ap (◌++◌ x) (joined-append xs ys) ∙ sym (append_assoc x (joined xs) (joined ys))

Gets-none : (whole : Bytes) (s s' : Relay) → received s' ≡ received s → Gets whole s s'
Gets-none whole s s' same = (whole, ap (λ x. x ++ whole) same)

module _ (delivers : ℕ → Bool) where
  -- A frame without data leaves what is received.
  silent-send :
      (f : Frame) (s : Relay)
      → chunk_data (f ∷ []) ≡ []
      → received (send delivers f s).0 ≡ received s
  unfolding send
  silent-send f s quiet = elim (Bool-cases (delivers s.attempts)) [
    | inl sent ↦
        rw (sent, send)
          (ap joined (
            chunk_data-append s.sent f
            ∙ ap (λ l. chunk_data s.sent ++ l) quiet
            ∙ append-nil (chunk_data s.sent)))
    | inr lost ↦ rw (lost, send) refl
  ]

  silent-then :
      (f : Frame) (n : Method) (s : Relay)
      → chunk_data (f ∷ []) ≡ []
      → ((t : Relay) → received (n t).0 ≡ received t)
      → received ((send delivers f >> n) s).0 ≡ received s
  silent-then f n s quiet h = elim (Bool-cases ((send delivers f s).1)) [
    | inl sent ↦ rw sent (h (send delivers f s).0 ∙ silent-send f s quiet)
    | inr lost ↦ rw lost (silent-send f s quiet)
  ]

  Gets-then :
      (f : Frame) (whole : Bytes) (n : Method) (s : Relay)
      → chunk_data (f ∷ []) ≡ []
      → ((t : Relay) → Gets whole t (n t).0)
      → Gets whole s ((send delivers f >> n) s).0
  Gets-then f whole n s quiet h = elim (Bool-cases ((send delivers f s).1)) [
    | inl sent ↦ rw sent (
        let (rest, e) = h (send delivers f s).0 in
        (rest, e ∙ ap (λ x. x ++ whole) (silent-send f s quiet)))
    | inr lost ↦ rw lost (Gets-none whole s (send delivers f s).0 (silent-send f s quiet))
  ]

  module _ (fs : BlobFiles) (id : String) where
    Gets-send_blob_parts :
        (ps : List Bytes) (s : Relay) → Gets (joined ps) s (send_blob_parts delivers fs id ps s).0
    unfolding send_blob_parts send
    Gets-send_blob_parts [] s = ([], refl)
    Gets-send_blob_parts (p ∷ ps) s = elim (Bool-cases (delivers s.attempts)) [
      | inr lost ↦ rw lost (Gets-none (joined (p ∷ ps)) s s refl)
      | inl sent ↦ rw sent (
          let s' : Relay = record s {
            sent = s.sent ++ response_chunk id p ∷ [];
            attempts = s.attempts + 1;
          } in
          let (rest, e) = Gets-send_blob_parts ps s' in
          (
            rest,
            e
                ∙ ap (λ x. x ++ joined ps)
                    (ap joined (chunk_data-append s.sent (response_chunk id p))
                      ∙ joined-append (chunk_data s.sent) (p ∷ [])
                      ∙ ap (◌++◌ (received s)) (append-nil p))
                ∙ append_assoc (received s) p (joined ps),
          ))
    ]

    silent-finish_read :
        (error : Option String) (r : Relay × Bool)
        → received (finish_read delivers fs id error r).0 ≡ received r.0
    unfolding finish_read send_error
    silent-finish_read none (s, true) = silent-send (response_end id) s refl
    silent-finish_read (some e) (s, true) =
        silent-send (response_error id "BLOB_READ_FAILED" e) s refl
    silent-finish_read none (s, false) = elim (Option-cases (fs.os_error s.attempts)) [
      | inl other ↦ rw (other, finish_read) refl
      | inr (e, raised) ↦
          rw (raised, finish_read) (silent-send (response_error id "BLOB_READ_FAILED" e) s refl)
    ]
    silent-finish_read (some e) (s, false) = elim (Option-cases (fs.os_error s.attempts)) [
      | inl other ↦ rw (other, finish_read) refl
      | inr (e', raised) ↦
          rw (raised, finish_read) (silent-send (response_error id "BLOB_READ_FAILED" e') s refl)
    ]

    Gets-send_reading :
        (r : Reading) (s : Relay) → Gets r.read s (send_reading delivers fs id r s).0
    unfolding send_reading
    Gets-send_reading r s =
        let (rest, e) = Gets-send_blob_parts (parts r.read) s in
        (
          rest,
          ap (λ x. x ++ rest)
                (silent-finish_read r.error (send_blob_parts delivers fs id (parts r.read) s))
              ∙ e
              ∙ ap (◌++◌ (received s)) (joined-parts r.read).0,
        )

    silent-send_status :
        (status : ℕ) (headers : Headers) (s : Relay)
        → received (send_status delivers fs id status headers s).0 ≡ received s
    unfolding send_status
    silent-send_status status headers s =
        silent-then (response_headers id status headers) (send delivers (response_end id)) s refl
          (λ t. silent-send (response_end id) t refl)

    Gets-send_blob :
        (head_only : Bool) (e : BlobEntry) (size : Size) (s : Relay)
        → Gets (fs.reading e.path).read s (send_blob delivers fs id head_only e size s).0
    unfolding send_blob send_error
    Gets-send_blob head_only e (stat_failed error) s =
        Gets-none (fs.reading e.path).read s
          (send_blob delivers fs id head_only e (stat_failed error) s).0
          (silent-send (response_error id "BLOB_GONE" error) s refl)
    Gets-send_blob true e (size_of size) s =
        Gets-none (fs.reading e.path).read s (send_blob delivers fs id true e (size_of size) s).0
          (silent-send_status 200 (blob_headers fs e size) s)
    Gets-send_blob false e (size_of size) s =
        Gets-then (response_headers id 200 (blob_headers fs e size)) (fs.reading e.path).read
          (send_reading delivers fs id (fs.reading e.path)) s refl
          (Gets-send_reading (fs.reading e.path))

    -- what there is to read under an entry
    abbrev pub contents : Option BlobEntry → Bytes
    contents none = []
    contents (some e) = (fs.reading e.path).read

    Gets-send_found :
        (head_only : Bool) (found : Option BlobEntry) (s : Relay)
        → Gets (contents found) s (send_found delivers fs id head_only found s).0
    unfolding send_found
    Gets-send_found head_only none s =
        Gets-none [] s (send_found delivers fs id head_only none s).0
          (silent-send_status 404 (("Content-Type", "text/plain; charset=utf-8") ∷ []) s)
    Gets-send_found head_only (some e) s = Gets-send_blob head_only e (fs.size e.path) s

    -- Whatever a request for a blob says and whichever sends get through, the bytes that it is
    -- answered with are a beginning of those of the file that was registered last under its token,
    -- if its time is not over, and none otherwise. The clock does not go back.
    pub serve_blob-confined :
        {ttl t : ℕ} {grants : Dict Text BlobEntry} {r : BlobRegistry} (method : String)
        (path : Text) (now : ℕ) (s : Relay)
        → History ttl t grants r
        → t ≤ now
        → Gets
            (contents (unexpired now (Dict.get (token_of path) grants)))
            s
            (serve_blob delivers fs id r method path now s).1.0
    unfolding serve_blob
    serve_blob-confined {ttl} {t} {grants} {r} method path now s past le =
        let same = lookup-granted ttl (token_of path) now past le in
        let found = (lookup r (token_of path) now).1 in
        elim (Bool-cases (fs.upper method == "GET")) [
          | inl get ↦ rw get (rw (sym same) (Gets-send_found false found s))
          | inr other ↦ rw other (elim (Bool-cases (fs.upper method == "HEAD")) [
            | inl head ↦ rw head (rw (sym same) (Gets-send_found true found s))
            | inr wrong ↦ rw wrong (
                Gets-none (contents (unexpired now (Dict.get (token_of path) grants))) s
                  (send_status delivers fs id 405 (("Allow", "GET, HEAD") ∷ []) s).0
                  (silent-send_status 405 (("Allow", "GET, HEAD") ∷ []) s))
          ])
        ]
