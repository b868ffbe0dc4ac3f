-- ===== src/Relay/Mirror/Stream.antt =====
-- What `send_chunk` of `_FrameStreamWriter` (src/hermes_vylen_gateway/relay.py) sends and keeps, also
-- when a send fails half way.
use hermes_vylen_gateway.Prelude.{
  ℕ, ◌≡◌, refl, ap, sym, subst, ◌∙◌, ◌⊎◌, inl, inr, Bool, true, false, List, [], ◌∷◌, ◌++◌, Option,
  String, All, Bool-cases, append-nil, append_assoc,
}
use hermes_vylen_gateway.ResponseBuffer.{Bytes}
use hermes_vylen_gateway.ResponseBuffer.Extractor.{Json}
use hermes_vylen_gateway.Relay.Frames.{
  response_chunk, parts, joined, joined-parts, IsPart, response_chunk_bytes,
}
use hermes_vylen_gateway.Relay.Writer.{
  continue, Relay, Method, append_buffer, send, mark, send_headers, send_part, send_parts,
  ensure_headers, send_chunk,
}
use hermes_vylen_gateway.Relay.Mirror.{
  chunk_data, IsNonEmpty, Holds, append_buffer-Holds, append_buffer-sent, chunk_data-append,
}

-- What is held and what has been sent after sending the parts: all of them if the method returned,
-- and else the parts up to one that is held but not sent.
abbrev pub Streamed : List Bytes → List Bytes → List Bytes → Relay × Bool → Type 0
Streamed held data_ ps (s, true) = Holds s (held ++ ps) × (chunk_data s.sent ≡ data_ ++ ps)
Streamed held data_ ps (s, false) =
    (done : List Bytes) × (p : Bytes) × (rest : List Bytes) × (ps ≡ done ++ p ∷ rest)
    × Holds s (held ++ (done ++ p ∷ []))
    × (chunk_data s.sent ≡ data_ ++ done)

Streamed-cons :
    (held data_ : List Bytes) (p : Bytes) (ps : List Bytes) (r : Relay × Bool)
    → Streamed (held ++ p ∷ []) (data_ ++ p ∷ []) ps r
    → Streamed held data_ (p ∷ ps) r
Streamed-cons held data_ p ps (s, true) (m, e) =
    (subst (Holds s) (append_assoc held (p ∷ []) ps) m, e ∙ append_assoc data_ (p ∷ []) ps)
Streamed-cons held data_ p ps (s, false) (done, q, rest, cut, m, e) = (
  p ∷ done,
  q,
  rest,
  ap (◌∷◌ p) cut,
  subst (Holds s) (append_assoc held (p ∷ []) (done ++ q ∷ [])) m,
  e ∙ append_assoc data_ (p ∷ []) done,
)

-- What a method leaves that sends no chunk.
abbrev Kept : List Bytes → List Bytes → Relay × Bool → Type 0
Kept held data_ (s, _) = Holds s held × (chunk_data s.sent ≡ data_)

-- The outcome of sending a chunk. If the method returned, the chunk was sent in parts and they are
-- held as well. If it raised, either the headers did not get through, or one of the parts did not,
-- which is held, and the parts in front of it were sent and are held.
abbrev pub Mirrored : Bytes → List Bytes → Relay × Bool → Type 0
Mirrored chunk data_ (s, true) =
    (ps : List Bytes) × (joined ps ≡ chunk)
    × (chunk_data s.sent ≡ data_ ++ ps)
    × Holds s (chunk_data s.sent)
Mirrored chunk data_ (s, false) =
    ((chunk_data s.sent ≡ data_) × Holds s data_)
    ⊎ ((done : List Bytes) × (p : Bytes) × (rest : List Bytes) × (joined (done ++ p ∷ rest) ≡ chunk)
        × (chunk_data s.sent ≡ data_ ++ done)
        × Holds s (chunk_data s.sent ++ p ∷ []))

-- The first part, and then the others if its send got through.
continue-Streamed :
    (held data_ : List Bytes) (p : Bytes) (ps : List Bytes) (n : Method) (r : Relay × Bool)
    → Streamed held data_ (p ∷ []) r
    → ((s : Relay)
        → Holds s (held ++ p ∷ [])
        → Streamed (held ++ p ∷ []) (chunk_data s.sent) ps (n s))
    → Streamed held data_ (p ∷ ps) (continue n r)
continue-Streamed held data_ p ps n (s, true) (m, e) go =
    Streamed-cons held data_ p ps (n s)
      (subst (λ d. Streamed (held ++ p ∷ []) d ps (n s)) e (go s m))
continue-Streamed held data_ p ps n (s, false) (done, q, rest, cut, m, e) go =
    (done, q, rest ++ ps, ap (λ l. l ++ ps) cut ∙ append_assoc done (q ∷ rest) ps, m, e)

module _ (delivers : ℕ → Bool) (loads : Bytes → Option Json) (lower : String → String) where
  send_part-Streamed :
      (part : Bytes) (s : Relay) (held : List Bytes)
      → IsNonEmpty part
      → Holds s held
      → Streamed held (chunk_data s.sent) (part ∷ []) (send_part delivers loads lower part s)
  unfolding send_part send mark
  send_part-Streamed part s held h m =
      let s' = append_buffer loads part s in
      let k = append_buffer-Holds loads part s held h m in
      let same = ap chunk_data (append_buffer-sent loads part s) in
      elim (Bool-cases (delivers s'.attempts)) [
        | inl ok ↦ rw ok (
          record { extractor = k.extractor; armed = k.armed; preroll = k.preroll; held = k.held },
          chunk_data-append s'.sent (response_chunk s.writer.request_id part)
              ∙ ap (λ l. l ++ part ∷ []) same,
        )
        | inr fails ↦ rw fails (
          [],
          part,
          [],
          refl,
          record { extractor = k.extractor; armed = k.armed; preroll = k.preroll; held = k.held },
          same ∙ sym (append-nil _),
        )
      ]

  send_parts-Streamed :
      (ps : List Bytes) (s : Relay) (held : List Bytes)
      → All (IsPart response_chunk_bytes) ps
      → Holds s held
      → Streamed held (chunk_data s.sent) ps (send_parts delivers loads lower ps s)
  unfolding send_parts
  send_parts-Streamed [] s held h m =
      (subst (Holds s) (sym (append-nil held)) m, sym (append-nil _))
  send_parts-Streamed (p ∷ ps) s held (h, hs) m =
      continue-Streamed held (chunk_data s.sent) p ps (send_parts delivers loads lower ps)
        (send_part delivers loads lower p s) (send_part-Streamed p s held h.0 m)
        (λ s' m'. send_parts-Streamed ps s' (held ++ p ∷ []) hs m')

  ensure_headers-Kept :
      (status : ℕ) (s : Relay) (held : List Bytes)
      → Holds s held
      → Kept held (chunk_data s.sent) (ensure_headers delivers loads lower status s)
  unfolding ensure_headers send_headers send mark
  ensure_headers-Kept status s held m = elim (Bool-cases s.writer.sent_headers) [
    | inl already ↦ simp already (m, refl)
    | inr first ↦ elim (Bool-cases (delivers s.attempts)) [
      | inl ok ↦
          simp (first, ok)
            (
              record {
                extractor = m.extractor;
                armed = m.armed;
                preroll = m.preroll;
                held = m.held;
              },
              chunk_data-append s.sent _ ∙ append-nil _,
            )
      | inr fails ↦
          simp (first, fails)
            (
              record {
                extractor = m.extractor;
                armed = m.armed;
                preroll = m.preroll;
                held = m.held;
              },
              refl,
            )
    ]
  ]

  Streamed-Mirrored :
      (chunk : Bytes) (data_ : List Bytes) (r : Relay × Bool)
      → Streamed data_ data_ (parts chunk) r
      → Mirrored chunk data_ r
  Streamed-Mirrored chunk data_ (s, true) (m, e) =
      (parts chunk, (joined-parts chunk).0, e, subst (Holds s) (sym e) m)
  Streamed-Mirrored chunk data_ (s, false) (done, p, rest, cut, m, e) = inr (
    done,
    p,
    rest,
    ap joined (sym cut) ∙ (joined-parts chunk).0,
    e,
    subst (Holds s) (sym (append_assoc data_ done (p ∷ [])) ∙ ap (λ l. l ++ p ∷ []) (sym e)) m,
  )

  after_headers :
      (chunk : Bytes) (data_ : List Bytes) (r : Relay × Bool)
      → Kept data_ data_ r
      → Mirrored chunk data_ (continue (send_parts delivers loads lower (parts chunk)) r)
  after_headers chunk data_ (s, true) (m, e) =
      Streamed-Mirrored chunk data_ (send_parts delivers loads lower (parts chunk) s) (
        subst
          (λ d. Streamed data_ d (parts chunk) (send_parts delivers loads lower (parts chunk) s)) e
          (send_parts-Streamed (parts chunk) s data_ (joined-parts chunk).1 m))
  after_headers chunk data_ (s, false) (m, e) = inl (e, m)

  -- While the writer holds the data of the chunk frames that it has sent, it does so after every
  -- chunk that it is given; a send that fails leaves at most the part that it was to send held and
  -- unsent.
  pub send_chunk-Mirrored :
      (chunk : Bytes) (s : Relay)
      → Holds s (chunk_data s.sent)
      → Mirrored chunk (chunk_data s.sent) (send_chunk delivers loads lower chunk s)
  unfolding send_chunk
  send_chunk-Mirrored [] s m = ([], refl, sym (append-nil _), m)
  send_chunk-Mirrored (b ∷ bs) s m =
      after_headers (b ∷ bs) (chunk_data s.sent) (ensure_headers delivers loads lower 200 s)
        (ensure_headers-Kept 200 s (chunk_data s.sent) m)
