-- ===== src/Relay/Mirror.antt =====
-- The buffer of `_FrameStreamWriter` (src/hermes_vylen_gateway/relay.py) holds what the client is
-- sent, chunk frame for chunk frame, so a resumed response goes on where the first one broke off.
pub mod Stream
pub mod End
use hermes_vylen_gateway.Prelude.{
  ℕ, ◌+◌, ◌≤◌, ◌<◌, ◌≡◌, refl, ap, sym, subst, ◌∙◌, ◌⊎◌, inl, inr, Bool, true, false, List, [], ◌∷◌,
  ◌++◌, Option, none, some, String, length, arith, All, All-append, Bool-cases, Option-cases,
  get_elem?, set, get_elem?-append_last, get_elem?-set_self, append-nil, append_assoc,
}
use hermes_vylen_gateway.ResponseBuffer.{
  new_buffer, Bytes, Headers, ResponseBuffer, ResponseBufferRegistry, append, finalize, create,
  drop_buffer, update,
}
use hermes_vylen_gateway.ResponseBuffer.Extractor.{
  Json, ResponseIdExtractor, try_extract_response_id, feed,
}
use hermes_vylen_gateway.Relay.Frames.{
  Frame, response_headers, response_chunk, response_end, response_error, parts, joined,
  joined-parts, IsPart, response_chunk_bytes,
}
use hermes_vylen_gateway.Relay.Writer.{
  Relay, FrameStreamWriter, Method, append_all, append_buffer, buffered, fed, send, mark,
  send_headers, send_part, send_parts, ensure_headers, send_chunk,
}

-- The data of the chunk frames.
abbrev pub chunk_data : List Frame → List Bytes
chunk_data [] = []
chunk_data (response_chunk rid part ∷ fs) = part ∷ chunk_data fs
chunk_data (response_headers rid status headers ∷ fs) = chunk_data fs
chunk_data (response_end rid ∷ fs) = chunk_data fs
chunk_data (response_error rid code message ∷ fs) = chunk_data fs

abbrev pub IsNonEmpty : Bytes → Type 0
IsNonEmpty p = 0 < length p

-- What the writer holds for a later resumption: the buffer, or what it keeps until it has one.
abbrev pub HeldIn : List Bytes → List ResponseBuffer → List Bytes → Option ℕ → Type 0
HeldIn preroll heap chunks none = preroll ≡ chunks
HeldIn preroll heap chunks (some ref) =
    (buf : ResponseBuffer) × (get_elem? heap ref ≡ some buf) × (buf.chunks ≡ chunks)

abbrev pub Held : Relay → List Bytes → Option ℕ → Type 0
Held s = HeldIn s.writer.preroll s.registry.heap

-- A writer with a registry that holds the chunks.
pub record Holds (s : Relay) (chunks : List Bytes) : Type 0 where
  pub extractor : ResponseIdExtractor
  pub armed : s.writer.extractor ≡ some extractor
  pub preroll : All IsNonEmpty s.writer.preroll
  pub held : Held s chunks s.writer.buffer

append-chunks :
    (buf : ResponseBuffer) (c : Bytes) → IsNonEmpty c → (append buf c).chunks ≡ buf.chunks ++ c ∷ []
unfolding append
append-chunks buf [] h = absurd (omega arith)
append-chunks buf (b ∷ bs) h = refl

append_all-chunks :
    (cs : List Bytes) (buf : ResponseBuffer)
    → All IsNonEmpty cs
    → (append_all cs buf).chunks ≡ buf.chunks ++ cs
unfolding append_all
append_all-chunks [] buf h = sym (append-nil buf.chunks)
append_all-chunks (c ∷ cs) buf (h, hs) =
    append_all-chunks cs (append buf c) hs
    ∙ ap (λ l. l ++ cs) (append-chunks buf c h)
    ∙ append_assoc buf.chunks (c ∷ []) cs

pub update-found :
    (r : ResponseBufferRegistry) (ref : ℕ) (f : ResponseBuffer → ResponseBuffer)
    (buf : ResponseBuffer)
    → get_elem? r.heap ref ≡ some buf
    → get_elem? (update r ref f).heap ref ≡ some (f buf)
unfolding update
update-found r ref f buf h = ground (arith, h, get_elem?-set_self r.heap ref (f buf) buf h)

pub chunk_data-append :
    (fs : List Frame) (f : Frame) → chunk_data (fs ++ f ∷ []) ≡ chunk_data fs ++ chunk_data (f ∷ [])
chunk_data-append [] f = refl
chunk_data-append (response_chunk rid part ∷ fs) f = ap (◌∷◌ part) (chunk_data-append fs f)
chunk_data-append (response_headers rid status headers ∷ fs) f = chunk_data-append fs f
chunk_data-append (response_end rid ∷ fs) f = chunk_data-append fs f
chunk_data-append (response_error rid code message ∷ fs) f = chunk_data-append fs f

fed-Holds :
    (part : Bytes) (r : ResponseIdExtractor × Option String) (s : Relay) (chunks : List Bytes)
    → IsNonEmpty part
    → All IsNonEmpty s.writer.preroll
    → s.writer.buffer ≡ none
    → s.writer.preroll ≡ chunks
    → Holds (fed part r s) (chunks ++ part ∷ [])
unfolding fed create
fed-Holds part (x, none) s chunks h p b e = record {
  extractor = x;
  armed = refl;
  preroll = All-append IsNonEmpty s.writer.preroll (part ∷ []) p (h, tt);
  held =
      subst (Held (fed part (x, none) s) (chunks ++ part ∷ [])) (sym b)
        (ap (λ l. l ++ part ∷ []) e);
}
fed-Holds part (x, some rid) s chunks h p b e = record {
  extractor = x;
  armed = refl;
  preroll = tt;
  held =
      let made = create s.registry rid s.writer.status s.writer.headers in
      let buf : ResponseBuffer = new_buffer rid s.writer.status s.writer.headers in
      let first =
        update-found made.0 made.1 (append_all s.writer.preroll) buf
          (get_elem?-append_last s.registry.heap buf) in
      (
        append (append_all s.writer.preroll buf) part,
        update-found (update made.0 made.1 (append_all s.writer.preroll)) made.1
            (λ c. append c part) (append_all s.writer.preroll buf) first,
        append-chunks (append_all s.writer.preroll buf) part h
            ∙ ap (λ l. l ++ part ∷ []) (append_all-chunks s.writer.preroll buf p ∙ e),
      );
}

buffered-Holds :
    (loads : Bytes → Option Json) (part : Bytes) (s : Relay) (chunks : List Bytes) (b : Option ℕ)
    → (m : Holds s chunks) → IsNonEmpty part
    → s.writer.buffer ≡ b
    → Held s chunks b
    → Holds (buffered loads part (some m.extractor) b s) (chunks ++ part ∷ [])
unfolding buffered
buffered-Holds loads part s chunks none m h e k =
    fed-Holds part (feed (try_extract_response_id loads) m.extractor part) s chunks h m.preroll e k
buffered-Holds loads part s chunks (some ref) m h e (buf, found, same) =
    let s' = buffered loads part (some m.extractor) (some ref) s in
    record {
      extractor = m.extractor;
      armed = m.armed;
      preroll = m.preroll;
      held = subst (Held s' (chunks ++ part ∷ [])) (sym e) (
        append buf part,
        update-found s.registry ref (λ c. append c part) buf found,
        append-chunks buf part h ∙ ap (λ l. l ++ part ∷ []) same,
      );
    }

-- Appending a part adds it to what is held.
pub append_buffer-Holds :
    (loads : Bytes → Option Json) (part : Bytes) (s : Relay) (chunks : List Bytes)
    → IsNonEmpty part
    → Holds s chunks
    → Holds (append_buffer loads part s) (chunks ++ part ∷ [])
unfolding append_buffer
append_buffer-Holds loads part s chunks h m =
    subst (λ x. Holds (buffered loads part x s.writer.buffer s) (chunks ++ part ∷ [])) (sym m.armed)
      (buffered-Holds loads part s chunks s.writer.buffer m h refl m.held)

fed-sent :
    (part : Bytes) (r : ResponseIdExtractor × Option String) (s : Relay)
    → (fed part r s).sent ≡ s.sent
unfolding fed
fed-sent part (x, none) s = refl
fed-sent part (x, some rid) s = refl

buffered-sent :
    (loads : Bytes → Option Json) (part : Bytes) (x : Option ResponseIdExtractor) (b : Option ℕ)
    (s : Relay)
    → (buffered loads part x b s).sent ≡ s.sent
unfolding buffered
buffered-sent loads part none b s = refl
buffered-sent loads part (some x) (some ref) s = refl
buffered-sent loads part (some x) none s =
    fed-sent part (feed (try_extract_response_id loads) x part) s

-- Appending to the buffer sends nothing.
pub append_buffer-sent :
    (loads : Bytes → Option Json) (part : Bytes) (s : Relay)
    → (append_buffer loads part s).sent ≡ s.sent
unfolding append_buffer
append_buffer-sent loads part s = buffered-sent loads part s.writer.extractor s.writer.buffer s
