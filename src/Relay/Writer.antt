-- ===== src/Relay/Writer.antt =====
-- `_FrameStreamWriter` and `_abandon_buffer` of src/hermes_vylen_gateway/relay.py. `delivers n` says
-- whether the n-th send of the process gets through; a send that does not raises, and so ends the
-- method that makes it.
use hermes_vylen_gateway.Prelude.{
  ℕ, ◌+◌, String, Bool, true, false, List, [], ◌∷◌, ◌++◌, Option, none, some, get_elem?,
  if◌then◌else◌,
}
use hermes_vylen_gateway.ResponseBuffer.{
  Bytes, Headers, ResponseBuffer, ResponseBufferRegistry, append, finalize, create, drop_buffer,
  update,
}
use hermes_vylen_gateway.ResponseBuffer.Extractor.{
  Json, ResponseIdExtractor, try_extract_response_id, feed,
}
use hermes_vylen_gateway.Relay.Frames.{
  Frame, response_headers, response_chunk, response_end, parts, filter_response_headers,
}

pub record FrameStreamWriter : Type 0 where
  pub request_id : String
  -- `none` if there is no registry
  pub extractor : Option ResponseIdExtractor
  pub preroll : List Bytes
  pub buffer : Option ℕ
  pub headers : Headers
  pub status : ℕ
  pub sent_headers : Bool
  pub finished : Bool
  -- the version of `_ProgressTracker`
  pub progress : ℕ

-- The socket, the registry, and one writer.
pub record Relay : Type 0 where
  pub sent : List Frame
  pub attempts : ℕ
  pub registry : ResponseBufferRegistry
  pub writer : FrameStreamWriter

-- What a method leaves, and whether it returned (`false`: it raised).
abbrev pub Method : Type 0
Method = Relay → Relay × Bool

abbrev pub new_writer : String → Option ResponseIdExtractor → FrameStreamWriter
new_writer request_id extractor = record {
  request_id = request_id;
  extractor = extractor;
  preroll = [];
  buffer = none;
  headers = [];
  status = 0;
  sent_headers = false;
  finished = false;
  progress = 0;
}

abbrev pub continue : Method → Relay × Bool → Relay × Bool
continue n (s, true) = n s
continue n (s, false) = (s, false)

infixl 5 ◌>>◌
abbrev pub ◌>>◌ : Method → Method → Method
◌>>◌ m n s = continue n (m s)

abbrev pub pass : Method
pass s = (s, true)

unfoldable pub mark : Method
mark s = (record s { writer = record s.writer { progress = s.writer.progress + 1 } }, true)

module _ (delivers : ℕ → Bool) where
  unfoldable pub send : Frame → Method
  send frame s =
      if delivers s.attempts
      then (record s { sent = s.sent ++ frame ∷ []; attempts = s.attempts + 1 }, true)
      else (record s { attempts = s.attempts + 1 }, false)

unfoldable pub append_all : List Bytes → ResponseBuffer → ResponseBuffer
unfolding append
append_all [] buf = buf
append_all (c ∷ cs) buf = append_all cs (append buf c)

-- `feed` has returned the id, or nothing
unfoldable pub fed : Bytes → ResponseIdExtractor × Option String → Relay → Relay
fed chunk (x, none) s = record s {
  writer = record s.writer { extractor = some x; preroll = s.writer.preroll ++ chunk ∷ [] };
}
fed chunk (x, some rid) s =
    let (r, ref) = create s.registry rid s.writer.status s.writer.headers in
    record s {
      registry = update (update r ref (append_all s.writer.preroll)) ref (λ buf. append buf chunk);
      writer = record s.writer { extractor = some x; buffer = some ref; preroll = [] };
    }

module _ (loads : Bytes → Option Json) where
  -- `_append_buffer`, on the extractor and the buffer of the writer
  unfoldable pub buffered : Bytes → Option ResponseIdExtractor → Option ℕ → Relay → Relay
  unfolding append_all fed
  buffered chunk none b s = s
  buffered chunk (some x) (some ref) s = record s {
    registry = update s.registry ref (λ buf. append buf chunk);
  }
  buffered chunk (some x) none s = fed chunk (feed (try_extract_response_id loads) x chunk) s

  unfoldable pub append_buffer : Bytes → Relay → Relay
  unfolding buffered
  append_buffer chunk s = buffered chunk s.writer.extractor s.writer.buffer s

module _ (delivers : ℕ → Bool) (loads : Bytes → Option Json) (lower : String → String) where
  unfoldable pub send_headers : ℕ → Headers → Method
  unfolding send mark
  send_headers status headers s =
      let kept = filter_response_headers lower headers in
      let s' : Relay = record s {
        writer = record s.writer { sent_headers = true; status = status; headers = kept };
      } in
      if s.writer.sent_headers
      then (s, true)
      else (send delivers (response_headers s.writer.request_id status kept) >> mark) s'

  unfoldable pub send_part : Bytes → Method
  unfolding send mark append_buffer
  send_part part s =
      (send delivers (response_chunk s.writer.request_id part) >> mark) (append_buffer loads part s)

  unfoldable pub send_parts : List Bytes → Method
  send_parts [] = pass
  send_parts (p ∷ ps) = send_part p >> send_parts ps

  unfoldable pub ensure_headers : ℕ → Method
  unfolding send_headers
  ensure_headers status s = if s.writer.sent_headers then (s, true) else send_headers status [] s

  unfoldable pub send_chunk : Bytes → Method
  unfolding ensure_headers send_parts
  send_chunk [] = pass
  send_chunk (b ∷ bs) = ensure_headers 200 >> send_parts (parts (b ∷ bs))

  unfoldable pub finalize_buffer : ℕ → Method
  finalize_buffer now s = elim s.writer.buffer [
    | none ↦ (s, true)
    | some ref ↦ (record s { registry = update s.registry ref (λ buf. finalize buf now) }, true)
  ]

  unfoldable pub send_end : Method
  unfolding send mark
  send_end s = (send delivers (response_end s.writer.request_id) >> mark) s

  unfoldable pub finish : ℕ → Method
  unfolding ensure_headers finalize_buffer send_end
  finish now s =
      if s.writer.finished
      then (s, true)
      else (ensure_headers 204 >> finalize_buffer now >> send_end)
          (record s { writer = record s.writer { finished = true } })

-- `_abandon_buffer`, on the object behind the reference
unfoldable pub abandon_object :
    Option ResponseBuffer → ℕ → ResponseBufferRegistry → ℕ → ResponseBufferRegistry
abandon_object none ref r now = r
abandon_object (some buf) ref r now =
    drop_buffer (update r ref (λ b. finalize b now)) buf.response_id

unfoldable pub abandon_buffer : Option ℕ → ResponseBufferRegistry → ℕ → ResponseBufferRegistry
unfolding abandon_object
abandon_buffer none r now = r
abandon_buffer (some ref) r now = abandon_object (get_elem? r.heap ref) ref r now

unfoldable pub abandon : ℕ → Relay → Relay
unfolding abandon_buffer
abandon now s = if s.writer.finished then s else record s {
  registry = abandon_buffer s.writer.buffer s.registry now;
  writer = record s.writer { buffer = none };
}
