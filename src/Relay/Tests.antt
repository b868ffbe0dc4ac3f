-- ===== src/Relay/Tests.antt =====
-- Runs and instances for src/hermes_vylen_gateway/relay.py.
use hermes_vylen_gateway.Prelude.{
  ◌≡◌, refl, true, false, [], ◌∷◌, ◌++◌, Option, none, some, drop, string_eq, nat_beq,
}
use hermes_vylen_gateway.ResponseBuffer.{
  Bytes, ResponseBuffer, ResponseBufferRegistry, finalize, new_buffer,
}
use hermes_vylen_gateway.ResponseBuffer.Extractor.{Json, new_extractor}
use hermes_vylen_gateway.Relay.Frames.{response_end}
use hermes_vylen_gateway.Relay.Writer.{Relay, new_writer, send_chunk}
use hermes_vylen_gateway.Relay.Mirror.{Holds}
use hermes_vylen_gateway.Relay.Mirror.Stream.{Mirrored, send_chunk-Mirrored}
use hermes_vylen_gateway.Relay.Resume.{waiting, finished, resume_step, wake, sends, after_pending}
use hermes_vylen_gateway.Relay.Resume.System.{
  System, run_reader, run, finalizes, Reach, here, next, frames,
}
use hermes_vylen_gateway.Relay.Resume.Exact.{start, finished-exact, waiting-exact}

abbrev empty : ResponseBufferRegistry
empty = record { heap = []; buffers = []; grace_seconds = 300; max_bytes = 1000 }

abbrev relay : Relay
relay = record {
  sent = [];
  attempts = 0;
  registry = empty;
  writer = new_writer "q1" (some new_extractor);
}

abbrev relay-Holds : Holds relay []
relay-Holds = record { extractor = new_extractor; armed = refl; preroll = tt; held = refl }

abbrev no_json : Bytes → Option Json
no_json bytes = none

-- The second send fails, which is that of the chunk.
send_chunk-Mirrored_example :
    Mirrored (7 ∷ 8 ∷ []) [] (send_chunk (λ n. nat_beq n 0) no_json (λ s. s) (7 ∷ 8 ∷ []) relay)
send_chunk-Mirrored_example =
    send_chunk-Mirrored (λ n. nat_beq n 0) no_json (λ s. s) (7 ∷ 8 ∷ []) relay relay-Holds

abbrev buf : ResponseBuffer
buf = record (new_buffer "r1" 200 []) { chunks = (7 ∷ []) ∷ []; total_bytes = 1 }

abbrev streaming : Relay
streaming = record relay {
  registry = record empty { heap = buf ∷ []; buffers = ("r1", 0) ∷ [] };
  writer = record (new_writer "q1" (some new_extractor)) { buffer = some 0 };
}

-- A reader sends the chunk, waits, and ends when the buffer is finalized.
abbrev s0 : System
s0 = start buf "q2" 0

abbrev ran : System → System
ran s = run_reader s true

abbrev s4 : System
s4 = ran (ran (ran (ran s0)))

abbrev s5 : System
s5 = record s4 { buffer = finalize s4.buffer 9; reader = wake s4.reader }

abbrev s8 : System
s8 = ran (ran (ran s5))

program : Unit {0}
unfolding run_reader resume_step sends after_pending finalize wake
program = tt

s4-Reach : Reach s0 s4
s4-Reach =
    next (next (next (next here (run true refl)) (run true refl)) (run true refl)) (run true refl)

s4-waiting : s4.reader.phase ≡ waiting
unfolding program
s4-waiting = refl

s8-Reach : Reach s0 s8
s8-Reach =
    next (next (next (next s4-Reach (finalizes 9 refl)) (run true refl)) (run true refl))
      (run true refl)

s8-finished : s8.reader.phase ≡ finished
unfolding program
s8-finished = refl

waiting-exact_example :
    (s4.sent ≡ frames s4.reader.request_id s4.buffer (drop 0 s4.buffer.chunks))
    × (s4.buffer.complete ≡ false)
waiting-exact_example = waiting-exact buf "q2" 0 s4-Reach s4-waiting

finished-exact_example :
    (s8.sent
      ≡ frames s8.reader.request_id s8.buffer (drop 0 s8.buffer.chunks)
        ++ response_end s8.reader.request_id ∷ [])
    × (s8.buffer.complete ≡ true)
finished-exact_example = finished-exact buf "q2" 0 s8-Reach s8-finished
