-- ===== src/Relay/Resume.antt =====
-- `HermesRelay._run_resume` of src/hermes_vylen_gateway/relay.py as a state machine on the buffer that
-- it reads. A step runs the code up to and with the next send, or up to the next jump; `delivers` says
-- whether the send of the step, if it makes one, gets through. Between two steps the writer of the
-- buffer and its other readers may act.
pub mod System
pub mod Reading
pub mod Exact
use hermes_vylen_gateway.Prelude.{
  ℕ, ◌+◌, String, Bool, true, false, List, [], ◌∷◌, Option, none, some, ltb, get_elem?, length,
  ◌||◌, ◌==◌, string_eq, if◌then◌else◌,
}
use hermes_vylen_gateway.ResponseBuffer.{
  Bytes, ResponseBuffer, ResponseBufferRegistry, get, cursor, slice_from,
}
use hermes_vylen_gateway.Relay.Frames.{
  Frame, response_headers, response_chunk, response_end, response_error,
}

pub data Phase : Type 0 where
  -- before the headers frame
  starting : Phase
  -- at the head of `while True`
  looping : Phase
  -- in the `for` loop: the chunks that are left of `pending`, and the length of `pending`
  sending : List Bytes → ℕ → Phase
  -- about to send the end frame
  ending : Phase
  -- in `await buf.progressed.wait()`
  waiting : Phase
  finished : Phase
  -- a send has raised
  raised : Phase

pub record Reader : Type 0 where
  pub request_id : String
  pub cursor : ℕ
  pub phase : Phase

pub record ResumeStep : Type 0 where
  pub buffer : ResponseBuffer
  pub reader : Reader
  pub frame : Option Frame

-- The frame, and the phase behind it, if the send gets through.
unfoldable pub sends : Bool → ResponseBuffer → Reader → Frame → Phase → ResumeStep
sends true buf t frame phase = record {
  buffer = buf;
  reader = record t { phase = phase };
  frame = some frame;
}
sends false buf t frame phase = record {
  buffer = buf;
  reader = record t { phase = raised };
  frame = none;
}

abbrev pub goes : ResponseBuffer → Reader → Phase → ResumeStep
goes buf t phase = record { buffer = buf; reader = record t { phase = phase }; frame = none }

-- the part of the loop behind the `for`, which has no await before the end frame or the wait
unfoldable pub after_pending : ResponseBuffer → Reader → ResumeStep
after_pending buf t =
    let cleared : ResponseBuffer = record buf { progressed = false } in
    if ltb t.cursor (cursor buf)
    then goes buf t looping
    else if buf.complete
    then goes buf t ending
    else if ltb t.cursor (cursor cleared) || cleared.complete
    then goes cleared t looping
    else goes cleared t waiting

abbrev pub step_phase : Bool → ResponseBuffer → Reader → Phase → ResumeStep
step_phase delivers buf t starting =
    sends delivers buf t (response_headers t.request_id buf.status buf.headers) looping
step_phase delivers buf t looping =
    let pending = slice_from buf t.cursor in goes buf t (sending pending (length pending))
step_phase delivers buf t (sending (chunk ∷ pending) n) =
    sends delivers buf t (response_chunk t.request_id chunk) (sending pending n)
step_phase delivers buf t (sending [] n) = after_pending buf (record t { cursor = t.cursor + n })
step_phase delivers buf t ending = sends delivers buf t (response_end t.request_id) finished
step_phase delivers buf t waiting = goes buf t waiting
step_phase delivers buf t finished = goes buf t finished
step_phase delivers buf t raised = goes buf t raised

unfoldable pub resume_step : Bool → ResponseBuffer → Reader → ResumeStep
unfolding sends after_pending
resume_step delivers buf t = step_phase delivers buf t t.phase

abbrev pub woken : Phase → Phase
woken waiting = looping
woken p = p

-- `progressed.set()` resumes each waiting reader.
unfoldable pub wake : Reader → Reader
wake t = record t { phase = woken t.phase }

abbrev pub new_reader : String → ℕ → Reader
new_reader request_id after_cursor = record {
  request_id = request_id;
  cursor = after_cursor;
  phase = starting;
}

-- What `_run_resume` begins with: the error frame that it sends, or the buffer that it reads.
pub data ResumeStart : Type 0 where
  miss : Frame → ResumeStart
  hit : ℕ → Reader → ResumeStart

-- `unknown response_id` stands for the text of the second message.
unfoldable pub begin_resume :
    (String → String) → Option ResponseBufferRegistry → String → String → ℕ → ResumeStart
begin_resume unknown none request_id response_id after_cursor =
    miss (response_error request_id "RESUME_UNKNOWN" "no buffer for this response")
begin_resume unknown (some registry) request_id response_id after_cursor =
    if response_id == ""
    then miss (response_error request_id "RESUME_UNKNOWN" "no buffer for this response")
    else elim (get registry response_id) [
      | none ↦ miss (response_error request_id "RESUME_UNKNOWN" (unknown response_id))
      | some ref ↦ hit ref (new_reader request_id after_cursor)
    ]
