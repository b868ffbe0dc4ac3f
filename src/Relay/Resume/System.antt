-- ===== src/Relay/Resume/System.antt =====
-- A buffer with one reader (`_run_resume` of src/hermes_vylen_gateway/relay.py), its writer and its
-- other readers, as a step relation.
use hermes_vylen_gateway.Prelude.{
  ℕ, ◌+◌, ◌≤◌, ◌≡◌, ◌⊎◌, Bool, true, false, List, [], ◌∷◌, ◌++◌, map, Option, none, some, String,
  length, drop,
}
use hermes_vylen_gateway.ResponseBuffer.{ResponseBuffer, Bytes, append, finalize}
use hermes_vylen_gateway.Relay.Frames.{Frame, response_headers, response_chunk, response_end}
use hermes_vylen_gateway.Relay.Resume.{
  Phase, starting, looping, sending, ending, waiting, finished, raised, Reader, resume_step, wake,
}

pub record System : Type 0 where
  pub buffer : ResponseBuffer
  pub reader : Reader
  pub sent : List Frame

abbrev pub emitted : Option Frame → List Frame
emitted none = []
emitted (some f) = f ∷ []

unfoldable pub run_reader : System → Bool → System
run_reader s delivers =
    let r = resume_step delivers s.buffer s.reader in
    record { buffer = r.buffer; reader = r.reader; sent = s.sent ++ emitted r.frame }

pub data Step (s u : System) : Type 0 where
  -- the reader runs on
  run : (delivers : Bool) → u ≡ run_reader s delivers → Step s u
  -- The writer appends a chunk. It does so only until it has finalized the buffer: `finish` and
  -- `abandon` are its last calls.
  appends :
      (b : ℕ) (bs : Bytes)
      → s.buffer.complete ≡ false
      → u ≡ record s { buffer = append s.buffer (b ∷ bs); reader = wake s.reader }
      → Step s u
  -- the writer finalizes the buffer
  finalizes :
      (now : ℕ) → u ≡ record s { buffer = finalize s.buffer now; reader = wake s.reader } → Step s u
  -- another reader of the same buffer runs on
  other :
      (delivers : Bool) (t : Reader)
      → u ≡ record s { buffer = (resume_step delivers s.buffer t).buffer }
      → Step s u

pub data Reach (s : System) : System → Type 0 where
  here : Reach s s
  next : {t u : System} → Reach s t → Step t u → Reach s u

-- The headers frame, and a chunk frame for each of the chunks.
abbrev pub frames : String → ResponseBuffer → List Bytes → List Frame
frames rid buf chunks =
    response_headers rid buf.status buf.headers ∷ map (response_chunk rid) chunks

-- A reader that started at `after`, has sent the chunks `delivered` and goes on at `at`.
pub record Served (after : ℕ) (chunks : List Bytes) (delivered : List Bytes) (at : ℕ) : Type 0 where
  pub order : after ≤ at
  pub exact : delivered ++ drop at chunks ≡ drop after chunks
  pub place : (at ≤ length chunks) ⊎ ((delivered ≡ []) × (at ≡ after))

-- What holds of the frames sent and of the buffer in each phase.
abbrev pub PhaseOk : ℕ → ResponseBuffer → Reader → List Frame → Phase → Type 0
PhaseOk after buf t sent starting = (sent ≡ []) × (t.cursor ≡ after)
PhaseOk after buf t sent looping =
    (d : List Bytes) × (sent ≡ frames t.request_id buf d) × Served after buf.chunks d t.cursor
PhaseOk after buf t sent (sending pending n) =
    (d : List Bytes) × (at : ℕ) × (sent ≡ frames t.request_id buf d)
    × Served after buf.chunks d at
    × (at + length pending ≡ t.cursor + n)
    × ((rest : List Bytes) × (drop at buf.chunks ≡ pending ++ rest))
PhaseOk after buf t sent ending =
    (sent ≡ frames t.request_id buf (drop after buf.chunks)) × (buf.complete ≡ true)
PhaseOk after buf t sent waiting =
    (d : List Bytes) × (sent ≡ frames t.request_id buf d)
    × Served after buf.chunks d t.cursor
    × (length buf.chunks ≤ t.cursor)
    × (buf.complete ≡ false)
PhaseOk after buf t sent finished =
    (sent ≡ frames t.request_id buf (drop after buf.chunks) ++ response_end t.request_id ∷ [])
    × (buf.complete ≡ true)
PhaseOk after buf t sent raised = Unit

abbrev pub Follows : ℕ → System → Type 0
Follows after s = PhaseOk after s.buffer s.reader s.sent s.reader.phase
