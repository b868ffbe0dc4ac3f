-- ===== src/Relay/Resume/Exact.antt =====
-- What a reader that resumes a response (`_run_resume` of src/hermes_vylen_gateway/relay.py) has sent,
-- over all interleavings.
use hermes_vylen_gateway.Prelude.{
  ℕ, ◌+◌, ◌≡◌, refl, ap, sym, subst, ◌∙◌, inl, inr, Bool, true, false, List, [], ◌∷◌, ◌++◌, String,
  length, drop, ltb, Bool-cases, drop-longer, append_assoc,
}
use hermes_vylen_gateway.ResponseBuffer.{ResponseBuffer, Bytes, append, finalize}
use hermes_vylen_gateway.Relay.Frames.{Frame, response_end}
use hermes_vylen_gateway.Relay.Resume.{
  Phase, starting, looping, sending, ending, waiting, finished, raised, Reader, resume_step, wake,
  step_phase, after_pending, sends, new_reader,
}
use hermes_vylen_gateway.Relay.Resume.System.{
  System, Step, run, appends, finalizes, other, Reach, here, next, frames, PhaseOk, Follows,
}
use hermes_vylen_gateway.Relay.Resume.Reading.{Served-longer, Served-all, run-Follows}

-- A chunk that comes while the reader is in some phase.
append-PhaseOk :
    (after b : ℕ) (bs : Bytes) (buf : ResponseBuffer) (t : Reader) (sent : List Frame) (p : Phase)
    → buf.complete ≡ false
    → PhaseOk after buf t sent p
    → (let t' : Reader = record t { phase = p } in
        PhaseOk after (append buf (b ∷ bs)) (wake t') sent (wake t').phase)
unfolding append wake
append-PhaseOk after b bs buf t sent starting o h = h
append-PhaseOk after b bs buf t sent looping o (d, e, s) =
    (d, e, Served-longer after buf.chunks d t.cursor (b ∷ bs) s)
append-PhaseOk after b bs buf t sent (sending pending n) o (d, at, e, s, k, (rest, r)) =
    let (more, m, x) = drop-longer after at d buf.chunks (b ∷ bs) s.order s.exact s.place in
    (
      d,
      at,
      e,
      Served-longer after buf.chunks d at (b ∷ bs) s,
      k,
      (rest ++ more, m ∙ ap (λ l. l ++ more) r ∙ append_assoc pending rest more),
    )
append-PhaseOk after b bs buf t sent ending o h = absurd (cc (o, h.1))
append-PhaseOk after b bs buf t sent waiting o (d, e, s, l, _) =
    (d, e, Served-longer after buf.chunks d t.cursor (b ∷ bs) s)
append-PhaseOk after b bs buf t sent finished o h = absurd (cc (o, h.1))
append-PhaseOk after b bs buf t sent raised o h = tt

finalize-PhaseOk :
    (after now : ℕ) (buf : ResponseBuffer) (t : Reader) (sent : List Frame) (p : Phase)
    → PhaseOk after buf t sent p
    → (let t' : Reader = record t { phase = p } in
        PhaseOk after (finalize buf now) (wake t') sent (wake t').phase)
unfolding finalize wake
finalize-PhaseOk after now buf t sent starting h = h
finalize-PhaseOk after now buf t sent looping h = h
finalize-PhaseOk after now buf t sent (sending pending n) h = h
finalize-PhaseOk after now buf t sent ending (e, c) = (e, refl)
finalize-PhaseOk after now buf t sent waiting (d, e, s, l, o) = (d, e, s)
finalize-PhaseOk after now buf t sent finished (e, c) = (e, refl)
finalize-PhaseOk after now buf t sent raised h = tt

-- Another reader leaves the chunks, the headers and the end as they are; it may clear `progressed`.
abbrev Cleared : ResponseBuffer → ResponseBuffer → Type 0
Cleared buf buf' = (p : Bool) × (buf' ≡ record buf { progressed = p })

after_pending-Cleared :
    (buf : ResponseBuffer) (t : Reader) → Cleared buf (after_pending buf t).buffer
unfolding after_pending
after_pending-Cleared buf t = elim (Bool-cases (ltb t.cursor (length buf.chunks))) [
  | inl more ↦ (buf.progressed, rw more refl)
  | inr all ↦ elim (Bool-cases buf.complete) [
    | inl complete ↦ (buf.progressed, rw (all, complete) refl)
    | inr open_ ↦ (false, rw (all, open_) refl)
  ]
]

step_phase-Cleared :
    (delivers : Bool) (buf : ResponseBuffer) (t : Reader) (p : Phase)
    → Cleared buf (step_phase delivers buf t p).buffer
unfolding sends after_pending
step_phase-Cleared true buf t starting = (buf.progressed, refl)
step_phase-Cleared false buf t starting = (buf.progressed, refl)
step_phase-Cleared delivers buf t looping = (buf.progressed, refl)
step_phase-Cleared true buf t (sending (c ∷ cs) n) = (buf.progressed, refl)
step_phase-Cleared false buf t (sending (c ∷ cs) n) = (buf.progressed, refl)
step_phase-Cleared delivers buf t (sending [] n) =
    after_pending-Cleared buf (record t { cursor = t.cursor + n })
step_phase-Cleared true buf t ending = (buf.progressed, refl)
step_phase-Cleared false buf t ending = (buf.progressed, refl)
step_phase-Cleared delivers buf t waiting = (buf.progressed, refl)
step_phase-Cleared delivers buf t finished = (buf.progressed, refl)
step_phase-Cleared delivers buf t raised = (buf.progressed, refl)

cleared-PhaseOk :
    (after : ℕ) (buf : ResponseBuffer) (b : Bool) (t : Reader) (sent : List Frame) (p : Phase)
    → PhaseOk after buf t sent p
    → PhaseOk after (record buf { progressed = b }) t sent p
cleared-PhaseOk after buf b t sent starting h = h
cleared-PhaseOk after buf b t sent looping h = h
cleared-PhaseOk after buf b t sent (sending pending n) h = h
cleared-PhaseOk after buf b t sent ending h = h
cleared-PhaseOk after buf b t sent waiting h = h
cleared-PhaseOk after buf b t sent finished h = h
cleared-PhaseOk after buf b t sent raised h = h

Step-Follows : (after : ℕ) (s u : System) → Step s u → Follows after s → Follows after u
unfolding resume_step
Step-Follows after s u (run delivers e) f =
    subst (Follows after) (sym e) (run-Follows after s delivers f)
Step-Follows after s u (appends b bs o e) f =
    subst (Follows after) (sym e)
      (append-PhaseOk after b bs s.buffer s.reader s.sent s.reader.phase o f)
Step-Follows after s u (finalizes now e) f =
    subst (Follows after) (sym e)
      (finalize-PhaseOk after now s.buffer s.reader s.sent s.reader.phase f)
Step-Follows after s u (other delivers t e) f =
    let (p, c) = step_phase-Cleared delivers s.buffer t t.phase in
    subst (Follows after) (sym (e ∙ ap (λ b. record s { buffer = b }) c))
      (cleared-PhaseOk after s.buffer p s.reader s.sent s.reader.phase f)

abbrev pub start : ResponseBuffer → String → ℕ → System
start buf request_id after = record {
  buffer = buf;
  reader = new_reader request_id after;
  sent = [];
}

Reach-Follows : (after : ℕ) {s u : System} → Follows after s → Reach s u → Follows after u
Reach-Follows after f here = f
Reach-Follows after f (next r st) = Step-Follows after _ _ st (Reach-Follows after f r)

module _ (buf : ResponseBuffer) (request_id : String) (after : ℕ) {u : System}
    (r : Reach (start buf request_id after) u) where
  reached : Follows after u
  reached = Reach-Follows after (refl, refl) r

  -- A reader that is done has sent the headers of the buffer, then each chunk behind `after` once and
  -- in order, then the end frame, and the buffer was complete.
  pub finished-exact :
      u.reader.phase ≡ finished
      → (u.sent
          ≡ frames u.reader.request_id u.buffer (drop after u.buffer.chunks)
            ++ response_end u.reader.request_id ∷ [])
        × (u.buffer.complete ≡ true)
  finished-exact p = subst (PhaseOk after u.buffer u.reader u.sent) p reached

  -- No wake-up is lost: a reader that waits has sent the headers and every chunk behind `after` that
  -- there is, once and in order and without an end frame, and the buffer is not complete.
  pub waiting-exact :
      u.reader.phase ≡ waiting
      → (u.sent ≡ frames u.reader.request_id u.buffer (drop after u.buffer.chunks))
        × (u.buffer.complete ≡ false)
  waiting-exact p =
      let (d, e, s, l, o) = subst (PhaseOk after u.buffer u.reader u.sent) p reached in
      (
        e
            ∙ ap (frames u.reader.request_id u.buffer)
                (Served-all after u.buffer.chunks d u.reader.cursor l s),
        o,
      )
