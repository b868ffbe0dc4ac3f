-- ===== src/EventLog/Tail/Keeps.antt =====
-- A subscriber's step leaves the history, the version and the end of a log as they are.
use hermes_vylen_gateway.Prelude.{
  ℕ, ◌≡◌, refl, ◌∙◌, inl, inr, Bool, List, [], ◌∷◌, ltb, leb, Bool-cases, ◌&&◌,
}
use hermes_vylen_gateway.EventLog.Log.{
  RetainedEvent, RetainedEventLog, LogResult, ok, resume_expired, event_too_large, latest_seq,
  floor_seq, evict, replay_after,
}
use hermes_vylen_gateway.EventLog.History.{Tracks, evict_shape}
use hermes_vylen_gateway.EventLog.Replay.{replay_after-exact}
use hermes_vylen_gateway.EventLog.Tail.{
  Phase, starting, looping, draining, waiting, scheduled, waiting_for, finished, expired, Tailer,
  replayed, step_phase, tail_step,
}

module _ {V : Type 0} where
  -- what a tailer may change of a log without touching what the log retains
  abbrev pub touched : RetainedEventLog V → ℕ → Bool → RetainedEventLog V
  touched log n p = record log { tailers = n; progressed = p }

  abbrev pub KeepsLog : RetainedEventLog V → List (RetainedEvent V) → RetainedEventLog V → Type 0
  KeepsLog log history log' =
      Tracks log' history × (log'.version ≡ log.version) × (log'.closed ≡ log.closed)

  pub touched-Tracks :
      (log : RetainedEventLog V) (n : ℕ) (p : Bool) {history : List (RetainedEvent V)}
      → Tracks log history
      → Tracks (touched log n p) history
  touched-Tracks log n p t = record {
    records = record { numbered = t.numbered; next = t.next; window = t.window; room = t.room };
    few = t.few;
    light = t.light;
  }

  touched-KeepsLog :
      (log : RetainedEventLog V) (n : ℕ) (p : Bool) {history : List (RetainedEvent V)}
      → Tracks log history
      → KeepsLog log history (touched log n p)
  touched-KeepsLog log n p t = (touched-Tracks log n p t, refl, refl)

  pub replay_after-shape :
      (log : RetainedEventLog V) (after ts : ℕ)
      → ((replay_after log after ts).0.version ≡ log.version)
        × ((replay_after log after ts).0.closed ≡ log.closed)
  unfolding replay_after
  replay_after-shape log after ts = elim (Bool-cases (ltb after (floor_seq (evict log ts)))) [
    | inl old ↦ rw old ((evict_shape log ts).4, (evict_shape log ts).3)
    | inr new ↦ rw new ((evict_shape log ts).4, (evict_shape log ts).3)
  ]

  replayed-KeepsLog :
      (version : ℕ) (t : Tailer V) (log : RetainedEventLog V)
      (r : LogResult (List (RetainedEvent V))) {history : List (RetainedEvent V)}
      → Tracks log history
      → KeepsLog log history (replayed version t log r).log
  unfolding replayed
  replayed-KeepsLog version t log (ok es) k = (k, refl, refl)
  replayed-KeepsLog version t log (resume_expired f l) k = touched-KeepsLog log _ _ k
  replayed-KeepsLog version t log (event_too_large f l) k = touched-KeepsLog log _ _ k

  pub step_phase-KeepsLog :
      (log : RetainedEventLog V) (t : Tailer V) (ts : ℕ) (p : Phase V)
      {history : List (RetainedEvent V)}
      → Tracks log history
      → KeepsLog log history (step_phase log t ts p).log
  unfolding tail_step
  step_phase-KeepsLog log t ts starting k =
      elim (Bool-cases (t.reject_future_cursor && ltb (latest_seq log) t.cursor)) [
        | inl out ↦ rw out (touched-KeepsLog log _ _ k)
        | inr fine ↦ rw fine (touched-KeepsLog log _ _ k)
      ]
  step_phase-KeepsLog log t ts looping k =
      let r = replay_after log t.cursor ts in
      let (floor, le, at, result, k') = replay_after-exact log k.records t.cursor ts in
      let s = replay_after-shape log t.cursor ts in
      let j = replayed-KeepsLog log.version t r.0 r.1 k' in (j.0, j.1 ∙ s.0, j.2 ∙ s.1)
  step_phase-KeepsLog log t ts (draining (e ∷ es) version) k = (k, refl, refl)
  step_phase-KeepsLog log t ts (draining [] version) k =
      elim (Bool-cases (log.closed && leb (latest_seq log) t.cursor)) [
        | inl out ↦ rw out (touched-KeepsLog log _ _ k)
        | inr more ↦ rw more (touched-KeepsLog log _ _ k)
      ]
  step_phase-KeepsLog log t ts waiting k = (k, refl, refl)
  step_phase-KeepsLog log t ts scheduled k = (k, refl, refl)
  step_phase-KeepsLog log t ts waiting_for k = (k, refl, refl)
  step_phase-KeepsLog log t ts finished k = (k, refl, refl)
  step_phase-KeepsLog log t ts (expired f l) k = (k, refl, refl)

  -- A step of any subscriber changes neither the history of the log, nor its version or its end.
  pub tail_step-KeepsLog :
      (log : RetainedEventLog V) (t : Tailer V) (ts : ℕ) {history : List (RetainedEvent V)}
      → Tracks log history
      → KeepsLog log history (tail_step log t ts).log
  unfolding tail_step
  tail_step-KeepsLog log t ts k = step_phase-KeepsLog log t ts t.phase k
