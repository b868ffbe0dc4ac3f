-- ===== src/EventLog/Tail/System.antt =====
-- A log with one subscriber (`tail_after` of src/hermes_vylen_gateway/event_log.py), its appenders and
-- other subscribers, as a step relation.
use hermes_vylen_gateway.Prelude.{
  ℕ, ◌≤◌, ◌≡◌, ◌⊎◌, false, List, [], ◌∷◌, ◌++◌, Option, none, some, String, length, drop,
}
use hermes_vylen_gateway.EventLog.Log.{
  Codec, Payload, RetainedEvent, RetainedEventLog, ok, append, close,
}
use hermes_vylen_gateway.EventLog.History.{Tracks}
use hermes_vylen_gateway.EventLog.Tail.{Phase, draining, waiting, Tailer, tail_step, wake, time_out}

-- A log, one subscriber, what it has received, and the history of the log.
pub record System (V : Type 0) : Type 0 where
  pub log : RetainedEventLog V
  pub tailer : Tailer V
  pub delivered : List (RetainedEvent V)
  pub history : List (RetainedEvent V)

module _ {V : Type 0} where
  abbrev pub emitted : Option (RetainedEvent V) → List (RetainedEvent V)
  emitted none = []
  emitted (some e) = e ∷ []

  unfoldable pub run_tailer : System V → ℕ → System V
  run_tailer s ts =
      let r = tail_step s.log s.tailer ts in
      record s { log = r.log; tailer = r.tailer; delivered = s.delivered ++ emitted r.yielded }

  module _ (codec : Codec V) where
    pub data Step (s u : System V) : Type 0 where
      -- the subscriber runs on
      run : (ts : ℕ) → u ≡ run_tailer s ts → Step s u
      -- the keepalive timeout ends its wait
      timeout : u ≡ record s { tailer = time_out s.tailer } → Step s u
      -- somebody appends an event
      appends :
          (kind : String) (payload : Payload V) (ts : ℕ) (log' : RetainedEventLog V)
          (e : RetainedEvent V)
          → append codec s.log kind payload ts ≡ ok (log', e)
          → u ≡ record s { log = log'; tailer = wake s.tailer; history = s.history ++ e ∷ [] }
          → Step s u
      closes : (now : ℕ) → u ≡ record s { log = close s.log now; tailer = wake s.tailer } → Step s u
      -- another subscriber of the same log runs on
      other : (t : Tailer V) (ts : ℕ) → u ≡ record s { log = (tail_step s.log t ts).log } → Step s u

    pub data Reach (s : System V) : System V → Type 0 where
      here : Reach s s
      next : {t u : System V} → Reach s t → Step t u → Reach s u

  -- What a phase promises: a subscriber that drains has the next events at hand, all of them unless
  -- the version has moved on, and one that waits has everything.
  abbrev pub PhaseOk : RetainedEventLog V → List (RetainedEvent V) → ℕ → Phase V → Type 0
  PhaseOk log history cursor (draining es version) =
      (rest : List (RetainedEvent V)) × (drop cursor history ≡ es ++ rest)
      × (version ≤ log.version)
      × (log.version ≡ version → rest ≡ [])
  PhaseOk log history cursor waiting = (drop cursor history ≡ []) × (log.closed ≡ false)
  PhaseOk log history cursor _ = Unit

  pub record Follows (after : ℕ) (s : System V) : Type 0 where
    pub tracks : Tracks s.log s.history
    pub order : after ≤ s.tailer.cursor
    pub exact : s.delivered ++ drop s.tailer.cursor s.history ≡ drop after s.history
    pub place :
        (s.tailer.cursor ≤ length s.history) ⊎ ((s.delivered ≡ []) × (s.tailer.cursor ≡ after))
    pub phase_ok : PhaseOk s.log s.history s.tailer.cursor s.tailer.phase
