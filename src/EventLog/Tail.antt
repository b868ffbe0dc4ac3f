-- ===== src/EventLog/Tail.antt =====
-- `RetainedEventLog.tail_after` of src/hermes_vylen_gateway/event_log.py, an asynchronous
-- generator, as a state machine. A step runs one part of the loop body; between two steps the rest
-- of the program may act on the log, which allows every interleaving that the event loop allows.
pub mod System
pub mod Keeps
pub mod Delivery
pub mod Exact
use hermes_vylen_gateway.Prelude.{
  ℕ, ◌+◌, ◌-◌, Bool, true, false, List, [], ◌∷◌, Option, none, some, ltb, leb, nat_beq, ◌&&◌,
  if◌then◌else◌,
}
use hermes_vylen_gateway.EventLog.Log.{
  RetainedEvent, RetainedEventLog, LogResult, ok, resume_expired, event_too_large, latest_seq,
  floor_seq, replay_after,
}

pub data Phase (V : Type 0) : Type 0 where
  -- before the first step
  starting : Phase V
  -- at the head of `while True`
  looping : Phase V
  -- in the `for` loop: the events that are left of the replay, and `version`
  draining : List (RetainedEvent V) → ℕ → Phase V
  -- in `await self._progressed.wait()`, without a keepalive
  waiting : Phase V
  -- with a keepalive: `wait_for` has made a task of the wait, which has not begun
  scheduled : Phase V
  -- with a keepalive: that task waits
  waiting_for : Phase V
  finished : Phase V
  -- the generator has raised `ResumeExpired(floor_seq, latest_seq)`
  expired : ℕ → ℕ → Phase V

pub record Tailer (V : Type 0) : Type 0 where
  pub reject_future_cursor : Bool
  -- whether keepalive_seconds is given
  pub keepalive : Bool
  pub cursor : ℕ
  pub phase : Phase V

pub record TailStep (V : Type 0) : Type 0 where
  pub log : RetainedEventLog V
  pub tailer : Tailer V
  pub yielded : Option (RetainedEvent V)

module _ {V : Type 0} where
  abbrev pub tail_after : ℕ → Bool → Bool → Tailer V
  tail_after after_seq reject keepalive = record {
    reject_future_cursor = reject;
    keepalive = keepalive;
    cursor = after_seq;
    phase = starting;
  }

  -- the `finally` clause
  unfoldable pub leave : RetainedEventLog V → RetainedEventLog V
  leave log = record log { tailers = log.tailers - 1 }

  unfoldable pub enter_loop : RetainedEventLog V → Tailer V → TailStep V
  unfolding leave
  enter_loop log t =
      let counted : RetainedEventLog V = record log { tailers = log.tailers + 1 } in
      if t.reject_future_cursor && ltb (latest_seq log) t.cursor
      then record {
        log = leave counted;
        tailer = record t { phase = expired (floor_seq log) (latest_seq log) };
        yielded = none;
      }
      else record { log = counted; tailer = record t { phase = looping }; yielded = none }

  unfoldable pub replayed :
      ℕ → Tailer V → RetainedEventLog V → LogResult (List (RetainedEvent V)) → TailStep V
  unfolding leave
  replayed version t log (ok events) = record {
    log = log;
    tailer = record t { phase = draining events version };
    yielded = none;
  }
  replayed version t log (resume_expired f l) = record {
    log = leave log;
    tailer = record t { phase = expired f l };
    yielded = none;
  }
  -- `replay_after` never raises this one
  replayed version t log (event_too_large s m) = record {
    log = leave log;
    tailer = record t { phase = finished };
    yielded = none;
  }

  -- `wait_for` of Python 3.10 and 3.11 runs the wait as a task, which begins later; that of 3.12
  -- awaits it, which is the same with no step of another task in between.
  abbrev pub wait_phase : Bool → Phase V
  wait_phase keepalive = if keepalive then scheduled else waiting

  -- the task of `wait_for` begins: an event that is set does not wait
  abbrev pub begun : Bool → Phase V
  begun progressed = if progressed then looping else waiting_for

  -- the part of the body behind the `for` loop
  unfoldable pub drained : RetainedEventLog V → Tailer V → ℕ → TailStep V
  unfolding leave
  drained log t version =
      if log.closed && leb (latest_seq log) t.cursor
      then record { log = leave log; tailer = record t { phase = finished }; yielded = none }
      else record {
        log = record log { progressed = false };
        tailer = record t {
          phase = if nat_beq log.version version then wait_phase t.keepalive else looping;
        };
        yielded = none;
      }

  abbrev pub step_phase : RetainedEventLog V → Tailer V → ℕ → Phase V → TailStep V
  step_phase log t ts starting = enter_loop log t
  step_phase log t ts looping =
      let (log', result) = replay_after log t.cursor ts in replayed log.version t log' result
  step_phase log t ts (draining (e ∷ es) version) = record {
    log = log;
    tailer = record t { cursor = e.seq; phase = draining es version };
    yielded = some e;
  }
  step_phase log t ts (draining [] version) = drained log t version
  step_phase log t ts waiting = record { log = log; tailer = t; yielded = none }
  step_phase log t ts scheduled = record {
    log = log;
    tailer = record t { phase = begun log.progressed };
    yielded = none;
  }
  step_phase log t ts waiting_for = record { log = log; tailer = t; yielded = none }
  step_phase log t ts finished = record { log = log; tailer = t; yielded = none }
  step_phase log t ts (expired f l) = record { log = log; tailer = t; yielded = none }

  -- The generator runs on, at the time ts of a clock read. Only `wake` and `time_out` end a wait.
  unfoldable pub tail_step : RetainedEventLog V → Tailer V → ℕ → TailStep V
  unfolding enter_loop replayed drained
  tail_step log t ts = step_phase log t ts t.phase

  abbrev pub woken : Phase V → Phase V
  woken waiting = looping
  woken waiting_for = looping
  woken p = p

  -- `self._progressed.set()` resumes each waiting tailer.
  unfoldable pub wake : Tailer V → Tailer V
  wake t = record t { phase = woken t.phase }

  abbrev pub timed_out : Phase V → Phase V
  timed_out scheduled = looping
  timed_out waiting_for = looping
  timed_out p = p

  -- The keepalive timeout ends a wait with a keepalive.
  unfoldable pub time_out : Tailer V → Tailer V
  time_out t = record t { phase = timed_out t.phase }
