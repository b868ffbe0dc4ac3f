-- ===== src/ChatStore/Tail.antt =====
-- `ChatStateLog` of src/hermes_vylen_gateway/chat_store.py, with `tail_after`, an asynchronous generator,
-- as a state machine. A step runs the code from one await, or yield, to the next. Between two steps
-- the rest of the program may act on the store and on the log. The two numbers that
-- `reject_future_cursor` needs are read at once, and the only caller gives no keepalive.
pub mod Exact
use hermes_vylen_gateway.Prelude.{
  ℕ, suc, ◌+◌, ◌-◌, Bool, true, false, List, [], ◌∷◌, Option, none, some, ltb, leb, ◌==◌, nat_eq,
  ◌&&◌, if◌then◌else◌,
}
use hermes_vylen_gateway.Prelude.Text.{Text}
use hermes_vylen_gateway.ChatStore.Texts.{Json}
use hermes_vylen_gateway.ChatStore.Store.{
  Calendar, ChatStateLog, ChatStateStore, RetainedEvent, StoreError, resume_expired, Answer, ok,
  raised, bumped,
}
use hermes_vylen_gateway.ChatStore.Reads.{latest_seq, floor_seq, replay_after}

pub data Phase (V : Type 0) : Type 0 where
  -- before the first step
  starting : Phase V
  -- in the await of `reject_future_cursor`
  opening : Phase V
  -- at the head of `while True`
  looping : Phase V
  -- in the await of `replay_after`, with `version`
  reading : ℕ → Phase V
  -- in the `for` loop: the events that are left, and `version`
  draining : List (RetainedEvent V) → ℕ → Phase V
  -- in the await of `latest_seq` behind it
  checking : ℕ → Phase V
  -- in `self._progressed.wait()`
  waiting : Phase V
  finished : Phase V
  failed : StoreError → Phase V

pub record Tailer (V : Type 0) : Type 0 where
  pub key : Text
  pub reject_future_cursor : Bool
  pub cursor : ℕ
  pub phase : Phase V

pub record TailStep (V : Type 0) : Type 0 where
  pub log : ChatStateLog
  pub tailer : Tailer V
  pub yielded : Option (RetainedEvent V)

-- `ChatStateLog.close`
unfoldable pub close_log : ChatStateLog → ChatStateLog
close_log log = bumped (record log { closed = true })

module _ {V : Type 0} where
  abbrev pub tail_after : Text → ℕ → Bool → Tailer V
  tail_after key after_seq reject = record {
    key = key;
    reject_future_cursor = reject;
    cursor = after_seq;
    phase = starting;
  }

  abbrev pub goes : ChatStateLog → Tailer V → Phase V → TailStep V
  goes log t phase = record { log = log; tailer = record t { phase = phase }; yielded = none }

  -- out of the generator, through the `finally` clause
  abbrev pub leaves : ChatStateLog → Tailer V → Phase V → TailStep V
  leaves log t phase = goes (record log { tailers = log.tailers - 1 }) t phase

  abbrev pub opened : ChatStateLog → Tailer V → Answer ℕ → Answer ℕ → TailStep V
  opened log t (raised e) floor = leaves log t (failed e)
  opened log t (ok latest) (raised e) = leaves log t (failed e)
  opened log t (ok latest) (ok floor) =
      if ltb latest t.cursor
      then leaves log t (failed (resume_expired floor latest))
      else goes log t looping

  abbrev pub replayed : ChatStateLog → Tailer V → ℕ → Answer (List (RetainedEvent V)) → TailStep V
  replayed log t version (raised e) = leaves log t (failed e)
  replayed log t version (ok events) = goes log t (draining events version)

  abbrev pub checked : ChatStateLog → Tailer V → ℕ → Answer ℕ → TailStep V
  checked log t version (raised e) = leaves log t (failed e)
  checked log t version (ok latest) =
      if log.closed && leb latest t.cursor
      then leaves log t finished
      else goes (record log { progressed = false }) t
          (if log.version == version then waiting else looping)

  module _ (json : Json V) (cal : Calendar) where
    abbrev step_phase : ChatStateStore → ChatStateLog → Tailer V → Phase V → TailStep V
    step_phase s log t starting =
        goes (record log { tailers = log.tailers + 1 }) t
          (if t.reject_future_cursor then opening else looping)
    step_phase s log t opening = opened log t (latest_seq s t.key) (floor_seq s t.key)
    step_phase s log t looping = goes log t (reading log.version)
    step_phase s log t (reading version) =
        replayed log t version (replay_after json cal s t.key t.cursor none)
    step_phase s log t (draining (e ∷ events) version) = record {
      log = log;
      tailer = record t { cursor = e.seq; phase = draining events version };
      yielded = some e;
    }
    step_phase s log t (draining [] version) = goes log t (checking version)
    step_phase s log t (checking version) = checked log t version (latest_seq s t.key)
    step_phase s log t waiting = goes log t (if log.progressed then looping else waiting)
    step_phase s log t finished = goes log t finished
    step_phase s log t (failed e) = goes log t (failed e)

    unfoldable pub tail_step : ChatStateStore → ChatStateLog → Tailer V → TailStep V
    unfolding latest_seq floor_seq replay_after
    tail_step s log t = step_phase s log t t.phase
