-- ===== src/Runs/State.antt =====
-- The state that src/hermes_vylen_gateway/agent_runner.py keeps of runs, and the life of a run: the
-- task `run_and_close` with what the agent calls back. Run ids are fresh random texts.
use hermes_vylen_gateway.Prelude.{
  ℕ, Bool, true, false, String, List, [], ◌∷◌, Option, none, some, string_eq,
}
use hermes_vylen_gateway.Prelude.Dict
use hermes_vylen_gateway.Prelude.Dict.{Dict}
use hermes_vylen_gateway.Prelude.Text.{Text}
use hermes_vylen_gateway.EventLog.Log
use hermes_vylen_gateway.EventLog.Log.{Codec, RetainedEvent, RetainedEventLog, LogResult, value}
use hermes_vylen_gateway.EventLog.Registry.{EventLogRegistry, create, replace}

pub data Status : Type 0 where
  queued : Status
  running : Status
  waiting_for_approval : Status
  stopping : Status
  completed : Status
  failed : Status
  cancelled : Status

-- an entry of `_run_statuses`, with its other fields
pub record RunStatus (V : Type 0) : Type 0 where
  pub status : Status
  pub created_at : ℕ
  pub updated_at : ℕ
  pub fields : Dict String V

pub record CachedRun : Type 0 where
  pub fingerprint : Text
  pub run_id : String
  pub created_at : ℕ

-- an asyncio task: created, but not begun; suspended in its body; done. The Boolean says that
-- cancel() was called on it.
pub data TaskState : Type 0 where
  created : Bool → TaskState
  started : Bool → TaskState
  done : TaskState

pub record Runner (V : Type 0) : Type 0 where
  pub run_event_logs : EventLogRegistry V
  pub active_run_agents : Dict String (Unit {0})
  pub active_run_tasks : Dict String TaskState
  pub run_statuses : Dict String (RunStatus V)
  pub run_approval_sessions : Dict String Text
  pub idempotency_keys : Dict Text CachedRun

-- the events of a run whose payload the runner makes; `body` below gives the dictionary
pub data RunEvent (V : Type 0) : Type 0 where
  run_failed : V → RunEvent V
  run_completed : V → V → RunEvent V
  run_cancelled : RunEvent V
  approval_request : V → RunEvent V
  approval_responded : Text → ℕ → RunEvent V
  message_delta : V → RunEvent V
  -- a progress report of the agent under its own kind
  reported : String → V → RunEvent V

abbrev pub kind_of : {V : Type 0} → RunEvent V → String
kind_of (run_failed e) = "run.failed"
kind_of (run_completed o u) = "run.completed"
kind_of run_cancelled = "run.cancelled"
kind_of (approval_request v) = "approval.request"
kind_of (approval_responded c n) = "approval.responded"
kind_of (message_delta v) = "message.delta"
kind_of (reported k v) = k

-- how the body of `run_and_close` ends
pub data RunResult (V : Type 0) : Type 0 where
  -- the agent's result has a true `failed`, with the error
  result_failed : V → RunResult V
  -- the final response and the usage
  result_output : V → V → RunResult V
  result_cancelled : RunResult V
  -- an exception, as str(exc)
  result_raised : V → RunResult V

abbrev pub is_done : TaskState → Bool
is_done (created c) = false
is_done (started c) = false
is_done done = true

-- task.cancel()
abbrev pub cancel_task : TaskState → TaskState
cancel_task (created c) = created true
cancel_task (started c) = started true
cancel_task done = done

module _ {V : Type 0} where
  abbrev pub put_fields : List (String × V) → Dict String V → Dict String V
  put_fields [] d = d
  put_fields ((k, v) ∷ fs) d = put_fields fs (Dict.put k v d)

  abbrev pub created_or : ℕ → Option (RunStatus V) → ℕ
  created_or now none = now
  created_or now (some st) = st.created_at

  abbrev pub fields_of : Option (RunStatus V) → Dict String V
  fields_of none = []
  fields_of (some st) = st.fields

  -- what an entry becomes; one that is there keeps its `created_at`
  abbrev pub updated : Option (RunStatus V) → Status → List (String × V) → ℕ → RunStatus V
  updated old status fields now = record {
    status = status;
    created_at = created_or now old;
    updated_at = now;
    fields = put_fields fields (fields_of old);
  }

  -- `_set_run_status`
  unfoldable pub set_run_status : Runner V → String → Status → List (String × V) → ℕ → Runner V
  set_run_status s run_id status fields now =
      let entry = updated (Dict.get run_id s.run_statuses) status fields now in
      record s { run_statuses = Dict.put run_id entry s.run_statuses }

  abbrev pub log_or :
      EventLogRegistry V → String → ℕ → Option (RetainedEventLog V) → RetainedEventLog V
  log_or logs run_id now none = create logs run_id now
  log_or logs run_id now (some log) = log

  -- `str` makes a text a value, `describe` is str() of an `EventTooLarge`, and `body` is the payload of
  -- an event of a run at a time.
  module _ (codec : Codec V) (str : String → V) (describe : ℕ → ℕ → V)
      (body : String → ℕ → RunEvent V → V) where
    abbrev pub took_event :
        Runner V → String → LogResult (RetainedEventLog V × RetainedEvent V) → Runner V × Option V
    took_event s run_id (Log.ok (log, e)) =
        (record s { run_event_logs = replace s.run_event_logs run_id log }, none)
    took_event s run_id (Log.event_too_large size most) = (s, some (describe size most))
    -- `append` never raises this one
    took_event s run_id (Log.resume_expired f l) = (s, none)

    -- event_log.append on the log of a run: the runner, and what was raised. A log that is no longer
    -- registered takes the event as well, but nobody finds it again.
    unfoldable pub append_run_event : Runner V → String → RunEvent V → ℕ → Runner V × Option V
    unfolding Log.append replace
    append_run_event s run_id event now =
        let log = log_or s.run_event_logs run_id now (Dict.get run_id s.run_event_logs.logs) in
        took_event s run_id
          (Log.append codec log (kind_of event) (value (body run_id now event)) now)

    abbrev pub close_run_log : Runner V → String → ℕ → Runner V
    close_run_log s run_id now = elim (Dict.get run_id s.run_event_logs.logs) [
      | none ↦ s
      | some log ↦ record s { run_event_logs = replace s.run_event_logs run_id (Log.close log now) }
    ]

    -- the `finally` clause; the task is over behind it
    unfoldable pub leave_run : Runner V → String → ℕ → Runner V
    unfolding Log.close replace
    leave_run s run_id now =
        let closed = close_run_log s run_id now in
        record closed {
          active_run_agents = Dict.remove run_id s.active_run_agents;
          active_run_tasks = Dict.remove run_id s.active_run_tasks;
          run_approval_sessions = Dict.remove run_id s.run_approval_sessions;
        }

    -- the clause for an exception
    unfoldable pub fail_run : Runner V → String → V → ℕ → Runner V
    unfolding set_run_status append_run_event
    fail_run s run_id error now =
        let marked =
          set_run_status s run_id failed (("error", error) ∷ ("last_event", str "run.failed") ∷ [])
            now in
        (append_run_event marked run_id (run_failed error) now).0

    -- an event, and the status behind it; an event that is too large raises
    unfoldable pub settle_run :
        Runner V → String → RunEvent V → Status → List (String × V) → ℕ → Runner V
    unfolding append_run_event set_run_status fail_run
    settle_run s run_id event status fields now =
        let appended = append_run_event s run_id event now in
        elim appended.1 [
          | none ↦ set_run_status appended.0 run_id status fields now
          | some error ↦ fail_run appended.0 run_id error now
        ]

    -- `run_and_close` behind the agent, without the `finally` clause
    unfoldable pub settle : Runner V → String → RunResult V → ℕ → Runner V
    unfolding settle_run fail_run set_run_status append_run_event
    settle s run_id (result_failed error) now =
        settle_run s run_id (run_failed error) failed
          (("error", error) ∷ ("last_event", str "run.failed") ∷ []) now
    settle s run_id (result_output output usage) now =
        settle_run s run_id (run_completed output usage) completed
          (("output", output) ∷ ("usage", usage) ∷ ("last_event", str "run.completed") ∷ []) now
    settle s run_id result_cancelled now =
        let marked =
          set_run_status s run_id cancelled (("last_event", str "run.cancelled") ∷ []) now in
        (append_run_event marked run_id run_cancelled now).0
    settle s run_id (result_raised error) now = fail_run s run_id error now

    -- the first step of the task: a task that was cancelled before it never enters its body
    unfoldable pub begin_run : Runner V → String → ℕ → Runner V
    unfolding set_run_status
    begin_run s run_id now = elim (Dict.get run_id s.active_run_tasks) [
      | none ↦ s
      | some (created true) ↦ record s {
        active_run_tasks = Dict.put run_id done s.active_run_tasks;
      }
      | some (created false) ↦
          let marked = set_run_status s run_id running [] now in
          record marked {
            active_run_agents = Dict.put run_id tt s.active_run_agents;
            active_run_tasks = Dict.put run_id (started false) s.active_run_tasks;
          }
      | some (started c) ↦ s
      | some done ↦ s
    ]

    -- the last step of the task
    unfoldable pub end_run : Runner V → String → RunResult V → ℕ → Runner V
    unfolding settle leave_run
    end_run s run_id result now = elim (Dict.get run_id s.active_run_tasks) [
      | none ↦ s
      | some (created c) ↦ s
      | some (started c) ↦ leave_run (settle s run_id result now) run_id now
      | some done ↦ s
    ]

    -- `approval_notify`, which the thread of the agent calls, also when the task is over. Its event is
    -- appended by the event loop, later.
    unfoldable pub approval_notify : Runner V → String → ℕ → Runner V
    unfolding set_run_status
    approval_notify s run_id now =
        set_run_status s run_id waiting_for_approval (("last_event", str "approval.request") ∷ [])
          now
