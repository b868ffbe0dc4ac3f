-- ===== src/Runs/Handlers/Ends.antt =====
-- How runs of src/hermes_vylen_gateway/agent_runner.py end.
use hermes_vylen_gateway.Prelude.{
  ℕ, ◌≡◌, refl, ◌∙◌, ap, inl, inr, Bool, true, String, List, [], ◌∷◌, none, some, string_eq,
  Option-cases,
}
use hermes_vylen_gateway.Prelude.Dict
use hermes_vylen_gateway.Prelude.Dict.{Dict}
use hermes_vylen_gateway.EventLog.Log
use hermes_vylen_gateway.EventLog.Log.{
  Codec, RetainedEvent, RetainedEventLog, LogResult, resume_expired, event_too_large,
}
use hermes_vylen_gateway.Runs.State.{
  started, Status, failed, completed, cancelled, took_event, append_run_event, fail_run, settle_run,
  settle, close_run_log, leave_run, result_failed, result_output, result_cancelled, result_raised,
  run_failed, run_completed, run_cancelled, RunStatus, Runner, RunEvent, RunResult, set_run_status,
  end_run,
}
use hermes_vylen_gateway.Runs.Handlers.{is_over}
use hermes_vylen_gateway.Runs.Handlers.Lifecycle.{Says, set_run_status-get}

module _ {V : Type 0} where
  module _ (codec : Codec V) (str : String → V) (describe : ℕ → ℕ → V)
      (body : String → ℕ → RunEvent V → V) where
    statuses-took_event :
        (s : Runner V) (id : String) (r : LogResult (RetainedEventLog V × RetainedEvent V))
        → (took_event codec str describe body s id r).0.run_statuses ≡ s.run_statuses
    statuses-took_event s id (Log.ok p) = refl
    statuses-took_event s id (resume_expired f l) = refl
    statuses-took_event s id (event_too_large n m) = refl

    append-Says :
        (s : Runner V) (id : String) (st : Status) (e : RunEvent V) (now : ℕ)
        → Says s id st
        → Says (append_run_event codec str describe body s id e now).0 id st
    unfolding append_run_event
    append-Says s id st e now (entry, there, says) =
        (entry, ap (Dict.get id) (statuses-took_event s id _) ∙ there, says)

    fail_run-Says :
        (s : Runner V) (id : String) (error : V) (now : ℕ)
        → Says (fail_run codec str describe body s id error now) id failed
    unfolding fail_run
    fail_run-Says s id error now =
        let fields = ("error", error) ∷ ("last_event", str "run.failed") ∷ [] in
        append-Says (set_run_status s id failed fields now) id failed (run_failed error) now
          (set_run_status-get s id failed fields now)

    -- The status of the run is one of the last ones.
    abbrev pub IsOver : Runner V → String → Type 0
    IsOver s id =
        (st : RunStatus V) × (Dict.get id s.run_statuses ≡ some st) × (is_over st.status ≡ true)

    Says-IsOver :
        (s : Runner V) (id : String) (st : Status) → is_over st ≡ true → Says s id st → IsOver s id
    Says-IsOver s id st over (entry, there, says) = (entry, there, rw says over)

    settle_run-IsOver :
        (s : Runner V) (id : String) (e : RunEvent V) (st : Status) (fields : List (String × V))
        (now : ℕ)
        → is_over st ≡ true
        → IsOver (settle_run codec str describe body s id e st fields now) id
    unfolding settle_run
    settle_run-IsOver s id e st fields now over =
        elim (Option-cases ((append_run_event codec str describe body s id e now).1)) [
          | inl fine ↦
              let kept = (append_run_event codec str describe body s id e now).0 in
              rw (fine, settle_run)
                (Says-IsOver (set_run_status kept id st fields now) id st over
                  (set_run_status-get kept id st fields now))
          | inr (error, large) ↦
              let kept = (append_run_event codec str describe body s id e now).0 in
              rw (large, settle_run)
                (Says-IsOver (fail_run codec str describe body kept id error now) id failed refl
                  (fail_run-Says kept id error now))
        ]

    settle-IsOver :
        (s : Runner V) (id : String) (r : RunResult V) (now : ℕ)
        → IsOver (settle codec str describe body s id r now) id
    unfolding settle
    settle-IsOver s id (result_failed e) now =
        settle_run-IsOver s id (run_failed e) failed
          (("error", e) ∷ ("last_event", str "run.failed") ∷ []) now refl
    settle-IsOver s id (result_output o u) now =
        settle_run-IsOver s id (run_completed o u) completed
          (("output", o) ∷ ("usage", u) ∷ ("last_event", str "run.completed") ∷ []) now refl
    settle-IsOver s id result_cancelled now =
        let fields = ("last_event", str "run.cancelled") ∷ [] in
        Says-IsOver (settle codec str describe body s id result_cancelled now) id cancelled refl (
          append-Says (set_run_status s id cancelled fields now) id cancelled run_cancelled now
            (set_run_status-get s id cancelled fields now))
    settle-IsOver s id (result_raised e) now =
        Says-IsOver (fail_run codec str describe body s id e now) id failed refl
          (fail_run-Says s id e now)

    statuses-close_run_log :
        (s : Runner V) (id : String) (now : ℕ)
        → (close_run_log codec str describe body s id now).run_statuses ≡ s.run_statuses
    statuses-close_run_log s id now = elim (Option-cases (Dict.get id s.run_event_logs.logs)) [
      | inl miss ↦ rw (miss, close_run_log) refl
      | inr (log, found) ↦ rw (found, close_run_log) refl
    ]

    get-remove_self :
        {A : Type 0} (id : String) (d : Dict String A) → Dict.get id (Dict.remove id d) ≡ none
    get-remove_self id d = Dict.get-remove id id d ∙ rw ((string_eq.beq_iff id id).1 refl)

    pub end_run-IsOver :
        (s : Runner V) (id : String) (r : RunResult V) (now : ℕ) (c : Bool)
        → Dict.get id s.active_run_tasks ≡ some (started c)
        → IsOver (end_run codec str describe body s id r now) id
          × (Dict.get id (end_run codec str describe body s id r now).active_run_tasks ≡ none)
          × (Dict.get id (end_run codec str describe body s id r now).active_run_agents ≡ none)
          × (Dict.get id (end_run codec str describe body s id r now).run_approval_sessions ≡ none)
    unfolding end_run leave_run
    end_run-IsOver s id r now c working =
        let (st, there, last) = settle-IsOver s id r now in
        let t = settle codec str describe body s id r now in
        rw (working, end_run)
          (
            (st, ap (Dict.get id) (statuses-close_run_log t id now) ∙ there, last),
            get-remove_self id t.active_run_tasks,
            get-remove_self id t.active_run_agents,
            get-remove_self id t.run_approval_sessions,
          )
