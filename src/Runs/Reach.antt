-- ===== src/Runs/Reach.antt =====
-- Any order of requests, sweeps and steps of runs in src/hermes_vylen_gateway/agent_runner.py.
use hermes_vylen_gateway.Prelude.{
  ℕ, ◌≤◌, ◌≡◌, refl, ◌∙◌, inl, inr, Bool, true, false, String, List, [], ◌∷◌, Option, arith, ◌==◌,
  string_eq, nat_eq, Bool-cases, if◌then◌else◌, Option-cases, not, ◌&&◌,
}
use hermes_vylen_gateway.Prelude.Dict
use hermes_vylen_gateway.Prelude.Text.{Text, text_eq}
use hermes_vylen_gateway.EventLog.Log
use hermes_vylen_gateway.EventLog.Log.{
  Codec, RetainedEvent, RetainedEventLog, LogResult, resume_expired, event_too_large,
}
use hermes_vylen_gateway.Runs.Requests.{RunRequest}
use hermes_vylen_gateway.Runs.State.{
  created, started, done, Status, failed, completed, cancelled, stopping, running, took_event,
  fail_run, settle_run, settle, RunResult, result_failed, result_output, result_cancelled,
  result_raised, Runner, RunEvent, run_failed, run_completed, run_cancelled, approval_responded,
  set_run_status, append_run_event, close_run_log, leave_run, begin_run, end_run, approval_notify,
}
use hermes_vylen_gateway.Runs.Handlers.{create_run, stop_run, sweep_once, has_key, is_busy}
use hermes_vylen_gateway.Runs.Approvals.{
  run_approval, Resolution, resolved, resolving_failed, answer_approval, parse_choice, is_choice,
}
use hermes_vylen_gateway.Runs.Handlers.Bound.{
  sweep_once-busy, count, count-put_lighter, count-remove, count-cancel_at, count-sweep_runs,
  count-create_run,
}

module _ {V : Type 0} where
  module _ (codec : Codec V) (str : String → V) (describe : ℕ → ℕ → V)
      (body : String → ℕ → RunEvent V → V) where
    tasks-took_event :
        (s : Runner V) (id : String) (r : LogResult (RetainedEventLog V × RetainedEvent V))
        → (took_event codec str describe body s id r).0.active_run_tasks ≡ s.active_run_tasks
    tasks-took_event s id (Log.ok p) = refl
    tasks-took_event s id (resume_expired f l) = refl
    tasks-took_event s id (event_too_large n m) = refl

    tasks-append :
        (s : Runner V) (id : String) (e : RunEvent V) (now : ℕ)
        → (append_run_event codec str describe body s id e now).0.active_run_tasks
          ≡ s.active_run_tasks
    unfolding append_run_event
    tasks-append s id e now = tasks-took_event s id _

    tasks-fail_run :
        (s : Runner V) (id : String) (error : V) (now : ℕ)
        → (fail_run codec str describe body s id error now).active_run_tasks ≡ s.active_run_tasks
    unfolding fail_run set_run_status
    tasks-fail_run s id error now =
        tasks-append
          (set_run_status s id failed (("error", error) ∷ ("last_event", str "run.failed") ∷ [])
            now)
          id (run_failed error) now

    tasks-settle_run :
        (s : Runner V) (id : String) (e : RunEvent V) (st : Status) (fields : List (String × V))
        (now : ℕ)
        → (settle_run codec str describe body s id e st fields now).active_run_tasks
          ≡ s.active_run_tasks
    unfolding settle_run set_run_status
    tasks-settle_run s id e st fields now =
        elim (Option-cases ((append_run_event codec str describe body s id e now).1)) [
          | inl fine ↦ rw (fine, settle_run) (tasks-append s id e now)
          | inr (error, large) ↦
              rw (large, settle_run)
                (tasks-fail_run (append_run_event codec str describe body s id e now).0 id error now
                  ∙ tasks-append s id e now)
        ]

    tasks-settle :
        (s : Runner V) (id : String) (r : RunResult V) (now : ℕ)
        → (settle codec str describe body s id r now).active_run_tasks ≡ s.active_run_tasks
    unfolding settle set_run_status
    tasks-settle s id (result_failed e) now =
        tasks-settle_run s id (run_failed e) failed
          (("error", e) ∷ ("last_event", str "run.failed") ∷ []) now
    tasks-settle s id (result_output o u) now =
        tasks-settle_run s id (run_completed o u) completed
          (("output", o) ∷ ("usage", u) ∷ ("last_event", str "run.completed") ∷ []) now
    tasks-settle s id result_cancelled now =
        tasks-append (set_run_status s id cancelled (("last_event", str "run.cancelled") ∷ []) now)
          id run_cancelled now
    tasks-settle s id (result_raised e) now = tasks-fail_run s id e now

    count-begin_run :
        (s : Runner V) (id : String) (now : ℕ)
        → count (begin_run codec str describe body s id now) ≤ count s
    unfolding begin_run set_run_status
    count-begin_run s id now = elim (Option-cases (Dict.get id s.active_run_tasks)) [
      | inl miss ↦ rw (miss, begin_run) (omega arith)
      | inr (created true, found) ↦
          rw (found, begin_run)
            (count-put_lighter id done (created true) s.active_run_tasks found (omega arith))
      | inr (created false, found) ↦
          rw (found, begin_run)
            (count-put_lighter id (started false) (created false) s.active_run_tasks found
              (omega arith))
      | inr (started c, found) ↦ rw (found, begin_run) (omega arith)
      | inr (done, found) ↦ rw (found, begin_run) (omega arith)
    ]

    tasks-close_run_log :
        (s : Runner V) (id : String) (now : ℕ)
        → (close_run_log codec str describe body s id now).active_run_tasks ≡ s.active_run_tasks
    tasks-close_run_log s id now = elim (Option-cases (Dict.get id s.run_event_logs.logs)) [
      | inl miss ↦ rw (miss, close_run_log) refl
      | inr (log, found) ↦ rw (found, close_run_log) refl
    ]

    count-end_run :
        (s : Runner V) (id : String) (r : RunResult V) (now : ℕ)
        → count (end_run codec str describe body s id r now) ≤ count s
    unfolding end_run leave_run
    count-end_run s id r now = elim (Option-cases (Dict.get id s.active_run_tasks)) [
      | inl miss ↦ rw (miss, end_run) (omega arith)
      | inr (created c, found) ↦ rw (found, end_run) (omega arith)
      | inr (started c, found) ↦
          rw (found, end_run) (rw (tasks-settle s id r now) (count-remove id s.active_run_tasks))
      | inr (done, found) ↦ rw (found, end_run) (omega arith)
    ]

    count-answer_approval :
        (s : Runner V) (id : String) (choice : Text) (now : ℕ) (r : Resolution V)
        → (answer_approval codec str describe body s id choice now r).0.active_run_tasks
          ≡ s.active_run_tasks
    unfolding set_run_status
    count-answer_approval s id choice now (resolving_failed e) = refl
    count-answer_approval s id choice now (resolved n) = elim (Bool-cases (n == 0)) [
      | inl none_left ↦ rw (none_left, answer_approval) refl
      | inr some_left ↦ elim (Bool-cases (has_key id s.run_event_logs.logs)) [
        | inl logged ↦
            rw (some_left, answer_approval)
              (rw logged (
                tasks-append
                  (set_run_status s id running (("last_event", str "approval.responded") ∷ []) now)
                  id (approval_responded choice n) now))
        | inr unlogged ↦ rw (some_left, answer_approval) (rw unlogged refl)
      ]
    ]

    count-run_approval :
        (lower : Text → Text) (resolve : Text → Text → Resolution V) (s : Runner V) (id : String)
        (value : Text) (now : ℕ)
        → (run_approval codec str describe body lower resolve s id value now).0.active_run_tasks
          ≡ s.active_run_tasks
    unfolding run_approval
    count-run_approval lower resolve s id value now =
        elim (Bool-cases (has_key id s.run_statuses)) [
          | inr unknown ↦ rw (unknown, run_approval) refl
          | inl known ↦ elim (Bool-cases (is_choice (parse_choice lower value))) [
            | inr invalid ↦ rw (known, run_approval) (rw invalid refl)
            | inl valid ↦ elim (Option-cases (Dict.get id s.run_approval_sessions)) [
              | inl miss ↦ rw (known, run_approval) (rw valid (rw miss refl))
              | inr ([], there) ↦ rw (known, run_approval) (rw valid (rw there refl))
              | inr (c ∷ key, there) ↦
                  rw (known, run_approval)
                    (rw valid (
                      rw there (
                        count-answer_approval s id (parse_choice lower value) now
                          (resolve (c ∷ key) (parse_choice lower value)))))
            ]
          ]
        ]

    count-stop_run :
        (s : Runner V) (event : V) (id : String) (now : ℕ)
        → count (stop_run s event id now).0 ≤ count s
    unfolding stop_run set_run_status
    count-stop_run s event id now =
        elim (Bool-cases
          (not (has_key id s.active_run_agents) && not (has_key id s.active_run_tasks))) [
            | inl unknown ↦ rw (unknown, stop_run) (omega arith)
            | inr known ↦
                rw (known, stop_run)
                  (count-cancel_at (set_run_status s id stopping (("last_event", event) ∷ []) now)
                    id)
          ]

    module _ (strs : Text → V) (truthy : V → Bool) (stored : Text → Option Text)
        (lower : Text → Text) where
      -- One request, one sweep, or one step of a run or of what its agent calls back.
      pub data Step (s : Runner V) : Runner V → Type 0 where
        creates :
            (req : RunRequest V) (id : String) (now : ℕ)
            → Step s (create_run strs truthy stored s req id now).0
        stops : (event : V) (id : String) (now : ℕ) → Step s (stop_run s event id now).0
        approves :
            (resolve : Text → Text → Resolution V) (id : String) (value : Text) (now : ℕ)
            → Step s (run_approval codec str describe body lower resolve s id value now).0
        sweeps : (now : ℕ) → Step s (sweep_once s now)
        begins : (id : String) (now : ℕ) → Step s (begin_run codec str describe body s id now)
        ends :
            (id : String) (r : RunResult V) (now : ℕ)
            → Step s (end_run codec str describe body s id r now)
        notifies :
            (id : String) (now : ℕ) → Step s (approval_notify codec str describe body s id now)
        reports :
            (id : String) (e : RunEvent V) (now : ℕ)
            → Step s (append_run_event codec str describe body s id e now).0

      pub data Reach (s : Runner V) : Runner V → Type 0 where
        here : Reach s s
        next : {t u : Runner V} → Reach s t → Step t u → Reach s u

      Step-bound : {s u : Runner V} → Step s u → count s ≤ 10 → count u ≤ 10
      unfolding sweep_once approval_notify set_run_status
      Step-bound {s} (creates req id now) h = count-create_run strs truthy stored s req id now h
      Step-bound {s} (stops event id now) h = omega (arith, count-stop_run s event id now)
      Step-bound {s} (approves resolve id value now) h =
          rw (count-run_approval lower resolve s id value now) h
      Step-bound {s} (sweeps now) h = omega (arith, count-sweep_runs now s.run_event_logs.logs s)
      Step-bound {s} (begins id now) h = omega (arith, count-begin_run s id now)
      Step-bound {s} (ends id r now) h = omega (arith, count-end_run s id r now)
      Step-bound {s} (notifies id now) h = h
      Step-bound {s} (reports id e now) h = rw (tasks-append s id e now) h

      Reach-count : {s u : Runner V} → count s ≤ 10 → Reach s u → count u ≤ 10
      Reach-count h here = h
      Reach-count h (next r st) = Step-bound st (Reach-count h r)

      pub Reach-bound :
          {s u : Runner V} (id : String) (now : ℕ)
          → count s ≤ 10
          → Reach s u
          → (count u ≤ 10)
            × ((if is_busy (Dict.get id u.active_run_tasks)
                  then Dict.get id (sweep_once u now).active_run_tasks
                  else Dict.get id u.active_run_tasks)
                ≡ Dict.get id u.active_run_tasks)
      Reach-bound {s} {u} id now h r = (Reach-count h r, sweep_once-busy u id now)
