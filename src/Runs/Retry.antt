-- ===== src/Runs/Retry.antt =====
-- What the steps of runs in src/hermes_vylen_gateway/agent_runner.py leave of an idempotency key and
-- of the run that it names.
pub mod Requests
pub mod Kept
pub mod Between
use hermes_vylen_gateway.Prelude.{
  ℕ, ◌-◌, ◌≤◌, ◌<◌, ◌≡◌, ◌≢◌, refl, ap, sym, ◌∙◌, inl, inr, Bool, true, false, String, List, [],
  ◌∷◌, Option, none, some, arith, ◌==◌, string_eq, nat_eq, leb, ltb, not, ◌&&◌, Bool-cases,
  Option-cases, some-injective,
}
use hermes_vylen_gateway.Prelude.Dict
use hermes_vylen_gateway.Prelude.Dict.{Dict}
use hermes_vylen_gateway.Prelude.Text.{Text, text_eq, text_beq_iff}
use hermes_vylen_gateway.EventLog.Log
use hermes_vylen_gateway.EventLog.Log.{
  Codec, RetainedEvent, RetainedEventLog, LogResult, resume_expired, event_too_large,
}
use hermes_vylen_gateway.Runs.Requests.{
  ok, Parsed-cases, RunRequest, parse_idempotency_key, parse_session_key, user_message,
  history_entries,
}
use hermes_vylen_gateway.Runs.State.{
  created, started, done, Status, failed, completed, cancelled, stopping, running, queued,
  waiting_for_approval, took_event, updated, RunStatus, CachedRun, fail_run, settle_run, settle,
  RunResult, result_failed, result_output, result_cancelled, result_raised, Runner, RunEvent,
  run_failed, run_completed, run_cancelled, approval_responded, set_run_status, append_run_event,
  close_run_log, leave_run, begin_run, end_run, approval_notify,
}
use hermes_vylen_gateway.Runs.Handlers.{
  create_run, admit_run, allocate_run, open_run, remember, drop_stale, cached_run, previous_session,
  stop_run, cancel_at, sweep_once, sweep_runs, has_key, is_fresh, is_expired, is_over, pop_if,
  active_count, run_status_ttl, started_run, logged_run,
}
use hermes_vylen_gateway.Runs.Handlers.Lifecycle.{pop_if-kept, statuses-sweep_runs}
use hermes_vylen_gateway.Runs.Handlers.Idempotent.{Remembers}
use hermes_vylen_gateway.Runs.Approvals.{
  run_approval, Resolution, resolved, resolving_failed, answer_approval, parse_choice, is_choice,
}

module _ {V : Type 0} (key : Text) (id : String) (since : ℕ) where
  -- The run has a status, which was set at some time or later.
  abbrev pub Known : Runner V → Type 0
  Known s = (st : RunStatus V) × (Dict.get id s.run_statuses ≡ some st) × (since ≤ st.updated_at)

  -- A change that leaves the entry of the key, and the run with such a status if it had one.
  abbrev pub Keeps : Runner V → Runner V → Type 0
  Keeps s u =
      (Dict.get key u.idempotency_keys ≡ Dict.get key s.idempotency_keys) × (Known s → Known u)

  pub then-Keeps : (s t u : Runner V) → Keeps s t → Keeps t u → Keeps s u
  then-Keeps s t u (a, f) (b, g) = (b ∙ a, λ k. g (f k))

  pub set_run_status-Keeps :
      (s : Runner V) (rid : String) (st : Status) (fields : List (String × V)) (now : ℕ)
      → since ≤ now
      → Keeps s (set_run_status s rid st fields now)
  unfolding set_run_status
  set_run_status-Keeps s rid st fields now le = (
    refl,
    λ (old, there, young).
        let entry = updated (Dict.get rid s.run_statuses) st fields now in
        elim (Bool-cases (rid == id)) [
          | inl same ↦ (entry, Dict.get-put rid id entry s.run_statuses ∙ rw same refl, le)
          | inr other ↦ (old, Dict.get-put rid id entry s.run_statuses ∙ rw other there, young)
        ],
  )

  module _ (codec : Codec V) (str : String → V) (describe : ℕ → ℕ → V)
      (body : String → ℕ → RunEvent V → V) where
    took_event-Keeps :
        (s : Runner V) (rid : String) (r : LogResult (RetainedEventLog V × RetainedEvent V))
        → Keeps s (took_event codec str describe body s rid r).0
    took_event-Keeps s rid (Log.ok p) = (refl, λ k. k)
    took_event-Keeps s rid (resume_expired f l) = (refl, λ k. k)
    took_event-Keeps s rid (event_too_large n m) = (refl, λ k. k)

    pub append-Keeps :
        (s : Runner V) (rid : String) (e : RunEvent V) (now : ℕ)
        → Keeps s (append_run_event codec str describe body s rid e now).0
    unfolding append_run_event
    append-Keeps s rid e now = took_event-Keeps s rid _

    fail_run-Keeps :
        (s : Runner V) (rid : String) (error : V) (now : ℕ)
        → since ≤ now
        → Keeps s (fail_run codec str describe body s rid error now)
    unfolding fail_run
    fail_run-Keeps s rid error now le =
        let fields = ("error", error) ∷ ("last_event", str "run.failed") ∷ [] in
        then-Keeps s (set_run_status s rid failed fields now)
          (fail_run codec str describe body s rid error now)
          (set_run_status-Keeps s rid failed fields now le)
          (append-Keeps (set_run_status s rid failed fields now) rid (run_failed error) now)

    settle_run-Keeps :
        (s : Runner V) (rid : String) (e : RunEvent V) (st : Status) (fields : List (String × V))
        (now : ℕ)
        → since ≤ now
        → Keeps s (settle_run codec str describe body s rid e st fields now)
    unfolding settle_run
    settle_run-Keeps s rid e st fields now le =
        let appended = append_run_event codec str describe body s rid e now in
        elim (Option-cases appended.1) [
          | inl fine ↦
              rw (fine, settle_run)
                (then-Keeps s appended.0 (set_run_status appended.0 rid st fields now)
                  (append-Keeps s rid e now) (set_run_status-Keeps appended.0 rid st fields now le))
          | inr (error, large) ↦
              rw (large, settle_run)
                (then-Keeps s appended.0 (fail_run codec str describe body appended.0 rid error now)
                  (append-Keeps s rid e now) (fail_run-Keeps appended.0 rid error now le))
        ]

    settle-Keeps :
        (s : Runner V) (rid : String) (r : RunResult V) (now : ℕ)
        → since ≤ now
        → Keeps s (settle codec str describe body s rid r now)
    unfolding settle
    settle-Keeps s rid (result_failed e) now le =
        settle_run-Keeps s rid (run_failed e) failed
          (("error", e) ∷ ("last_event", str "run.failed") ∷ []) now le
    settle-Keeps s rid (result_output o u) now le =
        settle_run-Keeps s rid (run_completed o u) completed
          (("output", o) ∷ ("usage", u) ∷ ("last_event", str "run.completed") ∷ []) now le
    settle-Keeps s rid result_cancelled now le =
        let fields = ("last_event", str "run.cancelled") ∷ [] in
        then-Keeps s (set_run_status s rid cancelled fields now)
          (settle codec str describe body s rid result_cancelled now)
          (set_run_status-Keeps s rid cancelled fields now le)
          (append-Keeps (set_run_status s rid cancelled fields now) rid run_cancelled now)
    settle-Keeps s rid (result_raised e) now le = fail_run-Keeps s rid e now le

    pub begin_run-Keeps :
        (s : Runner V) (rid : String) (now : ℕ)
        → since ≤ now
        → Keeps s (begin_run codec str describe body s rid now)
    unfolding begin_run
    begin_run-Keeps s rid now le = elim (Option-cases (Dict.get rid s.active_run_tasks)) [
      | inl miss ↦ rw (miss, begin_run) (refl, λ k. k)
      | inr (created true, found) ↦ rw (found, begin_run) (refl, λ k. k)
      | inr (created false, found) ↦
          rw (found, begin_run) (set_run_status-Keeps s rid running [] now le)
      | inr (started c, found) ↦ rw (found, begin_run) (refl, λ k. k)
      | inr (done, found) ↦ rw (found, begin_run) (refl, λ k. k)
    ]

    leave_run-Keeps :
        (s : Runner V) (rid : String) (now : ℕ)
        → Keeps s (leave_run codec str describe body s rid now)
    unfolding leave_run
    leave_run-Keeps s rid now = elim (Option-cases (Dict.get rid s.run_event_logs.logs)) [
      | inl miss ↦ rw (miss, close_run_log) (refl, λ k. k)
      | inr (log, found) ↦ rw (found, close_run_log) (refl, λ k. k)
    ]

    pub end_run-Keeps :
        (s : Runner V) (rid : String) (r : RunResult V) (now : ℕ)
        → since ≤ now
        → Keeps s (end_run codec str describe body s rid r now)
    unfolding end_run
    end_run-Keeps s rid r now le = elim (Option-cases (Dict.get rid s.active_run_tasks)) [
      | inl miss ↦ rw (miss, end_run) (refl, λ k. k)
      | inr (created c, found) ↦ rw (found, end_run) (refl, λ k. k)
      | inr (started c, found) ↦
          rw (found, end_run)
            (then-Keeps s (settle codec str describe body s rid r now)
              (leave_run codec str describe body (settle codec str describe body s rid r now) rid
                now)
              (settle-Keeps s rid r now le)
              (leave_run-Keeps (settle codec str describe body s rid r now) rid now))
      | inr (done, found) ↦ rw (found, end_run) (refl, λ k. k)
    ]
