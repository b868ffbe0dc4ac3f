-- ===== src/Runs/Handlers.antt =====
-- The requests about runs and the sweeper of src/hermes_vylen_gateway/agent_runner.py. A request runs
-- without an await up to its answer, so each is one step.
pub mod Bound
pub mod Lifecycle
pub mod Ends
pub mod Idempotent
use hermes_vylen_gateway.Prelude.{
  ℕ, ◌+◌, ◌-◌, Bool, true, false, not, String, List, [], ◌∷◌, Option, none, some, ltb, leb, ◌==◌,
  nat_eq, string_eq, Eq, ◌&&◌, ◌||◌, if◌then◌else◌,
}
use hermes_vylen_gateway.Prelude.Dict
use hermes_vylen_gateway.Prelude.Dict.{Dict}
use hermes_vylen_gateway.Prelude.Text.{Text, text_eq, codes, strip}
use hermes_vylen_gateway.EventLog.Log.{Codec, RetainedEventLog}
use hermes_vylen_gateway.EventLog.Registry as Registry
use hermes_vylen_gateway.EventLog.Registry.{EventLogRegistry}
use hermes_vylen_gateway.Runs.Requests.{
  RequestError, Parsed, ok, raised, RunRequest, parse_idempotency_key, parse_session_key,
  user_message, history_entries,
}
use hermes_vylen_gateway.Runs.State.{
  Status, queued, running, stopping, completed, failed, cancelled, waiting_for_approval, RunStatus,
  CachedRun, TaskState, created, started, done, Runner, RunEvent, approval_responded, is_done,
  cancel_task, set_run_status, append_run_event,
}

pub data Reply (V : Type 0) : Type 0 where
  -- 202, with the session key of the response's header
  started_run : String → Option Text → Reply V
  too_many_runs : Reply V
  -- 404 run_not_found
  run_not_found : Reply V
  run_status : RunStatus V → Reply V
  stopping_run : Reply V
  -- 400 invalid_approval_choice, 409 approval_not_active, 409 approval_not_pending
  invalid_choice : Reply V
  approval_not_active : Reply V
  approval_not_pending : Reply V
  approved : Text → ℕ → Reply V
  -- a `_RequestError`
  refused : RequestError → Reply V
  -- 500, of an exception of `resolve_gateway_approval`
  server_error : V → Reply V

abbrev pub max_concurrent_runs : ℕ
max_concurrent_runs = 10

abbrev pub run_stream_ttl : ℕ
run_stream_ttl = 300

-- also `_IDEMPOTENCY_TTL`
abbrev pub run_status_ttl : ℕ
run_status_ttl = 3600

-- `_active_run_count`
unfoldable pub active_count : Dict String TaskState → ℕ
active_count [] = 0
active_count ((k, t) ∷ d) = (if is_done t then 0 else 1) + active_count d

-- the first text that is not empty
abbrev pub first_text : Text → Text → Text
first_text [] t = t
first_text (c ∷ s) t = c ∷ s

abbrev pub key_or : Option Text → Text → Text
key_or none t = t
key_or (some key) t = key

-- key in d
abbrev pub has_key {ℓ κ} : {K : Type ℓ} {A : Type κ} ⦃e : Eq K⦄ → K → Dict K A → Bool
has_key k d = elim (Dict.get k d) [ none ↦ false | some a ↦ true ]

abbrev pub is_busy : Option TaskState → Bool
is_busy none = false
is_busy (some task) = not (is_done task)

abbrev pub is_over : Status → Bool
is_over queued = false
is_over running = false
is_over waiting_for_approval = false
is_over stopping = false
is_over completed = true
is_over failed = true
is_over cancelled = true

-- the entries of a dictionary that are left when those that fail a test are popped
unfoldable pub pop_if {ℓ κ} : {K : Type ℓ} {A : Type κ} → (A → Bool) → Dict K A → Dict K A
pop_if p [] = []
pop_if p ((k, a) ∷ d) = let rest = pop_if p d in if p a then rest else (k, a) ∷ rest

module _ {V : Type 0} where
  -- the cached run of a request with an idempotency key that may be answered again
  abbrev pub is_fresh : Runner V → Text → ℕ → CachedRun → Bool
  is_fresh s fingerprint now cached =
      leb (now - cached.created_at) run_status_ttl
      && cached.fingerprint == fingerprint
      && has_key cached.run_id s.run_statuses

  -- the entry is dropped when it is too old
  abbrev pub drop_stale : Runner V → Text → ℕ → CachedRun → Runner V
  drop_stale s key now cached =
      if ltb run_status_ttl (now - cached.created_at)
      then record s { idempotency_keys = Dict.remove key s.idempotency_keys }
      else s

  abbrev pub remember : Runner V → Option Text → Text → String → ℕ → Runner V
  remember s none fingerprint run_id now = s
  remember s (some key) fingerprint run_id now = record s {
    idempotency_keys =
        Dict.put key (record { fingerprint = fingerprint; run_id = run_id; created_at = now })
          s.idempotency_keys;
  }

  -- what the lookup of `previous_response_id` gives: the session id of the stored response
  abbrev pub previous_session : (Text → Option Text) → List (Text × V) → Text → Parsed Text
  previous_session stored (e ∷ history) previous = ok []
  previous_session stored [] [] = ok []
  previous_session stored [] (c ∷ previous) = elim (stored (c ∷ previous)) [
    | none ↦ raised (record { status = 404; message = "Previous response not found"; code = none })
    | some session_id ↦ ok session_id
  ]

  -- the log and the approval session of a new run
  abbrev pub logged_run : Runner V → String → Text → Option Text → ℕ → Runner V
  logged_run s run_id session_id session_key now = record s {
    run_event_logs = (Registry.get_or_create s.run_event_logs run_id now).0;
    run_approval_sessions = Dict.put run_id (key_or session_key session_id) s.run_approval_sessions;
  }

  -- `str` is a text as a value, `truthy` is bool(), and `stored` gives the session id of a stored
  -- response, empty if it has none.
  module _ (str : Text → V) (truthy : V → Bool) (stored : Text → Option Text) where
    -- the allocation: the log, the approval session, the status and the task
    unfoldable pub open_run : Runner V → String → Text → Option Text → V → ℕ → Runner V
    unfolding set_run_status Registry.get_or_create
    open_run s run_id session_id session_key model now =
        record (set_run_status (logged_run s run_id session_id session_key now) run_id queued
          (("session_id", str session_id) ∷ ("model", model) ∷ []) now) {
            active_run_tasks = Dict.put run_id (created false) s.active_run_tasks;
          }

    -- from the checks of the input on
    unfoldable pub allocate_run :
        Runner V → RunRequest V → Option Text → String → ℕ → Runner V × Reply V
    unfolding open_run user_message history_entries parse_session_key
    allocate_run s req key run_id now = elim (user_message str truthy req.input) [
      | raised e ↦ (s, refused e)
      | ok message ↦
          elim (previous_session stored (history_entries req.conversation_history)
            req.previous_response_id) [
              | raised e ↦ (s, refused e)
              | ok stored_session ↦
                  let kept = remember s key req.fingerprint run_id now in
                  let session_id =
                    first_text req.session_id (first_text stored_session (codes run_id)) in
                  elim (parse_session_key req.session_header) [
                    | raised e ↦ (kept, refused e)
                    | ok session_key ↦ (
                      open_run kept run_id session_id session_key req.model now,
                      started_run run_id session_key,
                    )
                  ]
            ]
    ]

    -- from the test of the number of runs on
    unfoldable pub admit_run :
        Runner V → RunRequest V → Option Text → String → ℕ → Runner V × Reply V
    unfolding allocate_run active_count
    admit_run s req key run_id now =
        if leb max_concurrent_runs (active_count s.active_run_tasks)
        then (s, too_many_runs)
        else allocate_run s req key run_id now

    -- what a cached run changes
    abbrev pub cached_run :
        Runner V → RunRequest V → Text → String → ℕ → Option CachedRun → Runner V × Reply V
    cached_run s req key run_id now none = admit_run s req (some key) run_id now
    cached_run s req key run_id now (some cached) =
        if is_fresh s req.fingerprint now cached
        then (s, started_run cached.run_id none)
        else admit_run (drop_stale s key now cached) req (some key) run_id now

    -- `_create_run`, with the id that a new run gets
    unfoldable pub create_run : Runner V → RunRequest V → String → ℕ → Runner V × Reply V
    unfolding admit_run parse_idempotency_key
    create_run s req run_id now = elim (parse_idempotency_key req.idempotency_header) [
      | raised e ↦ (s, refused e)
      | ok none ↦ admit_run s req none run_id now
      | ok (some key) ↦ cached_run s req key run_id now (Dict.get key s.idempotency_keys)
    ]

  -- `_get_run`
  unfoldable pub get_run : Runner V → String → Reply V
  get_run s run_id = elim (Dict.get run_id s.run_statuses) [
    | none ↦ run_not_found
    | some status ↦ run_status status
  ]

  abbrev pub cancel_at : Runner V → String → Runner V
  cancel_at s run_id = elim (Dict.get run_id s.active_run_tasks) [
    | none ↦ s
    | some task ↦ record s {
      active_run_tasks = Dict.put run_id (cancel_task task) s.active_run_tasks;
    }
  ]

  -- `_stop_run`; `last_event` is the value "run.stopping". The interruption is the agent's.
  unfoldable pub stop_run : Runner V → V → String → ℕ → Runner V × Reply V
  unfolding set_run_status
  stop_run s last_event run_id now =
      if not (has_key run_id s.active_run_agents) && not (has_key run_id s.active_run_tasks)
      then (s, run_not_found)
      else (
        cancel_at (set_run_status s run_id stopping (("last_event", last_event) ∷ []) now) run_id,
        stopping_run,
      )

  -- the drops of the first loop of the sweeper, for the runs whose logs were listed
  abbrev pub drop_run : Runner V → String → Runner V
  drop_run s run_id = record s {
    run_event_logs = Registry.drop s.run_event_logs run_id;
    active_run_agents = Dict.remove run_id s.active_run_agents;
    active_run_tasks = Dict.remove run_id s.active_run_tasks;
    run_approval_sessions = Dict.remove run_id s.run_approval_sessions;
  }

  unfoldable pub sweep_runs : ℕ → Dict String (RetainedEventLog V) → Runner V → Runner V
  unfolding Registry.drop
  sweep_runs now [] s = s
  sweep_runs now ((run_id, log) ∷ logs) s =
      let orphaned =
        ltb run_stream_ttl (now - log.updated_at)
        && not (is_busy (Dict.get run_id s.active_run_tasks)) in
      sweep_runs now logs (if orphaned then drop_run s run_id else s)

  abbrev pub is_expired : ℕ → RunStatus V → Bool
  is_expired now st = is_over st.status && ltb run_status_ttl (now - st.updated_at)

  -- `_sweep_orphaned_runs_once`, without the idempotency keys of responses
  unfoldable pub sweep_once : Runner V → ℕ → Runner V
  unfolding sweep_runs pop_if
  sweep_once s now =
      let swept = sweep_runs now s.run_event_logs.logs s in
      record swept {
        run_statuses = pop_if (is_expired now) swept.run_statuses;
        idempotency_keys =
            pop_if (λ c. ltb run_status_ttl (now - c.created_at)) swept.idempotency_keys;
      }
