-- ===== src/Runs/Handlers/Bound.antt =====
-- The tasks of runs that src/hermes_vylen_gateway/agent_runner.py keeps: their number, and what the
-- sweeper leaves.
use hermes_vylen_gateway.Prelude.{
  ℕ, ◌+◌, ◌-◌, ◌≤◌, ◌<◌, ◌≡◌, refl, ap, sym, subst, some-injective, inl, inr, Bool, true, false,
  String, [], ◌∷◌, ◌∙◌, Option, none, some, arith, ◌==◌, string_eq, Bool-cases, Option-cases, leb,
  not, ◌&&◌, ltb, if◌then◌else◌,
}
use hermes_vylen_gateway.Prelude.Dict
use hermes_vylen_gateway.Prelude.Dict.{Dict}
use hermes_vylen_gateway.Prelude.Text.{Text, text_eq}
use hermes_vylen_gateway.EventLog.Log.{RetainedEventLog}
use hermes_vylen_gateway.Runs.Requests.{
  RunRequest, Parsed-cases, user_message, history_entries, parse_session_key, parse_idempotency_key,
}
use hermes_vylen_gateway.Runs.State.{
  CachedRun, TaskState, created, started, done, Runner, is_done, cancel_task,
}
use hermes_vylen_gateway.Runs.Handlers.{
  active_count, create_run, admit_run, allocate_run, open_run, remember, previous_session,
  cached_run, drop_stale, cancel_at, sweep_runs, sweep_once, is_fresh, run_status_ttl,
  run_stream_ttl, drop_run, is_busy,
}

abbrev pub weight : TaskState → ℕ
weight t = if is_done t then 0 else 1

count-put :
    (k : String) (t : TaskState) (d : Dict String TaskState)
    → active_count (Dict.put k t d) ≤ weight t + active_count d
unfolding active_count Dict.put
count-put k t [] = omega arith
count-put k t ((j, u) ∷ d) = ground (arith, count-put k t d)

count-put_head :
    (b : Bool) (k j : String) (t u x : TaskState) (d : Dict String TaskState)
    → (if b then some x else Dict.get k d) ≡ some u
    → weight t ≤ weight u
    → (Dict.get k d ≡ some u → active_count (Dict.put k t d) ≤ active_count d)
    → active_count (if b then (k, t) ∷ d else (j, x) ∷ Dict.put k t d) ≤ weight x + active_count d
unfolding active_count
count-put_head true k j t u x d h w ih =
    let lighter : weight t ≤ weight x =
      subst (λ y. weight t ≤ weight y) (sym (some-injective h)) w in
    omega arith
count-put_head false k j t u x d h w ih = let later = ih h in omega arith

pub count-put_lighter :
    (k : String) (t u : TaskState) (d : Dict String TaskState)
    → Dict.get k d ≡ some u
    → weight t ≤ weight u
    → active_count (Dict.put k t d) ≤ active_count d
unfolding active_count Dict.put Dict.get
count-put_lighter k t u [] h w = absurd (cc)
count-put_lighter k t u ((j, x) ∷ d) h w =
    count-put_head (j == k) k j t u x d h w (λ g. count-put_lighter k t u d g w)

pub count-remove :
    (k : String) (d : Dict String TaskState) → active_count (Dict.remove k d) ≤ active_count d
unfolding active_count Dict.remove
count-remove k [] = omega arith
count-remove k ((j, u) ∷ d) = ground (arith, count-remove k d)

module _ {V : Type 0} where
  abbrev pub count : Runner V → ℕ
  count s = active_count s.active_run_tasks

  module _ (str : Text → V) (truthy : V → Bool) (stored : Text → Option Text) where
    count-remember :
        (s : Runner V) (key : Option Text) (f : Text) (id : String) (now : ℕ)
        → (remember s key f id now).active_run_tasks ≡ s.active_run_tasks
    count-remember s none f id now = refl
    count-remember s (some key) f id now = refl

    count-allocate_run :
        (s : Runner V) (req : RunRequest V) (key : Option Text) (id : String) (now : ℕ)
        → count (allocate_run str truthy stored s req key id now).0 ≤ 1 + count s
    unfolding allocate_run open_run
    count-allocate_run s req key id now = elim (Parsed-cases (user_message str truthy req.input)) [
      | inr (e, bad) ↦ rw (bad, allocate_run) (omega arith)
      | inl (m, fine) ↦
          elim (Parsed-cases (
            previous_session stored (history_entries req.conversation_history)
              req.previous_response_id)) [
                | inr (e, missing) ↦ rw (fine, allocate_run) (rw missing (omega arith))
                | inl (session, there) ↦
                    elim (Parsed-cases (parse_session_key req.session_header)) [
                      | inr (e, bad) ↦
                          rw (fine, allocate_run)
                            (rw there (
                              rw bad
                                (rw (count-remember s key req.fingerprint id now) (omega arith))))
                      | inl (k, good) ↦
                          rw (fine, allocate_run)
                            (rw there (
                              rw good (
                                rw (count-remember s key req.fingerprint id now)
                                  (count-put id (created false) s.active_run_tasks))))
                    ]
              ]
    ]

    count-admit_run :
        (s : Runner V) (req : RunRequest V) (key : Option Text) (id : String) (now : ℕ)
        → count s ≤ 10
        → count (admit_run str truthy stored s req key id now).0 ≤ 10
    unfolding admit_run
    count-admit_run s req key id now h = elim (Bool-cases (leb 10 (count s))) [
      | inl full ↦ rw full h
      | inr free ↦ rw free (
          let room : count s < 10 = ground arith in
          omega (arith, count-allocate_run s req key id now))
    ]

    pub count-create_run :
        (s : Runner V) (req : RunRequest V) (id : String) (now : ℕ)
        → count s ≤ 10
        → count (create_run str truthy stored s req id now).0 ≤ 10
    unfolding create_run
    count-create_run s req id now h =
        elim (Parsed-cases (parse_idempotency_key req.idempotency_header)) [
          | inr (e, bad) ↦ rw (bad, create_run) h
          | inl (none, no_key) ↦ rw (no_key, create_run) (count-admit_run s req none id now h)
          | inl (some key, keyed) ↦
              rw (keyed, create_run) (count-cached_run key (Dict.get key s.idempotency_keys))
        ]
      where
        count-cached_run :
            (key : Text) (c : Option CachedRun)
            → count (cached_run str truthy stored s req key id now c).0 ≤ 10
        count-cached_run key none = count-admit_run s req (some key) id now h
        count-cached_run key (some c) = elim (Bool-cases (is_fresh s req.fingerprint now c)) [
          | inl fresh ↦ rw fresh h
          | inr stale ↦ rw stale (
              count-admit_run (drop_stale s key now c) req (some key) id now
                (elim (Bool-cases (ltb run_status_ttl (now - c.created_at))) [
                  | inl old ↦ rw old h
                  | inr young ↦ rw young h
                ]))
        ]

  pub count-cancel_at : (s : Runner V) (id : String) → count (cancel_at s id) ≤ count s
  count-cancel_at s id = elim (Option-cases (Dict.get id s.active_run_tasks)) [
    | inl miss ↦ rw (miss, cancel_at) (omega arith)
    | inr (t, found) ↦
        rw (found, cancel_at)
          (count-put_lighter id (cancel_task t) t s.active_run_tasks found (weight-cancel_task t))
  ]
    where
      weight-cancel_task : (t : TaskState) → weight (cancel_task t) ≤ weight t
      weight-cancel_task (created c) = omega arith
      weight-cancel_task (started c) = omega arith
      weight-cancel_task done = omega arith

  pub count-sweep_runs :
      (now : ℕ) (logs : Dict String (RetainedEventLog V)) (s : Runner V)
      → count (sweep_runs now logs s) ≤ count s
  unfolding sweep_runs
  count-sweep_runs now [] s = omega arith
  count-sweep_runs now ((k, log) ∷ logs) s =
      kept
        (ltb run_stream_ttl (now - log.updated_at) && not (is_busy (Dict.get k s.active_run_tasks)))
        (count-sweep_runs now logs)
    where
      kept :
          (b : Bool)
          → ((u : Runner V) → count (sweep_runs now logs u) ≤ count u)
          → count (sweep_runs now logs (if b then drop_run s k else s)) ≤ count s
      kept true ih = omega (arith, ih (drop_run s k), count-remove k s.active_run_tasks)
      kept false ih = ih s

  -- a sweep takes no task out of the table that is not done
  sweep_runs-live :
      (now : ℕ) (logs : Dict String (RetainedEventLog V)) (s : Runner V) (id : String)
      (t : TaskState)
      → Dict.get id s.active_run_tasks ≡ some t
      → is_done t ≡ false
      → Dict.get id (sweep_runs now logs s).active_run_tasks ≡ some t
  unfolding sweep_runs
  sweep_runs-live now [] s id t there live = there
  sweep_runs-live now ((k, log) ∷ logs) s id t there live =
      kept
        (ltb run_stream_ttl (now - log.updated_at) && not (is_busy (Dict.get k s.active_run_tasks)))
        (λ orphaned. ground arith) (sweep_runs-live now logs)
    where
      drop_run-live :
          is_busy (Dict.get k s.active_run_tasks) ≡ false
          → Dict.get id (drop_run s k).active_run_tasks ≡ some t
      drop_run-live idle = elim (Bool-cases (k == id)) [
        | inl same ↦
            let e : k ≡ id = (string_eq.beq_iff k id).0 same in
            let busy : is_busy (Dict.get k s.active_run_tasks) ≡ true =
              ap (λ j. is_busy (Dict.get j s.active_run_tasks)) e
              ∙ ap is_busy there
              ∙ ap not live in
            absurd (cc)
        | inr other ↦ Dict.get-remove k id s.active_run_tasks ∙ rw other there
      ]

      kept :
          (b : Bool)
          → (b ≡ true → is_busy (Dict.get k s.active_run_tasks) ≡ false)
          → ((u : Runner V) (i : String) (x : TaskState)
              → Dict.get i u.active_run_tasks ≡ some x
              → is_done x ≡ false
              → Dict.get i (sweep_runs now logs u).active_run_tasks ≡ some x)
          → Dict.get id (sweep_runs now logs (if b then drop_run s k else s)).active_run_tasks
            ≡ some t
      kept true idle ih = ih (drop_run s k) id t (drop_run-live (idle refl)) live
      kept false idle ih = ih s id t there live

  pub sweep_once-busy :
      (s : Runner V) (id : String) (now : ℕ)
      → (if is_busy (Dict.get id s.active_run_tasks)
          then Dict.get id (sweep_once s now).active_run_tasks
          else Dict.get id s.active_run_tasks)
        ≡ Dict.get id s.active_run_tasks
  unfolding sweep_once
  sweep_once-busy s id now = elim (Option-cases (Dict.get id s.active_run_tasks)) [
    | inl miss ↦ rw miss refl
    | inr (done, over) ↦ rw over refl
    | inr (created c, there) ↦
        rw there (sweep_runs-live now s.run_event_logs.logs s id (created c) there refl)
    | inr (started c, there) ↦
        rw there (sweep_runs-live now s.run_event_logs.logs s id (started c) there refl)
  ]
