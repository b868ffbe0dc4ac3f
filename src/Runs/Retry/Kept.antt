-- ===== src/Runs/Retry/Kept.antt =====
-- What a request for a run with another key, and a sweep, leave of an idempotency key in
-- src/hermes_vylen_gateway/agent_runner.py.
use hermes_vylen_gateway.Prelude.{
  ℕ, ◌-◌, ◌≤◌, ◌≡◌, ◌≢◌, refl, ap, ◌∙◌, inl, inr, Bool, true, false, String, [], ◌∷◌, Option, none,
  some, arith, ◌==◌, string_eq, leb, ltb, not, ◌&&◌, Bool-cases, if◌then◌else◌,
}
use hermes_vylen_gateway.Prelude.Dict
use hermes_vylen_gateway.Prelude.Dict.{Dict}
use hermes_vylen_gateway.Prelude.Text.{Text, text_eq, text_beq_iff}
use hermes_vylen_gateway.EventLog.Log.{Codec, RetainedEventLog}
use hermes_vylen_gateway.Runs.Requests.{ok, Parsed-cases, RunRequest, parse_idempotency_key}
use hermes_vylen_gateway.Runs.State.{CachedRun, Runner, RunEvent}
use hermes_vylen_gateway.Runs.Handlers.{
  create_run, admit_run, drop_stale, cached_run, sweep_once, sweep_runs, is_fresh, is_expired,
  active_count, run_status_ttl, drop_run, run_stream_ttl, is_busy,
}
use hermes_vylen_gateway.Runs.Handlers.Lifecycle.{pop_if-kept, statuses-sweep_runs}
use hermes_vylen_gateway.Runs.Handlers.Idempotent.{Remembers}
use hermes_vylen_gateway.Runs.Retry.{Keeps, then-Keeps}
use hermes_vylen_gateway.Runs.Retry.Requests.{allocate_run-Keeps}

keys-sweep_runs :
    {V : Type 0} (now : ℕ) (logs : Dict String (RetainedEventLog V)) (s : Runner V)
    → (sweep_runs now logs s).idempotency_keys ≡ s.idempotency_keys
unfolding sweep_runs
keys-sweep_runs now [] s = refl
keys-sweep_runs {V} now ((k, log) ∷ logs) s =
    dropped
      (ltb run_stream_ttl (now - log.updated_at) && not (is_busy (Dict.get k s.active_run_tasks)))
      (keys-sweep_runs now logs)
  where
    dropped :
        (b : Bool)
        → ((u : Runner V) → (sweep_runs now logs u).idempotency_keys ≡ u.idempotency_keys)
        → (sweep_runs now logs (if b then drop_run s k else s)).idempotency_keys
          ≡ s.idempotency_keys
    dropped true ih = ih (drop_run s k)
    dropped false ih = ih s

module _ {V : Type 0} (codec : Codec V) (str : String → V) (describe : ℕ → ℕ → V)
    (body : String → ℕ → RunEvent V → V) (strs : Text → V) (truthy : V → Bool)
    (stored : Text → Option Text) where
  module _ (key : Text) (id : String) (since : ℕ) where
    abbrev pub Leaves : Runner V → Runner V → Type 0
    Leaves = Keeps key id since

    admit_run-Keeps :
        (s : Runner V) (req : RunRequest V) (other : Option Text) (rid : String) (now : ℕ)
        → since ≤ now
        → other ≢ some key
        → Leaves s (admit_run strs truthy stored s req other rid now).0
    unfolding admit_run
    admit_run-Keeps s req other rid now le differ =
        elim (Bool-cases (leb 10 (active_count s.active_run_tasks))) [
          | inl full ↦ rw full (refl, λ k. k)
          | inr free ↦ rw free (
              allocate_run-Keeps codec str describe body key id since strs truthy stored s req other
                rid now le differ)
        ]

    drop_stale-Keeps :
        (s : Runner V) (other : Text) (now : ℕ) (c : CachedRun)
        → other ≢ key
        → Leaves s (drop_stale s other now c)
    drop_stale-Keeps s other now c differ =
        let apart : (other == key) ≡ false = ground (arith, text_beq_iff other key) in
        elim (Bool-cases (ltb run_status_ttl (now - c.created_at))) [
          | inl old ↦ rw old (Dict.get-remove other key s.idempotency_keys ∙ rw apart refl, λ k. k)
          | inr young ↦ rw young (refl, λ k. k)
        ]

    cached_run-Keeps :
        (s : Runner V) (req : RunRequest V) (other : Text) (rid : String) (now : ℕ)
        (c : Option CachedRun)
        → since ≤ now
        → other ≢ key
        → some other ≢ some key
        → Leaves s (cached_run strs truthy stored s req other rid now c).0
    cached_run-Keeps s req other rid now none le differ d =
        admit_run-Keeps s req (some other) rid now le d
    cached_run-Keeps s req other rid now (some c) le differ d =
        elim (Bool-cases (is_fresh s req.fingerprint now c)) [
          | inl fresh ↦ rw fresh (refl, λ k. k)
          | inr old ↦ rw old (
              then-Keeps key id since s (drop_stale s other now c)
                (admit_run strs truthy stored (drop_stale s other now c) req (some other) rid now).0
                (drop_stale-Keeps s other now c differ)
                (admit_run-Keeps (drop_stale s other now c) req (some other) rid now le d))
        ]

    pub create_run-Keeps :
        (s : Runner V) (req : RunRequest V) (rid : String) (now : ℕ)
        → since ≤ now
        → parse_idempotency_key req.idempotency_header ≢ ok (some key)
        → Leaves s (create_run strs truthy stored s req rid now).0
    unfolding create_run
    create_run-Keeps s req rid now le differ =
        elim (Parsed-cases (parse_idempotency_key req.idempotency_header)) [
          | inr (e, bad) ↦ rw (bad, create_run) (refl, λ k. k)
          | inl (none, no_key) ↦
              rw (no_key, create_run) (admit_run-Keeps s req none rid now le (λ e. absurd (cc)))
          | inl (some other, keyed) ↦
              let d : some other ≢ some key = λ e. differ (keyed ∙ ap ok e) in
              rw (keyed, create_run)
                (cached_run-Keeps s req other rid now (Dict.get other s.idempotency_keys) le
                  (λ e. d (ap some e)) d)
        ]

    pub sweep_once-Remembers :
        (s : Runner V) (f : Text) (now : ℕ)
        → now - since ≤ 3600
        → Remembers strs truthy stored s key f id since
        → Remembers strs truthy stored (sweep_once s now) key f id since
    unfolding sweep_once
    sweep_once-Remembers s f now young m =
        let (st, there, set) = m.known in
        let swept = sweep_runs now s.run_event_logs.logs s in
        let fresh : ltb run_status_ttl (now - since) ≡ false = ground arith in
        let recent : ltb run_status_ttl (now - st.updated_at) ≡ false = ground arith in
        let unexpired : is_expired now st ≡ false = ground (arith, recent) in
        record {
          cached =
              pop_if-kept (λ c. ltb run_status_ttl (now - c.created_at)) key swept.idempotency_keys
                (record { fingerprint = f; run_id = id; created_at = since })
                (ap (Dict.get key) (keys-sweep_runs now s.run_event_logs.logs s) ∙ m.cached) fresh;
          known = (
            st,
            pop_if-kept (is_expired now) id swept.run_statuses st
                (ap (Dict.get id) (statuses-sweep_runs now s.run_event_logs.logs s) ∙ there)
                unexpired,
            set,
          );
        }
