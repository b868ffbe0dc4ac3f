-- ===== src/Runs/Handlers/Lifecycle.antt =====
-- How runs of src/hermes_vylen_gateway/agent_runner.py end, and one way in which they do not.
use hermes_vylen_gateway.Prelude.{
  ℕ, ◌-◌, ltb, ◌≡◌, refl, ◌∙◌, sym, ap, subst, inl, inr, Bool, true, false, String, List, [], ◌∷◌,
  some, ◌==◌, Eq, string_eq, Bool-cases, not, ◌&&◌, if◌then◌else◌, some-injective,
}
use hermes_vylen_gateway.Prelude.Dict
use hermes_vylen_gateway.Prelude.Dict.{Dict}
use hermes_vylen_gateway.Prelude.Text.{text_eq}
use hermes_vylen_gateway.EventLog.Log.{Codec, RetainedEventLog}
use hermes_vylen_gateway.Runs.State.{
  created, Status, stopping, RunStatus, Runner, RunEvent, updated, set_run_status, begin_run,
}
use hermes_vylen_gateway.Runs.Handlers.{
  run_stream_ttl, is_busy, stop_run, cancel_at, sweep_once, sweep_runs, has_key, drop_run, pop_if,
  is_expired,
}

pub pop_if-kept {ℓ κ} :
    {K : Type κ} {A : Type ℓ} ⦃e : Eq K⦄ (p : A → Bool) (k : K) (d : Dict K A) (a : A)
    → Dict.get k d ≡ some a
    → p a ≡ false
    → Dict.get k (pop_if p d) ≡ some a
unfolding pop_if Dict.get
pop_if-kept p k [] a h f = h
pop_if-kept p k ((j, b) ∷ d) a h f = elim (Bool-cases (j == k)) [
  | inl same ↦
      let e : b ≡ a =
        some-injective (subst (λ c. (if c then some b else Dict.get k d) ≡ some a) same h) in
      let stays : p b ≡ false = subst (λ x. p x ≡ false) (sym e) f in rw stays (rw same (ap some e))
  | inr other ↦
      let later : Dict.get k d ≡ some a =
        subst (λ c. (if c then some b else Dict.get k d) ≡ some a) other h in
      elim (Bool-cases (p b)) [
        | inl popped ↦ rw popped (pop_if-kept p k d a later f)
        | inr stays ↦ rw stays (rw other (pop_if-kept p k d a later f))
      ]
]

module _ {V : Type 0} where
  pub statuses-sweep_runs :
      (now : ℕ) (logs : Dict String (RetainedEventLog V)) (s : Runner V)
      → (sweep_runs now logs s).run_statuses ≡ s.run_statuses
  unfolding sweep_runs
  statuses-sweep_runs now [] s = refl
  statuses-sweep_runs now ((k, log) ∷ logs) s =
      dropped
        (ltb run_stream_ttl (now - log.updated_at) && not (is_busy (Dict.get k s.active_run_tasks)))
        (statuses-sweep_runs now logs)
    where
      dropped :
          (b : Bool)
          → ((u : Runner V) → (sweep_runs now logs u).run_statuses ≡ u.run_statuses)
          → (sweep_runs now logs (if b then drop_run s k else s)).run_statuses ≡ s.run_statuses
      dropped true ih = ih (drop_run s k)
      dropped false ih = ih s

  -- the sweeper at some times
  abbrev pub swept : List ℕ → Runner V → Runner V
  swept [] s = s
  swept (now ∷ times) s = swept times (sweep_once s now)

  -- The status of the run.
  abbrev pub Says : Runner V → String → Status → Type 0
  Says s id status =
      (st : RunStatus V) × (Dict.get id s.run_statuses ≡ some st) × (st.status ≡ status)

  sweep_once-Says :
      (s : Runner V) (id : String) (now : ℕ)
      → Says s id stopping
      → Says (sweep_once s now) id stopping
  unfolding sweep_once
  sweep_once-Says s id now (st, there, says) =
      let young : is_expired now st ≡ false = rw says refl in
      (
        st,
        pop_if-kept (is_expired now) id (sweep_runs now s.run_event_logs.logs s).run_statuses st
            (ap (Dict.get id) (statuses-sweep_runs now s.run_event_logs.logs s) ∙ there) young,
        says,
      )

  swept-Says :
      (times : List ℕ) (s : Runner V) (id : String)
      → Says s id stopping
      → Says (swept times s) id stopping
  swept-Says [] s id h = h
  swept-Says (now ∷ times) s id h =
      swept-Says times (sweep_once s now) id (sweep_once-Says s id now h)

  pub set_run_status-get :
      (s : Runner V) (id : String) (status : Status) (fields : List (String × V)) (now : ℕ)
      → Says (set_run_status s id status fields now) id status
  unfolding set_run_status
  set_run_status-get s id status fields now =
      let entry = updated (Dict.get id s.run_statuses) status fields now in
      (entry, Dict.get-put id id entry s.run_statuses ∙ rw ((string_eq.beq_iff id id).1 refl), refl)

  module _ (s : Runner V) (event : V) (id : String) (now : ℕ) (c : Bool)
      (waiting : Dict.get id s.active_run_tasks ≡ some (created c)) where
    -- the runner behind the request
    abbrev stopped : Runner V
    stopped = cancel_at (set_run_status s id stopping (("last_event", event) ∷ []) now) id

    stop_run-stopped : (stop_run s event id now).0 ≡ stopped
    unfolding stop_run
    stop_run-stopped =
        let known : has_key id s.active_run_tasks ≡ true = rw (waiting, has_key) refl in
        elim (Bool-cases (has_key id s.active_run_agents)) [
          | inl there ↦ rw there refl
          | inr missing ↦ rw missing (rw known refl)
        ]

    stopped-task : Dict.get id stopped.active_run_tasks ≡ some (created true)
    unfolding set_run_status
    stopped-task =
        rw (waiting, cancel_at)
          (Dict.get-put id id (created true) s.active_run_tasks
            ∙ rw ((string_eq.beq_iff id id).1 refl))

    stopped-Says : Says stopped id stopping
    unfolding set_run_status
    stopped-Says =
        rw (waiting, cancel_at) (set_run_status-get s id stopping (("last_event", event) ∷ []) now)

  module _ (codec : Codec V) (str : String → V) (describe : ℕ → ℕ → V)
      (body : String → ℕ → RunEvent V → V) where
    begin_run-Says :
        (s : Runner V) (id : String) (now : ℕ)
        → Dict.get id s.active_run_tasks ≡ some (created true)
        → Says s id stopping
        → Says (begin_run codec str describe body s id now) id stopping
    unfolding begin_run
    begin_run-Says s id now cut h = rw (cut, begin_run) h

    -- A run that is stopped before the first step of its task never enters its body: it says
    -- `stopping` for good, however often the sweeper runs.
    pub stop_run-stuck :
        (s : Runner V) (event : V) (id : String) (now now' : ℕ) (times : List ℕ)
        → Dict.get id s.active_run_tasks ≡ some (created false)
        → Says
            (swept times (begin_run codec str describe body (stop_run s event id now).0 id now'))
            id
            stopping
    stop_run-stuck s event id now now' times waiting =
        rw (stop_run-stopped s event id now false waiting) (
          swept-Says times
            (begin_run codec str describe body (stopped s event id now false waiting) id now') id
            (begin_run-Says (stopped s event id now false waiting) id now'
              (stopped-task s event id now false waiting)
              (stopped-Says s event id now false waiting)))
