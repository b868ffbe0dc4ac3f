-- ===== src/Runs/Retry/Between.antt =====
-- What an Idempotency-Key promises in src/hermes_vylen_gateway/agent_runner.py, whatever happens
-- between a request and the same request again.
use hermes_vylen_gateway.Prelude.{
  ℕ, ◌-◌, ◌≤◌, ◌<◌, ◌≡◌, ◌≢◌, refl, ap, ◌∙◌, inl, inr, Bool, true, false, String, [], ◌∷◌, Option,
  none, some, arith, string_eq, leb, ltb, Bool-cases, subst, if◌then◌else◌,
}
use hermes_vylen_gateway.Prelude.Dict
use hermes_vylen_gateway.Prelude.Dict.{Dict}
use hermes_vylen_gateway.Prelude.Text.{Text, text_eq, text_beq_refl}
use hermes_vylen_gateway.EventLog.Log.{Codec}
use hermes_vylen_gateway.Runs.Requests.{
  ok, RunRequest, parse_idempotency_key, parse_session_key, user_message, history_entries,
}
use hermes_vylen_gateway.Runs.State.{waiting_for_approval, Runner, RunEvent, approval_notify}
use hermes_vylen_gateway.Runs.Handlers.{
  create_run, previous_session, active_count, run_status_ttl, started_run,
}
use hermes_vylen_gateway.Runs.Handlers.Idempotent.{
  Remembers, opened, create_run-opened, opened-Remembers, create_run-again,
}
use hermes_vylen_gateway.Runs.Reach.{
  Step, creates, stops, approves, sweeps, begins, ends, notifies, reports,
}
use hermes_vylen_gateway.Runs.Retry.{
  Keeps, set_run_status-Keeps, append-Keeps, begin_run-Keeps, end_run-Keeps,
}
use hermes_vylen_gateway.Runs.Retry.Kept.{create_run-Keeps, sweep_once-Remembers}
use hermes_vylen_gateway.Runs.Retry.Requests.{stop_run-Keeps, run_approval-Keeps}

module _ {V : Type 0} (codec : Codec V) (str : String → V) (describe : ℕ → ℕ → V)
    (body : String → ℕ → RunEvent V → V) (strs : Text → V) (truthy : V → Bool)
    (stored : Text → Option Text) (lower : Text → Text) where
  module _ (key : Text) (id : String) (since : ℕ) where
    -- Steps that may come in between: the clock does not go back, sweeps come before the time to
    -- live is over, and a request for a run has another key or none.
    abbrev pub IsBetween :
        (s u : Runner V) → Step codec str describe body strs truthy stored lower s u → Type 0
    IsBetween s u (creates req rid now) =
        (since ≤ now) × (parse_idempotency_key req.idempotency_header ≢ ok (some key))
    IsBetween s u (stops event rid now) = since ≤ now
    IsBetween s u (approves resolve rid value now) = since ≤ now
    IsBetween s u (sweeps now) = now - since ≤ 3600
    IsBetween s u (begins rid now) = since ≤ now
    IsBetween s u (ends rid r now) = since ≤ now
    IsBetween s u (notifies rid now) = since ≤ now
    IsBetween s u (reports rid e now) = Unit

    pub data Between (s : Runner V) : Runner V → Type 0 where
      here : Between s s
      next :
          {t u : Runner V}
          → Between s t
          → (st : Step codec str describe body strs truthy stored lower t u) → IsBetween t u st
          → Between s u

    kept-Remembers :
        (s u : Runner V) (f : Text)
        → Keeps key id since s u
        → Remembers strs truthy stored s key f id since
        → Remembers strs truthy stored u key f id since
    kept-Remembers s u f (same, known) m = record {
      cached = same ∙ m.cached;
      known = known m.known;
    }

    step-Remembers :
        (s u : Runner V) (f : Text) (st : Step codec str describe body strs truthy stored lower s u)
        → IsBetween s u st
        → Remembers strs truthy stored s key f id since
        → Remembers strs truthy stored u key f id since
    step-Remembers s u f (creates req rid now) (le, differ) = kept-Remembers s u f (
        create_run-Keeps codec str describe body strs truthy stored key id since s req rid now le
          differ)
    step-Remembers s u f (stops event rid now) le =
        kept-Remembers s u f
          (stop_run-Keeps codec str describe body key id since s event rid now le)
    step-Remembers s u f (approves resolve rid value now) le =
        kept-Remembers s u f
          (run_approval-Keeps codec str describe body key id since lower resolve s rid value now le)
    step-Remembers s u f (sweeps now) young =
        sweep_once-Remembers codec str describe body strs truthy stored key id since s f now young
    step-Remembers s u f (begins rid now) le =
        kept-Remembers s u f (begin_run-Keeps key id since codec str describe body s rid now le)
    step-Remembers s u f (ends rid r now) le =
        kept-Remembers s u f (end_run-Keeps key id since codec str describe body s rid r now le)
    step-Remembers s u f (notifies rid now) le = kept-Remembers s u f (
        unfold approval_notify in
        set_run_status-Keeps key id since s rid waiting_for_approval
          (("last_event", str "approval.request") ∷ []) now le)
    step-Remembers s u f (reports rid e now) le =
        kept-Remembers s u f (append-Keeps key id since codec str describe body s rid e now)

    Between-Remembers :
        (s u : Runner V) (f : Text)
        → Between s u
        → Remembers strs truthy stored s key f id since
        → Remembers strs truthy stored u key f id since
    Between-Remembers s u f here m = m
    Between-Remembers s u f (next {t} b st may) m =
        step-Remembers t u f st may (Between-Remembers s t f b m)

  module _ (s : Runner V) (req : RunRequest V) (key : Text) (id : String) (now : ℕ) (message : V)
      (previous : Text) (session : Option Text)
      (keyed : parse_idempotency_key req.idempotency_header ≡ ok (some key))
      (said : user_message strs truthy req.input ≡ ok message)
      (there : previous_session stored
          (history_entries req.conversation_history)
          req.previous_response_id
        ≡ ok previous)
      (fine : parse_session_key req.session_header ≡ ok session)
      (room : active_count s.active_run_tasks < 10)
      (unused : Dict.get key s.idempotency_keys ≡ none) where
    abbrev begun : Runner V
    begun =
        opened strs truthy stored s req key id now message previous session keyed said there fine
          room unused

    -- the runner without the key
    abbrev pub forgot : Runner V → Runner V
    forgot u = record u { idempotency_keys = Dict.remove key u.idempotency_keys }

    expired-forgot :
        (u : Runner V) (later : String) (now' : ℕ)
        → Remembers strs truthy stored u key req.fingerprint id now
        → leb (now' - now) 3600 ≡ false
        → create_run strs truthy stored u req later now'
          ≡ create_run strs truthy stored (forgot u) req later now'
    unfolding create_run
    expired-forgot u later now' m stale =
        let over : ltb run_status_ttl (now' - now) ≡ true = ground arith in
        let gone : Dict.get key (Dict.remove key u.idempotency_keys) ≡ none =
          Dict.get-remove key key u.idempotency_keys ∙ rw (text_beq_refl key) refl in
        rw (keyed, create_run) (rw (m.cached, gone) (rw (stale, over) refl))

    retried :
        (u : Runner V) (later : String) (now' : ℕ)
        → Remembers strs truthy stored u key req.fingerprint id now
        → create_run strs truthy stored u req later now' ≡ (
            if leb (now' - now) 3600
            then (u, started_run id none)
            else create_run strs truthy stored (forgot u) req later now')
    retried u later now' m = elim (Bool-cases (leb (now' - now) 3600)) [
      | inl young ↦
          rw young
            (create_run-again strs truthy stored u req key id later now now' keyed m (ground arith))
      | inr old ↦ rw old (expired-forgot u later now' m old)
    ]

    -- A request with a new idempotency key that is accepted opens a run. Whatever happens then, but
    -- for a request for a run with the same key and for sweeps behind the time to live, the same
    -- request, with whatever id a new run would get, is answered with that run and changes nothing
    -- until the time to live is over; behind that it is treated as if its key were new. The clock
    -- does not go back.
    pub create_run-idempotent :
        (u : Runner V) (later : String) (now' : ℕ)
        → Between key id now (create_run strs truthy stored s req id now).0 u
        → ((create_run strs truthy stored s req id now).1 ≡ started_run id session)
          × (create_run strs truthy stored u req later now' ≡ (
              if leb (now' - now) 3600
              then (u, started_run id none)
              else create_run strs truthy stored (forgot u) req later now'))
    create_run-idempotent u later now' between =
        let first =
          create_run-opened strs truthy stored s req key id now message previous session keyed said
            there fine room unused in
        let remembers =
          opened-Remembers strs truthy stored s req key id now message previous session keyed said
            there fine room unused in
        let after = subst (λ r. Between key id now r.0 u) first between in
        (
          ap (λ r. r.1) first,
          retried u later now'
              (Between-Remembers key id now begun u req.fingerprint after remembers),
        )
