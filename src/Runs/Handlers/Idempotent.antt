-- ===== src/Runs/Handlers/Idempotent.antt =====
-- What an Idempotency-Key promises in src/hermes_vylen_gateway/agent_runner.py.
use hermes_vylen_gateway.Prelude.{
  ℕ, ◌-◌, ◌≤◌, ◌<◌, ◌≡◌, refl, ◌∙◌, Bool, true, false, String, [], ◌∷◌, Option, none, some, arith,
  string_eq, leb,
}
use hermes_vylen_gateway.Prelude.Dict
use hermes_vylen_gateway.Prelude.Text.{Text, text_eq, text_beq_refl, codes}
use hermes_vylen_gateway.Runs.Requests.{
  ok, RunRequest, parse_idempotency_key, parse_session_key, user_message, history_entries,
}
use hermes_vylen_gateway.Runs.State.{Runner, RunStatus, CachedRun, queued, updated, set_run_status}
use hermes_vylen_gateway.Runs.Handlers.{
  started_run, create_run, admit_run, allocate_run, open_run, active_count, cached_run, has_key,
  run_status_ttl, previous_session, first_text, remember,
}

module _ {V : Type 0} (str : Text → V) (truthy : V → Bool) (stored : Text → Option Text) where
  -- A runner that remembers the run of a key.
  pub record Remembers (s : Runner V) (key fingerprint : Text) (id : String) (now : ℕ)
      : Type 0 where
    pub cached :
        Dict.get key s.idempotency_keys
        ≡ some (record { fingerprint = fingerprint; run_id = id; created_at = now })
    pub known : (st : RunStatus V) × (Dict.get id s.run_statuses ≡ some st) × (now ≤ st.updated_at)

  -- A request whose key is remembered for the same body is answered with the same run, and nothing
  -- changes, until the time to live is over.
  pub create_run-again :
      (s : Runner V) (req : RunRequest V) (key : Text) (id later : String) (now now' : ℕ)
      → parse_idempotency_key req.idempotency_header ≡ ok (some key)
      → Remembers s key req.fingerprint id now
      → now' - now ≤ run_status_ttl
      → create_run str truthy stored s req later now' ≡ (s, started_run id none)
  unfolding create_run
  create_run-again s req key id later now now' keyed m young =
      let fresh : leb (now' - now) run_status_ttl ≡ true = ground arith in
      let (st, there, young') = m.known in
      let known : has_key id s.run_statuses ≡ true = rw (there, has_key) refl in
      rw (keyed, create_run)
        (rw (m.cached, cached_run) (rw fresh (rw (text_beq_refl req.fingerprint) (rw known refl))))

  module _ (s : Runner V) (req : RunRequest V) (key : Text) (id : String) (now : ℕ) (message : V)
      (previous : Text) (session : Option Text)
      (keyed : parse_idempotency_key req.idempotency_header ≡ ok (some key))
      (said : user_message str truthy req.input ≡ ok message)
      (there : previous_session stored
          (history_entries req.conversation_history)
          req.previous_response_id
        ≡ ok previous)
      (fine : parse_session_key req.session_header ≡ ok session)
      (room : active_count s.active_run_tasks < 10)
      (unused : Dict.get key s.idempotency_keys ≡ none) where
    abbrev kept : Runner V
    kept = remember s (some key) req.fingerprint id now

    abbrev session_id : Text
    session_id = first_text req.session_id (first_text previous (codes id))

    abbrev pub opened : Runner V
    opened = open_run str truthy stored kept id session_id session req.model now

    pub opened-Remembers : Remembers opened key req.fingerprint id now
    unfolding open_run set_run_status
    opened-Remembers =
        let fields = ("session_id", str session_id) ∷ ("model", req.model) ∷ [] in
        let st = updated (Dict.get id s.run_statuses) queued fields now in
        let entry : CachedRun = record {
          fingerprint = req.fingerprint;
          run_id = id;
          created_at = now;
        } in
        record {
          cached = Dict.get-put key key entry s.idempotency_keys ∙ rw (text_beq_refl key);
          known = (
            st,
            Dict.get-put id id st s.run_statuses ∙ rw ((string_eq.beq_iff id id).1 refl),
            omega arith,
          );
        }

    pub create_run-opened :
        create_run str truthy stored s req id now ≡ (opened, started_run id session)
    unfolding create_run admit_run allocate_run
    create_run-opened =
        let free : leb 10 (active_count s.active_run_tasks) ≡ false = ground arith in
        rw (keyed, create_run)
          (rw (unused, cached_run)
            (rw (free, admit_run) (rw (said, allocate_run) (rw there (rw fine refl)))))
