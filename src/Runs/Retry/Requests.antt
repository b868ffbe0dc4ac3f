-- ===== src/Runs/Retry/Requests.antt =====
-- What the requests of src/hermes_vylen_gateway/agent_runner.py leave of an idempotency key and of
-- the run that it names.
use hermes_vylen_gateway.Prelude.{
  ℕ, ◌≤◌, ◌≡◌, ◌≢◌, refl, ap, ◌∙◌, inl, inr, Bool, false, String, [], ◌∷◌, Option, none, some, ◌==◌,
  string_eq, nat_eq, not, ◌&&◌, Bool-cases, Option-cases,
}
use hermes_vylen_gateway.Prelude.Dict
use hermes_vylen_gateway.Prelude.Dict.{Dict}
use hermes_vylen_gateway.Prelude.Text.{Text, text_eq, text_beq_iff, codes}
use hermes_vylen_gateway.EventLog.Log.{Codec}
use hermes_vylen_gateway.Runs.Requests.{
  Parsed-cases, RunRequest, parse_session_key, user_message, history_entries,
}
use hermes_vylen_gateway.Runs.State.{
  stopping, running, queued, CachedRun, Runner, RunEvent, approval_responded, set_run_status,
  append_run_event,
}
use hermes_vylen_gateway.Runs.Handlers.{
  allocate_run, open_run, remember, previous_session, stop_run, cancel_at, has_key, logged_run,
  first_text,
}
use hermes_vylen_gateway.Runs.Approvals.{
  run_approval, Resolution, resolved, resolving_failed, answer_approval, parse_choice, is_choice,
}
use hermes_vylen_gateway.Runs.Retry.{Keeps, then-Keeps, set_run_status-Keeps, append-Keeps}

module _ {V : Type 0} (codec : Codec V) (str : String → V) (describe : ℕ → ℕ → V)
    (body : String → ℕ → RunEvent V → V) (key : Text) (id : String) (since : ℕ) where
  abbrev Leaves : Runner V → Runner V → Type 0
  Leaves = Keeps key id since

  pub same-Keeps : (s : Runner V) → Leaves s s
  same-Keeps s = (refl, λ k. k)

  pub stop_run-Keeps :
      (s : Runner V) (event : V) (rid : String) (now : ℕ)
      → since ≤ now
      → Leaves s (stop_run s event rid now).0
  unfolding stop_run
  stop_run-Keeps s event rid now le =
      let marked = set_run_status s rid stopping (("last_event", event) ∷ []) now in
      elim (Bool-cases
        (not (has_key rid s.active_run_agents) && not (has_key rid s.active_run_tasks))) [
          | inl unknown ↦ rw (unknown, stop_run) (same-Keeps s)
          | inr known ↦
              rw (known, stop_run)
                (then-Keeps key id since s marked (cancel_at marked rid)
                  (set_run_status-Keeps key id since s rid stopping (("last_event", event) ∷ []) now
                    le)
                  (cancel_at-Keeps marked))
        ]
    where
      cancel_at-Keeps : (t : Runner V) → Leaves t (cancel_at t rid)
      cancel_at-Keeps t = elim (Option-cases (Dict.get rid t.active_run_tasks)) [
        | inl miss ↦ rw (miss, cancel_at) (refl, λ k. k)
        | inr (x, found) ↦ rw (found, cancel_at) (refl, λ k. k)
      ]

  module _ (s : Runner V) (rid : String) (choice : Text) (now : ℕ) (n : ℕ) (le : since ≤ now) where
    abbrev marked : Runner V
    marked = set_run_status s rid running (("last_event", str "approval.responded") ∷ []) now

    marked-Keeps : Leaves s marked
    marked-Keeps =
        set_run_status-Keeps key id since s rid running
          (("last_event", str "approval.responded") ∷ []) now le

    logged-Keeps :
        Leaves s
          (append_run_event codec str describe body marked rid (approval_responded choice n) now).0
    logged-Keeps =
        then-Keeps key id since s marked
          (append_run_event codec str describe body marked rid (approval_responded choice n) now).0
          marked-Keeps
          (append-Keeps key id since codec str describe body marked rid
            (approval_responded choice n) now)

  answer_approval-Keeps :
      (s : Runner V) (rid : String) (choice : Text) (now : ℕ) (r : Resolution V)
      → since ≤ now
      → Leaves s (answer_approval codec str describe body s rid choice now r).0
  answer_approval-Keeps s rid choice now (resolving_failed e) le = (refl, λ k. k)
  answer_approval-Keeps s rid choice now (resolved n) le = elim (Bool-cases (n == 0)) [
    | inl none_left ↦ rw (none_left, answer_approval) (same-Keeps s)
    | inr some_left ↦ elim (Bool-cases (has_key rid s.run_event_logs.logs)) [
      | inl there ↦ rw (some_left, answer_approval) (rw there (logged-Keeps s rid choice now n le))
      | inr unlogged ↦
          rw (some_left, answer_approval) (rw unlogged (marked-Keeps s rid choice now n le))
    ]
  ]

  pub run_approval-Keeps :
      (lower : Text → Text) (resolve : Text → Text → Resolution V) (s : Runner V) (rid : String)
      (value : Text) (now : ℕ)
      → since ≤ now
      → Leaves s (run_approval codec str describe body lower resolve s rid value now).0
  unfolding run_approval
  run_approval-Keeps lower resolve s rid value now le =
      elim (Bool-cases (has_key rid s.run_statuses)) [
        | inr unknown ↦ rw (unknown, run_approval) (same-Keeps s)
        | inl known ↦ elim (Bool-cases (is_choice (parse_choice lower value))) [
          | inr invalid ↦ rw (known, run_approval) (rw invalid (same-Keeps s))
          | inl valid ↦ elim (Option-cases (Dict.get rid s.run_approval_sessions)) [
            | inl miss ↦ rw (known, run_approval) (rw valid (rw miss (same-Keeps s)))
            | inr ([], there) ↦ rw (known, run_approval) (rw valid (rw there (same-Keeps s)))
            | inr (c ∷ k, there) ↦
                rw (known, run_approval)
                  (rw valid (
                    rw there (
                      answer_approval-Keeps s rid (parse_choice lower value) now
                        (resolve (c ∷ k) (parse_choice lower value)) le)))
          ]
        ]
      ]

  module _ (strs : Text → V) (truthy : V → Bool) (stored : Text → Option Text) where
    remember-Keeps :
        (s : Runner V) (other : Option Text) (f : Text) (rid : String) (now : ℕ)
        → other ≢ some key
        → Leaves s (remember s other f rid now)
    remember-Keeps s none f rid now differ = (refl, λ k. k)
    remember-Keeps s (some k') f rid now differ =
        let entry : CachedRun = record { fingerprint = f; run_id = rid; created_at = now } in
        let apart : (k' == key) ≡ false = elim (Bool-cases (k' == key)) [
          | inl same ↦ absurd (differ (ap some ((text_beq_iff k' key).0 same)))
          | inr other ↦ other
        ] in
        (Dict.get-put k' key entry s.idempotency_keys ∙ rw apart refl, λ k. k)

    pub allocate_run-Keeps :
        (s : Runner V) (req : RunRequest V) (other : Option Text) (rid : String) (now : ℕ)
        → since ≤ now
        → other ≢ some key
        → Leaves s (allocate_run strs truthy stored s req other rid now).0
    unfolding allocate_run open_run
    allocate_run-Keeps s req other rid now le differ =
        let kept = remember-Keeps s other req.fingerprint rid now differ in
        elim (Parsed-cases (user_message strs truthy req.input)) [
          | inr (e, bad) ↦ rw (bad, allocate_run) (same-Keeps s)
          | inl (m, fine) ↦
              elim (Parsed-cases (
                previous_session stored (history_entries req.conversation_history)
                  req.previous_response_id)) [
                    | inr (e, missing) ↦ rw (fine, allocate_run) (rw missing (same-Keeps s))
                    | inl (session, there) ↦
                        elim (Parsed-cases (parse_session_key req.session_header)) [
                          | inr (e, bad) ↦ rw (fine, allocate_run) (rw there (rw bad kept))
                          | inl (k, good) ↦
                              rw (fine, allocate_run)
                                (rw there (
                                  rw good (
                                    opened-Keeps
                                      (first_text req.session_id (first_text session (codes rid))) k
                                      kept)))
                        ]
                  ]
        ]
      where
        opened-Keeps :
            (session_id : Text) (k : Option Text)
            → Leaves s (remember s other req.fingerprint rid now)
            → Leaves s (
                open_run strs truthy stored
                  (remember s other req.fingerprint rid now)
                  rid
                  session_id
                  k
                  req.model
                  now)
        opened-Keeps session_id k (a, f) =
            let base = logged_run (remember s other req.fingerprint rid now) rid session_id k now in
            let fields = ("session_id", strs session_id) ∷ ("model", req.model) ∷ [] in
            let (b, g) = set_run_status-Keeps key id since base rid queued fields now le in
            (b ∙ a, λ h. g (f h))
