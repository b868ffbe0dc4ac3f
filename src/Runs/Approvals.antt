-- ===== src/Runs/Approvals.antt =====
-- `_run_approval` of src/hermes_vylen_gateway/agent_runner.py.
use hermes_vylen_gateway.Prelude.{
  ℕ, Bool, not, String, [], ◌∷◌, none, some, ◌==◌, nat_eq, string_eq, ◌||◌, if◌then◌else◌,
}
use hermes_vylen_gateway.Prelude.Dict
use hermes_vylen_gateway.Prelude.Text.{Text, text_eq, codes, strip}
use hermes_vylen_gateway.EventLog.Log.{Codec}
use hermes_vylen_gateway.Runs.State.{
  running, Runner, RunEvent, approval_responded, set_run_status, append_run_event,
}
use hermes_vylen_gateway.Runs.Handlers.{
  Reply, run_not_found, invalid_choice, approval_not_active, approval_not_pending, approved,
  server_error, has_key,
}

-- what `resolve_gateway_approval` answers: the number of approvals that it resolved, or an exception
pub data Resolution (V : Type 0) : Type 0 where
  resolved : ℕ → Resolution V
  resolving_failed : V → Resolution V

-- the choice of a request, with str.lower()
unfoldable pub parse_choice : (Text → Text) → Text → Text
unfolding strip
parse_choice lower value =
    let choice = lower (strip value) in
    if choice == codes "approve" || choice == codes "approved" || choice == codes "allow"
    then codes "once"
    else choice

abbrev pub is_choice : Text → Bool
is_choice choice =
    choice == codes "once"
    || choice == codes "session"
    || choice == codes "always"
    || choice == codes "deny"

module _ {V : Type 0} (codec : Codec V) (str : String → V) (describe : ℕ → ℕ → V)
    (body : String → ℕ → RunEvent V → V) where
  abbrev pub answer_approval : Runner V → String → Text → ℕ → Resolution V → Runner V × Reply V
  answer_approval s run_id choice now (resolving_failed error) = (s, server_error error)
  answer_approval s run_id choice now (resolved n) =
      let marked =
        set_run_status s run_id running (("last_event", str "approval.responded") ∷ []) now in
      let logged =
        append_run_event codec str describe body marked run_id (approval_responded choice n) now in
      if n == 0
      then (s, approval_not_pending)
      else (if has_key run_id s.run_event_logs.logs then logged.0 else marked, approved choice n)

  -- `_run_approval`, with the choice of the request. An event that is too large raises behind its status.
  unfoldable pub run_approval :
      (Text → Text)
      → (Text → Text → Resolution V)
      → Runner V
      → String
      → Text
      → ℕ
      → Runner V × Reply V
  unfolding set_run_status append_run_event parse_choice
  run_approval lower resolve s run_id value now =
      let choice = parse_choice lower value in
      if not (has_key run_id s.run_statuses)
      then (s, run_not_found)
      else if not (is_choice choice)
      then (s, invalid_choice)
      else elim (Dict.get run_id s.run_approval_sessions) [
        | none ↦ (s, approval_not_active)
        | some [] ↦ (s, approval_not_active)
        | some (c ∷ key) ↦ answer_approval s run_id choice now (resolve (c ∷ key) choice)
      ]
