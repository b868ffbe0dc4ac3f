-- ===== src/Runs/Tests.antt =====
-- Runs and instances for src/hermes_vylen_gateway/agent_runner.py.
use hermes_vylen_gateway.Prelude.{
  if◌then◌else◌, ℕ, ◌≤◌, ◌≡◌, refl, Bool, false, not, String, [], ◌∷◌, Option, none, some, arith,
  ◌==◌, string_eq,
}
use hermes_vylen_gateway.Prelude.Dict
use hermes_vylen_gateway.Prelude.Text
use hermes_vylen_gateway.Prelude.Text.{Text, text_eq, codes}
use hermes_vylen_gateway.EventLog.Log.{Codec}
use hermes_vylen_gateway.EventLog.Registry as Registry
use hermes_vylen_gateway.Runs.Requests.{
  RunRequest, input_text, ok, parse_idempotency_key, parse_session_key, user_message,
  history_entries,
}
use hermes_vylen_gateway.Runs.State.{
  Runner, RunEvent, result_output, created, started, begin_run, end_run,
}
use hermes_vylen_gateway.Runs.Handlers.{
  create_run, stop_run, sweep_once, is_busy, started_run, active_count, previous_session,
}
use hermes_vylen_gateway.Runs.Handlers.Bound.{count}
use hermes_vylen_gateway.Runs.Reach.{here, next, creates, begins, sweeps, Reach-bound}
use hermes_vylen_gateway.Runs.Handlers.Lifecycle.{Says, swept, stop_run-stuck}
use hermes_vylen_gateway.Runs.Handlers.Ends.{IsOver, end_run-IsOver}
use hermes_vylen_gateway.Runs.Retry.Between as Between
use hermes_vylen_gateway.Runs.Retry.Between.{create_run-idempotent}
use hermes_vylen_gateway.Runs.State as State

-- A value is a text.
abbrev codec : Codec Text
codec = record { dumps = λ v. some v; str_bytes = λ v. v }

abbrev describe : ℕ → ℕ → Text
describe size most = codes "too large"

abbrev body : String → ℕ → RunEvent Text → Text
body run_id now event = codes run_id

abbrev str : Text → Text
str t = t

abbrev truthy : Text → Bool
truthy t = not (t == [])

abbrev stored : Text → Option Text
stored id = none

abbrev idle : Runner Text
idle = record {
  run_event_logs = Registry.init 300 1000 4194304 100;
  active_run_agents = [];
  active_run_tasks = [];
  run_statuses = [];
  run_approval_sessions = [];
  idempotency_keys = [];
}

abbrev request : RunRequest Text
request = record {
  idempotency_header = codes " key ";
  session_header = [];
  fingerprint = codes "f";
  input = input_text (codes "hi");
  conversation_history = [];
  previous_response_id = [];
  session_id = [];
  model = codes "m";
}

key-parsed : parse_idempotency_key request.idempotency_header ≡ ok (some (codes "key"))
unfolding parse_idempotency_key Text.is_space
key-parsed = refl

session-parsed : parse_session_key request.session_header ≡ ok none
unfolding parse_session_key
session-parsed = refl

message-parsed : user_message str truthy request.input ≡ ok (codes "hi")
unfolding user_message
message-parsed = refl

nothing-stored :
    previous_session stored
      (history_entries request.conversation_history)
      request.previous_response_id
    ≡ ok []
unfolding history_entries
nothing-stored = refl

idle-count : count idle ≡ 0
unfolding active_count
idle-count = refl

no-key : Dict.get (codes "key") idle.idempotency_keys ≡ none
unfolding Dict.get
no-key = refl

abbrev opened : Runner Text
opened = (create_run str truthy stored idle request "run_1" 5).0

abbrev entered : Runner Text
entered = begin_run codec codes describe body opened "run_1" 6

Reach-bound_example :
    (count entered ≤ 10)
    × ((if is_busy (Dict.get "run_1" entered.active_run_tasks)
          then Dict.get "run_1" (sweep_once entered 9000).active_run_tasks
          else Dict.get "run_1" entered.active_run_tasks)
        ≡ Dict.get "run_1" entered.active_run_tasks)
Reach-bound_example =
    Reach-bound codec codes describe body str truthy stored str "run_1" 9000
      (omega (arith, idle-count)) (next (next here (creates request "run_1" 5)) (begins "run_1" 6))

-- The task of the run begins, and the sweeper runs.
abbrev later : Runner Text
later = sweep_once entered 8

create_run-idempotent_example :
    ((create_run str truthy stored idle request "run_1" 5).1 ≡ started_run "run_1" none)
    × (create_run str truthy stored later request "run_2" 9 ≡ (later, started_run "run_1" none))
create_run-idempotent_example =
    create_run-idempotent codec codes describe body str truthy stored str idle request (codes "key")
      "run_1" 5 (codes "hi") [] none key-parsed message-parsed nothing-stored session-parsed
      (omega (arith, idle-count)) no-key later "run_2" 9
      (Between.next (Between.next Between.here (begins "run_1" 6) (omega arith)) (sweeps 8)
        (omega arith))

abbrev at_work : Runner Text
at_work = record idle { active_run_tasks = ("run_1", started false) ∷ [] }

started-task : Dict.get "run_1" at_work.active_run_tasks ≡ some (started false)
unfolding Dict.get
started-task = refl

abbrev finished : Runner Text
finished =
    end_run codec codes describe body at_work "run_1" (result_output (codes "done") (codes "3")) 8

end_run-IsOver_example :
    IsOver codec codes describe body finished "run_1"
    × (Dict.get "run_1" finished.active_run_tasks ≡ none)
    × (Dict.get "run_1" finished.active_run_agents ≡ none)
    × (Dict.get "run_1" finished.run_approval_sessions ≡ none)
end_run-IsOver_example =
    end_run-IsOver codec codes describe body at_work "run_1"
      (result_output (codes "done") (codes "3")) 8 false started-task

abbrev waiting : Runner Text
waiting = record idle { active_run_tasks = ("run_1", created false) ∷ [] }

created-task : Dict.get "run_1" waiting.active_run_tasks ≡ some (created false)
unfolding Dict.get
created-task = refl

stop_run-stuck_example :
    Says
      (swept (10000 ∷ 20000 ∷ []) (
        begin_run codec codes describe body
          (stop_run waiting (codes "run.stopping") "run_1" 6).0
          "run_1"
          7))
      "run_1"
      State.stopping
stop_run-stuck_example =
    stop_run-stuck codec codes describe body waiting (codes "run.stopping") "run_1" 6 7
      (10000 ∷ 20000 ∷ []) created-task
