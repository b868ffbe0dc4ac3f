-- ===== src/ChatCursor/Subscriptions.antt =====
-- The subscriptions of `ChatCursorRelay` in src/hermes_vylen_gateway/chat_cursor.py: the tasks, and what
-- each sends. A task stands in the list of all tasks at its number; it runs until it has ended or
-- `cancel()` was called on it.
pub mod Running
use hermes_vylen_gateway.Prelude.{
  ℕ, Bool, true, false, List, [], ◌∷◌, ◌++◌, Option, none, some, ◌==◌, nat_eq, ◌||◌, length,
  get_elem?, set, if◌then◌else◌,
}
use hermes_vylen_gateway.Prelude.Dict
use hermes_vylen_gateway.Prelude.Dict.{Dict}
use hermes_vylen_gateway.Prelude.Text.{Text, text_eq, codes}
use hermes_vylen_gateway.ChatStore.Texts.{clean_id}
use hermes_vylen_gateway.ChatStore.Store.{
  ChatStateStore, RetainedEvent, StoreError, chat_state_unavailable, invalid_event, event_too_large,
  resume_expired, integrity_error, Answer,
}
use hermes_vylen_gateway.ChatStore.Clients.{acknowledge}
use hermes_vylen_gateway.ChatCursor.Frames.{
  Request, Frame, chat_event, chat_resume_expired, parse_seq, event_to_snapshot_response,
}
use hermes_vylen_gateway.ChatCursor.Queries.{chat_cursors_disabled, message_of}

-- a task of `_tail`
pub record Subscription : Type 0 where
  pub request_id : Text
  pub chat_id : Text
  pub client_id : Text
  pub after_seq : ℕ
  pub running : Bool

pub record ChatCursorTasks : Type 0 where
  -- `_tasks`
  pub tasks : Dict Text ℕ
  -- every task so far, at its number
  pub all : List Subscription

-- task.cancel(), unless it is done
abbrev pub stop_task : List Subscription → ℕ → List Subscription
stop_task all n = elim (get_elem? all n) [
  | none ↦ all
  | some task ↦ set all n (record task { running = false })
]

-- `cancel`
unfoldable pub cancel : ChatCursorTasks → Text → ChatCursorTasks
cancel s request_id = elim (Dict.get request_id s.tasks) [
  | none ↦ s
  | some n ↦ record { tasks = Dict.remove request_id s.tasks; all = stop_task s.all n }
]

-- create_task(self._tail(…)) under a request id
abbrev pub start_task : ChatCursorTasks → Subscription → ChatCursorTasks
start_task s task = record {
  tasks = Dict.put task.request_id (length s.all) s.tasks;
  all = s.all ++ task ∷ [];
}

-- the cancellations of `close`
abbrev pub stop_tasks : List Subscription → Dict Text ℕ → List Subscription
stop_tasks all [] = all
stop_tasks all ((k, n) ∷ d) = stop_tasks (stop_task all n) d

-- `close`
unfoldable pub close : ChatCursorTasks → ChatCursorTasks
close s = record { tasks = []; all = stop_tasks s.all s.tasks }

-- the `finally` clause of `_tail`, in the task with this number
unfoldable pub end_task : ChatCursorTasks → ℕ → ChatCursorTasks
end_task s n = elim (get_elem? s.all n) [
  | none ↦ s
  | some task ↦ elim (Dict.get task.request_id s.tasks) [
    | none ↦ record s { all = stop_task s.all n }
    | some m ↦ record {
      tasks = if m == n then Dict.remove task.request_id s.tasks else s.tasks;
      all = stop_task s.all n;
    }
  ]
]

module _ {V : Type 0} where
  -- `handle_subscribe`
  unfoldable pub handle_subscribe :
      Bool → ChatCursorTasks → Request → ChatCursorTasks × Option (Frame V)
  unfolding cancel clean_id
  handle_subscribe disabled s frame =
      let request_id = clean_id frame.request_id in
      let chat_id = clean_id frame.chat_id in
      let client_id = clean_id frame.client_id in
      if request_id == []
      then (s, none)
      else if disabled
      then (s, some (chat_resume_expired request_id chat_id chat_cursors_disabled none 0 0))
      else if chat_id == [] || client_id == []
      then (
        s,
        some (chat_resume_expired request_id chat_id (codes "CHAT_SUBSCRIBE_INVALID") none 0 0),
      )
      else (
        start_task (cancel s request_id) (record {
          request_id = request_id;
          chat_id = chat_id;
          client_id = client_id;
          after_seq = parse_seq frame.after_seq;
          running = true;
        }),
        none,
      )

  -- `_tail` for an event that the log yields: the frame, and the store behind the acknowledgement
  unfoldable pub tail_event :
      (ℕ → Text)
      → ChatStateStore
      → Subscription
      → RetainedEvent V
      → Text
      → Frame V × (ChatStateStore × Answer (Unit {0}))
  unfolding acknowledge
  tail_event iso_time s task event now = (
    chat_event task.request_id task.chat_id (event_to_snapshot_response iso_time event),
    acknowledge s task.chat_id task.client_id event.seq now,
  )

  -- `_tail` for what the log raises, with the code and the message of a store that is marked; the last two
  -- cases are errors that no clause names, and that end the task
  unfoldable pub tail_error : Text × Text → Subscription → StoreError → Option (Frame V)
  unfolding message_of
  tail_error unavailable task (resume_expired floor latest) = some (
      chat_resume_expired task.request_id task.chat_id (codes "CHAT_RESUME_EXPIRED") none floor
        latest)
  tail_error unavailable task chat_state_unavailable =
      some (chat_resume_expired task.request_id task.chat_id unavailable.0 (some unavailable.1) 0 0)
  tail_error unavailable task (invalid_event code) =
      some
        (chat_resume_expired task.request_id task.chat_id (codes code) (some (message_of code)) 0 0)
  tail_error unavailable task (event_too_large size most) = none
  tail_error unavailable task integrity_error = none
