-- ===== src/ChatCursor/Tests.antt =====
-- Runs and instances for src/hermes_vylen_gateway/chat_cursor.py.
use hermes_vylen_gateway.Prelude.{
  ℕ, ◌+◌, ◌*◌, length, ◌≡◌, refl, true, false, [], ◌∷◌, map, some, All, arith, string_eq, get_elem?,
}
use hermes_vylen_gateway.Prelude.Dict
use hermes_vylen_gateway.Prelude.Text.{Text, text_eq, codes}
use hermes_vylen_gateway.Prelude.Text
use hermes_vylen_gateway.ChatStore.Texts as Texts
use hermes_vylen_gateway.ChatStore.Texts.{clean_id}
use hermes_vylen_gateway.ChatStore.Store.{ChatStateStore, ok}
use hermes_vylen_gateway.ChatStore.Append.{check_append, ensure_fits, event_row, next_seq, retained}
use hermes_vylen_gateway.ChatStore.Appended.{Wrote}
use hermes_vylen_gateway.ChatStore.Replay.{behind}
use hermes_vylen_gateway.ChatStore.System.{Reach-IsValid}
use hermes_vylen_gateway.ChatStore.Tests.{
  Fields, json, calendar, config, live_bytes, chat, hello, swept, swept-Reach, swept_row, above,
  chat-clean, found, usable, empty, behind-few,
}
use hermes_vylen_gateway.ChatCursor.Frames.{
  Request, Frame, chat_event, chat_resume_expired, chat_list_response, chat_snapshot_response,
  chat_list_error, chat_snapshot_error, chat_snapshot_expired, push_frame, whole, no_number,
  event_to_snapshot_response,
}
use hermes_vylen_gateway.ChatCursor.Push.{Push, pushes, begin_push, push_sent}
use hermes_vylen_gateway.ChatCursor.Push.Numbers.{send_push-numbers}
use hermes_vylen_gateway.ChatCursor.Subscriptions.{
  Subscription, ChatCursorTasks, handle_subscribe, close,
}
use hermes_vylen_gateway.ChatCursor.Subscriptions.Running.{fresh, subscribes, Reach-one_running}
use hermes_vylen_gateway.ChatCursor.Queries.{handle_snapshot}
use hermes_vylen_gateway.ChatCursor.Queries.Pages.{Answers, handle_snapshot-Answers}
use hermes_vylen_gateway.ChatCursor.Queries.Sync.{sync, complete, sync-complete}

abbrev iso_time : ℕ → Text
iso_time n = n ∷ []

-- A frame has room for one event.
abbrev frame_bytes : Frame Fields → ℕ
frame_bytes (chat_snapshot_response q) = 100 + 1500000 * length q.events
frame_bytes (chat_event a b x) = 100
frame_bytes (chat_resume_expired a b x m f l) = 100
frame_bytes (chat_list_response a b x) = 100
frame_bytes (chat_list_error a b x m) = 100
frame_bytes (chat_snapshot_error a b x m) = 100
frame_bytes (chat_snapshot_expired a b f l) = 100
frame_bytes (push_frame v) = 100

abbrev marked : Text × Text
marked = (codes "chat_state_unavailable", codes "chat state is not open")

abbrev request : Request
request = record {
  request_id = chat;
  chat_id = chat;
  client_id = chat;
  after_seq = whole 1;
  limit = no_number;
  before_updated_at = [];
  before_chat_id = [];
  query = [];
  include_preview = false;
}

handle_snapshot-Answers_example :
    (f : Frame Fields) × (handle_snapshot json calendar iso_time frame_bytes marked false
        (some swept)
        request
      ≡ some f)
    × Answers json calendar iso_time frame_bytes marked swept request
        (swept_row.0)
        usable
        chat-clean
        chat-clean
        (Reach-IsValid json calendar live_bytes {config = config} swept-Reach)
        found
        above
        f
handle_snapshot-Answers_example =
    handle_snapshot-Answers json calendar iso_time frame_bytes marked swept request (swept_row.0)
      usable chat-clean chat-clean
      (Reach-IsValid json calendar live_bytes {config = config} swept-Reach) found above
      (omega arith)

sync-complete_example :
    sync json calendar iso_time frame_bytes marked swept request 2 1
    ≡ complete (
        map (event_to_snapshot_response iso_time) (behind json calendar (clean_id chat) 1 swept.db))
sync-complete_example =
    sync-complete json calendar iso_time frame_bytes marked swept request (swept_row.0) usable
      chat-clean chat-clean (Reach-IsValid json calendar live_bytes {config = config} swept-Reach)
      found 2 1 above (omega (arith, behind-few)) (λ n p e es run first. omega arith)
      (omega (arith, behind-few))

abbrev set_seq : ℕ → Fields → Fields
set_seq n frame = Dict.put "seq" (n ∷ []) frame

abbrev frame : Fields
frame = ("chat_id", chat) ∷ hello

abbrev pushed : Fields
pushed = json.set_default "event_id" (codes "e1") (set_seq 1 frame)

-- the store when the send has ended: two events of the chat have been appended in the meantime
abbrev later : ChatStateStore
later = record empty { db = swept.db }

abbrev pushed_program : Unit {0}
unfolding ensure_fits check_append clean_id Text.is_space Dict.get Dict.put Texts.utf8_length
    Texts.is_kind
pushed_program = tt

pushed-fits : ensure_fits json calendar empty (codes "push") pushed ≡ ok 11
unfolding pushed_program
pushed-fits = refl

pushed-accepted : check_append json calendar later chat (codes "push") pushed ≡ ok (chat, 11)
unfolding pushed_program
pushed-accepted = refl

send_push-numbers_example :
    (u : ChatStateStore) × (p : Push Fields) × (t' : ChatStateStore) × (begin_push json calendar
        set_seq false empty frame
        (codes "e1")
      ≡ (u, pushes p))
    × (u.db ≡ empty.db)
    × (p.frame ≡ pushed)
    × (push_sent json calendar set_seq later p 7
        ≡ (t', ok (retained json calendar (codes "push") pushed 7 11 (next_seq chat swept.db))))
    × Wrote chat
        (event_row json calendar chat
          (codes "push")
          pushed
          11
          (calendar.iso 7)
          (next_seq chat swept.db))
        swept.db
        t'.db
unfolding pushed_program
send_push-numbers_example =
    send_push-numbers json calendar set_seq empty frame (codes "e1") refl chat-clean 11 pushed-fits
      later 7 11 (Reach-IsValid json calendar live_bytes {config = config} swept-Reach)
      pushed-accepted

abbrev subscribed : ChatCursorTasks
subscribed =
    (handle_subscribe {V = Fields} false
      (handle_subscribe {V = Fields} false (record { tasks = []; all = [] }) request).0 request).0

abbrev task : Subscription
task = record { request_id = chat; chat_id = chat; client_id = chat; after_seq = 1; running = true }

second : get_elem? subscribed.all 1 ≡ some task
unfolding handle_subscribe Text.is_space Dict.get Dict.put
second = refl

Reach-one_running_example :
    (◌≡◌ {A = ℕ} 1 1)
    × (Dict.get chat subscribed.tasks ≡ some 1)
    × All (λ t. t.running ≡ false) (close subscribed).all
Reach-one_running_example =
    Reach-one_running Fields (subscribes false request (subscribes false request fresh)) 1 1 task
      task second second refl refl refl
