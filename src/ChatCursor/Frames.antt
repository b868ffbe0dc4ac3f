-- ===== src/ChatCursor/Frames.antt =====
-- The frames of src/hermes_vylen_gateway/chat_cursor.py, those that it reads and those that it sends.
use hermes_vylen_gateway.Prelude.{
  ℕ, Bool, List, Option, none, some, min, max, [], ◌∷◌, if◌then◌else◌,
}
use hermes_vylen_gateway.Prelude.Text.{Text, text_eq}
use hermes_vylen_gateway.ChatStore.Tables.{ChatRecord}
use hermes_vylen_gateway.ChatStore.Store.{RetainedEvent}

-- int(value) of a field of a frame; the last case stands for the TypeError and the ValueError
pub data IntValue : Type 0 where
  whole : ℕ → IntValue
  negative : IntValue
  no_number : IntValue

-- `_parse_seq`
abbrev pub parse_seq : IntValue → ℕ
parse_seq (whole n) = n
parse_seq negative = 0
parse_seq no_number = 0

-- `_parse_limit`
abbrev pub parse_limit : IntValue → ℕ → ℕ → ℕ
parse_limit (whole n) default maximum = min (max 1 n) maximum
parse_limit negative default maximum = min 1 maximum
parse_limit no_number default maximum = default

-- What a frame from the cloud says. A text is str(frame.get(…) or "").
pub record Request : Type 0 where
  pub request_id : Text
  pub chat_id : Text
  pub client_id : Text
  pub after_seq : IntValue
  pub limit : IntValue
  pub before_updated_at : Text
  pub before_chat_id : Text
  pub query : Text
  pub include_preview : Bool

-- what `ChatRow.to_response` gives
pub record ChatResponse : Type 0 where
  pub chat_id : Text
  pub title : Text
  pub kind : Text
  pub created_at : Text
  pub updated_at : Text
  pub latest_seq : ℕ
  pub floor_seq : ℕ
  pub preview : Option (Option Text × Option Text × Option Text)
  pub deleted_at : Option Text

-- deleted_at, if it is set and not empty
abbrev pub non_empty : Option Text → Option Text
non_empty none = none
non_empty (some []) = none
non_empty (some (c ∷ cs)) = some (c ∷ cs)

unfoldable pub to_response : Bool → ChatRecord → ChatResponse
to_response include_preview row = record {
  chat_id = row.chat_id;
  title = row.title;
  kind = row.kind;
  created_at = row.created_at;
  updated_at = row.updated_at;
  latest_seq = row.latest_seq;
  floor_seq = row.floor_seq;
  preview =
      if include_preview
      then some (row.last_message_preview, row.last_message_role, row.last_message_at)
      else none;
  deleted_at = non_empty row.deleted_at;
}

pub record SnapshotEvent (V : Type 0) : Type 0 where
  pub seq : ℕ
  pub occurred_at : Text
  pub kind : Text
  pub payload : V

pub record SnapshotResponse (V : Type 0) : Type 0 where
  pub request_id : Text
  pub chat_id : Text
  pub chat : Option ChatResponse
  pub events : List (SnapshotEvent V)
  pub next_after_seq : ℕ
  pub has_more : Bool
  pub deleted : Bool

-- The frames that are sent. `push_frame` is the one that `send_push` is given.
pub data Frame (V : Type 0) : Type 0 where
  chat_event : Text → Text → SnapshotEvent V → Frame V
  -- request_id, chat_id, code, message, floor_seq, latest_seq
  chat_resume_expired : Text → Text → Text → Option Text → ℕ → ℕ → Frame V
  chat_list_response : Text → List ChatResponse → Bool → Frame V
  chat_snapshot_response : SnapshotResponse V → Frame V
  -- request_id, code, message, chat_id
  chat_list_error : Text → Text → Text → Option Text → Frame V
  chat_snapshot_error : Text → Text → Text → Option Text → Frame V
  -- request_id, chat_id, floor_seq, latest_seq
  chat_snapshot_expired : Text → Text → ℕ → ℕ → Frame V
  push_frame : V → Frame V

-- message or code
abbrev pub message_or : Text → Text → Text
message_or code [] = code
message_or code (c ∷ cs) = c ∷ cs

-- frame["chat_id"] = chat_id, if there is one
abbrev pub given : Text → Option Text
given [] = none
given (c ∷ cs) = some (c ∷ cs)

module _ {V : Type 0} where
  -- `_send_error` with FRAME_CHAT_LIST_ERROR
  abbrev pub list_error : Text → Text → Text → Frame V
  list_error request_id code message =
      chat_list_error request_id code (message_or code message) none

  -- `_send_error` with FRAME_CHAT_SNAPSHOT_ERROR
  abbrev pub snapshot_error : Text → Text → Text → Text → Frame V
  snapshot_error request_id code message chat_id =
      chat_snapshot_error request_id code (message_or code message) (given chat_id)

  -- `_event_to_snapshot_response`, with `_iso_time`
  abbrev pub event_to_snapshot_response : (ℕ → Text) → RetainedEvent V → SnapshotEvent V
  event_to_snapshot_response iso_time event = record {
    seq = event.seq;
    occurred_at = iso_time event.created_at;
    kind = event.kind;
    payload = event.payload;
  }
