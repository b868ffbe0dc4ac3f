-- ===== src/ChatCursor/Queries.antt =====
-- `handle_list` and `handle_snapshot` of src/hermes_vylen_gateway/chat_cursor.py.
pub mod Packing
pub mod Pages
pub mod Sync
use hermes_vylen_gateway.Prelude.{
  ℕ, string_eq, Bool, true, false, List, [], ◌∷◌, ◌++◌, map, Option, none, some, ltb, leb, ◌==◌,
  ◌||◌, length, String, if◌then◌else◌,
}
use hermes_vylen_gateway.Prelude.Text.{Text, text_eq, codes}
use hermes_vylen_gateway.ChatStore.Tables.{ChatRecord}
use hermes_vylen_gateway.ChatStore.Texts.{Json, clean_id}
use hermes_vylen_gateway.ChatStore.Store.{
  Calendar, ChatStateStore, RetainedEvent, StoreError, chat_state_unavailable, invalid_event,
  event_too_large, resume_expired, integrity_error, Answer, ok, raised,
}
use hermes_vylen_gateway.ChatStore.Reads.{ChatSnapshotPage, snapshot, last_seq_or}
use hermes_vylen_gateway.ChatStore.Listing.{
  ChatListPage, ListRequest, list_chats, clean_search_query,
}
use hermes_vylen_gateway.ChatCursor.Frames.{
  IntValue, Request, Frame, chat_list_response, chat_snapshot_response, chat_snapshot_expired,
  SnapshotResponse, SnapshotEvent, ChatResponse, parse_seq, parse_limit, to_response, list_error,
  snapshot_error, event_to_snapshot_response,
}

abbrev pub chat_cursors_disabled : Text
chat_cursors_disabled = codes "CHAT_CURSORS_DISABLED"

abbrev pub state_unavailable : Text
state_unavailable = codes "CHAT_STATE_UNAVAILABLE"

-- _CHAT_STATE_FRAME_TARGET_BYTES
abbrev pub target_bytes : ℕ
target_bytes = 2031616

abbrev pub max_integer : ℕ
max_integer = 9223372036854775808

-- the message of an `InvalidChatStateEvent`, from its code
unfoldable pub message_of : String → Text
message_of code =
    if code == "invalid_chat_id"
    then codes "chat_id is invalid"
    else if code == "invalid_event_kind"
    then codes "event kind is invalid"
    else if code == "invalid_title"
    then codes "title is required"
    else []

-- the frame that a snapshot's selection has become, or the one of CHAT_SNAPSHOT_TOO_LARGE
pub data Packed (V : Type 0) : Type 0 where
  packed : SnapshotResponse V → Packed V
  too_large : Packed V

-- `unavailable` is the code and the message with which `_open` has marked the store, `frame_json_bytes` the
-- length of json.dumps(frame), and `iso_time` the text of a time.
module _ {V : Type 0} (json : Json V) (cal : Calendar) (iso_time : ℕ → Text)
    (frame_json_bytes : Frame V → ℕ) (unavailable : Text × Text) where
  -- the response before the loop
  abbrev pub empty_response : Text → Text → ChatSnapshotPage V → SnapshotResponse V
  empty_response request_id chat_id page = record {
    request_id = request_id;
    chat_id = chat_id;
    chat = elim page.chat [ none ↦ none | some row ↦ some (to_response true row) ];
    events = [];
    next_after_seq = page.next_after_seq;
    has_more = page.has_more;
    deleted = page.deleted;
  }

  -- the response with one more event, in front of the events that are left
  abbrev pub with_event :
      SnapshotResponse V → Bool → RetainedEvent V → List (RetainedEvent V) → SnapshotResponse V
  with_event response more event later = record response {
    events = response.events ++ event_to_snapshot_response iso_time event ∷ [];
    next_after_seq = event.seq;
    has_more = more || ltb 0 (length later);
  }

  -- what is left after `selected.pop()`
  abbrev pub without_last : SnapshotResponse V → List (SnapshotEvent V) → Packed V
  without_last response [] = too_large
  without_last response (e ∷ es) =
      packed
        (record response { next_after_seq = last_seq_or (λ x. x.seq) e.seq es; has_more = true })

  -- the loop over page.events, with page.has_more
  unfoldable pub pack : SnapshotResponse V → Bool → List (RetainedEvent V) → Packed V
  pack response more [] = packed response
  pack response more (event ∷ later) =
      let grown = with_event response more event later in
      let rest = pack grown more later in
      if leb (frame_json_bytes (chat_snapshot_response grown)) target_bytes
      then rest
      else without_last response response.events

  abbrev pub packed_frame : Text → Text → Packed V → Frame V
  packed_frame request_id chat_id (packed response) = chat_snapshot_response response
  packed_frame request_id chat_id too_large =
      snapshot_error request_id (codes "CHAT_SNAPSHOT_TOO_LARGE")
        (codes "One retained chat event is too large to return") chat_id

  -- the frame of an answer of the store, with the except clauses
  unfoldable pub snapshot_frame : Text → Text → Answer (ChatSnapshotPage V) → Frame V
  unfolding pack to_response message_of
  snapshot_frame request_id chat_id (ok page) =
      packed_frame request_id chat_id
        (pack (empty_response request_id chat_id page) page.has_more page.events)
  snapshot_frame request_id chat_id (raised (resume_expired floor latest)) =
      chat_snapshot_expired request_id chat_id floor latest
  snapshot_frame request_id chat_id (raised chat_state_unavailable) =
      snapshot_error request_id unavailable.0 unavailable.1 chat_id
  snapshot_frame request_id chat_id (raised (invalid_event code)) =
      snapshot_error request_id (codes code) (message_of code) chat_id
  snapshot_frame request_id chat_id (raised (event_too_large size most)) =
      snapshot_error request_id state_unavailable [] chat_id
  snapshot_frame request_id chat_id (raised integrity_error) =
      snapshot_error request_id state_unavailable [] chat_id

  -- sqlite3 raises an OverflowError for an integer of more than 64 bits, when it reads the events
  -- of a chat that it has found.
  abbrev pub overflows : ℕ → Answer (ChatSnapshotPage V) → Bool
  overflows after (raised e) = false
  overflows after (ok page) = elim page.chat [ none ↦ false | some row ↦ leb max_integer after ]

  -- `handle_snapshot`: the frame that is sent, if one is. Without a store the logs are an
  -- `EventLogRegistry`, which has no `snapshot` and no `list_chats`.
  unfoldable pub handle_snapshot : Bool → Option ChatStateStore → Request → Option (Frame V)
  unfolding snapshot_frame snapshot clean_id
  handle_snapshot disabled logs frame =
      let request_id = clean_id frame.request_id in
      let chat_id = clean_id frame.chat_id in
      if request_id == []
      then none
      else if disabled
      then some (snapshot_error request_id chat_cursors_disabled [] chat_id)
      else if chat_id == []
      then some (snapshot_error request_id (codes "CHAT_SNAPSHOT_INVALID") [] chat_id)
      else elim logs [
        | none ↦ some (snapshot_error request_id state_unavailable [] chat_id)
        | some store ↦
            let after = parse_seq frame.after_seq in
            let answer = snapshot json cal store chat_id after (parse_limit frame.limit 500 1000) in
            some (
              if overflows after answer
              then snapshot_error request_id state_unavailable [] chat_id
              else snapshot_frame request_id chat_id answer)
      ]

  abbrev pub list_frame : Text → Bool → Answer ChatListPage → Frame V
  list_frame request_id include_preview (ok page) =
      chat_list_response request_id (map (to_response include_preview) page.chats) page.has_more
  list_frame request_id include_preview (raised chat_state_unavailable) =
      list_error request_id unavailable.0 unavailable.1
  list_frame request_id include_preview (raised (invalid_event code)) =
      list_error request_id state_unavailable []
  list_frame request_id include_preview (raised (event_too_large size most)) =
      list_error request_id state_unavailable []
  list_frame request_id include_preview (raised (resume_expired floor latest)) =
      list_error request_id state_unavailable []
  list_frame request_id include_preview (raised integrity_error) =
      list_error request_id state_unavailable []

  -- the arguments of `list_chats`
  abbrev pub list_request : Request → ListRequest
  list_request frame = record {
    limit = parse_limit frame.limit 50 200;
    before_updated_at = frame.before_updated_at;
    before_chat_id = frame.before_chat_id;
    text = clean_search_query frame.query;
    include_deleted = false;
  }

  -- `handle_list`, with str.lower()
  unfoldable pub handle_list :
      (Text → Text) → Bool → Option ChatStateStore → Request → Option (Frame V)
  unfolding list_chats to_response clean_search_query clean_id
  handle_list lower disabled logs frame =
      let request_id = clean_id frame.request_id in
      if request_id == []
      then none
      else if disabled
      then some (list_error request_id chat_cursors_disabled [])
      else elim logs [
        | none ↦ some (list_error request_id state_unavailable [])
        | some store ↦ some (
            list_frame request_id frame.include_preview
              (list_chats lower store (list_request frame)))
      ]
