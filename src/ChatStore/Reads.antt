-- ===== src/ChatStore/Reads.antt =====
-- The operations of `ChatStateStore` in src/hermes_vylen_gateway/chat_store.py that read chats and
-- events. They change nothing, so each gives an answer alone.
use hermes_vylen_gateway.Prelude.{
  ℕ, ◌+◌, Bool, true, false, not, List, [], ◌∷◌, map, Option, none, some, ltb, ◌==◌, min, max,
  length, take, if◌then◌else◌,
}
use hermes_vylen_gateway.Prelude.Dict
use hermes_vylen_gateway.Prelude.Text.{Text, text_eq}
use hermes_vylen_gateway.ChatStore.Tables.{
  ChatRecord, EventRow, select, events_of, order_by_seq, is_after,
}
use hermes_vylen_gateway.ChatStore.Texts.{Json, clean_id}
use hermes_vylen_gateway.ChatStore.Store.{
  Calendar, ChatStateStore, RetainedEvent, invalid_event, chat_state_unavailable, resume_expired,
  Answer, ok, raised, is_usable,
}

-- … AND deleted_at IS NULL
abbrev pub hide_deleted : Option ChatRecord → Option ChatRecord
hide_deleted none = none
hide_deleted (some row) = elim row.deleted_at [ none ↦ some row | some at ↦ none ]

-- `get_chat`
unfoldable pub get_chat : ChatStateStore → Text → Bool → Answer (Option ChatRecord)
get_chat s chat_id include_deleted =
    let c = clean_id chat_id in
    let row = Dict.get c s.db.chats in
    if c == []
    then ok none
    else if not (is_usable s)
    then raised chat_state_unavailable
    else ok (if include_deleted then row else hide_deleted row)

-- `chat_exists`
unfoldable pub chat_exists : ChatStateStore → Text → Answer Bool
chat_exists s chat_id =
    if not (is_usable s)
    then raised chat_state_unavailable
    else ok (elim (Dict.get chat_id s.db.chats) [ none ↦ false | some row ↦ true ])

abbrev pub latest_or_zero : Answer (Option ChatRecord) → Answer ℕ
latest_or_zero (raised e) = raised e
latest_or_zero (ok none) = ok 0
latest_or_zero (ok (some row)) = ok row.latest_seq

abbrev pub floor_or_zero : Answer (Option ChatRecord) → Answer ℕ
floor_or_zero (raised e) = raised e
floor_or_zero (ok none) = ok 0
floor_or_zero (ok (some row)) = ok row.floor_seq

-- `latest_seq` and `floor_seq`
unfoldable pub latest_seq : ChatStateStore → Text → Answer ℕ
unfolding get_chat
latest_seq s chat_id = latest_or_zero (get_chat s chat_id true)

unfoldable pub floor_seq : ChatStateStore → Text → Answer ℕ
unfolding get_chat
floor_seq s chat_id = floor_or_zero (get_chat s chat_id true)

-- LIMIT, if there is one
abbrev pub limited {ℓ} : {A : Type ℓ} → Option ℕ → List A → List A
limited none xs = xs
limited (some n) xs = take n xs

-- events[-1].seq, if there is one
abbrev pub last_seq_or {ℓ} : {V : Type ℓ} → (V → ℕ) → ℕ → List V → ℕ
last_seq_or seq n [] = n
last_seq_or seq n (e ∷ es) = last_seq_or seq (seq e) es

pub record ChatSnapshotPage (V : Type 0) : Type 0 where
  pub chat : Option ChatRecord
  pub events : List (RetainedEvent V)
  pub next_after_seq : ℕ
  pub has_more : Bool
  pub deleted : Bool

-- min(max(1, limit), 1000)
abbrev pub page_limit : ℕ → ℕ
page_limit limit = min (max 1 limit) 1000

abbrev pub is_deleted : ChatRecord → Bool
is_deleted row = elim row.deleted_at [ none ↦ false | some at ↦ not (at == []) ]

module _ {V : Type 0} (json : Json V) (cal : Calendar) where
  -- `_event_from_row`
  abbrev pub event_from_row : EventRow → RetainedEvent V
  event_from_row row = record {
    seq = row.seq;
    kind = row.kind;
    payload = json.loads row.payload_json;
    created_at = cal.epoch row.occurred_at;
    size_bytes = row.payload_bytes;
  }

  -- the answer for a chat's row and its events
  unfoldable pub replay_rows :
      Option ChatRecord → List EventRow → ℕ → Option ℕ → Answer (List (RetainedEvent V))
  unfolding order_by_seq select
  replay_rows none rows after limit = ok []
  replay_rows (some row) rows after limit =
      if ltb after row.floor_seq
      then raised (resume_expired row.floor_seq row.latest_seq)
      else ok (map event_from_row (limited limit (order_by_seq (select (is_after after) rows))))

  -- `replay_after`. A negative cursor is answered like 0.
  unfoldable pub replay_after :
      ChatStateStore → Text → ℕ → Option ℕ → Answer (List (RetainedEvent V))
  unfolding replay_rows events_of
  replay_after s chat_id after limit =
      let c = clean_id chat_id in
      if c == [] then raised (invalid_event "invalid_chat_id") else elim (get_chat s c true) [
        | raised e ↦ raised e
        | ok row ↦ replay_rows row (events_of c s.db.chat_events) after limit
      ]

  abbrev pub page_of : ChatRecord → ℕ → ℕ → List (RetainedEvent V) → ChatSnapshotPage V
  page_of row after limit events =
      let page_events = take (page_limit limit) events in
      record {
        chat = some row;
        events = page_events;
        next_after_seq = last_seq_or (λ e. e.seq) after page_events;
        has_more = ltb (length page_events) (length events);
        deleted = is_deleted row;
      }

  abbrev pub no_page : ℕ → ChatSnapshotPage V
  no_page after = record {
    chat = none;
    events = [];
    next_after_seq = after;
    has_more = false;
    deleted = false;
  }

  -- `snapshot`
  unfoldable pub snapshot : ChatStateStore → Text → ℕ → ℕ → Answer (ChatSnapshotPage V)
  snapshot s chat_id after limit =
      let c = clean_id chat_id in
      if s.unavailable
      then raised chat_state_unavailable
      else if c == []
      then raised (invalid_event "invalid_chat_id")
      else elim (get_chat s c true) [
        | raised e ↦ raised e
        | ok none ↦ ok (no_page after)
        | ok (some row) ↦ elim (replay_after s c after (some (page_limit limit + 1))) [
          | raised e ↦ raised e
          | ok events ↦ ok (page_of row after limit events)
        ]
      ]
