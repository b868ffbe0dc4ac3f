-- ===== src/ChatStore/Append.antt =====
-- The operations of `ChatStateStore` in src/hermes_vylen_gateway/chat_store.py that append events:
-- `append_event`, `rename_chat` and `mark_deleted`.
use hermes_vylen_gateway.Prelude.{
  ℕ, suc, ◌+◌, not, [], ◌∷◌, Option, none, some, ltb, ◌==◌, if◌then◌else◌,
}
use hermes_vylen_gateway.Prelude.Dict
use hermes_vylen_gateway.Prelude.Text.{Text, text_eq, codes, strip}
use hermes_vylen_gateway.ChatStore.Tables.{ChatRecord, EventRow, Db, insert_event, update_chat}
use hermes_vylen_gateway.ChatStore.Texts.{
  Json, utf8_length, clean_id, optional_id, is_kind, clean_title, initial_title_for_event,
  replacement_title_for_event, preview_from_event,
}
use hermes_vylen_gateway.ChatStore.Store.{
  Calendar, ChatStateStore, RetainedEvent, chat_state_unavailable, invalid_event, event_too_large,
  integrity_error, Answer, ok, raised, is_usable, bump_log, count_append,
}

-- a row that INSERT INTO chats makes with no event yet
abbrev pub new_chat : Text → Text → Option Text → Option Text → Text → ChatRecord
new_chat c title client user iso = record {
  chat_id = c;
  title = title;
  kind = codes "chat";
  creator_client_id = client;
  creator_user_id = user;
  created_at = iso;
  updated_at = iso;
  latest_seq = 0;
  floor_seq = 0;
  deleted_at = none;
  last_message_preview = none;
  last_message_role = none;
  last_message_at = none;
}

abbrev pub title_or : Option Text → Text → Text
title_or none old = old
title_or (some title) old = title

abbrev pub with_preview : Option (Text × Text × Text) → ChatRecord → ChatRecord
with_preview none row = row
with_preview (some (preview, role, at)) row = record row {
  last_message_preview = some preview;
  last_message_role = some role;
  last_message_at = some at;
}

-- the four forms of UPDATE chats in `append_event`
abbrev pub advance : ℕ → Text → Option Text → Option (Text × Text × Text) → ChatRecord → ChatRecord
advance seq iso title preview row =
    with_preview preview
      (record row { latest_seq = seq; updated_at = iso; title = title_or title row.title })

-- INSERT INTO chat_events under the number behind the latest of `row`, and the UPDATE of that row to
-- `row'`; `none` is the IntegrityError of the insertion
unfoldable pub write_event :
    Text → ChatRecord → (ℕ → EventRow) → (ℕ → ChatRecord → ChatRecord) → Db → Option Db
unfolding insert_event update_chat
write_event c row event change db =
    let seq = suc row.latest_seq in
    elim (insert_event (event seq) db.chat_events) [
      | none ↦ none
      | some events ↦ some (update_chat c (change seq) (record db { chat_events = events }))
    ]

-- a transaction, rolled back when it fails, and what follows its commit
abbrev pub commit {ℓ} :
    {A : Type ℓ} → ChatStateStore → Text → ℕ → A → Option Db → ChatStateStore × Answer A
commit s c size value none = (s, raised integrity_error)
commit s c size value (some db') =
    (bump_log c (count_append size (record s { db = db' })), ok value)

-- the chat's row, or the new one that the transaction inserts first
abbrev pub row_or : ChatRecord → Option ChatRecord → ChatRecord
row_or fresh none = fresh
row_or fresh (some row) = row

abbrev pub with_row : Text → ChatRecord → Option ChatRecord → Db → Db
with_row c fresh none db = record db { chats = Dict.put c fresh db.chats }
with_row c fresh (some row) db = db

-- the number that a chat's next event gets
abbrev pub next_of : Option ChatRecord → ℕ
next_of none = 1
next_of (some row) = suc row.latest_seq

abbrev pub next_seq : Text → Db → ℕ
next_seq c db = next_of (Dict.get c db.chats)

module _ {V : Type 0} (json : Json V) (cal : Calendar) where
  abbrev pub event_row : Text → Text → V → ℕ → Text → ℕ → EventRow
  event_row c kind payload size iso seq = record {
    chat_id = c;
    seq = seq;
    kind = kind;
    payload_json = json.dumps payload;
    payload_bytes = size;
    occurred_at = iso;
    created_at = iso;
  }

  abbrev pub event_size : Text → V → ℕ
  event_size kind payload = utf8_length kind + utf8_length (json.dumps payload)

  -- `ensure_fits`
  unfoldable pub ensure_fits : ChatStateStore → Text → V → Answer ℕ
  ensure_fits s kind payload =
      let size = event_size kind payload in
      if ltb s.config.max_event_bytes size
      then raised (event_too_large size s.config.max_event_bytes)
      else ok size

  -- the part of `append_event` in front of the transaction: the clean id and the size
  unfoldable pub check_append : ChatStateStore → Text → Text → V → Answer (Text × ℕ)
  check_append s chat_id kind payload =
      let c = clean_id chat_id in
      let size = event_size kind payload in
      if s.unavailable
      then raised chat_state_unavailable
      else if c == []
      then raised (invalid_event "invalid_chat_id")
      else if not (is_kind kind)
      then raised (invalid_event "invalid_event_kind")
      else if ltb s.config.max_event_bytes size
      then raised (event_too_large size s.config.max_event_bytes)
      else if not s.connected
      then raised chat_state_unavailable
      else ok (c, size)

  -- the title that replaces the one of a chat that there is
  abbrev pub next_title : Text → V → Option ChatRecord → Option Text
  next_title kind payload none = none
  next_title kind payload (some row) = replacement_title_for_event json kind payload row.title

  -- the transaction of `append_event`, on a clean id
  unfoldable pub append_rows :
      Text → Text → V → ℕ → Text → Text → Option Text → Option Text → Db → Option Db
  unfolding write_event
  append_rows c kind payload size iso title client user db =
      let fresh =
        new_chat c (initial_title_for_event json kind payload title) (optional_id client)
          (optional_id user) iso in
      let old = Dict.get c db.chats in
      write_event c (row_or fresh old) (event_row c kind payload size iso)
        (λ seq.
          advance seq iso (next_title kind payload old) (preview_from_event json kind payload iso))
        (with_row c fresh old db)

  abbrev pub retained : Text → V → ℕ → ℕ → ℕ → RetainedEvent V
  retained kind payload ts size seq = record {
    seq = seq;
    kind = kind;
    payload = payload;
    created_at = ts;
    size_bytes = size;
  }

  unfoldable pub append_event :
      ChatStateStore
      → Text
      → Text
      → V
      → ℕ
      → Text
      → Option Text
      → Option Text
      → ChatStateStore × Answer (RetainedEvent V)
  unfolding check_append append_rows bump_log count_append
  append_event s chat_id kind payload ts title client user =
      elim (check_append s chat_id kind payload) [
        | raised e ↦ (s, raised e)
        | ok (c, size) ↦
            commit s c size (retained kind payload ts size (next_seq c s.db))
              (append_rows c kind payload size (cal.iso ts) title client user s.db)
      ]

  -- the part of `rename_chat` in front of the transaction
  abbrev pub renamed_payload : Text → Text → ℕ → V
  renamed_payload c title ts =
      json.object (("chat_id", c) ∷ ("title", title) ∷ ("renamed_at", cal.iso ts) ∷ [])

  unfoldable pub check_rename : ChatStateStore → Text → Text → ℕ → Answer (Text × ℕ)
  check_rename s chat_id title ts =
      let c = clean_id chat_id in
      let size = event_size (codes "chat.renamed") (renamed_payload c (clean_title title) ts) in
      if s.unavailable
      then raised chat_state_unavailable
      else if c == []
      then raised (invalid_event "invalid_chat_id")
      else if strip title == []
      then raised (invalid_event "invalid_title")
      else if ltb s.config.max_event_bytes size
      then raised (event_too_large size s.config.max_event_bytes)
      else if not s.connected
      then raised chat_state_unavailable
      else ok (c, size)

  -- UPDATE chats in `rename_chat`
  abbrev pub rename : Text → Text → ℕ → ChatRecord → ChatRecord
  rename title iso seq row = record row { title = title; updated_at = iso; latest_seq = seq }

  -- the transaction of `rename_chat`, on a clean id
  unfoldable pub rename_rows : Text → Text → V → ℕ → Text → Db → Option Db
  unfolding write_event
  rename_rows c title payload size iso db =
      let fresh = new_chat c title none none iso in
      let old = Dict.get c db.chats in
      write_event c (row_or fresh old) (event_row c (codes "chat.renamed") payload size iso)
        (rename title iso) (with_row c fresh old db)

  unfoldable pub rename_chat :
      ChatStateStore → Text → Text → ℕ → ChatStateStore × Answer (RetainedEvent V)
  unfolding check_rename rename_rows bump_log count_append
  rename_chat s chat_id title ts = elim (check_rename s chat_id title ts) [
    | raised e ↦ (s, raised e)
    | ok (c, size) ↦
        let payload = renamed_payload c (clean_title title) ts in
        commit s c size (retained (codes "chat.renamed") payload ts size (next_seq c s.db))
          (rename_rows c (clean_title title) payload size (cal.iso ts) s.db)
  ]

  -- the INSERT … ON CONFLICT of `mark_deleted`
  abbrev pub deleted_row : Text → Text → Option ChatRecord → ChatRecord
  deleted_row c iso none = record (new_chat c (codes "Deleted conversation") none none iso) {
    deleted_at = some iso;
  }
  deleted_row c iso (some row) = record row { deleted_at = some iso; updated_at = iso }

  unfoldable pub upsert_deleted : Text → Text → Db → Db
  upsert_deleted c iso db = record db {
    chats = Dict.put c (deleted_row c iso (Dict.get c db.chats)) db.chats;
  }

  -- The tombstone is committed before the event is appended.
  unfoldable pub mark_deleted :
      ChatStateStore → Text → ℕ → ChatStateStore × Answer (RetainedEvent V)
  unfolding upsert_deleted append_event
  mark_deleted s chat_id ts =
      let c = clean_id chat_id in
      if c == []
      then (s, raised (invalid_event "invalid_chat_id"))
      else if not (is_usable s)
      then (s, raised chat_state_unavailable)
      else append_event (record s { db = upsert_deleted c (cal.iso ts) s.db }) c
          (codes "chat.deleted") (json.object (("chat_id", c) ∷ ("deleted_at", cal.iso ts) ∷ [])) ts
          [] none none
