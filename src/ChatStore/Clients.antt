-- ===== src/ChatStore/Clients.antt =====
-- The operations of `ChatStateStore` in src/hermes_vylen_gateway/chat_store.py on client cursors, on
-- message deduplication and on the logs of chats, and `drop`.
pub mod Laws
use hermes_vylen_gateway.Prelude.{
  ℕ, ◌+◌, max, Bool, true, false, not, List, [], ◌∷◌, Option, none, some, ◌==◌, pair_eq, ◌||◌,
  if◌then◌else◌,
}
use hermes_vylen_gateway.Prelude.Dict
use hermes_vylen_gateway.Prelude.Text.{Text, text_eq, text_ltb}
use hermes_vylen_gateway.ChatStore.Tables.{ChatRecord, CursorRow, DedupRow, Db, delete_chats}
use hermes_vylen_gateway.ChatStore.Texts.{Json, clean_id, new_conversation}
use hermes_vylen_gateway.ChatStore.Store.{
  Calendar, ChatStateLog, ChatStateStore, invalid_event, chat_state_unavailable, integrity_error,
  Answer, ok, raised, is_usable, log_or_new,
}
use hermes_vylen_gateway.ChatStore.Append.{new_chat, with_row}
use hermes_vylen_gateway.ChatStore.Reads.{chat_exists}

-- `get_or_create`: the store, which holds the log, and the log
unfoldable pub get_or_create : ChatStateStore → Text → ChatStateStore × Answer ChatStateLog
get_or_create s key =
    let c = clean_id key in
    let log = log_or_new (Dict.get c s.logs) in
    if c == []
    then (s, raised (invalid_event "invalid_chat_id"))
    else (record s { logs = Dict.put c log s.logs }, ok log)

-- what `get` does once it knows whether the chat is there
abbrev pub get_existing :
    ChatStateStore → Text → Answer Bool → ChatStateStore × Answer (Option ChatStateLog)
get_existing s c (raised e) = (s, raised e)
get_existing s c (ok false) = (s, ok none)
get_existing s c (ok true) =
    let log = log_or_new (Dict.get c s.logs) in
    (record s { logs = Dict.put c log s.logs }, ok (some log))

-- `get`
unfoldable pub get : ChatStateStore → Text → ChatStateStore × Answer (Option ChatStateLog)
unfolding chat_exists
get s key =
    let c = clean_id key in if c == [] then (s, ok none) else get_existing s c (chat_exists s c)

-- `drop`
unfoldable pub drop : ChatStateStore → Text → ChatStateStore × Answer (Unit {0})
unfolding delete_chats
drop s key =
    let c = clean_id key in
    if c == []
    then (s, ok tt)
    else if not (is_usable s)
    then (s, raised chat_state_unavailable)
    else (record s { db = delete_chats (c ∷ []) s.db; logs = Dict.remove c s.logs }, ok tt)

-- `consume_sweep_requested`
unfoldable pub consume_sweep_requested : ChatStateStore → ChatStateStore × Bool
consume_sweep_requested s =
    if s.sweep_requested then (record s { sweep_requested = false }, true) else (s, false)

-- `close`
unfoldable pub close : ChatStateStore → ChatStateStore
close s = record s { connected = false }

-- the seq of a cursor's row, or 0
abbrev pub seq_or_zero : Option CursorRow → ℕ
seq_or_zero none = 0
seq_or_zero (some row) = row.seq

-- INSERT INTO client_cursors … ON CONFLICT DO UPDATE. `none` is the IntegrityError of the foreign key.
unfoldable pub upsert_cursor : Text → Text → ℕ → Text → Db → Option Db
upsert_cursor c client seq now db =
    let old = seq_or_zero (Dict.get (c, client) db.client_cursors) in
    let row : CursorRow = record { seq = max old seq; updated_at = now } in
    elim (Dict.get c db.chats) [
      | none ↦ none
      | some chat ↦ some (record db { client_cursors = Dict.put (c, client) row db.client_cursors })
    ]

abbrev pub store_or : ChatStateStore → Option Db → ChatStateStore × Answer (Unit {0})
store_or s none = (s, raised integrity_error)
store_or s (some db) = (record s { db = db }, ok tt)

-- `acknowledge`, at the time whose text is `now`. A negative number is stored as 0.
unfoldable pub acknowledge :
    ChatStateStore → Text → Text → ℕ → Text → ChatStateStore × Answer (Unit {0})
acknowledge s key client_id seq now =
    let c = clean_id key in
    let client = clean_id client_id in
    if c == [] || client == []
    then (s, ok tt)
    else if not (is_usable s)
    then (s, raised chat_state_unavailable)
    else store_or s (upsert_cursor c client seq now s.db)

-- `cursor`
unfoldable pub cursor : ChatStateStore → Text → Text → Answer ℕ
cursor s key client_id =
    let c = clean_id key in
    let client = clean_id client_id in
    if c == [] || client == []
    then ok 0
    else if not (is_usable s)
    then raised chat_state_unavailable
    else ok (seq_or_zero (Dict.get (c, client) s.db.client_cursors))

-- `dedup_forget`
unfoldable pub dedup_forget : ChatStateStore → Text → Text → ChatStateStore × Answer (Unit {0})
dedup_forget s chat_id client_message_id =
    let c = clean_id chat_id in
    let m = clean_id client_message_id in
    if c == [] || m == []
    then (s, ok tt)
    else if not (is_usable s)
    then (s, raised chat_state_unavailable)
    else (
      record s { db = record (s.db) { inbound_dedup = Dict.remove (c, m) s.db.inbound_dedup } },
      ok tt,
    )

module _ {V : Type 0} (json : Json V) (cal : Calendar) where
  -- the two INSERTs of `dedup_record`
  unfoldable pub record_dedup : Text → Text → DedupRow → Db → Db
  record_dedup c m row db =
      let fresh = new_chat c new_conversation none none row.accepted_at in
      let opened = with_row c fresh (Dict.get c db.chats) db in
      record opened { inbound_dedup = Dict.put (c, m) row opened.inbound_dedup }

  abbrev pub dedup_row : ChatStateStore → ℕ → ℕ → Text → Text → V → DedupRow
  dedup_row s ts later turn_id message_id payload = record {
    turn_id = turn_id;
    message_id = message_id;
    accepted_at = cal.iso ts;
    expires_at = cal.iso (later + s.config.dedup_ttl_seconds);
    payload_json = json.dumps payload;
  }

  -- `dedup_record`, which reads the clock twice
  unfoldable pub dedup_record :
      ChatStateStore → Text → Text → Text → Text → V → ℕ → ℕ → ChatStateStore × Answer (Unit {0})
  unfolding record_dedup
  dedup_record s chat_id client_message_id turn_id message_id payload ts later =
      let c = clean_id chat_id in
      let m = clean_id client_message_id in
      if c == [] || m == []
      then (s, ok tt)
      else if not (is_usable s)
      then (s, raised chat_state_unavailable)
      else (
        record s { db = record_dedup c m (dedup_row s ts later turn_id message_id payload) s.db },
        ok tt,
      )

  -- the stored payload, if it is a dictionary
  abbrev pub dict_or_empty : Option V → V
  dict_or_empty none = json.object []
  dict_or_empty (some v) = if json.is_dict v then v else json.object []

  abbrev pub stored_payload : Text → V
  stored_payload [] = json.object []
  stored_payload (c ∷ s) = dict_or_empty (json.parse (c ∷ s))

  -- what a row that has not expired answers
  abbrev pub answer_of : DedupRow → V
  answer_of row =
      json.set_default "user_message_id" row.message_id
        (json.set_default "turn_id" row.turn_id (stored_payload row.payload_json))

  abbrev pub live_answer : Text → Option DedupRow → Option V
  live_answer now none = none
  live_answer now (some row) = if text_ltb row.expires_at now then none else some (answer_of row)

  -- `dedup_lookup`
  unfoldable pub dedup_lookup : ChatStateStore → Text → Text → ℕ → Answer (Option V)
  dedup_lookup s chat_id client_message_id ts =
      let c = clean_id chat_id in
      let m = clean_id client_message_id in
      if c == [] || m == []
      then ok none
      else if not (is_usable s)
      then raised chat_state_unavailable
      else ok (live_answer (cal.iso ts) (Dict.get (c, m) s.db.inbound_dedup))
