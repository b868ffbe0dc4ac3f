-- ===== src/ChatStore/Sweep.antt =====
-- `ChatStateStore.sweep` and `_tombstone_chat_for_gc` of src/hermes_vylen_gateway/chat_store.py. The
-- vacuum at the end, which changes no row, is left out.
pub mod Keeps
pub mod Whole
use hermes_vylen_gateway.Prelude.{
  ℕ, suc, ◌+◌, ◌-◌, ◌*◌, max, Bool, true, false, not, String, List, [], ◌∷◌, ◌++◌, map, Option,
  none, some, ltb, leb, ◌==◌, ◌&&◌, ◌||◌, length, take, get_elem?, if◌then◌else◌,
}
use mathlib.Core.List.{reverse}
use hermes_vylen_gateway.Prelude.Dict
use hermes_vylen_gateway.Prelude.Dict.{Dict}
use hermes_vylen_gateway.Prelude.Text.{Text, text_eq, text_ltb, codes}
use hermes_vylen_gateway.ChatStore.Tables.{
  ChatRecord, EventRow, DedupRow, MaintenanceRow, Db, select, delete, events_of, is_of,
  order_by_seq, insert_event, update_chat, delete_chats,
}
use hermes_vylen_gateway.ChatStore.Texts.{Json, utf8_length}
use hermes_vylen_gateway.ChatStore.Store.{
  Calendar, ChatStateConfig, ChatStateLog, ChatStateStore, chat_state_unavailable, Answer, ok,
  raised, is_usable, bumped,
}

-- The tables while a sweep runs, and the number of rows that it has deleted.
pub record Swept : Type 0 where
  pub db : Db
  pub deleted_rows : ℕ

-- max(seq), if there is a row
unfoldable pub max_seq : List EventRow → Option ℕ
max_seq [] = none
max_seq (e ∷ es) = elim (max_seq es) [ none ↦ some e.seq | some n ↦ some (max e.seq n) ]

-- UPDATE chats SET floor_seq = max(floor_seq, ?)
abbrev pub raise_floor : ℕ → ChatRecord → ChatRecord
raise_floor n row = record row { floor_seq = max row.floor_seq n }

-- DELETE FROM chat_events WHERE chat_id = ? AND test
unfoldable pub delete_events : Text → (EventRow → Bool) → Db → Db
unfolding delete
delete_events c test db = record db {
  chat_events = delete (λ e. if is_of c e then test e else false) db.chat_events;
}

-- Delete the events of a chat that pass a test, and raise its floor.
unfoldable pub drop_events : Text → (EventRow → Bool) → Option ℕ → Swept → Swept
unfolding delete_events update_chat
drop_events c test floor w =
    let db' = delete_events c test w.db in
    let n = length (select test (events_of c w.db.chat_events)) in
    record {
      db = elim floor [ none ↦ db' | some f ↦ update_chat c (raise_floor f) db' ];
      deleted_rows = w.deleted_rows + n;
    }

abbrev pub is_old : Text → EventRow → Bool
is_old cutoff e = text_ltb e.created_at cutoff

-- the events of a chat that are older than the cutoff
unfoldable pub sweep_old : Text → Text → Swept → Swept
unfolding drop_events max_seq
sweep_old cutoff c w =
    drop_events c (is_old cutoff) (max_seq (select (is_old cutoff) (events_of c w.db.chat_events)))
      w

-- ORDER BY seq DESC LIMIT 1 OFFSET ?
unfoldable pub nth_newest : ℕ → List EventRow → Option EventRow
unfolding order_by_seq
nth_newest n rows = get_elem? (reverse (order_by_seq rows)) n

-- the events that are older than the oldest one to keep
unfoldable pub drop_overflow : Text → Option EventRow → Swept → Swept
unfolding drop_events
drop_overflow c none w = w
drop_overflow c (some overflow) w =
    drop_events c (λ e. leb e.seq (overflow.seq - 1)) (some (overflow.seq - 1)) w

-- the events of a chat that are more than it may have
unfoldable pub sweep_overflow : ℕ → Text → Swept → Swept
sweep_overflow max_events c w =
    drop_overflow c (nth_newest (max_events - 1) (events_of c w.db.chat_events)) w

-- for row in chats: …
unfoldable pub sweep_chats : ℕ → Text → List Text → Swept → Swept
unfolding sweep_old sweep_overflow
sweep_chats max_events cutoff [] w = w
sweep_chats max_events cutoff (c ∷ cs) w =
    sweep_chats max_events cutoff cs (sweep_overflow max_events c (sweep_old cutoff c w))

abbrev pub is_expired : Text → ChatRecord → Bool
is_expired cutoff row = elim row.deleted_at [ none ↦ false | some at ↦ text_ltb at cutoff ]

-- DELETE FROM chats WHERE deleted_at IS NOT NULL AND deleted_at < ?
unfoldable pub drop_expired : Text → Swept → Swept
unfolding delete_chats select
drop_expired cutoff w =
    let gone = Dict.keys (select (λ p. is_expired cutoff p.1) w.db.chats) in
    record { db = delete_chats gone w.db; deleted_rows = w.deleted_rows + length gone }

-- deleted_at IS NULL AND chat_id != 'inbox'
abbrev pub is_live : ChatRecord → Bool
is_live row = elim row.deleted_at [ none ↦ not (row.chat_id == codes "inbox") | some at ↦ false ]

-- (updated_at, chat_id) of one row before those of the other
unfoldable pub is_before : ChatRecord → ChatRecord → Bool
is_before a b =
    if text_ltb a.updated_at b.updated_at
    then true
    else if a.updated_at == b.updated_at
    then text_ltb a.chat_id b.chat_id
    else false

unfoldable pub insert_by_update : ChatRecord → List ChatRecord → List ChatRecord
unfolding is_before
insert_by_update r [] = r ∷ []
insert_by_update r (x ∷ xs) = if is_before r x then r ∷ x ∷ xs else x ∷ insert_by_update r xs

-- ORDER BY updated_at ASC, chat_id ASC
unfoldable pub order_by_update : List ChatRecord → List ChatRecord
unfolding insert_by_update
order_by_update [] = []
order_by_update (r ∷ rs) = insert_by_update r (order_by_update rs)

unfoldable pub live_chats : Db → List ChatRecord
unfolding select
live_chats db = select is_live (map (λ p. p.1) db.chats)

abbrev pub ids : List ChatRecord → List Text
ids = map (λ r. r.chat_id)

-- the chats that `keep_chat_ids` names: those that were updated last
unfoldable pub keep_chat_ids : ℕ → Db → List Text
unfolding order_by_update live_chats
keep_chat_ids max_chats db = ids (take max_chats (reverse (order_by_update (live_chats db))))

-- the chats whose log has a tailer
unfoldable pub active_chat_ids : Dict Text ChatStateLog → List Text
unfolding select
active_chat_ids logs = Dict.keys (select (λ p. ltb 0 p.1.tailers) logs)

module _ {V : Type 0} (json : Json V) where
  -- the event that `_tombstone_chat_for_gc` inserts. Its size leaves the kind out.
  abbrev pub tombstone : Text → Text → Text → ℕ → EventRow
  tombstone c deleted_at reason seq =
      let payload =
        json.dumps
          (json.object (("chat_id", c) ∷ ("deleted_at", deleted_at) ∷ ("reason", reason) ∷ [])) in
      record {
        chat_id = c;
        seq = seq;
        kind = codes "chat.deleted";
        payload_json = payload;
        payload_bytes = length payload;
        occurred_at = deleted_at;
        created_at = deleted_at;
      }

  abbrev pub bury : Text → ℕ → ChatRecord → ChatRecord
  bury deleted_at latest row = record row {
    deleted_at = some deleted_at;
    updated_at = deleted_at;
    latest_seq = suc latest;
    floor_seq = latest;
  }

  -- if row is None or row["deleted_at"]
  abbrev pub is_gone : Option Text → Bool
  is_gone none = false
  is_gone (some at) = not (at == [])

  -- The insertion cannot fail, since the chat's events have been deleted.
  unfoldable pub tombstone_row : Text → Text → Text → Option ChatRecord → Swept → Swept
  unfolding delete_events update_chat
  tombstone_row deleted_at reason c none w = w
  tombstone_row deleted_at reason c (some row) w =
      let emptied = delete_events c (λ e. true) w.db in
      let event = tombstone c deleted_at reason (suc row.latest_seq) in
      if is_gone row.deleted_at then w else record {
        db =
            update_chat c (bury deleted_at row.latest_seq)
              (record emptied { chat_events = emptied.chat_events ++ event ∷ [] });
        deleted_rows = w.deleted_rows + 1;
      }

  -- `_tombstone_chat_for_gc`
  unfoldable pub tombstone_chat_for_gc : Text → Text → Text → Swept → Swept
  unfolding tombstone_row
  tombstone_chat_for_gc deleted_at reason c w =
      tombstone_row deleted_at reason c (Dict.get c w.db.chats) w

  -- The loops that tombstone chats in turn, but not the spared ones, until `enough` holds.
  unfoldable pub tombstone_until : (Db → Bool) → List Text → Text → Text → List Text → Swept → Swept
  unfolding tombstone_chat_for_gc
  tombstone_until enough spared deleted_at reason [] w = w
  tombstone_until enough spared deleted_at reason (c ∷ cs) w =
      let w' = tombstone_chat_for_gc deleted_at reason c w in
      let skip = tombstone_until enough spared deleted_at reason cs w in
      let rest = tombstone_until enough spared deleted_at reason cs w' in
      if Dict.contains c spared then skip else if enough w'.db then w' else rest

  module _ (cal : Calendar) (live_bytes : Db → ℕ) where
    -- DELETE FROM inbound_dedup
    unfoldable pub drop_dedup : Text → Text → Swept → Swept
    unfolding select delete
    drop_dedup now cutoff w =
        let old = λ (p : (Text × Text) × DedupRow).
          text_ltb p.1.expires_at now || text_ltb p.1.accepted_at cutoff in
        record {
          db = record (w.db) { inbound_dedup = delete old w.db.inbound_dedup };
          deleted_rows = w.deleted_rows + length (select old w.db.inbound_dedup);
        }

    -- the chats over the limit on their number
    unfoldable pub sweep_count : ChatStateConfig → List Text → Text → Swept → Swept
    unfolding tombstone_until order_by_update live_chats keep_chat_ids
    sweep_count config active now w =
        tombstone_until (λ db. leb (length (live_chats db)) config.max_chats)
          (keep_chat_ids config.max_chats w.db ++ active) now (codes "max_chats")
          (ids (order_by_update (live_chats w.db))) w

    -- the chats over the limit on the bytes of the database
    unfoldable pub sweep_bytes : ChatStateConfig → List Text → Text → Swept → Swept
    unfolding tombstone_until order_by_update live_chats
    sweep_bytes config active now w =
        let swept =
          tombstone_until (λ db. leb (live_bytes db) config.max_bytes) active now
            (codes "max_bytes") (ids (order_by_update (live_chats w.db))) w in
        if ltb config.max_bytes (live_bytes w.db) then swept else w

    -- what `maintenance_log` is told when the database stays over its limit
    unfoldable pub log_budget : ChatStateConfig → Text → (ℕ → ℕ → Text) → Swept → Swept
    log_budget config now detail w =
        let row : MaintenanceRow = record {
          kind = codes "gc_budget_exceeded";
          message = codes "Chat state database remains above byte budget after GC.";
          detail_json = detail (live_bytes w.db) config.max_bytes;
          created_at = now;
        } in
        if ltb config.max_bytes (live_bytes w.db)
        then record w { db = record (w.db) { maintenance_log = w.db.maintenance_log ++ row ∷ [] } }
        else w

    -- the transaction of `sweep`
    unfoldable pub sweep_rows :
        ChatStateConfig → Dict Text ChatStateLog → ℕ → (ℕ → ℕ → Text) → Db → Swept
    unfolding sweep_chats drop_expired drop_dedup sweep_count sweep_bytes log_budget active_chat_ids
    sweep_rows config logs ts detail db =
        let now = cal.iso ts in
        let w0 : Swept = record { db = db; deleted_rows = 0 } in
        let w1 = drop_dedup now (cal.iso_before ts config.dedup_ttl_seconds) w0 in
        let w2 =
          sweep_chats config.max_events_per_chat (cal.iso_before ts (config.event_ttl_days * 86400))
            (Dict.keys w1.db.chats) w1 in
        let w3 = drop_expired (cal.iso_before ts (config.deleted_ttl_days * 86400)) w2 in
        let active = active_chat_ids logs in
        let w4 = sweep_count config active now w3 in
        let w5 = sweep_bytes config active now w4 in log_budget config now detail w5

    unfoldable pub bump_all : Dict Text ChatStateLog → Dict Text ChatStateLog
    bump_all [] = []
    bump_all ((c, log) ∷ logs) = (c, bumped log) ∷ bump_all logs

    -- `sweep`; `detail` gives the JSON text of the two byte counts
    unfoldable pub sweep : ChatStateStore → ℕ → (ℕ → ℕ → Text) → ChatStateStore × Answer ℕ
    unfolding sweep_rows bump_all
    sweep s ts detail =
        let w = sweep_rows s.config s.logs ts detail s.db in
        if not (is_usable s) then (s, raised chat_state_unavailable) else (
          record s {
            db = w.db;
            logs = bump_all s.logs;
            appends_since_sweep = 0;
            bytes_since_sweep = 0;
            sweep_requested = false;
          },
          ok w.deleted_rows,
        )
