-- ===== src/ChatStore/Clients/Laws.antt =====
-- What the operations on cursors and on deduplication promise, in
-- src/hermes_vylen_gateway/chat_store.py.
use hermes_vylen_gateway.Prelude.{
  ℕ, ◌+◌, max, ltb, sym, ◌≡◌, ◌≢◌, true, false, [], none, some, arith, ◌==◌, ◌&&◌, pair_eq,
  if◌then◌else◌,
}
use hermes_vylen_gateway.Prelude.Dict
use hermes_vylen_gateway.Prelude.Text.{Text, text_eq, text_ltb, text_beq_iff}
use hermes_vylen_gateway.ChatStore.Tables.{ChatRecord, CursorRow, DedupRow, Db}
use hermes_vylen_gateway.ChatStore.Texts.{Json, clean_id}
use hermes_vylen_gateway.ChatStore.Store.{Calendar, ChatStateStore, ok, is_usable}
use hermes_vylen_gateway.ChatStore.Clients.{
  upsert_cursor, acknowledge, cursor, seq_or_zero, dedup_record, dedup_row, dedup_lookup,
  record_dedup, answer_of, live_answer,
}

not_nil : (t : Text) → clean_id t ≢ [] → (clean_id t == []) ≡ false
not_nil t h = ground (arith, text_beq_iff (clean_id t) [])

cursor-eq :
    (s : ChatStateStore) (j d : Text)
    → is_usable s ≡ true
    → clean_id j ≢ []
    → clean_id d ≢ []
    → cursor s j d ≡ ok (seq_or_zero (Dict.get (clean_id j, clean_id d) s.db.client_cursors))
unfolding cursor
cursor-eq s j d usable jk dk = rw (not_nil j jk, not_nil d dk) (rw usable)

module _ (s : ChatStateStore) (key client : Text) (seq : ℕ) (now : Text)
    (usable : is_usable s ≡ true) (k : clean_id key ≢ []) (m : clean_id client ≢ [])
    (row : ChatRecord) (found : Dict.get (clean_id key) s.db.chats ≡ some row) where
  abbrev pair : Text × Text
  pair = (clean_id key, clean_id client)

  abbrev moved : CursorRow
  moved = record {
    seq = max (seq_or_zero (Dict.get (clean_id key, clean_id client) s.db.client_cursors)) seq;
    updated_at = now;
  }

  abbrev acknowledged : ChatStateStore
  acknowledged = record s {
    db = record (s.db) {
      client_cursors = Dict.put (clean_id key, clean_id client) moved s.db.client_cursors;
    };
  }

  acknowledge-eq : acknowledge s key client seq now ≡ (acknowledged, ok tt)
  unfolding acknowledge upsert_cursor
  acknowledge-eq = rw (not_nil key k, not_nil client m) (rw usable (rw (found, upsert_cursor)))

  -- An acknowledgement for a chat that there is moves one client's cursor on that chat on, and never
  -- backwards; every other cursor stays.
  pub cursor-acknowledge_chat :
      (j d : Text)
      → clean_id j ≢ []
      → clean_id d ≢ []
      → (s' : ChatStateStore) × (acknowledge s key client seq now ≡ (s', ok tt))
        × (cursor s' j d ≡ (
            if clean_id key == clean_id j && clean_id client == clean_id d
            then ok (max (seq_or_zero (Dict.get (clean_id j, clean_id d) s.db.client_cursors)) seq)
            else cursor s j d))
  cursor-acknowledge_chat j d jk dk = (
    acknowledged,
    acknowledge-eq,
    rw
        (
          cursor-eq acknowledged j d usable jk dk,
          cursor-eq s j d usable jk dk,
          Dict.get-put pair (clean_id j, clean_id d) moved s.db.client_cursors,
        )
        (ground (
          arith,
          text_beq_iff (clean_id key) (clean_id j),
          text_beq_iff (clean_id client) (clean_id d),
        )),
  )

module _ {V : Type 0} (json : Json V) (cal : Calendar) where
  lookup-eq :
      (s : ChatStateStore) (j d : Text) (now : ℕ)
      → is_usable s ≡ true
      → clean_id j ≢ []
      → clean_id d ≢ []
      → dedup_lookup json cal s j d now
        ≡ ok (
            live_answer json cal
              (cal.iso now)
              (Dict.get (clean_id j, clean_id d) s.db.inbound_dedup))
  unfolding dedup_lookup
  lookup-eq s j d now usable jk dk = rw (not_nil j jk, not_nil d dk) (rw usable)

  record_dedup-others :
      (c m : Text) (row : DedupRow) (db : Db)
      → (record_dedup json cal c m row db).inbound_dedup ≡ Dict.put (c, m) row db.inbound_dedup
  unfolding record_dedup
  record_dedup-others c m row db = ground arith

  module _ (s : ChatStateStore) (chat_id message turn_id message_id : Text) (payload : V)
      (accepted later : ℕ) (usable : is_usable s ≡ true) (k : clean_id chat_id ≢ [])
      (m : clean_id message ≢ []) where
    abbrev row : DedupRow
    row = dedup_row json cal s accepted later turn_id message_id payload

    abbrev recorded : ChatStateStore
    recorded = record s {
      db = record_dedup json cal (clean_id chat_id) (clean_id message) row s.db;
    }

    dedup_record-eq :
        dedup_record json cal s chat_id message turn_id message_id payload accepted later
        ≡ (recorded, ok tt)
    unfolding dedup_record
    dedup_record-eq = rw (not_nil chat_id k, not_nil message m) (rw usable)

    pub dedup_lookup-dedup_record :
        (j d : Text) (now : ℕ)
        → clean_id j ≢ []
        → clean_id d ≢ []
        → text_ltb (cal.iso (later + s.config.dedup_ttl_seconds)) (cal.iso now)
          ≡ ltb (later + s.config.dedup_ttl_seconds) now
        → (s' : ChatStateStore) × (dedup_record json cal s chat_id message turn_id message_id
              payload accepted later
            ≡ (s', ok tt))
          × (dedup_lookup json cal s' j d now ≡ (
              if clean_id chat_id == clean_id j && clean_id message == clean_id d
              then ok (
                  if ltb (later + s.config.dedup_ttl_seconds) now
                  then none
                  else some (answer_of json cal row))
              else dedup_lookup json cal s j d now))
    dedup_lookup-dedup_record j d now jk dk ordered = (
      recorded,
      dedup_record-eq,
      rw
          (
            sym ordered,
            lookup-eq recorded j d now usable jk dk,
            lookup-eq s j d now usable jk dk,
            record_dedup-others (clean_id chat_id) (clean_id message) row s.db,
            Dict.get-put (clean_id chat_id, clean_id message) (clean_id j, clean_id d) row
                s.db.inbound_dedup,
          )
          (ground (
            arith,
            text_beq_iff (clean_id chat_id) (clean_id j),
            text_beq_iff (clean_id message) (clean_id d),
          )),
    )
