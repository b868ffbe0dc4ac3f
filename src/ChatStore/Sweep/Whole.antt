-- ===== src/ChatStore/Sweep/Whole.antt =====
-- The whole sweep of src/hermes_vylen_gateway/chat_store.py keeps the tables valid.
use hermes_vylen_gateway.Prelude.{
  ℕ, suc, ◌*◌, ◌≡◌, refl, sym, ◌∙◌, inl, inr, Bool, true, false, List, [], ◌∷◌, ◌++◌, Option, none,
  some, arith, ltb, leb, ◌==◌, Bool-cases, subst, length, if◌then◌else◌,
}
use hermes_vylen_gateway.Prelude.Dict
use hermes_vylen_gateway.Prelude.Dict.{Dict}
use hermes_vylen_gateway.Prelude.Text.{Text, text_eq, text_beq_iff, codes}
use hermes_vylen_gateway.ChatStore.Tables.{
  ChatRecord, EventRow, Db, select, delete, events_of, update_chat, delete_chats,
}
use hermes_vylen_gateway.ChatStore.Rows.{Kept-nil, Kept-append}
use hermes_vylen_gateway.ChatStore.Texts.{Json}
use hermes_vylen_gateway.ChatStore.Store.{
  Calendar, ChatStateConfig, ChatStateLog, ChatStateStore, is_usable,
}
use hermes_vylen_gateway.ChatStore.Valid.{IsValid, events_of-append}
use hermes_vylen_gateway.ChatStore.Sweep.{
  Swept, delete_events, drop_expired, tombstone, bury, is_gone, tombstone_row,
  tombstone_chat_for_gc, tombstone_until, drop_dedup, sweep_count, sweep_bytes, log_budget,
  sweep_rows, sweep, sweep_chats, order_by_update, live_chats, keep_chat_ids, active_chat_ids, ids,
}
use hermes_vylen_gateway.ChatStore.Sweep.Keeps.{events_of-delete, sweep_chats-IsValid}

delete-all : (xs : List EventRow) → delete (λ e. true) xs ≡ []
unfolding delete
delete-all [] = refl
delete-all (x ∷ xs) = delete-all xs

events_of-without :
    (j : Text) (cs : List Text) (es : List EventRow)
    → events_of j (delete (λ e. Dict.contains e.chat_id cs) es)
      ≡ (if Dict.contains j cs then [] else events_of j es)
unfolding events_of select delete
events_of-without j cs [] = ground arith
events_of-without j cs (e ∷ es) =
    ground (arith, events_of-without j cs es, text_beq_iff e.chat_id j)

pub delete_chats-IsValid : (cs : List Text) (db : Db) → IsValid db → IsValid (delete_chats cs db)
unfolding delete_chats
delete_chats-IsValid cs db v j =
    rw (Dict.get-remove_all cs db.chats j, events_of-without j cs db.chat_events)
      (elim (Bool-cases (Dict.contains j cs)) [ inl gone ↦ rw gone | inr stays ↦ rw stays (v j) ])

drop_expired-IsValid :
    (cutoff : Text) (w : Swept) → IsValid w.db → IsValid (drop_expired cutoff w).db
unfolding drop_expired
drop_expired-IsValid cutoff w v = delete_chats-IsValid _ w.db v

module _ {V : Type 0} (json : Json V) where
  module _ (deleted_at reason c : Text) (w : Swept) (v : IsValid w.db) where
    abbrev event : ChatRecord → EventRow
    event row = tombstone json c deleted_at reason (suc row.latest_seq)

    -- The tables after a chat was tombstoned.
    abbrev buried : ChatRecord → Db
    buried row = record (w.db) {
      chats = Dict.put c (bury json deleted_at row.latest_seq row) w.db.chats;
      chat_events = (delete_events c (λ e. true) w.db).chat_events ++ event row ∷ [];
    }

    pub events_of-buried :
        (row : ChatRecord) (j : Text)
        → events_of j (buried row).chat_events
          ≡ (if c == j then event row ∷ [] else events_of j w.db.chat_events)
    unfolding delete_events
    events_of-buried row j =
        events_of-append j _ (event row)
        ∙ rw (events_of-delete c j (λ e. true) w.db.chat_events, delete-all) (ground arith)

    buried-IsValid : (row : ChatRecord) → IsValid (buried row)
    buried-IsValid row j =
        rw
          (
            Dict.get-put c j (bury json deleted_at row.latest_seq row) w.db.chats,
            events_of-buried row j,
          )
          (elim (Bool-cases (c == j)) [
            | inl same ↦ rw same (Kept-append (Kept-nil row.latest_seq) (event row) refl)
            | inr other ↦ rw other (v j)
          ])

    tombstone_row-buried :
        (row : ChatRecord)
        → Dict.get c w.db.chats ≡ some row
        → is_gone json row.deleted_at ≡ false
        → (tombstone_row json deleted_at reason c (some row) w).db ≡ buried row
    unfolding tombstone_row
    tombstone_row-buried row found live = rw live (rw (found, update_chat))

    tombstone_row-IsValid :
        (o : Option ChatRecord)
        → Dict.get c w.db.chats ≡ o
        → IsValid (tombstone_row json deleted_at reason c o w).db
    unfolding tombstone_row
    tombstone_row-IsValid none h = v
    tombstone_row-IsValid (some row) h = elim (Bool-cases (is_gone json row.deleted_at)) [
      | inl gone ↦ rw gone v
      | inr live ↦ subst IsValid (sym (tombstone_row-buried row h live)) (buried-IsValid row)
    ]

    tombstone-IsValid : IsValid (tombstone_chat_for_gc json deleted_at reason c w).db
    unfolding tombstone_chat_for_gc
    tombstone-IsValid = tombstone_row-IsValid _ refl

  tombstone_until-IsValid :
      (enough : Db → Bool) (spared : List Text) (deleted_at reason : Text) (cs : List Text)
      (w : Swept)
      → IsValid w.db
      → IsValid (tombstone_until json enough spared deleted_at reason cs w).db
  unfolding tombstone_until
  tombstone_until-IsValid enough spared deleted_at reason [] w v = v
  tombstone_until-IsValid enough spared deleted_at reason (c ∷ cs) w v =
      let w' = tombstone_chat_for_gc json deleted_at reason c w in
      let v' = tombstone-IsValid deleted_at reason c w v in
      elim (Bool-cases (Dict.contains c spared)) [
        | inl skip ↦ rw skip (tombstone_until-IsValid enough spared deleted_at reason cs w v)
        | inr taken ↦ rw taken (elim (Bool-cases (enough w'.db)) [
          | inl stop ↦ rw stop v'
          | inr more ↦ rw more (tombstone_until-IsValid enough spared deleted_at reason cs w' v')
        ])
      ]

  module _ (cal : Calendar) (live_bytes : Db → ℕ) where
    drop_dedup-IsValid :
        (now cutoff : Text) (w : Swept)
        → IsValid w.db
        → IsValid (drop_dedup json cal live_bytes now cutoff w).db
    unfolding drop_dedup
    drop_dedup-IsValid now cutoff w v = v

    sweep_count-IsValid :
        (config : ChatStateConfig) (active : List Text) (now : Text) (w : Swept)
        → IsValid w.db
        → IsValid (sweep_count json cal live_bytes config active now w).db
    unfolding sweep_count
    sweep_count-IsValid config active now w v =
        tombstone_until-IsValid (λ db. leb (length (live_chats db)) config.max_chats)
          (keep_chat_ids config.max_chats w.db ++ active) now (codes "max_chats")
          (ids (order_by_update (live_chats w.db))) w v

    sweep_bytes-IsValid :
        (config : ChatStateConfig) (active : List Text) (now : Text) (w : Swept)
        → IsValid w.db
        → IsValid (sweep_bytes json cal live_bytes config active now w).db
    unfolding sweep_bytes
    sweep_bytes-IsValid config active now w v =
        elim (Bool-cases (ltb config.max_bytes (live_bytes w.db))) [
          | inl over ↦ rw over (
              tombstone_until-IsValid (λ db. leb (live_bytes db) config.max_bytes) active now
                (codes "max_bytes") (ids (order_by_update (live_chats w.db))) w v)
          | inr fits ↦ rw fits v
        ]

    log_budget-IsValid :
        (config : ChatStateConfig) (now : Text) (detail : ℕ → ℕ → Text) (w : Swept)
        → IsValid w.db
        → IsValid (log_budget json cal live_bytes config now detail w).db
    unfolding log_budget
    log_budget-IsValid config now detail w v =
        elim (Bool-cases (ltb config.max_bytes (live_bytes w.db))) [
          | inl over ↦ rw over v
          | inr fits ↦ rw fits v
        ]

    sweep_rows-IsValid :
        (config : ChatStateConfig) (logs : Dict Text ChatStateLog) (ts : ℕ) (detail : ℕ → ℕ → Text)
        (db : Db)
        → IsValid db
        → IsValid (sweep_rows json cal live_bytes config logs ts detail db).db
    unfolding sweep_rows
    sweep_rows-IsValid config logs ts detail db v =
        let now = cal.iso ts in
        let w0 : Swept = record { db = db; deleted_rows = 0 } in
        let dedup = cal.iso_before ts config.dedup_ttl_seconds in
        let w1 = drop_dedup json cal live_bytes now dedup w0 in
        let old = cal.iso_before ts (config.event_ttl_days * 86400) in
        let w2 = sweep_chats config.max_events_per_chat old (Dict.keys w1.db.chats) w1 in
        let expired = cal.iso_before ts (config.deleted_ttl_days * 86400) in
        let w3 = drop_expired expired w2 in
        let active = active_chat_ids logs in
        let w4 = sweep_count json cal live_bytes config active now w3 in
        let w5 = sweep_bytes json cal live_bytes config active now w4 in
        let v1 = drop_dedup-IsValid now dedup w0 v in
        let v2 = sweep_chats-IsValid config.max_events_per_chat old (Dict.keys w1.db.chats) w1 v1 in
        let v3 = drop_expired-IsValid expired w2 v2 in
        let v4 = sweep_count-IsValid config active now w3 v3 in
        let v5 = sweep_bytes-IsValid config active now w4 v4 in
        log_budget-IsValid config now detail w5 v5

    -- A sweep keeps the tables valid: every chat that is left has its events above its floor with
    -- no gap, up to its latest number, also when the clock was set back between the events.
    pub sweep-IsValid :
        (s : ChatStateStore) (ts : ℕ) (detail : ℕ → ℕ → Text)
        → IsValid s.db
        → IsValid (sweep json cal live_bytes s ts detail).0.db
    unfolding sweep
    sweep-IsValid s ts detail v = elim (Bool-cases (is_usable s)) [
      | inr shut ↦ rw shut v
      | inl ready ↦ rw ready (sweep_rows-IsValid s.config s.logs ts detail s.db v)
    ]
