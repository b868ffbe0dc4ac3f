-- ===== src/ChatStore/Appended.antt =====
-- What the appending operations of src/hermes_vylen_gateway/chat_store.py promise.
use hermes_vylen_gateway.Prelude.{
  ℕ, suc, ◌≡◌, refl, sym, ap, ◌∙◌, false, [], ◌∷◌, ◌++◌, Option, none, some, arith, ◌==◌, nat_eq,
  subst, if◌then◌else◌,
}
use hermes_vylen_gateway.Prelude.Dict
use hermes_vylen_gateway.Prelude.Text.{Text, text_eq, text_beq_refl, codes}
use hermes_vylen_gateway.ChatStore.Tables.{ChatRecord, EventRow, Db, events_of}
use hermes_vylen_gateway.ChatStore.Texts.{
  Json, optional_id, clean_title, initial_title_for_event, preview_from_event,
}
use hermes_vylen_gateway.ChatStore.Store.{Calendar, ChatStateStore, ok, bump_log, count_append}
use hermes_vylen_gateway.ChatStore.Append.{
  new_chat, advance, row_or, with_row, event_row, check_append, next_title, append_rows, next_of,
  next_seq, retained, append_event, write_event, rename_rows, rename, rename_chat, check_rename,
  renamed_payload,
}
use hermes_vylen_gateway.ChatStore.Valid.{
  IsValid, Writes, written, write_event-written, events_of-written, written-IsValid, get-with_row,
  with_row-IsValid,
}

abbrev pub floor_of : Option ChatRecord → ℕ
floor_of none = 0
floor_of (some row) = row.floor_seq

-- The tables db' are db with one more event of the chat c.
pub record Wrote (c : Text) (e : EventRow) (db db' : Db) : Type 0 where
  pub valid : IsValid db'
  pub number : e.seq ≡ next_seq c db
  pub events :
      (j : Text)
      → events_of j db'.chat_events
        ≡ (if c == j then events_of j db.chat_events ++ e ∷ [] else events_of j db.chat_events)
  pub row :
      (r : ChatRecord) × (Dict.get c db'.chats ≡ some r)
      × (r.latest_seq ≡ e.seq)
      × (r.floor_seq ≡ floor_of (Dict.get c db.chats))
  pub others : (j : Text) → (c == j) ≡ false → Dict.get j db'.chats ≡ Dict.get j db.chats

module _ (c : Text) (fresh : ChatRecord) where
  row-next :
      (o : Option ChatRecord) → fresh.latest_seq ≡ 0 → suc (row_or fresh o).latest_seq ≡ next_of o
  row-next none l = ap suc l
  row-next (some row) l = refl

  row-floor :
      (o : Option ChatRecord) → fresh.floor_seq ≡ 0 → (row_or fresh o).floor_seq ≡ floor_of o
  row-floor none f = f
  row-floor (some row) f = refl

  with_row-events :
      (o : Option ChatRecord) (db : Db) → (with_row c fresh o db).chat_events ≡ db.chat_events
  with_row-events none db = refl
  with_row-events (some row) db = refl

  with_row-others :
      (o : Option ChatRecord) (db : Db) (j : Text)
      → (c == j) ≡ false
      → Dict.get j (with_row c fresh o db).chats ≡ Dict.get j db.chats
  with_row-others none db j h = Dict.get-put c j fresh db.chats ∙ rw h
  with_row-others (some row) db j h = refl

module _ (c : Text) (fresh : ChatRecord) (event : ℕ → EventRow)
    (change : ℕ → ChatRecord → ChatRecord) (db : Db) (w : Writes c event change) (v : IsValid db)
    (f : fresh.floor_seq ≡ 0) (l : fresh.latest_seq ≡ 0) where
  abbrev old : Option ChatRecord
  old = Dict.get c db.chats

  abbrev row : ChatRecord
  row = row_or fresh old

  abbrev opened : Db
  opened = with_row c fresh old db

  write_event-Wrote_row :
      (db' : Db) × (write_event c row event change opened ≡ some db')
      × Wrote c (event (suc row.latest_seq)) db db'
  write_event-Wrote_row =
      let ov = with_row-IsValid c fresh db v f l in
      let found = get-with_row c fresh db v in
      let n = suc row.latest_seq in
      (
        written c row event change opened,
        write_event-written c row event change opened w ov found,
        record {
          valid = written-IsValid c row event change opened w ov found;
          number = w.number n ∙ row-next c fresh old l;
          events = λ j.
              subst
                (λ es.
                  events_of j (written c row event change opened).chat_events
                  ≡ (if c == j then events_of j es ++ event n ∷ [] else events_of j es))
                (with_row-events c fresh old db)
                (events_of-written c row event change opened w ov found j);
          row = (
            change n row,
            Dict.get-put c c (change n row) opened.chats ∙ rw (text_beq_refl c),
            w.latest n row ∙ sym (w.number n),
            w.floor n row ∙ row-floor c fresh old f,
          );
          others = λ j h.
              Dict.get-put c j (change n row) opened.chats
              ∙ rw h (with_row-others c fresh old db j h);
        },
      )

  pub write_event-Wrote :
      (db' : Db) × (write_event c row event change opened ≡ some db')
      × Wrote c (event (next_seq c db)) db db'
  write_event-Wrote =
      subst
        (λ n.
          (db' : Db) × (write_event c row event change opened ≡ some db')
          × Wrote c (event n) db db')
        (row-next c fresh old l) write_event-Wrote_row

module _ {V : Type 0} (json : Json V) (cal : Calendar) where
  advance-Writes :
      (c kind : Text) (payload : V) (size : ℕ) (iso : Text) (title : Option Text)
      (preview : Option (Text × Text × Text))
      → Writes c (event_row json cal c kind payload size iso) (λ seq. advance seq iso title preview)
  advance-Writes c kind payload size iso title preview = record {
    own = λ n. refl;
    number = λ n. refl;
    latest = λ n row. ground arith;
    floor = λ n row. ground arith;
  }

  module _ (s : ChatStateStore) (chat_id kind : Text) (payload : V) (ts : ℕ) (title : Text)
      (client user : Option Text) (c : Text) (size : ℕ) (v : IsValid s.db)
      (accepted : check_append json cal s chat_id kind payload ≡ ok (c, size)) where
    -- An event that the checks accept is always stored: under the number behind the latest of its
    -- chat, behind the chat's other events, which stay, and no other chat changes.
    pub append_event-Wrote :
        (s' : ChatStateStore) × (append_event json cal s chat_id kind payload ts title client user
          ≡ (s', ok (retained json cal kind payload ts size (next_seq c s.db))))
        × Wrote c (event_row json cal c kind payload size (cal.iso ts) (next_seq c s.db)) s.db s'.db
    unfolding append_event append_rows
    append_event-Wrote =
        let fresh =
          new_chat c (initial_title_for_event json kind payload title) (optional_id client)
            (optional_id user) (cal.iso ts) in
        let change : ℕ → ChatRecord → ChatRecord = λ seq.
          advance seq (cal.iso ts) (next_title json cal kind payload (Dict.get c s.db.chats))
            (preview_from_event json kind payload (cal.iso ts)) in
        let (db', stored, wrote) =
          write_event-Wrote c fresh (event_row json cal c kind payload size (cal.iso ts)) change
            s.db
            (advance-Writes c kind payload size (cal.iso ts)
              (next_title json cal kind payload (Dict.get c s.db.chats))
              (preview_from_event json kind payload (cal.iso ts)))
            v refl refl in
        (
          bump_log c (count_append size (record s { db = db' })),
          rw (accepted, append_event) (rw stored),
          wrote,
        )

  rename-Writes :
      (c title : Text) (payload : V) (size : ℕ) (iso : Text)
      → Writes c
          (event_row json cal c (codes "chat.renamed") payload size iso)
          (rename json cal title iso)
  rename-Writes c title payload size iso = record {
    own = λ n. refl;
    number = λ n. refl;
    latest = λ n row. refl;
    floor = λ n row. refl;
  }

  module _ (s : ChatStateStore) (chat_id title : Text) (ts : ℕ) (c : Text) (size : ℕ)
      (v : IsValid s.db) (accepted : check_rename json cal s chat_id title ts ≡ ok (c, size)) where
    abbrev renaming : V
    renaming = renamed_payload json cal c (clean_title title) ts

    -- A renaming that the checks accept is always stored, in the same way, as an event
    -- `chat.renamed`: under the number behind the latest, behind the chat's other events.
    pub rename_chat-Wrote :
        (s' : ChatStateStore) × (rename_chat json cal s chat_id title ts
          ≡ (s', ok (retained json cal (codes "chat.renamed") renaming ts size (next_seq c s.db))))
        × Wrote c
            (event_row json cal c
              (codes "chat.renamed")
              renaming
              size
              (cal.iso ts)
              (next_seq c s.db))
            s.db
            s'.db
    unfolding rename_chat rename_rows
    rename_chat-Wrote =
        let (db', stored, wrote) =
          write_event-Wrote c (new_chat c (clean_title title) none none (cal.iso ts))
            (event_row json cal c (codes "chat.renamed") renaming size (cal.iso ts))
            (rename json cal (clean_title title) (cal.iso ts)) s.db
            (rename-Writes c (clean_title title) renaming size (cal.iso ts)) v refl refl in
        (
          bump_log c (count_append size (record s { db = db' })),
          rw (accepted, rename_chat) (rw stored),
          wrote,
        )
