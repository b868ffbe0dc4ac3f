-- ===== src/ChatStore/Writers.antt =====
-- Every writing operation of src/hermes_vylen_gateway/chat_store.py keeps the tables valid, whatever it
-- answers.
use hermes_vylen_gateway.Prelude.{
  ℕ, max, ◌≡◌, refl, sym, inl, inr, ◌⊎◌, [], ◌∷◌, Option, none, some, ◌==◌, pair_eq, ◌||◌,
  Bool-cases, Option-cases, subst,
}
use hermes_vylen_gateway.Prelude.Dict
use hermes_vylen_gateway.Prelude.Text.{Text, text_eq, codes}
use hermes_vylen_gateway.ChatStore.Tables.{ChatRecord, CursorRow, Db, events_of}
use hermes_vylen_gateway.ChatStore.Rows.{Kept, Kept-nil}
use hermes_vylen_gateway.ChatStore.Texts.{Json, clean_id, new_conversation}
use hermes_vylen_gateway.ChatStore.Store.{
  Calendar, ChatStateStore, StoreError, Answer, ok, raised, is_usable,
}
use hermes_vylen_gateway.ChatStore.Append.{
  new_chat, check_append, append_event, check_rename, rename_chat, deleted_row, upsert_deleted,
  mark_deleted,
}
use hermes_vylen_gateway.ChatStore.Valid.{IsValid, ChatIsValid, put-IsValid, with_row-IsValid}
use hermes_vylen_gateway.ChatStore.Appended.{append_event-Wrote, rename_chat-Wrote}
use hermes_vylen_gateway.ChatStore.Sweep.Whole.{delete_chats-IsValid}
use hermes_vylen_gateway.ChatStore.Clients.{
  drop, acknowledge, upsert_cursor, seq_or_zero, store_or, dedup_record, dedup_forget,
}

Answer-cases {ℓ} :
    {A : Type ℓ} (a : Answer A) → ((x : A) × (a ≡ ok x)) ⊎ ((e : StoreError) × (a ≡ raised e))
Answer-cases (ok x) = inl (x, refl)
Answer-cases (raised e) = inr (e, refl)

pub drop-IsValid : (s : ChatStateStore) (key : Text) → IsValid s.db → IsValid (drop s key).0.db
unfolding drop
drop-IsValid s key v = elim (Bool-cases (clean_id key == [])) [
  | inl empty ↦ rw empty v
  | inr id ↦ elim (Bool-cases (is_usable s)) [
    | inl ready ↦ rw (id, ready) (delete_chats-IsValid (clean_id key ∷ []) s.db v)
    | inr shut ↦ rw (id, shut) v
  ]
]

upsert_cursor-IsValid :
    (s : ChatStateStore) (c client : Text) (seq : ℕ) (now : Text)
    → IsValid s.db
    → IsValid (store_or s (upsert_cursor c client seq now s.db)).0.db
unfolding upsert_cursor
upsert_cursor-IsValid s c client seq now v = elim (Option-cases (Dict.get c s.db.chats)) [
  | inl miss ↦
      let absent : upsert_cursor c client seq now s.db ≡ none = rw (miss, upsert_cursor) in
      subst (λ o. IsValid (store_or s o).0.db) (sym absent) v
  | inr (row, found) ↦
      let (db', stored, same) = upserted row found in
      subst (λ o. IsValid (store_or s o).0.db) (sym stored) same
]
  where
    upserted :
        (row : ChatRecord)
        → Dict.get c s.db.chats ≡ some row
        → (db' : Db) × (upsert_cursor c client seq now s.db ≡ some db') × IsValid db'
    upserted row found =
        let moved : CursorRow = record {
          seq = max (seq_or_zero (Dict.get (c, client) s.db.client_cursors)) seq;
          updated_at = now;
        } in
        (
          record (s.db) { client_cursors = Dict.put (c, client) moved s.db.client_cursors },
          rw (found, upsert_cursor),
          v,
        )

pub acknowledge-IsValid :
    (s : ChatStateStore) (key client : Text) (seq : ℕ) (now : Text)
    → IsValid s.db
    → IsValid (acknowledge s key client seq now).0.db
unfolding acknowledge
acknowledge-IsValid s key client seq now v =
    elim (Bool-cases (clean_id key == [] || clean_id client == [])) [
      | inl empty ↦ rw empty v
      | inr id ↦ elim (Bool-cases (is_usable s)) [
        | inl ready ↦
            rw (id, ready) (upsert_cursor-IsValid s (clean_id key) (clean_id client) seq now v)
        | inr shut ↦ rw (id, shut) v
      ]
    ]

pub dedup_forget-IsValid :
    (s : ChatStateStore) (chat_id message : Text)
    → IsValid s.db
    → IsValid (dedup_forget s chat_id message).0.db
unfolding dedup_forget
dedup_forget-IsValid s chat_id message v =
    elim (Bool-cases (clean_id chat_id == [] || clean_id message == [])) [
      | inl empty ↦ rw empty v
      | inr id ↦ elim (Bool-cases (is_usable s)) [
        | inl ready ↦ rw (id, ready) v
        | inr shut ↦ rw (id, shut) v
      ]
    ]

module _ {V : Type 0} (json : Json V) (cal : Calendar) where
  -- Whatever it answers, `append_event` keeps the tables valid.
  pub append_event-IsValid :
      (s : ChatStateStore) (chat_id kind : Text) (payload : V) (ts : ℕ) (title : Text)
      (client user : Option Text)
      → IsValid s.db
      → IsValid (append_event json cal s chat_id kind payload ts title client user).0.db
  unfolding append_event
  append_event-IsValid s chat_id kind payload ts title client user v =
      elim (Answer-cases (check_append json cal s chat_id kind payload)) [
        | inl ((c, size), accepted) ↦
            let (s', stored, wrote) =
              append_event-Wrote json cal s chat_id kind payload ts title client user c size v
                accepted in
            rw stored (wrote.valid)
        | inr (e, refused) ↦
            let same : append_event json cal s chat_id kind payload ts title client user
                ≡ (s, raised e) =
              rw (refused, append_event) in
            rw same v
      ]

  pub rename_chat-IsValid :
      (s : ChatStateStore) (chat_id title : Text) (ts : ℕ)
      → IsValid s.db
      → IsValid (rename_chat json cal s chat_id title ts).0.db
  unfolding rename_chat
  rename_chat-IsValid s chat_id title ts v =
      elim (Answer-cases (check_rename json cal s chat_id title ts)) [
        | inl ((c, size), accepted) ↦
            let (s', stored, wrote) =
              rename_chat-Wrote json cal s chat_id title ts c size v accepted in
            rw stored (wrote.valid)
        | inr (e, refused) ↦
            let same : rename_chat json cal s chat_id title ts ≡ (s, raised e) =
              rw (refused, rename_chat) in
            rw same v
      ]

  deleted_row-Kept :
      (c iso : Text) (db : Db) (o : Option ChatRecord)
      → ChatIsValid o (events_of c db.chat_events)
      → Kept
          (deleted_row json cal c iso o).floor_seq
          (deleted_row json cal c iso o).latest_seq
          (events_of c db.chat_events)
  deleted_row-Kept c iso db none h = rw h (Kept-nil 0)
  deleted_row-Kept c iso db (some row) h = h

  upsert_deleted-IsValid :
      (c iso : Text) (db : Db) → IsValid db → IsValid (upsert_deleted json cal c iso db)
  unfolding upsert_deleted
  upsert_deleted-IsValid c iso db v =
      put-IsValid c (deleted_row json cal c iso (Dict.get c db.chats)) db v
        (deleted_row-Kept c iso db (Dict.get c db.chats) (v c))

  pub mark_deleted-IsValid :
      (s : ChatStateStore) (chat_id : Text) (ts : ℕ)
      → IsValid s.db
      → IsValid (mark_deleted json cal s chat_id ts).0.db
  unfolding mark_deleted
  mark_deleted-IsValid s chat_id ts v = elim (Bool-cases (clean_id chat_id == [])) [
    | inl empty ↦ rw empty v
    | inr id ↦ elim (Bool-cases (is_usable s)) [
      | inl ready ↦
          rw (id, ready)
            (append_event-IsValid
              (record s { db = upsert_deleted json cal (clean_id chat_id) (cal.iso ts) s.db })
              (clean_id chat_id) (codes "chat.deleted") _ ts [] none none
              (upsert_deleted-IsValid (clean_id chat_id) (cal.iso ts) s.db v))
      | inr shut ↦ rw (id, shut) v
    ]
  ]

  pub dedup_record-IsValid :
      (s : ChatStateStore) (chat_id message turn_id message_id : Text) (payload : V) (ts later : ℕ)
      → IsValid s.db
      → IsValid (dedup_record json cal s chat_id message turn_id message_id payload ts later).0.db
  unfolding dedup_record
  dedup_record-IsValid s chat_id message turn_id message_id payload ts later v =
      elim (Bool-cases (clean_id chat_id == [] || clean_id message == [])) [
        | inl empty ↦ rw empty v
        | inr id ↦ elim (Bool-cases (is_usable s)) [
          | inl ready ↦
              rw (id, ready)
                (with_row-IsValid (clean_id chat_id)
                  (new_chat (clean_id chat_id) new_conversation none none (cal.iso ts)) s.db v refl
                  refl)
          | inr shut ↦ rw (id, shut) v
        ]
      ]
