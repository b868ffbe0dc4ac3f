-- ===== src/ChatStore/Valid.antt =====
-- The invariant of the tables of src/hermes_vylen_gateway/chat_store.py, and how a write keeps it.
use hermes_vylen_gateway.Prelude.{
  ℕ, suc, ◌≤◌, ◌≡◌, refl, sym, ◌∙◌, inl, inr, List, [], ◌∷◌, ◌++◌, Option, none, some, arith, All,
  ◌==◌, nat_eq, Bool-cases, Option-cases, subst, append-nil, if◌then◌else◌,
}
use hermes_vylen_gateway.Prelude.Dict
use hermes_vylen_gateway.Prelude.Text.{Text, text_eq, text_beq_iff}
use hermes_vylen_gateway.ChatStore.Tables.{
  ChatRecord, EventRow, Db, select, events_of, is_of, is_keyed, insert_event, update_chat,
}
use hermes_vylen_gateway.ChatStore.Rows.{Kept, Kept-nil, Kept-append, select-append, select-select}
use hermes_vylen_gateway.ChatStore.Append.{write_event, row_or, with_row}

-- What holds of one chat, from its row and its events: no row, no event.
abbrev pub ChatIsValid : Option ChatRecord → List EventRow → Type 0
ChatIsValid none rows = rows ≡ []
ChatIsValid (some row) rows = Kept row.floor_seq row.latest_seq rows

abbrev pub IsValid : Db → Type 0
IsValid db = (c : Text) → ChatIsValid (Dict.get c db.chats) (events_of c db.chat_events)

pub events_of-append :
    (c : Text) (es : List EventRow) (e : EventRow)
    → events_of c (es ++ e ∷ [])
      ≡ (if e.chat_id == c then events_of c es ++ e ∷ [] else events_of c es)
unfolding events_of select
events_of-append c es e =
    select-append (is_of c) es (e ∷ []) ∙ ground (arith, append-nil (select (is_of c) es))

none_keyed :
    (c : Text) (n : ℕ) (es : List EventRow)
    → All (λ e. e.seq ≤ n) es
    → select (is_keyed c (suc n)) es ≡ []
unfolding select
none_keyed c n [] h = refl
none_keyed c n (e ∷ es) h = ground (arith, none_keyed c n es h.1)

-- The number behind the latest one is free, so the insertion does not fail.
insert_event-next :
    (e : EventRow) (es : List EventRow) (floor latest : ℕ)
    → Kept floor latest (events_of e.chat_id es)
    → e.seq ≡ suc latest
    → insert_event e es ≡ some (es ++ e ∷ [])
unfolding insert_event events_of
insert_event-next e es floor latest k h =
    let free : select (is_keyed e.chat_id e.seq) es ≡ [] =
      sym (select-select (is_keyed e.chat_id e.seq) (is_of e.chat_id) es (λ x t. ground arith))
      ∙ rw h (none_keyed e.chat_id latest _ k.bounded) in
    rw (free, insert_event)

-- What the writers' events and updates have in common.
pub record Writes (c : Text) (event : ℕ → EventRow) (change : ℕ → ChatRecord → ChatRecord)
    : Type 0 where
  pub own : (n : ℕ) → (event n).chat_id ≡ c
  pub number : (n : ℕ) → (event n).seq ≡ n
  pub latest : (n : ℕ) (row : ChatRecord) → (change n row).latest_seq ≡ n
  pub floor : (n : ℕ) (row : ChatRecord) → (change n row).floor_seq ≡ row.floor_seq

module _ (c : Text) (row : ChatRecord) (event : ℕ → EventRow)
    (change : ℕ → ChatRecord → ChatRecord) where
  -- The tables after `write_event`.
  abbrev pub written : Db → Db
  written db = record db {
    chats = Dict.put c (change (suc row.latest_seq) row) db.chats;
    chat_events = db.chat_events ++ event (suc row.latest_seq) ∷ [];
  }

  module _ (db : Db) (w : Writes c event change) (v : IsValid db)
      (found : Dict.get c db.chats ≡ some row) where
    kept : Kept row.floor_seq row.latest_seq (events_of c db.chat_events)
    kept = subst (λ o. ChatIsValid o (events_of c db.chat_events)) found (v c)

    pub write_event-written : write_event c row event change db ≡ some (written db)
    unfolding write_event update_chat
    write_event-written =
        let k =
          subst (λ d. Kept row.floor_seq row.latest_seq (events_of d db.chat_events))
            (sym (w.own (suc row.latest_seq))) kept in
        rw
          (
            insert_event-next (event (suc row.latest_seq)) db.chat_events row.floor_seq
                row.latest_seq k (w.number (suc row.latest_seq)),
            write_event,
          )
          (rw (found, update_chat))

    pub events_of-written :
        (j : Text)
        → events_of j (written db).chat_events ≡ (
            if c == j
            then events_of j db.chat_events ++ event (suc row.latest_seq) ∷ []
            else events_of j db.chat_events)
    events_of-written j =
        subst
          (λ d. events_of j (written db).chat_events ≡ (
            if d == j
            then events_of j db.chat_events ++ event (suc row.latest_seq) ∷ []
            else events_of j db.chat_events))
          (w.own (suc row.latest_seq))
          (events_of-append j db.chat_events (event (suc row.latest_seq)))

    pub written-IsValid : IsValid (written db)
    written-IsValid j = elim (Bool-cases (c == j)) [
      | inl same ↦
          rw (Dict.get-put c j (change (suc row.latest_seq) row) db.chats, events_of-written j)
            (rw same (
              rw (w.latest (suc row.latest_seq) row, w.floor (suc row.latest_seq) row)
                (subst
                  (λ d.
                    Kept row.floor_seq (suc row.latest_seq)
                      (events_of d db.chat_events ++ event (suc row.latest_seq) ∷ []))
                  ((text_beq_iff c j).0 same)
                  (Kept-append kept (event (suc row.latest_seq)) (w.number (suc row.latest_seq))))))
      | inr other ↦
          rw (Dict.get-put c j (change (suc row.latest_seq) row) db.chats, events_of-written j)
            (rw other (v j))
    ]

-- A row that fits the chat's events.
pub put-IsValid :
    (c : Text) (row : ChatRecord) (db : Db)
    → IsValid db
    → Kept row.floor_seq row.latest_seq (events_of c db.chat_events)
    → IsValid (record db { chats = Dict.put c row db.chats })
put-IsValid c row db v k j = elim (Bool-cases (c == j)) [
  | inl same ↦ rw (Dict.get-put c j row db.chats) (
      rw same (
        subst (λ d. Kept row.floor_seq row.latest_seq (events_of d db.chat_events))
          ((text_beq_iff c j).0 same) k))
  | inr other ↦ rw (Dict.get-put c j row db.chats) (rw other (v j))
]

-- A new row without events, or the one that there is.
module _ (c : Text) (fresh : ChatRecord) (db : Db) (v : IsValid db) where
  pub get-with_row :
      Dict.get c (with_row c fresh (Dict.get c db.chats) db).chats
      ≡ some (row_or fresh (Dict.get c db.chats))
  get-with_row = elim (Option-cases (Dict.get c db.chats)) [
    | inl miss ↦ rw miss (Dict.get-put c c fresh db.chats ∙ ground (arith, text_beq_iff c c))
    | inr (row, hit) ↦ rw hit hit
  ]

  pub with_row-IsValid :
      fresh.floor_seq ≡ 0
      → fresh.latest_seq ≡ 0
      → IsValid (with_row c fresh (Dict.get c db.chats) db)
  with_row-IsValid f l = elim (Option-cases (Dict.get c db.chats)) [
    | inl miss ↦ rw miss (
        put-IsValid c fresh db v (
          rw (f, l, subst (λ o. ChatIsValid o (events_of c db.chat_events)) miss (v c))
            (Kept-nil 0)))
    | inr (row, hit) ↦ rw hit v
  ]
