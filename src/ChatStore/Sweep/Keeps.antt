-- ===== src/ChatStore/Sweep/Keeps.antt =====
-- The sweep of src/hermes_vylen_gateway/chat_store.py keeps the tables valid.
use hermes_vylen_gateway.Prelude.{
  ℕ, zero, suc, ◌-◌, ◌≤◌, ◌≡◌, refl, sym, inl, inr, Bool, false, List, [], ◌∷◌, Option, none, some,
  arith, All, All-append, leb, ◌==◌, nat_eq, Bool-cases, ◌&&◌, max, Option-cases, subst, get_elem?,
  if◌then◌else◌,
}
use mathlib.Core.List.{reverse, reverse-cons}
use mathlib.Core.Option.{some-injective}
use hermes_vylen_gateway.Prelude.Dict
use hermes_vylen_gateway.Prelude.Text.{Text, text_eq, text_beq_iff}
use hermes_vylen_gateway.ChatStore.Tables.{
  ChatRecord, EventRow, Db, select, delete, events_of, is_of, is_after, update_chat,
}
use hermes_vylen_gateway.ChatStore.Rows.{
  Kept, Kept-raise, Kept-delete, order_by_seq-Above, select-All,
}
use hermes_vylen_gateway.ChatStore.Valid.{IsValid, ChatIsValid}
use hermes_vylen_gateway.ChatStore.Sweep.{
  Swept, max_seq, raise_floor, delete_events, drop_events, sweep_old, is_old, nth_newest,
  drop_overflow, sweep_overflow, sweep_chats,
}

module _ {ℓ} {A : Type ℓ} where
  delete-none : (p : A → Bool) (xs : List A) → select p xs ≡ [] → delete p xs ≡ xs
  unfolding select delete
  delete-none p [] h = refl
  delete-none p (x ∷ xs) h = ground (arith, delete-none p xs)

-- The events of the chats after some of one chat's events are deleted.
pub events_of-delete :
    (c j : Text) (test : EventRow → Bool) (es : List EventRow)
    → events_of j (delete (λ e. if is_of c e then test e else false) es)
      ≡ (if c == j then delete test (events_of j es) else events_of j es)
unfolding events_of select delete
events_of-delete c j test [] = ground arith
events_of-delete c j test (e ∷ es) = ground (
  arith,
  events_of-delete c j test es,
  text_beq_iff c j,
  text_beq_iff e.chat_id c,
  text_beq_iff e.chat_id j,
)

max_seq-none : (es : List EventRow) → max_seq es ≡ none → es ≡ []
unfolding max_seq
max_seq-none [] h = refl
max_seq-none (e ∷ es) h = ground arith

All-le : (m n : ℕ) (es : List EventRow) → m ≤ n → All (λ e. e.seq ≤ m) es → All (λ e. e.seq ≤ n) es
All-le m n [] h b = tt
All-le m n (e ∷ es) h b = (omega arith, All-le m n es h b.1)

max_seq-upper : (es : List EventRow) (m : ℕ) → max_seq es ≡ some m → All (λ e. e.seq ≤ m) es
unfolding max_seq
max_seq-upper [] m h = tt
max_seq-upper (e ∷ es) m h = elim (Option-cases (max_seq es)) [
  | inl last ↦ (ground arith, rw (max_seq-none es last) tt)
  | inr (k, more) ↦ (ground arith, All-le k m es (ground arith) (max_seq-upper es k more))
]

max_seq-bounded :
    (es : List EventRow) (m n : ℕ) → max_seq es ≡ some m → All (λ e. e.seq ≤ n) es → m ≤ n
unfolding max_seq
max_seq-bounded [] m n h b = absurd (cc)
max_seq-bounded (e ∷ es) m n h b = elim (Option-cases (max_seq es)) [
  | inl last ↦ ground arith
  | inr (k, more) ↦ ground (arith, max_seq-bounded es k n more b.1)
]

-- No event that passes the test is behind a number that is above those that pass.
select-covers :
    (q : EventRow → Bool) (xs : List EventRow) (m a : ℕ)
    → All (λ e. e.seq ≤ m) (select q xs)
    → m ≤ a
    → All (λ e. (is_after a e && q e) ≡ false) xs
unfolding select
select-covers q [] m a h k = tt
select-covers q (x ∷ xs) m a h k = elim (Bool-cases (q x)) [
  | inl taken ↦
      let t : (x.seq ≤ m) × All (λ e. e.seq ≤ m) (select q xs) = rw taken at h in
      (ground arith, select-covers q xs m a t.1 k)
  | inr left ↦
      let t : All (λ e. e.seq ≤ m) (select q xs) = rw left at h in
      (ground arith, select-covers q xs m a t k)
]

pub update_chat-found :
    (c : Text) (f : ChatRecord → ChatRecord) (db : Db) (row : ChatRecord)
    → Dict.get c db.chats ≡ some row
    → update_chat c f db ≡ record db { chats = Dict.put c (f row) db.chats }
unfolding update_chat
update_chat-found c f db row h = rw (h, update_chat)

pub update_chat-absent :
    (c : Text) (f : ChatRecord → ChatRecord) (db : Db)
    → Dict.get c db.chats ≡ none
    → update_chat c f db ≡ db
unfolding update_chat
update_chat-absent c f db h = rw (h, update_chat)

-- Deleting a chat's events, up to a floor that is then raised, keeps what is behind the floor.
module _ (c : Text) (test : EventRow → Bool) (w : Swept) (v : IsValid w.db) where
  abbrev rows : List EventRow
  rows = events_of c w.db.chat_events

  deleted : (j : Text) → List EventRow
  deleted j =
      if c == j then delete test (events_of j w.db.chat_events) else events_of j w.db.chat_events

  events_of-delete_events :
      (j : Text) → events_of j (delete_events c test w.db).chat_events ≡ deleted j
  unfolding delete_events deleted
  events_of-delete_events j = events_of-delete c j test w.db.chat_events

  -- Nothing is deleted.
  delete_events-IsValid : delete test rows ≡ rows → IsValid (delete_events c test w.db)
  unfolding delete_events deleted
  delete_events-IsValid h j = elim (Bool-cases (c == j)) [
    | inl same ↦
        let e : delete test (events_of j w.db.chat_events) ≡ events_of j w.db.chat_events =
          subst (λ d. delete test (events_of d w.db.chat_events) ≡ events_of d w.db.chat_events)
            ((text_beq_iff c j).0 same) h in
        rw (events_of-delete c j test w.db.chat_events) (rw same (rw e (v j)))
    | inr other ↦ rw (events_of-delete c j test w.db.chat_events) (rw other (v j))
  ]

  raised-IsValid :
      (row : ChatRecord) (f : ℕ)
      → Dict.get c w.db.chats ≡ some row
      → f ≤ row.latest_seq
      → All (λ e. (is_after (max row.floor_seq f) e && test e) ≡ false) rows
      → IsValid
          (record (delete_events c test w.db) { chats = Dict.put c (raise_floor f row) w.db.chats })
  unfolding delete_events
  raised-IsValid row f found low h j =
      let k : Kept row.floor_seq row.latest_seq rows =
        subst (λ o. ChatIsValid o rows) found (v c) in
      let k' =
        Kept-delete (Kept-raise k (max row.floor_seq f) (omega arith) (omega (arith, k.order))) test
          h in
      let e = events_of-delete c j test w.db.chat_events in
      rw (Dict.get-put c j (raise_floor f row) w.db.chats, e)
        (elim (Bool-cases (c == j)) [
          | inl same ↦ rw same (
              subst
                (λ d.
                  Kept (max row.floor_seq f) row.latest_seq
                    (delete test (events_of d w.db.chat_events)))
                ((text_beq_iff c j).0 same) k')
          | inr other ↦ rw other (v j)
        ])

  -- What is deleted is not behind the floor.
  drop_events-raised :
      (row : ChatRecord) (f : ℕ)
      → Dict.get c w.db.chats ≡ some row
      → f ≤ row.latest_seq
      → All (λ e. (is_after (max row.floor_seq f) e && test e) ≡ false) rows
      → IsValid (drop_events c test (some f) w).db
  unfolding drop_events
  drop_events-raised row f found low h =
      subst IsValid
        (sym (update_chat-found c (raise_floor f) (delete_events c test w.db) row found))
        (raised-IsValid row f found low h)

  absent-rows : Dict.get c w.db.chats ≡ none → delete test rows ≡ rows
  unfolding delete
  absent-rows miss = let empty : rows ≡ [] = subst (λ o. ChatIsValid o rows) miss (v c) in rw empty

  -- A chat that has no row has no events.
  drop_events-absent :
      (floor : Option ℕ) → Dict.get c w.db.chats ≡ none → IsValid (drop_events c test floor w).db
  unfolding drop_events
  drop_events-absent none miss = delete_events-IsValid (absent-rows miss)
  drop_events-absent (some f) miss =
      subst IsValid (sym (update_chat-absent c (raise_floor f) (delete_events c test w.db) miss))
        (delete_events-IsValid (absent-rows miss))

module _ (c : Text) (w : Swept) (v : IsValid w.db) where
  row-Kept :
      (row : ChatRecord)
      → Dict.get c w.db.chats ≡ some row
      → Kept row.floor_seq row.latest_seq (events_of c w.db.chat_events)
  row-Kept row found = subst (λ o. ChatIsValid o (events_of c w.db.chat_events)) found (v c)

  sweep_old-IsValid : (cutoff : Text) → IsValid (sweep_old cutoff c w).db
  unfolding sweep_old drop_events
  sweep_old-IsValid cutoff =
      let old = select (is_old cutoff) (events_of c w.db.chat_events) in
      elim (Option-cases (Dict.get c w.db.chats)) [
        | inl miss ↦ drop_events-absent c (is_old cutoff) w v (max_seq old) miss
        | inr (row, found) ↦ elim (Option-cases (max_seq old)) [
          | inl no_old ↦ rw no_old (
              delete_events-IsValid c (is_old cutoff) w v
                (delete-none (is_old cutoff) _ (max_seq-none old no_old)))
          | inr (m, last) ↦
              let k = row-Kept row found in
              rw last (
                drop_events-raised c (is_old cutoff) w v row m found
                  (max_seq-bounded old m row.latest_seq last
                    (select-All (λ e. e.seq ≤ row.latest_seq) (is_old cutoff) _ k.bounded))
                  (select-covers (is_old cutoff) _ m (max row.floor_seq m)
                    (max_seq-upper old m last) (omega arith)))
        ]
      ]

All-get {ℓ κ} :
    {A : Type ℓ} (P : A → Type κ) (xs : List A) (i : ℕ) (x : A)
    → All P xs
    → get_elem? xs i ≡ some x
    → P x
All-get P [] i x h e = absurd (cc)
All-get P (y ∷ xs) zero x h e = subst P (some-injective y x e) h.0
All-get P (y ∷ xs) (suc i) x h e = All-get P xs i x h.1 e

All-reverse {ℓ κ} : {A : Type ℓ} (P : A → Type κ) (xs : List A) → All P xs → All P (reverse xs)
All-reverse P [] h = tt
All-reverse P (x ∷ xs) h =
    rw reverse-cons (All-append P (reverse xs) (x ∷ []) (All-reverse P xs h.1) (h.0, tt))

overflow-covers :
    (n a : ℕ) (xs : List EventRow) → n ≤ a → All (λ e. (is_after a e && leb e.seq n) ≡ false) xs
overflow-covers n a [] h = tt
overflow-covers n a (x ∷ xs) h = (ground arith, overflow-covers n a xs h)

module _ (c : Text) (w : Swept) (v : IsValid w.db) where
  nth_newest-bounded :
      (row : ChatRecord) (n : ℕ) (e : EventRow)
      → Dict.get c w.db.chats ≡ some row
      → nth_newest n (events_of c w.db.chat_events) ≡ some e
      → e.seq ≤ row.latest_seq
  unfolding nth_newest
  nth_newest-bounded row n e found h =
      let k = row-Kept c w v row found in
      let rows = events_of c w.db.chat_events in
      let h' : get_elem? (reverse rows) n ≡ some e =
        rw (order_by_seq-Above 0 rows k.ascending) at h in
      All-get (λ x. x.seq ≤ row.latest_seq) (reverse rows) n e
        (All-reverse (λ x. x.seq ≤ row.latest_seq) rows k.bounded) h'

  drop_overflow-IsValid :
      (n : ℕ) (o : Option EventRow)
      → nth_newest n (events_of c w.db.chat_events) ≡ o
      → IsValid (drop_overflow c o w).db
  unfolding drop_overflow
  drop_overflow-IsValid n none h = v
  drop_overflow-IsValid n (some e) h =
      let test = λ (x : EventRow). leb x.seq (e.seq - 1) in
      elim (Option-cases (Dict.get c w.db.chats)) [
        | inl miss ↦ drop_events-absent c test w v (some (e.seq - 1)) miss
        | inr (row, found) ↦
            drop_events-raised c test w v row (e.seq - 1) found
              (omega (arith, nth_newest-bounded row n e found h))
              (overflow-covers (e.seq - 1) (max row.floor_seq (e.seq - 1)) _ (omega arith))
      ]

  sweep_overflow-IsValid : (max_events : ℕ) → IsValid (sweep_overflow max_events c w).db
  unfolding sweep_overflow
  sweep_overflow-IsValid max_events = drop_overflow-IsValid (max_events - 1) _ refl

pub sweep_chats-IsValid :
    (max_events : ℕ) (cutoff : Text) (cs : List Text) (w : Swept)
    → IsValid w.db
    → IsValid (sweep_chats max_events cutoff cs w).db
unfolding sweep_chats
sweep_chats-IsValid max_events cutoff [] w v = v
sweep_chats-IsValid max_events cutoff (c ∷ cs) w v =
    sweep_chats-IsValid max_events cutoff cs _
      (sweep_overflow-IsValid c (sweep_old cutoff c w) (sweep_old-IsValid c w v cutoff) max_events)
