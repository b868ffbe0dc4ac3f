-- ===== src/ChatStore/Replay.antt =====
-- What reading from a cursor gives, in src/hermes_vylen_gateway/chat_store.py.
use hermes_vylen_gateway.Prelude.{
  ℕ, zero, suc, ◌-◌, ◌≤◌, ◌<◌, ◌≡◌, ◌≢◌, refl, ap, ◌∙◌, true, false, List, [], ◌∷◌, map, Option,
  none, some, arith, ltb, ◌==◌, subst, length,
}
use hermes_vylen_gateway.Prelude.Dict
use hermes_vylen_gateway.Prelude.Text.{Text, text_eq, text_beq_iff}
use hermes_vylen_gateway.ChatStore.Tables.{
  ChatRecord, EventRow, Db, select, events_of, order_by_seq, is_after,
}
use hermes_vylen_gateway.ChatStore.Rows.{
  SeqFrom, Kept, order_by_seq-Above, select-Above, after-gapless,
}
use hermes_vylen_gateway.ChatStore.Texts.{Json, clean_id}
use hermes_vylen_gateway.ChatStore.Ids.{clean_id-clean_id}
use hermes_vylen_gateway.ChatStore.Store.{
  Calendar, ChatStateConfig, ChatStateStore, RetainedEvent, ok, raised, is_usable, resume_expired,
}
use hermes_vylen_gateway.ChatStore.Reads.{
  get_chat, event_from_row, replay_rows, replay_after, limited,
}
use hermes_vylen_gateway.ChatStore.Valid.{IsValid, ChatIsValid}
use hermes_vylen_gateway.ChatStore.System.{Reach, new_store, Reach-IsValid}

module _ {V : Type 0} where
  -- The events are numbered n, n + 1, n + 2 and so on.
  abbrev pub Numbered : ℕ → List (RetainedEvent V) → Type 0
  Numbered n [] = Unit
  Numbered n (e ∷ es) = (e.seq ≡ n) × Numbered (suc n) es

module _ {V : Type 0} (json : Json V) (cal : Calendar) where
  pub Numbered-map :
      (n : ℕ) (rows : List EventRow)
      → SeqFrom n rows
      → Numbered n (map (event_from_row json cal) rows)
  Numbered-map n [] h = tt
  Numbered-map n (e ∷ es) h = (h.0, Numbered-map (suc n) es h.1)

  map-limited :
      (limit : Option ℕ) (rows : List EventRow)
      → map (event_from_row json cal) (limited limit rows)
        ≡ limited limit (map (event_from_row json cal) rows)
  map-limited none rows = refl
  map-limited (some zero) rows = refl
  map-limited (some (suc n)) [] = refl
  map-limited (some (suc n)) (e ∷ es) =
      ap (◌∷◌ (event_from_row json cal e)) (map-limited (some n) es)

  length-map : (rows : List EventRow) → length (map (event_from_row json cal) rows) ≡ length rows
  length-map [] = refl
  length-map (e ∷ es) = ap suc (length-map es)

  -- The events of a chat behind a number, as the store gives them out.
  abbrev pub behind : Text → ℕ → Db → List (RetainedEvent V)
  behind c after db =
      map (event_from_row json cal) (select (is_after after) (events_of c db.chat_events))

  module _ (s : ChatStateStore) (chat_id : Text) (row : ChatRecord) (after : ℕ)
      (usable : is_usable s ≡ true) (clean : clean_id chat_id ≢ []) (v : IsValid s.db)
      (found : Dict.get (clean_id chat_id) s.db.chats ≡ some row) where
    pub kept : Kept row.floor_seq row.latest_seq (events_of (clean_id chat_id) s.db.chat_events)
    kept =
        subst (λ o. ChatIsValid o (events_of (clean_id chat_id) s.db.chat_events)) found
          (v (clean_id chat_id))

    pub not_nil : (clean_id chat_id == []) ≡ false
    not_nil = ground (arith, text_beq_iff (clean_id chat_id) [])

    pub get_chat-found : get_chat s (clean_id chat_id) true ≡ ok (some row)
    unfolding get_chat
    get_chat-found = rw (clean_id-clean_id chat_id) (rw not_nil (rw found (ground arith)))

    pub replay_after-rows :
        (limit : Option ℕ)
        → replay_after json cal s chat_id after limit
          ≡ replay_rows json cal
              (some row)
              (events_of (clean_id chat_id) s.db.chat_events)
              after
              limit
    unfolding replay_after
    replay_after-rows limit = rw not_nil (rw (get_chat-found, replay_after))

    -- A cursor below the chat's floor is refused, with the floor and the latest number.
    pub replay_after-expired :
        (limit : Option ℕ)
        → after < row.floor_seq
        → replay_after json cal s chat_id after limit
          ≡ raised (resume_expired row.floor_seq row.latest_seq)
    unfolding replay_rows
    replay_after-expired limit h = replay_after-rows limit ∙ ground arith

    pub replay_after-behind :
        (limit : Option ℕ)
        → row.floor_seq ≤ after
        → replay_after json cal s chat_id after limit
          ≡ ok (limited limit (behind (clean_id chat_id) after s.db))
    unfolding replay_rows
    replay_after-behind limit h =
        let rows = select (is_after after) (events_of (clean_id chat_id) s.db.chat_events) in
        let sorted : order_by_seq rows ≡ rows =
          order_by_seq-Above 0 rows (select-Above (is_after after) 0 _ kept.ascending) in
        let level : ltb after row.floor_seq ≡ false = ground arith in
        replay_after-rows limit ∙ rw level (rw sorted (ap ok (map-limited limit rows)))

    -- Replay from a cursor that is not below the floor gives every event behind it: numbered from
    -- the next number on with no gap, up to the chat's latest number.
    pub replay_after-gapless :
        row.floor_seq ≤ after
        → (events : List (RetainedEvent V)) × (replay_after json cal s chat_id after none
            ≡ ok events)
          × Numbered (suc after) events
          × (length events ≡ row.latest_seq - after)
    replay_after-gapless h =
        let g = after-gapless kept after h in
        (
          behind (clean_id chat_id) after s.db,
          replay_after-behind none h,
          Numbered-map (suc after) _ g.0,
          length-map _ ∙ g.1,
        )

-- The same after any calls of the writing operations on a new store.
module _ {V : Type 0} (json : Json V) (cal : Calendar) (live_bytes : Db → ℕ)
    {config : ChatStateConfig} {s : ChatStateStore}
    (reached : Reach json cal live_bytes (new_store config) s) (chat_id : Text) (row : ChatRecord)
    (after : ℕ) (usable : is_usable s ≡ true) (clean : clean_id chat_id ≢ [])
    (found : Dict.get (clean_id chat_id) s.db.chats ≡ some row) where
  -- After any calls of the writing operations on a new store, replay from a cursor that is not below
  -- the chat's floor gives every number behind it, in order and with no gap, up to the chat's latest.
  pub reached-gapless :
      row.floor_seq ≤ after
      → (events : List (RetainedEvent V)) × (replay_after json cal s chat_id after none ≡ ok events)
        × Numbered (suc after) events
        × (length events ≡ row.latest_seq - after)
  reached-gapless h =
      replay_after-gapless json cal s chat_id row after usable clean
        (Reach-IsValid json cal live_bytes reached) found h

  -- A cursor below the floor is refused with the floor and the latest number, and a floor is never
  -- over the latest number.
  pub reached-expired :
      (limit : Option ℕ)
      → after < row.floor_seq
      → (replay_after json cal s chat_id after limit
          ≡ raised (resume_expired row.floor_seq row.latest_seq))
        × (row.floor_seq ≤ row.latest_seq)
  reached-expired limit h =
      let v = Reach-IsValid json cal live_bytes reached in
      (
        replay_after-expired json cal s chat_id row after usable clean v found limit h,
        (kept json cal s chat_id row after usable clean v found).order,
      )
