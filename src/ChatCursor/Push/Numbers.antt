-- ===== src/ChatCursor/Push/Numbers.antt =====
-- The numbers of the frames that `send_push` of src/hermes_vylen_gateway/chat_cursor.py sends.
use hermes_vylen_gateway.Prelude.{
  ℕ, suc, ◌≡◌, ◌≢◌, refl, Bool, ap, ◌∙◌, inl, inr, true, false, [], Option, none, some, ◌==◌,
  Option-cases, subst,
}
use hermes_vylen_gateway.Prelude.Dict
use hermes_vylen_gateway.Prelude.Dict.{Dict}
use hermes_vylen_gateway.Prelude.Text.{Text, text_eq, codes}
use hermes_vylen_gateway.ChatStore.Tables.{ChatRecord}
use hermes_vylen_gateway.ChatStore.Texts.{Json, clean_id}
use hermes_vylen_gateway.ChatStore.Ids.{clean_id-clean_id, beq_nil}
use hermes_vylen_gateway.ChatStore.Store.{
  Calendar, ChatStateLog, ChatStateStore, ok, is_usable, log_or_new,
}
use hermes_vylen_gateway.ChatStore.Reads.{latest_seq, get_chat, chat_exists}
use hermes_vylen_gateway.ChatStore.Append.{
  ensure_fits, check_append, event_row, next_seq, next_of, retained,
}
use hermes_vylen_gateway.ChatStore.Appended.{Wrote, append_event-Wrote}
use hermes_vylen_gateway.ChatStore.Valid.{IsValid}
use hermes_vylen_gateway.ChatStore.Clients.{get, get_or_create}
use hermes_vylen_gateway.ChatCursor.Push.{
  Push, pushes, begin_push, numbered_push, created_push, push_sent,
}

abbrev latest_of : Option ChatRecord → ℕ
latest_of none = 0
latest_of (some row) = row.latest_seq

suc-latest_of : (o : Option ChatRecord) → suc (latest_of o) ≡ next_of o
suc-latest_of none = refl
suc-latest_of (some row) = refl

module _ (s : ChatStateStore) (chat_id : Text) (usable : is_usable s ≡ true)
    (clean : clean_id chat_id ≢ []) where
  abbrev c : Text
  c = clean_id chat_id

  c_not_nil : (clean_id c == []) ≡ false
  c_not_nil = rw (clean_id-clean_id chat_id) (beq_nil c clean)

  latest_seq-c : latest_seq s c ≡ ok (latest_of (Dict.get c s.db.chats))
  unfolding latest_seq get_chat
  latest_seq-c = elim (Option-cases (Dict.get c s.db.chats)) [
    | inl miss ↦ rw c_not_nil (rw (clean_id-clean_id chat_id, usable) (rw miss refl))
    | inr (row, found) ↦ rw c_not_nil (rw (clean_id-clean_id chat_id, usable) (rw found refl))
  ]

module _ {V : Type 0} (json : Json V) (cal : Calendar) (set_seq : ℕ → V → V) (s : ChatStateStore)
    (frame : V) (event_id : Text) (usable : is_usable s ≡ true)
    (clean : clean_id (json.field "chat_id" frame) ≢ []) where
  abbrev id : Text
  id = clean_id (json.field "chat_id" frame)

  -- the frame with the number that comes next when the push begins
  abbrev numbered : V
  numbered = json.set_default "event_id" event_id (set_seq (next_seq id s.db) frame)

  abbrev pushed : Bool → Push V
  pushed existed = record { chat_id = id; existed = existed; frame = numbered }

  module _ (size : ℕ) (fits : ensure_fits json cal s (codes "push") numbered ≡ ok size) where
    numbered_push-pushed :
        (logs : Dict Text ChatStateLog) (existed : Bool)
        → numbered_push json cal set_seq
            (record s { logs = logs })
            id
            existed
            frame
            event_id
            (latest_seq (record s { logs = logs }) id)
          ≡ (record s { logs = logs }, pushes (pushed existed))
    unfolding ensure_fits
    numbered_push-pushed logs existed =
        rw (latest_seq-c (record s { logs = logs }) (json.field "chat_id" frame) usable clean) (
          subst
            (λ n.
              ensure_fits json cal s (codes "push")
                  (json.set_default "event_id" event_id (set_seq n frame))
                ≡ ok size
              → numbered_push json cal set_seq (record s { logs = logs }) id existed frame event_id
                  (ok (latest_of (Dict.get id s.db.chats)))
                ≡ (
                  record s { logs = logs },
                  pushes (record {
                    chat_id = id;
                    existed = existed;
                    frame = json.set_default "event_id" event_id (set_seq n frame);
                  }),
                ))
            (suc-latest_of (Dict.get id s.db.chats)) (λ fit. rw (fit, numbered_push) refl) fits)

    get-exists :
        (row : ChatRecord)
        → Dict.get id s.db.chats ≡ some row
        → get s id ≡ (
          record s { logs = Dict.put id (log_or_new (Dict.get id s.logs)) s.logs },
          ok (some (log_or_new (Dict.get id s.logs))),
        )
    unfolding get chat_exists
    get-exists row found =
        rw (c_not_nil s (json.field "chat_id" frame) usable clean)
          (rw (clean_id-clean_id (json.field "chat_id" frame)) (rw usable (rw found refl)))

    get-missing : Dict.get id s.db.chats ≡ none → get s id ≡ (s, ok none)
    unfolding get chat_exists
    get-missing miss =
        rw (c_not_nil s (json.field "chat_id" frame) usable clean)
          (rw (clean_id-clean_id (json.field "chat_id" frame)) (rw usable (rw miss refl)))

    get_or_create-new : get_or_create s id ≡ (
      record s { logs = Dict.put id (log_or_new (Dict.get id s.logs)) s.logs },
      ok (log_or_new (Dict.get id s.logs)),
    )
    unfolding get_or_create
    get_or_create-new =
        rw (c_not_nil s (json.field "chat_id" frame) usable clean)
          (rw (clean_id-clean_id (json.field "chat_id" frame)) refl)

    begin_push-pushed :
        (u : ChatStateStore) × (existed : Bool) × (begin_push json cal set_seq false s frame
            event_id
          ≡ (u, pushes (pushed existed)))
        × (u.db ≡ s.db)
    unfolding begin_push
    begin_push-pushed =
        let logs = Dict.put id (log_or_new (Dict.get id s.logs)) s.logs in
        let nil = beq_nil id clean in
        elim (Option-cases (Dict.get id s.db.chats)) [
          | inl miss ↦ (
            record s { logs = logs },
            false,
            rw nil (
                rw (get-missing miss) (
                  ap (λ g. created_push json cal set_seq g id frame event_id) get_or_create-new
                  ∙ numbered_push-pushed logs false)),
            refl,
          )
          | inr (row, found) ↦ (
            record s { logs = logs },
            true,
            rw nil (rw (get-exists row found) (numbered_push-pushed logs true)),
            refl,
          )
        ]

    -- The frame of a push carries the number that its chat's next event would get when the push
    -- begins. The stored event is that frame, and its number is the one that comes next when
    -- the send has ended: so the two are the same if, in the meantime, nothing was appended to the chat.
    pub send_push-numbers :
        (t : ChatStateStore) (ts stored_size : ℕ)
        → IsValid t.db
        → check_append json cal t id (codes "push") numbered ≡ ok (id, stored_size)
        → (u : ChatStateStore) × (p : Push V) × (t' : ChatStateStore) × (begin_push json cal set_seq
              false s frame event_id
            ≡ (u, pushes p))
          × (u.db ≡ s.db)
          × (p.frame ≡ numbered)
          × (push_sent json cal set_seq t p ts ≡ (
            t',
            ok (retained json cal (codes "push") numbered ts stored_size (next_seq id t.db)),
          ))
          × Wrote id
              (event_row json cal id
                (codes "push")
                numbered
                stored_size
                (cal.iso ts)
                (next_seq id t.db))
              t.db
              t'.db
    unfolding push_sent
    send_push-numbers t ts stored_size v accepted =
        let (u, existed, begun, same) = begin_push-pushed in
        let (t', stored, wrote) =
          append_event-Wrote json cal t id (codes "push") numbered ts [] none none id stored_size v
            accepted in
        (u, pushed existed, t', begun, same, refl, stored, wrote)
