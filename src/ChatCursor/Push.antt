-- ===== src/ChatCursor/Push.antt =====
-- What `ChatCursorRelay` of src/hermes_vylen_gateway/chat_cursor.py appends and pushes. `send_push` holds
-- a lock over its awaits, but other appends take no lock: it is cut at the send, and at the await between the
-- test and the `drop` behind a send that fails.
pub mod Numbers
use hermes_vylen_gateway.Prelude.{
  ℕ, suc, Bool, true, false, List, [], ◌∷◌, Option, none, some, ◌==◌, ◌||◌, String, if◌then◌else◌,
}
use hermes_vylen_gateway.Prelude.Text.{Text, text_eq, codes}
use hermes_vylen_gateway.ChatStore.Texts.{Json, clean_id}
use hermes_vylen_gateway.ChatStore.Store.{
  Calendar, ChatStateLog, ChatStateStore, RetainedEvent, StoreError, Answer, ok, raised,
}
use hermes_vylen_gateway.ChatStore.Reads.{latest_seq, floor_seq, replay_after}
use hermes_vylen_gateway.ChatStore.Append.{append_event, ensure_fits}
use hermes_vylen_gateway.ChatStore.Clients as Clients
use hermes_vylen_gateway.ChatStore.Clients.{get, get_or_create}

-- a push whose frame is about to be sent
pub record Push (V : Type 0) : Type 0 where
  pub chat_id : Text
  -- existing_log is not None
  pub existed : Bool
  pub frame : V

-- What `send_push` does first.
pub data PushStart (V : Type 0) : Type 0 where
  -- the frame is sent as it is, and nothing is kept
  passes : V → PushStart V
  refuses : StoreError → PushStart V
  pushes : Push V → PushStart V

-- event.seq, or what was raised; nothing where the relay keeps nothing
abbrev pub seq_of {ℓ} : {V : Type ℓ} → (V → ℕ) → Answer V → Answer (Option ℕ)
seq_of seq (ok e) = ok (some (seq e))
seq_of seq (raised e) = raised e

-- `set_seq n v` is v with v["seq"] = n, on the dictionary of a frame.
module _ {V : Type 0} (json : Json V) (cal : Calendar) (set_seq : ℕ → V → V) where
  -- `get_or_create(c).append(kind, payload)`
  abbrev append_to :
      ChatStateStore × Answer ChatStateLog
      → Text
      → Text
      → V
      → ℕ
      → ChatStateStore × Answer (RetainedEvent V)
  append_to (s, raised e) c kind payload ts = (s, raised e)
  append_to (s, ok log) c kind payload ts = append_event json cal s c kind payload ts [] none none

  -- `append_event`
  unfoldable pub relay_append :
      Bool → ChatStateStore → Text → Text → V → ℕ → ChatStateStore × Answer (Option ℕ)
  unfolding append_event clean_id get_or_create
  relay_append disabled s chat_id kind payload ts =
      let c = clean_id chat_id in
      let appended = append_to (get_or_create s c) c kind payload ts in
      if disabled || c == [] || kind == []
      then (s, ok none)
      else (appended.0, seq_of (λ e. e.seq) appended.1)

  -- `append_push`, with the event id that a frame without one gets
  unfoldable pub append_push :
      Bool → ChatStateStore → V → Text → ℕ → ChatStateStore × Answer (Option ℕ)
  unfolding relay_append
  append_push disabled s frame event_id ts =
      let c = clean_id (json.field "chat_id" frame) in
      if disabled || c == []
      then (s, ok none)
      else relay_append disabled s c (codes "push") (json.set_default "event_id" event_id frame) ts

  -- the part of `send_push` from the number of the log on
  abbrev pub numbered_push :
      ChatStateStore → Text → Bool → V → Text → Answer ℕ → ChatStateStore × PushStart V
  numbered_push s c existed frame event_id (raised e) = (s, refuses e)
  numbered_push s c existed frame event_id (ok latest) =
      let numbered = json.set_default "event_id" event_id (set_seq (suc latest) frame) in
      elim (ensure_fits json cal s (codes "push") numbered) [
        | raised e ↦ (s, refuses e)
        | ok size ↦ (s, pushes (record { chat_id = c; existed = existed; frame = numbered }))
      ]

  abbrev pub created_push :
      ChatStateStore × Answer ChatStateLog → Text → V → Text → ChatStateStore × PushStart V
  created_push (s, raised e) c frame event_id = (s, refuses e)
  created_push (s, ok log) c frame event_id =
      numbered_push s c false frame event_id (latest_seq s c)

  abbrev pub with_log :
      ChatStateStore × Answer (Option ChatStateLog) → Text → V → Text → ChatStateStore × PushStart V
  with_log (s, raised e) c frame event_id = (s, refuses e)
  with_log (s, ok (some log)) c frame event_id =
      numbered_push s c true frame event_id (latest_seq s c)
  with_log (s, ok none) c frame event_id = created_push (get_or_create s c) c frame event_id

  -- `send_push` up to the send
  unfoldable pub begin_push : Bool → ChatStateStore → V → Text → ChatStateStore × PushStart V
  unfolding get get_or_create latest_seq ensure_fits clean_id
  begin_push disabled s frame event_id =
      let c = clean_id (json.field "chat_id" frame) in
      if disabled
      then (s, passes frame)
      else if c == []
      then (s, passes frame)
      else with_log (get s c) c frame event_id

  -- `send_push` behind a send that gets through
  unfoldable pub push_sent : ChatStateStore → Push V → ℕ → ChatStateStore × Answer (RetainedEvent V)
  unfolding append_event
  push_sent s p ts = append_event json cal s p.chat_id (codes "push") p.frame ts [] none none

  abbrev pub is_nil {ℓ} : {A : Type ℓ} → Answer (List A) → Answer Bool
  is_nil (raised e) = raised e
  is_nil (ok []) = ok true
  is_nil (ok (x ∷ xs)) = ok false

  -- not bool(log.events)
  unfoldable pub is_empty_log : ChatStateStore → Text → Answer Bool
  unfolding floor_seq replay_after
  is_empty_log s c = elim (floor_seq s c) [
    | raised e ↦ raised e
    | ok floor ↦ is_nil (replay_after json cal s c floor none)
  ]

  -- behind a send that fails: whether the log is dropped
  unfoldable pub drops_log : ChatStateStore → Push V → Answer Bool
  unfolding is_empty_log
  drops_log s p = if p.existed then ok false else is_empty_log s p.chat_id

  -- and the `drop`
  unfoldable pub push_failed :
      ChatStateStore → Push V → Answer Bool → ChatStateStore × Answer (Unit {0})
  unfolding Clients.drop
  push_failed s p (raised e) = (s, raised e)
  push_failed s p (ok false) = (s, ok tt)
  push_failed s p (ok true) = Clients.drop s p.chat_id
