-- ===== src/ChatStore/Tests.antt =====
-- Runs and instances for src/hermes_vylen_gateway/chat_store.py.
use hermes_vylen_gateway.Prelude.{
  map, ℕ, ◌+◌, ◌-◌, ◌≤◌, ◌<◌, ◌≡◌, ◌≢◌, refl, max, true, false, not, String, List, [], ◌∷◌, ◌++◌,
  Option, none, some, arith, length, take, ltb, ◌==◌, string_eq, ◌&&◌, pair_eq, if◌then◌else◌,
}
use hermes_vylen_gateway.Prelude.Dict
use hermes_vylen_gateway.Prelude.Text
use hermes_vylen_gateway.Prelude.Text.{Text, text_eq, text_ltb, codes, strip}
use hermes_vylen_gateway.ChatStore.Tables as Tables
use hermes_vylen_gateway.ChatStore.Tables.{
  ChatRecord, Db, events_of, select, insert_event, update_chat, order_by_seq,
}
use hermes_vylen_gateway.ChatStore.Texts.{Json, clean_id, every, is_id_char, is_kind, clean_title}
use hermes_vylen_gateway.ChatStore.Texts as Texts
use hermes_vylen_gateway.ChatStore.Store.{
  Calendar, ChatStateConfig, ChatStateStore, RetainedEvent, ok, is_usable, new_log,
}
use hermes_vylen_gateway.ChatStore.Append.{
  append_event, check_rename, renamed_payload, check_append, retained, event_row, next_seq,
  append_rows, write_event,
}
use hermes_vylen_gateway.ChatStore.Appended.{Wrote, append_event-Wrote}
use hermes_vylen_gateway.ChatStore.Valid.{IsValid}
use hermes_vylen_gateway.ChatStore.Sweep.{sweep, drop_overflow, nth_newest}
use hermes_vylen_gateway.ChatStore.Sweep.Whole.{sweep-IsValid}
use hermes_vylen_gateway.ChatStore.Reads.{replay_after, ChatSnapshotPage, snapshot, page_limit}
use hermes_vylen_gateway.ChatStore.Replay.{Numbered, behind, reached-gapless}
use hermes_vylen_gateway.ChatStore.Listing.{is_found, any_suffix, until_nul, lower_ascii}
use hermes_vylen_gateway.ChatStore.Listing.Search.{begins_with, is_found-occurs}
use hermes_vylen_gateway.ChatStore.Tail.{TailStep, tail_step, tail_after}
use hermes_vylen_gateway.ChatStore.Tail.Exact.{starts, tailer_acts, yields, Tailing-Numbered}
use hermes_vylen_gateway.ChatStore.Snapshot.{snapshot-page}
use hermes_vylen_gateway.ChatStore.Clients.{
  acknowledge, cursor, seq_or_zero, dedup_row, dedup_record, dedup_lookup, answer_of,
}
use hermes_vylen_gateway.ChatStore.Clients.Laws.{cursor-acknowledge_chat, dedup_lookup-dedup_record}
use hermes_vylen_gateway.ChatStore.System.{
  Reach, here, next, appends, sweeps, new_store, Reach-IsValid,
}

-- A payload is a list of fields.
abbrev pub Fields : Type 0
Fields = List (String × Text)

abbrev or_nil : Option Text → Text
or_nil none = []
or_nil (some t) = t

abbrev values : Fields → Text
values [] = []
values ((k, t) ∷ p) = t ++ values p

abbrev pub json : Json Fields
json = record {
  field = λ k p. or_nil (Dict.get k p);
  has = λ k p. not (or_nil (Dict.get k p) == []);
  object = λ p. p;
  dumps = values;
  loads = λ t. ("text", t) ∷ [];
  parse = λ t. some (("text", t) ∷ []);
  is_dict = λ p. true;
  set_default = λ k t p. if Dict.contains k (Dict.keys p) then p else Dict.put k t p;
}

abbrev pub calendar : Calendar
calendar = record {
  iso = λ n. n ∷ [];
  iso_before = λ n d. (n - d) ∷ [];
  epoch = λ t. elim t [ [] ↦ 0 | n ∷ s ↦ n ];
}

abbrev pub config : ChatStateConfig
config = record {
  max_chats = 2;
  max_events_per_chat = 1;
  max_event_bytes = 40;
  max_bytes = 100;
  event_ttl_days = 1;
  deleted_ttl_days = 1;
  dedup_ttl_seconds = 5;
  gc_append_interval = 2;
  gc_bytes_interval = 0;
}

abbrev pub live_bytes : Db → ℕ
live_bytes db = length db.chat_events

abbrev pub chat : Text
chat = codes "c1"

abbrev pub hello : Fields
hello = ("text", codes "hi") ∷ []

abbrev pub empty : ChatStateStore
empty = new_store config

append_program : Unit {0}
unfolding append_event Texts.utf8_length append_rows write_event Tables.insert_event update_chat
    select clean_id check_append Text.is_space is_kind Dict.get Dict.put Texts.preview_from_event
append_program = tt

hello-accepted : check_append json calendar empty chat (codes "push") hello ≡ ok (chat, 6)
unfolding append_program
hello-accepted = refl

empty-IsValid : IsValid empty.db
empty-IsValid = Reach-IsValid json calendar live_bytes {config = config} here

append_event-Wrote_example :
    (s' : ChatStateStore) × (append_event json calendar empty chat
        (codes "push")
        hello
        1
        []
        none
        none
      ≡ (s', ok (retained json calendar (codes "push") hello 1 6 (next_seq chat empty.db))))
    × Wrote chat
        (event_row json calendar chat
          (codes "push")
          hello
          6
          (calendar.iso 1)
          (next_seq chat empty.db))
        empty.db
        s'.db
append_event-Wrote_example =
    append_event-Wrote json calendar empty chat (codes "push") hello 1 [] none none chat 6
      empty-IsValid hello-accepted

-- Two messages, and what is kept of them when the count is swept.
abbrev said : ChatStateStore → ℕ → ChatStateStore
said s ts = (append_event json calendar s chat (codes "push") hello ts [] none none).0

abbrev one : ChatStateStore
one = said empty 1

abbrev two : ChatStateStore
two = said one 2

abbrev pub swept : ChatStateStore
swept = (sweep json calendar live_bytes two 3 (λ n m. codes "over")).0

pub swept-Reach : Reach json calendar live_bytes empty swept
swept-Reach =
    next
      (next (next here (appends chat (codes "push") hello 1 [] none none refl))
        (appends chat (codes "push") hello 2 [] none none refl))
      (sweeps 3 (λ n m. codes "over") refl)

Reach-IsValid_example : IsValid swept.db
Reach-IsValid_example = Reach-IsValid json calendar live_bytes {config = config} swept-Reach

sweep-IsValid_example : IsValid (sweep json calendar live_bytes swept 4 (λ n m. codes "over")).0.db
sweep-IsValid_example =
    sweep-IsValid json calendar live_bytes swept 4 (λ n m. codes "over")
      (Reach-IsValid json calendar live_bytes {config = config} swept-Reach)

sweep_program : Unit {0}
unfolding append_program sweep Dict.remove_all drop_overflow nth_newest events_of text_ltb
sweep_program = tt

pub swept_row : (row : ChatRecord) × (Dict.get chat swept.db.chats ≡ some row)
unfolding sweep_program
swept_row = (_, refl)

pub above : swept_row.0.floor_seq ≤ 1
unfolding sweep_program swept_row
above = ground arith

below : 0 < swept_row.0.floor_seq
unfolding sweep_program swept_row
below = ground arith

clean_chat : clean_id chat ≡ chat
unfolding append_program
clean_chat = refl

pub chat-clean : clean_id chat ≢ []
chat-clean = rw clean_chat (λ h. cc)

pub found : Dict.get (clean_id chat) swept.db.chats ≡ some swept_row.0
found = rw clean_chat swept_row.1

pub usable : is_usable swept ≡ true
unfolding sweep_program
usable = refl

reached-gapless_example :
    (events : List (RetainedEvent Fields)) × (replay_after json calendar swept chat 1 none
      ≡ ok events)
    × Numbered 2 events
    × (length events ≡ swept_row.0.latest_seq - 1)
reached-gapless_example =
    reached-gapless json calendar live_bytes {config = config} {s = swept} swept-Reach chat
      (swept_row.0) 1 usable chat-clean found above

snapshot-page_example :
    (p : ChatSnapshotPage Fields) × (snapshot json calendar swept chat 1 0 ≡ ok p)
    × (p.events ≡ take (page_limit 0) (behind json calendar (clean_id chat) 1 swept.db))
    × (p.events ++ behind json calendar (clean_id chat) p.next_after_seq swept.db
        ≡ behind json calendar (clean_id chat) 1 swept.db)
    × (p.has_more ≡ ltb 0 (length (behind json calendar (clean_id chat) p.next_after_seq swept.db)))
snapshot-page_example =
    snapshot-page json calendar swept chat (swept_row.0) 1 usable chat-clean
      (Reach-IsValid json calendar live_bytes {config = config} swept-Reach) found above 0

renaming-accepted : check_rename json calendar swept chat (codes " b ") 5 ≡ ok (chat, 16)
unfolding sweep_program check_rename clean_title
renaming-accepted = refl

abbrev renamed_fields : Fields
renamed_fields = renamed_payload json calendar chat (clean_title (codes " b ")) 5

cursor-acknowledge_chat_example :
    (s' : ChatStateStore) × (acknowledge swept chat chat 2 (codes "now") ≡ (s', ok tt))
    × (cursor s' chat chat ≡ (
        if clean_id chat == clean_id chat && clean_id chat == clean_id chat
        then ok
            (max (seq_or_zero (Dict.get (clean_id chat, clean_id chat) swept.db.client_cursors)) 2)
        else cursor swept chat chat))
cursor-acknowledge_chat_example =
    cursor-acknowledge_chat swept chat chat 2 (codes "now") usable chat-clean chat-clean
      (swept_row.0) found chat chat chat-clean chat-clean

dedup_lookup-dedup_record_example :
    (s' : ChatStateStore) × (dedup_record json calendar swept chat chat
        (codes "t")
        (codes "m")
        hello
        3
        3
      ≡ (s', ok tt))
    × (dedup_lookup json calendar s' chat chat 9 ≡ (
        if clean_id chat == clean_id chat && clean_id chat == clean_id chat
        then ok (
            if ltb (3 + swept.config.dedup_ttl_seconds) 9
            then none
            else some (
                answer_of json calendar
                  (dedup_row json calendar swept 3 3 (codes "t") (codes "m") hello)))
        else dedup_lookup json calendar swept chat chat 9))
unfolding sweep text_ltb
dedup_lookup-dedup_record_example =
    dedup_lookup-dedup_record json calendar swept chat chat (codes "t") (codes "m") hello 3 3 usable
      chat-clean chat-clean chat chat 9 chat-clean chat-clean refl

pub behind-few : length (behind json calendar (clean_id chat) 1 swept.db) ≤ 1
unfolding sweep_program
behind-few = omega arith

-- A subscriber behind the first event, in four steps: it gets the second one.
abbrev step_of : TailStep Fields → TailStep Fields
step_of t = tail_step json calendar swept t.log t.tailer

abbrev begun : TailStep Fields
begun = tail_step json calendar swept new_log (tail_after chat 1 false)

abbrev tailed : List (RetainedEvent Fields)
tailed =
    ((([] ++ yields json calendar begun.yielded) ++ yields json calendar (step_of begun).yielded)
      ++ yields json calendar (step_of (step_of begun)).yielded)
    ++ yields json calendar (step_of (step_of (step_of begun))).yielded

tailed-one : length tailed ≡ 1
unfolding sweep_program tail_step
tailed-one = refl

Tailing-Numbered_example :
    Numbered 2 tailed × ((step_of (step_of (step_of begun))).tailer.cursor ≡ 1 + length tailed)
Tailing-Numbered_example =
    Tailing-Numbered json calendar live_bytes config chat 1 false
      (tailer_acts (tailer_acts (tailer_acts (tailer_acts (starts {log = new_log} swept-Reach)))))

abbrev titled : ChatRecord
titled = record (swept_row.0) { title = codes "at 50%!" }

is_found-occurs_example :
    is_found (λ t. t) (codes "50%") titled
    ≡ any_suffix (begins_with (codes "50%")) (until_nul (map lower_ascii titled.title))
is_found-occurs_example = is_found-occurs (λ t. t) b'5' (codes "0%") titled refl

search_found : any_suffix (begins_with (codes "50%")) (codes "at 50%!") ≡ true
unfolding any_suffix begins_with
search_found = refl
