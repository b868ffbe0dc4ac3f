-- ===== src/ChatStore/Store.antt =====
-- `ChatStateStore` of src/hermes_vylen_gateway/chat_store.py: its state, its errors, and what the
-- operations share. An operation returns the new store with its result or the exception that it raised.
use hermes_vylen_gateway.Prelude.{
  ℕ, ◌+◌, Bool, true, false, not, String, Option, none, some, ltb, leb, ◌&&◌, ◌||◌,
}
use hermes_vylen_gateway.Prelude.Dict
use hermes_vylen_gateway.Prelude.Dict.{Dict}
use hermes_vylen_gateway.Prelude.Text.{Text, text_eq}
use hermes_vylen_gateway.ChatStore.Tables.{Db}

-- `_iso_from_epoch` of a time and of a time less a number of seconds, and `_epoch_from_iso`. The texts come from the library `datetime`.
pub record Calendar : Type 0 where
  pub iso : ℕ → Text
  pub iso_before : ℕ → ℕ → Text
  pub epoch : Text → ℕ

pub record ChatStateConfig : Type 0 where
  pub max_chats : ℕ
  pub max_events_per_chat : ℕ
  pub max_event_bytes : ℕ
  pub max_bytes : ℕ
  pub event_ttl_days : ℕ
  pub deleted_ttl_days : ℕ
  pub dedup_ttl_seconds : ℕ
  pub gc_append_interval : ℕ
  pub gc_bytes_interval : ℕ

-- `ChatStateLog`, without the store and the key that lead to it
pub record ChatStateLog : Type 0 where
  pub closed : Bool
  pub version : ℕ
  pub tailers : ℕ
  pub progressed : Bool

pub record ChatStateStore : Type 0 where
  pub config : ChatStateConfig
  pub db : Db
  pub logs : Dict Text ChatStateLog
  pub unavailable : Bool
  pub connected : Bool
  pub appends_since_sweep : ℕ
  pub bytes_since_sweep : ℕ
  pub sweep_requested : Bool

pub record RetainedEvent (V : Type 0) : Type 0 where
  pub seq : ℕ
  pub kind : Text
  pub payload : V
  pub created_at : ℕ
  pub size_bytes : ℕ

pub data StoreError : Type 0 where
  chat_state_unavailable : StoreError
  invalid_event : String → StoreError
  event_too_large : ℕ → ℕ → StoreError
  resume_expired : ℕ → ℕ → StoreError
  integrity_error : StoreError

pub data Answer {ℓ} (A : Type ℓ) : Type ℓ where
  ok : A → Answer A
  raised : StoreError → Answer A

-- `_conn_or_raise`
abbrev pub is_usable : ChatStateStore → Bool
is_usable s = not s.unavailable && s.connected

abbrev pub new_log : ChatStateLog
new_log = record { closed = false; version = 0; tailers = 0; progressed = false }

-- the log under an id that is clean: the one there is, or a new one
abbrev pub log_or_new : Option ChatStateLog → ChatStateLog
log_or_new none = new_log
log_or_new (some log) = log

-- `_bump` of a log
abbrev pub bumped : ChatStateLog → ChatStateLog
bumped log = record log { version = log.version + 1; progressed = true }

-- `get_or_create(chat_id)._bump()`, for an id that is clean
unfoldable pub bump_log : Text → ChatStateStore → ChatStateStore
bump_log c s = record s { logs = Dict.put c (bumped (log_or_new (Dict.get c s.logs))) s.logs }

-- the counters after an append, and whether a sweep is due
unfoldable pub count_append : ℕ → ChatStateStore → ChatStateStore
count_append size s =
    let appends = s.appends_since_sweep + 1 in
    let bytes = s.bytes_since_sweep + size in
    let due =
      (ltb 0 s.config.gc_append_interval && leb s.config.gc_append_interval appends)
      || (ltb 0 s.config.gc_bytes_interval && leb s.config.gc_bytes_interval bytes) in
    record s {
      appends_since_sweep = appends;
      bytes_since_sweep = bytes;
      sweep_requested = s.sweep_requested || due;
    }
