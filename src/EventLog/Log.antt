-- ===== src/EventLog/Log.antt =====
-- `RetainedEvent`, `RetainedEventLog` and `_payload_size` of
-- src/hermes_vylen_gateway/event_log.py. A call that reads the clock takes the time that it reads.
use Prim.Native.String.{count}
use hermes_vylen_gateway.Prelude.{
  ℕ, ◌+◌, ◌-◌, max, String, Bool, true, false, List, [], ◌∷◌, ◌++◌, Option, none, some, ltb, length,
  if◌then◌else◌,
}

-- What json.dumps(payload).encode() and str(payload).encode() give; `none` stands for a `TypeError`
-- or a `ValueError`.
pub record Codec (V : Type 0) : Type 0 where
  pub dumps : V → Option (List ℕ)
  pub str_bytes : V → List ℕ

pub data Payload (V : Type 0) : Type 0 where
  raw : List ℕ → Payload V
  value : V → Payload V

pub record RetainedEvent (V : Type 0) : Type 0 where
  pub seq : ℕ
  pub kind : String
  pub payload : Payload V
  pub created_at : ℕ
  pub size_bytes : ℕ

pub record RetainedEventLog (V : Type 0) : Type 0 where
  pub key : String
  pub ttl_seconds : ℕ
  pub max_events : ℕ
  pub max_bytes : ℕ
  pub created_at : ℕ
  pub updated_at : ℕ
  pub events : List (RetainedEvent V)
  pub next_seq : ℕ
  pub total_bytes : ℕ
  pub closed : Bool
  pub progressed : Bool
  pub version : ℕ
  pub tailers : ℕ

pub data LogResult (A : Type 0) : Type 0 where
  ok : A → LogResult A
  resume_expired : ℕ → ℕ → LogResult A
  event_too_large : ℕ → ℕ → LogResult A

module _ {V : Type 0} where
  -- RetainedEventLog.__init__
  unfoldable pub init : String → ℕ → ℕ → ℕ → ℕ → RetainedEventLog V
  init key ttl_seconds max_events max_bytes now = record {
    key = key;
    ttl_seconds = ttl_seconds;
    max_events = max 1 max_events;
    max_bytes = max 1 max_bytes;
    created_at = now;
    updated_at = now;
    events = [];
    next_seq = 1;
    total_bytes = 0;
    closed = false;
    progressed = false;
    version = 0;
    tailers = 0;
  }

  abbrev pub latest_seq : RetainedEventLog V → ℕ
  latest_seq log = log.next_seq - 1

  unfoldable pub floor_of : List (RetainedEvent V) → ℕ → ℕ
  floor_of [] latest = latest
  floor_of (e ∷ es) latest = e.seq - 1

  unfoldable pub floor_seq : RetainedEventLog V → ℕ
  unfolding floor_of
  floor_seq log = floor_of log.events (latest_seq log)

  -- `while self._events and test: self._drop_oldest()`, on the deque and the byte total
  unfoldable pub drop_while :
      (List (RetainedEvent V) → ℕ → Bool) → List (RetainedEvent V) → ℕ → List (RetainedEvent V) × ℕ
  drop_while test [] total = ([], total)
  drop_while test (e ∷ es) total =
      if test (e ∷ es) total then drop_while test es (total - e.size_bytes) else (e ∷ es, total)

  -- ts - self._events[0].created_at > self.ttl_seconds
  abbrev pub is_stale : ℕ → ℕ → List (RetainedEvent V) → ℕ → Bool
  is_stale ts ttl [] total = false
  is_stale ts ttl (e ∷ es) total = ltb ttl (ts - e.created_at)

  abbrev pub is_excess : ℕ → List (RetainedEvent V) → ℕ → Bool
  is_excess max_events es total = ltb max_events (length es)

  abbrev pub is_heavy : ℕ → List (RetainedEvent V) → ℕ → Bool
  is_heavy max_bytes es total = ltb max_bytes total

  unfoldable pub drop_stale : RetainedEventLog V → ℕ → List (RetainedEvent V) × ℕ
  drop_stale log ts =
      if ltb 0 log.ttl_seconds
      then drop_while (is_stale ts log.ttl_seconds) log.events log.total_bytes
      else (log.events, log.total_bytes)

  -- `_evict`: the three loops in turn
  unfoldable pub evict : RetainedEventLog V → ℕ → RetainedEventLog V
  unfolding drop_stale
  evict log ts =
      let (fresh, total) = drop_stale log ts in
      let (few, total') = drop_while (is_excess log.max_events) fresh total in
      let (light, total'') = drop_while (is_heavy log.max_bytes) few total' in
      record log { events = light; total_bytes = total'' }

  -- `_bump`
  unfoldable pub bump : RetainedEventLog V → RetainedEventLog V
  bump log = record log { version = log.version + 1; progressed = true }

  -- `close`
  unfoldable pub close : RetainedEventLog V → ℕ → RetainedEventLog V
  unfolding bump
  close log now = bump (record log { closed = true; updated_at = now })

  unfoldable pub events_after : ℕ → List (RetainedEvent V) → List (RetainedEvent V)
  events_after after [] = []
  events_after after (e ∷ es) =
      let rest = events_after after es in if ltb after e.seq then e ∷ rest else rest

  -- `replay_after`: the log after `_evict`, with the events or `ResumeExpired`
  unfoldable pub replay_after :
      RetainedEventLog V → ℕ → ℕ → RetainedEventLog V × LogResult (List (RetainedEvent V))
  replay_after log after ts =
      let log' = evict log ts in
      if ltb after (floor_seq log')
      then (log', resume_expired (floor_seq log') (latest_seq log'))
      else (log', ok (events_after after log'.events))

  module _ (codec : Codec V) where
    -- `_payload_size`
    unfoldable pub payload_size : String → Payload V → ℕ
    payload_size kind (raw bytes) = length bytes + count kind
    payload_size kind (value v) = elim (codec.dumps v) [
      | some encoded ↦ length encoded + count kind
      | none ↦ length (codec.str_bytes v) + count kind
    ]

    unfoldable pub ensure_fits : RetainedEventLog V → String → Payload V → LogResult ℕ
    ensure_fits log kind payload =
        let size = payload_size kind payload in
        if ltb log.max_bytes size then event_too_large size log.max_bytes else ok size

    -- the body of `append` once `ensure_fits` has given the size
    unfoldable pub retain :
        RetainedEventLog V → String → Payload V → ℕ → ℕ → RetainedEventLog V × RetainedEvent V
    unfolding bump
    retain log kind payload ts size =
        let event : RetainedEvent V = record {
          seq = log.next_seq;
          kind = kind;
          payload = payload;
          created_at = ts;
          size_bytes = size;
        } in
        let added : RetainedEventLog V = record log {
          next_seq = log.next_seq + 1;
          updated_at = ts;
          events = log.events ++ event ∷ [];
          total_bytes = log.total_bytes + size;
        } in
        (bump (evict added ts), event)

    unfoldable pub append :
        RetainedEventLog V
        → String
        → Payload V
        → ℕ
        → LogResult (RetainedEventLog V × RetainedEvent V)
    append log kind payload ts = elim (ensure_fits log kind payload) [
      | ok size ↦ ok (retain log kind payload ts size)
      | resume_expired f l ↦ resume_expired f l
      | event_too_large s m ↦ event_too_large s m
    ]
