-- ===== src/EventLog/Registry.antt =====
-- `EventLogRegistry` of src/hermes_vylen_gateway/event_log.py. The logs are values of the ordered
-- dictionary; a caller that changes a log that it holds writes it back with `replace`.
pub mod Evict
pub mod Laws
pub mod Sweep
pub mod Cursors
use hermes_vylen_gateway.Prelude.{
  ℕ, zero, suc, ◌+◌, ◌-◌, max, String, Bool, true, false, List, [], ◌∷◌, Option, none, some, ltb,
  leb, ◌==◌, string_eq, pair_eq, length, ◌&&◌, not, if◌then◌else◌,
}
use hermes_vylen_gateway.Prelude.Dict
use hermes_vylen_gateway.Prelude.Dict.{Dict}
use hermes_vylen_gateway.EventLog.Log
use hermes_vylen_gateway.EventLog.Log.{RetainedEvent, RetainedEventLog, evict}

pub record EventLogRegistry (V : Type 0) : Type 0 where
  pub ttl_seconds : ℕ
  pub max_events : ℕ
  pub max_bytes : ℕ
  pub max_logs : ℕ
  pub logs : Dict String (RetainedEventLog V)
  pub cursors : Dict (String × String) ℕ

-- the cursors that `drop` leaves: those of the other logs
unfoldable pub drop_cursors : String → Dict (String × String) ℕ → Dict (String × String) ℕ
drop_cursors key [] = []
drop_cursors key (((k, c), seq) ∷ d) =
    let rest = drop_cursors key d in if k == key then rest else ((k, c), seq) ∷ rest

cursor_or_zero : Option ℕ → ℕ
cursor_or_zero none = 0
cursor_or_zero (some seq) = seq

module _ {V : Type 0} where
  -- EventLogRegistry.__init__
  unfoldable pub init : ℕ → ℕ → ℕ → ℕ → EventLogRegistry V
  init ttl_seconds max_events max_bytes max_logs = record {
    ttl_seconds = ttl_seconds;
    max_events = max_events;
    max_bytes = max_bytes;
    max_logs = max 1 max_logs;
    logs = [];
    cursors = [];
  }

  unfoldable pub drop : EventLogRegistry V → String → EventLogRegistry V
  unfolding drop_cursors
  drop r key = record r { logs = Dict.remove key r.logs; cursors = drop_cursors key r.cursors }

  -- the first log with no tailer
  unfoldable pub first_idle : Dict String (RetainedEventLog V) → Option String
  first_idle [] = none
  first_idle ((key, log) ∷ d) = if leb log.tailers 0 then some key else first_idle d

  -- `_evict_logs`, for as many rounds as the fuel allows
  unfoldable pub evict_logs : ℕ → EventLogRegistry V → EventLogRegistry V
  evict_logs zero r = r
  evict_logs (suc fuel) r = elim (ltb r.max_logs (length r.logs)) [
    | false ↦ r
    | true ↦ elim (first_idle r.logs) [ none ↦ r | some key ↦ evict_logs fuel (drop r key) ]
  ]

  abbrev pub create : EventLogRegistry V → String → ℕ → RetainedEventLog V
  create r key now = Log.init key r.ttl_seconds r.max_events r.max_bytes now

  -- `get_or_create`, with the time at which a new log is made; each round of `_evict_logs` drops a
  -- log, so the number of logs is enough fuel
  unfoldable pub get_or_create :
      EventLogRegistry V → String → ℕ → EventLogRegistry V × RetainedEventLog V
  get_or_create r key now = elim (Dict.get key r.logs) [
    | none ↦
        let log = create r key now in
        let logs = Dict.put key log r.logs in
        (evict_logs (length logs) (record r { logs = logs }), log)
    | some log ↦ (record r { logs = Dict.move_to_end key r.logs }, log)
  ]

  unfoldable pub get :
      EventLogRegistry V → String → EventLogRegistry V × Option (RetainedEventLog V)
  get r key = elim (Dict.get key r.logs) [
    | none ↦ (r, none)
    | some log ↦ (record r { logs = Dict.move_to_end key r.logs }, some log)
  ]

  -- A caller has changed the log that it got under the key. A log that is no longer registered is
  -- not found again.
  unfoldable pub replace : EventLogRegistry V → String → RetainedEventLog V → EventLogRegistry V
  replace r key log = elim (Dict.get key r.logs) [
    | none ↦ r
    | some _ ↦ record r { logs = Dict.put key log r.logs }
  ]

  unfoldable pub cursor : EventLogRegistry V → String → String → ℕ
  unfolding cursor_or_zero
  cursor r key client_id = cursor_or_zero (Dict.get (key, client_id) r.cursors)

  unfoldable pub acknowledge : EventLogRegistry V → String → String → ℕ → EventLogRegistry V
  unfolding cursor
  acknowledge r key client_id seq = record r {
    logs = Dict.move_to_end key r.logs;
    cursors = Dict.put (key, client_id) (max seq (cursor r key client_id)) r.cursors;
  }

  is_empty : List (RetainedEvent V) → Bool
  is_empty [] = true
  is_empty (e ∷ es) = false

  -- the tests of the loop of `sweep`, on a log after its eviction
  unfoldable pub is_abandoned : ℕ → ℕ → RetainedEventLog V → Bool
  unfolding is_empty
  is_abandoned ttl ts log =
      if ltb 0 log.tailers then false else is_empty log.events && ltb ttl (ts - log.updated_at)

  -- the loop of `sweep`: each log after its eviction, and the keys to drop
  unfoldable pub sweep_logs :
      ℕ → ℕ → Dict String (RetainedEventLog V) → Dict String (RetainedEventLog V) × List String
  unfolding is_abandoned
  sweep_logs ttl ts [] = ([], [])
  sweep_logs ttl ts ((key, log) ∷ d) =
      let (logs, dropped) = sweep_logs ttl ts d in
      let log' = evict log ts in
      ((key, log') ∷ logs, if is_abandoned ttl ts log' then key ∷ dropped else dropped)

  unfoldable pub drop_all : EventLogRegistry V → List String → EventLogRegistry V
  drop_all r [] = r
  drop_all r (key ∷ keys) = drop_all (drop r key) keys

  unfoldable pub sweep : EventLogRegistry V → ℕ → EventLogRegistry V × ℕ
  unfolding sweep_logs drop_all
  sweep r ts =
      let (logs, dropped) = sweep_logs r.ttl_seconds ts r.logs in
      let r' = drop_all (record r { logs = logs }) dropped in
      (evict_logs (length r'.logs) r', length dropped)
