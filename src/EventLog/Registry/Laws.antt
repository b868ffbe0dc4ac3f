-- ===== src/EventLog/Registry/Laws.antt =====
-- The bound and the lookups of `EventLogRegistry` (src/hermes_vylen_gateway/event_log.py): which logs
-- `_evict_logs`, `get_or_create` and `sweep` drop, and which they keep.
use hermes_vylen_gateway.Prelude.{
  ℕ, ◌≡◌, refl, ◌∙◌, inl, inr, String, Option, none, some, arith, ltb, ◌==◌, string_eq, length,
  Bool-cases, Option-cases, if◌then◌else◌,
}
use hermes_vylen_gateway.Prelude.Dict
use hermes_vylen_gateway.Prelude.Dict.{Dict, Distinct}
use hermes_vylen_gateway.EventLog.Log
use hermes_vylen_gateway.EventLog.Log.{RetainedEventLog, evict}
use hermes_vylen_gateway.EventLog.Registry.Evict.{
  IsValid, first_idle-get, first_idle-put, length-put_new, evict_logs-id, evict_logs-one,
}
use hermes_vylen_gateway.EventLog.Registry.{
  EventLogRegistry, drop, first_idle, create, get_or_create,
}

module _ {V : Type 0} where
  -- The registry with a new log, before `_evict_logs`.
  abbrev pub added : EventLogRegistry V → String → RetainedEventLog V → EventLogRegistry V
  added r key log = record r { logs = Dict.put key log r.logs }

  -- The log that has to go when a new one comes under the key: none while there is room, and else
  -- the oldest idle one, which is the new one itself if all the others have a tailer.
  abbrev pub victim : EventLogRegistry V → String → Option String
  victim r key =
      if ltb (length r.logs) r.max_logs
      then none
      else elim (first_idle r.logs) [ none ↦ some key | some k ↦ some k ]

  abbrev pub evicted : EventLogRegistry V → Option String → EventLogRegistry V
  evicted r none = r
  evicted r (some k) = drop r k

  module _ (r : EventLogRegistry V) (v : IsValid r) (key : String) (now : ℕ) where
    get_or_create-new :
        Dict.get key r.logs ≡ none
        → (get_or_create r key now).0 ≡ evicted (added r key (create r key now)) (victim r key)
    unfolding get_or_create Log.init
    get_or_create-new miss =
        let n = length-put_new r.logs key (create r key now) miss in
        elim (Bool-cases (ltb (length r.logs) r.max_logs)) [
          | inl fits ↦
              rw (miss, fits, get_or_create)
                (evict_logs-id _ (added r key (create r key now)) (ground arith))
          | inr full ↦
              let i = first_idle-put r.logs key (create r key now) miss refl in
              let h = Dict.put-Distinct key (create r key now) r.logs v.distinct in
              elim (Option-cases (first_idle r.logs)) [
                | inl all_busy ↦
                    let one =
                      evict_logs-one (length r.logs) (added r key (create r key now)) key h
                        (ground (arith, v.bounded)) (i ∙ rw all_busy) in
                    rw (miss, full, all_busy, get_or_create, n) one
                | inr (k, e) ↦
                    let one =
                      evict_logs-one (length r.logs) (added r key (create r key now)) k h
                        (ground (arith, v.bounded)) (i ∙ rw e) in
                    rw (miss, full, e, get_or_create, n) one
              ]
        ]

    new-IsValid :
        Dict.get key r.logs ≡ none
        → IsValid (evicted (added r key (create r key now)) (victim r key))
    unfolding drop Log.init
    new-IsValid miss =
        let n = length-put_new r.logs key (create r key now) miss in
        let h = Dict.put-Distinct key (create r key now) r.logs v.distinct in
        let i = first_idle-put r.logs key (create r key now) miss refl in
        elim (Option-cases (victim r key)) [
          | inl fits ↦
              rw (fits)
                (record { distinct = h; bounded = ground (arith, v.bounded); room = v.room })
          | inr (k, e) ↦
              let (log, found, t) = first_idle-get _ k h (ground arith) in
              rw (e) (record {
                distinct = Dict.remove-Distinct k _ h;
                bounded = omega (arith, v.bounded, Dict.length-remove-lt k _ log found);
                room = v.room;
              })
        ]

    new-get :
        (j : String)
        → Dict.get j (evicted (added r key (create r key now)) (victim r key)).logs
          ≡ elim (victim r key) [
            | none ↦ if key == j then some (create r key now) else Dict.get j r.logs
            | some k ↦
                if k == j
                then none
                else (if key == j then some (create r key now) else Dict.get j r.logs)
          ]
    unfolding drop
    new-get j = elim (Option-cases (victim r key)) [
      | inl fits ↦ rw fits (Dict.get-put key j (create r key now) r.logs)
      | inr (k, e) ↦ rw (
        e,
        Dict.get-remove k j (Dict.put key (create r key now) r.logs),
        Dict.get-put key j (create r key now) r.logs,
      )
    ]

    -- The registry stays within its bound, with each key once.
    pub get_or_create-IsValid : IsValid (get_or_create r key now).0
    get_or_create-IsValid = elim (Option-cases (Dict.get key r.logs)) [
      | inl miss ↦ rw (get_or_create-new miss) (new-IsValid miss)
      | inr (log, hit) ↦
          unfold get_or_create in
          rw (hit, get_or_create)
            (record {
              distinct = Dict.move_to_end-Distinct key r.logs v.distinct;
              bounded = omega (arith, Dict.length-move_to_end-le key r.logs);
              room = v.room;
            })
    ]

    -- Every lookup after `get_or_create`: a known key changes none; a new key is bound to the new
    -- log, and what is dropped is dropped last, so a new log that is its own victim is not bound.
    pub get-get_or_create :
        (j : String)
        → Dict.get j (get_or_create r key now).0.logs ≡ elim (Dict.get key r.logs) [
          | some log ↦ Dict.get j r.logs
          | none ↦ elim (victim r key) [
            | none ↦ if key == j then some (create r key now) else Dict.get j r.logs
            | some k ↦
                if k == j
                then none
                else (if key == j then some (create r key now) else Dict.get j r.logs)
          ]
        ]
    get-get_or_create j = elim (Option-cases (Dict.get key r.logs)) [
      | inl miss ↦ rw (get_or_create-new miss, miss) (new-get j)
      | inr (log, hit) ↦
          unfold get_or_create in rw (hit, get_or_create) (Dict.get-move_to_end key j r.logs)
    ]
