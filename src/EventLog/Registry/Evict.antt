-- ===== src/EventLog/Registry/Evict.antt =====
-- `_evict_logs` of `EventLogRegistry` (src/hermes_vylen_gateway/event_log.py), round by round.
use hermes_vylen_gateway.Prelude.{
  ℕ, zero, suc, ◌≤◌, ◌<◌, ◌≡◌, refl, inl, inr, String, true, false, [], ◌∷◌, none, some, arith, ltb,
  leb, string_eq, length, Bool-cases, Option-cases,
}
use hermes_vylen_gateway.Prelude.Dict
use hermes_vylen_gateway.Prelude.Dict.{Dict, Distinct}
use hermes_vylen_gateway.EventLog.Log.{RetainedEventLog}
use hermes_vylen_gateway.EventLog.Registry.{EventLogRegistry, drop, first_idle, evict_logs}

module _ {V : Type 0} where
  pub record IsValid (r : EventLogRegistry V) : Type 0 where
    pub distinct : Distinct r.logs
    pub bounded : length r.logs ≤ r.max_logs
    pub room : 1 ≤ r.max_logs

  pub first_idle-get :
      (d : Dict String (RetainedEventLog V)) (key : String)
      → Distinct d
      → first_idle d ≡ some key
      → (log : RetainedEventLog V) × (Dict.get key d ≡ some log) × (log.tailers ≡ 0)
  unfolding first_idle Dict.get
  first_idle-get [] key h e = absurd (cc)
  first_idle-get ((k, log) ∷ d) key h e = elim (Bool-cases (leb log.tailers 0)) [
    | inl idle ↦
        let same : k ≡ key = ground arith in
        (log, ground (arith, (string_eq.beq_iff k key)), ground arith)
    | inr busy ↦
        let (l, found, t) = first_idle-get d key h.1 (ground arith) in
        (l, ground (arith, string_eq.beq_iff k key, found, h.0), t)
  ]

  pub first_idle-put :
      (d : Dict String (RetainedEventLog V)) (key : String) (log : RetainedEventLog V)
      → Dict.get key d ≡ none
      → log.tailers ≡ 0
      → first_idle (Dict.put key log d) ≡ elim (first_idle d) [ none ↦ some key | some k ↦ some k ]
  unfolding first_idle Dict.get Dict.put
  first_idle-put [] key log n t = ground arith
  first_idle-put ((k, l) ∷ d) key log n t =
      ground (arith, first_idle-put d key log, string_eq.beq_iff k key)

  pub length-put_new :
      (d : Dict String (RetainedEventLog V)) (key : String) (log : RetainedEventLog V)
      → Dict.get key d ≡ none
      → length (Dict.put key log d) ≡ suc (length d)
  unfolding Dict.get Dict.put
  length-put_new [] key log n = refl
  length-put_new ((k, l) ∷ d) key log n = ground (arith, length-put_new d key log)

  pub evict_logs-id :
      (fuel : ℕ) (r : EventLogRegistry V) → length r.logs ≤ r.max_logs → evict_logs fuel r ≡ r
  unfolding evict_logs
  evict_logs-id zero r h = refl
  evict_logs-id (suc fuel) r h =
      let fits : ltb r.max_logs (length r.logs) ≡ false = ground arith in rw (fits, evict_logs)

  -- One log too many, and the oldest idle one goes.
  pub evict_logs-one :
      (fuel : ℕ) (r : EventLogRegistry V) (key : String)
      → Distinct r.logs
      → length r.logs ≡ suc r.max_logs
      → first_idle r.logs ≡ some key
      → evict_logs (suc fuel) r ≡ drop r key
  unfolding evict_logs drop
  evict_logs-one fuel r key h l i =
      let over : ltb r.max_logs (length r.logs) ≡ true = ground arith in
      let (log, found, t) = first_idle-get r.logs key h i in
      rw (over, i, evict_logs)
        (evict_logs-id fuel (drop r key)
          (omega (arith, Dict.length-remove-lt key r.logs log found)))

  -- A log with an active tailer outlives every round of eviction.
  pub evict_logs-busy :
      (fuel : ℕ) (r : EventLogRegistry V) (key : String) (log : RetainedEventLog V)
      → Distinct r.logs
      → Dict.get key r.logs ≡ some log
      → 0 < log.tailers
      → Dict.get key (evict_logs fuel r).logs ≡ some log
  unfolding evict_logs drop
  evict_logs-busy zero r key log h found busy = found
  evict_logs-busy (suc fuel) r key log h found busy =
      elim (Bool-cases (ltb r.max_logs (length r.logs))) [
        | inr fits ↦ rw (fits, evict_logs) found
        | inl over ↦ elim (Option-cases (first_idle r.logs)) [
          | inl all_busy ↦ rw (over, all_busy, evict_logs) found
          | inr (k, i) ↦
              let (idle, at, t) = first_idle-get r.logs k h i in
              rw (over, i, evict_logs)
                (evict_logs-busy fuel (drop r k) key log (Dict.remove-Distinct k r.logs h)
                  (ground (arith, Dict.get-remove k key r.logs, string_eq.beq_iff k key)) busy)
        ]
      ]
