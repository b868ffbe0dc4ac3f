-- ===== src/EventLog/Registry/Sweep.antt =====
-- What `sweep` of `EventLogRegistry` (src/hermes_vylen_gateway/event_log.py) drops and keeps.
use hermes_vylen_gateway.Prelude.{
  ℕ, suc, ◌≤◌, ◌≡◌, refl, ap, ◌∙◌, inl, inr, String, false, List, [], ◌∷◌, Option, none, some,
  arith, ◌==◌, string_eq, length, Bool-cases, if◌then◌else◌,
}
use hermes_vylen_gateway.Prelude.Dict
use hermes_vylen_gateway.Prelude.Dict.{Dict, Distinct, contains}
use hermes_vylen_gateway.EventLog.Log.{RetainedEventLog, evict}
use hermes_vylen_gateway.EventLog.Registry.{
  EventLogRegistry, drop, drop_all, is_abandoned, sweep_logs, sweep,
}
use hermes_vylen_gateway.EventLog.Registry.Evict.{IsValid, evict_logs-id}

module _ {V : Type 0} where
  -- what is left of a log after a sweep
  abbrev pub swept : ℕ → ℕ → Option (RetainedEventLog V) → Option (RetainedEventLog V)
  swept ttl ts none = none
  swept ttl ts (some log) = if is_abandoned ttl ts (evict log ts) then none else some (evict log ts)

  module _ (ttl ts : ℕ) where
    get-sweep_logs :
        (j : String) (d : Dict String (RetainedEventLog V))
        → Dict.get j (sweep_logs ttl ts d).0
          ≡ elim (Dict.get j d) [ none ↦ none | some log ↦ some (evict log ts) ]
    unfolding sweep_logs Dict.get
    get-sweep_logs j [] = refl
    get-sweep_logs j ((k, log) ∷ d) = ground (arith, get-sweep_logs j d)

    length-sweep_logs :
        (d : Dict String (RetainedEventLog V)) → length (sweep_logs ttl ts d).0 ≡ length d
    unfolding sweep_logs
    length-sweep_logs [] = refl
    length-sweep_logs ((k, log) ∷ d) = ap suc (length-sweep_logs d)

    contains-sweep_logs :
        (j : String) (d : Dict String (RetainedEventLog V))
        → Distinct d
        → contains j (sweep_logs ttl ts d).1
          ≡ elim (Dict.get j d) [ none ↦ false | some log ↦ is_abandoned ttl ts (evict log ts) ]
    unfolding sweep_logs Dict.get
    contains-sweep_logs j [] h = refl
    contains-sweep_logs j ((k, log) ∷ d) h = elim (Bool-cases (k == j)) [
      | inl same ↦
          let absent : Dict.get j d ≡ none = ground (arith, h.0, string_eq.beq_iff k j) in
          rw same (ground (arith, contains-sweep_logs j d h.1, same))
      | inr differ ↦ rw differ (ground (arith, contains-sweep_logs j d h.1, differ))
    ]

  get-drop_all :
      (r : EventLogRegistry V) (keys : List String) (j : String)
      → Dict.get j (drop_all r keys).logs ≡ (if contains j keys then none else Dict.get j r.logs)
  unfolding drop_all drop
  get-drop_all r [] j = refl
  get-drop_all r (k ∷ keys) j =
      ground (arith, get-drop_all (drop r k) keys j, Dict.get-remove k j r.logs)

  length-drop_all :
      (r : EventLogRegistry V) (keys : List String)
      → (length (drop_all r keys).logs ≤ length r.logs) × ((drop_all r keys).max_logs ≡ r.max_logs)
  unfolding drop_all drop
  length-drop_all r [] = omega arith
  length-drop_all r (k ∷ keys) =
      let h = length-drop_all (drop r k) keys in
      (omega (arith, h.0, Dict.length-remove-le k r.logs), h.1)

  -- A sweep leaves each log after its eviction, except the ones that have no tailer, no event left
  -- and no recent update: exactly those are dropped, and counted.
  pub get-sweep :
      (r : EventLogRegistry V) (ts : ℕ) (j : String)
      → IsValid r
      → Dict.get j (sweep r ts).0.logs ≡ swept r.ttl_seconds ts (Dict.get j r.logs)
  unfolding sweep
  get-sweep r ts j v =
      let s = sweep_logs r.ttl_seconds ts r.logs in
      let r' = drop_all (record r { logs = s.0 }) s.1 in
      let l = length-drop_all (record r { logs = s.0 }) s.1 in
      let n = length-sweep_logs r.ttl_seconds ts r.logs in
      ap (λ (q : EventLogRegistry V). Dict.get j q.logs)
        (evict_logs-id (length r'.logs) r' (omega (arith, l.0, l.1, n, v.bounded)))
      ∙ get-drop_all (record r { logs = s.0 }) s.1 j
      ∙ ground (
        arith,
        contains-sweep_logs r.ttl_seconds ts j r.logs v.distinct,
        get-sweep_logs r.ttl_seconds ts j r.logs,
      )
