-- ===== src/EventLog/Window.antt =====
-- What eviction leaves of a log: a suffix of the events, with the byte total of that suffix, within
-- both limits.
use hermes_vylen_gateway.Prelude.{
  ℕ, ◌+◌, ◌-◌, ◌≤◌, ◌≡◌, refl, ap, sym, ◌∙◌, ◌⊎◌, inl, inr, Bool, false, List, [], ◌∷◌, ◌++◌, arith,
  ltb, length, append_assoc, Bool-cases,
}
use hermes_vylen_gateway.EventLog.Log.{
  RetainedEvent, RetainedEventLog, drop_while, is_stale, is_excess, is_heavy, drop_stale, evict,
}

module _ {V : Type 0} where
  -- the bytes of all events
  abbrev pub bytes : List (RetainedEvent V) → ℕ
  bytes [] = 0
  bytes (e ∷ es) = e.size_bytes + bytes es

  -- `es` is what is left of `all` after some of its first events are gone, and `total` counts it.
  pub record IsWindow (all es : List (RetainedEvent V)) (total : ℕ) : Type 0 where
    pub gone : List (RetainedEvent V)
    pub split : all ≡ gone ++ es
    pub counted : total ≡ bytes es

  pub bytes-append : (xs ys : List (RetainedEvent V)) → bytes (xs ++ ys) ≡ bytes xs + bytes ys
  bytes-append [] ys = omega arith
  bytes-append (x ∷ xs) ys = omega (arith, bytes-append xs ys)

  pub IsWindow-trans :
      {all es fs : List (RetainedEvent V)} {n m : ℕ}
      → IsWindow all es n
      → IsWindow es fs m
      → IsWindow all fs m
  IsWindow-trans v w = record {
    gone = v.gone ++ w.gone;
    split = v.split ∙ ap (◌++◌ v.gone) w.split ∙ sym (append_assoc v.gone w.gone _);
    counted = w.counted;
  }

  module _ (test : List (RetainedEvent V) → ℕ → Bool) where
    drop_while-IsWindow :
        (es : List (RetainedEvent V)) (total : ℕ)
        → total ≡ bytes es
        → IsWindow es (drop_while test es total).0 (drop_while test es total).1
    unfolding drop_while
    drop_while-IsWindow [] total h = record { gone = []; split = refl; counted = h }
    drop_while-IsWindow (e ∷ es) total h = elim (Bool-cases (test (e ∷ es) total)) [
      | inl more ↦ rw more (
          let w = drop_while-IsWindow es (total - e.size_bytes) (omega arith) in
          record { gone = e ∷ w.gone; split = ap (◌∷◌ e) w.split; counted = w.counted })
      | inr done ↦ rw done (record { gone = []; split = refl; counted = h })
    ]

    -- The loop ends by its test, or with nothing left.
    drop_while-stops :
        (es : List (RetainedEvent V)) (total : ℕ)
        → ((drop_while test es total).0 ≡ [])
          ⊎ (test (drop_while test es total).0 (drop_while test es total).1 ≡ false)
    unfolding drop_while
    drop_while-stops [] total = inl refl
    drop_while-stops (e ∷ es) total = elim (Bool-cases (test (e ∷ es) total)) [
      | inl more ↦ rw more (drop_while-stops es (total - e.size_bytes))
      | inr done ↦ inr (rw done done)
    ]

    length-drop_while :
        (es : List (RetainedEvent V)) (total : ℕ) → length (drop_while test es total).0 ≤ length es
    unfolding drop_while
    length-drop_while [] total = omega arith
    length-drop_while (e ∷ es) total = ground (arith, length-drop_while es (total - e.size_bytes))

    -- A loop whose test fails on the last event alone keeps that event.
    drop_while-last :
        (xs : List (RetainedEvent V)) (e : RetainedEvent V) (total : ℕ)
        → total ≡ bytes (xs ++ e ∷ [])
        → test (e ∷ []) e.size_bytes ≡ false
        → (ys : List (RetainedEvent V)) × ((drop_while test (xs ++ e ∷ []) total).0 ≡ ys ++ e ∷ [])
    unfolding drop_while
    drop_while-last [] e total h keep =
        let n : total ≡ e.size_bytes = omega arith in ([], rw (n, keep))
    drop_while-last (x ∷ xs) e total h keep = elim (Bool-cases (test (x ∷ xs ++ e ∷ []) total)) [
      | inl more ↦ rw more (drop_while-last xs e (total - x.size_bytes) (omega arith) keep)
      | inr done ↦ (x ∷ xs, rw done)
    ]

  drop_stale-IsWindow :
      (log : RetainedEventLog V) (ts : ℕ)
      → log.total_bytes ≡ bytes log.events
      → IsWindow log.events (drop_stale log ts).0 (drop_stale log ts).1
  unfolding drop_stale
  drop_stale-IsWindow log ts h = elim (Bool-cases (ltb 0 log.ttl_seconds)) [
    | inl on ↦
        rw on (drop_while-IsWindow (is_stale ts log.ttl_seconds) log.events log.total_bytes h)
    | inr off ↦ rw off (record { gone = []; split = refl; counted = h })
  ]

  module _ (log : RetainedEventLog V) (ts : ℕ) (h : log.total_bytes ≡ bytes log.events) where
    pub evict-IsWindow : IsWindow log.events (evict log ts).events (evict log ts).total_bytes
    unfolding evict
    evict-IsWindow =
        let w = drop_stale-IsWindow log ts h in
        let v = drop_while-IsWindow (is_excess log.max_events) _ _ w.counted in
        IsWindow-trans (IsWindow-trans w v)
          (drop_while-IsWindow (is_heavy log.max_bytes) _ _ v.counted)

    -- After an eviction the log is within its event count and its byte budget.
    pub evict-within :
        (length (evict log ts).events ≤ log.max_events)
        × ((evict log ts).total_bytes ≤ log.max_bytes)
    unfolding evict
    evict-within =
        let w = drop_stale-IsWindow log ts h in
        let test = is_excess {V = V} log.max_events in
        let v = drop_while-IsWindow test _ _ w.counted in
        let heavy = is_heavy {V = V} log.max_bytes in
        let u = drop_while-IsWindow heavy _ _ v.counted in
        (
          ground (
            arith,
            drop_while-stops test (drop_stale log ts).0 (drop_stale log ts).1,
            length-drop_while heavy (drop_while test (drop_stale log ts).0 (drop_stale log ts).1).0
                (drop_while test (drop_stale log ts).0 (drop_stale log ts).1).1,
          ),
          ground (
            arith,
            u.counted,
            drop_while-stops heavy (drop_while test (drop_stale log ts).0 (drop_stale log ts).1).0
                (drop_while test (drop_stale log ts).0 (drop_stale log ts).1).1,
          ),
        )

  -- An eviction at the time of the newest event, which is within the byte budget, keeps that event.
  pub evict-last :
      (log : RetainedEventLog V) (xs : List (RetainedEvent V)) (e : RetainedEvent V)
      → log.events ≡ xs ++ e ∷ []
      → log.total_bytes ≡ bytes log.events
      → 1 ≤ log.max_events
      → e.size_bytes ≤ log.max_bytes
      → (ys : List (RetainedEvent V)) × ((evict log e.created_at).events ≡ ys ++ e ∷ [])
  unfolding evict drop_stale
  evict-last log xs e at h room fits =
      let (ys, p, k) = stale in
      let excess = is_excess {V = V} log.max_events in
      let heavy = is_heavy {V = V} log.max_bytes in
      let total = (drop_stale log e.created_at).1 in
      let v = drop_while-last excess ys e total k (ground arith) in
      let u = drop_while-IsWindow excess (ys ++ e ∷ []) total k in
      let counted : (drop_while excess (ys ++ e ∷ []) total).1 ≡ bytes (v.0 ++ e ∷ []) =
        u.counted ∙ ap bytes v.1 in
      let w = drop_while-last heavy v.0 e _ counted (ground arith) in (w.0, rw (p, v.1) w.1)
    where
      stale :
          (ys : List (RetainedEvent V)) × ((drop_stale log e.created_at).0 ≡ ys ++ e ∷ [])
          × ((drop_stale log e.created_at).1 ≡ bytes (ys ++ e ∷ []))
      stale = elim (Bool-cases (ltb 0 log.ttl_seconds)) [
        | inl on ↦
            let test = is_stale {V = V} e.created_at log.ttl_seconds in
            let total : log.total_bytes ≡ bytes (xs ++ e ∷ []) = h ∙ ap bytes at in
            let (ys, p) = drop_while-last test xs e log.total_bytes total (ground arith) in
            let w = drop_while-IsWindow test (xs ++ e ∷ []) log.total_bytes total in
            rw (on, at) (ys, p, w.counted ∙ ap bytes p)
        | inr off ↦ rw off (xs, at, h ∙ ap bytes at)
      ]
