-- ===== src/EventLog/Replay.antt =====
-- What `RetainedEventLog.replay_after` of src/hermes_vylen_gateway/event_log.py promises.
use native.Mathlib.Nat.{zero-add, suc-add}
use hermes_vylen_gateway.Prelude.{
  ℕ, suc, ◌+◌, ◌-◌, ◌≤◌, ◌≡◌, ap, sym, ◌∙◌, inl, inr, List, [], ◌∷◌, ◌++◌, arith, ltb, length,
  length-append, drop, drop-nil, drop-length-append, subst, Bool-cases, if◌then◌else◌,
}
use hermes_vylen_gateway.EventLog.Log.{
  RetainedEvent, RetainedEventLog, ok, resume_expired, evict, latest_seq, floor_of, floor_seq,
  events_after, replay_after,
}
use hermes_vylen_gateway.EventLog.History.{SeqFrom, Records, Tracks, SeqFrom-suffix, evict-Tracks}

module _ {V : Type 0} where
  -- On numbered events the filter is a cut.
  events_after-drop :
      (after n : ℕ) (es : List (RetainedEvent V))
      → SeqFrom n es
      → events_after after es ≡ drop (suc after - n) es
  unfolding events_after
  events_after-drop after n [] s = sym (drop-nil (suc after - n))
  events_after-drop after n (e ∷ es) s = elim (Bool-cases (ltb after n)) [
    | inl keep ↦
        let z : suc after - n ≡ 0 = ground arith in
        let z' : suc after - suc n ≡ 0 = ground arith in
        rw (s.0, keep, z, events_after-drop after (suc n) es s.1, z')
    | inr skip ↦
        let z : suc after - n ≡ suc (suc after - suc n) = ground arith in
        rw (s.0, skip, z) (events_after-drop after (suc n) es s.1)
  ]

  drop-length-add :
      (k : ℕ) (xs ys : List (RetainedEvent V)) → drop (length xs + k) (xs ++ ys) ≡ drop k ys
  drop-length-add k [] ys = rw zero-add
  drop-length-add k (x ∷ xs) ys = rw suc-add (drop-length-add k xs ys)

  floor_of-length :
      (gone es : List (RetainedEvent V)) (latest : ℕ)
      → SeqFrom 1 (gone ++ es)
      → latest ≡ length (gone ++ es)
      → floor_of es latest ≡ length gone
  unfolding floor_of
  floor_of-length gone [] latest s h = omega (arith, h, length-append gone [])
  floor_of-length gone (e ∷ es) latest s h = omega (arith, (SeqFrom-suffix 1 gone (e ∷ es) s).0)

  module _ (log : RetainedEventLog V) {history : List (RetainedEvent V)}
      (r : Records log history) where
    -- The floor counts the events that are gone.
    floor_seq-gone : floor_seq log ≡ length r.window.gone
    unfolding floor_seq
    floor_seq-gone =
        floor_of-length r.window.gone log.events (latest_seq log)
          (subst (SeqFrom 1) r.window.split r.numbered)
          (omega (arith, r.next, ap length r.window.split))

    events_after-history :
        (after : ℕ) → floor_seq log ≤ after → events_after after log.events ≡ drop after history
    events_after-history after h =
        let f = floor_seq-gone in
        let gone = r.window.gone in
        let k : after ≡ length gone + (after - length gone) = omega (arith, f) in
        let s = SeqFrom-suffix 1 gone log.events (subst (SeqFrom 1) r.window.split r.numbered) in
        let n : suc after - (1 + length gone) ≡ after - length gone = omega arith in
        events_after-drop after (1 + length gone) log.events s
        ∙ ap (λ j. drop j log.events) n
        ∙ sym (drop-length-add (after - length gone) gone log.events)
        ∙ ap (λ j. drop j (gone ++ log.events)) (sym k)
        ∙ ap (drop after) (sym r.window.split)

    latest_seq-length : latest_seq log ≡ length history
    latest_seq-length = omega (arith, r.next)

    events-drop : log.events ≡ drop (length r.window.gone) history
    events-drop = sym (
        ap (drop (length r.window.gone)) r.window.split
        ∙ drop-length-append r.window.gone log.events)

    gone-le : length r.window.gone ≤ length history
    gone-le = omega (arith, ap length r.window.split, length-append r.window.gone log.events)

  module _ (log : RetainedEventLog V) {history : List (RetainedEvent V)}
      (r : Records log history) where
    -- Replay is exact. The log's eviction leaves a floor; below it the answer is `ResumeExpired`
    -- with the floor and the latest number, and from it on the answer is the whole history after
    -- the cursor, in order and with nothing left out. The floor and what is evicted stay within
    -- the history, and the log keeps following it.
    pub replay_after-exact :
        (after ts : ℕ)
        → (floor : ℕ) × (floor ≤ length history)
          × ((evict log ts).events ≡ drop floor history)
          × ((replay_after log after ts).1 ≡ (
              if ltb after floor
              then resume_expired floor (length history)
              else ok (drop after history)))
          × Tracks (replay_after log after ts).0 history
    unfolding replay_after
    replay_after-exact after ts =
        let t = evict-Tracks ts r in
        let log' = evict log ts in
        let f = floor_seq-gone log' t.records in
        (
          floor_seq log',
          omega (arith, f, gone-le log' t.records),
          events-drop log' t.records ∙ ap (λ j. drop j history) (sym f),
          elim (Bool-cases (ltb after (floor_seq log'))) [
            | inl old ↦ rw (old, latest_seq-length log' t.records)
            | inr new ↦ rw (new, events_after-history log' t.records after (ground arith))
          ],
          elim (Bool-cases (ltb after (floor_seq log'))) [
            | inl old ↦ rw old t
            | inr new ↦ rw new t
          ],
        )
