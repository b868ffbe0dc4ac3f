-- ===== src/EventLog/Tail/Delivery.antt =====
-- What a subscriber receives from `tail_after` of src/hermes_vylen_gateway/event_log.py, whatever the
-- rest of the program does meanwhile.
use mathlib.Core.List.{append-nil}
use hermes_vylen_gateway.Prelude.{
  ℕ, zero, suc, ◌+◌, ◌≤◌, ◌≡◌, refl, ap, sym, ◌∙◌, ◌⊎◌, inl, inr, Bool, true, false, List, [], ◌∷◌,
  ◌++◌, arith, ltb, leb, nat_beq, length, length-drop, drop, append_assoc, Bool-cases, ◌&&◌,
}
use hermes_vylen_gateway.EventLog.Log.{RetainedEvent, RetainedEventLog, latest_seq}
use hermes_vylen_gateway.EventLog.History.{SeqFrom, Tracks}
use hermes_vylen_gateway.EventLog.Replay.{replay_after-exact}
use hermes_vylen_gateway.EventLog.Tail.{
  Phase, starting, looping, draining, waiting, scheduled, waiting_for, finished, expired, Tailer,
  begun, step_phase, tail_step,
}
use hermes_vylen_gateway.EventLog.Tail.Keeps.{touched-Tracks, replay_after-shape}
use hermes_vylen_gateway.EventLog.Tail.System.{System, emitted, PhaseOk, Follows}

module _ {V : Type 0} where
  drop-cons :
      (n k : ℕ) (h : List (RetainedEvent V)) (e : RetainedEvent V) (t : List (RetainedEvent V))
      → SeqFrom n h
      → drop k h ≡ e ∷ t
      → (e.seq ≡ n + k) × (drop (suc k) h ≡ t) × (suc k ≤ length h)
  drop-cons n zero [] e t s d = absurd (cc)
  drop-cons n zero (x ∷ h) e t s d = ground (arith, s.0)
  drop-cons n (suc k) [] e t s d = absurd (cc)
  drop-cons n (suc k) (x ∷ h) e t s d =
      let (a, b, c) = drop-cons (suc n) k h e t s.1 d in (omega (arith, a), b, omega (arith, c))

  module _ (after : ℕ) (delivered history : List (RetainedEvent V)) where
    -- a state in which the subscriber has moved on without a new event
    abbrev quiet : RetainedEventLog V → Tailer V → System V
    quiet log t = record { log = log; tailer = t; delivered = delivered ++ []; history = history }

    abbrev pub after_step : RetainedEventLog V → Tailer V → ℕ → Phase V → System V
    after_step log t ts p = record {
      log = (step_phase log t ts p).log;
      tailer = (step_phase log t ts p).tailer;
      delivered = delivered ++ emitted (step_phase log t ts p).yielded;
      history = history;
    }

    abbrev Place : ℕ → Type 0
    Place cursor = (cursor ≤ length history) ⊎ ((delivered ≡ []) × (cursor ≡ after))

    quiet-Follows :
        (log : RetainedEventLog V) (t : Tailer V)
        → Tracks log history
        → after ≤ t.cursor
        → delivered ++ drop t.cursor history ≡ drop after history
        → Place t.cursor
        → PhaseOk log history t.cursor t.phase
        → Follows after (quiet log t)
    quiet-Follows log t k o e p f = record {
      tracks = k;
      order = o;
      exact = rw append-nil e;
      place = rw append-nil p;
      phase_ok = f;
    }

    module _ (log : RetainedEventLog V) (t : Tailer V) (ts : ℕ) (k : Tracks log history)
        (o : after ≤ t.cursor) (e : delivered ++ drop t.cursor history ≡ drop after history)
        (p : Place t.cursor) where
      starting-Follows : Follows after (after_step log t ts starting)
      unfolding tail_step
      starting-Follows =
          elim (Bool-cases (t.reject_future_cursor && ltb (latest_seq log) t.cursor)) [
            | inl out ↦ rw out (quiet-Follows _ _ (touched-Tracks log _ _ k) o e p tt)
            | inr fine ↦ rw fine (quiet-Follows _ _ (touched-Tracks log _ _ k) o e p tt)
          ]

      looping-Follows : Follows after (after_step log t ts looping)
      unfolding tail_step
      looping-Follows =
          let r = replay_after-exact log k.records t.cursor ts in
          let k' = r.4 in
          let s = replay_after-shape log t.cursor ts in
          elim (Bool-cases (ltb t.cursor r.0)) [
            | inl old ↦ rw (r.3, old) (quiet-Follows _ _ (touched-Tracks _ _ _ k') o e p tt)
            | inr new ↦
                rw (r.3, new)
                  (quiet-Follows _ _ k' o e p
                    ([], sym (append-nil (drop t.cursor history)), omega (arith, s.0), λ _. refl))
          ]

      yield-Follows :
          (x : RetainedEvent V) (es : List (RetainedEvent V)) (version : ℕ)
          → PhaseOk log history t.cursor (draining (x ∷ es) version)
          → Follows after (after_step log t ts (draining (x ∷ es) version))
      yield-Follows x es version (rest, d, le, all) =
          let c = drop-cons 1 t.cursor history x (es ++ rest) k.numbered d in
          let seq : x.seq ≡ suc t.cursor = omega (arith, c.0) in
          let left : drop x.seq history ≡ es ++ rest = ap (λ j. drop j history) seq ∙ c.1 in
          record {
            tracks = k;
            order = omega (arith, seq);
            exact =
                append_assoc delivered (x ∷ []) (drop x.seq history)
                ∙ ap (λ r. delivered ++ x ∷ r) left
                ∙ ap (◌++◌ delivered) (sym d)
                ∙ e;
            place = inl (omega (arith, seq, c.2));
            phase_ok = (rest, left, le, all);
          }

      drained-Follows :
          (version : ℕ)
          → PhaseOk log history t.cursor (draining [] version)
          → Follows after (after_step log t ts (draining [] version))
      unfolding tail_step
      drained-Follows version (rest, d, le, all) =
          elim (Bool-cases (log.closed && leb (latest_seq log) t.cursor)) [
            | inl out ↦ rw out (quiet-Follows _ _ (touched-Tracks log _ _ k) o e p tt)
            | inr more ↦ elim (Bool-cases (nat_beq log.version version)) [
              | inl same ↦
                  let none_left : drop t.cursor history ≡ [] = d ∙ all (ground arith) in
                  elim (Bool-cases t.keepalive) [
                    | inl timed ↦
                        rw (more, same, timed)
                          (quiet-Follows _ _ (touched-Tracks log _ _ k) o e p tt)
                    | inr direct ↦
                        rw (more, same, direct)
                          (quiet-Follows _ _ (touched-Tracks log _ _ k) o e p (
                            none_left,
                            ground
                                (arith, ap length none_left, length-drop t.cursor history, k.next),
                          ))
                  ]
              | inr moved ↦ rw (more, moved) (quiet-Follows _ _ (touched-Tracks log _ _ k) o e p tt)
            ]
          ]

  begun-PhaseOk :
      (log : RetainedEventLog V) (history : List (RetainedEvent V)) (cursor : ℕ) (b : Bool)
      → PhaseOk log history cursor (begun b)
  begun-PhaseOk log history cursor true = tt
  begun-PhaseOk log history cursor false = tt

  pub step_phase-Follows :
      (after : ℕ) (s : System V) (ts : ℕ) (p : Phase V)
      → Follows after s
      → PhaseOk s.log s.history s.tailer.cursor p
      → Follows after (after_step after s.delivered s.history s.log s.tailer ts p)
  unfolding tail_step
  step_phase-Follows after s ts starting f g =
      starting-Follows after _ _ _ s.tailer ts f.tracks f.order f.exact f.place
  step_phase-Follows after s ts looping f g =
      looping-Follows after _ _ _ s.tailer ts f.tracks f.order f.exact f.place
  step_phase-Follows after s ts (draining (x ∷ es) v) f g =
      yield-Follows after _ _ _ s.tailer ts f.tracks f.order f.exact f.place x es v g
  step_phase-Follows after s ts (draining [] v) f g =
      drained-Follows after _ _ _ s.tailer ts f.tracks f.order f.exact f.place v g
  step_phase-Follows after s ts waiting f g =
      quiet-Follows after s.delivered s.history s.log s.tailer f.tracks f.order f.exact f.place
        f.phase_ok
  step_phase-Follows after s ts scheduled f g =
      quiet-Follows after s.delivered s.history s.log
        (record s.tailer { phase = begun s.log.progressed }) f.tracks f.order f.exact f.place
        (begun-PhaseOk s.log s.history s.tailer.cursor s.log.progressed)
  step_phase-Follows after s ts waiting_for f g =
      quiet-Follows after s.delivered s.history s.log s.tailer f.tracks f.order f.exact f.place
        f.phase_ok
  step_phase-Follows after s ts finished f g =
      quiet-Follows after s.delivered s.history s.log s.tailer f.tracks f.order f.exact f.place
        f.phase_ok
  step_phase-Follows after s ts (expired a b) f g =
      quiet-Follows after s.delivered s.history s.log s.tailer f.tracks f.order f.exact f.place
        f.phase_ok
