-- ===== src/EventLog/Tail/Exact.antt =====
-- The promise of `tail_after` of src/hermes_vylen_gateway/event_log.py over all interleavings.
use hermes_vylen_gateway.Prelude.{
  drop-longer, ℕ, ◌+◌, ◌≡◌, refl, ap, sym, subst, ◌∙◌, inr, Bool, false, List, [], ◌∷◌, ◌++◌, arith,
  length-append, drop, append_assoc, append-nil,
}
use hermes_vylen_gateway.EventLog.Log.{Codec, RetainedEvent, RetainedEventLog, close}
use hermes_vylen_gateway.EventLog.History.{Tracks, close-Tracks}
use hermes_vylen_gateway.EventLog.Append.{append-Tracks_of_ok}
use hermes_vylen_gateway.EventLog.Tail.{
  Phase, starting, looping, draining, waiting, scheduled, waiting_for, finished, expired,
  tail_after, tail_step, woken, wake, timed_out, time_out,
}
use hermes_vylen_gateway.EventLog.Tail.Keeps.{tail_step-KeepsLog}
use hermes_vylen_gateway.EventLog.Tail.Delivery.{step_phase-Follows}
use hermes_vylen_gateway.EventLog.Tail.System.{
  System, run_tailer, Step, run, timeout, appends, closes, other, Reach, here, next, PhaseOk,
  Follows,
}

module _ {V : Type 0} where
  run-Follows :
      (after : ℕ) (s : System V) (ts : ℕ) → Follows after s → Follows after (run_tailer s ts)
  unfolding run_tailer tail_step
  run-Follows after s ts f = step_phase-Follows after s ts s.tailer.phase f f.phase_ok

  -- A promise about the next events stays true for a log with the same history that is no older.
  PhaseOk-other :
      (log log' : RetainedEventLog V) (history : List (RetainedEvent V)) (cursor : ℕ) (p : Phase V)
      → log'.version ≡ log.version
      → log'.closed ≡ log.closed
      → PhaseOk log history cursor p
      → PhaseOk log' history cursor p
  PhaseOk-other log log' h c (draining es v) e k (rest, d, le, all) =
      (rest, d, omega arith, λ q. all (sym e ∙ q))
  PhaseOk-other log log' h c waiting e k (d, open_) = (d, k ∙ open_)
  PhaseOk-other log log' h c starting e k f = tt
  PhaseOk-other log log' h c looping e k f = tt
  PhaseOk-other log log' h c finished e k f = tt
  PhaseOk-other log log' h c scheduled e k f = tt
  PhaseOk-other log log' h c waiting_for e k f = tt
  PhaseOk-other log log' h c (expired a b) e k f = tt

  PhaseOk-time_out :
      (log : RetainedEventLog V) (history : List (RetainedEvent V)) (cursor : ℕ) (p : Phase V)
      → PhaseOk log history cursor p
      → PhaseOk log history cursor (timed_out p)
  PhaseOk-time_out log h c (draining es v) f = f
  PhaseOk-time_out log h c waiting f = f
  PhaseOk-time_out log h c starting f = tt
  PhaseOk-time_out log h c looping f = tt
  PhaseOk-time_out log h c finished f = tt
  PhaseOk-time_out log h c scheduled f = tt
  PhaseOk-time_out log h c waiting_for f = tt
  PhaseOk-time_out log h c (expired a b) f = tt

  -- A newer version frees what draining promised of the end of the history.
  PhaseOk-newer :
      (log log' : RetainedEventLog V) (h h' more : List (RetainedEvent V)) (cursor : ℕ)
      (p : Phase V)
      → log'.version ≡ log.version + 1
      → drop cursor h' ≡ drop cursor h ++ more
      → PhaseOk log h cursor p
      → PhaseOk log' h' cursor (woken p)
  PhaseOk-newer log log' h h' more c (draining es v) e d (rest, split, le, all) = (
    rest ++ more,
    d ∙ ap (λ r. r ++ more) split ∙ append_assoc es rest more,
    omega arith,
    λ q. absurd (omega arith),
  )
  PhaseOk-newer log log' h h' more c waiting e d f = tt
  PhaseOk-newer log log' h h' more c starting e d f = tt
  PhaseOk-newer log log' h h' more c looping e d f = tt
  PhaseOk-newer log log' h h' more c finished e d f = tt
  PhaseOk-newer log log' h h' more c scheduled e d f = tt
  PhaseOk-newer log log' h h' more c waiting_for e d f = tt
  PhaseOk-newer log log' h h' more c (expired a b) e d f = tt

  -- Every step of the program keeps the promise.
  Step-Follows :
      (codec : Codec V) (after : ℕ) (s u : System V)
      → Step codec s u
      → Follows after s
      → Follows after u
  unfolding wake time_out close
  Step-Follows codec after s u (run ts e) f =
      subst (Follows after) (sym e) (run-Follows after s ts f)
  Step-Follows codec after s u (timeout e) f = subst (Follows after) (sym e) (record {
    tracks = f.tracks;
    order = f.order;
    exact = f.exact;
    place = f.place;
    phase_ok = PhaseOk-time_out s.log s.history s.tailer.cursor s.tailer.phase f.phase_ok;
  })
  Step-Follows codec after s u (appends kind payload ts log' x done e) f =
      let (k, v) = append-Tracks_of_ok codec s.log kind payload ts (log', x) f.tracks done in
      let (more, d, longer) =
        drop-longer after s.tailer.cursor s.delivered s.history x f.order f.exact f.place in
      subst (Follows after) (sym e) (record {
        tracks = k;
        order = f.order;
        exact = longer;
        place = ground (arith, f.place, length-append s.history (x ∷ []));
        phase_ok =
            PhaseOk-newer s.log log' s.history (s.history ++ x ∷ []) more s.tailer.cursor
              s.tailer.phase v d f.phase_ok;
      })
  Step-Follows codec after s u (closes now e) f = subst (Follows after) (sym e) (record {
    tracks = close-Tracks now f.tracks;
    order = f.order;
    exact = f.exact;
    place = f.place;
    phase_ok =
        PhaseOk-newer s.log (close s.log now) s.history s.history [] s.tailer.cursor s.tailer.phase
          refl (sym (append-nil _)) f.phase_ok;
  })
  Step-Follows codec after s u (other t ts e) f =
      let (k, v, c) = tail_step-KeepsLog s.log t ts f.tracks in
      subst (Follows after) (sym e) (record {
        tracks = k;
        order = f.order;
        exact = f.exact;
        place = f.place;
        phase_ok =
            PhaseOk-other s.log (tail_step s.log t ts).log s.history s.tailer.cursor s.tailer.phase
              v c f.phase_ok;
      })

  abbrev pub start : RetainedEventLog V → List (RetainedEvent V) → ℕ → Bool → Bool → System V
  start log history after reject keepalive = record {
    log = log;
    tailer = tail_after after reject keepalive;
    delivered = [];
    history = history;
  }

  Reach-Follows :
      (codec : Codec V) (after : ℕ) {s u : System V}
      → Follows after s
      → Reach codec s u
      → Follows after u
  Reach-Follows codec after f here = f
  Reach-Follows codec after f (next r st) =
      Step-Follows codec after _ _ st (Reach-Follows codec after f r)

  module _ (codec : Codec V) (log : RetainedEventLog V) (history : List (RetainedEvent V))
      (after : ℕ) (reject keepalive : Bool) (t : Tracks log history) {u : System V}
      (r : Reach codec (start log history after reject keepalive) u) where
    reached : Follows after u
    reached =
        Reach-Follows codec after
          (record {
            tracks = t;
            order = omega arith;
            exact = refl;
            place = inr (refl, refl);
            phase_ok = tt;
          })
          r

    -- Whatever happens to the log meanwhile, what the subscriber has received together with the
    -- history behind its cursor is the history behind the cursor that it started with: no event
    -- after that is skipped, repeated or out of order.
    pub delivered-exact : u.delivered ++ drop u.tailer.cursor u.history ≡ drop after u.history
    delivered-exact = reached.exact

    pub waiting-delivered :
        u.tailer.phase ≡ waiting → (u.delivered ≡ drop after u.history) × (u.log.closed ≡ false)
    waiting-delivered w =
        let (none_left, open_) =
          subst (PhaseOk u.log u.history u.tailer.cursor) w reached.phase_ok in
        (sym (append-nil _) ∙ ap (◌++◌ u.delivered) (sym none_left) ∙ reached.exact, open_)
