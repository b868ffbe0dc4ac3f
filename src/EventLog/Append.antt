-- ===== src/EventLog/Append.antt =====
-- What `RetainedEventLog.append` of src/hermes_vylen_gateway/event_log.py promises.
use hermes_vylen_gateway.Prelude.{
  ℕ, ◌+◌, ◌≤◌, ◌<◌, ◌≡◌, refl, ap, sym, ◌∙◌, inl, inr, String, List, [], ◌∷◌, ◌++◌, arith, ltb,
  length-append, append_assoc, Bool-cases, subst, ltb→lt,
}
use hermes_vylen_gateway.EventLog.Log.{
  Codec, Payload, RetainedEvent, RetainedEventLog, ok, event_too_large, evict, bump, payload_size,
  ensure_fits, retain, append,
}
use hermes_vylen_gateway.EventLog.Window.{bytes-append, evict-last}
use hermes_vylen_gateway.EventLog.History.{
  Records, Tracks, SeqFrom-append, evict-Tracks, bump-Tracks, evict_shape,
}

module _ {V : Type 0} where
  -- The event that `append` builds for a log.
  abbrev pub event_for : Codec V → RetainedEventLog V → String → Payload V → ℕ → RetainedEvent V
  event_for codec log kind payload ts = record {
    seq = log.next_seq;
    kind = kind;
    payload = payload;
    created_at = ts;
    size_bytes = payload_size codec kind payload;
  }

  -- The log with the event added, before `_evict`. It may be over its limits.
  abbrev added : RetainedEventLog V → RetainedEvent V → RetainedEventLog V
  added log e = record log {
    next_seq = log.next_seq + 1;
    updated_at = e.created_at;
    events = log.events ++ e ∷ [];
    total_bytes = log.total_bytes + e.size_bytes;
  }

  module _ (codec : Codec V) (log : RetainedEventLog V) (kind : String) (payload : Payload V)
      (ts : ℕ) where
    abbrev event : RetainedEvent V
    event = event_for codec log kind payload ts

    append-eq-ok :
        payload_size codec kind payload ≤ log.max_bytes
        → append codec log kind payload ts ≡ ok (bump (evict (added log event) ts), event)
    unfolding append ensure_fits retain
    append-eq-ok fits = ground arith

    added-Records :
        {history : List (RetainedEvent V)}
        → Records log history
        → Records (added log event) (history ++ event ∷ [])
    added-Records {history} t = record {
      numbered = SeqFrom-append 1 history event t.numbered (omega arith);
      next = omega (arith, length-append history (event ∷ []));
      window = record {
        gone = t.window.gone;
        split = ap (λ es. es ++ event ∷ []) t.window.split ∙ append_assoc t.window.gone _ _;
        counted = omega (arith, t.window.counted, bytes-append log.events (event ∷ []));
      };
      room = t.room;
    }

    -- An event that fits is appended: the call returns it under the next sequence number, the new
    -- log follows the longer history within both limits, and the event itself is still retained.
    pub append-Tracks :
        {history : List (RetainedEvent V)}
        → Tracks log history
        → payload_size codec kind payload ≤ log.max_bytes
        → (log' : RetainedEventLog V) × (append codec log kind payload ts ≡ ok (log', event))
          × Tracks log' (history ++ event ∷ [])
          × ((ys : List (RetainedEvent V)) × (log'.events ≡ ys ++ event ∷ []))
          × (log'.version ≡ log.version + 1)
    unfolding bump
    append-Tracks t fits =
        let r = added-Records t.records in
        (
          bump (evict (added log event) ts),
          append-eq-ok fits,
          bump-Tracks (evict-Tracks ts r),
          evict-last (added log event) log.events event refl r.window.counted t.room fits,
          ap (λ n. n + 1) ((evict_shape (added log event) ts).4),
        )

    -- An event over the byte budget is refused with both sizes; it is never appended.
    pub append-too_large :
        log.max_bytes < payload_size codec kind payload
        → append codec log kind payload ts
          ≡ event_too_large (payload_size codec kind payload) log.max_bytes
    unfolding append ensure_fits
    append-too_large big = ground arith

    -- Whatever a successful `append` returns, it follows the history with the returned event.
    pub append-Tracks_of_ok :
        {history : List (RetainedEvent V)} (r : RetainedEventLog V × RetainedEvent V)
        → Tracks log history
        → append codec log kind payload ts ≡ ok r
        → Tracks r.0 (history ++ r.1 ∷ []) × (r.0.version ≡ log.version + 1)
    append-Tracks_of_ok {history} r t h =
        elim (Bool-cases (ltb log.max_bytes (payload_size codec kind payload))) [
          | inl big ↦ absurd (cc (append-too_large (ltb→lt _ _ big)))
          | inr fits ↦
              let (log', same, t', last, v) = append-Tracks t (ground arith) in
              let e : r ≡ (log', event) = cc in
              subst
                (λ (q : RetainedEventLog V × RetainedEvent V).
                  Tracks q.0 (history ++ q.1 ∷ []) × (q.0.version ≡ log.version + 1))
                (sym e) (t', v)
        ]
