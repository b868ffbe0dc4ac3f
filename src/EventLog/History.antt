-- ===== src/EventLog/History.antt =====
-- The history of a log is the list of all events that were ever appended to it. A log retains a
-- window of its history, numbered from 1 with no gap.
use hermes_vylen_gateway.Prelude.{
  ℕ, suc, ◌+◌, ◌≤◌, ◌≡◌, refl, ◌∙◌, String, List, [], ◌∷◌, ◌++◌, arith, length,
}
use native.Mathlib.Nat.{add-zero, add-suc, suc-add}
use hermes_vylen_gateway.EventLog.Log.{RetainedEvent, RetainedEventLog, init, evict, bump, close}
use hermes_vylen_gateway.EventLog.Window.{IsWindow, IsWindow-trans, evict-IsWindow, evict-within}

module _ {V : Type 0} where
  -- The sequence numbers are n, n + 1, n + 2 and so on.
  abbrev pub SeqFrom : ℕ → List (RetainedEvent V) → Type 0
  SeqFrom n [] = Unit
  SeqFrom n (e ∷ es) = (e.seq ≡ n) × SeqFrom (suc n) es

  -- The log holds the last events of the history, whatever its limits are.
  pub record Records (log : RetainedEventLog V) (history : List (RetainedEvent V)) : Type 0 where
    pub numbered : SeqFrom 1 history
    pub next : log.next_seq ≡ suc (length history)
    pub window : IsWindow history log.events log.total_bytes
    pub room : 1 ≤ log.max_events

  -- The log holds the last events of the history, within its limits.
  pub record Tracks (log : RetainedEventLog V) (history : List (RetainedEvent V)) : Type 0 where
    pub records : Records log history
    pub open records use *
    pub few : length log.events ≤ log.max_events
    pub light : log.total_bytes ≤ log.max_bytes

  pub SeqFrom-append :
      (n : ℕ) (xs : List (RetainedEvent V)) (e : RetainedEvent V)
      → SeqFrom n xs
      → e.seq ≡ n + length xs
      → SeqFrom n (xs ++ e ∷ [])
  SeqFrom-append n [] e s h = (omega arith, tt)
  SeqFrom-append n (x ∷ xs) e s h = (s.0, SeqFrom-append (suc n) xs e s.1 (omega arith))

  pub SeqFrom-suffix :
      (n : ℕ) (xs ys : List (RetainedEvent V)) → SeqFrom n (xs ++ ys) → SeqFrom (n + length xs) ys
  SeqFrom-suffix n [] ys s = rw add-zero s
  SeqFrom-suffix n (x ∷ xs) ys s = rw (add-suc, ← suc-add) (SeqFrom-suffix (suc n) xs ys s.1)

  -- A new log has an empty history.
  pub init-Tracks : (key : String) (ttl m b now : ℕ) → Tracks (init key ttl m b now) []
  unfolding init
  init-Tracks key ttl m b now = record {
    records = record {
      numbered = tt;
      next = refl;
      window = record { gone = []; split = refl; counted = refl };
      room = omega arith;
    };
    few = omega arith;
    light = omega arith;
  }

  pub evict_shape :
      (log : RetainedEventLog V) (ts : ℕ)
      → ((evict log ts).next_seq ≡ log.next_seq)
        × ((evict log ts).max_events ≡ log.max_events)
        × ((evict log ts).max_bytes ≡ log.max_bytes)
        × ((evict log ts).closed ≡ log.closed)
        × ((evict log ts).version ≡ log.version)
  unfolding evict
  evict_shape log ts = (refl, refl, refl, refl, refl)

  module _ {log : RetainedEventLog V} {history : List (RetainedEvent V)} where
    -- Eviction forgets events, and nothing of the history.
    pub evict-Tracks : (ts : ℕ) → Records log history → Tracks (evict log ts) history
    evict-Tracks ts t =
        let w = evict-IsWindow log ts t.window.counted in
        let b = evict-within log ts t.window.counted in
        let k = evict_shape log ts in
        record {
          records = record {
            numbered = t.numbered;
            next = k.0 ∙ t.next;
            window = IsWindow-trans t.window w;
            room = rw (k.1) (t.room);
          };
          few = rw (k.1) (b.0);
          light = rw (k.2) (b.1);
        }

    pub close-Tracks : (now : ℕ) → Tracks log history → Tracks (close log now) history
    unfolding close
    close-Tracks now t = record {
      records = record { numbered = t.numbered; next = t.next; window = t.window; room = t.room };
      few = t.few;
      light = t.light;
    }

    pub bump-Tracks : Tracks log history → Tracks (bump log) history
    unfolding bump
    bump-Tracks t = record {
      records = record { numbered = t.numbered; next = t.next; window = t.window; room = t.room };
      few = t.few;
      light = t.light;
    }
