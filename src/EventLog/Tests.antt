-- ===== src/EventLog/Tests.antt =====
-- Runs and instances for src/hermes_vylen_gateway/event_log.py.
use hermes_vylen_gateway.Prelude.{
  ℕ, ◌+◌, ◌≤◌, ◌<◌, ◌≡◌, refl, true, false, List, [], ◌∷◌, ◌++◌, some, arith, length, drop, ltb,
  string_eq, if◌then◌else◌,
}
use hermes_vylen_gateway.Prelude.Dict
use hermes_vylen_gateway.EventLog.Log
use hermes_vylen_gateway.EventLog.Log.{
  Codec, Payload, value, raw, RetainedEvent, RetainedEventLog, LogResult, ok, resume_expired,
  event_too_large, evict, payload_size, replay_after, append, drop_while, floor_seq, events_after,
  ensure_fits, retain,
}
use hermes_vylen_gateway.EventLog.History.{Tracks, init-Tracks}
use hermes_vylen_gateway.EventLog.Append.{event_for, append-Tracks}
use hermes_vylen_gateway.EventLog.Replay.{replay_after-exact}
use hermes_vylen_gateway.EventLog.Tail.{waiting, tail_step, wake}
use hermes_vylen_gateway.EventLog.Tail.System.{System, run, appends, Reach, here, next, run_tailer}
use hermes_vylen_gateway.EventLog.Tail.Exact.{start, delivered-exact, waiting-delivered}
use hermes_vylen_gateway.EventLog.Registry.{EventLogRegistry, get_or_create, evict_logs}
use hermes_vylen_gateway.EventLog.Registry.Evict.{IsValid, evict_logs-busy}
use hermes_vylen_gateway.EventLog.Registry.Laws.{get_or_create-IsValid}

abbrev codec : Codec ℕ
codec = record { dumps = λ n. some (n ∷ n ∷ []); str_bytes = λ n. n ∷ [] }

abbrev log : RetainedEventLog ℕ
log = Log.init "chat" 10 2 9 0

abbrev log-Tracks : Tracks log []
log-Tracks = init-Tracks "chat" 10 2 9 0

size : payload_size codec "push" (value 7) ≡ 6
unfolding payload_size
size = refl

fits : payload_size codec "push" (value 7) ≤ log.max_bytes
unfolding Log.init
fits = omega (arith, size)

too_large : log.max_bytes < payload_size codec "push" (raw (1 ∷ 2 ∷ 3 ∷ 4 ∷ 5 ∷ 6 ∷ []))
unfolding Log.init payload_size
too_large = omega arith

append-Tracks_example :
    (log' : RetainedEventLog ℕ) × (append codec log "push" (value 7) 1
      ≡ ok (log', event_for codec log "push" (value 7) 1))
    × Tracks log' (event_for codec log "push" (value 7) 1 ∷ [])
    × ((ys : List (RetainedEvent ℕ)) × (log'.events
          ≡ ys ++ event_for codec log "push" (value 7) 1 ∷ []))
    × (log'.version ≡ log.version + 1)
append-Tracks_example = append-Tracks codec log "push" (value 7) 1 log-Tracks fits

abbrev history : List (RetainedEvent ℕ)
history = event_for codec log "push" (value 7) 1 ∷ []

abbrev log1 : RetainedEventLog ℕ
log1 = append-Tracks_example.0

replay_after-exact_example :
    (floor : ℕ) × (floor ≤ length history)
    × ((evict log1 2).events ≡ drop floor history)
    × ((replay_after log1 0 2).1
        ≡ (if ltb 0 floor then resume_expired floor (length history) else ok (drop 0 history)))
    × Tracks (replay_after log1 0 2).0 history
replay_after-exact_example = replay_after-exact log1 append-Tracks_example.2.records 0 2

-- One subscriber starts, an event comes, the subscriber receives it and waits.
abbrev event : RetainedEvent ℕ
event = record { seq = 1; kind = "push"; payload = value 7; created_at = 1; size_bytes = 6 }

abbrev s0 : System ℕ
s0 = start log [] 0 true false

abbrev s1 : System ℕ
s1 = run_tailer s0 0

abbrev s2 : System ℕ
s2 = record s1 {
  log = (retain codec s1.log "push" (value 7) 1 6).0;
  tailer = wake s1.tailer;
  history = event ∷ [];
}

abbrev s5 : System ℕ
s5 = run_tailer (run_tailer (run_tailer s2 2) 2) 2

program : Unit {0}
unfolding append ensure_fits retain payload_size Log.init run_tailer tail_step wake evict drop_while
    replay_after events_after floor_seq
program = tt

appended : append codec s1.log "push" (value 7) 1 ≡ ok (s2.log, event)
unfolding program
appended = refl

s5-Reach : Reach codec s0 s5
unfolding run_tailer
s5-Reach =
    next
      (next
        (next
          (next (next here (run 0 refl)) (appends "push" (value 7) 1 s2.log event appended refl))
          (run 2 refl))
        (run 2 refl))
      (run 2 refl)

s5-waiting : s5.tailer.phase ≡ waiting
unfolding program
s5-waiting = refl

s5-delivered : s5.delivered ≡ event ∷ []
unfolding program
s5-delivered = refl

delivered-exact_example : s5.delivered ++ drop s5.tailer.cursor s5.history ≡ drop 0 s5.history
delivered-exact_example = delivered-exact codec log [] 0 true false log-Tracks s5-Reach

waiting-delivered_example : (s5.delivered ≡ drop 0 s5.history) × (s5.log.closed ≡ false)
waiting-delivered_example =
    waiting-delivered codec log [] 0 true false log-Tracks s5-Reach s5-waiting

-- A registry that is full of logs with tailers.
abbrev busy : RetainedEventLog ℕ
busy = record log { tailers = 1 }

abbrev full : EventLogRegistry ℕ
full = record {
  ttl_seconds = 10;
  max_events = 2;
  max_bytes = 9;
  max_logs = 1;
  logs = ("chat", busy) ∷ [];
  cursors = (("chat", "phone"), 3) ∷ [];
}

full-IsValid : IsValid full
unfolding Dict.get
full-IsValid = record { distinct = (refl, tt); bounded = omega arith; room = omega arith }

chat_found : Dict.get "chat" full.logs ≡ some busy
unfolding Dict.get
chat_found = refl

evict_logs-busy_example : Dict.get "chat" (evict_logs 5 full).logs ≡ some busy
evict_logs-busy_example =
    evict_logs-busy 5 full "chat" busy full-IsValid.distinct chat_found (omega arith)

get_or_create-IsValid_example : IsValid (get_or_create full "new" 4).0
get_or_create-IsValid_example = get_or_create-IsValid full full-IsValid "new" 4
