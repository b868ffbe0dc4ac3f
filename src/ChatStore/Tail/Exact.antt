-- ===== src/ChatStore/Tail/Exact.antt =====
-- What `ChatStateLog.tail_after` of src/hermes_vylen_gateway/chat_store.py delivers.
use hermes_vylen_gateway.Prelude.{
  ℕ, suc, ◌+◌, ◌≡◌, ◌≢◌, refl, sym, inl, inr, Bool, true, false, List, [], ◌∷◌, ◌++◌, Option, none,
  some, arith, ltb, length, length-append, Option-cases, Bool-cases, subst, ◌==◌, ◌&&◌, leb, nat_eq,
  if◌then◌else◌, append-nil,
}
use hermes_vylen_gateway.Prelude.Dict
use hermes_vylen_gateway.Prelude.Text.{Text, text_eq}
use hermes_vylen_gateway.ChatStore.Texts.{Json, clean_id}
use hermes_vylen_gateway.ChatStore.Tables.{Db, ChatRecord}
use hermes_vylen_gateway.ChatStore.Ids.{clean_id-clean_id, not_nil_of}
use hermes_vylen_gateway.ChatStore.Store.{
  Calendar, ChatStateConfig, ChatStateLog, ChatStateStore, RetainedEvent, resume_expired, Answer,
  ok, raised, is_usable,
}
use hermes_vylen_gateway.ChatStore.Reads.{
  latest_seq, floor_seq, replay_after, replay_rows, get_chat,
}
use hermes_vylen_gateway.ChatStore.Valid.{IsValid}
use hermes_vylen_gateway.ChatStore.System.{Step, Reach, next, new_store, Reach-IsValid}
use hermes_vylen_gateway.ChatStore.Replay.{Numbered, replay_after-gapless, replay_after-expired}
use hermes_vylen_gateway.ChatStore.Tail.{
  Phase, starting, opening, looping, reading, draining, checking, waiting, finished, failed, Tailer,
  tail_after, tail_step, opened, replayed, checked,
}

Numbered-snoc :
    {V : Type 0} (n : ℕ) (out : List (RetainedEvent V)) (x : RetainedEvent V)
    → Numbered n out
    → x.seq ≡ n + length out
    → Numbered n (out ++ x ∷ [])
Numbered-snoc n [] x h e = (omega arith, tt)
Numbered-snoc n (y ∷ out) x h e = (h.0, Numbered-snoc (suc n) out x h.1 (omega arith))

module _ {V : Type 0} (json : Json V) (cal : Calendar) where
  -- the numbers of an answer of `replay_after`
  abbrev AnswerNumbered : ℕ → Answer (List (RetainedEvent V)) → Type 0
  AnswerNumbered n (ok es) = Numbered (suc n) es
  AnswerNumbered n (raised e) = Unit

  row-Numbered :
      (s : ChatStateStore) (key : Text) (n : ℕ) (row : ChatRecord)
      → is_usable s ≡ true
      → clean_id key ≢ []
      → IsValid s.db
      → Dict.get (clean_id key) s.db.chats ≡ some row
      → AnswerNumbered n (replay_after json cal s key n none)
  row-Numbered s key n row usable clean v found = elim (Bool-cases (ltb n row.floor_seq)) [
    | inl under ↦
        subst (AnswerNumbered n)
          (sym (replay_after-expired json cal s key row n usable clean v found none (ground arith)))
          tt
    | inr level ↦
        let (events, run, numbered, count) =
          replay_after-gapless json cal s key row n usable clean v found (ground arith) in
        subst (AnswerNumbered n) (sym run) numbered
  ]

  replay_after-Numbered :
      (s : ChatStateStore) (key : Text) (n : ℕ)
      → IsValid s.db
      → AnswerNumbered n (replay_after json cal s key n none)
  unfolding replay_after get_chat replay_rows
  replay_after-Numbered s key n v = elim (Bool-cases (clean_id key == [])) [
    | inl empty ↦ rw empty tt
    | inr id ↦ elim (Bool-cases (is_usable s)) [
      | inl usable ↦ elim (Option-cases (Dict.get (clean_id key) s.db.chats)) [
        | inl miss ↦ rw id (rw (clean_id-clean_id key, id, usable) (rw miss tt))
        | inr (row, found) ↦ row-Numbered s key n row usable (not_nil_of (clean_id key) id) v found
      ]
      | inr shut ↦ rw id (rw (clean_id-clean_id key, id, shut) tt)
    ]
  ]

  -- what is left to deliver continues the cursor
  abbrev PhaseNumbered : ℕ → Phase V → Type 0
  PhaseNumbered n (draining es version) = Numbered (suc n) es
  PhaseNumbered n starting = Unit
  PhaseNumbered n opening = Unit
  PhaseNumbered n looping = Unit
  PhaseNumbered n (reading version) = Unit
  PhaseNumbered n (checking version) = Unit
  PhaseNumbered n waiting = Unit
  PhaseNumbered n finished = Unit
  PhaseNumbered n (failed e) = Unit

  abbrev pub yields : Option (RetainedEvent V) → List (RetainedEvent V)
  yields none = []
  yields (some e) = e ∷ []

  module _ (live_bytes : Db → ℕ) (config : ChatStateConfig) (key : Text) (after : ℕ)
      (reject : Bool) where
    -- A tailer that has been started on a store some calls after it was new, in any interleaving
    -- with more calls, which may change its log in any way; and the events that it has yielded.
    pub data Tailing
        : ChatStateStore → ChatStateLog → Tailer V → List (RetainedEvent V) → Type 0 where
      starts :
          {s : ChatStateStore} {log : ChatStateLog}
          → Reach json cal live_bytes (new_store config) s
          → Tailing s log (tail_after key after reject) []
      others_act :
          {s u : ChatStateStore} {log log' : ChatStateLog} {t : Tailer V}
          {out : List (RetainedEvent V)}
          → Tailing s log t out
          → Step json cal live_bytes s u
          → Tailing u log' t out
      tailer_acts :
          {s : ChatStateStore} {log : ChatStateLog} {t : Tailer V} {out : List (RetainedEvent V)}
          → Tailing s log t out
          → Tailing s
              (tail_step json cal s log t).log
              (tail_step json cal s log t).tailer
              (out ++ yields (tail_step json cal s log t).yielded)

    record Invariant (s : ChatStateStore) (t : Tailer V) (out : List (RetainedEvent V))
        : Type 0 where
      reached : Reach json cal live_bytes (new_store config) s
      out_numbered : Numbered (suc after) out
      at_end : t.cursor ≡ after + length out
      phase : PhaseNumbered t.cursor t.phase

    -- the steps that yield nothing
    quiet :
        (s : ChatStateStore) (t : Tailer V) (phase : Phase V) (out : List (RetainedEvent V))
        → Invariant s t out
        → PhaseNumbered t.cursor phase
        → Invariant s (record t { phase = phase }) (out ++ [])
    quiet s t phase out i h = record {
      reached = i.reached;
      out_numbered = subst (Numbered (suc after)) (sym (append-nil out)) i.out_numbered;
      at_end = rw (append-nil out) i.at_end;
      phase = h;
    }

    PhaseNumbered-if :
        (n : ℕ) (b : Bool) (p q : Phase V)
        → PhaseNumbered n p
        → PhaseNumbered n q
        → PhaseNumbered n (if b then p else q)
    PhaseNumbered-if n true p q hp hq = hp
    PhaseNumbered-if n false p q hp hq = hq

    module _ (s : ChatStateStore) (log : ChatStateLog) (t : Tailer V) (out : List (RetainedEvent V))
        (i : Invariant s t out) where
      opened-Invariant :
          (a b : Answer ℕ)
          → Invariant s (opened log t a b).tailer (out ++ yields (opened log t a b).yielded)
      opened-Invariant (raised x) b = quiet s t (failed x) out i tt
      opened-Invariant (ok latest) (raised x) = quiet s t (failed x) out i tt
      opened-Invariant (ok latest) (ok floor) = elim (Bool-cases (ltb latest t.cursor)) [
        | inl ahead ↦ rw ahead (quiet s t (failed (resume_expired floor latest)) out i tt)
        | inr level ↦ rw level (quiet s t looping out i tt)
      ]

      replayed-Invariant :
          (version : ℕ) (a : Answer (List (RetainedEvent V)))
          → AnswerNumbered t.cursor a
          → Invariant s
              (replayed log t version a).tailer
              (out ++ yields (replayed log t version a).yielded)
      replayed-Invariant version (raised x) h = quiet s t (failed x) out i tt
      replayed-Invariant version (ok events) h = quiet s t (draining events version) out i h

      checked-Invariant :
          (version : ℕ) (a : Answer ℕ)
          → Invariant s
              (checked log t version a).tailer
              (out ++ yields (checked log t version a).yielded)
      checked-Invariant version (raised x) = quiet s t (failed x) out i tt
      checked-Invariant version (ok latest) =
          elim (Bool-cases (log.closed && leb latest t.cursor)) [
            | inl done ↦ rw done (quiet s t finished out i tt)
            | inr more ↦ rw more (
                quiet s t (if log.version == version then waiting else looping) out i
                  (PhaseNumbered-if t.cursor (log.version == version) waiting looping tt tt))
          ]

      drained-Invariant :
          (x : RetainedEvent V) (es : List (RetainedEvent V)) (version : ℕ)
          → PhaseNumbered t.cursor (draining (x ∷ es) version)
          → Invariant s (record t { cursor = x.seq; phase = draining es version }) (out ++ x ∷ [])
      drained-Invariant x es version h = record {
        reached = i.reached;
        out_numbered =
            Numbered-snoc (suc after) out x i.out_numbered (omega (arith, h.0, i.at_end));
        at_end = omega (arith, h.0, i.at_end, length-append out (x ∷ []));
        phase = subst (λ m. Numbered (suc m) es) (sym h.0) h.1;
      }

    step-Invariant :
        (s : ChatStateStore) (log : ChatStateLog) (t : Tailer V) (out : List (RetainedEvent V))
        (phase : Phase V)
        → t.phase ≡ phase
        → Invariant s t out
        → Invariant s
            (tail_step json cal s log t).tailer
            (out ++ yields (tail_step json cal s log t).yielded)
    unfolding tail_step
    step-Invariant s log t out starting e i = rw e (
        quiet s t (if t.reject_future_cursor then opening else looping) out i
          (PhaseNumbered-if t.cursor t.reject_future_cursor opening looping tt tt))
    step-Invariant s log t out opening e i =
        rw e (opened-Invariant s log t out i (latest_seq s t.key) (floor_seq s t.key))
    step-Invariant s log t out looping e i = rw e (quiet s t (reading log.version) out i tt)
    step-Invariant s log t out (reading version) e i = rw e (
        replayed-Invariant s log t out i version (replay_after json cal s t.key t.cursor none)
          (replay_after-Numbered s t.key t.cursor (Reach-IsValid json cal live_bytes i.reached)))
    step-Invariant s log t out (draining [] version) e i =
        rw e (quiet s t (checking version) out i tt)
    step-Invariant s log t out (draining (x ∷ es) version) e i =
        rw e
          (drained-Invariant s log t out i x es version (subst (PhaseNumbered t.cursor) e i.phase))
    step-Invariant s log t out (checking version) e i =
        rw e (checked-Invariant s log t out i version (latest_seq s t.key))
    step-Invariant s log t out waiting e i = rw e (
        quiet s t (if log.progressed then looping else waiting) out i
          (PhaseNumbered-if t.cursor log.progressed looping waiting tt tt))
    step-Invariant s log t out finished e i = rw e (quiet s t finished out i tt)
    step-Invariant s log t out (failed x) e i = rw e (quiet s t (failed x) out i tt)

    Tailing-Invariant :
        {s : ChatStateStore} {log : ChatStateLog} {t : Tailer V} {out : List (RetainedEvent V)}
        → Tailing s log t out
        → Invariant s t out
    Tailing-Invariant (starts r) = record {
      reached = r;
      out_numbered = tt;
      at_end = omega arith;
      phase = tt;
    }
    Tailing-Invariant (others_act r st) =
        let i = Tailing-Invariant r in
        record {
          reached = next i.reached st;
          out_numbered = i.out_numbered;
          at_end = i.at_end;
          phase = i.phase;
        }
    Tailing-Invariant (tailer_acts {s} {log} {t} {out} r) =
        step-Invariant s log t out t.phase refl (Tailing-Invariant r)

    -- Whatever the rest of the program does to the store and to the log in the meantime, sweeps and drops
    -- included, a subscriber gets the events with the numbers behind its cursor in order, none left out and
    -- none twice, and its cursor is the number of the last one.
    pub Tailing-Numbered :
        {s : ChatStateStore} {log : ChatStateLog} {t : Tailer V} {out : List (RetainedEvent V)}
        → Tailing s log t out
        → Numbered (suc after) out × (t.cursor ≡ after + length out)
    Tailing-Numbered r = let i = Tailing-Invariant r in (i.out_numbered, i.at_end)
