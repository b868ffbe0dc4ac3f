-- ===== src/ChatCursor/Queries/Packing.antt =====
-- What the loop of `handle_snapshot` in src/hermes_vylen_gateway/chat_cursor.py picks.
use hermes_vylen_gateway.Prelude.{
  ℕ, ◌≤◌, ◌<◌, ◌≡◌, refl, sym, ap, ◌∙◌, inl, inr, ◌⊎◌, Bool, true, List, [], ◌∷◌, ◌++◌, map, arith,
  ltb, leb, ◌||◌, length, Bool-cases, append-nil, append_assoc, subst,
}
use hermes_vylen_gateway.ChatStore.Store.{RetainedEvent}
use hermes_vylen_gateway.ChatStore.Reads.{last_seq_or}
use hermes_vylen_gateway.ChatStore.Texts.{Json}
use hermes_vylen_gateway.ChatStore.Store.{Calendar}
use hermes_vylen_gateway.Prelude.Text.{Text}
use hermes_vylen_gateway.ChatCursor.Frames.{
  Frame, chat_snapshot_response, SnapshotResponse, SnapshotEvent, event_to_snapshot_response,
}
use hermes_vylen_gateway.ChatCursor.Queries.{
  target_bytes, Packed, packed, too_large, with_event, without_last, pack,
}

module _ {V : Type 0} (json : Json V) (cal : Calendar) (iso_time : ℕ → Text)
    (frame_json_bytes : Frame V → ℕ) (unavailable : Text × Text) where
  abbrev pub shown : List (RetainedEvent V) → List (SnapshotEvent V)
  shown events = map (event_to_snapshot_response iso_time) events

  abbrev pub Fits : SnapshotResponse V → Type 0
  Fits r = frame_json_bytes (chat_snapshot_response r) ≤ target_bytes

  -- the response with one more event
  abbrev pub grow :
      SnapshotResponse V → Bool → RetainedEvent V → List (RetainedEvent V) → SnapshotResponse V
  grow = with_event json cal iso_time frame_json_bytes unavailable

  -- The response q, made of a page: its events, in front of those that are left.
  pub record Selects (more : Bool) (es : List (RetainedEvent V)) (r q : SnapshotResponse V)
      : Type 0 where
    pub taken : List (RetainedEvent V)
    pub left : List (RetainedEvent V)
    pub split : es ≡ taken ++ left
    pub events : q.events ≡ r.events ++ shown taken
    pub last : q.next_after_seq ≡ last_seq_or (λ e. e.seq) r.next_after_seq taken
    pub rest : q.has_more ≡ (more || ltb 0 (length left))
    pub bytes : (q.events ≡ []) ⊎ Fits q
    pub chat : (q.chat_id ≡ r.chat_id) × (q.deleted ≡ r.deleted)

  -- The first event alone makes a frame that is over the limit.
  abbrev pub FirstTooLarge : Bool → List (RetainedEvent V) → SnapshotResponse V → Type 0
  FirstTooLarge more [] r = ⊥
  FirstTooLarge more (e ∷ es) r =
      target_bytes < frame_json_bytes (chat_snapshot_response (grow r more e es))

  pub FirstTooLarge-cons :
      (more : Bool) (es : List (RetainedEvent V)) (r : SnapshotResponse V)
      → FirstTooLarge more es r
      → (e : RetainedEvent V) × (later : List (RetainedEvent V)) × (es ≡ e ∷ later)
        × (target_bytes < frame_json_bytes (chat_snapshot_response (grow r more e later)))
  FirstTooLarge-cons more [] r h = elim h [ ]
  FirstTooLarge-cons more (e ∷ es) r h = (e, es, refl, h)

  -- a response that has been measured
  record Measured (more : Bool) (es : List (RetainedEvent V)) (r : SnapshotResponse V)
      : Type 0 where
    some_event : SnapshotEvent V
    events : List (SnapshotEvent V)
    non_empty : r.events ≡ events ++ some_event ∷ []
    next : r.next_after_seq ≡ some_event.seq
    rest : r.has_more ≡ (more || ltb 0 (length es))
    small : Fits r

  Selects-cons :
      (more : Bool) (e : RetainedEvent V) (es : List (RetainedEvent V)) (r q : SnapshotResponse V)
      → Selects more es (grow r more e es) q
      → (t : Selects more (e ∷ es) r q) × (0 < length t.taken)
  Selects-cons more e es r q s = (
    record {
      taken = e ∷ s.taken;
      left = s.left;
      split = ap (◌∷◌ e) s.split;
      events =
          s.events
          ∙ append_assoc r.events (event_to_snapshot_response iso_time e ∷ []) (shown s.taken);
      last = s.last;
      rest = s.rest;
      bytes = s.bytes;
      chat = s.chat;
    },
    omega arith,
  )

  last_seq-snoc :
      (n : ℕ) (xs : List (SnapshotEvent V)) (x : SnapshotEvent V)
      → last_seq_or (λ y. y.seq) n (xs ++ x ∷ []) ≡ x.seq
  last_seq-snoc n [] x = refl
  last_seq-snoc n (y ∷ xs) x = last_seq-snoc y.seq xs x

  abbrev ended : SnapshotResponse V → ℕ → SnapshotResponse V
  ended r n = record r { next_after_seq = n; has_more = true }

  without_last-snoc :
      (r : SnapshotResponse V) (xs : List (SnapshotEvent V)) (x : SnapshotEvent V)
      → without_last json cal iso_time frame_json_bytes unavailable r (xs ++ x ∷ [])
        ≡ packed (ended r x.seq)
  without_last-snoc r [] x = refl
  without_last-snoc r (y ∷ xs) x = ap (λ n. packed (ended r n)) (last_seq-snoc y.seq xs x)

  ended-Fits :
      (more : Bool) (e : RetainedEvent V) (es : List (RetainedEvent V)) (r : SnapshotResponse V)
      (m : Measured more (e ∷ es) r)
      → Fits (ended r m.some_event.seq)
  ended-Fits more e es r m =
      let later : r.has_more ≡ true = ground (arith, m.rest) in
      subst (λ n. Fits (ended r n)) m.next
        (subst (λ b. Fits (record r { has_more = b })) later m.small)

  grow-Measured :
      (more : Bool) (e : RetainedEvent V) (es : List (RetainedEvent V)) (r : SnapshotResponse V)
      → Fits (grow r more e es)
      → Measured more es (grow r more e es)
  grow-Measured more e es r h = record {
    some_event = event_to_snapshot_response iso_time e;
    events = r.events;
    non_empty = refl;
    next = refl;
    rest = refl;
    small = h;
  }

  pack-Measured :
      (r : SnapshotResponse V) (more : Bool) (es : List (RetainedEvent V))
      → Measured more es r
      → (q : SnapshotResponse V) × (pack json cal iso_time frame_json_bytes unavailable r more es
          ≡ packed q)
        × Selects more es r q
  unfolding pack
  pack-Measured r more [] m = (
    r,
    refl,
    record {
      taken = [];
      left = [];
      split = refl;
      events = sym (append-nil r.events);
      last = refl;
      rest = m.rest;
      bytes = inr m.small;
      chat = (refl, refl);
    },
  )
  pack-Measured r more (e ∷ es) m =
      elim (Bool-cases
        (leb (frame_json_bytes (chat_snapshot_response (grow r more e es))) target_bytes)) [
          | inl small ↦
              let (q, run, s) =
                pack-Measured (grow r more e es) more es
                  (grow-Measured more e es r (ground arith)) in
              (q, rw small run, (Selects-cons more e es r q s).0)
          | inr large ↦ (
            ended r m.some_event.seq,
            rw large (
                ap (without_last json cal iso_time frame_json_bytes unavailable r) m.non_empty
                ∙ without_last-snoc r m.events m.some_event),
            record {
              taken = [];
              left = e ∷ es;
              split = refl;
              events = sym (append-nil r.events);
              last = sym m.next;
              rest = ground arith;
              bytes = inr (ended-Fits more e es r m);
              chat = (refl, refl);
            },
          )
        ]

  -- What the loop makes of a page: the refusal, or a response with at least one event if there is one.
  pub data Outcome (more : Bool) (es : List (RetainedEvent V)) (r : SnapshotResponse V)
      : Packed V → Type 0 where
    refuses : FirstTooLarge more es r → Outcome more es r too_large
    picks :
        (q : SnapshotResponse V) (s : Selects more es r q)
        → (es ≡ []) ⊎ (0 < length s.taken)
        → Outcome more es r (packed q)

  pub pack-Outcome :
      (r : SnapshotResponse V) (more : Bool) (es : List (RetainedEvent V))
      → r.events ≡ []
      → r.has_more ≡ more
      → Outcome more es r (pack json cal iso_time frame_json_bytes unavailable r more es)
  unfolding pack
  pack-Outcome r more [] h k =
      picks r
        (record {
          taken = [];
          left = [];
          split = refl;
          events = sym (append-nil r.events);
          last = refl;
          rest = ground (arith, k);
          bytes = inl h;
          chat = (refl, refl);
        })
        (inl refl)
  pack-Outcome r more (e ∷ es) h k =
      elim (Bool-cases
        (leb (frame_json_bytes (chat_snapshot_response (grow r more e es))) target_bytes)) [
          | inl small ↦
              let (q, run, s) =
                pack-Measured (grow r more e es) more es
                  (grow-Measured more e es r (ground arith)) in
              rw small
                (rw (run, pack) (let (t, n) = Selects-cons more e es r q s in picks q t (inr n)))
          | inr large ↦ rw large (rw h (refuses (ground arith)))
        ]
