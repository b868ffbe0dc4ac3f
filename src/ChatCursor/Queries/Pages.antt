-- ===== src/ChatCursor/Queries/Pages.antt =====
-- What a client gets that asks `handle_snapshot` of src/hermes_vylen_gateway/chat_cursor.py for page
-- after page.
use hermes_vylen_gateway.Prelude.{
  ℕ, zero, suc, ◌+◌, ◌≤◌, ◌<◌, ◌≡◌, ◌≢◌, refl, sym, ap, ◌∙◌, inl, inr, ◌⊎◌, true, false, List, [],
  ◌∷◌, ◌++◌, map, some, arith, ltb, leb, Option-cases, if◌then◌else◌, length, append_assoc, subst,
  take, drop-length-append, length-append,
}
use hermes_vylen_gateway.Prelude.Dict
use hermes_vylen_gateway.Prelude.Text.{Text, text_eq}
use hermes_vylen_gateway.ChatStore.Tables.{ChatRecord}
use hermes_vylen_gateway.ChatStore.Texts.{Json, clean_id}
use hermes_vylen_gateway.ChatStore.Ids.{clean_id-clean_id, beq_nil}
use hermes_vylen_gateway.ChatStore.Store.{Calendar, ChatStateStore, RetainedEvent, ok, is_usable}
use hermes_vylen_gateway.ChatStore.Reads.{last_seq_or, ChatSnapshotPage, snapshot, page_limit}
use hermes_vylen_gateway.ChatStore.Valid.{IsValid}
use hermes_vylen_gateway.ChatStore.Replay.{Numbered, behind}
use hermes_vylen_gateway.ChatStore.Snapshot.{all-Numbered, behind-drop, snapshot-page}
use hermes_vylen_gateway.ChatCursor.Frames.{
  Request, Frame, chat_snapshot_response, SnapshotResponse, SnapshotEvent,
  event_to_snapshot_response, parse_seq, parse_limit,
}
use hermes_vylen_gateway.ChatCursor.Queries.{
  handle_snapshot, snapshot_frame, target_bytes, Packed, too_large, empty_response, pack,
  packed_frame, overflows, max_integer,
}
use hermes_vylen_gateway.ChatCursor.Queries.Packing.{
  shown, Fits, Selects, Outcome, refuses, picks, FirstTooLarge-cons, grow, pack-Outcome,
}

map-append {ℓ κ} :
    {A : Type ℓ} {B : Type κ} (f : A → B) (xs ys : List A) → map f (xs ++ ys) ≡ map f xs ++ map f ys
map-append f [] ys = refl
map-append f (x ∷ xs) ys = ap (◌∷◌ (f x)) (map-append f xs ys)

take-nil {ℓ} : {A : Type ℓ} (n : ℕ) (xs : List A) → 0 < n → take n xs ≡ [] → xs ≡ []
take-nil zero xs h e = absurd (omega arith)
take-nil (suc n) [] h e = refl
take-nil (suc n) (x ∷ xs) h e = absurd (cc)

last_seq-prefix :
    {V : Type 0} (n : ℕ) (taken rest : List (RetainedEvent V))
    → Numbered (suc n) (taken ++ rest)
    → last_seq_or (λ e. e.seq) n taken ≡ n + length taken
last_seq-prefix n [] rest h = omega arith
last_seq-prefix n (e ∷ taken) rest h =
    last_seq-prefix e.seq taken rest (subst (λ m. Numbered (suc m) (taken ++ rest)) (sym h.0) h.1)
    ∙ omega (arith, h.0)

module _ {V : Type 0} (json : Json V) (cal : Calendar) (iso_time : ℕ → Text)
    (frame_json_bytes : Frame V → ℕ) (unavailable : Text × Text) (s : ChatStateStore)
    (frame : Request) (row : ChatRecord) (usable : is_usable s ≡ true)
    (asked : clean_id frame.request_id ≢ []) (clean : clean_id frame.chat_id ≢ [])
    (v : IsValid s.db) (found : Dict.get (clean_id frame.chat_id) s.db.chats ≡ some row) where
  abbrev c : Text
  c = clean_id frame.chat_id

  -- the events of the chat behind a number
  abbrev pub after_cursor : ℕ → List (RetainedEvent V)
  after_cursor n = behind json cal c n s.db

  abbrev pub show : List (RetainedEvent V) → List (SnapshotEvent V)
  show = shown json cal iso_time frame_json_bytes unavailable

  -- The response holds the first events behind the cursor, and says what there is behind them.
  pub record IsPage (n : ℕ) (q : SnapshotResponse V) : Type 0 where
    pub joins : q.events ++ show (after_cursor q.next_after_seq) ≡ show (after_cursor n)
    pub more : q.has_more ≡ ltb 0 (length (after_cursor q.next_after_seq))
    pub progress :
        (after_cursor n ≡ [])
        ⊎ ((n ≤ q.next_after_seq)
            × (length (after_cursor q.next_after_seq) < length (after_cursor n))
            × (q.next_after_seq + length (after_cursor q.next_after_seq)
                ≡ n + length (after_cursor n)))
    pub bytes : (q.events ≡ []) ⊎ Fits json cal iso_time frame_json_bytes unavailable q

  module _ (level : row.floor_seq ≤ parse_seq frame.after_seq) where
    abbrev after : ℕ
    after = parse_seq frame.after_seq

    abbrev all : List (RetainedEvent V)
    all = behind json cal c after s.db

    last_seq-taken :
        (taken left : List (RetainedEvent V))
        → taken ++ left ≡ all
        → last_seq_or (λ e. e.seq) after taken ≡ after + length taken
    last_seq-taken taken left e = last_seq-prefix after taken left (
        subst (Numbered (suc after)) (sym e)
          (all-Numbered json cal s frame.chat_id row after usable clean v found level))

    shorter :
        (taken left : List (RetainedEvent V)) (pnext : ℕ)
        → taken ++ left ≡ all
        → (all ≡ []) ⊎ (0 < length taken)
        → (all ≡ [])
          ⊎ ((after ≤ last_seq_or (λ e. e.seq) pnext taken)
              × (length left < length all)
              × (last_seq_or (λ e. e.seq) pnext taken + length left ≡ after + length all))
    shorter taken left pnext e (inl nil) = inl nil
    shorter [] left pnext e (inr h) = absurd (omega arith)
    shorter (t ∷ taken) left pnext e (inr h) = inr (
      omega (arith, last_seq-taken (t ∷ taken) left e),
      rw (sym e) (omega (arith, length-append (t ∷ taken) left)),
      rw (sym e) (omega (arith, length-append (t ∷ taken) left, last_seq-taken (t ∷ taken) left e)),
    )

    behind-next :
        (taken left rest : List (RetainedEvent V)) (pnext : ℕ)
        → taken ++ (left ++ rest) ≡ all
        → behind json cal c pnext s.db ≡ rest
        → (taken ++ left ≡ []) ⊎ (0 < length taken)
        → behind json cal c (last_seq_or (λ e. e.seq) pnext taken) s.db ≡ left ++ rest
    behind-next [] left rest pnext e b (inl none_left) = rw none_left b
    behind-next [] left rest pnext e b (inr h) = absurd (omega arith)
    behind-next (t ∷ taken) left rest pnext e b n =
        ap (λ k. behind json cal c k s.db) (last_seq-taken (t ∷ taken) (left ++ rest) e)
        ∙ behind-drop json cal s frame.chat_id row after usable clean v found level
            (length (t ∷ taken))
        ∙ rw (sym e) (drop-length-append (t ∷ taken) (left ++ rest))

    -- a selection of a page is a page
    picked-IsPage :
        (p : ChatSnapshotPage V) (q : SnapshotResponse V)
        (e : p.events ++ behind json cal c p.next_after_seq s.db ≡ behind json cal c after s.db)
        (m : p.has_more ≡ ltb 0 (length (behind json cal c p.next_after_seq s.db)))
        (t : Selects json cal iso_time frame_json_bytes unavailable p.has_more p.events
          (empty_response json cal iso_time frame_json_bytes unavailable
            (clean_id frame.request_id)
            c
            p)
          q)
        → (p.events ≡ []) ⊎ (0 < length t.taken)
        → (p.events ≡ [] → all ≡ [])
        → IsPage after q
    picked-IsPage p q e m t n g =
        let rest = behind json cal c p.next_after_seq s.db in
        let whole_split : t.taken ++ (t.left ++ rest) ≡ all =
          sym (append_assoc t.taken t.left rest) ∙ rw (sym t.split) e in
        let n' : (t.taken ++ t.left ≡ []) ⊎ (0 < length t.taken) = rw (sym t.split) n in
        let next : behind json cal c q.next_after_seq s.db ≡ t.left ++ rest =
          rw t.last (behind-next t.taken t.left rest p.next_after_seq whole_split refl n') in
        record {
          joins =
              rw (t.events, next)
                (sym (map-append (event_to_snapshot_response iso_time) t.taken (t.left ++ rest))
                  ∙ ap show whole_split);
          more = rw next (ground (arith, t.rest, m, length-append t.left rest));
          progress =
              rw (next, t.last)
                (shorter t.taken (t.left ++ rest) p.next_after_seq whole_split
                  (elim n [ inl nil ↦ inl (g nil) | inr h ↦ inr h ]));
          bytes = t.bytes;
        }

    abbrev refusal : Frame V
    refusal =
        packed_frame json cal iso_time frame_json_bytes unavailable (clean_id frame.request_id) c
          too_large

    abbrev limit : ℕ
    limit = parse_limit frame.limit 500 1000

    -- the response to the request, of a page of the store, before it has events
    abbrev start : ChatSnapshotPage V → SnapshotResponse V
    start p =
        empty_response json cal iso_time frame_json_bytes unavailable (clean_id frame.request_id) c
          p

    -- An answer to the request: a page, or a refusal since the first event of the store's page
    -- makes the frame of this response too large, on its own.
    pub data Answers : Frame V → Type 0 where
      answers_page : (q : SnapshotResponse V) → IsPage after q → Answers (chat_snapshot_response q)
      answers_too_large :
          (p : ChatSnapshotPage V) (e : RetainedEvent V) (es : List (RetainedEvent V))
          → snapshot json cal s c after limit ≡ ok p
          → p.events ≡ e ∷ es
          → target_bytes
            < frame_json_bytes (
                chat_snapshot_response
                  (grow json cal iso_time frame_json_bytes unavailable (start p) p.has_more e es))
          → Answers refusal

    module _ (p : ChatSnapshotPage V) (run : snapshot json cal s c after limit ≡ ok p)
        (e : p.events ++ behind json cal c p.next_after_seq s.db ≡ behind json cal c after s.db)
        (m : p.has_more ≡ ltb 0 (length (behind json cal c p.next_after_seq s.db)))
        (g : p.events ≡ [] → all ≡ []) where
      packing-Answers :
          (k : Packed V)
          → Outcome json cal iso_time frame_json_bytes unavailable p.has_more p.events (start p) k
          → Answers (
              packed_frame json cal iso_time frame_json_bytes unavailable
                (clean_id frame.request_id)
                c
                k)
      packing-Answers k (picks q t n) = answers_page q (picked-IsPage p q e m t n g)
      packing-Answers k (refuses h) =
          let (x, later, first, large) =
            FirstTooLarge-cons json cal iso_time frame_json_bytes unavailable p.has_more p.events
              (start p) h in
          answers_too_large p x later run first large

      frame-Answers : Answers (
          snapshot_frame json cal iso_time frame_json_bytes unavailable
            (clean_id frame.request_id)
            c
            (ok p))
      unfolding snapshot_frame
      frame-Answers =
          packing-Answers
            (pack json cal iso_time frame_json_bytes unavailable (start p) p.has_more p.events)
            (pack-Outcome json cal iso_time frame_json_bytes unavailable (start p) p.has_more
              p.events refl refl)

    store-page :
        (p : ChatSnapshotPage V) × (snapshot json cal s c after limit ≡ ok p)
        × (p.events ≡ take (page_limit limit) all)
        × (p.events ++ behind json cal c p.next_after_seq s.db ≡ all)
        × (p.has_more ≡ ltb 0 (length (behind json cal c p.next_after_seq s.db)))
    store-page =
        let again = clean_id-clean_id frame.chat_id in
        subst
          (λ d.
            (p : ChatSnapshotPage V) × (snapshot json cal s c after limit ≡ ok p)
            × (p.events ≡ take (page_limit limit) (behind json cal d after s.db))
            × (p.events ++ behind json cal d p.next_after_seq s.db ≡ behind json cal d after s.db)
            × (p.has_more ≡ ltb 0 (length (behind json cal d p.next_after_seq s.db))))
          again
          (snapshot-page json cal s c row after usable (rw again clean) v (rw again found) level
            limit)

    no-overflow :
        (x y : Frame V) (p : ChatSnapshotPage V)
        → leb max_integer after ≡ false
        → some
            (if overflows json cal iso_time frame_json_bytes unavailable after (ok p) then x else y)
          ≡ some y
    no-overflow x y p fine = elim (Option-cases p.chat) [
      | inl none_there ↦ rw none_there refl
      | inr (r, there) ↦ rw there (rw fine refl)
    ]

    pub handle_snapshot-Answers :
        after < max_integer
        → (f : Frame V) × (handle_snapshot json cal iso_time frame_json_bytes unavailable false
              (some s)
              frame
            ≡ some f)
          × Answers f
    unfolding handle_snapshot
    handle_snapshot-Answers small =
        let (p, run, first, joins, more) = store-page in
        let fine : leb max_integer after ≡ false = ground arith in
        let frame_of : Frame V =
          snapshot_frame json cal iso_time frame_json_bytes unavailable (clean_id frame.request_id)
            c (ok p) in
        let none_left : p.events ≡ [] → all ≡ [] =
          λ h. take-nil (page_limit limit) all (omega arith) (sym first ∙ h) in
        (
          frame_of,
          rw (beq_nil (clean_id frame.request_id) asked)
              (rw (beq_nil c clean) (rw run (no-overflow _ frame_of p fine))),
          frame-Answers p run joins more none_left,
        )
