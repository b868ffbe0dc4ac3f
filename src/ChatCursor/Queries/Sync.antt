-- ===== src/ChatCursor/Queries/Sync.antt =====
-- A client that asks `handle_snapshot` of src/hermes_vylen_gateway/chat_cursor.py for page after page, each
-- time from the cursor of the last answer, for as long as the answer says that there are more.
use hermes_vylen_gateway.Prelude.{
  ℕ, zero, suc, ◌+◌, ◌≤◌, ◌<◌, ◌≡◌, ◌≢◌, refl, sym, ap, ◌∙◌, inl, inr, true, false, List, [], ◌∷◌,
  ◌++◌, map, Option, none, some, arith, ltb, length, Bool-cases, if◌then◌else◌, append-nil,
}
use hermes_vylen_gateway.Prelude.Dict
use hermes_vylen_gateway.Prelude.Text.{Text, text_eq}
use hermes_vylen_gateway.ChatStore.Tables.{ChatRecord}
use hermes_vylen_gateway.ChatStore.Texts.{Json, clean_id}
use hermes_vylen_gateway.ChatStore.Store.{Calendar, ChatStateStore, RetainedEvent, ok, is_usable}
use hermes_vylen_gateway.ChatStore.Reads.{ChatSnapshotPage, snapshot}
use hermes_vylen_gateway.ChatStore.Valid.{IsValid}
use hermes_vylen_gateway.ChatCursor.Frames.{
  Request, Frame, chat_snapshot_response, SnapshotResponse, SnapshotEvent, parse_limit,
  event_to_snapshot_response, whole, chat_event, chat_resume_expired, chat_list_response,
  chat_list_error, chat_snapshot_error, chat_snapshot_expired, push_frame,
}
use hermes_vylen_gateway.ChatCursor.Queries.{handle_snapshot, empty_response, max_integer}
use hermes_vylen_gateway.ChatCursor.Queries.Packing.{Fits, grow}
use hermes_vylen_gateway.ChatCursor.Queries.Pages.{
  after_cursor, show, IsPage, Answers, answers_page, answers_too_large, handle_snapshot-Answers,
}

-- What the client ends with: all events, an error, or nothing yet.
pub data Synced (V : Type 0) : Type 0 where
  complete : List (SnapshotEvent V) → Synced V
  failed : Synced V
  unfinished : Synced V

module _ {V : Type 0} where
  abbrev prepend : List (SnapshotEvent V) → Synced V → Synced V
  prepend xs (complete ys) = complete (xs ++ ys)
  prepend xs failed = failed
  prepend xs unfinished = unfinished

  abbrev continue : (ℕ → Synced V) → Option (Frame V) → Synced V
  continue rest (some (chat_snapshot_response q)) =
      if q.has_more then prepend q.events (rest q.next_after_seq) else complete q.events
  continue rest none = failed
  continue rest (some (chat_event a b x)) = failed
  continue rest (some (chat_resume_expired a b x m f l)) = failed
  continue rest (some (chat_list_response a b x)) = failed
  continue rest (some (chat_list_error a b x m)) = failed
  continue rest (some (chat_snapshot_error a b x m)) = failed
  continue rest (some (chat_snapshot_expired a b f l)) = failed
  continue rest (some (push_frame v)) = failed

length_nil {ℓ} : {A : Type ℓ} (xs : List A) → length xs ≡ 0 → xs ≡ []
length_nil [] h = refl
length_nil (x ∷ xs) h = absurd (omega arith)

nil_right {ℓ κ} :
    {A : Type ℓ} {B : Type κ} (f : A → B) (ys : List B) (xs : List A)
    → ys ++ map f xs ≡ []
    → length xs ≡ 0
nil_right f [] [] h = refl
nil_right f [] (x ∷ xs) h = absurd (cc)
nil_right f (y ∷ ys) xs h = absurd (cc)

module _ {V : Type 0} (json : Json V) (cal : Calendar) (iso_time : ℕ → Text)
    (frame_json_bytes : Frame V → ℕ) (unavailable : Text × Text) (s : ChatStateStore)
    (frame : Request) where
  abbrev asking : ℕ → Request
  asking n = record frame { after_seq = whole n }

  -- the client, for at most so many requests, from a cursor
  unfoldable pub sync : ℕ → ℕ → Synced V
  unfolding handle_snapshot
  sync zero n = unfinished
  sync (suc fuel) n =
      continue (sync fuel)
        (handle_snapshot json cal iso_time frame_json_bytes unavailable false (some s) (asking n))

  module _ (row : ChatRecord) (usable : is_usable s ≡ true) (asked : clean_id frame.request_id ≢ [])
      (clean : clean_id frame.chat_id ≢ []) (v : IsValid s.db)
      (found : Dict.get (clean_id frame.chat_id) s.db.chats ≡ some row) where
    abbrev left : ℕ → List (RetainedEvent V)
    left n =
        after_cursor json cal iso_time frame_json_bytes unavailable s frame row usable asked clean v
          found n

    abbrev shows : List (RetainedEvent V) → List (SnapshotEvent V)
    shows =
        show json cal iso_time frame_json_bytes unavailable s frame row usable asked clean v found

    abbrev Page : ℕ → SnapshotResponse V → Type 0
    Page n =
        IsPage json cal iso_time frame_json_bytes unavailable s (asking n) row usable asked clean v
          found n

    continue-Page :
        (rest : ℕ → Synced V) (n : ℕ) (q : SnapshotResponse V)
        → Page n q
        → ((m : ℕ)
            → n ≤ m
            → length (left m) < length (left n)
            → m + length (left m) ≡ n + length (left n)
            → rest m ≡ complete (shows (left m)))
        → continue rest (some (chat_snapshot_response q)) ≡ complete (shows (left n))
    continue-Page rest n q p ih = elim (Bool-cases (ltb 0 (length (left q.next_after_seq)))) [
      | inl more ↦ elim p.progress [
        | inl nil ↦
            let none_left : length (left q.next_after_seq) ≡ 0 =
              nil_right (event_to_snapshot_response iso_time) q.events (left q.next_after_seq)
                (p.joins ∙ ap shows nil) in
            absurd (ground arith)
        | inr (forward, less, last) ↦
            rw (p.more, more) (rw (ih q.next_after_seq forward less last) (ap complete p.joins))
      ]
      | inr last ↦
          let none_left : left q.next_after_seq ≡ [] =
            length_nil (left q.next_after_seq) (ground arith) in
          rw (p.more, last)
            (ap complete (
              sym (append-nil q.events)
              ∙ ap (λ es. q.events ++ shows es) (sym none_left)
              ∙ p.joins))
    ]

    -- From every cursor, the first event that the store gives fits, alone, into the frame of the
    -- response to the request.
    abbrev FirstFits : Type 0
    FirstFits =
        (n : ℕ) (p : ChatSnapshotPage V) (e : RetainedEvent V) (es : List (RetainedEvent V))
        → snapshot json cal s (clean_id frame.chat_id) n (parse_limit frame.limit 500 1000) ≡ ok p
        → p.events ≡ e ∷ es
        → Fits json cal iso_time frame_json_bytes unavailable (
            grow json cal iso_time frame_json_bytes unavailable
              (empty_response json cal iso_time frame_json_bytes unavailable
                (clean_id frame.request_id) (clean_id frame.chat_id) p)
              p.has_more e es)

    continue-Answers :
        (rest : ℕ → Synced V) (n : ℕ) (level : row.floor_seq ≤ n) (f : Frame V)
        → FirstFits
        → Answers json cal iso_time frame_json_bytes unavailable s
            (asking n)
            row
            usable
            asked
            clean
            v
            found
            level
            f
        → ((m : ℕ)
            → n ≤ m
            → length (left m) < length (left n)
            → m + length (left m) ≡ n + length (left n)
            → rest m ≡ complete (shows (left m)))
        → continue rest (some f) ≡ complete (shows (left n))
    continue-Answers rest n level f small (answers_page q p) ih = continue-Page rest n q p ih
    continue-Answers rest n level f small (answers_too_large p e es run first large) ih =
        let fit = small n p e es run first in absurd (omega arith)

    -- A client that follows the cursors from one that is not below the floor gets every event
    -- behind it, once each and in order, however the answers were cut into pages; one request more
    -- than there are events is always enough. From every cursor, the first event that the store
    -- gives must fit, alone, into the frame of this response, and the number of the last event
    -- must have at most 63 bits.
    pub sync-complete :
        (fuel n : ℕ)
        → row.floor_seq ≤ n
        → n + length (left n) < max_integer
        → FirstFits
        → length (left n) < fuel
        → sync fuel n ≡ complete (shows (left n))
    unfolding sync
    sync-complete zero n level bits small h = absurd (omega arith)
    sync-complete (suc fuel) n level bits small h =
        let (f, run, answers) =
          handle_snapshot-Answers json cal iso_time frame_json_bytes unavailable s (asking n) row
            usable asked clean v found level (omega arith) in
        rw run (
          continue-Answers (sync fuel) n level f small answers (λ m forward less last.
            sync-complete fuel m (omega arith) (omega arith) small (omega arith)))
