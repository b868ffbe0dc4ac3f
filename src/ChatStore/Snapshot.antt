-- ===== src/ChatStore/Snapshot.antt =====
-- What `snapshot` of src/hermes_vylen_gateway/chat_store.py gives: pages that join up.
use hermes_vylen_gateway.Prelude.{
  ℕ, zero, suc, ◌+◌, ◌≤◌, ◌≡◌, ◌≢◌, refl, sym, ap, ◌∙◌, true, false, List, [], ◌∷◌, ◌++◌, map, some,
  arith, ltb, subst, length, take, drop, take-append-drop, length-take, length-drop,
}
use hermes_vylen_gateway.Prelude.Dict
use hermes_vylen_gateway.Prelude.Text.{Text, text_eq}
use native.Mathlib.Nat.{add-zero}
use native.Mathlib.Numerals.{add-one}
use hermes_vylen_gateway.ChatStore.Tables.{ChatRecord, select, events_of, is_after}
use hermes_vylen_gateway.ChatStore.Rows.{after-gapless, select-select, select-SeqFrom}
use hermes_vylen_gateway.ChatStore.Texts.{Json, clean_id}
use hermes_vylen_gateway.ChatStore.Ids.{clean_id-clean_id}
use hermes_vylen_gateway.ChatStore.Store.{Calendar, ChatStateStore, RetainedEvent, ok, is_usable}
use hermes_vylen_gateway.ChatStore.Reads.{
  event_from_row, replay_after, snapshot, page_of, page_limit, last_seq_or, ChatSnapshotPage,
}
use hermes_vylen_gateway.ChatStore.Valid.{IsValid}
use hermes_vylen_gateway.ChatStore.Replay.{
  Numbered, Numbered-map, behind, kept, get_chat-found, not_nil, replay_after-behind,
}

module _ {ℓ} {A : Type ℓ} where
  take-take-suc : (n : ℕ) (xs : List A) → take n (take (suc n) xs) ≡ take n xs
  take-take-suc zero xs = refl
  take-take-suc (suc n) [] = refl
  take-take-suc (suc n) (x ∷ xs) = ap (◌∷◌ x) (take-take-suc n xs)

  take-take : (n : ℕ) (xs : List A) → take n (take (n + 1) xs) ≡ take n xs
  take-take n xs = rw add-one (take-take-suc n xs)

  more_iff :
      (n : ℕ) (xs : List A)
      → ltb (length (take n (take (n + 1) xs))) (length (take (n + 1) xs))
        ≡ ltb 0 (length (drop n xs))
  more_iff n xs =
      rw (take-take n xs)
        (ground (arith, length-take n xs, length-take (n + 1) xs, length-drop n xs))

  drop-length-take : (n : ℕ) (xs : List A) → drop (length (take n xs)) xs ≡ drop n xs
  drop-length-take zero xs = refl
  drop-length-take (suc n) [] = refl
  drop-length-take (suc n) (x ∷ xs) = drop-length-take n xs

map-drop {ℓ κ} :
    {A : Type ℓ} {B : Type κ} (f : A → B) (n : ℕ) (xs : List A)
    → map f (drop n xs) ≡ drop n (map f xs)
map-drop f zero xs = refl
map-drop f (suc n) [] = refl
map-drop f (suc n) (x ∷ xs) = map-drop f n xs

last_seq-Numbered :
    {V : Type 0} (n k : ℕ) (es : List (RetainedEvent V))
    → Numbered (suc n) es
    → last_seq_or (λ e. e.seq) n (take k es) ≡ n + length (take k es)
last_seq-Numbered n zero es h = sym (add-zero n)
last_seq-Numbered n (suc k) [] h = sym (add-zero n)
last_seq-Numbered n (suc k) (e ∷ es) h =
    last_seq-Numbered e.seq k es (subst (λ m. Numbered (suc m) es) (sym h.0) h.1)
    ∙ omega (arith, h.0)

module _ {V : Type 0} (json : Json V) (cal : Calendar) (s : ChatStateStore) (chat_id : Text)
    (row : ChatRecord) (after : ℕ) (usable : is_usable s ≡ true) (clean : clean_id chat_id ≢ [])
    (v : IsValid s.db) (found : Dict.get (clean_id chat_id) s.db.chats ≡ some row)
    (level : row.floor_seq ≤ after) where
  abbrev c : Text
  c = clean_id chat_id

  abbrev all : List (RetainedEvent V)
  all = behind json cal c after s.db

  pub all-Numbered : Numbered (suc after) all
  all-Numbered =
      Numbered-map json cal (suc after) _
        (after-gapless (kept json cal s chat_id row after usable clean v found) after level).0

  pub behind-drop : (k : ℕ) → behind json cal c (after + k) s.db ≡ drop k all
  behind-drop k =
      let rows = select (is_after after) (events_of c s.db.chat_events) in
      let g = after-gapless (kept json cal s chat_id row after usable clean v found) after level in
      ap (map (event_from_row json cal)) (
        sym (
          select-select (is_after (after + k)) (is_after after) (events_of c s.db.chat_events)
            (λ e t. ground arith))
        ∙ select-SeqFrom after k (after + k) rows refl g.0)
      ∙ map-drop (event_from_row json cal) k rows

  module _ (limit : ℕ) where
    abbrev page : ChatSnapshotPage V
    page = page_of json cal row after limit (take (page_limit limit + 1) all)

    page-next : page.next_after_seq ≡ after + length page.events
    page-next =
        rw (take-take (page_limit limit) all)
          (last_seq-Numbered after (page_limit limit) all all-Numbered)

    page-rest : behind json cal c page.next_after_seq s.db ≡ drop (page_limit limit) all
    page-rest =
        ap (λ n. behind json cal c n s.db) page-next
        ∙ behind-drop (length page.events)
        ∙ rw (take-take (page_limit limit) all) (drop-length-take (page_limit limit) all)

    replay-page :
        replay_after json cal s c after (some (page_limit limit + 1))
        ≡ ok (take (page_limit limit + 1) all)
    replay-page =
        let again = clean_id-clean_id chat_id in
        let usual =
          replay_after-behind json cal s c row after usable (rw again clean) v (rw again found)
            (some (page_limit limit + 1)) level in
        subst
          (λ d.
            replay_after json cal s c after (some (page_limit limit + 1))
            ≡ ok (take (page_limit limit + 1) (behind json cal d after s.db)))
          again usual

    snapshot-eq : snapshot json cal s chat_id after limit ≡ ok page
    unfolding snapshot
    snapshot-eq =
        let ready : s.unavailable ≡ false = ground arith in
        rw (not_nil json cal s chat_id row after usable clean v found) (
          rw (get_chat-found json cal s chat_id row after usable clean v found, snapshot)
            (rw (replay-page, snapshot) (rw ready)))

    -- A page holds the first events behind the cursor, at most as many as the clamped limit says.
    -- With the events behind the cursor that it returns they are all the events behind the first
    -- cursor, and it says that there are more exactly when there are.
    pub snapshot-page :
        (p : ChatSnapshotPage V) × (snapshot json cal s chat_id after limit ≡ ok p)
        × (p.events ≡ take (page_limit limit) all)
        × (p.events ++ behind json cal c p.next_after_seq s.db ≡ all)
        × (p.has_more ≡ ltb 0 (length (behind json cal c p.next_after_seq s.db)))
    snapshot-page = (
      page,
      snapshot-eq,
      take-take (page_limit limit) all,
      rw page-rest
          (rw (take-take (page_limit limit) all) (take-append-drop (page_limit limit) all)),
      rw page-rest (more_iff (page_limit limit) all),
    )
