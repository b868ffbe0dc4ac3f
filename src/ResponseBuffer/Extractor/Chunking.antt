-- ===== src/ResponseBuffer/Extractor/Chunking.antt =====
-- The scan of `ResponseIdExtractor.feed` (src/hermes_vylen_gateway/response_buffer.py) ends by itself,
-- and how the stream is cut into chunks does not matter.
use hermes_vylen_gateway.Prelude.{
  ℕ, zero, suc, ◌+◌, ◌-◌, drop, drop-nil, ◌≤◌, ◌<◌, ◌≡◌, refl, ap, sym, ◌∙◌, inl, inr, String, true,
  false, List, [], ◌∷◌, ◌++◌, Option, none, some, arith, ltb, nat_beq, ◌&&◌, length, length-append,
  append_assoc, append-nil, Bool-cases, Option-cases,
}
use hermes_vylen_gateway.ResponseBuffer.Extractor.{
  ResponseIdExtractor, split_event, trim, scan, feed, parser_buffer_soft_cap,
}

-- More input only extends what stands behind the first event.
split_event-append :
    (buf more event rest : List ℕ)
    → split_event buf ≡ some (event, rest)
    → split_event (buf ++ more) ≡ some (event, rest ++ more)
unfolding split_event
split_event-append [] more event rest h = absurd (cc)
split_event-append (a ∷ []) more event rest h = absurd (cc)
split_event-append (a ∷ b ∷ bs) more event rest h =
    elim (Bool-cases (nat_beq a 10 && nat_beq b 10)) [
      | inl blank ↦ rw blank (ground (arith, h, blank))
      | inr inside ↦ elim (Option-cases (split_event (b ∷ bs))) [
        | inl miss ↦ absurd (ground arith)
        | inr ((event', rest'), found) ↦
            let longer = split_event-append (b ∷ bs) more event' rest' found in
            rw (inside, longer) (ground (arith, h, found, inside))
      ]
    ]

split_event-length :
    (buf event rest : List ℕ) → split_event buf ≡ some (event, rest) → length rest + 2 ≤ length buf
unfolding split_event
split_event-length [] event rest h = absurd (cc)
split_event-length (a ∷ []) event rest h = absurd (cc)
split_event-length (a ∷ b ∷ bs) event rest h = elim (Bool-cases (nat_beq a 10 && nat_beq b 10)) [
  | inl blank ↦ ground (arith, h, blank)
  | inr inside ↦ elim (Option-cases (split_event (b ∷ bs))) [
    | inl miss ↦ absurd (ground arith)
    | inr ((event', rest'), found) ↦
        let shorter = split_event-length (b ∷ bs) event' rest' found in
        ground (arith, h, found, inside, shorter)
  ]
]

-- No part of a buffer without a blank line has one.
split_event-drop : (n : ℕ) (buf : List ℕ) → split_event buf ≡ none → split_event (drop n buf) ≡ none
unfolding split_event
split_event-drop zero buf h = h
split_event-drop (suc n) [] h = refl
split_event-drop (suc n) (a ∷ []) h = rw (drop-nil n) refl
split_event-drop (suc n) (a ∷ b ∷ bs) h = elim (Bool-cases (nat_beq a 10 && nat_beq b 10)) [
  | inl blank ↦ absurd (ground arith)
  | inr inside ↦ elim (Option-cases (split_event (b ∷ bs))) [
    | inl miss ↦ split_event-drop n (b ∷ bs) miss
    | inr ((event, rest), found) ↦ absurd (ground arith)
  ]
]

split_event-trim : (buf : List ℕ) → split_event buf ≡ none → split_event (trim buf) ≡ none
unfolding trim
split_event-trim buf h = elim (Bool-cases (ltb parser_buffer_soft_cap (length buf))) [
  | inl over ↦ rw over (split_event-drop (length buf - 32768) buf h)
  | inr fits ↦ rw fits h
]

module _ (extract : List ℕ → Option String) where
  -- Any fuel over the length of the buffer is enough.
  pub scan-fuel :
      (f g : ℕ) (buf : List ℕ)
      → length buf < f
      → length buf < g
      → scan extract f buf ≡ scan extract g buf
  unfolding scan
  scan-fuel zero g buf h k = absurd (omega arith)
  scan-fuel (suc f) zero buf h k = absurd (omega arith)
  scan-fuel (suc f) (suc g) buf h k = elim (Option-cases (split_event buf)) [
    | inl miss ↦ rw (miss, scan)
    | inr ((event, rest), found) ↦
        let shorter = split_event-length buf event rest found in
        elim (Option-cases (extract event)) [
          | inl no_id ↦ rw (found, no_id, scan) (scan-fuel f g rest (omega arith) (omega arith))
          | inr (rid, id) ↦ rw (found, id, scan)
        ]
  ]

  -- With more rounds than the buffer has bytes, the loop comes to one of its two ends: an id, or a
  -- buffer in which no event is left to be read. It is never cut off in between.
  pub scan-drained :
      (f : ℕ) (buf : List ℕ)
      → length buf < f
      → (scan extract f buf).1 ≡ none
      → split_event (scan extract f buf).0 ≡ none
  unfolding scan
  scan-drained zero buf h n = absurd (omega arith)
  scan-drained (suc f) buf h n = elim (Option-cases (split_event buf)) [
    | inl miss ↦ rw (miss, scan) (split_event-trim buf miss)
    | inr ((event, rest), found) ↦
        let shorter = split_event-length buf event rest found in
        elim (Option-cases (extract event)) [
          | inl no_id ↦
              let skip : scan extract (suc f) buf ≡ scan extract f rest =
                rw (found, no_id, scan) refl in
              rw skip (
                scan-drained f rest (omega arith)
                  (ap (λ (q : List ℕ × Option String). q.1) (sym skip) ∙ n))
          | inr (rid, id) ↦
              let hit : scan extract (suc f) buf ≡ ([], some rid) = rw (found, id, scan) refl in
              absurd (cc (ap (λ (q : List ℕ × Option String). q.1) hit, n))
        ]
  ]

  abbrev pub scan_all : List ℕ → List ℕ × Option String
  scan_all buf = scan extract (suc (length buf)) buf

  scan_miss :
      (f : ℕ) (buf : List ℕ) → split_event buf ≡ none → scan extract (suc f) buf ≡ (trim buf, none)
  unfolding scan
  scan_miss f buf h = rw (h, scan)

  module _ (f : ℕ) (buf event rest : List ℕ) (found : split_event buf ≡ some (event, rest)) where
    scan_skip : extract event ≡ none → scan extract (suc f) buf ≡ scan extract f rest
    unfolding scan
    scan_skip h = rw (found, h, scan)

    scan_hit : (rid : String) → extract event ≡ some rid → scan extract (suc f) buf ≡ ([], some rid)
    unfolding scan
    scan_hit rid h = rw (found, h, scan)

  trim_small : (buf : List ℕ) → length buf ≤ parser_buffer_soft_cap → trim buf ≡ buf
  unfolding trim
  trim_small buf h =
      let fits : ltb parser_buffer_soft_cap (length buf) ≡ false = ground arith in rw fits

  scan-length :
      (f : ℕ) (buf : List ℕ)
      → length buf ≤ parser_buffer_soft_cap
      → length (scan extract f buf).0 ≤ length buf
  scan-length zero buf c = unfold scan in omega arith
  scan-length (suc f) buf c = elim (Option-cases (split_event buf)) [
    | inl miss ↦ rw (scan_miss f buf miss, trim_small buf c) (omega arith)
    | inr ((event, rest), found) ↦
        let shorter = split_event-length buf event rest found in
        elim (Option-cases (extract event)) [
          | inl no_id ↦
              rw (scan_skip f buf event rest found no_id)
                (omega (arith, scan-length f rest (omega arith)))
          | inr (rid, id) ↦ rw (scan_hit f buf event rest found rid id) (omega arith)
        ]
  ]

  -- A scan that ends without an id leaves a buffer from which the scan goes on as if it had not
  -- stopped.
  scan-resume :
      (f g : ℕ) (buf more : List ℕ)
      → length buf < f
      → length (buf ++ more) < g
      → length buf ≤ parser_buffer_soft_cap
      → (scan extract f buf).1 ≡ none
      → scan extract g (buf ++ more) ≡ scan extract g ((scan extract f buf).0 ++ more)
  scan-resume zero g buf more h k c n = absurd (omega arith)
  scan-resume (suc f) zero buf more h k c n = absurd (omega arith)
  scan-resume (suc f) (suc g) buf more h k c n = elim (Option-cases (split_event buf)) [
    | inl miss ↦ rw (scan_miss f buf miss, trim_small buf c)
    | inr ((event, rest), found) ↦
        let shorter = split_event-length buf event rest found in
        let longer = split_event-append buf more event rest found in
        let l = length-append buf more in
        let l' = length-append rest more in
        elim (Option-cases (extract event)) [
          | inl no_id ↦
              let skip = scan_skip f buf event rest found no_id in
              let small = scan-length f rest (omega arith) in
              let l'' = length-append (scan extract f rest).0 more in
              scan_skip g (buf ++ more) event (rest ++ more) longer no_id
              ∙ scan-resume f g rest more (omega arith) (omega arith) (omega arith)
                  (ap (λ (q : List ℕ × Option String). q.1) (sym skip) ∙ n)
              ∙ scan-fuel g (suc g) ((scan extract f rest).0 ++ more) (omega arith) (omega arith)
              ∙ ap (λ (q : List ℕ × Option String). scan extract (suc g) (q.0 ++ more)) (sym skip)
          | inr (rid, id) ↦ absurd (
              cc
                (ap (λ (q : List ℕ × Option String). q.1) (scan_hit f buf event rest found rid id)))
        ]
  ]

  scan-found :
      (f g : ℕ) (buf more : List ℕ) (rid : String)
      → length buf < f
      → length (buf ++ more) < g
      → (scan extract f buf).1 ≡ some rid
      → scan extract g (buf ++ more) ≡ ([], some rid)
  scan-found zero g buf more rid h k n = absurd (omega arith)
  scan-found (suc f) zero buf more rid h k n = absurd (omega arith)
  scan-found (suc f) (suc g) buf more rid h k n = elim (Option-cases (split_event buf)) [
    | inl miss ↦ absurd (cc (ap (λ (q : List ℕ × Option String). q.1) (scan_miss f buf miss)))
    | inr ((event, rest), found) ↦
        let shorter = split_event-length buf event rest found in
        let longer = split_event-append buf more event rest found in
        let l = length-append buf more in
        let l' = length-append rest more in
        elim (Option-cases (extract event)) [
          | inl no_id ↦
              scan_skip g (buf ++ more) event (rest ++ more) longer no_id
              ∙ scan-found f g rest more rid (omega arith) (omega arith) (
                  ap (λ (q : List ℕ × Option String). q.1)
                    (sym (scan_skip f buf event rest found no_id))
                  ∙ n)
          | inr (rid', id) ↦
              let hit =
                ap (λ (q : List ℕ × Option String). q.1)
                  (scan_hit f buf event rest found rid' id) in
              let same : rid' ≡ rid = cc in
              rw (← same) (scan_hit g (buf ++ more) event (rest ++ more) longer rid' id)
        ]
  ]

  absorbed : ResponseIdExtractor → List ℕ × Option String → ResponseIdExtractor
  absorbed x (left, none) = record x { buffer = left }
  absorbed x (left, some rid) = record { buffer = left; found = some rid; done = true }

  feed-absorbed :
      (x : ResponseIdExtractor) (b : ℕ) (bs : List ℕ)
      → x.done ≡ false
      → (feed extract x (b ∷ bs)).0 ≡ absorbed x (scan_all (x.buffer ++ b ∷ bs))
  unfolding feed absorbed
  feed-absorbed x b bs h = ground (arith, h)

  feed-done :
      (x : ResponseIdExtractor) (chunk : List ℕ) → x.done ≡ true → (feed extract x chunk).0 ≡ x
  unfolding feed
  feed-done x [] h = refl
  feed-done x (b ∷ bs) h = ground (arith, h)

  absorbed-none :
      (x : ResponseIdExtractor) (q : List ℕ × Option String)
      → q.1 ≡ none
      → absorbed x q ≡ record x { buffer = q.0 }
  unfolding absorbed
  absorbed-none x (left, none) h = refl
  absorbed-none x (left, some r) h = absurd (cc)

  absorbed-buffer :
      (x : ResponseIdExtractor) (buf : List ℕ) (q : List ℕ × Option String)
      → absorbed (record x { buffer = buf }) q ≡ absorbed x q
  unfolding absorbed
  absorbed-buffer x buf (left, none) = refl
  absorbed-buffer x buf (left, some r) = refl

  -- Cutting a chunk in two gives the same extractor, so the same id, while the buffered stream is
  -- within the soft cap.
  pub feed-append :
      (x : ResponseIdExtractor) (a : ℕ) (as' : List ℕ) (b : ℕ) (bs : List ℕ)
      → x.done ≡ false
      → length ((x.buffer ++ a ∷ as') ++ b ∷ bs) ≤ parser_buffer_soft_cap
      → (feed extract (feed extract x (a ∷ as')).0 (b ∷ bs)).0
        ≡ (feed extract x ((a ∷ as') ++ b ∷ bs)).0
  unfolding absorbed
  feed-append x a as' b bs open_ c =
      let buf = x.buffer ++ a ∷ as' in
      let whole = append_assoc x.buffer (a ∷ as') (b ∷ bs) in
      let l = length-append buf (b ∷ bs) in
      let first = feed-absorbed x a as' open_ in
      let both = feed-absorbed x a (as' ++ b ∷ bs) open_ in
      elim (Option-cases (scan_all buf).1) [
        | inl no_id ↦
            let s = scan_all buf in
            let x1 : ResponseIdExtractor = record x { buffer = s.0 } in
            let small = scan-length (suc (length buf)) buf (omega arith) in
            let l' = length-append s.0 (b ∷ bs) in
            let resumed =
              scan-resume (suc (length buf)) (suc (length (buf ++ b ∷ bs))) buf (b ∷ bs)
                (omega arith) (omega arith) (omega arith) no_id in
            let same =
              scan-fuel (suc (length (s.0 ++ b ∷ bs))) (suc (length (buf ++ b ∷ bs)))
                (s.0 ++ b ∷ bs) (omega arith) (omega arith) in
            ap (λ y. (feed extract y (b ∷ bs)).0) (first ∙ absorbed-none x s no_id)
            ∙ feed-absorbed x1 b bs open_
            ∙ absorbed-buffer x s.0 (scan_all (s.0 ++ b ∷ bs))
            ∙ ap (absorbed x) (same ∙ sym resumed ∙ ap scan_all whole)
            ∙ sym both
        | inr (rid, id) ↦
            let n = suc (length buf) in
            let hit : scan_all buf ≡ ([], some rid) =
              sym (ap (scan extract n) (append-nil buf))
              ∙ scan-found n n buf [] rid (omega arith) (omega (arith, ap length (append-nil buf)))
                  id in
            let long =
              scan-found n (suc (length (buf ++ b ∷ bs))) buf (b ∷ bs) rid (omega arith)
                (omega arith) id in
            ap (λ y. (feed extract y (b ∷ bs)).0) (first ∙ ap (absorbed x) hit)
            ∙ feed-done (record { buffer = []; found = some rid; done = true }) (b ∷ bs) refl
            ∙ sym (both ∙ ap (absorbed x) (sym (ap scan_all whole) ∙ long))
      ]
