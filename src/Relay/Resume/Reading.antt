-- ===== src/Relay/Resume/Reading.antt =====
-- A step of a reader (`_run_resume` of src/hermes_vylen_gateway/relay.py) keeps what its phase promises.
use hermes_vylen_gateway.Prelude.{
  zero, suc, drop-nil, ℕ, ◌+◌, ◌≤◌, ◌≡◌, refl, ap, sym, subst, ◌∙◌, inl, inr, Bool, true, false,
  List, [], ◌∷◌, ◌++◌, map, length, drop, arith, ltb, Bool-cases, drop-eq-nil, drop-longer,
  length-append, append-nil, append_assoc,
}
use hermes_vylen_gateway.ResponseBuffer.{ResponseBuffer, Bytes}
use hermes_vylen_gateway.Relay.Frames.{Frame, response_headers, response_chunk, response_end}
use hermes_vylen_gateway.Relay.Resume.{
  Phase, starting, looping, sending, ending, waiting, finished, raised, Reader, resume_step,
  step_phase, after_pending, sends,
}
use hermes_vylen_gateway.Relay.Resume.System.{
  System, run_reader, emitted, frames, Served, PhaseOk, Follows,
}

drop-head :
    {A : Type 0} (n : ℕ) (xs : List A) (y : A) (ys : List A)
    → drop n xs ≡ y ∷ ys
    → (drop (suc n) xs ≡ ys) × (n + 1 ≤ length xs)
drop-head {A = A} n [] y ys h = absurd (cc (h, drop-nil {A = A} n))
drop-head zero (x ∷ xs) y ys h = (ground (arith, h), omega arith)
drop-head (suc n) (x ∷ xs) y ys h = let (k, l) = drop-head n xs y ys h in (k, omega arith)

map-snoc :
    {A B : Type 0} (f : A → B) (xs : List A) (y : A) → map f (xs ++ y ∷ []) ≡ map f xs ++ f y ∷ []
map-snoc f [] y = refl
map-snoc f (x ∷ xs) y = ap (◌∷◌ (f x)) (map-snoc f xs y)

Served-next :
    (after : ℕ) (chunks d : List Bytes) (at : ℕ) (c : Bytes) (cs : List Bytes)
    → drop at chunks ≡ c ∷ cs
    → Served after chunks d at
    → Served after chunks (d ++ c ∷ []) (suc at)
Served-next after chunks d at c cs h s =
    let (k, l) = drop-head at chunks c cs h in
    record {
      order = omega (arith, s.order);
      exact =
          append_assoc d (c ∷ []) (drop (suc at) chunks)
          ∙ ap (λ r. d ++ c ∷ r) k
          ∙ ap (◌++◌ d) (sym h)
          ∙ s.exact;
      place = inl (omega (arith, l));
    }

pub Served-longer :
    (after : ℕ) (chunks d : List Bytes) (at : ℕ) (c : Bytes)
    → Served after chunks d at
    → Served after (chunks ++ c ∷ []) d at
Served-longer after chunks d at c s =
    let (more, e, x) = drop-longer after at d chunks c s.order s.exact s.place in
    record {
      order = s.order;
      exact = x;
      place = ground (arith, s.place, length-append chunks (c ∷ []));
    }

pub Served-all :
    (after : ℕ) (chunks d : List Bytes) (at : ℕ)
    → length chunks ≤ at
    → Served after chunks d at
    → d ≡ drop after chunks
Served-all after chunks d at le s =
    sym (append-nil d) ∙ ap (◌++◌ d) (sym (drop-eq-nil at chunks le)) ∙ s.exact

-- The code behind the `for` loop, once everything pending is sent.
after_pending-Follows :
    (after : ℕ) (buf : ResponseBuffer) (t : Reader) (sent : List Frame) (d : List Bytes)
    → sent ≡ frames t.request_id buf d
    → Served after buf.chunks d t.cursor
    → (let r = after_pending buf t in
        PhaseOk after r.buffer r.reader (sent ++ emitted r.frame) r.reader.phase)
unfolding after_pending
after_pending-Follows after buf t sent d e s =
    elim (Bool-cases (ltb t.cursor (length buf.chunks))) [
      | inl more ↦ rw more (d, append-nil sent ∙ e, s)
      | inr all ↦ elim (Bool-cases buf.complete) [
        | inl complete ↦
            rw (all, complete)
              (
                append-nil sent
                    ∙ e
                    ∙ ap (frames t.request_id buf)
                        (Served-all after buf.chunks d t.cursor (ground (arith, all)) s),
                refl,
              )
        | inr open_ ↦ rw (all, open_) (d, append-nil sent ∙ e, s, ground (arith, all), refl)
      ]
    ]

-- One step of the reader, on the phase that it is in.
pub step_phase-Follows :
    (after : ℕ) (buf : ResponseBuffer) (t : Reader) (sent : List Frame) (p : Phase)
    (delivers : Bool)
    → PhaseOk after buf t sent p
    → (let r = step_phase delivers buf t p in
        PhaseOk after r.buffer r.reader (sent ++ emitted r.frame) r.reader.phase)
unfolding sends
step_phase-Follows after buf t sent starting true (e, c) = (
  [],
  ap (λ s. s ++ frames t.request_id buf []) e,
  record { order = omega (arith, c); exact = ap (λ k. drop k buf.chunks) c; place = inr (refl, c) },
)
step_phase-Follows after buf t sent starting false h = tt
step_phase-Follows after buf t sent looping delivers (d, e, s) =
    (d, t.cursor, append-nil sent ∙ e, s, refl, ([], sym (append-nil _)))
step_phase-Follows after buf t sent (sending (c ∷ cs) n) true (d, at, e, s, k, (rest, r)) =
    let h = drop-head at buf.chunks c (cs ++ rest) r in
    (
      d ++ c ∷ [],
      suc at,
      ap (λ s. s ++ response_chunk t.request_id c ∷ []) e
          ∙ ap (◌∷◌ (response_headers t.request_id buf.status buf.headers))
              (sym (map-snoc (response_chunk t.request_id) d c)),
      Served-next after buf.chunks d at c (cs ++ rest) r s,
      omega (arith, k),
      (rest, h.0),
    )
step_phase-Follows after buf t sent (sending (c ∷ cs) n) false h = tt
step_phase-Follows after buf t sent (sending [] n) delivers (d, at, e, s, k, _) =
    after_pending-Follows after buf (record t { cursor = t.cursor + n }) sent d e
      (subst (Served after buf.chunks d) (omega (arith, k)) s)
step_phase-Follows after buf t sent ending true (e, c) =
    (ap (λ s. s ++ response_end t.request_id ∷ []) e, c)
step_phase-Follows after buf t sent ending false h = tt
step_phase-Follows after buf t sent waiting delivers (d, e, s, l, o) =
    (d, append-nil sent ∙ e, s, l, o)
step_phase-Follows after buf t sent finished delivers (e, c) = (append-nil sent ∙ e, c)
step_phase-Follows after buf t sent raised delivers h = tt

pub run-Follows :
    (after : ℕ) (s : System) (delivers : Bool)
    → Follows after s
    → Follows after (run_reader s delivers)
unfolding run_reader resume_step
run-Follows after s delivers f =
    step_phase-Follows after s.buffer s.reader s.sent s.reader.phase delivers f
