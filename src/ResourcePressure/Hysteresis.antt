-- ===== src/ResourcePressure/Hysteresis.antt =====
-- The hysteresis of src/hermes_vylen_gateway/resource_pressure.py, over any run of samples.
use hermes_vylen_gateway.Prelude.{
  ℕ, ◌+◌, ◌≤◌, ◌≡◌, ◌≢◌, refl, sym, ap, ◌∙◌, inl, inr, true, List, [], ◌∷◌, Option, none, some,
  arith, leb, Bool-cases, Option-cases, subst,
}
use hermes_vylen_gateway.ResourcePressure.{
  Bucket, unknown, ok, warning, critical, BucketState, new_bucket_state, bucket_beq, is_candidate,
  set_immediate, transition, known, cpu_candidate, update_cpu, memory_candidate, update_memory,
}

bucket_beq→eq : (a b : Bucket) → bucket_beq a b ≡ true → a ≡ b
bucket_beq→eq a b h = ground arith

-- The state after some samples with their times, the newest first.
unfoldable pub run :
    {X : Type 0} → (BucketState → Option X → ℕ → BucketState) → List (Option X × ℕ) → BucketState
run update [] = new_bucket_state
run update ((x, now) ∷ samples) = update (run update samples) x now

-- A sample is judged in a bucket, and gives a candidate with the time for which it has to be asked for.
-- In the bucket b, every sample from the time `since` on has asked for the bucket c.
pub data Held {X : Type 0} (judge : Bucket → X → Option Bucket × ℕ) (b c : Bucket) (since : ℕ)
    : List (Option X × ℕ) → Type 0 where
  first :
      (x : X) (now : ℕ) (samples : List (Option X × ℕ))
      → (judge b x).0 ≡ some c
      → now ≡ since
      → Held judge b c since ((some x, now) ∷ samples)
  more :
      (x : X) (now : ℕ) (samples : List (Option X × ℕ))
      → (judge b x).0 ≡ some c
      → Held judge b c since samples
      → Held judge b c since ((some x, now) ∷ samples)

-- A sampler by its candidates.
module _ {X : Type 0} (judge : Bucket → X → Option Bucket × ℕ)
    (update : BucketState → Option X → ℕ → BucketState)
    (on_none : (s : BucketState) (now : ℕ) → update s none now ≡ set_immediate s unknown)
    (on_some : (s : BucketState) (x : X) (now : ℕ)
      → update s (some x) now
        ≡ transition (known s) (judge (known s).bucket x).0 (judge (known s).bucket x).1 now) where
  -- What the state says of the samples.
  record Explains (s : BucketState) (samples : List (Option X × ℕ)) : Type 0 where
    held : (c : Bucket) → s.candidate ≡ some c → Held judge s.bucket c s.candidate_since samples
    fresh : s.bucket ≡ unknown → s.candidate ≡ none

  known-Explains :
      (s : BucketState) (samples : List (Option X × ℕ))
      → Explains s samples
      → Explains (known s) samples
  known-Explains s samples e = go s.bucket refl
    where
      go : (b : Bucket) → s.bucket ≡ b → Explains (known s) samples
      go unknown h =
          rw (h, known) (record { held = λ c p. absurd (cc (e.fresh h)); fresh = λ p. e.fresh h })
      go ok h = rw (h, known) e
      go warning h = rw (h, known) e
      go critical h = rw (h, known) e

  known-ne-unknown : (s : BucketState) → (known s).bucket ≢ unknown
  known-ne-unknown s h = ground arith

  module _ (s : BucketState) (x : X) (now : ℕ) (samples : List (Option X × ℕ))
      (e : Explains s samples) (c : Bucket) (asks : (judge s.bucket x).0 ≡ some c) where
    -- A candidate that was pending is held on.
    pending-Held :
        is_candidate s.candidate c ≡ true
        → Held judge s.bucket c s.candidate_since ((some x, now) ∷ samples)
    pending-Held h = elim (Option-cases s.candidate) [
      | inl nothing ↦ absurd (cc (subst (λ o. is_candidate o c ≡ true) nothing h))
      | inr (d, pending) ↦
          let same : d ≡ c = bucket_beq→eq d c (subst (λ o. is_candidate o c ≡ true) pending h) in
          more x now samples asks (e.held c (pending ∙ ap some same))
    ]

  module _ (s : BucketState) (x : X) (now dwell : ℕ) (samples : List (Option X × ℕ))
      (e : Explains s samples) (live : s.bucket ≢ unknown) where
    pending-Held_any :
        (c : Bucket)
        → (judge s.bucket x).0 ≡ some c
        → is_candidate s.candidate c ≡ true
        → (d : Bucket) → s.candidate ≡ some d
        → Held judge s.bucket d s.candidate_since ((some x, now) ∷ samples)
    pending-Held_any c asks pending d p =
        let same : d ≡ c = bucket_beq→eq d c (subst (λ o. is_candidate o c ≡ true) p pending) in
        subst (λ z. Held judge s.bucket z s.candidate_since ((some x, now) ∷ samples)) (sym same)
          (pending-Held s x now samples e c asks pending)

    transition-Explains :
        (o : Option Bucket)
        → (judge s.bucket x).0 ≡ o
        → Explains (transition s o dwell now) ((some x, now) ∷ samples)
    unfolding transition
    transition-Explains none asks = record { held = λ d p. absurd (cc); fresh = λ p. refl }
    transition-Explains (some c) asks = elim (Bool-cases (bucket_beq c s.bucket)) [
      | inl same ↦ rw same (record { held = λ d p. absurd (cc); fresh = λ p. refl })
      | inr other ↦ elim (Bool-cases (is_candidate s.candidate c)) [
        | inl pending ↦ elim (Bool-cases (leb (s.candidate_since + dwell) now)) [
          | inl due ↦
              rw (other, pending, due) (record { held = λ d p. absurd (cc); fresh = λ p. refl })
          | inr early ↦
              rw (other, pending, early)
                (record {
                  held = λ d p. pending-Held_any c asks pending d p;
                  fresh = λ p. absurd (live p);
                })
        ]
        | inr new ↦
            rw (other, new)
              (record {
                held = λ d p. first x now samples (asks ∙ p) refl;
                fresh = λ p. absurd (live p);
              })
      ]
    ]

    transition-change :
        (o : Option Bucket)
        → (judge s.bucket x).0 ≡ o
        → (transition s o dwell now).bucket ≢ s.bucket
        → (since : ℕ) × Held judge s.bucket
            (transition s o dwell now).bucket
            since
            ((some x, now) ∷ samples)
          × (since + dwell ≤ now)
    unfolding transition
    transition-change none asks change = absurd (change refl)
    transition-change (some c) asks change = elim (Bool-cases (bucket_beq c s.bucket)) [
      | inl same ↦ absurd (change (rw same))
      | inr other ↦ elim (Bool-cases (is_candidate s.candidate c)) [
        | inl pending ↦ elim (Bool-cases (leb (s.candidate_since + dwell) now)) [
          | inl due ↦ (
            s.candidate_since,
            rw (other, pending, due) (pending-Held s x now samples e c asks pending),
            ground arith,
          )
          | inr early ↦ absurd (change (rw (other, pending, early)))
        ]
        | inr new ↦ absurd (change (rw (other, new)))
      ]
    ]

  run-Explains : (samples : List (Option X × ℕ)) → Explains (run update samples) samples
  unfolding run set_immediate
  run-Explains [] = record { held = λ c p. absurd (cc); fresh = λ p. refl }
  run-Explains ((none, now) ∷ samples) =
      rw (on_none (run update samples) now)
        (record { held = λ c p. absurd (cc); fresh = λ p. refl })
  run-Explains ((some x, now) ∷ samples) = rw (on_some (run update samples) x now) (
      transition-Explains (known (run update samples)) x now _ samples
        (known-Explains (run update samples) samples (run-Explains samples))
        (known-ne-unknown (run update samples)) _ refl)

  run-change :
      (samples : List (Option X × ℕ)) (x : X) (now : ℕ)
      → (run update ((some x, now) ∷ samples)).bucket ≢ (known (run update samples)).bucket
      → (since : ℕ) × Held judge
          (known (run update samples)).bucket
          (run update ((some x, now) ∷ samples)).bucket
          since
          ((some x, now) ∷ samples)
        × (since + (judge (known (run update samples)).bucket x).1 ≤ now)
  unfolding run
  run-change samples x now change =
      let s = known (run update samples) in
      let dwell = (judge s.bucket x).1 in
      let step = on_some (run update samples) x now in
      rw step (
        transition-change s x now dwell samples
          (known-Explains (run update samples) samples (run-Explains samples))
          (known-ne-unknown (run update samples)) (judge s.bucket x).0 refl
          (λ same. change (ap (λ u. u.bucket) step ∙ same)))

pub cpu-change :
    (samples : List (Option ℕ × ℕ)) (value now : ℕ)
    → (run update_cpu ((some value, now) ∷ samples)).bucket
      ≢ (known (run update_cpu samples)).bucket
    → (since : ℕ) × Held cpu_candidate
        (known (run update_cpu samples)).bucket
        (run update_cpu ((some value, now) ∷ samples)).bucket
        since
        ((some value, now) ∷ samples)
      × (since + (cpu_candidate (known (run update_cpu samples)).bucket value).1 ≤ now)
unfolding update_cpu
cpu-change = run-change cpu_candidate update_cpu (λ s now. refl) (λ s x now. refl)

-- A sample of the memory that has both numbers, or none.
abbrev pub sample_memory : BucketState → Option (ℕ × ℕ) → ℕ → BucketState
sample_memory s none now = update_memory s none none now
sample_memory s (some (ratio, bytes)) now = update_memory s (some ratio) (some bytes) now

abbrev pub judge_memory : Bucket → ℕ × ℕ → Option Bucket × ℕ
judge_memory b (ratio, bytes) = memory_candidate b ratio bytes

-- The same of the memory's bucket, over samples that have both numbers or none.
pub memory-change :
    (samples : List (Option (ℕ × ℕ) × ℕ)) (x : ℕ × ℕ) (now : ℕ)
    → (run sample_memory ((some x, now) ∷ samples)).bucket
      ≢ (known (run sample_memory samples)).bucket
    → (since : ℕ) × Held judge_memory
        (known (run sample_memory samples)).bucket
        (run sample_memory ((some x, now) ∷ samples)).bucket
        since
        ((some x, now) ∷ samples)
      × (since + (judge_memory (known (run sample_memory samples)).bucket x).1 ≤ now)
unfolding update_memory
memory-change = run-change judge_memory sample_memory (λ s now. refl) (λ s x now. refl)
