-- ===== src/ResponseBuffer/Sweep.antt =====
-- What `sweep` of `ResponseBufferRegistry` (src/hermes_vylen_gateway/response_buffer.py) evicts.
use hermes_vylen_gateway.Prelude.{
  ℕ, String, ◌≡◌, refl, false, none, some, arith, string_eq, [], ◌∷◌, if◌then◌else◌,
}
use hermes_vylen_gateway.Prelude.Dict
use hermes_vylen_gateway.Prelude.Dict.{Dict, Distinct, contains, get-remove_all}
use hermes_vylen_gateway.ResponseBuffer.{ResponseBufferRegistry, get, evictable_at, to_drop, sweep}

module _ (r : ResponseBufferRegistry) (now : ℕ) where
  contains-to_drop :
      (j : String) (d : Dict String ℕ)
      → Distinct d
      → contains j (to_drop r now d)
        ≡ elim (Dict.get j d) [ none ↦ false | some ref ↦ evictable_at r now ref ]
  unfolding to_drop Dict.get
  contains-to_drop j [] h = refl
  contains-to_drop j ((rid, ref) ∷ d) h =
      ground (arith, contains-to_drop j d h.1, h.0, string_eq.beq_iff rid j)

  -- A sweep forgets exactly the buffers over the byte cap and the completed ones past the grace
  -- time; every other id leads to the buffer that it led to, and no buffer is changed.
  pub get-sweep_buffers :
      (j : String)
      → Distinct r.buffers
      → (get (sweep r now).0 j ≡ elim (get r j) [
        | none ↦ none
        | some ref ↦ if evictable_at r now ref then none else some ref
      ])
        × ((sweep r now).0.heap ≡ r.heap)
  unfolding sweep get
  get-sweep_buffers j h = (
    ground (
      arith,
      get-remove_all (to_drop r now r.buffers) r.buffers j,
      contains-to_drop j r.buffers h,
    ),
    refl,
  )
