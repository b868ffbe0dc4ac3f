-- ===== src/Relay/Mirror/End.antt =====
-- `abandon` and `finish` of `_FrameStreamWriter` (src/hermes_vylen_gateway/relay.py): what they leave
-- of the writer's buffer.
use hermes_vylen_gateway.Prelude.{
  ℕ, ◌≡◌, refl, ap, ◌∙◌, false, none, some, String, arith, get_elem?, ◌==◌, string_eq,
  if◌then◌else◌,
}
use hermes_vylen_gateway.Prelude.Dict
use hermes_vylen_gateway.Prelude.Dict.{get-remove}
use hermes_vylen_gateway.ResponseBuffer.{
  ResponseBuffer, ResponseBufferRegistry, finalize, get, drop_buffer, update,
}
use hermes_vylen_gateway.Relay.Writer.{Relay, abandon, abandon_buffer, abandon_object}
use hermes_vylen_gateway.Relay.Mirror.{update-found}

update-buffers :
    (r : ResponseBufferRegistry) (ref : ℕ) (f : ResponseBuffer → ResponseBuffer)
    → (update r ref f).buffers ≡ r.buffers
unfolding update
update-buffers r ref f = ground arith

abandon_buffer-found :
    (r : ResponseBufferRegistry) (ref now : ℕ) (buf : ResponseBuffer)
    → get_elem? r.heap ref ≡ some buf
    → abandon_buffer (some ref) r now
      ≡ drop_buffer (update r ref (λ b. finalize b now)) buf.response_id
unfolding abandon_buffer abandon_object
abandon_buffer-found r ref now buf found = ap (λ o. abandon_object o ref r now) found

abandon-registry :
    (s : Relay) (now : ℕ)
    → s.writer.finished ≡ false
    → (abandon now s).registry ≡ abandon_buffer s.writer.buffer s.registry now
unfolding abandon
abandon-registry s now open_ = simp open_ refl

abandon-buffer :
    (s : Relay) (now : ℕ) → s.writer.finished ≡ false → (abandon now s).writer.buffer ≡ none
unfolding abandon
abandon-buffer s now open_ = simp open_ refl

-- An abandoned writer has completed its buffer, so that readers which still hold it end, and has
-- unregistered the id of the buffer and no other.
pub abandon-completed :
    (s : Relay) (now ref : ℕ) (buf : ResponseBuffer) (id : String)
    → s.writer.finished ≡ false
    → s.writer.buffer ≡ some ref
    → get_elem? s.registry.heap ref ≡ some buf
    → (get_elem? (abandon now s).registry.heap ref ≡ some (finalize buf now))
      × ((abandon now s).writer.buffer ≡ none)
      × (get (abandon now s).registry id
          ≡ (if buf.response_id == id then none else get s.registry id))
unfolding drop_buffer get
abandon-completed s now ref buf id open_ held found =
    let r = update s.registry ref (λ b. finalize b now) in
    let left =
      abandon-registry s now open_
      ∙ ap (λ b. abandon_buffer b s.registry now) held
      ∙ abandon_buffer-found s.registry ref now buf found in
    (
      ap (λ q. get_elem? q.heap ref) left
          ∙ update-found s.registry ref (λ b. finalize b now) buf found,
      abandon-buffer s now open_,
      ap (λ q. get q id) left
          ∙ get-remove buf.response_id id r.buffers
          ∙ ap (λ d. if buf.response_id == id then none else Dict.get id d)
              (update-buffers s.registry ref (λ b. finalize b now)),
    )
