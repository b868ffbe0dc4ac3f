-- ===== src/ResponseBuffer/Tests.antt =====
-- Instances for src/hermes_vylen_gateway/response_buffer.py.
use hermes_vylen_gateway.Prelude.{
  none, ℕ, ◌≡◌, refl, String, List, [], ◌∷◌, ◌++◌, Option, some, arith, string_eq,
}
use hermes_vylen_gateway.Prelude.Dict
use hermes_vylen_gateway.Prelude.Dict.{Distinct}
use hermes_vylen_gateway.ResponseBuffer.{ResponseBuffer, ResponseBufferRegistry, new_buffer}
use hermes_vylen_gateway.ResponseBuffer.Text.{split_lines, after_prefix}
use hermes_vylen_gateway.ResponseBuffer.Extractor.{
  Json, object, field, text, end, new_extractor, try_extract_response_id, scan, split_event, feed,
}
use hermes_vylen_gateway.ResponseBuffer.Extractor.Chunking.{scan-drained, feed-append}

-- One buffer that is over the cap, and one that is not.
abbrev large : ResponseBuffer
large = record (new_buffer "r1" 200 []) { chunks = (1 ∷ 2 ∷ 3 ∷ []) ∷ []; total_bytes = 3 }

abbrev registry : ResponseBufferRegistry
registry = record {
  heap = large ∷ new_buffer "r2" 200 [] ∷ [];
  buffers = ("r1", 0) ∷ ("r2", 1) ∷ [];
  grace_seconds = 5;
  max_bytes = 2;
}

registry-Distinct : Distinct registry.buffers
unfolding Dict.get
registry-Distinct = (refl, (refl, tt))

-- A decoder that finds the id in every text.
abbrev loads : List ℕ → Option Json
loads bytes = some (object (field "id" (text "resp_1") end))

abbrev extract : List ℕ → Option String
extract = try_extract_response_id loads

scan-drained_example : split_event (scan extract 4 (10 ∷ 10 ∷ 65 ∷ [])).0 ≡ none
unfolding scan split_event try_extract_response_id split_lines after_prefix
scan-drained_example = scan-drained extract 4 (10 ∷ 10 ∷ 65 ∷ []) (omega arith) refl

feed-append_example :
    (feed extract (feed extract new_extractor (65 ∷ 10 ∷ [])).0 (10 ∷ 66 ∷ [])).0
    ≡ (feed extract new_extractor ((65 ∷ 10 ∷ []) ++ 10 ∷ 66 ∷ [])).0
feed-append_example = feed-append extract new_extractor 65 (10 ∷ []) 10 (66 ∷ []) refl (omega arith)
