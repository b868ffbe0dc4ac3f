-- ===== src/Relay/Frames.antt =====
-- The response frames of src/hermes_vylen_gateway/relay.py, the header filters, and the cutting of a
-- body into parts. A chunk frame holds the bytes whose base64 text is its `data`.
use hermes_vylen_gateway.Prelude.{
  ℕ, zero, suc, ◌≤◌, ◌<◌, ◌≡◌, refl, ap, ◌∙◌, String, List, [], ◌∷◌, ◌++◌, All, arith, length,
  length-take, length-drop, take, drop, take-append-drop, string_eq, if◌then◌else◌,
}
use hermes_vylen_gateway.Prelude.Dict.{contains}
use hermes_vylen_gateway.ResponseBuffer.{Bytes, Headers}

pub data Frame : Type 0 where
  response_headers : String → ℕ → Headers → Frame
  response_chunk : String → Bytes → Frame
  response_end : String → Frame
  response_error : String → String → String → Frame

abbrev pub drop_request_headers : List String
drop_request_headers =
    "host" ∷ "connection" ∷ "content-length" ∷ "transfer-encoding" ∷ "upgrade" ∷ "keep-alive" ∷ "te"
    ∷ "trailer" ∷ "origin" ∷ "referer" ∷ "cookie" ∷ "sec-fetch-site" ∷ "sec-fetch-mode"
    ∷ "sec-fetch-dest" ∷ "sec-ch-ua" ∷ "sec-ch-ua-mobile" ∷ "sec-ch-ua-platform" ∷ []

abbrev pub drop_response_headers : List String
drop_response_headers = "connection" ∷ "transfer-encoding" ∷ "content-length" ∷ []

-- `lower` stands for str.lower
module _ (lower : String → String) where
  unfoldable pub without_headers : List String → Headers → Headers
  without_headers names [] = []
  without_headers names ((k, v) ∷ hs) =
      let rest = without_headers names hs in
      if contains (lower k) names then rest else (k, v) ∷ rest

  unfoldable pub filter_request_headers : Headers → Headers
  unfolding without_headers
  filter_request_headers = without_headers drop_request_headers

  unfoldable pub filter_response_headers : Headers → Headers
  unfolding without_headers
  filter_response_headers = without_headers drop_response_headers

abbrev pub response_chunk_bytes : ℕ
response_chunk_bytes = 262144

-- chunk[offset:offset + n] for offset in range(0, len(chunk), n)
unfoldable pub parts_of : ℕ → ℕ → Bytes → List Bytes
parts_of zero n bs = []
parts_of (suc fuel) n [] = []
parts_of (suc fuel) n (b ∷ bs) = take n (b ∷ bs) ∷ parts_of fuel n (drop n (b ∷ bs))

unfoldable pub parts : Bytes → List Bytes
unfolding parts_of
parts chunk = parts_of (length chunk) response_chunk_bytes chunk

abbrev pub joined : List Bytes → Bytes
joined [] = []
joined (p ∷ ps) = p ++ joined ps

abbrev pub IsPart : ℕ → Bytes → Type 0
IsPart n p = (0 < length p) × (length p ≤ n)

parts_of-joined :
    (fuel n : ℕ) (bs : Bytes)
    → length bs ≤ fuel
    → 0 < n
    → (joined (parts_of fuel n bs) ≡ bs) × All (IsPart n) (parts_of fuel n bs)
unfolding parts_of
parts_of-joined zero n [] h p = (refl, tt)
parts_of-joined zero n (b ∷ bs) h p = absurd (omega arith)
parts_of-joined (suc fuel) n [] h p = (refl, tt)
parts_of-joined (suc fuel) n (b ∷ bs) h p =
    let l = length-drop n (b ∷ bs) in
    let k = length-take n (b ∷ bs) in
    let ih = parts_of-joined fuel n (drop n (b ∷ bs)) (omega arith) p in
    (
      ap (◌++◌ (take n (b ∷ bs))) ih.0 ∙ take-append-drop n (b ∷ bs),
      ((omega arith, omega arith), ih.1),
    )

-- The parts of a body are not empty, not over the frame size, and together they are the body.
pub joined-parts :
    (chunk : Bytes)
    → (joined (parts chunk) ≡ chunk) × All (IsPart response_chunk_bytes) (parts chunk)
unfolding parts
joined-parts chunk =
    parts_of-joined (length chunk) response_chunk_bytes chunk (omega arith) (omega arith)
