-- ===== src/ResponseBuffer/Extractor.antt =====
-- `ResponseIdExtractor` and `_try_extract_response_id` of
-- src/hermes_vylen_gateway/response_buffer.py. `loads` stands for json.loads; `none` is its error.
pub mod Chunking
use hermes_vylen_gateway.Prelude.{
  ℕ, zero, suc, ◌-◌, String, Bool, true, false, List, [], ◌∷◌, ◌++◌, Option, none, some, ltb, ◌&&◌,
  nat_beq, string_eq, ◌==◌, length, drop, if◌then◌else◌,
}
use hermes_vylen_gateway.ResponseBuffer.Text.{
  codes, bytes_beq, strip, after_prefix, split_lines, join_lines,
}

-- What json.loads returns, as far as the code looks at it: a `str`, a `dict`, or anything else.
mutual
  pub data Json : Type 0 where
    text : String → Json
    object : Fields → Json
    other : Json

  pub data Fields : Type 0 where
    end : Fields
    field : String → Json → Fields → Fields

unfoldable pub get_field : String → Fields → Option Json
get_field k end = none
get_field k (field j v fs) = if j == k then some v else get_field k fs

-- isinstance(rid, str) and rid
unfoldable pub non_empty_text : Option Json → Option String
non_empty_text none = none
non_empty_text (some (text s)) = if s == "" then none else some s
non_empty_text (some (object fs)) = none
non_empty_text (some other) = none

-- `event_type` and `data_lines` of the loop over the lines
pub record SseEvent : Type 0 where
  pub event_type : Option (List ℕ)
  pub data_lines : List (List ℕ)

unfoldable pub read_line : List ℕ → SseEvent → SseEvent
read_line line e = elim (after_prefix (codes "event:") line) [
  | some rest ↦ record e { event_type = some (strip rest) }
  | none ↦ elim (after_prefix (codes "data:") line) [
    | some rest ↦ record e { data_lines = e.data_lines ++ strip rest ∷ [] }
    | none ↦ e
  ]
]

unfoldable pub read_lines : List (List ℕ) → SseEvent → SseEvent
unfolding read_line
read_lines [] e = e
read_lines (l ∷ ls) e = read_lines ls (read_line l e)

id_of : Option Json → Option String → Option String
id_of (some (object fs)) flat = elim (non_empty_text (get_field "id" fs)) [
  | some rid ↦ some rid
  | none ↦ flat
]
id_of (some (text s)) flat = flat
id_of (some other) flat = flat
id_of none flat = flat

-- the id of a decoded object: that of its `response`, or its own
unfoldable pub object_id : Option Json → Option String
unfolding id_of get_field non_empty_text
object_id none = none
object_id (some (text s)) = none
object_id (some (object fs)) = id_of (get_field "response" fs) (non_empty_text (get_field "id" fs))
object_id (some other) = none

-- The decoded event type equals the ASCII text exactly if its bytes do.
is_created : Option (List ℕ) → Bool
is_created none = false
is_created (some t) = bytes_beq t (codes "response.created")

module _ (loads : List ℕ → Option Json) where
  from_data : List (List ℕ) → Option String
  from_data [] = none
  from_data (l ∷ ls) = object_id (loads (join_lines (l ∷ ls)))

  unfoldable pub try_extract_response_id : List ℕ → Option String
  unfolding read_lines object_id is_created from_data
  try_extract_response_id event_bytes =
      let e =
        read_lines (split_lines event_bytes) (record { event_type = none; data_lines = [] }) in
      if is_created e.event_type then from_data e.data_lines else none

pub record ResponseIdExtractor : Type 0 where
  pub buffer : List ℕ
  pub found : Option String
  pub done : Bool

abbrev pub new_extractor : ResponseIdExtractor
new_extractor = record { buffer = []; found = none; done = false }

-- 1 << 16
abbrev pub parser_buffer_soft_cap : ℕ
parser_buffer_soft_cap = 65536

-- the tail that is kept when the buffer is over the cap
unfoldable pub trim : List ℕ → List ℕ
trim buf = if ltb parser_buffer_soft_cap (length buf) then drop (length buf - 32768) buf else buf

consed : ℕ → Option (List ℕ × List ℕ) → Option (List ℕ × List ℕ)
consed b none = none
consed b (some (event, rest)) = some (b ∷ event, rest)

-- find(b"\n\n"): what stands before the first blank line, and what stands behind it
unfoldable pub split_event : List ℕ → Option (List ℕ × List ℕ)
unfolding consed
split_event [] = none
split_event (a ∷ []) = none
split_event (a ∷ b ∷ bs) =
    if nat_beq a 10 && nat_beq b 10 then some ([], bs) else consed a (split_event (b ∷ bs))

module _ (extract : List ℕ → Option String) where
  -- the `while True` loop: the buffer that is left, and the id
  unfoldable pub scan : ℕ → List ℕ → List ℕ × Option String
  scan zero buf = (buf, none)
  scan (suc fuel) buf = elim (split_event buf) [
    | none ↦ (trim buf, none)
    | some (event, rest) ↦ elim (extract event) [
      | some rid ↦ ([], some rid)
      | none ↦ scan fuel rest
    ]
  ]

  unfoldable pub feed : ResponseIdExtractor → List ℕ → ResponseIdExtractor × Option String
  feed x [] = (x, none)
  feed x (b ∷ bs) =
      let buf = x.buffer ++ b ∷ bs in
      let (left, rid) = scan (suc (length buf)) buf in
      if x.done then (x, none) else elim rid [
        | none ↦ (record x { buffer = left }, none)
        | some r ↦ (record { buffer = left; found = some r; done = true }, some r)
      ]
