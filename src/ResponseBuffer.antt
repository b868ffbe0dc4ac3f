-- ===== src/ResponseBuffer.antt =====
-- src/hermes_vylen_gateway/response_buffer.py: the chunks of responses in flight, the registry of
-- them, and the scan for a response id. A buffer is shared by its writer, the registry and the
-- readers that resume it, so it lives in a heap and they hold its index.
pub mod Sweep
pub mod Text
pub mod Extractor
mod Tests
use hermes_vylen_gateway.Prelude.{
  ℕ, ◌+◌, ◌-◌, String, Bool, true, false, List, [], ◌∷◌, ◌++◌, Option, none, some, ltb, ◌&&◌,
  length, drop, get_elem?, set, string_eq, if◌then◌else◌,
}
use hermes_vylen_gateway.Prelude.Dict
use hermes_vylen_gateway.Prelude.Dict.{Dict, remove_all}

abbrev pub Bytes : Type 0
Bytes = List ℕ

abbrev pub Headers : Type 0
Headers = Dict String String

pub record ResponseBuffer : Type 0 where
  pub response_id : String
  pub status : ℕ
  pub headers : Headers
  pub chunks : List Bytes
  pub total_bytes : ℕ
  pub complete : Bool
  pub ended_at : Option ℕ
  pub progressed : Bool

unfoldable pub append : ResponseBuffer → Bytes → ResponseBuffer
append buf [] = buf
append buf (b ∷ bs) = record buf {
  chunks = buf.chunks ++ (b ∷ bs) ∷ [];
  total_bytes = buf.total_bytes + length (b ∷ bs);
  progressed = true;
}

unfoldable pub finalize : ResponseBuffer → ℕ → ResponseBuffer
finalize buf now = record buf { complete = true; ended_at = some now; progressed = true }

abbrev pub cursor : ResponseBuffer → ℕ
cursor buf = length buf.chunks

-- for a cursor that is not negative
abbrev pub slice_from : ResponseBuffer → ℕ → List Bytes
slice_from buf after_cursor = drop after_cursor buf.chunks

pub record ResponseBufferRegistry : Type 0 where
  pub heap : List ResponseBuffer
  pub buffers : Dict String ℕ
  pub grace_seconds : ℕ
  pub max_bytes : ℕ

-- ResponseBuffer.__init__
abbrev pub new_buffer : String → ℕ → Headers → ResponseBuffer
new_buffer response_id status headers = record {
  response_id = response_id;
  status = status;
  headers = headers;
  chunks = [];
  total_bytes = 0;
  complete = false;
  ended_at = none;
  progressed = false;
}

unfoldable pub create : ResponseBufferRegistry → String → ℕ → Headers → ResponseBufferRegistry × ℕ
create r response_id status headers =
    let buf = new_buffer response_id status headers in
    let ref = length r.heap in
    (record r { heap = r.heap ++ buf ∷ []; buffers = Dict.put response_id ref r.buffers }, ref)

unfoldable pub get : ResponseBufferRegistry → String → Option ℕ
get r response_id = Dict.get response_id r.buffers

unfoldable pub drop_buffer : ResponseBufferRegistry → String → ResponseBufferRegistry
drop_buffer r response_id = record r { buffers = Dict.remove response_id r.buffers }

-- the object behind a reference is changed in place
unfoldable pub update :
    ResponseBufferRegistry → ℕ → (ResponseBuffer → ResponseBuffer) → ResponseBufferRegistry
update r ref f = elim (get_elem? r.heap ref) [
  | none ↦ r
  | some buf ↦ record r { heap = set r.heap ref (f buf) }
]

ended_before : ℕ → ℕ → Option ℕ → Bool
ended_before now grace none = false
ended_before now grace (some ended_at) = ltb grace (now - ended_at)

-- the tests of the loop of `sweep`
unfoldable pub is_evictable : ResponseBufferRegistry → ℕ → ResponseBuffer → Bool
unfolding ended_before
is_evictable r now buf =
    if ltb r.max_bytes buf.total_bytes
    then true
    else buf.complete && ended_before now r.grace_seconds buf.ended_at

unfoldable pub evictable_at : ResponseBufferRegistry → ℕ → ℕ → Bool
unfolding is_evictable
evictable_at r now ref = elim (get_elem? r.heap ref) [
  | none ↦ false
  | some buf ↦ is_evictable r now buf
]

unfoldable pub to_drop : ResponseBufferRegistry → ℕ → Dict String ℕ → List String
unfolding evictable_at
to_drop r now [] = []
to_drop r now ((rid, ref) ∷ d) =
    let rest = to_drop r now d in if evictable_at r now ref then rid ∷ rest else rest

unfoldable pub sweep : ResponseBufferRegistry → ℕ → ResponseBufferRegistry × ℕ
unfolding to_drop
sweep r now =
    let rids = to_drop r now r.buffers in
    (record r { buffers = remove_all rids r.buffers }, length rids)
