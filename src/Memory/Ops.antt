-- ===== src/Memory/Ops.antt =====
-- Edits of a list of entries: `_apply_ops`, `_op_index`, `_validate_entries`, `_entry_diff` and
-- `_capacity_state` of src/hermes_vylen_gateway/memory.py.
pub mod Laws
use hermes_vylen_gateway.Prelude.{
  ℕ, zero, suc, ◌+◌, ◌-◌, ◌*◌, Bool, true, false, not, String, List, [], ◌∷◌, ◌++◌, Option, none,
  some, ltb, leb, ◌==◌, ◌&&◌, ◌||◌, length, get_elem?, set, if◌then◌else◌,
}
use hermes_vylen_gateway.Prelude.Dict
use hermes_vylen_gateway.Prelude.Text.{Text, text_eq, strip}
use hermes_vylen_gateway.Memory.Entries.{render_entries}

-- `MemoryRPCError`, by its code; messages are left out
pub data MemoryError : Type 0 where
  bad_request : MemoryError
  bad_operation : MemoryError
  duplicate_entry : MemoryError
  risk_blocked : MemoryError
  limit_exceeded : MemoryError
  revision_conflict : MemoryError
  write_verify_failed : MemoryError
  invalid_file : MemoryError
  unreadable : MemoryError
  bad_snapshot : MemoryError
  snapshot_not_found : MemoryError
  bad_proposal : MemoryError
  proposal_not_found : MemoryError
  proposal_not_pending : MemoryError

pub data Answer {ℓ} (A : Type ℓ) : Type ℓ where
  ok : A → Answer A
  raised : MemoryError → Answer A

-- what int(op.get(key)) gives
pub data Index : Type 0 where
  not_an_integer : Index
  negative : Index
  at : ℕ → Index

-- An op of a request by its type, with str(op.get("content") or "") for the content.
pub data MemoryOp : Type 0 where
  add : Text → MemoryOp
  replace : Index → Text → MemoryOp
  remove : Index → MemoryOp
  reorder : Index → Index → MemoryOp
  unsupported : MemoryOp

-- `_op_index`; `limit` is the first index that is out of range
unfoldable pub op_index : Index → ℕ → Answer ℕ
op_index not_an_integer limit = raised bad_request
op_index negative limit = raised bad_request
op_index (at i) limit = if ltb i limit then ok i else raised bad_request

module _ {ℓ} {A : Type ℓ} where
  -- entries.pop(i)
  unfoldable pub pop : ℕ → List A → List A
  pop i [] = []
  pop zero (x ∷ xs) = xs
  pop (suc i) (x ∷ xs) = x ∷ pop i xs

  -- entries.insert(i, item)
  unfoldable pub insert : ℕ → A → List A → List A
  insert zero item xs = item ∷ xs
  insert (suc i) item [] = item ∷ []
  insert (suc i) item (x ∷ xs) = x ∷ insert i item xs

-- the entries with one moved; the index to insert at counts the list without it
unfoldable pub move : ℕ → ℕ → List Text → List Text
unfolding pop insert
move from to entries = elim (get_elem? entries from) [
  | none ↦ entries
  | some item ↦ insert (if ltb from to then to - 1 else to) item (pop from entries)
]

infixl 5 ◌>>=◌
abbrev pub ◌>>=◌ {ℓ κ} : {A : Type ℓ} {B : Type κ} → Answer A → (A → Answer B) → Answer B
ok a >>= f = f a
raised e >>= f = raised e

-- the stripped content of an op, which may not be empty
unfoldable pub content_of : Text → Answer Text
content_of text = elim (strip text) [ [] ↦ raised bad_request | c ∷ s ↦ ok (c ∷ s) ]

-- one round of `_apply_ops`
unfoldable pub apply_op : List Text → MemoryOp → Answer (List Text)
unfolding op_index content_of move
apply_op entries (add text) = do content ← content_of text; ok (entries ++ content ∷ [])
apply_op entries (replace index text) = do
  i ← op_index index (length entries)
  content ← content_of text
  ok (set entries i content)
apply_op entries (remove index) = do i ← op_index index (length entries); ok (pop i entries)
apply_op entries (reorder from_index to_index) = do
  from ← op_index from_index (length entries)
  to ← op_index to_index (length entries + 1)
  ok (move from to entries)
apply_op entries unsupported = raised bad_operation

-- `_apply_ops`
unfoldable pub apply_ops : List Text → List MemoryOp → Answer (List Text)
apply_ops entries [] = ok entries
apply_ops entries (op ∷ ops) = apply_op entries op >>= λ next. apply_ops next ops

-- the loop of `_validate_entries`; `scan` tells what `_scan_entry` finds
unfoldable pub validate_each : (Text → Bool) → List Text → List Text → Answer (Unit {0})
validate_each scan seen [] = ok tt
validate_each scan seen (entry ∷ entries) =
    let rest = validate_each scan (entry ∷ seen) entries in
    if Dict.contains entry seen
    then raised duplicate_entry
    else if scan entry
    then raised risk_blocked
    else rest

-- `_validate_entries`. The limit is 0 where the configured one is not positive.
unfoldable pub validate_entries : (Text → Bool) → ℕ → List Text → Answer (Unit {0})
unfolding validate_each
validate_entries scan limit entries = validate_each scan [] entries >>= λ _.
    if ltb 0 limit && ltb limit (length (render_entries entries))
    then raised limit_exceeded
    else ok tt

-- the elements of a list that are not in another, each once
unfoldable pub set_minus : List Text → List Text → List Text
set_minus [] others = []
set_minus (x ∷ xs) others =
    let rest = set_minus xs others in
    if Dict.contains x others || Dict.contains x xs then rest else x ∷ rest

-- the positions at which the entries are not the ones before
unfoldable pub count_changed : List Text → List Text → ℕ
count_changed before [] = 0
count_changed [] (x ∷ xs) = suc (count_changed [] xs)
count_changed (y ∷ ys) (x ∷ xs) =
    let rest = count_changed ys xs in if y == x then rest else suc rest

pub record EntryDiff : Type 0 where
  pub added : ℕ
  pub removed : ℕ
  pub changed : ℕ
  pub before_count : ℕ
  pub after_count : ℕ

-- `_entry_diff`
unfoldable pub entry_diff : List Text → List Text → EntryDiff
unfolding set_minus count_changed
entry_diff before after = record {
  added = length (set_minus after before);
  removed = length (set_minus before after);
  changed = count_changed before after;
  before_count = length before;
  after_count = length after;
}

pub data Capacity : Type 0 where
  invalid : Capacity
  full : Capacity
  near_capacity : Capacity
  watch : Capacity
  fine : Capacity

-- `_capacity_state`
unfoldable pub capacity_state : ℕ → ℕ → Capacity
capacity_state char_count zero = invalid
capacity_state char_count (suc n) =
    if leb (95 * suc n) (100 * char_count)
    then full
    else if leb (80 * suc n) (100 * char_count)
    then near_capacity
    else if leb (70 * suc n) (100 * char_count)
    then watch
    else fine
