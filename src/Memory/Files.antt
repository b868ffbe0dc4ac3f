-- ===== src/Memory/Files.antt =====
-- The memory files, their snapshots and the edits of them in src/hermes_vylen_gateway/memory.py. A file
-- lock holds from the read to the write of an edit, so that an edit is one step. An exception leaves
-- what was written before it.
pub mod Recover
use hermes_vylen_gateway.Prelude.{
  ℕ, zero, suc, ◌+◌, Bool, true, false, not, String, List, [], ◌∷◌, ◌++◌, Option, none, some, leb,
  ◌==◌, nat_eq, ◌&&◌, ◌||◌, length, take, if◌then◌else◌,
}
use hermes_vylen_gateway.Prelude.Dict
use hermes_vylen_gateway.Prelude.Dict.{Dict}
use hermes_vylen_gateway.Prelude.Text.{Text, text_eq, codes, strip}
use hermes_vylen_gateway.Memory.Entries.{parse_entries, render_entries, universal_newlines}
use hermes_vylen_gateway.Memory.Ops.{
  MemoryError, bad_request, revision_conflict, write_verify_failed, invalid_file, unreadable,
  bad_snapshot, snapshot_not_found, Answer, ok, raised, MemoryOp, ◌>>=◌, apply_ops,
  validate_entries, EntryDiff, entry_diff,
}

-- What a path leads to: no file, a text, or a file that cannot be read as one.
pub data FileState : Type 0 where
  missing : FileState
  holds : Text → FileState
  not_utf8 : FileState
  os_error : FileState

pub record Snapshot : Type 0 where
  pub body : Text
  pub revision_hash : Text
  pub char_count : ℕ
  pub entry_count : ℕ
  pub reason : Text

-- one of the targets "memory" and "user": its file, and its snapshot directory
pub record TargetFiles : Type 0 where
  pub file : FileState
  pub snapshots : Dict Text Snapshot

-- `_read_target_text`
unfoldable pub read_target_text : FileState → Answer Text
unfolding universal_newlines
read_target_text missing = ok []
read_target_text (holds text) = ok (universal_newlines text)
read_target_text not_utf8 = raised invalid_file
read_target_text os_error = raised unreadable

-- re.fullmatch of a text, character by character
unfoldable pub matches : List (ℕ → Bool) → Text → Bool
matches [] [] = true
matches [] (c ∷ s) = false
matches (p ∷ ps) [] = false
matches (p ∷ ps) (c ∷ s) = if p c then matches ps s else false

abbrev pub is_digit : ℕ → Bool
is_digit c = leb b'0' c && leb c b'9'

abbrev pub is_hex : ℕ → Bool
is_hex c = is_digit c || (leb b'a' c && leb c b'f')

abbrev pub literally : Text → List (ℕ → Bool)
literally [] = []
literally (c ∷ s) = (λ d. d == c) ∷ literally s

abbrev pub repeated {ℓ} : {A : Type ℓ} → ℕ → A → List A
repeated zero x = []
repeated (suc n) x = x ∷ repeated n x

-- [0-9]{8}T[0-9]{6}Z_
abbrev pub stamp_pattern : List (ℕ → Bool)
stamp_pattern =
    repeated 8 is_digit
    ++ (literally (codes "T") ++ (repeated 6 is_digit ++ literally (codes "Z_")))

-- `_valid_snapshot_id`
unfoldable pub valid_snapshot_id : Text → Bool
unfolding matches
valid_snapshot_id id =
    matches (literally (codes "snap_") ++ (stamp_pattern ++ repeated 12 is_hex)) id

-- What an edit takes from outside: `_scan_entry`, `_hash_text`, the character limit of the target, and
-- the time stamp and the four random hexadecimal digits of a new snapshot's id.
pub record Outside : Type 0 where
  pub scan : Text → Bool
  pub hash : Text → Text
  pub limit : ℕ
  pub stamp : Text
  pub random : Text

-- the id that `_create_snapshot` makes
abbrev pub snapshot_id_for : Outside → Text → Text
snapshot_id_for o revision_hash =
    codes "snap_" ++ (o.stamp ++ (codes "_" ++ (take 8 revision_hash ++ o.random)))

-- `_create_snapshot`
unfoldable pub create_snapshot : Outside → TargetFiles → Text → Text → Text → TargetFiles
create_snapshot o t text revision_hash reason =
    let snapshot : Snapshot = record {
      body = text;
      revision_hash = revision_hash;
      char_count = length text;
      entry_count = length (parse_entries text);
      reason = reason;
    } in
    record t { snapshots = Dict.put (snapshot_id_for o revision_hash) snapshot t.snapshots }

-- the part of `_preview_response` that depends on the entries
pub record Preview : Type 0 where
  pub previous_revision_hash : Text
  pub new_revision_hash : Text
  pub before_entries : List Text
  pub after_entries : List Text
  pub diff : EntryDiff

abbrev pub preview_response : List Text → List Text → Text → Text → Preview
preview_response before after previous new = record {
  previous_revision_hash = previous;
  new_revision_hash = new;
  before_entries = before;
  after_entries = after;
  diff = entry_diff before after;
}

-- what an edit has read and checked: the text, and the entries behind the edit
pub record Checked : Type 0 where
  pub before_raw : Text
  pub after_entries : List Text

-- the common part of `preview_memory_write` and `write_memory`: read, compare, apply and validate
unfoldable pub check_write : Outside → TargetFiles → Text → List MemoryOp → Answer Checked
unfolding read_target_text
check_write o t expected_hash ops = do
  before_raw ← read_target_text t.file
  _ ← (if expected_hash == o.hash before_raw then ok before_raw else raised revision_conflict)
  after ← apply_ops (parse_entries before_raw) ops
  _ ← validate_entries o.scan o.limit after
  ok (record { before_raw = before_raw; after_entries = after })

-- `preview_memory_write`
unfoldable pub preview_memory_write : Outside → TargetFiles → Text → List MemoryOp → Answer Preview
unfolding check_write
preview_memory_write o t expected_hash ops = check_write o t expected_hash ops >>= λ c. ok (
    preview_response (parse_entries c.before_raw) c.after_entries (o.hash c.before_raw)
      (o.hash (render_entries c.after_entries)))

-- Write a text under a new snapshot of the old one, read it again and compare the hashes.
unfoldable pub replace_text :
    Outside → TargetFiles → Text → Text → Text → List Text → TargetFiles × Answer (Preview × Text)
unfolding create_snapshot
replace_text o t before_raw after_raw reason after_entries =
    let previous_hash = o.hash before_raw in
    let kept = create_snapshot o t before_raw previous_hash reason in
    let written = record kept { file = holds after_raw } in
    let new_hash = o.hash (universal_newlines after_raw) in
    if new_hash == o.hash after_raw
    then (
      written,
      ok (
        preview_response (parse_entries before_raw) after_entries previous_hash new_hash,
        snapshot_id_for o previous_hash,
      ),
    )
    else (written, raised write_verify_failed)

-- `write_memory`: the new files, with the response and the id of the snapshot
unfoldable pub write_memory :
    Outside → TargetFiles → Text → List MemoryOp → Text → TargetFiles × Answer (Preview × Text)
unfolding check_write replace_text
write_memory o t expected_hash ops reason = elim (check_write o t expected_hash ops) [
  | raised e ↦ (t, raised e)
  | ok c ↦ replace_text o t c.before_raw (render_entries c.after_entries) reason c.after_entries
]

-- the checks of `restore_memory_snapshot`: the snapshot's body and the text of the file
unfoldable pub check_restore : Outside → TargetFiles → Text → Text → Answer (Text × Text)
unfolding read_target_text valid_snapshot_id
check_restore o t snapshot_id expected_hash = do
  _ ← (if valid_snapshot_id snapshot_id then ok snapshot_id else raised bad_snapshot)
  snapshot ← (elim (Dict.get snapshot_id t.snapshots) [
    | none ↦ raised snapshot_not_found
    | some snapshot ↦ ok snapshot
  ])
  _ ← validate_entries o.scan o.limit (parse_entries (universal_newlines snapshot.body))
  before_raw ← read_target_text t.file
  if expected_hash == [] || expected_hash == o.hash before_raw
      then ok (universal_newlines snapshot.body, before_raw)
      else raised revision_conflict

-- `restore_memory_snapshot`
unfoldable pub restore_memory_snapshot :
    Outside → TargetFiles → Text → Text → Text → TargetFiles × Answer (Preview × Text)
unfolding check_restore replace_text
restore_memory_snapshot o t snapshot_id expected_hash reason =
    elim (check_restore o t snapshot_id expected_hash) [
      | raised e ↦ (t, raised e)
      | ok (body, before_raw) ↦
          replace_text o t before_raw body
            (codes "rollback before restoring " ++ (snapshot_id ++ (codes ": " ++ reason)))
            (parse_entries body)
    ]

-- `create_memory_snapshot`
unfoldable pub create_memory_snapshot :
    Outside → TargetFiles → Text → Text → TargetFiles × Answer Text
unfolding create_snapshot read_target_text
create_memory_snapshot o t expected_hash reason = elim (read_target_text t.file) [
  | raised e ↦ (t, raised e)
  | ok text ↦
      let revision_hash = o.hash text in
      if expected_hash == [] || expected_hash == revision_hash
      then (create_snapshot o t text revision_hash reason, ok (snapshot_id_for o revision_hash))
      else (t, raised revision_conflict)
]
