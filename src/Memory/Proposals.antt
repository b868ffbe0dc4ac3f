-- ===== src/Memory/Proposals.antt =====
-- The proposals for the memory files in src/hermes_vylen_gateway/memory.py, and the requests that
-- create, change, apply and reject them. A request runs to its end before the next one. A file that
-- does not hold a proposal counts as not there.
pub mod Moves
pub mod History
pub mod Applied
mod Tests
use hermes_vylen_gateway.Prelude.{
  ℕ, Bool, false, List, [], ◌∷◌, ◌++◌, Option, none, some, leb, ◌+◌, ◌==◌, nat_eq, ◌&&◌, ◌||◌,
  length, if◌then◌else◌,
}
use hermes_vylen_gateway.Prelude.Dict
use hermes_vylen_gateway.Prelude.Dict.{Dict}
use hermes_vylen_gateway.Prelude.Text.{Text, text_eq, codes, strip, lstrip, join_words}
use hermes_vylen_gateway.Memory.Drafts.{draft_memory_entry}
use hermes_vylen_gateway.Memory.Entries.{parse_entries}
use hermes_vylen_gateway.Memory.Ops.{
  bad_request, bad_proposal, proposal_not_found, proposal_not_pending, Answer, ok, raised, MemoryOp,
  add, ◌>>=◌, validate_entries,
}
use hermes_vylen_gateway.Memory.Files.{
  TargetFiles, read_target_text, matches, is_hex, literally, repeated, stamp_pattern, Outside,
  Preview, preview_memory_write, write_memory,
}

-- TARGETS
pub data Target : Type 0 where
  memory : Target
  user : Target

pub data Status : Type 0 where
  pending : Status
  applied : Status
  rejected : Status

pub record Proposal : Type 0 where
  pub target : Target
  pub status : Status
  pub ops : List MemoryOp
  pub source_type : Text
  pub source_message_id : Text
  pub reason : Text
  pub reject_reason : Text
  pub confidence : Option ℕ
  pub created_at : Text
  pub updated_at : Text
  pub applied_at : Text
  pub rejected_at : Text
  pub new_revision_hash : Text
  pub snapshot_id : Text
  pub content : Text
  pub content_hash : Text
  pub char_count : ℕ

-- The files of the memory directory.
pub record MemoryDir : Type 0 where
  pub memory_files : TargetFiles
  pub user_files : TargetFiles
  pub proposals : Dict Text Proposal

abbrev pub files_of : Target → MemoryDir → TargetFiles
files_of memory d = d.memory_files
files_of user d = d.user_files

abbrev pub with_files : Target → TargetFiles → MemoryDir → MemoryDir
with_files memory files d = record d { memory_files = files }
with_files user files d = record d { user_files = files }

-- the drafted entry, which may not be empty
unfoldable pub drafted : Text → Answer Text
unfolding draft_memory_entry
drafted text = elim (draft_memory_entry text) [ [] ↦ raised bad_proposal | c ∷ s ↦ ok (c ∷ s) ]

abbrev pub or_else : Text → Text → Text
or_else [] other = other
or_else (c ∷ s) other = c ∷ s

-- `_valid_proposal_id`
unfoldable pub valid_proposal_id : Text → Bool
unfolding matches
valid_proposal_id id =
    matches (literally (codes "prop_") ++ (stamp_pattern ++ repeated 6 is_hex)) id

-- `_proposal_by_id` and `_require_pending_proposal`
unfoldable pub proposal_by_id : MemoryDir → Text → Answer Proposal
unfolding valid_proposal_id
proposal_by_id d id =
    if valid_proposal_id id
    then elim (Dict.get id d.proposals) [ none ↦ raised proposal_not_found | some p ↦ ok p ]
    else raised bad_proposal

abbrev pub require_pending : Status → Proposal → Answer Proposal
require_pending pending p = ok p
require_pending _ p = raised proposal_not_pending

unfoldable pub pending_proposal : MemoryDir → Text → Answer Proposal
unfolding proposal_by_id
pending_proposal d id = proposal_by_id d id >>= λ p. require_pending p.status p

-- `_write_proposal` of a proposal that a request has made
abbrev pub write_proposal : MemoryDir → Text → Answer Proposal → MemoryDir × Answer Proposal
write_proposal d id (raised e) = (d, raised e)
write_proposal d id (ok p) = (record d { proposals = Dict.put id p d.proposals }, ok p)

-- What a request to create a proposal says, with the number that `_bounded_confidence` makes of it.
pub record ProposalRequest : Type 0 where
  pub target : Target
  pub source_text : Text
  pub proposed_content : Text
  pub source_type : Text
  pub source_message_id : Text
  pub reason : Text
  pub confidence : Option ℕ

-- a proposal that `create_memory_proposal` makes
abbrev pub first_proposal : (Text → Text) → Text → ProposalRequest → Text → Proposal
first_proposal hash now r content = record {
  target = r.target;
  status = pending;
  ops = add content ∷ [];
  source_type = or_else (strip r.source_type) (codes "manual");
  source_message_id = strip r.source_message_id;
  reason = strip (or_else r.reason (codes "User requested durable memory"));
  reject_reason = [];
  confidence = r.confidence;
  created_at = now;
  updated_at = now;
  applied_at = [];
  rejected_at = [];
  new_revision_hash = [];
  snapshot_id = [];
  content = content;
  content_hash = hash content;
  char_count = length content;
}

-- a proposal with another content, as `update_memory_proposal` leaves it
abbrev pub revised : (Text → Text) → Text → Text → Text → Proposal → Proposal
revised hash now reason content p = record p {
  ops = add content ∷ [];
  content = content;
  content_hash = hash content;
  char_count = length content;
  updated_at = now;
  reason = or_else (strip reason) p.reason;
}

abbrev pub rejection : Text → Text → Proposal → Proposal
rejection now reason p = record p {
  status = rejected;
  updated_at = now;
  rejected_at = now;
  reject_reason = or_else (strip reason) p.reject_reason;
}

abbrev pub application : Text → Preview → Text → Proposal → Proposal
application now preview snapshot_id p = record p {
  status = applied;
  updated_at = now;
  applied_at = now;
  new_revision_hash = preview.new_revision_hash;
  snapshot_id = snapshot_id;
}

-- "ops must be a non-empty array", of `_parse_write_request`
abbrev pub non_empty : List MemoryOp → Answer (List MemoryOp)
non_empty [] = raised bad_request
non_empty (op ∷ ops) = ok (op ∷ ops)

-- proposal.get("reason") or "Vylen memory proposal", and the strip of `_parse_write_request`
abbrev pub write_reason : Proposal → Text
write_reason p = strip (or_else p.reason (codes "Vylen memory proposal"))

-- What a request takes from outside, for each of the targets.
module _ (o : Target → Outside) (now : Text) where
  -- the content with which an entry is added to those that there are
  unfoldable pub checked_content : MemoryDir → Target → Text → Answer Text
  unfolding drafted
  checked_content d target text = do
    content ← drafted text
    current ← read_target_text (files_of target d).file
    _ ← validate_entries (o target).scan (o target).limit (parse_entries current ++ content ∷ [])
    ok content

  -- `create_memory_proposal`, which makes the id
  unfoldable pub create_memory_proposal :
      MemoryDir → Text → ProposalRequest → MemoryDir × Answer Proposal
  unfolding checked_content
  create_memory_proposal d id r = write_proposal d id (
      checked_content d r.target (or_else (strip r.proposed_content) (strip r.source_text))
      >>= λ content. ok (first_proposal (o r.target).hash now r content))

  -- `update_memory_proposal`
  unfoldable pub update_memory_proposal :
      MemoryDir → Text → Text → Text → MemoryDir × Answer Proposal
  unfolding checked_content pending_proposal
  update_memory_proposal d id proposed_content reason = write_proposal d id (
      pending_proposal d id >>= λ p. checked_content d p.target proposed_content >>= λ content.
      ok (revised (o p.target).hash now reason content p))

  -- `reject_memory_proposal`
  unfoldable pub reject_memory_proposal : MemoryDir → Text → Text → MemoryDir × Answer Proposal
  unfolding pending_proposal
  reject_memory_proposal d id reason =
      write_proposal d id (pending_proposal d id >>= λ p. ok (rejection now reason p))

  -- `preview_memory_proposal`
  unfoldable pub preview_memory_proposal : MemoryDir → Text → Answer Preview
  unfolding pending_proposal preview_memory_write
  preview_memory_proposal d id = do
    p ← pending_proposal d id
    text ← read_target_text (files_of p.target d).file
    ops ← non_empty p.ops
    preview_memory_write (o p.target) (files_of p.target d) ((o p.target).hash text) ops

  -- the text that an applied proposal is written on, and its ops
  unfoldable pub check_apply : MemoryDir → Text → Answer (Proposal × (Text × List MemoryOp))
  unfolding pending_proposal
  check_apply d id = do
    p ← pending_proposal d id
    text ← read_target_text (files_of p.target d).file
    ops ← non_empty p.ops
    ok (p, (text, ops))

  -- what follows the write; a write that raises may have changed the files
  abbrev pub finish_apply :
      MemoryDir
      → Text
      → Proposal
      → TargetFiles × Answer (Preview × Text)
      → MemoryDir × Answer Proposal
  finish_apply d id p (files, raised e) = (with_files p.target files d, raised e)
  finish_apply d id p (files, ok (preview, snapshot_id)) =
      write_proposal (with_files p.target files d) id (ok (application now preview snapshot_id p))

  -- `apply_memory_proposal`
  unfoldable pub apply_memory_proposal : MemoryDir → Text → MemoryDir × Answer Proposal
  unfolding check_apply write_memory
  apply_memory_proposal d id = elim (check_apply d id) [
    | raised e ↦ (d, raised e)
    | ok (p, (text, ops)) ↦ finish_apply d id p (
        write_memory (o p.target) (files_of p.target d) ((o p.target).hash text) ops
          (write_reason p))
  ]
