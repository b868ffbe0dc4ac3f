-- ===== src/Memory/Proposals/Tests.antt =====
-- Runs and instances for the proposals of src/hermes_vylen_gateway/memory.py.
use hermes_vylen_gateway.Prelude.{◌≡◌, ◌≢◌, refl, false, [], ◌∷◌, none, some}
use hermes_vylen_gateway.Prelude.Dict
use hermes_vylen_gateway.Prelude.Text as Text
use hermes_vylen_gateway.Prelude.Text.{Text, text_eq, codes, strip, lstrip, join_words}
use hermes_vylen_gateway.Memory.Entries.{parse_entries, render_entries}
use hermes_vylen_gateway.Memory.Ops.{ok, add, apply_ops, apply_op, validate_entries}
use hermes_vylen_gateway.Memory.Files.{
  TargetFiles, holds, Outside, Checked, check_write, read_target_text,
}
use hermes_vylen_gateway.Memory.Entries.Newlines.{HasNoCr}
use hermes_vylen_gateway.Memory.Drafts.{draft_memory_entry}
use hermes_vylen_gateway.Memory.Proposals.{
  Target, memory, pending, applied, Proposal, MemoryDir, files_of, ProposalRequest, drafted,
  pending_proposal, create_memory_proposal, reject_memory_proposal, apply_memory_proposal,
}
use hermes_vylen_gateway.Memory.Proposals.Moves.{IsSound}
use hermes_vylen_gateway.Memory.Proposals.History.{
  Reach, here, next, creates, applies, AllSound, settled-stays,
}
use hermes_vylen_gateway.Memory.Proposals.Applied.{apply_memory_proposal-applied}

abbrev world : Target → Outside
world t = record {
  scan = λ s. false;
  hash = λ s. codes "0123abcd";
  limit = 100;
  stamp = codes "20250101T000000Z";
  random = codes "00ff";
}

abbrev empty_files : TargetFiles
empty_files = record { file = holds (codes "a"); snapshots = [] }

abbrev empty_dir : MemoryDir
empty_dir = record { memory_files = empty_files; user_files = empty_files; proposals = [] }

abbrev proposal_id : Text
proposal_id = codes "prop_20250101T000000Z_00ff00"

abbrev wish : ProposalRequest
wish = record {
  target = memory;
  source_text = codes " Remember  THIS : tea ";
  proposed_content = [];
  source_type = [];
  source_message_id = [];
  reason = [];
  confidence = none;
}

draft : draft_memory_entry (codes " Remember  THIS : tea ") ≡ codes "tea"
unfolding draft_memory_entry Text.is_space
draft = refl

abbrev proposed_dir : MemoryDir
proposed_dir = (create_memory_proposal world (codes "now") empty_dir proposal_id wish).0

empty-AllSound : AllSound empty_dir
unfolding Dict.get
empty-AllSound id p found = absurd (cc)

not_used : Dict.get proposal_id empty_dir.proposals ≡ none
unfolding Dict.get
not_used = refl

proposed-Reach : Reach empty_dir proposed_dir
proposed-Reach = next here (creates world (codes "now") proposal_id wish not_used refl)

dir_program : Unit {0}
unfolding create_memory_proposal Text.is_space drafted draft_memory_entry Dict.get Dict.put
    validate_entries parse_entries render_entries read_target_text pending_proposal
    reject_memory_proposal
dir_program = tt

abbrev rejected_dir : MemoryDir
rejected_dir = (reject_memory_proposal world (codes "now") proposed_dir proposal_id []).0

rejected_proposal : (p : Proposal) × (Dict.get proposal_id rejected_dir.proposals ≡ some p)
unfolding dir_program
rejected_proposal = (_, refl)

rejected-settled : rejected_proposal.0.status ≢ pending
unfolding dir_program rejected_proposal
rejected-settled h = cc

settled-stays_example :
    Dict.get proposal_id
      (apply_memory_proposal world (codes "later") rejected_dir proposal_id).0.proposals
    ≡ some rejected_proposal.0
settled-stays_example =
    settled-stays (next here (applies world (codes "later") proposal_id refl)) proposal_id
      (rejected_proposal.0) (rejected_proposal.1) rejected-settled

open_proposal : (p : Proposal) × (pending_proposal proposed_dir proposal_id ≡ ok p)
unfolding dir_program
open_proposal = (_, refl)

open_proposal-IsSound : IsSound open_proposal.0
unfolding dir_program open_proposal
open_proposal-IsSound = record { adds = refl; full = λ h. cc }

abbrev with_tea : Checked
with_tea = record { before_raw = codes "a"; after_entries = codes "a" ∷ codes "tea" ∷ [] }

tea-read : read_target_text (files_of open_proposal.0.target proposed_dir).file ≡ ok (codes "a")
unfolding dir_program open_proposal
tea-read = refl

tea-accepted :
    check_write
      (world open_proposal.0.target)
      (files_of open_proposal.0.target proposed_dir)
      (codes "0123abcd")
      (add open_proposal.0.content ∷ [])
    ≡ ok with_tea
unfolding dir_program open_proposal check_write apply_ops apply_op
tea-accepted = refl

tea-HasNoCr : HasNoCr (render_entries with_tea.after_entries)
unfolding render_entries
tea-HasNoCr = (refl, (refl, (refl, (refl, (refl, (refl, (refl, tt)))))))

apply_memory_proposal-applied_example :
    (d' : MemoryDir) × (q : Proposal) × (apply_memory_proposal world
        (codes "later")
        proposed_dir
        proposal_id
      ≡ (d', ok q))
    × ((files_of open_proposal.0.target d').file ≡ holds (render_entries with_tea.after_entries))
    × (Dict.get proposal_id d'.proposals ≡ some q)
    × (q.status ≡ applied)
    × (q.content ≡ open_proposal.0.content)
apply_memory_proposal-applied_example =
    apply_memory_proposal-applied world (codes "later") proposed_dir proposal_id (open_proposal.0)
      (codes "a") with_tea (open_proposal.1) open_proposal-IsSound tea-read tea-accepted tea-HasNoCr
