-- ===== src/Memory/Proposals/Moves.antt =====
-- The life of a proposal in src/hermes_vylen_gateway/memory.py, over any sequence of requests.
use hermes_vylen_gateway.Prelude.{
  ◌≡◌, ◌≢◌, refl, sym, ap, ◌∙◌, inl, inr, ◌⊎◌, List, [], ◌∷◌, ◌++◌, Option, none, some, Bool-cases,
  subst,
}
use hermes_vylen_gateway.Prelude.Dict
use hermes_vylen_gateway.Prelude.Text.{Text, strip, text_eq}
use hermes_vylen_gateway.Memory.Entries.{parse_entries}
use hermes_vylen_gateway.Memory.Ops.{
  bad_proposal, proposal_not_found, Answer, ok, raised, add, ◌>>=◌, MemoryOp, validate_entries,
}
use hermes_vylen_gateway.Memory.Ops.Laws.{>>=-eq-ok}
use hermes_vylen_gateway.Memory.Files.{read_target_text, TargetFiles, Outside, Preview}
use hermes_vylen_gateway.Memory.Drafts.{draft_memory_entry}
use hermes_vylen_gateway.Memory.Proposals.{
  Status, Target, memory, user, pending, applied, rejected, Proposal, MemoryDir, files_of,
  with_files, or_else, non_empty, drafted, valid_proposal_id, proposal_by_id, require_pending,
  pending_proposal, write_proposal, ProposalRequest, first_proposal, revised, rejection,
  application, checked_content, create_memory_proposal, update_memory_proposal,
  reject_memory_proposal, check_apply, finish_apply, apply_memory_proposal,
}

-- What a proposal would do is to add the content that it shows, which is not empty.
pub record IsSound (p : Proposal) : Type 0 where
  pub adds : p.ops ≡ add p.content ∷ []
  pub full : p.content ≢ []

-- What may be put in the place of what there was: a new sound proposal that is pending, or, for one that
-- is pending, one that is sound if it was.
abbrev pub May : Option Proposal → Proposal → Type 0
May none q = (q.status ≡ pending) × IsSound q
May (some p) q = (p.status ≡ pending) × (IsSound p → IsSound q)

-- One request changes at most one proposal.
abbrev pub Moved : MemoryDir → MemoryDir → Type 0
Moved d e =
    (e.proposals ≡ d.proposals)
    ⊎ ((id : Text) × (q : Proposal) × (e.proposals ≡ Dict.put id q d.proposals)
        × May (Dict.get id d.proposals) q)

require_pending-eq-ok :
    (s : Status) (p q : Proposal) → require_pending s p ≡ ok q → (p ≡ q) × (s ≡ pending)
require_pending-eq-ok pending p q h = (cc, refl)
require_pending-eq-ok applied p q h = absurd (cc)
require_pending-eq-ok rejected p q h = absurd (cc)

found-eq-ok :
    (o : Option Proposal) (p : Proposal)
    → ◌≡◌ {A = Answer Proposal} (elim o [ none ↦ raised proposal_not_found | some q ↦ ok q ]) (ok p)
    → o ≡ some p
found-eq-ok none p h = absurd (cc)
found-eq-ok (some q) p h = cc

proposal_by_id-eq-ok :
    (d : MemoryDir) (id : Text) (p : Proposal)
    → proposal_by_id d id ≡ ok p
    → Dict.get id d.proposals ≡ some p
unfolding proposal_by_id
proposal_by_id-eq-ok d id p h = elim (Bool-cases (valid_proposal_id id)) [
  | inl valid ↦ found-eq-ok (Dict.get id d.proposals) p (rw (valid, proposal_by_id) at h)
  | inr other ↦ absurd (let u : raised bad_proposal ≡ ok p = rw (other, proposal_by_id) at h in cc)
]

-- A pending proposal is there, and pending.
pub pending_proposal-eq-ok :
    (d : MemoryDir) (id : Text) (p : Proposal)
    → pending_proposal d id ≡ ok p
    → (Dict.get id d.proposals ≡ some p) × (p.status ≡ pending)
unfolding pending_proposal
pending_proposal-eq-ok d id p h =
    let (q, there, opened) = >>=-eq-ok (proposal_by_id d id) _ h in
    let (same, is_pending) = require_pending-eq-ok q.status q p opened in
    (
      proposal_by_id-eq-ok d id q there ∙ ap some same,
      subst (λ r. r.status ≡ pending) same is_pending,
    )

-- A request whose answer is written under an id.
write_proposal-Moved :
    (d : MemoryDir) (id : Text) (a : Answer Proposal)
    → ((q : Proposal) → a ≡ ok q → May (Dict.get id d.proposals) q)
    → Moved d (write_proposal d id a).0
write_proposal-Moved d id (raised e) may = inl refl
write_proposal-Moved d id (ok q) may = inr (id, q, refl, may q refl)

ok-injective {ℓ} : {A : Type ℓ} {x y : A} → ok x ≡ ok y → x ≡ y
ok-injective h = cc

drafted-full : (text content : Text) → drafted text ≡ ok content → content ≢ []
unfolding drafted
drafted-full text content h = go (draft_memory_entry text) refl
  where
    go : (t : Text) → draft_memory_entry text ≡ t → content ≢ []
    go [] e = absurd (let u : raised bad_proposal ≡ ok content = rw (e, drafted) at h in cc)
    go (c ∷ s) e = let u : ok (c ∷ s) ≡ ok content = rw (e, drafted) at h in λ empty. cc

pub with_files-proposals :
    (t : Target) (files : TargetFiles) (d : MemoryDir)
    → (with_files t files d).proposals ≡ d.proposals
with_files-proposals memory files d = refl
with_files-proposals user files d = refl

module _ (o : Target → Outside) (now : Text) where
  checked_content-full :
      (d : MemoryDir) (target : Target) (text content : Text)
      → checked_content o now d target text ≡ ok content
      → content ≢ []
  unfolding checked_content
  checked_content-full d target text content h =
      let (c, draft, rest) = >>=-eq-ok (drafted text) _ h in
      let (current, read, rest') = >>=-eq-ok (read_target_text (files_of target d).file) _ rest in
      let (u, valid, done) =
        >>=-eq-ok
          (validate_entries (o target).scan (o target).limit (parse_entries current ++ c ∷ [])) _
          rest' in
      subst (λ t. t ≢ []) (ok-injective done) (drafted-full text c draft)

  -- A new id that is not in use.
  pub create-Moved :
      (d : MemoryDir) (id : Text) (r : ProposalRequest)
      → Dict.get id d.proposals ≡ none
      → Moved d (create_memory_proposal o now d id r).0
  unfolding create_memory_proposal
  create-Moved d id r fresh =
      let text = or_else (strip r.proposed_content) (strip r.source_text) in
      let a = checked_content o now d r.target text in
      let f : Text → Answer Proposal =
        λ content. ok (first_proposal (o r.target).hash now r content) in
      write_proposal-Moved d id (a >>= f) (λ q made.
        let (content, checked, done) = >>=-eq-ok a f made in
        subst (λ x. May x q) (sym fresh)
          (subst (λ p. (p.status ≡ pending) × IsSound p) (ok-injective done)
            (
              refl,
              record { adds = refl; full = checked_content-full d r.target text content checked },
            )))

  pub update-Moved :
      (d : MemoryDir) (id proposed_content reason : Text)
      → Moved d (update_memory_proposal o now d id proposed_content reason).0
  unfolding update_memory_proposal
  update-Moved d id proposed_content reason =
      let g : Proposal → Text → Answer Proposal =
        λ p content. ok (revised (o p.target).hash now reason content p) in
      let f : Proposal → Answer Proposal =
        λ p. checked_content o now d p.target proposed_content >>= g p in
      write_proposal-Moved d id (pending_proposal d id >>= f) (λ q made.
        let (p, there, rest) = >>=-eq-ok (pending_proposal d id) f made in
        let (content, checked, done) =
          >>=-eq-ok (checked_content o now d p.target proposed_content) (g p) rest in
        let (found, is_pending) = pending_proposal-eq-ok d id p there in
        let full = checked_content-full d p.target proposed_content content checked in
        subst (λ x. May x q) (sym found)
          (
            is_pending,
            λ sound. subst IsSound (ok-injective done) (record { adds = refl; full = full }),
          ))

  pub reject-Moved :
      (d : MemoryDir) (id reason : Text) → Moved d (reject_memory_proposal o now d id reason).0
  unfolding reject_memory_proposal
  reject-Moved d id reason =
      let f : Proposal → Answer Proposal = λ p. ok (rejection now reason p) in
      write_proposal-Moved d id (pending_proposal d id >>= f) (λ q made.
        let (p, there, done) = >>=-eq-ok (pending_proposal d id) f made in
        let (found, is_pending) = pending_proposal-eq-ok d id p there in
        subst (λ x. May x q) (sym found)
          (
            is_pending,
            λ sound.
                subst IsSound (ok-injective done) (record { adds = sound.adds; full = sound.full }),
          ))

  finish_apply-Moved :
      (d : MemoryDir) (id : Text) (p : Proposal) (w : TargetFiles × Answer (Preview × Text))
      → Dict.get id d.proposals ≡ some p
      → p.status ≡ pending
      → Moved d (finish_apply o now d id p w).0
  finish_apply-Moved d id p (files, raised e) found is_pending =
      inl (with_files-proposals p.target files d)
  finish_apply-Moved d id p (files, ok (preview, snapshot_id)) found is_pending = inr (
    id,
    application now preview snapshot_id p,
    ap (Dict.put id (application now preview snapshot_id p))
        (with_files-proposals p.target files d),
    subst (λ x. May x (application now preview snapshot_id p)) (sym found)
        (is_pending, λ sound. record { adds = sound.adds; full = sound.full }),
  )

  check_apply-pending :
      (d : MemoryDir) (id : Text) (p : Proposal) (text : Text) (ops : List MemoryOp)
      → check_apply o now d id ≡ ok (p, (text, ops))
      → (Dict.get id d.proposals ≡ some p) × (p.status ≡ pending)
  unfolding check_apply
  check_apply-pending d id p text ops h =
      let (q, there, rest) = >>=-eq-ok (pending_proposal d id) _ h in
      let (t, read, rest') = >>=-eq-ok (read_target_text (files_of q.target d).file) _ rest in
      let (os, some_ops, done) = >>=-eq-ok (non_empty q.ops) _ rest' in
      let same : q ≡ p = ap (λ x. x.0) (ok-injective done) in
      pending_proposal-eq-ok d id p (there ∙ ap ok same)

  pub apply-Moved : (d : MemoryDir) (id : Text) → Moved d (apply_memory_proposal o now d id).0
  unfolding apply_memory_proposal
  apply-Moved d id = go (check_apply o now d id) refl
    where
      go :
          (a : Answer (Proposal × (Text × List MemoryOp)))
          → check_apply o now d id ≡ a
          → Moved d (apply_memory_proposal o now d id).0
      go (raised e) h = rw (h, apply_memory_proposal) (inl refl)
      go (ok (p, (text, ops))) h =
          let (found, is_pending) = check_apply-pending d id p text ops h in
          rw (h, apply_memory_proposal) (finish_apply-Moved d id p _ found is_pending)
