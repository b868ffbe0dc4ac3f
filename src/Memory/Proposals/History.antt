-- ===== src/Memory/Proposals/History.antt =====
-- The proposals of src/hermes_vylen_gateway/memory.py after any requests in any order.
use hermes_vylen_gateway.Prelude.{
  ◌≡◌, ◌≢◌, refl, sym, ◌∙◌, inl, inr, Option, none, some, Bool-cases, subst, ◌==◌, if◌then◌else◌,
}
use hermes_vylen_gateway.Prelude.Dict
use hermes_vylen_gateway.Prelude.Text.{Text, text_eq, text_beq_iff}
use hermes_vylen_gateway.Memory.Files.{TargetFiles, Outside}
use hermes_vylen_gateway.Memory.Proposals.{
  Target, pending, Proposal, MemoryDir, with_files, ProposalRequest, create_memory_proposal,
  update_memory_proposal, reject_memory_proposal, apply_memory_proposal,
}
use hermes_vylen_gateway.Memory.Proposals.Moves.{
  IsSound, May, Moved, create-Moved, update-Moved, reject-Moved, apply-Moved, with_files-proposals,
}

-- One request, whatever it answers. The id of a new proposal is not in use. The files of a target may
-- become any others, by other requests or by other programs.
pub data Step (d e : MemoryDir) : Type 0 where
  creates :
      (o : Target → Outside) (now id : Text) (r : ProposalRequest)
      → Dict.get id d.proposals ≡ none
      → e ≡ (create_memory_proposal o now d id r).0
      → Step d e
  updates :
      (o : Target → Outside) (now id proposed_content reason : Text)
      → e ≡ (update_memory_proposal o now d id proposed_content reason).0
      → Step d e
  rejects :
      (o : Target → Outside) (now id reason : Text)
      → e ≡ (reject_memory_proposal o now d id reason).0
      → Step d e
  applies :
      (o : Target → Outside) (now id : Text) → e ≡ (apply_memory_proposal o now d id).0 → Step d e
  edits : (t : Target) (files : TargetFiles) → e ≡ with_files t files d → Step d e

pub data Reach (d : MemoryDir) : MemoryDir → Type 0 where
  here : Reach d d
  next : {e f : MemoryDir} → Reach d e → Step e f → Reach d f

Step-Moved : {d e : MemoryDir} → Step d e → Moved d e
Step-Moved {d} (creates o now id r fresh h) = rw h (create-Moved o now d id r fresh)
Step-Moved {d} (updates o now id c reason h) = rw h (update-Moved o now d id c reason)
Step-Moved {d} (rejects o now id reason h) = rw h (reject-Moved o now d id reason)
Step-Moved {d} (applies o now id h) = rw h (apply-Moved o now d id)
Step-Moved {d} (edits t files h) = rw h (inl (with_files-proposals t files d))

-- Every proposal is sound.
abbrev pub AllSound : MemoryDir → Type 0
AllSound d = (id : Text) (p : Proposal) → Dict.get id d.proposals ≡ some p → IsSound p

May-IsSound :
    (o : Option Proposal) (q : Proposal)
    → May o q
    → ((p : Proposal) → o ≡ some p → IsSound p)
    → IsSound q
May-IsSound none q may all = may.1
May-IsSound (some p) q may all = may.1 (all p refl)

module _ (d e : MemoryDir) where
  Moved-settled :
      Moved d e
      → (id : Text) (p : Proposal) → Dict.get id d.proposals ≡ some p
      → p.status ≢ pending
      → Dict.get id e.proposals ≡ some p
  Moved-settled (inl same) id p found settled = rw same found
  Moved-settled (inr (k, q, put, may)) id p found settled = elim (Bool-cases (k == id)) [
    | inl own ↦
        let there : Dict.get k d.proposals ≡ some p =
          subst (λ j. Dict.get j d.proposals ≡ some p) (sym ((text_beq_iff k id).0 own)) found in
        let still : May (some p) q = subst (λ x. May x q) there may in absurd (settled still.0)
    | inr other ↦ rw put (Dict.get-put k id q d.proposals ∙ rw other found)
  ]

  Moved-AllSound : Moved d e → AllSound d → AllSound e
  Moved-AllSound (inl same) all id p found =
      all id p (subst (λ ps. Dict.get id ps ≡ some p) same found)
  Moved-AllSound (inr (k, q, put, may)) all id p found =
      let placed : (if k == id then some q else Dict.get id d.proposals) ≡ some p =
        sym (Dict.get-put k id q d.proposals) ∙ subst (λ ps. Dict.get id ps ≡ some p) put found in
      elim (Bool-cases (k == id)) [
        | inl own ↦
            let same : some q ≡ some p = rw own at placed in
            let is_it : q ≡ p = cc in
            subst IsSound is_it (May-IsSound (Dict.get k d.proposals) q may (all k))
        | inr other ↦ all id p (rw other at placed)
      ]

-- A proposal that is applied or rejected stays as it is, whatever is requested afterwards: it is never
-- applied again, changed or rejected.
pub settled-stays :
    {d e : MemoryDir}
    → Reach d e
    → (id : Text) (p : Proposal) → Dict.get id d.proposals ≡ some p
    → p.status ≢ pending
    → Dict.get id e.proposals ≡ some p
settled-stays here id p found settled = found
settled-stays (next {e} {f} r st) id p found settled =
    Moved-settled e f (Step-Moved st) id p (settled-stays r id p found settled) settled

-- If every proposal is one to add the content that it shows, which is not empty, this stays so
-- whatever is requested.
pub Reach-AllSound : {d e : MemoryDir} → Reach d e → AllSound d → AllSound e
Reach-AllSound here all = all
Reach-AllSound (next {e} {f} r st) all = Moved-AllSound e f (Step-Moved st) (Reach-AllSound r all)
