-- ===== src/Memory/Proposals/Applied.antt =====
-- What applying a proposal of src/hermes_vylen_gateway/memory.py does.
use hermes_vylen_gateway.Prelude.{◌≡◌, refl, ap, ◌∙◌, [], ◌∷◌, some}
use hermes_vylen_gateway.Prelude.Dict
use hermes_vylen_gateway.Prelude.Dict.{Dict}
use hermes_vylen_gateway.Prelude.Text.{Text, text_eq, text_beq_refl}
use hermes_vylen_gateway.Memory.Entries.{render_entries}
use hermes_vylen_gateway.Memory.Ops.{ok, add}
use hermes_vylen_gateway.Memory.Files.{
  TargetFiles, holds, Outside, Checked, check_write, read_target_text, write_memory,
}
use hermes_vylen_gateway.Memory.Entries.Newlines.{HasNoCr}
use hermes_vylen_gateway.Memory.Files.Recover.{write_memory-stored}
use hermes_vylen_gateway.Memory.Proposals.{
  Target, memory, user, applied, Proposal, MemoryDir, files_of, with_files, pending_proposal,
  write_reason, check_apply, finish_apply, apply_memory_proposal, application,
}
use hermes_vylen_gateway.Memory.Proposals.Moves.{IsSound}

files_of-with_files :
    (t : Target) (files : TargetFiles) (ps : Dict Text Proposal) (d : MemoryDir)
    → files_of t (record (with_files t files d) { proposals = ps }) ≡ files
files_of-with_files memory files ps d = refl
files_of-with_files user files ps d = refl

module _ (o : Target → Outside) (now : Text) (d : MemoryDir) (id : Text) (p : Proposal)
    (text : Text) (c : Checked) (is_pending : pending_proposal d id ≡ ok p) (sound : IsSound p)
    (read : read_target_text (files_of p.target d).file ≡ ok text)
    (accepted : check_write
        (o p.target)
        (files_of p.target d)
        ((o p.target).hash text)
        (add p.content ∷ [])
      ≡ ok c) where
  check_apply-eq-ok : check_apply o now d id ≡ ok (p, (text, add p.content ∷ []))
  unfolding check_apply
  check_apply-eq-ok = rw (is_pending, read, sound.adds) refl

  apply_memory_proposal-finish :
      apply_memory_proposal o now d id
      ≡ finish_apply o now d id p (
          write_memory
            (o p.target)
            (files_of p.target d)
            ((o p.target).hash text)
            (add p.content ∷ [])
            (write_reason p))
  unfolding apply_memory_proposal
  apply_memory_proposal-finish = rw (check_apply-eq-ok, apply_memory_proposal) refl

  -- Applying a pending proposal whose content the checks of a write accept stores the content behind the
  -- entries that there are now, and marks the proposal as applied.
  pub apply_memory_proposal-applied :
      HasNoCr (render_entries c.after_entries)
      → (d' : MemoryDir) × (q : Proposal) × (apply_memory_proposal o now d id ≡ (d', ok q))
        × ((files_of p.target d').file ≡ holds (render_entries c.after_entries))
        × (Dict.get id d'.proposals ≡ some q)
        × (q.status ≡ applied)
        × (q.content ≡ p.content)
  apply_memory_proposal-applied h =
      let (files, snapshot_id, preview, written, stored, snapshots) =
        write_memory-stored (o p.target) (files_of p.target d) ((o p.target).hash text)
          (add p.content ∷ []) (write_reason p) c accepted h in
      let q = application now preview snapshot_id p in
      (
        record (with_files p.target files d) {
          proposals = Dict.put id q (with_files p.target files d).proposals;
        },
        q,
        apply_memory_proposal-finish ∙ ap (finish_apply o now d id p) written,
        ap (λ f. f.file) (files_of-with_files p.target files _ d) ∙ stored,
        Dict.get-put id id q _ ∙ rw (text_beq_refl id),
        refl,
        refl,
      )
