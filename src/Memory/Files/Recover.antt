-- ===== src/Memory/Files/Recover.antt =====
-- What an edit of a memory file in src/hermes_vylen_gateway/memory.py leaves, and that it can be undone.
use hermes_vylen_gateway.Prelude.{
  ◌≡◌, refl, sym, ap, length, ◌∙◌, Bool, true, false, List, [], some, arith, ◌++◌, ◌==◌, nat_eq,
  ◌||◌, subst, if◌then◌else◌,
}
use hermes_vylen_gateway.Prelude.Dict
use hermes_vylen_gateway.Prelude.Text.{Text, text_eq, text_beq, codes, text_beq_refl}
use hermes_vylen_gateway.Memory.Entries.{parse_entries, render_entries, universal_newlines}
use hermes_vylen_gateway.Memory.Entries.Newlines.{
  HasNoCr, universal_newlines-HasNoCr, HasNoCr-universal_newlines,
}
use hermes_vylen_gateway.Memory.Ops.{
  revision_conflict, Answer, ok, raised, MemoryOp, apply_ops, validate_entries,
}
use hermes_vylen_gateway.Memory.Ops.Laws.{>>=-eq-ok}
use hermes_vylen_gateway.Memory.Files.{
  FileState, missing, holds, not_utf8, os_error, Snapshot, TargetFiles, read_target_text, Outside,
  snapshot_id_for, Preview, preview_response, Checked, check_write, replace_text, write_memory,
  preview_memory_write, valid_snapshot_id, check_restore, restore_memory_snapshot,
}

read-HasNoCr : (f : FileState) (text : Text) → read_target_text f ≡ ok text → HasNoCr text
unfolding read_target_text
read-HasNoCr missing text h = let e : [] ≡ text = cc in subst HasNoCr e tt
read-HasNoCr (holds t) text h =
    let e : universal_newlines t ≡ text = cc in subst HasNoCr e (HasNoCr-universal_newlines t)
read-HasNoCr not_utf8 text h = absurd (cc)
read-HasNoCr os_error text h = absurd (cc)

-- The snapshot of an edit.
abbrev pub snapshot_of : Text → Text → Text → Snapshot
snapshot_of text revision_hash reason = record {
  body = text;
  revision_hash = revision_hash;
  char_count = length text;
  entry_count = length (parse_entries text);
  reason = reason;
}

module _ (o : Outside) (t : TargetFiles) (before_raw after_raw reason : Text)
    (after_entries : List Text) where
  -- The files after a text was replaced.
  abbrev pub replaced : TargetFiles
  replaced = record {
    file = holds after_raw;
    snapshots =
        Dict.put (snapshot_id_for o (o.hash before_raw))
          (snapshot_of before_raw (o.hash before_raw) reason) t.snapshots;
  }

  replace_text-files : (replace_text o t before_raw after_raw reason after_entries).0 ≡ replaced
  unfolding replace_text
  replace_text-files = ground arith

  replace_text-ok :
      HasNoCr after_raw
      → replace_text o t before_raw after_raw reason after_entries ≡ (
        replaced,
        ok (
          preview_response
              (parse_entries before_raw)
              after_entries
              (o.hash before_raw)
              (o.hash after_raw),
          snapshot_id_for o (o.hash before_raw),
        ),
      )
  unfolding replace_text
  replace_text-ok h =
      rw (universal_newlines-HasNoCr after_raw h) (rw (text_beq_refl (o.hash after_raw)))

or_true : (b : Bool) → (b || true) ≡ true
or_true true = refl
or_true false = refl

restore-check :
    (o : Outside) (t : TargetFiles) (key expected_hash why body before : Text)
    → check_restore o t key expected_hash ≡ ok (body, before)
    → restore_memory_snapshot o t key expected_hash why
      ≡ replace_text o t before body
          (codes "rollback before restoring " ++ (key ++ (codes ": " ++ why)))
          (parse_entries body)
unfolding restore_memory_snapshot replace_text
restore-check o t key expected_hash why body before h = rw h

answered {ℓ} : {A : Type ℓ} {x y : A} → ok x ≡ ok y → x ≡ y
answered h = cc

abbrev before_or_nil : Answer Checked → Text
before_or_nil (ok c) = c.before_raw
before_or_nil (raised e) = []

-- The answer of an edit that was stored.
module _ (o : Outside) (t : TargetFiles) (expected_hash : Text) (ops : List MemoryOp)
    (reason : Text) (c : Checked) (accepted : check_write o t expected_hash ops ≡ ok c) where
  abbrev after_raw : Text
  after_raw = render_entries c.after_entries

  write_memory-replace :
      write_memory o t expected_hash ops reason
      ≡ replace_text o t c.before_raw (render_entries c.after_entries) reason c.after_entries
  unfolding write_memory
  write_memory-replace = rw (accepted, write_memory)

  check_write-read : read_target_text t.file ≡ ok c.before_raw
  unfolding check_write
  check_write-read =
      let (raw, read, rest) = >>=-eq-ok (read_target_text t.file) _ accepted in
      let (same, level, rest') =
        >>=-eq-ok (if expected_hash == o.hash raw then ok raw else raised revision_conflict) _
          rest in
      let (after, applied, rest'') = >>=-eq-ok (apply_ops (parse_entries raw) ops) _ rest' in
      let (u, valid, done) = >>=-eq-ok (validate_entries o.scan o.limit after) _ rest'' in
      let e : raw ≡ c.before_raw = ap before_or_nil done in read ∙ ap ok e

  -- An accepted edit whose text has no carriage return is stored: the file holds the new entries, the
  -- answer names a snapshot of the text before, and every other snapshot stays.
  pub write_memory-stored :
      HasNoCr (render_entries c.after_entries)
      → (t' : TargetFiles) × (id : Text) × (p : Preview) × (write_memory o t expected_hash ops
            reason
          ≡ (t', ok (p, id)))
        × (t'.file ≡ holds (render_entries c.after_entries))
        × ((j : Text)
            → Dict.get j t'.snapshots ≡ (
                if id == j
                then some (snapshot_of c.before_raw (o.hash c.before_raw) reason)
                else Dict.get j t.snapshots))
  write_memory-stored h = (
    replaced o t c.before_raw (render_entries c.after_entries) reason c.after_entries,
    snapshot_id_for o (o.hash c.before_raw),
    preview_response (parse_entries c.before_raw) c.after_entries (o.hash c.before_raw)
        (o.hash (render_entries c.after_entries)),
    write_memory-replace
        ∙ replace_text-ok o t c.before_raw (render_entries c.after_entries) reason c.after_entries
            h,
    refl,
    λ j.
        Dict.get-put (snapshot_id_for o (o.hash c.before_raw)) j
          (snapshot_of c.before_raw (o.hash c.before_raw) reason) t.snapshots,
  )

  read_before-HasNoCr : HasNoCr c.before_raw
  read_before-HasNoCr = read-HasNoCr t.file c.before_raw check_write-read

  -- the files behind a stored edit pass the checks of a restore
  check_restore-replaced :
      (o' : Outside)
      → HasNoCr (render_entries c.after_entries)
      → valid_snapshot_id (snapshot_id_for o (o.hash c.before_raw)) ≡ true
      → validate_entries o'.scan o'.limit (parse_entries c.before_raw) ≡ ok tt
      → check_restore o'
          (replaced o t c.before_raw (render_entries c.after_entries) reason c.after_entries)
          (snapshot_id_for o (o.hash c.before_raw))
          (o'.hash (render_entries c.after_entries))
        ≡ ok (c.before_raw, render_entries c.after_entries)
  unfolding check_restore read_target_text
  check_restore-replaced o' h id valid =
      let key = snapshot_id_for o (o.hash c.before_raw) in
      let after = render_entries c.after_entries in
      let kept : Dict.get key (replaced o t c.before_raw after reason c.after_entries).snapshots
          ≡ some (snapshot_of c.before_raw (o.hash c.before_raw) reason) =
        Dict.get-put key key (snapshot_of c.before_raw (o.hash c.before_raw) reason) t.snapshots
        ∙ (rw (text_beq_refl key)) in
      rw
        (
          id,
          kept,
          universal_newlines-HasNoCr c.before_raw read_before-HasNoCr,
          valid,
          universal_newlines-HasNoCr after h,
          text_beq_refl (o'.hash after),
        )
        (rw (or_true (text_beq (o'.hash after) [])))

  pub restore-write_memory :
      (o' : Outside) (why : Text)
      → HasNoCr (render_entries c.after_entries)
      → valid_snapshot_id (snapshot_id_for o (o.hash c.before_raw)) ≡ true
      → validate_entries o'.scan o'.limit (parse_entries c.before_raw) ≡ ok tt
      → (t'' : TargetFiles) × (p : Preview × Text) × (restore_memory_snapshot o'
            (write_memory o t expected_hash ops reason).0
            (snapshot_id_for o (o.hash c.before_raw))
            (o'.hash (render_entries c.after_entries))
            why
          ≡ (t'', ok p))
        × (t''.file ≡ holds c.before_raw)
        × (read_target_text t''.file ≡ read_target_text t.file)
  unfolding read_target_text
  restore-write_memory o' why h id valid =
      let key = snapshot_id_for o (o.hash c.before_raw) in
      let after = render_entries c.after_entries in
      let files = replaced o t c.before_raw after reason c.after_entries in
      let why' = codes "rollback before restoring " ++ (key ++ (codes ": " ++ why)) in
      let entries = parse_entries c.before_raw in
      (
        replaced o' files after c.before_raw why' entries,
        (
          preview_response (parse_entries after) entries (o'.hash after) (o'.hash c.before_raw),
          snapshot_id_for o' (o'.hash after),
        ),
        ap (λ (f : TargetFiles). restore_memory_snapshot o' f key (o'.hash after) why)
              (ap (λ p. p.0)
                (write_memory-replace
                  ∙ replace_text-ok o t c.before_raw after reason c.after_entries h))
            ∙ restore-check o' files key (o'.hash after) why c.before_raw after
                (check_restore-replaced o' h id valid)
            ∙ replace_text-ok o' files after c.before_raw why' entries read_before-HasNoCr,
        refl,
        ap ok (universal_newlines-HasNoCr c.before_raw read_before-HasNoCr) ∙ sym check_write-read,
      )

-- What a preview shows is what the same edit then writes, if the text has no carriage return: the edit
-- answers with that preview, and the file holds its entries.
pub write_memory-preview :
    (o : Outside) (t : TargetFiles) (expected_hash : Text) (ops : List MemoryOp) (reason : Text)
    (p : Preview)
    → preview_memory_write o t expected_hash ops ≡ ok p
    → HasNoCr (render_entries p.after_entries)
    → (t' : TargetFiles) × (id : Text) × (write_memory o t expected_hash ops reason
        ≡ (t', ok (p, id)))
      × (t'.file ≡ holds (render_entries p.after_entries))
unfolding preview_memory_write
write_memory-preview o t expected_hash ops reason p shown =
    let f : Checked → Answer Preview = λ c. ok (
      preview_response (parse_entries c.before_raw) c.after_entries (o.hash c.before_raw)
        (o.hash (render_entries c.after_entries))) in
    let (c, accepted, done) = >>=-eq-ok (check_write o t expected_hash ops) f shown in
    let same : preview_response (parse_entries c.before_raw) c.after_entries (o.hash c.before_raw)
          (o.hash (render_entries c.after_entries))
        ≡ p =
      answered done in
    subst
      (λ q.
        HasNoCr (render_entries q.after_entries)
        → (t' : TargetFiles) × (id : Text) × (write_memory o t expected_hash ops reason
            ≡ (t', ok (q, id)))
          × (t'.file ≡ holds (render_entries q.after_entries)))
      same
      (λ h. (
        replaced o t c.before_raw (render_entries c.after_entries) reason c.after_entries,
        snapshot_id_for o (o.hash c.before_raw),
        write_memory-replace o t expected_hash ops reason c accepted
            ∙ replace_text-ok o t c.before_raw (render_entries c.after_entries) reason
                c.after_entries h,
        refl,
      ))
