-- ===== src/Memory/Tests.antt =====
-- Runs and instances for src/hermes_vylen_gateway/memory.py.
use mathlib.Core.List.{Perm}
use hermes_vylen_gateway.Prelude.{◌≡◌, ◌≢◌, refl, true, false, List, [], ◌∷◌, ◌++◌}
use hermes_vylen_gateway.Prelude.Text as Text
use hermes_vylen_gateway.Prelude.Text.{Text, text_eq, codes, strip}
use hermes_vylen_gateway.Memory.Entries.{parse_entries, render_entries, universal_newlines}
use hermes_vylen_gateway.Memory.Entries.RoundTrip.{IsEntry, parse_entries-render_entries}
use hermes_vylen_gateway.Memory.Ops.{at, ok, add, reorder, apply_ops, apply_op, validate_entries}
use hermes_vylen_gateway.Memory.Ops.Laws.{apply_ops-perm}
use hermes_vylen_gateway.Memory.Files.{
  preview_memory_write, preview_response, valid_snapshot_id, holds, TargetFiles, read_target_text,
  Outside, Preview, Checked, check_write, write_memory, snapshot_id_for, restore_memory_snapshot,
}
use hermes_vylen_gateway.Memory.Entries.Newlines.{HasNoCr}
use hermes_vylen_gateway.Memory.Files.Recover.{write_memory-preview, restore-write_memory}

a-IsEntry : IsEntry (codes "a")
unfolding strip Text.is_space
a-IsEntry = record { full = λ h. cc; stripped = refl; plain = tt }

b-IsEntry : IsEntry (codes "b")
unfolding strip Text.is_space
b-IsEntry = record { full = λ h. cc; stripped = refl; plain = tt }

parse_entries-render_entries_example :
    parse_entries (render_entries (codes "a" ∷ codes "b" ∷ [])) ≡ codes "a" ∷ codes "b" ∷ []
parse_entries-render_entries_example =
    parse_entries-render_entries (codes "a" ∷ codes "b" ∷ []) (a-IsEntry, (b-IsEntry, tt))

abbrev three : List Text
three = codes "a" ∷ codes "b" ∷ codes "c" ∷ []

reordered :
    apply_ops three (reorder (at 0) (at 3) ∷ []) ≡ ok (codes "b" ∷ codes "c" ∷ codes "a" ∷ [])
unfolding apply_ops apply_op
reordered = refl

apply_ops-perm_example : Perm (codes "b" ∷ codes "c" ∷ codes "a" ∷ []) three
apply_ops-perm_example =
    apply_ops-perm three (codes "b" ∷ codes "c" ∷ codes "a" ∷ []) (reorder (at 0) (at 3) ∷ [])
      (tt, tt) reordered

-- A hash that tells the texts apart, in the form that an id of a snapshot has.
abbrev outside : Outside
outside = record {
  scan = λ t. false;
  hash = λ t. codes "0123abcd" ++ t;
  limit = 100;
  stamp = codes "20250101T000000Z";
  random = codes "00ff";
}

abbrev files : TargetFiles
files = record { file = holds (codes "a"); snapshots = [] }

abbrev files_hash : Text
files_hash = codes "0123abcda"

abbrev checked : Text → Checked
checked entry = record { before_raw = codes "a"; after_entries = codes "a" ∷ entry ∷ [] }

accepted : check_write outside files files_hash (add (codes "b") ∷ []) ≡ ok (checked (codes "b"))
unfolding check_write apply_ops apply_op strip Text.is_space validate_entries parse_entries
    render_entries
accepted = refl

abbrev b_stored : Text
b_stored = render_entries (codes "a" ∷ codes "b" ∷ [])

b-HasNoCr : HasNoCr (render_entries (checked (codes "b")).after_entries)
unfolding render_entries
b-HasNoCr = (refl, (refl, (refl, (refl, (refl, tt)))))

id-IsValid : valid_snapshot_id (snapshot_id_for outside (outside.hash (codes "a"))) ≡ true
unfolding valid_snapshot_id
id-IsValid = refl

a-valid : validate_entries outside.scan outside.limit (parse_entries (codes "a")) ≡ ok tt
unfolding validate_entries parse_entries strip Text.is_space render_entries
a-valid = refl

restore-write_memory_example :
    (t'' : TargetFiles) × (p : Preview × Text) × (restore_memory_snapshot outside
        (write_memory outside files files_hash (add (codes "b") ∷ []) []).0
        (snapshot_id_for outside (outside.hash (codes "a")))
        (outside.hash (render_entries (checked (codes "b")).after_entries))
        []
      ≡ (t'', ok p))
    × (t''.file ≡ holds (codes "a"))
    × (read_target_text t''.file ≡ read_target_text files.file)
restore-write_memory_example =
    restore-write_memory outside files files_hash (add (codes "b") ∷ []) [] (checked (codes "b"))
      accepted outside [] b-HasNoCr id-IsValid a-valid

-- An entry with a carriage return between two letters.
abbrev folded : Text
folded = b'b' ∷ 13 ∷ b'c' ∷ []

folded-accepted : check_write outside files files_hash (add folded ∷ []) ≡ ok (checked folded)
unfolding check_write apply_ops apply_op strip Text.is_space validate_entries parse_entries
    render_entries
folded-accepted = refl

folded-differs :
    outside.hash (universal_newlines (render_entries (checked folded).after_entries))
    ≢ outside.hash (render_entries (checked folded).after_entries)
unfolding universal_newlines render_entries
folded-differs h = cc

abbrev b_preview : Preview
b_preview =
    preview_response (parse_entries (codes "a")) (codes "a" ∷ codes "b" ∷ [])
      (outside.hash (codes "a")) (outside.hash (render_entries (codes "a" ∷ codes "b" ∷ [])))

b-shown : preview_memory_write outside files files_hash (add (codes "b") ∷ []) ≡ ok b_preview
unfolding preview_memory_write apply_ops apply_op strip Text.is_space validate_entries parse_entries
    render_entries
b-shown = refl

write_memory-preview_example :
    (t' : TargetFiles) × (id : Text) × (write_memory outside files files_hash
        (add (codes "b") ∷ [])
        []
      ≡ (t', ok (b_preview, id)))
    × (t'.file ≡ holds (render_entries b_preview.after_entries))
write_memory-preview_example =
    write_memory-preview outside files files_hash (add (codes "b") ∷ []) [] b_preview b-shown
      b-HasNoCr
