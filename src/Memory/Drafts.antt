-- ===== src/Memory/Drafts.antt =====
-- The drafting of an entry from a message: `_draft_memory_entry` of src/hermes_vylen_gateway/memory.py.
use hermes_vylen_gateway.Prelude.{
  ℕ, false, List, [], ◌∷◌, Option, none, some, leb, ◌+◌, ◌==◌, nat_eq, ◌&&◌, ◌||◌, if◌then◌else◌,
}
use hermes_vylen_gateway.Prelude.Text.{Text, text_eq, codes, strip, lstrip, join_words}

-- a letter in lower case, as re.IGNORECASE compares it with one of a to z
abbrev pub fold : ℕ → ℕ
fold c =
    if leb b'A' c && leb c b'Z'
    then c + 32
    else if c == 0x17f
    then b's'
    else if c == 0x130 || c == 0x131
    then b'i'
    else c

-- the text behind a beginning, in any case
unfoldable pub behind_prefix : Text → Text → Option Text
behind_prefix [] s = some s
behind_prefix (p ∷ ps) [] = none
behind_prefix (p ∷ ps) (c ∷ s) = if fold c == p then behind_prefix ps s else none

abbrev pub leads : List Text
leads =
    codes "remember this"
    ∷ codes "remember that"
    ∷ codes "please remember"
    ∷ codes "add to memory"
    ∷ []

-- \s*[:\-]\s* and what is behind it
unfoldable pub behind_mark : Text → Option Text
unfolding lstrip
behind_mark s = elim (lstrip s) [
  | [] ↦ none
  | c ∷ t ↦ if c == b':' || c == b'-' then some (lstrip t) else none
]

abbrev pub marked : Option Text → Option Text
marked none = none
marked (some s) = behind_mark s

-- re.sub of a lead. Two leads never begin the same text.
unfoldable pub without_lead : List Text → Text → Text
unfolding behind_prefix behind_mark
without_lead [] s = s
without_lead (lead ∷ rest) s =
    let other = without_lead rest s in
    elim (marked (behind_prefix lead s)) [ none ↦ other | some t ↦ t ]

-- `_draft_memory_entry`; a run of spaces has become one space when a lead is looked for
unfoldable pub draft_memory_entry : Text → Text
unfolding join_words strip without_lead
draft_memory_entry text = strip (without_lead leads (join_words false (strip text)))
