-- ===== src/Memory/Entries.antt =====
-- The text of a memory file and its entries: `_parse_entries` and `_render_entries` of
-- src/hermes_vylen_gateway/memory.py, with what they use of Python's texts.
pub mod RoundTrip
pub mod Newlines
use hermes_vylen_gateway.Prelude.{
  ℕ, Bool, true, false, List, [], ◌∷◌, ◌++◌, Option, none, some, ◌==◌, nat_eq, ◌&&◌, if◌then◌else◌,
}
use hermes_vylen_gateway.Prelude.Text.{Text, strip}

-- ENTRY_DELIMITER, "\n§\n"
abbrev pub entry_delimiter : Text
entry_delimiter = 10 ∷ 167 ∷ 10 ∷ []

abbrev pub is_delimiter : ℕ → ℕ → ℕ → Bool
is_delimiter a b c = a == 10 && b == 167 && c == 10

abbrev pub cons_first : ℕ → List Text → List Text
cons_first a [] = (a ∷ []) ∷ []
cons_first a (t ∷ ts) = (a ∷ t) ∷ ts

-- raw.split(ENTRY_DELIMITER)
unfoldable pub split_entries : Text → List Text
split_entries [] = [] ∷ []
split_entries (a ∷ []) = (a ∷ []) ∷ []
split_entries (a ∷ b ∷ []) = (a ∷ b ∷ []) ∷ []
split_entries (a ∷ b ∷ c ∷ raw) = elim (is_delimiter a b c) [
  | true ↦ [] ∷ split_entries raw
  | false ↦ cons_first a (split_entries (b ∷ c ∷ raw))
]

-- [entry.strip() for entry in … if entry.strip()]
unfoldable pub strip_all : List Text → List Text
strip_all [] = []
strip_all (t ∷ ts) =
    let rest = strip_all ts in elim (strip t) [ [] ↦ rest | c ∷ s ↦ (c ∷ s) ∷ rest ]

-- `_parse_entries`
unfoldable pub parse_entries : Text → List Text
unfolding split_entries strip_all
parse_entries raw = elim (strip raw) [ [] ↦ [] | c ∷ s ↦ strip_all (split_entries raw) ]

-- `_render_entries`
unfoldable pub render_entries : List Text → Text
render_entries [] = []
render_entries (e ∷ []) = e
render_entries (e ∷ f ∷ es) = e ++ (entry_delimiter ++ render_entries (f ∷ es))

-- What reading a file in text mode makes of its line ends: "\r\n" and "\r" become "\n".
unfoldable pub universal_newlines : Text → Text
universal_newlines [] = []
universal_newlines (a ∷ []) = if a == 13 then 10 ∷ [] else a ∷ []
universal_newlines (a ∷ b ∷ s) = elim (a == 13) [
  | false ↦ a ∷ universal_newlines (b ∷ s)
  | true ↦ elim (b == 10) [
    | true ↦ 10 ∷ universal_newlines s
    | false ↦ 10 ∷ universal_newlines (b ∷ s)
  ]
]
