-- ===== src/ResponseBuffer/Text.antt =====
-- The operations of Python on byte strings that the scan for a response id uses.
pub use hermes_vylen_gateway.Prelude.Text.{codes}
use hermes_vylen_gateway.Prelude.{
  ℕ, Bool, true, false, List, [], ◌∷◌, ◌++◌, Option, none, some, leb, ◌&&◌, ◌||◌, nat_beq,
  if◌then◌else◌,
}

abbrev pub bytes_beq : List ℕ → List ℕ → Bool
bytes_beq [] [] = true
bytes_beq [] (y ∷ ys) = false
bytes_beq (x ∷ xs) [] = false
bytes_beq (x ∷ xs) (y ∷ ys) = nat_beq x y && bytes_beq xs ys

-- the bytes that bytes.strip() removes: space, tab, line feed, carriage return, \x0b and \x0c
unfoldable pub is_space : ℕ → Bool
is_space b = nat_beq b 32 || (leb 9 b && leb b 13)

unfoldable pub lstrip : List ℕ → List ℕ
unfolding is_space
lstrip [] = []
lstrip (b ∷ bs) = if is_space b then lstrip bs else b ∷ bs

unfoldable pub rstrip : List ℕ → List ℕ
unfolding is_space
rstrip [] = []
rstrip (b ∷ bs) = elim (rstrip bs) [ [] ↦ if is_space b then [] else b ∷ [] | c ∷ cs ↦ b ∷ c ∷ cs ]

unfoldable pub strip : List ℕ → List ℕ
unfolding lstrip rstrip
strip bs = lstrip (rstrip bs)

-- line[len(prefix):], if line.startswith(prefix)
unfoldable pub after_prefix : List ℕ → List ℕ → Option (List ℕ)
after_prefix [] line = some line
after_prefix (p ∷ ps) [] = none
after_prefix (p ∷ ps) (b ∷ bs) = if nat_beq p b then after_prefix ps bs else none

add_to_first : ℕ → List (List ℕ) → List (List ℕ)
add_to_first b [] = (b ∷ []) ∷ []
add_to_first b (l ∷ ls) = (b ∷ l) ∷ ls

-- bytes.split(b"\n")
unfoldable pub split_lines : List ℕ → List (List ℕ)
unfolding add_to_first
split_lines [] = [] ∷ []
split_lines (b ∷ bs) = if nat_beq b 10 then [] ∷ split_lines bs else add_to_first b (split_lines bs)

-- b"\n".join(lines)
unfoldable pub join_lines : List (List ℕ) → List ℕ
join_lines [] = []
join_lines (l ∷ []) = l
join_lines (l ∷ k ∷ ls) = l ++ 10 ∷ join_lines (k ∷ ls)
