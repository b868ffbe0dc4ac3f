-- ===== src/Memory/Entries/RoundTrip.antt =====
-- Which entries come back when a memory file is read again.
use hermes_vylen_gateway.Prelude.{
  ℕ, ◌≡◌, ◌≢◌, refl, ap, ◌∙◌, inl, inr, Bool, true, false, List, [], ◌∷◌, ◌++◌, arith, All, nat_eq,
  Bool-cases,
}
use hermes_vylen_gateway.Prelude.Text.{Text, strip, lstrip, rstrip, is_space}
use hermes_vylen_gateway.Memory.Entries.{
  entry_delimiter, is_delimiter, cons_first, split_entries, strip_all, parse_entries,
  render_entries,
}

-- A delimiter behind the text is the first one.
abbrev pub Plain : Text → Type 0
Plain [] = Unit
Plain (a ∷ []) = Unit
Plain (a ∷ b ∷ []) = is_delimiter a b 10 ≡ false
Plain (a ∷ b ∷ c ∷ t) = (is_delimiter a b c ≡ false) × Plain (b ∷ c ∷ t)

-- An entry that is not empty, begins and ends with no space, and hides no delimiter.
pub record IsEntry (t : Text) : Type 0 where
  pub full : t ≢ []
  pub stripped : strip t ≡ t
  pub plain : Plain t

split-step :
    (a b c : ℕ) (raw : Text)
    → is_delimiter a b c ≡ false
    → split_entries (a ∷ b ∷ c ∷ raw) ≡ cons_first a (split_entries (b ∷ c ∷ raw))
unfolding split_entries
split-step a b c raw h =
    ap
      (λ (t : Bool). elim t as (λ x. List Text) [
        | true ↦ [] ∷ split_entries raw
        | false ↦ cons_first a (split_entries (b ∷ c ∷ raw))
      ])
      h

split-delimiter : (raw : Text) → split_entries (entry_delimiter ++ raw) ≡ [] ∷ split_entries raw
unfolding split_entries
split-delimiter raw = refl

split-Plain_last : (t : Text) → Plain t → split_entries t ≡ t ∷ []
unfolding split_entries
split-Plain_last [] p = refl
split-Plain_last (a ∷ []) p = refl
split-Plain_last (a ∷ b ∷ []) p = refl
split-Plain_last (a ∷ b ∷ c ∷ t) p =
    split-step a b c t p.0 ∙ ap (cons_first a) (split-Plain_last (b ∷ c ∷ t) p.1)

split-Plain :
    (t rest : Text)
    → Plain t
    → split_entries (t ++ (entry_delimiter ++ rest)) ≡ t ∷ split_entries rest
split-Plain [] rest p = split-delimiter rest
split-Plain (a ∷ []) rest p =
    split-step a 10 167 (10 ∷ rest) (ground arith) ∙ ap (cons_first a) (split-delimiter rest)
split-Plain (a ∷ b ∷ []) rest p =
    split-step a b 10 (167 ∷ 10 ∷ rest) p
    ∙ ap (cons_first a)
        (split-step b 10 167 (10 ∷ rest) (ground arith) ∙ ap (cons_first b) (split-delimiter rest))
split-Plain (a ∷ b ∷ c ∷ t) rest p =
    split-step a b c (t ++ (entry_delimiter ++ rest)) p.0
    ∙ ap (cons_first a) (split-Plain (b ∷ c ∷ t) rest p.1)

strip_all-entry :
    (t : Text) (ts : List Text) → t ≢ [] → strip t ≡ t → strip_all (t ∷ ts) ≡ t ∷ strip_all ts
unfolding strip_all
strip_all-entry [] ts full s = absurd (full refl)
strip_all-entry (c ∷ t) ts full s = rw (s, strip_all)

strip_all-nil : strip_all [] ≡ []
unfolding strip_all
strip_all-nil = refl

lstrip-head : (s : Text) (c : ℕ) (t : Text) → lstrip s ≡ c ∷ t → is_space c ≡ false
unfolding lstrip
lstrip-head [] c t h = absurd (cc)
lstrip-head (a ∷ s) c t h = elim (Bool-cases (is_space a)) [
  | inl space ↦ lstrip-head s c t (rw space at h)
  | inr other ↦ let same : ◌≡◌ {A = Text} (a ∷ s) (c ∷ t) = rw other at h in ground arith
]

rstrip-head : (c : ℕ) (s : Text) → is_space c ≡ false → (t : Text) × (rstrip (c ∷ s) ≡ c ∷ t)
unfolding rstrip
rstrip-head c s h = go (rstrip s) refl
  where
    go : (r : Text) → rstrip s ≡ r → (t : Text) × (rstrip (c ∷ s) ≡ c ∷ t)
    go [] e = ([], rw (e, rstrip) (rw h))
    go (d ∷ r) e = (d ∷ r, rw (e, rstrip))

-- A text that begins with no space is not empty when it is stripped.
strip-head : (c : ℕ) (s : Text) → is_space c ≡ false → (t : Text) × (strip (c ∷ s) ≡ c ∷ t)
unfolding strip
strip-head c s h =
    let (t, e) = rstrip-head c s h in
    let g : lstrip (c ∷ t) ≡ c ∷ t = unfold lstrip in rw h refl in (t, ap lstrip e ∙ g)

IsEntry-head : (t : Text) → IsEntry t → (c : ℕ) × (s : Text) × (t ≡ c ∷ s) × (is_space c ≡ false)
unfolding strip
IsEntry-head [] h = absurd (h.full refl)
IsEntry-head (c ∷ s) h = (c, s, refl, lstrip-head (rstrip (c ∷ s)) c s h.stripped)

render-head :
    (e : Text) (es : List Text)
    → IsEntry e
    → (c : ℕ) × (s : Text) × (render_entries (e ∷ es) ≡ c ∷ s) × (is_space c ≡ false)
unfolding render_entries
render-head e [] h = IsEntry-head e h
render-head e (f ∷ es) h =
    let (c, s, same, free) = IsEntry-head e h in
    (
      c,
      s ++ (entry_delimiter ++ render_entries (f ∷ es)),
      ap (λ t. t ++ (entry_delimiter ++ render_entries (f ∷ es))) same,
      free,
    )

parse-head :
    (raw : Text) (c : ℕ) (s : Text)
    → raw ≡ c ∷ s
    → is_space c ≡ false
    → parse_entries raw ≡ strip_all (split_entries raw)
unfolding parse_entries
parse-head raw c s h free = let (t, e) = strip-head c s free in rw (ap strip h ∙ e, parse_entries)

strip_all-split :
    (es : List Text) → All IsEntry es → es ≢ [] → strip_all (split_entries (render_entries es)) ≡ es
unfolding render_entries
strip_all-split [] h n = absurd (n refl)
strip_all-split (e ∷ []) h n =
    ap strip_all (split-Plain_last e h.0.plain)
    ∙ strip_all-entry e [] h.0.full h.0.stripped
    ∙ ap (◌∷◌ e) strip_all-nil
strip_all-split (e ∷ f ∷ es) h n =
    ap strip_all (split-Plain e (render_entries (f ∷ es)) h.0.plain)
    ∙ strip_all-entry e _ h.0.full h.0.stripped
    ∙ ap (◌∷◌ e) (strip_all-split (f ∷ es) h.1 (λ z. cc))

parse-nil : parse_entries (render_entries []) ≡ []
unfolding parse_entries render_entries strip lstrip rstrip
parse-nil = refl

-- Entries that are full, stripped and hide no delimiter come back as they were, in order.
pub parse_entries-render_entries :
    (es : List Text) → All IsEntry es → parse_entries (render_entries es) ≡ es
parse_entries-render_entries [] h = parse-nil
parse_entries-render_entries (e ∷ es) h =
    let (c, s, same, free) = render-head e es h.0 in
    parse-head (render_entries (e ∷ es)) c s same free ∙ strip_all-split (e ∷ es) h (λ z. cc)
