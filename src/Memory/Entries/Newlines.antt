-- ===== src/Memory/Entries/Newlines.antt =====
-- Texts that reading a memory file in text mode leaves alone, in src/hermes_vylen_gateway/memory.py.
use hermes_vylen_gateway.Prelude.{
  ℕ, ◌≡◌, refl, sym, ap, ◌∙◌, inl, inr, Bool, true, false, [], ◌∷◌, All, ◌==◌, nat_eq, Bool-cases,
  subst,
}
use mathlib.Core.Path.{ap₂}
use hermes_vylen_gateway.Prelude.Text.{Text, text_eq}
use hermes_vylen_gateway.Memory.Entries.{universal_newlines}

-- No carriage return.
abbrev pub HasNoCr : Text → Type 0
HasNoCr = All (λ c. (c == 13) ≡ false)

-- the case of two characters, by the two tests
abbrev two : Bool → Bool → ℕ → ℕ → Text → Text
two cr lf a b s = elim cr [
  | false ↦ a ∷ universal_newlines (b ∷ s)
  | true ↦ elim lf [ true ↦ 10 ∷ universal_newlines s | false ↦ 10 ∷ universal_newlines (b ∷ s) ]
]

universal_newlines-two :
    (a b : ℕ) (s : Text) (cr lf : Bool)
    → (a == 13) ≡ cr
    → (b == 10) ≡ lf
    → universal_newlines (a ∷ b ∷ s) ≡ two cr lf a b s
unfolding universal_newlines
universal_newlines-two a b s cr lf h k = ap₂ (λ (x y : Bool). two x y a b s) h k

pub universal_newlines-HasNoCr : (s : Text) → HasNoCr s → universal_newlines s ≡ s
unfolding universal_newlines
universal_newlines-HasNoCr [] h = refl
universal_newlines-HasNoCr (a ∷ []) h = rw (h.0)
universal_newlines-HasNoCr (a ∷ b ∷ s) h =
    universal_newlines-two a b s false (b == 10) h.0 refl
    ∙ ap (◌∷◌ a) (universal_newlines-HasNoCr (b ∷ s) h.1)

pub HasNoCr-universal_newlines : (s : Text) → HasNoCr (universal_newlines s)
unfolding universal_newlines
HasNoCr-universal_newlines [] = tt
HasNoCr-universal_newlines (a ∷ []) = elim (Bool-cases (a == 13)) [
  | inl cr ↦ rw cr (refl, tt)
  | inr other ↦ rw other (other, tt)
]
HasNoCr-universal_newlines (a ∷ b ∷ s) =
    let rest = HasNoCr-universal_newlines (b ∷ s) in
    let far = HasNoCr-universal_newlines s in
    elim (Bool-cases (a == 13)) [
      | inr other ↦
          subst HasNoCr (sym (universal_newlines-two a b s false (b == 10) other refl))
            (other, rest)
      | inl cr ↦ elim (Bool-cases (b == 10)) [
        | inl lf ↦ subst HasNoCr (sym (universal_newlines-two a b s true true cr lf)) (refl, far)
        | inr no_lf ↦
            subst HasNoCr (sym (universal_newlines-two a b s true false cr no_lf)) (refl, rest)
      ]
    ]
