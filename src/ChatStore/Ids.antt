-- ===== src/ChatStore/Ids.antt =====
-- `_clean_id` of src/hermes_vylen_gateway/chat_store.py leaves a clean id as it is.
use hermes_vylen_gateway.Prelude.{
  ℕ, ◌≤◌, ◌≡◌, ◌≢◌, ◌==◌, refl, inl, inr, ◌⊎◌, Bool, true, false, [], ◌∷◌, arith, Bool-cases, ◌&&◌,
  ltb, leb, length,
}
use hermes_vylen_gateway.Prelude.Text.{Text, text_eq, is_space, lstrip, rstrip}
use hermes_vylen_gateway.ChatStore.Texts.{every, is_id_char, clean_id}

id_char_bounds : (c : ℕ) → is_id_char c ≡ true → (45 ≤ c) × (c ≤ 122)
unfolding is_id_char
id_char_bounds c h = ground arith

space_bounds : (c : ℕ) → is_space c ≡ true → (c ≤ 32) ⊎ (133 ≤ c)
unfolding is_space
space_bounds c h = ground arith

id_char-not_space : (c : ℕ) → is_id_char c ≡ true → is_space c ≡ false
id_char-not_space c h = elim (Bool-cases (is_space c)) [
  | inl space ↦ absurd (omega (arith, id_char_bounds c h, space_bounds c space))
  | inr other ↦ other
]

rstrip-every : (s : Text) → every is_id_char s ≡ true → rstrip s ≡ s
unfolding every rstrip
rstrip-every [] h = refl
rstrip-every (c ∷ []) h = ground (arith, id_char-not_space c)
rstrip-every (c ∷ d ∷ s) h = let ih = rstrip-every (d ∷ s) (ground arith) in rw ih refl

lstrip-every : (s : Text) → every is_id_char s ≡ true → lstrip s ≡ s
unfolding every lstrip
lstrip-every [] h = refl
lstrip-every (c ∷ s) h = ground (arith, id_char-not_space c)

abbrev fits : Text → Bool
fits v = every is_id_char v && ltb 0 (length v) && leb (length v) 256

clean_id-fits : (v : Text) → fits v ≡ true → clean_id v ≡ v
unfolding clean_id
clean_id-fits v h =
    let e : every is_id_char v ≡ true = ground arith in rw (rstrip-every v e, lstrip-every v e, h)

clean_id-nil : clean_id [] ≡ []
unfolding clean_id
clean_id-nil = refl

clean_id-cases : (s : Text) → (fits (clean_id s) ≡ true) ⊎ (clean_id s ≡ [])
unfolding clean_id
clean_id-cases s = elim (Bool-cases (fits (lstrip (rstrip s)))) [
  | inl good ↦ inl (rw good good)
  | inr bad ↦ inr (rw bad)
]

pub clean_id-clean_id : (s : Text) → clean_id (clean_id s) ≡ clean_id s
clean_id-clean_id s = elim (clean_id-cases s) [
  | inl good ↦ clean_id-fits (clean_id s) good
  | inr bad ↦ rw bad clean_id-nil
]

pub beq_nil : (t : Text) → t ≢ [] → (t == []) ≡ false
beq_nil [] h = absurd (h refl)
beq_nil (c ∷ t) h = refl

pub not_nil_of : (t : Text) → (t == []) ≡ false → t ≢ []
not_nil_of [] h = absurd (cc)
not_nil_of (c ∷ t) h = λ e. cc
