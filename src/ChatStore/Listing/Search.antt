-- ===== src/ChatStore/Listing/Search.antt =====
-- What the search of `list_chats` in src/hermes_vylen_gateway/chat_store.py finds.
use hermes_vylen_gateway.Prelude.{
  ℕ, ◌≡◌, refl, ap, ◌∙◌, inl, inr, Bool, true, false, [], ◌∷◌, ◌++◌, arith, ◌==◌, nat_eq, ◌&&◌,
  ◌||◌, Bool-cases, subst, drop, map, if◌then◌else◌, append_assoc,
}
use hermes_vylen_gateway.Prelude.Text.{Text, text_eq}
use hermes_vylen_gateway.ChatStore.Tables.{ChatRecord}
use hermes_vylen_gateway.ChatStore.Listing.{
  replace_char, escape_like, lower_ascii, any_suffix, on_cons, like, search_pattern, until_nul,
  is_found,
}

-- The text begins with the query, letters of either case being the same.
unfoldable pub begins_with : Text → Text → Bool
begins_with [] t = true
begins_with (c ∷ query) [] = false
begins_with (c ∷ query) (x ∷ t) = lower_ascii x == lower_ascii c && begins_with query t

-- a special character, behind its escape
abbrev escaped : ℕ → Text
escaped c = if c == 92 || c == b'%' || c == b'_' then 92 ∷ c ∷ [] else c ∷ []

escape_like-cons : (c : ℕ) (s : Text) → escape_like (c ∷ s) ≡ escaped c ++ escape_like s
unfolding escape_like replace_char
escape_like-cons c s = elim (Bool-cases (c == 92)) [
  | inl h ↦ let e : c ≡ 92 = ground arith in rw e refl
  | inr h ↦ elim (Bool-cases (c == b'%')) [
    | inl h2 ↦ let e : c ≡ b'%' = ground arith in rw e refl
    | inr h2 ↦ elim (Bool-cases (c == b'_')) [
      | inl h3 ↦ let e : c ≡ b'_' = ground arith in rw e refl
      | inr h3 ↦ rw (h, replace_char) (rw (h2, replace_char) (rw (h3, replace_char) refl))
    ]
  ]
]

any_suffix-nil : (t : Text) → any_suffix (λ r. r == []) t ≡ true
unfolding any_suffix
any_suffix-nil [] = refl
any_suffix-nil (c ∷ t) = any_suffix-nil t

like-percent : (t : Text) → like (escape_like [] ++ b'%' ∷ []) t ≡ true
unfolding like escape_like
like-percent t = any_suffix-nil t

any_suffix-eq :
    (p q : Text → Bool) (t : Text) → ((r : Text) → p r ≡ q r) → any_suffix p t ≡ any_suffix q t
unfolding any_suffix
any_suffix-eq p q [] h = h []
any_suffix-eq p q (c ∷ t) h = rw (h (c ∷ t)) (ap (◌||◌ (q (c ∷ t))) (any_suffix-eq p q t h))

-- one character of a pattern, behind its escape or not, in front of a rest that is not empty
like-cons :
    (c d : ℕ) (ps t : Text)
    → like (escaped c ++ d ∷ ps) t
      ≡ on_cons (λ x r. lower_ascii x == lower_ascii c && like (d ∷ ps) r) t
unfolding like
like-cons c d ps t = elim (Bool-cases (c == 92 || c == b'%' || c == b'_')) [
  | inl h ↦ rw h refl
  | inr h ↦
      let percent : (c == b'%') ≡ false = ground arith in
      let escape : (c == 92) ≡ false = ground arith in
      let underscore : (c == b'_') ≡ false = ground arith in
      rw h (rw (percent, like) (rw (escape, like) (rw (underscore, like) refl)))
]

like-cons_percent :
    (c : ℕ) (e t : Text)
    → like (escaped c ++ (e ++ b'%' ∷ [])) t
      ≡ on_cons (λ x r. lower_ascii x == lower_ascii c && like (e ++ b'%' ∷ []) r) t
like-cons_percent c [] t = like-cons c b'%' [] t
like-cons_percent c (d ∷ e) t = like-cons c d (e ++ b'%' ∷ []) t

like-escaped : (query t : Text) → like (escape_like query ++ b'%' ∷ []) t ≡ begins_with query t
unfolding begins_with
like-escaped [] t = like-percent t
like-escaped (c ∷ query) [] = rw (escape_like-cons c query) (
    rw (append_assoc (escaped c) (escape_like query) (b'%' ∷ []))
      (like-cons_percent c (escape_like query) []))
like-escaped (c ∷ query) (x ∷ t) = rw (escape_like-cons c query) (
    rw (append_assoc (escaped c) (escape_like query) (b'%' ∷ [])) (
      like-cons_percent c (escape_like query) (x ∷ t)
      ∙ ap (◌&&◌ (lower_ascii x == lower_ascii c)) (like-escaped query t)))

like-surrounded :
    (e t : Text) → like (b'%' ∷ (e ++ b'%' ∷ [])) t ≡ any_suffix (like (e ++ b'%' ∷ [])) t
unfolding like
like-surrounded [] t = refl
like-surrounded (c ∷ e) t = refl

like-search_pattern :
    (query t : Text) → like (search_pattern query) t ≡ any_suffix (begins_with query) t
like-search_pattern query t =
    like-surrounded (escape_like query) t
    ∙ any_suffix-eq (like (escape_like query ++ b'%' ∷ [])) (begins_with query) t
        (like-escaped query)

abbrev pub HasNoNul : Text → Type 0
HasNoNul t = until_nul t ≡ t

tail-HasNoNul : (c : ℕ) (t : Text) → HasNoNul (c ∷ t) → ((c == 0) ≡ false) × HasNoNul t
tail-HasNoNul c t h = elim (Bool-cases (c == 0)) [
  | inl nul ↦
      let empty : [] ≡ c ∷ t = subst (λ b. (if b then [] else c ∷ until_nul t) ≡ c ∷ t) nul h in
      absurd (cc)
  | inr other ↦
      let kept : c ∷ until_nul t ≡ c ∷ t =
        subst (λ b. (if b then [] else c ∷ until_nul t) ≡ c ∷ t) other h in
      (other, ap (λ l. drop 1 l) kept)
]

until_nul-escaped :
    (c : ℕ) (t : Text) → (c == 0) ≡ false → until_nul (escaped c ++ t) ≡ escaped c ++ until_nul t
until_nul-escaped c t h = elim (Bool-cases (c == 92 || c == b'%' || c == b'_')) [
  | inl special ↦ rw special (rw h refl)
  | inr plain ↦ rw plain (rw h refl)
]

until_nul-escape_like :
    (query : Text)
    → HasNoNul query
    → until_nul (escape_like query ++ b'%' ∷ []) ≡ escape_like query ++ b'%' ∷ []
until_nul-escape_like [] h = unfold escape_like replace_char in refl
until_nul-escape_like (c ∷ query) h =
    let (other, later) = tail-HasNoNul c query h in
    rw (escape_like-cons c query) (
      rw (append_assoc (escaped c) (escape_like query) (b'%' ∷ [])) (
        until_nul-escaped c (escape_like query ++ b'%' ∷ []) other
        ∙ ap (◌++◌ (escaped c)) (until_nul-escape_like query later)))

-- A row is found for a query exactly where the query as str.lower() gives it, with any special
-- characters that it holds, occurs in the title up to its first NUL; ASCII letters of either case are
-- the same, and the lowered query has no NUL.
pub is_found-occurs :
    (lower : Text → Text) (c : ℕ) (query : Text) (row : ChatRecord)
    → HasNoNul (lower (c ∷ query))
    → is_found lower (c ∷ query) row
      ≡ any_suffix (begins_with (lower (c ∷ query))) (until_nul (map lower_ascii row.title))
unfolding is_found
is_found-occurs lower c query row h =
    ap (λ p. like (b'%' ∷ p) (until_nul (map lower_ascii row.title)))
      (until_nul-escape_like (lower (c ∷ query)) h)
    ∙ like-search_pattern (lower (c ∷ query)) (until_nul (map lower_ascii row.title))
