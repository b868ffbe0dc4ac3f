-- ===== src/ChatStore/Listing.antt =====
-- `list_chats` of src/hermes_vylen_gateway/chat_store.py, with the LIKE of SQLite that it searches by.
pub mod Search
use hermes_vylen_gateway.Prelude.{
  ℕ, ◌+◌, Bool, true, false, not, List, [], ◌∷◌, ◌++◌, map, Option, none, some, ltb, leb, ◌==◌,
  nat_eq, ◌&&◌, ◌||◌, min, max, length, take, if◌then◌else◌,
}
use hermes_vylen_gateway.Prelude.Dict
use hermes_vylen_gateway.Prelude.Text.{Text, text_eq, text_ltb, codes, strip}
use hermes_vylen_gateway.ChatStore.Tables.{ChatRecord, Db, select}
use hermes_vylen_gateway.ChatStore.Texts.{clean_id}
use hermes_vylen_gateway.ChatStore.Store.{
  ChatStateStore, chat_state_unavailable, Answer, ok, raised, is_usable,
}
use hermes_vylen_gateway.ChatStore.Reads.{hide_deleted}
use hermes_vylen_gateway.ChatStore.Sweep.{order_by_update}
use mathlib.Core.List.{reverse}

-- value.replace(c, by) for one character
unfoldable pub replace_char : ℕ → Text → Text → Text
replace_char c by [] = []
replace_char c by (x ∷ s) = (if x == c then by else x ∷ []) ++ replace_char c by s

-- `_escape_like`
unfoldable pub escape_like : Text → Text
unfolding replace_char
escape_like value =
    replace_char b'_' (92 ∷ b'_' ∷ [])
      (replace_char b'%' (92 ∷ b'%' ∷ []) (replace_char 92 (92 ∷ 92 ∷ []) value))

-- `_clean_search_query`
unfoldable pub clean_search_query : Text → Text
unfolding strip
clean_search_query value = take 128 (strip value)

-- SQLite's lower() of one character; its LIKE compares letters by it, too
abbrev pub lower_ascii : ℕ → ℕ
lower_ascii c = if leb b'A' c && leb c b'Z' then c + 32 else c

-- some text behind the beginning of a text
unfoldable pub any_suffix : (Text → Bool) → Text → Bool
any_suffix p [] = p []
any_suffix p (c ∷ t) = p (c ∷ t) || any_suffix p t

abbrev pub on_cons : (ℕ → Text → Bool) → Text → Bool
on_cons p [] = false
on_cons p (c ∷ t) = p c t

-- text LIKE pattern ESCAPE '\', for texts without a NUL
unfoldable pub like : Text → Text → Bool
unfolding any_suffix
like [] t = t == []
like (p ∷ []) t =
    if p == b'%'
    then any_suffix (λ r. r == []) t
    else if p == 92
    then false
    else on_cons (λ c r. (p == b'_' || lower_ascii c == lower_ascii p) && r == []) t
like (p ∷ q ∷ ps) t =
    let later = like (q ∷ ps) in
    let escaped = like ps in
    if p == b'%'
    then any_suffix later t
    else if p == 92
    then on_cons (λ c r. lower_ascii c == lower_ascii q && escaped r) t
    else on_cons (λ c r. (p == b'_' || lower_ascii c == lower_ascii p) && later r) t

-- a text as LIKE reads it, which ends at a NUL
abbrev pub until_nul : Text → Text
until_nul [] = []
until_nul (c ∷ t) = let rest = until_nul t in if c == 0 then [] else c ∷ rest

-- What a request for a list says. `lower` is str.lower(), which knows more letters than SQLite.
pub record ListRequest : Type 0 where
  pub limit : ℕ
  pub before_updated_at : Text
  pub before_chat_id : Text
  pub text : Text
  pub include_deleted : Bool

abbrev pub safe_limit : ℕ → ℕ
safe_limit limit = min (max 1 limit) 200

abbrev pub is_shown : ChatRecord → Bool
is_shown row = elim row.deleted_at [ none ↦ not (row.chat_id == codes "inbox") | some at ↦ false ]

-- %…% around the query
abbrev pub search_pattern : Text → Text
search_pattern query = b'%' ∷ (escape_like query ++ b'%' ∷ [])

unfoldable pub is_found : (Text → Text) → Text → ChatRecord → Bool
unfolding like escape_like
is_found lower [] row = true
is_found lower (c ∷ query) row =
    like (until_nul (search_pattern (lower (c ∷ query)))) (until_nul (map lower_ascii row.title))

unfoldable pub is_earlier : Text → Text → ChatRecord → Bool
is_earlier [] before_id row = true
is_earlier (c ∷ at) [] row = text_ltb row.updated_at (c ∷ at)
is_earlier (c ∷ at) (i ∷ id) row =
    text_ltb row.updated_at (c ∷ at) || (row.updated_at == c ∷ at && text_ltb row.chat_id (i ∷ id))

-- the WHERE of the statement
unfoldable pub is_listed : (Text → Text) → ListRequest → ChatRecord → Bool
unfolding is_found is_earlier clean_search_query clean_id
is_listed lower r row =
    (r.include_deleted || is_shown row)
    && is_found lower (clean_search_query r.text) row
    && is_earlier r.before_updated_at (clean_id r.before_chat_id) row

pub record ChatListPage : Type 0 where
  pub chats : List ChatRecord
  pub has_more : Bool

-- ORDER BY updated_at DESC, chat_id DESC
unfoldable pub listed_rows : (Text → Text) → ListRequest → Db → List ChatRecord
unfolding is_listed order_by_update select
listed_rows lower r db =
    reverse (order_by_update (select (is_listed lower r) (map (λ p. p.1) db.chats)))

-- `list_chats`
unfoldable pub list_chats : (Text → Text) → ChatStateStore → ListRequest → Answer ChatListPage
unfolding listed_rows
list_chats lower s r =
    let limit = safe_limit r.limit in
    let rows = take (limit + 1) (listed_rows lower r s.db) in
    if not (is_usable s)
    then raised chat_state_unavailable
    else ok (record { chats = take limit rows; has_more = ltb limit (length rows) })
