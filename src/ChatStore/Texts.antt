-- ===== src/ChatStore/Texts.antt =====
-- The module functions of src/hermes_vylen_gateway/chat_store.py on texts: ids, kinds, titles and
-- previews.
use hermes_vylen_gateway.Prelude.{
  ℕ, ◌+◌, Bool, true, false, not, String, List, [], ◌∷◌, Option, none, some, ltb, leb, ◌==◌, nat_eq,
  ◌&&◌, ◌||◌, length, take, if◌then◌else◌,
}
use hermes_vylen_gateway.Prelude.Dict
use hermes_vylen_gateway.Prelude.Text.{Text, text_eq, codes, strip, join_words}

-- What the code uses of a payload, a dictionary of JSON values: `field k p` is
-- str(p.get(k) or ""), which is empty only where p has no value or a false one under k, `has k p` is
-- bool(p.get(k)), `object` makes a dictionary of texts, `dumps` and `loads` are `_canonical_json`
-- and json.loads of what it gave, `parse` is json.loads of any text, with `none` for a `ValueError`, and
-- `set_default` is p.setdefault(k, text) on a copy.
pub record Json (V : Type 0) : Type 0 where
  pub field : String → V → Text
  pub has : String → V → Bool
  pub object : List (String × Text) → V
  pub dumps : V → Text
  pub loads : Text → V
  pub parse : Text → Option V
  pub is_dict : V → Bool
  pub set_default : String → Text → V → V

-- len(s.encode("utf-8")), of a text with no lone surrogate
unfoldable pub utf8_length : Text → ℕ
utf8_length [] = 0
utf8_length (c ∷ s) =
    (if ltb c 0x80 then 1 else if ltb c 0x800 then 2 else if ltb c 0x10000 then 3 else 4)
    + utf8_length s

unfoldable pub every : (ℕ → Bool) → Text → Bool
every p [] = true
every p (c ∷ s) = if p c then every p s else false

-- [A-Za-z0-9_.:-]
unfoldable pub is_id_char : ℕ → Bool
is_id_char c =
    (leb b'A' c && leb c b'Z')
    || (leb b'a' c && leb c b'z')
    || (leb b'0' c && leb c b'9')
    || c == b'_'
    || c == b'.'
    || c == b':'
    || c == b'-'

-- `_clean_id`; the text has been stripped when `_ID_RE` is matched
unfoldable pub clean_id : Text → Text
unfolding every is_id_char strip
clean_id value =
    let v = strip value in
    if every is_id_char v && ltb 0 (length v) && leb (length v) 256 then v else []

unfoldable pub optional_id : Option Text → Option Text
unfolding clean_id
optional_id none = none
optional_id (some v) = elim (clean_id v) [ [] ↦ none | c ∷ cs ↦ some (c ∷ cs) ]

-- the text before and behind the first dot
unfoldable pub split_dot : Text → Option (Text × Text)
split_dot [] = none
split_dot (c ∷ s) =
    if c == b'.'
    then some ([], s)
    else elim (split_dot s) [ none ↦ none | some (a, b) ↦ some (c ∷ a, b) ]

abbrev pub kind_groups : List Text
kind_groups =
    codes "push"
    ∷ codes "message"
    ∷ codes "turn"
    ∷ codes "activity"
    ∷ codes "approval"
    ∷ codes "confirm"
    ∷ codes "input"
    ∷ codes "session"
    ∷ codes "chat"
    ∷ []

-- the text without a line feed at its end, in front of which `$` matches
unfoldable pub chomp : Text → Text
chomp [] = []
chomp (c ∷ []) = if c == 10 then [] else c ∷ []
chomp (c ∷ d ∷ s) = c ∷ chomp (d ∷ s)

-- _KIND_RE.match(kind)
unfoldable pub is_kind : Text → Bool
unfolding every is_id_char split_dot chomp
is_kind kind =
    let k = chomp kind in
    elim (split_dot k) [
      | none ↦ k == codes "push"
      | some (group, rest) ↦
          Dict.contains group kind_groups && ltb 0 (length rest) && every is_id_char rest
    ]

-- a text, or the other one if it is empty
abbrev pub or_else : Text → Text → Text
or_else [] other = other
or_else (c ∷ s) other = c ∷ s

abbrev pub new_conversation : Text
new_conversation = codes "New conversation"

-- `_clean_title`
unfoldable pub clean_title : Text → Text
clean_title value = take 100 (or_else (strip value) new_conversation)

-- `_derive_title_from_message_text`
unfoldable pub derive_title_from_message_text : Text → Text
unfolding join_words
derive_title_from_message_text value = take 60 (join_words false (strip value))

-- `_title_is_default`
unfoldable pub title_is_default : Text → Bool
title_is_default value = strip value == [] || strip value == new_conversation

module _ {V : Type 0} (json : Json V) where
  -- `_replacement_title_for_event`
  unfoldable pub replacement_title_for_event : Text → V → Text → Option Text
  unfolding title_is_default derive_title_from_message_text clean_title
  replacement_title_for_event kind payload current_title =
      if not (title_is_default current_title)
      then none
      else if not (kind == codes "message.created" && json.field "role" payload == codes "user")
      then none
      else elim (derive_title_from_message_text (json.field "text" payload)) [
        | [] ↦ none
        | c ∷ s ↦ some (clean_title (c ∷ s))
      ]

  -- `_initial_title_for_event`
  unfoldable pub initial_title_for_event : Text → V → Text → Text
  unfolding title_is_default clean_title replacement_title_for_event
  initial_title_for_event kind payload title =
      let explicit = clean_title (or_else title (json.field "chat_name" payload)) in
      if not (title_is_default explicit)
      then explicit
      else elim (replacement_title_for_event kind payload explicit) [
        | none ↦ explicit
        | some derived ↦ or_else derived explicit
      ]

  -- the text of a preview, before it is cut
  unfoldable pub preview_text : Text → V → Text
  preview_text kind payload =
      or_else (strip (json.field "text" payload))
        (if kind == codes "push" && json.has "image_token" payload then codes "Image" else [])

  -- `_preview_from_event`
  unfoldable pub preview_from_event : Text → V → Text → Option (Text × Text × Text)
  unfolding preview_text
  preview_from_event kind payload occurred_at =
      if not
        (kind == codes "message.created" || kind == codes "message.updated" || kind == codes "push")
      then none
      else elim (preview_text kind payload) [
        | [] ↦ none
        | c ∷ s ↦ some (
          take 240 (c ∷ s),
          or_else (json.field "role" payload) (if kind == codes "push" then codes "hermes" else []),
          or_else (json.field "created_at" payload) occurred_at,
        )
      ]
