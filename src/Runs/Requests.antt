-- ===== src/Runs/Requests.antt =====
-- What the runs of src/hermes_vylen_gateway/agent_runner.py read of a request.
use hermes_vylen_gateway.Prelude.{
  ℕ, ◌≡◌, ◌⊎◌, inl, inr, refl, Bool, false, String, List, [], ◌∷◌, Option, none, some, ltb, ◌==◌,
  nat_eq, ◌||◌, length, if◌then◌else◌,
}
use hermes_vylen_gateway.Prelude.Text.{Text, text_eq, strip}

-- `_RequestError`: the status, the message and the code
pub record RequestError : Type 0 where
  pub status : ℕ
  pub message : String
  pub code : Option String

abbrev pub bad_request : String → RequestError
bad_request message = record { status = 400; message = message; code = none }

pub data Parsed {ℓ} (A : Type ℓ) : Type ℓ where
  ok : A → Parsed A
  raised : RequestError → Parsed A

pub Parsed-cases {ℓ} :
    {A : Type ℓ} (p : Parsed A) → ((x : A) × (p ≡ ok x)) ⊎ ((e : RequestError) × (p ≡ raised e))
Parsed-cases (ok x) = inl (x, refl)
Parsed-cases (raised e) = inr (e, refl)

-- `_ParsedRequest.header`, with str.lower()
unfoldable pub header : (Text → Text) → Text → Text → List (Text × Text) → Text
header lower name default [] = default
header lower name default ((key, value) ∷ headers) =
    if lower key == lower name then value else header lower name default headers

-- re.search(r"[\r\n\x00]", raw)
unfoldable pub has_line_end : Text → Bool
has_line_end [] = false
has_line_end (c ∷ s) = c == 13 || c == 10 || c == 0 || has_line_end s

-- a header that may be left out, within a length
unfoldable pub parse_header : String → String → ℕ → Text → Parsed (Option Text)
unfolding strip has_line_end
parse_header invalid too_long most value =
    let raw = strip value in
    if raw == []
    then ok none
    else if has_line_end raw
    then raised (bad_request invalid)
    else if ltb most (length raw)
    then raised (bad_request too_long)
    else ok (some raw)

-- `_parse_idempotency_key`, of the value of the header
unfoldable pub parse_idempotency_key : Text → Parsed (Option Text)
unfolding parse_header
parse_idempotency_key = parse_header "Invalid Idempotency-Key" "Idempotency-Key too long" 256

-- `_parse_session_key`, of the value of the header
unfoldable pub parse_session_key : Text → Parsed (Option Text)
unfolding parse_header
parse_session_key = parse_header "Invalid session key" "Session key too long" 256

-- body["input"]
pub data RunInput (V : Type 0) : Type 0 where
  -- missing, null, or another false value
  no_input : RunInput V
  input_text : Text → RunInput V
  -- a list that is not empty: item.get("content", "") of its last item, if that is a dictionary
  input_items : Option V → RunInput V
  -- another value that is true
  other_input : RunInput V

pub record RunRequest (V : Type 0) : Type 0 where
  -- the values of Idempotency-Key and X-Hermes-Session-Key, empty without them
  pub idempotency_header : Text
  pub session_header : Text
  -- `_make_request_fingerprint` of the body
  pub fingerprint : Text
  pub input : RunInput V
  -- an entry with a role and a content, or one that is skipped
  pub conversation_history : List (Option (Text × V))
  pub previous_response_id : Text
  pub session_id : Text
  pub model : V

module _ {V : Type 0} where
  unfoldable pub history_entries : List (Option (Text × V)) → List (Text × V)
  history_entries [] = []
  history_entries (none ∷ es) = history_entries es
  history_entries (some e ∷ es) = e ∷ history_entries es

  module _ (str : Text → V) (truthy : V → Bool) where
    -- the user's message, with `str` for a text as a value and `truthy` for bool()
    unfoldable pub user_message : RunInput V → Parsed V
    user_message no_input = raised (bad_request "Missing 'input' field")
    user_message (input_text t) = ok (str t)
    user_message (input_items none) = raised (bad_request "No user message found in input")
    user_message (input_items (some content)) =
        if truthy content then ok content else raised (bad_request "No user message found in input")
    user_message other_input = raised (bad_request "No user message found in input")
