-- ===== src/ChatStore/Tables.antt =====
-- The tables of src/hermes_vylen_gateway/chat_store.py (`_create_schema`), and what its statements do
-- with them. The rows of `chats` stand under their primary key; the other tables are in the order of
-- insertion.
use hermes_vylen_gateway.Prelude.{
  ℕ, Bool, false, List, [], ◌∷◌, ◌++◌, Option, none, some, ltb, leb, ◌==◌, nat_eq, if◌then◌else◌,
}
use hermes_vylen_gateway.Prelude.Dict
use hermes_vylen_gateway.Prelude.Dict.{Dict}
use hermes_vylen_gateway.Prelude.Text.{Text, text_eq}

pub record ChatRecord : Type 0 where
  pub chat_id : Text
  pub title : Text
  pub kind : Text
  pub creator_client_id : Option Text
  pub creator_user_id : Option Text
  pub created_at : Text
  pub updated_at : Text
  pub latest_seq : ℕ
  pub floor_seq : ℕ
  pub deleted_at : Option Text
  pub last_message_preview : Option Text
  pub last_message_role : Option Text
  pub last_message_at : Option Text

pub record EventRow : Type 0 where
  pub chat_id : Text
  pub seq : ℕ
  pub kind : Text
  pub payload_json : Text
  pub payload_bytes : ℕ
  pub occurred_at : Text
  pub created_at : Text

pub record CursorRow : Type 0 where
  pub seq : ℕ
  pub updated_at : Text

pub record DedupRow : Type 0 where
  pub turn_id : Text
  pub message_id : Text
  pub accepted_at : Text
  pub expires_at : Text
  pub payload_json : Text

pub record MaintenanceRow : Type 0 where
  pub kind : Text
  pub message : Text
  pub detail_json : Text
  pub created_at : Text

pub record Db : Type 0 where
  pub chats : Dict Text ChatRecord
  pub chat_events : List EventRow
  pub client_cursors : Dict (Text × Text) CursorRow
  pub inbound_dedup : Dict (Text × Text) DedupRow
  pub maintenance_log : List MaintenanceRow

module _ {ℓ} {A : Type ℓ} where
  -- SELECT … WHERE p
  unfoldable pub select : (A → Bool) → List A → List A
  select p [] = []
  select p (x ∷ xs) = let rest = select p xs in if p x then x ∷ rest else rest

  -- DELETE … WHERE p
  unfoldable pub delete : (A → Bool) → List A → List A
  delete p [] = []
  delete p (x ∷ xs) = let rest = delete p xs in if p x then rest else x ∷ rest

-- ORDER BY seq ASC
unfoldable pub insert_by_seq : EventRow → List EventRow → List EventRow
insert_by_seq e [] = e ∷ []
insert_by_seq e (x ∷ xs) = if leb e.seq x.seq then e ∷ x ∷ xs else x ∷ insert_by_seq e xs

unfoldable pub order_by_seq : List EventRow → List EventRow
unfolding insert_by_seq
order_by_seq [] = []
order_by_seq (e ∷ es) = insert_by_seq e (order_by_seq es)

-- the events of one chat
abbrev pub is_of : Text → EventRow → Bool
is_of c e = e.chat_id == c

unfoldable pub events_of : Text → List EventRow → List EventRow
unfolding select
events_of c = select (is_of c)

abbrev pub is_after : ℕ → EventRow → Bool
is_after n e = ltb n e.seq

abbrev pub is_keyed : Text → ℕ → EventRow → Bool
is_keyed c n e = if e.chat_id == c then e.seq == n else false

-- INSERT INTO chat_events. `none` is the IntegrityError of the primary key.
unfoldable pub insert_event : EventRow → List EventRow → Option (List EventRow)
unfolding select
insert_event e es = elim (select (is_keyed e.chat_id e.seq) es) [
  | [] ↦ some (es ++ e ∷ [])
  | x ∷ xs ↦ none
]

-- UPDATE chats SET … WHERE chat_id = ?
unfoldable pub update_chat : Text → (ChatRecord → ChatRecord) → Db → Db
update_chat c f db = elim (Dict.get c db.chats) [
  | none ↦ db
  | some row ↦ record db { chats = Dict.put c (f row) db.chats }
]

-- the rows of a table with the key (chat_id, …) that are left when some chats are gone
unfoldable pub without_chats {ℓ} :
    {V : Type ℓ} → List Text → Dict (Text × Text) V → Dict (Text × Text) V
without_chats cs [] = []
without_chats cs (((c, k), v) ∷ d) =
    let rest = without_chats cs d in if Dict.contains c cs then rest else ((c, k), v) ∷ rest

-- DELETE FROM chats, for the rows with these keys; ON DELETE CASCADE takes what refers to them
unfoldable pub delete_chats : List Text → Db → Db
unfolding delete without_chats
delete_chats cs db = record db {
  chats = Dict.remove_all cs db.chats;
  chat_events = delete (λ e. Dict.contains e.chat_id cs) db.chat_events;
  client_cursors = without_chats cs db.client_cursors;
  inbound_dedup = without_chats cs db.inbound_dedup;
}
