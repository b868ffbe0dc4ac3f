-- ===== src/ChatStore/System.antt =====
-- The writing operations of src/hermes_vylen_gateway/chat_store.py in any order, as steps of the store.
use hermes_vylen_gateway.Prelude.{ℕ, ◌≡◌, refl, sym, subst, true, false, [], Option, pair_eq}
use hermes_vylen_gateway.Prelude.Dict
use hermes_vylen_gateway.Prelude.Text.{Text, text_eq}
use hermes_vylen_gateway.ChatStore.Tables.{Db, events_of, select}
use hermes_vylen_gateway.ChatStore.Texts.{Json}
use hermes_vylen_gateway.ChatStore.Store.{Calendar, ChatStateConfig, ChatStateStore}
use hermes_vylen_gateway.ChatStore.Append.{append_event, rename_chat, mark_deleted}
use hermes_vylen_gateway.ChatStore.Valid.{IsValid}
use hermes_vylen_gateway.ChatStore.Sweep.{sweep}
use hermes_vylen_gateway.ChatStore.Sweep.Whole.{sweep-IsValid}
use hermes_vylen_gateway.ChatStore.Writers.{
  drop-IsValid, acknowledge-IsValid, dedup_forget-IsValid, append_event-IsValid,
  rename_chat-IsValid, mark_deleted-IsValid, dedup_record-IsValid,
}
use hermes_vylen_gateway.ChatStore.Clients.{drop, acknowledge, dedup_record, dedup_forget}

abbrev pub empty_db : Db
empty_db = record {
  chats = [];
  chat_events = [];
  client_cursors = [];
  inbound_dedup = [];
  maintenance_log = [];
}

-- A store that has just been opened on a new file.
abbrev pub new_store : ChatStateConfig → ChatStateStore
new_store config = record {
  config = config;
  db = empty_db;
  logs = [];
  unavailable = false;
  connected = true;
  appends_since_sweep = 0;
  bytes_since_sweep = 0;
  sweep_requested = false;
}

new_store-IsValid : (config : ChatStateConfig) → IsValid (new_store config).db
unfolding events_of select Dict.get
new_store-IsValid config c = refl

module _ {V : Type 0} (json : Json V) (cal : Calendar) where
  module _ (live_bytes : Db → ℕ) where
    -- One call, whatever it answers. The last case is a call that leaves the tables, like `get` and
    -- `close`, or a tailer that comes or goes.
    pub data Step (s u : ChatStateStore) : Type 0 where
      appends :
          (chat_id kind : Text) (payload : V) (ts : ℕ) (title : Text) (client user : Option Text)
          → u ≡ (append_event json cal s chat_id kind payload ts title client user).0
          → Step s u
      renames :
          (chat_id title : Text) (ts : ℕ)
          → u ≡ (rename_chat json cal s chat_id title ts).0
          → Step s u
      deletes : (chat_id : Text) (ts : ℕ) → u ≡ (mark_deleted json cal s chat_id ts).0 → Step s u
      drops : (key : Text) → u ≡ (drop s key).0 → Step s u
      acknowledges :
          (key client : Text) (seq : ℕ) (now : Text)
          → u ≡ (acknowledge s key client seq now).0
          → Step s u
      records :
          (chat_id message turn_id message_id : Text) (payload : V) (ts later : ℕ)
          → u ≡ (dedup_record json cal s chat_id message turn_id message_id payload ts later).0
          → Step s u
      forgets : (chat_id message : Text) → u ≡ (dedup_forget s chat_id message).0 → Step s u
      sweeps :
          (ts : ℕ) (detail : ℕ → ℕ → Text)
          → u ≡ (sweep json cal live_bytes s ts detail).0
          → Step s u
      leaves : u.db ≡ s.db → Step s u

    pub data Reach (s : ChatStateStore) : ChatStateStore → Type 0 where
      here : Reach s s
      next : {t u : ChatStateStore} → Reach s t → Step t u → Reach s u

    Step-IsValid : {s u : ChatStateStore} → Step s u → IsValid s.db → IsValid u.db
    Step-IsValid {s} (appends c k p ts t cl us e) v =
        rw e (append_event-IsValid json cal s c k p ts t cl us v)
    Step-IsValid {s} (renames c t ts e) v = rw e (rename_chat-IsValid json cal s c t ts v)
    Step-IsValid {s} (deletes c ts e) v = rw e (mark_deleted-IsValid json cal s c ts v)
    Step-IsValid {s} (drops c e) v = rw e (drop-IsValid s c v)
    Step-IsValid {s} (acknowledges c d n now e) v = rw e (acknowledge-IsValid s c d n now v)
    Step-IsValid {s} (records c m t i p ts l e) v =
        rw e (dedup_record-IsValid json cal s c m t i p ts l v)
    Step-IsValid {s} (forgets c m e) v = rw e (dedup_forget-IsValid s c m v)
    Step-IsValid {s} (sweeps ts d e) v = rw e (sweep-IsValid json cal live_bytes s ts d v)
    Step-IsValid (leaves e) v = subst IsValid (sym e) v

    -- The tables are valid after any calls on a new store.
    pub Reach-IsValid :
        {config : ChatStateConfig} {s : ChatStateStore} → Reach (new_store config) s → IsValid s.db
    Reach-IsValid {config} here = new_store-IsValid config
    Reach-IsValid (next r st) = Step-IsValid st (Reach-IsValid r)
