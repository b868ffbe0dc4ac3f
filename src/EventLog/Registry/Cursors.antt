-- ===== src/EventLog/Registry/Cursors.antt =====
-- The acknowledged cursors of `EventLogRegistry` (src/hermes_vylen_gateway/event_log.py).
use hermes_vylen_gateway.Prelude.{
  ℕ, max, ◌≡◌, String, none, arith, ◌==◌, ◌&&◌, string_eq, pair_eq, [], ◌∷◌, if◌then◌else◌,
}
use hermes_vylen_gateway.Prelude.Dict
use hermes_vylen_gateway.Prelude.Dict.{Dict}
use hermes_vylen_gateway.EventLog.Registry.{
  EventLogRegistry, drop_cursors, drop, cursor, acknowledge,
}

get-drop_cursors :
    (key k c : String) (d : Dict (String × String) ℕ)
    → Dict.get (k, c) (drop_cursors key d) ≡ (if k == key then none else Dict.get (k, c) d)
unfolding drop_cursors Dict.get
get-drop_cursors key k c [] = ground arith
get-drop_cursors key k c (((i, b), seq) ∷ d) = ground (
  arith,
  get-drop_cursors key k c d,
  string_eq.beq_iff k key,
  string_eq.beq_iff i key,
  string_eq.beq_iff i k,
)

module _ {V : Type 0} (r : EventLogRegistry V) where
  -- An acknowledgement moves one client's cursor on one log, and never backwards.
  pub cursor-acknowledge :
      (key client_id : String) (seq : ℕ) (k c : String)
      → cursor (acknowledge r key client_id seq) k c
        ≡ (if key == k && client_id == c then max seq (cursor r key client_id) else cursor r k c)
  unfolding cursor acknowledge
  cursor-acknowledge key client_id seq k c =
      ground
        (arith, Dict.get-put (key, client_id) (k, c) (max seq (cursor r key client_id)) r.cursors)

  -- Dropping a log forgets its cursors, of every client, and no other cursor.
  pub cursor-drop :
      (key k c : String) → cursor (drop r key) k c ≡ (if k == key then 0 else cursor r k c)
  unfolding cursor drop
  cursor-drop key k c = ground (arith, get-drop_cursors key k c r.cursors)
