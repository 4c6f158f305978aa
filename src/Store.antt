-- ===== src/Store.antt =====
-- internal/store/mapping.go and message.go over the tables of migrations/*.sql. Each SQL statement
-- is one question to the driver; if that does not fail, the statement has its SQL meaning on the
-- tables; the connection enforces foreign keys or not, as it was opened. The timestamps, which nothing
-- reads, and channel_cursor, which nothing writes, are left out.
pub mod View
pub mod Laws
pub mod Quiet
pub mod Interface
pub mod Refinement
pub mod References
pub mod Migrations
use luars_stoatcord.Prelude.{
  ℕ, ◌+◌, String, Bool, true, false, ◌&&◌, ◌||◌, not, Option, none, some, List, [], ◌∷◌, ◌++◌, ◌==◌,
  if◌then◌else◌, any,
}
use luars_stoatcord.Prelude.Maps.{Map, lookup, insert}
use luars_stoatcord.Canonical.Result.{Result, ok, err, Error, failed}
use luars_stoatcord.Canonical.Json.{Json, raw, decode_channel_id}
use luars_stoatcord.World.{
  EntityType, server, category, channel, role, emoji, message, unknown, entity_eq, MappingStatus,
  unset, pending, active, Row, MessageRow, Store, Env, World,
}
use luars_stoatcord.World.Exec.{Exec, pure, raise, lift, gets, ◌>>=◌, ◌>>◌}

-- engine.Mapping and store.Mapping, which the adapter of cmd/stoatcord copies field by field
pub record Mapping : Type 0 where
  pub found : Bool
  pub stoat_id : String
  pub status : MappingStatus
  pub canonical_state : Json

abbrev pub no_mapping : Mapping
no_mapping = record { found = false; stoat_id = ""; status = unset; canonical_state = raw "" }

-- NULL scans as an invalid sql.NullString, whose String is empty.
abbrev pub null_string : Option String → String
null_string none = ""
null_string (some s) = s

abbrev pub table_for : EntityType → Result (Unit {0})
table_for server = ok tt
table_for category = ok tt
table_for channel = ok tt
table_for role = ok tt
table_for emoji = ok tt
table_for message = err (failed "store: unknown entity type")
table_for (unknown _) = err (failed "store: unknown entity type")

unfoldable pub row_mapping : Option Row → Mapping
row_mapping none = no_mapping
row_mapping (some r) = record {
  found = true;
  stoat_id = null_string r.stoat_id;
  status = r.status;
  canonical_state = r.canonical_state;
}

-- the status that getMessage derives
abbrev pub message_status : Option String → MappingStatus
message_status none = pending
message_status (some s) = if s == "" then pending else active

unfoldable pub message_mapping : Option MessageRow → Mapping
message_mapping none = no_mapping
message_mapping (some r) = record {
  found = true;
  stoat_id = null_string r.stoat_msg_id;
  status = message_status r.stoat_msg_id;
  canonical_state = r.canonical_state;
}

abbrev pub put_row :
    (EntityType → String → Option Row)
    → EntityType
    → String
    → Option Row
    → EntityType
    → String
    → Option Row
put_row rows t k r t' k' = if entity_eq t t' && k == k' then r else rows t' k'

-- INSERT ... ON CONFLICT (discord_id) DO UPDATE
abbrev pub upsert : Json → Option Row → Row
upsert state none = record { stoat_id = none; status = pending; canonical_state = state }
upsert state (some r) = record r { status = pending; canonical_state = state }

-- UPDATE ... SET stoat_id, status
abbrev pub set_active : String → Option Row → Option Row
set_active stoat_id none = none
set_active stoat_id (some r) = some (record r { stoat_id = some stoat_id; status = active })

abbrev pub set_message_id : String → String → Option MessageRow → Map MessageRow → Map MessageRow
set_message_id k stoat_id none m = m
set_message_id k stoat_id (some r) m = insert k (record r { stoat_msg_id = some stoat_id }) m

-- DELETE ... WHERE key = k
unfoldable pub without : String → Map MessageRow → Map MessageRow
without k [] = []
without k ((j, r) ∷ m) = let rest = without k m in if j == k then rest else (j, r) ∷ rest

abbrev pub is_some {ℓ} : {A : Type ℓ} → Option A → Bool
is_some none = false
is_some (some _) = true

abbrev pub in_channel : String → String × MessageRow → Bool
in_channel c (_, r) = r.channel_id == c

-- The REFERENCES of message_map: a channel row that a message names cannot be deleted.
unfoldable pub is_referenced : EntityType → String → Store → Bool
is_referenced channel k s = is_some (s.rows channel k) && any (in_channel k) s.messages
is_referenced _ k s = false

abbrev pub foreign_key : Error
foreign_key = failed "FOREIGN KEY constraint failed"

module _ (env : Env) where
  unfoldable pub statement : Exec World (Unit {0})
  statement w =
      let w' = record w { asked = w.asked + 1 } in
      if env.db_fails w.asked then (err (failed "store: driver"), w') else (ok tt, w')

  abbrev modify : (Store → Store) → Exec World (Unit {0})
  modify f w = (ok tt, record w { store = f w.store })

  unfoldable pub get_message : String → Exec World Mapping
  unfolding statement
  get_message k = do statement; gets (λ w. message_mapping (lookup k w.store.messages))

  -- Store.Get
  unfoldable pub get : EntityType → String → Exec World Mapping
  unfolding get_message statement
  get message k = get_message k
  get t k = do lift (table_for t); statement; gets (λ w. row_mapping (w.store.rows t k))

  pub insert_message : String → String → Json → Option MessageRow → Exec World (Unit {0})
  insert_message k c state none w =
      if not env.foreign_keys || is_some (w.store.rows channel c)
      then modify (λ s. record s { messages = insert k fresh s.messages }) w
      else (err foreign_key, w)
    where
      fresh : MessageRow
      fresh = record { stoat_msg_id = none; channel_id = c; canonical_state = state }
  insert_message k c state (some r) w =
      modify
        (λ s. record s { messages = insert k (record r { canonical_state = state }) s.messages }) w

  unfoldable pub write_pending_message : String → Json → Exec World (Unit {0})
  unfolding insert_message statement
  write_pending_message k state = do
    c ← lift (decode_channel_id state)
    statement
    old ← gets (λ w. lookup k w.store.messages)
    insert_message k c state old

  -- Store.WritePending
  unfoldable pub write_pending : EntityType → String → Json → Exec World (Unit {0})
  unfolding write_pending_message statement
  write_pending message k state = write_pending_message k state
  write_pending t k state = do
    lift (table_for t)
    statement
    modify (λ s. record s { rows = put_row s.rows t k (some (upsert state (s.rows t k))) })

  unfoldable pub confirm_message : String → String → Exec World (Unit {0})
  unfolding statement
  confirm_message k stoat_id = do
    statement
    modify (λ s. record s { messages = set_message_id k stoat_id (lookup k s.messages) s.messages })

  -- Store.Confirm
  unfoldable pub confirm : EntityType → String → String → Exec World (Unit {0})
  unfolding confirm_message statement
  confirm message k stoat_id = confirm_message k stoat_id
  confirm t k stoat_id = do
    lift (table_for t)
    statement
    modify (λ s. record s { rows = put_row s.rows t k (set_active stoat_id (s.rows t k)) })

  unfoldable pub remove_message : String → Exec World (Unit {0})
  unfolding statement
  remove_message k = do statement; modify (λ s. record s { messages = without k s.messages })

  pub delete_row : EntityType → String → Exec World (Unit {0})
  delete_row t k w =
      if is_referenced t k w.store && env.foreign_keys
      then (err foreign_key, w)
      else modify (λ s. record s { rows = put_row s.rows t k none }) w

  -- Store.Remove
  unfoldable pub remove : EntityType → String → Exec World (Unit {0})
  unfolding remove_message delete_row statement
  remove message k = remove_message k
  remove t k = do lift (table_for t); statement; delete_row t k

  -- Store.Enqueue
  unfoldable pub enqueue : String → Json → Exec World (Unit {0})
  unfolding statement
  enqueue op_type payload = do
    statement
    modify (λ s. record s { op_queue = s.op_queue ++ (op_type, payload) ∷ [] })
