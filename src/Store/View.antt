-- ===== src/Store/View.antt =====
-- The mapping tables as one function from a key to a Mapping: what Get of internal/store/mapping.go
-- reads, and what a write of a row does to it.
use luars_stoatcord.Prelude.{
  ◌||◌, not, String, ◌≡◌, refl, Bool, true, false, ◌&&◌, Option, none, some, [], ◌∷◌, ◌==◌, arith,
  eq_iff, Bool-cases, inl, inr, if◌then◌else◌,
}
use luars_stoatcord.Prelude.Maps.{Map, lookup, insert, lookup-insert}
use luars_stoatcord.Canonical.Result.{Result, ok, err}
use luars_stoatcord.Canonical.Json.{Json}
use luars_stoatcord.World.{
  EntityType, server, channel, message, entity_eq, MappingStatus, pending, active, Row, MessageRow,
  Store, Env, World,
}
use luars_stoatcord.Store.{
  Mapping, row_mapping, message_mapping, without, get, insert_message, message_status, null_string,
  put_row, upsert, is_some,
}

-- What Get reads when the driver does not fail.
unfoldable pub view : EntityType → String → Store → Mapping
view message k s = message_mapping (lookup k s.messages)
view t k s = row_mapping (s.rows t k)

abbrev pub same_key : EntityType → String → EntityType → String → Bool
same_key t k t' k' = entity_eq t t' && k == k'

-- message_map has no status column: a row reads pending until it has a Stoat id.
abbrev pub pending_status : EntityType → String → MappingStatus
pending_status message stoat_id = if stoat_id == "" then pending else active
pending_status _ stoat_id = pending

abbrev pub active_status : EntityType → String → MappingStatus
active_status message stoat_id = if stoat_id == "" then pending else active
active_status _ stoat_id = active

-- The write of an intent: the identity on Stoat survives, the state is the new one.
abbrev pub mark_pending : EntityType → Json → Mapping → Mapping
mark_pending t state m = record {
  found = true;
  stoat_id = m.stoat_id;
  status = pending_status t m.stoat_id;
  canonical_state = state;
}

abbrev pub mark_active : EntityType → String → Mapping → Mapping
mark_active t stoat_id m =
    if m.found then record m { stoat_id = stoat_id; status = active_status t stoat_id } else m

-- A table with the mapping of one key replaced by `m`.
abbrev pub replaced : EntityType → String → Mapping → Store → EntityType → String → Mapping
replaced t k m s t' k' = if same_key t k t' k' then m else view t' k' s

-- An outcome that failed left the tables alone; one that succeeded has the mappings `after`.
abbrev pub Outcome : Result (Unit {0}) × World → Store → (EntityType → String → Mapping) → Type 0
Outcome (ok _, w) before after = (t : EntityType) (k : String) → view t k w.store ≡ after t k
Outcome (err _, w) before after = w.store ≡ before

pub lookup-without :
    (k j : String) (m : Map MessageRow)
    → lookup j (without k m) ≡ (if k == j then none else lookup j m)
unfolding lookup without
lookup-without k j [] = ground arith
lookup-without k j ((i, r) ∷ m) =
    ground (arith, eq_iff k j, eq_iff i k, eq_iff i j, lookup-without k j m)

module _ (env : Env) (w : World) where
  -- Get reads the view or fails, and changes no table.
  pub get-view :
      (t : EntityType) (k : String)
      → ((get env t k w).1.store ≡ w.store)
        × ((m : Mapping) → (get env t k w).0 ≡ ok m → m ≡ view t k w.store)
  unfolding get view
  get-view server k = (ground arith, λ m h. ground arith)
  get-view t k = (ground arith, λ m h. ground arith)

abbrev pub is_message : EntityType → Bool
is_message message = true
is_message _ = false

pub view-put_row :
    (t : EntityType) (k : String) (r : Option Row) (s : Store) (t' : EntityType) (k' : String)
    → is_message t ≡ false
    → view t' k' (record s { rows = put_row s.rows t k r })
      ≡ (if same_key t k t' k' then row_mapping r else view t' k' s)
unfolding view
view-put_row server k r s server k' h = ground arith
view-put_row t k r s t' k' h = ground arith

pub view-insert_message :
    (k : String) (r : MessageRow) (s : Store) (t' : EntityType) (k' : String)
    → view t' k' (record s { messages = insert k r s.messages })
      ≡ (if same_key message k t' k' then message_mapping (some r) else view t' k' s)
unfolding view
view-insert_message k r s message k' = ground (arith, lookup-insert k k' r s.messages)
view-insert_message k r s t' k' = refl

pub row_mapping-upsert :
    (t : EntityType) (state : Json) (r : Option Row)
    → is_message t ≡ false
    → row_mapping (some (upsert state r)) ≡ mark_pending t state (row_mapping r)
unfolding row_mapping
row_mapping-upsert t state none h = ground arith
row_mapping-upsert t state (some r) h = ground arith

pub put_row-replaced :
    (t : EntityType) (k : String) (r : Option Row) (s : Store) (m : Mapping)
    → is_message t ≡ false
    → row_mapping r ≡ m
    → (t' : EntityType) (k' : String)
    → view t' k' (record s { rows = put_row s.rows t k r }) ≡ replaced t k m s t' k'
put_row-replaced t k r s m h e t' k' = rw (← e) (view-put_row t k r s t' k' h)

pub insert_message-replaced :
    (k : String) (r : MessageRow) (s : Store) (m : Mapping)
    → message_mapping (some r) ≡ m
    → (t' : EntityType) (k' : String)
    → view t' k' (record s { messages = insert k r s.messages }) ≡ replaced message k m s t' k'
insert_message-replaced k r s m e t' k' = rw (← e) (view-insert_message k r s t' k')

pub message_status-null_string :
    (o : Option String) → message_status o ≡ (if null_string o == "" then pending else active)
message_status-null_string none = refl
message_status-null_string (some s) = refl

pub insert_message-Outcome :
    (env : Env) (k c : String) (state : Json) (o : Option MessageRow) (w : World)
    → Outcome
        (insert_message env k c state o w)
        w.store
        (replaced message k (mark_pending message state (message_mapping o)) w.store)
unfolding insert_message message_mapping
insert_message-Outcome env k c state none w =
    elim (Bool-cases (not env.foreign_keys || is_some (w.store.rows channel c))) [
      | inl e ↦ rw e (insert_message-replaced k _ w.store _ refl)
      | inr e ↦ rw e refl
    ]
insert_message-Outcome env k c state (some r) w =
    insert_message-replaced k _ w.store _
      (ground (arith, message_status-null_string r.stoat_msg_id))
