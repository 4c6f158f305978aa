-- ===== src/Reconcile/Bind.antt =====
-- internal/reconcile/reconcile.go. Logging is left out. The maps of ids that the code builds are
-- lists that it only asks for membership.
pub mod Matching
pub mod Writes
pub mod Quiet
pub mod Reaping
pub mod Elevation
use luars_stoatcord.Prelude.{
  ℕ, zero, suc, String, ◌≡◌, Bool, true, false, ◌&&◌, ◌||◌, not, Option, none, some, List, [], ◌∷◌,
  ◌++◌, map, ◌==◌, contains, select, if◌then◌else◌,
}
use luars_stoatcord.Canonical.Result.{Result, ok, err, failed}
use luars_stoatcord.Canonical.Json.{Json, obj, end}
use luars_stoatcord.Canonical.Types.{Category, Channel, Role, ChannelType, text, voice, other_type}
use luars_stoatcord.World.{
  EntityType, server, category, channel, role, emoji, message, unknown, MappingStatus, unset,
  pending, active, deleting, Env, World, ServerInfo, CategoryInfo, RoleInfo, ChannelInfo,
}
use luars_stoatcord.World.Exec.{Exec, pure, raise, ◌>>=◌, ◌>>◌}
use luars_stoatcord.Store.{Mapping, get, write_pending, confirm, remove}
use luars_stoatcord.Stoat.Client.{Client, fetch_server, fetch_channel, elevation_role_id}
use luars_stoatcord.Stoat.Channel
use luars_stoatcord.Stoat.Role

-- "{}"
abbrev pub empty_canonical_state : Json
empty_canonical_state = obj end

-- Params: the Discord side, and the client that is both reader and writer.
pub record Params : Type 0 where
  pub server_id : String
  pub guild_id : String
  pub categories : List Category
  pub channels : List Channel
  pub roles : List Role
  pub client : Client
  pub dry_run : Bool

pub record Identity : Type 0 where
  pub id : String
  pub name : String
  pub kind : String

-- string(ChannelType)
abbrev pub channel_type_text : ChannelType → String
channel_type_text text = "text"
channel_type_text voice = "voice"
channel_type_text (other_type s) = s

abbrev pub status_active : MappingStatus → Bool
status_active active = true
status_active _ = false

-- m.Found && m.Status == StatusActive
abbrev pub is_active : Mapping → Bool
is_active m = m.found && status_active m.status

abbrev pub same_identity : Identity → Identity → Bool
same_identity d s = s.name == d.name && s.kind == d.kind

-- The search of one Discord entity among the available ones: the match found so far is carried,
-- and a second one ends the loop.
pub data Match : Type 0 where
  no_match ambiguous : Match
  matched : Identity → Match

unfoldable pub find_match : Identity → Match → List Identity → Match
find_match d found [] = found
find_match d no_match (s ∷ rest) =
    find_match d (if same_identity d s then matched s else no_match) rest
find_match d (matched m) (s ∷ rest) =
    let next = find_match d (matched m) rest in if same_identity d s then ambiguous else next
find_match d ambiguous (s ∷ rest) = ambiguous

-- available without the matched entry: the first one that matches
unfoldable pub take_out : Identity → List Identity → List Identity
take_out d [] = []
take_out d (s ∷ rest) = let kept = take_out d rest in if same_identity d s then rest else s ∷ kept

abbrev pub cons_first : String → List String × List Identity → List String × List Identity
cons_first s (cs, ds) = (s ∷ cs, ds)

abbrev pub cons_second : Identity → List String × List Identity → List String × List Identity
cons_second d (cs, ds) = (cs, d ∷ ds)

abbrev pub is_category : EntityType → Bool
is_category category = true
is_category _ = false

abbrev pub channel_identity : ChannelInfo → Identity
channel_identity c = record { id = c.id; name = c.name; kind = channel_type_text c.kind }

abbrev pub fetched : Result ChannelInfo → List Identity → List Identity
fetched (ok c) rest = channel_identity c ∷ rest
fetched (err _) rest = rest

abbrev pub category_identity : Category → Identity
category_identity c = record { id = c.id; name = c.name; kind = "" }

abbrev pub role_identity : Role → Identity
role_identity r = record { id = r.id; name = r.name; kind = "" }

abbrev pub discord_channel_identity : Channel → Identity
discord_channel_identity c = record { id = c.id; name = c.name; kind = channel_type_text c.kind }

abbrev pub stoat_category_identity : CategoryInfo → Identity
stoat_category_identity c = record { id = c.id; name = c.title; kind = "" }

abbrev pub stoat_role_identity : RoleInfo → Identity
stoat_role_identity r = record { id = r.id; name = r.name; kind = "" }

module _ (env : Env) where
  -- A dead mapping is cleared.
  abbrev pub clear_if : Bool → EntityType → String → Exec World (Unit {0})
  clear_if true t k = remove env t k
  clear_if false t k = pure tt

  -- The first loop: the claimed Stoat ids, and the Discord entities left to bind.
  unfoldable pub sort_items :
      EntityType → List String → List Identity → Exec World (List String × List Identity)
  sort_items t exist [] = pure ([], [])
  sort_items t exist (d ∷ rest) = do
    m ← get env t d.id
    if is_active m && contains m.stoat_id exist
        then (do r ← sort_items t exist rest; pure (cons_first m.stoat_id r))
        else (do clear_if (is_active m) t d.id; r ← sort_items t exist rest; pure (cons_second d r))

  abbrev pub bind_one : EntityType → Identity → List Identity → Match → Exec World (List Identity)
  bind_one t d available no_match = pure available
  bind_one t d available ambiguous = pure available
  bind_one t d available (matched s) = do
    write_pending env t d.id empty_canonical_state
    confirm env t d.id s.id
    pure (take_out d available)

  -- The second loop: what is still available at its end.
  unfoldable pub bind_items :
      EntityType → List Identity → List Identity → Exec World (List Identity)
  bind_items t available [] = pure available
  bind_items t available (d ∷ rest) = do
    left ← bind_one t d available (find_match d no_match available)
    bind_items t left rest

  -- A failed delete is only logged.
  abbrev pub try : {A : Type 0} → Exec World A → Exec World (Unit {0})
  try m w = (ok tt, (m w).1)

  abbrev pub reap_one : EntityType → Params → String → Exec World (Unit {0})
  reap_one channel p id = try (Channel.delete env p.client id)
  reap_one role p id = try (Role.delete env p.client p.server_id id)
  reap_one _ p id = pure tt

  -- The third loop, over the foreign entities.
  unfoldable pub reap_items : EntityType → Params → String → List Identity → Exec World (Unit {0})
  reap_items t p protected [] = pure tt
  reap_items t p protected (s ∷ rest) = do
    if s.id == protected || (p.dry_run || is_category t) then pure tt else reap_one t p s.id
    reap_items t p protected rest

  unfoldable pub bind_entities :
      EntityType
      → Params
      → List Identity
      → List Identity
      → List String
      → String
      → Exec World (Unit {0})
  bind_entities t p discord_items stoat_items exist protected = do
    sorted ← sort_items t exist discord_items
    foreign ← bind_items t (select (λ s. not (contains s.id sorted.0)) stoat_items) sorted.1
    reap_items t p protected foreign

  unfoldable pub verify_elevation_role_unmapped : String → List Identity → Exec World (Unit {0})
  verify_elevation_role_unmapped protected [] = pure tt
  verify_elevation_role_unmapped protected (d ∷ rest) = do
    m ← get env role d.id
    if is_active m && m.stoat_id == protected
        then raise (failed "reconcile: bot's elevation role is mapped")
        else verify_elevation_role_unmapped protected rest

  -- The channels that the bot can fetch; one that fails is left out.
  unfoldable pub fetch_channels : List String → Exec World (List Identity)
  fetch_channels [] w = pure [] w
  fetch_channels (id ∷ ids) w =
      let (r, w') = fetch_channel env id w in
      ((fetch_channels ids) >>= λ rest. pure (fetched r rest)) w'

  abbrev pub check_elevation : String → List Identity → Exec World (Unit {0})
  check_elevation protected roles =
      if protected == "" then pure tt else verify_elevation_role_unmapped protected roles

  unfoldable pub bind : Params → Exec World (Unit {0})
  bind p = do
    info ← fetch_server env p.server_id
    bind_entities category p (map category_identity p.categories)
        (map stoat_category_identity info.categories)
        (map (λ (c : CategoryInfo). c.id) info.categories) ""
    stoat_channels ← fetch_channels info.channel_ids
    bind_entities channel p (map discord_channel_identity p.channels) stoat_channels
        info.channel_ids ""
    let discord_roles = map role_identity p.roles
    let protected = elevation_role_id p.client
    check_elevation protected discord_roles
    bind_entities role p discord_roles (map stoat_role_identity info.roles)
        (map (λ (r : RoleInfo). r.id) info.roles) protected
