-- ===== src/Reconcile/Live.antt =====
-- internal/reconcile/live.go. Logging is left out.
pub mod Repair
pub mod Quiet
pub mod Clamped
use luars_stoatcord.Prelude.{
  ℕ, zero, suc, ◌+◌, String, Bool, true, false, ◌&&◌, Option, none, some, List, [], ◌∷◌, map, ◌==◌,
  if◌then◌else◌,
}
use luars_stoatcord.Prelude.Int.{ℤ, pos}
use luars_stoatcord.Prelude.Maps.{Map, lookup, insert}
use luars_stoatcord.Canonical.Result.{Result, ok, err}
use luars_stoatcord.Canonical.Json.{Json}
use luars_stoatcord.Canonical.Types.{
  Category, Channel, ChannelType, Role, StoatRole, StoatOverwrite,
}
use luars_stoatcord.Canonical.Emit.{role_to_stoat, channel_to_stoat}
use luars_stoatcord.Canonical.State.{role_json, channel_json, category_json}
use luars_stoatcord.World.{
  EntityType, role, channel, category, Env, World, RoleInfo, CategoryInfo, ChannelInfo, ServerInfo,
}
use luars_stoatcord.World.Exec.{Exec, pure, ◌>>=◌, ◌>>◌}
use luars_stoatcord.Store.{Mapping, get, write_pending, confirm}
use luars_stoatcord.Stoat.Client.{fetch_server, fetch_channel}
use luars_stoatcord.Discord.Compare.{role_equal, overwrites_equal, category_equal}
use luars_stoatcord.Reconcile.Bind.{Params, is_active, empty_canonical_state, channel_type_text}

abbrev pub role_ids : List Role → List String
role_ids rs = map (λ (r : Role). r.id) rs

abbrev pub channel_ids : List Channel → List String
channel_ids cs = map (λ (c : Channel). c.id) cs

abbrev pub reversed : Mapping → String → Map String → Map String
reversed m id reverse = if is_active m then insert m.stoat_id id reverse else reverse

unfoldable pub find_role : List RoleInfo → String → Option RoleInfo
find_role [] id = none
find_role (r ∷ rs) id = let rest = find_role rs id in if r.id == id then some r else rest

-- The category of an id, with its index among all of them.
unfoldable pub find_category : List CategoryInfo → ℕ → String → Option (CategoryInfo × ℕ)
find_category [] i id = none
find_category (c ∷ cs) i id =
    let rest = find_category cs (suc i) id in if c.id == id then some (c, i) else rest

abbrev pub live_role : RoleInfo → StoatRole
live_role r = record {
  name = r.name;
  colour = r.colour;
  hoist = r.hoist;
  rank = r.rank;
  permissions = r.permissions;
}

abbrev pub with_known : {A B : Type 0} → Option A → (A → B) → B → B
with_known none f b = b
with_known (some a) f b = f a

-- The overwrites of a live channel under the Discord ids of their roles.
unfoldable pub live_overwrites :
    Map String → Map StoatOverwrite → Map StoatOverwrite → Map StoatOverwrite
live_overwrites roles [] acc = acc
live_overwrites roles ((id, ow) ∷ rest) acc =
    live_overwrites roles rest
      (with_known (lookup id roles) (λ discord_id. insert discord_id ow acc) acc)

abbrev pub with_default : Option StoatOverwrite → String → Map StoatOverwrite → Map StoatOverwrite
with_default none guild_id m = m
with_default (some ow) guild_id m = insert guild_id ow m

unfoldable pub live_channel_ids : Map String → List String → List String
live_channel_ids channels [] = []
live_channel_ids channels (id ∷ ids) =
    let rest = live_channel_ids channels ids in
    with_known (lookup id channels) (λ discord_id. discord_id ∷ rest) rest

-- comparableChannel under reflect.DeepEqual
unfoldable pub channel_matches : Map String → String → ChannelInfo → Channel → Bool
channel_matches roles guild_id live ch =
    live.name == ch.name
    && (channel_type_text live.kind == channel_type_text ch.kind
        && overwrites_equal
            (with_default live.default_permissions guild_id
              (live_overwrites roles live.role_permissions []))
            (channel_to_stoat ch).overwrites)

unfoldable pub category_matches : Map String → CategoryInfo × ℕ → Category → Bool
category_matches channels (live, i) c =
    category_equal
      (record {
        id = c.id;
        name = live.title;
        channel_ids = live_channel_ids channels live.channel_ids;
        position = pos i;
      })
      c

module _ (env : Env) where
  unfoldable pub reverse_mapping : EntityType → List String → Map String → Exec World (Map String)
  reverse_mapping t [] reverse = pure reverse
  reverse_mapping t (id ∷ ids) reverse = do
    m ← get env t id
    reverse_mapping t ids (reversed m id reverse)

  unfoldable pub repair_mapping : EntityType → String → String → Bool → Json → Exec World (Unit {0})
  repair_mapping t k stoat_id matches desired = do
    write_pending env t k (if matches then desired else empty_canonical_state)
    confirm env t k stoat_id

  unfoldable pub reconcile_role_live : List RoleInfo → Role → Exec World (Unit {0})
  reconcile_role_live live r = do
    m ← get env role r.id
    if is_active m
        then with_known (find_role live m.stoat_id)
            (λ l.
              repair_mapping role r.id m.stoat_id (role_equal (live_role l) (role_to_stoat r))
                (role_json r))
            (pure tt)
        else pure tt

  -- A channel that cannot be fetched is skipped.
  abbrev repair_fetched :
      Params → Map String → Channel → String → Result ChannelInfo → Exec World (Unit {0})
  repair_fetched p roles ch stoat_id (err _) = pure tt
  repair_fetched p roles ch stoat_id (ok live) =
      repair_mapping channel ch.id stoat_id (channel_matches roles p.guild_id live ch)
        (channel_json ch)

  abbrev fetch_and_repair : Params → Map String → Channel → String → Exec World (Unit {0})
  fetch_and_repair p roles ch stoat_id w =
      let (live, w') = fetch_channel env stoat_id w in repair_fetched p roles ch stoat_id live w'

  unfoldable pub reconcile_channel_live : Params → Map String → Channel → Exec World (Unit {0})
  reconcile_channel_live p roles ch = do
    m ← get env channel ch.id
    if is_active m then fetch_and_repair p roles ch m.stoat_id else pure tt

  unfoldable pub reconcile_category_live :
      List CategoryInfo → Map String → Category → Exec World (Unit {0})
  reconcile_category_live live channels c = do
    m ← get env category c.id
    if is_active m
        then with_known (find_category live 0 m.stoat_id)
            (λ l.
              repair_mapping category c.id m.stoat_id (category_matches channels l c)
                (category_json c))
            (pure tt)
        else pure tt

  unfoldable pub each : {A : Type 0} → (A → Exec World (Unit {0})) → List A → Exec World (Unit {0})
  each f [] = pure tt
  each f (x ∷ xs) = do f x; each f xs

  unfoldable pub reconcile_live : Params → Exec World (Unit {0})
  reconcile_live p = do
    info ← fetch_server env p.server_id
    roles ← reverse_mapping role (role_ids p.roles) []
    channels ← reverse_mapping channel (channel_ids p.channels) []
    each (reconcile_role_live info.roles) p.roles
    each (reconcile_channel_live p roles) p.channels
    each (reconcile_category_live info.categories channels) p.categories
