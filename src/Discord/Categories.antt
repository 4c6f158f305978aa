-- ===== src/Discord/Categories.antt =====
-- internal/discord/category_gateway.go. The snapshot `allCategories` is an argument.
use luars_stoatcord.Prelude.{String, Bool, some, List, [], ◌∷◌, if◌then◌else◌}
use luars_stoatcord.Prelude.Int.{pos}
use luars_stoatcord.Canonical.Result.{Result}
use luars_stoatcord.Canonical.Json.{Json}
use luars_stoatcord.Canonical.Types.{Category}
use luars_stoatcord.Canonical.State.{category_json, parse_category}
use luars_stoatcord.World.{channel, category, Env, World}
use luars_stoatcord.World.Exec.{Exec, pure, ◌>>=◌, ◌>>◌}
use luars_stoatcord.Store.{Mapping, get}
use luars_stoatcord.Engine.Op.{OpKind, DependencyKey, Op}
use luars_stoatcord.Stoat.Server.{put_categories}
use luars_stoatcord.Discord.Compare.{category_equal}
use luars_stoatcord.Discord.Gateway.{is_active, with_error, delete_op}

abbrev pub add_active : Mapping → List String → List String
add_active m ids = if is_active m then m.stoat_id ∷ ids else ids

abbrev pub resolved_category : Category → List String → Category
resolved_category c ids = record { id = c.id; name = c.name; channel_ids = ids; position = pos 0 }

abbrev pub channel_dependencies : List String → List DependencyKey
channel_dependencies [] = []
channel_dependencies (id ∷ ids) =
    (record { entity = channel; discord_id = id }) ∷ channel_dependencies ids

unfoldable pub category_diff : Category → Json → Result Bool
category_diff c stored = with_error (parse_category stored) λ s. category_equal s c

module _ (env : Env) where
  unfoldable pub resolve_channel_ids : List String → Exec World (List String)
  resolve_channel_ids [] = pure []
  resolve_channel_ids (id ∷ ids) = do
    m ← get env channel id
    rest ← resolve_channel_ids ids
    pure (add_active m rest)

  unfoldable pub resolve_categories : List Category → Exec World (List Category)
  resolve_categories [] = pure []
  resolve_categories (c ∷ cs) = do
    ids ← resolve_channel_ids c.channel_ids
    rest ← resolve_categories cs
    pure (resolved_category c ids ∷ rest)

  unfoldable pub resend_categories : List Category → String → Exec World String
  resend_categories cs server = do
    resolved ← resolve_categories cs
    put_categories env server resolved

  unfoldable pub build_category_op : OpKind → Category → List Category → String → Op
  build_category_op kind c cs server = record {
    kind = kind;
    entity = category;
    discord_id = c.id;
    channel_id = "";
    canonical_state = category_json c;
    depends_on = channel_dependencies c.channel_ids;
    diff = some (category_diff c);
    apply = (do resend_categories cs server; pure c.id);
  }

  unfoldable pub build_category_delete_op : String → List Category → String → Op
  build_category_delete_op k cs server =
      delete_op category k (do resend_categories cs server; pure "")
