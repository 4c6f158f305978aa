-- ===== src/Examples/Mirror.antt =====
-- The theorems about what is mirrored on the small server.
use luars_stoatcord.Prelude.{◌≡◌, refl, ◌++◌, ◌∷◌, [], map, false, arith}
use luars_stoatcord.Prelude.Int.{pos}
use luars_stoatcord.Prelude.Maps.{Map}
use luars_stoatcord.Canonical.Result.{ok}
use luars_stoatcord.Canonical.Types.{view_channel, StoatOverwrite, Category, Channel, text, Message}
use luars_stoatcord.Canonical.State.{
  role_json, parse_role, category_json, parse_category, message_json, parse_message,
}
use luars_stoatcord.Canonical.Vocabulary.{canonicalize}
use luars_stoatcord.Canonical.State.RoundTrip.{parse-json}
use luars_stoatcord.World.{role, waited, requested, set_categories}
use luars_stoatcord.World.{World, channel, active}
use luars_stoatcord.Prelude.{some}
use luars_stoatcord.Canonical.Json.{raw}
use luars_stoatcord.Store.{put_row, no_mapping, row_mapping}
use luars_stoatcord.Store.View.{view}
use luars_stoatcord.Engine.Op.{op_update}
use luars_stoatcord.Engine.Process.{process, process_delete, push, health_check}
use luars_stoatcord.Engine.Gates.{Untouched}
use luars_stoatcord.Stoat.Client.{elevation_permissions, set_channel_permissions, call}
use luars_stoatcord.Stoat.Channel.{apply_channel_overwrites, grant_admins, put_overwrites}
use luars_stoatcord.Stoat.Overwrites.{
  record_all, grant_events, overwrite_events, apply_channel_overwrites_lem,
}
use luars_stoatcord.Discord.Gateway.{build_role_op, build_role_delete_op}
use luars_stoatcord.Discord.Applying.{push-bound_role}
use luars_stoatcord.Engine.Stable.{creates}
use luars_stoatcord.Discord.Deleting.{process_delete_inactive}
use luars_stoatcord.Discord.Categories.{resend_categories}
use luars_stoatcord.Discord.Resending.{resolve, resend_categories_lem}
use luars_stoatcord.Discord.Diffing.{process_role_again}
use luars_stoatcord.Examples.{env, start, client, moderator}

push-bound_role_example :
    ((view role "r1"
        (push env (build_role_op env op_update "01SRV" client moderator) start).1.store).stoat_id
      ≡ "01MOD")
    × (creates (push env (build_role_op env op_update "01SRV" client moderator) start).1.trace
        ≡ creates start.trace)
unfolding view row_mapping
push-bound_role_example =
    push-bound_role env client "01SRV" op_update moderator "01MOD" start refl refl refl

process_role_again_example :
    Untouched start (process env false (build_role_op env op_update "01SRV" client moderator) start)
unfolding view row_mapping health_check
process_role_again_example =
    process_role_again env client "01SRV" op_update moderator start ((tt, (tt, tt)), tt)
      (ground arith) refl refl refl

abbrev hidden : Map StoatOverwrite
hidden = ("01MOD", record { allow = 4; deny = 8 }) ∷ []

apply_channel_overwrites_lem_example :
    (apply_channel_overwrites env client "01CH" hidden start).1.trace
    ≡ record_all
        (grant_events "01CH" (elevation_permissions client) client.admin_roles
          ++ overwrite_events "01CH" hidden)
        start.trace
unfolding apply_channel_overwrites grant_admins set_channel_permissions call put_overwrites
apply_channel_overwrites_lem_example =
    apply_channel_overwrites_lem env client "01CH" hidden start refl

process_delete_inactive_example :
    ((process_delete env (build_role_delete_op env client "01SRV" "r2") start).1.trace
      ≡ waited "servers" ∷ [])
    × (view role "r2"
          (process_delete env (build_role_delete_op env client "01SRV" "r2") start).1.store
        ≡ no_mapping)
unfolding view row_mapping
process_delete_inactive_example =
    process_delete_inactive env client "01SRV" "r2" (λ _. refl) (λ _. refl) start refl

abbrev lobby : Category
lobby = record { id = "c1"; name = "Lobby"; channel_ids = "ch1" ∷ []; position = pos 0 }

resend_categories_lem_example :
    ((resend_categories env (lobby ∷ []) "01SRV" start).1.trace
      ≡ requested (set_categories "01SRV" (map (resolve start.store) (lobby ∷ []))) ∷ [])
    × ((resend_categories env (lobby ∷ []) "01SRV" start).1.store ≡ start.store)
resend_categories_lem_example = resend_categories_lem env (λ _. refl) (lobby ∷ []) "01SRV" start

abbrev general : Channel
general = record {
  id = "ch1";
  name = "general";
  kind = text;
  category_id = "c1";
  position = pos 0;
  overwrites = ("r1", record { allow = view_channel ∷ []; deny = [] }) ∷ [];
}

abbrev hello : Message
hello = record {
  id = "m1";
  channel_id = "ch1";
  author_name = "ann";
  author_avatar_ref = "";
  author_colour = "";
  content = "hello";
  attachment_refs = [];
  reply_to_id = "";
}

parse-json_example :
    (parse_role (role_json moderator)
      ≡ ok (record moderator { permissions = canonicalize moderator.permissions }))
    × (parse_category (category_json lobby) ≡ ok lobby)
    × (parse_message (message_json hello) ≡ ok hello)
parse-json_example = parse-json moderator lobby hello ((tt, (tt, tt)), tt)

abbrev with_channel : World
with_channel = record start {
  store = record start.store {
    rows =
        put_row start.store.rows channel "ch1"
          (some (record { stoat_id = some "01CH"; status = active; canonical_state = raw "{}" }));
  };
}
