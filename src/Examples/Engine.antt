-- ===== src/Examples/Engine.antt =====
-- The engine's theorems on the small server.
use luars_stoatcord.Prelude.{◌≡◌, ◌+◌, ◌++◌, ◌∷◌, [], refl, false, true, some, if◌then◌else◌}
use luars_stoatcord.Canonical.Result.{ok}
use luars_stoatcord.Canonical.State.{role_json}
use luars_stoatcord.World.{role, Env}
use luars_stoatcord.Engine.Op.{Op, op_update, op_queue_type}
use luars_stoatcord.Engine.Process.{process, health_check}
use luars_stoatcord.Engine.Gates.{Untouched, process_dry_run, process_degraded}
use luars_stoatcord.Engine.Limiter.{
  Limiter, turn, back_off, grants, new_bucketed, bucket_grants, sub_limiter,
}
use luars_stoatcord.Engine.Limiter.Spacing.{Spaced, grants-Spaced}
use luars_stoatcord.Engine.Limiter.Buckets.{of_key, of_key-bucket_grants}
use luars_stoatcord.Discord.Gateway.{build_role_op}
use luars_stoatcord.Examples.{client, env, start, moderator}

abbrev rename : Op
rename = record {
  kind = op_update;
  entity = role;
  discord_id = "r1";
  channel_id = "";
  canonical_state = role_json moderator;
  depends_on = [];
  diff = some (λ _. ok false);
  apply = λ w. (ok "01MOD", record w { asked = w.asked + 1 });
}

abbrev down : Env
down = record env { stoat_healthy = λ _. false }

abbrev mirror_moderator : Op
mirror_moderator = build_role_op env op_update "01SRV" client (record moderator { name = "Mod" })

process_dry_run_example : Untouched start (process env true rename start)
unfolding health_check
process_dry_run_example = process_dry_run env rename start refl

process_degraded_example :
    let w' = (process down true rename start).1 in
    (w'.trace ≡ start.trace)
    × (w'.store.rows ≡ start.store.rows)
    × (w'.store.messages ≡ start.store.messages)
    × (w'.store.op_queue ≡ (
        if down.db_fails (start.asked + 1)
        then start.store.op_queue
        else start.store.op_queue ++ (op_queue_type rename, rename.canonical_state) ∷ []))
unfolding health_check
process_degraded_example = process_degraded down rename true start refl

abbrev limiter : Limiter
limiter = record { min_interval = 10; next_allowed = 5 }

grants-Spaced_example :
    Spaced 10 5 (grants (turn 3 ∷ turn 6 ∷ back_off 8 20 ∷ turn 17 ∷ turn 28 ∷ []) limiter)
grants-Spaced_example =
    grants-Spaced (turn 3 ∷ turn 6 ∷ back_off 8 20 ∷ turn 17 ∷ turn 28 ∷ []) limiter

of_key-bucket_grants_example :
    of_key "servers" (
      bucket_grants
        (("servers", turn 1) ∷ ("any", turn 2) ∷ ("servers", turn 3) ∷ [])
        (new_bucketed (("servers", 10) ∷ []) 1))
    ≡ grants (turn 1 ∷ turn 3 ∷ []) (sub_limiter "servers" (new_bucketed (("servers", 10) ∷ []) 1))
of_key-bucket_grants_example =
    of_key-bucket_grants "servers"
      (("servers", turn 1) ∷ ("any", turn 2) ∷ ("servers", turn 3) ∷ [])
      (new_bucketed (("servers", 10) ∷ []) 1)
