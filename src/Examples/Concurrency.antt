-- ===== src/Examples/Concurrency.antt =====
-- The handlers and the engine among other goroutines, on the small server.
use mathlib.Core.WellFounded.{Acc}
use mathlib.Core.List.{Memᴰ}
use luars_stoatcord.Prelude.{
  arith, true, ℕ, ◌≡◌, refl, ap, false, none, some, inr, List, [], ◌∷◌, All, ◌≤◌,
}
use luars_stoatcord.World.{World, role}
use luars_stoatcord.Store.References.Rows.{Referential}
use luars_stoatcord.Store.View.{view}
use luars_stoatcord.Engine.Op.{Op, op_update, op_delete}
use luars_stoatcord.Engine.Outcome.{Settled}
use luars_stoatcord.Engine.Process.{process, health_check, process_update, push}
use luars_stoatcord.Engine.Remote.{run_remote, attempts, attempt, wait}
use luars_stoatcord.Store.{get, row_mapping, write_pending, confirm, statement}
use luars_stoatcord.Engine.Op.{worker_key, bucket_key, has_stoat_entity}
use luars_stoatcord.Discord.Translation.{role_from_discord}
use luars_stoatcord.Discord.Gateway.{apply_create_or_edit, role_diff}
use luars_stoatcord.Canonical.State.{parse_role, role_json}
use luars_stoatcord.Canonical.Vocabulary.{canonicalize, sorted_permissions, place, permission_text}
use luars_stoatcord.Discord.Compare.{role_equal}
use luars_stoatcord.Canonical.Emit.{role_to_stoat}
use luars_stoatcord.Stoat.Role
use luars_stoatcord.Stoat.Client.{is_elevation_role, call, set_role_permissions}
use luars_stoatcord.Prelude.Maps.{lookup, insert}
use luars_stoatcord.Engine.Interference.{process_among, Undisturbed}
use luars_stoatcord.Engine.Interference.Alone.{nobody}
use luars_stoatcord.Engine.Interference.Frame.{process_among-Undisturbed}
use luars_stoatcord.Engine.Interference.Own.{OwnSettled, process_among-OwnSettled}
use luars_stoatcord.Engine.Scheduling.{
  worker_for, landing, work_on, move, submit, has_room, deliver, run_op, Move, submits, sends,
  works, run, new_scheduler,
}
use luars_stoatcord.Engine.Scheduling.Termination.{Advances, move-Acc}
use luars_stoatcord.Engine.Scheduling.Landed.{Landed}
use luars_stoatcord.Prelude.Int.{pos}
use luars_stoatcord.Discord.Translation.{DiscordRole}
use luars_stoatcord.Engine.Scheduling.Progress.{ComesToRest}
use luars_stoatcord.Discord.Gateway.{build_role_op}
use luars_stoatcord.Discord.Messages.{build_message_delete_op}
use luars_stoatcord.Discord.Handlers.{role_updated, role_op, handle, handle_own, is_self_authored}
use luars_stoatcord.Discord.Handlers.Reserved.{build_role_op-KeepsStore}
use luars_stoatcord.Discord.Handlers.Mirroring.{
  mirror-Referential, mirror-Landed, mirror-Spared, mirrored-Bounded, Mirrors, mirrored-Settles,
  mirror-ComesToRest,
}
use luars_stoatcord.Canonical.Result.{err, rate_limited}
use luars_stoatcord.Stoat.Guard.{Spares}
use luars_stoatcord.Engine.Retries.{waits, backoffs}
use luars_stoatcord.Discord.Handlers.{Setup}
use luars_stoatcord.Store.Migrations.{
  Schema, open_with_migrations, sql, apply_migrations, apply_each, is_applied, apply_file,
}
use luars_stoatcord.Examples.{elevation, env, start, client, moderator}
use luars_stoatcord.Examples.Guild.{setup, guild, deleted, reachable}

abbrev deletion : Op
deletion = build_message_delete_op reachable (λ _. none) "m1" "ch1"

deletion-Mirrors : Mirrors setup (some guild) deletion
unfolding handle handle_own is_self_authored
deletion-Mirrors = inr (deleted, (deletion ∷ []), refl, Memᴰ.head refl)

mirrored-Settles_example :
    Settled op_delete deletion start.store (process reachable false deletion start)
unfolding health_check build_message_delete_op
mirrored-Settles_example = mirrored-Settles setup (some guild) deletion start deletion-Mirrors refl

abbrev schedule : List Move
schedule = submits deletion ∷ sends 0 ∷ works "message:ch1" ∷ []

mirror-ComesToRest_example :
    ComesToRest reachable false (run reachable false schedule (new_scheduler start))
mirror-ComesToRest_example =
    mirror-ComesToRest setup false schedule start ((some guild, deletion-Mirrors), (tt, (tt, tt)))

move-Acc_example :
    Acc (Advances reachable false) (run reachable false schedule (new_scheduler start))
move-Acc_example = move-Acc reachable false (run reachable false schedule (new_scheduler start))

abbrev renaming : Op
renaming = build_role_op env op_update "01SRV" client (record moderator { name = "Mod" })

abbrev of_other_role : Op
of_other_role = build_role_op env op_update "01SRV" client (record moderator { id = "r2" })

-- Another worker, which processes the op of another role at each place.
abbrev other_worker : ℕ → World → World
other_worker n w = (process_among env nobody false of_other_role w).1

renaming-Undisturbed : Undisturbed other_worker renaming role "r1"
unfolding build_role_op
renaming-Undisturbed =
    process_among-Undisturbed env nobody false renaming of_other_role role "r1"
      (record {
        by_others = λ n w. refl;
        by_apply = λ w.
            ap (λ s. view role "r1" s)
              (build_role_op-KeepsStore env client "01SRV" (record moderator { id = "r2" })
                op_update w);
      })
      refl
      (λ w.
        ap (λ s. view role "r1" s)
          (build_role_op-KeepsStore env client "01SRV" (record moderator { name = "Mod" }) op_update
            w))

process_among-OwnSettled_example :
    OwnSettled op_update renaming
      (view role "r1" start.store)
      (process_among env other_worker false renaming start)
unfolding health_check build_role_op
process_among-OwnSettled_example =
    process_among-OwnSettled env other_worker renaming renaming-Undisturbed start refl

abbrev pub painter : DiscordRole
painter = record {
  id = "r1";
  name = "Painter";
  color = 255;
  hoist = true;
  position = pos 2;
  permissions = 0x400;
}

abbrev painting : Op
painting = role_op setup (some guild) op_update painter

painting-Mirrors : Mirrors setup (some guild) painting
unfolding handle handle_own
painting-Mirrors = inr (role_updated "g1" painter, (painting ∷ []), refl, Memᴰ.head refl)

-- The role's worker has pushed the op.
abbrev pushed : List Move
pushed = submits painting ∷ sends 0 ∷ works "role:r1" ∷ works "role:r1" ∷ works "role:r1" ∷ []

mirror-Landed_example : Landed (run reachable false pushed (new_scheduler start))
mirror-Landed_example =
    mirror-Landed setup false pushed start
      ((some guild, painting-Mirrors), (tt, (tt, (tt, (tt, tt)))))

no_message-Referential : Referential start.store
unfolding lookup
no_message-Referential k r e = absurd (ground arith)

-- The database is new and its driver does not fail.
abbrev fresh : Schema
fresh = record { foreign_keys = false; recorded = []; executed = []; asked = 0 }

mirror-Referential_example :
    Referential (run reachable false pushed (new_scheduler start)).world.store
unfolding open_with_migrations sql apply_migrations apply_each is_applied apply_file
mirror-Referential_example =
    mirror-Referential setup false (λ _. false) ("0001_init.sql" ∷ []) fresh refl refl pushed start
      ((some guild, painting-Mirrors), (tt, (tt, (tt, (tt, tt))))) no_message-Referential

mirror-Spared_example :
    All (Spares "01ELEV") (run reachable false pushed (new_scheduler start)).world.trace
mirror-Spared_example =
    mirror-Spared setup false elevation refl pushed start
      ((some guild, painting-Mirrors), (tt, (tt, (tt, (tt, tt))))) tt

mirrored-Bounded_example :
    (waits (run_remote reachable painting start).1.trace ≤ 6)
    × (backoffs (run_remote reachable painting start).1.trace ≤ 6)
mirrored-Bounded_example =
    mirrored-Bounded setup (some guild) painting start painting-Mirrors (λ _. refl)

-- Stoat limits every request, and so EditRole of the op.
abbrev throttled : Setup
throttled = record setup { env = record reachable { answer = λ _ _. err (rate_limited 9) } }

abbrev limited_painting : Op
limited_painting = role_op throttled (some guild) op_update painter

-- Its worker is then about to notify the waiters.
about_to_notify :
    (worker_for "role:r1" (run reachable false pushed (new_scheduler start))).hand
    ≡ landing painting
unfolding run move work_on worker_for lookup submit new_scheduler has_room deliver insert worker_key
    health_check process process_update push write_pending confirm run_remote attempts attempt wait
    statement bucket_key run_op get row_mapping build_role_op apply_create_or_edit role_from_discord
    role_diff parse_role role_json canonicalize sorted_permissions place permission_text role_equal
    role_to_stoat has_stoat_entity Role.edit is_elevation_role call set_role_permissions
about_to_notify = refl
