-- ===== src/Examples/Scheduling.antt =====
-- The engine's schedules on the small server: an op of the channel "ch1" waits for its category.
use luars_stoatcord.Canonical.State.{message_json}
use luars_stoatcord.Prelude.{
  map, String, some, true, ◌≡◌, refl, ◌+◌, arith, [], ◌∷◌, ◌++◌, false, none, List, select,
}
use luars_stoatcord.Canonical.Result.{ok}
use luars_stoatcord.Canonical.Json.{raw}
use luars_stoatcord.World.{role, channel, message, active}
use luars_stoatcord.Store.View.{view}
use luars_stoatcord.Engine.Op.{Op, op_create}
use luars_stoatcord.Prelude.Maps.{lookup, insert}
use luars_stoatcord.Store.{get, row_mapping, write_pending, confirm, statement}
use luars_stoatcord.Engine.Op.{worker_key, bucket_key}
use luars_stoatcord.Engine.Remote.{run_remote, attempts, attempt, wait}
use luars_stoatcord.Engine.Process.{process, health_check, process_update, push}
use luars_stoatcord.Engine.Limiter.Buckets.{of_key}
use luars_stoatcord.Engine.Scheduling.{
  Move, submits, sends, works, run, new_scheduler, worker_for, key_of, waits_on_other, Scheduler,
  move, work_on, submit, has_room, deliver, check_dependency, run_op, take_waiters, defer_op,
  finish,
}
use luars_stoatcord.Engine.Scheduling.Conservation.{Conserved}
use luars_stoatcord.Engine.Scheduling.Conservation.{schedule-Conserved}
use luars_stoatcord.Engine.Scheduling.Line.{backlog}
use luars_stoatcord.Engine.Scheduling.Order.{of_key-run}
use luars_stoatcord.Engine.Scheduling.Draining.{
  drain_engine, wait_returns, takes_drained, takes_timer, drain_engine-Quiet,
}
use luars_stoatcord.Engine.Scheduling.Wakeup.{missed_wakeup}
use luars_stoatcord.Examples.{env, start}

abbrev new_role : Op
new_role = record {
  kind = op_create;
  entity = role;
  discord_id = "r9";
  channel_id = "";
  canonical_state = raw "{}";
  depends_on = [];
  diff = none;
  apply = λ w. (ok "01NINE", record w { asked = w.asked + 1 });
}

-- A channel with an overwrite of the new role.
abbrev new_channel : Op
new_channel = record new_role {
  entity = channel;
  discord_id = "ch9";
  depends_on = key_of new_role ∷ [];
}

-- Both ops are submitted and taken by their workers; the channel's worker has read the role as
-- unmet when the role's worker is about to process it.
abbrev before : List Move
before =
    submits new_role
    ∷ submits new_channel
    ∷ sends 0
    ∷ sends 0
    ∷ works "role:r9"
    ∷ works "role:r9"
    ∷ works "channel:ch9"
    ∷ works "channel:ch9"
    ∷ []

abbrev landed : List Move
landed = works "role:r9" ∷ works "role:r9" ∷ []

schedule-Conserved_example : Conserved (run env false (before ++ landed) (new_scheduler start))
schedule-Conserved_example = schedule-Conserved env false (before ++ landed) start

abbrev ready : Scheduler
ready = run env false before (new_scheduler start)

of_key-run_example :
    of_key "role:r9" (run env false (before ++ landed) (new_scheduler start)).sent
    ≡ of_key "role:r9" (run env false (before ++ landed) (new_scheduler start)).ran
      ++ backlog (worker_for "role:r9" (run env false (before ++ landed) (new_scheduler start)))
unfolding run move work_on worker_for lookup submit new_scheduler has_room deliver insert worker_key
    check_dependency get row_mapping health_check process process_update push write_pending confirm
    run_remote attempts attempt wait statement bucket_key run_op take_waiters
of_key-run_example = of_key-run env false (before ++ landed) start "role:r9" refl

missed_wakeup_example :
    let s = run env false (works "role:r9" ∷ works "role:r9" ∷ works "channel:ch9" ∷ []) ready in
    (s.waiters
      ≡ select (waits_on_other (key_of new_role)) ready.waiters
        ++ (key_of new_role, new_channel) ∷ [])
    × ((view role "r9" s.world.store).status ≡ active)
unfolding run move work_on worker_for lookup submit new_scheduler has_room deliver insert worker_key
    check_dependency get row_mapping health_check process process_update push write_pending confirm
    run_remote attempts attempt wait statement bucket_key run_op take_waiters
missed_wakeup_example =
    missed_wakeup env "role:r9" "channel:ch9" new_role new_channel ready refl refl refl (λ w. refl)
      (λ h. ground arith) refl refl refl

-- The channel's op alone: the role that it depends on never comes.
abbrev alone : List Move
alone =
    submits new_channel
    ∷ sends 0
    ∷ works "channel:ch9"
    ∷ works "channel:ch9"
    ∷ works "channel:ch9"
    ∷ []

drain_engine-Quiet_example :
    drain_engine env false
      (wait_returns ∷ takes_drained ∷ takes_timer ∷ [])
      false
      (run env false alone (new_scheduler start))
    ≡ some true
unfolding run move work_on worker_for lookup submit new_scheduler has_room deliver insert worker_key
    check_dependency get row_mapping health_check process process_update push write_pending confirm
    run_remote attempts attempt wait statement bucket_key run_op take_waiters defer_op
drain_engine-Quiet_example =
    drain_engine-Quiet env false alone start (wait_returns ∷ takes_drained ∷ takes_timer ∷ [])
      (record { no_caller = refl; all_idle = (refl, tt) }) (λ h. ground arith) (tt, (tt, (tt, tt)))

abbrev independent_channel : Op
independent_channel = record new_channel { depends_on = [] }

abbrev message_op : String → Op
message_op id = record new_role {
  entity = message;
  discord_id = id;
  channel_id = "ch9";
  canonical_state = message_json (record {
    id = id;
    channel_id = "ch9";
    author_name = "";
    author_avatar_ref = "";
    author_colour = "";
    content = id;
    attachment_refs = [];
    reply_to_id = "";
  });
  depends_on = key_of independent_channel ∷ [];
}

-- The first message is deferred; its channel lands, and the second message comes before the first
-- one is sent to the worker again.
abbrev overtaking : List Move
overtaking =
    submits (message_op "m1")
    ∷ sends 0
    ∷ works "message:ch9"
    ∷ works "message:ch9"
    ∷ works "message:ch9"
    ∷ submits independent_channel
    ∷ sends 0
    ∷ works "channel:ch9"
    ∷ works "channel:ch9"
    ∷ works "channel:ch9"
    ∷ submits (message_op "m2")
    ∷ sends 0
    ∷ works "channel:ch9"
    ∷ works "channel:ch9"
    ∷ works "channel:ch9"
    ∷ []

-- The channel of the messages' worker then holds the second message before the first one.
overtaken :
    map
      (λ (op : Op). op.discord_id)
      (worker_for "message:ch9" (run env false overtaking (new_scheduler start))).queue
    ≡ "m2" ∷ "m1" ∷ []
unfolding run move work_on worker_for lookup submit new_scheduler has_room deliver insert worker_key
    check_dependency get row_mapping health_check process process_update push write_pending confirm
    run_remote attempts attempt wait statement bucket_key run_op take_waiters defer_op finish
overtaken = refl
