-- ===== src/Discord/Handlers/Mirroring.antt =====
-- The handlers of internal/discord/handlers.go together with internal/engine/engine.go.
use mathlib.Core.List.{Memᴰ}
use luars_stoatcord.Prelude.{
  sym, subst, ◌∙◌, String, ◌≡◌, ◌⊎◌, Bool, true, false, Option, none, some, ℕ, ◌+◌, ◌≤◌, List, [],
  ◌∷◌, All, inl, inr,
}
use luars_stoatcord.World.{World}
use luars_stoatcord.Engine.Op.{Op}
use luars_stoatcord.Engine.Scheduling.{Move, submits, sends, works, run, new_scheduler}
use luars_stoatcord.Engine.Scheduling.Placement.Moves.{SubmitsFit, start-Placed}
use luars_stoatcord.Store.Migrations.{Schema, open_with_migrations}
use luars_stoatcord.Store.Migrations.Enforced.{open-Enforced}
use luars_stoatcord.Store.References.Rows.{Referential}
use luars_stoatcord.Engine.Scheduling.Integrity.{run-Referential}
use luars_stoatcord.Engine.Scheduling.Preserving
use luars_stoatcord.Engine.Scheduling.Landed.{Landed, run-Landed, start-Landed}
use luars_stoatcord.Engine.Scheduling.Progress.{ComesToRest, run-ComesToRest}
use luars_stoatcord.Discord.Translation.{DiscordGuild}
use luars_stoatcord.Discord.Handlers.{Setup, DiscordEvent, handle, converge_all}
use luars_stoatcord.Engine.Outcome.{Settled, process-Settled}
use luars_stoatcord.Engine.Retries.{KeepsStore, Unlimited, waits, backoffs, run_remote_bounded}
use luars_stoatcord.Engine.Remote.{run_remote}
use luars_stoatcord.Canonical.Result.{ok}
use luars_stoatcord.Store.Quiet.{trace-get}
use luars_stoatcord.Stoat.Client.{ElevationRole}
use luars_stoatcord.Stoat.Guard.{Spares}
use luars_stoatcord.Discord.Handlers.Sparing.{
  SparedSoFar, ApplySpares, ops-ApplySpares, process-Spared,
}
use luars_stoatcord.Discord.Handlers.Built.{Built, handle-All, converge_all-All}
use luars_stoatcord.Discord.Handlers.Reserved.{ops-KeepsStore, ops-Unlimited}
use luars_stoatcord.Engine.Process.{process, health_check}
use luars_stoatcord.Discord.Handlers.Layers.{key_height, key_height-bounded}
use luars_stoatcord.Discord.Handlers.Depending.{InLayers, ops-InLayers}

-- Among the ops of an event, or of the pass over the whole guild.
abbrev pub Mirrors : Setup → Option DiscordGuild → Op → Type 0
Mirrors x state op =
    Memᴰ op (converge_all x state)
    ⊎ ((event : DiscordEvent) × (ops : List Op) × (handle x state event ≡ some ops) × Memᴰ op ops)

-- What is submitted comes from a handler or from ConvergeAll, with any state of the cache.
abbrev pub FromHandlers : Setup → Move → Type 0
FromHandlers x (submits op) = (state : Option DiscordGuild) × Mirrors x state op
FromHandlers x _ = Unit

All-Mem : (P : Op → Type 0) (op : Op) (ops : List Op) → Memᴰ op ops → All P ops → P op
All-Mem P op [] m h = elim m [ ]
All-Mem P op (o ∷ ops) (Memᴰ.head e) (h, hs) = subst P (sym e) h
All-Mem P op (o ∷ ops) (Memᴰ.tail m) (h, hs) = All-Mem P op ops m hs

-- What holds of each op that a builder makes holds of an op from a handler or from ConvergeAll.
mirrored :
    (x : Setup) (P : Op → Type 0) (b : Built x P) (state : Option DiscordGuild) (op : Op)
    → Mirrors x state op
    → P op
mirrored x P b state op (inl m) =
    All-Mem P op (converge_all x state) m (converge_all-All x P b state)
mirrored x P b state op (inr (event, ops, e, m)) =
    All-Mem P op ops m (handle-All x P b state event ops e)

-- An op that comes from a handler or from ConvergeAll is settled by the engine, whenever both
-- connections are up and it is no dry run: a create or an update ends confirmed, skipped, or failed
-- with at most its intent written; a delete ends with the mapping gone, or failed with the tables as
-- they were. No other mapping changes.
pub mirrored-Settles :
    (x : Setup) (state : Option DiscordGuild) (op : Op) (w : World)
    → Mirrors x state op
    → (health_check x.env w).0 ≡ true
    → Settled op.kind op w.store (process x.env false op w)
mirrored-Settles x state op w m =
    process-Settled x.env op (mirrored x KeepsStore (ops-KeepsStore x) state op m) w

module _ (x : Setup) (dry_run : Bool) (P : Op → Type 0) (b : Built x P) where
  move-SubmitsFit : (m : Move) → FromHandlers x m → SubmitsFit key_height P x.env dry_run m
  move-SubmitsFit (submits op) (state, h) =
      (mirrored x InLayers (ops-InLayers x) state op h, mirrored x P b state op h)
  move-SubmitsFit (sends n) h = tt
  move-SubmitsFit (works k) h = tt

  moves-SubmitsFit :
      (ms : List Move) → All (FromHandlers x) ms → All (SubmitsFit key_height P x.env dry_run) ms
  moves-SubmitsFit [] h = tt
  moves-SubmitsFit (m ∷ ms) (h, hs) = (move-SubmitsFit m h, moves-SubmitsFit ms hs)

module _ (x : Setup) (dry_run : Bool) where
  -- If every op that is submitted comes from a handler or from ConvergeAll: after any schedule, some
  -- schedule without further submissions leads to a state in which no op is with a caller of Submit
  -- or with a worker.
  pub mirror-ComesToRest :
      (ms : List Move) (w : World)
      → All (FromHandlers x) ms
      → ComesToRest x.env dry_run (run x.env dry_run ms (new_scheduler w))
  mirror-ComesToRest ms w h =
      run-ComesToRest key_height KeepsStore 2 key_height-bounded x.env dry_run ms w
        (moves-SubmitsFit x dry_run KeepsStore (ops-KeepsStore x) ms h)

  -- If every op that is submitted comes from a handler or from ConvergeAll: after any schedule, when a
  -- worker is about to notify the waiters of an op, the mapping of its entity is active, whatever the
  -- other workers have done since; messages excepted.
  pub mirror-Landed :
      (ms : List Move) (w : World)
      → All (FromHandlers x) ms
      → Landed (run x.env dry_run ms (new_scheduler w))
  mirror-Landed ms w h =
      run-Landed key_height x.env dry_run ms (new_scheduler w)
        (moves-SubmitsFit x dry_run KeepsStore (ops-KeepsStore x) ms h)
        (start-Placed key_height KeepsStore w) (start-Landed w)

  -- If the connection enforces foreign keys as openWithMigrations has left it, which has succeeded,
  -- every op that is submitted comes from a handler or from ConvergeAll, and every row of message_map
  -- names a channel that has a row: so it does after any schedule, failures of the driver and of Stoat
  -- included.
  pub mirror-Referential :
      (fails : ℕ → Bool) (files : List String) (s : Schema)
      → (open_with_migrations fails files s).0 ≡ ok tt
      → x.env.foreign_keys ≡ (open_with_migrations fails files s).1.foreign_keys
      → (ms : List Move) (w : World) → All (FromHandlers x) ms
      → Referential w.store
      → Referential (run x.env dry_run ms (new_scheduler w)).world.store
  mirror-Referential fails files s opened same ms w h r =
      run-Referential key_height x.env (same ∙ open-Enforced fails files s opened) dry_run ms
        (new_scheduler w) (moves-SubmitsFit x dry_run KeepsStore (ops-KeepsStore x) ms h)
        (start-Placed key_height KeepsStore w) (unfold new_scheduler in r)

-- Once the bot's elevation role is resolved: if every op that is submitted comes from a handler or
-- from ConvergeAll, and no request so far edits, deletes or sets the permissions of that role or
-- edits a role to a rank below 1, then this still holds after any schedule, whatever the driver and
-- the server answer.
pub mirror-Spared :
    (x : Setup) (dry_run : Bool) (e : ElevationRole)
    → x.client.elevation ≡ some e
    → (ms : List Move) (w : World) → All (FromHandlers x) ms
    → All (Spares e.id) w.trace
    → All (Spares e.id) (run x.env dry_run ms (new_scheduler w)).world.trace
unfolding new_scheduler
mirror-Spared x dry_run e resolved ms w h =
    Preserving.run-Sound key_height x.env dry_run (ApplySpares e.id) (SparedSoFar e.id)
      (process-Spared x.env e.id dry_run) (λ t k v g. rw (trace-get x.env v t k) g) ms
      (new_scheduler w)
      (moves-SubmitsFit x dry_run (ApplySpares e.id) (ops-ApplySpares x e resolved) ms h)
      (start-Placed key_height (ApplySpares e.id) w)

-- For an op that comes from a handler or from ConvergeAll, and while no Wait is cancelled, runRemote
-- waits for the limiter at most six times and backs off at most six times.
pub mirrored-Bounded :
    (x : Setup) (state : Option DiscordGuild) (op : Op) (w : World)
    → Mirrors x state op
    → ((n : ℕ) → x.env.wait_fails n ≡ none)
    → (waits (run_remote x.env op w).1.trace ≤ waits w.trace + 6)
      × (backoffs (run_remote x.env op w).1.trace ≤ backoffs w.trace + 6)
mirrored-Bounded x state op w m live =
    let (waited, backed, _) =
      run_remote_bounded x.env op (mirrored x Unlimited (ops-Unlimited x) state op m) live w in
    (waited, backed)
