-- ===== src/Discord/Ready.antt =====
-- WaitForGuildReady of internal/discord/state.go. discordgo's state cache, its events and the timer are
-- what happens while it waits.
use luars_stoatcord.Prelude.{
  String, ◌≡◌, refl, Bool, true, false, ◌||◌, ◌==◌, Option, none, some, List, [], ◌∷◌, any,
  if◌then◌else◌, arith,
}
use luars_stoatcord.Canonical.Result.{Result, ok, err, failed}

-- A GUILD_CREATE event comes, or the select takes one of its cases, the first one only if the channel
-- is closed.
pub data Waiting : Type 0 where
  guild_created : String → Waiting
  takes_ready takes_cancelled takes_timer : Waiting

-- The select of WaitForGuildReady; none while it waits. `closed` says that the channel is closed.
unfoldable pub await_guild : String → List Waiting → Bool → Option (Result (Unit {0}))
await_guild guild [] closed = none
await_guild guild (guild_created id ∷ ws) closed =
    await_guild guild ws (if id == guild then true else closed)
await_guild guild (takes_ready ∷ ws) closed =
    let rest = await_guild guild ws closed in if closed then some (ok tt) else rest
await_guild guild (takes_cancelled ∷ ws) closed = some (err (failed "context canceled"))
await_guild guild (takes_timer ∷ ws) closed = some (err (failed "timed out"))

-- WaitForGuildReady; `first` and `second` say whether the cache has the guild at the two checks
unfoldable pub wait_for_guild_ready :
    String → (first second : Bool) → List Waiting → Option (Result (Unit {0}))
wait_for_guild_ready guild first second ws =
    if first || second then some (ok tt) else await_guild guild ws false

abbrev pub announces : String → Waiting → Bool
announces guild (guild_created id) = id == guild
announces guild _ = false

abbrev succeeded : Option (Result (Unit {0})) → Bool
succeeded (some (ok _)) = true
succeeded _ = false

await_guild-announces :
    (guild : String) (ws : List Waiting) (closed : Bool)
    → succeeded (await_guild guild ws closed) ≡ true
    → (closed || any (announces guild) ws) ≡ true
unfolding await_guild
await_guild-announces guild [] closed h = absurd (ground arith)
await_guild-announces guild (guild_created id ∷ ws) closed h =
    ground (arith, await_guild-announces guild ws (if id == guild then true else closed) h)
await_guild-announces guild (takes_ready ∷ ws) true h = refl
await_guild-announces guild (takes_ready ∷ ws) false h = await_guild-announces guild ws false h
await_guild-announces guild (takes_cancelled ∷ ws) closed h = absurd (ground arith)
await_guild-announces guild (takes_timer ∷ ws) closed h = absurd (ground arith)

-- WaitForGuildReady succeeds only if the cache has the guild at one of the two checks, or else a
-- GUILD_CREATE event of the guild has come.
wait_for_guild_ready-announces :
    (guild : String) (first second : Bool) (ws : List Waiting)
    → succeeded (wait_for_guild_ready guild first second ws) ≡ true
    → (first || second || any (announces guild) ws) ≡ true
unfolding wait_for_guild_ready
wait_for_guild_ready-announces guild true second ws h = refl
wait_for_guild_ready-announces guild false true ws h = refl
wait_for_guild_ready-announces guild false false ws h = await_guild-announces guild ws false h
