-- ===== src/Lib.antt =====
-- stoatcord mirrors a Discord guild onto a Stoat server. An event on Discord becomes an op
-- (internal/discord), the engine sequences the op (internal/engine) against the mapping tables
-- (internal/store), and the op's Apply asks the Stoat server for changes (internal/stoat). At startup
-- internal/reconcile binds what exists on both sides by name and checks the live state, and
-- cmd/stoatcord resolves the admin roles.
--
-- Canonical models internal/canonical: the entities (Types), the permission masks (Permission), the
-- translations to Stoat's shapes (Emit), the canonical order of permissions (Vocabulary) and the
-- canonical_state documents (Json, State). A document is a tree: the text that encoding/json writes
-- is a function of it.
--
-- World is what every operation works on: the database, the count of what was asked of the outside,
-- and the trace of the writes to Stoat and of the calls of the limiter. Env is the outside: whether
-- the n-th statement fails in the driver, what Stoat and Discord answer, which gateway is up. An
-- operation is an Exec: it takes a World to a result and a World, and keeps what was written before
-- an error.
--
-- Store models internal/store: Mapping is the struct, get, write_pending, confirm, remove and enqueue
-- are the methods, the functions named _message those of message.go. Store/View reads the tables as a
-- function from a key to a Mapping, and Store/Laws states what each operation does to it.
-- Store/Interface is the abstract store behind the interfaces MappingStore and QueueStore of types.go,
-- which Store/Refinement compares with the Store; Store/References is the foreign key of message_map.
-- Store/Migrations models store.go, the opening of the database; a migration file is one statement.
--
-- Engine models internal/engine: Op is op.go and types.go, Process is Engine.process with the
-- health check of cmd/stoatcord/health.go, Remote is remote.go, Limiter is rate_limiter.go. The
-- retries of runRemote run on fuel, 6, which is the bound of the loop in the code; an attempt is a
-- step of its own. The loop of GlobalRateLimiter.Wait is one step for each turn, at the time that
-- the turn reads. The recursions elsewhere are structural. Outcome, Gates, Retries, Stable
-- and Asking hold the theorems about an op.
--
-- Engine/Scheduling models Submit, the workers, tryRun, deferOp and notifyWaiters of engine.go: a
-- goroutine is a worker or a caller of Submit, a schedule is the list of who moves next, and a move
-- is one critical section, one channel operation, one read of a dependency, or one call of process.
-- A move that would block changes nothing; a worker's channel holds 64 ops, as in the code.
-- Scheduling/Draining is drainEngine of cmd/stoatcord/wiring.go. Measure, Descent and Termination count
-- the moves that are left, Placement and Progress put the workers into layers by what their ops depend
-- on, Landing and Landed follow an op until its waiters are notified, Preserving follows a property of
-- the world, and Integrity the foreign key of message_map.
--
-- Engine/Interference is process once more, with a place between each two of its calls where other
-- goroutines change the world in any way; Alone, Own and Frame compare it with process, and say what
-- becomes of the op's mapping and of the others. Preserved is what every branch of it keeps.
--
-- Stoat models internal/stoat: Client is client.go with permission.go, Role, Channel, Server and
-- Elevation are the files of these names, Server with message.go and member.go. A call of the revolt
-- library is a request on the trace and an answer of Env. Read is what read.go makes of an answer,
-- Attachment is attachment.go, and Gateway is the health of gateway.go.
--
-- Discord models internal/discord: Gateway is gateway.go and role_gateway.go, Categories is
-- category_gateway.go, Messages is message.go, Compare is reflect.DeepEqual at the compared types.
-- Translation is permission.go, role.go, server.go and channel.go, with state.go in
-- Translation/Sidebar and Ready; Assembly is the first part of BuildMessageOp with gif.go, whose log
-- is Gif, and Handlers is handlers.go. Handlers/Layers, Built, Depending, Keeping, Reserved,
-- Sparing and Mirroring put the handlers and the engine together. discordgo's constants, slices.SortFunc and the GIF pattern are
-- parameters. A colour is written with at most 16 hexadecimal digits, which is the width of Go's int.
--
-- Reconcile/Bind models internal/reconcile/reconcile.go and Reconcile/Live models live.go. Config is
-- internal/config/config.go. Wiring is resolveAdminRoles of cmd/stoatcord/wiring.go. Startup is main
-- of cmd/stoatcord/main.go up to the registration of the handlers, with its steps in Startup/Gates,
-- internal/lock/lock.go and ParseLevel of internal/log/log.go, and main from the elevation role to
-- ConvergeAll; the ops that this submits run in the engine of Engine/Scheduling. Examples applies the
-- theorems to a small server.
--
-- Not modelled: the live events that are handled while main still resolves roles and reconciles (they
-- are handled by schedules of their own), the connections of the sessions and gateways, the log's output, and the signals at the
-- end of main. Go's int is an unbounded integer here: the program's ints are positions, ranks and
-- indices of one server. Where the code goes through a Go map in no fixed order, the model goes
-- through it in the order of its list.
pub mod Prelude
pub mod Canonical
pub mod World
pub mod Store
pub mod Engine
pub mod Stoat
pub mod Discord
pub mod Reconcile
pub mod Config
pub mod Wiring
pub mod Startup
pub mod Examples
