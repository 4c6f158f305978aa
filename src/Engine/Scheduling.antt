-- ===== src/Engine/Scheduling.antt =====
-- The scheduling of internal/engine/engine.go: Submit, workerFor with the loop of a worker, tryRun,
-- firstUnmetDependency, deferOp, notifyWaiters and the WaitGroup. The goroutines are the workers and
-- the callers of Submit; a schedule is the list of who makes the next move. A move is one critical
-- section, one channel operation, one read of a dependency, or one call of `process`. A move that
-- has to block changes nothing. The fields from `submitted` on record what has happened.
pub mod Counting
pub mod Conservation
pub mod Line
pub mod Order
pub mod Wakeup
pub mod Waiting
pub mod Draining
pub mod Measure
pub mod Descent
pub mod Termination
pub mod Placement
pub mod Progress
pub mod Landing
pub mod Landed
pub mod Preserving
pub mod Integrity
use luars_stoatcord.Prelude.{
  ℕ, zero, suc, ◌+◌, ◌-◌, String, Bool, true, false, not, ◌&&◌, ◌==◌, Option, none, some, List, [],
  ◌∷◌, ◌++◌, length, ltb, select, if◌then◌else◌,
}
use luars_stoatcord.Prelude.Maps.{Map, lookup, insert}
use luars_stoatcord.Canonical.Result.{Result, ok, err}
use luars_stoatcord.World.{EntityType, entity_eq, MappingStatus, active, Env, World}
use luars_stoatcord.Store.{Mapping, get}
use luars_stoatcord.Engine.Op.{DependencyKey, Op, worker_key}
use luars_stoatcord.Engine.Process.{process}

-- What a worker has in hand: it ranges over its channel, goes through the dependencies of an op,
-- is about to defer it, to process it, to notify the waiters of what has landed, or to send these
-- to their workers; after the last one it calls wg.Done.
pub data Hand : Type 0 where
  resting : Hand
  checking : Op → List DependencyKey → Hand
  deferring : Op → DependencyKey → Hand
  running : Op → Hand
  landing : Op → Hand
  releasing : Op → List Op → Hand

-- A worker with its channel.
pub record Worker : Type 0 where
  pub queue : List Op
  pub hand : Hand

-- `callers` are the calls of Submit that have not sent their op yet. `waiters` is the map of lists
-- as one list, the ops of a key in the order in which they were deferred.
pub record Scheduler : Type 0 where
  pub workers : Map Worker
  pub waiters : List (DependencyKey × Op)
  pub callers : List Op
  pub wg : ℕ
  pub world : World
  pub submitted : List Op
  pub sent : List (String × Op)
  pub deferred : List Op
  pub ran : List (String × Op)
  pub finished : List Op

-- channelWorkerBuffer
abbrev pub channel_worker_buffer : ℕ
channel_worker_buffer = 64

abbrev pub idle : Worker
idle = record { queue = []; hand = resting }

abbrev pub started : Option Worker → Worker
started none = idle
started (some x) = x

-- workerFor: a worker that is not there yet starts with an empty channel.
unfoldable pub worker_for : String → Scheduler → Worker
worker_for k s = started (lookup k s.workers)

abbrev pub put_worker : String → Worker → Scheduler → Scheduler
put_worker k x s = record s { workers = insert k x s.workers }

abbrev pub set_hand : String → Hand → Scheduler → Scheduler
set_hand k h s = put_worker k (record (worker_for k s) { hand = h }) s

-- A send to the channel of a worker, while that has room.
unfoldable pub has_room : String → Scheduler → Bool
has_room k s = ltb (length (worker_for k s).queue) channel_worker_buffer

abbrev pub push_queue : String → Op → Scheduler → Scheduler
push_queue k op s =
    put_worker k (record (worker_for k s) { queue = (worker_for k s).queue ++ op ∷ [] }) s

abbrev pub same_dependency : DependencyKey → DependencyKey → Bool
same_dependency a b = entity_eq a.entity b.entity && a.discord_id == b.discord_id

abbrev pub waits_on : DependencyKey → DependencyKey × Op → Bool
waits_on d e = same_dependency e.0 d

abbrev pub waits_on_other : DependencyKey → DependencyKey × Op → Bool
waits_on_other d e = not (waits_on d e)

abbrev pub ops_of : List (DependencyKey × Op) → List Op
ops_of [] = []
ops_of ((_, op) ∷ es) = op ∷ ops_of es

abbrev pub key_of : Op → DependencyKey
key_of op = record { entity = op.entity; discord_id = op.discord_id }

abbrev pub status_active : MappingStatus → Bool
status_active active = true
status_active _ = false

abbrev pub met : Result Mapping → Bool
met (err _) = false
met (ok m) = m.found && status_active m.status

-- What the worker does after `process`: only a confirmed op notifies its waiters.
abbrev pub after_process : Op → Result Bool → Hand
after_process op (ok true) = landing op
after_process op _ = releasing op []

-- The call of Submit at place n of those that have not sent.
abbrev pub nth : ℕ → List Op → Option Op
nth n [] = none
nth zero (op ∷ ops) = some op
nth (suc n) (op ∷ ops) = nth n ops

abbrev pub without_nth : ℕ → List Op → List Op
without_nth n [] = []
without_nth zero (op ∷ ops) = ops
without_nth (suc n) (op ∷ ops) = op ∷ without_nth n ops

-- Submit, up to its send
unfoldable pub submit : Op → Scheduler → Scheduler
submit op s = record s {
  wg = s.wg + 1;
  callers = s.callers ++ op ∷ [];
  submitted = s.submitted ++ op ∷ [];
}

-- the send of Submit
unfoldable pub deliver : ℕ → Op → Scheduler → Scheduler
deliver n op s = record (push_queue (worker_key op) op s) {
  callers = without_nth n s.callers;
  sent = s.sent ++ (worker_key op, op) ∷ [];
}

abbrev pub send : ℕ → Option Op → Scheduler → Scheduler
send n none s = s
send n (some op) s = if has_room (worker_key op) s then deliver n op s else s

-- The head of the channel is received.
abbrev pub receive : String → List Op → Scheduler → Scheduler
receive k [] s = s
receive k (op ∷ ops) s = put_worker k (record { queue = ops; hand = checking op op.depends_on }) s

-- deferOp
unfoldable pub defer_op : String → Op → DependencyKey → Scheduler → Scheduler
defer_op k op d s = record (set_hand k resting s) {
  waiters = s.waiters ++ (d, op) ∷ [];
  deferred = s.deferred ++ op ∷ [];
}

-- The critical section of notifyWaiters.
unfoldable pub take_waiters : String → Op → Scheduler → Scheduler
take_waiters k op s =
    record (set_hand k (releasing op (ops_of (select (waits_on (key_of op)) s.waiters))) s) {
      waiters = select (waits_on_other (key_of op)) s.waiters;
    }

-- wg.Done at the end of tryRun
unfoldable pub finish : String → Op → Scheduler → Scheduler
finish k op s = record (set_hand k resting s) { wg = s.wg - 1; finished = s.finished ++ op ∷ [] }

-- The sends of notifyWaiters, and then wg.Done.
abbrev pub release : String → Op → List Op → Scheduler → Scheduler
release k op [] s = finish k op s
release k op (o ∷ os) s =
    if has_room (worker_key o) s
    then push_queue (worker_key o) o (set_hand k (releasing op os) s)
    else s

pub data Move : Type 0 where
  submits : Op → Move
  sends : ℕ → Move
  works : String → Move

module _ (env : Env) (dry_run : Bool) where
  -- One round of the loop of firstUnmetDependency.
  unfoldable pub check_dependency :
      String → Op → DependencyKey → List DependencyKey → Scheduler → Scheduler
  check_dependency k op d ds s =
      let (r, w) = get env d.entity d.discord_id s.world in
      record (set_hand k (if met r then checking op ds else deferring op d) s) { world = w }

  unfoldable pub run_op : String → Op → Scheduler → Scheduler
  run_op k op s =
      let (r, w) = process env dry_run op s.world in
      record (set_hand k (after_process op r) s) { world = w; ran = s.ran ++ (k, op) ∷ [] }

  -- tryRun and the loop of the worker, one move at a time
  unfoldable pub work_on : String → Hand → Scheduler → Scheduler
  work_on k resting s = receive k (worker_for k s).queue s
  work_on k (checking op []) s = set_hand k (running op) s
  work_on k (checking op (d ∷ ds)) s = check_dependency k op d ds s
  work_on k (deferring op d) s = defer_op k op d s
  work_on k (running op) s = run_op k op s
  work_on k (landing op) s = take_waiters k op s
  work_on k (releasing op os) s = release k op os s

  unfoldable pub move : Move → Scheduler → Scheduler
  move (submits op) s = submit op s
  move (sends n) s = send n (nth n s.callers) s
  move (works k) s = work_on k (worker_for k s).hand s

  unfoldable pub run : List Move → Scheduler → Scheduler
  run [] s = s
  run (m ∷ ms) s = run ms (move m s)

-- New
unfoldable pub new_scheduler : World → Scheduler
new_scheduler w = record {
  workers = [];
  waiters = [];
  callers = [];
  wg = 0;
  world = w;
  submitted = [];
  sent = [];
  deferred = [];
  ran = [];
  finished = [];
}
