-- ===== src/Store/Interface.antt =====
-- What the engine is promised of its MappingStore and QueueStore (internal/engine/types.go): a table
-- from keys to mappings and a queue, with what each call may answer and leave behind.
use luars_stoatcord.Prelude.{String, List, [], ◌∷◌, ◌++◌, if◌then◌else◌}
use luars_stoatcord.Canonical.Result.{Result, ok, err, Error}
use luars_stoatcord.Canonical.Json.{Json}
use luars_stoatcord.World.{EntityType, Store, Env, World}
use luars_stoatcord.Store.{Mapping, no_mapping, get, write_pending, confirm, remove, enqueue}
use luars_stoatcord.Store.View.{view, same_key, mark_pending, mark_active}

-- A call of the two interfaces
pub data Call : Type 0 where
  calls_get : EntityType → String → Call
  calls_write_pending : EntityType → String → Json → Call
  calls_confirm : EntityType → String → String → Call
  calls_remove : EntityType → String → Call
  calls_enqueue : String → Json → Call

pub data Response : Type 0 where
  mapped : Mapping → Response
  done : Response
  refused : Error → Response

abbrev pub mapped_or : Result Mapping → Response
mapped_or (ok m) = mapped m
mapped_or (err e) = refused e

abbrev pub done_or : Result (Unit {0}) → Response
done_or (ok _) = done
done_or (err e) = refused e

abbrev pub answered : {A : Type 0} → (A → Response) → A × World → Response × World
answered f (r, w) = (f r, w)

module _ (env : Env) where
  unfoldable pub serve : Call → World → Response × World
  serve (calls_get t k) w = answered mapped_or (get env t k w)
  serve (calls_write_pending t k state) w = answered done_or (write_pending env t k state w)
  serve (calls_confirm t k stoat_id) w = answered done_or (confirm env t k stoat_id w)
  serve (calls_remove t k) w = answered done_or (remove env t k w)
  serve (calls_enqueue op_type payload) w = answered done_or (enqueue env op_type payload w)

  -- The calls one after another, with their responses.
  unfoldable pub serve_all : List Call → World → List Response × World
  serve_all [] w = ([], w)
  serve_all (c ∷ cs) w = let (r, w1) = serve c w in let (rs, w2) = serve_all cs w1 in (r ∷ rs, w2)

-- The abstract store: one mapping for each key, and a queue.
pub record Contents : Type 0 where
  pub table : EntityType → String → Mapping
  pub queue : List (String × Json)

abbrev pub with_mapping : EntityType → String → Mapping → Contents → Contents
with_mapping t k m a = record a { table = λ t' k'. if same_key t k t' k' then m else a.table t' k' }

-- What a call may answer and leave behind.
pub data Serves : Call → Contents → Response → Contents → Type 0 where
  fails : {c : Call} {a : Contents} (e : Error) → Serves c a (refused e) a
  reads :
      {a : Contents} (t : EntityType) (k : String)
      → Serves (calls_get t k) a (mapped (a.table t k)) a
  intends :
      {a : Contents} (t : EntityType) (k : String) (state : Json)
      → Serves
          (calls_write_pending t k state)
          a
          done
          (with_mapping t k (mark_pending t state (a.table t k)) a)
  confirms :
      {a : Contents} (t : EntityType) (k stoat_id : String)
      → Serves
          (calls_confirm t k stoat_id)
          a
          done
          (with_mapping t k (mark_active t stoat_id (a.table t k)) a)
  forgets :
      {a : Contents} (t : EntityType) (k : String)
      → Serves (calls_remove t k) a done (with_mapping t k no_mapping a)
  enqueues :
      {a : Contents} (op_type : String) (payload : Json)
      → Serves
          (calls_enqueue op_type payload)
          a
          done
          (record a { queue = a.queue ++ (op_type, payload) ∷ [] })

-- A sequence of calls with its responses.
pub data Session : List Call → Contents → List Response → Contents → Type 0 where
  ended : {a : Contents} → Session [] a [] a
  served :
      {c : Call} {cs : List Call} {a b d : Contents} {r : Response} {rs : List Response}
      → Serves c a r b
      → Session cs b rs d
      → Session (c ∷ cs) a (r ∷ rs) d

abbrev pub contents : Store → Contents
contents s = record { table = λ t k. view t k s; queue = s.op_queue }
