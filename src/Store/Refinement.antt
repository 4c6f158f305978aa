-- ===== src/Store/Refinement.antt =====
-- The Store of internal/store keeps the promise of MappingStore and QueueStore (internal/engine/types.go).
use luars_stoatcord.Prelude.{
  String, ◌≡◌, refl, sym, subst, List, [], ◌∷◌, ◌++◌, arith, Bool-cases, inl, inr,
}
use luars_stoatcord.Canonical.Result.{Result, ok, err}
use luars_stoatcord.Canonical.Json.{Json}
use luars_stoatcord.World.{EntityType, server, Store, Env, World}
use luars_stoatcord.Store.{Mapping, get, write_pending, confirm, remove, enqueue, statement}
use luars_stoatcord.Store.View.{view, replaced, Outcome, get-view}
use luars_stoatcord.Store.Laws.{write_pending-Outcome, confirm-Outcome, remove-Outcome}
use luars_stoatcord.Store.Interface.{
  Call, calls_get, calls_write_pending, calls_confirm, calls_remove, calls_enqueue, mapped, done,
  refused, mapped_or, done_or, answered, serve, serve_all, Contents, with_mapping, Serves, fails,
  reads, intends, confirms, forgets, enqueues, Session, ended, served, contents,
}

module _ (env : Env) (w : World) where
  queue-get : (t : EntityType) (k : String) → (get env t k w).1.store.op_queue ≡ w.store.op_queue
  unfolding get
  queue-get server k = ground arith
  queue-get t k = ground arith

  queue-write_pending :
      (t : EntityType) (k : String) (state : Json)
      → (write_pending env t k state w).1.store.op_queue ≡ w.store.op_queue
  unfolding write_pending
  queue-write_pending server k state = ground arith
  queue-write_pending t k state = ground arith

  queue-confirm :
      (t : EntityType) (k stoat_id : String)
      → (confirm env t k stoat_id w).1.store.op_queue ≡ w.store.op_queue
  unfolding confirm
  queue-confirm server k stoat_id = ground arith
  queue-confirm t k stoat_id = ground arith

  queue-remove :
      (t : EntityType) (k : String) → (remove env t k w).1.store.op_queue ≡ w.store.op_queue
  unfolding remove
  queue-remove server k = ground arith
  queue-remove t k = ground arith

contents-path :
    (a b : Contents)
    → ((t : EntityType) (k : String) → a.table t k ≡ b.table t k)
    → a.queue ≡ b.queue
    → a ≡ b
contents-path a b h q i = record { table = λ t k. h t k i; queue = q i }

-- An outcome of a write, as a step of the abstract store.
Outcome-Serves :
    (c : Call) (t : EntityType) (k : String) (m : Mapping) (p : Result (Unit {0}) × World)
    (s : Store)
    → Outcome p s (replaced t k m s)
    → p.1.store.op_queue ≡ s.op_queue
    → Serves c (contents s) done (with_mapping t k m (contents s))
    → Serves c (contents s) (answered done_or p).0 (contents (answered done_or p).1.store)
Outcome-Serves c t k m (ok x, w) s h q step =
    subst (Serves c (contents s) done)
      (contents-path (with_mapping t k m (contents s)) (contents w.store) (λ t' k'. sym (h t' k'))
        (sym q))
      step
Outcome-Serves c t k m (err e, w) s h q step =
    subst (λ s'. Serves c (contents s) (refused e) (contents s')) (sym h) (fails e)

got-Serves :
    (t : EntityType) (k : String) (p : Result Mapping × World) (s : Store)
    → p.1.store ≡ s
    → ((m : Mapping) → p.0 ≡ ok m → m ≡ view t k s)
    → Serves
        (calls_get t k)
        (contents s)
        (answered mapped_or p).0
        (contents (answered mapped_or p).1.store)
got-Serves t k (ok m, w) s same h =
    subst (λ s'. Serves (calls_get t k) (contents s) (mapped m) (contents s')) (sym same)
      (subst (λ x. Serves (calls_get t k) (contents s) (mapped x) (contents s)) (sym (h m refl))
        (reads t k))
got-Serves t k (err e, w) s same h =
    subst (λ s'. Serves (calls_get t k) (contents s) (refused e) (contents s')) (sym same) (fails e)

pub view-queue :
    (q : List (String × Json)) (s : Store) (t : EntityType) (k : String)
    → view t k (record s { op_queue = q }) ≡ view t k s
unfolding view
view-queue q s server k = refl
view-queue q s t k = refl

module _ (env : Env) where
  enqueued-Serves :
      (op_type : String) (payload : Json) (w : World)
      → Serves
          (calls_enqueue op_type payload)
          (contents w.store)
          (answered done_or (enqueue env op_type payload w)).0
          (contents (answered done_or (enqueue env op_type payload w)).1.store)
  unfolding enqueue statement view
  enqueued-Serves op_type payload w = elim (Bool-cases (env.db_fails w.asked)) [
    | inl e ↦ rw e (fails _)
    | inr e ↦ rw e (
        subst (Serves (calls_enqueue op_type payload) (contents w.store) done) appended
          (enqueues op_type payload))
  ]
    where
      appended :
          record (contents w.store) { queue = w.store.op_queue ++ (op_type, payload) ∷ [] }
          ≡ contents (record w.store { op_queue = w.store.op_queue ++ (op_type, payload) ∷ [] })
      appended = contents-path _ _ (λ t k. sym (view-queue _ w.store t k)) refl

  serve-Serves :
      (c : Call) (w : World)
      → Serves c (contents w.store) (serve env c w).0 (contents (serve env c w).1.store)
  unfolding serve
  serve-Serves (calls_get t k) w =
      got-Serves t k (get env t k w) w.store (get-view env w t k).0 (get-view env w t k).1
  serve-Serves (calls_write_pending t k state) w =
      Outcome-Serves _ t k _ (write_pending env t k state w) w.store
        (write_pending-Outcome env w t k state) (queue-write_pending env w t k state)
        (intends t k state)
  serve-Serves (calls_confirm t k stoat_id) w =
      Outcome-Serves _ t k _ (confirm env t k stoat_id w) w.store
        (confirm-Outcome env w t k stoat_id) (queue-confirm env w t k stoat_id)
        (confirms t k stoat_id)
  serve-Serves (calls_remove t k) w =
      Outcome-Serves _ t k _ (remove env t k w) w.store (remove-Outcome env w t k)
        (queue-remove env w t k) (forgets t k)
  serve-Serves (calls_enqueue op_type payload) w = enqueued-Serves op_type payload w

  -- Any sequence of calls of Get, WritePending, Confirm, Remove and Enqueue is a session of the
  -- abstract store, which has one mapping for each key and a queue. A call that fails changes
  -- nothing. Get reads the mapping of its key. WritePending keeps the Stoat id of its key, stores
  -- the new state and marks the mapping pending, but the mapping of a message that has a Stoat id
  -- is left active. Confirm records the Stoat id and marks the mapping active, if there is one (that
  -- of a message is left pending by an empty id). Remove forgets the mapping. Enqueue appends to the
  -- queue. All else stays as it was.
  pub serve_all-Session :
      (cs : List Call) (w : World)
      → Session cs (contents w.store) (serve_all env cs w).0 (contents (serve_all env cs w).1.store)
  unfolding serve_all
  serve_all-Session [] w = ended
  serve_all-Session (c ∷ cs) w = served (serve-Serves c w) (serve_all-Session cs (serve env c w).1)
