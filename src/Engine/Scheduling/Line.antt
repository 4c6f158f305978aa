-- ===== src/Engine/Scheduling/Line.antt =====
-- What a worker of internal/engine/engine.go has still to process, and what a change of a worker
-- does to it.
use luars_stoatcord.Prelude.{
  ℕ, ◌≡◌, refl, ap, ◌∙◌, subst, String, false, List, [], ◌∷◌, ◌++◌, ◌==◌, eq_iff, eq_refl,
  Bool-cases, inl, inr, arith, if◌then◌else◌,
}
use mathlib.Core.List.{append_assoc, append-nil}
use luars_stoatcord.Prelude.Maps.{lookup-insert}
use luars_stoatcord.World.{World}
use luars_stoatcord.Engine.Op.{Op, worker_key}
use luars_stoatcord.Engine.Limiter.Buckets.{of_key}
use luars_stoatcord.Engine.Scheduling.{
  Hand, checking, deferring, running, releasing, Worker, Scheduler, worker_for, put_worker,
  set_hand, deliver,
}

-- The op that a worker has taken from its channel and has not processed yet.
abbrev pub unprocessed : Hand → List Op
unprocessed (checking op _) = op ∷ []
unprocessed (deferring op _) = op ∷ []
unprocessed (running op) = op ∷ []
unprocessed _ = []

-- What a worker has still to process.
abbrev pub backlog : Worker → List Op
backlog x = unprocessed x.hand ++ x.queue

-- A worker that has nobody to release.
abbrev pub Alone : Hand → Type 0
Alone (releasing op os) = os ≡ []
Alone _ = Unit

-- The workers are in order, and no op waits or is about to be released.
pub record InOrder (s : Scheduler) : Type 0 where
  pub nobody : s.waiters ≡ []
  pub alone : (k : String) → Alone (worker_for k s).hand
  pub in_line : (k : String) → of_key k s.sent ≡ of_key k s.ran ++ backlog (worker_for k s)

of_key-snoc :
    (k j : String) (op : Op) (xs : List (String × Op))
    → of_key k (xs ++ (j, op) ∷ []) ≡ of_key k xs ++ (if j == k then op ∷ [] else [])
of_key-snoc k j op [] = ground arith
of_key-snoc k j op ((i, o) ∷ xs) = elim (Bool-cases (i == k)) [
  | inl e ↦ rw e (ap (λ ys. o ∷ ys) (of_key-snoc k j op xs))
  | inr e ↦ rw e (of_key-snoc k j op xs)
]

pub worker_for-put :
    (k j : String) (x : Worker) (s : Scheduler)
    → worker_for k (put_worker j x s) ≡ (if j == k then x else worker_for k s)
unfolding worker_for
worker_for-put k j x s = elim (Bool-cases (j == k)) [
  | inl e ↦ rw (lookup-insert j k x s.workers, e) refl
  | inr e ↦ rw (lookup-insert j k x s.workers, e) refl
]

-- A property of every worker, after one of them has changed.
pub each-put {ℓ} :
    (P : String → Worker → Type ℓ) (j : String) (x : Worker) (s : Scheduler)
    → P j x
    → ((k : String) → (j == k) ≡ false → P k (worker_for k s))
    → (k : String) → P k (worker_for k (put_worker j x s))
each-put P j x s new old k = elim (Bool-cases (j == k)) [
  | inl e ↦ rw (worker_for-put k j x s, e) (subst (λ i. P i x) ((eq_iff j k).0 e) new)
  | inr e ↦ rw (worker_for-put k j x s, e) (old k e)
]

-- A change of one worker that keeps its backlog.
pub put-InOrder :
    (j : String) (x : Worker) (s : Scheduler)
    → Alone x.hand
    → backlog x ≡ backlog (worker_for j s)
    → InOrder s
    → InOrder (put_worker j x s)
put-InOrder j x s free same o = record {
  nobody = o.nobody;
  alone = each-put (λ k y. Alone y.hand) j x s free (λ k _. o.alone k);
  in_line =
      each-put (λ k y. of_key k s.sent ≡ of_key k s.ran ++ backlog y) j x s (rw same (o.in_line j))
        (λ k _. o.in_line k);
}

pub deliver-InOrder : (n : ℕ) (op : Op) (s : Scheduler) → InOrder s → InOrder (deliver n op s)
unfolding deliver worker_for
deliver-InOrder n op s o = record {
  nobody = o.nobody;
  alone = each-put (λ k y. Alone y.hand) j x s (o.alone j) (λ k _. o.alone k);
  in_line =
      each-put (λ k y. of_key k (s.sent ++ (j, op) ∷ []) ≡ of_key k s.ran ++ backlog y) j x s
        (rw (of_key-snoc j j op s.sent, eq_refl j, o.in_line j) (simp append_assoc))
        (λ k e. rw (of_key-snoc k j op s.sent, e) (append-nil _ ∙ o.in_line k));
}
  where
    j : String
    j = worker_key op

    x : Worker
    x = record (worker_for j s) { queue = (worker_for j s).queue ++ op ∷ [] }

pub process-InOrder :
    (j : String) (op : Op) (h : Hand) (w : World) (s : Scheduler)
    → (worker_for j s).hand ≡ running op
    → Alone h
    → unprocessed h ≡ []
    → InOrder s
    → InOrder (record (set_hand j h s) { world = w; ran = s.ran ++ (j, op) ∷ [] })
unfolding worker_for
process-InOrder j op h w s e free empty o = record {
  nobody = o.nobody;
  alone = each-put (λ k y. Alone y.hand) j x s free (λ k _. o.alone k);
  in_line =
      each-put (λ k y. of_key k s.sent ≡ of_key k (s.ran ++ (j, op) ∷ []) ++ backlog y) j x s
        (rw (of_key-snoc j j op s.ran, eq_refl j, empty, o.in_line j, e) (simp append_assoc))
        (λ k d. rw (of_key-snoc k j op s.ran, d) (simp append-nil (o.in_line k)));
}
  where
    x : Worker
    x = record (worker_for j s) { hand = h }

-- The order is a matter of four fields.
pub keep-InOrder :
    (s t : Scheduler)
    → t.waiters ≡ []
    → t.workers ≡ s.workers
    → t.sent ≡ s.sent
    → t.ran ≡ s.ran
    → InOrder s
    → InOrder t
unfolding worker_for
keep-InOrder s t none_left p q r o = record {
  nobody = none_left;
  alone = λ k. rw p (o.alone k);
  in_line = λ k. rw (p, q, r) (o.in_line k);
}
