-- ===== src/Engine/Stable.antt =====
-- What the push of internal/engine/engine.go keeps of an entity that is on Stoat already, when the
-- Apply of its op keeps it.
use luars_stoatcord.Prelude.{
  ℕ, zero, suc, String, ◌≡◌, refl, sym, ap, ◌∙◌, Bool, true, List, [], ◌∷◌, some, Option-cases, inl,
  inr, subst,
}
use luars_stoatcord.Canonical.Json.{Json}
use luars_stoatcord.Canonical.Result.{Result-cases, Result, ok, err, Error, rate_limited, failed}
use luars_stoatcord.World.{
  EntityType, Env, World, Event, requested, create_role, create_text_channel, create_voice_channel,
}
use luars_stoatcord.World.Exec.{Exec, pure, ◌>>=◌, ◌>>◌, bind-cases, bind-Preserves}
use luars_stoatcord.Store.{Mapping, write_pending, confirm}
use luars_stoatcord.Store.Laws.{
  same_key_refl, Outcome-ok, Outcome-err, write_pending-Outcome, confirm-Outcome,
}
use luars_stoatcord.Store.View.{mark_pending, active_status, view}
use luars_stoatcord.Store.Quiet.{trace-write_pending, trace-confirm}
use luars_stoatcord.Engine.Op.{Op, bucket_key}
use luars_stoatcord.Engine.Remote.{
  Attempt, returned, limited, wait, attempt, attempts, run_remote, backoff, after_apply,
}
use luars_stoatcord.Engine.Process.{push}

-- How many entities Stoat has been asked to create.
abbrev pub creates : List Event → ℕ
creates [] = 0
creates (requested (create_role _ _) ∷ es) = suc (creates es)
creates (requested (create_text_channel _ _) ∷ es) = suc (creates es)
creates (requested (create_voice_channel _ _) ∷ es) = suc (creates es)
creates (_ ∷ es) = creates es

module _ (t : EntityType) (k s : String) (n : ℕ) where
  -- The entity is mapped to `s`, and `n` entities have been created so far.
  abbrev pub Stable : World → Type 0
  Stable w =
      ((view t k w.store).found ≡ true) × ((view t k w.store).stoat_id ≡ s) × (creates w.trace ≡ n)

  -- Whatever comes, the entity is still mapped to `s`; a success returns `s`.
  abbrev pub Returns : Result String × World → Type 0
  Returns (ok id, w) = Stable w × (id ≡ s)
  Returns (err _, w) = Stable w

  abbrev AttemptReturns : Attempt × World → Type 0
  AttemptReturns (returned r, w) = Returns (r, w)
  AttemptReturns (limited _, w) = Stable w

  after_apply-Returns :
      (r : Result String) (w : World) → Returns (r, w) → AttemptReturns (after_apply r w)
  after_apply-Returns (ok id) w h = h
  after_apply-Returns (err (rate_limited n)) w h = h
  after_apply-Returns (err (failed x)) w h = h

  after_attempt-Returns :
      (f : ℕ → World → Result String × World) (a : Attempt) (w : World)
      → AttemptReturns (a, w)
      → ((m : ℕ) → Stable w → Returns (f m w))
      → Returns (elim a [ returned r ↦ (r, w) | limited m ↦ f m w ])
  after_attempt-Returns f (returned r) w h g = h
  after_attempt-Returns f (limited m) w h g = g m h

  module _ (env : Env) (op : Op) (h : (w : World) → Stable w → Returns (op.apply w)) where
    attempt-Returns : (w : World) → Stable w → AttemptReturns (attempt env op w)
    unfolding attempt wait
    attempt-Returns w g = elim (Option-cases (env.wait_fails w.asked)) [
      | inl e ↦ rw e (after_apply-Returns _ _ (h _ g))
      | inr (x, e) ↦ rw e g
    ]

    attempts-Returns :
        (left : ℕ) (last : Error) (w : World)
        → Stable w
        → Returns (attempts env left op (some last) w)
    unfolding attempts
    attempts-Returns zero last w g = g
    attempts-Returns (suc left) last w g =
        after_attempt-Returns
          (λ m v. attempts env left op (some (rate_limited m)) (backoff (bucket_key op) m v))
          (attempt env op w).0 (attempt env op w).1 (attempt-Returns w g)
          (λ m v.
            attempts-Returns left (rate_limited m) (backoff (bucket_key op) m (attempt env op w).1)
              v)

    run_remote-Returns : (w : World) → Stable w → Returns (run_remote env op w)
    unfolding run_remote
    run_remote-Returns w g =
        unfold attempts in
        after_attempt-Returns
          (λ m v. attempts env 5 op (some (rate_limited m)) (backoff (bucket_key op) m v))
          (attempt env op w).0 (attempt env op w).1 (attempt-Returns w g)
          (λ m v.
            attempts-Returns 5 (rate_limited m) (backoff (bucket_key op) m (attempt env op w).1) v)

  Stable-viewed :
      (m : Mapping) (w w' : World)
      → view t k w'.store ≡ m
      → w'.trace ≡ w.trace
      → m.found ≡ true
      → m.stoat_id ≡ s
      → creates w.trace ≡ n
      → Stable w'
  Stable-viewed m w w' v e f i c = (
    ap (λ (x : Mapping). x.found) v ∙ f,
    ap (λ (x : Mapping). x.stoat_id) v ∙ i,
    ap creates e ∙ c,
  )

  pub Stable-same : (w w' : World) → w'.store ≡ w.store → w'.trace ≡ w.trace → Stable w → Stable w'
  Stable-same w w' h e (f, i, c) = Stable-viewed (view t k w.store) w w' (ap (view t k) h) e f i c

  Stable-write_pending :
      (env : Env) (w : World) (state : Json) → Stable w → Stable (write_pending env t k state w).1
  Stable-write_pending env w state (f, i, c) =
      elim (Result-cases (write_pending env t k state w).0) [
        | inl (x, e) ↦
            Stable-viewed (mark_pending t state (view t k w.store)) w
              (write_pending env t k state w).1
              (Outcome-ok _ _ _ x e (write_pending-Outcome env w t k state) t k
                ∙ rw (same_key_refl t k) refl)
              (trace-write_pending env w t k state) refl i c
        | inr (x, e) ↦
            Stable-same w (write_pending env t k state w).1
              (Outcome-err _ _ _ x e (write_pending-Outcome env w t k state))
              (trace-write_pending env w t k state) (f, i, c)
      ]

  Stable-confirm : (env : Env) (w : World) → Stable w → Stable (confirm env t k s w).1
  Stable-confirm env w (f, i, c) = elim (Result-cases (confirm env t k s w).0) [
    | inl (x, e) ↦
        Stable-viewed (record (view t k w.store) { stoat_id = s; status = active_status t s }) w
          (confirm env t k s w).1
          (Outcome-ok _ _ _ x e (confirm-Outcome env w t k s) t k ∙ rw (same_key_refl t k, f) refl)
          (trace-confirm env w t k s) f refl c
    | inr (x, e) ↦
        Stable-same w (confirm env t k s w).1 (Outcome-err _ _ _ x e (confirm-Outcome env w t k s))
          (trace-confirm env w t k s) (f, i, c)
  ]

Stable-confirmed :
    (t : EntityType) (k s : String) (n : ℕ) (env : Env) (id : String) (w : World)
    → Stable t k s n w
    → id ≡ s
    → Stable t k s n ((confirm env t k id >> pure true) w).1
Stable-confirmed t k s n env id w h e =
    subst (λ x. Stable t k s n ((confirm env t k x >> pure true) w).1) (sym e)
      (bind-Preserves (Stable t k s n) (confirm env t k s) (λ _. pure true)
        (Stable-confirm t k s n env) (λ _ _ g. g) w h)

module _ (s : String) (n : ℕ) (env : Env) (op : Op) where
  abbrev pub Kept : World → Type 0
  Kept = Stable op.entity op.discord_id s n

  -- What is left of a push after the remote call.
  abbrev finish : String → Exec World Bool
  finish id = confirm env op.entity op.discord_id id >> pure true

  finish-Kept :
      (w : World)
      → Returns op.entity op.discord_id s n (run_remote env op w)
      → Kept ((run_remote env op >>= finish) w).1
  finish-Kept w h =
      bind-cases (λ r. Kept r.1) (run_remote env op) finish w
        (λ id e.
          let (v, i) =
            subst (λ r. Returns op.entity op.discord_id s n (r, (run_remote env op w).1)) e h in
          Stable-confirmed op.entity op.discord_id s n env id _ v i)
        (λ x e. subst (λ r. Returns op.entity op.discord_id s n (r, (run_remote env op w).1)) e h)

  -- The push of an op whose Apply keeps the identity keeps it too.
  pub push-Stable :
      ((w : World) → Kept w → Returns op.entity op.discord_id s n (op.apply w))
      → (w : World) → Kept w
      → Kept (push env op w).1
  unfolding push
  push-Stable h w g =
      bind-Preserves Kept (write_pending env op.entity op.discord_id op.canonical_state) _
        (λ v. Stable-write_pending op.entity op.discord_id s n env v op.canonical_state)
        (λ _ v k. finish-Kept v (run_remote-Returns op.entity op.discord_id s n env op h v k)) w g
