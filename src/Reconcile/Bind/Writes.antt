-- ===== src/Reconcile/Bind/Writes.antt =====
-- What the second loop of bindEntities (internal/reconcile/reconcile.go) writes to the mapping tables.
use luars_stoatcord.Prelude.{
  String, ◌≡◌, refl, sym, ap, subst, fun_ext, ◌∙◌, List, [], ◌∷◌, if◌then◌else◌,
}
use luars_stoatcord.Canonical.Result.{Result, ok, err}
use luars_stoatcord.World.{EntityType, Env, World, Store}
use luars_stoatcord.World.Exec.{bind-cases}
use luars_stoatcord.Store.{Mapping, write_pending, confirm}
use luars_stoatcord.Store.Laws.{
  Outcome-ok, write_pending-Outcome, confirm-Outcome, active_mapping, active-after-pending,
}
use luars_stoatcord.Store.View.{view, same_key}
use luars_stoatcord.Reconcile.Bind.{
  Identity, Match, no_match, ambiguous, matched, find_match, bind_one, bind_items,
  empty_canonical_state,
}
use luars_stoatcord.Reconcile.Bind.Matching.{Pair, plan, planned, remaining}

abbrev pub Views : Type 0
Views = EntityType → String → Mapping

abbrev pub views : Store → Views
views s t k = view t k s

-- The views with each pair's Discord entity mapped to its Stoat entity, in order.
abbrev pub rebound : EntityType → List Pair → Views → Views
rebound t [] f = f
rebound t ((d, s) ∷ ps) f =
    rebound t ps λ t' k'.
      if same_key t d.id t' k' then active_mapping t empty_canonical_state s.id else f t' k'

rebound-ext :
    (t : EntityType) (ps : List Pair) (f g : Views)
    → ((t' : EntityType) (k' : String) → f t' k' ≡ g t' k')
    → (t' : EntityType) (k' : String) → rebound t ps f t' k' ≡ rebound t ps g t' k'
rebound-ext t ps f g h t' k' =
    ap (λ (x : Views). rebound t ps x t' k') (fun_ext λ a. fun_ext λ b. h a b)

rebound-planned :
    (t : EntityType) (d : Identity) (m : Match) (r : List Pair × List Identity) (f : Views)
    → rebound t (planned d m r).0 f ≡ rebound t r.0 (rebound t (planned d m ([], [])).0 f)
rebound-planned t d no_match r f = refl
rebound-planned t d ambiguous r f = refl
rebound-planned t d (matched s) r f = refl

left-planned : (d : Identity) (m : Match) (r : List Pair × List Identity) → (planned d m r).1 ≡ r.1
left-planned d no_match r = refl
left-planned d ambiguous r = refl
left-planned d (matched s) r = refl

-- A run of the loop that succeeds has bound its plan, and leaves over what the plan does.
abbrev Binds :
    EntityType → List Pair × List Identity → Store → Result (List Identity) × World → Type 0
Binds t (ps, left) s (ok xs, w) =
    (xs ≡ left)
    × ((t' : EntityType) (k' : String) → view t' k' w.store ≡ rebound t ps (views s) t' k')
Binds t r s (err _, w) = Unit

module _ (env : Env) (t : EntityType) where
  -- The binding of one entity.
  abbrev BindsOne :
      Identity → List Identity → Match → Store → Result (List Identity) × World → Type 0
  BindsOne d xs m s (ok left, w) =
      (left ≡ remaining d m xs)
      × ((t' : EntityType) (k' : String)
          → view t' k' w.store ≡ rebound t (planned d m ([], [])).0 (views s) t' k')
  BindsOne d xs m s (err _, w) = Unit

  BindsOne-bind_one :
      (d : Identity) (xs : List Identity) (m : Match) (w : World)
      → BindsOne d xs m w.store (bind_one env t d xs m w)
  BindsOne-bind_one d xs no_match w = (refl, λ _ _. refl)
  BindsOne-bind_one d xs ambiguous w = (refl, λ _ _. refl)
  BindsOne-bind_one d xs (matched s) w =
      bind-cases (BindsOne d xs (matched s) w.store)
        (write_pending env t d.id empty_canonical_state) _ w
        (λ x e.
          bind-cases (BindsOne d xs (matched s) w.store) (confirm env t d.id s.id) _ (pended d w)
            (λ y f. (
              refl,
              active-after-pending t d.id empty_canonical_state s.id w.store (pended d w).store _
                  (Outcome-ok _ _ _ x e (write_pending-Outcome env w t d.id empty_canonical_state))
                  (Outcome-ok _ _ _ y f (confirm-Outcome env (pended d w) t d.id s.id)),
            ))
            (λ _ _. tt))
        (λ _ _. tt)
    where
      pended : Identity → World → World
      pended d w = (write_pending env t d.id empty_canonical_state w).1

  -- The binding of one entity, and then of the rest.
  Binds-after :
      (d : Identity) (m : Match) (r : List Pair × List Identity) (s : Store) (w : World)
      (q : Result (List Identity) × World)
      → ((t' : EntityType) (k' : String)
          → view t' k' w.store ≡ rebound t (planned d m ([], [])).0 (views s) t' k')
      → Binds t r w.store q
      → Binds t (planned d m r) s q
  Binds-after d m r s w (err x, v) h b = tt
  Binds-after d m r s w (ok xs, v) h (p, b) = (
    p ∙ sym (left-planned d m r),
    λ t' k'.
        b t' k'
        ∙ rebound-ext t r.0 (views w.store) _ h t' k'
        ∙ sym (ap (λ (x : Views). x t' k') (rebound-planned t d m r (views s))),
  )

  BindsOne-ok :
      (d : Identity) (xs left : List Identity) (m : Match) (s : Store)
      (q : Result (List Identity) × World)
      → q.0 ≡ ok left
      → BindsOne d xs m s q
      → BindsOne d xs m s (ok left, q.1)
  BindsOne-ok d xs left m s q e b = subst (λ r. BindsOne d xs m s (r, q.1)) e b

  Binds-bind_items :
      (ds xs : List Identity) (w : World) → Binds t (plan xs ds) w.store (bind_items env t xs ds w)
  unfolding bind_items plan
  Binds-bind_items [] xs w = (refl, λ _ _. refl)
  Binds-bind_items (d ∷ ds) xs w =
      bind-cases (Binds t (plan xs (d ∷ ds)) w.store)
        (bind_one env t d xs (find_match d no_match xs)) (λ left. bind_items env t left ds) w
        (λ left e.
          let m = find_match d no_match xs in
          let w' = (bind_one env t d xs m w).1 in
          let (p, h) =
            BindsOne-ok d xs left m w.store (bind_one env t d xs m w) e
              (BindsOne-bind_one d xs m w) in
          Binds-after d m (plan (remaining d m xs) ds) w.store w' (bind_items env t left ds w') h (
            subst (λ ys. Binds t (plan ys ds) w'.store (bind_items env t left ds w')) p
              (Binds-bind_items ds left w')))
        (λ _ _. tt)

  -- A run of the second loop that succeeds leaves over what the plan does, and has bound just the
  -- plan's pairs: each Discord entity of a pair is mapped, active, to the Stoat entity of the pair,
  -- with the empty state, and every other mapping is as before.
  pub bind_items_lem :
      (ds xs left : List Identity) (w : World)
      → (bind_items env t xs ds w).0 ≡ ok left
      → (left ≡ (plan xs ds).1)
        × ((t' : EntityType) (k' : String)
            → view t' k' (bind_items env t xs ds w).1.store
              ≡ rebound t (plan xs ds).0 (views w.store) t' k')
  bind_items_lem ds xs left w e =
      subst (λ r. Binds t (plan xs ds) w.store (r, (bind_items env t xs ds w).1)) e
        (Binds-bind_items ds xs w)
