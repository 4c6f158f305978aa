-- ===== src/Reconcile/Bind/Reaping.antt =====
-- The third loop of bindEntities (internal/reconcile/reconcile.go): what it deletes, and its dry
-- run.
use luars_stoatcord.Prelude.{
  String, ◌≡◌, refl, true, false, ◌||◌, ◌==◌, eq_refl, List, [], ◌∷◌, arith, map, contains,
  Bool-cases, inl, inr, All, if◌then◌else◌, select, not,
}
use luars_stoatcord.World.{
  EntityType, channel, role, Env, World, Event, requested, delete_role, delete_channel,
}
use luars_stoatcord.World.Exec.{pure, Preserves, bind-Preserves}
use luars_stoatcord.Stoat.Client.{call, is_elevation_role}
use luars_stoatcord.Stoat.Role
use luars_stoatcord.Stoat.Channel
use luars_stoatcord.Reconcile.Bind.{
  Params, Identity, reap_one, reap_items, bind_entities, bind_items, sort_items, is_category,
}
use luars_stoatcord.Reconcile.Bind.Quiet.{TraceIs, TraceIs-bind_items, TraceIs-sort_items}

-- Every role or channel that is deleted is one of `ids`, and not the protected one.
abbrev pub Reaped : String → List String → Event → Type 0
Reaped protected ids (requested (delete_role _ id)) =
    (contains id ids ≡ true) × ((id == protected) ≡ false)
Reaped protected ids (requested (delete_channel id)) =
    (contains id ids ≡ true) × ((id == protected) ≡ false)
Reaped protected ids _ = Unit

module _ (env : Env) (p : Params) (protected : String) where
  reap_dry :
      (t : EntityType) (items : List Identity) (es : List Event)
      → p.dry_run ≡ true
      → Preserves (TraceIs es) (reap_items env t p protected items)
  unfolding reap_items
  reap_dry t [] es dry = λ w h. h
  reap_dry t (s ∷ rest) es dry =
      bind-Preserves (TraceIs es)
        (if s.id == protected || (p.dry_run || is_category t)
          then pure tt
          else reap_one env t p s.id)
        _ (λ w h. first w h) (λ _. reap_dry t rest es dry)
    where
      spared : (s.id == protected || (p.dry_run || is_category t)) ≡ true
      spared = ground (arith, dry)

      first :
          (w : World)
          → w.trace ≡ es
          → ((if s.id == protected || (p.dry_run || is_category t)
                then pure tt
                else reap_one env t p s.id)
              w).1.trace
            ≡ es
      first w h = rw spared h

  abbrev AllReaped : List String → World → Type 0
  AllReaped ids w = All (Reaped protected ids) w.trace

  reap_one-AllReaped :
      (t : EntityType) (id : String) (ids : List String)
      → contains id ids ≡ true
      → (id == protected) ≡ false
      → Preserves (AllReaped ids) (reap_one env t p id)
  unfolding Role.delete Channel.delete call
  reap_one-AllReaped channel id ids h e w a = ((h, e), a)
  reap_one-AllReaped role id ids h e w a = elim (Bool-cases (is_elevation_role p.client id)) [
    | inl x ↦ rw x a
    | inr x ↦ rw x ((h, e), a)
  ]
  reap_one-AllReaped t id ids h e w a = a

  reap_items-AllReaped :
      (t : EntityType) (items : List Identity) (ids : List String)
      → All (λ (s : Identity). contains s.id ids ≡ true) items
      → Preserves (AllReaped ids) (reap_items env t p protected items)
  unfolding reap_items
  reap_items-AllReaped t [] ids h w a = a
  reap_items-AllReaped t (s ∷ rest) ids (h, hs) w a =
      bind-Preserves (AllReaped ids)
        (if s.id == protected || (p.dry_run || is_category t)
          then pure tt
          else reap_one env t p s.id)
        _ step (λ _. reap_items-AllReaped t rest ids hs) w a
    where
      step : Preserves (AllReaped ids) (
          if s.id == protected || (p.dry_run || is_category t)
          then pure tt
          else reap_one env t p s.id)
      step v b = elim (Bool-cases (s.id == protected || (p.dry_run || is_category t))) [
        | inl x ↦ rw x b
        | inr x ↦ rw x (reap_one-AllReaped t s.id ids h (ground arith) v b)
      ]

  contains-weaken :
      (x : String) (ids : List String) (items : List Identity)
      → All (λ (s : Identity). contains s.id ids ≡ true) items
      → All (λ (s : Identity). contains s.id (x ∷ ids) ≡ true) items
  contains-weaken x ids [] h = tt
  contains-weaken x ids (s ∷ items) (h, hs) = (ground arith, contains-weaken x ids items hs)

  listed :
      (items : List Identity)
      → All (λ (s : Identity). contains s.id (map (λ (i : Identity). i.id) items) ≡ true) items
  listed [] = tt
  listed (s ∷ items) = (ground (arith, eq_refl s.id), contains-weaken s.id _ items (listed items))

  -- If every role or channel that was deleted so far is one of the list and not the protected
  -- one, then this still holds after the list was reaped.
  pub reap_items-Reaped :
      (t : EntityType) (items : List Identity) (w : World)
      → All (Reaped protected (map (λ (i : Identity). i.id) items)) w.trace
      → All
          (Reaped protected (map (λ (i : Identity). i.id) items))
          (reap_items env t p protected items w).1.trace
  reap_items-Reaped t items = reap_items-AllReaped t items _ (listed items)

  -- bindEntities in a dry run asks Stoat to change nothing.
  bind_entities_dry :
      (t : EntityType) (ds ss : List Identity) (exist : List String) (w : World)
      → p.dry_run ≡ true
      → (bind_entities env t p ds ss exist protected w).1.trace ≡ w.trace
  unfolding bind_entities
  bind_entities_dry t ds ss exist w dry =
      bind-Preserves (TraceIs w.trace) (sort_items env t exist ds) _
        (TraceIs-sort_items env t w.trace exist ds)
        (λ sorted.
          bind-Preserves (TraceIs w.trace)
            (bind_items env t (select (λ s. not (contains s.id sorted.0)) ss) sorted.1) _
            (TraceIs-bind_items env t w.trace sorted.1 _)
            (λ foreign. reap_dry t foreign w.trace dry))
        w refl
