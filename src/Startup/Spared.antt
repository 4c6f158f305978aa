-- ===== src/Startup/Spared.antt =====
-- bind (internal/reconcile/reconcile.go) and the bot's elevation role.
use luars_stoatcord.Prelude.{
  String, ◌≡◌, refl, Bool, true, false, ◌&&◌, ◌||◌, ◌==◌, some, List, [], ◌∷◌, All, if◌then◌else◌,
  map, not, select, contains,
}
use luars_stoatcord.World.{
  EntityType, server, channel, role, category, emoji, message, unknown, Env, World, Event,
  CategoryInfo,
}
use luars_stoatcord.World.Exec.{Exec, pure, Preserves, bind-Preserves}
use luars_stoatcord.Store.{get}
use luars_stoatcord.Store.Quiet.{trace-get}
use luars_stoatcord.Stoat.Client.{
  ElevationRole, call, fetch_server, fetch_channel, elevation_role_id,
}
use luars_stoatcord.Stoat.Channel
use luars_stoatcord.Stoat.Guard.{Spares, delete-AllSpared}
use luars_stoatcord.Reconcile.Bind.{
  Params, Identity, reap_one, reap_items, is_category, bind_items, sort_items, bind_entities,
  fetch_channels, fetched, check_elevation, verify_elevation_role_unmapped, is_active, bind,
  category_identity, stoat_category_identity, discord_channel_identity, role_identity,
}
use luars_stoatcord.Reconcile.Bind.Quiet.{TraceIs, TraceIs-sort_items, TraceIs-bind_items}

-- All requests so far spare the role of this id.
abbrev pub Spared : String → World → Type 0
Spared protected w = All (Spares protected) w.trace

-- What leaves the trace alone leaves the role alone.
pub quiet-Spared :
    {A : Type 0} (protected : String) (m : Exec World A)
    → ((es : List Event) → Preserves (TraceIs es) m)
    → Preserves (Spared protected) m
quiet-Spared protected m quiet w h = rw (quiet w.trace w refl) h

pub branch-Preserves :
    {A : Type 0} (P : World → Type 0) (b : Bool) (m n : Exec World A)
    → Preserves P m
    → Preserves P n
    → Preserves P (if b then m else n)
branch-Preserves P true m n hm hn = hm
branch-Preserves P false m n hm hn = hn

module _ (env : Env) (p : Params) (e : ElevationRole) (resolved : p.client.elevation ≡ some e) where
  abbrev Keeps : {A : Type 0} → Exec World A → Type 0
  Keeps m = Preserves (Spared e.id) m

  reap_one-Spared : (t : EntityType) (id : String) → Keeps (reap_one env t p id)
  unfolding Channel.delete call
  reap_one-Spared channel id w h = (tt, h)
  reap_one-Spared role id w h = delete-AllSpared env p.client e resolved p.server_id id w h
  reap_one-Spared server id w h = h
  reap_one-Spared category id w h = h
  reap_one-Spared emoji id w h = h
  reap_one-Spared message id w h = h
  reap_one-Spared (unknown _) id w h = h

  reap_items-Spared :
      (t : EntityType) (protected : String) (xs : List Identity)
      → Keeps (reap_items env t p protected xs)
  unfolding reap_items
  reap_items-Spared t protected [] = λ w h. h
  reap_items-Spared t protected (s ∷ rest) =
      bind-Preserves (Spared e.id) _ _
        (branch-Preserves (Spared e.id) (s.id == protected || (p.dry_run || is_category t))
          (pure tt) (reap_one env t p s.id) (λ w h. h) (reap_one-Spared t s.id))
        (λ _. reap_items-Spared t protected rest)

  bind_entities-Spared :
      (t : EntityType) (ds ss : List Identity) (exist : List String) (protected : String)
      → Keeps (bind_entities env t p ds ss exist protected)
  unfolding bind_entities
  bind_entities-Spared t ds ss exist protected =
      bind-Preserves (Spared e.id) (sort_items env t exist ds) _
        (quiet-Spared e.id (sort_items env t exist ds) (λ es. TraceIs-sort_items env t es exist ds))
        (λ sorted.
          let available = select (λ s. not (contains s.id sorted.0)) ss in
          bind-Preserves (Spared e.id) (bind_items env t available sorted.1) _
            (quiet-Spared e.id (bind_items env t available sorted.1)
              (λ es. TraceIs-bind_items env t es sorted.1 available))
            (λ foreign. reap_items-Spared t protected foreign))

  fetch_channels-Spared : (ids : List String) → Keeps (fetch_channels env ids)
  unfolding fetch_channels fetch_channel
  fetch_channels-Spared [] w h = h
  fetch_channels-Spared (id ∷ ids) w h =
      bind-Preserves (Spared e.id) (fetch_channels env ids)
        (λ rest. pure (fetched (fetch_channel env id w).0 rest)) (fetch_channels-Spared ids)
        (λ _ w' h'. h') (fetch_channel env id w).1 h

  verify-Spared :
      (protected : String) (ds : List Identity)
      → Keeps (verify_elevation_role_unmapped env protected ds)
  unfolding verify_elevation_role_unmapped
  verify-Spared protected [] = λ w h. h
  verify-Spared protected (d ∷ rest) =
      bind-Preserves (Spared e.id) (get env role d.id) _ (λ w h. rw (trace-get env w role d.id) h)
        (λ m.
          branch-Preserves (Spared e.id) (is_active m && m.stoat_id == protected) _ _ (λ w h. h)
            (verify-Spared protected rest))

  check-Spared :
      (protected : String) (ds : List Identity) → Keeps (check_elevation env protected ds)
  check-Spared protected ds =
      branch-Preserves (Spared e.id) (protected == "") _ _ (λ w h. h) (verify-Spared protected ds)

  pub bind-Spared : Keeps (bind env p)
  unfolding bind fetch_server
  bind-Spared =
      let roles = map role_identity p.roles in
      bind-Preserves (Spared e.id) (fetch_server env p.server_id) _ (λ w h. h)
        (λ info.
          bind-Preserves (Spared e.id)
            (bind_entities env category p (map category_identity p.categories)
              (map stoat_category_identity info.categories)
              (map (λ (c : CategoryInfo). c.id) info.categories) "")
            _ (bind_entities-Spared category _ _ _ "")
            (λ _.
              bind-Preserves (Spared e.id) (fetch_channels env info.channel_ids) _
                (fetch_channels-Spared info.channel_ids)
                (λ chs.
                  bind-Preserves (Spared e.id)
                    (bind_entities env channel p (map discord_channel_identity p.channels) chs
                      info.channel_ids "")
                    _ (bind_entities-Spared channel _ chs _ "")
                    (λ _.
                      bind-Preserves (Spared e.id)
                        (check_elevation env (elevation_role_id p.client) roles) _
                        (check-Spared _ roles) (λ _. bind_entities-Spared role roles _ _ _)))))
