-- ===== src/Reconcile/Live/Quiet.antt =====
-- The live pass (internal/reconcile/live.go) and the trace.
use luars_stoatcord.Prelude.{
  String, ◌∙◌, Bool, true, false, Option, none, some, List, [], ◌∷◌, if◌then◌else◌,
}
use luars_stoatcord.Prelude.Maps.{Map}
use luars_stoatcord.Canonical.Result.{Result, ok, err}
use luars_stoatcord.Canonical.Json.{Json}
use luars_stoatcord.Canonical.Types.{Role, Channel, Category}
use luars_stoatcord.World.{
  EntityType, channel, role, category, Env, World, Event, RoleInfo, CategoryInfo, ChannelInfo,
}
use luars_stoatcord.World.Exec.{Exec, pure, Preserves, bind-Preserves}
use luars_stoatcord.Store.{get, write_pending}
use luars_stoatcord.Store.Quiet.{trace-get, trace-write_pending, trace-confirm}
use luars_stoatcord.Stoat.Client.{fetch_server, fetch_channel}
use luars_stoatcord.Reconcile.Bind.{Params, is_active, empty_canonical_state}
use luars_stoatcord.Reconcile.Bind.Quiet.{TraceIs}
use luars_stoatcord.Reconcile.Live.{
  with_known, find_role, find_category, reverse_mapping, reversed, repair_mapping, repair_fetched,
  reconcile_role_live, reconcile_channel_live, reconcile_category_live, each, reconcile_live,
  role_ids, channel_ids,
}

module _ (env : Env) (es : List Event) where
  abbrev Quietly : {A : Type 0} → Exec World A → Type 0
  Quietly m = Preserves (TraceIs es) m

  get-TraceIs : (t : EntityType) (k : String) → Quietly (get env t k)
  get-TraceIs t k w h = trace-get env w t k ∙ h

  branch-TraceIs :
      (b : Bool) {A : Type 0} (m : Exec World A) (a : A)
      → Quietly m
      → Quietly (if b then m else pure a)
  branch-TraceIs true m a hm = hm
  branch-TraceIs false m a hm = λ w h. h

  known-TraceIs :
      {A : Type 0} (o : Option A) (f : A → Exec World (Unit {0}))
      → ((a : A) → Quietly (f a))
      → Quietly (with_known o f (pure tt))
  known-TraceIs none f hf = λ w h. h
  known-TraceIs (some a) f hf = hf a

  reverse_mapping-TraceIs :
      (t : EntityType) (ids : List String) (m : Map String) → Quietly (reverse_mapping env t ids m)
  unfolding reverse_mapping
  reverse_mapping-TraceIs t [] m = λ w h. h
  reverse_mapping-TraceIs t (id ∷ ids) m =
      bind-Preserves (TraceIs es) (get env t id) _ (get-TraceIs t id)
        (λ found. reverse_mapping-TraceIs t ids (reversed found id m))

  repair_mapping-TraceIs :
      (t : EntityType) (k id : String) (b : Bool) (j : Json)
      → Quietly (repair_mapping env t k id b j)
  unfolding repair_mapping
  repair_mapping-TraceIs t k id b j =
      let state = if b then j else empty_canonical_state in
      bind-Preserves (TraceIs es) (write_pending env t k state) _
        (λ w h. trace-write_pending env w t k state ∙ h) (λ _ w h. trace-confirm env w t k id ∙ h)

  role-TraceIs : (live : List RoleInfo) (r : Role) → Quietly (reconcile_role_live env live r)
  unfolding reconcile_role_live
  role-TraceIs live r =
      bind-Preserves (TraceIs es) (get env role r.id) _ (get-TraceIs role r.id) (λ m.
        branch-TraceIs (is_active m) _ tt (
          known-TraceIs (find_role live m.stoat_id) _
            (λ l. repair_mapping-TraceIs role r.id m.stoat_id _ _)))

  category-TraceIs :
      (live : List CategoryInfo) (chs : Map String) (c : Category)
      → Quietly (reconcile_category_live env live chs c)
  unfolding reconcile_category_live
  category-TraceIs live chs c =
      bind-Preserves (TraceIs es) (get env category c.id) _ (get-TraceIs category c.id) (λ m.
        branch-TraceIs (is_active m) _ tt (
          known-TraceIs (find_category live 0 m.stoat_id) _
            (λ l. repair_mapping-TraceIs category c.id m.stoat_id _ _)))

  fetched-TraceIs :
      (p : Params) (roles : Map String) (ch : Channel) (id : String) (r : Result ChannelInfo)
      → Quietly (repair_fetched env p roles ch id r)
  fetched-TraceIs p roles ch id (err _) = λ w h. h
  fetched-TraceIs p roles ch id (ok live) = repair_mapping-TraceIs channel ch.id id _ _

  channel-TraceIs :
      (p : Params) (roles : Map String) (ch : Channel)
      → Quietly (reconcile_channel_live env p roles ch)
  unfolding reconcile_channel_live fetch_channel
  channel-TraceIs p roles ch =
      bind-Preserves (TraceIs es) (get env channel ch.id) _ (get-TraceIs channel ch.id)
        (λ m. branch-TraceIs (is_active m) _ tt (λ w. fetched-TraceIs p roles ch m.stoat_id _ _))

  each-TraceIs :
      {A : Type 0} (f : A → Exec World (Unit {0})) (xs : List A)
      → ((a : A) → Quietly (f a))
      → Quietly (each env f xs)
  unfolding each
  each-TraceIs f [] hf = λ w h. h
  each-TraceIs f (x ∷ xs) hf =
      bind-Preserves (TraceIs es) (f x) _ (hf x) (λ _. each-TraceIs f xs hf)

  -- The live pass asks the server for nothing but what it reads.
  pub reconcile_live-TraceIs : (p : Params) → Quietly (reconcile_live env p)
  unfolding reconcile_live fetch_server
  reconcile_live-TraceIs p =
      bind-Preserves (TraceIs es) (fetch_server env p.server_id) _ (λ w h. h)
        (λ info.
          bind-Preserves (TraceIs es) (reverse_mapping env role (role_ids p.roles) []) _
            (reverse_mapping-TraceIs role _ [])
            (λ roles.
              bind-Preserves (TraceIs es) (reverse_mapping env channel (channel_ids p.channels) [])
                _ (reverse_mapping-TraceIs channel _ [])
                (λ chs.
                  bind-Preserves (TraceIs es)
                    (each env (reconcile_role_live env info.roles) p.roles) _
                    (each-TraceIs _ p.roles (role-TraceIs info.roles))
                    (λ _.
                      bind-Preserves (TraceIs es)
                        (each env (reconcile_channel_live env p roles) p.channels) _
                        (each-TraceIs _ p.channels (channel-TraceIs p roles))
                        (λ _.
                          each-TraceIs _ p.categories (category-TraceIs info.categories chs))))))
