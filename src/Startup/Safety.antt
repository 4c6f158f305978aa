-- ===== src/Startup/Safety.antt =====
-- The startup pass of cmd/stoatcord/main.go and the bot's elevation role.
use luars_stoatcord.Prelude.{
  String, Bool, ◌≡◌, subst, ◌||◌, ◌==◌, some, Option, List, [], ◌∷◌, All, not, contains, any, ◌++◌,
}
use luars_stoatcord.Canonical.Types.{Role}
use luars_stoatcord.Canonical.Emit.{role_to_stoat}
use luars_stoatcord.Canonical.State.{role_json}
use luars_stoatcord.Canonical.Result.{Result, ok, err}
use luars_stoatcord.World.{Env, World, role, edit_member}
use luars_stoatcord.World.Exec.{Exec, pure, Preserves, bind-Preserves, bind-cases, ◌>>=◌}
use luars_stoatcord.Store.{get, write_pending, confirm}
use luars_stoatcord.Store.Quiet.{trace-get, trace-write_pending, trace-confirm}
use luars_stoatcord.Stoat.Client.{
  Client, ElevationRole, call, set_admin_role_ids, fetch_self_role_ids, fetch_self,
  fetch_member_roles,
}
use luars_stoatcord.Stoat.Role
use luars_stoatcord.Stoat.Server.{add_self_to_role}
use luars_stoatcord.Stoat.Guard.{Spares, create-AllSpared}
use luars_stoatcord.Reconcile.Bind.{bind, is_active}
use luars_stoatcord.Reconcile.Live.{reconcile_live}
use luars_stoatcord.Reconcile.Live.Quiet.{reconcile_live-TraceIs}
use luars_stoatcord.Wiring.{
  resolve_admin_roles, mirror_admin_role, mirror_admin_roles, admin_roles, target_role, id_of_role,
  resolve_among,
}
use luars_stoatcord.Config.{Config}
use luars_stoatcord.Discord.Translation.{DiscordGuild}
use luars_stoatcord.Discord.Translation.Sidebar.{structure_from_state}
use luars_stoatcord.Discord.Handlers.{Setup, converge_all}
use luars_stoatcord.Startup.{reconcile_startup, reconcile_params, setup_with}
use luars_stoatcord.Engine.Op.{Op}
use luars_stoatcord.Engine.Scheduling.{Move, run, new_scheduler}
use luars_stoatcord.Discord.Handlers.Mirroring.{FromHandlers, mirror-Spared}
use luars_stoatcord.Startup.Spared.{Spared, quiet-Spared, branch-Preserves, bind-Spared}

-- What holds of a result, if it is one.
abbrev Holds : {A : Type 0} → (A → Type 0) → Result A → Type 0
Holds Q (ok a) = Q a
Holds Q (err _) = Unit

abbrev Returns : {A : Type 0} → (A → Type 0) → Exec World A → Type 0
Returns Q m = (w : World) → Holds Q (m w).0

bind-Returns :
    {A B : Type 0} (Q : B → Type 0) (m : Exec World A) (f : A → Exec World B)
    → ((a : A) → Returns Q (f a))
    → Returns Q (m >>= f)
bind-Returns Q m f hf w = bind-cases (λ r. Holds Q r.0) m f w (λ a _. hf a (m w).1) (λ _ _. tt)

bind_known-Returns :
    {A B : Type 0} (Q : A → Type 0) (K : B → Type 0) (m : Exec World A) (f : A → Exec World B)
    → Returns Q m
    → ((a : A) → Q a → Returns K (f a))
    → Returns K (m >>= f)
bind_known-Returns Q K m f hq hf w =
    bind-cases (λ r. Holds K r.0) m f w (λ a p. hf a (subst (Holds Q) p (hq w)) (m w).1) (λ _ _. tt)

bind-both :
    {A B : Type 0} (P : World → Type 0) (Q : A → Type 0) (m : Exec World A) (f : A → Exec World B)
    → Preserves P m
    → Returns Q m
    → ((a : A) → Q a → Preserves P (f a))
    → Preserves P (m >>= f)
bind-both P Q m f hm hq hf w h =
    bind-cases (λ r. P r.1) m f w (λ a p. hf a (subst (Holds Q) p (hq w)) (m w).1 (hm w h))
      (λ _ _. hm w h)

module _ (env : Env) (c : Client) (e : ElevationRole) (resolved : c.elevation ≡ some e)
    (server : String) where
  abbrev Keeps : {A : Type 0} → Exec World A → Type 0
  Keeps m = Preserves (Spared e.id) m

  mirror_admin_role-Spared : (r : Role) → Keeps (mirror_admin_role env c server r)
  unfolding mirror_admin_role
  mirror_admin_role-Spared r =
      bind-Preserves (Spared e.id) (get env role r.id) _ (λ w h. rw (trace-get env w role r.id) h)
        (λ m.
          branch-Preserves (Spared e.id) (not (is_active m) || m.stoat_id == "") _ _
            (bind-Preserves (Spared e.id) (Role.create env c server (role_to_stoat r)) _
              (create-AllSpared env c e resolved server (role_to_stoat r))
              (λ id.
                bind-Preserves (Spared e.id) (write_pending env role r.id (role_json r)) _
                  (λ w h. rw (trace-write_pending env w role r.id (role_json r)) h)
                  (λ _.
                    bind-Preserves (Spared e.id) (confirm env role r.id id) (λ _. pure id)
                      (λ w h. rw (trace-confirm env w role r.id id) h) (λ _ w h. h))))
            (λ w h. h))

  mirror_admin_roles-Spared : (rs : List Role) → Keeps (mirror_admin_roles env c server rs)
  unfolding mirror_admin_roles
  mirror_admin_roles-Spared [] = λ w h. h
  mirror_admin_roles-Spared (r ∷ rs) =
      bind-Preserves (Spared e.id) (mirror_admin_role env c server r) _ (mirror_admin_role-Spared r)
        (λ id.
          bind-Preserves (Spared e.id) (mirror_admin_roles env c server rs) (λ ids. pure (id ∷ ids))
            (mirror_admin_roles-Spared rs) (λ _ w h. h))

  self-Spared : Keeps (fetch_self_role_ids env server)
  unfolding fetch_self_role_ids fetch_self fetch_member_roles
  self-Spared = bind-Preserves (Spared e.id) (fetch_self env) _ (λ w h. h) (λ _ w h. h)

  add_self-Spared : (id : String) → Keeps (add_self_to_role env server id)
  unfolding add_self_to_role fetch_self fetch_member_roles call
  add_self-Spared id =
      bind-Preserves (Spared e.id) (fetch_self env) _ (λ w h. h)
        (λ user.
          bind-Preserves (Spared e.id) (fetch_member_roles env server user) _ (λ w h. h)
            (λ roles.
              branch-Preserves (Spared e.id) (contains id roles) _ _ (λ w h. h)
                (bind-Preserves (Spared e.id)
                  (call env (edit_member server user (roles ++ id ∷ []))) (λ _. pure tt)
                  (λ w h. (tt, h)) (λ _ w h. h))))

  -- The client that the startup goes on with has the same elevation role.
  abbrev Elevated : List String × Client → Type 0
  Elevated r = r.1.elevation ≡ some e

  resolve_among-Returns : (rs : List Role) → Returns Elevated (resolve_among env c server rs)
  unfolding set_admin_role_ids
  resolve_among-Returns [] = λ w. tt
  resolve_among-Returns (r ∷ rs) =
      bind-Returns Elevated (mirror_admin_roles env c server (r ∷ rs)) _ (λ ids.
        bind-Returns Elevated (fetch_self_role_ids env server) _ (λ held.
          bind-Returns Elevated _ (λ _. pure (ids, set_admin_role_ids ids c)) (λ _ w. resolved)))

  resolve_among-Spared : (rs : List Role) → Keeps (resolve_among env c server rs)
  resolve_among-Spared [] = λ w h. h
  resolve_among-Spared (r ∷ rs) =
      bind-Preserves (Spared e.id) (mirror_admin_roles env c server (r ∷ rs)) _
        (mirror_admin_roles-Spared (r ∷ rs))
        (λ ids. bind-Preserves (Spared e.id) (fetch_self_role_ids env server) _ self-Spared (λ held.
          bind-Preserves (Spared e.id) _ (λ _. pure (ids, set_admin_role_ids ids c))
            (branch-Preserves (Spared e.id) (any (λ id. contains id held) ids) _ _ (λ w h. h)
              (add_self-Spared (id_of_role (target_role r rs).id (r ∷ rs) ids)))
            (λ _ w h. h)))

reconcile_startup-safe :
    (x : Setup) (cfg : Config) (state : Option DiscordGuild) (c1 : Client) (e : ElevationRole)
    → c1.elevation ≡ some e
    → Preserves (Spared e.id) (reconcile_startup x cfg state c1)
unfolding reconcile_startup resolve_admin_roles
reconcile_startup-safe x cfg state c1 e resolved =
    let roles = admin_roles (structure_from_state x.constants x.sorter state).2 in
    bind-both (Spared e.id) (Elevated x.env c1 e resolved cfg.stoat_server_id)
      (resolve_among x.env c1 cfg.stoat_server_id roles) _
      (resolve_among-Spared x.env c1 e resolved cfg.stoat_server_id roles)
      (resolve_among-Returns x.env c1 e resolved cfg.stoat_server_id roles)
      (λ r granted.
        let p = reconcile_params x cfg state r.1 in
        bind-Preserves (Spared e.id) (bind x.env p) _ (bind-Spared x.env p e granted) (λ _.
          bind-Preserves (Spared e.id) (reconcile_live x.env p)
            (λ _. pure (r.1, converge_all (setup_with x cfg r.1) state))
            (quiet-Spared e.id (reconcile_live x.env p) (λ es. reconcile_live-TraceIs x.env es p))
            (λ _ w h. h)))

reconcile_startup-Returns :
    (x : Setup) (cfg : Config) (state : Option DiscordGuild) (c1 : Client) (e : ElevationRole)
    → c1.elevation ≡ some e
    → Returns (λ r. r.0.elevation ≡ some e) (reconcile_startup x cfg state c1)
unfolding reconcile_startup resolve_admin_roles
reconcile_startup-Returns x cfg state c1 e resolved =
    let roles = admin_roles (structure_from_state x.constants x.sorter state).2 in
    bind_known-Returns (Elevated x.env c1 e resolved cfg.stoat_server_id)
      (λ r. r.0.elevation ≡ some e) (resolve_among x.env c1 cfg.stoat_server_id roles) _
      (resolve_among-Returns x.env c1 e resolved cfg.stoat_server_id roles)
      (λ r granted.
        let p = reconcile_params x cfg state r.1 in
        bind-Returns (λ q. q.0.elevation ≡ some e) (bind x.env p) _
          (λ _.
            bind-Returns (λ q. q.0.elevation ≡ some e) (reconcile_live x.env p)
              (λ _. pure (r.1, converge_all (setup_with x cfg r.1) state)) (λ _ w. granted)))

-- The client that the ops are built with: the resulting one.
abbrev pub client_or : Client → Result (Client × List Op) → Client
client_or c (ok (granted, ops)) = granted
client_or c (err _) = c

client_or-elevation :
    (c : Client) (e : ElevationRole) (r : Result (Client × List Op))
    → c.elevation ≡ some e
    → Holds (λ q. q.0.elevation ≡ some e) r
    → (client_or c r).elevation ≡ some e
client_or-elevation c e (ok q) h k = k
client_or-elevation c e (err _) h k = h

-- If the bot's elevation role is resolved and no request so far edits, deletes or sets the
-- permissions of that role or edits a role to a rank below 1: then this still holds after the admin
-- roles are resolved and the two reconcile passes have run, however this ends and whatever the server
-- answers; and it holds after any schedule of the engine from there in which every op that is
-- submitted comes from ConvergeAll or from a handler with the resulting client.
pub reconcile_startup-Spared :
    (x : Setup) (cfg : Config) (state : Option DiscordGuild) (c1 : Client) (e : ElevationRole)
    → c1.elevation ≡ some e
    → (w : World) → All (Spares e.id) w.trace
    → (dry_run : Bool) (ms : List Move)
    → All (FromHandlers (setup_with x cfg (client_or c1 (reconcile_startup x cfg state c1 w).0))) ms
    → All (Spares e.id) (reconcile_startup x cfg state c1 w).1.trace
      × All
          (Spares e.id)
          (run x.env dry_run ms (new_scheduler (reconcile_startup x cfg state c1 w).1)).world.trace
reconcile_startup-Spared x cfg state c1 e resolved w h dry_run ms from =
    let (r, w') = reconcile_startup x cfg state c1 w in
    let after = reconcile_startup-safe x cfg state c1 e resolved w h in
    (
      after,
      mirror-Spared (setup_with x cfg (client_or c1 r)) dry_run e
          (client_or-elevation c1 e r resolved
            (reconcile_startup-Returns x cfg state c1 e resolved w))
          ms w' from after,
    )
