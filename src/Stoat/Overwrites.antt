-- ===== src/Stoat/Overwrites.antt =====
-- In which order applyChannelOverwrites (internal/stoat/channel.go) asks for its overwrites.
use luars_stoatcord.Prelude.{
  ℕ, String, ◌≡◌, ◌≢◌, refl, sym, ap, ◌∙◌, true, none, List, [], ◌∷◌, ◌++◌, ◌==◌, if◌then◌else◌,
  Bool-cases, inl, inr,
}
use luars_stoatcord.Prelude.Maps.{Map}
use luars_stoatcord.Canonical.Result.{Result, ok, err}
use luars_stoatcord.Canonical.Types.{StoatOverwrite}
use luars_stoatcord.World.{Env, World, Event, requested, put_channel_permissions}
use luars_stoatcord.World.Exec.{bind-cases}
use luars_stoatcord.Stoat.Client.{
  Client, call, set_channel_permissions, elevation_permissions, default_role_id,
}
use luars_stoatcord.Stoat.Channel.{
  grant_admins, put_overwrites, apply_channel_overwrites, cannot_grant,
}

-- Events put on a trace one after the other.
abbrev pub record_all : List Event → List Event → List Event
record_all [] t = t
record_all (e ∷ es) t = record_all es (e ∷ t)

abbrev pub put_event : String → String → ℕ → ℕ → Event
put_event channel role allow deny =
    requested
      (put_channel_permissions channel (if role == "" then default_role_id else role) allow deny)

abbrev pub grant_events : String → ℕ → List String → List Event
grant_events channel allow [] = []
grant_events channel allow (role ∷ roles) =
    put_event channel role allow 0 ∷ grant_events channel allow roles

abbrev pub overwrite_events : String → Map StoatOverwrite → List Event
overwrite_events channel [] = []
overwrite_events channel ((role, ow) ∷ rest) =
    put_event channel role ow.allow ow.deny ∷ overwrite_events channel rest

record_all-append :
    (xs ys t : List Event) → record_all (xs ++ ys) t ≡ record_all ys (record_all xs t)
record_all-append [] ys t = refl
record_all-append (x ∷ xs) ys t = record_all-append xs ys (x ∷ t)

module _ (env : Env) (c : Client) (channel : String) where
  -- A run that succeeds has asked for just these, in this order.
  abbrev Asked : List Event → World → Result (Unit {0}) × World → Type 0
  Asked es w (ok _, w') = w'.trace ≡ record_all es w.trace
  Asked es w (err _, w') = Unit

  Asked-put_overwrites :
      (m : Map StoatOverwrite) (w : World)
      → Asked (overwrite_events channel m) w (put_overwrites env c channel m w)
  unfolding put_overwrites set_channel_permissions call
  Asked-put_overwrites [] w = refl
  Asked-put_overwrites ((role, ow) ∷ rest) w =
      bind-cases (Asked (overwrite_events channel ((role, ow) ∷ rest)) w)
        (set_channel_permissions env channel role ow.allow ow.deny)
        (λ _. put_overwrites env c channel rest) w (λ _ _. Asked-put_overwrites rest _) (λ _ _. tt)

  Asked-grant_admins :
      (roles : List String) (w : World)
      → Asked
          (grant_events channel (elevation_permissions c) roles)
          w
          (grant_admins env c channel roles w)
  unfolding grant_admins set_channel_permissions call
  Asked-grant_admins [] w = refl
  Asked-grant_admins (role ∷ roles) w =
      bind-cases (Asked (grant_events channel (elevation_permissions c) (role ∷ roles)) w)
        (set_channel_permissions env channel role (elevation_permissions c) 0)
        (λ _. grant_admins env c channel roles) w (λ _ _. Asked-grant_admins roles _) (λ _ _. tt)

  Asked-after :
      (es fs : List Event) (w w' : World) (r : Result (Unit {0}) × World)
      → w'.trace ≡ record_all es w.trace
      → Asked fs w' r
      → Asked (es ++ fs) w r
  Asked-after es fs w w' (ok x, v) p q =
      q ∙ ap (record_all fs) p ∙ sym (record_all-append es fs w.trace)
  Asked-after es fs w w' (err x, v) p q = tt

  Asked-ok :
      (es : List Event) (w : World) (r : Result (Unit {0}) × World) (x : Unit {0})
      → r.0 ≡ ok x
      → Asked es w r
      → r.1.trace ≡ record_all es w.trace
  Asked-ok es w (ok y, v) x p q = q
  Asked-ok es w (err y, v) x p q = cc

  Asked-apply :
      (m : Map StoatOverwrite) (w : World)
      → Asked
          (grant_events channel (elevation_permissions c) c.admin_roles
            ++ overwrite_events channel m)
          w
          (apply_channel_overwrites env c channel m w)
  unfolding apply_channel_overwrites
  Asked-apply m w = elim (Bool-cases (cannot_grant c.admin_roles c.elevation)) [
    | inl p ↦ rw p tt
    | inr p ↦ rw p (
        bind-cases
          (Asked
            (grant_events channel (elevation_permissions c) c.admin_roles
              ++ overwrite_events channel m)
            w)
          (grant_admins env c channel c.admin_roles) (λ _. put_overwrites env c channel m) w
          (λ x e.
            Asked-after (grants c) (overwrite_events channel m) w (granted w) _
              (Asked-ok (grants c) w (grant_admins env c channel c.admin_roles w) x e
                (Asked-grant_admins c.admin_roles w))
              (Asked-put_overwrites m _))
          (λ _ _. tt))
  ]
    where
      grants : Client → List Event
      grants c = grant_events channel (elevation_permissions c) c.admin_roles

      granted : World → World
      granted w = (grant_admins env c channel c.admin_roles w).1

  -- A run that succeeds has granted every admin role the bot's own bits first, and then put every
  -- overwrite, in this order and nothing else.
  pub apply_channel_overwrites_lem :
      (m : Map StoatOverwrite) (w : World)
      → (apply_channel_overwrites env c channel m w).0 ≡ ok tt
      → (apply_channel_overwrites env c channel m w).1.trace
        ≡ record_all
            (grant_events channel (elevation_permissions c) c.admin_roles
              ++ overwrite_events channel m)
            w.trace
  apply_channel_overwrites_lem m w h =
      Asked-ok
        (grant_events channel (elevation_permissions c) c.admin_roles ++ overwrite_events channel m)
        w (apply_channel_overwrites env c channel m w) tt h (Asked-apply m w)

  -- With admin roles to grant and no elevation role resolved nothing is asked of the server.
  pub apply_channel_overwrites_unresolved :
      (m : Map StoatOverwrite) (w : World)
      → c.admin_roles ≢ []
      → c.elevation ≡ none
      → (apply_channel_overwrites env c channel m w).1 ≡ w
  unfolding apply_channel_overwrites
  apply_channel_overwrites_unresolved m w h e = rw (e, lacking c.admin_roles h) refl
    where
      lacking : (roles : List String) → roles ≢ [] → cannot_grant roles none ≡ true
      lacking [] q = absurd (q refl)
      lacking (_ ∷ _) q = refl
