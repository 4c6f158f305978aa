-- ===== src/Wiring/Choosing.antt =====
-- The admin role that resolveAdminRoles of cmd/stoatcord/wiring.go takes.
use luars_stoatcord.Prelude.{
  ℕ, zero, suc, String, ◌≡◌, ◌≢◌, ◌<◌, ◌+◌, sym, refl, ap, ◌⊎◌, inl, inr, true, false, List, [],
  ◌∷◌, ◌++◌, ◌==◌, any, contains, Bool-cases, All, length, arith, subst, eq_refl,
}
use luars_stoatcord.Prelude.Int.{ℤ, ◌≤ℤ◌, ltb_ℤ, pos_part, neg_part}
use luars_stoatcord.Canonical.Result.{ok}
use luars_stoatcord.Canonical.Types.{Role}
use luars_stoatcord.World.{Env, World}
use luars_stoatcord.World.Exec.{pure, ◌>>◌}
use luars_stoatcord.Stoat.Client.{Client, fetch_self_role_ids, set_admin_role_ids}
use luars_stoatcord.Stoat.Server.{add_self_to_role}
use luars_stoatcord.Wiring.{
  admin_roles, target_role, id_of_role, mirror_admin_roles, resolve_admin_roles, resolve_among,
}

-- The items of a list before one of them, that item, and the items after it.
abbrev pub Split : Type 0
Split = List Role × Role × List Role

infix 50 ◌<ℤ◌
abbrev pub ◌<ℤ◌ : ℤ → ℤ → Type 0
a <ℤ b = pos_part a + neg_part b < pos_part b + neg_part a

-- No role has a smaller rank, and none before it has the same one.
abbrev pub IsFirstOfSmallest : Split → Type 0
IsFirstOfSmallest (before, q, after) =
    All (λ (r : Role). q.rank <ℤ r.rank) before × All (λ (r : Role). q.rank ≤ℤ r.rank) after

-- No two of the roles have the same id.
abbrev pub Distinct : List Role → Type 0
Distinct [] = Unit
Distinct (r ∷ rs) = All (λ (x : Role). (r.id == x.id) ≡ false) rs × Distinct rs

-- The text at a position of a list.
abbrev pub nth : ℕ → List String → String
nth n [] = ""
nth zero (s ∷ ss) = s
nth (suc n) (s ∷ ss) = nth n ss

-- The search keeps its target, or finds a role of the rest that is below the target.
abbrev Searched : Role → List Role → Role → Type 0
Searched t rs q =
    ((q ≡ t) × All (λ (r : Role). t.rank ≤ℤ r.rank) rs)
    ⊎ ((before : List Role) × (after : List Role) × (rs ≡ before ++ q ∷ after)
        × (q.rank <ℤ t.rank)
        × IsFirstOfSmallest (before, q, after))

step_keeps :
    (t r q : Role) (rs : List Role) → t.rank ≤ℤ r.rank → Searched t rs q → Searched t (r ∷ rs) q
step_keeps t r q rs h (inl (e, hs)) = inl (e, (h, hs))
step_keeps t r q rs h (inr (before, after, e, low, (bs, cs))) =
    inr ((r ∷ before), after, ap (λ ys. r ∷ ys) e, low, ((omega arith, bs), cs))

step_moves :
    (t r q : Role) (rs : List Role) → r.rank <ℤ t.rank → Searched r rs q → Searched t (r ∷ rs) q
step_moves t r q rs h (inl (e, hs)) = inr (
  [],
  rs,
  ap (λ (y : Role). y ∷ rs) (sym e),
  subst (λ (y : Role). y.rank <ℤ t.rank) (sym e) h,
  (tt, subst (λ (y : Role). All (λ (x : Role). y.rank ≤ℤ x.rank) rs) (sym e) hs),
)
step_moves t r q rs h (inr (before, after, e, low, (bs, cs))) =
    inr ((r ∷ before), after, ap (λ ys. r ∷ ys) e, omega arith, ((low, bs), cs))

target_role-moves :
    (t r : Role) (rs : List Role)
    → ltb_ℤ r.rank t.rank ≡ true
    → target_role t (r ∷ rs) ≡ target_role r rs
unfolding target_role
target_role-moves t r rs e = rw e refl

target_role-keeps :
    (t r : Role) (rs : List Role)
    → ltb_ℤ r.rank t.rank ≡ false
    → target_role t (r ∷ rs) ≡ target_role t rs
unfolding target_role
target_role-keeps t r rs e = rw e refl

target_role-Searched : (t : Role) (rs : List Role) → Searched t rs (target_role t rs)
target_role-Searched t [] = inl (unfold target_role in refl, tt)
target_role-Searched t (r ∷ rs) = elim (Bool-cases (ltb_ℤ r.rank t.rank)) [
  | inl e ↦
      subst (Searched t (r ∷ rs)) (sym (target_role-moves t r rs e))
        (step_moves t r (target_role r rs) rs (ground arith) (target_role-Searched r rs))
  | inr e ↦
      subst (Searched t (r ∷ rs)) (sym (target_role-keeps t r rs e))
        (step_keeps t r (target_role t rs) rs (ground arith) (target_role-Searched t rs))
]

split :
    (r : Role) (rs : List Role) (q : Role)
    → Searched r rs q
    → (before : List Role) × (after : List Role) × (r ∷ rs ≡ before ++ q ∷ after)
      × IsFirstOfSmallest (before, q, after)
split r rs q (inl (e, hs)) = (
  [],
  rs,
  ap (λ (y : Role). y ∷ rs) (sym e),
  (tt, subst (λ (y : Role). All (λ (x : Role). y.rank ≤ℤ x.rank) rs) (sym e) hs),
)
split r rs q (inr (before, after, e, low, (bs, cs))) =
    ((r ∷ before), after, ap (λ ys. r ∷ ys) e, ((low, bs), cs))

All-middle :
    (P : Role → Type 0) (before : List Role) (q : Role) (after : List Role)
    → All P (before ++ q ∷ after)
    → P q
All-middle P [] q after (h, hs) = h
All-middle P (b ∷ bs) q after (h, hs) = All-middle P bs q after hs

-- The id that is looked up belongs to the role of the split.
id_of_role-nth :
    (before : List Role) (q : Role) (after : List Role) (ids : List String)
    → Distinct (before ++ q ∷ after)
    → id_of_role q.id (before ++ q ∷ after) ids ≡ nth (length before) ids
unfolding id_of_role
id_of_role-nth [] q after [] d = refl
id_of_role-nth (b ∷ bs) q after [] d = refl
id_of_role-nth [] q after (i ∷ ids) d = rw (eq_refl q.id) refl
id_of_role-nth (b ∷ bs) q after (i ∷ ids) (h, d) =
    rw (All-middle (λ (x : Role). (b.id == x.id) ≡ false) bs q after h)
      (id_of_role-nth bs q after ids d)

module _ (env : Env) (c : Client) (server : String) where
  -- If there are admin roles, no two of them have the same id, each one has its Stoat id or has been
  -- mirrored, and the bot is found to hold none of them: all that follows is that the bot is added to
  -- the first admin role of the smallest rank, by the Stoat id of that very role, and, if that succeeds,
  -- that the client grants the Stoat ids.
  pub resolve_admin_roles-Takes :
      (roles : List Role) (w w1 w2 : World) (ids held : List String)
      → Distinct (admin_roles roles)
      → mirror_admin_roles env c server (admin_roles roles) w ≡ (ok ids, w1)
      → fetch_self_role_ids env server w1 ≡ (ok held, w2)
      → any (λ id. contains id held) ids ≡ false
      → admin_roles roles ≢ []
      → (before : List Role) × (q : Role) × (after : List Role) × (admin_roles roles
          ≡ before ++ q ∷ after)
        × IsFirstOfSmallest (before, q, after)
        × (resolve_admin_roles env c server roles w
            ≡ (do
              add_self_to_role env server (nth (length before) ids)
              pure (ids, set_admin_role_ids ids c))
                w2)
  unfolding resolve_admin_roles
  resolve_admin_roles-Takes roles w w1 w2 ids held = among (admin_roles roles)
    where
      among :
          (rs : List Role)
          → Distinct rs
          → mirror_admin_roles env c server rs w ≡ (ok ids, w1)
          → fetch_self_role_ids env server w1 ≡ (ok held, w2)
          → any (λ id. contains id held) ids ≡ false
          → rs ≢ []
          → (before : List Role) × (q : Role) × (after : List Role) × (rs ≡ before ++ q ∷ after)
            × IsFirstOfSmallest (before, q, after)
            × (resolve_among env c server rs w
                ≡ (do
                  add_self_to_role env server (nth (length before) ids)
                  pure (ids, set_admin_role_ids ids c))
                    w2)
      among [] d m f n some_role = absurd (some_role refl)
      among (r ∷ rs) d m f n some_role =
          let (before, after, e, small) =
            split r rs (target_role r rs) (target_role-Searched r rs) in
          (before, target_role r rs, after, e, small, rw (m, f, n, found before after e) refl)
        where
          found :
              (before after : List Role)
              → r ∷ rs ≡ before ++ target_role r rs ∷ after
              → id_of_role (target_role r rs).id (r ∷ rs) ids ≡ nth (length before) ids
          found before after e =
              subst (λ ys. id_of_role (target_role r rs).id ys ids ≡ nth (length before) ids)
                (sym e) (id_of_role-nth before (target_role r rs) after ids (subst Distinct e d))
