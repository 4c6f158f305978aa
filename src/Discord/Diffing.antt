-- ===== src/Discord/Diffing.antt =====
-- When the Diff functions of internal/discord report a change.
use Prim.Native.Nat.{max}
use luars_stoatcord.Prelude.{
  ℕ, String, ◌≡◌, ◌≢◌, refl, sym, ap, ap₂, ◌∙◌, Bool, true, false, List, [], ◌∷◌, arith, eq_refl,
  eq_iff, ◌==◌, Bool-cases, inl, inr,
}
use luars_stoatcord.Prelude.Int.{ℤ, pos, negsuc, eq_ℤ}
use luars_stoatcord.Prelude.Bits.{digit_ext}
use luars_stoatcord.Canonical.Result.{ok}
use luars_stoatcord.Canonical.Types.{
  Permission, Overwrite, Role, Category, StoatRole, StoatOverwrite,
}
use luars_stoatcord.Canonical.Permission.{mask, mask_lem, granted, bit_digit, stoat_bits, to_stoat}
use luars_stoatcord.Canonical.Emit.{role_to_stoat}
use luars_stoatcord.Canonical.State.{role_json, parse_role, category_json}
use luars_stoatcord.Canonical.Vocabulary.{
  place, sorted_permissions, canonicalize, text_leb, permission_text,
}
use luars_stoatcord.Canonical.State.RoundTrip.{
  AreWellFormed, parse_role-role_json, parse_category-category_json,
}
use luars_stoatcord.Discord.Compare.{
  bool_equal, texts_equal, overwrite_equal, role_equal, category_equal,
}
use luars_stoatcord.World.{Env, World, role}
use luars_stoatcord.Store.View.{view}
use luars_stoatcord.Engine.Op.{OpKind, op_delete}
use luars_stoatcord.Engine.Process.{process, health_check}
use luars_stoatcord.Engine.Gates.{Untouched, process_equal}
use luars_stoatcord.Stoat.Client.{Client}
use luars_stoatcord.Discord.Gateway.{role_diff, build_role_op}
use luars_stoatcord.Discord.Categories.{category_diff}
use luars_stoatcord.Reconcile.Bind.{empty_canonical_state}

granted-place :
    (k : ℕ) (p : Permission) (ps : List Permission)
    → granted k (place p ps) ≡ max (bit_digit k (stoat_bits p)) (granted k ps)
unfolding place
granted-place k p [] = refl
granted-place k p (q ∷ ps) = elim (Bool-cases (text_leb (permission_text p) (permission_text q))) [
  | inl e ↦ rw e refl
  | inr e ↦ rw e (omega (arith, granted-place k p ps))
]

granted-sorted_permissions :
    (k : ℕ) (ps : List Permission) → granted k (sorted_permissions ps) ≡ granted k ps
unfolding sorted_permissions
granted-sorted_permissions k [] = refl
granted-sorted_permissions k (p ∷ ps) =
    omega (arith, granted-place k p (sorted_permissions ps), granted-sorted_permissions k ps)

mask-sorted_permissions : (ps : List Permission) → mask (sorted_permissions ps) ≡ mask ps
mask-sorted_permissions ps = digit_ext (mask (sorted_permissions ps)) (mask ps) λ k.
    (mask_lem k (sorted_permissions ps)).0 ∙ granted-sorted_permissions k ps ∙ sym (mask_lem k ps).0

-- Storing an overwrite in its canonical order changes nothing of what Stoat gets.
pub to_stoat-canonicalize : (o : Overwrite) → to_stoat (canonicalize o) ≡ to_stoat o
unfolding to_stoat canonicalize
to_stoat-canonicalize o =
    ap₂ (λ (a b : ℕ). record { allow = a; deny = b }) (mask-sorted_permissions o.allow)
      (mask-sorted_permissions o.deny)

nat_eq_refl : (o : StoatOverwrite) → overwrite_equal o o ≡ true
nat_eq_refl o = ground arith

eq_ℤ_refl : (a : ℤ) → eq_ℤ a a ≡ true
eq_ℤ_refl (pos n) = ground arith
eq_ℤ_refl (negsuc n) = ground arith

bool_equal_refl : (b : Bool) → bool_equal b b ≡ true
bool_equal_refl true = refl
bool_equal_refl false = refl

texts_equal_refl : (ss : List String) → texts_equal ss ss ≡ true
texts_equal_refl [] = refl
texts_equal_refl (s ∷ ss) = rw (eq_refl s, texts_equal_refl ss) refl

role_equal_refl : (r : StoatRole) → role_equal r r ≡ true
unfolding role_equal
role_equal_refl r =
    rw
      (
        eq_refl r.name,
        eq_refl r.colour,
        bool_equal_refl r.hoist,
        eq_ℤ_refl r.rank,
        nat_eq_refl r.permissions,
      )
      refl

-- A role's Diff reports no change against the state that was stored for the role itself, provided
-- that no unrecognized permission has the text of a known one.
pub role_diff-role_json :
    (r : Role) → AreWellFormed r.permissions → role_diff r (role_json r) ≡ ok true
unfolding role_diff role_to_stoat
role_diff-role_json r h =
    rw (parse_role-role_json r h, to_stoat-canonicalize r.permissions)
      (ap ok (role_equal_refl (role_to_stoat r)))

empty_differs : (s : String) → (s == "") ≡ false → ("" == s) ≡ false
empty_differs s h = ground (arith, eq_iff s "", eq_iff "" s)

-- A role's Diff reports a change against the state "{}", unless the role has no name.
role_diff-empty : (r : Role) → (r.name == "") ≡ false → role_diff r empty_canonical_state ≡ ok false
unfolding role_diff parse_role role_to_stoat role_equal
role_diff-empty r h = rw (empty_differs r.name h) refl

-- A category's Diff reports no change against the state that was stored for the category itself.
pub category_diff-category_json : (c : Category) → category_diff c (category_json c) ≡ ok true
unfolding category_diff category_equal
category_diff-category_json c =
    rw
      (
        parse_category-category_json c,
        eq_refl c.id,
        eq_refl c.name,
        texts_equal_refl c.channel_ids,
        eq_ℤ_refl c.position,
      )
      refl

-- With both connections up, a create or an update of a role whose mapping holds the role's own
-- canonical state sends nothing and writes nothing, whatever the status of the mapping, provided
-- that no unrecognized permission has the text of a known one.
pub process_role_again :
    (env : Env) (c : Client) (server : String) (kind : OpKind) (r : Role) (w : World)
    → AreWellFormed r.permissions
    → kind ≢ op_delete
    → (view role r.id w.store).found ≡ true
    → (view role r.id w.store).canonical_state ≡ role_json r
    → (health_check env w).0 ≡ true
    → Untouched w (process env false (build_role_op env kind server c r) w)
unfolding build_role_op
process_role_again env c server kind r w wf update found same up =
    process_equal env (build_role_op env kind server c r) (role_diff r) w update refl found
      (ap (role_diff r) same ∙ role_diff-role_json r wf) up
