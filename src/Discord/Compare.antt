-- ===== src/Discord/Compare.antt =====
-- reflect.DeepEqual at the types that the Diff functions compare. The entries of a map are compared
-- in both directions, since the two maps have equally many keys then.
use luars_stoatcord.Prelude.{String, Bool, true, false, ◌&&◌, List, [], ◌∷◌, ◌==◌, nat_eq}
use luars_stoatcord.Prelude.Int.{eq_ℤ}
use luars_stoatcord.Prelude.Maps.{Map, included}
use luars_stoatcord.Canonical.Types.{Category, StoatOverwrite, StoatChannel, StoatRole}

abbrev pub bool_equal : Bool → Bool → Bool
bool_equal true b = b
bool_equal false true = false
bool_equal false false = true

abbrev pub texts_equal : List String → List String → Bool
texts_equal [] [] = true
texts_equal (s ∷ ss) (t ∷ ts) = s == t && texts_equal ss ts
texts_equal _ _ = false

abbrev pub overwrite_equal : StoatOverwrite → StoatOverwrite → Bool
overwrite_equal a b = nat_eq a.allow b.allow && nat_eq a.deny b.deny

abbrev pub overwrites_equal : Map StoatOverwrite → Map StoatOverwrite → Bool
overwrites_equal m n = included overwrite_equal m n && included overwrite_equal n m

unfoldable pub channel_equal : StoatChannel → StoatChannel → Bool
channel_equal a b =
    a.name == b.name && (a.kind == b.kind && overwrites_equal a.overwrites b.overwrites)

unfoldable pub role_equal : StoatRole → StoatRole → Bool
role_equal a b =
    a.name == b.name
    && (a.colour == b.colour
        && (bool_equal a.hoist b.hoist
            && (eq_ℤ a.rank b.rank && overwrite_equal a.permissions b.permissions)))

unfoldable pub category_equal : Category → Category → Bool
category_equal a b =
    a.id == b.id
    && (a.name == b.name && (texts_equal a.channel_ids b.channel_ids && eq_ℤ a.position b.position))
