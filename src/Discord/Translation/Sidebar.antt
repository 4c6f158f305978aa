-- ===== src/Discord/Translation/Sidebar.antt =====
-- internal/discord/state.go: the categories, channels and roles of the guild as discordgo's cache has
-- them. slices.SortFunc is a parameter, with what its documentation says: it puts the items in
-- ascending order, and is not stable.
use mathlib.Core.List.{Permᴰ}
use luars_stoatcord.Prelude.{
  ℕ, suc, String, Bool, not, ◌==◌, Option, none, some, List, [], ◌∷◌, ◌++◌, map, All, nat_eq,
  if◌then◌else◌,
}
use luars_stoatcord.Prelude.Int.{ℤ, pos, ◌≤ℤ◌}
use luars_stoatcord.Prelude.Maps.{Map, lookup, insert}
use luars_stoatcord.Store.{is_some}
use luars_stoatcord.Canonical.Types.{Category, Channel, Role}
use luars_stoatcord.Discord.Translation.{
  Constants, DiscordChannel, DiscordRole, DiscordGuild, prepend, role_from_discord,
  channel_type_from_discord, channel_from_discord,
}

module _ {A : Type 0} (key : A → ℤ) where
  abbrev pub Sorted : List A → Type 0
  Sorted [] = Unit
  Sorted (x ∷ xs) = All (λ y. key x ≤ℤ key y) xs × Sorted xs

-- slices.SortFunc by the difference of an integer of the items.
pub record Sorter : Type 1 where
  pub sort : (A : Type 0) → (A → ℤ) → List A → List A
  pub reorders : (A : Type 0) (key : A → ℤ) (xs : List A) → Permᴰ (sort A key xs) xs
  pub ascends : (A : Type 0) (key : A → ℤ) (xs : List A) → Sorted key (sort A key xs)

-- m[key] of a map of lists or numbers: the zero value for a missing key
abbrev pub list_at : {A : Type 0} → Option (List A) → List A
list_at none = []
list_at (some xs) = xs

abbrev pub number_at : Option ℤ → ℤ
number_at none = pos 0
number_at (some n) = n

abbrev pub channel_position : DiscordChannel → ℤ
channel_position ch = ch.position

abbrev pub ids_of : List DiscordChannel → List String
ids_of chs = map (λ (ch : DiscordChannel). ch.id) chs

-- The last loop: Position is the index.
unfoldable pub number : ℕ → List Category → List Category
number i [] = []
number i (cat ∷ cats) = record cat { position = pos i } ∷ number (suc i) cats

module _ (c : Constants) where
  abbrev pub is_category : DiscordChannel → Bool
  is_category ch = nat_eq ch.kind c.guild_category

  -- The first loop, for the map of names or the map of positions.
  unfoldable pub category_entries {ℓ} :
      {V : Type ℓ} → (DiscordChannel → V) → List DiscordChannel → Map V → Map V
  category_entries value [] m = m
  category_entries value (ch ∷ chs) m =
      category_entries value chs (if is_category ch then insert ch.id (value ch) m else m)

  unfoldable pub add_member :
      Map String → DiscordChannel → Map (List DiscordChannel) → Map (List DiscordChannel)
  add_member names ch members =
      if ch.parent_id == ""
      then members
      else if not (is_some (lookup ch.parent_id names))
      then members
      else if not (is_some (channel_type_from_discord c ch.kind))
      then members
      else insert ch.parent_id (list_at (lookup ch.parent_id members) ++ ch ∷ []) members

  -- The second loop.
  unfoldable pub members_of :
      Map String → List DiscordChannel → Map (List DiscordChannel) → Map (List DiscordChannel)
  members_of names [] members = members
  members_of names (ch ∷ chs) members = members_of names chs (add_member names ch members)

  unfoldable pub channels_from_state : List DiscordChannel → List Channel
  channels_from_state [] = []
  channels_from_state (ch ∷ chs) = prepend (channel_from_discord c ch) (channels_from_state chs)

  abbrev pub roles_from_state : List DiscordRole → List Role
  roles_from_state rs = map (role_from_discord c) rs

module _ (c : Constants) (s : Sorter) where
  abbrev pub category_of : Map (List DiscordChannel) → String × String → Category
  category_of members (id, name) = record {
    id = id;
    name = name;
    channel_ids = ids_of (s.sort DiscordChannel channel_position (list_at (lookup id members)));
    position = pos 0;
  }

  -- categoriesFromState, of the channels of the guild
  unfoldable pub categories_of : List DiscordChannel → List Category
  categories_of chs =
      let names = category_entries c (λ ch. ch.name) chs [] in
      let positions = category_entries c channel_position chs [] in
      let members = members_of c names chs [] in
      number 0 (
        s.sort Category (λ cat. number_at (lookup cat.id positions))
          (map (category_of members) names))

  -- categoriesFromState: nothing if the cache does not have the guild
  unfoldable pub categories_from_state : Option DiscordGuild → List Category
  categories_from_state none = []
  categories_from_state (some g) = categories_of g.channels

  -- StructureFromState
  unfoldable pub structure_from_state :
      Option DiscordGuild → List Category × List Channel × List Role
  structure_from_state none = ([], [], [])
  structure_from_state (some g) =
      (categories_from_state (some g), channels_from_state c g.channels, roles_from_state c g.roles)
