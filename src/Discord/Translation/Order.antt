-- ===== src/Discord/Translation/Order.antt =====
-- What categoriesFromState of internal/discord/state.go computes.
use mathlib.Core.List.{Permᴰ}
use luars_stoatcord.Prelude.{
  ℕ, suc, String, ◌≡◌, refl, ap, ap₂, ◌∙◌, subst, none, some, List, [], ◌∷◌, map, All, select,
}
use luars_stoatcord.Prelude.Int.{ℤ, pos, ◌≤ℤ◌}
use luars_stoatcord.Prelude.Maps.{Map, lookup}
use luars_stoatcord.Canonical.Types.{Category}
use luars_stoatcord.Discord.Translation.{Constants, DiscordChannel}
use luars_stoatcord.Discord.Translation.Sidebar.{
  Sorted, Sorter, number_at, channel_position, number, is_category, category_entries, members_of,
  category_of, categories_of,
}
use luars_stoatcord.Prelude.Perms.{All-Permᴰ, map-Permᴰ}
use luars_stoatcord.Discord.Translation.Members.{
  Distinct, belongs, entry, category_entries_lem, lookup-entry, members_of_lem, none-fresh,
  Distinct-select, lookup_nil,
}

module _ (c : Constants) (s : Sorter) (chs : List DiscordChannel) where
  -- The category at this position of a category channel: the mirrored channels below it, sorted.
  abbrev pub sidebar_category : ℕ → DiscordChannel → Category
  sidebar_category i ch = record {
    id = ch.id;
    name = ch.name;
    channel_ids =
        map (λ (x : DiscordChannel). x.id)
          (s.sort DiscordChannel (λ x. x.position) (select (belongs c ch.id) chs));
    position = pos i;
  }

  -- The categories of these channels, at the positions from this one on.
  abbrev pub placed : ℕ → List DiscordChannel → List Category
  placed i [] = []
  placed i (ch ∷ cs) = sidebar_category i ch ∷ placed (suc i) cs

  number-placed :
      (i : ℕ) (cs : List DiscordChannel) → number i (map (sidebar_category 0) cs) ≡ placed i cs
  unfolding number
  number-placed i [] = refl
  number-placed i (ch ∷ cs) = ap (◌∷◌ (sidebar_category i ch)) (number-placed (suc i) cs)

  abbrev name_of : DiscordChannel → String
  name_of ch = ch.name

  abbrev names : Map String
  names = category_entries c name_of chs []

  abbrev positions : Map ℤ
  positions = category_entries c channel_position chs []

  category_of_lem :
      (ch : DiscordChannel)
      → lookup ch.id names ≡ some ch.name
      → category_of c s (members_of c names chs []) (ch.id, ch.name) ≡ sidebar_category 0 ch
  category_of_lem ch h = rw (members_of_lem c names ch.id (rw h refl) chs [], none_yet) refl
    where
      none_yet : lookup {V = List DiscordChannel} ch.id [] ≡ none
      none_yet = lookup_nil ch.id

  categories_lem :
      (cs : List DiscordChannel)
      → All (λ (x : DiscordChannel). lookup x.id names ≡ some x.name) cs
      → map (category_of c s (members_of c names chs [])) (map (entry c name_of) cs)
        ≡ map (sidebar_category 0) cs
  categories_lem [] h = refl
  categories_lem (ch ∷ cs) (h, hs) = ap₂ ◌∷◌ (category_of_lem ch h) (categories_lem cs hs)

  Sorted-positions :
      (cs : List DiscordChannel)
      → All (λ (x : DiscordChannel). lookup x.id positions ≡ some x.position) cs
      → Sorted (λ cat. number_at (lookup cat.id positions)) (map (sidebar_category 0) cs)
      → Sorted channel_position cs
  Sorted-positions [] h k = tt
  Sorted-positions (ch ∷ cs) (h, hs) (k, ks) = (first cs hs k, Sorted-positions cs hs ks)
    where
      first :
          (xs : List DiscordChannel)
          → All (λ (x : DiscordChannel). lookup x.id positions ≡ some x.position) xs
          → All
              (λ (cat : Category).
                number_at (lookup ch.id positions) ≤ℤ number_at (lookup cat.id positions))
              (map (sidebar_category 0) xs)
          → All (λ (x : DiscordChannel). ch.position ≤ℤ x.position) xs
      first [] g k = tt
      first (x ∷ xs) (g, gs) (k, ks) = (rw g at (rw h at k), first xs gs ks)

  abbrev found : List DiscordChannel
  found = select (is_category c) chs

  abbrev place : Category → ℤ
  place cat = number_at (lookup cat.id positions)

  -- The categories before they are sorted.
  abbrev unsorted : List Category
  unsorted = map (category_of c s (members_of c names chs [])) names

  module _ (d : Distinct chs) where
    lookup-names : All (λ (x : DiscordChannel). lookup x.id names ≡ some x.name) found
    lookup-names =
        rw (category_entries_lem c name_of chs [] d (none-fresh String chs))
          (lookup-entry c name_of found (Distinct-select (is_category c) chs d))

    lookup-positions : All (λ (x : DiscordChannel). lookup x.id positions ≡ some x.position) found
    lookup-positions =
        rw (category_entries_lem c channel_position chs [] d (none-fresh ℤ chs))
          (lookup-entry c channel_position found (Distinct-select (is_category c) chs d))

    unsorted_lem : unsorted ≡ map (sidebar_category 0) found
    unsorted_lem =
        ap (map (category_of c s (members_of c names chs [])))
          (category_entries_lem c name_of chs [] d (none-fresh String chs))
        ∙ categories_lem found lookup-names

  -- If no two channels have the same id: the categories are the category channels of the guild in
  -- the ascending order of their positions, the first one with the position 0 and each further one
  -- with the next, and each with the ids of the mirrored channels below it, sorted by position.
  pub categories_of_lem :
      Distinct chs
      → (cs : List DiscordChannel) × Permᴰ cs (select (is_category c) chs)
        × Sorted (λ ch. ch.position) cs
        × (categories_of c s chs ≡ placed 0 cs)
  unfolding categories_of
  categories_of_lem d =
      let (cs, p, h) =
        map-Permᴰ (sidebar_category 0) _ unsorted found (unsorted_lem d)
          (s.reorders Category place unsorted) in
      (
        cs,
        p,
        Sorted-positions cs (All-Permᴰ _ p (lookup-positions d))
            (subst (Sorted place) h (s.ascends Category place unsorted)),
        ap (number 0) h ∙ number-placed 0 cs,
      )
