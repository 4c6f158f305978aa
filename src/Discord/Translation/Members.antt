-- ===== src/Discord/Translation/Members.antt =====
-- The loops of categoriesFromState (internal/discord/state.go), if no two channels have the same id.
use mathlib.Core.List.{append_assoc, append-nil}
use luars_stoatcord.Prelude.{
  String, ◌≡◌, refl, sym, ◌∙◌, Bool, true, false, not, ◌&&◌, ◌==◌, none, some, List, [], ◌∷◌, ◌++◌,
  map, All, select, Bool-cases, inl, inr, arith, eq_iff, eq_refl, if◌then◌else◌,
}
use luars_stoatcord.Prelude.Maps.{Map, lookup, insert, lookup-insert}
use luars_stoatcord.Store.{is_some}
use luars_stoatcord.Discord.Translation.{Constants, DiscordChannel, channel_type_from_discord}
use luars_stoatcord.Discord.Translation.Sidebar.{
  list_at, is_category, category_entries, add_member, members_of,
}

-- No two of the channels have the same id.
abbrev pub Distinct : List DiscordChannel → Type 0
Distinct [] = Unit
Distinct (ch ∷ chs) = All (λ (x : DiscordChannel). (ch.id == x.id) ≡ false) chs × Distinct chs

-- A channel that is mirrored below the category of this id.
abbrev pub belongs : Constants → String → DiscordChannel → Bool
belongs c id ch =
    ch.parent_id == id
    && (not (ch.parent_id == "") && is_some (channel_type_from_discord c ch.kind))

module _ {ℓ} {V : Type ℓ} (c : Constants) (value : DiscordChannel → V) where
  abbrev pub entry : DiscordChannel → String × V
  entry ch = (ch.id, value ch)

  insert_fresh :
      (k : String) (v : V) (m : Map V) → lookup k m ≡ none → insert k v m ≡ m ++ (k, v) ∷ []
  unfolding insert lookup
  insert_fresh k v [] h = refl
  insert_fresh k v ((j, w) ∷ m) h = ground (arith, insert_fresh k v m)

  still_fresh :
      (k : String) (v : V) (m : Map V) (chs : List DiscordChannel)
      → All (λ (x : DiscordChannel). (k == x.id) ≡ false) chs
      → All (λ (x : DiscordChannel). lookup x.id m ≡ none) chs
      → All (λ (x : DiscordChannel). lookup x.id (insert k v m) ≡ none) chs
  still_fresh k v m [] h g = tt
  still_fresh k v m (x ∷ xs) (h, hs) (g, gs) =
      (rw (lookup-insert k x.id v m, h) g, still_fresh k v m xs hs gs)

  pub category_entries_lem :
      (chs : List DiscordChannel) (m : Map V)
      → Distinct chs
      → All (λ (x : DiscordChannel). lookup x.id m ≡ none) chs
      → category_entries c value chs m ≡ m ++ map entry (select (is_category c) chs)
  unfolding category_entries
  category_entries_lem [] m d h = sym (append-nil m)
  category_entries_lem (ch ∷ chs) m (d, ds) (h, hs) = elim (Bool-cases (is_category c ch)) [
    | inl e ↦ rw e (
        category_entries_lem chs (insert ch.id (value ch) m) ds
          (still_fresh ch.id (value ch) m chs d hs)
        ∙ rw (insert_fresh ch.id (value ch) m h) (append_assoc m _ _))
    | inr e ↦ rw e (category_entries_lem chs m ds hs)
  ]

  pub lookup-entry :
      (chs : List DiscordChannel)
      → Distinct chs
      → All (λ (x : DiscordChannel). lookup x.id (map entry chs) ≡ some (value x)) chs
  unfolding lookup
  lookup-entry [] d = tt
  lookup-entry (ch ∷ chs) (d, ds) = (rw (eq_refl ch.id) refl, later chs d (lookup-entry chs ds))
    where
      later :
          (xs : List DiscordChannel)
          → All (λ (x : DiscordChannel). (ch.id == x.id) ≡ false) xs
          → All (λ (x : DiscordChannel). lookup x.id (map entry chs) ≡ some (value x)) xs
          → All (λ (x : DiscordChannel). lookup x.id (map entry (ch ∷ chs)) ≡ some (value x)) xs
      later [] h g = tt
      later (x ∷ xs) (h, hs) (g, gs) = (rw h g, later xs hs gs)

pub none-fresh {ℓ} :
    (V : Type ℓ) (chs : List DiscordChannel)
    → All (λ (x : DiscordChannel). lookup {V = V} x.id [] ≡ none) chs
unfolding lookup
none-fresh V [] = tt
none-fresh V (x ∷ xs) = (refl, none-fresh V xs)

module _ (P : DiscordChannel → Type 0) where
  pub All-select :
      (p : DiscordChannel → Bool) (chs : List DiscordChannel) → All P chs → All P (select p chs)
  All-select p [] h = tt
  All-select p (ch ∷ chs) (h, hs) = elim (Bool-cases (p ch)) [
    | inl e ↦ rw e (h, All-select p chs hs)
    | inr e ↦ rw e (All-select p chs hs)
  ]

pub Distinct-select :
    (p : DiscordChannel → Bool) (chs : List DiscordChannel) → Distinct chs → Distinct (select p chs)
Distinct-select p [] d = tt
Distinct-select p (ch ∷ chs) (d, ds) = elim (Bool-cases (p ch)) [
  | inl e ↦ rw e (All-select _ p chs d, Distinct-select p chs ds)
  | inr e ↦ rw e (Distinct-select p chs ds)
]

pub lookup_nil {ℓ} : {V : Type ℓ} (k : String) → lookup {V = V} k [] ≡ none
unfolding lookup
lookup_nil k = refl

module _ (c : Constants) (names : Map String) (id : String)
    (known : is_some (lookup id names) ≡ true) where
  add_member_lem :
      (ch : DiscordChannel) (m : Map (List DiscordChannel))
      → list_at (lookup id (add_member c names ch m))
        ≡ list_at (lookup id m) ++ (if belongs c id ch then ch ∷ [] else [])
  unfolding add_member
  add_member_lem ch m = elim (Bool-cases (ch.parent_id == id)) [
    | inl e ↦
        let same = (eq_iff ch.parent_id id).0 e in
        rw same (
          ground (
            arith,
            known,
            eq_refl id,
            append-nil (list_at (lookup id m)),
            lookup-insert id id (list_at (lookup id m) ++ ch ∷ []) m,
          ))
    | inr e ↦ rw e (
        ground (
          arith,
          e,
          append-nil (list_at (lookup id m)),
          lookup-insert ch.parent_id id (list_at (lookup ch.parent_id m) ++ ch ∷ []) m,
        ))
  ]

  pub members_of_lem :
      (chs : List DiscordChannel) (m : Map (List DiscordChannel))
      → list_at (lookup id (members_of c names chs m))
        ≡ list_at (lookup id m) ++ select (belongs c id) chs
  unfolding members_of
  members_of_lem [] m = sym (append-nil _)
  members_of_lem (ch ∷ chs) m =
      members_of_lem chs (add_member c names ch m)
      ∙ rw (add_member_lem ch m) (regroup (belongs c id ch))
    where
      regroup :
          (b : Bool)
          → (list_at (lookup id m) ++ (if b then ch ∷ [] else [])) ++ select (belongs c id) chs
            ≡ list_at (lookup id m)
              ++ (if b then ch ∷ select (belongs c id) chs else select (belongs c id) chs)
      regroup true = append_assoc (list_at (lookup id m)) (ch ∷ []) (select (belongs c id) chs)
      regroup false = rw (append-nil (list_at (lookup id m)))
