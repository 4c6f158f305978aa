-- ===== src/Reconcile/Bind/Matching.antt =====
-- What the second loop of bindEntities (internal/reconcile/reconcile.go) binds: the search of one
-- entity, and the plan that the loop carries out.
use mathlib.Core.List.{Memᴰ, Perm}
use mathlib.Core.List.Perm
use luars_stoatcord.Prelude.{
  ℕ, suc, ◌≤◌, ◌≡◌, refl, sym, ap, subst, ◌∙◌, ◌⊎◌, inl, inr, true, false, List, [], ◌∷◌, ◌++◌, map,
  arith, eq_iff, if◌then◌else◌, Bool-cases, All,
}
use luars_stoatcord.Reconcile.Bind.{
  Identity, Match, no_match, ambiguous, matched, same_identity, find_match, take_out,
}

-- How many of the available entities have the name and the kind of `d`.
abbrev pub candidates : Identity → List Identity → ℕ
candidates d [] = 0
candidates d (s ∷ rest) = let n = candidates d rest in if same_identity d s then suc n else n

-- The outcome of the search: a match is one of the entities, of the same name and kind, and the
-- only one; it is ambiguous if there are two, and none if there is no candidate.
abbrev pub Decides : Identity → List Identity → Match → Type 0
Decides d xs no_match = candidates d xs ≡ 0
Decides d xs ambiguous = 2 ≤ candidates d xs
Decides d xs (matched s) = (candidates d xs ≡ 1) × (s.name ≡ d.name) × (s.kind ≡ d.kind) × Memᴰ s xs

-- With a match at hand the search goes on for a second one.
find_second :
    (d m : Identity) (xs : List Identity)
    → ((find_match d (matched m) xs ≡ matched m) × (candidates d xs ≡ 0))
      ⊎ ((find_match d (matched m) xs ≡ ambiguous) × (1 ≤ candidates d xs))
unfolding find_match
find_second d m [] = inl (refl, refl)
find_second d m (s ∷ xs) = elim (Bool-cases (same_identity d s)) [
  | inl e ↦ rw e (inr (refl, omega arith))
  | inr e ↦ rw e (find_second d m xs)
]

Decides-cons :
    (d s : Identity) (xs : List Identity) (m : Match)
    → same_identity d s ≡ false
    → Decides d xs m
    → Decides d (s ∷ xs) m
Decides-cons d s xs no_match e h = rw e h
Decides-cons d s xs ambiguous e h = rw e h
Decides-cons d s xs (matched m) e (n, p, q, r) = rw e (n, p, q, Memᴰ.tail r)

Decides-one :
    (d s : Identity) (xs : List Identity)
    → same_identity d s ≡ true
    → candidates d xs ≡ 0
    → Decides d (s ∷ xs) (matched s)
Decides-one d s xs e n = (
  rw e (ap suc n),
  ground (arith, eq_iff s.name d.name),
  ground (arith, eq_iff s.kind d.kind),
  Memᴰ.head refl,
)

Decides-two :
    (d s : Identity) (xs : List Identity)
    → same_identity d s ≡ true
    → 1 ≤ candidates d xs
    → Decides d (s ∷ xs) ambiguous
Decides-two d s xs e n = rw e (omega arith)

-- The search for a Discord entity ends in a match only if exactly one available entity has its
-- name and kind, and the match is that one; it ends ambiguous only if there are at least two,
-- and without a match only if there is none.
pub find_match-Decides :
    (d : Identity) (xs : List Identity) → Decides d xs (find_match d no_match xs)
unfolding find_match
find_match-Decides d [] = refl
find_match-Decides d (s ∷ xs) = elim (Bool-cases (same_identity d s)) [
  | inl e ↦ elim (find_second d s xs) [
    | inl (f, n) ↦
        subst (Decides d (s ∷ xs)) {x = matched s} (sym (rw e f)) (Decides-one d s xs e n)
    | inr (f, n) ↦
        subst (Decides d (s ∷ xs)) {x = ambiguous} (sym (rw e f)) (Decides-two d s xs e n)
  ]
  | inr e ↦
      subst (Decides d (s ∷ xs)) {x = find_match d no_match xs} (sym (rw e refl))
        (Decides-cons d s xs (find_match d no_match xs) e (find_match-Decides d xs))
]

-- A Discord entity and the Stoat entity that it is bound to.
abbrev pub Pair : Type 0
Pair = Identity × Identity

abbrev pub planned : Identity → Match → List Pair × List Identity → List Pair × List Identity
planned d (matched s) (ps, left) = ((d, s) ∷ ps, left)
planned d _ r = r

abbrev pub remaining : Identity → Match → List Identity → List Identity
remaining d (matched s) xs = take_out d xs
remaining d _ xs = xs

-- What the loop over the unmapped entities binds, and what is left over.
unfoldable pub plan : List Identity → List Identity → List Pair × List Identity
plan available [] = ([], available)
plan available (d ∷ rest) =
    let m = find_match d no_match available in planned d m (plan (remaining d m available) rest)

match_here :
    (d x s : Identity) (xs : List Identity)
    → same_identity d x ≡ true
    → find_match d no_match (x ∷ xs) ≡ matched s
    → s ≡ x
unfolding find_match
match_here d x s xs e h = elim (find_second d x xs) [
  | inl (f, n) ↦ cc (sym h, sym (f_at e f))
  | inr (f, n) ↦ cc (sym h, sym (f_at e f))
]
  where
    f_at :
        {m : Match}
        → same_identity d x ≡ true
        → find_match d (matched x) xs ≡ m
        → find_match d no_match (x ∷ xs) ≡ m
    f_at p q = rw p q

match_there :
    (d x : Identity) (xs : List Identity)
    → same_identity d x ≡ false
    → find_match d no_match (x ∷ xs) ≡ find_match d no_match xs
unfolding find_match
match_there d x xs e = rw e refl

-- Taking out the match of `d` takes out just the one that the search has found.
take_out-Perm :
    (d : Identity) (xs : List Identity) (s : Identity)
    → find_match d no_match xs ≡ matched s
    → Perm xs (s ∷ take_out d xs)
unfolding take_out
take_out-Perm d [] s h = absurd (unfold find_match in cc h)
take_out-Perm d (x ∷ xs) s h = elim (Bool-cases (same_identity d x)) [
  | inl e ↦ rw (match_here d x s xs e h, e) (Perm.refl (x ∷ xs))
  | inr e ↦ rw e (
      Perm.trans (Perm.cons x (take_out-Perm d xs s (sym (match_there d x xs e) ∙ h)))
        (Perm.swap s x (take_out d xs)))
]

abbrev bound_then_left : List Pair × List Identity → List Identity
bound_then_left (ps, left) = map (λ (q : Pair). q.1) ps ++ left

planned-Perm :
    (d : Identity) (xs : List Identity) (m : Match) (r : List Pair × List Identity)
    → find_match d no_match xs ≡ m
    → Perm (remaining d m xs) (bound_then_left r)
    → Perm xs (bound_then_left (planned d m r))
planned-Perm d xs no_match r e h = h
planned-Perm d xs ambiguous r e h = h
planned-Perm d xs (matched s) r e h = Perm.trans (take_out-Perm d xs s e) (Perm.cons s h)

-- No Stoat entity is bound twice, and none is both bound and left over: the bound ones and those
-- left over are the available ones, in some order.
plan-Perm :
    (ds xs : List Identity) → Perm xs (map (λ (q : Pair). q.1) (plan xs ds).0 ++ (plan xs ds).1)
unfolding plan
plan-Perm [] xs = Perm.refl xs
plan-Perm (d ∷ ds) xs = planned-Perm d xs _ _ refl (plan-Perm ds _)

-- A pair of the plan has one name and one kind, and its Discord side is an unmapped entity.
abbrev pub SameIdentity : Pair → Type 0
SameIdentity (d, s) = (s.name ≡ d.name) × (s.kind ≡ d.kind)

planned-SameIdentity :
    (d : Identity) (xs : List Identity) (m : Match) (r : List Pair × List Identity)
    → Decides d xs m
    → All SameIdentity r.0
    → All SameIdentity (planned d m r).0
planned-SameIdentity d xs no_match r e h = h
planned-SameIdentity d xs ambiguous r e h = h
planned-SameIdentity d xs (matched s) r (n, p, q, m) h = ((p, q), h)

pub plan-SameIdentity : (ds xs : List Identity) → All SameIdentity (plan xs ds).0
unfolding plan
plan-SameIdentity [] xs = tt
plan-SameIdentity (d ∷ ds) xs =
    planned-SameIdentity d xs _ _ (find_match-Decides d xs) (plan-SameIdentity ds _)
