-- ===== src/Examples/Sorting.antt =====
-- A sorter for the examples: the insertion sort.
use mathlib.Core.List.{Permᴰ}
use mathlib.Core.List.Permᴰ
use luars_stoatcord.Prelude.{
  ◌≡◌, refl, false, List, [], ◌∷◌, All, if◌then◌else◌, Bool-cases, inl, inr, arith,
}
use luars_stoatcord.Prelude.Int.{ℤ, ◌≤ℤ◌, ltb_ℤ}
use luars_stoatcord.Discord.Translation.Sidebar.{Sorted, Sorter}

module _ {A : Type 0} (key : A → ℤ) where
  abbrev put : A → List A → List A
  put x [] = x ∷ []
  put x (y ∷ ys) = let rest = put x ys in if ltb_ℤ (key y) (key x) then y ∷ rest else x ∷ (y ∷ ys)

  abbrev sorted : List A → List A
  sorted [] = []
  sorted (x ∷ xs) = put x (sorted xs)

  put-Permᴰ : (x : A) (ys : List A) → Permᴰ (put x ys) (x ∷ ys)
  put-Permᴰ x [] = Permᴰ.refl (x ∷ [])
  put-Permᴰ x (y ∷ ys) = elim (Bool-cases (ltb_ℤ (key y) (key x))) [
    | inl e ↦ rw e (Permᴰ.trans (Permᴰ.cons refl (put-Permᴰ x ys)) (Permᴰ.swap refl refl))
    | inr e ↦ rw e (Permᴰ.refl (x ∷ (y ∷ ys)))
  ]

  sorted-Permᴰ : (xs : List A) → Permᴰ (sorted xs) xs
  sorted-Permᴰ [] = Permᴰ.nil
  sorted-Permᴰ (x ∷ xs) = Permᴰ.trans (put-Permᴰ x (sorted xs)) (Permᴰ.cons refl (sorted-Permᴰ xs))

  put-All : (P : A → Type 0) (x : A) (ys : List A) → P x → All P ys → All P (put x ys)
  put-All P x [] p h = (p, tt)
  put-All P x (y ∷ ys) p (h, hs) = elim (Bool-cases (ltb_ℤ (key y) (key x))) [
    | inl e ↦ rw e (h, put-All P x ys p hs)
    | inr e ↦ rw e (p, (h, hs))
  ]

  raise_bound :
      (a b : ℤ) (ys : List A) → a ≤ℤ b → All (λ y. b ≤ℤ key y) ys → All (λ y. a ≤ℤ key y) ys
  raise_bound a b [] h hs = tt
  raise_bound a b (y ∷ ys) h (g, gs) = (omega arith, raise_bound a b ys h gs)

  at_most : (x y : A) → ltb_ℤ (key y) (key x) ≡ false → key x ≤ℤ key y
  at_most x y e = ground arith

  put-Sorted : (x : A) (ys : List A) → Sorted key ys → Sorted key (put x ys)
  put-Sorted x [] h = (tt, tt)
  put-Sorted x (y ∷ ys) (low, h) = elim (Bool-cases (ltb_ℤ (key y) (key x))) [
    | inl e ↦ rw e (put-All (λ z. key y ≤ℤ key z) x ys (ground arith) low, put-Sorted x ys h)
    | inr e ↦ rw e ((at_most x y e, raise_bound (key x) (key y) ys (at_most x y e) low), (low, h))
  ]

  sorted-Sorted : (xs : List A) → Sorted key (sorted xs)
  sorted-Sorted [] = tt
  sorted-Sorted (x ∷ xs) = put-Sorted x (sorted xs) (sorted-Sorted xs)

pub insertion_sort : Sorter
insertion_sort = record {
  sort = λ A key xs. sorted key xs;
  reorders = λ A key xs. sorted-Permᴰ key xs;
  ascends = λ A key xs. sorted-Sorted key xs;
}
