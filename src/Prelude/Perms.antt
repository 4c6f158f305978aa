-- ===== src/Prelude/Perms.antt =====
-- Lists in another order.
use mathlib.Core.List.{List, [], ◌∷◌, map, Permᴰ}
use mathlib.Core.Path.{◌≡◌, refl, sym, subst}
use luars_stoatcord.Prelude.Lists.{All}

module _ {ℓ κ} {A : Type ℓ} (P : A → Type κ) where
  pub All-Permᴰ : {xs ys : List A} → Permᴰ xs ys → All P ys → All P xs
  All-Permᴰ Permᴰ.nil h = tt
  All-Permᴰ (Permᴰ.cons e p) (h, hs) = (subst P (sym e) h, All-Permᴰ p hs)
  All-Permᴰ (Permᴰ.swap e f) (h, (h', hs)) = (subst P (sym e) h', (subst P (sym f) h, hs))
  All-Permᴰ (Permᴰ.trans p q) h = All-Permᴰ p (All-Permᴰ q h)

-- A list that is `map f xs` in another order is `map f` of `xs` in another order.
pub map-Permᴰ :
    {A B : Type 0} (f : A → B) (ys zs : List B) (xs : List A)
    → zs ≡ map f xs
    → Permᴰ ys zs
    → (cs : List A) × Permᴰ cs xs × (ys ≡ map f cs)
map-Permᴰ f ys zs [] e Permᴰ.nil = ([], Permᴰ.nil, refl)
map-Permᴰ f ys zs (x ∷ xs) e Permᴰ.nil = cc
map-Permᴰ f ys zs [] e (Permᴰ.cons q p) = cc
map-Permᴰ f ys zs (x ∷ xs) e (Permᴰ.cons {l₁ = l₁} {l₂ = l₂} q p) =
    let (cs, r, h) = map-Permᴰ f l₁ l₂ xs (cc) p in (x ∷ cs, Permᴰ.cons refl r, cc)
map-Permᴰ f ys zs [] e (Permᴰ.swap q r) = cc
map-Permᴰ f ys zs (x ∷ []) e (Permᴰ.swap q r) = cc
map-Permᴰ f ys zs (x ∷ x' ∷ xs) e (Permᴰ.swap q r) = (x' ∷ x ∷ xs, Permᴰ.swap refl refl, cc)
map-Permᴰ f ys zs xs e (Permᴰ.trans {l₂ = l₂} p q) =
    let (cs, r, h) = map-Permᴰ f l₂ zs xs e q in
    let (ds, r', h') = map-Permᴰ f ys l₂ cs h p in (ds, Permᴰ.trans r' r, h')
