-- ===== src/Store/Migrations/Outcome.antt =====
-- What the opening of the database (internal/store/store.go) leaves behind.
use luars_stoatcord.Prelude.{
  ℕ, ◌+◌, ◌≤◌, ◌≡◌, ◌⊎◌, refl, sym, subst, ◌∙◌, String, Bool, true, false, not, ◌==◌, ◌||◌, List,
  [], ◌∷◌, ◌++◌, contains, select, length, All, if◌then◌else◌, arith, Bool-cases, inl, inr,
}
use mathlib.Core.Path.{subst₂}
use mathlib.Core.List.{append_assoc, append-nil}
use luars_stoatcord.Canonical.Result.{Result, ok, err}
use luars_stoatcord.World.Exec.{Exec, pure, ◌>>◌, continue}
use luars_stoatcord.Store.Migrations.{
  Schema, sql, is_applied, apply_file, apply_each, apply_migrations, open_with_migrations,
}

-- The files that are not recorded yet, in order.
abbrev pub pending : Schema → List String → List String
pending s names = select (λ name. not (contains name s.recorded)) names

-- A run that succeeds has executed and recorded just the files of `todo`, in order. One that fails has
-- executed and recorded the first of them, and executed at most the next one without recording it.
abbrev pub Migrated : List String → List String → List String → Result (Unit {0}) × Schema → Type 0
Migrated todo recorded executed (ok _, s') =
    (s'.recorded ≡ recorded ++ todo) × (s'.executed ≡ executed ++ todo)
Migrated todo recorded executed (err _, s') =
    (done : List String) × (last : List String) × (rest : List String) × (todo
      ≡ done ++ (last ++ rest))
    × (s'.recorded ≡ recorded ++ done)
    × (s'.executed ≡ executed ++ (done ++ last))
    × (length last ≤ 1)

abbrev pub MigratedFrom : List String → Schema → Result (Unit {0}) × Schema → Type 0
MigratedFrom todo s r = Migrated todo s.recorded s.executed r

-- No two files have the same name.
abbrev pub Distinct : List String → Type 0
Distinct [] = Unit
Distinct (name ∷ names) = All (λ other. (name == other) ≡ false) names × Distinct names

-- After a first part, the rest.
Migrated-continue :
    (a b : List String) (s : Schema) (r : Result (Unit {0}) × Schema)
    → (n : Exec Schema (Unit {0})) → MigratedFrom a s r
    → ((s1 : Schema) → s1.recorded ≡ s.recorded ++ a → MigratedFrom b s1 (n s1))
    → MigratedFrom (a ++ b) s (continue r.0 (λ _. n) r.1)
Migrated-continue a b s (err e, s') n (done, last, rest, t, p, q, small) k =
    (done, last, rest ++ b, rw t (simp append_assoc), p, q, small)
Migrated-continue a b s (ok _, s1) n (p, q) k = extend (n s1) (k s1 p)
  where
    extend : (r : Result (Unit {0}) × Schema) → MigratedFrom b s1 r → MigratedFrom (a ++ b) s r
    extend (ok _, s') (p', q') =
        (p' ∙ rw (p, append_assoc s.recorded a b), q' ∙ rw (q, append_assoc s.executed a b))
    extend (err e, s') (done, last, rest, t, p', q', small) = (
      a ++ done,
      last,
      rest,
      rw t (sym (append_assoc a done (last ++ rest))),
      p' ∙ rw (p, append_assoc s.recorded a done),
      q' ∙ simp (q, append_assoc),
      small,
    )

contains-append :
    (name : String) (xs ys : List String)
    → contains name (xs ++ ys) ≡ (contains name xs || contains name ys)
contains-append name [] ys = refl
contains-append name (x ∷ xs) ys = ground (arith, contains-append name xs ys)

still_pending :
    (recorded a names : List String)
    → All (λ other. contains other a ≡ false) names
    → select (λ name. not (contains name (recorded ++ a))) names
      ≡ select (λ name. not (contains name recorded)) names
still_pending recorded a [] h = refl
still_pending recorded a (name ∷ names) (h, hs) =
    ground (arith, contains-append name recorded a, still_pending recorded a names hs)

apart :
    (name : String) (names : List String)
    → All (λ other. (name == other) ≡ false) names
    → All (λ other. contains other (name ∷ []) ≡ false) names
apart name [] h = tt
apart name (other ∷ others) (h, hs) = (rw h refl, apart name others hs)

apart_nil : (names : List String) → All (λ other. contains other [] ≡ false) names
apart_nil [] = tt
apart_nil (name ∷ names) = (refl, apart_nil names)

module _ (fails : ℕ → Bool) where
  apply_file-Migrated :
      (name : String) (s : Schema) → MigratedFrom (name ∷ []) s (apply_file fails name s)
  unfolding apply_file
  apply_file-Migrated name s = elim (Bool-cases (fails s.asked)) [
    | inl e ↦ rw e ([], [], _, refl, sym (append-nil _), sym (append-nil _), omega arith)
    | inr e ↦ rw e (second (Bool-cases (fails (s.asked + 1))))
  ]
    where
      s1 : Schema
      s1 = record s { executed = s.executed ++ name ∷ []; asked = s.asked + 1 }

      second :
          (fails (s.asked + 1) ≡ true) ⊎ (fails (s.asked + 1) ≡ false)
          → MigratedFrom
              (name ∷ [])
              s
              (sql fails (λ s. record s { recorded = s.recorded ++ name ∷ [] }) s1)
      second (inl f) = rw f ([], name ∷ [], [], refl, sym (append-nil _), refl, omega arith)
      second (inr f) = rw f (refl, refl)

  after_check-Migrated :
      (b : Bool) (name : String) (names : List String) (s : Schema)
      → All (λ other. (name == other) ≡ false) names
      → ((s1 : Schema) → MigratedFrom (pending s1 names) s1 (apply_each fails names s1))
      → MigratedFrom
          (if not b then name ∷ pending s names else pending s names)
          s
          (((if b then pure tt else apply_file fails name) >> apply_each fails names) s)
  after_check-Migrated true name names s fresh ih = ih s
  after_check-Migrated false name names s fresh ih =
      Migrated-continue (name ∷ []) (pending s names) s (apply_file fails name s)
        (apply_each fails names) (apply_file-Migrated name s)
        (λ s1 p.
          subst (λ todo. MigratedFrom todo s1 (apply_each fails names s1)) (same s1 p) (ih s1))
    where
      same :
          (s1 : Schema) → s1.recorded ≡ s.recorded ++ name ∷ [] → pending s1 names ≡ pending s names
      same s1 p = rw p (still_pending s.recorded (name ∷ []) names (apart name names fresh))

  apply_each-Migrated :
      (names : List String) (s : Schema)
      → Distinct names
      → MigratedFrom (pending s names) s (apply_each fails names s)
  unfolding apply_each is_applied
  apply_each-Migrated [] s d = (sym (append-nil _), sym (append-nil _))
  apply_each-Migrated (name ∷ names) s (fresh, d) = elim (Bool-cases (fails s.asked)) [
    | inl e ↦ rw e ([], [], _, refl, sym (append-nil _), sym (append-nil _), omega arith)
    | inr e ↦ rw e (
        after_check-Migrated (contains name s.recorded) name names
          (record s { asked = s.asked + 1 }) fresh (λ s1. apply_each-Migrated names s1 d))
  ]

  -- A statement that changes none of the two lists comes first.
  quiet_first :
      (f : Schema → Schema) (m : Exec Schema (Unit {0})) (names : List String) (s : Schema)
      → (f (record s { asked = s.asked + 1 })).recorded ≡ s.recorded
      → (f (record s { asked = s.asked + 1 })).executed ≡ s.executed
      → ((s1 : Schema) → MigratedFrom (pending s1 names) s1 (m s1))
      → MigratedFrom (pending s names) s ((sql fails f >> m) s)
  unfolding sql
  quiet_first f m names s p q h = elim (Bool-cases (fails s.asked)) [
    | inl e ↦ rw e ([], [], _, refl, sym (append-nil _), sym (append-nil _), omega arith)
    | inr e ↦ rw e (
        subst₂
          (λ (r x : List String).
            Migrated (select (λ name. not (contains name r)) names) r x (m next))
          p q (h next))
  ]
    where
      next : Schema
      next = f (record s { asked = s.asked + 1 })

  apply_migrations-Migrated :
      (names : List String) (s : Schema)
      → Distinct names
      → MigratedFrom (pending s names) s (apply_migrations fails names s)
  unfolding apply_migrations
  apply_migrations-Migrated names s d =
      quiet_first (λ s. s) (apply_each fails names) names s refl refl
        (λ s1. apply_each-Migrated names s1 d)

  -- For files with different names: if the opening of the database succeeds, it has executed and
  -- recorded just the files that were not recorded before, in order. If it fails, it has executed
  -- and recorded the first few of these, and executed at most the next one without recording it.
  pub open-Migrated :
      (names : List String) (s : Schema)
      → Distinct names
      → MigratedFrom (pending s names) s (open_with_migrations fails names s)
  unfolding open_with_migrations
  open-Migrated names s d =
      quiet_first (λ s. s) _ names s refl refl
        (λ s1.
          quiet_first (λ s. record s { foreign_keys = true }) (apply_migrations fails names) names
            s1 refl refl (λ s2. apply_migrations-Migrated names s2 d))
