-- ===== src/Reconcile/Bind/Quiet.antt =====
-- The first two loops of bindEntities (internal/reconcile/reconcile.go) and the trace.
use luars_stoatcord.Prelude.{
  String, ◌≡◌, ◌∙◌, Bool, true, false, ◌&&◌, List, [], ◌∷◌, if◌then◌else◌, contains,
}
use luars_stoatcord.World.{EntityType, Env, World, Event}
use luars_stoatcord.World.Exec.{Exec, pure, Preserves, bind-Preserves}
use luars_stoatcord.Store.{get, write_pending, confirm}
use luars_stoatcord.Store.Quiet.{trace-get, trace-write_pending, trace-confirm, trace-remove}
use luars_stoatcord.Reconcile.Bind.{
  Identity, Match, no_match, ambiguous, matched, find_match, take_out, bind_one, bind_items,
  sort_items, clear_if, is_active, cons_first, cons_second, empty_canonical_state,
}

-- The trace of an earlier time.
abbrev pub TraceIs : List Event → World → Type 0
TraceIs es w = w.trace ≡ es

module _ (env : Env) (t : EntityType) (es : List Event) where
  TraceIs-bind_one :
      (d : Identity) (xs : List Identity) (m : Match)
      → Preserves (TraceIs es) (bind_one env t d xs m)
  TraceIs-bind_one d xs no_match = λ w h. h
  TraceIs-bind_one d xs ambiguous = λ w h. h
  TraceIs-bind_one d xs (matched s) =
      bind-Preserves (TraceIs es) (write_pending env t d.id empty_canonical_state) _
        (λ w h. trace-write_pending env w t d.id empty_canonical_state ∙ h)
        (λ _.
          bind-Preserves (TraceIs es) (confirm env t d.id s.id) (λ _. pure (take_out d xs))
            (λ w h. trace-confirm env w t d.id s.id ∙ h) (λ _ w h. h))

  pub TraceIs-bind_items : (ds xs : List Identity) → Preserves (TraceIs es) (bind_items env t xs ds)
  unfolding bind_items
  TraceIs-bind_items [] xs = λ w h. h
  TraceIs-bind_items (d ∷ ds) xs =
      bind-Preserves (TraceIs es) (bind_one env t d xs (find_match d no_match xs)) _
        (TraceIs-bind_one d xs _) (λ left. TraceIs-bind_items ds left)

  TraceIs-clear_if : (b : Bool) (k : String) → Preserves (TraceIs es) (clear_if env b t k)
  TraceIs-clear_if true k w h = trace-remove env w t k ∙ h
  TraceIs-clear_if false k w h = h

  TraceIs-branch :
      {A : Type 0} (b : Bool) (m n : Exec World A)
      → Preserves (TraceIs es) m
      → Preserves (TraceIs es) n
      → Preserves (TraceIs es) (if b then m else n)
  TraceIs-branch true m n hm hn = hm
  TraceIs-branch false m n hm hn = hn

  pub TraceIs-sort_items :
      (exist : List String) (ds : List Identity)
      → Preserves (TraceIs es) (sort_items env t exist ds)
  unfolding sort_items
  TraceIs-sort_items exist [] = λ w h. h
  TraceIs-sort_items exist (d ∷ ds) =
      bind-Preserves (TraceIs es) (get env t d.id) _ (λ w h. trace-get env w t d.id ∙ h)
        λ m.
          TraceIs-branch (is_active m && contains m.stoat_id exist) _ _
            (bind-Preserves (TraceIs es) (sort_items env t exist ds)
              (λ r. pure (cons_first m.stoat_id r)) (TraceIs-sort_items exist ds) (λ _ w h. h))
            (bind-Preserves (TraceIs es) (clear_if env (is_active m) t d.id) _
              (TraceIs-clear_if (is_active m) d.id)
              (λ _.
                bind-Preserves (TraceIs es) (sort_items env t exist ds)
                  (λ r. pure (cons_second d r)) (TraceIs-sort_items exist ds) (λ _ w h. h)))
