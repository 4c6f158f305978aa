-- ===== src/Store/Quiet.antt =====
-- The operations of internal/store and the trace of outside calls.
use luars_stoatcord.Prelude.{◌≡◌, String, arith}
use luars_stoatcord.Canonical.Json.{Json}
use luars_stoatcord.World.{EntityType, server, Env, World}
use luars_stoatcord.Store.{get, write_pending, confirm, remove, enqueue}

module _ (env : Env) (w : World) where
  pub trace-get : (t : EntityType) (k : String) → (get env t k w).1.trace ≡ w.trace
  unfolding get
  trace-get server k = ground arith
  trace-get t k = ground arith

  pub trace-write_pending :
      (t : EntityType) (k : String) (state : Json)
      → (write_pending env t k state w).1.trace ≡ w.trace
  unfolding write_pending
  trace-write_pending server k state = ground arith
  trace-write_pending t k state = ground arith

  pub trace-confirm :
      (t : EntityType) (k stoat_id : String) → (confirm env t k stoat_id w).1.trace ≡ w.trace
  unfolding confirm
  trace-confirm server k stoat_id = ground arith
  trace-confirm t k stoat_id = ground arith

  pub trace-remove : (t : EntityType) (k : String) → (remove env t k w).1.trace ≡ w.trace
  unfolding remove
  trace-remove server k = ground arith
  trace-remove t k = ground arith

  pub trace-enqueue : (s : String) (j : Json) → (enqueue env s j w).1.trace ≡ w.trace
  unfolding enqueue
  trace-enqueue s j = ground arith
