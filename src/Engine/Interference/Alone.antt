-- ===== src/Engine/Interference/Alone.antt =====
-- `process` of internal/engine/engine.go when the other goroutines do nothing meanwhile.
use luars_stoatcord.Prelude.{ℕ, ◌≡◌, refl, Bool}
use luars_stoatcord.World.{Env, World}
use luars_stoatcord.Engine.Op.{Op, OpKind, op_create, op_update, op_delete}
use luars_stoatcord.Engine.Process.{process, process_delete, process_update, push, by_kind}
use luars_stoatcord.Engine.Interference.{
  delete_among, push_among, update_among, by_kind_among, process_among,
}

abbrev pub nobody : ℕ → World → World
nobody n w = w

module _ (env : Env) (op : Op) where
  push_among-nobody : push_among env nobody op ≡ push env op
  unfolding push_among push
  push_among-nobody = refl

  update_among-nobody : update_among env nobody op ≡ process_update env op
  unfolding update_among process_update
  update_among-nobody = rw push_among-nobody refl

  by_kind_among-nobody : (kind : OpKind) → by_kind_among env nobody kind op ≡ by_kind env kind op
  unfolding delete_among process_delete
  by_kind_among-nobody op_create = update_among-nobody
  by_kind_among-nobody op_update = update_among-nobody
  by_kind_among-nobody op_delete = refl

  -- If nobody else does anything meanwhile, this is `process` as it is.
  pub process_among-nobody :
      (dry_run : Bool) (w : World)
      → process_among env nobody dry_run op w ≡ process env dry_run op w
  unfolding process_among process
  process_among-nobody dry_run w = rw (by_kind_among-nobody op.kind) refl
