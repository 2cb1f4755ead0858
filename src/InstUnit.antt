-- ===== src/InstUnit.antt =====
-- inst-unit.c: the program counter, and its redirection after a misprediction.
pub mod Dispatch
use fakerv32i.Base.{ℕ, Bool, true, false, Outcome, done, fault, ◌>>=◌}
use fakerv32i.Reg.{RegMut, reg_mut_create, reg_mut_write}

-- `struct _inst_unit_force_pc`.
pub record ForcePc : Type 0 where
  pub busy : Bool
  pub addr : ℕ

-- `inst_unit_t`, without its pointers to the other components.
pub record InstUnit : Type 0 where
  pub pc : RegMut ℕ
  pub force_pc : RegMut ForcePc

abbrev pub no_force : ForcePc
no_force = record { busy = false; addr = 0 }

unfoldable pub inst_unit_create : InstUnit
unfolding reg_mut_create
inst_unit_create = record { pc = reg_mut_create 0; force_pc = reg_mut_create no_force }

unfoldable pub inst_unit_force_pc : InstUnit → ℕ → Outcome InstUnit
unfolding reg_mut_write
inst_unit_force_pc unit pc = do
  force_pc' ← reg_mut_write unit.force_pc (λ next. record { busy = true; addr = pc })
  done (record unit { force_pc = force_pc' })
