-- ===== src/FakeCpu/Frame.antt =====
-- What a tick of fakecpu.c leaves alone, for any word that it fetches.
use fakerv32i.Base.{ℕ, ◌≡◌, ◌≢◌, ◌⊎◌, ◌>>=◌}
use fakerv32i.Word.{add_word}
use fakerv32i.Inst.{Inst}
use fakerv32i.Rv32i.Opcode
use fakerv32i.FakeCpu.{FakeCpu}

-- No register but the destination, which is not register 0, and no memory is written.
abbrev WritesOne : FakeCpu → Inst → FakeCpu → Type 0
WritesOne cpu inst cpu' =
    ((r : ℕ) → (r ≢ inst.rd) ⊎ (r ≡ 0) → cpu'.regs r ≡ cpu.regs r) × (cpu'.mem ≡ cpu.mem)

-- A store changes no register and goes on at the next instruction; a branch changes neither registers nor
-- memory and goes on there or at its target; everything else writes its destination at most.
abbrev pub IsFramed : FakeCpu → Inst → FakeCpu → Type 0
IsFramed cpu inst cpu' =
    ((inst.opcode ≡ Opcode.store) × (cpu'.regs ≡ cpu.regs) × (cpu'.pc ≡ add_word cpu.pc 4))
    ⊎ ((inst.opcode ≡ Opcode.branch)
        × (cpu'.regs ≡ cpu.regs)
        × (cpu'.mem ≡ cpu.mem)
        × ((cpu'.pc ≡ add_word cpu.pc 4) ⊎ (cpu'.pc ≡ add_word inst.immediate cpu.pc)))
    ⊎ WritesOne cpu inst cpu'

module _ (cpu : FakeCpu) (inst : Inst) where
  abbrev next : ℕ
  next = add_word cpu.pc 4
