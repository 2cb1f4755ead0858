-- ===== src/Cpu/Retire/Effects/Requests.antt =====
-- reg-store.c: the request with which a commit clears the id of its destination.
use fakerv32i.Base.{
  ℕ, ◌<◌, ◌≡◌, refl, arith, ◌==◌, if◌then◌else◌, set, get_elem?-eq-get_or, get_or-set_self,
  get_or-set_ne, length-set, Option, none, some, done,
}
use fakerv32i.Rv32i.{RobOp}
use fakerv32i.Reg.{reg_mut_write}
use fakerv32i.RegStore.{RegStore, ClearIf}
use fakerv32i.RegStore.Slots.{HasSlots}
use fakerv32i.Cpu.{Cpu}
use fakerv32i.Cpu.Flush.{written}
use fakerv32i.Cpu.Commit.{clear_dest}
use fakerv32i.RegStore.{reg_store_rob_id_clear, slot_clear_if}
use fakerv32i.Cpu.Retire.Effects.{slot_at, empty_slot, Holds, HasTarget, after_set}

pub after_set-requests :
    (dest : Option ℕ) (value : ℕ) (regs : RegStore) (r : ℕ)
    → HasSlots regs
    → r < 32
    → (slot_at (after_set dest value regs) r).rob_id_clear_if ≡ (slot_at regs r).rob_id_clear_if
unfolding after_set
after_set-requests none value regs r h lt = refl
after_set-requests (some rd) value regs r h lt = ground (
  arith,
  get_or-set_self regs.slots rd
      (record (slot_at regs rd) { register = written (slot_at regs rd).register value }) empty_slot,
  get_or-set_ne regs.slots rd r
      (record (slot_at regs rd) { register = written (slot_at regs rd).register value }) empty_slot,
)

pub after_set-length :
    (dest : Option ℕ) (value : ℕ) (regs : RegStore)
    → HasSlots regs
    → HasSlots (after_set dest value regs)
unfolding after_set
after_set-length none value regs h = h
after_set-length (some rd) value regs h = ground (
  arith,
  length-set regs.slots rd
      (record (slot_at regs rd) { register = written (slot_at regs rd).register value }),
)

-- The request to clear the id of one slot.
requested : ℕ → RegStore → ℕ → RegStore
requested rd regs id = if rd == 0 then regs else record regs {
  slots = set regs.slots rd (record (slot_at regs rd) {
    rob_id_clear_if = written (slot_at regs rd).rob_id_clear_if (ClearIf.entry id);
  });
}

reg_store_rob_id_clear-requested :
    (rd id : ℕ) (regs : RegStore)
    → HasSlots regs
    → rd < 32
    → (slot_at regs rd).rob_id_clear_if.write_count ≡ 0
    → reg_store_rob_id_clear regs rd id ≡ done (requested rd regs id)
unfolding reg_store_rob_id_clear slot_clear_if reg_mut_write requested
reg_store_rob_id_clear-requested rd id regs h lt w =
    simp (get_elem?-eq-get_or regs.slots rd empty_slot (omega arith), w) (ground arith)

requested-Holds :
    (rd id : ℕ) (regs : RegStore) (values : ℕ → ℕ)
    → HasSlots regs
    → rd < 32
    → Holds regs values
    → Holds (requested rd regs id) values
unfolding requested
requested-Holds rd id regs values h lt holds r pos lt' =
    let new = record (slot_at regs rd) {
      rob_id_clear_if = written (slot_at regs rd).rob_id_clear_if (ClearIf.entry id);
    } in
    ground (
      arith,
      holds r pos lt',
      get_or-set_self regs.slots rd new empty_slot,
      get_or-set_ne regs.slots rd r new empty_slot,
    )

pub clear_dest-Holds :
    (op : RobOp) (dest : Option ℕ) (id : ℕ) (cpu : Cpu) (values : ℕ → ℕ)
    → HasTarget op dest
    → HasSlots cpu.reg_store
    → ((r : ℕ) → r < 32 → (slot_at cpu.reg_store r).rob_id_clear_if.write_count ≡ 0)
    → Holds cpu.reg_store values
    → (regs : RegStore) × (clear_dest dest id cpu ≡ done (record cpu { reg_store = regs }))
      × Holds regs values
unfolding clear_dest
clear_dest-Holds op none id cpu values t h w holds = (cpu.reg_store, refl, holds)
clear_dest-Holds op (some rd) id cpu values t h w holds = (
  requested rd cpu.reg_store id,
  rw (reg_store_rob_id_clear-requested rd id cpu.reg_store h t.0 (w rd t.0)) refl,
  requested-Holds rd id cpu.reg_store values h t.0 holds,
)
