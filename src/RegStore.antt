-- ===== src/RegStore.antt =====
-- reg-store.c: the architectural registers, each with the reorder-buffer entry that will write it.
pub mod Rename
pub mod Slots
use fakerv32i.Base.{
  ℕ, zero, suc, Bool, true, false, ◌&&◌, ◌||◌, not, ◌==◌, if◌then◌else◌, List, [], ◌∷◌, replicate,
  get_elem?, set, Outcome, done, fault, ◌>>=◌, ◌>>◌, in_range,
}
use fakerv32i.Reg.{RegMut, reg_mut_create, reg_mut_read, reg_mut_write, reg_mut_tick}

-- A request to forget the entry of a register: none (0), a certain entry (its id), or any (-1).
pub data ClearIf : Type 0 where
  never : ClearIf
  entry : ℕ → ClearIf
  always : ClearIf

-- The four places of `reg_store_t` that belong to one register: `registers[i]`, `rob_id_set[i]`,
-- `rob_id_clear_if[i]` and `rob_ids->rob_ids[i]`. An id is a number, 0 for none.
pub record Slot : Type 0 where
  pub register : RegMut ℕ
  pub rob_id_set : RegMut ℕ
  pub rob_id_clear_if : RegMut ClearIf
  pub rob_id : ℕ

pub record RegStore : Type 0 where
  pub slots : List Slot
  pub clear : RegMut Bool

abbrev pub reg_count : ℕ
reg_count = 32

unfoldable pub reg_store_create : RegStore
reg_store_create = record {
  slots = replicate reg_count (record {
    register = reg_mut_create 0;
    rob_id_set = reg_mut_create 0;
    rob_id_clear_if = reg_mut_create never;
    rob_id = 0;
  });
  clear = record { buf = false; next = false; write_count = 0; clear = true };
}

-- `id_clear == id && id != 0`, or `id_clear < 0`.
unfoldable pub forgets : ClearIf → ℕ → Bool
forgets never id = false
forgets (entry m) id = (m == id) && not (id == 0)
forgets always id = true

-- One round of the loop of `_reg_file_next`, the update of `rob_ids`. The write counts are set back by
-- hand, so that these writes do not count.
unfoldable pub slot_next : Slot → Outcome Slot
unfolding reg_mut_read reg_mut_write
slot_next slot = do
  let id = reg_mut_read slot.rob_id_set
  let id_clear = reg_mut_read slot.rob_id_clear_if
  clear_if' ← reg_mut_write slot.rob_id_clear_if (λ _. never)
  let slot' = record slot { rob_id_clear_if = record clear_if' { write_count = 0 } }
  if forgets id_clear id
      then (do
        set' ← reg_mut_write slot.rob_id_set (λ _. 0)
        done (record slot' { rob_id_set = record set' { write_count = 0 }; rob_id = 0 }))
      else done (record slot' { rob_id = id })

-- The registers of a slot at a tick of the clock, and then the update.
unfoldable pub slot_tick : Slot → Outcome Slot
unfolding reg_mut_tick
slot_tick slot = slot_next (record slot {
  register = reg_mut_tick 0 slot.register;
  rob_id_set = reg_mut_tick 0 slot.rob_id_set;
  rob_id_clear_if = reg_mut_tick never slot.rob_id_clear_if;
})

-- A loop over the slots.
unfoldable pub each_slot : (Slot → Outcome Slot) → List Slot → Outcome (List Slot)
each_slot f [] = done []
each_slot f (s ∷ rest) = do s' ← f s; rest' ← each_slot f rest; done (s' ∷ rest')

unfoldable pub slot_clear_if : ClearIf → Slot → Outcome Slot
unfolding reg_mut_write
slot_clear_if value slot = do
  clear_if' ← reg_mut_write slot.rob_id_clear_if (λ _. value)
  done (record slot { rob_id_clear_if = clear_if' })

-- `_reg_file_tick`, the callback of the clock.
unfoldable pub reg_file_tick : RegStore → Outcome RegStore
unfolding reg_mut_read
reg_file_tick reg =
    if reg_mut_read reg.clear
    then (do
      slots' ← each_slot (slot_clear_if always) reg.slots
      done (record reg { slots = slots' }))
    else done reg

-- The slot of a register; register 0 never gets that far.
abbrev slot_of : RegStore → ℕ → Outcome Slot
slot_of reg id = in_range (get_elem? reg.slots id)

abbrev with_slot : RegStore → ℕ → Slot → RegStore
with_slot reg id slot = record reg { slots = set reg.slots id slot }

unfoldable pub reg_store_get : RegStore → ℕ → Outcome ℕ
unfolding reg_mut_read
reg_store_get reg id =
    if id == 0 then done 0 else do slot ← slot_of reg id; done (reg_mut_read slot.register)

unfoldable pub slot_set : ℕ → Slot → Outcome Slot
unfolding reg_mut_write
slot_set value slot = do
  register' ← reg_mut_write slot.register (λ _. value)
  done (record slot { register = register' })

unfoldable pub reg_store_set : RegStore → ℕ → ℕ → Outcome RegStore
unfolding slot_set
reg_store_set reg id value =
    if id == 0
    then done reg
    else do slot ← slot_of reg id; slot' ← slot_set value slot; done (with_slot reg id slot')

unfoldable pub reg_store_rob_id_get : RegStore → ℕ → Outcome ℕ
reg_store_rob_id_get reg id = if id == 0 then done 0 else do slot ← slot_of reg id; done slot.rob_id

pub slot_rob_id_set : ℕ → Slot → Outcome Slot
unfolding reg_mut_write
slot_rob_id_set value slot = do
  set' ← reg_mut_write slot.rob_id_set (λ _. value)
  done (record slot { rob_id_set = set' })

unfoldable pub reg_store_rob_id_set : RegStore → ℕ → ℕ → Outcome RegStore
unfolding slot_rob_id_set
reg_store_rob_id_set reg id value =
    if id == 0
    then done reg
    else do slot ← slot_of reg id; slot' ← slot_rob_id_set value slot; done (with_slot reg id slot')

unfoldable pub reg_store_rob_id_clear : RegStore → ℕ → ℕ → Outcome RegStore
unfolding slot_clear_if
reg_store_rob_id_clear reg id value = if id == 0 then done reg else do
  slot ← slot_of reg id
  slot' ← slot_clear_if (entry value) slot
  done (with_slot reg id slot')

unfoldable pub reg_file_clear : RegStore → Outcome RegStore
unfolding reg_mut_write
reg_file_clear reg = do
  clear' ← reg_mut_write reg.clear (λ _. true)
  done (record reg { clear = clear' })
