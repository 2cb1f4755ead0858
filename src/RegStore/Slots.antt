-- ===== src/RegStore/Slots.antt =====
-- The operations of reg-store.c keep the number of registers.
use fakerv32i.Base.{
  ℕ, suc, ◌≡◌, refl, ap, arith, List, [], ◌∷◌, length, get_elem?, set, length-set, Outcome, done,
  ◌>>=◌, Always, Always-bind, Always-if, Always-then, ◌∙◌, ◌==◌, if◌then◌else◌, in_range,
}
use fakerv32i.Reg.{reg_mut_write}
use fakerv32i.RegStore.{
  RegStore, Slot, ClearIf, entry, reg_count, reg_store_create, each_slot, slot_clear_if, slot_set,
  slot_rob_id_set, reg_file_tick, reg_store_set, reg_store_rob_id_set, reg_store_rob_id_clear,
  reg_file_clear,
}

-- One slot for each register.
abbrev pub HasSlots : RegStore → Type 0
HasSlots reg = length reg.slots ≡ reg_count

pub reg_store_create-HasSlots : HasSlots reg_store_create
unfolding reg_store_create
reg_store_create-HasSlots = refl

pub each_slot-length :
    (f : Slot → Outcome Slot) (slots : List Slot)
    → Always (λ s. length s ≡ length slots) (each_slot f slots)
unfolding each_slot
each_slot-length f [] = refl
each_slot-length f (s ∷ rest) =
    Always-then (λ r. length r ≡ suc (length rest)) (f s) _
      λ s'.
        Always-bind (λ r. length r ≡ length rest) (λ r. length r ≡ suc (length rest))
          (each_slot f rest) _ (each_slot-length f rest) λ r e. ap suc e

pub reg_file_tick-HasSlots : (reg : RegStore) → HasSlots reg → Always HasSlots (reg_file_tick reg)
unfolding reg_file_tick
reg_file_tick-HasSlots reg h =
    ground (arith, each_slot-length (slot_clear_if ClearIf.always) reg.slots)

-- A change of one slot.
slot_change-HasSlots :
    (reg : RegStore) (id : ℕ) (g : Slot → Outcome Slot)
    → HasSlots reg
    → Always HasSlots (
        if id == 0 then done reg else do
          slot ← in_range (get_elem? reg.slots id)
          slot' ← g slot
          done (record reg { slots = set reg.slots id slot' }))
slot_change-HasSlots reg id g h = Always-if HasSlots (id == 0) (done reg) _ h (
    Always-then HasSlots (in_range (get_elem? reg.slots id)) _
      λ slot. Always-then HasSlots (g slot) _ λ slot'. length-set reg.slots id slot' ∙ h)

pub reg_store_set-HasSlots :
    (reg : RegStore) (id value : ℕ) → HasSlots reg → Always HasSlots (reg_store_set reg id value)
unfolding reg_store_set
reg_store_set-HasSlots reg id value = slot_change-HasSlots reg id (slot_set value)

pub reg_store_rob_id_set-HasSlots :
    (reg : RegStore) (id value : ℕ)
    → HasSlots reg
    → Always HasSlots (reg_store_rob_id_set reg id value)
unfolding reg_store_rob_id_set
reg_store_rob_id_set-HasSlots reg id value = slot_change-HasSlots reg id (slot_rob_id_set value)

pub reg_store_rob_id_clear-HasSlots :
    (reg : RegStore) (id value : ℕ)
    → HasSlots reg
    → Always HasSlots (reg_store_rob_id_clear reg id value)
unfolding reg_store_rob_id_clear
reg_store_rob_id_clear-HasSlots reg id value =
    slot_change-HasSlots reg id (slot_clear_if (entry value))

pub reg_file_clear-HasSlots : (reg : RegStore) → HasSlots reg → Always HasSlots (reg_file_clear reg)
unfolding reg_file_clear reg_mut_write
reg_file_clear-HasSlots reg h = ground arith
