-- ===== src/RegStore/Rename.antt =====
-- Renaming in reg-store.c: which reorder-buffer entry a register waits for, cycle by cycle.
use fakerv32i.Base.{
  ℕ, ◌≡◌, refl, arith, Bool, true, false, ◌==◌, if◌then◌else◌, List, [], ◌∷◌, Option, none, some,
  Outcome, done, ◌>>=◌,
}
use fakerv32i.Reg.{RegMut}
use fakerv32i.Reg.Cycle.{settled}
use fakerv32i.RegStore.{
  ClearIf, never, entry, always, Slot, reg_file_tick, forgets, slot_next, slot_tick, each_slot,
  slot_clear_if, slot_set, slot_rob_id_set,
}

-- A slot between two ticks: its value, and the entry that it waits for. What `rob_id_set` and
-- `rob_id_clear_if` show stems from the last cycle, and is not read again.
abbrev pub at_rest : ℕ → ℕ → ℕ → ClearIf → Slot
at_rest value id last_set last_clear = record {
  register = settled value;
  rob_id_set = record { buf = last_set; next = id; write_count = 0; clear = false };
  rob_id_clear_if = record { buf = last_clear; next = never; write_count = 0; clear = false };
  rob_id = id;
}

maybe {ℓ} : {A : Type ℓ} → (A → Slot → Outcome Slot) → Option A → Slot → Outcome Slot
maybe f none slot = done slot
maybe f (some a) slot = f a slot

-- What the rest of the processor does to one register in a cycle: a value committed, the entry of a
-- newly dispatched instruction, and a request to forget an entry; then the tick.
pub slot_cycle : Option ℕ → Option ℕ → Option ClearIf → Slot → Outcome Slot
unfolding maybe
slot_cycle value id clear slot = do
  s ← maybe slot_set value slot
  t ← maybe slot_rob_id_set id s
  u ← maybe slot_clear_if clear t
  slot_tick u

abbrev pub or_else {ℓ} : {A : Type ℓ} → Option A → A → A
or_else none a = a
or_else (some b) a = b

-- The entry after the cycle: the newest one, unless the request names it or all.
abbrev pub renamed : ℕ → Option ℕ → Option ClearIf → ℕ
renamed old id none = or_else id old
renamed old id (some never) = or_else id old
renamed old id (some (entry m)) = if m == or_else id old then 0 else or_else id old
renamed old id (some always) = 0

-- In a cycle with at most one write of each kind a register takes the committed value, and waits for
-- the newest entry, unless that very entry is to be forgotten, or all are. So the commit of an older
-- entry does not forget a newer one dispatched in the same cycle. The slot is at rest again.
pub slot_cycle-renamed :
    (value id last_set : ℕ) (last_clear : ClearIf) (new dispatched : Option ℕ)
    (clear : Option ClearIf)
    → slot_cycle new dispatched clear (at_rest value id last_set last_clear)
      ≡ done (
          at_rest
            (or_else new value)
            (renamed id dispatched clear)
            (or_else dispatched id)
            (or_else clear never))
unfolding slot_cycle maybe slot_set slot_rob_id_set slot_clear_if slot_tick slot_next forgets
slot_cycle-renamed value id last_set last_clear new dispatched clear = ground arith

-- The numbers of a slot at rest.
abbrev pub Rest : Type 0
Rest = ℕ × ℕ × ℕ × ClearIf

pub resting : List Rest → List Slot
resting [] = []
resting ((value, id, last_set, last_clear) ∷ rest) =
    at_rest value id last_set last_clear ∷ resting rest

-- The same registers, none of them waiting.
abbrev pub forgotten : List Rest → List Rest
forgotten [] = []
forgotten ((value, id, last_set, last_clear) ∷ rest) = (value, 0, id, always) ∷ forgotten rest

requested : List Rest → List Slot
requested [] = []
requested ((value, id, last_set, last_clear) ∷ rest) =
    record (at_rest value id last_set last_clear) {
      rob_id_clear_if = record { buf = last_clear; next = always; write_count = 1; clear = false };
    }
    ∷ requested rest

each_slot-request :
    (l : List Rest) → each_slot (slot_clear_if always) (resting l) ≡ done (requested l)
unfolding each_slot resting requested slot_clear_if
each_slot-request [] = refl
each_slot-request (r ∷ rest) = rw (each_slot-request rest) refl

each_slot-forget :
    (l : List Rest) → each_slot slot_tick (requested l) ≡ done (resting (forgotten l))
unfolding each_slot resting requested slot_tick slot_next forgets
each_slot-forget [] = refl
each_slot-forget (r ∷ rest) = rw (each_slot-forget rest) refl

-- When the request of `reg_file_clear` shows, the callback of the clock and the next tick leave every
-- register with its value and waiting for no entry.
pub reg_file_tick-forgets :
    (l : List Rest) (clear : RegMut Bool)
    → clear.buf ≡ true
    → (reg_file_tick (record { slots = resting l; clear = clear }) >>= λ reg.
        each_slot slot_tick reg.slots)
      ≡ done (resting (forgotten l))
unfolding reg_file_tick
reg_file_tick-forgets l clear h = rw (h, each_slot-request l) (each_slot-forget l)
