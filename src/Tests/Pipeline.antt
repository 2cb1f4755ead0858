-- ===== src/Tests/Pipeline.antt =====
-- Instances for the predictor, the register store and the classes of instructions.
use fakerv32i.Base.{
  ◌≡◌, ◌≤◌, ◌<◌, ◌^◌, ◌+◌, arith, refl, Bool, true, false, leb, some, [], ◌∷◌, done, fault,
  undefined, ◌>>=◌,
}
use fakerv32i.Reg.{RegMut}
use fakerv32i.RegStore.{entry, always, never, each_slot, slot_tick, reg_file_tick}
use fakerv32i.RegStore.Rename.{
  at_rest, slot_cycle, slot_cycle-renamed, resting, reg_file_tick-forgets,
}
use fakerv32i.Predictor.{BranchPredictor, BpResult, bp_create, bp_hash, branch_predict, bp_feedback}
use fakerv32i.Predictor.Learning.{
  IsValid, bp_feedback-IsValid, feed, feed-recent, bp_create-garbage,
}

fresh_IsValid : IsValid (bp_create 5)
fresh_IsValid = (bp_create-garbage 5 0).0 (omega arith)

abbrev taken : BpResult
taken = record { take = true; hist = 5 }

bp_feedback-IsValid_example :
    (branch_predict (bp_create 5) 64
      ≡ done (record {
        take = leb 2 ((bp_create 5).state (bp_create 5).hist (bp_hash 64));
        hist = (bp_create 5).hist;
      }))
    × (bp' : BranchPredictor) × (bp_feedback (bp_create 5) 64 taken false ≡ done bp')
    × IsValid bp'
bp_feedback-IsValid_example =
    bp_feedback-IsValid (bp_create 5) 64 taken false fresh_IsValid (omega arith)

feed-recent_example :
    (bp' : BranchPredictor) × (feed (bp_create 5) ((64, taken, true) ∷ (68, taken, false) ∷ [])
      ≡ done bp')
    × (bp'.hist ≡ 22)
    × (bp'.total ≡ (bp_create 5).total + 2)
    × IsValid bp'
unfolding bp_create
feed-recent_example =
    feed-recent (bp_create 5) ((64, taken, true) ∷ (68, taken, false) ∷ []) fresh_IsValid
      (omega arith, omega arith)

bp_create-garbage_example :
    (300 < 2 ^ 8 → IsValid (bp_create 300))
    × (2 ^ 8 ≤ 300 → branch_predict (bp_create 300) 64 ≡ fault undefined)
bp_create-garbage_example = bp_create-garbage 300 64

slot_cycle-renamed_example :
    slot_cycle (some 40) (some 3) (some (entry 2)) (at_rest 7 2 2 never)
    ≡ done (at_rest 40 3 3 (entry 2))
slot_cycle-renamed_example = slot_cycle-renamed 7 2 2 never (some 40) (some 3) (some (entry 2))

abbrev clearing : RegMut Bool
clearing = record { buf = true; next = false; write_count = 0; clear = true }

reg_file_tick-forgets_example :
    (reg_file_tick (record { slots = resting ((7, 2, 2, never) ∷ []); clear = clearing }) >>= λ reg.
    each_slot slot_tick reg.slots)
    ≡ done (resting ((7, 0, 2, always) ∷ []))
reg_file_tick-forgets_example = reg_file_tick-forgets ((7, 2, 2, never) ∷ []) clearing refl
