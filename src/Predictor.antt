-- ===== src/Predictor.antt =====
-- branch-predictor.c: two-bit counters chosen by the recent history and by the address.
pub mod Learning
use fakerv32i.Base.{
  ℕ, ◌+◌, ◌-◌, ◌*◌, ◌/◌, ◌%◌, ◌^◌, bit_and, bit_or, Bool, true, false, ◌&&◌, ◌==◌, ltb, leb,
  if◌then◌else◌, of_bool, Outcome, done, fault, undefined, ◌>>=◌, ◌>>◌, defined,
}

abbrev pub bp_bits : ℕ
bp_bits = 256

abbrev pub bp_size : ℕ
bp_size = 0x100

abbrev pub bp_mask : ℕ
bp_mask = 0x0ff

abbrev pub bp_hist_mask : ℕ
bp_hist_mask = 0b11111111

abbrev pub bp_max : ℕ
bp_max = 3

abbrev pub bp_threshold : ℕ
bp_threshold = 2

-- `branch_predictor_t`. The table is a function of the two indices, with `bp_bits` rows and `bp_size`
-- columns; the four counters of type `long` are taken not to overflow.
pub record BranchPredictor : Type 0 where
  pub state : ℕ → ℕ → ℕ
  pub hist : ℕ
  pub total : ℕ
  pub correct : ℕ
  pub jalr_total : ℕ
  pub jalr_correct : ℕ

-- `bp_result_t`.
pub record BpResult : Type 0 where
  pub take : Bool
  pub hist : ℕ

-- `bp_create` does not set the history: `garbage` is what the allocated memory holds there.
unfoldable pub bp_create : ℕ → BranchPredictor
bp_create garbage = record {
  state = λ i j. bp_threshold;
  hist = garbage;
  total = 0;
  correct = 0;
  jalr_total = 0;
  jalr_correct = 0;
}

-- `_bp_hash`.
unfoldable pub bp_hash : ℕ → ℕ
bp_hash pc = bit_and (pc / 2 ^ 2) bp_mask

-- A read of the table, undefined outside it.
unfoldable pub state_at : BranchPredictor → ℕ → ℕ → Outcome ℕ
state_at bp i j = do defined (ltb i bp_bits && ltb j bp_size); done (bp.state i j)

unfoldable pub branch_predict : BranchPredictor → ℕ → Outcome BpResult
branch_predict bp pc = do
  state ← state_at bp bp.hist (bp_hash pc)
  done (record { take = leb bp_threshold state; hist = bp.hist })

-- The counter's step in `bp_feedback`.
pub saturate : Bool → ℕ → ℕ
saturate true state = if ltb state bp_max then state + 1 else state
saturate false state = if ltb 0 state then state - 1 else state

abbrev pub update_state : (ℕ → ℕ → ℕ) → ℕ → ℕ → ℕ → ℕ → ℕ → ℕ
update_state f i j v i' j' = if (i == i') && (j == j') then v else f i' j'

abbrev pub same : Bool → Bool → Bool
same true b = b
same false true = false
same false false = true

pub bp_feedback : BranchPredictor → ℕ → BpResult → Bool → Outcome BranchPredictor
bp_feedback bp pc res actual_take = do
  state ← state_at bp res.hist (bp_hash pc)
  done (record bp {
    total = bp.total + 1;
    correct = bp.correct + of_bool (same actual_take res.take);
    state = update_state bp.state res.hist (bp_hash pc) (saturate actual_take state);
    hist = bit_and (bit_or (bp.hist * 2) (of_bool actual_take)) bp_hist_mask;
  })

pub bp_feedback_jalr : BranchPredictor → ℕ → ℕ → Bool → BranchPredictor
bp_feedback_jalr bp pc actual correct = record bp {
  jalr_total = bp.jalr_total + 1;
  jalr_correct = bp.jalr_correct + of_bool correct;
}
