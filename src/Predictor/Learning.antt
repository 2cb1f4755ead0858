-- ===== src/Predictor/Learning.antt =====
-- What the predictor of branch-predictor.c keeps and learns.
use fakerv32i.Base.{
  ℕ, ◌+◌, ◌*◌, ◌/◌, ◌%◌, ◌^◌, ◌≤◌, ◌<◌, ◌≡◌, ◌≢◌, ◌⊎◌, refl, arith, bit_and, bit_or, Bool, true,
  false, leb, of_bool, Outcome, done, fault, undefined, ◌>>=◌, List, [], ◌∷◌, length,
}
use fakerv32i.Base.Bits.{bit_or-low, bit_and-ones}
use fakerv32i.Predictor.{
  BranchPredictor, BpResult, bp_create, bp_hash, state_at, branch_predict, saturate, bp_feedback,
  update_state, same,
}

-- Counters of two bits, a history of eight, and no more hits than predictions.
pub record IsValid (bp : BranchPredictor) : Type 0 where
  pub counters : (i j : ℕ) → bp.state i j ≤ 3
  pub history : bp.hist < 2 ^ 8
  pub hits : bp.correct ≤ bp.total
  pub jalr_hits : bp.jalr_correct ≤ bp.jalr_total

bp_hash-lt : (pc : ℕ) → bp_hash pc < 2 ^ 8
unfolding bp_hash
bp_hash-lt pc = omega (arith, bit_and-ones 8 (pc / 2 ^ 2))

shifted :
    (hist : ℕ) (b : Bool)
    → bit_and (bit_or (hist * 2) (of_bool b)) 255 ≡ (hist * 2 + of_bool b) % 2 ^ 8
shifted hist b =
    ground (arith, bit_or-low 1 hist (of_bool b), bit_and-ones 8 (bit_or (hist * 2) (of_bool b)))

saturate-le : (b : Bool) (n : ℕ) → n ≤ 3 → saturate b n ≤ 3
unfolding saturate
saturate-le b n h = ground arith

-- The predictor after a feedback, in closed form.
pub fed : BranchPredictor → ℕ → BpResult → Bool → BranchPredictor
fed bp pc res b = record bp {
  total = bp.total + 1;
  correct = bp.correct + of_bool (same b res.take);
  state = update_state bp.state res.hist (bp_hash pc) (saturate b (bp.state res.hist (bp_hash pc)));
  hist = (bp.hist * 2 + of_bool b) % 2 ^ 8;
}

bp_feedback-fed :
    (bp : BranchPredictor) (pc : ℕ) (res : BpResult) (b : Bool)
    → res.hist < 2 ^ 8
    → bp_feedback bp pc res b ≡ done (fed bp pc res b)
unfolding bp_feedback state_at fed
bp_feedback-fed bp pc res b h = ground (arith, bp_hash-lt pc, shifted bp.hist b)

fed-IsValid :
    (bp : BranchPredictor) (pc : ℕ) (res : BpResult) (b : Bool)
    → IsValid bp
    → IsValid (fed bp pc res b)
unfolding fed
fed-IsValid bp pc res b v = record {
  counters = λ i j. ground (
    arith,
    v.counters i j,
    saturate-le b (bp.state res.hist (bp_hash pc)) (v.counters res.hist (bp_hash pc)),
  );
  history = omega arith;
  hits = ground (arith, v.hits);
  jalr_hits = v.jalr_hits;
}

-- From a valid state no access leaves the table: prediction and feedback return, the prediction carries
-- the current history, and a feedback with any history of eight bits leaves a valid state.
pub bp_feedback-IsValid :
    (bp : BranchPredictor) (pc : ℕ) (res : BpResult) (b : Bool)
    → IsValid bp
    → res.hist < 2 ^ 8
    → (branch_predict bp pc
        ≡ done (record { take = leb 2 (bp.state bp.hist (bp_hash pc)); hist = bp.hist }))
      × (bp' : BranchPredictor) × (bp_feedback bp pc res b ≡ done bp')
      × IsValid bp'
unfolding branch_predict state_at
bp_feedback-IsValid bp pc res b v h = (
  ground (arith, bp_hash-lt pc, v.history),
  (fed bp pc res b),
  bp_feedback-fed bp pc res b h,
  fed-IsValid bp pc res b v,
)

saturate_twice : (b : Bool) (n : ℕ) → n ≤ 3 → leb 2 (saturate b (saturate b n)) ≡ b
unfolding saturate
saturate_twice true n h = ground arith
saturate_twice false n h = ground arith

same_entry : (f : ℕ → ℕ → ℕ) (i j v : ℕ) → update_state f i j v i j ≡ v
same_entry f i j v = ground arith

other_entry :
    (f : ℕ → ℕ → ℕ) (i j v i' j' : ℕ) → (i ≢ i') ⊎ (j ≢ j') → update_state f i j v i' j' ≡ f i' j'
other_entry f i j v i' j' h = ground arith

-- Two feedbacks with the same outcome for one address and history turn that counter to the outcome,
-- whatever it was, and leave every other counter as it was.
bp_feedback_twice :
    (bp : BranchPredictor) (pc : ℕ) (res : BpResult) (b : Bool)
    → IsValid bp
    → res.hist < 2 ^ 8
    → (bp' : BranchPredictor) × ((bp_feedback bp pc res b >>= λ bp1. bp_feedback bp1 pc res b)
        ≡ done bp')
      × (leb 2 (bp'.state res.hist (bp_hash pc)) ≡ b)
      × ((i j : ℕ) → (res.hist ≢ i) ⊎ (bp_hash pc ≢ j) → bp'.state i j ≡ bp.state i j)
unfolding fed
bp_feedback_twice bp pc res b v h =
    let i = res.hist in
    let j = bp_hash pc in
    let once = saturate b (bp.state i j) in
    (
      fed (fed bp pc res b) pc res b,
      rw (bp_feedback-fed bp pc res b h) (bp_feedback-fed (fed bp pc res b) pc res b h),
      rw (same_entry (update_state bp.state i j once) i j, same_entry bp.state i j once)
          (saturate_twice b (bp.state i j) (v.counters i j)),
      (λ i' j' apart.
          rw
            (
              other_entry (update_state bp.state i j once) i j
                  (saturate b (update_state bp.state i j once i j)) i' j' apart,
              other_entry bp.state i j once i' j' apart,
            )
            refl),
    )

-- A branch as it is fed back: its address, what was predicted, and the outcome.
abbrev pub Fed : Type 0
Fed = ℕ × BpResult × Bool

pub feed : BranchPredictor → List Fed → Outcome BranchPredictor
feed bp [] = done bp
feed bp ((pc, res, b) ∷ rest) = bp_feedback bp pc res b >>= λ bp1. feed bp1 rest

abbrev pub InTable : List Fed → Type 0
InTable [] = Unit
InTable ((pc, res, b) ∷ rest) = (res.hist < 2 ^ 8) × InTable rest

-- The number whose binary digits are the last eight outcomes, the latest lowest.
abbrev pub recent : ℕ → List Fed → ℕ
recent hist [] = hist
recent hist ((pc, res, b) ∷ rest) = recent ((hist * 2 + of_bool b) % 2 ^ 8) rest

-- Any feedbacks within the table shift their outcomes into the history, and count themselves.
pub feed-recent :
    (bp : BranchPredictor) (l : List Fed)
    → IsValid bp
    → InTable l
    → (bp' : BranchPredictor) × (feed bp l ≡ done bp')
      × (bp'.hist ≡ recent bp.hist l)
      × (bp'.total ≡ bp.total + length l)
      × IsValid bp'
unfolding feed fed
feed-recent bp [] v h = (bp, refl, refl, omega arith, v)
feed-recent bp ((pc, res, b) ∷ rest) v h =
    let r = feed-recent (fed bp pc res b) rest (fed-IsValid bp pc res b v) h.1 in
    (r.0, rw (bp_feedback-fed bp pc res b h.0) r.1, r.2, omega (arith, r.3), r.4)

-- The history that the allocation leaves behind decides: below 256 the new predictor is valid, and from
-- there on its first prediction reads outside the table.
pub bp_create-garbage :
    (garbage pc : ℕ)
    → (garbage < 2 ^ 8 → IsValid (bp_create garbage))
      × (2 ^ 8 ≤ garbage → branch_predict (bp_create garbage) pc ≡ fault undefined)
unfolding bp_create branch_predict state_at
bp_create-garbage garbage pc = (
  (λ h. record {
    counters = λ i j. omega arith;
    history = h;
    hits = omega arith;
    jalr_hits = omega arith;
  }),
  (λ h. ground arith),
)
