-- ===== src/Reservation/Issue/Loads.antt =====
-- Which stores of the reorder buffer a load of reservation-station.c passes.
use fakerv32i.Base.{
  ℕ, ◌+◌, ◌≡◌, ◌≢◌, ◌^◌, ◌≤◌, ◌⊎◌, inl, inr, arith, true, false, ◌==◌, ==_ne, List, [], ◌∷◌, ◌++◌,
  done, Outcome-cases,
}
use native.Mathlib.Decide.{dec_lt}
use fakerv32i.Isa.{Width}
use fakerv32i.Isa.Encoding.{width_funct3}
use fakerv32i.Rv32i.{RobOp}
use fakerv32i.Reservation.{RsPayload, rsu_overlap}
use fakerv32i.Reservation.Overlap.{Shares, bytes_of, rsu_overlap-inverted}
use fakerv32i.ReorderBuffer.{RobPayload, Entry, RobUnit, entry_of, id_at}
use fakerv32i.Reservation.Issue.{load_blocked, store_blocks}

-- No cell of a list holds the entry of the load.
abbrev pub Others : RobUnit → ℕ → List ℕ → Type 0
Others rob dest [] = Unit {0}
Others rob dest (p ∷ ps) = ((id : ℕ) → id_at rob p ≡ done id → id ≢ dest) × Others rob dest ps

-- What is tested for a load that passes a cell, and that the rest lets it pass.
blocked_step :
    (rob : RobUnit) (addr : ℕ) (payload : RsPayload) (p : ℕ) (ps : List ℕ)
    → ((id : ℕ) → id_at rob p ≡ done id → id ≢ payload.dest)
    → load_blocked rob addr payload (p ∷ ps) ≡ done false
    → (id : ℕ) × (entry : Entry) × (id_at rob p ≡ done id)
      × (entry_of rob id ≡ done entry)
      × (store_blocks addr payload entry.payload.buf ≡ done false)
      × (load_blocked rob addr payload ps ≡ done false)
unfolding load_blocked
blocked_step rob addr payload p ps other h = elim (Outcome-cases (id_at rob p)) [
  | inr (e, f) ↦ absurd (ground (arith, f, h))
  | inl (id, found) ↦
      let differs : (id == payload.dest) ≡ false = ==_ne id payload.dest (other id found) in
      elim (Outcome-cases (entry_of rob id)) [
        | inr (e, f) ↦ absurd (ground (arith, f, h, found, differs))
        | inl (entry, got) ↦ elim (Outcome-cases (store_blocks addr payload entry.payload.buf)) [
          | inr (e, f) ↦ absurd (ground (arith, f, h, found, differs, got))
          | inl (true, tested) ↦ absurd (ground (arith, tested, h, found, differs, got))
          | inl (false, tested) ↦
              (id, entry, found, got, tested, ground (arith, tested, h, found, differs, got))
        ]
      ]
]

-- The test at a cell whose entry is known.
blocked_known :
    (rob : RobUnit) (addr : ℕ) (payload : RsPayload) (p : ℕ) (ps : List ℕ) (id : ℕ) (entry : Entry)
    → ((id' : ℕ) → id_at rob p ≡ done id' → id' ≢ payload.dest)
    → id_at rob p ≡ done id
    → entry_of rob id ≡ done entry
    → load_blocked rob addr payload (p ∷ ps) ≡ done false
    → store_blocks addr payload entry.payload.buf ≡ done false
unfolding load_blocked
blocked_known rob addr payload p ps id entry other found got h =
    let differs : (id == payload.dest) ≡ false = ==_ne id payload.dest (other id found) in
    elim (Outcome-cases (store_blocks addr payload entry.payload.buf)) [
      | inr (e, f) ↦ absurd (ground (arith, f, h, found, differs, got))
      | inl (true, tested) ↦ absurd (ground (arith, tested, h, found, differs, got))
      | inl (false, tested) ↦ tested
    ]

-- What the test of an entry that is a store has found when the store does not hold the load back.
store_blocks-passed :
    (addr : ℕ) (payload : RsPayload) (old : RobPayload)
    → old.op ≡ RobOp.store
    → store_blocks addr payload old ≡ done false
    → (old.addr_ready ≡ true)
      × (addr ≢ old.addr)
      × (rsu_overlap addr payload.op_ls old.addr old.size ≡ done false)
unfolding store_blocks rsu_overlap
store_blocks-passed addr payload old is_store h =
    let ready : old.addr_ready ≡ true = ground (arith, is_store, h) in
    let passed : rsu_overlap addr payload.op_ls old.addr old.size ≡ done false =
      ground (arith, is_store, h, ready) in
    (ready, (λ e. ground (arith, e, passed)), passed)

-- A cell that the load passes.
passed_cell :
    (rob : RobUnit) (addr : ℕ) (payload : RsPayload) (before : List ℕ) (p : ℕ) (after : List ℕ)
    (id : ℕ) (entry : Entry)
    → Others rob payload.dest (before ++ (p ∷ []))
    → id_at rob p ≡ done id
    → entry_of rob id ≡ done entry
    → load_blocked rob addr payload (before ++ (p ∷ after)) ≡ done false
    → store_blocks addr payload entry.payload.buf ≡ done false
passed_cell rob addr payload (b ∷ before) p after id entry others found got h =
    let (i, e, f, g, t, later) =
      blocked_step rob addr payload b (before ++ (p ∷ after)) others.0 h in
    passed_cell rob addr payload before p after id entry others.1 found got later
passed_cell rob addr payload [] p after id entry others found got h =
    blocked_known rob addr payload p after id entry others.0 found got h

-- Whether the accesses share a byte, where neither of them reaches the end of the address space.
overlap-Shares :
    (v w : Width) (a b : ℕ)
    → a ≢ b
    → rsu_overlap a (width_funct3 v) b (width_funct3 w) ≡ done false
    → (2 ^ 32 ≤ a + bytes_of v) ⊎ (2 ^ 32 ≤ b + bytes_of w) ⊎ Shares v w a b
overlap-Shares v w a b ne h = elim (dec_lt (a + bytes_of v) (2 ^ 32)) [
  | no far ↦ inl (omega arith)
  | yes fv ↦ elim (dec_lt (b + bytes_of w) (2 ^ 32)) [
    | no far ↦ inr (inl (omega arith))
    | yes fw ↦
        let test = rsu_overlap-inverted v w a b ne fv fw in
        inr (inr (ground (arith, ne, h, test.1)))
  ]
]

-- A load that is not blocked passes an older store only if the address of the store is known and differs
-- from the load's; the two accesses then share a byte, so that the load reads the memory before the store
-- has written there, unless one of them reaches the end of the address space.
pub load_blocked-passes :
    (rob : RobUnit) (addr : ℕ) (payload : RsPayload) (before : List ℕ) (p : ℕ) (after : List ℕ)
    (id : ℕ) (entry : Entry) (v w : Width)
    → Others rob payload.dest (before ++ (p ∷ []))
    → id_at rob p ≡ done id
    → entry_of rob id ≡ done entry
    → entry.payload.buf.op ≡ RobOp.store
    → payload.op_ls ≡ width_funct3 v
    → entry.payload.buf.size ≡ width_funct3 w
    → load_blocked rob addr payload (before ++ (p ∷ after)) ≡ done false
    → (entry.payload.buf.addr_ready ≡ true)
      × (addr ≢ entry.payload.buf.addr)
      × ((2 ^ 32 ≤ addr + bytes_of v)
          ⊎ (2 ^ 32 ≤ entry.payload.buf.addr + bytes_of w)
          ⊎ Shares v w addr entry.payload.buf.addr)
load_blocked-passes rob addr payload before p after id entry v w others found got is_store lv sw h =
    let old = entry.payload.buf in
    let (ready, ne, passed) =
      store_blocks-passed addr payload old is_store
        (passed_cell rob addr payload before p after id entry others found got h) in
    (ready, ne, overlap-Shares v w addr old.addr ne (rw (← lv, ← sw) passed))
