-- ===== src/Reg/Cycle.antt =====
-- What a cycle of writes and a tick does to the registers of reg.c.
use fakerv32i.Base.{
  ◌≡◌, refl, arith, Bool, true, false, ◌||◌, Option, none, some, Outcome, done, fault, assertion,
  ◌>>=◌, List, [], ◌∷◌, ◌++◌,
}
use fakerv32i.Reg.{RegMut, RegReduce, reg_mut_tick, reg_mut_write, reg_reduce_tick, reg_or_write}

module _ {ℓ} {A : Type ℓ} where
  -- A register that no one has written in this cycle, and that holds its value.
  abbrev pub settled : A → RegMut A
  settled v = record { buf = v; next = v; write_count = 0; clear = false }

  -- A register of a kind that falls back to zero.
  abbrev pub pulse : A → A → RegMut A
  pulse zero v = record { buf = v; next = zero; write_count = 0; clear = true }

  -- One cycle: the values that are written in it, in order, and the tick.
  pub cycle_mut : A → List A → RegMut A → Outcome (RegMut A)
  cycle_mut zero [] r = done (reg_mut_tick zero r)
  cycle_mut zero (v ∷ vs) r = reg_mut_write r (λ _. v) >>= cycle_mut zero vs

  pub cycles_mut : A → List (List A) → RegMut A → Outcome (RegMut A)
  cycles_mut zero [] r = done r
  cycles_mut zero (vs ∷ rest) r = cycle_mut zero vs r >>= cycles_mut zero rest

  -- The value after some cycles, each of which writes at most once.
  abbrev pub last : A → List (Option A) → A
  last v [] = v
  last v (none ∷ rest) = last v rest
  last v (some w ∷ rest) = last w rest

  abbrev pub written : List (Option A) → List (List A)
  written [] = []
  written (none ∷ rest) = [] ∷ written rest
  written (some w ∷ rest) = (w ∷ []) ∷ written rest

  -- Over cycles that write at most once each, a register that is not cleared behaves as a variable:
  -- it ends up with the last value written, or its first one.
  pub cycles_mut-written :
      (zero : A) (ws : List (Option A)) (v : A)
      → cycles_mut zero (written ws) (settled v) ≡ done (settled (last v ws))
  unfolding cycles_mut cycle_mut reg_mut_write reg_mut_tick
  cycles_mut-written zero [] v = refl
  cycles_mut-written zero (none ∷ rest) v = cycles_mut-written zero rest v
  cycles_mut-written zero (some w ∷ rest) v = cycles_mut-written zero rest w

  -- A second write in one cycle fails the assertion, whatever is written and however often.
  cycle_mut-twice :
      (zero v w : A) (vs : List A) (r : RegMut A) → cycle_mut zero (v ∷ w ∷ vs) r ≡ fault assertion
  unfolding cycle_mut reg_mut_write
  cycle_mut-twice zero v w vs r = ground arith

abbrev pub or_all : List Bool → Bool
or_all [] = false
or_all (b ∷ bs) = b || or_all bs

abbrev pub or_writes : RegReduce Bool → List Bool → RegReduce Bool
or_writes r [] = r
or_writes r (b ∷ bs) = or_writes (reg_or_write r b) bs

or_writes-next :
    (bs : List Bool) (r : RegReduce Bool) → or_writes r bs ≡ record r { next = r.next || or_all bs }
unfolding reg_or_write
or_writes-next [] r = ground arith
or_writes-next (b ∷ bs) r = ground (arith, or_writes-next bs (reg_or_write r b))

or_all-append : (bs cs : List Bool) → or_all (bs ++ cs) ≡ or_all cs || or_all bs
or_all-append [] cs = ground arith
or_all-append (b ∷ bs) cs = ground (arith, or_all-append bs cs)

-- After the tick an or-register that was reset holds the disjunction of all that was written in the
-- cycle and is reset again, and the order in which two callbacks write makes no difference.
reg_or_cycle :
    (bs cs : List Bool) (old : Bool)
    → let r : RegReduce Bool = record { init = false; buf = old; next = false } in
      (reg_reduce_tick (or_writes r bs) ≡ record { init = false; buf = or_all bs; next = false })
      × (or_writes r (bs ++ cs) ≡ or_writes r (cs ++ bs))
unfolding reg_reduce_tick
reg_or_cycle bs cs old =
    let r : RegReduce Bool = record { init = false; buf = old; next = false } in
    (
      ground (arith, or_writes-next bs r),
      ground (
        arith,
        or_writes-next (bs ++ cs) r,
        or_writes-next (cs ++ bs) r,
        or_all-append bs cs,
        or_all-append cs bs,
      ),
    )
