-- ===== src/Bus/Grant.antt =====
-- Whom the arbiter of bus.c grants the bus.
use fakerv32i.Base.{
  ℕ, zero, suc, ◌+◌, ◌≡◌, ◌≢◌, ◌<◌, ◌⊎◌, inl, inr, refl, arith, Bool, true, false, List, [], ◌∷◌,
  Bool-cases,
}
use fakerv32i.Reg.{RegMut}
use fakerv32i.Bus.{Bus, arb_scan, bus_arb}

-- Whether the request with an index is set; none is set outside the list.
pub asks : List (RegMut Bool) → ℕ → Bool
asks [] i = false
asks (r ∷ rest) zero = r.buf
asks (r ∷ rest) (suc i) = asks rest i

-- A grant: the number of the first request that is set, or 0 when none is.
abbrev pub IsFirst : List (RegMut Bool) → ℕ → Type 0
IsFirst reqs zero = (i : ℕ) → asks reqs i ≡ false
IsFirst reqs (suc g) = (asks reqs g ≡ true) × ((i : ℕ) → i < g → asks reqs i ≡ false)

quiet_cons :
    (r : RegMut Bool) (rest : List (RegMut Bool)) (g : ℕ)
    → r.buf ≡ false
    → ((i : ℕ) → i < g → asks rest i ≡ false)
    → (i : ℕ) → i < suc g
    → asks (r ∷ rest) i ≡ false
unfolding asks
quiet_cons r rest g h k zero lt = h
quiet_cons r rest g h k (suc i) lt = k i (omega arith)

none_cons :
    (r : RegMut Bool) (rest : List (RegMut Bool))
    → r.buf ≡ false
    → ((i : ℕ) → asks rest i ≡ false)
    → (i : ℕ) → asks (r ∷ rest) i ≡ false
unfolding asks
none_cons r rest h k zero = h
none_cons r rest h k (suc i) = k i

-- The scan from the request with the number `i + 1` on finds none, or the first one.
abbrev Scanned : ℕ → List (RegMut Bool) → Type 0
Scanned i reqs =
    ((arb_scan i reqs ≡ 0) × ((j : ℕ) → asks reqs j ≡ false))
    ⊎ ((g : ℕ) × (arb_scan i reqs ≡ i + g + 1) × IsFirst reqs (suc g))

scan_cons :
    (i : ℕ) (r : RegMut Bool) (rest : List (RegMut Bool))
    → r.buf ≡ false
    → Scanned (i + 1) rest
    → Scanned i (r ∷ rest)
unfolding arb_scan asks
scan_cons i r rest h (inl (e, k)) = inl (rw h e, none_cons r rest h k)
scan_cons i r rest h (inr (g, e, first)) =
    inr (suc g, rw (h, e) (omega arith), (first.0, quiet_cons r rest g h first.1))

arb_scan-first : (i : ℕ) (reqs : List (RegMut Bool)) → Scanned i reqs
unfolding arb_scan asks
arb_scan-first i [] = inl (refl, λ j. refl)
arb_scan-first i (r ∷ rest) = elim (Bool-cases r.buf) [
  | inl h ↦ inr (0, rw h (omega arith), (h, λ j lt. absurd (omega arith)))
  | inr h ↦ scan_cons i r rest h (arb_scan-first (i + 1) rest)
]

IsFirst-same : (reqs : List (RegMut Bool)) (n m : ℕ) → n ≡ m → IsFirst reqs m → IsFirst reqs n
IsFirst-same reqs n m e h = rw e h

grant_of : (reqs : List (RegMut Bool)) → Scanned 0 reqs → IsFirst reqs (arb_scan 0 reqs)
grant_of reqs (inl (e, k)) = IsFirst-same reqs (arb_scan 0 reqs) 0 e k
grant_of reqs (inr (g, e, first)) =
    IsFirst-same reqs (arb_scan 0 reqs) (suc g) (omega (arith, e)) first

module _ {ℓ} {A : Type ℓ} where
  -- Outside a clear the arbiter grants the bus to the first of those that ask for it, and to nobody
  -- exactly if nobody asks; during a clear it grants it to nobody.
  pub bus_arb-IsFirst :
      (bus : Bus A)
      → (bus.clear.buf ≡ 0 → IsFirst bus.req (bus_arb bus)) × (bus.clear.buf ≢ 0 → bus_arb bus ≡ 0)
  unfolding bus_arb
  bus_arb-IsFirst bus =
      ((λ h. rw h (grant_of bus.req (arb_scan-first 0 bus.req))), (λ h. ground arith))
