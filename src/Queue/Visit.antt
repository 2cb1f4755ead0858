-- ===== src/Queue/Visit.antt =====
-- The loops `queue_foreach` over a ring.
use fakerv32i.Base.{
  ℕ, zero, suc, ◌+◌, ◌%◌, ◌≤◌, ◌<◌, ◌≡◌, ◌≢◌, ◌⊎◌, inl, inr, refl, arith, List, [], ◌∷◌, none, some,
  done,
}
use native.Mathlib.Nat.{mod-eq_of_lt}
use native.Mathlib.Decide.{dec_lt, ℕ_discrete}
use fakerv32i.Queue.{Queue, queue_foreach, queue_visit, visited}
use fakerv32i.Queue.Window.{span, span-cases}

-- The positions of the `n` entries from `h` on.
abbrev pub positions : ℕ → ℕ → ℕ → List ℕ
positions cap h zero = []
positions cap h (suc n) = h ∷ positions cap ((h + 1) % cap) n

mod-twice :
    (cap x : ℕ) → x < cap + cap → ((x < cap) × (x % cap ≡ x)) ⊎ ((cap ≤ x) × (x % cap + cap ≡ x))
mod-twice cap x h = elim (dec_lt x cap) [
  | yes p ↦ inl (p, grind (arith, mod-eq_of_lt))
  | no p ↦ inr (omega arith, grind arith)
]

-- The position of round `i`, and of the round after it.
round-next : (cap h i : ℕ) → h < cap → suc i < cap → (i + 1 + h) % cap ≡ ((i + h) % cap + 1) % cap
round-next cap h i hh hi =
    ground
      (arith, mod-twice cap (i + h), mod-twice cap (i + 1 + h), mod-twice cap ((i + h) % cap + 1))

round-ends :
    (cap h t i : ℕ)
    → h < cap
    → t < cap
    → i ≤ span cap h t
    → ((i ≡ span cap h t) × ((i + h) % cap ≡ t))
      ⊎ ((i < span cap h t) × ((i + h) % cap ≢ t) × ((i + h) % cap < cap))
round-ends cap h t i hh ht le = elim (ℕ_discrete i (span cap h t)) [
  | yes p ↦ inl (p, ground (arith, p, span-cases cap h t hh ht, mod-twice cap (i + h)))
  | no p ↦ inr (
    omega arith,
    ground (arith, span-cases cap h t hh ht, mod-twice cap (i + h)),
    ground (arith, span-cases cap h t hh ht, mod-twice cap (i + h)),
  )
]

module _ {ℓ} {A : Type ℓ} where
  -- The positions of a queue lie in its array.
  pub record IsPlaced (q : Queue A) : Type 0 where
    pub head_lt : q.head.buf < q.capacity
    pub tail_lt : q.tail.buf < q.capacity

  -- How many entries it holds.
  abbrev pub held : Queue A → ℕ
  held q = span q.capacity q.head.buf q.tail.buf

  foreach-step :
      (q : Queue A) (i : ℕ)
      → IsPlaced q
      → i < held q
      → queue_foreach q i ≡ done (some ((i + q.head.buf) % q.capacity))
  unfolding queue_foreach
  foreach-step q i v lt = ground (
    arith,
    round-ends q.capacity q.head.buf q.tail.buf i v.head_lt v.tail_lt (omega arith),
    span-cases q.capacity q.head.buf q.tail.buf v.head_lt v.tail_lt,
  )

  foreach-end : (q : Queue A) (i : ℕ) → IsPlaced q → i ≡ held q → queue_foreach q i ≡ done none
  unfolding queue_foreach
  foreach-end q i v e =
      ground
        (arith, round-ends q.capacity q.head.buf q.tail.buf i v.head_lt v.tail_lt (omega arith))

  visit-round :
      (q : Queue A) (fuel i p : ℕ) (ps : List ℕ)
      → queue_foreach q i ≡ done (some p)
      → queue_visit fuel q (i + 1) ≡ done (some ps)
      → queue_visit (suc fuel) q i ≡ done (some (p ∷ ps))
  unfolding queue_visit
  visit-round q fuel i p ps e later = rw (queue_visit, e, later) refl

  visit-positions :
      (q : Queue A) (n i fuel : ℕ)
      → IsPlaced q
      → i + n ≡ held q
      → n ≤ fuel
      → queue_visit (suc fuel) q i
        ≡ done (some (positions q.capacity ((i + q.head.buf) % q.capacity) n))
  unfolding queue_visit
  visit-positions q zero i fuel v e h = rw (queue_visit, foreach-end q i v (omega (arith, e))) refl
  visit-positions q (suc n) i zero v e h = absurd (omega arith)
  visit-positions q (suc n) i (suc fuel) v e h =
      let at = (i + q.head.buf) % q.capacity in
      let same : (i + 1 + q.head.buf) % q.capacity ≡ (at + 1) % q.capacity = ground (
        arith,
        round-next q.capacity q.head.buf i v.head_lt,
        span-cases q.capacity q.head.buf q.tail.buf v.head_lt v.tail_lt,
      ) in
      visit-round q (suc fuel) i at (positions q.capacity ((at + 1) % q.capacity) n)
        (foreach-step q i v (omega (arith, e)))
        (rw (← same) (visit-positions q n (i + 1) fuel v (omega (arith, e)) (omega arith)))

  -- From valid positions the loops over a queue end, and visit the places of its entries in order, from the
  -- head up to the place before the tail, and no other.
  pub visited-positions :
      (q : Queue A) → IsPlaced q → visited q ≡ done (positions q.capacity q.head.buf (held q))
  unfolding visited
  visited-positions q v =
      let all =
        visit-positions q (held q) 0 q.capacity v (omega arith)
          (omega (arith, span-cases q.capacity q.head.buf q.tail.buf v.head_lt v.tail_lt)) in
      let start : (0 + q.head.buf) % q.capacity ≡ q.head.buf =
        grind (arith, mod-eq_of_lt, v.head_lt) in
      rw (visited, all, start) refl
