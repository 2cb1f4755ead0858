-- ===== src/Queue/Refine.antt =====
-- Between two ticks of the clock a queue is a bounded list: what the calls of a cycle return, and what
-- they leave, is what a list of fewer than `capacity` entries gives.
use fakerv32i.Base.{
  ℕ, ◌+◌, ◌%◌, ◌<◌, ◌≡◌, ◌≢◌, refl, ap, sym, ◌∙◌, arith, List, [], ◌∷◌, ◌++◌, length, get_or, set,
  Bool, true, false, not, ◌==◌, ltb, if◌then◌else◌, ◌&&◌, Option, none, some, Outcome, done, ◌>>=◌,
  length-set,
}
use mathlib.Core.Path.{ap₂}
use native.Mathlib.Decide.{ℕ_discrete}
use fakerv32i.Reg.{RegMut}
use fakerv32i.Queue.{Queue}
use fakerv32i.Queue.Window.{
  window, length-window, window-pop, window-push, span, span-cases, wrap-cases,
}
use fakerv32i.Queue.Cycle.{
  ring, IsRing, contents, mid, cell_read, push_step, settle, pop_step, queue_cycle, pop-ring,
  pop-empty, enqueue-full, enqueue-mid, tick-mid, tick-pushed, get_elem?-settled,
}

-- The same cycle on a list that holds fewer than `cap` entries.
abbrev take_first {ℓ} : {A : Type ℓ} → Bool → List A → List A × Option A
take_first true (x ∷ xs) = (xs, some x)
take_first _ xs = (xs, none)

pub list_cycle {ℓ} : {A : Type ℓ} → ℕ → Bool → Option A → List A → List A × Option A × Bool
list_cycle cap pops none xs = let (rest, out) = take_first pops xs in (rest, out, false)
list_cycle cap pops (some v) xs =
    let (rest, out) = take_first pops xs in
    if ltb (length xs + 1) cap then (rest ++ (v ∷ []), out, true) else (rest, out, false)

-- What the owner sees of a cycle, and the queue at rest after it.
pub record Refines {ℓ} {A : Type ℓ} (blank : A) (cap : ℕ)
    (got : Outcome (Queue A × Option A × Bool)) (want : List A × Option A × Bool) : Type ℓ where
  pub cells : List A
  pub head : ℕ
  pub tail : ℕ
  pub valid : IsRing cap cells head tail
  pub entries : contents blank cap cells head tail ≡ want.0
  pub returns : got ≡ done (ring cap cells head tail, want.1, want.2)

module _ {A : Type 0} (blank : A) (cap : ℕ) (cells : List A) (h t : ℕ)
    (v : IsRing cap cells h t) where
  abbrev xs : List A
  xs = contents blank cap cells h t

  room_iff :
      ((t + 1) % cap ≢ h → length xs + 1 < cap) × ((t + 1) % cap ≡ h → ¬ (length xs + 1 < cap))
  room_iff = (
    (λ other. ground (
      arith,
      length-window blank cap cells h (span cap h t),
      span-cases cap h t,
      wrap-cases cap t,
    )),
    (λ full. ground (
      arith,
      length-window blank cap cells h (span cap h t),
      span-cases cap h t,
      wrap-cases cap t,
    )),
  )

  next-lt : ((h + 1) % cap < cap) × ((t + 1) % cap < cap)
  next-lt = (ground (arith, wrap-cases cap h), ground (arith, wrap-cases cap t))

  empty-xs : h ≡ t → xs ≡ []
  empty-xs e = ap (window blank cap cells h) {y = 0} (ground (arith, span-cases cap h t))

  accepts : Option A → Bool
  accepts none = false
  accepts (some x) = not (h == (t + 1) % cap)

  new_cells : Option A → List A
  new_cells none = cells
  new_cells (some x) = if h == (t + 1) % cap then cells else set cells t x

  new_tail : Option A → ℕ
  new_tail none = t
  new_tail (some x) = if h == (t + 1) % cap then t else (t + 1) % cap

  -- The second half of a cycle, whatever the first did to the head.
  finish :
      (pushes : Option A) (h' n : ℕ) (out : Option A)
      → (push_step pushes
            (mid blank cap cells (record { buf = h; next = h'; write_count = n; clear = false }) t)
          >>= settle blank out)
        ≡ done (ring cap (new_cells pushes) h' (new_tail pushes), out, accepts pushes)
  unfolding push_step settle accepts new_cells new_tail
  finish none h' n out = rw (tick-mid blank cap cells h h' n t)
  finish (some x) h' n out =
      let head : RegMut ℕ = record { buf = h; next = h'; write_count = n; clear = false } in
      elim (ℕ_discrete h ((t + 1) % cap)) [
        | yes full ↦
            ground
              (arith, enqueue-full blank cap cells head t x full, tick-mid blank cap cells h h' n t)
        | no room ↦ ground (
          arith,
          enqueue-mid blank cap cells head t x v.0 v.2 room,
          tick-pushed blank cap cells h h' n t x,
        )
      ]

  new_head : Bool → ℕ
  new_head pops = if pops && not (h == t) then (h + 1) % cap else h

  popped : Bool → Option A
  popped pops = if pops && not (h == t) then some (get_or cells h blank) else none

  pops_none : h ≡ t → (new_head true ≡ h) × (popped true ≡ none)
  unfolding new_head popped
  pops_none e = ground arith

  pops_first : h ≢ t → (new_head true ≡ (h + 1) % cap) × (popped true ≡ some (get_or cells h blank))
  unfolding new_head popped
  pops_first other = ground arith

  -- A cycle in closed form.
  queue_cycle-ring :
      (pops : Bool) (pushes : Option A)
      → queue_cycle blank pops pushes (ring cap cells h t)
        ≡ done (
          ring cap (new_cells pushes) (new_head pops) (new_tail pushes),
          popped pops,
          accepts pushes,
        )
  unfolding queue_cycle pop_step cell_read
  queue_cycle-ring false pushes = unfold new_head popped in finish pushes h 0 none
  queue_cycle-ring true pushes = elim (ℕ_discrete h t) [
    | yes e ↦
        rw (pop-empty blank cap cells h t e, (pops_none e).0, (pops_none e).1)
          (finish pushes h 0 none)
    | no other ↦
        rw
          (
            pop-ring blank cap cells h t v other,
            get_elem?-settled cells h blank (omega arith),
            (pops_first other).0,
            (pops_first other).1,
          )
          (finish pushes ((h + 1) % cap) 1 (some (get_or cells h blank)))
  ]

  -- What is left of the entries after the pop, before the push.
  entries-pop :
      (pops : Bool)
      → (contents blank cap cells (new_head pops) t ≡ (take_first pops xs).0)
        × (popped pops ≡ (take_first pops xs).1)
  entries-pop false = unfold new_head popped in (refl, refl)
  entries-pop true = elim (ℕ_discrete h t) [
    | yes e ↦ rw ((pops_none e).0, (pops_none e).1) (rw (empty-xs e) (refl, refl))
    | no other ↦
        rw
          ((pops_first other).0, (pops_first other).1, window-pop blank cap cells h t v.1 v.2 other)
          (refl, refl)
  ]

  -- The tail does not catch up with the new head either.
  new_head-apart :
      (pops : Bool) → h ≢ (t + 1) % cap → ((t + 1) % cap ≢ new_head pops) × (new_head pops < cap)
  unfolding new_head
  new_head-apart pops room = ground (arith, wrap-cases cap h, wrap-cases cap t, next-lt)

  new_head-lt : (pops : Bool) → new_head pops < cap
  unfolding new_head
  new_head-lt pops = ground (arith, next-lt)

  -- The entries after the push, and whether it was accepted.
  entries-push :
      (pops : Bool) (x : A)
      → (contents blank cap (new_cells (some x)) (new_head pops) (new_tail (some x))
          ≡ (list_cycle cap pops (some x) xs).0)
        × (accepts (some x) ≡ (list_cycle cap pops (some x) xs).2)
        × (popped pops ≡ (list_cycle cap pops (some x) xs).1)
  unfolding new_cells new_tail accepts list_cycle
  entries-push pops x = elim (ℕ_discrete h ((t + 1) % cap)) [
    | yes full ↦
        let few : ¬ (length xs + 1 < cap) = room_iff.1 (sym full) in
        ground (arith, entries-pop pops)
    | no room ↦
        let many : length xs + 1 < cap = room_iff.0 (λ e. room (sym e)) in
        let apart = new_head-apart pops room in
        ground (
          arith,
          entries-pop pops,
          window-push blank cap cells x (new_head pops) t v.0 apart.1 v.2 apart.0,
        )
  ]

  new-IsRing :
      (pops : Bool) (pushes : Option A)
      → IsRing cap (new_cells pushes) (new_head pops) (new_tail pushes)
  unfolding new_cells new_tail
  new-IsRing pops none = (v.0, new_head-lt pops, v.2)
  new-IsRing pops (some x) =
      (ground (arith, length-set cells t x), new_head-lt pops, ground (arith, next-lt))

  -- For a queue at rest, whatever the owner pops and pushes in a cycle, the calls return what the list
  -- of the entries returns, no pointer leaves the array, and after the tick the queue is again at rest
  -- and holds what is left of the list. A push is refused exactly when `capacity - 1` entries were
  -- there when the cycle began.
  pub queue_cycle-Refines :
      (pops : Bool) (pushes : Option A)
      → Refines blank cap
          (queue_cycle blank pops pushes (ring cap cells h t))
          (list_cycle cap pops pushes (contents blank cap cells h t))
  queue_cycle-Refines pops none = record {
    cells = new_cells none;
    head = new_head pops;
    tail = new_tail none;
    valid = new-IsRing pops none;
    entries = unfold new_cells new_tail list_cycle in (entries-pop pops).0;
    returns =
        queue_cycle-ring pops none
        ∙ unfold list_cycle accepts in
          ap (λ o. done (ring cap (new_cells none) (new_head pops) (new_tail none), o, false))
            (entries-pop pops).1;
  }
  queue_cycle-Refines pops (some x) = record {
    cells = new_cells (some x);
    head = new_head pops;
    tail = new_tail (some x);
    valid = new-IsRing pops (some x);
    entries = (entries-push pops x).0;
    returns =
        queue_cycle-ring pops (some x)
        ∙ ap₂
            (λ o b. done (ring cap (new_cells (some x)) (new_head pops) (new_tail (some x)), o, b))
            (entries-push pops x).2 (entries-push pops x).1;
  }
