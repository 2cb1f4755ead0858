-- ===== src/Queue/Window.antt =====
-- The entries of a ring, as a list from the head on.
use fakerv32i.Base.{
  ℕ, zero, suc, ◌+◌, ◌-◌, ◌%◌, ◌≤◌, ◌<◌, ◌≡◌, ◌≢◌, ◌⊎◌, inl, inr, refl, ap, ◌∙◌, arith, List, [],
  ◌∷◌, ◌++◌, length, get_or, set, get_or-set_self, get_or-set_ne,
}
use mathlib.Core.Path.{ap₂, subst}
use native.Mathlib.Nat.{mod-eq_of_lt}
use native.Mathlib.Decide.{dec_lt}

-- The next position of a ring.
pub wrap-cases :
    (cap h : ℕ)
    → h < cap
    → ((suc h < cap) × ((h + 1) % cap ≡ h + 1)) ⊎ ((suc h ≡ cap) × ((h + 1) % cap ≡ 0))
wrap-cases cap h lt = elim (dec_lt (suc h) cap) [
  | yes p ↦ inl (p, grind (arith, mod-eq_of_lt))
  | no p ↦ inr (omega arith, grind arith)
]

-- How many entries lie from `h` up to `t`.
abbrev pub span : ℕ → ℕ → ℕ → ℕ
span cap h t = (t + cap - h) % cap

pub span-cases :
    (cap h t : ℕ)
    → h < cap
    → t < cap
    → ((h ≤ t) × (span cap h t ≡ t - h)) ⊎ ((t < h) × (span cap h t ≡ t + cap - h))
span-cases cap h t hh ht = elim (dec_lt t h) [
  | yes p ↦ inr (p, grind (arith, mod-eq_of_lt))
  | no p ↦ inl (omega arith, grind arith)
]

pub span-pop :
    (cap h t : ℕ) → h < cap → t < cap → h ≢ t → span cap h t ≡ suc (span cap ((h + 1) % cap) t)
span-pop cap h t hh ht other =
    ground (arith, wrap-cases cap h hh, span-cases cap h t hh ht, span-cases cap ((h + 1) % cap) t)

pub span-push :
    (cap h t : ℕ)
    → h < cap
    → t < cap
    → (t + 1) % cap ≢ h
    → span cap h ((t + 1) % cap) ≡ suc (span cap h t)
span-push cap h t hh ht other =
    ground (arith, wrap-cases cap t ht, span-cases cap h t hh ht, span-cases cap h ((t + 1) % cap))

-- The position `n` places on.
abbrev pub advance : ℕ → ℕ → ℕ → ℕ
advance cap h zero = h
advance cap h (suc n) = advance cap ((h + 1) % cap) n

pub advance-cases :
    (cap h n : ℕ)
    → h < cap
    → n ≤ cap
    → ((h + n < cap) × (advance cap h n ≡ h + n))
      ⊎ ((cap ≤ h + n) × (advance cap h n + cap ≡ h + n))
advance-cases cap h zero hh hn = inl (omega arith, omega arith)
advance-cases cap h (suc n) hh hn =
    ground (arith, wrap-cases cap h hh, advance-cases cap ((h + 1) % cap) n)

pub advance-lt : (cap h n : ℕ) → h < cap → advance cap h n < cap
advance-lt cap h zero hh = hh
advance-lt cap h (suc n) hh = advance-lt cap ((h + 1) % cap) n (ground (arith, wrap-cases cap h hh))

-- From the head, the span leads to the tail.
pub advance-span : (cap h t : ℕ) → h < cap → t < cap → advance cap h (span cap h t) ≡ t
advance-span cap h t hh ht =
    ground (arith, span-cases cap h t hh ht, advance-cases cap h (span cap h t))

advance-ne : (cap h n : ℕ) → h < cap → suc n < cap → advance cap h (suc n) ≢ h
advance-ne cap h n hh hn = ground (arith, advance-cases cap h (suc n) hh)

module _ {ℓ} {A : Type ℓ} (blank : A) (cap : ℕ) where
  -- `n` entries from position `h` on, round the end of the array.
  abbrev pub window : List A → ℕ → ℕ → List A
  window cells h zero = []
  window cells h (suc n) = get_or cells h blank ∷ window cells ((h + 1) % cap) n

  pub length-window : (cells : List A) (h n : ℕ) → length (window cells h n) ≡ n
  length-window cells h zero = refl
  length-window cells h (suc n) = ap suc (length-window cells ((h + 1) % cap) n)

  -- Writing the entry behind a window extends it.
  pub window-set :
      (cells : List A) (x : A) (h n : ℕ)
      → length cells ≡ cap
      → h < cap
      → n < cap
      → window (set cells (advance cap h n) x) h (suc n) ≡ window cells h n ++ (x ∷ [])
  window-set cells x h zero hl hh hn =
      ap (λ y. y ∷ []) (get_or-set_self cells h x blank (omega arith))
  window-set cells x h (suc n) hl hh hn =
      let next = (h + 1) % cap in
      ap₂ ◌∷◌ (get_or-set_ne cells (advance cap h (suc n)) h x blank (advance-ne cap h n hh hn))
        (window-set cells x next n hl (ground (arith, wrap-cases cap h hh)) (omega arith))

  -- The windows at the two ends of a step of the head.
  pub window-pop :
      (cells : List A) (h t : ℕ)
      → h < cap
      → t < cap
      → h ≢ t
      → window cells h (span cap h t)
        ≡ get_or cells h blank ∷ window cells ((h + 1) % cap) (span cap ((h + 1) % cap) t)
  window-pop cells h t hh ht other = ap (window cells h) (span-pop cap h t hh ht other)

  pub window-push :
      (cells : List A) (x : A) (h t : ℕ)
      → length cells ≡ cap
      → h < cap
      → t < cap
      → (t + 1) % cap ≢ h
      → window (set cells t x) h (span cap h ((t + 1) % cap))
        ≡ window cells h (span cap h t) ++ (x ∷ [])
  window-push cells x h t hl hh ht other =
      let n = span cap h t in
      let fits : n < cap = ground (arith, span-cases cap h t hh ht) in
      ap (window (set cells t x) h) (span-push cap h t hh ht other)
      ∙ subst (λ y. window (set cells y x) h (suc n) ≡ window cells h n ++ (x ∷ []))
          (advance-span cap h t hh ht) (window-set cells x h n hl hh fits)
