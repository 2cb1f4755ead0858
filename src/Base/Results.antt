-- ===== src/Base/Results.antt =====
-- The result of a C function: a value, a failed `assert`, or behaviour that C leaves undefined.
use mathlib.Core.Bool.{Bool, true, false}
use fakerv32i.Base.Tests.{if◌then◌else◌}
use mathlib.Core.Option.{Option, none, some}
use mathlib.Core.Path.{◌≡◌, refl, subst}
use mathlib.Core.Logic.{◌⊎◌, inl, inr}

pub data Fault : Type 0 where
  assertion undefined : Fault

pub data Outcome {ℓ} (A : Type ℓ) : Type ℓ where
  done : A → Outcome A
  fault : Fault → Outcome A

infixl 5 ◌>>=◌ ◌>>◌
abbrev pub ◌>>=◌ {ℓ κ} : {A : Type ℓ} {B : Type κ} → Outcome A → (A → Outcome B) → Outcome B
done a >>= f = f a
fault e >>= f = fault e

abbrev pub ◌>>◌ {ℓ} : {B : Type ℓ} → Outcome (Unit {0}) → Outcome B → Outcome B
m >> k = m >>= λ _. k

-- A condition without which the code has undefined behaviour.
abbrev pub defined : Bool → Outcome (Unit {0})
defined true = done tt
defined false = fault undefined

-- An access to an array: out of range it is undefined.
abbrev pub in_range {ℓ} : {A : Type ℓ} → Option A → Outcome A
in_range none = fault undefined
in_range (some a) = done a

-- To split on a computed outcome and keep the equation.
pub Outcome-cases {ℓ} :
    {A : Type ℓ} (m : Outcome A) → ((a : A) × (m ≡ done a)) ⊎ ((e : Fault) × (m ≡ fault e))
Outcome-cases (done a) = inl (a, refl)
Outcome-cases (fault e) = inr (e, refl)

-- A property of the value, where there is one.
abbrev pub Always {ℓ κ} : {A : Type ℓ} → (A → Type κ) → Outcome A → Type κ
Always P (done a) = P a
Always P (fault e) = Unit

pub Always-bind {ℓ ι κ ν} :
    {A : Type ℓ} {B : Type ι} (P : A → Type κ) (Q : B → Type ν) (m : Outcome A) (f : A → Outcome B)
    → Always P m
    → ((a : A) → P a → Always Q (f a))
    → Always Q (m >>= f)
Always-bind P Q (done a) f p q = q a p
Always-bind P Q (fault e) f p q = tt

-- Where nothing has to be known of the first value.
pub Always-then {ℓ ι ν} :
    {A : Type ℓ} {B : Type ι} (Q : B → Type ν) (m : Outcome A) (f : A → Outcome B)
    → ((a : A) → Always Q (f a))
    → Always Q (m >>= f)
Always-then Q (done a) f q = q a
Always-then Q (fault e) f q = tt

pub Always-weaken {ℓ κ ν} :
    {A : Type ℓ} (P : A → Type κ) (Q : A → Type ν) (m : Outcome A)
    → Always P m
    → ((a : A) → P a → Q a)
    → Always Q m
Always-weaken P Q (done a) p q = q a p
Always-weaken P Q (fault e) p q = tt

pub Always-if {ℓ κ} :
    {A : Type ℓ} (P : A → Type κ) (c : Bool) (m k : Outcome A)
    → Always P m
    → Always P k
    → Always P (if c then m else k)
Always-if P true m k hm hk = hm
Always-if P false m k hm hk = hk

pub Always-elim {ℓ ι κ} :
    {A : Type ℓ} {B : Type ι} (P : A → Type κ) (o : Option B) (m : Outcome A) (f : B → Outcome A)
    → Always P m
    → ((b : B) → Always P (f b))
    → Always P (elim o [ none ↦ m | some b ↦ f b ])
Always-elim P none m f hm hf = hm
Always-elim P (some b) m f hm hf = hf b

-- After a test that the C standard asks for.
pub Always-defined {ℓ κ} :
    {A : Type ℓ} (P : A → Type κ) (c : Bool) (m : Outcome A)
    → (c ≡ true → Always P m)
    → Always P (do defined c; m)
Always-defined P true m h = h refl
Always-defined P false m h = tt

pub Always-done {ℓ κ} :
    {A : Type ℓ} (P : A → Type κ) (a : A) (m : Outcome A) → m ≡ done a → Always P m → P a
Always-done P a m e h = subst (Always P) e h
