-- ===== src/Prelude/Results.antt =====
-- The result of code that may run without end or touch a dead object.
use mathlib.Core.Path.{◌≡◌, refl}

-- `fault` is undefined behaviour: an iterator that is no longer valid, a deleted object.
-- `no_fuel` is a run that is deeper than the bound given.
pub data Outcome {ℓ} (A : Type ℓ) : Type ℓ where
  ok : A → Outcome A
  fault : Outcome A
  no_fuel : Outcome A

infixl 5 ◌>>=◌
abbrev pub ◌>>=◌ {ℓ κ} : {A : Type ℓ} {B : Type κ} → Outcome A → (A → Outcome B) → Outcome B
ok a >>= f = f a
fault >>= f = fault
no_fuel >>= f = no_fuel

-- No fault, and the postcondition if there is a result. `D` says when the fuel may run out: with
-- `⊥` there is a result.
pub data Safe {ℓ κ} (D : Type 0) {A : Type ℓ} (P : A → Type κ) : Outcome A → Type (ℓ ⊔ κ) where
  safe : {a : A} → P a → Safe D P (ok a)
  deep : D → Safe D P no_fuel

module _ {ℓ κ} {D : Type 0} {A : Type ℓ} {P : A → Type κ} where
  pub Safe-bind {ℓ' κ'} :
      {B : Type ℓ'} {Q : B → Type κ'} {m : Outcome A} {f : A → Outcome B}
      → Safe D P m
      → ((a : A) → P a → Safe D Q (f a))
      → Safe D Q (m >>= f)
  Safe-bind (safe p) next = next _ p
  Safe-bind (deep d) next = deep d

  pub Safe-map {κ'} :
      {Q : A → Type κ'} {m : Outcome A} → Safe D P m → ((a : A) → P a → Q a) → Safe D Q m
  Safe-map (safe p) weaken = safe (weaken _ p)
  Safe-map (deep d) weaken = deep d

-- A result that is sure to come.
pub Safe-result {ℓ κ} :
    {A : Type ℓ} {P : A → Type κ} {m : Outcome A} → Safe ⊥ P m → (a : A) × (m ≡ ok a) × P a
Safe-result (safe {a} p) = (a, refl, p)
Safe-result (deep d) = absurd d

pub ok-injective {ℓ} : {A : Type ℓ} {a b : A} → ok a ≡ ok b → a ≡ b
ok-injective h = cc
