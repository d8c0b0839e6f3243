-- ===== src/Prelude/Lists.antt =====
-- Lists measured and cut by native numbers.
use Prim.Native.Nat.{ℕ, zero, suc, ◌+◌, ◌<◌}
use mathlib.Core.Path.{◌≡◌, refl}
use mathlib.Core.List.{List, [], ◌∷◌, ◌++◌}
use mathlib.Core.Option.{Option, none, some}
use native.Mathlib.Omega.{arith}

module _ {ℓ} {A : Type ℓ} where
  abbrev pub length : List A → ℕ
  length [] = 0
  length (x ∷ xs) = suc (length xs)

  abbrev pub get_elem? : List A → ℕ → Option A
  get_elem? [] i = none
  get_elem? (x ∷ xs) zero = some x
  get_elem? (x ∷ xs) (suc i) = get_elem? xs i

  abbrev pub take : ℕ → List A → List A
  take zero xs = []
  take (suc n) [] = []
  take (suc n) (x ∷ xs) = x ∷ take n xs

  abbrev pub drop : ℕ → List A → List A
  drop zero xs = xs
  drop (suc n) [] = []
  drop (suc n) (x ∷ xs) = drop n xs

  pub length-append : (xs ys : List A) → length (xs ++ ys) ≡ length xs + length ys
  length-append [] ys = omega arith
  length-append (x ∷ xs) ys = omega (arith, length-append xs ys)

-- A predicate at every entry.
abbrev pub All {ℓ κ} : {A : Type ℓ} → (A → Type κ) → List A → Type κ
All P [] = Unit
All P (x ∷ xs) = P x × All P xs

pub some-injective {ℓ} : {A : Type ℓ} {x y : A} → some x ≡ some y → x ≡ y
some-injective e = cc

abbrev pub set_at {ℓ} : {A : Type ℓ} → ℕ → A → List A → List A
set_at h v [] = []
set_at zero v (x ∷ xs) = v ∷ xs
set_at (suc h) v (x ∷ xs) = x ∷ set_at h v xs

pub get_elem-set_at {ℓ} :
    {A : Type ℓ} (h : ℕ) (v : A) (xs : List A)
    → h < length xs
    → get_elem? (set_at h v xs) h ≡ some v
get_elem-set_at h v [] i = absurd (omega arith)
get_elem-set_at zero v (x ∷ xs) i = refl
get_elem-set_at (suc h) v (x ∷ xs) i = get_elem-set_at h v xs (omega arith)

pub get_elem-append {ℓ} :
    {A : Type ℓ} (h : ℕ) (v w : A) (xs : List A)
    → get_elem? xs h ≡ some v
    → get_elem? (xs ++ w ∷ []) h ≡ some v
get_elem-append h v w [] e = absurd (cc)
get_elem-append zero v w (x ∷ xs) e = e
get_elem-append (suc h) v w (x ∷ xs) e = get_elem-append h v w xs e

pub get_elem-last {ℓ} :
    {A : Type ℓ} (w : A) (xs : List A) → get_elem? (xs ++ w ∷ []) (length xs) ≡ some w
get_elem-last w [] = refl
get_elem-last w (x ∷ xs) = get_elem-last w xs

pub get_elem-length {ℓ} :
    {A : Type ℓ} (h : ℕ) (v : A) (xs : List A) → get_elem? xs h ≡ some v → h < length xs
get_elem-length h v [] e = absurd (cc)
get_elem-length zero v (x ∷ xs) e = omega arith
get_elem-length (suc h) v (x ∷ xs) e = omega (arith, get_elem-length h v xs e)

pub get_elem-some {ℓ} :
    {A : Type ℓ} (h : ℕ) (xs : List A) → h < length xs → (v : A) × (get_elem? xs h ≡ some v)
get_elem-some h [] i = absurd (omega arith)
get_elem-some zero (x ∷ xs) i = (x, refl)
get_elem-some (suc h) (x ∷ xs) i = get_elem-some h xs (omega arith)

pub length-set_at {ℓ} :
    {A : Type ℓ} (h : ℕ) (v : A) (xs : List A) → length (set_at h v xs) ≡ length xs
length-set_at h v [] = refl
length-set_at zero v (x ∷ xs) = refl
length-set_at (suc h) v (x ∷ xs) = omega (arith, length-set_at h v xs)
