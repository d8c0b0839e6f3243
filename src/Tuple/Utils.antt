-- ===== src/Tuple/Utils.antt =====
-- sigc++/tuple-utils: a std::tuple is the list of its elements, and a failed static_assert or a
-- std::get out of range is none, since neither compiles.
use libsigcplusplus.Prelude.{
  ℕ, zero, suc, ◌+◌, ◌-◌, Option, none, some, List, [], ◌∷◌, ◌++◌, ◌==◌, leb, get_elem?, length,
  if◌then◌else◌,
}

infixl 5 ◌>>=◌
abbrev pub ◌>>=◌ {ℓ κ} : {A : Type ℓ} {B : Type κ} → Option A → (A → Option B) → Option B
none >>= f = none
some a >>= f = f a

-- std::index_sequence<i, i + 1, ...> of n indices.
abbrev pub indices : ℕ → ℕ → List ℕ
indices i zero = []
indices i (suc n) = i ∷ indices (i + 1) n

module _ {ℓ} {A : Type ℓ} where
  -- The pack std::get<I>(t)...
  abbrev pub get_all : List A → List ℕ → Option (List A)
  get_all t [] = some []
  get_all t (i ∷ is) = get_elem? t i >>= λ x. get_all t is >>= λ xs. some (x ∷ xs)

  -- tuple_cdr_impl drops the first index of the sequence.
  unfoldable pub tuple_cdr : List A → Option (List A)
  tuple_cdr t = if length t == 0 then none else get_all t (indices 1 (length t - 1))

  unfoldable pub tuple_start : ℕ → List A → Option (List A)
  tuple_start len t = if leb len (length t) then get_all t (indices 0 len) else none

  -- tuple_end<len>: one tuple_cdr a round; the first argument bounds the rounds.
  unfoldable pub tuple_end_rounds : ℕ → ℕ → List A → Option (List A)
  tuple_end_rounds zero len t = none
  tuple_end_rounds (suc k) len t =
      let more = tuple_cdr t >>= tuple_end_rounds k len in
      if leb len (length t)
      then (if len == 0
          then some []
          else if length t - len == 0
          then some t
          else if length t - len == 1
          then tuple_cdr t
          else more)
      else none

  unfoldable pub tuple_end : ℕ → List A → Option (List A)
  unfolding tuple_end_rounds
  tuple_end len t = tuple_end_rounds (suc (length t)) len t

-- tuple_for_each: `visit` is T_visitor::visit with the extra arguments as a state.
module _ {ℓ κ} {A : Type ℓ} {S : Type κ} (visit : A → S → S) where
  unfoldable pub for_each_impl : ℕ → List A → S → Option S
  for_each_impl zero t s = some s
  for_each_impl (suc zero) t s = get_elem? t (length t - 1) >>= λ x. some (visit x s)
  for_each_impl (suc (suc k)) t s =
      get_elem? t (length t - suc (suc k)) >>= λ x. for_each_impl (suc k) t (visit x s)

  unfoldable pub tuple_for_each : List A → S → Option S
  unfolding for_each_impl
  tuple_for_each t s = if length t == 0 then some s else for_each_impl (length t) t s

-- tuple_transform_each: `transform` is T_transformer::transform, applied to the original elements.
module _ {ℓ} {A : Type ℓ} (transform : A → A) where
  unfoldable pub transform_impl : ℕ → List A → List A → Option (List A)
  transform_impl zero t original = some t
  transform_impl (suc zero) t original = do
    x ← get_elem? original (length t - 1)
    rest ← tuple_start (length t - 1) t
    some (rest ++ transform x ∷ [])
  transform_impl (suc (suc k)) t original = do
    let index = length t - suc (suc k)
    x ← get_elem? original index
    t_start ← tuple_start index t
    t_end ← tuple_end (length t - index - 1) t
    transform_impl (suc k) (t_start ++ (transform x ∷ t_end)) original

  unfoldable pub tuple_transform_each : List A → Option (List A)
  unfolding transform_impl
  tuple_transform_each t = transform_impl (length t) t t
