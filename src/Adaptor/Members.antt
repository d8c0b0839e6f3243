-- ===== src/Adaptor/Members.antt =====
-- visit_each_trackable (sigc++/visit_each.h), and mem_fun with an object and with the object bound
-- (sigc++/functors/mem_fun.h).
use libsigcplusplus.Prelude.{
  ℕ, ◌≡◌, refl, sym, ap, ◌∙◌, Option, none, some, List, [], ◌∷◌, ◌++◌, arith,
}
use mathlib.Core.List.{append_assoc, append-nil}
use libsigcplusplus.Tuple.Utils.{◌>>=◌}
use libsigcplusplus.Adaptor.Functors.{
  Arg, wrapped, Functor, bind_at, mem_fun, bound_mem_fun, Call, call,
}
use libsigcplusplus.Adaptor.Visitors.{Target, functor, limit_each, visit_each_trackable}
use libsigcplusplus.Adaptor.Arguments.{call-bind_at}
use libsigcplusplus.Adaptor.Visits.{targets, Single, visit_each-targets}

module _ (trackable_of : Target → Option ℕ) where
  -- The trackables among some targets.
  abbrev pub trackables : List Target → List ℕ
  trackables [] = []
  trackables (t ∷ ts) = elim (trackable_of t) [ none ↦ trackables ts | some c ↦ c ∷ trackables ts ]

  limit_each-trackables :
      (ts : List Target) (seen : List ℕ) → limit_each trackable_of ts seen ≡ seen ++ trackables ts
  limit_each-trackables [] seen = sym (append-nil seen)
  limit_each-trackables (t ∷ ts) seen = by_type (limit_each-trackables ts) (trackable_of t)
    where
      by_type :
          ((s : List ℕ) → limit_each trackable_of ts s ≡ s ++ trackables ts)
          → (o : Option ℕ)
          → limit_each trackable_of ts
              (elim o as (λ x. List ℕ) [ none ↦ seen | some c ↦ seen ++ c ∷ [] ])
            ≡ seen
              ++ (elim o as (λ x. List ℕ) [ none ↦ trackables ts | some c ↦ c ∷ trackables ts ])
      by_type rest none = rest seen
      by_type rest (some c) = rest (seen ++ c ∷ []) ∙ append_assoc seen (c ∷ []) (trackables ts)

  -- If every `bind` at a location binds one argument only, `visit_each_trackable` calls the action on
  -- the trackables among everything that the functor holds, each as often and in the order in which it
  -- is held, and on nothing else.
  pub visit_each_trackable-trackables :
      (g : Functor) → Single g → visit_each_trackable trackable_of g ≡ some (trackables (targets g))
  unfolding visit_each_trackable
  visit_each_trackable-trackables g h =
      ap (λ m. m >>= λ ts. some (limit_each trackable_of ts [])) (visit_each-targets g [] h)
      ∙ ap some (limit_each-trackables (targets g) [])

-- A method of an object, and the method with a reference to the object bound as its first argument,
-- are called alike, and register with the same trackables, if no pointer to a method is one.
pub bind-mem_fun :
    (run : ℕ → List Arg → Call) (cast : ℕ → Arg → Arg) (trackable_of : Target → Option ℕ)
    (f obj : ℕ) (args : List Arg)
    → trackable_of (functor f) ≡ none
    → (call run cast (bind_at 0 (wrapped obj) [] (mem_fun f)) args
        ≡ call run cast (bound_mem_fun obj f) args)
      × (visit_each_trackable trackable_of (bind_at 0 (wrapped obj) [] (mem_fun f))
          ≡ visit_each_trackable trackable_of (bound_mem_fun obj f))
unfolding call
bind-mem_fun run cast trackable_of f obj args no_method = (
  call-bind_at run cast 0 (wrapped obj) [] (mem_fun f) args (omega arith),
  visit_each_trackable-trackables trackable_of (bind_at 0 (wrapped obj) [] (mem_fun f)) (refl, tt)
      ∙ (ap some (rw no_method refl)
          ∙ sym (visit_each_trackable-trackables trackable_of (bound_mem_fun obj f) tt)),
)
