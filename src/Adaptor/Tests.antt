-- ===== src/Adaptor/Tests.antt =====
-- Adaptors at small functors and arguments.
use libsigcplusplus.Prelude.{
  ℕ, zero, suc, if◌then◌else◌, ltb, ◌≡◌, refl, none, some, Option, List, [], ◌∷◌, ◌++◌, take, drop,
  arith,
}
use libsigcplusplus.Tuple.Transform.{transform_all}
use libsigcplusplus.Adaptor.Functors.{
  Arg, value, wrapped, invoke_bound, Functor, plain, bind_at, bind_last, hide_at, hide_last,
  track_obj, retype, mem_fun, bound_mem_fun, object, Call, returns, throws, ill_formed, call,
}
use libsigcplusplus.Adaptor.Visitors.{
  Target, tracked, visit_each_trackable, visit_each, functor, bound,
}
use libsigcplusplus.Adaptor.Arguments.{call-bind, call-bind-hide}
use libsigcplusplus.Tuple.Utils.{tuple_for_each}
use libsigcplusplus.Adaptor.Members.{trackables, visit_each_trackable-trackables, bind-mem_fun}
use libsigcplusplus.Adaptor.Visits.{targets, visit_each-targets}

-- The functor 0 returns its second argument, and any other throws.
abbrev run : ℕ → List Arg → Call
run zero (a ∷ b ∷ rest) = returns b
run zero rest = ill_formed
run (suc f) args = throws

abbrev cast : ℕ → Arg → Arg
cast t r = r

abbrev args : List Arg
args = value 1 ∷ value 2 ∷ []

call-bind_example :
    (call run cast (bind_at 1 (value 7) (wrapped 8 ∷ []) (plain 0)) args ≡ (
      if ltb 2 1
      then ill_formed
      else call run cast
          (plain 0)
          (take 1 args ++ (transform_all invoke_bound (value 7 ∷ wrapped 8 ∷ []) ++ drop 1 args))))
    × (call run cast (bind_last (wrapped 8 ∷ []) (plain 0)) args
        ≡ call run cast (plain 0) (args ++ transform_all invoke_bound (wrapped 8 ∷ [])))
call-bind_example = call-bind run cast 1 (value 7) (wrapped 8 ∷ []) (plain 0) args

call-bind-hide_example :
    (call run cast (bind_at 1 (value 7) [] (hide_at 1 (plain 0))) args
      ≡ call run cast (plain 0) args)
    × (call run cast (bind_last (value 7 ∷ []) (hide_last (plain 0))) args
        ≡ call run cast (plain 0) args)
call-bind-hide_example = call-bind-hide run cast 1 (value 7) (plain 0) args (omega arith)

abbrev holder : Functor
holder = track_obj (bind_at 0 (wrapped 3) [] (plain 5)) (4 ∷ 6 ∷ [])

visit_each-targets_example : visit_each holder [] ≡ some ([] ++ targets holder)
visit_each-targets_example = visit_each-targets holder [] (refl, tt)

-- The second argument bound at a location is not visited.
missed_example :
    visit_each (bind_at 0 (value 3) (wrapped 4 ∷ []) (plain 5)) []
    ≡ some (functor 5 ∷ bound (value 3) ∷ [])
unfolding visit_each
missed_example = refl

-- Every object derives from trackable, and no value and no functor does.
abbrev trackable_of : Target → Option ℕ
trackable_of (functor f) = none
trackable_of (bound (value v)) = none
trackable_of (bound (wrapped c)) = none
trackable_of (bound (object c)) = some c
trackable_of (tracked c) = some c

visit_each_trackable-trackables_example :
    visit_each_trackable trackable_of holder ≡ some (trackables trackable_of (targets holder))
visit_each_trackable-trackables_example =
    visit_each_trackable-trackables trackable_of holder (refl, tt)

registered : visit_each_trackable trackable_of holder ≡ some (3 ∷ 4 ∷ 6 ∷ [])
unfolding visit_each_trackable tuple_for_each
registered = refl

-- A method that ignores its object and its argument.
abbrev run_method : ℕ → List Arg → Call
run_method f xs = returns (value f)

bind-mem_fun_example :
    (call run_method cast (bind_at 0 (wrapped 3) [] (mem_fun 5)) args
      ≡ call run_method cast (bound_mem_fun 3 5) args)
    × (visit_each_trackable trackable_of (bind_at 0 (wrapped 3) [] (mem_fun 5))
        ≡ visit_each_trackable trackable_of (bound_mem_fun 3 5))
bind-mem_fun_example = bind-mem_fun run_method cast trackable_of 5 3 args refl

-- retype casts every argument, and needs as many types.
retyped : call run_method cast (retype (1 ∷ 2 ∷ []) (plain 4)) args ≡ returns (value 4)
unfolding call
retyped = refl

retyped_short : call run_method cast (retype (1 ∷ []) (plain 4)) args ≡ ill_formed
unfolding call
retyped_short = refl
