-- ===== src/Adaptor/Functors.antt =====
-- The adaptors of sigc++/adaptors and sigc++/functors/mem_fun.h as a tree of functors, and how each is
-- called.
use libsigcplusplus.Prelude.{
  ℕ, ◌-◌, Option, none, some, List, [], ◌∷◌, ◌++◌, length, ltb, ◌==◌, if◌then◌else◌,
}
use libsigcplusplus.Tuple.Utils.{◌>>=◌, tuple_start, tuple_end, tuple_transform_each}

-- An argument, or a bound argument: a value, a std::reference_wrapper, or a reference to an object.
pub data Arg : Type 0 where
  value : ℕ → Arg
  wrapped : ℕ → Arg
  object : ℕ → Arg

-- bound_argument::invoke, by TransformEachInvoker: a wrapped reference becomes the reference.
abbrev pub invoke_bound : Arg → Arg
invoke_bound (value v) = value v
invoke_bound (wrapped c) = object c
invoke_bound (object c) = object c

-- bind_functor at a location (with at least one bound argument, as its visitor demands) and for -1,
-- hide_functor at a location and for -1, compose1_functor, compose2_functor, bind_return_functor,
-- retype_return_functor, exception_catch_functor, track_obj_functor, retype_functor with the types of
-- its arguments, mem_functor, and bound_mem_functor with its object. `plain` is any other functor that
-- has no visitor of its own, as pointer_functor.
pub data Functor : Type 0 where
  plain : ℕ → Functor
  bind_at : ℕ → Arg → List Arg → Functor → Functor
  bind_last : List Arg → Functor → Functor
  hide_at : ℕ → Functor → Functor
  hide_last : Functor → Functor
  compose1 : Functor → Functor → Functor
  compose2 : Functor → Functor → Functor → Functor
  bind_return : Functor → Arg → Functor
  retype_return : ℕ → Functor → Functor
  exception_catch : Functor → Functor → Functor
  track_obj : Functor → List ℕ → Functor
  retype : List ℕ → Functor → Functor
  mem_fun : ℕ → Functor
  bound_mem_fun : ℕ → ℕ → Functor

-- The arguments that bind_functor and hide_functor pass on; none when it does not compile.
unfoldable pub bind_args : ℕ → List Arg → List Arg → Option (List Arg)
bind_args i bound args =
    if ltb (length args) i
    then none
    else (tuple_start i args >>= λ t_start. tuple_transform_each invoke_bound bound >>= λ t_bound.
        tuple_end (length args - i) args >>= λ t_end. some (t_start ++ (t_bound ++ t_end)))

unfoldable pub bind_last_args : List Arg → List Arg → Option (List Arg)
bind_last_args bound args =
    tuple_transform_each invoke_bound bound >>= λ t_bound. some (args ++ t_bound)

-- An index out of range makes the length for tuple_end wrap round to one that no tuple has.
unfoldable pub hide_args : ℕ → List Arg → Option (List Arg)
hide_args i args =
    if ltb i (length args)
    then (tuple_start i args >>= λ t_start.
        tuple_end (length args - i - 1) args >>= λ t_end. some (t_start ++ t_end))
    else none

unfoldable pub hide_last_args : List Arg → Option (List Arg)
unfolding hide_args
hide_last_args args = if length args == 0 then none else hide_args (length args - 1) args

-- What a call comes to; `ill_formed` when it does not compile.
pub data Call : Type 0 where
  returns : Arg → Call
  throws : Call
  ill_formed : Call

abbrev pub and_then : Call → (Arg → Call) → Call
and_then (returns r) k = k r
and_then throws k = throws
and_then ill_formed k = ill_formed

abbrev pub on_throw : Call → Call → Call
on_throw (returns r) c = returns r
on_throw throws c = c
on_throw ill_formed c = ill_formed

abbrev pub apply : (List Arg → Call) → Option (List Arg) → Call
apply f none = ill_formed
apply f (some args) = f args

-- operator() of the other adaptors, on what their functors do.
abbrev Operator : Type 0
Operator = List Arg → Call

abbrev pub compose1_call : Operator → Operator → Operator
compose1_call setter getter args = and_then (getter args) λ r. setter (r ∷ [])

abbrev pub compose2_call : Operator → Operator → Operator → Operator
compose2_call setter getter1 getter2 args =
    and_then (getter1 args) λ r1. and_then (getter2 args) λ r2. setter (r1 ∷ r2 ∷ [])

abbrev pub bind_return_call : Operator → Arg → Operator
bind_return_call f ret_value args = and_then (f args) λ r. returns (invoke_bound ret_value)

abbrev pub retype_return_call : (Arg → Arg) → Operator → Operator
retype_return_call cast f args = and_then (f args) λ r. returns (cast r)

abbrev pub exception_catch_call : Operator → Operator → Operator
exception_catch_call f catcher args = on_throw (f args) (catcher [])

abbrev pub track_obj_call : Operator → List ℕ → Operator
track_obj_call f objs args = f args

-- The casts of retype_functor: as many types as arguments.
abbrev pub retype_args : (ℕ → Arg → Arg) → List ℕ → List Arg → Option (List Arg)
retype_args cast [] [] = some []
retype_args cast [] (a ∷ args) = none
retype_args cast (t ∷ ts) [] = none
retype_args cast (t ∷ ts) (a ∷ args) = retype_args cast ts args >>= λ rest. some (cast t a ∷ rest)

-- mem_functor takes its object as the first argument, bound_mem_functor has it in obj_.
abbrev pub mem_fun_call : Operator → Operator
mem_fun_call method [] = ill_formed
mem_fun_call method (value v ∷ args) = ill_formed
mem_fun_call method (wrapped c ∷ args) = ill_formed
mem_fun_call method (object c ∷ args) = method (object c ∷ args)

abbrev pub bound_mem_fun_call : Operator → ℕ → Operator
bound_mem_fun_call method obj args = method (object obj ∷ args)

-- `run` is what the plain functors and the methods, on their object first, do, and `cast` the conversion to a retyped result.
module _ (run : ℕ → List Arg → Call) (cast : ℕ → Arg → Arg) where
  unfoldable pub call : Functor → List Arg → Call
  unfolding bind_args bind_last_args hide_args hide_last_args
  call (plain f) args = run f args
  call (bind_at i b bs g) args = apply (call g) (bind_args i (b ∷ bs) args)
  call (bind_last bs g) args = apply (call g) (bind_last_args bs args)
  call (hide_at i g) args = apply (call g) (hide_args i args)
  call (hide_last g) args = apply (call g) (hide_last_args args)
  call (compose1 setter getter) args = compose1_call (call setter) (call getter) args
  call (compose2 setter getter1 getter2) args =
      compose2_call (call setter) (call getter1) (call getter2) args
  call (bind_return g ret_value) args = bind_return_call (call g) ret_value args
  call (retype_return t g) args = retype_return_call (cast t) (call g) args
  call (exception_catch g catcher) args = exception_catch_call (call g) (call catcher) args
  call (track_obj g objs) args = track_obj_call (call g) objs args
  call (retype types g) args = apply (call g) (retype_args cast types args)
  call (mem_fun f) args = mem_fun_call (run f) args
  call (bound_mem_fun obj f) args = bound_mem_fun_call (run f) obj args
