-- ===== src/Adaptor/Visitors.antt =====
-- How the adaptors are visited: sigc++/visit_each.h and the visitors in sigc++/adaptors and
-- sigc++/functors/mem_fun.h.
use libsigcplusplus.Prelude.{ℕ, Option, none, some, List, [], ◌∷◌, ◌++◌}
use libsigcplusplus.Tuple.Utils.{◌>>=◌, tuple_for_each}
use libsigcplusplus.Adaptor.Functors.{
  Arg, value, wrapped, object, Functor, plain, bind_at, bind_last, hide_at, hide_last, compose1,
  compose2, bind_return, retype_return, exception_catch, track_obj, retype, mem_fun, bound_mem_fun,
}

-- What visit_each calls the action on.
pub data Target : Type 0 where
  functor : ℕ → Target
  bound : Arg → Target
  tracked : ℕ → Target

-- The action on a plain functor, on a bound argument and on a tracked object.
abbrev pub visit_plain : ℕ → List Target → Option (List Target)
visit_plain f seen = some (seen ++ functor f ∷ [])

-- bound_argument::visit: for a wrapped reference the limit_reference, which is visited as its object.
abbrev pub visited_bound : Arg → Arg
visited_bound (value v) = value v
visited_bound (wrapped c) = object c
visited_bound (object c) = object c

abbrev pub visit_bound : Arg → List Target → List Target
visit_bound b seen = seen ++ bound (visited_bound b) ∷ []

abbrev pub visit_object : ℕ → List Target → List Target
visit_object c seen = seen ++ tracked c ∷ []

-- visitor::do_visit_each of each adaptor, on how its functors are visited.
abbrev Visitor : Type 0
Visitor = List Target → Option (List Target)

-- At a location only the first bound argument is visited.
abbrev pub bind_visit : Visitor → Arg → List Arg → Visitor
bind_visit f b bs seen = f seen >>= λ s. some (visit_bound b s)

abbrev pub bind_last_visit : Visitor → List Arg → Visitor
bind_last_visit f bs seen = f seen >>= tuple_for_each visit_bound bs

abbrev pub compose1_visit : Visitor → Visitor → Visitor
compose1_visit setter getter seen = setter seen >>= getter

abbrev pub compose2_visit : Visitor → Visitor → Visitor → Visitor
compose2_visit setter getter1 getter2 seen = setter seen >>= λ s. getter1 s >>= getter2

abbrev pub bind_return_visit : Visitor → Arg → Visitor
bind_return_visit f ret_value seen = f (visit_bound ret_value seen)

abbrev pub hide_visit : Visitor → Visitor
hide_visit f seen = f seen

abbrev pub retype_return_visit : Visitor → Visitor
retype_return_visit f seen = f seen

abbrev pub exception_catch_visit : Visitor → Visitor → Visitor
exception_catch_visit f catcher seen = f seen >>= catcher

abbrev pub track_obj_visit : Visitor → List ℕ → Visitor
track_obj_visit f objs seen = f seen >>= tuple_for_each visit_object objs

abbrev pub retype_visit : Visitor → Visitor
retype_visit f seen = f seen

-- The object of a bound_mem_functor, through the visitor of limit_reference.
abbrev pub bound_mem_fun_visit : ℕ → Visitor
bound_mem_fun_visit obj seen = some (visit_bound (object obj) seen)

-- sigc::visit_each: the targets in the order of the visit.
unfoldable pub visit_each : Functor → List Target → Option (List Target)
visit_each (plain f) seen = visit_plain f seen
visit_each (bind_at i b bs g) seen = bind_visit (visit_each g) b bs seen
visit_each (bind_last bs g) seen = bind_last_visit (visit_each g) bs seen
visit_each (hide_at i g) seen = hide_visit (visit_each g) seen
visit_each (hide_last g) seen = hide_visit (visit_each g) seen
visit_each (compose1 setter getter) seen =
    compose1_visit (visit_each setter) (visit_each getter) seen
visit_each (compose2 setter getter1 getter2) seen =
    compose2_visit (visit_each setter) (visit_each getter1) (visit_each getter2) seen
visit_each (bind_return g ret_value) seen = bind_return_visit (visit_each g) ret_value seen
visit_each (retype_return t g) seen = retype_return_visit (visit_each g) seen
visit_each (exception_catch g catcher) seen =
    exception_catch_visit (visit_each g) (visit_each catcher) seen
visit_each (track_obj g objs) seen = track_obj_visit (visit_each g) objs seen
visit_each (retype types g) seen = retype_visit (visit_each g) seen
visit_each (mem_fun f) seen = visit_plain f seen
visit_each (bound_mem_fun obj f) seen = bound_mem_fun_visit obj seen

-- limit_trackable_target: the action only on what derives from trackable; `trackable_of` gives the
-- trackable that a target is. Here the action notes it.
abbrev pub limit_trackable_target : (Target → Option ℕ) → List ℕ → Target → List ℕ
limit_trackable_target trackable_of seen t = elim (trackable_of t) [
  | none ↦ seen
  | some c ↦ seen ++ c ∷ []
]

abbrev pub limit_each : (Target → Option ℕ) → List Target → List ℕ → List ℕ
limit_each trackable_of [] seen = seen
limit_each trackable_of (t ∷ ts) seen =
    limit_each trackable_of ts (limit_trackable_target trackable_of seen t)

-- sigc::visit_each_trackable
unfoldable pub visit_each_trackable : (Target → Option ℕ) → Functor → Option (List ℕ)
unfolding visit_each
visit_each_trackable trackable_of g = visit_each g [] >>= λ ts. some (limit_each trackable_of ts [])
