-- ===== src/Adaptor/Visits.antt =====
-- What the visitors of the adaptors find (sigc++/visit_each.h and the visitors in sigc++/adaptors).
use libsigcplusplus.Prelude.{ℕ, ◌≡◌, refl, sym, ap, ◌∙◌, some, List, [], ◌∷◌, ◌++◌}
use mathlib.Core.List.{append_assoc, append-nil}
use libsigcplusplus.Tuple.Transform.{visit_all, tuple_for_each-all}
use libsigcplusplus.Adaptor.Functors.{
  Arg, Functor, plain, bind_at, bind_last, hide_at, hide_last, compose1, compose2, bind_return,
  retype_return, exception_catch, track_obj, retype, mem_fun, bound_mem_fun, object,
}
use libsigcplusplus.Adaptor.Visitors.{
  Target, functor, bound, tracked, visit_bound, visited_bound, visit_object, visit_each,
}

abbrev pub bound_all : List Arg → List Target
bound_all [] = []
bound_all (b ∷ bs) = bound (visited_bound b) ∷ bound_all bs

abbrev pub tracked_all : List ℕ → List Target
tracked_all [] = []
tracked_all (c ∷ cs) = tracked c ∷ tracked_all cs

-- Everything that a functor holds: its plain functors, bound arguments, of which a wrapped reference is
-- the object that it refers to, and tracked objects.
abbrev pub targets : Functor → List Target
targets (plain f) = functor f ∷ []
targets (bind_at i b bs g) = targets g ++ bound_all (b ∷ bs)
targets (bind_last bs g) = targets g ++ bound_all bs
targets (hide_at i g) = targets g
targets (hide_last g) = targets g
targets (compose1 setter getter) = targets setter ++ targets getter
targets (compose2 setter getter1 getter2) = targets setter ++ (targets getter1 ++ targets getter2)
targets (bind_return g ret_value) = bound (visited_bound ret_value) ∷ targets g
targets (retype_return t g) = targets g
targets (exception_catch g catcher) = targets g ++ targets catcher
targets (track_obj g objs) = targets g ++ tracked_all objs
targets (retype types g) = targets g
targets (mem_fun f) = functor f ∷ []
targets (bound_mem_fun obj f) = bound (object obj) ∷ []

-- Every `bind` at a location binds one argument only.
abbrev pub Single : Functor → Type 0
Single (plain f) = Unit {0}
Single (bind_at i b bs g) = (bs ≡ []) × Single g
Single (bind_last bs g) = Single g
Single (hide_at i g) = Single g
Single (hide_last g) = Single g
Single (compose1 setter getter) = Single setter × Single getter
Single (compose2 setter getter1 getter2) = Single setter × (Single getter1 × Single getter2)
Single (bind_return g ret_value) = Single g
Single (retype_return t g) = Single g
Single (exception_catch g catcher) = Single g × Single catcher
Single (track_obj g objs) = Single g
Single (retype types g) = Single g
Single (mem_fun f) = Unit {0}
Single (bound_mem_fun obj f) = Unit {0}

visit_all-bound :
    (bs : List Arg) (seen : List Target) → visit_all visit_bound bs seen ≡ seen ++ bound_all bs
visit_all-bound [] seen = sym (append-nil seen)
visit_all-bound (b ∷ bs) seen =
    visit_all-bound bs (seen ++ bound (visited_bound b) ∷ [])
    ∙ append_assoc seen (bound (visited_bound b) ∷ []) (bound_all bs)

visit_all-object :
    (cs : List ℕ) (seen : List Target) → visit_all visit_object cs seen ≡ seen ++ tracked_all cs
visit_all-object [] seen = sym (append-nil seen)
visit_all-object (c ∷ cs) seen =
    visit_all-object cs (seen ++ tracked c ∷ [])
    ∙ append_assoc seen (tracked c ∷ []) (tracked_all cs)

-- If every `bind` at a location binds one argument only, `visit_each` calls the action on everything
-- that the functor holds, each once, behind what it was called on before.
pub visit_each-targets :
    (g : Functor) (seen : List Target) → Single g → visit_each g seen ≡ some (seen ++ targets g)
unfolding visit_each
visit_each-targets (plain f) seen h = refl
visit_each-targets (bind_at i b bs g) seen h =
    rw (visit_each-targets g seen h.1, h.0)
      (ap some (append_assoc seen (targets g) (bound (visited_bound b) ∷ [])))
visit_each-targets (bind_last bs g) seen h =
    rw
      (
        visit_each-targets g seen h,
        tuple_for_each-all visit_bound bs (seen ++ targets g),
        visit_all-bound bs (seen ++ targets g),
      )
      (ap some (append_assoc seen (targets g) (bound_all bs)))
visit_each-targets (hide_at i g) seen h = visit_each-targets g seen h
visit_each-targets (hide_last g) seen h = visit_each-targets g seen h
visit_each-targets (compose1 f g) seen h =
    rw (visit_each-targets f seen h.0, visit_each-targets g (seen ++ targets f) h.1)
      (ap some (append_assoc seen (targets f) (targets g)))
visit_each-targets (compose2 f g k) seen h =
    rw
      (
        visit_each-targets f seen h.0,
        visit_each-targets g (seen ++ targets f) h.1.0,
        visit_each-targets k ((seen ++ targets f) ++ targets g) h.1.1,
      )
      (ap some (
        append_assoc (seen ++ targets f) (targets g) (targets k)
        ∙ append_assoc seen (targets f) (targets g ++ targets k)))
visit_each-targets (bind_return g v) seen h =
    visit_each-targets g (visit_bound v seen) h
    ∙ ap some (append_assoc seen (bound (visited_bound v) ∷ []) (targets g))
visit_each-targets (retype_return t g) seen h = visit_each-targets g seen h
visit_each-targets (exception_catch f g) seen h =
    rw (visit_each-targets f seen h.0, visit_each-targets g (seen ++ targets f) h.1)
      (ap some (append_assoc seen (targets f) (targets g)))
visit_each-targets (track_obj g objs) seen h =
    rw
      (
        visit_each-targets g seen h,
        tuple_for_each-all visit_object objs (seen ++ targets g),
        visit_all-object objs (seen ++ targets g),
      )
      (ap some (append_assoc seen (targets g) (tracked_all objs)))
visit_each-targets (retype types g) seen h = visit_each-targets g seen h
visit_each-targets (mem_fun f) seen h = refl
visit_each-targets (bound_mem_fun obj f) seen h = refl
