-- ===== src/Signal/Slot.antt =====
-- The slots that a signal holds: slot_rep and slot_base (sigc++/functors/slot_base.{h,cc}) and
-- typed_slot_rep (sigc++/functors/slot.h), each slot with its rep inside, since it is its only owner.
use libsigcplusplus.Prelude.{
  ℕ, Bool, true, false, not, Option, none, some, List, ◌∷◌, is_some, if◌then◌else◌,
}

-- slot_rep and typed_slot_rep. `call` says that `call_` is no null pointer, `functor` is what
-- `functor_` owns, `parent` is the list position that the rep's `self_and_iter` names.
pub record Rep : Type 0 where
  pub call : Bool
  pub functor : Option ℕ
  pub parent : Option ℕ

-- dummy_slot_rep: no functor and never callable.
abbrev pub dummy_rep : Rep
dummy_rep = record { call = false; functor = none; parent = none }

-- typed_slot_rep's copy constructor, which `clone` calls: the copy has no parent.
abbrev pub clone : Rep → Rep
clone r = record { call = r.call; functor = r.functor; parent = none }

-- slot_rep::set_parent
abbrev pub set_rep_parent : ℕ → Rep → Rep
set_rep_parent p r = record r { parent = some p }

-- slot_base
pub record Slot : Type 0 where
  pub rep : Option Rep
  pub blocked : Bool

-- The default constructor.
abbrev pub empty_slot : Slot
empty_slot = record { rep = none; blocked = false }

-- slot(const T_functor&)
abbrev pub slot_of : ℕ → Slot
slot_of f = record {
  rep = some (record { call = true; functor = some f; parent = none });
  blocked = false;
}

abbrev pub rep_callable : Option Rep → Bool
rep_callable none = false
rep_callable (some r) = r.call

-- slot_base::empty
unfoldable pub empty : Slot → Bool
empty s = not (rep_callable s.rep)

-- slot_base(const slot_base&)
copy_rep : Option Rep → Bool → Slot
copy_rep none b = record { rep = none; blocked = b }
copy_rep (some r) b = if r.call then record { rep = some (clone r); blocked = b } else empty_slot

unfoldable pub copy_slot : Slot → Slot
unfolding copy_rep
copy_slot src = copy_rep src.rep src.blocked

-- slot_base(slot_base&&): the new slot, and what is left of the source.
move_rep : Rep → Slot → Slot × Slot
move_rep r src =
    if is_some r.parent
    then (if r.call
        then (record { rep = some (clone r); blocked = src.blocked }, src)
        else (empty_slot, src))
    else (src, empty_slot)

move_opt : Option Rep → Slot → Slot × Slot
move_opt none src = (src, src)
move_opt (some r) src = move_rep r src

unfoldable pub move_slot : Slot → Slot × Slot
unfolding move_opt move_rep
move_slot src = move_opt src.rep src

-- slot_base::set_parent: a slot without a rep is given a dummy.
with_rep : Option Rep → Rep
with_rep none = dummy_rep
with_rep (some r) = r

unfoldable pub set_parent : ℕ → Slot → Slot
unfolding with_rep
set_parent p s = record s { rep = some (set_rep_parent p (with_rep s.rep)) }

-- What a run does that can be seen: `called level node functor argument`, where the level is
-- the execution count during the call, and the destruction of a functor.
pub data Event : Type 0 where
  called : ℕ → ℕ → ℕ → ℕ → Event
  destroyed : ℕ → Event

-- ~slot_base: `delete rep_`, where ~typed_slot_rep destroys the functor. Newest event first.
destroy_functor : Option ℕ → List Event → List Event
destroy_functor none log = log
destroy_functor (some f) log = destroyed f ∷ log

destroy_rep : Option Rep → List Event → List Event
destroy_rep none log = log
destroy_rep (some r) log = destroy_functor r.functor log

unfoldable pub destroy_slot : Slot → List Event → List Event
unfolding destroy_rep destroy_functor
destroy_slot s = destroy_rep s.rep
