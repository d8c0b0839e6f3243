-- ===== src/Signal/Assign.antt =====
-- Assignment to a slot in the list of a signal: slot_base::operator=(const slot_base&) and
-- delete_rep_with_check (sigc++/functors/slot_base.cc), as with `*it = slot`.
use libsigcplusplus.Prelude.{
  ℕ, Bool, true, false, Option, none, some, is_some, if◌then◌else◌, Outcome, ok, ◌>>=◌,
}
use libsigcplusplus.Signal.Slot.{Rep, Slot, empty_slot, empty, clone, destroy_slot}
use libsigcplusplus.Signal.Nodes.{deref, update_slot}
use libsigcplusplus.Signal.Impl.{Impl, disconnect}
use libsigcplusplus.Signal.Emit.{has}

-- Both rep_ pointers are null; those of two slots are never equal otherwise.
abbrev pub same_rep : Slot → Slot → Bool
same_rep dst src = elim dst.rep [
  | some r ↦ false
  | none ↦ elim src.rep [ none ↦ true | some r ↦ false ]
]

-- `delete rep_` and `rep_ = nullptr` in the slot at an iterator.
unfoldable pub delete_rep : ℕ → Impl → Outcome Impl
delete_rep i s = do
  n ← deref i s.slots
  ok (record s {
    slots = update_slot i (λ sl. record sl { rep = none }) s.slots;
    log = destroy_slot n.slot s.log;
  })

-- slot_base::delete_rep_with_check: the rep is deleted with the slot if the parent's cleanup erases it,
-- which is what the local weak_raw_ptr tells (`has`).
unfoldable pub delete_rep_with_check : ℕ → Impl → Outcome Impl
unfolding delete_rep
delete_rep_with_check i s = do
  n ← deref i s.slots
  elim n.slot.rep [
    | none ↦ ok s
    | some r ↦ disconnect i s >>= λ s'. if has i s'.slots then delete_rep i s' else ok s'
  ]

-- slot_rep::set_parent of the new rep with the parent of the old one, if there is one.
abbrev pub adopt : Option Rep → Rep → Rep
adopt none r = r
adopt (some old) r = record r { parent = old.parent }

-- The exchange of the rep by a clone of the source's.
unfoldable pub exchange_rep : ℕ → Slot → Rep → Impl → Outcome Impl
exchange_rep i src r s = do
  n ← deref i s.slots
  ok (record s {
    slots =
        update_slot i
          (λ dst. record { rep = some (adopt dst.rep (clone r)); blocked = src.blocked }) s.slots;
    log = destroy_slot n.slot s.log;
  })

-- operator=(const slot_base&) on the slot at `i`, with a source outside the list.
unfoldable pub assign_slot : ℕ → Slot → Impl → Outcome Impl
unfolding delete_rep_with_check exchange_rep
assign_slot i src s = do
  n ← deref i s.slots
  if same_rep n.slot src
      then ok
          (record s { slots = update_slot i (λ dst. record dst { blocked = src.blocked }) s.slots })
      else if empty src
      then delete_rep_with_check i s
      else elim src.rep [ none ↦ ok s | some r ↦ exchange_rep i src r s ]

-- The end of operator=(slot_base&&): the new rep in place of the old one.
unfoldable pub install_rep : ℕ → Rep → Bool → Impl → Outcome Impl
install_rep i r blocked s = do
  n ← deref i s.slots
  ok (record s {
    slots =
        update_slot i (λ dst. record { rep = some (adopt dst.rep r); blocked = blocked }) s.slots;
    log = destroy_slot n.slot s.log;
  })

-- Where operator=(slot_base&&) takes the new rep from: a clone if the source has a parent, otherwise
-- the source's own rep, whose callbacks are notified (the mark), and the source is wiped.
abbrev pub taken : Rep → Slot → Rep × Slot × Bool
taken r src = if is_some r.parent then (clone r, src, false) else (r, empty_slot, true)

-- operator=(slot_base&&) on the slot at `i`: the signal, what is left of the source, and whether the
-- callbacks of the source's rep were notified.
unfoldable pub move_assign_slot : ℕ → Slot → Impl → Outcome (Impl × Slot × Bool)
unfolding delete_rep_with_check install_rep
move_assign_slot i src s = do
  n ← deref i s.slots
  if same_rep n.slot src
      then ok (
        record s { slots = update_slot i (λ dst. record dst { blocked = src.blocked }) s.slots },
        src,
        false,
      )
      else if empty src
      then (delete_rep_with_check i s >>= λ t. ok (t, src, false))
      else elim src.rep [
        | none ↦ ok (s, src, false)
        | some r ↦ install_rep i (taken r src).0 src.blocked s >>= λ t.
            ok (t, (taken r src).1, (taken r src).2)
      ]
