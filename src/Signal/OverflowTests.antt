-- ===== src/Signal/OverflowTests.antt =====
-- The execution count of a signal, a short, at its largest value.
use libsigcplusplus.Prelude.{ℕ, ◌≡◌, refl, [], ◌∷◌, List, fault}
use libsigcplusplus.Signal.Slot.{empty, destroy_slot}
use libsigcplusplus.Signal.Nodes.{deref, next_iter, update_slot}
use libsigcplusplus.Signal.Impl.{
  Impl, clear, clear_list, disconnect, for_each, reference_exec, unreference_exec,
  notify_invalidated,
}
use libsigcplusplus.Signal.Emit.{
  Act, clears, emit, invoke, visit, run_act, run_acts, with_slots, add_placeholder,
}
use libsigcplusplus.Signal.Tests.{resting}

abbrev clearing : ℕ → ℕ → Impl → List Act
clearing f a s = clears ∷ []

-- One emission more and the count is negative: `clear` takes the signal for one that does not emit and
-- erases the slots that the loop walks.
overflow : emit clearing 1 4 (record resting { exec = 32767 }) ≡ fault
unfolding emit for_each add_placeholder reference_exec deref empty disconnect notify_invalidated
    next_iter invoke run_act run_acts visit with_slots unreference_exec destroy_slot clear
    clear_list update_slot
overflow = refl
