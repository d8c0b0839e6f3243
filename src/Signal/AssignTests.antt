-- ===== src/Signal/AssignTests.antt =====
-- Assignments to a slot of a small signal.
use libsigcplusplus.Prelude.{◌≡◌, refl, not, ◌||◌, [], is_some, if◌then◌else◌, ok}
use libsigcplusplus.Signal.Slot.{slot_of, empty_slot, empty, set_parent, copy_slot, destroy_slot}
use libsigcplusplus.Signal.Nodes.{Node, deref, update_slot, rep_parent}
use libsigcplusplus.Signal.Impl.{Impl}
use libsigcplusplus.Signal.Erase.{remove_id}
use libsigcplusplus.Signal.Steps.{connected}
use libsigcplusplus.Signal.Guarantee.{Settled}
use libsigcplusplus.Signal.Assign.{assign_slot, move_assign_slot}
use libsigcplusplus.Signal.Assigned.{assign_slot-rest}
use libsigcplusplus.Signal.AssignedMove.{move_assign_slot-rest}
use libsigcplusplus.Signal.Tests.{resting, resting-Settled}

-- The first node of the signal.
abbrev first : Node
first = connected 0 (slot_of 1)

first_found : deref 0 resting.slots ≡ ok first
unfolding deref set_parent copy_slot
first_found = refl

assign_slot-rest_example :
    let t : Impl =
      if empty (slot_of 2)
      then record resting { slots = remove_id 0 resting.slots; log = destroy_slot first.slot [] }
      else record resting {
        slots = update_slot 0 (λ dst. (connected 0 (slot_of 2)).slot) resting.slots;
        log = destroy_slot first.slot [];
      } in
    (assign_slot 0 (slot_of 2) resting ≡ ok t) × Settled t
assign_slot-rest_example =
    assign_slot-rest 0 first (slot_of 2) resting resting-Settled first_found (λ e. refl)

move_assign_slot-rest_example :
    (t : Impl) × (assign_slot 0 (slot_of 2) resting ≡ ok t)
    × (move_assign_slot 0 (slot_of 2) resting
        ≡ ok (
          t,
          if empty (slot_of 2) || is_some (rep_parent (slot_of 2).rep)
              then slot_of 2
              else empty_slot,
          not (empty (slot_of 2) || is_some (rep_parent (slot_of 2).rep)),
        ))
move_assign_slot-rest_example =
    move_assign_slot-rest 0 first (slot_of 2) resting resting-Settled first_found (λ e. refl)
