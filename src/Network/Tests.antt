-- ===== src/Network/Tests.antt =====
-- Two signals that emit each other.
use libsigcplusplus.Prelude.{
  ℕ, ◌≡◌, refl, [], ◌∷◌, List, ok, ◌>>=◌, if◌then◌else◌, ◌==◌, arith, Safe,
}
use libsigcplusplus.Signal.Slot.{
  Event, called, destroyed, slot_of, destroy_slot, empty, set_parent, copy_slot,
}
use libsigcplusplus.Signal.Nodes.{
  deref, insert_before, update_slot, next_iter, erase, keep_nonempty, destroy_empty,
}
use libsigcplusplus.Signal.Impl.{
  new_impl, connect, disconnect, insert, add_notification, reference_exec, unreference_exec,
  notify_invalidated, erase_node, sweep_loop,
}
use libsigcplusplus.Signal.Emit.{connects, disconnects, emits, run_act, add_placeholder}
use libsigcplusplus.Signal.Guarantee.{Settled, Emitted, Any, Falls}
use libsigcplusplus.Signal.Tests.{resting, resting-Settled, log_of}
use libsigcplusplus.World.State.{set}
use libsigcplusplus.Handle.Keeps.{new_impl-Ready}
use libsigcplusplus.Network.Emit.{
  Network, NetworkAct, acts_on, run_network_act, run_network_acts, each_slot, invoke_in, visit_in,
  emit_in,
}
use libsigcplusplus.Network.Moved.{set-all}
use libsigcplusplus.Network.Rounds.{NetworkMade}
use libsigcplusplus.Network.Emission.{emit_in-Emitted, emit_in-total}

-- Functors 1 and 3 are connected to the signals 0 and 1.
abbrev two : Network
two = set 0 resting (set 1 resting (λ j. new_impl))

two-Settled : (j : ℕ) → Settled (two j)
two-Settled =
    set-all (λ j s. Settled s) 0 resting (set 1 resting (λ j. new_impl)) resting-Settled
      (λ j _.
        set-all (λ i s. Settled s) 1 resting (λ i. new_impl) resting-Settled
          (λ i _. new_impl-Ready.settled) j)

-- Functor 1 is a slot of the signal 1; functor 3 disconnects functor 1 from the signal 0, connects
-- functor 2 there and emits it, unless the argument is 0.
abbrev crossing : ℕ → ℕ → Network → List NetworkAct
crossing f a w =
    if a == 0
    then []
    else (if f == 1
        then acts_on 1 (emits 1) ∷ []
        else acts_on 0 (disconnects 0)
          ∷ acts_on 0 (connects (slot_of 2))
          ∷ acts_on 0 (emits 0)
          ∷ [])

-- The same, but an emission has always a smaller argument.
abbrev falling : ℕ → ℕ → Network → List NetworkAct
falling f a w =
    if a == 0
    then []
    else (if f == 1
        then acts_on 1 (emits 0) ∷ []
        else acts_on 0 (disconnects 0)
          ∷ acts_on 0 (connects (slot_of 2))
          ∷ acts_on 0 (emits 0)
          ∷ [])

crossing-Made : NetworkMade Any crossing
crossing-Made f a w = ground arith

falling-Made : NetworkMade Falls falling
falling-Made f a w = ground arith

abbrev both_logs : Network → List Event × List Event
both_logs v = (log_of (v 0), log_of (v 1))

-- The signal 1 is emitted at its own first level, and the signal 0 again at its second; the functor
-- that was disconnected goes when the signal 0 comes to rest.
logs :
    (emit_in falling 5 0 4 two >>= λ v. ok (both_logs v))
    ≡ ok (
      destroyed 1 ∷ called 2 3 2 0 ∷ called 2 1 3 0 ∷ called 1 1 3 4 ∷ called 1 0 1 4 ∷ [],
      called 1 1 3 0 ∷ called 1 0 1 0 ∷ [],
    )
unfolding emit_in each_slot add_placeholder reference_exec deref empty connect insert insert_before
    add_notification update_slot disconnect notify_invalidated next_iter set_parent copy_slot
    erase_node erase invoke_in run_act run_network_act run_network_acts visit_in sweep_loop
    unreference_exec destroy_empty keep_nonempty destroy_slot
logs = refl

emit_in-Emitted_example :
    Safe Unit (λ v. Emitted (two 0) (v 0) × ((j : ℕ) → Settled (v j))) (emit_in crossing 5 0 4 two)
emit_in-Emitted_example = emit_in-Emitted crossing 5 0 4 two crossing-Made (omega arith) two-Settled

emit_in-total_example :
    (v : Network) × (emit_in falling 5 0 4 two ≡ ok v)
    × (Emitted (two 0) (v 0) × ((j : ℕ) → Settled (v j)))
emit_in-total_example = emit_in-total falling 0 4 two falling-Made (omega arith) two-Settled
