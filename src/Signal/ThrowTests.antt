-- ===== src/Signal/ThrowTests.antt =====
-- Emissions with functors that throw, at concrete inputs.
use libsigcplusplus.Prelude.{
  ℕ, ◌≡◌, refl, Bool, true, [], ◌∷◌, ◌==◌, ◌>>=◌, arith, ok, List, Safe, ◌||◌, ◌&&◌, if◌then◌else◌,
}
use libsigcplusplus.Signal.Slot.{
  Event, called, destroyed, destroy_slot, empty, set_parent, copy_slot,
}
use libsigcplusplus.Signal.Nodes.{
  deref, insert_before, update_slot, next_iter, erase, keep_nonempty, destroy_empty,
}
use libsigcplusplus.Signal.Impl.{
  Impl, connect, disconnect, insert, add_notification, reference_exec, unreference_exec,
  notify_invalidated, erase_node, sweep_loop,
}
use libsigcplusplus.Signal.Emit.{run_act, add_placeholder, is_empty}
use libsigcplusplus.Signal.Guarantee.{Emitted}
use libsigcplusplus.Signal.Passive.{calls}
use libsigcplusplus.Signal.Throw.{
  Script, run_act_throwing, run_script, invoke_throwing, visit_throwing, each_until_throw,
  emit_throwing,
}
use libsigcplusplus.Signal.ThrownEmission.{emit_throwing-Emitted, emit_throwing-total}
use libsigcplusplus.Signal.ThrownPassive.{raising, throws_in, up_to_throw, emit_throwing-raising}
use libsigcplusplus.Signal.Tests.{
  body, falling_body, body-BodyMade, falling-BodyMade, resting, resting-Settled, log_of,
}

-- Functor 2 throws, which functor 1 catches, and functor 3 throws with the argument 4.
abbrev script : ℕ → ℕ → Impl → Script
script f a s = record {
  acts = body f a s;
  catches = f == 1;
  throws = (f == 2) || ((f == 3) && (a == 4));
}

abbrev falling_script : ℕ → ℕ → Impl → Script
falling_script f a s = record {
  acts = falling_body f a s;
  catches = f == 1;
  throws = (f == 2) || ((f == 3) && (a == 4));
}

abbrev flight_log : Bool × Impl → Bool × List Event
flight_log r = (r.0, log_of r.1)

-- The exception of functor 2 ends the nested emission, that of functor 3 the outer one, which still
-- destroys functor 1.
emit_throwing_example :
    (emit_throwing script 5 4 resting >>= λ r. ok (flight_log r))
    ≡ ok
        (true, destroyed 1 ∷ called 1 1 3 4 ∷ called 2 3 2 0 ∷ called 2 1 3 0 ∷ called 1 0 1 4 ∷ [])
unfolding emit_throwing each_until_throw add_placeholder reference_exec deref empty connect insert
    insert_before add_notification update_slot disconnect notify_invalidated next_iter set_parent
    copy_slot erase_node erase invoke_throwing run_act run_act_throwing run_script visit_throwing
    sweep_loop unreference_exec destroy_empty keep_nonempty destroy_slot
emit_throwing_example = refl

emit_throwing-Emitted_example :
    Safe Unit (λ (r : Bool × Impl). Emitted resting r.1) (emit_throwing script 5 4 resting)
emit_throwing-Emitted_example =
    emit_throwing-Emitted script 5 4 resting (λ f a s. body-BodyMade f a s) (omega arith)
      resting-Settled

emit_throwing-total_example :
    (r : Bool × Impl) × (emit_throwing falling_script 5 4 resting ≡ ok r) × Emitted resting r.1
emit_throwing-total_example =
    emit_throwing-total falling_script 4 resting (λ f a s. falling-BodyMade f a s) (omega arith)
      resting-Settled

-- Functor 1 throws.
abbrev first_raises : ℕ → ℕ → Bool
first_raises f a = f == 1

emit_throwing-raising_example :
    emit_throwing (raising first_raises) 1 4 resting
    ≡ ok (
      throws_in first_raises 4 resting.slots,
      record resting {
        next = if is_empty resting.slots then 2 else 3;
        log = calls 1 4 (up_to_throw first_raises 4 resting.slots) [];
      },
    )
emit_throwing-raising_example = emit_throwing-raising first_raises 0 4 resting resting-Settled
