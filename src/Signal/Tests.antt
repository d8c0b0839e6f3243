-- ===== src/Signal/Tests.antt =====
-- Small signals and functors, and the theorems on signals at them.
use libsigcplusplus.Prelude.{
  ℕ, ◌+◌, ◌≡◌, refl, inl, true, false, none, some, [], ◌∷◌, List, ok, ◌>>=◌, if◌then◌else◌, ◌==◌,
  arith, Safe,
}
use libsigcplusplus.Signal.Slot.{
  Event, called, destroyed, slot_of, destroy_slot, empty, set_parent, copy_slot,
}
use libsigcplusplus.Signal.Nodes.{
  Node, deref, destroy_nodes, insert_before, update_slot, next_iter, erase, keep_nonempty,
  destroy_empty,
}
use libsigcplusplus.Signal.Impl.{
  Impl, new_impl, connect, connect_first, connect_move, connect_first_move, disconnect, clear,
  insert, add_notification, for_each, reference_exec, unreference_exec, notify_invalidated,
  erase_node, sweep_loop,
}
use libsigcplusplus.Signal.Emit.{
  Act, connects, connects_first, disconnects, emits, emit, invoke, visit, run_act, run_acts,
  with_slots, add_placeholder,
}
use libsigcplusplus.Signal.Emission.{BodyMade}
use libsigcplusplus.Signal.EmitLast.{state, emit_last}
use libsigcplusplus.Signal.LastState.{state-emit_last}
use libsigcplusplus.Signal.Erase.{remove_id}
use libsigcplusplus.Signal.Invariant.{Wf, Good}
use libsigcplusplus.Signal.Steps.{connected}
use libsigcplusplus.Signal.Clear.{disconnect_nodes, any_parent, clear-running}
use libsigcplusplus.Signal.Guarantee.{
  Settled, Emitted, Any, Falls, emit-nested, emit-Emitted, emit-total,
}
use libsigcplusplus.Signal.Passive.{calls, passive, emit-passive}
use libsigcplusplus.Signal.Connecting.{AllCalled, emit-connects}
use libsigcplusplus.Signal.Move.{left_over, connect_move-connect}
use libsigcplusplus.Signal.Abstract
use libsigcplusplus.Signal.Abstract.{Request, answers}
use libsigcplusplus.Signal.View.{Ready, view, serve_all}
use libsigcplusplus.Signal.Refinement.{serve_all-answers}
use libsigcplusplus.Signal.Rest.{disconnect-rest, clear-rest}
use libsigcplusplus.Signal.Connect.{connect-rest}

-- Functor 1 connects functor 2, disconnects its own slot and emits the signal again.
abbrev pub body : ℕ → ℕ → Impl → List Act
body f a s = if f == 1 then connects (slot_of 2) ∷ disconnects 0 ∷ emits 0 ∷ [] else []

-- The same, but it emits only with a positive argument.
abbrev pub falling_body : ℕ → ℕ → Impl → List Act
falling_body f a s =
    if f == 1
    then (if a == 0 then [] else connects (slot_of 2) ∷ disconnects 0 ∷ emits 0 ∷ [])
    else []

-- A signal to which functors 1 and 3 have been connected.
abbrev pub place : ℕ → ℕ → Node
place i f = record {
  id = i;
  slot = record {
    rep = some (record { call = true; functor = some f; parent = some i });
    blocked = false;
  };
}

abbrev pub resting : Impl
resting = record {
  slots = place 0 1 ∷ place 1 3 ∷ [];
  exec = 0;
  deferred = false;
  alive = true;
  next = 2;
  log = [];
}

-- The same signal while it is emitting.
abbrev pub running : Impl
running = record resting { exec = 1 }

connect_example : (connect (slot_of 1) new_impl >>= connect (slot_of 3)) ≡ ok resting
unfolding connect insert insert_before add_notification update_slot set_parent copy_slot
connect_example = refl

abbrev pub log_of : Impl → List Event
log_of s = s.log

-- Functors 1 and 3 are called at the level 1, functor 3 and the new functor 2 in between at the
-- level 2, and functor 1 is destroyed at the end.
emit_example :
    (emit body 5 4 resting >>= λ s. ok (log_of s))
    ≡ ok (destroyed 1 ∷ called 1 1 3 4 ∷ called 2 3 2 0 ∷ called 2 1 3 0 ∷ called 1 0 1 4 ∷ [])
unfolding emit for_each add_placeholder reference_exec deref empty connect insert insert_before
    add_notification update_slot disconnect notify_invalidated next_iter set_parent copy_slot
    erase_node erase invoke run_act run_acts visit with_slots sweep_loop unreference_exec
    destroy_empty keep_nonempty destroy_slot
emit_example = refl

resting-Wf : Wf resting
resting-Wf = record {
  alive = refl;
  distinct = (refl, (refl, tt));
  below = (omega arith, (omega arith, tt));
  nodes = ((inl refl, λ e. refl), ((inl refl, λ e. refl), tt));
}

pub running-Wf : Wf running
running-Wf = record {
  alive = refl;
  distinct = resting-Wf.distinct;
  below = resting-Wf.below;
  nodes = resting-Wf.nodes;
}

pub resting-Settled : Settled resting
resting-Settled = record { wf = resting-Wf; idle = refl; clean = refl; reps = (refl, (refl, tt)) }

pub body-BodyMade : BodyMade Any body
body-BodyMade f a s = ground arith

pub falling-BodyMade : BodyMade Falls falling_body
falling-BodyMade f a s = ground arith

emit-Emitted_example : Safe Unit (Emitted resting) (emit body 5 4 resting)
emit-Emitted_example = emit-Emitted body 5 4 resting body-BodyMade (omega arith) resting-Settled

emit-total_example : (t : Impl) × (emit falling_body 5 4 resting ≡ ok t) × Emitted resting t
emit-total_example =
    emit-total falling_body 4 resting falling-BodyMade (omega arith) resting-Settled

emit-nested_example : Safe Unit (Good 1 running) (emit body 5 4 running)
emit-nested_example =
    emit-nested body 5 4 running body-BodyMade running-Wf (omega arith) (omega arith)

state-emit_last_example :
    state (emit_last body (λ f a s. f + a) 5 4 resting) ≡ emit body 5 4 resting
state-emit_last_example = state-emit_last body (λ f a s. f + a) 5 4 resting

found : deref 1 resting.slots ≡ ok (place 1 3)
unfolding deref
found = refl

disconnect-rest_example :
    let t : Impl = record resting {
      slots = remove_id 1 resting.slots;
      log = destroy_slot (place 1 3).slot [];
    } in
    (disconnect 1 resting ≡ ok t) × Settled t
disconnect-rest_example = disconnect-rest 1 (place 1 3) resting resting-Settled found

clear-running_example :
    clear running
    ≡ ok (record running {
      slots = disconnect_nodes running.slots;
      deferred = any_parent running.slots;
    })
clear-running_example = clear-running running running-Wf.distinct (omega arith) (omega arith)

clear-rest_example :
    clear resting ≡ ok (record resting { slots = []; log = destroy_nodes resting.slots [] })
clear-rest_example = clear-rest resting resting-Wf.distinct refl refl

connect-rest_example :
    (let t : Impl = record resting {
      slots = place 0 1 ∷ place 1 3 ∷ connected 2 (slot_of 5) ∷ [];
      next = 3;
    } in
      (connect (slot_of 5) resting ≡ ok t) × Settled t)
    × (let t : Impl = record resting {
      slots = connected 2 (slot_of 5) ∷ resting.slots;
      next = 3;
    } in
        (connect_first (slot_of 5) resting ≡ ok t) × Settled t)
connect-rest_example = connect-rest resting (slot_of 5) (λ e. refl) resting-Settled

emit-passive_example :
    emit passive 1 4 resting ≡ ok (record resting { next = 3; log = calls 1 4 resting.slots [] })
emit-passive_example = emit-passive 0 4 resting resting-Settled

-- Every functor connects a slot at each end.
abbrev connecting : ℕ → ℕ → Impl → List Act
connecting f a s = connects (slot_of 2) ∷ connects_first (slot_of 4) ∷ []

emit-connects_example : (t : Impl) × (emit connecting 1 4 resting ≡ ok t) × AllCalled 4 resting t
emit-connects_example =
    emit-connects connecting (λ f a s. ((λ e. refl), ((λ e. refl), tt))) 0 4 resting resting-Settled

connect_move-connect_example :
    (connect_move (slot_of 5) running
      ≡ (connect (slot_of 5) running >>= λ t. ok (t, left_over (slot_of 5))))
    × (connect_first_move (slot_of 5) running
        ≡ (connect_first (slot_of 5) running >>= λ t. ok (t, left_over (slot_of 5))))
connect_move-connect_example = connect_move-connect running running-Wf (slot_of 5) refl

abbrev requests : List Request
requests =
    Abstract.connects_first (some 8) false
    ∷ Abstract.blocks_slot 0 true
    ∷ Abstract.emits 4
    ∷ Abstract.disconnects 1
    ∷ Abstract.connects none false
    ∷ Abstract.clears
    ∷ []

serve_all-answers_example :
    (t : Impl) × (serve_all requests resting ≡ ok t)
    × Ready t
    × (view t ≡ answers requests (view resting))
serve_all-answers_example =
    serve_all-answers requests resting
      (record { settled = resting-Settled; whole = (refl, (refl, tt)) })
