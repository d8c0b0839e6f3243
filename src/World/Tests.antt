-- ===== src/World/Tests.antt =====
-- A program with a signal, two trackables and a few connections, and the theorems at it.
use libsigcplusplus.Prelude.{
  true, false, ℕ, zero, suc, ◌==◌, if◌then◌else◌, ◌≡◌, refl, Bool, Option, none, some, List, [],
  ◌∷◌, ok, arith,
}
use libsigcplusplus.Signal.Slot.{slot_of}
use libsigcplusplus.Signal.Tests.{resting, resting-Settled, running, running-Wf}
use libsigcplusplus.Trackable.Callbacks.{CallbackList, new_list, is_entry}
use libsigcplusplus.Trackable.Removal.{live}
use libsigcplusplus.World.State.{World, destroy_object}
use libsigcplusplus.World.Connections.{is_empty, is_blocked}
use libsigcplusplus.World.Silenced.{Silenced, destroy_object-emitting}
use libsigcplusplus.World.Destroyed.{Pointing, Destroyed, destroy_object-rest}
use libsigcplusplus.World.Invalidate.{Registered}
use libsigcplusplus.World.Consistent.{Consistent}
use libsigcplusplus.World.Program.{
  Step, connects, connects_first, disconnects, blocks_connection, blocks, clears, copies,
  destroys_object, scoped_exchanges, scoped_swaps, scoped_moves, scoped_assigns, scoped_destroys,
  run_steps,
}
use libsigcplusplus.World.Spec.{view, spec_steps}
use libsigcplusplus.World.Watchers.{Watched}
use libsigcplusplus.World.Runs.{new_world, new_view, reachable-Consistent}

-- Functor 1 refers to the object 7, functor 3 to nothing.
abbrev targets : ℕ → List ℕ
targets (suc zero) = 7 ∷ []
targets f = []

abbrev program : List Step
program =
    connects 0 (slot_of 1)
    ∷ connects 1 (slot_of 3)
    ∷ copies 2 0
    ∷ connects 3 (slot_of 1)
    ∷ scoped_exchanges 4 3
    ∷ scoped_destroys 4
    ∷ blocks_connection 1 true
    ∷ blocks false
    ∷ destroys_object 7
    ∷ scoped_swaps 1 2
    ∷ scoped_moves 5 2
    ∷ scoped_assigns 6 5
    ∷ disconnects 2
    ∷ connects_first 5 (slot_of 1)
    ∷ clears
    ∷ []

reachable-Consistent_example :
    (u : World) × (run_steps targets program new_world ≡ ok u)
    × Consistent targets u
    × (view u ≡ spec_steps targets program new_view)
    × ((c : ℕ) → (b : Bool) × (d : Bool) × (is_empty c u ≡ ok b) × (is_blocked c u ≡ ok d))
reachable-Consistent_example = reachable-Consistent targets program (
  (λ e. refl),
  (
    (λ e. refl),
    (
      tt,
      ((λ e. refl), (tt, (tt, (tt, (tt, (tt, (tt, (tt, (tt, (tt, ((λ e. refl), (tt, tt)))))))))))),
    ),
  ),
)

-- The signal to which functors 1 and 3 are connected, with a connection to each.
abbrev watched : CallbackList
watched = record { callbacks = record { object = 0; func = some 0 } ∷ []; clearing = false }

abbrev objects : ℕ → CallbackList
objects o = if o == 7 then watched else new_list

abbrev conns : ℕ → Option ℕ
conns c = if c == 0 then some 0 else if c == 1 then some 1 else none

-- Each of the two connections is registered with its slot.
abbrev watcher : ℕ → CallbackList
watcher c = record { callbacks = record { object = c; func = some 0 } ∷ []; clearing = false }

abbrev watchers : ℕ → CallbackList
watchers r = if r == 0 then watcher 0 else if r == 1 then watcher 1 else new_list

abbrev small : World
small = record { impl = resting; objects = objects; conns = conns; watchers = watchers }

small-Registered : Registered targets small
unfolding live is_entry
small-Registered r o = ground arith

small-Pointing : Pointing small
small-Pointing c i e = ground arith

small-Watched : Watched small
unfolding live is_entry
small-Watched = record { once = λ c r. ground arith; idle = λ r. ground arith }

destroy_object-rest_example :
    (u : World) × (destroy_object targets 7 small ≡ ok u) × Destroyed targets 7 small u
destroy_object-rest_example =
    destroy_object-rest targets 7 small resting-Settled small-Registered small-Pointing
      small-Watched

-- The same while the signal is emitting.
abbrev small_running : World
small_running = record small { impl = running }

destroy_object-emitting_example :
    (u : World) × (destroy_object targets 7 small_running ≡ ok u)
    × Silenced targets 7 small_running u
destroy_object-emitting_example =
    destroy_object-emitting targets 7 small_running running-Wf (omega arith) small-Registered
