-- ===== src/World/Program.antt =====
-- What a program does with a signal at rest, its connections and its trackables. Connection `c` of the
-- program is at the address `suc c`, since 0 is that of a local connection.
use libsigcplusplus.Prelude.{ℕ, suc, Bool, List, [], ◌∷◌, Outcome, ok, ◌>>=◌}
use libsigcplusplus.Signal.Slot.{Slot}
use libsigcplusplus.Signal.Steps.{SlotMade}
use libsigcplusplus.World.State.{
  World, connect_slot, connect_slot_first, clear_signal, block_signal, destroy_object,
}
use libsigcplusplus.World.Connections.{assign, reset, block_slot, disconnect_slot}
use libsigcplusplus.World.Scoped

pub data Step : Type 0 where
  connects : ℕ → Slot → Step
  connects_first : ℕ → Slot → Step
  disconnects : ℕ → Step
  blocks_connection : ℕ → Bool → Step
  blocks : Bool → Step
  clears : Step
  copies : ℕ → ℕ → Step
  resets : ℕ → Step
  destroys_object : ℕ → Step
  scoped_exchanges : ℕ → ℕ → Step
  scoped_swaps : ℕ → ℕ → Step
  scoped_assigns : ℕ → ℕ → Step
  scoped_moves : ℕ → ℕ → Step
  scoped_destroys : ℕ → Step

abbrev pub StepMade : Step → Type 0
StepMade (connects c sl) = SlotMade sl
StepMade (connects_first c sl) = SlotMade sl
StepMade (disconnects c) = Unit {0}
StepMade (blocks_connection c b) = Unit {0}
StepMade (blocks b) = Unit {0}
StepMade clears = Unit {0}
StepMade (copies c d) = Unit {0}
StepMade (resets c) = Unit {0}
StepMade (destroys_object o) = Unit {0}
StepMade (scoped_exchanges s t) = Unit {0}
StepMade (scoped_swaps s t) = Unit {0}
StepMade (scoped_assigns s c) = Unit {0}
StepMade (scoped_moves s t) = Unit {0}
StepMade (scoped_destroys s) = Unit {0}

module _ (targets : ℕ → List ℕ) where
  unfoldable pub run_step : Step → World → Outcome World
  run_step (connects c sl) w = connect_slot targets (suc c) sl w
  run_step (connects_first c sl) w = connect_slot_first targets (suc c) sl w
  run_step (disconnects c) w = disconnect_slot targets (suc c) w
  run_step (blocks_connection c b) w = block_slot (suc c) b w >>= λ r. ok r.1
  run_step (blocks b) w = ok (block_signal b w)
  run_step clears w = clear_signal targets w
  run_step (copies c d) w = ok (assign (suc c) (suc d) w)
  run_step (resets c) w = ok (reset (suc c) w)
  run_step (destroys_object o) w = destroy_object targets o w
  run_step (scoped_exchanges s t) w = ok (Scoped.exchange (suc s) (suc t) w)
  run_step (scoped_swaps s t) w = ok (Scoped.swap (suc s) (suc t) w)
  run_step (scoped_assigns s c) w = Scoped.assign_connection targets (suc s) (suc c) w
  run_step (scoped_moves s t) w = Scoped.assign_move targets (suc s) (suc t) w
  run_step (scoped_destroys s) w = Scoped.destroy targets (suc s) w

  unfoldable pub run_steps : List Step → World → Outcome World
  unfolding run_step
  run_steps [] w = ok w
  run_steps (x ∷ xs) w = run_step x w >>= run_steps xs
