-- ===== src/World/Connections.antt =====
-- connection (sigc++/connection.{h,cc}): a weak_raw_ptr to a slot of the signal.
use libsigcplusplus.Prelude.{ℕ, Bool, true, false, not, none, some, List, Outcome, ok, ◌>>=◌}
use libsigcplusplus.Signal.Slot.{empty}
use libsigcplusplus.Signal.Nodes.{deref, update_slot}
use libsigcplusplus.Signal.Impl.{disconnect}
use libsigcplusplus.Signal.Emit.{set_blocked}
use libsigcplusplus.World.State.{World, on_signal, point_to}

-- The address of a connection that is local to a member function while it runs.
abbrev pub local : ℕ
local = 0

-- connection::connection(const connection&) and operator=, by weak_raw_ptr's: connection `c` refers to
-- what `d` does, and is registered there.
unfoldable pub assign : ℕ → ℕ → World → World
unfolding point_to
assign c d w = point_to c (w.conns d) w

-- Assignment of connection(), and ~connection: ~weak_raw_ptr takes the callback back.
unfoldable pub reset : ℕ → World → World
unfolding point_to
reset c w = point_to c none w

-- A slot is read through the pointer.
unfoldable pub is_empty : ℕ → World → Outcome Bool
is_empty c w = elim (w.conns c) [
  | none ↦ ok true
  | some i ↦ deref i w.impl.slots >>= λ n. ok (empty n.slot)
]

unfoldable pub connected : ℕ → World → Outcome Bool
unfolding is_empty
connected c w = is_empty c w >>= λ b. ok (not b)

unfoldable pub is_blocked : ℕ → World → Outcome Bool
is_blocked c w = elim (w.conns c) [
  | none ↦ ok false
  | some i ↦ deref i w.impl.slots >>= λ n. ok n.slot.blocked
]

-- connection::block, whose result is the old state.
unfoldable pub block_slot : ℕ → Bool → World → Outcome (Bool × World)
block_slot c b w = elim (w.conns c) [
  | none ↦ ok (false, w)
  | some i ↦ do
    n ← deref i w.impl.slots
    ok (
      n.slot.blocked,
      record w { impl = record (w.impl) { slots = update_slot i (set_blocked b) w.impl.slots } },
    )
]

unfoldable pub unblock_slot : ℕ → World → Outcome (Bool × World)
unfolding block_slot
unblock_slot c w = block_slot c false w

module _ (targets : ℕ → List ℕ) where
  -- connection::disconnect
  unfoldable pub disconnect_slot : ℕ → World → Outcome World
  unfolding on_signal
  disconnect_slot c w = elim (w.conns c) [
    | none ↦ ok w
    | some i ↦ on_signal targets (disconnect i) w
  ]
