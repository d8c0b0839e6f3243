-- ===== src/World/Scoped.antt =====
-- scoped_connection (sigc++/scoped_connection.{h,cc}): its connection `conn_` is the one of its number.
use libsigcplusplus.Prelude.{ℕ, List, Outcome, ok, ◌>>=◌}
use libsigcplusplus.World.State.{World}
use libsigcplusplus.World.Connections.{local, assign, reset, disconnect_slot}

-- scoped_connection(connection)
unfoldable pub from_connection : ℕ → ℕ → World → World
unfolding assign
from_connection s c w = assign s c w

-- std::exchange(t.conn_, connection()), whose result is a local connection, put into `s`: also
-- scoped_connection(scoped_connection&&). A connection that is moved is copied.
unfoldable pub exchange : ℕ → ℕ → World → World
unfolding assign reset
exchange s t w = reset local (assign s local (reset t (assign local t w)))

-- release(), into the connection `c`.
unfoldable pub release_into : ℕ → ℕ → World → World
unfolding exchange
release_into c s w = exchange c s w

-- swap(scoped_connection&, scoped_connection&), by std::swap of the connections.
unfoldable pub swap : ℕ → ℕ → World → World
unfolding assign reset
swap s t w = reset local (assign t local (assign s t (assign local s w)))

module _ (targets : ℕ → List ℕ) where
  -- operator=(connection), whose parameter is a local connection, which a disconnection tells too.
  unfoldable pub assign_connection : ℕ → ℕ → World → Outcome World
  unfolding assign reset disconnect_slot
  assign_connection s c w =
      disconnect_slot targets s (assign local c w) >>= λ w'. ok (reset local (assign s local w'))

  -- operator=(scoped_connection&&)
  unfoldable pub assign_move : ℕ → ℕ → World → Outcome World
  unfolding exchange disconnect_slot
  assign_move s t w = disconnect_slot targets s w >>= λ w'. ok (exchange s t w')

  -- ~scoped_connection
  unfoldable pub destroy : ℕ → World → Outcome World
  unfolding reset disconnect_slot
  destroy s w = disconnect_slot targets s w >>= λ w'. ok (reset s w')
