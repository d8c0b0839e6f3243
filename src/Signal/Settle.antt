-- ===== src/Signal/Settle.antt =====
-- The end of an emission: signal_impl::unreference_exec and sweep, which come to an end.
use libsigcplusplus.Prelude.{ℕ, suc, ◌≡◌, true, false, ◌&&◌, ◌==◌, arith, ok}
use libsigcplusplus.Signal.Nodes.{keep_nonempty, destroy_empty}
use libsigcplusplus.Signal.Impl.{
  Impl, dec_short, reference_exec, unreference_exec, sweep_loop, sweep_fuel,
}

-- What `sweep` leaves.
abbrev pub swept : Impl → Impl
swept s = record s {
  slots = keep_nonempty s.slots;
  exec = 0;
  deferred = false;
  log = destroy_empty s.slots s.log;
}

pub unreference-stay :
    (k : ℕ) (s : Impl)
    → ((dec_short s.exec == 0) && s.deferred) ≡ false
    → unreference_exec (suc k) s ≡ ok (record s { exec = dec_short s.exec })
unfolding unreference_exec
unreference-stay k s h = rw h

sweep-ends :
    (k : ℕ) (s : Impl)
    → s.exec ≡ 0
    → unreference_exec (suc k) (sweep_loop (reference_exec s)) ≡ ok (swept s)
unfolding sweep_loop reference_exec unreference_exec
sweep-ends k s e = ground arith

pub unreference-sweep :
    (s : Impl)
    → (dec_short s.exec == 0) ≡ true
    → s.deferred ≡ true
    → unreference_exec sweep_fuel s ≡ ok (swept s)
unfolding unreference_exec
unreference-sweep s e d =
    rw (e, d) (sweep-ends 0 (record s { exec = dec_short s.exec; deferred = true }) (ground arith))
