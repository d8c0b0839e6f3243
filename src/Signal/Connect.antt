-- ===== src/Signal/Connect.antt =====
-- Connecting a slot to a signal at rest.
use libsigcplusplus.Prelude.{◌+◌, ◌≡◌, refl, [], ◌∷◌, ◌++◌, arith, ok, Safe, safe}
use libsigcplusplus.Signal.Slot.{Slot}
use libsigcplusplus.Signal.Impl.{Impl, connect, connect_first}
use libsigcplusplus.Signal.Extension.{Ext-HasRep}
use libsigcplusplus.Signal.Invariant.{Good}
use libsigcplusplus.Signal.Steps.{
  SlotMade, connected, connect_lem, connect_first_lem, connect-Good, connect_first-Good,
}
use libsigcplusplus.Signal.Guarantee.{Settled}

pub good : {s : Impl} {t : Impl} → Safe ⊥ (Good s.exec s) (ok t) → Good s.exec s t
good (safe g) = g

pub Settled-Good : (s t : Impl) → Settled s → t.deferred ≡ s.deferred → Good s.exec s t → Settled t
Settled-Good s t st same g = record {
  wf = g.wf;
  idle = omega (arith, g.inner.exec, st.idle);
  clean = ground (arith, st.clean);
  reps = Ext-HasRep s.slots t.slots g.inner.ext st.reps;
}

module _ (s : Impl) (sl : Slot) (made : SlotMade sl) (st : Settled s) where
  -- `connect` adds one node for a copy of the slot behind all others, `connect_first` in front of
  -- them; the node has a fresh address, its slot names that address as its place, the other nodes
  -- and the log stay, and the signal is at rest again.
  pub connect-rest :
      (let t : Impl = record s { slots = s.slots ++ connected s.next sl ∷ []; next = s.next + 1 } in
        (connect sl s ≡ ok t) × Settled t)
      × (let t : Impl = record s { slots = connected s.next sl ∷ s.slots; next = s.next + 1 } in
          (connect_first sl s ≡ ok t) × Settled t)
  connect-rest =
      let back = connect_lem s sl st.wf.alive st.wf.below in
      let ahead = connect_first_lem s sl st.wf.alive in
      (
        (back, Settled-Good s _ st refl (good (rw back at (connect-Good ⊥ s st.wf sl made)))),
        (
          ahead,
          Settled-Good s _ st refl (good (rw ahead at (connect_first-Good ⊥ s st.wf sl made))),
        ),
      )
