-- ===== src/Network/Acts.antt =====
-- What functors do to any signal, at rest or emitting.
use libsigcplusplus.Prelude.{
  ℕ, Bool, ◌<◌, ◌≡◌, refl, List, [], ◌∷◌, All, arith, ok, fault, no_fuel, if◌then◌else◌, Outcome,
  Safe, safe, Safe-bind, Safe-map,
}
use libsigcplusplus.Signal.Nodes.{Node, deref}
use libsigcplusplus.Signal.Impl.{Impl, block, disconnect}
use libsigcplusplus.Signal.Emit.{
  Act, connects, connects_first, disconnects, blocks_slot, blocks, clears, emits, is_ok, run_act,
}
use libsigcplusplus.Signal.Guarantee.{Settled}
use libsigcplusplus.Signal.Acts.{ActMade, block-Good, block_slot-Good, run_act-Good}
use libsigcplusplus.Signal.Connect.{Settled-Good, connect-rest}
use libsigcplusplus.Signal.Rest.{disconnect-rest, clear-rest, Settled-cleared}
use libsigcplusplus.Signal.Throw.{no_emit}
use libsigcplusplus.Signal.Thrown.{no_emit-Good}
use libsigcplusplus.World.State.{set}
use libsigcplusplus.Network.Emit.{
  Network, NetworkAct, acts_on, at_signal, run_network_act, run_network_acts,
}
use libsigcplusplus.Network.Moved.{
  Alright, still, busy, Moved, rests, runs, Moved-refl, Moved-trans, AllAlright, Moves,
  Moves-AllAlright, set-all,
}

-- A functor connects only slots that the program made, and emits a signal only as `R` allows.
abbrev pub NetworkActMade : (ℕ → Type 0) → NetworkAct → Type 0
NetworkActMade R (acts_on k act) = ActMade R act

block-Settled : (b : Bool) (s : Impl) → Settled s → Settled (block b s)
unfolding block
block-Settled b s st = Settled-Good s (block b s) st refl (block-Good s st.wf b)

-- An act that emits nothing, on a signal at rest.
act-Settled :
    (D : Type 0) (R : ℕ → Type 0) (act : Act) (s : Impl)
    → ActMade R act
    → Settled s
    → Safe D Settled (run_act no_emit act s)
unfolding run_act
act-Settled D R (connects sl) s made st =
    (let r = (connect-rest s sl made st).0 in rw r.0 (safe r.1))
act-Settled D R (connects_first sl) s made st =
    (let r = (connect-rest s sl made st).1 in rw r.0 (safe r.1))
act-Settled D R (disconnects i) s made st = go (deref i s.slots) refl
  where
    go :
        (r : Outcome Node)
        → deref i s.slots ≡ r
        → Safe D Settled (if is_ok r then disconnect i s else ok s)
    go (ok n) e = (let r = disconnect-rest i n s st e in rw r.0 (safe r.1))
    go fault e = safe st
    go no_fuel e = safe st
act-Settled D R (blocks_slot i b) s made st =
    safe (Settled-Good s _ st refl (block_slot-Good s st.wf i b))
act-Settled D R (blocks b) s made st = safe (block-Settled b s st)
act-Settled D R clears s made st =
    rw (clear-rest s st.wf.distinct st.idle st.clean) (safe (Settled-cleared s _ st))
act-Settled D R (emits a) s made st = safe st

act-Moved :
    (D : Type 0) (R : ℕ → Type 0) (act : Act) (s : Impl)
    → ActMade R act
    → Alright s
    → s.exec < 32768
    → Safe D (Moved s) (run_act no_emit act s)
act-Moved D R act s made (still st) small =
    Safe-map (act-Settled D R act s made st) (λ t q. rests st q)
act-Moved D R act s made (busy wf pos) small =
    Safe-map (run_act-Good D R 0 no_emit (no_emit-Good D R 0) act s made wf pos (omega arith))
      (λ t g. runs pos g)

-- One signal moves, and the others stay.
set-Moves :
    (d k : ℕ) (w : Network) (s : Impl) → AllAlright d w → Moved (w k) s → Moves w (set k s w)
set-Moves d k w s h m = set-all (λ j t. Moved (w j) t) k s w m (λ j _. Moved-refl (w j) (h j).0)

-- A nested emission that behaves.
abbrev pub EmitMoves : Type 0 → (ℕ → Type 0) → ℕ → (ℕ → ℕ → Network → Outcome Network) → Type 0
EmitMoves D R d emit =
    (k a : ℕ) (w : Network) → R a → AllAlright d w → Safe D (Moves w) (emit k a w)

module _ (D : Type 0) (R : ℕ → Type 0) (d : ℕ) (emit : ℕ → ℕ → Network → Outcome Network)
    (nested : EmitMoves D R d emit) where
  at_signal-Moves :
      (k : ℕ) (act : Act) (w : Network)
      → ActMade R act
      → AllAlright d w
      → Safe D (Moves w) (at_signal k (run_act no_emit act) w)
  at_signal-Moves k act w made h =
      Safe-bind (act-Moved D R act (w k) made (h k).0 (omega (arith, (h k).1)))
        (λ s m. safe (set-Moves d k w s h m))

  act-Moves :
      (act : NetworkAct) (w : Network)
      → NetworkActMade R act
      → AllAlright d w
      → Safe D (Moves w) (run_network_act emit act w)
  unfolding run_network_act
  act-Moves (acts_on k (connects sl)) w made h = at_signal-Moves k (connects sl) w made h
  act-Moves (acts_on k (connects_first sl)) w made h =
      at_signal-Moves k (connects_first sl) w made h
  act-Moves (acts_on k (disconnects i)) w made h = at_signal-Moves k (disconnects i) w made h
  act-Moves (acts_on k (blocks_slot i b)) w made h = at_signal-Moves k (blocks_slot i b) w made h
  act-Moves (acts_on k (blocks b)) w made h = at_signal-Moves k (blocks b) w made h
  act-Moves (acts_on k clears) w made h = at_signal-Moves k clears w made h
  act-Moves (acts_on k (emits a)) w made h = nested k a w made h

  pub acts-Moves :
      (acts : List NetworkAct) (w : Network)
      → All (NetworkActMade R) acts
      → AllAlright d w
      → Safe D (Moves w) (run_network_acts emit acts w)
  unfolding run_network_acts
  acts-Moves [] w made h = safe (λ j. Moved-refl (w j) (h j).0)
  acts-Moves (act ∷ acts) w made h = Safe-bind (act-Moves act w made.0 h) (λ v m.
      Safe-map (acts-Moves acts v made.1 (Moves-AllAlright d w v h m))
        (λ u n j. Moved-trans (w j) (v j) (u j) (m j) (n j)))
