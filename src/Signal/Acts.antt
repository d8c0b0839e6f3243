-- ===== src/Signal/Acts.antt =====
-- Every operation of signal_impl keeps the invariant and the list while the signal is emitting.
use libsigcplusplus.Prelude.{
  ℕ, ◌+◌, ◌<◌, ◌≡◌, refl, ap, Bool, true, ◌||◌, inr, Option, none, some, List, [], ◌∷◌, is_some,
  All, arith, if◌then◌else◌, Outcome, ok, fault, no_fuel, Safe, safe, Safe-bind, Safe-map,
}
use libsigcplusplus.Signal.Slot.{Rep}
use libsigcplusplus.Signal.Nodes.{
  Node, deref, update_slot, block_nodes, rep_disconnected, rep_parent,
}
use libsigcplusplus.Signal.Impl.{Impl, disconnect, clear, block}
use libsigcplusplus.Signal.Emit.{
  Act, connects, connects_first, disconnects, blocks_slot, blocks, clears, emits, is_ok,
  set_blocked, run_act, run_acts,
}
use libsigcplusplus.Signal.Extension.{RepLater-refl, Prefix-Ext}
use libsigcplusplus.Signal.Invariant.{
  RepOk, NodeOk, IdBelow, Wf, same, Good, Good-refl, Good-trans, Good-mono, Distinct-update_slot,
  All-update_slot, Prefix-update_slot, map_slots, Distinct-map_slots, All-map_slots,
  Prefix-map_slots,
}
use libsigcplusplus.Signal.Steps.{SlotMade, connect-Good, connect_first-Good}
use libsigcplusplus.Signal.Disconnect.{RepLater-disconnected, disconnect-Good}
use libsigcplusplus.Signal.Clear.{any_parent, clear-running}

-- A functor connects only slots that were made from functors or are empty, and emits the signal
-- only with the arguments of `R`.
abbrev pub ActMade : (ℕ → Type 0) → Act → Type 0
ActMade R (connects sl) = SlotMade sl
ActMade R (connects_first sl) = SlotMade sl
ActMade R (disconnects i) = Unit {0}
ActMade R (blocks_slot i b) = Unit {0}
ActMade R (blocks b) = Unit {0}
ActMade R clears = Unit {0}
ActMade R (emits a) = R a

pub block_nodes_lem : (b : Bool) (ns : List Node) → block_nodes b ns ≡ map_slots (set_blocked b) ns
unfolding block_nodes
block_nodes_lem b [] = refl
block_nodes_lem b (n ∷ ns) =
    ap (◌∷◌ (record n { slot = set_blocked b n.slot })) (block_nodes_lem b ns)

NodeOk-cleared :
    (d p : Bool) (n : Node)
    → NodeOk d n
    → (is_some (rep_parent n.slot.rep) ≡ true → p ≡ true)
    → NodeOk (d || p) (record n { slot = rep_disconnected n.slot })
NodeOk-cleared d p n h k = go n.slot.rep n.slot.blocked h k
  where
    go :
        (r : Option Rep) (b : Bool)
        → RepOk d n.id r
        → (is_some (rep_parent r) ≡ true → p ≡ true)
        → NodeOk (d || p) (record n { slot = rep_disconnected (record { rep = r; blocked = b }) })
    go none b h k = tt
    go (some r) b h k = (inr (refl, refl, ground arith), λ e. cc)

cleared-nodes :
    (d p : Bool) (ns : List Node)
    → All (NodeOk d) ns
    → (any_parent ns ≡ true → p ≡ true)
    → All (NodeOk (d || p)) (map_slots rep_disconnected ns)
unfolding any_parent
cleared-nodes d p [] h k = tt
cleared-nodes d p (n ∷ ns) h k = (
  NodeOk-cleared d p n h.0 (λ e. k (ground arith)),
  cleared-nodes d p ns h.1 (λ e. k (ground arith)),
)

module _ (s : Impl) (wf : Wf s) where
  pub block-Good : (b : Bool) → Good s.exec s (block b s)
  unfolding block
  block-Good b = rw (block_nodes_lem b s.slots) (record {
    wf = record {
      alive = wf.alive;
      distinct = Distinct-map_slots (set_blocked b) s.slots wf.distinct;
      below =
          All-map_slots (set_blocked b) (IdBelow s.next) (IdBelow s.next) (λ n h. h) s.slots
            wf.below;
      nodes =
          All-map_slots (set_blocked b) (NodeOk s.deferred) (NodeOk s.deferred) (λ n h. h) s.slots
            wf.nodes;
    };
    inner = record {
      exec = refl;
      next = omega arith;
      ext =
          Prefix-Ext s.slots _
            (Prefix-map_slots (set_blocked b) (λ sl. RepLater-refl sl.rep) s.slots);
      log = same;
      defers = λ h. h;
    };
  })

  pub block_slot-Good :
      (i : ℕ) (b : Bool)
      → Good s.exec s (record s { slots = update_slot i (set_blocked b) s.slots })
  block_slot-Good i b = record {
    wf = record {
      alive = wf.alive;
      distinct = Distinct-update_slot i (set_blocked b) s.slots wf.distinct;
      below = All-update_slot i (set_blocked b) (IdBelow s.next) (λ n h. h) s.slots wf.below;
      nodes = All-update_slot i (set_blocked b) (NodeOk s.deferred) (λ n h. h) s.slots wf.nodes;
    };
    inner = record {
      exec = refl;
      next = omega arith;
      ext =
          Prefix-Ext s.slots _
            (Prefix-update_slot i (set_blocked b) (λ sl. RepLater-refl sl.rep) s.slots);
      log = same;
      defers = λ h. h;
    };
  }

  clear-Good : (D : Type 0) → 0 < s.exec → s.exec < 32768 → Safe D (Good s.exec s) (clear s)
  clear-Good D pos small = rw (clear-running s wf.distinct pos small) (
      safe (record {
        wf = record {
          alive = wf.alive;
          distinct = Distinct-map_slots rep_disconnected s.slots wf.distinct;
          below =
              All-map_slots rep_disconnected (IdBelow s.next) (IdBelow s.next) (λ n h. h) s.slots
                wf.below;
          nodes = cleared-nodes s.deferred _ s.slots wf.nodes (λ h. ground (arith, wf.alive));
        };
        inner = record {
          exec = refl;
          next = omega arith;
          ext =
              Prefix-Ext s.slots _
                (Prefix-map_slots rep_disconnected RepLater-disconnected s.slots);
          log = same;
          defers = λ h. ground arith;
        };
      }))

-- A nested emission that behaves.
abbrev pub EmitGood : Type 0 → (ℕ → Type 0) → ℕ → (ℕ → Impl → Outcome Impl) → Type 0
EmitGood D R d emit =
    (a : ℕ) (s : Impl)
    → R a
    → Wf s
    → 0 < s.exec
    → s.exec + d < 32768
    → Safe D (Good s.exec s) (emit a s)

module _ (D : Type 0) (R : ℕ → Type 0) (d : ℕ) (emit : ℕ → Impl → Outcome Impl)
    (nested : EmitGood D R d emit) where
  pub run_act-Good :
      (act : Act) (s : Impl)
      → ActMade R act
      → Wf s
      → 0 < s.exec
      → s.exec + d < 32768
      → Safe D (Good s.exec s) (run_act emit act s)
  unfolding run_act
  run_act-Good (connects sl) s made wf pos small = connect-Good D s wf sl made
  run_act-Good (connects_first sl) s made wf pos small = connect_first-Good D s wf sl made
  run_act-Good (disconnects i) s made wf pos small = go (deref i s.slots) refl
    where
      go :
          (r : Outcome Node)
          → deref i s.slots ≡ r
          → Safe D (Good s.exec s) (if is_ok r then disconnect i s else ok s)
      go (ok n) e = (disconnect-Good D s wf (ground arith) i n e)
      go fault e = (safe (Good-refl s.exec s wf))
      go no_fuel e = (safe (Good-refl s.exec s wf))
  run_act-Good (blocks_slot i b) s made wf pos small = safe (block_slot-Good s wf i b)
  run_act-Good (blocks b) s made wf pos small = safe (block-Good s wf b)
  run_act-Good clears s made wf pos small = clear-Good s wf D pos (omega arith)
  run_act-Good (emits a) s made wf pos small = nested a s made wf pos small

  pub run_acts-Good :
      (acts : List Act) (s : Impl)
      → All (ActMade R) acts
      → Wf s
      → 0 < s.exec
      → s.exec + d < 32768
      → Safe D (Good s.exec s) (run_acts emit acts s)
  unfolding run_acts
  run_acts-Good [] s made wf pos small = safe (Good-refl s.exec s wf)
  run_acts-Good (act ∷ acts) s made wf pos small =
      Safe-bind (run_act-Good act s made.0 wf pos small) λ t g.
        Safe-map
          (run_acts-Good acts t made.1 g.wf (omega (arith, g.inner.exec))
            (omega (arith, g.inner.exec)))
          λ u h.
            Good-trans s.exec s t u g (Good-mono s.exec t.exec t u (omega (arith, g.inner.exec)) h)
