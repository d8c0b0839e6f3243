-- ===== src/Network/Emit.antt =====
-- signal_emit::emit (sigc++/signal.h) with functors that use any signal: they connect, disconnect, block
-- and clear slots of it and emit it, as a functor made by make_slot does.
use libsigcplusplus.Prelude.{
  ℕ, zero, suc, ◌||◌, Option, none, some, List, [], ◌∷◌, length, if◌then◌else◌, Outcome, ok, fault,
  no_fuel, ◌>>=◌,
}
use libsigcplusplus.Signal.Slot.{empty, called}
use libsigcplusplus.Signal.Nodes.{Node, begin, at_end, deref, next_iter}
use libsigcplusplus.Signal.Impl.{Impl, reference_exec, unreference_exec, sweep_fuel, erase_node}
use libsigcplusplus.Signal.Emit.{
  Act, connects, connects_first, disconnects, blocks_slot, blocks, clears, emits, run_act,
  add_placeholder, is_empty, functor_of,
}
use libsigcplusplus.Signal.Throw.{no_emit}
use libsigcplusplus.World.State.{set}

-- The implementations of the signals, each with a log of its own.
abbrev pub Network : Type 0
Network = ℕ → Impl

-- What a functor does to a signal.
pub data NetworkAct : Type 0 where
  acts_on : ℕ → Act → NetworkAct

abbrev pub at_signal : ℕ → (Impl → Outcome Impl) → Network → Outcome Network
at_signal k f w = f (w k) >>= λ s. ok (set k s w)

-- `emit` is the emission of a signal that a nested call starts.
unfoldable pub run_network_act :
    (ℕ → ℕ → Network → Outcome Network) → NetworkAct → Network → Outcome Network
unfolding run_act
run_network_act emit (acts_on k (connects sl)) w = at_signal k (run_act no_emit (connects sl)) w
run_network_act emit (acts_on k (connects_first sl)) w =
    at_signal k (run_act no_emit (connects_first sl)) w
run_network_act emit (acts_on k (disconnects i)) w = at_signal k (run_act no_emit (disconnects i)) w
run_network_act emit (acts_on k (blocks_slot i b)) w =
    at_signal k (run_act no_emit (blocks_slot i b)) w
run_network_act emit (acts_on k (blocks b)) w = at_signal k (run_act no_emit (blocks b)) w
run_network_act emit (acts_on k clears) w = at_signal k (run_act no_emit clears) w
run_network_act emit (acts_on k (emits a)) w = emit k a w

unfoldable pub run_network_acts :
    (ℕ → ℕ → Network → Outcome Network) → List NetworkAct → Network → Outcome Network
unfolding run_network_act
run_network_acts emit [] w = ok w
run_network_acts emit (a ∷ acts) w = run_network_act emit a w >>= run_network_acts emit acts

-- The loop over the slots of one signal.
unfoldable pub each_slot :
    ℕ → ℕ → Option ℕ → (Node → Network → Outcome Network) → Option ℕ → Network → Outcome Network
each_slot k zero end visit it w = no_fuel
each_slot k (suc n) end visit it w =
    let round : Outcome Network = elim it [
      | none ↦ fault
      | some i ↦ do
        node ← deref i (w k).slots
        w' ← visit node w
        it' ← next_iter i (w' k).slots
        each_slot k n end visit it' w'
    ] in
    if at_end it end then ok w else round

module _ (body : ℕ → ℕ → Network → List NetworkAct) where
  -- A slot of the signal `k` is called.
  unfoldable pub invoke_in :
      (ℕ → ℕ → Network → Outcome Network) → ℕ → ℕ → Node → Network → Outcome Network
  unfolding run_network_acts
  invoke_in emit k a n w = elim (functor_of n.slot.rep) [
    | none ↦ fault
    | some f ↦
        let s = w k in
        run_network_acts emit (body f a w)
          (set k (record s { log = called s.exec n.id f a ∷ s.log }) w)
  ]

  unfoldable pub visit_in :
      (ℕ → ℕ → Network → Outcome Network) → ℕ → ℕ → Node → Network → Outcome Network
  unfolding invoke_in
  visit_in emit k a n w = if empty n.slot || n.slot.blocked then ok w else invoke_in emit k a n w

  -- The emission of the signal `k`. The first argument bounds the depth of nested emissions.
  unfoldable pub emit_in : ℕ → ℕ → ℕ → Network → Outcome Network
  unfolding visit_in each_slot
  emit_in zero k a w = no_fuel
  emit_in (suc depth) k a w =
      let scope : Outcome Network = do
        let s = w k
        let s1 = add_placeholder (reference_exec s)
        w2 ←
            each_slot k (length s1.slots) (some s.next) (visit_in (emit_in depth) k a)
              (begin s1.slots) (set k s1 w)
        w3 ← at_signal k (erase_node s.next) w2
        at_signal k (unreference_exec sweep_fuel) w3
      in if is_empty (w k).slots then ok w else scope
