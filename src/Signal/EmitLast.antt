-- ===== src/Signal/EmitLast.antt =====
-- signal_emit<T_return, void>::emit (sigc++/signal.h): the emission that returns the last result.
use libsigcplusplus.Prelude.{
  ℕ, zero, suc, ◌||◌, Option, none, some, List, length, if◌then◌else◌, Outcome, ok, fault, no_fuel,
  ◌>>=◌,
}
use libsigcplusplus.Signal.Slot.{empty}
use libsigcplusplus.Signal.Nodes.{Node, begin, at_end, deref, next_iter}
use libsigcplusplus.Signal.Impl.{Impl, reference_exec, unreference_exec, sweep_fuel, erase_node}
use libsigcplusplus.Signal.Emit.{Act, add_placeholder, is_empty, functor_of, invoke}

-- The state that an emission with a result leaves.
abbrev pub state : Outcome (ℕ × Impl) → Outcome Impl
state (ok (r, s)) = ok s
state fault = fault
state no_fuel = no_fuel

-- `ret` is what a functor returns, from its argument and the state that it leaves; 0 is T_return().
module _ (body : ℕ → ℕ → Impl → List Act) (ret : ℕ → ℕ → Impl → ℕ) where
  unfoldable pub invoke_ret : (ℕ → Impl → Outcome Impl) → ℕ → Node → Impl → Outcome (ℕ × Impl)
  unfolding invoke
  invoke_ret nested a n s = elim (functor_of n.slot.rep) [
    | none ↦ fault
    | some f ↦ invoke body nested a n s >>= λ t. ok (ret f a t, t)
  ]

  unfoldable pub visit_ret : (ℕ → Impl → Outcome Impl) → ℕ → ℕ → Node → Impl → Outcome (ℕ × Impl)
  unfolding invoke_ret
  visit_ret nested a r n s =
      if empty n.slot || n.slot.blocked then ok (r, s) else invoke_ret nested a n s

  -- The second loop, from the slot behind the first that was called.
  unfoldable pub last_rest :
      (ℕ → Impl → Outcome Impl) → ℕ → ℕ → Option ℕ → Option ℕ → ℕ → Impl → Outcome (ℕ × Impl)
  unfolding visit_ret
  last_rest nested a zero end it r s = no_fuel
  last_rest nested a (suc k) end it r s =
      let round : Outcome (ℕ × Impl) = elim it [
        | none ↦ fault
        | some i ↦ do
          n ← deref i s.slots
          (r', s') ← visit_ret nested a r n s
          it' ← next_iter i s'.slots
          last_rest nested a k end it' r' s'
      ] in
      if at_end it end then ok (r, s) else round

  -- The first call, and the loop behind it.
  unfoldable pub last_first :
      (ℕ → Impl → Outcome Impl) → ℕ → ℕ → Option ℕ → ℕ → Node → Impl → Outcome (ℕ × Impl)
  unfolding last_rest
  last_first nested a k end i n s = do
    (r, s') ← invoke_ret nested a n s
    it' ← next_iter i s'.slots
    last_rest nested a k end it' r s'

  -- The first loop, which looks for a slot to call, and what follows it.
  unfoldable pub last_scan :
      (ℕ → Impl → Outcome Impl) → ℕ → ℕ → Option ℕ → Option ℕ → Impl → Outcome (ℕ × Impl)
  unfolding last_first
  last_scan nested a zero end it s = no_fuel
  last_scan nested a (suc k) end it s =
      let round : Outcome (ℕ × Impl) = elim it [
        | none ↦ fault
        | some i ↦ do
          n ← deref i s.slots
          let skip : Outcome (ℕ × Impl) =
              next_iter i s.slots >>= λ it'. last_scan nested a k end it' s
          if empty n.slot || n.slot.blocked then skip else last_first nested a k end i n s
      ] in
      if at_end it end then ok (0, s) else round

  -- The first argument bounds the depth of nested emissions, as for `emit`.
  unfoldable pub emit_last : ℕ → ℕ → Impl → Outcome (ℕ × Impl)
  unfolding last_scan
  emit_last zero a s = no_fuel
  emit_last (suc depth) a s =
      let scope : Outcome (ℕ × Impl) = do
        let s1 = reference_exec s
        let s2 = add_placeholder s1
        (r, s3) ←
            last_scan (λ b t. state (emit_last depth b t)) a (length s2.slots) (some s1.next)
              (begin s2.slots) s2
        s4 ← erase_node s1.next s3
        s5 ← unreference_exec sweep_fuel s4
        ok (r, s5)
      in if is_empty s.slots then ok (0, s) else scope
