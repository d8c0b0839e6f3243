-- ===== src/Signal/Throw.antt =====
-- signal_emit::emit (sigc++/signal.h) with functors that may throw: an exception leaves the loop, and
-- the destructors of temp_slot_list and signal_impl_holder run on its way.
use libsigcplusplus.Prelude.{
  ℕ, zero, suc, Bool, true, false, not, ◌&&◌, ◌||◌, Option, none, some, List, [], ◌∷◌, length,
  if◌then◌else◌, Outcome, ok, fault, no_fuel, ◌>>=◌,
}
use libsigcplusplus.Signal.Slot.{empty, called}
use libsigcplusplus.Signal.Nodes.{Node, begin, at_end, deref, next_iter}
use libsigcplusplus.Signal.Impl.{Impl, reference_exec, unreference_exec, sweep_fuel, erase_node}
use libsigcplusplus.Signal.Emit.{
  Act, connects, connects_first, disconnects, blocks_slot, blocks, clears, emits, run_act,
  add_placeholder, is_empty, functor_of,
}

-- What a functor does: whether it catches what its own emissions throw, and whether it throws itself
-- when it has done its acts.
pub record Script : Type 0 where
  pub acts : List Act
  pub catches : Bool
  pub throws : Bool

-- The mark is true when an exception is on its way.
abbrev pub Flight : Type 0
Flight = Outcome (Bool × Impl)

abbrev pub landed : Outcome Impl → Flight
landed m = m >>= λ t. ok (false, t)

abbrev pub no_emit : ℕ → Impl → Outcome Impl
no_emit a s = ok s

unfoldable pub run_act_throwing : (ℕ → Impl → Flight) → Act → Impl → Flight
unfolding run_act
run_act_throwing emit (connects sl) s = landed (run_act no_emit (connects sl) s)
run_act_throwing emit (connects_first sl) s = landed (run_act no_emit (connects_first sl) s)
run_act_throwing emit (disconnects i) s = landed (run_act no_emit (disconnects i) s)
run_act_throwing emit (blocks_slot i b) s = landed (run_act no_emit (blocks_slot i b) s)
run_act_throwing emit (blocks b) s = landed (run_act no_emit (blocks b) s)
run_act_throwing emit clears s = landed (run_act no_emit clears s)
run_act_throwing emit (emits a) s = emit a s

unfoldable pub run_script : (ℕ → Impl → Flight) → Bool → Bool → List Act → Impl → Flight
unfolding run_act_throwing
run_script emit catches throws [] s = ok (throws, s)
run_script emit catches throws (act ∷ acts) s = do
  (x, t) ← run_act_throwing emit act s
  let rest = run_script emit catches throws acts t
  if x && not catches then ok (true, t) else rest

-- The loop, which an exception leaves.
unfoldable pub each_until_throw : ℕ → Option ℕ → (Node → Impl → Flight) → Option ℕ → Impl → Flight
each_until_throw zero end visit it s = no_fuel
each_until_throw (suc k) end visit it s =
    let round : Flight = elim it [
      | none ↦ fault
      | some i ↦ do
        n ← deref i s.slots
        (x, t) ← visit n s
        let rest : Flight = next_iter i t.slots >>= λ it'. each_until_throw k end visit it' t
        if x then ok (true, t) else rest
    ] in
    if at_end it end then ok (false, s) else round

module _ (script : ℕ → ℕ → Impl → Script) where
  unfoldable pub invoke_throwing : (ℕ → Impl → Flight) → ℕ → Node → Impl → Flight
  unfolding run_script
  invoke_throwing emit a n s = elim (functor_of n.slot.rep) [
    | none ↦ fault
    | some f ↦
        let sc = script f a s in
        run_script emit sc.catches sc.throws sc.acts
          (record s { log = called s.exec n.id f a ∷ s.log })
  ]

  unfoldable pub visit_throwing : (ℕ → Impl → Flight) → ℕ → Node → Impl → Flight
  unfolding invoke_throwing
  visit_throwing emit a n s =
      if empty n.slot || n.slot.blocked then ok (false, s) else invoke_throwing emit a n s

  -- The first argument bounds the depth of nested emissions.
  unfoldable pub emit_throwing : ℕ → ℕ → Impl → Flight
  unfolding visit_throwing each_until_throw
  emit_throwing zero a s = no_fuel
  emit_throwing (suc depth) a s =
      let scope : Flight = do
        let s1 = reference_exec s
        let s2 = add_placeholder s1
        (x, s3) ←
            each_until_throw (length s2.slots) (some s1.next)
              (visit_throwing (emit_throwing depth) a) (begin s2.slots) s2
        s4 ← erase_node s1.next s3
        s5 ← unreference_exec sweep_fuel s4
        ok (x, s5)
      in if is_empty s.slots then ok (false, s) else scope
