-- ===== src/Signal/Emit.antt =====
-- signal_emit::emit and temp_slot_list (sigc++/signal.h), with functors that use the signal itself.
use libsigcplusplus.Prelude.{
  ℕ, zero, suc, ◌+◌, Bool, true, false, ◌||◌, Option, none, some, List, [], ◌∷◌, ◌++◌, length,
  if◌then◌else◌, Outcome, ok, fault, no_fuel, ◌>>=◌,
}
use libsigcplusplus.Signal.Slot.{Slot, empty_slot, empty, Rep, called}
use libsigcplusplus.Signal.Nodes.{Node, begin, deref, update_slot}
use libsigcplusplus.Signal.Impl.{
  Impl, reference_exec, unreference_exec, sweep_fuel, erase_node, disconnect, for_each, clear,
  block, connect, connect_first,
}

-- What a functor may do to the signal that invokes it, through the signal and its connections.
pub data Act : Type 0 where
  connects : Slot → Act
  connects_first : Slot → Act
  disconnects : ℕ → Act
  blocks_slot : ℕ → Bool → Act
  blocks : Bool → Act
  clears : Act
  emits : ℕ → Act

-- A connection whose slot is gone does nothing.
abbrev pub is_ok {ℓ} : {A : Type ℓ} → Outcome A → Bool
is_ok (ok a) = true
is_ok fault = false
is_ok no_fuel = false

abbrev pub has : ℕ → List Node → Bool
has i ns = is_ok (deref i ns)

abbrev pub set_blocked : Bool → Slot → Slot
set_blocked b s = record s { blocked = b }

-- `emit` is the emission that a nested call starts.
unfoldable pub run_act : (emit : ℕ → Impl → Outcome Impl) → Act → Impl → Outcome Impl
run_act emit (connects sl) s = connect sl s
run_act emit (connects_first sl) s = connect_first sl s
run_act emit (disconnects i) s = if has i s.slots then disconnect i s else ok s
run_act emit (blocks_slot i b) s = ok (record s { slots = update_slot i (set_blocked b) s.slots })
run_act emit (blocks b) s = ok (block b s)
run_act emit clears s = clear s
run_act emit (emits a) s = emit a s

unfoldable pub run_acts : (emit : ℕ → Impl → Outcome Impl) → List Act → Impl → Outcome Impl
unfolding run_act
run_acts emit [] s = ok s
run_acts emit (a ∷ acts) s = run_act emit a s >>= run_acts emit acts

-- temp_slot_list: its placeholder goes to the end of the list.
unfoldable pub add_placeholder : Impl → Impl
add_placeholder s = record s {
  slots = s.slots ++ record { id = s.next; slot = empty_slot } ∷ [];
  next = s.next + 1;
}

abbrev pub is_empty : List Node → Bool
is_empty [] = true
is_empty (n ∷ ns) = false

abbrev pub functor_of : Option Rep → Option ℕ
functor_of none = none
functor_of (some r) = r.functor

-- A functor is user code: what it does to the signal may depend on the argument and on the state
-- that it meets.
module _ (body : ℕ → ℕ → Impl → List Act) where
  -- slot_call::call_it: a functor that is gone would be a null dereference.
  unfoldable pub invoke : (ℕ → Impl → Outcome Impl) → ℕ → Node → Impl → Outcome Impl
  unfolding run_acts
  invoke emit a n s = elim (functor_of n.slot.rep) [
    | none ↦ fault
    | some f ↦ run_acts emit (body f a s) (record s { log = called s.exec n.id f a ∷ s.log })
  ]

  unfoldable pub visit : (ℕ → Impl → Outcome Impl) → ℕ → Node → Impl → Outcome Impl
  unfolding invoke
  visit emit a n s = if empty n.slot || n.slot.blocked then ok s else invoke emit a n s

  -- The scope of the holder and of the slot list, round a loop over the list.
  unfoldable pub with_slots : (Option ℕ → Impl → Outcome Impl) → Impl → Outcome Impl
  with_slots loop s = do
    let s1 = reference_exec s
    s3 ← loop (some s1.next) (add_placeholder s1)
    s4 ← erase_node s1.next s3
    unreference_exec sweep_fuel s4

  -- signal_emit<void, void>::emit. The first argument bounds the depth of nested emissions.
  unfoldable pub emit : ℕ → ℕ → Impl → Outcome Impl
  unfolding visit with_slots
  emit zero a s = no_fuel
  emit (suc depth) a s =
      if is_empty s.slots
      then ok s
      else with_slots
          (λ end t. for_each (length t.slots) end (visit (emit depth) a) (begin t.slots) t) s
