-- ===== src/Signal/Passive.antt =====
-- An emission to functors that leave the signal alone is a walk over its slots.
use libsigcplusplus.Prelude.{
  ℕ, suc, ◌+◌, ◌≡◌, refl, sym, ap, ◌∙◌, subst, Bool, true, false, ◌||◌, Option, none, some, List,
  [], ◌∷◌, ◌++◌, length, All, arith, if◌then◌else◌, Outcome, ok, Bool-cases, inl, inr, eq_self,
}
use mathlib.Core.List.{append_assoc}
use libsigcplusplus.Signal.Slot.{Event, called, empty, rep_callable, destroy_slot}
use libsigcplusplus.Signal.Nodes.{Node, begin}
use libsigcplusplus.Signal.Impl.{Impl, for_each, erase_node, reference_exec}
use libsigcplusplus.Signal.Emit.{
  Act, functor_of, add_placeholder, is_empty, run_acts, invoke, visit, with_slots, emit,
}
use libsigcplusplus.Signal.Extension.{has_id, Distinct}
use libsigcplusplus.Signal.Loop.{for_each-end, for_each-step}
use libsigcplusplus.Signal.Invariant.{NodeOk, Distinct-append, not-has_id-below}
use libsigcplusplus.Signal.Clear.{deref-middle, next_iter-middle, has_id-middle}
use libsigcplusplus.Signal.Emission.{callable-functor}
use libsigcplusplus.Signal.Guarantee.{Settled}
use libsigcplusplus.Signal.Nested.{length-opened}
use libsigcplusplus.Signal.Scope.{placeholder, opened}
use libsigcplusplus.Signal.Erase.{remove_id, erase-remove_id}
use libsigcplusplus.Signal.Settle.{unreference-stay}

-- The log of one slot that is called, and of the slots of a list, one after the other.
abbrev pub called_by : ℕ → ℕ → ℕ → Option ℕ → List Event → List Event
called_by lvl a i none log = log
called_by lvl a i (some f) log = called lvl i f a ∷ log

abbrev pub call_log : ℕ → ℕ → Node → List Event → List Event
call_log lvl a n log =
    if empty n.slot || n.slot.blocked then log else called_by lvl a n.id (functor_of n.slot.rep) log

abbrev pub calls : ℕ → ℕ → List Node → List Event → List Event
calls lvl a [] log = log
calls lvl a (n ∷ ns) log = calls lvl a ns (call_log lvl a n log)

abbrev pub passive : ℕ → ℕ → Impl → List Act
passive f a s = []

pub callable :
    (n : Node) → (empty n.slot || n.slot.blocked) ≡ false → rep_callable n.slot.rep ≡ true
unfolding empty
callable n busy = ground arith

pub remove_id-last :
    (i : ℕ) (xs : List Node) → has_id i xs ≡ false → remove_id i (xs ++ placeholder i ∷ []) ≡ xs
remove_id-last i [] h = ground arith
remove_id-last i (x ∷ xs) h = ground (arith, remove_id-last i xs)

module _ (nested : ℕ → Impl → Outcome Impl) (a : ℕ) where
  invoke-passive :
      (s : Impl) (n : Node) (f : ℕ)
      → functor_of n.slot.rep ≡ some f
      → invoke passive nested a n s ≡ ok (record s { log = called s.exec n.id f a ∷ s.log })
  unfolding invoke run_acts
  invoke-passive s n f e = rw (e, invoke)

  visit-passive :
      (d : Bool) (n : Node) (s : Impl)
      → NodeOk d n
      → visit passive nested a n s ≡ ok (record s { log = call_log s.exec a n s.log })
  unfolding visit
  visit-passive d n s h = elim (Bool-cases (empty n.slot || n.slot.blocked)) [
    | inl idle ↦ rw idle
    | inr busy ↦
        let (f, e) = callable-functor d n h (callable n busy) in
        rw (busy, e) (invoke-passive s n f e)
  ]

  loop-passive :
      (d : Bool) (todo pre : List Node) (ph : Node) (s : Impl)
      → s.slots ≡ pre ++ (todo ++ ph ∷ [])
      → Distinct (pre ++ (todo ++ ph ∷ []))
      → has_id ph.id todo ≡ false
      → All (NodeOk d) todo
      → for_each
          (suc (length todo))
          (some ph.id)
          (visit passive nested a)
          (begin (todo ++ ph ∷ []))
          s
        ≡ ok (record s { log = calls s.exec a todo s.log })
  loop-passive d [] pre ph s e di fresh h =
      for_each-end 0 (some ph.id) (visit passive nested a) (some ph.id) s (eq_self ph.id)
  loop-passive d (n ∷ ns) pre ph s e di fresh h =
      let split = append_assoc pre (n ∷ []) (ns ++ ph ∷ []) in
      let s' : Impl = record s { log = call_log s.exec a n s.log } in
      for_each-step (suc (length ns)) (some ph.id) (visit passive nested a) n.id n s s'
        (begin (ns ++ ph ∷ [])) (ground arith) (rw e (deref-middle n (ns ++ ph ∷ []) pre di))
        (visit-passive d n s h.0) (rw e (next_iter-middle n (ns ++ ph ∷ []) pre di))
      ∙ loop-passive d ns (pre ++ n ∷ []) ph s' (e ∙ sym split) (subst Distinct (sym split) di)
          (ground arith) h.1

pub no_slots :
    (a : ℕ) (ns : List Node) (log : List Event) → is_empty ns ≡ true → log ≡ calls 1 a ns log
no_slots a [] log e = refl
no_slots a (n ∷ ns) log e = absurd (cc)

scope-passive :
    (nested : ℕ → Impl → Outcome Impl) (a : ℕ) (s : Impl)
    → Settled s
    → with_slots passive
        (λ end t. for_each (length t.slots) end (visit passive nested a) (begin t.slots) t)
        s
      ≡ ok (record s { next = s.next + 1; log = calls 1 a s.slots s.log })
unfolding with_slots reference_exec add_placeholder erase_node destroy_slot
scope-passive nested a s st =
    let ph : Node = placeholder s.next in
    let fresh : has_id s.next s.slots ≡ false = not-has_id-below s.next s.slots st.wf.below in
    let di = Distinct-append s.slots ph st.wf.distinct st.wf.below in
    rw
      (
        length-opened s.slots s.next,
        loop-passive nested a s.deferred s.slots [] ph (opened s) refl di fresh st.wf.nodes,
        deref-middle ph [] s.slots di,
        erase-remove_id s.next (s.slots ++ ph ∷ []) (has_id-middle ph [] s.slots),
        remove_id-last s.next s.slots fresh,
      )
      (rw st.idle (
        unreference-stay 1 (record s { exec = 1; next = s.next + 1; log = calls 1 a s.slots s.log })
          (ground arith)))

-- With functors that leave the signal alone, an emission calls every slot that is neither empty nor
-- blocked, once, in the order of the list and with the given argument, and changes nothing else but
-- the next fresh address.
pub emit-passive :
    (depth a : ℕ) (s : Impl)
    → Settled s
    → emit passive (suc depth) a s
      ≡ ok (record s {
        next = if is_empty s.slots then s.next else s.next + 1;
        log = calls 1 a s.slots s.log;
      })
unfolding emit
emit-passive depth a s st = elim (Bool-cases (is_empty s.slots)) [
  | inl e ↦ rw e (ap (λ x. ok (record s { log = x })) (no_slots a s.slots s.log e))
  | inr e ↦ rw e (scope-passive (emit passive depth) a s st)
]
