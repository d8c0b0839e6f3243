-- ===== src/Signal/ThrownPassive.antt =====
-- An emission to functors that leave the signal alone, some of which throw.
use mathlib.Core.List.{append_assoc}
use libsigcplusplus.Prelude.{
  ℕ, suc, ◌+◌, ◌≡◌, refl, sym, ap, ◌∙◌, subst, Bool, true, false, ◌||◌, Option, none, some, List,
  [], ◌∷◌, ◌++◌, length, All, arith, if◌then◌else◌, ok, Bool-cases, inl, inr, eq_self,
}
use libsigcplusplus.Signal.Slot.{empty, destroy_slot}
use libsigcplusplus.Signal.Nodes.{Node, begin, at_end, deref, next_iter}
use libsigcplusplus.Signal.Impl.{Impl, erase_node, reference_exec}
use libsigcplusplus.Signal.Emit.{functor_of, add_placeholder, is_empty}
use libsigcplusplus.Signal.Extension.{has_id, Distinct}
use libsigcplusplus.Signal.Invariant.{NodeOk, Distinct-append, not-has_id-below}
use libsigcplusplus.Signal.Clear.{deref-middle, next_iter-middle, has_id-middle}
use libsigcplusplus.Signal.Emission.{callable-functor}
use libsigcplusplus.Signal.Guarantee.{Settled}
use libsigcplusplus.Signal.Nested.{length-opened}
use libsigcplusplus.Signal.Scope.{placeholder, opened}
use libsigcplusplus.Signal.Erase.{erase-remove_id}
use libsigcplusplus.Signal.Settle.{unreference-stay}
use libsigcplusplus.Signal.Passive.{call_log, calls, callable, remove_id-last}
use libsigcplusplus.Signal.Throw.{
  Script, Flight, run_script, invoke_throwing, visit_throwing, each_until_throw, emit_throwing,
}
use libsigcplusplus.Signal.Thrown.{each-end, each-round}

-- Functors that only throw, or do not, by their number and the argument.
abbrev pub raising : (ℕ → ℕ → Bool) → ℕ → ℕ → Impl → Script
raising raises f a s = record { acts = []; catches = false; throws = raises f a }

-- Whether the call of a slot throws, the first of which ends the emission.
abbrev thrown_by : (ℕ → ℕ → Bool) → ℕ → Option ℕ → Bool
thrown_by raises a none = false
thrown_by raises a (some f) = raises f a

abbrev pub throws_at : (ℕ → ℕ → Bool) → ℕ → Node → Bool
throws_at raises a n =
    if empty n.slot || n.slot.blocked then false else thrown_by raises a (functor_of n.slot.rep)

abbrev pub throws_in : (ℕ → ℕ → Bool) → ℕ → List Node → Bool
throws_in raises a [] = false
throws_in raises a (n ∷ ns) = throws_at raises a n || throws_in raises a ns

abbrev pub up_to_throw : (ℕ → ℕ → Bool) → ℕ → List Node → List Node
up_to_throw raises a [] = []
up_to_throw raises a (n ∷ ns) = n ∷ (if throws_at raises a n then [] else up_to_throw raises a ns)

-- The two ways out of a round.
module _ (k : ℕ) (end : Option ℕ) (visit : Node → Impl → Flight) (i : ℕ) (n : Node) (s s' : Impl)
    (before : at_end (some i) end ≡ false) (found : deref i s.slots ≡ ok n) where
  each-leave :
      visit n s ≡ ok (true, s') → each_until_throw (suc k) end visit (some i) s ≡ ok (true, s')
  each-leave h = rw (each-round k end visit i n s before found, h)

  each-step :
      (it' : Option ℕ)
      → visit n s ≡ ok (false, s')
      → next_iter i s'.slots ≡ ok it'
      → each_until_throw (suc k) end visit (some i) s ≡ each_until_throw k end visit it' s'
  each-step it' h o = rw (each-round k end visit i n s before found, h, o)

module _ (raises : ℕ → ℕ → Bool) (nested : ℕ → Impl → Flight) (a : ℕ) where
  visit-raising :
      (d : Bool) (n : Node) (s : Impl)
      → NodeOk d n
      → visit_throwing (raising raises) nested a n s
        ≡ ok (throws_at raises a n, record s { log = call_log s.exec a n s.log })
  unfolding visit_throwing invoke_throwing run_script
  visit-raising d n s h = elim (Bool-cases (empty n.slot || n.slot.blocked)) [
    | inl idle ↦ rw idle
    | inr busy ↦
        let (f, e) = callable-functor d n h (callable n busy) in rw (busy, e, invoke_throwing) refl
  ]

  abbrev walk : Option ℕ → ℕ → Option ℕ → Impl → Flight
  walk end k it s = each_until_throw k end (visit_throwing (raising raises) nested a) it s

  walk-raising :
      (d : Bool) (todo pre : List Node) (ph : Node) (s : Impl)
      → s.slots ≡ pre ++ (todo ++ ph ∷ [])
      → Distinct (pre ++ (todo ++ ph ∷ []))
      → has_id ph.id todo ≡ false
      → All (NodeOk d) todo
      → walk (some ph.id) (suc (length todo)) (begin (todo ++ ph ∷ [])) s
        ≡ ok (
          throws_in raises a todo,
          record s { log = calls s.exec a (up_to_throw raises a todo) s.log },
        )
  walk-raising d [] pre ph s e di fresh h =
      each-end 0 (some ph.id) (visit_throwing (raising raises) nested a) (some ph.id) s
        (eq_self ph.id)
  walk-raising d (n ∷ ns) pre ph s e di fresh h =
      let split = append_assoc pre (n ∷ []) (ns ++ ph ∷ []) in
      let s' : Impl = record s { log = call_log s.exec a n s.log } in
      let v = visit_throwing (raising raises) nested a in
      let found : deref n.id s.slots ≡ ok n = rw e (deref-middle n (ns ++ ph ∷ []) pre di) in
      let left_at : Bool → Flight = λ b. ok (
        b || throws_in raises a ns,
        record s { log = calls s.exec a (n ∷ (if b then [] else up_to_throw raises a ns)) s.log },
      ) in
      elim (Bool-cases (throws_at raises a n)) [
        | inl t ↦
            each-leave (suc (length ns)) (some ph.id) v n.id n s s' (ground arith) found
              (visit-raising d n s h.0 ∙ ap (λ b. ok (b, s')) t)
            ∙ ap left_at (sym t)
        | inr t ↦
            each-step (suc (length ns)) (some ph.id) v n.id n s s' (ground arith) found
              (begin (ns ++ ph ∷ [])) (visit-raising d n s h.0 ∙ ap (λ b. ok (b, s')) t)
              (rw e (next_iter-middle n (ns ++ ph ∷ []) pre di))
            ∙ walk-raising d ns (pre ++ n ∷ []) ph s' (e ∙ sym split)
                (subst Distinct (sym split) di) (ground arith) h.1
            ∙ ap left_at (sym t)
      ]

-- With functors that do nothing but throw or return, an emission in a signal at rest throws exactly
-- if the call of some slot that is neither empty nor blocked does; it calls those slots in the order
-- of the list up to the first that throws, and changes nothing else but the next fresh address.
pub emit_throwing-raising :
    (raises : ℕ → ℕ → Bool) (depth a : ℕ) (s : Impl)
    → Settled s
    → emit_throwing (raising raises) (suc depth) a s
      ≡ ok (
        throws_in raises a s.slots,
        record s {
          next = if is_empty s.slots then s.next else s.next + 1;
          log = calls 1 a (up_to_throw raises a s.slots) s.log;
        },
      )
unfolding emit_throwing reference_exec add_placeholder erase_node destroy_slot
emit_throwing-raising raises depth a s st =
    let ph : Node = placeholder s.next in
    let fresh : has_id s.next s.slots ≡ false = not-has_id-below s.next s.slots st.wf.below in
    let di = Distinct-append s.slots ph st.wf.distinct st.wf.below in
    let log = calls 1 a (up_to_throw raises a s.slots) s.log in
    elim (Bool-cases (is_empty s.slots)) [
      | inl e ↦ rw e (by_empty s.slots e)
      | inr e ↦ rw e (
          rw
            (
              length-opened s.slots s.next,
              walk-raising raises (emit_throwing (raising raises) depth) a s.deferred s.slots [] ph
                  (opened s) refl di fresh st.wf.nodes,
              deref-middle ph [] s.slots di,
              erase-remove_id s.next (s.slots ++ ph ∷ []) (has_id-middle ph [] s.slots),
              remove_id-last s.next s.slots fresh,
            )
            (rw st.idle (
              rw
                (unreference-stay 1 (record s { exec = 1; next = s.next + 1; log = log })
                  (ground arith))
                refl)))
    ]
  where
    after : List Node → Bool × Impl
    after ns = (throws_in raises a ns, record s { log = calls 1 a (up_to_throw raises a ns) s.log })

    by_empty : (ns : List Node) → is_empty ns ≡ true → ok (false, s) ≡ ok (after ns)
    by_empty [] e = refl
    by_empty (n ∷ ns) e = absurd (cc)
