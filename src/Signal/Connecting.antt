-- ===== src/Signal/Connecting.antt =====
-- signal_emit::emit with functors that connect more slots: who is called.
use libsigcplusplus.Prelude.{
  ℕ, suc, ◌≡◌, refl, sym, ap, ◌∙◌, subst, Bool, true, false, some, List, [], ◌∷◌, ◌++◌, length, All,
  arith, Outcome, ok, Bool-cases, inl, inr, eq_self,
}
use mathlib.Core.List.{append_assoc, append-nil}
use libsigcplusplus.Signal.Slot.{destroy_slot}
use libsigcplusplus.Signal.Nodes.{Node, begin, deref, next_iter}
use libsigcplusplus.Signal.Impl.{Impl, for_each, erase_node, reference_exec, dec_short}
use libsigcplusplus.Signal.Emit.{Act, add_placeholder, is_empty, visit, with_slots, emit}
use libsigcplusplus.Signal.Extension.{has_id, Distinct}
use libsigcplusplus.Signal.Loop.{for_each-end, for_each-step}
use libsigcplusplus.Signal.Invariant.{NodeOk, Wf, not-has_id-below}
use libsigcplusplus.Signal.Clear.{deref-middle, next_iter-middle, has_id-middle}
use libsigcplusplus.Signal.Walk.{other}
use libsigcplusplus.Signal.Guarantee.{Settled}
use libsigcplusplus.Signal.Nested.{length-opened}
use libsigcplusplus.Signal.Scope.{placeholder, opened, opened-Wf}
use libsigcplusplus.Signal.Erase.{remove_id, erase-remove_id}
use libsigcplusplus.Signal.Settle.{unreference-stay}
use libsigcplusplus.Signal.Growing.{Connects, Grown, Grown-refl, Grown-trans, visit-Grown}
use libsigcplusplus.Signal.Passive.{calls, no_slots}

-- A piece of the list, with more on both sides.
regroup :
    (f pre xs post b : List Node)
    → f ++ ((pre ++ (xs ++ post)) ++ b) ≡ (f ++ pre) ++ (xs ++ (post ++ b))
regroup f pre xs post b =
    ap (λ u. f ++ u) (append_assoc pre (xs ++ post) b ∙ ap (λ u. pre ++ u) (append_assoc xs post b))
    ∙ sym (append_assoc f pre (xs ++ (post ++ b)))

remove_id-middle :
    (ph : Node) (post pre : List Node)
    → Distinct (pre ++ ph ∷ post)
    → remove_id ph.id (pre ++ ph ∷ post) ≡ pre ++ post
remove_id-middle ph post [] d = rw (eq_self ph.id)
remove_id-middle ph post (x ∷ pre) d =
    rw (other x ph.id (pre ++ ph ∷ post) d.0 (has_id-middle ph post pre))
      (ap (λ u. x ∷ u) (remove_id-middle ph post pre d.1))

module _ (body : ℕ → ℕ → Impl → List Act)
    (made : (f a : ℕ) (s : Impl) → All Connects (body f a s)) where
  loop-Grown :
      (nested : ℕ → Impl → Outcome Impl) (a : ℕ) (d : Bool) (todo pre post : List Node) (ph : Node)
      (s : Impl)
      → s.slots ≡ pre ++ (todo ++ ph ∷ post)
      → Wf s
      → has_id ph.id todo ≡ false
      → All (NodeOk d) todo
      → (t : Impl) × (for_each
            (suc (length todo))
            (some ph.id)
            (visit body nested a)
            (begin (todo ++ ph ∷ post))
            s
          ≡ ok t)
        × Grown (calls s.exec a todo s.log) s t
  loop-Grown nested a d [] pre post ph s e wf fresh h = (
    s,
    for_each-end 0 (some ph.id) (visit body nested a) (some ph.id) s (eq_self ph.id),
    Grown-refl s wf,
  )
  loop-Grown nested a d (n ∷ ns) pre post ph s e wf fresh h =
      let (s', run, g) = visit-Grown body made nested a d n s h.0 wf in
      let grown : s'.slots ≡ (g.front ++ pre) ++ (n ∷ (ns ++ (ph ∷ (post ++ g.back)))) =
        g.slots
        ∙ (ap (λ u. g.front ++ (u ++ g.back)) e
            ∙ regroup g.front pre (n ∷ ns) (ph ∷ post) g.back) in
      let on : next_iter n.id s'.slots ≡ ok (begin (ns ++ (ph ∷ (post ++ g.back)))) =
        subst (λ u. next_iter n.id u ≡ ok (begin (ns ++ (ph ∷ (post ++ g.back))))) (sym grown)
          (next_iter-middle n (ns ++ (ph ∷ (post ++ g.back))) (g.front ++ pre)
            (subst Distinct grown g.wf.distinct)) in
      let found : deref n.id s.slots ≡ ok n =
        subst (λ u. deref n.id u ≡ ok n) (sym e)
          (deref-middle n (ns ++ ph ∷ post) pre (subst Distinct e wf.distinct)) in
      let (t, rest, k) =
        loop-Grown nested a d ns ((g.front ++ pre) ++ n ∷ []) (post ++ g.back) ph s'
          (grown ∙ sym (append_assoc (g.front ++ pre) (n ∷ []) (ns ++ (ph ∷ (post ++ g.back)))))
          g.wf (ground arith) h.1 in
      (
        t,
        for_each-step (suc (length ns)) (some ph.id) (visit body nested a) n.id n s s'
              (begin (ns ++ (ph ∷ (post ++ g.back)))) (ground arith) found run on
            ∙ rest,
        subst (λ l. Grown l s t) (λ i. calls (g.exec i) a ns (g.logged i))
            (Grown-trans _ _ s s' t g k),
      )

erase-placeholder :
    (i : ℕ) (pre post : List Node) (t : Impl)
    → t.slots ≡ pre ++ placeholder i ∷ post
    → Distinct t.slots
    → erase_node i t ≡ ok (record t { slots = pre ++ post })
unfolding erase_node destroy_slot
erase-placeholder i pre post t e d =
    let d' : Distinct (pre ++ placeholder i ∷ post) = subst Distinct e d in
    let found : deref i t.slots ≡ ok (placeholder i) =
      subst (λ u. deref i u ≡ ok (placeholder i)) (sym e)
        (deref-middle (placeholder i) post pre d') in
    let erased =
      erase-remove_id i t.slots
        (subst (λ u. has_id i u ≡ true) (sym e) (has_id-middle (placeholder i) post pre)) in
    rw (found, erased)
      (ap (λ u. ok (record t { slots = u }))
        (ap (remove_id i) e ∙ remove_id-middle (placeholder i) post pre d'))

-- What the emission leaves, from `s`.
abbrev pub AllCalled : ℕ → Impl → Impl → Type 0
AllCalled a s t =
    (t.log ≡ calls 1 a s.slots s.log)
    × ((front : List Node) × (back : List Node) × (t.slots ≡ front ++ (s.slots ++ back)))

module _ (body : ℕ → ℕ → Impl → List Act)
    (made : (f a : ℕ) (s : Impl) → All Connects (body f a s)) where
  scope-connects :
      (nested : ℕ → Impl → Outcome Impl) (a : ℕ) (s : Impl)
      → Settled s
      → (t : Impl) × (with_slots body
            (λ end u. for_each (length u.slots) end (visit body nested a) (begin u.slots) u)
            s
          ≡ ok t)
        × AllCalled a s t
  unfolding with_slots reference_exec add_placeholder
  scope-connects nested a s st =
      let ph : Node = placeholder s.next in
      let (t, run, g) =
        loop-Grown body made nested a s.deferred s.slots [] [] ph (opened s) refl
          (opened-Wf s st.wf) (not-has_id-below s.next s.slots st.wf.below) st.wf.nodes in
      let split = g.slots ∙ regroup g.front s.slots [] (ph ∷ []) g.back in
      let gone = erase-placeholder s.next (g.front ++ s.slots) g.back t split g.wf.distinct in
      let t' : Impl = record t { slots = (g.front ++ s.slots) ++ g.back } in
      (
        record t' { exec = dec_short t.exec },
        rw (length-opened s.slots s.next, run, gone)
            (unreference-stay 1 t' (ground (arith, g.deferred, st.clean))),
        (
          g.logged ∙ ap (λ lvl. calls lvl a s.slots s.log) (omega (arith, st.idle)),
          (g.front, g.back, append_assoc g.front s.slots g.back),
        ),
      )

  -- With functors that only connect slots, behind the others or in front of them, an emission in a
  -- signal at rest comes to an end: it calls every slot that was in the list when it began and is
  -- neither empty nor blocked, once, in the order of the list and with its argument, and no slot that
  -- was connected meanwhile; the old slots stay as they were, between the new ones.
  pub emit-connects :
      (depth a : ℕ) (s : Impl)
      → Settled s
      → (t : Impl) × (emit body (suc depth) a s ≡ ok t) × AllCalled a s t
  unfolding emit
  emit-connects depth a s st = elim (Bool-cases (is_empty s.slots)) [
    | inl e ↦ rw e (s, refl, (no_slots a s.slots s.log e, ([], [], sym (append-nil s.slots))))
    | inr e ↦ rw e (scope-connects (emit body depth) a s st)
  ]
