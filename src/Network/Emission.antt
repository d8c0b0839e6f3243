-- ===== src/Network/Emission.antt =====
-- signal_emit::emit among several signals.
use libsigcplusplus.Prelude.{
  ℕ, zero, suc, ◌+◌, ◌<◌, ◌≡◌, refl, sym, ◌∙◌, subst, Bool, true, false, some, List, [], ◌∷◌, ◌++◌,
  length, arith, eq_self, Bool-cases, inl, inr, ◌==◌, if◌then◌else◌, Outcome, ok, Safe, safe, deep,
  Safe-bind, Safe-map, Safe-result,
}
use libsigcplusplus.Signal.Nodes.{begin}
use libsigcplusplus.Signal.Impl.{Impl, unreference_exec, reference_exec, sweep_fuel}
use libsigcplusplus.Signal.Emit.{add_placeholder, is_empty}
use libsigcplusplus.Signal.Extension.{Ext, Ext-refl}
use libsigcplusplus.Signal.Invariant.{Wf, Good, not-has_id-below}
use libsigcplusplus.Signal.Turns.{InTurn, Turns}
use libsigcplusplus.Signal.Scope.{placeholder, opened, opened-Wf, Scoped, closing}
use libsigcplusplus.Signal.Nested.{length-opened, nested-end}
use libsigcplusplus.Signal.Guarantee.{Settled, Emitted, Picks-none, outer-end, Any, Falls, Enough}
use libsigcplusplus.World.State.{set}
use libsigcplusplus.Network.Emit.{Network, NetworkAct, each_slot, visit_in, emit_in}
use libsigcplusplus.Network.Moved.{
  Alright, still, busy, Moved, rests, runs, Moved-refl, Moved-Settled, AllAlright, Moves,
  OthersMove, set-at, set-other, set-all,
}
use libsigcplusplus.Network.Acts.{EmitMoves}
use libsigcplusplus.Network.Rounds.{NetworkMade, each_slot-Loop}

Alright-Wf : (s : Impl) → Alright s → Wf s
Alright-Wf s (still st) = st.wf
Alright-Wf s (busy wf pos) = wf

Safe-choice :
    {D : Type 0} {P : Network → Type 0} {x y : Outcome Network} (b : Bool)
    → Safe D P x
    → Safe D P y
    → Safe D P (if b then x else y)
Safe-choice true p q = p
Safe-choice false p q = q

-- The end of an emission in a signal that was at rest, or that was emitting.
end-Moved :
    (D : Type 0) (s u : Impl)
    → Alright s
    → s.exec + 1 < 32768
    → Scoped (InTurn (suc s.exec) s.slots s) s.exec s u
    → Safe D (Moved s) (unreference_exec sweep_fuel u)
end-Moved D s u (still st) small sc =
    let sc' = subst (λ e. Scoped (InTurn (suc e) s.slots s) e s u) st.idle sc in
    Safe-map (outer-end D (InTurn 1 s.slots s) s u st sc') (λ t w. rests st w.0)
end-Moved D s u (busy wf pos) small sc =
    Safe-map (nested-end D _ s.exec s u refl pos (omega arith) sc) (λ t g. runs pos g)

-- The signal that emits, and the others.
abbrev EmittedIn : (Impl → Type 0) → ℕ → Network → Network → Type 0
EmittedIn Q k w v = Q (v k) × OthersMove k w v

module _ (D : Type 0) (R A : ℕ → ℕ → Type 0) (bottom : (a : ℕ) → A zero a → D)
    (down : (n a b : ℕ) → A (suc n) a → R a b → A n b) (body : ℕ → ℕ → Network → List NetworkAct)
    (made : NetworkMade R body) where
  module _ (d k a : ℕ) (w : Network) (good : EmitMoves D (R a) d (emit_in body d))
      (h : AllAlright (suc d) w) where
    entered : Network
    entered = set k (opened (w k)) w

    entered-AllAlright : AllAlright d (set k (opened (w k)) w)
    entered-AllAlright =
        set-all (λ j s. Alright s × (s.exec + d < 32768)) k (opened (w k)) w
          (
            busy (opened-Wf (w k) (Alright-Wf (w k) (h k).0)) (omega (arith, (h k).1)),
            omega (arith, (h k).1),
          )
          (λ j _. ((h j).0, omega (arith, (h j).1)))

    entered-Loop :
        Safe D
          (λ v.
            (Good (w k).exec (opened (w k)) (v k)
              × Turns (suc (w k).exec) (w k).slots (opened (w k)) (v k))
            × OthersMove k w v)
          (each_slot k
            (length (opened (w k)).slots)
            (some (w k).next)
            (visit_in body (emit_in body d) k a)
            (begin (opened (w k)).slots)
            (set k (opened (w k)) w))
    entered-Loop =
        let s = w k in
        let at = set-at k (opened s) w in
        let wf = Alright-Wf s (h k).0 in
        rw (length-opened s.slots s.next) (
          Safe-map
            (each_slot-Loop D R body made d k a (emit_in body d) good s.exec [] s.slots
              (placeholder s.next) (set k (opened s) w)
              (subst (λ t. Ext (s.slots ++ placeholder s.next ∷ []) t.slots) (sym at)
                (Ext-refl (s.slots ++ placeholder s.next ∷ [])))
              (not-has_id-below s.next s.slots wf.below) entered-AllAlright
              (subst Wf (sym at) (opened-Wf s wf))
              (subst (λ t. t.exec ≡ suc s.exec) (sym at) (omega (arith, (h k).1))))
            (λ v r. (
              subst (λ t. Good s.exec t (v k) × Turns (suc s.exec) s.slots t (v k)) at r.0,
              λ j other.
                  subst (λ t. Moved t (v j)) (set-other k j (opened s) w other) (r.1 j other),
            )))

    -- The scope of the holder and of the slot list, up to the last step.
    scope-EmittedIn :
        (Q : Impl → Type 0)
        → Q (w k)
        → ((u : Impl)
            → Scoped (InTurn (suc (w k).exec) (w k).slots (w k)) (w k).exec (w k) u
            → Safe D Q (unreference_exec sweep_fuel u))
        → Safe D (EmittedIn Q k w) (emit_in body (suc d) k a w)
    unfolding emit_in reference_exec add_placeholder
    scope-EmittedIn Q nothing last =
        Safe-choice (is_empty (w k).slots) (safe (nothing, λ j _. Moved-refl (w j) (h j).0)) (
          Safe-bind entered-Loop (λ v r.
            let (u, gone, sc) =
              closing (InTurn (suc (w k).exec) (w k).slots (w k)) (w k).exec (w k) (v k) refl
                (omega (arith, (h k).1)) r.0.0 r.0.1 in
            rw (gone, eq_self k)
              (Safe-bind (last u sc) (λ t q. safe (
                subst Q (sym (set-at k t (set k u v))) q,
                λ j other.
                    subst (Moved (w j))
                      (sym (set-other k j t (set k u v) other ∙ set-other k j u v other))
                      (r.1 j other),
              )))))

  nested-Moves : (depth : ℕ) → EmitMoves D (A depth) depth (emit_in body depth)
  unfolding emit_in
  nested-Moves zero k a w r h = deep (bottom a r)
  nested-Moves (suc d) k a w r h =
      Safe-map
        (scope-EmittedIn d k a w (λ j b v q. nested-Moves d j b v (down d a b r q)) h (Moved (w k))
          (Moved-refl (w k) (h k).0)
          (λ u sc. end-Moved D (w k) u (h k).0 (omega (arith, (h k).1)) sc))
        (λ v m. everywhere k w v m.0 m.1)
    where
      everywhere : (k : ℕ) (w v : Network) → Moved (w k) (v k) → OthersMove k w v → Moves w v
      everywhere k w v here others j = elim (Bool-cases (j == k)) [
        | inl is ↦ let same : k ≡ j = ground (arith, is) in subst (λ i. Moved (w i) (v i)) same here
        | inr other ↦ others j other
      ]

  outer :
      (depth k a : ℕ) (w : Network)
      → A depth a
      → depth < 32768
      → ((j : ℕ) → Settled (w j))
      → Safe D (λ v. Emitted (w k) (v k) × ((j : ℕ) → Settled (v j))) (emit_in body depth k a w)
  unfolding emit_in
  outer zero k a w r small st = deep (bottom a r)
  outer (suc d) k a w r small st =
      Safe-map
        (scope-EmittedIn d k a w (λ j b v q. nested-Moves d j b v (down d a b r q))
          (λ j. (still (st j), omega (arith, (st j).idle))) (Emitted (w k))
          (record { settled = st k; turn = ([], Picks-none (w k).slots, refl) })
          (λ u sc.
            Safe-map
              (outer-end D (InTurn 1 (w k).slots (w k)) (w k) u (st k)
                (subst (λ e. Scoped (InTurn (suc e) (w k).slots (w k)) e (w k) u) (st k).idle sc))
              (λ t q. record { settled = q.0; turn = q.1 })))
        (λ v m. (m.0, everywhere v m.0.settled m.1))
    where
      everywhere : (v : Network) → Settled (v k) → OthersMove k w v → (j : ℕ) → Settled (v j)
      everywhere v here others j = elim (Bool-cases (j == k)) [
        | inl is ↦ let same : k ≡ j = ground (arith, is) in subst (λ i. Settled (v i)) same here
        | inr other ↦ Moved-Settled (w j) (v j) (st j).idle (others j other)
      ]

-- The outermost emission of a signal among signals at rest, with functors that do anything to any of
-- them through their interface and emit them again: no iterator or slot is used that is gone; if it
-- comes to an end, every signal is at rest again, so that every slot disconnected meanwhile has been
-- swept, and the slots of the signal called at its first level are some of those that could be called
-- when it began, in their order and each at most once.
pub emit_in-Emitted :
    (body : ℕ → ℕ → Network → List NetworkAct) (depth k a : ℕ) (w : Network)
    → NetworkMade Any body
    → depth < 32768
    → ((j : ℕ) → Settled (w j))
    → Safe Unit (λ v. Emitted (w k) (v k) × ((j : ℕ) → Settled (v j))) (emit_in body depth k a w)
emit_in-Emitted body depth k a w made small st =
    outer Unit Any Any (λ x h. tt) (λ n x y h q. tt) body made depth k a w tt small st

-- If every functor emits signals with smaller arguments only, an emission with argument `a` and the
-- depth `a + 1` comes to an end, with all that `emit_in-Emitted` says.
pub emit_in-total :
    (body : ℕ → ℕ → Network → List NetworkAct) (k a : ℕ) (w : Network)
    → NetworkMade Falls body
    → a < 32767
    → ((j : ℕ) → Settled (w j))
    → (v : Network) × (emit_in body (suc a) k a w ≡ ok v)
      × (Emitted (w k) (v k) × ((j : ℕ) → Settled (v j)))
emit_in-total body k a w made small st = Safe-result (
    outer ⊥ Falls Enough (λ x h. elim h [ ]) (λ n x y h q. omega arith) body made (suc a) k a w
      (omega arith) (omega arith) st)
