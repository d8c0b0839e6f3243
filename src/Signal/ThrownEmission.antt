-- ===== src/Signal/ThrownEmission.antt =====
-- signal_emit::emit with functors that may throw: the holder and the slot list leave the signal whole.
use libsigcplusplus.Prelude.{
  ℕ, zero, suc, ◌+◌, ◌<◌, ◌≡◌, refl, Bool, true, false, some, [], ◌∷◌, ◌++◌, length, arith,
  if◌then◌else◌, ok, Safe, safe, deep, Safe-bind, Safe-map, Safe-result,
}
use libsigcplusplus.Signal.Nodes.{begin}
use libsigcplusplus.Signal.Impl.{Impl, unreference_exec, reference_exec, sweep_fuel}
use libsigcplusplus.Signal.Emit.{add_placeholder, is_empty}
use libsigcplusplus.Signal.Extension.{Ext-refl}
use libsigcplusplus.Signal.Invariant.{Wf, Good, Good-refl, not-has_id-below}
use libsigcplusplus.Signal.Turns.{InTurn}
use libsigcplusplus.Signal.Scope.{placeholder, opened, opened-Wf, Scoped, closing}
use libsigcplusplus.Signal.Nested.{length-opened, nested-end}
use libsigcplusplus.Signal.Guarantee.{Settled, Emitted, Picks-none, outer-end, Any, Falls, Enough}
use libsigcplusplus.Signal.Throw.{Script, Flight, visit_throwing, each_until_throw, emit_throwing}
use libsigcplusplus.Signal.Thrown.{ScriptMade, FlightGood, Left, each_until_throw-Good}

Safe-unless :
    {D : Type 0} {P : Bool × Impl → Type 0} {x y : Flight} (b : Bool)
    → Safe D P x
    → Safe D P y
    → Safe D P (if b then x else y)
Safe-unless true p q = p
Safe-unless false p q = q

module _ (D : Type 0) (R A : ℕ → ℕ → Type 0) (bottom : (a : ℕ) → A zero a → D)
    (down : (n a b : ℕ) → A (suc n) a → R a b → A n b) (script : ℕ → ℕ → Impl → Script)
    (made : ScriptMade R script) where
  opened-loop :
      (d e a : ℕ) (s : Impl)
      → FlightGood D (R a) d (emit_throwing script d)
      → Wf s
      → s.exec ≡ e
      → e + suc d < 32768
      → Safe D (Left e s.slots (opened s)) (
          each_until_throw
            (length (opened s).slots)
            (some s.next)
            (visit_throwing script (emit_throwing script d) a)
            (begin (opened s).slots)
            (opened s))
  opened-loop d e a s good wf lvl small = rw (length-opened s.slots s.next) (
      each_until_throw-Good D R script made d a (emit_throwing script d) good e [] s.slots
        (placeholder s.next) (opened s) (Ext-refl (s.slots ++ placeholder s.next ∷ []))
        (not-has_id-below s.next s.slots wf.below) (opened-Wf s wf) (omega arith) (omega arith))

  -- The scope up to the last step, which brings the count down, exception or not.
  scope-Safe :
      (Q : Impl → Type 0) (d e a : ℕ) (s : Impl)
      → FlightGood D (R a) d (emit_throwing script d)
      → Wf s
      → s.exec ≡ e
      → e + suc d < 32768
      → Q s
      → ((u : Impl)
          → Scoped (InTurn (suc e) s.slots s) e s u
          → Safe D Q (unreference_exec sweep_fuel u))
      → Safe D (λ (r : Bool × Impl). Q r.1) (emit_throwing script (suc d) a s)
  unfolding emit_throwing reference_exec add_placeholder
  scope-Safe Q d e a s good wf lvl small same last = Safe-unless (is_empty s.slots) (safe same) (
      Safe-bind (opened-loop d e a s good wf lvl small) (λ r v.
        let (u, gone, sc) = closing (InTurn (suc e) s.slots s) e s r.1 lvl (omega arith) v.0 v.1 in
        rw gone (Safe-bind (last u sc) (λ t q. safe q))))

  nested-Good : (depth : ℕ) → FlightGood D (A depth) depth (emit_throwing script depth)
  unfolding emit_throwing
  nested-Good zero a s r wf pos small = deep (bottom a r)
  nested-Good (suc depth) a s r wf pos small =
      scope-Safe (Good s.exec s) depth s.exec a s
        (λ b t q. nested-Good depth b t (down depth a b r q)) wf refl small (Good-refl s.exec s wf)
        (λ u sc. nested-end D _ s.exec s u refl pos (omega arith) sc)

  outer :
      (depth a : ℕ) (s : Impl)
      → A depth a
      → depth < 32768
      → Settled s
      → Safe D (λ (r : Bool × Impl). Emitted s r.1) (emit_throwing script depth a s)
  unfolding emit_throwing
  outer zero a s r small st = deep (bottom a r)
  outer (suc depth) a s r small st =
      scope-Safe (Emitted s) depth 0 a s (λ b t q. nested-Good depth b t (down depth a b r q)) st.wf
        st.idle (omega arith) (record { settled = st; turn = ([], Picks-none s.slots, refl) })
        (λ u sc.
          Safe-map (outer-end D (InTurn 1 s.slots s) s u st sc)
            (λ t w. record { settled = w.0; turn = w.1 }))

-- The outermost emission with functors that do anything through the signal's interface and may throw:
-- no iterator or slot is used that is gone; if it comes to an end, by an exception or without, the
-- signal is at rest again, so that every slot disconnected meanwhile has been swept, and the slots
-- called at the first level are some of those that could be called when it began, in their order.
pub emit_throwing-Emitted :
    (script : ℕ → ℕ → Impl → Script) (depth a : ℕ) (s : Impl)
    → ScriptMade Any script
    → depth < 32768
    → Settled s
    → Safe Unit (λ (r : Bool × Impl). Emitted s r.1) (emit_throwing script depth a s)
emit_throwing-Emitted script depth a s made small st =
    outer Unit Any Any (λ x h. tt) (λ n x y h k. tt) script made depth a s tt small st

-- If every functor emits the signal with smaller arguments only, throwing or not, an emission with
-- argument `a` and the depth `a + 1` comes to an end, by an exception or without, with all that
-- `emit_throwing-Emitted` says.
pub emit_throwing-total :
    (script : ℕ → ℕ → Impl → Script) (a : ℕ) (s : Impl)
    → ScriptMade Falls script
    → a < 32767
    → Settled s
    → (r : Bool × Impl) × (emit_throwing script (suc a) a s ≡ ok r) × Emitted s r.1
emit_throwing-total script a s made small st = Safe-result (
    outer ⊥ Falls Enough (λ x h. elim h [ ]) (λ n x y h k. omega arith) script made (suc a) a s
      (omega arith) (omega arith) st)
