-- ===== src/Signal/AccumulatedEmission.antt =====
-- signal_emit::emit with an accumulator that stays in its range.
use libsigcplusplus.Prelude.{
  ℕ, zero, suc, ◌+◌, ◌<◌, ◌≡◌, refl, some, List, [], ◌∷◌, ◌++◌, length, get_elem-last, arith,
  Outcome, ok, Safe, safe, deep, Safe-bind, Safe-map, Safe-result,
}
use libsigcplusplus.Signal.Nodes.{Node, begin}
use libsigcplusplus.Signal.Impl.{Impl, unreference_exec, reference_exec, sweep_fuel}
use libsigcplusplus.Signal.Emit.{Act, add_placeholder}
use libsigcplusplus.Signal.EmitLast.{state}
use libsigcplusplus.Signal.Extension.{Ext-refl}
use libsigcplusplus.Signal.Invariant.{Wf, Good}
use libsigcplusplus.Signal.Acts.{EmitGood}
use libsigcplusplus.Signal.Turns.{turns}
use libsigcplusplus.Signal.Emission.{BodyMade}
use libsigcplusplus.Signal.Scope.{placeholder, opened, opened-Wf, Scoped, closing}
use libsigcplusplus.Signal.Nested.{length-opened, nested-end}
use libsigcplusplus.Signal.Guarantee.{Settled, outer-end, Any, Falls, Enough}
use libsigcplusplus.Signal.Accumulate.{Use, buffer_at, emit_accumulated}
use libsigcplusplus.Signal.Located.{Respects, BufferAt}
use libsigcplusplus.Signal.Among.{Among, Among-slots}
use libsigcplusplus.Signal.Accumulated.{accumulate-Led}

-- The two iterators that the accumulator is given.
begin-at :
    (body : ℕ → ℕ → Impl → List Act) (ret : ℕ → ℕ → Impl → ℕ) (v : ℕ) (use_range : ℕ → Use)
    (xs : List Node) (x : Node)
    → BufferAt (xs ++ x ∷ []) (buffer_at body ret (some v) use_range (begin (xs ++ x ∷ []))) 0
begin-at body ret v use_range [] x = record {
  node = x;
  place = refl;
  iter = refl;
  emitter = refl;
  valued = refl;
}
begin-at body ret v use_range (y ∷ xs) x = record {
  node = y;
  place = refl;
  iter = refl;
  emitter = refl;
  valued = refl;
}

-- What an emission with an accumulator leaves.
pub record Accumulated (s t : Impl) : Type 0 where
  pub settled : Settled t
  pub called : Among 1 s.slots s (turns 1 t.log)

Safe-stated :
    {D : Type 0} {P : Impl → Type 0} {m : Outcome (ℕ × Impl)}
    → Safe D (λ (r : ℕ × Impl). P r.1) m
    → Safe D P (state m)
Safe-stated (safe p) = safe p
Safe-stated (deep d) = deep d

module _ (D : Type 0) (R A : ℕ → ℕ → Type 0) (bottom : (a : ℕ) → A zero a → D)
    (down : (n a b : ℕ) → A (suc n) a → R a b → A n b) (body : ℕ → ℕ → Impl → List Act)
    (made : BodyMade R body) (ret : ℕ → ℕ → Impl → ℕ) (v : ℕ) (use_range : ℕ → Use)
    (in_range : (n : ℕ) → Respects n (0 ∷ n ∷ []) (use_range n)) where
  abbrev nested : ℕ → ℕ → Impl → Outcome Impl
  nested d b t = state (emit_accumulated body ret (some v) use_range d b t)

  -- The scope up to the last step, which brings the count down.
  scope-Safe :
      (Q : Impl → Type 0) (d e a : ℕ) (s : Impl)
      → EmitGood D (R a) d (nested d)
      → Wf s
      → s.exec ≡ e
      → e + suc d < 32768
      → ((u : Impl)
          → Scoped (Among (suc e) (s.slots ++ placeholder s.next ∷ []) s) e s u
          → Safe D Q (unreference_exec sweep_fuel u))
      → Safe D (λ (r : ℕ × Impl). Q r.1) (emit_accumulated body ret (some v) use_range (suc d) a s)
  unfolding emit_accumulated reference_exec add_placeholder
  scope-Safe Q d e a s good wf lvl small last =
      let base = s.slots ++ placeholder s.next ∷ [] in
      let wf' = opened-Wf s wf in
      Safe-bind
        (accumulate-Led D R body made d a (nested d) good ret (some v) use_range e (length s.slots)
          base (length-opened s.slots s.next) wf'.distinct (use_range (length s.slots)) _
          (0 ∷ length s.slots ∷ []) (opened s) (in_range (length s.slots))
          (
            begin-at body ret v use_range s.slots (placeholder s.next),
            (
              record {
                node = placeholder s.next;
                place = get_elem-last (placeholder s.next) s.slots;
                iter = refl;
                emitter = refl;
                valued = refl;
              },
              tt,
            ),
          )
          (record { ext = Ext-refl base; wf = wf'; lvl = omega arith; small = omega arith }))
        (λ r w.
          let (u, gone, sc) = closing (Among (suc e) base s) e s r.1 lvl (omega arith) w.0 w.1 in
          rw gone (Safe-bind (last u sc) (λ t q. safe q)))

  nested-Good : (depth : ℕ) → EmitGood D (A depth) depth (nested depth)
  unfolding emit_accumulated
  nested-Good zero a s r wf pos small = deep (bottom a r)
  nested-Good (suc depth) a s r wf pos small = Safe-stated (
      scope-Safe (Good s.exec s) depth s.exec a s
        (λ b t q. nested-Good depth b t (down depth a b r q)) wf refl small
        (λ u sc. nested-end D _ s.exec s u refl pos (omega arith) sc))

  outer :
      (depth a : ℕ) (s : Impl)
      → A depth a
      → depth < 32768
      → Settled s
      → Safe D
          (λ (r : ℕ × Impl). Accumulated s r.1)
          (emit_accumulated body ret (some v) use_range depth a s)
  unfolding emit_accumulated
  outer zero a s r small st = deep (bottom a r)
  outer (suc depth) a s r small st =
      scope-Safe (Accumulated s) depth 0 a s (λ b t q. nested-Good depth b t (down depth a b r q))
        st.wf st.idle (omega arith)
        (λ u sc. Safe-map (outer-end D _ s u st sc) (λ t w. record {
          settled = w.0;
          called = Among-slots 1 s.next s.slots s (turns 1 t.log) w.1;
        }))

-- An emission with any functors and an accumulator that stays in its range, whatever it reads, reads
-- again or steps back to: no iterator or slot is used that is gone; if it comes to an end, the signal
-- is at rest again, and the slots called at the first level are among those that could be called when
-- it began. The result type has a value before it is assigned.
pub emit_accumulated-Accumulated :
    (body : ℕ → ℕ → Impl → List Act) (ret : ℕ → ℕ → Impl → ℕ) (v : ℕ) (use_range : ℕ → Use)
    (depth a : ℕ) (s : Impl)
    → BodyMade Any body
    → ((n : ℕ) → Respects n (0 ∷ n ∷ []) (use_range n))
    → depth < 32768
    → Settled s
    → Safe Unit
        (λ (r : ℕ × Impl). Accumulated s r.1)
        (emit_accumulated body ret (some v) use_range depth a s)
emit_accumulated-Accumulated body ret v use_range depth a s made in_range small st =
    outer Unit Any Any (λ x h. tt) (λ n x y h k. tt) body made ret v use_range in_range depth a s tt
      small st

-- If every functor emits the signal with smaller arguments only, an emission with argument `a`, the
-- depth `a + 1` and an accumulator that stays in its range comes to an end and gives a result, with
-- all that `emit_accumulated-Accumulated` says.
pub emit_accumulated-total :
    (body : ℕ → ℕ → Impl → List Act) (ret : ℕ → ℕ → Impl → ℕ) (v : ℕ) (use_range : ℕ → Use) (a : ℕ)
    (s : Impl)
    → BodyMade Falls body
    → ((n : ℕ) → Respects n (0 ∷ n ∷ []) (use_range n))
    → a < 32767
    → Settled s
    → (r : ℕ × Impl) × (emit_accumulated body ret (some v) use_range (suc a) a s ≡ ok r)
      × Accumulated s r.1
emit_accumulated-total body ret v use_range a s made in_range small st = Safe-result (
    outer ⊥ Falls Enough (λ x h. elim h [ ]) (λ n x y h k. omega arith) body made ret v use_range
      in_range (suc a) a s (omega arith) (omega arith) st)
