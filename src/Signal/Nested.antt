-- ===== src/Signal/Nested.antt =====
-- signal_emit::emit in a signal that emits already.
use libsigcplusplus.Prelude.{
  ℕ, zero, suc, ◌+◌, ◌<◌, ◌≡◌, refl, sym, ◌∙◌, Bool, true, false, Option, some, List, [], ◌∷◌, ◌++◌,
  arith, if◌then◌else◌, length, length-append, Outcome, Safe, safe, deep, Safe-bind,
}
use libsigcplusplus.Signal.Nodes.{Node, begin}
use libsigcplusplus.Signal.Impl.{
  Impl, dec_short, for_each, reference_exec, unreference_exec, sweep_fuel,
}
use libsigcplusplus.Signal.Emit.{Act, add_placeholder, is_empty, visit, with_slots, emit}
use libsigcplusplus.Signal.Extension.{Ext-refl}
use libsigcplusplus.Signal.Invariant.{Wf, Good, Good-refl, not-has_id-below}
use libsigcplusplus.Signal.Acts.{EmitGood}
use libsigcplusplus.Signal.Emission.{BodyMade, loop-Good}
use libsigcplusplus.Signal.Scope.{placeholder, opened, opened-Wf, Scoped, closing}
use libsigcplusplus.Signal.Settle.{unreference-stay}
use libsigcplusplus.Signal.Turns.{Turns, InTurn}

pub length-opened : (ns : List Node) (i : ℕ) → length (ns ++ placeholder i ∷ []) ≡ suc (length ns)
length-opened ns i = omega (arith, length-append ns (placeholder i ∷ []))

pub Safe-if :
    {D : Type 0} {Q : Impl → Type 0} {x y : Outcome Impl} (b : Bool)
    → Safe D Q x
    → Safe D Q y
    → Safe D Q (if b then x else y)
Safe-if true p q = p
Safe-if false p q = q

-- The count comes back to that of the emission round this one.
pub nested-end :
    (D : Type 0) (P : List ℕ → Type 0) (e : ℕ) (s u : Impl)
    → s.exec ≡ e
    → 0 < e
    → e < 32768
    → Scoped P e s u
    → Safe D (Good e s) (unreference_exec sweep_fuel u)
nested-end D P e s u lvl pos small sc =
    let down : dec_short u.exec ≡ e = omega (arith, sc.exec) in
    rw (unreference-stay 1 u (ground (arith, down))) (
      safe (record {
        wf = record {
          alive = sc.wf.alive;
          distinct = sc.wf.distinct;
          below = sc.wf.below;
          nodes = sc.wf.nodes;
        };
        inner = record {
          exec = down ∙ sym lvl;
          next = sc.next;
          ext = sc.ext;
          log = sc.log;
          defers = sc.defers;
        };
      }))

-- `R a b`: a functor called with `a` may emit with `b`. `A n a`: the depth `n` serves for `a`.
module _ (D : Type 0) (R A : ℕ → ℕ → Type 0) (bottom : (a : ℕ) → A zero a → D)
    (down : (n a b : ℕ) → A (suc n) a → R a b → A n b) (body : ℕ → ℕ → Impl → List Act)
    (made : BodyMade R body) where
  abbrev loop : ℕ → ℕ → Option ℕ → Impl → Outcome Impl
  loop d a end t = for_each (length t.slots) end (visit body (emit body d) a) (begin t.slots) t

  opened-loop :
      (d e a : ℕ) (s : Impl)
      → EmitGood D (R a) d (emit body d)
      → Wf s
      → s.exec ≡ e
      → e + suc d < 32768
      → Safe D
          (λ t. Good e (opened s) t × Turns (suc e) s.slots (opened s) t)
          (loop d a (some s.next) (opened s))
  opened-loop d e a s nested wf lvl small = rw (length-opened s.slots s.next) (
      loop-Good D R body made d a (emit body d) nested e [] s.slots (placeholder s.next) (opened s)
        (Ext-refl (s.slots ++ placeholder s.next ∷ [])) (not-has_id-below s.next s.slots wf.below)
        (opened-Wf s wf) (omega arith) (omega arith))

  -- The scope up to the last step, which brings the count down.
  pub scope-Safe :
      (Q : Impl → Type 0) (d e a : ℕ) (s : Impl)
      → EmitGood D (R a) d (emit body d)
      → Wf s
      → s.exec ≡ e
      → e + suc d < 32768
      → ((u : Impl)
          → Scoped (InTurn (suc e) s.slots s) e s u
          → Safe D Q (unreference_exec sweep_fuel u))
      → Safe D Q (with_slots body (loop d a) s)
  unfolding with_slots reference_exec add_placeholder
  scope-Safe Q d e a s nested wf lvl small last =
      Safe-bind (opened-loop d e a s nested wf lvl small) λ t v.
        let (u, gone, sc) = closing (InTurn (suc e) s.slots s) e s t lvl (omega arith) v.0 v.1 in
        rw gone (last u sc)

  -- A nested emission, in a signal that is emitting already: no iterator is used that is not valid,
  -- the count comes back, no slot of the list is erased and no functor destroyed, whatever the
  -- functors do.
  pub emit-Good : (depth : ℕ) → EmitGood D (A depth) depth (emit body depth)
  unfolding emit
  emit-Good zero a s r wf pos small = deep (bottom a r)
  emit-Good (suc depth) a s r wf pos small =
      Safe-if (is_empty s.slots) (safe (Good-refl s.exec s wf)) (
        scope-Safe (Good s.exec s) depth s.exec a s
          (λ b t q. emit-Good depth b t (down depth a b r q)) wf refl small
          λ u sc. nested-end D (InTurn (suc s.exec) s.slots s) s.exec s u refl pos (omega arith) sc)
