-- ===== src/Signal/Emission.antt =====
-- An emission keeps the invariant, touches no dead slot and calls only slots that were there.
use mathlib.Core.List.{append_assoc}
use libsigcplusplus.Prelude.{
  ℕ, suc, ◌+◌, ◌<◌, ◌≡◌, refl, sym, ◌∙◌, subst, Bool, true, false, ◌||◌, inl, inr, Option, none,
  some, List, [], ◌∷◌, ◌++◌, is_some, All, arith, length, Outcome, ok, Safe, safe, Safe-bind,
  Safe-map, Bool-cases, eq_self,
}
use libsigcplusplus.Signal.Slot.{Rep, empty, called, rep_callable}
use libsigcplusplus.Signal.Nodes.{Node, begin, deref, next_iter}
use libsigcplusplus.Signal.Impl.{Impl, for_each}
use libsigcplusplus.Signal.Emit.{Act, run_acts, functor_of, invoke, visit}
use libsigcplusplus.Signal.Extension.{has_id, Distinct, RepLater, Later, Ext, Ext-trans}
use libsigcplusplus.Signal.Walk.{deref-Ext, next_iter-Ext}
use libsigcplusplus.Signal.Loop.{for_each-end, for_each-round}
use libsigcplusplus.Signal.Invariant.{
  RepOk, NodeOk, Wf, Quiet, same, call, Quiet-trans, Quiet-mono, Good, Good-refl, Good-trans,
}
use libsigcplusplus.Signal.Disconnect.{All-deref}
use libsigcplusplus.Signal.Acts.{ActMade, EmitGood, run_acts-Good}
use libsigcplusplus.Signal.Turns.{turns, Quiet-turns, Turn, Turns, nil, Turns-cons}

-- User code connects only slots that it made, and emits only as `R` allows at the argument.
abbrev pub BodyMade : (ℕ → ℕ → Type 0) → (ℕ → ℕ → Impl → List Act) → Type 0
BodyMade R body = (f a : ℕ) (s : Impl) → All (ActMade (R a)) (body f a s)

Later-callable :
    (m n : Node) → Later m n → rep_callable n.slot.rep ≡ true → rep_callable m.slot.rep ≡ true
Later-callable m n l h = go m.slot.rep n.slot.rep l.rep h
  where
    go : (p q : Option Rep) → RepLater p q → rep_callable q ≡ true → rep_callable p ≡ true
    go none none r e = e
    go none (some q) r e = absurd r
    go (some p) none r e = absurd r
    go (some p) (some q) r e = r.1 e

pub callable-functor :
    (d : Bool) (n : Node)
    → NodeOk d n
    → rep_callable n.slot.rep ≡ true
    → (f : ℕ) × (functor_of n.slot.rep ≡ some f)
callable-functor d n h e = go n.slot.rep h e
  where
    some_of : (o : Option ℕ) → is_some o ≡ true → (f : ℕ) × (o ≡ some f)
    some_of none k = absurd (cc)
    some_of (some f) k = (f, refl)

    go :
        (r : Option Rep)
        → RepOk d n.id r
        → rep_callable r ≡ true
        → (f : ℕ) × (functor_of r ≡ some f)
    go none h e = absurd (cc)
    go (some r) h e = some_of r.functor (h.1 e)

-- What one round of the loop does.
abbrev pub Visited : ℕ → Node → Impl → Impl → Type 0
Visited e m s t = Good e s t × Turn (suc e) m s t

pub called-Wf :
    (s : Impl) (n : Node) (f a : ℕ) → Wf s → Wf (record s { log = called s.exec n.id f a ∷ s.log })
called-Wf s n f a wf = record {
  alive = wf.alive;
  distinct = wf.distinct;
  below = wf.below;
  nodes = wf.nodes;
}

pub invoked :
    (e : ℕ) (s t : Impl) (m n : Node) (f a : ℕ)
    → s.exec ≡ suc e
    → Later m n
    → rep_callable n.slot.rep ≡ true
    → Good s.exec (record s { log = called s.exec n.id f a ∷ s.log }) t
    → Visited e m s t
unfolding turns
invoked e s t m n f a lvl l c g = (
  record {
    wf = g.wf;
    inner = record {
      exec = g.inner.exec;
      next = g.inner.next;
      ext = g.inner.ext;
      log = Quiet-trans (call (omega arith) same) (Quiet-mono (omega arith) g.inner.log);
      defers = g.inner.defers;
    };
  },
  inr (
    Later-callable m n l c,
    Quiet-turns (subst (λ x. Quiet x (called s.exec n.id f a ∷ s.log) t.log) lvl g.inner.log)
        ∙ ground (arith, l.same),
  ),
)

pub next-begin :
    (m : Node) (pre rest : List Node) (ph : Node) (ys : List Node)
    → Ext (pre ++ (m ∷ (rest ++ ph ∷ []))) ys
    → Distinct ys
    → next_iter m.id ys ≡ ok (begin (rest ++ ph ∷ []))
next-begin m pre [] ph ys ext di = next_iter-Ext m pre [] ys ph ext di
next-begin m pre (x ∷ rest) ph ys ext di = next_iter-Ext m pre (rest ++ ph ∷ []) ys x ext di

module _ (D : Type 0) (R : ℕ → ℕ → Type 0) (body : ℕ → ℕ → Impl → List Act) (made : BodyMade R body)
    (d a : ℕ) (nested : ℕ → Impl → Outcome Impl) (good : EmitGood D (R a) d nested) where
  invoke-run_acts :
      (s : Impl) (n : Node) (f : ℕ)
      → functor_of n.slot.rep ≡ some f
      → invoke body nested a n s
        ≡ run_acts nested (body f a s) (record s { log = called s.exec n.id f a ∷ s.log })
  unfolding invoke
  invoke-run_acts s n f h = rw (h, invoke)

  pub visit-Good :
      (e : ℕ) (s : Impl) (m n : Node)
      → Wf s
      → s.exec ≡ suc e
      → s.exec + d < 32768
      → deref m.id s.slots ≡ ok n
      → Later m n
      → Safe D (Visited e m s) (visit body nested a n s)
  unfolding visit empty
  visit-Good e s m n wf lvl small found l = elim (Bool-cases (empty n.slot || n.slot.blocked)) [
    | inl idle ↦ rw idle (safe (Good-refl e s wf, inl refl))
    | inr busy ↦
        let c : rep_callable n.slot.rep ≡ true = ground arith in
        let (f, h) =
          callable-functor s.deferred n
            (All-deref (NodeOk s.deferred) m.id n s.slots found wf.nodes) c in
        rw (busy, invoke-run_acts s n f h)
          (Safe-map
            (run_acts-Good D (R a) d nested good (body f a s) _ (made f a s) (called-Wf s n f a wf)
              (omega arith) small)
            λ t g. invoked e s t m n f a lvl l c g)
  ]

  -- The loop from any place on: `todo` is what is left of the list that the emission met.
  pub loop-Good :
      (e : ℕ) (pre todo : List Node) (ph : Node) (s : Impl)
      → Ext (pre ++ (todo ++ ph ∷ [])) s.slots
      → has_id ph.id todo ≡ false
      → Wf s
      → s.exec ≡ suc e
      → s.exec + d < 32768
      → Safe D
          (λ t. Good e s t × Turns (suc e) todo s t)
          (for_each
            (suc (length todo))
            (some ph.id)
            (visit body nested a)
            (begin (todo ++ ph ∷ []))
            s)
  loop-Good e pre [] ph s ext fresh wf lvl small =
      rw (for_each-end 0 (some ph.id) (visit body nested a) (some ph.id) s (eq_self ph.id))
        (safe (Good-refl e s wf, ([], nil, refl)))
  loop-Good e pre (m ∷ rest) ph s ext fresh wf lvl small =
      let (n, found, l) = deref-Ext m pre (rest ++ ph ∷ []) s.slots ext wf.distinct in
      rw
        (for_each-round (suc (length rest)) (some ph.id) (visit body nested a) m.id n s
          (ground arith) found)
        (Safe-bind (visit-Good e s m n wf lvl small found l) λ t v.
          let ext' = Ext-trans (pre ++ (m ∷ (rest ++ ph ∷ []))) s.slots t.slots ext v.0.inner.ext in
          rw (next-begin m pre rest ph t.slots ext' v.0.wf.distinct) (
            Safe-map
              (loop-Good e (pre ++ m ∷ []) rest ph t
                (subst (λ xs. Ext xs t.slots) (sym (append_assoc pre (m ∷ []) (rest ++ ph ∷ [])))
                  ext')
                (ground arith) v.0.wf (v.0.inner.exec ∙ lvl) (omega (arith, v.0.inner.exec)))
              λ u w. (Good-trans e s t u v.0 w.0, Turns-cons (suc e) m rest s t u v.1 w.1)))
