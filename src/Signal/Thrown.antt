-- ===== src/Signal/Thrown.antt =====
-- An emission whose functors may throw keeps the invariant in its loop.
use mathlib.Core.List.{append_assoc}
use libsigcplusplus.Prelude.{
  ℕ, suc, ◌+◌, ◌<◌, ◌≡◌, refl, sym, ◌∙◌, subst, Bool, true, false, not, ◌&&◌, ◌||◌, inl, inr,
  Option, some, List, [], ◌∷◌, ◌++◌, All, arith, length, if◌then◌else◌, Outcome, ok, Safe, safe,
  Safe-bind, Safe-map, Bool-cases, eq_self, ◌>>=◌,
}
use libsigcplusplus.Signal.Slot.{empty, called, rep_callable}
use libsigcplusplus.Signal.Nodes.{Node, begin, deref, next_iter, at_end}
use libsigcplusplus.Signal.Impl.{Impl}
use libsigcplusplus.Signal.Emit.{
  Act, connects, connects_first, disconnects, blocks_slot, blocks, clears, emits, functor_of,
}
use libsigcplusplus.Signal.Extension.{has_id, Later, Ext, Ext-trans}
use libsigcplusplus.Signal.Walk.{deref-Ext}
use libsigcplusplus.Signal.Invariant.{Wf, NodeOk, Good, Good-refl, Good-trans, Good-mono}
use libsigcplusplus.Signal.Disconnect.{All-deref}
use libsigcplusplus.Signal.Acts.{ActMade, EmitGood, run_act-Good}
use libsigcplusplus.Signal.Turns.{Turns, nil, Turns-cons}
use libsigcplusplus.Signal.Emission.{Visited, called-Wf, invoked, callable-functor, next-begin}
use libsigcplusplus.Signal.Guarantee.{Picks-none}
use libsigcplusplus.Signal.Throw.{
  Script, Flight, landed, no_emit, run_act_throwing, run_script, invoke_throwing, visit_throwing,
  each_until_throw,
}

-- User code connects only slots that it made, and emits only as `R` allows at the argument.
abbrev pub ScriptMade : (ℕ → ℕ → Type 0) → (ℕ → ℕ → Impl → Script) → Type 0
ScriptMade R script = (f a : ℕ) (s : Impl) → All (ActMade (R a)) (script f a s).acts

-- A nested emission that behaves, whether it throws or not.
abbrev pub FlightGood : Type 0 → (ℕ → Type 0) → ℕ → (ℕ → Impl → Flight) → Type 0
FlightGood D R d emit =
    (a : ℕ) (s : Impl)
    → R a
    → Wf s
    → 0 < s.exec
    → s.exec + d < 32768
    → Safe D (λ (r : Bool × Impl). Good s.exec s r.1) (emit a s)

pub no_emit-Good : (D : Type 0) (R : ℕ → Type 0) (d : ℕ) → EmitGood D R d no_emit
no_emit-Good D R d a s r wf pos small = safe (Good-refl s.exec s wf)

landed-Safe :
    {D : Type 0} {P : Impl → Type 0} {m : Outcome Impl}
    → Safe D P m
    → Safe D (λ (r : Bool × Impl). P r.1) (landed m)
landed-Safe h = Safe-bind h (λ t p. safe p)

module _ (D : Type 0) (R : ℕ → Type 0) (d : ℕ) (emit : ℕ → Impl → Flight)
    (nested : FlightGood D R d emit) where
  run_act_throwing-Good :
      (act : Act) (s : Impl)
      → ActMade R act
      → Wf s
      → 0 < s.exec
      → s.exec + d < 32768
      → Safe D (λ (r : Bool × Impl). Good s.exec s r.1) (run_act_throwing emit act s)
  unfolding run_act_throwing
  run_act_throwing-Good (connects sl) s made wf pos small =
      landed-Safe
        (run_act-Good D R d no_emit (no_emit-Good D R d) (connects sl) s made wf pos small)
  run_act_throwing-Good (connects_first sl) s made wf pos small =
      landed-Safe
        (run_act-Good D R d no_emit (no_emit-Good D R d) (connects_first sl) s made wf pos small)
  run_act_throwing-Good (disconnects i) s made wf pos small =
      landed-Safe
        (run_act-Good D R d no_emit (no_emit-Good D R d) (disconnects i) s made wf pos small)
  run_act_throwing-Good (blocks_slot i b) s made wf pos small =
      landed-Safe
        (run_act-Good D R d no_emit (no_emit-Good D R d) (blocks_slot i b) s made wf pos small)
  run_act_throwing-Good (blocks b) s made wf pos small =
      landed-Safe (run_act-Good D R d no_emit (no_emit-Good D R d) (blocks b) s made wf pos small)
  run_act_throwing-Good clears s made wf pos small =
      landed-Safe (run_act-Good D R d no_emit (no_emit-Good D R d) clears s made wf pos small)
  run_act_throwing-Good (emits a) s made wf pos small = nested a s made wf pos small

  -- An exception that is not caught leaves the functor at once.
  after-Good :
      (catches : Bool) (s : Impl) (x : Bool) (t : Impl) {rest : Flight}
      → Good s.exec s t
      → Safe D (λ (r : Bool × Impl). Good t.exec t r.1) rest
      → Safe D
          (λ (r : Bool × Impl). Good s.exec s r.1)
          (if x && not catches then ok (true, t) else rest)
  after-Good catches s x t {rest = rest} g h = go (x && not catches)
    where
      go :
          (b : Bool)
          → Safe D (λ (r : Bool × Impl). Good s.exec s r.1) (if b then ok (true, t) else rest)
      go true = safe g
      go false = Safe-map h (λ r k.
          Good-trans s.exec s t r.1 g
            (Good-mono s.exec t.exec t r.1 (omega (arith, g.inner.exec)) k))

  run_script-Good :
      (catches throws : Bool) (acts : List Act) (s : Impl)
      → All (ActMade R) acts
      → Wf s
      → 0 < s.exec
      → s.exec + d < 32768
      → Safe D (λ (r : Bool × Impl). Good s.exec s r.1) (run_script emit catches throws acts s)
  unfolding run_script
  run_script-Good catches throws [] s made wf pos small = safe (Good-refl s.exec s wf)
  run_script-Good catches throws (act ∷ acts) s made wf pos small =
      Safe-bind (run_act_throwing-Good act s made.0 wf pos small) λ r g.
        after-Good catches s r.0 r.1 g (
          run_script-Good catches throws acts r.1 made.1 g.wf (omega (arith, g.inner.exec))
            (omega (arith, g.inner.exec)))

module _ (D : Type 0) (R : ℕ → ℕ → Type 0) (script : ℕ → ℕ → Impl → Script)
    (made : ScriptMade R script) (d a : ℕ) (nested : ℕ → Impl → Flight)
    (good : FlightGood D (R a) d nested) where
  pub invoke-run_script :
      (s : Impl) (n : Node) (f : ℕ)
      → functor_of n.slot.rep ≡ some f
      → invoke_throwing script nested a n s
        ≡ run_script nested
            (script f a s).catches
            (script f a s).throws
            (script f a s).acts
            (record s { log = called s.exec n.id f a ∷ s.log })
  unfolding invoke_throwing
  invoke-run_script s n f h = rw (h, invoke_throwing)

  visit_throwing-Good :
      (e : ℕ) (s : Impl) (m n : Node)
      → Wf s
      → s.exec ≡ suc e
      → s.exec + d < 32768
      → deref m.id s.slots ≡ ok n
      → Later m n
      → Safe D (λ (r : Bool × Impl). Visited e m s r.1) (visit_throwing script nested a n s)
  unfolding visit_throwing empty
  visit_throwing-Good e s m n wf lvl small found l =
      elim (Bool-cases (empty n.slot || n.slot.blocked)) [
        | inl idle ↦ rw idle (safe (Good-refl e s wf, inl refl))
        | inr busy ↦
            let c : rep_callable n.slot.rep ≡ true = ground arith in
            let (f, h) =
              callable-functor s.deferred n
                (All-deref (NodeOk s.deferred) m.id n s.slots found wf.nodes) c in
            rw (busy, invoke-run_script s n f h)
              (Safe-map
                (run_script-Good D (R a) d nested good (script f a s).catches (script f a s).throws
                  (script f a s).acts _ (made f a s) (called-Wf s n f a wf) (omega arith) small)
                λ r g. invoked e s r.1 m n f a lvl l c g)
      ]

-- One round of the loop.
module _ (k : ℕ) (end : Option ℕ) (visit : Node → Impl → Flight) where
  pub each-end :
      (it : Option ℕ) (s : Impl)
      → at_end it end ≡ true
      → each_until_throw (suc k) end visit it s ≡ ok (false, s)
  unfolding each_until_throw
  each-end it s h = rw h

  pub each-round :
      (i : ℕ) (n : Node) (s : Impl)
      → at_end (some i) end ≡ false
      → deref i s.slots ≡ ok n
      → each_until_throw (suc k) end visit (some i) s ≡ (
          visit n s >>= λ r.
          if r.0
          then ok (true, r.1)
          else (next_iter i r.1.slots >>= λ it'. each_until_throw k end visit it' r.1))
  unfolding each_until_throw
  each-round i n s h e = rw (h, e)

-- What a loop leaves, thrown out of or not.
abbrev pub Left : ℕ → List Node → Impl → Bool × Impl → Type 0
Left e todo s r = Good e s r.1 × Turns (suc e) todo s r.1

Left-thrown :
    (e : ℕ) (m : Node) (rest : List Node) (s t : Impl)
    → Visited e m s t
    → Left e (m ∷ rest) s (true, t)
Left-thrown e m rest s t v = (v.0, Turns-cons (suc e) m rest s t t v.1 ([], Picks-none rest, refl))

-- After a round: out of the loop, or on.
Left-round :
    {D : Type 0} (x : Bool) (e : ℕ) (m : Node) (rest : List Node) (s t : Impl) {on : Flight}
    → Visited e m s t
    → Safe D (Left e rest t) on
    → Safe D (Left e (m ∷ rest) s) (if x then ok (true, t) else on)
Left-round true e m rest s t v h = safe (Left-thrown e m rest s t v)
Left-round false e m rest s t v h =
    Safe-map h (λ r w. (Good-trans e s t r.1 v.0 w.0, Turns-cons (suc e) m rest s t r.1 v.1 w.1))

module _ (D : Type 0) (R : ℕ → ℕ → Type 0) (script : ℕ → ℕ → Impl → Script)
    (made : ScriptMade R script) (d a : ℕ) (nested : ℕ → Impl → Flight)
    (good : FlightGood D (R a) d nested) where
  -- The loop from any place on: `todo` is what is left of the list that the emission met.
  pub each_until_throw-Good :
      (e : ℕ) (pre todo : List Node) (ph : Node) (s : Impl)
      → Ext (pre ++ (todo ++ ph ∷ [])) s.slots
      → has_id ph.id todo ≡ false
      → Wf s
      → s.exec ≡ suc e
      → s.exec + d < 32768
      → Safe D (Left e todo s) (
          each_until_throw
            (suc (length todo))
            (some ph.id)
            (visit_throwing script nested a)
            (begin (todo ++ ph ∷ []))
            s)
  each_until_throw-Good e pre [] ph s ext fresh wf lvl small =
      rw (each-end 0 (some ph.id) (visit_throwing script nested a) (some ph.id) s (eq_self ph.id))
        (safe (Good-refl e s wf, ([], nil, refl)))
  each_until_throw-Good e pre (m ∷ rest) ph s ext fresh wf lvl small =
      let (n, found, l) = deref-Ext m pre (rest ++ ph ∷ []) s.slots ext wf.distinct in
      rw
        (each-round (suc (length rest)) (some ph.id) (visit_throwing script nested a) m.id n s
          (ground arith) found)
        (Safe-bind
          (visit_throwing-Good D R script made d a nested good e s m n wf lvl small found l)
          λ r v.
            let ext' =
              Ext-trans (pre ++ (m ∷ (rest ++ ph ∷ []))) s.slots r.1.slots ext v.0.inner.ext in
            rw (next-begin m pre rest ph r.1.slots ext' v.0.wf.distinct) (
              Left-round r.0 e m rest s r.1 v (
                each_until_throw-Good e (pre ++ m ∷ []) rest ph r.1
                  (subst (λ xs. Ext xs r.1.slots)
                    (sym (append_assoc pre (m ∷ []) (rest ++ ph ∷ []))) ext')
                  (ground arith) v.0.wf (v.0.inner.exec ∙ lvl) (omega (arith, v.0.inner.exec)))))
