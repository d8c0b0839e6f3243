-- ===== src/Signal/Guarantee.antt =====
-- What signal_emit::emit guarantees, nested and outermost.
use libsigcplusplus.Prelude.{
  ℕ, zero, suc, ◌+◌, ◌<◌, ◌≡◌, refl, true, false, inl, inr, List, [], ◌∷◌, All, ◌==◌, arith, ok,
  Safe, safe, deep, Safe-map, sym, subst, Safe-result, Bool-cases,
}
use libsigcplusplus.Signal.Nodes.{Node, keep_nonempty}
use libsigcplusplus.Signal.Impl.{Impl, dec_short, unreference_exec, sweep_fuel}
use libsigcplusplus.Signal.Emit.{Act, is_empty, emit}
use libsigcplusplus.Signal.Extension.{HasRep, Ext-HasRep}
use libsigcplusplus.Signal.Invariant.{IdBelow, Wf, Good, All-map}
use libsigcplusplus.Signal.Emission.{BodyMade}
use libsigcplusplus.Signal.Scope.{Scoped}
use libsigcplusplus.Signal.Settle.{swept, unreference-stay, unreference-sweep}
use libsigcplusplus.Signal.Sweep.{Distinct-keep, All-keep, keep-linked, turns-destroy_empty}
use libsigcplusplus.Signal.Turns.{turns, InTurn, Turns, Picks, nil, skip}
use libsigcplusplus.Signal.Nested.{Safe-if, scope-Safe, emit-Good}

-- A signal at rest: nothing emits, no sweep is due, and every slot is connected to its place.
pub record Settled (s : Impl) : Type 0 where
  pub wf : Wf s
  pub idle : s.exec ≡ 0
  pub clean : s.deferred ≡ false
  pub reps : All HasRep s.slots

pub Picks-none : (ns : List Node) → Picks [] ns
Picks-none [] = nil
Picks-none (n ∷ ns) = skip (Picks-none ns)

-- After the outermost emission.
pub record Emitted (s t : Impl) : Type 0 where
  pub settled : Settled t
  pub turn : Turns 1 s.slots s t

outer-swept :
    (P : List ℕ → Type 0) (s u : Impl)
    → Settled s
    → Scoped P 0 s u
    → u.deferred ≡ true
    → Settled (swept u) × P (turns 1 (swept u).log)
outer-swept P s u st sc d =
    let kept = keep-linked u.deferred u.slots sc.wf.nodes in
    (
      record {
        wf = record {
          alive = sc.wf.alive;
          distinct = Distinct-keep u.slots sc.wf.distinct;
          below = All-keep (IdBelow u.next) u.slots sc.wf.below;
          nodes = All-map (λ n h. h.0) (keep_nonempty u.slots) kept;
        };
        idle = refl;
        clean = refl;
        reps = All-map (λ n h. h.1) (keep_nonempty u.slots) kept;
      },
      subst P (sym (turns-destroy_empty 1 u.slots u.log)) sc.turn,
    )

outer-stay :
    (P : List ℕ → Type 0) (s u : Impl)
    → Settled s
    → Scoped P 0 s u
    → u.deferred ≡ false
    → Settled (record u { exec = dec_short u.exec }) × P (turns 1 u.log)
outer-stay P s u st sc d = (
  record {
    wf = record {
      alive = sc.wf.alive;
      distinct = sc.wf.distinct;
      below = sc.wf.below;
      nodes = sc.wf.nodes;
    };
    idle = omega (arith, sc.exec);
    clean = d;
    reps = Ext-HasRep s.slots u.slots sc.ext st.reps;
  },
  sc.turn,
)

-- The end of the outermost emission.
pub outer-end :
    (D : Type 0) (P : List ℕ → Type 0) (s u : Impl)
    → Settled s
    → Scoped P 0 s u
    → Safe D (λ t. Settled t × P (turns 1 t.log)) (unreference_exec sweep_fuel u)
outer-end D P s u st sc =
    let down : (dec_short u.exec == 0) ≡ true = ground (arith, sc.exec) in
    elim (Bool-cases u.deferred) [
      | inl d ↦ rw (unreference-sweep u down d) (safe (outer-swept P s u st sc d))
      | inr d ↦ rw (unreference-stay 1 u (ground arith)) (safe (outer-stay P s u st sc d))
    ]

module _ (D : Type 0) (R A : ℕ → ℕ → Type 0) (bottom : (a : ℕ) → A zero a → D)
    (down : (n a b : ℕ) → A (suc n) a → R a b → A n b) (body : ℕ → ℕ → Impl → List Act)
    (made : BodyMade R body) where
  outer :
      (depth a : ℕ) (s : Impl)
      → A depth a
      → depth < 32768
      → Settled s
      → Safe D (Emitted s) (emit body depth a s)
  unfolding emit
  outer zero a s r small st = deep (bottom a r)
  outer (suc depth) a s r small st =
      Safe-if (is_empty s.slots)
        (safe (record { settled = st; turn = ([], Picks-none s.slots, refl) }))
        (scope-Safe D R A bottom down body made (Emitted s) depth 0 a s
          (λ b t q. emit-Good D R A bottom down body made depth b t (down depth a b r q)) st.wf
          st.idle (omega arith)
          λ u sc.
            Safe-map (outer-end D (InTurn 1 s.slots s) s u st sc)
              λ t w. record { settled = w.0; turn = w.1 })

-- The two uses: any functors, and functors that emit with smaller arguments only.
abbrev pub Any : ℕ → ℕ → Type 0
Any a b = Unit {0}

abbrev pub Falls : ℕ → ℕ → Type 0
Falls a b = b < a

abbrev pub Enough : ℕ → ℕ → Type 0
Enough depth a = a < depth

-- A nested emission, in a signal that emits already (`0 < s.exec`), with functors that do anything
-- through the signal's interface: no iterator or slot is used that is gone; if the emission comes to
-- an end, the execution count is what it was, the invariant holds, every slot of the list is still
-- there in its order, and no functor has been destroyed.
pub emit-nested :
    (body : ℕ → ℕ → Impl → List Act) (depth a : ℕ) (s : Impl)
    → BodyMade Any body
    → Wf s
    → 0 < s.exec
    → s.exec + depth < 32768
    → Safe Unit (Good s.exec s) (emit body depth a s)
emit-nested body depth a s made wf pos small =
    emit-Good Unit Any Any (λ x h. tt) (λ n x y h k. tt) body made depth a s tt wf pos small

-- The outermost emission, with any functors: no iterator or slot is used that is gone; if it comes
-- to an end, the signal is at rest again, so that every slot disconnected meanwhile has been swept,
-- and the slots called at the first level are some of those that could be called when it began, in
-- their order and each at most once.
pub emit-Emitted :
    (body : ℕ → ℕ → Impl → List Act) (depth a : ℕ) (s : Impl)
    → BodyMade Any body
    → depth < 32768
    → Settled s
    → Safe Unit (Emitted s) (emit body depth a s)
emit-Emitted body depth a s made small st =
    outer Unit Any Any (λ x h. tt) (λ n x y h k. tt) body made depth a s tt small st

-- If every functor emits the signal with smaller arguments only, an emission with argument `a` and
-- the depth `a + 1` comes to an end, with all that `emit-Emitted` says.
pub emit-total :
    (body : ℕ → ℕ → Impl → List Act) (a : ℕ) (s : Impl)
    → BodyMade Falls body
    → a < 32767
    → Settled s
    → (t : Impl) × (emit body (suc a) a s ≡ ok t) × Emitted s t
emit-total body a s made small st = Safe-result (
    outer ⊥ Falls Enough (λ x h. elim h [ ]) (λ n x y h k. omega arith) body made (suc a) a s
      (omega arith) (omega arith) st)
