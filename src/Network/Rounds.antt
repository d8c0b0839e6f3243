-- ===== src/Network/Rounds.antt =====
-- The loop of an emission among several signals.
use mathlib.Core.List.{append_assoc}
use libsigcplusplus.Prelude.{
  ℕ, suc, ◌+◌, ◌<◌, ◌≡◌, refl, sym, ◌∙◌, subst, true, false, ◌||◌, inl, inr, Option, some, List, [],
  ◌∷◌, ◌++◌, All, length, arith, Outcome, ok, ◌>>=◌, Safe, safe, Safe-bind, Safe-map, Bool-cases,
  eq_self, ◌==◌,
}
use libsigcplusplus.Signal.Slot.{empty, called, rep_callable}
use libsigcplusplus.Signal.Nodes.{Node, begin, at_end, deref, next_iter}
use libsigcplusplus.Signal.Impl.{Impl}
use libsigcplusplus.Signal.Emit.{functor_of}
use libsigcplusplus.Signal.Extension.{has_id, Later, Ext, Ext-trans}
use libsigcplusplus.Signal.Walk.{deref-Ext}
use libsigcplusplus.Signal.Invariant.{Wf, NodeOk, Good, Good-refl, Good-trans}
use libsigcplusplus.Signal.Disconnect.{All-deref}
use libsigcplusplus.Signal.Turns.{Turns, nil, Turns-cons}
use libsigcplusplus.Signal.Emission.{Visited, called-Wf, invoked, callable-functor, next-begin}
use libsigcplusplus.World.State.{set}
use libsigcplusplus.Network.Emit.{
  Network, NetworkAct, run_network_acts, each_slot, invoke_in, visit_in,
}
use libsigcplusplus.Network.Moved.{
  busy, Moved-refl, Moved-trans, Moved-Good, Moved-Alright, exec-Moved, AllAlright, OthersMove,
  set-at, set-other, set-all, Alright, Moved,
}
use libsigcplusplus.Network.Acts.{NetworkActMade, EmitMoves, acts-Moves}

abbrev pub NetworkMade : (ℕ → ℕ → Type 0) → (ℕ → ℕ → Network → List NetworkAct) → Type 0
NetworkMade R body = (f a : ℕ) (w : Network) → All (NetworkActMade (R a)) (body f a w)

-- What one round does to the signal `k`, and what a loop does.
abbrev RoundIn : ℕ → ℕ → Node → Network → Network → Type 0
RoundIn k e m w v = Visited e m (w k) (v k) × OthersMove k w v

abbrev pub LoopIn : ℕ → ℕ → List Node → Network → Network → Type 0
LoopIn k e todo w v = (Good e (w k) (v k) × Turns (suc e) todo (w k) (v k)) × OthersMove k w v

module _ (k : ℕ) (n : ℕ) (end : Option ℕ) (visit : Node → Network → Outcome Network) where
  slots-end :
      (it : Option ℕ) (w : Network)
      → at_end it end ≡ true
      → each_slot k (suc n) end visit it w ≡ ok w
  unfolding each_slot
  slots-end it w h = rw h

  slots-round :
      (i : ℕ) (m : Node) (w : Network)
      → at_end (some i) end ≡ false
      → deref i (w k).slots ≡ ok m
      → each_slot k (suc n) end visit (some i) w
        ≡ (visit m w >>= λ v. next_iter i (v k).slots >>= λ it'. each_slot k n end visit it' v)
  unfolding each_slot
  slots-round i m w h e = rw (h, e)

-- The signals after a round or a loop in the running signal `k`.
after-AllAlright :
    (d k e : ℕ) (w v : Network)
    → AllAlright d w
    → (w k).exec ≡ suc e
    → Good e (w k) (v k)
    → OthersMove k w v
    → AllAlright d v
after-AllAlright d k e w v h lvl g others j = elim (Bool-cases (j == k)) [
  | inl is ↦
      let same : k ≡ j = ground (arith, is) in
      subst (λ i. Alright (v i) × ((v i).exec + d < 32768)) same
        (busy g.wf (omega (arith, g.inner.exec, lvl)), omega (arith, g.inner.exec, (h k).1))
  | inr other ↦ (
    Moved-Alright (w j) (v j) (others j other),
    omega (arith, exec-Moved (w j) (v j) (others j other), (h j).1),
  )
]

module _ (D : Type 0) (R : ℕ → ℕ → Type 0) (body : ℕ → ℕ → Network → List NetworkAct)
    (made : NetworkMade R body) (d k a : ℕ) (nested : ℕ → ℕ → Network → Outcome Network)
    (good : EmitMoves D (R a) d nested) where
  abbrev logged : Node → ℕ → Network → Impl
  logged n f w = record (w k) { log = called (w k).exec n.id f a ∷ (w k).log }

  invoke-run_network_acts :
      (w : Network) (n : Node) (f : ℕ)
      → functor_of n.slot.rep ≡ some f
      → invoke_in body nested k a n w
        ≡ run_network_acts nested (body f a w) (set k (logged n f w) w)
  unfolding invoke_in
  invoke-run_network_acts w n f h = rw (h, invoke_in)

  visit_in-Round :
      (e : ℕ) (w : Network) (m n : Node)
      → AllAlright d w
      → Wf (w k)
      → (w k).exec ≡ suc e
      → deref m.id (w k).slots ≡ ok n
      → Later m n
      → Safe D (RoundIn k e m w) (visit_in body nested k a n w)
  unfolding visit_in empty
  visit_in-Round e w m n h wf lvl found l = elim (Bool-cases (empty n.slot || n.slot.blocked)) [
    | inl idle ↦ rw idle (safe ((Good-refl e (w k) wf, inl refl), λ j _. Moved-refl (w j) (h j).0))
    | inr running ↦
        let c : rep_callable n.slot.rep ≡ true = ground arith in
        let (f, at) =
          callable-functor (w k).deferred n
            (All-deref (NodeOk (w k).deferred) m.id n (w k).slots found wf.nodes) c in
        let s' = logged n f w in
        let h' : AllAlright d (set k s' w) =
          set-all (λ j s. Alright s × (s.exec + d < 32768)) k s' w
            (busy (called-Wf (w k) n f a wf) (omega arith), (h k).1) (λ j _. h j) in
        rw (running, invoke-run_network_acts w n f at)
          (Safe-map (acts-Moves D (R a) d nested good (body f a w) (set k s' w) (made f a w) h')
            (λ v mv. (
              invoked e (w k) (v k) m n f a lvl l c (
                  Moved-Good s' (v k) (omega arith)
                    (subst (λ s. Moved s (v k)) (set-at k s' w) (mv k))),
              λ j other. subst (λ s. Moved s (v j)) (set-other k j s' w other) (mv j),
            )))
  ]

  pub each_slot-Loop :
      (e : ℕ) (pre todo : List Node) (ph : Node) (w : Network)
      → Ext (pre ++ (todo ++ ph ∷ [])) (w k).slots
      → has_id ph.id todo ≡ false
      → AllAlright d w
      → Wf (w k)
      → (w k).exec ≡ suc e
      → Safe D (LoopIn k e todo w) (
          each_slot k
            (suc (length todo))
            (some ph.id)
            (visit_in body nested k a)
            (begin (todo ++ ph ∷ []))
            w)
  each_slot-Loop e pre [] ph w ext fresh h wf lvl =
      rw (slots-end k 0 (some ph.id) (visit_in body nested k a) (some ph.id) w (eq_self ph.id))
        (safe ((Good-refl e (w k) wf, ([], nil, refl)), λ j _. Moved-refl (w j) (h j).0))
  each_slot-Loop e pre (m ∷ rest) ph w ext fresh h wf lvl =
      let (n, found, l) = deref-Ext m pre (rest ++ ph ∷ []) (w k).slots ext wf.distinct in
      rw
        (slots-round k (suc (length rest)) (some ph.id) (visit_in body nested k a) m.id n w
          (ground arith) found)
        (Safe-bind (visit_in-Round e w m n h wf lvl found l) λ v r.
          let g = r.0.0 in
          let ext' =
            Ext-trans (pre ++ (m ∷ (rest ++ ph ∷ []))) (w k).slots (v k).slots ext g.inner.ext in
          rw (next-begin m pre rest ph (v k).slots ext' g.wf.distinct) (
            Safe-map
              (each_slot-Loop e (pre ++ m ∷ []) rest ph v
                (subst (λ xs. Ext xs (v k).slots)
                  (sym (append_assoc pre (m ∷ []) (rest ++ ph ∷ []))) ext')
                (ground arith) (after-AllAlright d k e w v h lvl g r.1) g.wf (g.inner.exec ∙ lvl))
              λ u q. (
                (
                  Good-trans e (w k) (v k) (u k) g q.0.0,
                  Turns-cons (suc e) m rest (w k) (v k) (u k) r.0.1 q.0.1,
                ),
                λ j other. Moved-trans (w j) (v j) (u j) (r.1 j other) (q.1 j other),
              )))
