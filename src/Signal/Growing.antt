-- ===== src/Signal/Growing.antt =====
-- An emission to functors that connect more slots: signal_impl::connect and connect_first in a slot.
use libsigcplusplus.Prelude.{
  ℕ, ◌≡◌, refl, sym, ap, ◌∙◌, subst, Bool, ◌||◌, some, List, [], ◌∷◌, ◌++◌, All, Outcome, ok, ◌>>=◌,
  Bool-cases, inl, inr,
}
use mathlib.Core.List.{append_assoc, append-nil}
use libsigcplusplus.Signal.Slot.{Event, called, Slot, empty}
use libsigcplusplus.Signal.Nodes.{Node}
use libsigcplusplus.Signal.Impl.{Impl, connect, connect_first}
use libsigcplusplus.Signal.Emit.{
  Act, connects, connects_first, disconnects, blocks_slot, blocks, clears, emits, functor_of,
  run_act, run_acts, invoke, visit,
}
use libsigcplusplus.Signal.Invariant.{NodeOk, Wf}
use libsigcplusplus.Signal.Emission.{callable-functor}
use libsigcplusplus.Signal.Steps.{
  SlotMade, connected, connect_lem, connect_first_lem, connect-Good, connect_first-Good,
}
use libsigcplusplus.Signal.Connect.{good}
use libsigcplusplus.Signal.Passive.{call_log, callable}

abbrev pub Connects : Act → Type 0
Connects (connects sl) = SlotMade sl
Connects (connects_first sl) = SlotMade sl
Connects (disconnects i) = ⊥
Connects (blocks_slot i b) = ⊥
Connects (blocks b) = ⊥
Connects clears = ⊥
Connects (emits a) = ⊥

-- More slots in front and behind, a new log, and all else as it was.
pub record Grown (log : List Event) (s t : Impl) : Type 0 where
  pub front : List Node
  pub back : List Node
  pub slots : t.slots ≡ front ++ (s.slots ++ back)
  pub exec : t.exec ≡ s.exec
  pub deferred : t.deferred ≡ s.deferred
  pub logged : t.log ≡ log
  pub wf : Wf t

pub Grown-refl : (s : Impl) → Wf s → Grown s.log s s
Grown-refl s wf = record {
  front = [];
  back = [];
  slots = sym (append-nil s.slots);
  exec = refl;
  deferred = refl;
  logged = refl;
  wf = wf;
}

pub Grown-trans : (l k : List Event) (s t u : Impl) → Grown l s t → Grown k t u → Grown k s u
Grown-trans l k s t u g h = record {
  front = h.front ++ g.front;
  back = g.back ++ h.back;
  slots =
      h.slots
      ∙ (ap (λ x. h.front ++ (x ++ h.back)) g.slots
          ∙ (ap (λ x. h.front ++ x) (append_assoc g.front (s.slots ++ g.back) h.back)
              ∙ (ap (λ x. h.front ++ (g.front ++ x)) (append_assoc s.slots g.back h.back)
                  ∙ sym (append_assoc h.front g.front (s.slots ++ (g.back ++ h.back))))));
  exec = h.exec ∙ g.exec;
  deferred = h.deferred ∙ g.deferred;
  logged = h.logged;
  wf = h.wf;
}

Grown-connect :
    (s : Impl) (sl : Slot)
    → Wf s
    → SlotMade sl
    → (t : Impl) × (connect sl s ≡ ok t) × Grown s.log s t
Grown-connect s sl wf made =
    let e = connect_lem s sl wf.alive wf.below in
    (
      _,
      e,
      record {
        front = [];
        back = connected s.next sl ∷ [];
        slots = refl;
        exec = refl;
        deferred = refl;
        logged = refl;
        wf = (good (rw e at (connect-Good ⊥ s wf sl made))).wf;
      },
    )

Grown-connect_first :
    (s : Impl) (sl : Slot)
    → Wf s
    → SlotMade sl
    → (t : Impl) × (connect_first sl s ≡ ok t) × Grown s.log s t
Grown-connect_first s sl wf made =
    let e = connect_first_lem s sl wf.alive in
    (
      _,
      e,
      record {
        front = connected s.next sl ∷ [];
        back = [];
        slots = ap (λ x. connected s.next sl ∷ x) (sym (append-nil s.slots));
        exec = refl;
        deferred = refl;
        logged = refl;
        wf = (good (rw e at (connect_first-Good ⊥ s wf sl made))).wf;
      },
    )

module _ (body : ℕ → ℕ → Impl → List Act) (made : (f a : ℕ) (s : Impl) → All Connects (body f a s))
    (nested : ℕ → Impl → Outcome Impl) where
  run_act-Grown :
      (act : Act) (s : Impl)
      → Connects act
      → Wf s
      → (t : Impl) × (run_act nested act s ≡ ok t) × Grown s.log s t
  unfolding run_act
  run_act-Grown (connects sl) s h wf = Grown-connect s sl wf h
  run_act-Grown (connects_first sl) s h wf = Grown-connect_first s sl wf h
  run_act-Grown (disconnects i) s h wf = absurd h
  run_act-Grown (blocks_slot i b) s h wf = absurd h
  run_act-Grown (blocks b) s h wf = absurd h
  run_act-Grown clears s h wf = absurd h
  run_act-Grown (emits a) s h wf = absurd h

  run_acts-Grown :
      (acts : List Act) (s : Impl)
      → All Connects acts
      → Wf s
      → (t : Impl) × (run_acts nested acts s ≡ ok t) × Grown s.log s t
  unfolding run_acts
  run_acts-Grown [] s h wf = (s, refl, Grown-refl s wf)
  run_acts-Grown (act ∷ acts) s h wf =
      let (t, e, g) = run_act-Grown act s h.0 wf in
      let (u, e', g') = run_acts-Grown acts t h.1 g.wf in
      (
        u,
        ap (λ m. m >>= run_acts nested acts) e ∙ e',
        subst (λ l. Grown l s u) g.logged (Grown-trans _ _ s t u g g'),
      )

  module _ (a : ℕ) where
    invoke-Grown :
        (s : Impl) (n : Node) (f : ℕ)
        → functor_of n.slot.rep ≡ some f
        → Wf s
        → (t : Impl) × (invoke body nested a n s ≡ ok t)
          × Grown (called s.exec n.id f a ∷ s.log) s t
    unfolding invoke
    invoke-Grown s n f e wf =
        let s' : Impl = record s { log = called s.exec n.id f a ∷ s.log } in
        let (t, run, g) = run_acts-Grown (body f a s) s' (made f a s) (record {
          alive = wf.alive;
          distinct = wf.distinct;
          below = wf.below;
          nodes = wf.nodes;
        }) in
        (
          t,
          rw (e, invoke) run,
          record {
            front = g.front;
            back = g.back;
            slots = g.slots;
            exec = g.exec;
            deferred = g.deferred;
            logged = g.logged;
            wf = g.wf;
          },
        )

    pub visit-Grown :
        (d : Bool) (n : Node) (s : Impl)
        → NodeOk d n
        → Wf s
        → (t : Impl) × (visit body nested a n s ≡ ok t) × Grown (call_log s.exec a n s.log) s t
    unfolding visit
    visit-Grown d n s h wf = elim (Bool-cases (empty n.slot || n.slot.blocked)) [
      | inl idle ↦ rw idle (s, refl, Grown-refl s wf)
      | inr busy ↦
          let (f, e) = callable-functor d n h (callable n busy) in
          rw (busy, e) (invoke-Grown s n f e wf)
    ]
