-- ===== src/World/Connect.antt =====
-- signal::connect with trackables and connections (sigc++/signal.h, sigc++/functors/slot.h).
use libsigcplusplus.Prelude.{
  ℕ, suc, ◌+◌, ◌≡◌, refl, sym, ap, ◌∙◌, subst, Bool, true, false, Option, none, some, List, [], ◌∷◌,
  ◌++◌, ◌==◌, arith, if◌then◌else◌, Bool-cases, inl, inr, ok,
}
use libsigcplusplus.Signal.Slot.{Rep, Slot, copy_slot, set_parent}
use libsigcplusplus.Signal.Nodes.{Node}
use libsigcplusplus.Signal.Emit.{functor_of}
use libsigcplusplus.Signal.Extension.{has_id}
use libsigcplusplus.Signal.Invariant.{has_id-append, not-has_id-below}
use libsigcplusplus.Signal.Steps.{SlotMade, connected}
use libsigcplusplus.Signal.Connect.{connect-rest}
use libsigcplusplus.World.State.{
  World, connect_slot, connect_slot_first, targets_of, node_targets, bind_all, point_to,
}
use libsigcplusplus.World.Watchers.{point_to-Watched}
use libsigcplusplus.World.Registry.{count, bound, live-bind, bind-idle, set-cases}
use libsigcplusplus.World.Slots.{bound-absent}
use libsigcplusplus.World.Destroyed.{some-injective}
use libsigcplusplus.World.Consistent.{Consistent}
use libsigcplusplus.World.Program.{connects, connects_first}
use libsigcplusplus.World.Spec.{view, spec_step, shown}
use libsigcplusplus.World.Shown.{shown-append, set-refs}
use libsigcplusplus.Trackable.Removal.{live}

functor_of-connected :
    (i : ℕ) (sl : Slot) → functor_of (connected i sl).slot.rep ≡ functor_of (copy_slot sl).rep
unfolding set_parent
functor_of-connected i sl = go (copy_slot sl).rep (copy_slot sl).blocked
  where
    go :
        (r : Option Rep) (b : Bool)
        → functor_of (set_parent i (record { rep = r; blocked = b })).rep ≡ functor_of r
    go none b = refl
    go (some r) b = refl

module _ (targets : ℕ → List ℕ) where
  bound-append :
      (e o : ℕ) (n : Node) (ns : List Node)
      → has_id n.id ns ≡ false
      → bound targets e o (ns ++ n ∷ [])
        ≡ (if n.id == e then count o (node_targets targets n) else bound targets e o ns)
  bound-append e o n [] h = refl
  bound-append e o n (x ∷ ns) h = ground (arith, bound-append e o n ns)

  -- The node that is added may stand anywhere in the list `ns`.
  Registered-connect :
      (sl : Slot) (w : World) (ns : List Node)
      → ((e o : ℕ)
          → bound targets e o ns ≡ (
              if w.impl.next == e
              then count o (node_targets targets (connected w.impl.next sl))
              else bound targets e o w.impl.slots))
      → Consistent targets w
      → (e x : ℕ)
      → live e
          (bind_all
            (targets_of targets (functor_of (copy_slot sl).rep))
            w.impl.next
            w.objects
            x).callbacks
        ≡ bound targets e x ns
  Registered-connect sl w ns added h e x =
      let i = w.impl.next in
      let ts = targets_of targets (functor_of (copy_slot sl).rep) in
      let fresh : has_id i w.impl.slots ≡ false =
        not-has_id-below i w.impl.slots h.settled.wf.below in
      let left = live-bind i e ts w.objects x h.idle in
      let right = added e x in
      let same : count x (node_targets targets (connected i sl)) ≡ count x ts =
        ap (λ o. count x (targets_of targets o)) (functor_of-connected i sl) in
      elim (Bool-cases (i == e)) [
        | inl new ↦
            let absent : live e (w.objects x).callbacks ≡ 0 =
              h.registered e x
              ∙ bound-absent targets x e w.impl.slots
                  (subst (λ k. has_id k w.impl.slots ≡ false) (ground (arith, new)) fresh) in
            left ∙ (rw (new, absent) (omega (arith, same)) ∙ sym (rw new at right))
        | inr old ↦ left ∙ (rw old (h.registered e x) ∙ sym (rw old at right))
      ]

  pub connect_slot-Consistent :
      (c : ℕ) (sl : Slot) (w : World)
      → SlotMade sl
      → Consistent targets w
      → (u : World) × (connect_slot targets (suc c) sl w ≡ ok u)
        × Consistent targets u
        × (view u ≡ spec_step targets (connects c sl) (view w))
  unfolding connect_slot point_to
  connect_slot-Consistent c sl w made h =
      let (run, st) = (connect-rest w.impl sl made h.settled).0 in
      let i = w.impl.next in
      let ts = targets_of targets (functor_of (copy_slot sl).rep) in
      let v : World = record w {
        impl = record (w.impl) { slots = w.impl.slots ++ connected i sl ∷ []; next = i + 1 };
        objects = bind_all ts i w.objects;
      } in
      (
        point_to (suc c) (some i) v,
        rw run,
        record {
          settled = st;
          registered =
              Registered-connect sl w (w.impl.slots ++ connected i sl ∷ [])
                (λ e o.
                  bound-append e o (connected i sl) w.impl.slots
                    (not-has_id-below i w.impl.slots h.settled.wf.below))
                h;
          pointing = λ d j.
              set-cases (λ o. o ≡ some j → has_id j (w.impl.slots ++ connected i sl ∷ []) ≡ true)
                (λ o. some i) (suc c) d w.conns
                (λ k e.
                  has_id-append j w.impl.slots (connected i sl) ∙ ground (arith, some-injective e))
                (λ k e.
                  has_id-append j w.impl.slots (connected i sl) ∙ ground (arith, h.pointing d j e));
          watched = point_to-Watched (suc c) (some i) v h.watched;
          idle = bind-idle i ts w.objects h.idle;
        },
        λ j. record {
          entries =
              (shown-append w.impl.slots (connected i sl)
                  ∙ ap (λ f. shown w.impl.slots ++ (i, f) ∷ []) (functor_of-connected i sl))
                j;
          refs = λ d. set-refs c (some i) w.conns d j;
          next = i + 1;
        },
      )

  pub connect_slot_first-Consistent :
      (c : ℕ) (sl : Slot) (w : World)
      → SlotMade sl
      → Consistent targets w
      → (u : World) × (connect_slot_first targets (suc c) sl w ≡ ok u)
        × Consistent targets u
        × (view u ≡ spec_step targets (connects_first c sl) (view w))
  unfolding connect_slot_first point_to
  connect_slot_first-Consistent c sl w made h =
      let (run, st) = (connect-rest w.impl sl made h.settled).1 in
      let i = w.impl.next in
      let ts = targets_of targets (functor_of (copy_slot sl).rep) in
      let v : World = record w {
        impl = record (w.impl) { slots = connected i sl ∷ w.impl.slots; next = i + 1 };
        objects = bind_all ts i w.objects;
      } in
      (
        point_to (suc c) (some i) v,
        rw run,
        record {
          settled = st;
          registered = Registered-connect sl w (connected i sl ∷ w.impl.slots) (λ e o. refl) h;
          pointing = λ d j.
              set-cases (λ o. o ≡ some j → has_id j (connected i sl ∷ w.impl.slots) ≡ true)
                (λ o. some i) (suc c) d w.conns (λ k e. ground (arith, some-injective e))
                (λ k e. ground (arith, h.pointing d j e));
          watched = point_to-Watched (suc c) (some i) v h.watched;
          idle = bind-idle i ts w.objects h.idle;
        },
        λ j. record {
          entries = (i, functor_of-connected i sl j) ∷ shown w.impl.slots;
          refs = λ d. set-refs c (some i) w.conns d j;
          next = i + 1;
        },
      )
