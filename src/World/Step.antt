-- ===== src/World/Step.antt =====
-- One callback of ~trackable: a slot of a signal at rest goes away (sigc++/trackable.cc).
use libsigcplusplus.Prelude.{
  ℕ, ◌<◌, ◌≡◌, sym, ap, ◌∙◌, subst, true, false, List, ◌==◌, arith, if◌then◌else◌, Bool-cases, inl,
  inr, ok,
}
use libsigcplusplus.Signal.Nodes.{Node, deref}
use libsigcplusplus.Signal.Extension.{Distinct}
use libsigcplusplus.Signal.Erase.{remove_id}
use libsigcplusplus.Signal.Guarantee.{Settled}
use libsigcplusplus.Signal.Rest.{deref-id}
use libsigcplusplus.Trackable.Kept.{KeptAll}
use libsigcplusplus.Trackable.Removal.{live}
use libsigcplusplus.World.State.{World, node_targets, invalidate, unbind_all}
use libsigcplusplus.World.Watchers.{Watched, unless_slot, tell_all-Watched, tell_all-kept}
use libsigcplusplus.World.Registry.{count, bound, live-unbind, unbind-clearing, unbind-KeptAll}
use libsigcplusplus.World.Slots.{
  bound-remove_id, bound-deref, bound-found, without, without-remove_id,
}
use libsigcplusplus.World.Invalidate.{Registered, present, unless_slot-present, invalidate-rest}

-- From `w` to `v`, while the list of the object `o` is being cleared.
pub record Walk (targets : ℕ → List ℕ) (o : ℕ) (w v : World) : Type 0 where
  pub settled : Settled v.impl
  pub registered : Registered targets v
  pub clearing : (v.objects o).clearing ≡ true
  pub flags : (x : ℕ) → (x == o) ≡ false → (v.objects x).clearing ≡ (w.objects x).clearing
  pub slots : without targets o v.impl.slots ≡ without targets o w.impl.slots
  pub conns : (c : ℕ) → v.conns c ≡ present v.impl.slots (w.conns c)
  pub watched : Watched v
  pub next : v.impl.next ≡ w.impl.next

module _ (targets : ℕ → List ℕ) (o : ℕ) where
  -- The slot refers to nothing any more, and its registrations are gone with it.
  pub Registered-cleared :
      (r : ℕ) (n : Node) (v : World) (ns : List Node)
      → deref r v.impl.slots ≡ ok n
      → Registered targets v
      → ((e x : ℕ) → bound targets e x ns ≡ (if r == e then 0 else bound targets e x v.impl.slots))
      → (e x : ℕ)
      → live e (unbind_all (node_targets targets n) n.id v.objects x).callbacks
        ≡ bound targets e x ns
  Registered-cleared r n v ns found reg cleared e x =
      let id : n.id ≡ r = deref-id r n v.impl.slots found in
      let left = live-unbind n.id e (node_targets targets n) v.objects x in
      let right = cleared e x in
      elim (Bool-cases (r == e)) [
        | inl same ↦
            let all : live e (v.objects x).callbacks ≡ count x (node_targets targets n) =
              reg e x
              ∙ (ap (λ k. bound targets k x v.impl.slots) (sym (ground (arith, same)))
                  ∙ bound-deref targets x r n v.impl.slots found) in
            let hit : (n.id == e) ≡ true = ground (arith, id, same) in
            left ∙ (rw (hit, all) (omega arith) ∙ sym (rw same at right))
        | inr other ↦
            let miss : (n.id == e) ≡ false = ground (arith, id, other) in
            left ∙ (rw miss (reg e x) ∙ sym (rw other at right))
      ]

  pub Registered-erased :
      (r : ℕ) (n : Node) (v : World)
      → Distinct v.impl.slots
      → deref r v.impl.slots ≡ ok n
      → Registered targets v
      → (e x : ℕ)
      → live e (unbind_all (node_targets targets n) n.id v.objects x).callbacks
        ≡ bound targets e x (remove_id r v.impl.slots)
  Registered-erased r n v d found reg =
      Registered-cleared r n v (remove_id r v.impl.slots) found reg
        (λ e x. bound-remove_id targets x r e v.impl.slots d)

  pub Walk-step :
      (w v : World) (r : ℕ)
      → Walk targets o w v
      → 0 < live r (v.objects o).callbacks
      → (u : World) × (invalidate targets r v ≡ ok u)
        × Walk targets o w u
        × KeptAll (λ d. d ≡ r) (v.objects o).callbacks (u.objects o).callbacks
        × (live r (u.objects o).callbacks ≡ 0)
  Walk-step w v r walk pos =
      let held : 0 < bound targets r o v.impl.slots =
        subst (λ k. 0 < k) (walk.registered r o) pos in
      let (n, found) = bound-found targets o r v.impl.slots held in
      let (run, st) = invalidate-rest targets r n v walk.settled found in
      let d = walk.settled.wf.distinct in
      let id : n.id ≡ r = deref-id r n v.impl.slots found in
      let reg = Registered-erased r n v d found walk.registered in
      let kept = unbind-KeptAll n.id (node_targets targets n) v.objects o walk.clearing in
      let gone : bound targets r o (remove_id r v.impl.slots) ≡ 0 =
        bound-remove_id targets o r r v.impl.slots d ∙ ground arith in
      (
        _,
        run,
        record {
          settled = st;
          registered = reg;
          clearing = unbind-clearing n.id (node_targets targets n) v.objects o ∙ walk.clearing;
          flags = λ x h. unbind-clearing n.id (node_targets targets n) v.objects x ∙ walk.flags x h;
          slots = without-remove_id targets o r v.impl.slots held ∙ walk.slots;
          conns = λ c.
              tell_all-Watched n.id v walk.watched c
              ∙ (ap (unless_slot n.id) (walk.conns c)
                  ∙ (ap (λ k. unless_slot k (present v.impl.slots (w.conns c))) id
                      ∙ unless_slot-present r v.impl.slots (w.conns c) d));
          watched = tell_all-kept n.id v walk.watched;
          next = walk.next;
        },
        subst
            (λ k.
              KeptAll (λ e. e ≡ k) (v.objects o).callbacks
                (unbind_all (node_targets targets n) n.id v.objects o).callbacks)
            id kept,
        reg r o ∙ gone,
      )
