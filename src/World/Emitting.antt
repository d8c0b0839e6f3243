-- ===== src/World/Emitting.antt =====
-- A trackable that is destroyed while the signal is emitting (sigc++/trackable.cc,
-- sigc++/functors/slot_base.cc).
use libsigcplusplus.Prelude.{
  ℕ, ◌<◌, ◌≡◌, sym, ap, ◌∙◌, subst, true, false, ◌||◌, ◌&&◌, List, ◌==◌, arith, is_some, ok, All,
  ok-injective, Safe-result,
}
use libsigcplusplus.Signal.Slot.{destroy_slot}
use libsigcplusplus.Signal.Nodes.{Node, deref, update_slot, rep_disconnected, rep_parent}
use libsigcplusplus.Signal.Impl.{Impl}
use libsigcplusplus.Signal.Emit.{has}
use libsigcplusplus.Signal.Extension.{has_id}
use libsigcplusplus.Signal.Invariant.{
  Wf, NodeOk, IdBelow, All-update_slot, Distinct-update_slot, has_id-update_slot,
}
use libsigcplusplus.Signal.Disconnect.{disconnect_lem, disconnect-Good}
use libsigcplusplus.Signal.Rest.{deref-id, deref-has_id}
use libsigcplusplus.Trackable.Kept.{KeptAll}
use libsigcplusplus.Trackable.Removal.{live}
use libsigcplusplus.World.State.{
  World, node_targets, rep_destroyed, unbind_all, invalidate, on_signal, destroy_in_place,
}
use libsigcplusplus.World.Registry.{bound, unbind-clearing, unbind-KeptAll}
use libsigcplusplus.World.Slots.{bound-found, has-has_id}
use libsigcplusplus.World.Silence.{
  silent, silenced, update_slot-twice, NodeOk-destroyed, bound-silent, silenced-update,
}
use libsigcplusplus.World.Invalidate.{Registered, release_gone-all}
use libsigcplusplus.World.Step.{Registered-cleared}

module _ (targets : ℕ → List ℕ) where
  -- The signal when the slot `n` at `i` has lost its functor.
  abbrev silence : ℕ → Node → Impl → Impl
  silence i n s = record s {
    slots = update_slot i (silent targets) s.slots;
    deferred = s.deferred || (s.alive && is_some (rep_parent n.slot.rep));
    log = destroy_slot n.slot s.log;
  }

  -- The notification of a slot of a signal that emits: the slot stays.
  invalidate-emitting :
      (i : ℕ) (n : Node) (w : World)
      → (w.impl.exec == 0) ≡ false
      → deref i w.impl.slots ≡ ok n
      → invalidate targets i w
        ≡ ok (record w {
          impl = silence i n w.impl;
          objects = unbind_all (node_targets targets n) n.id w.objects;
        })
  unfolding invalidate on_signal destroy_in_place
  invalidate-emitting i n w busy found =
      let kept : (j : ℕ)
          → has_id j (update_slot i rep_disconnected w.impl.slots) ≡ has_id j w.impl.slots =
        λ j. has_id-update_slot i rep_disconnected j w.impl.slots in
      let still : has i (update_slot i rep_disconnected w.impl.slots) ≡ true =
        has-has_id i (update_slot i rep_disconnected w.impl.slots)
        ∙ (kept i ∙ deref-has_id i n w.impl.slots found) in
      let id : n.id ≡ i = deref-id i n w.impl.slots found in
      rw
        (
          found,
          disconnect_lem i n w.impl busy found,
          release_gone-all targets w.impl.slots (update_slot i rep_disconnected w.impl.slots) _
              (λ j k. kept j ∙ k),
          still,
        )
        (λ j. ok (record w {
          impl = record (silence i n w.impl) {
            slots =
                (ap
                      (λ k.
                        update_slot k (rep_destroyed targets)
                          (update_slot i rep_disconnected w.impl.slots))
                      id
                    ∙ update_slot-twice targets i rep_disconnected (rep_destroyed targets)
                        w.impl.slots)
                  j;
          };
          objects = unbind_all (node_targets targets n) n.id w.objects;
        }))

  silence-Wf :
      (i : ℕ) (n : Node) (s : Impl)
      → Wf s
      → (s.exec == 0) ≡ false
      → deref i s.slots ≡ ok n
      → Wf (silence i n s)
  silence-Wf i n s wf busy found =
      let (t, run, g) = Safe-result (disconnect-Good ⊥ s wf busy i n found) in
      let cut : Wf (record s {
        slots = update_slot i rep_disconnected s.slots;
        deferred = s.deferred || (s.alive && is_some (rep_parent n.slot.rep));
      }) =
        subst Wf (ok-injective (sym run ∙ disconnect_lem i n s busy found)) g.wf in
      record {
        alive = wf.alive;
        distinct = Distinct-update_slot i (silent targets) s.slots wf.distinct;
        below = All-update_slot i (silent targets) (IdBelow s.next) (λ m h. h) s.slots wf.below;
        nodes =
            subst (All (NodeOk (s.deferred || (s.alive && is_some (rep_parent n.slot.rep)))))
              (update_slot-twice targets i rep_disconnected (rep_destroyed targets) s.slots)
              (All-update_slot i (rep_destroyed targets)
                (NodeOk (s.deferred || (s.alive && is_some (rep_parent n.slot.rep))))
                (NodeOk-destroyed targets _) (update_slot i rep_disconnected s.slots) cut.nodes);
      }

module _ (targets : ℕ → List ℕ) (o : ℕ) where
  -- From `w` to `v`, while the list of the object `o` is being cleared.
  pub record Silencing (w v : World) : Type 0 where
    pub wf : Wf v.impl
    pub exec : v.impl.exec ≡ w.impl.exec
    pub next : v.impl.next ≡ w.impl.next
    pub registered : Registered targets v
    pub clearing : (v.objects o).clearing ≡ true
    pub flags : (x : ℕ) → (x == o) ≡ false → (v.objects x).clearing ≡ (w.objects x).clearing
    pub slots : silenced targets o v.impl.slots ≡ silenced targets o w.impl.slots
    pub conns : (c : ℕ) → v.conns c ≡ w.conns c
    pub watchers : v.watchers ≡ w.watchers

  pub Silencing-step :
      (w v : World) (r : ℕ)
      → (w.impl.exec == 0) ≡ false
      → Silencing w v
      → 0 < live r (v.objects o).callbacks
      → (u : World) × (invalidate targets r v ≡ ok u)
        × Silencing w u
        × KeptAll (λ d. d ≡ r) (v.objects o).callbacks (u.objects o).callbacks
        × (live r (u.objects o).callbacks ≡ 0)
  Silencing-step w v r busy walk pos =
      let held : 0 < bound targets r o v.impl.slots =
        subst (λ k. 0 < k) (walk.registered r o) pos in
      let (n, found) = bound-found targets o r v.impl.slots held in
      let still : (v.impl.exec == 0) ≡ false = ground (arith, walk.exec) in
      let d = walk.wf.distinct in
      let id : n.id ≡ r = deref-id r n v.impl.slots found in
      let reg =
        Registered-cleared targets o r n v (update_slot r (silent targets) v.impl.slots) found
          walk.registered (λ e x. bound-silent targets x r e v.impl.slots d) in
      let kept = unbind-KeptAll n.id (node_targets targets n) v.objects o walk.clearing in
      (
        _,
        invalidate-emitting targets r n v still found,
        record {
          wf = silence-Wf targets r n v.impl walk.wf still found;
          exec = walk.exec;
          next = walk.next;
          registered = reg;
          clearing = unbind-clearing n.id (node_targets targets n) v.objects o ∙ walk.clearing;
          flags = λ x h. unbind-clearing n.id (node_targets targets n) v.objects x ∙ walk.flags x h;
          slots = silenced-update targets o r v.impl.slots held ∙ walk.slots;
          conns = walk.conns;
          watchers = walk.watchers;
        },
        subst
            (λ k.
              KeptAll (λ e. e ≡ k) (v.objects o).callbacks
                (unbind_all (node_targets targets n) n.id v.objects o).callbacks)
            id kept,
        reg r o ∙ (bound-silent targets o r r v.impl.slots d ∙ ground arith),
      )
