-- ===== src/Signal/Rest.antt =====
-- The operations of signal_impl on a signal at rest.
use libsigcplusplus.Prelude.{
  ℕ, ◌≡◌, refl, ap, ◌∙◌, subst, Bool, true, false, inl, inr, Option, none, some, List, [], ◌∷◌,
  is_some, ◌==◌, arith, Outcome, ok, Bool-cases,
}
use libsigcplusplus.Signal.Slot.{Rep, Slot, Event, destroy_slot}
use libsigcplusplus.Signal.Nodes.{
  Node, deref, update_slot, rep_disconnected, rep_parent, destroy_nodes,
}
use libsigcplusplus.Signal.Impl.{
  Impl, inc_short, erase_node, reference_exec, notify_invalidated, disconnect, clear, clear_list,
  destroy_impl,
}
use libsigcplusplus.Signal.Extension.{has_id, Distinct, HasRep}
use libsigcplusplus.Signal.Erase.{remove_id, erase-remove_id, Distinct-remove_id, All-remove_id}
use libsigcplusplus.Signal.Invariant.{RepOk, NodeOk, IdBelow, map_slots}
use libsigcplusplus.Signal.Disconnect.{All-deref}
use libsigcplusplus.Signal.Clear.{loop-clear}
use libsigcplusplus.Signal.Settle.{unreference-stay}
use libsigcplusplus.Signal.Guarantee.{Settled}

destroy-disconnected :
    (sl : Slot) (log : List Event) → destroy_slot (rep_disconnected sl) log ≡ destroy_slot sl log
unfolding destroy_slot
destroy-disconnected sl log = go sl.rep sl.blocked
  where
    go :
        (r : Option Rep) (b : Bool)
        → destroy_slot (rep_disconnected (record { rep = r; blocked = b })) log
          ≡ destroy_slot (record { rep = r; blocked = b }) log
    go none b = refl
    go (some r) b = refl

pub deref-has_id : (i : ℕ) (n : Node) (ns : List Node) → deref i ns ≡ ok n → has_id i ns ≡ true
unfolding deref
deref-has_id i n [] e = absurd (cc)
deref-has_id i n (x ∷ ns) e = ground (arith, deref-has_id i n ns)

module _ (i : ℕ) (f : Slot → Slot) where
  deref-update_slot :
      (n : Node) (ns : List Node)
      → deref i ns ≡ ok n
      → deref i (update_slot i f ns) ≡ ok (record n { slot = f n.slot })
  unfolding deref update_slot
  deref-update_slot n [] e = absurd (cc)
  deref-update_slot n (x ∷ ns) e = elim (Bool-cases (x.id == i)) [
    | inl hit ↦ rw (hit, hit) (ground arith)
    | inr miss ↦ rw (miss, miss) (deref-update_slot n ns (rw miss at e))
  ]

  remove-update_slot : (ns : List Node) → remove_id i (update_slot i f ns) ≡ remove_id i ns
  unfolding update_slot
  remove-update_slot [] = refl
  remove-update_slot (x ∷ ns) = ground (arith, remove-update_slot ns)

  has_id-update : (ns : List Node) → has_id i ns ≡ true → has_id i (update_slot i f ns) ≡ true
  unfolding update_slot
  has_id-update [] h = h
  has_id-update (x ∷ ns) h = ground (arith, has_id-update ns)

pub linked-parent : (n : Node) → NodeOk false n → HasRep n → rep_parent n.slot.rep ≡ some n.id
linked-parent n h r = go n.slot.rep h r
  where
    go : (q : Option Rep) → RepOk false n.id q → is_some q ≡ true → rep_parent q ≡ some n.id
    go none h r = absurd (cc)
    go (some q) h r = ground arith

pub deref-id : (i : ℕ) (n : Node) (ns : List Node) → deref i ns ≡ ok n → n.id ≡ i
unfolding deref
deref-id i n [] e = absurd (cc)
deref-id i n (x ∷ ns) e = ground (arith, deref-id i n ns)

-- The cleanup of a signal that does not emit erases the slot.
notify-rest :
    (i : ℕ) (n : Node) (s : Impl)
    → s.alive ≡ true
    → s.exec ≡ 0
    → s.deferred ≡ false
    → deref i s.slots ≡ ok n
    → notify_invalidated i s
      ≡ ok (record s { slots = remove_id i s.slots; log = destroy_slot n.slot s.log })
unfolding notify_invalidated erase_node reference_exec
notify-rest i n s live idle off found =
    rw (live, idle, found, erase-remove_id i s.slots (deref-has_id i n s.slots found))
      (unreference-stay 1 _ (ground arith))

disconnect-notifies :
    (i p : ℕ) (n : Node) (s : Impl)
    → deref i s.slots ≡ ok n
    → rep_parent n.slot.rep ≡ some p
    → disconnect i s
      ≡ notify_invalidated p (record s { slots = update_slot i rep_disconnected s.slots })
unfolding disconnect
disconnect-notifies i p n s found parent =
    rw (found, disconnect)
      (ap
        (λ (o : Option ℕ).
          let s' : Impl = record s { slots = update_slot i rep_disconnected s.slots } in
          elim o as (λ x. Outcome Impl) [ none ↦ ok s' | some q ↦ notify_invalidated q s' ])
        parent)

-- A slot that is disconnected while the signal is at rest is erased and its functor destroyed, at
-- once, and the signal is at rest again.
pub disconnect-rest :
    (i : ℕ) (n : Node) (s : Impl)
    → Settled s
    → deref i s.slots ≡ ok n
    → let t : Impl = record s { slots = remove_id i s.slots; log = destroy_slot n.slot s.log } in
      (disconnect i s ≡ ok t) × Settled t
disconnect-rest i n s st found =
    let parent : rep_parent n.slot.rep ≡ some i =
      linked-parent n
        (subst (λ d. NodeOk d n) st.clean
          (All-deref (NodeOk s.deferred) i n s.slots found st.wf.nodes))
        (All-deref HasRep i n s.slots found st.reps)
      ∙ ap some (deref-id i n s.slots found) in
    let s' : Impl = record s { slots = update_slot i rep_disconnected s.slots } in
    let at = deref-update_slot i rep_disconnected n s.slots found in
    (
      disconnect-notifies i i n s found parent
          ∙ (notify-rest i _ s' st.wf.alive st.idle st.clean at ∙ λ j. ok (record s {
            slots = remove-update_slot i rep_disconnected s.slots j;
            log = destroy-disconnected n.slot s.log j;
          })),
      record {
        wf = record {
          alive = st.wf.alive;
          distinct = Distinct-remove_id i s.slots st.wf.distinct;
          below = All-remove_id (IdBelow s.next) i s.slots st.wf.below;
          nodes = All-remove_id (NodeOk s.deferred) i s.slots st.wf.nodes;
        };
        idle = st.idle;
        clean = st.clean;
        reps = All-remove_id HasRep i s.slots st.reps;
      },
    )

destroy_nodes-disconnected :
    (ns : List Node) (log : List Event)
    → destroy_nodes (map_slots rep_disconnected ns) log ≡ destroy_nodes ns log
unfolding destroy_nodes
destroy_nodes-disconnected [] log = refl
destroy_nodes-disconnected (n ∷ ns) log =
    ap (destroy_nodes (map_slots rep_disconnected ns)) (destroy-disconnected n.slot log)
    ∙ destroy_nodes-disconnected ns (destroy_slot n.slot log)

-- `clear` on a signal that does not emit, also from the destructor: every slot is erased, every
-- functor destroyed in the order of the list, and the count and the deferred sweep stay as they were.
pub clear-rest :
    (s : Impl)
    → Distinct s.slots
    → s.exec ≡ 0
    → s.deferred ≡ false
    → clear s ≡ ok (record s { slots = []; log = destroy_nodes s.slots s.log })
unfolding clear clear_list reference_exec
clear-rest s di idle off =
    rw (loop-clear (record s { exec = inc_short s.exec }) di (ground arith), idle)
      (unreference-stay 1 _ (ground arith) ∙ λ j.
        ok (record s { slots = []; exec = 0; log = destroy_nodes-disconnected s.slots s.log j }))

pub Settled-cleared :
    (s : Impl) (log : List Event) → Settled s → Settled (record s { slots = []; log = log })
Settled-cleared s log st = record {
  wf = record { alive = st.wf.alive; distinct = tt; below = tt; nodes = tt };
  idle = st.idle;
  clean = st.clean;
  reps = tt;
}

-- ~signal_impl.
pub destroy_impl-rest :
    (s : Impl)
    → Distinct s.slots
    → s.exec ≡ 0
    → s.deferred ≡ false
    → destroy_impl s
      ≡ ok (record s { slots = []; alive = false; log = destroy_nodes s.slots s.log })
unfolding destroy_impl
destroy_impl-rest s di idle off = clear-rest (record s { alive = false }) di idle off
