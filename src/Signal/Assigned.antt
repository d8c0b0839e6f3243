-- ===== src/Signal/Assigned.antt =====
-- A slot of a signal at rest that is assigned to (sigc++/functors/slot_base.cc).
use libsigcplusplus.Prelude.{
  ℕ, ◌≡◌, refl, sym, ap, ◌∙◌, subst, Bool, true, false, not, inl, inr, Option, none, some, List, [],
  ◌∷◌, is_some, ◌==◌, arith, if◌then◌else◌, Outcome, ok, ok-injective, ◌>>=◌, Bool-cases, All,
}
use libsigcplusplus.Signal.Slot.{
  Rep, Slot, empty_slot, empty, clone, set_parent, copy_slot, destroy_slot,
}
use libsigcplusplus.Signal.Nodes.{Node, deref, update_slot, rep_parent}
use libsigcplusplus.Signal.Impl.{Impl, disconnect}
use libsigcplusplus.Signal.Extension.{HasRep}
use libsigcplusplus.Signal.Erase.{remove_id}
use libsigcplusplus.Signal.Invariant.{NodeOk, IdBelow, All-update_slot, Distinct-update_slot}
use libsigcplusplus.Signal.Steps.{SlotMade, connected, connected-NodeOk}
use libsigcplusplus.Signal.Disconnect.{All-deref}
use libsigcplusplus.Signal.Guarantee.{Settled}
use libsigcplusplus.Signal.Rest.{deref-id, linked-parent, disconnect-rest}
use libsigcplusplus.Signal.Assign.{
  same_rep, adopt, assign_slot, delete_rep, delete_rep_with_check, exchange_rep,
}
use libsigcplusplus.Signal.Emit.{has}
use libsigcplusplus.World.Slots.{has-has_id, has_id-remove_id}

-- A change at one iterator, where the change may rely on the address.
pub All-update_at :
    (P : Node → Type 0) (i : ℕ) (f g : Slot → Slot) (n : Node) (ns : List Node)
    → deref i ns ≡ ok n
    → f n.slot ≡ g n.slot
    → ((m : Node) → m.id ≡ i → P m → P (record m { slot = g m.slot }))
    → All P ns
    → (update_slot i f ns ≡ update_slot i g ns) × All P (update_slot i g ns)
unfolding deref update_slot
All-update_at P i f g n [] e same step h = absurd (cc)
All-update_at P i f g n (x ∷ ns) e same step h = elim (Bool-cases (x.id == i)) [
  | inl hit ↦
      let head : x ≡ n = ok-injective (rw hit at e) in
      let here : f x.slot ≡ g x.slot = subst (λ (m : Node). f m.slot ≡ g m.slot) (sym head) same in
      rw hit (ap (λ sl. record x { slot = sl } ∷ ns) here, (step x (ground (arith, hit)) h.0, h.1))
  | inr miss ↦
      let (rest, all) = All-update_at P i f g n ns (rw miss at e) same step h.1 in
      rw miss (ap (λ u. x ∷ u) rest, (h.0, all))
]

pub not_empty :
    (q : Rep) (b : Bool) → q.call ≡ true → empty (record { rep = some q; blocked = b }) ≡ false
unfolding empty
not_empty q b on = ap not on

pub empty_rep :
    (q : Rep) (b : Bool) → q.call ≡ false → empty (record { rep = some q; blocked = b }) ≡ true
unfolding empty
empty_rep q b off = ap not off

pub empty-none : (b : Bool) → empty (record { rep = none; blocked = b }) ≡ true
unfolding empty
empty-none b = refl

copy-callable :
    (q : Rep) (b : Bool)
    → q.call ≡ true
    → copy_slot (record { rep = some q; blocked = b })
      ≡ record { rep = some (clone q); blocked = b }
unfolding copy_slot
copy-callable q b on =
    ap (λ c. if c then record { rep = some (clone q); blocked = b } else empty_slot) on

connected-HasRep : (i : ℕ) (sl : Slot) → is_some (connected i sl).slot.rep ≡ true
unfolding set_parent
connected-HasRep i sl = refl

module _ (i : ℕ) (n : Node) (s : Impl) (st : Settled s) (found : deref i s.slots ≡ ok n) where
  parent-here : rep_parent n.slot.rep ≡ some i
  parent-here =
      linked-parent n
        (subst (λ d. NodeOk d n) st.clean
          (All-deref (NodeOk s.deferred) i n s.slots found st.wf.nodes))
        (All-deref HasRep i n s.slots found st.reps)
      ∙ ap some (deref-id i n s.slots found)

  pub rep_here : (r : Rep) × (n.slot.rep ≡ some r) × (r.parent ≡ some i)
  rep_here = by_rep n.slot.rep refl (All-deref HasRep i n s.slots found st.reps) parent-here
    where
      by_rep :
          (o : Option Rep)
          → n.slot.rep ≡ o
          → is_some o ≡ true
          → rep_parent o ≡ some i
          → (r : Rep) × (n.slot.rep ≡ some r) × (r.parent ≡ some i)
      by_rep none e h p = absurd (cc)
      by_rep (some r) e h p = (r, e, p)

  -- The signal without the slot, and with a copy of the source in its place.
  abbrev pub erased : Impl
  erased = record s { slots = remove_id i s.slots; log = destroy_slot n.slot s.log }

  abbrev pub replaced : Slot → Impl
  replaced src = record s {
    slots = update_slot i (λ dst. (connected i src).slot) s.slots;
    log = destroy_slot n.slot s.log;
  }

  erased-absent : has i (remove_id i s.slots) ≡ false
  erased-absent =
      has-has_id i (remove_id i s.slots)
      ∙ (has_id-remove_id i i s.slots st.wf.distinct ∙ ground arith)

  pub deletes : delete_rep_with_check i s ≡ ok erased
  unfolding delete_rep_with_check
  deletes =
      let (r, has_rep, parent) = rep_here in
      rw found (
        ap (λ (o : Option Rep). elim o as (λ x. Outcome Impl) [ none ↦ ok s | some q ↦ cut ])
          has_rep
        ∙ gone)
    where
      cut : Outcome Impl
      cut = disconnect i s >>= λ s'. if has i s'.slots then delete_rep i s' else ok s'

      gone : cut ≡ ok erased
      gone = rw ((disconnect-rest i n s st found).0, erased-absent) refl

  pub other_rep : (src : Slot) → same_rep n.slot src ≡ false
  other_rep src =
      let (r, has_rep, parent) = rep_here in
      ap (λ (o : Option Rep). same_rep (record (n.slot) { rep = o }) src) has_rep

  pub assigned_empty : (src : Slot) → empty src ≡ true → assign_slot i src s ≡ ok erased
  unfolding assign_slot delete_rep_with_check
  assigned_empty src e = rw (found, other_rep src, e) (rw found at deletes)

  pub copied :
      (q : Rep) (b : Bool)
      → q.call ≡ true
      → record { rep = some (adopt n.slot.rep (clone q)); blocked = b }
        ≡ (connected i (record { rep = some q; blocked = b })).slot
  unfolding set_parent
  copied q b on =
      let (r, has_rep, parent) = rep_here in
      (λ j. record { rep = some (adopt (has_rep j) (clone q)); blocked = b })
      ∙ ((λ j. record { rep = some (record (clone q) { parent = parent j }); blocked = b })
          ∙ sym (ap (set_parent i) (copy-callable q b on)))

  replaced-Settled :
      (src : Slot)
      → SlotMade src
      → All (NodeOk s.deferred) (replaced src).slots
      → All HasRep (replaced src).slots
      → Settled (replaced src)
  replaced-Settled src made ns rs = record {
    wf = record {
      alive = st.wf.alive;
      distinct = Distinct-update_slot i (λ dst. (connected i src).slot) s.slots st.wf.distinct;
      below =
          All-update_slot i (λ dst. (connected i src).slot) (IdBelow s.next) (λ m h. h) s.slots
            st.wf.below;
      nodes = ns;
    };
    idle = st.idle;
    clean = st.clean;
    reps = rs;
  }

  pub assigned_copy :
      (q : Rep) (b : Bool)
      → SlotMade (record { rep = some q; blocked = b })
      → q.call ≡ true
      → let src : Slot = record { rep = some q; blocked = b } in
        (assign_slot i src s ≡ ok (replaced src)) × Settled (replaced src)
  unfolding assign_slot exchange_rep
  assigned_copy q b made on =
      let src : Slot = record { rep = some q; blocked = b } in
      let f : Slot → Slot = λ dst. record { rep = some (adopt dst.rep (clone q)); blocked = b } in
      let g : Slot → Slot = λ dst. (connected i src).slot in
      let (same, nodes) =
        All-update_at (NodeOk s.deferred) i f g n s.slots found (copied q b on)
          (λ m e h. connected-NodeOk_at src made m e) st.wf.nodes in
      let (_, reps) =
        All-update_at HasRep i f g n s.slots found (copied q b on) (λ m e h. has_rep_there)
          st.reps in
      (
        rw (found, other_rep src, not_empty q b on)
            (λ j. ok (record s { slots = same j; log = destroy_slot n.slot s.log })),
        replaced-Settled src made nodes reps,
      )
    where
      connected-NodeOk_at :
          (src : Slot)
          → SlotMade src
          → (m : Node) → m.id ≡ i
          → NodeOk s.deferred (record m { slot = (connected i src).slot })
      connected-NodeOk_at src made m e =
          subst (λ k. NodeOk s.deferred (record { id = k; slot = (connected i src).slot })) (sym e)
            (connected-NodeOk s.deferred i src made)

      has_rep_there : is_some ((connected i (record { rep = some q; blocked = b })).slot.rep) ≡ true
      has_rep_there = connected-HasRep i (record { rep = some q; blocked = b })

-- Assignment to a slot of a signal at rest, of a slot that the program has made: if the source can be
-- called, a copy of it stands in the slot's place, as a connection makes one, named there, and the
-- functor that the slot had is destroyed; if it cannot, the slot is erased as by a disconnection. The
-- other slots stay, and the signal is at rest again.
pub assign_slot-rest :
    (i : ℕ) (n : Node) (src : Slot) (s : Impl)
    → Settled s
    → deref i s.slots ≡ ok n
    → SlotMade src
    → let t : Impl =
        if empty src
        then record s { slots = remove_id i s.slots; log = destroy_slot n.slot s.log }
        else record s {
          slots = update_slot i (λ dst. (connected i src).slot) s.slots;
          log = destroy_slot n.slot s.log;
        } in
      (assign_slot i src s ≡ ok t) × Settled t
assign_slot-rest i n src s st found made = by_rep src.rep src.blocked made
  where
    Done : Slot → Type 0
    Done x =
        let t : Impl = if empty x then erased i n s st found else replaced i n s st found x in
        (assign_slot i x s ≡ ok t) × Settled t

    cannot : (x : Slot) → empty x ≡ true → Done x
    cannot x e = rw e (assigned_empty i n s st found x e, (disconnect-rest i n s st found).1)

    by_call :
        (q : Rep) (b c : Bool)
        → q.call ≡ c
        → SlotMade (record { rep = some q; blocked = b })
        → Done (record { rep = some q; blocked = b })
    by_call q b true e m = rw (not_empty q b e) (assigned_copy i n s st found q b m e)
    by_call q b false e m = cannot (record { rep = some q; blocked = b }) (empty_rep q b e)

    by_rep :
        (o : Option Rep) (b : Bool)
        → SlotMade (record { rep = o; blocked = b })
        → Done (record { rep = o; blocked = b })
    by_rep none b m = cannot (record { rep = none; blocked = b }) (empty-none b)
    by_rep (some q) b m = by_call q b q.call refl m
