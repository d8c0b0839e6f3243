-- ===== src/Signal/Move.antt =====
-- signal_impl::connect and connect_first of a slot that is moved.
use libsigcplusplus.Prelude.{
  ℕ, ◌+◌, ◌≡◌, refl, Bool, true, false, Option, none, some, [], ◌∷◌, ◌++◌, is_some, if◌then◌else◌,
  ok, ◌>>=◌, eq_self,
}
use libsigcplusplus.Signal.Slot.{
  Rep, Slot, empty_slot, rep_callable, copy_slot, move_slot, set_parent,
}
use libsigcplusplus.Signal.Nodes.{Node, begin, insert_before, rep_parent, update_slot}
use libsigcplusplus.Signal.Impl.{
  Impl, insert_slot, insert, insert_move, connect, connect_first, connect_move, connect_first_move,
  add_notification,
}
use libsigcplusplus.Signal.Invariant.{Wf}
use libsigcplusplus.Signal.Steps.{update_slot-last, insert_before-begin}

-- What is left of a slot that is moved.
abbrev pub left_over : Slot → Slot
left_over sl = if is_some (rep_parent sl.rep) then sl else empty_slot

module _ (s : Impl) (wf : Wf s) where
  added : Slot → Node
  added x = record { id = s.next; slot = set_parent s.next x }

  insert_slot-back :
      (x : Slot)
      → insert_slot none x s ≡ ok (record s { slots = s.slots ++ added x ∷ []; next = s.next + 1 })
  unfolding insert_slot add_notification insert_before added
  insert_slot-back x = rw (
    wf.alive,
    update_slot-last s.next (set_parent s.next) (record { id = s.next; slot = x }) s.slots refl
        wf.below,
  )

  insert_slot-front :
      (x : Slot)
      → insert_slot (begin s.slots) x s
        ≡ ok (record s { slots = added x ∷ s.slots; next = s.next + 1 })
  unfolding insert_slot add_notification update_slot added
  insert_slot-front x =
      rw (insert_before-begin (record { id = s.next; slot = x }) s.slots, wf.alive, eq_self s.next)

  added-move :
      (sl : Slot)
      → rep_callable sl.rep ≡ true
      → (added (move_slot sl).0 ≡ added (copy_slot sl)) × ((move_slot sl).1 ≡ left_over sl)
  unfolding added move_slot copy_slot set_parent
  added-move sl h = go sl.rep sl.blocked h
    where
      go :
          (r : Option Rep) (b : Bool)
          → rep_callable r ≡ true
          → let x : Slot = record { rep = r; blocked = b } in
            (added (move_slot x).0 ≡ added (copy_slot x)) × ((move_slot x).1 ≡ left_over x)
      go none b h = absurd (cc)
      go (some r) b h = by_parent r.call r.parent h
        where
          by_parent :
              (c : Bool) (p : Option ℕ)
              → c ≡ true
              → let x : Slot = record {
                rep = some (record { call = c; functor = r.functor; parent = p });
                blocked = b;
              } in
                (added (move_slot x).0 ≡ added (copy_slot x)) × ((move_slot x).1 ≡ left_over x)
          by_parent false p h = absurd (cc)
          by_parent true none h = (refl, refl)
          by_parent true (some q) h = (refl, refl)

  -- Connecting a callable slot by moving it, at either end and also during an emission, leaves the
  -- signal as connecting a copy does; the source is empty then, or unchanged if it had a parent.
  pub connect_move-connect :
      (sl : Slot)
      → rep_callable sl.rep ≡ true
      → (connect_move sl s ≡ (connect sl s >>= λ t. ok (t, left_over sl)))
        × (connect_first_move sl s ≡ (connect_first sl s >>= λ t. ok (t, left_over sl)))
  unfolding connect_move connect_first_move insert_move connect connect_first insert
  connect_move-connect sl h =
      let (same, left) = added-move sl h in
      (
        rw (insert_slot-back (move_slot sl).0, insert_slot-back (copy_slot sl))
            (λ i. ok (record s { slots = s.slots ++ same i ∷ []; next = s.next + 1 }, left i)),
        rw (insert_slot-front (move_slot sl).0, insert_slot-front (copy_slot sl))
            (λ i. ok (record s { slots = same i ∷ s.slots; next = s.next + 1 }, left i)),
      )
