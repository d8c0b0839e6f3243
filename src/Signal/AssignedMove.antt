-- ===== src/Signal/AssignedMove.antt =====
-- A slot of a signal at rest that is assigned to by a move (sigc++/functors/slot_base.cc).
use libsigcplusplus.Prelude.{
  ℕ, ◌≡◌, refl, sym, ap, ◌∙◌, List, [], ◌∷◌, All, Bool, true, false, not, ◌||◌, Option, none, some,
  is_some, if◌then◌else◌, Outcome, ok, ◌>>=◌,
}
use libsigcplusplus.Signal.Slot.{Rep, Slot, empty_slot, empty, clone, destroy_slot}
use libsigcplusplus.Signal.Nodes.{Node, deref, rep_parent}
use libsigcplusplus.Signal.Impl.{Impl}
use libsigcplusplus.Signal.Steps.{SlotMade, connected}
use libsigcplusplus.Signal.Guarantee.{Settled}
use libsigcplusplus.Signal.Assign.{
  adopt, taken, install_rep, delete_rep_with_check, assign_slot, move_assign_slot,
}
use libsigcplusplus.Signal.Assigned.{
  erased, replaced, deletes, other_rep, rep_here, copied, not_empty, empty_rep, empty-none,
  assigned_empty, assigned_copy, All-update_at,
}

abbrev stays : Slot → Bool
stays src = empty src || is_some (rep_parent src.rep)

module _ (i : ℕ) (n : Node) (s : Impl) (st : Settled s) (found : deref i s.slots ≡ ok n) where
  moved_empty :
      (src : Slot)
      → empty src ≡ true
      → move_assign_slot i src s ≡ ok (erased i n s st found, src, false)
  unfolding move_assign_slot delete_rep_with_check
  moved_empty src e =
      rw (found, other_rep i n s st found src, e)
        (rw found at (
          ap (λ (m : Outcome Impl). ◌>>=◌ {B = Impl × Slot × Bool} m (λ t. ok (t, src, false)))
            (deletes i n s st found)))

  -- The parent of the rep that is installed does not matter, since the old rep's replaces it.
  installed :
      (q r : Rep) (b : Bool)
      → q.call ≡ true
      → record r { parent = none } ≡ clone q
      → SlotMade (record { rep = some q; blocked = b })
      → install_rep i r b s ≡ ok (replaced i n s st found (record { rep = some q; blocked = b }))
  unfolding install_rep
  installed q r b on same made =
      let f : Slot → Slot = λ dst. record { rep = some (adopt dst.rep r); blocked = b } in
      let g : Slot → Slot = λ dst. (connected i (record { rep = some q; blocked = b })).slot in
      let (equal, _) =
        All-update_at (λ m. Unit {0}) i f g n s.slots found (adopted ∙ copied i n s st found q b on)
          (λ m e h. tt) (every s.slots) in
      rw found (λ j. ok (record s { slots = equal j; log = destroy_slot n.slot s.log }))
    where
      adopted :
          ◌≡◌ {A = Slot}
            (record { rep = some (adopt n.slot.rep r); blocked = b })
            (record { rep = some (adopt n.slot.rep (clone q)); blocked = b })
      adopted =
          let (old, has_rep, parent) = rep_here i n s st found in
          (λ j. record { rep = some (adopt (has_rep j) r); blocked = b })
          ∙ ((λ j. record { rep = some (record (same j) { parent = old.parent }); blocked = b })
              ∙ (λ j. record { rep = some (adopt (sym has_rep j) (clone q)); blocked = b }))

      every : (ns : List Node) → All (λ m. Unit {0}) ns
      every [] = tt
      every (m ∷ ns) = (tt, every ns)

  moved_rep :
      (q : Rep) (b : Bool)
      → SlotMade (record { rep = some q; blocked = b })
      → q.call ≡ true
      → let src : Slot = record { rep = some q; blocked = b } in
        move_assign_slot i src s
        ≡ ok (replaced i n s st found src, (taken q src).1, (taken q src).2)
  unfolding move_assign_slot install_rep
  moved_rep q b made on =
      let src : Slot = record { rep = some q; blocked = b } in
      rw (found, other_rep i n s st found src, not_empty q b on)
        (rw found at (
          ap
            (λ (m : Outcome Impl).
              ◌>>=◌ {B = Impl × Slot × Bool} m (λ t. ok (t, (taken q src).1, (taken q src).2)))
            (by_parent q.parent refl)))
    where
      by_parent :
          (o : Option ℕ)
          → q.parent ≡ o
          → install_rep i (taken q (record { rep = some q; blocked = b })).0 b s
            ≡ ok (replaced i n s st found (record { rep = some q; blocked = b }))
      by_parent none e =
          ap
            (λ (o : Option ℕ).
              install_rep i
                (taken (record q { parent = o }) (record { rep = some q; blocked = b })).0 b s)
            e
          ∙ installed q (record q { parent = none }) b on refl made
      by_parent (some p) e =
          ap
            (λ (o : Option ℕ).
              install_rep i
                (taken (record q { parent = o }) (record { rep = some q; blocked = b })).0 b s)
            e
          ∙ installed q (clone q) b on refl made

-- A move assignment to a slot of a signal at rest does to the signal what the assignment of a copy
-- does. A source that cannot be called, or that has a parent, stays as it was; any other is empty
-- afterwards, and the callbacks of its rep were notified.
pub move_assign_slot-rest :
    (i : ℕ) (n : Node) (src : Slot) (s : Impl)
    → Settled s
    → deref i s.slots ≡ ok n
    → SlotMade src
    → (t : Impl) × (assign_slot i src s ≡ ok t)
      × (move_assign_slot i src s
          ≡ ok (
            t,
            if empty src || is_some (rep_parent src.rep) then src else empty_slot,
            not (empty src || is_some (rep_parent src.rep)),
          ))
move_assign_slot-rest i n src s st found made = by_rep src.rep src.blocked made
  where
    Done : Slot → Type 0
    Done x =
        (t : Impl) × (assign_slot i x s ≡ ok t)
        × (move_assign_slot i x s ≡ ok (t, if stays x then x else empty_slot, not (stays x)))

    cannot : (x : Slot) → empty x ≡ true → Done x
    cannot x e = (
      erased i n s st found,
      assigned_empty i n s st found x e,
      moved_empty i n s st found x e ∙ (λ j. ok (
        erased i n s st found,
        if sym e j || is_some (rep_parent x.rep) then x else empty_slot,
        not (sym e j || is_some (rep_parent x.rep)),
      )),
    )

    left :
        (q : Rep) (b : Bool)
        → q.call ≡ true
        → let x : Slot = record { rep = some q; blocked = b } in
          ((taken q x).1 ≡ (if stays x then x else empty_slot)) × ((taken q x).2 ≡ not (stays x))
    left q b on =
        let x : Slot = record { rep = some q; blocked = b } in
        by_parent x q.parent (not_empty q b on)
      where
        by_parent :
            (x : Slot) (o : Option ℕ)
            → empty x ≡ false
            → ((taken (record q { parent = o }) x).1
                ≡ (if empty x || is_some o then x else empty_slot))
              × ((taken (record q { parent = o }) x).2 ≡ not (empty x || is_some o))
        by_parent x none h = (
          ap (λ d. if d || false then x else empty_slot) (sym h),
          ap (λ d. not (d || false)) (sym h),
        )
        by_parent x (some p) h = (
          ap (λ d. if d || true then x else empty_slot) (sym h),
          ap (λ d. not (d || true)) (sym h),
        )

    by_call :
        (q : Rep) (b c : Bool)
        → q.call ≡ c
        → SlotMade (record { rep = some q; blocked = b })
        → Done (record { rep = some q; blocked = b })
    by_call q b false e m = cannot (record { rep = some q; blocked = b }) (empty_rep q b e)
    by_call q b true e m =
        let x : Slot = record { rep = some q; blocked = b } in
        let (rest, told) = left q b e in
        (
          replaced i n s st found x,
          (assigned_copy i n s st found q b m e).0,
          moved_rep i n s st found q b m e ∙ (λ j. ok (replaced i n s st found x, rest j, told j)),
        )

    by_rep :
        (o : Option Rep) (b : Bool)
        → SlotMade (record { rep = o; blocked = b })
        → Done (record { rep = o; blocked = b })
    by_rep none b m = cannot (record { rep = none; blocked = b }) (empty-none b)
    by_rep (some q) b m = by_call q b q.call refl m
