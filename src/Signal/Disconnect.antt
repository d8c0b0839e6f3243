-- ===== src/Signal/Disconnect.antt =====
-- Disconnecting and blocking slots of a signal.
use libsigcplusplus.Prelude.{
  ℕ, ◌≡◌, refl, Bool, true, false, ◌||◌, ◌&&◌, inl, inr, Option, none, some, List, [], ◌∷◌, is_some,
  All, ◌==◌, arith, ok, Safe, safe, ok-injective, subst, Bool-cases,
}
use libsigcplusplus.Signal.Slot.{Rep, Slot}
use libsigcplusplus.Signal.Nodes.{Node, deref, update_slot, rep_disconnected, rep_parent}
use libsigcplusplus.Signal.Impl.{Impl, disconnect, notify_invalidated}
use libsigcplusplus.Signal.Extension.{RepLater, Prefix-Ext}
use libsigcplusplus.Signal.Invariant.{
  RepOk, NodeOk, IdBelow, Wf, same, Good, All-map, Distinct-update_slot, All-update_slot,
  Prefix-update_slot,
}

-- While the signal is emitting, a disconnected slot stays in the list.
pub disconnect_lem :
    (i : ℕ) (n : Node) (s : Impl)
    → (s.exec == 0) ≡ false
    → deref i s.slots ≡ ok n
    → disconnect i s
      ≡ ok (record s {
        slots = update_slot i rep_disconnected s.slots;
        deferred = s.deferred || (s.alive && is_some (rep_parent n.slot.rep));
      })
unfolding disconnect notify_invalidated
disconnect_lem i n s h e =
    rw (e, disconnect) (go (rep_parent n.slot.rep) s.deferred s.alive refl refl)
  where
    go :
        (p : Option ℕ) (d a : Bool)
        → s.deferred ≡ d
        → s.alive ≡ a
        → (let s' : Impl = record s { slots = update_slot i rep_disconnected s.slots } in
            elim p [ none ↦ ok s' | some j ↦ notify_invalidated j s' ])
          ≡ ok (record s {
            slots = update_slot i rep_disconnected s.slots;
            deferred = s.deferred || (s.alive && is_some p);
          })
    go none d a hd ha = ground arith
    go (some j) d a hd ha = ground arith

pub RepLater-disconnected : (sl : Slot) → RepLater sl.rep (rep_disconnected sl).rep
RepLater-disconnected sl = go sl.rep sl.blocked
  where
    go :
        (r : Option Rep) (b : Bool)
        → RepLater r (rep_disconnected (record { rep = r; blocked = b })).rep
    go none b = tt
    go (some r) b = (refl, λ h. cc)

pub All-deref :
    (P : Node → Type 0) (i : ℕ) (n : Node) (xs : List Node) → deref i xs ≡ ok n → All P xs → P n
unfolding deref
All-deref P i n [] e h = absurd (cc)
All-deref P i n (x ∷ xs) e h = elim (Bool-cases (x.id == i)) [
  | inl hit ↦ subst P (ok-injective (rw hit at e)) h.0
  | inr miss ↦ All-deref P i n xs (rw miss at e) h.1
]

update_slot_same :
    (i : ℕ) (f : Slot → Slot) (n : Node) (xs : List Node)
    → deref i xs ≡ ok n
    → f n.slot ≡ n.slot
    → update_slot i f xs ≡ xs
unfolding deref update_slot
update_slot_same i f n [] e h = refl
update_slot_same i f n (x ∷ xs) e h = ground (arith, update_slot_same i f n xs)

NodeOk-true : (d : Bool) (n : Node) → NodeOk d n → NodeOk true n
NodeOk-true d n h = go n.slot.rep h
  where
    go : (r : Option Rep) → RepOk d n.id r → RepOk true n.id r
    go none h = tt
    go (some r) h = ground arith

NodeOk-disconnected :
    (n : Node) → NodeOk true n → NodeOk true (record n { slot = rep_disconnected n.slot })
NodeOk-disconnected n h = go n.slot.rep n.slot.blocked
  where
    go :
        (r : Option Rep) (b : Bool)
        → NodeOk true (record n { slot = rep_disconnected (record { rep = r; blocked = b }) })
    go none b = tt
    go (some r) b = (inr (refl, refl, refl), λ h. cc)

-- A slot with no parent, where no sweep is due, has no rep.
unlinked :
    (d : Bool) (n : Node)
    → NodeOk d n
    → d ≡ false
    → is_some (rep_parent n.slot.rep) ≡ false
    → rep_disconnected n.slot ≡ n.slot
unlinked d n h e k = go n.slot.rep n.slot.blocked h k
  where
    go :
        (r : Option Rep) (b : Bool)
        → RepOk d n.id r
        → is_some (rep_parent r) ≡ false
        → ◌≡◌ {A = Slot}
            (rep_disconnected (record { rep = r; blocked = b }))
            (record { rep = r; blocked = b })
    go none b h k = refl
    go (some r) b h k = ground arith

module _ (D : Type 0) (s : Impl) (wf : Wf s) (emitting : (s.exec == 0) ≡ false) where
  disconnected-nodes :
      (i : ℕ) (n : Node)
      → deref i s.slots ≡ ok n
      → All
          (NodeOk (s.deferred || (s.alive && is_some (rep_parent n.slot.rep))))
          (update_slot i rep_disconnected s.slots)
  disconnected-nodes i n e = go (s.deferred || (s.alive && is_some (rep_parent n.slot.rep))) refl
    where
      go :
          (d : Bool)
          → (s.deferred || (s.alive && is_some (rep_parent n.slot.rep))) ≡ d
          → All (NodeOk d) (update_slot i rep_disconnected s.slots)
      go true h =
          All-update_slot i rep_disconnected (NodeOk true) NodeOk-disconnected s.slots
            (All-map (NodeOk-true s.deferred) s.slots wf.nodes)
      go false h =
          let off : s.deferred ≡ false = ground arith in
          let same = update_slot_same i rep_disconnected n s.slots e (
            unlinked s.deferred n (All-deref (NodeOk s.deferred) i n s.slots e wf.nodes) off
              (ground (arith, wf.alive))) in
          rw same (subst (λ d. All (NodeOk d) s.slots) off wf.nodes)

  pub disconnect-Good :
      (i : ℕ) (n : Node) → deref i s.slots ≡ ok n → Safe D (Good s.exec s) (disconnect i s)
  disconnect-Good i n e = rw (disconnect_lem i n s emitting e) (
      safe (record {
        wf = record {
          alive = wf.alive;
          distinct = Distinct-update_slot i rep_disconnected s.slots wf.distinct;
          below = All-update_slot i rep_disconnected (IdBelow s.next) (λ m h. h) s.slots wf.below;
          nodes = disconnected-nodes i n e;
        };
        inner = record {
          exec = refl;
          next = omega arith;
          ext =
              Prefix-Ext s.slots _
                (Prefix-update_slot i rep_disconnected RepLater-disconnected s.slots);
          log = same;
          defers = λ h. ground arith;
        };
      }))
