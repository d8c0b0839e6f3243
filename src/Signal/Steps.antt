-- ===== src/Signal/Steps.antt =====
-- What each operation of signal_impl does while the signal is emitting.
use libsigcplusplus.Prelude.{
  ℕ, ◌+◌, ◌≡◌, refl, Bool, true, inl, inr, Option, none, some, List, [], ◌∷◌, ◌++◌, is_some, All,
  arith, ok, Safe, safe, eq_self,
}
use libsigcplusplus.Signal.Slot.{Rep, Slot, copy_slot, set_parent}
use libsigcplusplus.Signal.Nodes.{Node, begin, insert_before, update_slot}
use libsigcplusplus.Signal.Impl.{Impl, insert, connect, connect_first, add_notification}
use libsigcplusplus.Signal.Extension.{HasRep, Ext-refl, Ext-append}
use libsigcplusplus.Signal.Invariant.{
  NodeOk, IdBelow, Wf, same, Good, All-append, All-map, not-has_id-below, Distinct-append,
}

-- A slot that the program made: it can be called only if it has a functor.
abbrev pub RepMade : Option Rep → Type 0
RepMade none = Unit {0}
RepMade (some r) = r.call ≡ true → is_some r.functor ≡ true

abbrev pub SlotMade : Slot → Type 0
SlotMade sl = RepMade sl.rep

-- The node that a connection adds.
abbrev pub connected : ℕ → Slot → Node
connected i sl = record { id = i; slot = set_parent i (copy_slot sl) }

pub update_slot-last :
    (i : ℕ) (f : Slot → Slot) (n : Node) (xs : List Node)
    → n.id ≡ i
    → All (IdBelow i) xs
    → update_slot i f (xs ++ n ∷ []) ≡ xs ++ record n { slot = f n.slot } ∷ []
unfolding update_slot
update_slot-last i f n [] e h = ground arith
update_slot-last i f n (x ∷ xs) e h = ground (arith, update_slot-last i f n xs e h.1)

pub insert_before-begin : (n : Node) (xs : List Node) → insert_before (begin xs) n xs ≡ ok (n ∷ xs)
unfolding insert_before
insert_before-begin n [] = refl
insert_before-begin n (x ∷ xs) = rw (eq_self x.id)

module _ (s : Impl) (sl : Slot) (alive : s.alive ≡ true) where
  pub connect_lem :
      All (IdBelow s.next) s.slots
      → connect sl s
        ≡ ok (record s { slots = s.slots ++ connected s.next sl ∷ []; next = s.next + 1 })
  unfolding connect insert add_notification insert_before
  connect_lem h = rw (
    alive,
    update_slot-last s.next (set_parent s.next) (record { id = s.next; slot = copy_slot sl })
        s.slots refl h,
  )

  pub connect_first_lem :
      connect_first sl s
      ≡ ok (record s { slots = connected s.next sl ∷ s.slots; next = s.next + 1 })
  unfolding connect_first insert add_notification update_slot
  connect_first_lem = rw (
    insert_before-begin (record { id = s.next; slot = copy_slot sl }) s.slots,
    alive,
    eq_self s.next,
  )

pub connected-NodeOk : (d : Bool) (i : ℕ) (sl : Slot) → SlotMade sl → NodeOk d (connected i sl)
unfolding set_parent copy_slot
connected-NodeOk d i sl h = go sl.rep sl.blocked h
  where
    go :
        (r : Option Rep) (b : Bool)
        → RepMade r
        → NodeOk d (connected i (record { rep = r; blocked = b }))
    go none b h = (inl refl, λ e. e)
    go (some r) b h = ground arith

connected-HasRep : (i : ℕ) (sl : Slot) → HasRep (connected i sl)
unfolding set_parent
connected-HasRep i sl = refl

module _ (D : Type 0) (s : Impl) (wf : Wf s) where
  pub connect-Good : (sl : Slot) → SlotMade sl → Safe D (Good s.exec s) (connect sl s)
  connect-Good sl h = rw (connect_lem s sl wf.alive wf.below) (
      safe (record {
        wf = record {
          alive = wf.alive;
          distinct = Distinct-append s.slots (connected s.next sl) wf.distinct wf.below;
          below =
              All-append (IdBelow (s.next + 1)) s.slots _
                (All-map (λ m k. omega arith) s.slots wf.below) (omega arith, tt);
          nodes =
              All-append (NodeOk s.deferred) s.slots _ wf.nodes
                (connected-NodeOk s.deferred s.next sl h, tt);
        };
        inner = record {
          exec = refl;
          next = omega arith;
          ext = Ext-append s.slots (connected s.next sl ∷ []) (connected-HasRep s.next sl, tt);
          log = same;
          defers = λ e. e;
        };
      }))

  pub connect_first-Good : (sl : Slot) → SlotMade sl → Safe D (Good s.exec s) (connect_first sl s)
  connect_first-Good sl h = rw (connect_first_lem s sl wf.alive) (
      safe (record {
        wf = record {
          alive = wf.alive;
          distinct = (not-has_id-below s.next s.slots wf.below, wf.distinct);
          below = (omega arith, All-map (λ m k. omega arith) s.slots wf.below);
          nodes = (connected-NodeOk s.deferred s.next sl h, wf.nodes);
        };
        inner = record {
          exec = refl;
          next = omega arith;
          ext = inr (connected-HasRep s.next sl, Ext-refl s.slots);
          log = same;
          defers = λ e. e;
        };
      }))
