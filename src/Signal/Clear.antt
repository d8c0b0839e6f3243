-- ===== src/Signal/Clear.antt =====
-- signal_impl::clear.
use libsigcplusplus.Prelude.{
  ℕ, suc, ◌<◌, ◌≡◌, refl, sym, ap, ◌∙◌, subst, Bool, true, false, ◌||◌, ◌&&◌, none, List, [], ◌∷◌,
  ◌++◌, is_some, ◌==◌, arith, length, ok,
}
use libsigcplusplus.Signal.Slot.{Slot}
use libsigcplusplus.Signal.Nodes.{
  Node, begin, deref, next_iter, update_slot, rep_disconnected, rep_parent,
}
use libsigcplusplus.Signal.Impl.{
  Impl, disconnect, for_each, clear, reference_exec, unreference_exec, dec_short, inc_short,
  positive_short,
}
use libsigcplusplus.Signal.Extension.{has_id, Distinct}
use libsigcplusplus.Signal.Loop.{for_each-end, for_each-step}
use libsigcplusplus.Signal.Walk.{other}
use mathlib.Core.List.{append_assoc}
use libsigcplusplus.Signal.Invariant.{map_slots, Distinct-update_slot}
use libsigcplusplus.Signal.Disconnect.{disconnect_lem}

-- Every slot disconnected, and whether one of them had a parent to notify.
abbrev pub disconnect_nodes : List Node → List Node
disconnect_nodes = map_slots rep_disconnected

unfoldable pub any_parent : List Node → Bool
any_parent [] = false
any_parent (n ∷ ns) = is_some (rep_parent n.slot.rep) || any_parent ns

module _ (n : Node) (ns : List Node) where
  pub has_id-middle : (pre : List Node) → has_id n.id (pre ++ n ∷ ns) ≡ true
  has_id-middle [] = ground arith
  has_id-middle (x ∷ pre) = ground (arith, has_id-middle pre)

  pub deref-middle :
      (pre : List Node) → Distinct (pre ++ n ∷ ns) → deref n.id (pre ++ n ∷ ns) ≡ ok n
  unfolding deref
  deref-middle [] d = ground arith
  deref-middle (x ∷ pre) d =
      rw (other x n.id (pre ++ n ∷ ns) d.0 (has_id-middle pre)) (deref-middle pre d.1)

  pub next_iter-middle :
      (pre : List Node) → Distinct (pre ++ n ∷ ns) → next_iter n.id (pre ++ n ∷ ns) ≡ ok (begin ns)
  unfolding next_iter
  next_iter-middle [] d = ground arith
  next_iter-middle (x ∷ pre) d =
      rw (other x n.id (pre ++ n ∷ ns) d.0 (has_id-middle pre)) (next_iter-middle pre d.1)

  update_slot-middle :
      (f : Slot → Slot) (pre : List Node)
      → Distinct (pre ++ n ∷ ns)
      → update_slot n.id f (pre ++ n ∷ ns) ≡ pre ++ record n { slot = f n.slot } ∷ ns
  unfolding update_slot
  update_slot-middle f [] d = ground arith
  update_slot-middle f (x ∷ pre) d =
      rw (other x n.id (pre ++ n ∷ ns) d.0 (has_id-middle pre))
        (ap (◌∷◌ x) (update_slot-middle f pre d.1))

Distinct-disconnected :
    (n : Node) (ns pre : List Node)
    → Distinct (pre ++ n ∷ ns)
    → Distinct (pre ++ record n { slot = rep_disconnected n.slot } ∷ ns)
Distinct-disconnected n ns pre d =
    subst Distinct (update_slot-middle n ns rep_disconnected pre d)
      (Distinct-update_slot n.id rep_disconnected (pre ++ n ∷ ns) d)

append-step : (n : Node) (ns pre : List Node) → (pre ++ n ∷ []) ++ ns ≡ pre ++ n ∷ ns
append-step n ns pre = append_assoc pre (n ∷ []) ns

and_false : (d a : Bool) → d ≡ (d || (a && false))
and_false d a = ground arith

or_distrib : (d a p q : Bool) → ((d || (a && p)) || (a && q)) ≡ (d || (a && (p || q)))
or_distrib d a p q = ground arith

-- The loop of `clear`, from any place in the list on.
clear_loop :
    (todo pre : List Node) (s : Impl)
    → s.slots ≡ pre ++ todo
    → Distinct (pre ++ todo)
    → (s.exec == 0) ≡ false
    → for_each (suc (length todo)) none (λ n. disconnect n.id) (begin todo) s
      ≡ ok (record s {
        slots = pre ++ disconnect_nodes todo;
        deferred = s.deferred || (s.alive && any_parent todo);
      })
unfolding any_parent
clear_loop [] pre s e d x = for_each-end 0 none (λ m. disconnect m.id) none s refl ∙ λ i.
    ok (record s { slots = e i; deferred = and_false s.deferred s.alive i })
clear_loop (n ∷ ns) pre s e d x =
    let n' : Node = record n { slot = rep_disconnected n.slot } in
    let found : deref n.id s.slots ≡ ok n = rw e (deref-middle n ns pre d) in
    let d' = Distinct-disconnected n ns pre d in
    let after : update_slot n.id rep_disconnected s.slots ≡ pre ++ n' ∷ ns =
      rw e (update_slot-middle n ns rep_disconnected pre d) in
    let on : next_iter n.id (pre ++ n' ∷ ns) ≡ ok (begin ns) = next_iter-middle n' ns pre d' in
    let mark : Bool = s.deferred || (s.alive && is_some (rep_parent n.slot.rep)) in
    let s' : Impl = record s { slots = pre ++ n' ∷ ns; deferred = mark } in
    let split = append-step n' ns pre in
    for_each-step (suc (length ns)) none (λ m. disconnect m.id) n.id n s s' (begin ns) refl found
      (disconnect_lem n.id n s x found ∙ λ i. ok (record s { slots = after i; deferred = mark })) on
    ∙ (clear_loop ns (pre ++ n' ∷ []) s' (sym split) (subst Distinct (sym split) d') x ∙ λ i.
        ok (record s {
          slots = append-step n' (disconnect_nodes ns) pre i;
          deferred =
              or_distrib s.deferred s.alive (is_some (rep_parent n.slot.rep)) (any_parent ns) i;
        }))

pub loop-clear :
    (s : Impl)
    → Distinct s.slots
    → (s.exec == 0) ≡ false
    → for_each (suc (length s.slots)) none (λ n. disconnect n.id) (begin s.slots) s
      ≡ ok (record s {
        slots = disconnect_nodes s.slots;
        deferred = s.deferred || (s.alive && any_parent s.slots);
      })
loop-clear s d x = clear_loop s.slots [] s refl d x

-- The counter on its way up and down.
pub dec-inc : (c : ℕ) → c < 65536 → dec_short (inc_short c) ≡ c
dec-inc c h = omega arith

pub unreference-running :
    (k : ℕ) (s : Impl)
    → (dec_short s.exec == 0) ≡ false
    → unreference_exec (suc k) s ≡ ok (record s { exec = dec_short s.exec })
unfolding unreference_exec
unreference-running k s h = rw h

-- During an emission `clear` disconnects every slot, erases none, and asks for a sweep if one of the
-- slots has a parent to notify and the signal still has an owner; nothing else changes.
pub clear-running :
    (s : Impl)
    → Distinct s.slots
    → 0 < s.exec
    → s.exec < 32768
    → clear s
      ≡ ok (record s {
        slots = disconnect_nodes s.slots;
        deferred = s.deferred || (s.alive && any_parent s.slots);
      })
unfolding clear reference_exec
clear-running s d pos small =
    rw (loop-clear (record s { exec = inc_short s.exec }) d (ground arith), positive)
      (unreference-running 1 _ (ground (arith, dec-inc s.exec)) ∙ λ i. ok (record s {
        slots = disconnect_nodes s.slots;
        deferred = s.deferred || (s.alive && any_parent s.slots);
        exec = dec-inc s.exec (omega arith) i;
      }))
  where
    positive : positive_short s.exec ≡ true
    positive = ground arith
