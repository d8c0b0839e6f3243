-- ===== src/Signal/Scope.antt =====
-- The scope of an emission: the execution count and the placeholder come and go.
use libsigcplusplus.Prelude.{
  ℕ, suc, ◌+◌, ◌<◌, ◌≤◌, ◌≡◌, refl, sym, ap, ◌∙◌, subst, Bool, true, Option, none, some, List, [],
  ◌∷◌, ◌++◌, All, arith, ok, ok-injective,
}
use libsigcplusplus.Signal.Slot.{Rep, empty_slot, Event, destroy_slot}
use libsigcplusplus.Signal.Nodes.{Node}
use libsigcplusplus.Signal.Impl.{Impl, inc_short, erase_node}
use libsigcplusplus.Signal.Extension.{Distinct, RepLater, Later, Ext}
use libsigcplusplus.Signal.Walk.{has_id-Ext, deref-Ext, erase-Ext}
use libsigcplusplus.Signal.Erase.{remove_id, erase-remove_id, Distinct-remove_id, All-remove_id}
use libsigcplusplus.Signal.Invariant.{
  NodeOk, IdBelow, Wf, Quiet, Good, Distinct-append, All-append, All-map,
}
use libsigcplusplus.Signal.Turns.{turns}

-- The list and the count while the loop runs.
abbrev pub placeholder : ℕ → Node
placeholder i = record { id = i; slot = empty_slot }

abbrev pub opened : Impl → Impl
opened s = record s {
  slots = s.slots ++ placeholder s.next ∷ [];
  exec = inc_short s.exec;
  next = s.next + 1;
}

-- What the scope leaves before the count goes down: all of `Good` from `s` on, one level up, and `P`
-- of the nodes that were called at this level.
pub record Scoped (P : List ℕ → Type 0) (e : ℕ) (s t : Impl) : Type 0 where
  pub wf : Wf t
  pub exec : t.exec ≡ suc e
  pub next : s.next ≤ t.next
  pub ext : Ext s.slots t.slots
  pub log : Quiet e s.log t.log
  pub defers : s.deferred ≡ true → t.deferred ≡ true
  pub turn : P (turns (suc e) t.log)

pub opened-Wf : (s : Impl) → Wf s → Wf (opened s)
opened-Wf s wf = record {
  alive = wf.alive;
  distinct = Distinct-append s.slots (placeholder s.next) wf.distinct wf.below;
  below =
      All-append (IdBelow (s.next + 1)) s.slots (placeholder s.next ∷ [])
        (All-map (λ m k. omega arith) s.slots wf.below) (omega arith, tt);
  nodes = All-append (NodeOk s.deferred) s.slots (placeholder s.next ∷ []) wf.nodes (tt, tt);
}

destroy-placeholder :
    (i : ℕ) (n : Node) (log : List Event) → Later (placeholder i) n → destroy_slot n.slot log ≡ log
unfolding destroy_slot
destroy-placeholder i n log l = go n.slot.rep n.slot.blocked l.rep
  where
    go :
        (r : Option Rep) (b : Bool)
        → RepLater none r
        → destroy_slot (record { rep = r; blocked = b }) log ≡ log
    go none b h = refl
    go (some r) b h = absurd h

-- The placeholder goes away, and nothing else.
pub closing :
    (P : List ℕ → Type 0) (e : ℕ) (s t : Impl)
    → s.exec ≡ e
    → e + 1 < 65536
    → Good e (opened s) t
    → P (turns (suc e) t.log)
    → (u : Impl) × (erase_node s.next t ≡ ok u) × Scoped P e s u
unfolding erase_node
closing P e s t lvl small g turn =
    let (n, found, l) =
      deref-Ext (placeholder s.next) s.slots [] t.slots g.inner.ext g.wf.distinct in
    let (zs, gone, ext) =
      erase-Ext (placeholder s.next) s.slots t.slots g.inner.ext g.wf.distinct in
    let there = has_id-Ext (placeholder s.next) s.slots [] t.slots g.inner.ext in
    let is : remove_id s.next t.slots ≡ zs =
      ok-injective (sym (erase-remove_id s.next t.slots there) ∙ gone) in
    (
      record t { slots = zs },
      rw (found, gone)
          (ap (λ x. ok (record t { slots = zs; log = x })) (destroy-placeholder s.next n t.log l)),
      record {
        wf = record {
          alive = g.wf.alive;
          distinct = subst Distinct is (Distinct-remove_id s.next t.slots g.wf.distinct);
          below =
              subst (All (IdBelow t.next)) is
                (All-remove_id (IdBelow t.next) s.next t.slots g.wf.below);
          nodes =
              subst (All (NodeOk t.deferred)) is
                (All-remove_id (NodeOk t.deferred) s.next t.slots g.wf.nodes);
        };
        exec = g.inner.exec ∙ omega arith;
        next = omega (arith, g.inner.next);
        ext = ext;
        log = g.inner.log;
        defers = g.inner.defers;
        turn = turn;
      },
    )
