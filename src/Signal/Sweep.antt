-- ===== src/Signal/Sweep.antt =====
-- The slots that signal_impl::sweep leaves.
use libsigcplusplus.Prelude.{
  ℕ, ◌≡◌, refl, ◌∙◌, Bool, true, false, not, inl, inr, Option, none, some, List, [], ◌∷◌, is_some,
  All, arith, Bool-cases,
}
use libsigcplusplus.Signal.Slot.{Rep, Slot, Event, empty, rep_callable, destroy_slot}
use libsigcplusplus.Signal.Nodes.{Node, keep_nonempty, destroy_empty}
use libsigcplusplus.Signal.Extension.{has_id, Distinct, HasRep}
use libsigcplusplus.Signal.Invariant.{RepOk, NodeOk}
use libsigcplusplus.Signal.Turns.{turns}

not-has_id-keep :
    (i : ℕ) (ns : List Node) → has_id i ns ≡ false → has_id i (keep_nonempty ns) ≡ false
unfolding keep_nonempty
not-has_id-keep i [] h = refl
not-has_id-keep i (n ∷ ns) h = ground (arith, not-has_id-keep i ns)

pub Distinct-keep : (ns : List Node) → Distinct ns → Distinct (keep_nonempty ns)
unfolding keep_nonempty
Distinct-keep [] d = tt
Distinct-keep (n ∷ ns) d = ground (arith, Distinct-keep ns d.1, not-has_id-keep n.id ns d.0)

pub All-keep : (P : Node → Type 0) (ns : List Node) → All P ns → All P (keep_nonempty ns)
unfolding keep_nonempty
All-keep P [] h = tt
All-keep P (n ∷ ns) h = ground (arith, All-keep P ns h.1)

NodeOk-nonempty :
    (d : Bool) (n : Node) → empty n.slot ≡ false → NodeOk d n → NodeOk false n × HasRep n
unfolding empty
NodeOk-nonempty d n e h = go n.slot.rep e h
  where
    go :
        (r : Option Rep)
        → not (rep_callable r) ≡ false
        → RepOk d n.id r
        → RepOk false n.id r × (is_some r ≡ true)
    go none e h = absurd (cc)
    go (some r) e h = ground arith

-- Every slot that is left is connected, and the placeholders are gone.
pub keep-linked :
    (d : Bool) (ns : List Node)
    → All (NodeOk d) ns
    → All (λ n. NodeOk false n × HasRep n) (keep_nonempty ns)
unfolding keep_nonempty
keep-linked d [] h = tt
keep-linked d (n ∷ ns) h = elim (Bool-cases (empty n.slot)) [
  | inl e ↦ rw e (keep-linked d ns h.1)
  | inr e ↦ rw e (NodeOk-nonempty d n e h.0, keep-linked d ns h.1)
]

turns-destroy_slot :
    (lvl : ℕ) (s : Slot) (log : List Event) → turns lvl (destroy_slot s log) ≡ turns lvl log
unfolding turns destroy_slot
turns-destroy_slot lvl s log = go s.rep s.blocked
  where
    go :
        (r : Option Rep) (b : Bool)
        → turns lvl (destroy_slot (record { rep = r; blocked = b }) log) ≡ turns lvl log
    go none b = refl
    go (some r) b = by_functor r.functor r.call r.parent
      where
        by_functor :
            (f : Option ℕ) (c : Bool) (p : Option ℕ)
            → turns lvl (
                destroy_slot
                  (record {
                    rep = some (record { call = c; functor = f; parent = p });
                    blocked = b;
                  })
                  log)
              ≡ turns lvl log
        by_functor none c p = refl
        by_functor (some f) c p = refl

pub turns-destroy_empty :
    (lvl : ℕ) (ns : List Node) (log : List Event) → turns lvl (destroy_empty ns log) ≡ turns lvl log
unfolding destroy_empty
turns-destroy_empty lvl [] log = refl
turns-destroy_empty lvl (n ∷ ns) log = elim (Bool-cases (empty n.slot)) [
  | inl e ↦
      rw e
        (turns-destroy_empty lvl ns (destroy_slot n.slot log) ∙ turns-destroy_slot lvl n.slot log)
  | inr e ↦ rw e (turns-destroy_empty lvl ns log)
]
