-- ===== src/World/Silence.antt =====
-- Slots that stay in the list of a signal without a functor, since an object died that they refer to.
use libsigcplusplus.Prelude.{
  ℕ, ◌<◌, ◌≡◌, refl, ap, Bool, true, false, Option, none, some, List, [], ◌∷◌, ◌==◌, arith,
  if◌then◌else◌, Bool-cases, inl, inr,
}
use libsigcplusplus.Signal.Slot.{Rep, Slot}
use libsigcplusplus.Signal.Nodes.{Node, update_slot, rep_disconnected}
use libsigcplusplus.Signal.Extension.{Distinct}
use libsigcplusplus.Signal.Invariant.{NodeOk, RepOk}
use libsigcplusplus.World.State.{node_targets, rep_destroyed}
use libsigcplusplus.World.Registry.{count, bound}
use libsigcplusplus.World.Slots.{bound-tail}

-- A rep after `disconnect` and `destroy`.
abbrev pub silent : (ℕ → List ℕ) → Slot → Slot
silent targets sl = rep_destroyed targets (rep_disconnected sl)

module _ (targets : ℕ → List ℕ) where
  pub update_slot-twice :
      (i : ℕ) (f g : Slot → Slot) (ns : List Node)
      → update_slot i g (update_slot i f ns) ≡ update_slot i (λ sl. g (f sl)) ns
  unfolding update_slot
  update_slot-twice i f g [] = refl
  update_slot-twice i f g (n ∷ ns) = ground (arith, update_slot-twice i f g ns)

  silent-targets :
      (n : Node) → node_targets targets (record n { slot = silent targets n.slot }) ≡ []
  silent-targets n = by_rep n.slot.rep n.slot.blocked
    where
      by_rep :
          (r : Option Rep) (b : Bool)
          → node_targets targets
              (record n { slot = silent targets (record { rep = r; blocked = b }) })
            ≡ []
      by_rep none b = refl
      by_rep (some r) b = refl

  pub NodeOk-destroyed :
      (d : Bool) (n : Node)
      → NodeOk d n
      → NodeOk d (record n { slot = rep_destroyed targets n.slot })
  NodeOk-destroyed d n h = by_rep n.slot.rep n.slot.blocked h
    where
      by_rep :
          (r : Option Rep) (b : Bool)
          → RepOk d n.id r
          → NodeOk d (record n { slot = rep_destroyed targets (record { rep = r; blocked = b }) })
      by_rep none b h = tt
      by_rep (some r) b (inl p, h) = (inl p, λ e. absurd (cc))
      by_rep (some r) b (inr (p, c, q), h) = (inr (p, refl, q), λ e. absurd (cc))

  module _ (o : ℕ) where
    -- The list with every slot that refers to the object silent.
    abbrev pub silenced : List Node → List Node
    silenced [] = []
    silenced (n ∷ ns) =
        (if count o (node_targets targets n) == 0
          then n
          else record n { slot = silent targets n.slot })
        ∷ silenced ns

    pub bound-silent :
        (r e : ℕ) (ns : List Node)
        → Distinct ns
        → bound targets e o (update_slot r (silent targets) ns)
          ≡ (if r == e then 0 else bound targets e o ns)
    unfolding update_slot
    bound-silent r e [] d = ground arith
    bound-silent r e (n ∷ ns) d = elim (Bool-cases (n.id == r)) [
      | inl hit ↦ rw hit (elim (Bool-cases (r == e)) [
        | inl same ↦
            let here : (n.id == e) ≡ true = ground (arith, hit, same) in
            rw (same, here) (ap (count o) (silent-targets n))
        | inr other ↦
            let away : (n.id == e) ≡ false = ground (arith, hit, other) in rw (other, away) refl
      ])
      | inr miss ↦ rw miss (ground (arith, bound-silent r e ns d.1))
    ]

    pub silenced-update :
        (r : ℕ) (ns : List Node)
        → 0 < bound targets r o ns
        → silenced (update_slot r (silent targets) ns) ≡ silenced ns
    unfolding update_slot
    silenced-update r [] h = refl
    silenced-update r (n ∷ ns) h = elim (Bool-cases (n.id == r)) [
      | inl hit ↦
          let here : (count o (node_targets targets n) == 0) ≡ false = ground (arith, hit) in
          rw (hit, ap (λ x. count o x) (silent-targets n), here) refl
      | inr miss ↦
          let rest = silenced-update r ns (ground (arith, miss)) in
          rw miss (
            ap
              (λ u.
                (if count o (node_targets targets n) == 0
                  then n
                  else record n { slot = silent targets n.slot })
                ∷ u)
              rest)
    ]

    pub silenced-none :
        (ns : List Node) → Distinct ns → ((r : ℕ) → bound targets r o ns ≡ 0) → silenced ns ≡ ns
    silenced-none [] d h = refl
    silenced-none (n ∷ ns) d h =
        let head : count o (node_targets targets n) ≡ 0 = ground (arith, h n.id) in
        rw head (ap (λ u. n ∷ u) (silenced-none ns d.1 (bound-tail targets o n ns d h)))
