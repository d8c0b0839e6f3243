-- ===== src/World/Shown.antt =====
-- How the changes of the list look to a program.
use libsigcplusplus.Prelude.{
  ℕ, suc, ◌≡◌, refl, sym, ap, Bool, false, Option, none, some, List, [], ◌∷◌, ◌++◌, ◌==◌, arith,
  if◌then◌else◌, Bool-cases, inl, inr,
}
use libsigcplusplus.Signal.Nodes.{Node, update_slot}
use libsigcplusplus.Signal.Emit.{functor_of, set_blocked}
use libsigcplusplus.Signal.Extension.{has_id}
use libsigcplusplus.Signal.Erase.{remove_id}
use libsigcplusplus.Signal.Invariant.{map_slots}
use libsigcplusplus.World.Registry.{count}
use libsigcplusplus.World.Slots.{without}
use libsigcplusplus.World.State.{set, node_targets}
use libsigcplusplus.World.Invalidate.{present}
use libsigcplusplus.World.Spec.{View, shown, among, drop_entry, still, avoid}

among-shown : (i : ℕ) (ns : List Node) → among i (shown ns) ≡ has_id i ns
among-shown i [] = refl
among-shown i (n ∷ ns) = ground (arith, among-shown i ns)

pub shown-remove_id : (i : ℕ) (ns : List Node) → shown (remove_id i ns) ≡ drop_entry i (shown ns)
shown-remove_id i [] = refl
shown-remove_id i (n ∷ ns) = elim (Bool-cases (n.id == i)) [
  | inl hit ↦ rw hit refl
  | inr miss ↦ rw miss (ap (λ es. (n.id, functor_of n.slot.rep) ∷ es) (shown-remove_id i ns))
]

pub shown-append :
    (ns : List Node) (n : Node)
    → shown (ns ++ n ∷ []) ≡ shown ns ++ (n.id, functor_of n.slot.rep) ∷ []
shown-append [] n = refl
shown-append (m ∷ ns) n = ap (λ es. (m.id, functor_of m.slot.rep) ∷ es) (shown-append ns n)

pub shown-without :
    (targets : ℕ → List ℕ) (o : ℕ) (ns : List Node)
    → shown (without targets o ns) ≡ avoid targets o (shown ns)
shown-without targets o [] = refl
shown-without targets o (n ∷ ns) = elim (Bool-cases (count o (node_targets targets n) == 0)) [
  | inl z ↦ rw z (ap (λ es. (n.id, functor_of n.slot.rep) ∷ es) (shown-without targets o ns))
  | inr z ↦ rw z (shown-without targets o ns)
]

pub shown-map_blocked :
    (b : Bool) (ns : List Node) → shown (map_slots (set_blocked b) ns) ≡ shown ns
shown-map_blocked b [] = refl
shown-map_blocked b (n ∷ ns) =
    ap (λ es. (n.id, functor_of n.slot.rep) ∷ es) (shown-map_blocked b ns)

pub shown-update_blocked :
    (i : ℕ) (b : Bool) (ns : List Node) → shown (update_slot i (set_blocked b) ns) ≡ shown ns
unfolding update_slot
shown-update_blocked i b [] = refl
shown-update_blocked i b (n ∷ ns) = elim (Bool-cases (n.id == i)) [
  | inl hit ↦ rw hit refl
  | inr miss ↦ rw miss (ap (λ es. (n.id, functor_of n.slot.rep) ∷ es) (shown-update_blocked i b ns))
]

pub still-shown : (ns : List Node) (c : Option ℕ) → present ns c ≡ still (shown ns) c
still-shown ns none = refl
still-shown ns (some i) = ap (λ b. if b then some i else none) (sym (among-shown i ns))

-- A connection of the program that is changed.
pub set-refs :
    (c : ℕ) (v : Option ℕ) (g : ℕ → Option ℕ) (d : ℕ)
    → set (suc c) v g (suc d) ≡ set c v (λ k. g (suc k)) d
set-refs c v g d = ap (λ b. if b then v else g (suc d)) same
  where
    same : (suc d == suc c) ≡ (d == c)
    same = ground arith

-- The local connection changed, which the program does not see.
pub set-local : (v : Option ℕ) (g : ℕ → Option ℕ) (d : ℕ) → set 0 v g (suc d) ≡ g (suc d)
set-local v g d = ap (λ b. if b then v else g (suc d)) other
  where
    other : (suc d == 0) ≡ false
    other = ground arith

-- Two views that agree.
pub View-same :
    (u v : View) → u.entries ≡ v.entries → ((c : ℕ) → u.refs c ≡ v.refs c) → u.next ≡ v.next → u ≡ v
View-same u v p q r = λ i. record { entries = p i; refs = λ c. q c i; next = r i }
