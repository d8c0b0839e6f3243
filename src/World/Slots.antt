-- ===== src/World/Slots.antt =====
-- The slots that refer to an object, when one slot is erased.
use libsigcplusplus.Prelude.{
  ℕ, ◌<◌, ◌≡◌, refl, ap, subst, true, false, not, ◌&&◌, List, [], ◌∷◌, ◌==◌, arith, if◌then◌else◌,
  Bool-cases, inl, inr, ok, ok-injective,
}
use libsigcplusplus.Signal.Nodes.{Node, deref}
use libsigcplusplus.Signal.Emit.{has}
use libsigcplusplus.Signal.Extension.{has_id, Distinct}
use libsigcplusplus.Signal.Erase.{remove_id}
use libsigcplusplus.World.State.{node_targets}
use libsigcplusplus.World.Registry.{count, bound}

pub has-has_id : (i : ℕ) (ns : List Node) → has i ns ≡ has_id i ns
unfolding deref
has-has_id i [] = refl
has-has_id i (n ∷ ns) = ground (arith, has-has_id i ns)

pub has_id-deref : (i : ℕ) (ns : List Node) → has_id i ns ≡ true → (n : Node) × (deref i ns ≡ ok n)
unfolding deref
has_id-deref i [] h = absurd (cc)
has_id-deref i (x ∷ ns) h = elim (Bool-cases (x.id == i)) [
  | inl hit ↦ (x, ground arith)
  | inr miss ↦ let (n, e) = has_id-deref i ns (ground arith) in (n, ground (arith, e))
]

pub has_id-remove_id :
    (j i : ℕ) (ns : List Node)
    → Distinct ns
    → has_id j (remove_id i ns) ≡ (has_id j ns && not (j == i))
has_id-remove_id j i [] d = refl
has_id-remove_id j i (n ∷ ns) d = elim (Bool-cases (n.id == i)) [
  | inl hit ↦ rw hit (elim (Bool-cases (j == i)) [
    | inl e ↦
        let gone : has_id j ns ≡ false = subst (λ k. has_id k ns ≡ false) (ground arith) d.0 in
        rw (gone, e) (ground arith)
    | inr e ↦ ground arith
  ])
  | inr miss ↦ rw miss (ground (arith, has_id-remove_id j i ns d.1))
]

module _ (targets : ℕ → List ℕ) (o : ℕ) where
  pub bound-absent : (r : ℕ) (ns : List Node) → has_id r ns ≡ false → bound targets r o ns ≡ 0
  bound-absent r [] h = refl
  bound-absent r (n ∷ ns) h = ground (arith, bound-absent r ns)

  pub bound-remove_id :
      (r e : ℕ) (ns : List Node)
      → Distinct ns
      → bound targets e o (remove_id r ns) ≡ (if r == e then 0 else bound targets e o ns)
  bound-remove_id r e [] d = ground arith
  bound-remove_id r e (n ∷ ns) d = elim (Bool-cases (n.id == r)) [
    | inl hit ↦ rw hit (elim (Bool-cases (r == e)) [
      | inl same ↦ rw same (bound-absent e ns (subst (λ k. has_id k ns ≡ false) (ground arith) d.0))
      | inr other ↦ ground arith
    ])
    | inr miss ↦ rw miss (ground (arith, bound-remove_id r e ns d.1))
  ]

  pub bound-deref :
      (r : ℕ) (n : Node) (ns : List Node)
      → deref r ns ≡ ok n
      → bound targets r o ns ≡ count o (node_targets targets n)
  unfolding deref
  bound-deref r n [] h = absurd (cc)
  bound-deref r n (x ∷ ns) h = elim (Bool-cases (x.id == r)) [
    | inl hit ↦ rw hit (ap (λ m. count o (node_targets targets m)) (ok-injective (rw hit at h)))
    | inr miss ↦ rw miss (bound-deref r n ns (rw miss at h))
  ]

  -- A slot that refers to an object is there.
  pub bound-found :
      (r : ℕ) (ns : List Node) → 0 < bound targets r o ns → (n : Node) × (deref r ns ≡ ok n)
  unfolding deref
  bound-found r [] h = absurd (omega arith)
  bound-found r (x ∷ ns) h = elim (Bool-cases (x.id == r)) [
    | inl hit ↦ (x, rw hit)
    | inr miss ↦ let (n, e) = bound-found r ns (ground arith) in (n, ground (arith, e))
  ]

  -- The slots that do not refer to the object.
  abbrev pub without : List Node → List Node
  without [] = []
  without (n ∷ ns) = if count o (node_targets targets n) == 0 then n ∷ without ns else without ns

  pub without-remove_id :
      (r : ℕ) (ns : List Node) → 0 < bound targets r o ns → without (remove_id r ns) ≡ without ns
  without-remove_id r [] h = refl
  without-remove_id r (n ∷ ns) h = elim (Bool-cases (n.id == r)) [
    | inl hit ↦ ground arith
    | inr miss ↦
        let rest = without-remove_id r ns (ground arith) in
        rw miss (ap (λ u. if count o (node_targets targets n) == 0 then n ∷ u else u) rest)
  ]

  pub bound-tail :
      (n : Node) (ns : List Node)
      → Distinct (n ∷ ns)
      → ((r : ℕ) → bound targets r o (n ∷ ns) ≡ 0)
      → (r : ℕ) → bound targets r o ns ≡ 0
  bound-tail n ns d h r = elim (Bool-cases (n.id == r)) [
    | inl hit ↦ bound-absent r ns (subst (λ k. has_id k ns ≡ false) (ground arith) d.0)
    | inr miss ↦ ground (arith, h r)
  ]

  pub without-none :
      (ns : List Node) → Distinct ns → ((r : ℕ) → bound targets r o ns ≡ 0) → without ns ≡ ns
  without-none [] d h = refl
  without-none (n ∷ ns) d h =
      let head : count o (node_targets targets n) ≡ 0 = ground (arith, h n.id) in
      rw head (ap (λ u. n ∷ u) (without-none ns d.1 (bound-tail n ns d h)))
