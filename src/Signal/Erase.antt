-- ===== src/Signal/Erase.antt =====
-- What std::list::erase leaves of a slot list.
use libsigcplusplus.Prelude.{
  ℕ, ◌≡◌, refl, true, false, List, [], ◌∷◌, All, ◌==◌, arith, ok, Bool-cases, if◌then◌else◌, inl,
  inr,
}
use libsigcplusplus.Signal.Nodes.{Node, erase}
use libsigcplusplus.Signal.Extension.{has_id, Distinct}

abbrev pub remove_id : ℕ → List Node → List Node
remove_id i [] = []
remove_id i (n ∷ ns) = if n.id == i then ns else n ∷ remove_id i ns

pub erase-remove_id :
    (i : ℕ) (ns : List Node) → has_id i ns ≡ true → erase i ns ≡ ok (remove_id i ns)
unfolding erase
erase-remove_id i [] h = absurd (cc)
erase-remove_id i (n ∷ ns) h = elim (Bool-cases (n.id == i)) [
  | inl hit ↦ rw hit
  | inr miss ↦ rw (miss, erase-remove_id i ns (ground arith))
]

not-has_id-remove_id :
    (j i : ℕ) (ns : List Node) → has_id j ns ≡ false → has_id j (remove_id i ns) ≡ false
not-has_id-remove_id j i [] h = refl
not-has_id-remove_id j i (n ∷ ns) h = ground (arith, not-has_id-remove_id j i ns)

pub Distinct-remove_id : (i : ℕ) (ns : List Node) → Distinct ns → Distinct (remove_id i ns)
Distinct-remove_id i [] d = tt
Distinct-remove_id i (n ∷ ns) d =
    ground (arith, Distinct-remove_id i ns d.1, not-has_id-remove_id n.id i ns d.0)

pub All-remove_id : (P : Node → Type 0) (i : ℕ) (ns : List Node) → All P ns → All P (remove_id i ns)
All-remove_id P i [] h = tt
All-remove_id P i (n ∷ ns) h = ground (arith, All-remove_id P i ns h.1)
