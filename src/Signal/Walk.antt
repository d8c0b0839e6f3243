-- ===== src/Signal/Walk.antt =====
-- Iterators on a list that has been extended stay valid and lead on in the same order.
use mathlib.Core.Bool.{false≢true}
use libsigcplusplus.Prelude.{
  ℕ, ◌≡◌, sym, ap, ◌∙◌, true, false, inl, inr, some, List, [], ◌∷◌, ◌++◌, Bool-cases, ◌==◌, arith,
  ok,
}
use libsigcplusplus.Signal.Nodes.{Node, deref, next_iter, erase}
use libsigcplusplus.Signal.Extension.{has_id, Distinct, Later, Prefix, Ext, Prefix-Ext}

-- The node of a distinct list that comes in front is another one.
pub other :
    (n : Node) (i : ℕ) (ys : List Node)
    → has_id n.id ys ≡ false
    → has_id i ys ≡ true
    → (n.id == i) ≡ false
other n i ys h k = elim (Bool-cases (n.id == i)) [
  | inl e ↦ absurd (false≢true (sym h ∙ (ap (λ j. has_id j ys) (ground arith) ∙ k)))
  | inr e ↦ e
]

module _ (m : Node) where
  has_id-Prefix : (pre xs ys : List Node) → Prefix (pre ++ m ∷ xs) ys → has_id m.id ys ≡ true
  has_id-Prefix [] xs [] p = absurd p
  has_id-Prefix [] xs (n ∷ ys) p = ground (arith, p.0.same)
  has_id-Prefix (_ ∷ pre) xs [] p = absurd p
  has_id-Prefix (_ ∷ pre) xs (n ∷ ys) p = ground (arith, has_id-Prefix pre xs ys p.1)

  pub has_id-Ext : (pre xs ys : List Node) → Ext (pre ++ m ∷ xs) ys → has_id m.id ys ≡ true
  has_id-Ext pre xs [] e = has_id-Prefix pre xs [] e
  has_id-Ext pre xs (n ∷ ys) (inl p) = has_id-Prefix pre xs (n ∷ ys) p
  has_id-Ext pre xs (n ∷ ys) (inr (h, e)) = ground (arith, has_id-Ext pre xs ys e)

  deref-Prefix :
      (pre xs ys : List Node)
      → Prefix (pre ++ m ∷ xs) ys
      → Distinct ys
      → (n : Node) × (deref m.id ys ≡ ok n) × Later m n
  unfolding deref
  deref-Prefix [] xs [] p d = absurd p
  deref-Prefix [] xs (n ∷ ys) p d = (n, ground (arith, p.0.same), p.0)
  deref-Prefix (_ ∷ pre) xs [] p d = absurd p
  deref-Prefix (_ ∷ pre) xs (n ∷ ys) p d =
      let (n', e', l') = deref-Prefix pre xs ys p.1 d.1 in
      (n', rw (other n m.id ys d.0 (has_id-Prefix pre xs ys p.1)) e', l')

  -- The node is still there, and is the same slot later on.
  pub deref-Ext :
      (pre xs ys : List Node)
      → Ext (pre ++ m ∷ xs) ys
      → Distinct ys
      → (n : Node) × (deref m.id ys ≡ ok n) × Later m n
  unfolding deref
  deref-Ext pre xs [] p d = deref-Prefix pre xs [] p d
  deref-Ext pre xs (n ∷ ys) (inl p) d = deref-Prefix pre xs (n ∷ ys) p d
  deref-Ext pre xs (n ∷ ys) (inr (h, e)) d =
      let (n', e', l) = deref-Ext pre xs ys e d.1 in
      (n', rw (other n m.id ys d.0 (has_id-Ext pre xs ys e)) e', l)

  next_iter-Prefix :
      (pre xs ys : List Node) (x : Node)
      → Prefix (pre ++ m ∷ x ∷ xs) ys
      → Distinct ys
      → next_iter m.id ys ≡ ok (some x.id)
  unfolding next_iter
  next_iter-Prefix [] xs [] x p d = absurd p
  next_iter-Prefix [] xs (n ∷ []) x p d = absurd p.1
  next_iter-Prefix [] xs (n ∷ n' ∷ ys) x p d = ground (arith, p.0.same, p.1.0.same)
  next_iter-Prefix (_ ∷ pre) xs [] x p d = absurd p
  next_iter-Prefix (_ ∷ pre) xs (n ∷ ys) x p d =
      rw (other n m.id ys d.0 (has_id-Prefix pre (x ∷ xs) ys p.1))
        (next_iter-Prefix pre xs ys x p.1 d.1)

  -- It leads on to the node that came next.
  pub next_iter-Ext :
      (pre xs ys : List Node) (x : Node)
      → Ext (pre ++ m ∷ x ∷ xs) ys
      → Distinct ys
      → next_iter m.id ys ≡ ok (some x.id)
  unfolding next_iter
  next_iter-Ext pre xs [] x p d = next_iter-Prefix pre xs [] x p d
  next_iter-Ext pre xs (n ∷ ys) x (inl p) d = next_iter-Prefix pre xs (n ∷ ys) x p d
  next_iter-Ext pre xs (n ∷ ys) x (inr (h, e)) d =
      rw (other n m.id ys d.0 (has_id-Ext pre (x ∷ xs) ys e)) (next_iter-Ext pre xs ys x e d.1)

  erase-Prefix :
      (xs ys : List Node)
      → Prefix (xs ++ m ∷ []) ys
      → Distinct ys
      → (zs : List Node) × (erase m.id ys ≡ ok zs) × Prefix xs zs
  unfolding erase
  erase-Prefix [] [] p d = absurd p
  erase-Prefix [] (n ∷ ys) p d = (ys, ground (arith, p.0.same), p.1)
  erase-Prefix (x ∷ xs) [] p d = absurd p
  erase-Prefix (x ∷ xs) (n ∷ ys) p d =
      let (zs, e, q) = erase-Prefix xs ys p.1 d.1 in
      (n ∷ zs, rw (other n m.id ys d.0 (has_id-Prefix xs [] ys p.1), e), (p.0, q))

  -- The last node, wherever it now stands, can be erased.
  pub erase-Ext :
      (xs ys : List Node)
      → Ext (xs ++ m ∷ []) ys
      → Distinct ys
      → (zs : List Node) × (erase m.id ys ≡ ok zs) × Ext xs zs
  unfolding erase
  erase-Ext xs [] p d = let (zs, e, q) = erase-Prefix xs [] p d in (zs, e, Prefix-Ext xs zs q)
  erase-Ext xs (n ∷ ys) (inl p) d =
      let (zs, e, q) = erase-Prefix xs (n ∷ ys) p d in (zs, e, Prefix-Ext xs zs q)
  erase-Ext xs (n ∷ ys) (inr (h, e)) d =
      let (zs, g, q) = erase-Ext xs ys e d.1 in
      (n ∷ zs, rw (other n m.id ys d.0 (has_id-Ext xs [] ys e), g), inr (h, q))
