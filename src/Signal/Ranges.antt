-- ===== src/Signal/Ranges.antt =====
-- Iterators on the range of an emission, named by their places in it.
use mathlib.Core.List.{append_assoc}
use libsigcplusplus.Prelude.{
  ℕ, zero, suc, ◌≡◌, sym, ap, ◌∙◌, subst, true, false, some, List, [], ◌∷◌, ◌++◌, get_elem?, ◌==◌,
  some-injective, arith, ok, inl, inr,
}
use libsigcplusplus.Signal.Nodes.{Node, deref, next_iter}
use libsigcplusplus.Signal.Extension.{has_id, Distinct, Later, Prefix, Ext, Prefix-Ext}
use libsigcplusplus.Signal.Walk.{other, has_id-Ext, deref-Ext, next_iter-Ext}
use libsigcplusplus.Signal.Accumulate.{prev_from, prev_iter}

-- What stands in front of a place, and behind it.
split :
    (p : ℕ) (m : Node) (xs : List Node)
    → get_elem? xs p ≡ some m
    → (pre : List Node) × (rest : List Node) × (xs ≡ pre ++ m ∷ rest)
split p m [] e = absurd (cc)
split zero m (x ∷ xs) e = ([], xs, ap (λ y. y ∷ xs) (some-injective e))
split (suc p) m (x ∷ xs) e =
    let (pre, rest, h) = split p m xs e in (x ∷ pre, rest, ap (λ ys. x ∷ ys) h)

split_two :
    (p : ℕ) (m n : Node) (xs : List Node)
    → get_elem? xs p ≡ some m
    → get_elem? xs (suc p) ≡ some n
    → (pre : List Node) × (rest : List Node) × (xs ≡ pre ++ m ∷ n ∷ rest)
split_two p m n [] e d = absurd (cc)
split_two zero m n (x ∷ []) e d = absurd (cc)
split_two zero m n (x ∷ y ∷ xs) e d = ([], xs, λ j. some-injective e j ∷ some-injective d j ∷ xs)
split_two (suc p) m n (x ∷ xs) e d =
    let (pre, rest, h) = split_two p m n xs e d in (x ∷ pre, rest, ap (λ ys. x ∷ ys) h)

module _ (m x : Node) (rest : List Node) where
  -- The node that came before is before it still.
  abbrev Before : List Node → Type 0
  Before ys =
      (prev_iter (some m.id) ys ≡ ok (some x.id)) × ((q : ℕ) → prev_from q m.id ys ≡ ok (some x.id))

  there-Prefix : (pre ys : List Node) → Prefix (pre ++ x ∷ m ∷ rest) ys → has_id m.id ys ≡ true
  there-Prefix pre ys p =
      has_id-Ext m (pre ++ x ∷ []) rest ys
        (subst (λ l. Ext l ys) (sym (append_assoc pre (x ∷ []) (m ∷ rest))) (Prefix-Ext _ ys p))

  later-Before : (n : Node) (ys : List Node) → (n.id == m.id) ≡ false → Before ys → Before (n ∷ ys)
  unfolding prev_iter
  later-Before n ys o h = (rw o (h.1 n.id), λ q. rw o (h.1 n.id))

  prev-Prefix : (pre ys : List Node) → Prefix (pre ++ x ∷ m ∷ rest) ys → Distinct ys → Before ys
  unfolding prev_iter
  prev-Prefix [] [] p d = absurd p
  prev-Prefix [] (n ∷ []) p d = absurd p.1
  prev-Prefix [] (n ∷ n' ∷ ys) p d =
      let o = other n m.id (n' ∷ ys) d.0 (ground (arith, p.1.0.same)) in
      (
        rw o (ground (arith, p.0.same, p.1.0.same)),
        λ q. rw o (ground (arith, p.0.same, p.1.0.same)),
      )
  prev-Prefix (_ ∷ pre) [] p d = absurd p
  prev-Prefix (_ ∷ pre) (n ∷ ys) p d =
      later-Before n ys (other n m.id ys d.0 (there-Prefix pre ys p.1)) (prev-Prefix pre ys p.1 d.1)

  prev-Ext : (pre ys : List Node) → Ext (pre ++ x ∷ m ∷ rest) ys → Distinct ys → Before ys
  prev-Ext pre [] p d = prev-Prefix pre [] p d
  prev-Ext pre (n ∷ ys) (inl p) d = prev-Prefix pre (n ∷ ys) p d
  prev-Ext pre (n ∷ ys) (inr (h, e)) d =
      later-Before n ys
        (other n m.id ys d.0 (
          has_id-Ext m (pre ++ x ∷ []) rest ys
            (subst (λ l. Ext l ys) (sym (append_assoc pre (x ∷ []) (m ∷ rest))) e)))
        (prev-Ext pre ys e d.1)

pub deref-at :
    (p : ℕ) (m : Node) (xs ys : List Node)
    → get_elem? xs p ≡ some m
    → Ext xs ys
    → Distinct ys
    → (n : Node) × (deref m.id ys ≡ ok n) × Later m n
deref-at p m xs ys e x d =
    let (pre, rest, h) = split p m xs e in deref-Ext m pre rest ys (subst (λ l. Ext l ys) h x) d

pub next_iter-at :
    (p : ℕ) (m n : Node) (xs ys : List Node)
    → get_elem? xs p ≡ some m
    → get_elem? xs (suc p) ≡ some n
    → Ext xs ys
    → Distinct ys
    → next_iter m.id ys ≡ ok (some n.id)
next_iter-at p m n xs ys e f x d =
    let (pre, rest, h) = split_two p m n xs e f in
    next_iter-Ext m pre rest ys n (subst (λ l. Ext l ys) h x) d

pub prev_iter-at :
    (p : ℕ) (m n : Node) (xs ys : List Node)
    → get_elem? xs p ≡ some m
    → get_elem? xs (suc p) ≡ some n
    → Ext xs ys
    → Distinct ys
    → prev_iter (some n.id) ys ≡ ok (some m.id)
prev_iter-at p m n xs ys e f x d =
    let (pre, rest, h) = split_two p m n xs e f in
    (prev-Ext n m rest pre ys (subst (λ l. Ext l ys) h x) d).0

has_id-at : (p : ℕ) (m : Node) (xs : List Node) → get_elem? xs p ≡ some m → has_id m.id xs ≡ true
has_id-at p m [] e = absurd (cc)
has_id-at zero m (x ∷ xs) e = let h : x ≡ m = some-injective e in ground (arith, h)
has_id-at (suc p) m (x ∷ xs) e = ground (arith, has_id-at p m xs e)

-- Two iterators are equal if their places are.
pub same-at :
    (p q : ℕ) (m n : Node) (xs : List Node)
    → get_elem? xs p ≡ some m
    → get_elem? xs q ≡ some n
    → Distinct xs
    → (m.id == n.id) ≡ (p == q)
same-at p q m n [] e f d = absurd (cc)
same-at zero zero m n (x ∷ xs) e f d =
    let h : m ≡ n = some-injective (sym e ∙ f) in ground (arith, h)
same-at zero (suc q) m n (x ∷ xs) e f d =
    let h : x ≡ m = some-injective e in
    let o = other x n.id xs d.0 (has_id-at q n xs f) in ground (arith, h, o)
same-at (suc p) zero m n (x ∷ xs) e f d =
    let h : x ≡ n = some-injective f in
    let o = other x m.id xs d.0 (has_id-at p m xs e) in ground (arith, h, o)
same-at (suc p) (suc q) m n (x ∷ xs) e f d = same-at p q m n xs e f d.1 ∙ ground arith
