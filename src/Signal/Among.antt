-- ===== src/Signal/Among.antt =====
-- The nodes that an emission with an accumulator calls: any of the list that could be called.
use mathlib.Core.List.{append_assoc}
use libsigcplusplus.Prelude.{
  ℕ, zero, suc, ◌≡◌, refl, sym, ap, ◌∙◌, Bool, true, false, ◌&&◌, ◌||◌, inl, inr, some, List, [],
  ◌∷◌, ◌++◌, get_elem?, All, ◌==◌, arith, some-injective,
}
use libsigcplusplus.Signal.Slot.{rep_callable}
use libsigcplusplus.Signal.Nodes.{Node}
use libsigcplusplus.Signal.Impl.{Impl}
use libsigcplusplus.Signal.Invariant.{All-append}
use libsigcplusplus.Signal.Turns.{turns, Turn}
use libsigcplusplus.Signal.Scope.{placeholder}

-- A node of the list that could be called.
abbrev pub callable_in : ℕ → List Node → Bool
callable_in i [] = false
callable_in i (n ∷ ns) = ((n.id == i) && rep_callable n.slot.rep) || callable_in i ns

callable_in-at :
    (p : ℕ) (m : Node) (xs : List Node)
    → get_elem? xs p ≡ some m
    → rep_callable m.slot.rep ≡ true
    → callable_in m.id xs ≡ true
callable_in-at p m [] e c = absurd (cc)
callable_in-at zero m (x ∷ xs) e c = let h : x ≡ m = some-injective e in ground (arith, h, c)
callable_in-at (suc p) m (x ∷ xs) e c = ground (arith, callable_in-at p m xs e c)

-- What a level has called between two states: callable nodes of the list, in any order.
abbrev pub Among : ℕ → List Node → Impl → List ℕ → Type 0
Among lvl base s l =
    (is : List ℕ) × All (λ i. callable_in i base ≡ true) is × (l ≡ is ++ turns lvl s.log)

pub Among-refl : (lvl : ℕ) (base : List Node) (s : Impl) → Among lvl base s (turns lvl s.log)
Among-refl lvl base s = ([], tt, refl)

pub Among-trans :
    (lvl : ℕ) (base : List Node) (s t : Impl) (l : List ℕ)
    → Among lvl base s (turns lvl t.log)
    → Among lvl base t l
    → Among lvl base s l
Among-trans lvl base s t l (is, h, e) (js, k, f) = (
  js ++ is,
  All-append (λ i. callable_in i base ≡ true) js is k h,
  f ∙ (ap (λ x. js ++ x) e ∙ sym (append_assoc js is (turns lvl s.log))),
)

pub Turn-Among :
    (e p : ℕ) (m : Node) (base : List Node) (s t : Impl)
    → get_elem? base p ≡ some m
    → Turn e m s t
    → Among e base s (turns e t.log)
Turn-Among e p m base s t at (inl h) = ([], tt, h)
Turn-Among e p m base s t at (inr (c, h)) = (m.id ∷ [], (callable_in-at p m base at c, tt), h)

callable_in-placeholder :
    (i j : ℕ) (xs : List Node) → callable_in i (xs ++ placeholder j ∷ []) ≡ callable_in i xs
callable_in-placeholder i j [] = ground arith
callable_in-placeholder i j (x ∷ xs) = ground (arith, callable_in-placeholder i j xs)

pub Among-slots :
    (lvl j : ℕ) (xs : List Node) (s : Impl) (l : List ℕ)
    → Among lvl (xs ++ placeholder j ∷ []) s l
    → Among lvl xs s l
Among-slots lvl j xs s l (is, h, e) = (is, each is h, e)
  where
    each :
        (is : List ℕ)
        → All (λ i. callable_in i (xs ++ placeholder j ∷ []) ≡ true) is
        → All (λ i. callable_in i xs ≡ true) is
    each [] h = tt
    each (i ∷ is) h = (sym (callable_in-placeholder i j xs) ∙ h.0, each is h.1)
