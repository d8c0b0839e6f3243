-- ===== src/Signal/Extension.antt =====
-- How the slot list of a signal changes while it is emitting: slots are added at the two ends, none
-- goes away, and a slot that is there may be disconnected.
use libsigcplusplus.Prelude.{
  inl, inr, ◌⊎◌, ℕ, ◌≡◌, refl, ◌∙◌, Bool, true, false, ◌||◌, Option, none, some, List, [], ◌∷◌,
  ◌++◌, is_some, All, ◌==◌,
}
use libsigcplusplus.Signal.Slot.{Rep}
use libsigcplusplus.Signal.Nodes.{Node}

abbrev pub has_id : ℕ → List Node → Bool
has_id i [] = false
has_id i (n ∷ ns) = (n.id == i) || has_id i ns

abbrev pub Distinct : List Node → Type 0
Distinct [] = Unit {0}
Distinct (n ∷ ns) = (has_id n.id ns ≡ false) × Distinct ns

abbrev pub RepLater : Option Rep → Option Rep → Type 0
RepLater none none = Unit {0}
RepLater none (some q) = ⊥
RepLater (some r) none = ⊥
RepLater (some r) (some q) = (q.functor ≡ r.functor) × (q.call ≡ true → r.call ≡ true)

pub RepLater-refl : (r : Option Rep) → RepLater r r
RepLater-refl none = tt
RepLater-refl (some r) = (refl, λ h. h)

RepLater-trans : (p q r : Option Rep) → RepLater p q → RepLater q r → RepLater p r
RepLater-trans none none none h k = tt
RepLater-trans none none (some r) h k = k
RepLater-trans none (some q) r h k = absurd h
RepLater-trans (some p) none r h k = absurd h
RepLater-trans (some p) (some q) none h k = k
RepLater-trans (some p) (some q) (some r) h k = (k.0 ∙ h.0, λ e. h.1 (k.1 e))

-- The same slot later on.
pub record Later (m n : Node) : Type 0 where
  pub same : n.id ≡ m.id
  pub rep : RepLater m.slot.rep n.slot.rep

pub Later-refl : (n : Node) → Later n n
Later-refl n = record { same = refl; rep = RepLater-refl n.slot.rep }

Later-trans : {l m n : Node} → Later l m → Later m n → Later l n
Later-trans {l} {m} {n} h k = record {
  same = k.same ∙ h.same;
  rep = RepLater-trans l.slot.rep m.slot.rep n.slot.rep h.rep k.rep;
}

abbrev pub HasRep : Node → Type 0
HasRep n = is_some n.slot.rep ≡ true

-- `Prefix xs ys`: `ys` is `xs` later on, and new slots behind. `Ext`: new slots in front too.
abbrev pub Prefix : List Node → List Node → Type 0
Prefix [] ys = All HasRep ys
Prefix (m ∷ xs) [] = ⊥
Prefix (m ∷ xs) (n ∷ ys) = Later m n × Prefix xs ys

abbrev pub Ext : List Node → List Node → Type 0
Ext xs [] = Prefix xs []
Ext xs (n ∷ ys) = Prefix xs (n ∷ ys) ⊎ (HasRep n × Ext xs ys)

HasRep-Later : (m n : Node) → Later m n → HasRep m → HasRep n
HasRep-Later m n l h = go m.slot.rep n.slot.rep l.rep h
  where
    go : (p q : Option Rep) → RepLater p q → is_some p ≡ true → is_some q ≡ true
    go none none r e = e
    go none (some q) r e = absurd r
    go (some p) none r e = absurd r
    go (some p) (some q) r e = refl

Prefix-HasRep : (xs ys : List Node) → Prefix xs ys → All HasRep xs → All HasRep ys
Prefix-HasRep [] ys p a = p
Prefix-HasRep (x ∷ xs) [] p a = absurd p
Prefix-HasRep (x ∷ xs) (y ∷ ys) p a = (HasRep-Later x y p.0 a.0, Prefix-HasRep xs ys p.1 a.1)

Prefix-trans : (xs ys zs : List Node) → Prefix xs ys → Prefix ys zs → Prefix xs zs
Prefix-trans [] ys zs p q = Prefix-HasRep ys zs q p
Prefix-trans (x ∷ xs) [] zs p q = absurd p
Prefix-trans (x ∷ xs) (y ∷ ys) [] p q = absurd q
Prefix-trans (x ∷ xs) (y ∷ ys) (z ∷ zs) p q = (Later-trans p.0 q.0, Prefix-trans xs ys zs p.1 q.1)

pub Prefix-Ext : (xs ys : List Node) → Prefix xs ys → Ext xs ys
Prefix-Ext xs [] p = p
Prefix-Ext xs (y ∷ ys) p = inl p

Ext-Prefix : (xs ys zs : List Node) → Ext xs ys → Prefix ys zs → Ext xs zs
Ext-Prefix xs [] zs e q = Prefix-Ext xs zs (Prefix-trans xs [] zs e q)
Ext-Prefix xs (y ∷ ys) [] e q = absurd q
Ext-Prefix xs (y ∷ ys) (z ∷ zs) (inl p) q = inl (Prefix-trans xs (y ∷ ys) (z ∷ zs) p q)
Ext-Prefix xs (y ∷ ys) (z ∷ zs) (inr (h, e)) q =
    inr (HasRep-Later y z q.0 h, Ext-Prefix xs ys zs e q.1)

pub Ext-trans : (xs ys zs : List Node) → Ext xs ys → Ext ys zs → Ext xs zs
Ext-trans xs ys [] e q = Ext-Prefix xs ys [] e q
Ext-trans xs ys (z ∷ zs) e (inl q) = Ext-Prefix xs ys (z ∷ zs) e q
Ext-trans xs ys (z ∷ zs) e (inr (h, d)) = inr (h, Ext-trans xs ys zs e d)

pub Prefix-refl : (xs : List Node) → Prefix xs xs
Prefix-refl [] = tt
Prefix-refl (x ∷ xs) = (Later-refl x, Prefix-refl xs)

pub Ext-refl : (xs : List Node) → Ext xs xs
Ext-refl xs = Prefix-Ext xs xs (Prefix-refl xs)

Prefix-append : (xs ys : List Node) → All HasRep ys → Prefix xs (xs ++ ys)
Prefix-append [] ys h = h
Prefix-append (x ∷ xs) ys h = (Later-refl x, Prefix-append xs ys h)

pub Ext-append : (xs ys : List Node) → All HasRep ys → Ext xs (xs ++ ys)
Ext-append xs ys h = Prefix-Ext xs (xs ++ ys) (Prefix-append xs ys h)

pub Ext-HasRep : (xs ys : List Node) → Ext xs ys → All HasRep xs → All HasRep ys
Ext-HasRep xs [] p a = Prefix-HasRep xs [] p a
Ext-HasRep xs (y ∷ ys) (inl p) a = Prefix-HasRep xs (y ∷ ys) p a
Ext-HasRep xs (y ∷ ys) (inr (h, e)) a = (h, Ext-HasRep xs ys e a)
