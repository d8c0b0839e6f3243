-- ===== src/Signal/Invariant.antt =====
-- The invariant of signal_impl, and what a functor may change while the signal is emitting.
use libsigcplusplus.Prelude.{
  ℕ, ◌<◌, ◌≤◌, ◌≡◌, refl, ◌∙◌, Bool, true, false, ◌||◌, ◌⊎◌, Option, none, some, List, [], ◌∷◌,
  ◌++◌, is_some, All, ◌==◌, arith,
}
use libsigcplusplus.Signal.Slot.{Rep, Slot, Event, called}
use libsigcplusplus.Signal.Nodes.{Node, update_slot}
use libsigcplusplus.Signal.Impl.{Impl}
use libsigcplusplus.Signal.Extension.{
  has_id, Distinct, RepLater, Later-refl, Prefix, Prefix-refl, Ext, Ext-trans, Ext-refl,
}

-- A rep names its own position, or it has been disconnected and a sweep is due.
abbrev pub IsLinked : Bool → ℕ → Rep → Type 0
IsLinked deferred i r =
    (r.parent ≡ some i) ⊎ ((r.parent ≡ none) × (r.call ≡ false) × (deferred ≡ true))

abbrev pub RepOk : Bool → ℕ → Option Rep → Type 0
RepOk deferred i none = Unit {0}
RepOk deferred i (some r) = IsLinked deferred i r × (r.call ≡ true → is_some r.functor ≡ true)

abbrev pub NodeOk : Bool → Node → Type 0
NodeOk deferred n = RepOk deferred n.id n.slot.rep

abbrev pub IdBelow : ℕ → Node → Type 0
IdBelow k n = n.id < k

pub record Wf (s : Impl) : Type 0 where
  pub alive : s.alive ≡ true
  pub distinct : Distinct s.slots
  pub below : All (IdBelow s.next) s.slots
  pub nodes : All (NodeOk s.deferred) s.slots

-- `Quiet e l k`: since the log `l` functors were called above the level `e`, and none destroyed.
pub data Quiet (e : ℕ) (l : List Event) : List Event → Type 0 where
  same : Quiet e l l
  call : {lv n f a : ℕ} {k : List Event} → e < lv → Quiet e l k → Quiet e l (called lv n f a ∷ k)

pub Quiet-trans : {e : ℕ} {l k m : List Event} → Quiet e l k → Quiet e k m → Quiet e l m
Quiet-trans q same = q
Quiet-trans q (call h r) = call h (Quiet-trans q r)

pub Quiet-mono : {e d : ℕ} {l k : List Event} → d ≤ e → Quiet e l k → Quiet d l k
Quiet-mono h same = same
Quiet-mono h (call g q) = call (omega arith) (Quiet-mono h q)

-- `Inner e s t`: the functors called above the level `e` have led from `s` to `t`.
pub record Inner (e : ℕ) (s t : Impl) : Type 0 where
  pub exec : t.exec ≡ s.exec
  pub next : s.next ≤ t.next
  pub ext : Ext s.slots t.slots
  pub log : Quiet e s.log t.log
  pub defers : s.deferred ≡ true → t.deferred ≡ true

pub Inner-refl : (e : ℕ) (s : Impl) → Inner e s s
Inner-refl e s = record {
  exec = refl;
  next = omega arith;
  ext = Ext-refl s.slots;
  log = same;
  defers = λ h. h;
}

pub Inner-trans : (e : ℕ) (s t u : Impl) → Inner e s t → Inner e t u → Inner e s u
Inner-trans e s t u h k = record {
  exec = k.exec ∙ h.exec;
  next = omega (arith, h.next, k.next);
  ext = Ext-trans s.slots t.slots u.slots h.ext k.ext;
  log = Quiet-trans h.log k.log;
  defers = λ b. k.defers (h.defers b);
}

-- After a step of a functor: the invariant, and nothing lost since `s`.
pub record Good (e : ℕ) (s t : Impl) : Type 0 where
  pub wf : Wf t
  pub inner : Inner e s t

pub Good-refl : (e : ℕ) (s : Impl) → Wf s → Good e s s
Good-refl e s wf = record { wf = wf; inner = Inner-refl e s }

pub Good-trans : (e : ℕ) (s t u : Impl) → Good e s t → Good e t u → Good e s u
Good-trans e s t u h k = record { wf = k.wf; inner = Inner-trans e s t u h.inner k.inner }

pub Good-mono : (d e : ℕ) (s t : Impl) → d ≤ e → Good e s t → Good d s t
Good-mono d e s t h g = record {
  wf = g.wf;
  inner = record {
    exec = g.inner.exec;
    next = g.inner.next;
    ext = g.inner.ext;
    log = Quiet-mono h g.inner.log;
    defers = g.inner.defers;
  };
}

-- Lists of nodes: append, update at an iterator, block all.
module _ {A : Type 0} (P : A → Type 0) where
  pub All-append : (xs ys : List A) → All P xs → All P ys → All P (xs ++ ys)
  All-append [] ys h k = k
  All-append (x ∷ xs) ys h k = (h.0, All-append xs ys h.1 k)

module _ {P Q : Node → Type 0} (step : (n : Node) → P n → Q n) where
  pub All-map : (xs : List Node) → All P xs → All Q xs
  All-map [] h = tt
  All-map (x ∷ xs) h = (step x h.0, All-map xs h.1)

pub has_id-append :
    (i : ℕ) (xs : List Node) (n : Node) → has_id i (xs ++ n ∷ []) ≡ (has_id i xs || (n.id == i))
has_id-append i [] n = ground arith
has_id-append i (x ∷ xs) n = ground (arith, has_id-append i xs n)

pub not-has_id-below : (i : ℕ) (xs : List Node) → All (IdBelow i) xs → has_id i xs ≡ false
not-has_id-below i [] h = refl
not-has_id-below i (x ∷ xs) h = ground (arith, not-has_id-below i xs h.1)

-- A fresh node may stand behind the others or before them.
pub Distinct-append :
    (xs : List Node) (n : Node) → Distinct xs → All (IdBelow n.id) xs → Distinct (xs ++ n ∷ [])
Distinct-append [] n d h = (refl, tt)
Distinct-append (x ∷ xs) n d h =
    (ground (arith, has_id-append x.id xs n), Distinct-append xs n d.1 h.1)

module _ (i : ℕ) (f : Slot → Slot) where
  pub has_id-update_slot : (j : ℕ) (xs : List Node) → has_id j (update_slot i f xs) ≡ has_id j xs
  unfolding update_slot
  has_id-update_slot j [] = refl
  has_id-update_slot j (x ∷ xs) = ground (arith, has_id-update_slot j xs)

  pub Distinct-update_slot : (xs : List Node) → Distinct xs → Distinct (update_slot i f xs)
  unfolding update_slot
  Distinct-update_slot [] d = tt
  Distinct-update_slot (x ∷ xs) d =
      ground (arith, Distinct-update_slot xs d.1, has_id-update_slot x.id xs)

  pub All-update_slot :
      (P : Node → Type 0)
      → ((n : Node) → P n → P (record n { slot = f n.slot }))
      → (xs : List Node) → All P xs
      → All P (update_slot i f xs)
  unfolding update_slot
  All-update_slot P step [] h = tt
  All-update_slot P step (x ∷ xs) h = ground (arith, step x h.0, All-update_slot P step xs h.1)

  pub Prefix-update_slot :
      ((sl : Slot) → RepLater sl.rep (f sl).rep) → (xs : List Node) → Prefix xs (update_slot i f xs)
  unfolding update_slot
  Prefix-update_slot later [] = tt
  Prefix-update_slot later (x ∷ xs) =
      ground (arith, later x.slot, Prefix-refl xs, Later-refl x, Prefix-update_slot later xs)

-- A change to every slot.
abbrev pub map_slots : (Slot → Slot) → List Node → List Node
map_slots f [] = []
map_slots f (n ∷ ns) = record n { slot = f n.slot } ∷ map_slots f ns

module _ (f : Slot → Slot) where
  pub has_id-map_slots : (j : ℕ) (xs : List Node) → has_id j (map_slots f xs) ≡ has_id j xs
  has_id-map_slots j [] = refl
  has_id-map_slots j (x ∷ xs) = ground (arith, has_id-map_slots j xs)

  pub Distinct-map_slots : (xs : List Node) → Distinct xs → Distinct (map_slots f xs)
  Distinct-map_slots [] d = tt
  Distinct-map_slots (x ∷ xs) d =
      ground (arith, Distinct-map_slots xs d.1, has_id-map_slots x.id xs)

  pub All-map_slots :
      (P Q : Node → Type 0)
      → ((n : Node) → P n → Q (record n { slot = f n.slot }))
      → (xs : List Node) → All P xs
      → All Q (map_slots f xs)
  All-map_slots P Q step [] h = tt
  All-map_slots P Q step (x ∷ xs) h = (step x h.0, All-map_slots P Q step xs h.1)

  pub Prefix-map_slots :
      ((sl : Slot) → RepLater sl.rep (f sl).rep) → (xs : List Node) → Prefix xs (map_slots f xs)
  Prefix-map_slots later [] = tt
  Prefix-map_slots later (x ∷ xs) =
      (record { same = refl; rep = later x.slot }, Prefix-map_slots later xs)
