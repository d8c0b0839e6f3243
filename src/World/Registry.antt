-- ===== src/World/Registry.antt =====
-- Registrations of slots with trackables: slot_do_bind and slot_do_unbind (sigc++/functors/slot_base.h).
use libsigcplusplus.Prelude.{
  ℕ, ◌+◌, ◌-◌, ◌≡◌, refl, sym, ◌∙◌, subst, true, false, List, [], ◌∷◌, ◌==◌, arith, if◌then◌else◌,
  Bool-cases, inl, inr,
}
use libsigcplusplus.Signal.Nodes.{Node}
use libsigcplusplus.Trackable.Callbacks.{CallbackList, add_callback, remove_callback, remove_entry}
use libsigcplusplus.Trackable.Kept.{KeptAll, KeptAll-refl, KeptAll-trans, remove_entry-KeptAll}
use libsigcplusplus.Trackable.Removal.{live, live-remove-add}
use libsigcplusplus.World.State.{set, bind_all, unbind_all, node_targets}

abbrev pub count : ℕ → List ℕ → ℕ
count o [] = 0
count o (x ∷ xs) = (if x == o then 1 else 0) + count o xs

-- One list changed: what holds of the list looked up, in the two cases.
pub set-cases :
    {A : Type 0} (P : A → Type 0) (h : A → A) (x o : ℕ) (g : ℕ → A)
    → ((o == x) ≡ true → P (h (g o)))
    → ((o == x) ≡ false → P (g o))
    → P (set x (h (g x)) g o)
set-cases {A} P h x o g p q = elim (Bool-cases (o == x)) [
  | inl e ↦ rw e (subst (λ y. P (h (g y))) (same e) (p e))
  | inr e ↦ rw e (q e)
]
  where
    same : (o == x) ≡ true → o ≡ x
    same e = ground arith

pub add_callback-idle :
    (d f : ℕ) (l : CallbackList) → l.clearing ≡ false → (add_callback d f l).clearing ≡ false
unfolding add_callback
add_callback-idle d f l h = ground arith

module _ (r : ℕ) where
  add-idle :
      (g : ℕ → CallbackList) (x : ℕ)
      → ((y : ℕ) → (g y).clearing ≡ false)
      → (y : ℕ) → (set x (add_callback r 0 (g x)) g y).clearing ≡ false
  add-idle g x h y =
      set-cases (λ l. l.clearing ≡ false) (add_callback r 0) x y g
        (λ e. add_callback-idle r 0 (g y) (h y)) (λ e. h y)

  pub bind-idle :
      (os : List ℕ) (g : ℕ → CallbackList)
      → ((y : ℕ) → (g y).clearing ≡ false)
      → (y : ℕ) → (bind_all os r g y).clearing ≡ false
  unfolding bind_all
  bind-idle [] g h y = h y
  bind-idle (x ∷ os) g h y = bind-idle os (set x (add_callback r 0 (g x)) g) (add-idle g x h) y

  pub unbind-clearing :
      (os : List ℕ) (g : ℕ → CallbackList) (o : ℕ) → (unbind_all os r g o).clearing ≡ (g o).clearing
  unfolding unbind_all remove_callback
  unbind-clearing [] g o = refl
  unbind-clearing (x ∷ os) g o =
      unbind-clearing os (set x (remove_callback r (g x)) g) o
      ∙ set-cases (λ l. l.clearing ≡ (g o).clearing) (remove_callback r) x o g (λ e. refl)
          (λ e. refl)

  pub live-unbind :
      (e : ℕ) (os : List ℕ) (g : ℕ → CallbackList) (o : ℕ)
      → live e (unbind_all os r g o).callbacks
        ≡ (if r == e then live e (g o).callbacks - count o os else live e (g o).callbacks)
  unfolding unbind_all
  live-unbind e [] g o = ground arith
  live-unbind e (x ∷ os) g o =
      live-unbind e os (set x (remove_callback r (g x)) g) o
      ∙ set-cases
          (λ l. (if r == e then live e l.callbacks - count o os else live e l.callbacks) ≡ (
            if r == e then live e (g o).callbacks - count o (x ∷ os) else live e (g o).callbacks))
          (remove_callback r) x o g (λ h. ground (arith, (live-remove-add r e 0 (g o)).0))
          (λ h. ground arith)

  pub unbind-KeptAll :
      (os : List ℕ) (g : ℕ → CallbackList) (o : ℕ)
      → (g o).clearing ≡ true
      → KeptAll (λ d. d ≡ r) (g o).callbacks (unbind_all os r g o).callbacks
  unfolding unbind_all remove_callback
  unbind-KeptAll [] g o c = KeptAll-refl (λ d. d ≡ r) (g o).callbacks
  unbind-KeptAll (x ∷ os) g o c =
      KeptAll-trans (λ d. d ≡ r) (g o).callbacks (set x (remove_callback r (g x)) g o).callbacks _
        (set-cases (λ l. KeptAll (λ d. d ≡ r) (g o).callbacks l.callbacks) (remove_callback r) x o g
          (λ h.
            subst (λ b. KeptAll (λ d. d ≡ r) (g o).callbacks (remove_entry b r (g o).callbacks))
              (sym c) (remove_entry-KeptAll (λ d. d ≡ r) r (g o).callbacks refl))
          (λ h. KeptAll-refl (λ d. d ≡ r) (g o).callbacks))
        (unbind-KeptAll os (set x (remove_callback r (g x)) g) o
          (set-cases (λ l. l.clearing ≡ true) (remove_callback r) x o g (λ h. c) (λ h. c)))

  pub live-bind :
      (e : ℕ) (os : List ℕ) (g : ℕ → CallbackList) (o : ℕ)
      → ((x : ℕ) → (g x).clearing ≡ false)
      → live e (bind_all os r g o).callbacks
        ≡ (if r == e then live e (g o).callbacks + count o os else live e (g o).callbacks)
  unfolding bind_all
  live-bind e [] g o off = ground arith
  live-bind e (x ∷ os) g o off =
      live-bind e os (set x (add_callback r 0 (g x)) g) o (add-idle g x off)
      ∙ set-cases
          (λ l. (if r == e then live e l.callbacks + count o os else live e l.callbacks) ≡ (
            if r == e then live e (g o).callbacks + count o (x ∷ os) else live e (g o).callbacks))
          (add_callback r 0) x o g (λ h. ground (arith, (live-remove-add r e 0 (g o)).1, off o))
          (λ h. ground arith)

-- How often the slot at an address refers to an object.
module _ (targets : ℕ → List ℕ) where
  abbrev pub bound : ℕ → ℕ → List Node → ℕ
  bound r o [] = 0
  bound r o (n ∷ ns) = if n.id == r then count o (node_targets targets n) else bound r o ns
