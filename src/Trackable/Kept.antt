-- ===== src/Trackable/Kept.antt =====
-- What may happen to the entries of a list that is being cleared.
use libsigcplusplus.Prelude.{
  ℕ, ◌≡◌, refl, sym, ◌∙◌, subst, Bool, true, false, ◌||◌, ◌⊎◌, inl, inr, none, some, List, [], ◌∷◌,
  ◌++◌, ◌==◌, get_elem?, length, All, arith, Bool-cases,
}
use libsigcplusplus.Trackable.Callbacks.{
  Callback, CallbackList, is_entry, remove_entry, remove_callback, add_callback, Op, adds, removes,
  run_ops,
}

abbrev pub has_remove : ℕ → List Op → Bool
has_remove d [] = false
has_remove d (adds e f ∷ os) = has_remove d os
has_remove d (removes e ∷ os) = (e == d) || has_remove d os

-- An entry later on: a function goes away only for an object in `P`.
abbrev pub Kept : (ℕ → Type 0) → Callback → Callback → Type 0
Kept P c d = (d.object ≡ c.object) × ((d.func ≡ c.func) ⊎ ((d.func ≡ none) × P c.object))

abbrev pub KeptAll : (ℕ → Type 0) → List Callback → List Callback → Type 0
KeptAll P [] [] = Unit {0}
KeptAll P [] (d ∷ ds) = ⊥
KeptAll P (c ∷ cs) [] = ⊥
KeptAll P (c ∷ cs) (d ∷ ds) = Kept P c d × KeptAll P cs ds

abbrev OpIn : (ℕ → Type 0) → Op → Type 0
OpIn P (adds d f) = Unit {0}
OpIn P (removes d) = P d

pub add-clearing : (d f : ℕ) (l : CallbackList) → l.clearing ≡ true → add_callback d f l ≡ l
unfolding add_callback
add-clearing d f l e = ground arith

module _ (P : ℕ → Type 0) where
  pub KeptAll-refl : (cs : List Callback) → KeptAll P cs cs
  KeptAll-refl [] = tt
  KeptAll-refl (c ∷ cs) = ((refl, inl refl), KeptAll-refl cs)

  Kept-trans : (a b c : Callback) → Kept P a b → Kept P b c → Kept P a c
  Kept-trans a b c (h, inl e) (k, inl g) = (k ∙ h, inl (g ∙ e))
  Kept-trans a b c (h, inl e) (k, inr (g, p)) = (k ∙ h, inr (g, subst P h p))
  Kept-trans a b c (h, inr (e, p)) (k, inl g) = (k ∙ h, inr (g ∙ e, p))
  Kept-trans a b c (h, inr (e, p)) (k, inr (g, q)) = (k ∙ h, inr (g, p))

  pub KeptAll-trans :
      (xs ys zs : List Callback) → KeptAll P xs ys → KeptAll P ys zs → KeptAll P xs zs
  KeptAll-trans [] [] zs h k = k
  KeptAll-trans [] (y ∷ ys) zs h k = absurd h
  KeptAll-trans (x ∷ xs) [] zs h k = absurd h
  KeptAll-trans (x ∷ xs) (y ∷ ys) [] h k = absurd k
  KeptAll-trans (x ∷ xs) (y ∷ ys) (z ∷ zs) h k =
      (Kept-trans x y z h.0 k.0, KeptAll-trans xs ys zs h.1 k.1)

  pub remove_entry-KeptAll :
      (d : ℕ) (cs : List Callback) → P d → KeptAll P cs (remove_entry true d cs)
  unfolding remove_entry is_entry
  remove_entry-KeptAll d [] p = tt
  remove_entry-KeptAll d (c ∷ cs) p = elim (Bool-cases (is_entry d c)) [
    | inl hit ↦ rw hit ((refl, inr (refl, subst P (ground arith) p)), KeptAll-refl cs)
    | inr miss ↦ rw miss ((refl, inl refl), remove_entry-KeptAll d cs p)
  ]

  -- While the list is being cleared no operation adds or erases an entry.
  pub run_ops-KeptAll :
      (os : List Op) (l : CallbackList)
      → l.clearing ≡ true
      → All (OpIn P) os
      → KeptAll P l.callbacks (run_ops os l).callbacks × ((run_ops os l).clearing ≡ true)
  unfolding run_ops add_callback remove_callback
  run_ops-KeptAll [] l e h = (KeptAll-refl l.callbacks, e)
  run_ops-KeptAll (adds d f ∷ os) l e h =
      subst (λ m. KeptAll P l.callbacks (run_ops os m).callbacks × ((run_ops os m).clearing ≡ true))
        (sym (add-clearing d f l e)) (run_ops-KeptAll os l e h.1)
  run_ops-KeptAll (removes d ∷ os) l e h =
      let (k, g) = run_ops-KeptAll os (remove_callback d l) e h.1 in
      (
        KeptAll-trans l.callbacks _ _
            (subst (λ b. KeptAll P l.callbacks (remove_entry b d l.callbacks)) (sym e)
              (remove_entry-KeptAll d l.callbacks h.0))
            k,
        g,
      )

pub All-OpIn :
    (P : ℕ → Type 0) (os : List Op) → ((d : ℕ) → has_remove d os ≡ true → P d) → All (OpIn P) os
All-OpIn P [] h = tt
All-OpIn P (adds d f ∷ os) h = (tt, All-OpIn P os h)
All-OpIn P (removes d ∷ os) h = (h d (ground arith), All-OpIn P os λ e k. h e (ground arith))

pub get_elem?-KeptAll :
    (P : ℕ → Type 0) (pre rest ds : List Callback) (c : Callback)
    → KeptAll P (pre ++ c ∷ rest) ds
    → (d : Callback) × (get_elem? ds (length pre) ≡ some d) × Kept P c d
get_elem?-KeptAll P [] rest [] c h = absurd h
get_elem?-KeptAll P [] rest (d ∷ ds) c h = (d, refl, h.0)
get_elem?-KeptAll P (x ∷ pre) rest [] c h = absurd h
get_elem?-KeptAll P (x ∷ pre) rest (d ∷ ds) c h = get_elem?-KeptAll P pre rest ds c h.1

pub get_elem?-end :
    (P : ℕ → Type 0) (cs ds : List Callback) → KeptAll P cs ds → get_elem? ds (length cs) ≡ none
get_elem?-end P [] [] h = refl
get_elem?-end P [] (d ∷ ds) h = absurd h
get_elem?-end P (c ∷ cs) [] h = absurd h
get_elem?-end P (c ∷ cs) (d ∷ ds) h = get_elem?-end P cs ds h.1
