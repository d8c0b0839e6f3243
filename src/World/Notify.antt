-- ===== src/World/Notify.antt =====
-- The loop of ~trackable over slots of a signal (sigc++/trackable.cc).
use libsigcplusplus.Prelude.{
  ℕ, zero, suc, ◌+◌, ◌<◌, ◌≡◌, refl, sym, ap, ◌∙◌, subst, Option, none, some, List, [], ◌∷◌, ◌++◌,
  arith, Outcome, ok, ◌>>=◌, All, length, length-append, get_elem?,
}
use mathlib.Core.List.{append_assoc, append-nil}
use libsigcplusplus.Trackable.Callbacks.{Callback}
use libsigcplusplus.Trackable.Kept.{KeptAll}
use libsigcplusplus.Trackable.Removal.{live}
use libsigcplusplus.Tuple.Laws.{get_elem?-append}
use libsigcplusplus.World.State.{World, invalidate, notify_all}
use libsigcplusplus.World.Entries.{Dead, get_elem?-end, live-here, kept-parts, Dead-live}

-- `W` holds all along, and `step` says what one callback does.
module _ (targets : ℕ → List ℕ) (o : ℕ) (W : World → Type 0)
    (step : (v : World) (r : ℕ)
      → W v
      → 0 < live r (v.objects o).callbacks
      → (u : World) × (invalidate targets r v ≡ ok u)
        × W u
        × KeptAll (λ d. d ≡ r) (v.objects o).callbacks (u.objects o).callbacks
        × (live r (u.objects o).callbacks ≡ 0)) where
  abbrev run_entry : Callback → World → Outcome World
  run_entry c v = elim c.func [ none ↦ ok v | some f ↦ invalidate targets c.object v ]

  notify_all-step :
      (k i : ℕ) (v u : World) (c : Callback)
      → get_elem? (v.objects o).callbacks i ≡ some c
      → run_entry c v ≡ ok u
      → notify_all targets o (suc k) i v ≡ notify_all targets o k (i + 1) u
  unfolding notify_all
  notify_all-step k i v u c e run =
      rw (e, notify_all) (ap (λ m. m >>= notify_all targets o k (i + 1)) run)

  notify_all-end :
      (k i : ℕ) (v : World)
      → get_elem? (v.objects o).callbacks i ≡ none
      → notify_all targets o (suc k) i v ≡ ok v
  unfolding notify_all
  notify_all-end k i v e = rw (e, notify_all)

  All-Dead-append :
      (ds : List Callback) (c : Callback) → All Dead ds → Dead c → All Dead (ds ++ c ∷ [])
  All-Dead-append [] c h d = (d, tt)
  All-Dead-append (x ∷ ds) c h d = (h.0, All-Dead-append ds c h.1 d)

  run_entry-some :
      (c : Callback) (f : ℕ) (v u : World)
      → c.func ≡ some f
      → invalidate targets c.object v ≡ ok u
      → run_entry c v ≡ ok u
  run_entry-some c f v u h run = rw h run

  -- The entries behind the dead ones, after a round.
  abbrev Split : World → ℕ → ℕ → Type 0
  Split u n m =
      (ds : List Callback) × (es : List Callback) × ((u.objects o).callbacks ≡ ds ++ es)
      × All Dead ds
      × (length ds ≡ n)
      × (length es ≡ m)

  round :
      (v : World) (ds es : List Callback) (c : Callback)
      → (v.objects o).callbacks ≡ ds ++ c ∷ es
      → All Dead ds
      → W v
      → (u : World) × (run_entry c v ≡ ok u) × W u × Split u (suc (length ds)) (length es)
  round v ds es c e dead walk = go c.func refl
    where
      go :
          (f : Option ℕ)
          → c.func ≡ f
          → (u : World) × (run_entry c v ≡ ok u) × W u × Split u (suc (length ds)) (length es)
      go none h = (
        v,
        rw h,
        walk,
        (
          ds ++ c ∷ [],
          es,
          e ∙ sym (append_assoc ds (c ∷ []) es),
          All-Dead-append ds c dead h,
          omega (arith, length-append ds (c ∷ [])),
          refl,
        ),
      )
      go (some f) h =
          let pos : 0 < live c.object (v.objects o).callbacks =
            subst (λ u. 0 < live c.object u) (sym e) (live-here ds es c (rw h)) in
          let (u, run, walk', kept, gone) = step v c.object walk pos in
          let (ds', c', es', e', dead', same, n, m) =
            kept-parts (λ d. d ≡ c.object) ds es (u.objects o).callbacks c
              (subst (λ x. KeptAll (λ d. d ≡ c.object) x (u.objects o).callbacks) e kept) dead in
          let off : Dead c' = Dead-live ds' es' c' (
            subst (λ x. live c'.object x ≡ 0) e'
              (subst (λ r. live r (u.objects o).callbacks ≡ 0) (sym same) gone)) in
          (
            u,
            run_entry-some c f v u h run,
            walk',
            (
              ds' ++ c' ∷ [],
              es',
              e' ∙ sym (append_assoc ds' (c' ∷ []) es'),
              All-Dead-append ds' c' dead' off,
              omega (arith, length-append ds' (c' ∷ []), n),
              m,
            ),
          )

  pub notify_all-kept :
      (k : ℕ) (ds es : List Callback) (v : World) (i : ℕ)
      → (v.objects o).callbacks ≡ ds ++ es
      → All Dead ds
      → length ds ≡ i
      → suc (length es) ≡ k
      → W v
      → (u : World) × (notify_all targets o k i v ≡ ok u) × W u × All Dead (u.objects o).callbacks
  notify_all-kept zero ds es v i e dead n m walk = absurd (omega arith)
  notify_all-kept (suc k) ds [] v i e dead n m walk =
      let whole = e ∙ append-nil ds in
      (
        v,
        notify_all-end k i v (
            subst (λ x. get_elem? x i ≡ none) (sym whole)
              (subst (λ x. get_elem? ds x ≡ none) n (get_elem?-end ds))),
        walk,
        subst (λ x. All Dead x) (sym whole) dead,
      )
  notify_all-kept (suc k) ds (c ∷ es) v i e dead n m walk =
      let found : get_elem? (v.objects o).callbacks i ≡ some c =
        subst (λ x. get_elem? x i ≡ some c) (sym e)
          (subst (λ x. get_elem? (ds ++ c ∷ es) x ≡ some c) n (get_elem?-append ds es c)) in
      let (u, run, walk', (ds', es', e', dead', n', m')) = round v ds es c e dead walk in
      let (t, rest, walk'', all) =
        notify_all-kept k ds' es' u (i + 1) e' dead' (omega (arith, n', n)) (omega (arith, m', m))
          walk' in
      (t, notify_all-step k i v u c found run ∙ rest, walk'', all)
