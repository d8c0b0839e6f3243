-- ===== src/Handle/Lifetime.antt =====
-- Every member of signal_base on signal objects that own what they share.
use libsigcplusplus.Prelude.{
  get_elem-some, ℕ, ◌+◌, ◌<◌, ◌≡◌, refl, sym, ap, subst, ◌∙◌, Bool, true, false, Option, none, some,
  List, [], ◌∷◌, if◌then◌else◌, get_elem?, length, arith, Outcome, ok, ◌>>=◌, Safe, safe, Safe-bind,
  Safe-map, Safe-result,
}
use libsigcplusplus.Signal.Abstract.{Request}
use libsigcplusplus.Handle.Store.{
  Store, same_ptr, pointer, point_to, impl, on_impl, makes, new_signal, copy_signal, move_signal,
  assign_signal, assign_move_signal, destroy_signal, ask,
}
use libsigcplusplus.Handle.Owned.{Owned, Kept, handle-Points}
use libsigcplusplus.Handle.Keeps.{
  pointer-at, point_to-Owned, append-Owned, impl-Owned, on_impl-Owned,
}
use libsigcplusplus.Handle.References.{references, after_all, perform-after}
use libsigcplusplus.Handle.Calls
use libsigcplusplus.Handle.Calls.{Call, perform, perform_all, names, objects_after, names_all}

module _ (st : Store) (o : Owned st) where
  pointer-Safe :
      (h : ℕ) → h < length st.handles → Safe ⊥ (λ p. get_elem? st.handles h ≡ some p) (pointer h st)
  pointer-Safe h lt =
      let (p, at) = get_elem-some h st.handles lt in rw (pointer-at h st p at) (safe at)

  copy-Owned :
      (h : ℕ) → h < length st.handles → Safe ⊥ (Kept (length st.handles + 1)) (copy_signal h st)
  unfolding copy_signal
  copy-Owned h lt = Safe-bind (impl-Owned h st o lt) (λ r w.
      let (v, e) = append-Owned (some r.0) r.1 w.0.0 (handle-Points r.1 h (some r.0) w.0.0 w.1) in
      safe (v, omega (arith, e, w.0.1)))

  move-Owned :
      (h : ℕ) → h < length st.handles → Safe ⊥ (Kept (length st.handles + 1)) (move_signal h st)
  unfolding move_signal
  move-Owned h lt = Safe-bind (pointer-Safe h lt) (λ p at.
      let (v, e) = append-Owned p st o (handle-Points st h p o at) in
      Safe-map (point_to-Owned h none _ v tt (omega (arith, e))) (λ t w. (w.0, w.1 ∙ e)))

  module _ (d h : ℕ) (in_d : d < length st.handles) (in_h : h < length st.handles) where
    assign-Owned : Safe ⊥ (Kept (length st.handles)) (assign_signal d h st)
    unfolding assign_signal
    assign-Owned =
        Safe-bind (pointer-Safe h in_h)
          (λ p at. Safe-bind (pointer-Safe d in_d) (λ q _. by_same (same_ptr p q)))
      where
        by_same :
            (b : Bool)
            → Safe ⊥
                (Kept (length st.handles))
                (if b then ok st else (impl h st >>= λ r. point_to d (some r.0) r.1))
        by_same true = safe (o, refl)
        by_same false = Safe-bind (impl-Owned h st o in_h) (λ r w.
            Safe-map
              (point_to-Owned d (some r.0) r.1 w.0.0 (handle-Points r.1 h (some r.0) w.0.0 w.1)
                (omega (arith, in_d, w.0.1)))
              (λ t v. (v.0, v.1 ∙ w.0.1)))

    assign_move-Owned : Safe ⊥ (Kept (length st.handles)) (assign_move_signal d h st)
    unfolding assign_move_signal
    assign_move-Owned =
        Safe-bind (pointer-Safe h in_h)
          (λ p at. Safe-bind (pointer-Safe d in_d) (λ q _. by_same p at (same_ptr p q)))
      where
        by_same :
            (p : Option ℕ)
            → get_elem? st.handles h ≡ some p
            → (b : Bool)
            → Safe ⊥
                (Kept (length st.handles))
                (if b then ok st else (point_to d p st >>= point_to h none))
        by_same p at true = safe (o, refl)
        by_same p at false =
            Safe-bind (point_to-Owned d p st o (handle-Points st h p o at) in_d) (λ r w.
              Safe-map (point_to-Owned h none r w.0 tt (omega (arith, in_h, w.1)))
                (λ t v. (v.0, v.1 ∙ w.1)))

  ask-Owned :
      (h : ℕ) (q : Request) → h < length st.handles → Safe ⊥ (Kept (length st.handles)) (ask h q st)
  unfolding ask
  ask-Owned h q lt = Safe-bind (pointer-Safe h lt) (λ p at. by_request p at (makes q))
    where
      there :
          (p : Option ℕ)
          → get_elem? st.handles h ≡ some p
          → Safe ⊥
              (Kept (length st.handles))
              (elim p as (λ x. Outcome Store) [ none ↦ ok st | some k ↦ on_impl k q st ])
      there none at = safe (o, refl)
      there (some k) at =
          Safe-map (on_impl-Owned k q st o (handle-Points st h (some k) o at))
            (λ t v. (v.0, ap length v.1))

      by_request :
          (p : Option ℕ)
          → get_elem? st.handles h ≡ some p
          → (b : Bool)
          → Safe ⊥ (Kept (length st.handles)) (
              if b
              then (impl h st >>= λ r. on_impl r.0 q r.1)
              else (elim p as (λ x. Outcome Store) [ none ↦ ok st | some k ↦ on_impl k q st ]))
      by_request p at true = Safe-bind (impl-Owned h st o lt) (λ r w.
          Safe-map (on_impl-Owned r.0 q r.1 w.0.0 (handle-Points r.1 h (some r.0) w.0.0 w.1))
            (λ t v. (v.0, ap length v.1 ∙ w.0.1)))
      by_request p at false = there p at

  pub perform-Owned :
      (c : Call)
      → names c (length st.handles) ≡ true
      → Safe ⊥ (Kept (objects_after c (length st.handles))) (perform c st)
  unfolding perform new_signal destroy_signal
  perform-Owned Calls.creates i = safe (append-Owned none st o tt)
  perform-Owned (Calls.copies h) i = copy-Owned h (ground (arith, i))
  perform-Owned (Calls.moves h) i = move-Owned h (ground (arith, i))
  perform-Owned (Calls.assigns d h) i = assign-Owned d h (ground (arith, i)) (ground (arith, i))
  perform-Owned (Calls.assigns_move d h) i =
      assign_move-Owned d h (ground (arith, i)) (ground (arith, i))
  perform-Owned (Calls.destroys h) i = point_to-Owned h none st o tt (ground (arith, i))
  perform-Owned (Calls.asks h q) i = ask-Owned h q (ground (arith, i))

-- Any calls of members, from signal objects that own what they share, run without a fault, if each
-- names objects that are there and the slots that an emission calls leave the signal alone; afterwards
-- an implementation exists exactly as long as a signal object points to it, and is at rest; and each
-- object points to the signal that it refers to: a copy to that of its source, which is given one, an
-- object that was moved from to none, and an assignment changes nothing between objects that point to
-- the same.
pub perform_all-Owned :
    (cs : List Call) (st : Store)
    → Owned st
    → names_all cs (length st.handles) ≡ true
    → (t : Store) × (perform_all cs st ≡ ok t)
      × Owned t
      × (references t ≡ after_all cs (references st))
unfolding perform_all
perform_all-Owned [] st o i = (st, refl, o, refl)
perform_all-Owned (c ∷ cs) st o i =
    let (v, run, w) = Safe-result (perform-Owned st o c (ground (arith, i))) in
    let (t, rest, p, refs) =
      perform_all-Owned cs v w.0
        (subst (λ n. names_all cs n ≡ true) (sym w.1) (ground (arith, i))) in
    (
      t,
      ap (λ m. m >>= perform_all cs) run ∙ rest,
      p,
      refs ∙ ap (after_all cs) (perform-after c st v run),
    )
