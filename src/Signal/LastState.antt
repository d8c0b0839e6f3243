-- ===== src/Signal/LastState.antt =====
-- The two emissions of sigc++/signal.h without an accumulator leave the same state.
use libsigcplusplus.Prelude.{
  ℕ, zero, suc, ◌≡◌, refl, ap, ◌∙◌, Bool, true, false, ◌||◌, Option, none, some, List, length,
  if◌then◌else◌, Outcome, ok, fault, no_fuel, ◌>>=◌, Bool-cases, inl, inr,
}
use mathlib.Core.Path.{fun_ext}
use libsigcplusplus.Signal.Slot.{empty}
use libsigcplusplus.Signal.Nodes.{Node, begin, at_end, deref, next_iter}
use libsigcplusplus.Signal.Impl.{
  Impl, reference_exec, unreference_exec, sweep_fuel, erase_node, for_each,
}
use libsigcplusplus.Signal.Emit.{
  Act, add_placeholder, is_empty, functor_of, invoke, visit, with_slots, emit,
}
use libsigcplusplus.Signal.EmitLast.{
  state, invoke_ret, visit_ret, last_rest, last_first, last_scan, emit_last,
}

module _ (body : ℕ → ℕ → Impl → List Act) (ret : ℕ → ℕ → Impl → ℕ) where
  state-bind :
      (m : Outcome (ℕ × Impl)) (f : ℕ × Impl → Outcome (ℕ × Impl)) (g : Impl → Outcome Impl)
      → ((r : ℕ) (s : Impl) → state (f (r, s)) ≡ g s)
      → state (m >>= f) ≡ (state m >>= g)
  state-bind (ok (r, s)) f g h = h r s
  state-bind fault f g h = refl
  state-bind no_fuel f g h = refl

  state-invoke_ret :
      (nested : ℕ → Impl → Outcome Impl) (a : ℕ) (n : Node) (s : Impl)
      → state (invoke_ret body ret nested a n s) ≡ invoke body nested a n s
  unfolding invoke_ret invoke
  state-invoke_ret nested a n s = go (functor_of n.slot.rep) refl
    where
      ran : (m : Outcome Impl) (f : ℕ) → state (m >>= λ t. ok (ret f a t, t)) ≡ m
      ran (ok t) f = refl
      ran fault f = refl
      ran no_fuel f = refl

      go :
          (o : Option ℕ)
          → functor_of n.slot.rep ≡ o
          → state (invoke_ret body ret nested a n s) ≡ invoke body nested a n s
      go none e = rw (e, invoke_ret, invoke)
      go (some f) e = rw (e, invoke_ret) (ran (invoke body nested a n s) f)

  bind-cong :
      {A : Type 0} (m : Outcome A) (f : A → Outcome (ℕ × Impl)) (g : A → Outcome Impl)
      → ((x : A) → state (f x) ≡ g x)
      → state (m >>= f) ≡ (m >>= g)
  bind-cong (ok x) f g h = h x
  bind-cong fault f g h = refl
  bind-cong no_fuel f g h = refl

  state-if :
      (b : Bool) (x y : Outcome (ℕ × Impl))
      → state (if b then x else y) ≡ (if b then state x else state y)
  state-if true x y = refl
  state-if false x y = refl

  module _ (nested : ℕ → Impl → Outcome Impl) (a : ℕ) where
    pub state-visit_ret :
        (r : ℕ) (n : Node) (s : Impl)
        → state (visit_ret body ret nested a r n s) ≡ visit body nested a n s
    unfolding visit_ret visit
    state-visit_ret r n s = elim (Bool-cases (empty n.slot || n.slot.blocked)) [
      | inl e ↦ rw e
      | inr e ↦ rw e (state-invoke_ret nested a n s)
    ]

    state-rest :
        (k : ℕ) (end it : Option ℕ) (r : ℕ) (s : Impl)
        → state (last_rest body ret nested a k end it r s)
          ≡ for_each k end (visit body nested a) it s
    unfolding last_rest for_each
    state-rest zero end it r s = refl
    state-rest (suc k) end none r s = state-if (at_end none end) (ok (r, s)) fault
    state-rest (suc k) end (some i) r s =
        state-if (at_end (some i) end) (ok (r, s)) _
        ∙ ap (λ x. if at_end (some i) end then ok s else x)
            (bind-cong (deref i s.slots) _ _ λ n.
              state-bind (visit_ret body ret nested a r n s) _ _
                (λ r' s'. bind-cong (next_iter i s'.slots) _ _ λ it'. state-rest k end it' r' s')
              ∙ ap
                  (λ x. x >>= λ s'.
                    next_iter i s'.slots >>= λ it'. for_each k end (visit body nested a) it' s')
                  (state-visit_ret r n s))

    state-first :
        (k : ℕ) (end : Option ℕ) (i : ℕ) (n : Node) (s : Impl)
        → state (last_first body ret nested a k end i n s) ≡ (
            invoke body nested a n s >>= λ s'.
            next_iter i s'.slots >>= λ it'. for_each k end (visit body nested a) it' s')
    unfolding last_first
    state-first k end i n s =
        state-bind (invoke_ret body ret nested a n s) _ _
          (λ r' s'. bind-cong (next_iter i s'.slots) _ _ λ it'. state-rest k end it' r' s')
        ∙ ap
            (λ x. x >>= λ s'.
              next_iter i s'.slots >>= λ it'. for_each k end (visit body nested a) it' s')
            (state-invoke_ret nested a n s)

    state-scan :
        (k : ℕ) (end it : Option ℕ) (s : Impl)
        → state (last_scan body ret nested a k end it s) ≡ for_each k end (visit body nested a) it s
    unfolding last_scan for_each visit
    state-scan zero end it s = refl
    state-scan (suc k) end none s = state-if (at_end none end) (ok (0, s)) fault
    state-scan (suc k) end (some i) s =
        state-if (at_end (some i) end) (ok (0, s)) _
        ∙ ap (λ x. if at_end (some i) end then ok s else x)
            (bind-cong (deref i s.slots) _ _ λ n.
              round n (empty n.slot || n.slot.blocked) refl
                (bind-cong (next_iter i s.slots) _ _ λ it'. state-scan k end it' s))
      where
        round :
            (n : Node) (b : Bool)
            → (empty n.slot || n.slot.blocked) ≡ b
            → state (next_iter i s.slots >>= λ it'. last_scan body ret nested a k end it' s)
              ≡ (next_iter i s.slots >>= λ it'. for_each k end (visit body nested a) it' s)
            → state (
                if empty n.slot || n.slot.blocked
                then (next_iter i s.slots >>= λ it'. last_scan body ret nested a k end it' s)
                else last_first body ret nested a k end i n s)
              ≡ (visit body nested a n s >>= λ s'.
                  next_iter i s'.slots >>= λ it'. for_each k end (visit body nested a) it' s')
        round n true e h = rw (e, visit) h
        round n false e h = rw (e, visit) (state-first k end i n s)

  state-scope :
      (m : Outcome (ℕ × Impl)) (i : ℕ)
      → state (
          m >>= λ p.
          erase_node i p.1 >>= λ s4. unreference_exec sweep_fuel s4 >>= λ s5. ok (p.0, s5))
        ≡ (state m >>= λ s3. erase_node i s3 >>= unreference_exec sweep_fuel)
  state-scope m i =
      state-bind m _ _
        λ r s3. bind-cong (erase_node i s3) _ _ λ s4. ran (unreference_exec sweep_fuel s4) r
    where
      ran : (x : Outcome Impl) (r : ℕ) → state (x >>= λ s5. ok (r, s5)) ≡ x
      ran (ok t) r = refl
      ran fault r = refl
      ran no_fuel r = refl

  -- The emission that returns the last result leaves exactly the state that the void emission
  -- leaves, with the same functors: same calls in the same order, same faults and same depth.
  pub state-emit_last :
      (depth a : ℕ) (s : Impl) → state (emit_last body ret depth a s) ≡ emit body depth a s
  unfolding emit_last emit with_slots
  state-emit_last zero a s = refl
  state-emit_last (suc depth) a s =
      state-if (is_empty s.slots) (ok (0, s)) _
      ∙ ap (λ x. if is_empty s.slots then ok s else x)
          (state-scope _ _
            ∙ ap
                (λ x.
                  x >>= λ s3. erase_node (reference_exec s).next s3 >>= unreference_exec sweep_fuel)
                (ap
                    (λ f. state (
                      last_scan body ret f a (length (add_placeholder (reference_exec s)).slots)
                        (some (reference_exec s).next)
                        (begin (add_placeholder (reference_exec s)).slots)
                        (add_placeholder (reference_exec s))))
                    (fun_ext λ b. fun_ext λ t. state-emit_last depth b t)
                  ∙ state-scan (emit body depth) a _ _ _ _))
