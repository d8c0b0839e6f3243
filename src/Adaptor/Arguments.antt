-- ===== src/Adaptor/Arguments.antt =====
-- The arguments that bind and hide pass on (sigc++/adaptors/bind.h, sigc++/adaptors/hide.h).
use libsigcplusplus.Prelude.{
  ℕ, Bool, refl, ◌-◌, ◌≤◌, ◌≡◌, sym, ap, ◌∙◌, true, false, none, some, List, [], ◌∷◌, ◌++◌, ◌==◌,
  ltb, length, take, drop, length-append, if◌then◌else◌, arith,
}
use mathlib.Core.List.{append-nil}
use libsigcplusplus.Tuple.Laws.{tuple_start-take, tuple_end-drop, length-take, take-drop}
use libsigcplusplus.Tuple.Transform.{
  transform_all, tuple_transform_each-all, start-before, end-behind,
}
use libsigcplusplus.Adaptor.Functors.{
  Arg, invoke_bound, Functor, bind_at, bind_last, hide_at, hide_last, bind_args, bind_last_args,
  hide_args, hide_last_args, Call, ill_formed, call, apply,
}

bind_args-insert :
    (i : ℕ) (bs args : List Arg)
    → i ≤ length args
    → bind_args i bs args ≡ some (take i args ++ (transform_all invoke_bound bs ++ drop i args))
unfolding bind_args
bind_args-insert i bs args h =
    let fits : ltb (length args) i ≡ false = ground arith in
    let back : length args - (length args - i) ≡ i = omega arith in
    rw (
      fits,
      tuple_start-take i args h,
      tuple_transform_each-all invoke_bound bs,
      tuple_end-drop (length args - i) args (omega arith),
      back,
    )

bind_args-short :
    (i : ℕ) (bs args : List Arg) → ltb (length args) i ≡ true → bind_args i bs args ≡ none
unfolding bind_args
bind_args-short i bs args short = rw short

hide_args-middle :
    (pre rest : List Arg) (x : Arg) (i : ℕ)
    → i ≡ length pre
    → hide_args i (pre ++ x ∷ rest) ≡ some (pre ++ rest)
unfolding hide_args
hide_args-middle pre rest x i e =
    let n = length-append pre (x ∷ rest) in
    let inside : ltb i (length (pre ++ x ∷ rest)) ≡ true = ground (arith, n, e) in
    rw (
      inside,
      start-before pre rest x i e,
      end-behind pre rest x (length (pre ++ x ∷ rest) - i - 1) (omega (arith, n, e)),
    )

hide_last-append : (args : List Arg) (x : Arg) → hide_last_args (args ++ x ∷ []) ≡ some args
unfolding hide_last_args
hide_last-append args x =
    let n = length-append args (x ∷ []) in
    let some_left : (length (args ++ x ∷ []) == 0) ≡ false = ground (arith, n) in
    rw (some_left, hide_args-middle args [] x (length (args ++ x ∷ []) - 1) (omega (arith, n)))
      (ap some (append-nil args))

module _ (run : ℕ → List Arg → Call) (cast : ℕ → Arg → Arg) where
  pub call-bind_at :
      (i : ℕ) (b : Arg) (bs : List Arg) (g : Functor) (args : List Arg)
      → i ≤ length args
      → call run cast (bind_at i b bs g) args
        ≡ call run cast g (take i args ++ (transform_all invoke_bound (b ∷ bs) ++ drop i args))
  unfolding call
  call-bind_at i b bs g args h = ap (apply (call run cast g)) (bind_args-insert i (b ∷ bs) args h)

  call-bind_short :
      (i : ℕ) (b : Arg) (bs : List Arg) (g : Functor) (args : List Arg)
      → ltb (length args) i ≡ true
      → call run cast (bind_at i b bs g) args ≡ ill_formed
  unfolding call
  call-bind_short i b bs g args short =
      ap (apply (call run cast g)) (bind_args-short i (b ∷ bs) args short)

  -- The two ways in which a test goes.
  by_test :
      (c : Bool) (x y z : Call)
      → (c ≡ true → x ≡ y)
      → (c ≡ false → x ≡ z)
      → x ≡ (if c then y else z)
  by_test true x y z p q = p refl
  by_test false x y z p q = q refl

  -- `bind` at a location calls its functor with the bound arguments, unwrapped, between the first
  -- arguments and the others, and does not compile if there are fewer arguments than the location
  -- says; `bind` for -1 puts the bound arguments behind all others.
  pub call-bind :
      (i : ℕ) (b : Arg) (bs : List Arg) (g : Functor) (args : List Arg)
      → (call run cast (bind_at i b bs g) args ≡ (
          if ltb (length args) i
          then ill_formed
          else call run cast g
              (take i args ++ (transform_all invoke_bound (b ∷ bs) ++ drop i args))))
        × (call run cast (bind_last bs g) args
            ≡ call run cast g (args ++ transform_all invoke_bound bs))
  unfolding call bind_last_args
  call-bind i b bs g args = (
    by_test (ltb (length args) i) _ _ _ (call-bind_short i b bs g args)
        (λ fits. call-bind_at i b bs g args (ground arith)),
    rw (tuple_transform_each-all invoke_bound bs),
  )

  -- `hide` undoes `bind`: a functor that hides an argument, with any argument bound there, is called
  -- as the functor itself.
  pub call-bind-hide :
      (i : ℕ) (b : Arg) (g : Functor) (args : List Arg)
      → i ≤ length args
      → (call run cast (bind_at i b [] (hide_at i g)) args ≡ call run cast g args)
        × (call run cast (bind_last (b ∷ []) (hide_last g)) args ≡ call run cast g args)
  unfolding call
  call-bind-hide i b g args h = (
    call-bind_at i b [] (hide_at i g) args h
        ∙ ap (apply (call run cast g)) (
            hide_args-middle (take i args) (drop i args) (invoke_bound b) i
              (sym (length-take i args h))
            ∙ ap some (take-drop i args)),
    (call-bind i b (b ∷ []) (hide_last g) args).1
        ∙ ap (apply (call run cast g)) (hide_last-append args (invoke_bound b)),
  )
