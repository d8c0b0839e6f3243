-- ===== src/Tuple/Transform.antt =====
-- tuple_for_each visits every element in order, and tuple_transform_each transforms every element.
use libsigcplusplus.Prelude.{
  ℕ, suc, ◌-◌, ◌≡◌, refl, sym, ap, ◌∙◌, subst, false, some, List, [], ◌∷◌, ◌++◌, ◌==◌, get_elem?,
  length, take, drop, length-append, arith,
}
use mathlib.Core.List.{append_assoc}
use libsigcplusplus.Tuple.Utils.{
  tuple_start, tuple_end, for_each_impl, tuple_for_each, transform_impl, tuple_transform_each,
}
use libsigcplusplus.Tuple.Laws.{get_elem?-append, tuple_start-take, tuple_end-drop}

-- Every element once, from the first to the last.
abbrev pub visit_all {ℓ κ} : {A : Type ℓ} {S : Type κ} → (A → S → S) → List A → S → S
visit_all visit [] s = s
visit_all visit (x ∷ xs) s = visit_all visit xs (visit x s)

abbrev pub transform_all {ℓ} : {A : Type ℓ} → (A → A) → List A → List A
transform_all f [] = []
transform_all f (x ∷ xs) = f x ∷ transform_all f xs

-- The element that a round reads, when `rest` elements follow it.
module _ {ℓ} {A : Type ℓ} where
  round-element :
      (pre rest : List A) (x : A)
      → get_elem? (pre ++ x ∷ rest) (length (pre ++ x ∷ rest) - suc (length rest)) ≡ some x
  round-element pre rest x =
      let place : length (pre ++ x ∷ rest) - suc (length rest) ≡ length pre =
        omega (arith, length-append pre (x ∷ rest)) in
      rw place (get_elem?-append pre rest x)

  take-append : (pre rest : List A) → take (length pre) (pre ++ rest) ≡ pre
  take-append [] rest = refl
  take-append (p ∷ pre) rest = ap (λ u. p ∷ u) (take-append pre rest)

  drop-append : (pre rest : List A) (x : A) → drop (suc (length pre)) (pre ++ x ∷ rest) ≡ rest
  drop-append [] rest x = refl
  drop-append (p ∷ pre) rest x = drop-append pre rest x

  -- The two pieces round the element of a round.
  pub start-before :
      (pre rest : List A) (x : A) (i : ℕ)
      → i ≡ length pre
      → tuple_start i (pre ++ x ∷ rest) ≡ some pre
  start-before pre rest x i e = rw e (
      tuple_start-take (length pre) (pre ++ x ∷ rest) (omega (arith, length-append pre (x ∷ rest)))
      ∙ ap some (take-append pre (x ∷ rest)))

  pub end-behind :
      (pre rest : List A) (x : A) (i : ℕ)
      → i ≡ length rest
      → tuple_end i (pre ++ x ∷ rest) ≡ some rest
  end-behind pre rest x i e =
      let n = length-append pre (x ∷ rest) in
      let place : length (pre ++ x ∷ rest) - i ≡ suc (length pre) = omega (arith, n) in
      tuple_end-drop i (pre ++ x ∷ rest) (omega (arith, n))
      ∙ (ap (λ k. some (drop k (pre ++ x ∷ rest))) place ∙ ap some (drop-append pre rest x))

module _ {ℓ κ} {A : Type ℓ} {S : Type κ} (visit : A → S → S) where
  for_each_impl-all :
      (pre todo : List A) (s : S)
      → for_each_impl visit (length todo) (pre ++ todo) s ≡ some (visit_all visit todo s)
  unfolding for_each_impl
  for_each_impl-all pre [] s = refl
  for_each_impl-all pre (x ∷ []) s = rw (round-element pre [] x)
  for_each_impl-all pre (x ∷ y ∷ ys) s = rw (round-element pre (y ∷ ys) x) (
      subst
        (λ (t : List A).
          for_each_impl visit (suc (length ys)) t (visit x s)
          ≡ some (visit_all visit ys (visit y (visit x s))))
        (append_assoc pre (x ∷ []) (y ∷ ys))
        (for_each_impl-all (pre ++ x ∷ []) (y ∷ ys) (visit x s)))

  -- `tuple_for_each` visits every element of the tuple once, from the first to the last.
  pub tuple_for_each-all :
      (t : List A) (s : S) → tuple_for_each visit t s ≡ some (visit_all visit t s)
  unfolding tuple_for_each
  tuple_for_each-all [] s = refl
  tuple_for_each-all (x ∷ xs) s =
      let some_left : (suc (length xs) == 0) ≡ false = ground arith in
      rw some_left (for_each_impl-all [] (x ∷ xs) s)

module _ {ℓ} {A : Type ℓ} (transform : A → A) where
  transform_impl-all :
      (todo done pre : List A)
      → length done ≡ length pre
      → transform_impl transform (length todo) (done ++ todo) (pre ++ todo)
        ≡ some (done ++ transform_all transform todo)
  unfolding transform_impl
  transform_impl-all [] done pre e = refl
  transform_impl-all (x ∷ []) done pre e =
      let n = length-append done (x ∷ []) in
      let at : length (done ++ x ∷ []) - 1 ≡ length pre = omega (arith, n) in
      rw (at, get_elem?-append pre [] x, start-before done [] x (length pre) (sym e))
  transform_impl-all (x ∷ y ∷ ys) done pre e =
      let n = length-append done (x ∷ y ∷ ys) in
      let at : length (done ++ x ∷ y ∷ ys) - suc (suc (length ys)) ≡ length pre =
        omega (arith, n) in
      rw
        (
          at,
          get_elem?-append pre (y ∷ ys) x,
          start-before done (y ∷ ys) x (length pre) (sym e),
          end-behind done (y ∷ ys) x (length (done ++ x ∷ y ∷ ys) - length pre - 1)
              (omega (arith, n)),
        )
        (subst
          (λ (u : List A).
            transform_impl transform (suc (length ys)) (done ++ transform x ∷ y ∷ ys) u
            ≡ some (done ++ transform x ∷ transform_all transform (y ∷ ys)))
          (append_assoc pre (x ∷ []) (y ∷ ys))
          (subst
            (λ (u : List A).
              transform_impl transform (suc (length ys)) u (pre ++ x ∷ [] ++ y ∷ ys)
              ≡ some (done ++ transform x ∷ transform_all transform (y ∷ ys)))
            (append_assoc done (transform x ∷ []) (y ∷ ys))
            (transform_impl-all (y ∷ ys) (done ++ transform x ∷ []) (pre ++ x ∷ []) (
                omega (arith, e, length-append done (transform x ∷ []), length-append pre (x ∷ [])))
              ∙ ap some (append_assoc done (transform x ∷ []) (transform_all transform (y ∷ ys))))))

  -- `tuple_transform_each` gives the tuple of the transformed elements, each transformed once.
  pub tuple_transform_each-all :
      (t : List A) → tuple_transform_each transform t ≡ some (transform_all transform t)
  unfolding tuple_transform_each
  tuple_transform_each-all t = transform_impl-all t [] [] refl
