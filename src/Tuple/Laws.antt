-- ===== src/Tuple/Laws.antt =====
-- The tuple utilities of sigc++/tuple-utils against the list functions that their names promise.
use libsigcplusplus.Prelude.{
  ℕ, zero, suc, ◌+◌, ◌-◌, ◌<◌, ◌≤◌, ◌≡◌, refl, sym, ap, subst, true, false, some, List, [], ◌∷◌,
  ◌++◌, ◌==◌, leb, get_elem?, length, take, drop, length-append, arith, Bool-cases, inl, inr, none,
  is_some, if◌then◌else◌, ◌∙◌,
}
use mathlib.Core.List.{append_assoc, append-nil}
use libsigcplusplus.Tuple.Utils.{
  indices, get_all, tuple_cdr, tuple_start, tuple_end_rounds, tuple_end, ◌>>=◌,
}

module _ {ℓ} {A : Type ℓ} where
  pub get_elem?-append :
      (pre rest : List A) (x : A) → get_elem? (pre ++ x ∷ rest) (length pre) ≡ some x
  get_elem?-append [] rest x = refl
  get_elem?-append (p ∷ pre) rest x = get_elem?-append pre rest x

  -- A run of indices cuts a piece out of the middle.
  pub get_all-middle :
      (pre mid post : List A) (i : ℕ)
      → i ≡ length pre
      → get_all (pre ++ (mid ++ post)) (indices i (length mid)) ≡ some mid
  get_all-middle pre [] post i e = refl
  get_all-middle pre (x ∷ mid) post i e =
      let rest : get_all (pre ++ x ∷ (mid ++ post)) (indices (i + 1) (length mid)) ≡ some mid =
        subst (λ (u : List A). get_all u (indices (i + 1) (length mid)) ≡ some mid)
          (append_assoc pre (x ∷ []) (mid ++ post))
          (get_all-middle (pre ++ x ∷ []) mid post (i + 1)
            (omega (arith, length-append pre (x ∷ [])))) in
      let found : get_elem? (pre ++ x ∷ (mid ++ post)) i ≡ some x =
        subst (λ j. get_elem? (pre ++ x ∷ (mid ++ post)) j ≡ some x) (sym e)
          (get_elem?-append pre (mid ++ post) x) in
      rw (found, rest)

  cdr-cons : (x : A) (xs : List A) → tuple_cdr (x ∷ xs) ≡ some xs
  unfolding tuple_cdr
  cdr-cons x xs =
      let cut : get_all (x ∷ xs) (indices 1 (length xs)) ≡ some xs =
        subst (λ (u : List A). get_all (x ∷ u) (indices 1 (length xs)) ≡ some xs) (append-nil xs)
          (get_all-middle (x ∷ []) xs [] 1 refl) in
      ground (arith, cut)

  pub length-take : (k : ℕ) (t : List A) → k ≤ length t → length (take k t) ≡ k
  length-take zero t h = refl
  length-take (suc k) [] h = omega arith
  length-take (suc k) (x ∷ t) h = ap suc (length-take k t (omega arith))

  pub take-drop : (k : ℕ) (t : List A) → take k t ++ drop k t ≡ t
  take-drop zero t = refl
  take-drop (suc k) [] = refl
  take-drop (suc k) (x ∷ t) = ap (λ u. x ∷ u) (take-drop k t)

  -- `tuple_start` gives the first elements, when the tuple has as many.
  pub tuple_start-take : (k : ℕ) (t : List A) → k ≤ length t → tuple_start k t ≡ some (take k t)
  unfolding tuple_start
  tuple_start-take k t h =
      let cut : get_all t (indices 0 k) ≡ some (take k t) =
        subst (λ (u : List A). get_all u (indices 0 k) ≡ some (take k t)) (take-drop k t)
          (subst (λ j. get_all (take k t ++ drop k t) (indices 0 j) ≡ some (take k t))
            (length-take k t h) (get_all-middle [] (take k t) (drop k t) 0 refl)) in
      ground (arith, cut)

  drop-length : (t : List A) → drop (length t) t ≡ []
  drop-length [] = refl
  drop-length (x ∷ t) = drop-length t

  rounds-drop :
      (k len : ℕ) (t : List A)
      → length t < k
      → len ≤ length t
      → tuple_end_rounds k len t ≡ some (drop (length t - len) t)
  unfolding tuple_end_rounds
  rounds-drop zero len t h g = absurd (omega arith)
  rounds-drop (suc k) len [] h g = ground arith
  rounds-drop (suc k) len (x ∷ xs) h g =
      let fits : leb len (suc (length xs)) ≡ true = ground arith in
      elim (Bool-cases (leb len (length xs))) [
        | inr whole ↦
            let all : suc (length xs) - len ≡ 0 = ground arith in
            let some_wanted : (len == 0) ≡ false = ground arith in rw (fits, all, some_wanted)
        | inl shorter ↦
            let less : suc (length xs) - len ≡ suc (length xs - len) = ground arith in
            rw (fits, less)
              (elim (Bool-cases (len == 0)) [
                | inl nothing ↦
                    let same : length xs - len ≡ length xs = ground arith in
                    rw (nothing, same) (ap some (sym (drop-length xs)))
                | inr more ↦ rw more (elim (Bool-cases (length xs - len == 0)) [
                  | inl one ↦
                      let none_left : length xs - len ≡ 0 = ground arith in
                      rw (none_left, cdr-cons x xs)
                  | inr further ↦
                      let not_one : (suc (length xs - len) == 1) ≡ false = ground arith in
                      let not_all : (suc (length xs - len) == 0) ≡ false = ground arith in
                      rw (not_all, not_one, cdr-cons x xs)
                        (rounds-drop k len xs (omega arith) (ground arith))
                ])
              ])
      ]

  -- `tuple_end` gives the last elements, when the tuple has as many.
  pub tuple_end-drop :
      (len : ℕ) (t : List A) → len ≤ length t → tuple_end len t ≡ some (drop (length t - len) t)
  unfolding tuple_end
  tuple_end-drop len t h = rounds-drop (suc (length t)) len t (omega arith) h

  length-drop : (k : ℕ) (t : List A) → length (drop k t) ≡ length t - k
  length-drop zero t = omega arith
  length-drop (suc k) [] = omega arith
  length-drop (suc k) (x ∷ t) = length-drop k t ∙ omega arith

  fits-start : (k : ℕ) (t : List A) → is_some (tuple_start k t) ≡ leb k (length t)
  unfolding tuple_start
  fits-start k t = elim (Bool-cases (leb k (length t))) [
    | inl fits ↦ rw (tuple_start-take k t (ground arith), fits) refl
    | inr short ↦ rw short refl
  ]

  fits-end : (k : ℕ) (t : List A) → is_some (tuple_end k t) ≡ leb k (length t)
  unfolding tuple_end tuple_end_rounds
  fits-end k t = elim (Bool-cases (leb k (length t))) [
    | inl fits ↦ rw (tuple_end-drop k t (ground arith), fits) refl
    | inr short ↦ rw short refl
  ]

  joined :
      (k : ℕ) (t : List A)
      → (tuple_start k t >>= λ a. tuple_end (length t - k) t >>= λ b. some (a ++ b))
        ≡ (if leb k (length t) then some t else none)
  unfolding tuple_start
  joined k t = elim (Bool-cases (leb k (length t))) [
    | inl fits ↦
        let back : length t - (length t - k) ≡ k = ground arith in
        rw
          (
            tuple_start-take k t (ground arith),
            tuple_end-drop (length t - k) t (omega arith),
            back,
            fits,
          )
          (ap some (take-drop k t))
    | inr short ↦ rw short refl
  ]

  -- The first `k` elements of a tuple and the last of the others make up the tuple; both functions
  -- compile exactly for lengths up to that of the tuple.
  pub tuple_start-tuple_end :
      (k : ℕ) (t : List A)
      → ((tuple_start k t >>= λ a. tuple_end (length t - k) t >>= λ b. some (a ++ b))
          ≡ (if leb k (length t) then some t else none))
        × (is_some (tuple_start k t) ≡ leb k (length t))
        × (is_some (tuple_end k t) ≡ leb k (length t))
  tuple_start-tuple_end k t = (joined k t, fits-start k t, fits-end k t)
