-- ===== src/Trackable/Clearing.antt =====
-- Notification: every callback is called, once and in order, whatever the callbacks do to the list.
use mathlib.Core.List.{append_assoc, append-nil}
use libsigcplusplus.Prelude.{
  ℕ, suc, ◌+◌, ◌≡◌, refl, sym, ap, ◌∙◌, subst, true, ◌⊎◌, inl, inr, Option, none, some, List, [],
  ◌∷◌, ◌++◌, get_elem?, length, length-append, arith, ok,
}
use libsigcplusplus.Trackable.Callbacks.{
  Callback, CallbackList, new_list, Op, Clearing, call_entry, call_all, destroy_list, clear,
}
use libsigcplusplus.Trackable.Kept.{
  has_remove, Kept, KeptAll, run_ops-KeptAll, KeptAll-refl, KeptAll-trans, All-OpIn,
  get_elem?-KeptAll, get_elem?-end,
}

-- The calls that a list of entries has led to, in order: an entry with a function is called, or its
-- object is in `P`.
pub data Calls (P : ℕ → Type 0) : List (ℕ × ℕ) → List Callback → Type 0 where
  nil : Calls P [] []
  call :
      {f : ℕ} {c : Callback} {ps : List (ℕ × ℕ)} {cs : List Callback}
      → c.func ≡ some f
      → Calls P ps cs
      → Calls P ((f, c.object) ∷ ps) (c ∷ cs)
  dead :
      {c : Callback} {ps : List (ℕ × ℕ)} {cs : List Callback}
      → c.func ≡ none
      → Calls P ps cs
      → Calls P ps (c ∷ cs)
  gone :
      {c : Callback} {ps : List (ℕ × ℕ)} {cs : List Callback}
      → P c.object
      → Calls P ps cs
      → Calls P ps (c ∷ cs)

-- The calls are logged newest first.
abbrev pub reverse_calls : List (ℕ × ℕ) → List (ℕ × ℕ) → List (ℕ × ℕ)
reverse_calls [] l = l
reverse_calls (p ∷ ps) l = reverse_calls ps (p ∷ l)

module _ (react : ℕ → ℕ → List Op) where
  -- Some callback removes the entry of the object.
  abbrev pub Removed : ℕ → Type 0
  Removed d = (f : ℕ) × (e : ℕ) × (has_remove d (react f e) ≡ true)

  -- One round: the entry is called, or it has no function any more.
  abbrev Round : Callback → Clearing → Clearing → Type 0
  Round c s t =
      KeptAll Removed s.list.callbacks t.list.callbacks
      × (t.list.clearing ≡ true)
      × (((f : ℕ) × (c.func ≡ some f) × (t.calls ≡ (f, c.object) ∷ s.calls))
          ⊎ (((c.func ≡ none) ⊎ Removed c.object) × (t.calls ≡ s.calls)))

  call_entry-Round :
      (c d : Callback) (s : Clearing)
      → s.list.clearing ≡ true
      → Kept Removed c d
      → Round c s (call_entry react d s)
  unfolding call_entry
  call_entry-Round c d s e k = go d.func refl
    where
      go :
          (o : Option ℕ)
          → d.func ≡ o
          → Round c s (call_entry react (record { object = d.object; func = o }) s)
      go none h = (
        KeptAll-refl Removed s.list.callbacks,
        e,
        inr (elim k.1 [ inl g ↦ inl (sym g ∙ h) | inr (g, p) ↦ inr p ], refl),
      )
      go (some f) h =
          let (q, still) =
            run_ops-KeptAll Removed (react f d.object) s.list e
              (All-OpIn Removed (react f d.object) λ x m. (f, d.object, m)) in
          (
            q,
            still,
            inl (
              f,
              elim k.1 [ inl g ↦ sym g ∙ h | inr (g, p) ↦ cc ],
              ap (λ x. (f, x) ∷ s.calls) k.0,
            ),
          )

  call_all-step :
      (k i : ℕ) (s : Clearing) (d : Callback)
      → get_elem? s.list.callbacks i ≡ some d
      → call_all react (suc k) i s ≡ call_all react k (i + 1) (call_entry react d s)
  unfolding call_all
  call_all-step k i s d e = rw (e, call_all)

  call_all-end :
      (k i : ℕ) (s : Clearing)
      → get_elem? s.list.callbacks i ≡ none
      → call_all react (suc k) i s ≡ ok s
  unfolding call_all
  call_all-end k i s e = rw (e, call_all)

  Calls-cons :
      (c : Callback) (rest : List Callback) (s s' t : Clearing)
      → ((f : ℕ) × (c.func ≡ some f) × (s'.calls ≡ (f, c.object) ∷ s.calls))
        ⊎ (((c.func ≡ none) ⊎ Removed c.object) × (s'.calls ≡ s.calls))
      → (ps : List (ℕ × ℕ)) → Calls Removed ps rest
      → t.calls ≡ reverse_calls ps s'.calls
      → (qs : List (ℕ × ℕ)) × Calls Removed qs (c ∷ rest) × (t.calls ≡ reverse_calls qs s.calls)
  Calls-cons c rest s s' t (inl (f, g, e)) ps calls log =
      ((f, c.object) ∷ ps, call g calls, log ∙ ap (reverse_calls ps) e)
  Calls-cons c rest s s' t (inr (inl g, e)) ps calls log =
      (ps, dead g calls, log ∙ ap (reverse_calls ps) e)
  Calls-cons c rest s s' t (inr (inr p, e)) ps calls log =
      (ps, gone p calls, log ∙ ap (reverse_calls ps) e)

  -- The loop, from any position on.
  loop-Calls :
      (todo pre : List Callback) (i : ℕ) (s : Clearing)
      → i ≡ length pre
      → KeptAll Removed (pre ++ todo) s.list.callbacks
      → s.list.clearing ≡ true
      → (t : Clearing) × (call_all react (suc (length todo)) i s ≡ ok t)
        × (t.list.clearing ≡ true)
        × ((ps : List (ℕ × ℕ)) × Calls Removed ps todo × (t.calls ≡ reverse_calls ps s.calls))
  loop-Calls [] pre i s at h e =
      let all = subst (λ xs. KeptAll Removed xs s.list.callbacks) (append-nil pre) h in
      (
        s,
        call_all-end 0 i s (
            subst (λ x. get_elem? s.list.callbacks x ≡ none) (sym at)
              (get_elem?-end Removed pre s.list.callbacks all)),
        e,
        ([], nil, refl),
      )
  loop-Calls (c ∷ rest) pre i s at h e =
      let (d, found, k) = get_elem?-KeptAll Removed pre rest s.list.callbacks c h in
      let (kept, still, what) = call_entry-Round c d s e k in
      let s' = call_entry react d s in
      let split = append_assoc pre (c ∷ []) rest in
      let (t, run, clearing, more) =
        loop-Calls rest (pre ++ c ∷ []) (i + 1) s' (omega (arith, length-append pre (c ∷ [])))
          (subst (λ xs. KeptAll Removed xs s'.list.callbacks) (sym split)
            (KeptAll-trans Removed _ _ _ h kept))
          still in
      let step =
        call_all-step (suc (length rest)) i s d
          (subst (λ x. get_elem? s.list.callbacks x ≡ some d) (sym at) found) in
      (t, step ∙ run, clearing, Calls-cons c rest s s' t what more.0 more.1 more.2)

  -- `clear` comes to an end with an empty list, whatever the callbacks add or remove meanwhile: the
  -- entries are called in the order of the list, at most once each, with their own function and
  -- object, and one is left out only if it had no function or some callback removes its object.
  pub clear-Calls :
      (l : CallbackList)
      → (t : Clearing) × (clear react l ≡ ok t)
        × (t.list ≡ new_list)
        × ((ps : List (ℕ × ℕ)) × Calls Removed ps l.callbacks × (t.calls ≡ reverse_calls ps []))
  unfolding clear
  clear-Calls l =
      let s : Clearing = record { list = record l { clearing = true }; calls = [] } in
      let (t, run, still, more) =
        loop-Calls l.callbacks [] 0 s refl (KeptAll-refl Removed l.callbacks) refl in
      (record t { list = new_list }, rw run, refl, more)

  -- The destructor makes the same calls.
  pub destroy_list-Calls :
      (l : CallbackList)
      → (t : Clearing) × (destroy_list react l ≡ ok t)
        × ((ps : List (ℕ × ℕ)) × Calls Removed ps l.callbacks × (t.calls ≡ reverse_calls ps []))
  unfolding destroy_list
  destroy_list-Calls l =
      let s : Clearing = record { list = record l { clearing = true }; calls = [] } in
      let (t, run, still, more) =
        loop-Calls l.callbacks [] 0 s refl (KeptAll-refl Removed l.callbacks) refl in
      (t, run, more)
