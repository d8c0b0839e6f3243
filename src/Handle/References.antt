-- ===== src/Handle/References.antt =====
-- Signal objects as references to signals, without the memory that they manage
-- (sigc++/signal_base.{h,cc}).
use libsigcplusplus.Prelude.{
  get_elem-set_at, get_elem-length, set_at, ℕ, ◌+◌, ◌≡◌, refl, sym, ap, ◌∙◌, subst, Bool, true,
  false, Option, none, some, List, [], ◌∷◌, ◌++◌, ◌==◌, if◌then◌else◌, get_elem?, Outcome, ok,
  fault, no_fuel, ◌>>=◌,
}
use libsigcplusplus.Signal.Impl.{Impl, new_impl, destroy_impl}
use libsigcplusplus.Signal.Abstract.{Request}
use libsigcplusplus.Signal.View.{serve}
use libsigcplusplus.World.State.{set}
use libsigcplusplus.Handle.Store.{
  Store, same_ptr, use_count, pointer, let_go, point_to, impl, on_impl, makes, new_signal,
  copy_signal, move_signal, assign_signal, assign_move_signal, destroy_signal, ask,
}
use libsigcplusplus.Handle.Calls
use libsigcplusplus.Handle.Calls.{Call, perform}

-- The signal that each object refers to, none while it has none, and the number of the next signal.
abbrev pub References : Type 0
References = List (Option ℕ) × ℕ

abbrev pub references : Store → References
references st = (st.handles, st.next)

abbrev pub referent : ℕ → List (Option ℕ) → Option ℕ
referent h ps = elim (get_elem? ps h) [ none ↦ none | some p ↦ p ]

-- An object that has no signal is given a new one.
abbrev pub with_signal : ℕ → References → References
with_signal h r = elim (get_elem? r.0 h) [
  | none ↦ r
  | some p ↦ elim p [ none ↦ (set_at h (some r.1) r.0, r.1 + 1) | some k ↦ r ]
]

abbrev shared_with : ℕ → References → References
shared_with h r = (r.0 ++ referent h r.0 ∷ [], r.1)

abbrev set_to : ℕ → ℕ → References → References
set_to d h r = (set_at d (referent h r.0) r.0, r.1)

-- What a call does to the references: a copy refers to the signal of its source, which has one then;
-- what is moved from refers to none; objects that refer to the same are not assigned.
abbrev pub after : Call → References → References
after Calls.creates r = (r.0 ++ none ∷ [], r.1)
after (Calls.copies h) r = shared_with h (with_signal h r)
after (Calls.moves h) r = (set_at h none (r.0 ++ referent h r.0 ∷ []), r.1)
after (Calls.assigns d h) r =
    if same_ptr (referent h r.0) (referent d r.0) then r else set_to d h (with_signal h r)
after (Calls.assigns_move d h) r =
    if same_ptr (referent h r.0) (referent d r.0)
    then r
    else (set_at h none (set_at d (referent h r.0) r.0), r.1)
after (Calls.destroys h) r = (set_at h none r.0, r.1)
after (Calls.asks h q) r = if makes q then with_signal h r else r

abbrev pub after_all : List Call → References → References
after_all [] r = r
after_all (c ∷ cs) r = after_all cs (after c r)

-- A result, if there is one, is as `P` says.
abbrev pub Gives {ℓ} : {A : Type ℓ} → (A → Type 0) → Outcome A → Type 0
Gives P (ok a) = P a
Gives P fault = Unit {0}
Gives P no_fuel = Unit {0}

Gives-bind :
    {A B : Type 0} (P : A → Type 0) (Q : B → Type 0) (m : Outcome A) (f : A → Outcome B)
    → Gives P m
    → ((a : A) → P a → Gives Q (f a))
    → Gives Q (m >>= f)
Gives-bind P Q (ok a) f p next = next a p
Gives-bind P Q fault f p next = tt
Gives-bind P Q no_fuel f p next = tt

Gives-any : {A : Type 0} (m : Outcome A) → Gives (λ a. Unit {0}) m
Gives-any (ok a) = tt
Gives-any fault = tt
Gives-any no_fuel = tt

pointer-Gives : (h : ℕ) (st : Store) → Gives (λ p. get_elem? st.handles h ≡ some p) (pointer h st)
unfolding pointer
pointer-Gives h st = by_entry (get_elem? st.handles h) refl
  where
    by_entry :
        (o : Option (Option ℕ))
        → get_elem? st.handles h ≡ o
        → Gives
            (λ p. get_elem? st.handles h ≡ some p)
            (elim o as (λ x. Outcome (Option ℕ)) [ none ↦ fault | some p ↦ ok p ])
    by_entry none e = tt
    by_entry (some p) e = e

let_go-Gives : (o : Option ℕ) (st : Store) → Gives (λ t. references t ≡ references st) (let_go o st)
unfolding let_go
let_go-Gives none st = refl
let_go-Gives (some k) st = by_count (use_count k st.handles == 0) (st.impls k)
  where
    by_count :
        (b : Bool) (m : Option Impl)
        → Gives
            (λ t. references t ≡ references st)
            (if b
              then (elim m as (λ x. Outcome Store) [
                | none ↦ fault
                | some s ↦ destroy_impl s >>= λ t. ok (record st { impls = set k none st.impls })
              ])
              else ok st)
    by_count false m = refl
    by_count true none = tt
    by_count true (some s) =
        Gives-bind (λ t. Unit {0}) _ (destroy_impl s) _ (Gives-any (destroy_impl s)) (λ t p. refl)

point_to-Gives :
    (h : ℕ) (p : Option ℕ) (st : Store)
    → Gives (λ t. references t ≡ (set_at h p st.handles, st.next)) (point_to h p st)
unfolding point_to
point_to-Gives h p st =
    Gives-bind _ _ (pointer h st) _ (pointer-Gives h st)
      (λ old e. let_go-Gives old (record st { handles = set_at h p st.handles }))

impl-Gives :
    (h : ℕ) (st : Store)
    → Gives
        (λ r.
          (references r.1 ≡ with_signal h (references st))
          × (get_elem? r.1.handles h ≡ some (some r.0)))
        (impl h st)
unfolding impl
impl-Gives h st = Gives-bind _ _ (pointer h st) _ (pointer-Gives h st) by_pointer
  where
    by_pointer :
        (p : Option ℕ)
        → get_elem? st.handles h ≡ some p
        → Gives
            (λ r.
              (references r.1 ≡ with_signal h (references st))
              × (get_elem? r.1.handles h ≡ some (some r.0)))
            (elim p as (λ x. Outcome (ℕ × Store)) [
              | some k ↦ ok (k, st)
              | none ↦ ok (
                st.next,
                record {
                  handles = set_at h (some st.next) st.handles;
                  impls = set st.next (some new_impl) st.impls;
                  next = st.next + 1;
                },
              )
            ])
    by_pointer none e = (
      rw e refl,
      get_elem-set_at h (some st.next) st.handles (get_elem-length h none st.handles e),
    )
    by_pointer (some k) e = (rw e refl, e)

on_impl-Gives :
    (k : ℕ) (q : Request) (st : Store) → Gives (λ t. references t ≡ references st) (on_impl k q st)
unfolding on_impl
on_impl-Gives k q st = by_impl (st.impls k)
  where
    by_impl :
        (m : Option Impl)
        → Gives
            (λ t. references t ≡ references st)
            (elim m as (λ x. Outcome Store) [
              | none ↦ fault
              | some s ↦ serve q s >>= λ t. ok (record st { impls = set k (some t) st.impls })
            ])
    by_impl none = tt
    by_impl (some s) =
        Gives-bind (λ t. Unit {0}) _ (serve q s) _ (Gives-any (serve q s)) (λ t p. refl)

module _ (st : Store) where
  abbrev Becomes : References → Store → Type 0
  Becomes r t = references t ≡ r

  referent-found :
      (h : ℕ) (p : Option ℕ) (r : References) → get_elem? r.0 h ≡ some p → referent h r.0 ≡ p
  referent-found h p r e = rw (e, referent) refl

  copy-Gives :
      (h : ℕ) → Gives (Becomes (shared_with h (with_signal h (references st)))) (copy_signal h st)
  unfolding copy_signal
  copy-Gives h = Gives-bind _ _ (impl h st) _ (impl-Gives h st) (λ r w.
      ap (λ q. (r.1.handles ++ q ∷ [], r.1.next))
        (sym (referent-found h (some r.0) (references r.1) w.1))
      ∙ ap (shared_with h) w.0)

  move-Gives :
      (h : ℕ)
      → Gives
          (Becomes (set_at h none (st.handles ++ referent h st.handles ∷ []), st.next))
          (move_signal h st)
  unfolding move_signal
  move-Gives h = Gives-bind _ _ (pointer h st) _ (pointer-Gives h st) (λ p e.
      subst
        (λ q.
          Gives (Becomes (set_at h none (st.handles ++ q ∷ []), st.next))
            (point_to h none (record st { handles = st.handles ++ p ∷ [] })))
        (sym (referent-found h p (references st) e))
        (point_to-Gives h none (record st { handles = st.handles ++ p ∷ [] })))

  ap2_same_ptr : {o p q r : Option ℕ} → o ≡ p → q ≡ r → same_ptr o q ≡ same_ptr p r
  ap2_same_ptr e f = λ i. same_ptr (e i) (f i)

  -- Two pointers read, and compared.
  abbrev same_referent : ℕ → ℕ → Bool
  same_referent d h = same_ptr (referent h st.handles) (referent d st.handles)

  compared :
      (d h : ℕ) (r : References) (m : Option ℕ → Outcome Store)
      → ((p : Option ℕ) → referent h st.handles ≡ p → Gives (Becomes r) (m p))
      → Gives
          (Becomes (if same_referent d h then references st else r))
          (do p ← pointer h st; q ← pointer d st; if same_ptr p q then ok st else m p)
  compared d h r m given = Gives-bind _ _ (pointer h st) _ (pointer-Gives h st) (λ p e.
      Gives-bind _ _ (pointer d st) _ (pointer-Gives d st) (λ q f.
        subst
          (λ b.
            Gives (Becomes (if b then references st else r)) (if same_ptr p q then ok st else m p))
          (sym (
            ap2_same_ptr (referent-found h p (references st) e)
              (referent-found d q (references st) f)))
          (by_same p (referent-found h p (references st) e) (same_ptr p q))))
    where
      by_same :
          (p : Option ℕ)
          → referent h st.handles ≡ p
          → (b : Bool) → Gives (Becomes (if b then references st else r)) (if b then ok st else m p)
      by_same p e true = refl
      by_same p e false = given p e

  assign-Gives :
      (d h : ℕ) → Gives (Becomes (after (Calls.assigns d h) (references st))) (assign_signal d h st)
  unfolding assign_signal
  assign-Gives d h = compared d h (set_to d h (with_signal h (references st))) _ (λ p e.
      Gives-bind _ _ (impl h st) _ (impl-Gives h st) (λ r w.
        subst (λ x. Gives (Becomes x) (point_to d (some r.0) r.1))
          (ap (λ q. (set_at d q r.1.handles, r.1.next))
              (sym (referent-found h (some r.0) (references r.1) w.1))
            ∙ ap (set_to d h) w.0)
          (point_to-Gives d (some r.0) r.1)))

  assign_move-Gives :
      (d h : ℕ)
      → Gives (Becomes (after (Calls.assigns_move d h) (references st))) (assign_move_signal d h st)
  unfolding assign_move_signal
  assign_move-Gives d h =
      compared d h (set_at h none (set_at d (referent h st.handles) st.handles), st.next) _
        (λ p e. Gives-bind _ _ (point_to d p st) _ (point_to-Gives d p st) (λ t w.
          subst (λ x. Gives (Becomes x) (point_to h none t))
            (ap (λ (x : References). (set_at h none x.0, x.1)) w
              ∙ ap (λ q. (set_at h none (set_at d q st.handles), st.next)) (sym e))
            (point_to-Gives h none t)))

  ask-Gives :
      (h : ℕ) (q : Request) → Gives (Becomes (after (Calls.asks h q) (references st))) (ask h q st)
  unfolding ask
  ask-Gives h q =
      Gives-bind _ _ (pointer h st) _ (pointer-Gives h st) (λ p e. by_request p (makes q))
    where
      by_request :
          (p : Option ℕ) (b : Bool)
          → Gives (Becomes (if b then with_signal h (references st) else references st)) (
              if b
              then (impl h st >>= λ r. on_impl r.0 q r.1)
              else (elim p as (λ x. Outcome Store) [ none ↦ ok st | some k ↦ on_impl k q st ]))
      by_request p true =
          Gives-bind _ _ (impl h st) _ (impl-Gives h st) (λ r w.
            subst (λ x. Gives (Becomes x) (on_impl r.0 q r.1)) w.0 (on_impl-Gives r.0 q r.1))
      by_request none false = refl
      by_request (some k) false = on_impl-Gives k q st

  perform-Gives : (c : Call) → Gives (Becomes (after c (references st))) (perform c st)
  unfolding perform new_signal destroy_signal
  perform-Gives Calls.creates = refl
  perform-Gives (Calls.copies h) = copy-Gives h
  perform-Gives (Calls.moves h) = move-Gives h
  perform-Gives (Calls.assigns d h) = assign-Gives d h
  perform-Gives (Calls.assigns_move d h) = assign_move-Gives d h
  perform-Gives (Calls.destroys h) = point_to-Gives h none st
  perform-Gives (Calls.asks h q) = ask-Gives h q

-- The references after a call that has come to its end.
pub perform-after :
    (c : Call) (st t : Store) → perform c st ≡ ok t → references t ≡ after c (references st)
perform-after c st t e =
    subst (λ m. Gives (λ u. references u ≡ after c (references st)) m) e (perform-Gives st c)
