-- ===== src/Handle/Owned.antt =====
-- The shared_ptrs of signal objects: an implementation is there exactly as long as a handle holds it.
use libsigcplusplus.Prelude.{
  ℕ, ◌≤◌, ◌≡◌, refl, sym, ap, ◌∙◌, subst, true, false, not, inl, inr, Option, none, some, List,
  ◌==◌, get_elem?, length, is_some, Bool-cases, arith, Outcome, ok, fault, ◌>>=◌, Safe, safe,
}
use libsigcplusplus.Signal.Impl.{Impl, destroy_impl}
use libsigcplusplus.Signal.Rest.{destroy_impl-rest}
use libsigcplusplus.Signal.View.{Ready}
use libsigcplusplus.World.State.{set}
use libsigcplusplus.Handle.Store.{Store, use_count, let_go}
use libsigcplusplus.Handle.Counting.{held-use_count}

-- What a use count says of an implementation.
abbrev pub Shared : List (Option ℕ) → (ℕ → Option Impl) → Type 0
Shared ps g = (k : ℕ) → is_some (g k) ≡ not (use_count k ps == 0)

pub record Owned (st : Store) : Type 0 where
  pub shared : Shared st.handles st.impls
  pub ready : (k : ℕ) (s : Impl) → st.impls k ≡ some s → Ready s
  pub fresh : (k : ℕ) → st.next ≤ k → st.impls k ≡ none

-- A pointer that is null or to an implementation that is there.
abbrev pub Points : (ℕ → Option Impl) → Option ℕ → Type 0
Points g none = Unit {0}
Points g (some k) = is_some (g k) ≡ true

pub handle-Points :
    (st : Store) (h : ℕ) (p : Option ℕ)
    → Owned st
    → get_elem? st.handles h ≡ some p
    → Points st.impls p
handle-Points st h none o e = tt
handle-Points st h (some k) o e = o.shared k ∙ ap not (held-use_count k h st.handles e)

-- One more or one less implementation.
module _ (k : ℕ) (m : Option Impl) (g : ℕ → Option Impl) where
  pub Shared-set :
      (ps : List (Option ℕ))
      → is_some m ≡ not (use_count k ps == 0)
      → ((j : ℕ) → (j == k) ≡ false → is_some (g j) ≡ not (use_count j ps == 0))
      → Shared ps (set k m g)
  Shared-set ps here others j = elim (Bool-cases (j == k)) [
    | inl e ↦
        let same : k ≡ j = ground (arith, e) in
        rw e (subst (λ x. is_some m ≡ not (use_count x ps == 0)) same here)
    | inr e ↦ rw e (others j e)
  ]

  pub Ready-set :
      ((s : Impl) → m ≡ some s → Ready s)
      → ((j : ℕ) (s : Impl) → g j ≡ some s → Ready s)
      → (j : ℕ) (s : Impl) → set k m g j ≡ some s
      → Ready s
  Ready-set here others j s e = elim (Bool-cases (j == k)) [
    | inl h ↦ here s (rw h at e)
    | inr h ↦ others j s (rw h at e)
  ]

  pub fresh-set :
      (n n' : ℕ)
      → n ≤ n'
      → (n' ≤ k → m ≡ none)
      → ((j : ℕ) → n ≤ j → g j ≡ none)
      → (j : ℕ) → n' ≤ j
      → set k m g j ≡ none
  fresh-set n n' le here others j i = elim (Bool-cases (j == k)) [
    | inl h ↦ (let same : j ≡ k = ground (arith, h) in rw h (here (omega (arith, same, i))))
    | inr h ↦ rw h (others j (omega arith))
  ]

-- What an operation does with the pointers: as many as before, each with its implementation.
abbrev pub Kept : ℕ → Store → Type 0
Kept n t = Owned t × (length t.handles ≡ n)

-- An implementation that is let go of is destroyed if nothing else holds it.
pub let_go-Owned :
    (k : ℕ) (st : Store)
    → is_some (st.impls k) ≡ true
    → ((j : ℕ) → (j == k) ≡ false → is_some (st.impls j) ≡ not (use_count j st.handles == 0))
    → ((j : ℕ) (s : Impl) → st.impls j ≡ some s → Ready s)
    → ((j : ℕ) → st.next ≤ j → st.impls j ≡ none)
    → Safe ⊥ (Kept (length st.handles)) (let_go (some k) st)
unfolding let_go
let_go-Owned k st there others rd fr = elim (Bool-cases (use_count k st.handles == 0)) [
  | inl z ↦ rw z (destroys z (st.impls k) refl)
  | inr z ↦ rw z (safe (record { shared = λ j. stays z j; ready = rd; fresh = fr }, refl))
]
  where
    stays :
        (use_count k st.handles == 0) ≡ false
        → (j : ℕ) → is_some (st.impls j) ≡ not (use_count j st.handles == 0)
    stays z j = elim (Bool-cases (j == k)) [
      | inl e ↦
          let same : k ≡ j = ground (arith, e) in
          subst (λ x. is_some (st.impls x) ≡ not (use_count x st.handles == 0)) same
            (there ∙ ap not (sym z))
      | inr e ↦ others j e
    ]

    destroys :
        (use_count k st.handles == 0) ≡ true
        → (m : Option Impl) → st.impls k ≡ m
        → Safe ⊥ (Kept (length st.handles)) (elim m as (λ x. Outcome Store) [
          | none ↦ fault
          | some s ↦ destroy_impl s >>= λ t. ok (record st { impls = set k none st.impls })
        ])
    destroys z none e = absurd (cc)
    destroys z (some s) e =
        let r = rd k s e in
        rw (destroy_impl-rest s r.settled.wf.distinct r.settled.idle r.settled.clean) (
          safe (
            record {
              shared = Shared-set k none st.impls st.handles (ap not (sym z)) others;
              ready = Ready-set k none st.impls (λ s' d. absurd (cc)) rd;
              fresh = fresh-set k none st.impls st.next st.next (omega arith) (λ _. refl) fr;
            },
            refl,
          ))
