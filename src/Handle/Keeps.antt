-- ===== src/Handle/Keeps.antt =====
-- The steps that the members of signal_base are made of keep every implementation owned.
use libsigcplusplus.Prelude.{
  some-injective, get_elem-set_at, length-set_at, get_elem-some, set_at, ℕ, ◌+◌, ◌<◌, ◌≡◌, refl,
  sym, ◌∙◌, subst, Bool, true, false, not, ◌⊎◌, inl, inr, Option, none, some, List, [], ◌∷◌, ◌++◌,
  ◌==◌, get_elem?, length, is_some, Bool-cases, arith, Outcome, ok, fault, ◌>>=◌, Safe, safe,
  Safe-map, length-append,
}
use libsigcplusplus.Signal.Impl.{Impl, new_impl}
use libsigcplusplus.Signal.Abstract.{Request}
use libsigcplusplus.Signal.View.{Ready, serve}
use libsigcplusplus.Signal.Refinement.{serve-answer}
use libsigcplusplus.World.State.{set}
use libsigcplusplus.Handle.Store.{Store, use_count, pointer, let_go, point_to, impl, on_impl}
use libsigcplusplus.Handle.Counting.{point, use_count-append, use_count-set_at}
use libsigcplusplus.Handle.Owned.{
  Owned, Points, Kept, handle-Points, Shared-set, Ready-set, fresh-set, let_go-Owned,
}

pub new_impl-Ready : Ready new_impl
new_impl-Ready = record {
  settled = record {
    wf = record { alive = refl; distinct = tt; below = tt; nodes = tt };
    idle = refl;
    clean = refl;
    reps = tt;
  };
  whole = tt;
}

pub pointer-at :
    (h : ℕ) (st : Store) (p : Option ℕ) → get_elem? st.handles h ≡ some p → pointer h st ≡ ok p
unfolding pointer
pointer-at h st p e = rw (pointer, e) refl

Points-cases :
    (g : ℕ → Option Impl) (p : Option ℕ) (j : ℕ)
    → Points g p
    → (point p j ≡ 0) ⊎ (is_some (g j) ≡ true)
Points-cases g none j h = inl refl
Points-cases g (some k) j h = elim (Bool-cases (k == j)) [
  | inl e ↦ (let same : k ≡ j = ground (arith, e) in inr (subst (λ x. is_some (g x) ≡ true) same h))
  | inr e ↦ inl (rw e refl)
]

point-other : (k j : ℕ) → (j == k) ≡ false → point (some k) j ≡ 0
point-other k j e = ground arith

-- A handle more on something that is there.
count-more :
    (b : Bool) (c c' p : ℕ)
    → b ≡ not (c == 0)
    → (p ≡ 0) ⊎ (b ≡ true)
    → c' ≡ c + p
    → b ≡ not (c' == 0)
count-more b c c' p h (inl z) e = ground arith
count-more b c c' p h (inr t) e = ground arith

pub point_to-Owned :
    (h : ℕ) (p : Option ℕ) (st : Store)
    → Owned st
    → Points st.impls p
    → h < length st.handles
    → Safe ⊥ (Kept (length st.handles)) (point_to h p st)
unfolding point_to let_go
point_to-Owned h p st o pts lt =
    let (old, at) = get_elem-some h st.handles lt in rw (pointer-at h st old at) (go old at)
  where
    moved : List (Option ℕ)
    moved = set_at h p st.handles

    counted :
        (old : Option ℕ) (j : ℕ)
        → get_elem? st.handles h ≡ some old
        → point old j ≡ 0
        → is_some (st.impls j) ≡ not (use_count j (set_at h p st.handles) == 0)
    counted old j at z =
        count-more _ (use_count j st.handles) _ (point p j) (o.shared j)
          (Points-cases st.impls p j pts)
          (omega (arith, use_count-set_at j h p old st.handles at, z))

    go :
        (old : Option ℕ)
        → get_elem? st.handles h ≡ some old
        → Safe ⊥
            (Kept (length st.handles))
            (let_go old (record st { handles = set_at h p st.handles }))
    go none at = safe (
      record { shared = λ j. counted none j at refl; ready = o.ready; fresh = o.fresh },
      length-set_at h p st.handles,
    )
    go (some k) at =
        Safe-map
          (let_go-Owned k (record st { handles = set_at h p st.handles })
            (handle-Points st h (some k) o at) (λ j e. counted (some k) j at (point-other k j e))
            o.ready o.fresh)
          (λ t w. (w.0, w.1 ∙ length-set_at h p st.handles))

-- A new signal object.
pub append-Owned :
    (p : Option ℕ) (st : Store)
    → Owned st
    → Points st.impls p
    → Kept (length st.handles + 1) (record st { handles = st.handles ++ p ∷ [] })
append-Owned p st o pts = (
  record {
    shared = λ j.
        count-more _ (use_count j st.handles) _ (point p j) (o.shared j)
          (Points-cases st.impls p j pts) (use_count-append j st.handles p);
    ready = o.ready;
    fresh = o.fresh;
  },
  length-append st.handles (p ∷ []),
)

pub impl-Owned :
    (h : ℕ) (st : Store)
    → Owned st
    → h < length st.handles
    → Safe ⊥
        (λ r. Kept (length st.handles) r.1 × (get_elem? r.1.handles h ≡ some (some r.0)))
        (impl h st)
unfolding impl
impl-Owned h st o lt =
    let (p, at) = get_elem-some h st.handles lt in rw (pointer-at h st p at) (go p at)
  where
    go :
        (p : Option ℕ)
        → get_elem? st.handles h ≡ some p
        → Safe ⊥
            (λ r. Kept (length st.handles) r.1 × (get_elem? r.1.handles h ≡ some (some r.0)))
            (elim p as (λ x. Outcome (ℕ × Store)) [
              | some k ↦ ok (k, st)
              | none ↦ ok (
                st.next,
                record {
                  handles = set_at h (some st.next) st.handles;
                  impls = set st.next (some new_impl) st.impls;
                  next = st.next + 1;
                },
              )
            ])
    go (some k) at = safe ((o, refl), at)
    go none at = safe (
      (
        record {
          shared =
              Shared-set st.next (some new_impl) st.impls (set_at h (some st.next) st.handles)
                (ground (arith, counted st.next))
                (λ j e. ground (arith, counted j, o.shared j, point-other st.next j e));
          ready =
              Ready-set st.next (some new_impl) st.impls
                (λ s d. subst Ready (some-injective d) new_impl-Ready) o.ready;
          fresh =
              fresh-set st.next (some new_impl) st.impls st.next (st.next + 1) (omega arith)
                (λ i. absurd (omega (arith, i))) o.fresh;
        },
        length-set_at h (some st.next) st.handles,
      ),
      get_elem-set_at h (some st.next) st.handles lt,
    )
      where
        counted :
            (j : ℕ)
            → use_count j (set_at h (some st.next) st.handles)
              ≡ use_count j st.handles + point (some st.next) j
        counted j = omega (arith, use_count-set_at j h (some st.next) none st.handles at)

-- A request through a pointer to an implementation that is there.
pub on_impl-Owned :
    (k : ℕ) (q : Request) (st : Store)
    → Owned st
    → is_some (st.impls k) ≡ true
    → Safe ⊥ (λ t. Owned t × (t.handles ≡ st.handles)) (on_impl k q st)
unfolding on_impl
on_impl-Owned k q st o there = go (st.impls k) refl
  where
    go :
        (m : Option Impl)
        → st.impls k ≡ m
        → Safe ⊥
            (λ t. Owned t × (t.handles ≡ st.handles))
            (elim m as (λ x. Outcome Store) [
              | none ↦ fault
              | some s ↦ serve q s >>= λ t. ok (record st { impls = set k (some t) st.impls })
            ])
    go none e = absurd (cc)
    go (some s) e =
        let (t, run, r, v) = serve-answer q s (o.ready k s e) in
        rw run (
          safe (
            record {
              shared =
                  Shared-set k (some t) st.impls st.handles (sym there ∙ o.shared k)
                    (λ j d. o.shared j);
              ready =
                  Ready-set k (some t) st.impls (λ s' d. subst Ready (some-injective d) r) o.ready;
              fresh =
                  fresh-set k (some t) st.impls st.next st.next (omega arith)
                    (λ i. (let gone : st.impls k ≡ none = o.fresh k i in absurd (cc))) o.fresh;
            },
            refl,
          ))
