-- ===== src/Handle/Sharing.antt =====
-- A copy of a signal object and its source: one signal through two objects.
use libsigcplusplus.Prelude.{
  get_elem-append, get_elem-last, ℕ, ◌≡◌, refl, sym, ap, ◌∙◌, subst, Bool, true, false, inl, inr,
  Option, none, some, List, [], ◌∷◌, map, if◌then◌else◌, get_elem?, length, Bool-cases, Outcome, ok,
  fault, no_fuel, ◌>>=◌, ok-injective, Safe-result, ◌<◌, ◌++◌,
}
use libsigcplusplus.Signal.Impl.{Impl}
use libsigcplusplus.Signal.Abstract.{Request}
use libsigcplusplus.Signal.View.{serve}
use libsigcplusplus.World.State.{set}
use libsigcplusplus.Handle.Store.{Store, impl, on_impl, makes, copy_signal, ask}
use libsigcplusplus.Handle.Keeps.{pointer-at, impl-Owned}
use libsigcplusplus.Handle.Owned.{Owned}

-- Requests through one object.
unfoldable pub ask_all : ℕ → List Request → Store → Outcome Store
unfolding ask
ask_all h [] st = ok st
ask_all h (q ∷ qs) st = ask h q st >>= ask_all h qs

-- Requests through one of two objects, the first where the mark is true.
unfoldable pub ask_either : ℕ → ℕ → List (Bool × Request) → Store → Outcome Store
unfolding ask
ask_either c h [] st = ok st
ask_either c h ((b, q) ∷ qs) st = ask (if b then c else h) q st >>= ask_either c h qs

bind-same :
    {A B : Type 0} (m : Outcome A) (f g : A → Outcome B)
    → ((a : A) → m ≡ ok a → f a ≡ g a)
    → (m >>= f) ≡ (m >>= g)
bind-same (ok a) f g same = same a refl
bind-same fault f g same = refl
bind-same no_fuel f g same = refl

-- An object that has its implementation passes the request on.
ask-there :
    (h k : ℕ) (q : Request) (st : Store)
    → get_elem? st.handles h ≡ some (some k)
    → ask h q st ≡ on_impl k q st
unfolding ask impl
ask-there h k q st e =
    rw (pointer-at h st (some k) e)
      (elim (Bool-cases (makes q)) [ inl m ↦ rw m refl | inr m ↦ rw m refl ])

on_impl-handles :
    (k : ℕ) (q : Request) (st t : Store) → on_impl k q st ≡ ok t → t.handles ≡ st.handles
unfolding on_impl
on_impl-handles k q st t e = by_impl (st.impls k) e
  where
    by_result :
        (m : Outcome Impl)
        → (m >>= λ u. ok (record st { impls = set k (some u) st.impls })) ≡ ok t
        → t.handles ≡ st.handles
    by_result (ok u) e = ap (λ x. x.handles) (sym (ok-injective e))
    by_result fault e = absurd (cc)
    by_result no_fuel e = absurd (cc)

    by_impl :
        (m : Option Impl)
        → (elim m as (λ x. Outcome Store) [
          | none ↦ fault
          | some s ↦ serve q s >>= λ u. ok (record st { impls = set k (some u) st.impls })
        ])
          ≡ ok t
        → t.handles ≡ st.handles
    by_impl none e = absurd (cc)
    by_impl (some s) e = by_result (serve q s) e

ask_either-one :
    (c h k : ℕ) (qs : List (Bool × Request)) (st : Store)
    → get_elem? st.handles c ≡ some (some k)
    → get_elem? st.handles h ≡ some (some k)
    → ask_either c h qs st ≡ ask_all h (map (λ r. r.1) qs) st
unfolding ask_either ask_all
ask_either-one c h k [] st at_c at_h = refl
ask_either-one c h k ((b, q) ∷ qs) st at_c at_h =
    ap (λ m. m >>= ask_either c h qs) (first b)
    ∙ bind-same (ask h q st) (ask_either c h qs) (ask_all h (map (λ r. r.1) qs)) (λ t e.
      let same = on_impl-handles k q st t (sym (ask-there h k q st at_h) ∙ e) in
      ask_either-one c h k qs t (ap (λ ps. get_elem? ps c) same ∙ at_c)
        (ap (λ ps. get_elem? ps h) same ∙ at_h))
  where
    first : (b : Bool) → ask (if b then c else h) q st ≡ ask h q st
    first true = ask-there c k q st at_c ∙ sym (ask-there h k q st at_h)
    first false = refl

-- A signal object among ones that own what they share can be copied, and any requests after that, each
-- through the copy or through the source, do what all of them do through the source.
pub copy-shares :
    (h : ℕ) (qs : List (Bool × Request)) (st : Store)
    → Owned st
    → h < length st.handles
    → (t : Store) × (copy_signal h st ≡ ok t)
      × (ask_either (length st.handles) h qs t ≡ ask_all h (map (λ r. r.1) qs) t)
unfolding copy_signal
copy-shares h qs st o lt =
    let (r, run, (kept, at)) = Safe-result (impl-Owned h st o lt) in
    (
      record (r.1) { handles = r.1.handles ++ some r.0 ∷ [] },
      rw run refl,
      ask_either-one (length st.handles) h r.0 qs _
          (subst (λ n. get_elem? (r.1.handles ++ some r.0 ∷ []) n ≡ some (some r.0)) kept.1
            (get_elem-last (some r.0) r.1.handles))
          (get_elem-append h (some r.0) (some r.0) r.1.handles at),
    )
