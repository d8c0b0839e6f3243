-- ===== src/Handle/Counting.antt =====
-- How many handles hold an implementation, as handles are added and made to point elsewhere.
use libsigcplusplus.Prelude.{
  set_at, some-injective, ℕ, zero, suc, ◌+◌, ◌≡◌, sym, ap, ◌∙◌, false, Option, none, some, List, [],
  ◌∷◌, ◌++◌, ◌==◌, if◌then◌else◌, get_elem?, arith,
}
use libsigcplusplus.Handle.Store.{same_ptr, use_count}

-- What one handle adds to the count of `k`.
abbrev pub point : Option ℕ → ℕ → ℕ
point p k = if same_ptr p (some k) then 1 else 0

pub use_count-append :
    (k : ℕ) (ps : List (Option ℕ)) (p : Option ℕ)
    → use_count k (ps ++ p ∷ []) ≡ use_count k ps + point p k
use_count-append k [] p = omega arith
use_count-append k (q ∷ ps) p = omega (arith, use_count-append k ps p)

pub use_count-set_at :
    (k h : ℕ) (p q : Option ℕ) (ps : List (Option ℕ))
    → get_elem? ps h ≡ some q
    → use_count k (set_at h p ps) + point q k ≡ use_count k ps + point p k
use_count-set_at k h p q [] e = absurd (cc)
use_count-set_at k zero p q (x ∷ ps) e =
    ap (λ u. point p k + use_count k ps + point u k) (sym (some-injective e)) ∙ omega arith
use_count-set_at k (suc h) p q (x ∷ ps) e = omega (arith, use_count-set_at k h p q ps e)

-- A handle that holds `k` counts.
pub held-use_count :
    (k h : ℕ) (ps : List (Option ℕ))
    → get_elem? ps h ≡ some (some k)
    → (use_count k ps == 0) ≡ false
held-use_count k h [] e = absurd (cc)
held-use_count k zero (none ∷ ps) e = absurd (cc)
held-use_count k zero (some j ∷ ps) e =
    let same : j ≡ k = some-injective (some-injective e) in ground (arith, same)
held-use_count k (suc h) (x ∷ ps) e = ground (arith, held-use_count k h ps e)
