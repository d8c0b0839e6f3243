-- ===== src/Network/Moved.antt =====
-- What may happen to a signal while functors run: at rest it comes to rest again, and while it emits it
-- keeps its slots.
use libsigcplusplus.Prelude.{
  ℕ, ◌+◌, ◌<◌, ◌≡◌, refl, sym, ◌∙◌, subst, false, inl, inr, Bool-cases, ◌==◌, arith, eq_self,
}
use libsigcplusplus.Signal.Impl.{Impl}
use libsigcplusplus.Signal.Invariant.{Wf, Good, Good-refl, Good-trans, Good-mono}
use libsigcplusplus.Signal.Guarantee.{Settled}
use libsigcplusplus.World.State.{set}
use libsigcplusplus.Network.Emit.{Network}

pub data Alright (s : Impl) : Type 0 where
  still : Settled s → Alright s
  busy : Wf s → 0 < s.exec → Alright s

pub data Moved (s t : Impl) : Type 0 where
  rests : Settled s → Settled t → Moved s t
  runs : 0 < s.exec → Good s.exec s t → Moved s t

pub Moved-refl : (s : Impl) → Alright s → Moved s s
Moved-refl s (still st) = rests st st
Moved-refl s (busy wf pos) = runs pos (Good-refl s.exec s wf)

pub exec-Moved : (s t : Impl) → Moved s t → t.exec ≡ s.exec
exec-Moved s t (rests p q) = q.idle ∙ sym p.idle
exec-Moved s t (runs pos g) = g.inner.exec

pub Moved-Alright : (s t : Impl) → Moved s t → Alright t
Moved-Alright s t (rests p q) = still q
Moved-Alright s t (runs pos g) = busy g.wf (omega (arith, g.inner.exec))

pub Moved-Good : (s t : Impl) → 0 < s.exec → Moved s t → Good s.exec s t
Moved-Good s t pos (rests p q) = absurd (omega (arith, p.idle))
Moved-Good s t pos (runs _ g) = g

pub Moved-Settled : (s t : Impl) → s.exec ≡ 0 → Moved s t → Settled t
Moved-Settled s t idle (rests p q) = q
Moved-Settled s t idle (runs pos g) = absurd (omega arith)

pub Moved-trans : (s t u : Impl) → Moved s t → Moved t u → Moved s u
Moved-trans s t u (rests p q) m = rests p (Moved-Settled t u q.idle m)
Moved-trans s t u (runs pos g) m = runs pos (
    Good-trans s.exec s t u g (
      Good-mono s.exec t.exec t u (omega (arith, g.inner.exec))
        (Moved-Good t u (omega (arith, g.inner.exec)) m)))

-- All signals, with room for nested emissions of a depth.
abbrev pub AllAlright : ℕ → Network → Type 0
AllAlright d w = (j : ℕ) → Alright (w j) × ((w j).exec + d < 32768)

abbrev pub Moves : Network → Network → Type 0
Moves w v = (j : ℕ) → Moved (w j) (v j)

abbrev pub OthersMove : ℕ → Network → Network → Type 0
OthersMove k w v = (j : ℕ) → (j == k) ≡ false → Moved (w j) (v j)

pub Moves-AllAlright : (d : ℕ) (w v : Network) → AllAlright d w → Moves w v → AllAlright d v
Moves-AllAlright d w v h m j =
    (Moved-Alright (w j) (v j) (m j), omega (arith, exec-Moved (w j) (v j) (m j), (h j).1))

pub set-at : (k : ℕ) (s : Impl) (w : Network) → set k s w k ≡ s
set-at k s w = rw (eq_self k) refl

pub set-other : (k j : ℕ) (s : Impl) (w : Network) → (j == k) ≡ false → set k s w j ≡ w j
set-other k j s w e = rw e refl

-- A property of every signal, at the one that is set and at the others.
pub set-all :
    (P : ℕ → Impl → Type 0) (k : ℕ) (s : Impl) (w : Network)
    → P k s
    → ((j : ℕ) → (j == k) ≡ false → P j (w j))
    → (j : ℕ) → P j (set k s w j)
set-all P k s w here others j = elim (Bool-cases (j == k)) [
  | inl e ↦
      let same : k ≡ j = ground (arith, e) in
      subst (λ i. P i (set k s w i)) same (subst (P k) (sym (set-at k s w)) here)
  | inr e ↦ subst (P j) (sym (set-other k j s w e)) (others j e)
]
