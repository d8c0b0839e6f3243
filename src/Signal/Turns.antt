-- ===== src/Signal/Turns.antt =====
-- Which slots an emission calls.
use libsigcplusplus.Prelude.{
  ℕ, ◌≡◌, refl, ◌∙◌, ap, true, ◌⊎◌, inl, inr, List, [], ◌∷◌, ◌==◌, arith, if◌then◌else◌,
}
use libsigcplusplus.Signal.Slot.{Event, called, destroyed, rep_callable}
use libsigcplusplus.Signal.Nodes.{Node}
use libsigcplusplus.Signal.Impl.{Impl}
use libsigcplusplus.Signal.Invariant.{Quiet, same, call}

-- The nodes called at a level, newest first.
unfoldable pub turns : ℕ → List Event → List ℕ
turns lvl [] = []
turns lvl (called l n f a ∷ log) = if l == lvl then n ∷ turns lvl log else turns lvl log
turns lvl (destroyed f ∷ log) = turns lvl log

pub Quiet-turns : {e : ℕ} {l k : List Event} → Quiet e l k → turns e k ≡ turns e l
unfolding turns
Quiet-turns same = refl
Quiet-turns (call h q) = ground (arith, Quiet-turns q)

-- Some of the slots of a list that could be called, in their order.
pub data Picks : List ℕ → List Node → Type 0 where
  nil : Picks [] []
  skip : {ps : List ℕ} {n : Node} {ns : List Node} → Picks ps ns → Picks ps (n ∷ ns)
  pick :
      {ps : List ℕ} {n : Node} {ns : List Node}
      → rep_callable n.slot.rep ≡ true
      → Picks ps ns
      → Picks (n.id ∷ ps) (n ∷ ns)

-- The log has the calls in the opposite order.
abbrev pub reverse_onto : List ℕ → List ℕ → List ℕ
reverse_onto [] l = l
reverse_onto (p ∷ ps) l = reverse_onto ps (p ∷ l)

-- What one round adds, and what a loop adds.
abbrev pub Turn : ℕ → Node → Impl → Impl → Type 0
Turn lvl m s t =
    (turns lvl t.log ≡ turns lvl s.log)
    ⊎ ((rep_callable m.slot.rep ≡ true) × (turns lvl t.log ≡ m.id ∷ turns lvl s.log))

abbrev pub InTurn : ℕ → List Node → Impl → List ℕ → Type 0
InTurn lvl ns s l = (ps : List ℕ) × Picks ps ns × (l ≡ reverse_onto ps (turns lvl s.log))

abbrev pub Turns : ℕ → List Node → Impl → Impl → Type 0
Turns lvl ns s t = InTurn lvl ns s (turns lvl t.log)

pub Turns-cons :
    (lvl : ℕ) (m : Node) (ns : List Node) (s t u : Impl)
    → Turn lvl m s t
    → Turns lvl ns t u
    → Turns lvl (m ∷ ns) s u
Turns-cons lvl m ns s t u (inl e) (ps, p, h) = (ps, skip p, h ∙ ap (reverse_onto ps) e)
Turns-cons lvl m ns s t u (inr (c, e)) (ps, p, h) =
    (m.id ∷ ps, pick c p, h ∙ ap (reverse_onto ps) e)
