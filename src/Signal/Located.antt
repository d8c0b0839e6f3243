-- ===== src/Signal/Located.antt =====
-- An accumulator that stays in its range, and where its iterators are.
use libsigcplusplus.Prelude.{
  ℕ, zero, suc, ◌<◌, ◌≡◌, refl, sym, subst, true, some, List, [], ◌∷◌, ◌++◌, get_elem?, set_at,
  is_some, ◌==◌, some-injective, ok,
}
use libsigcplusplus.Signal.Nodes.{Node}
use libsigcplusplus.Signal.Extension.{Distinct}
use libsigcplusplus.Signal.Accumulate
use libsigcplusplus.Signal.Accumulate.{Buffer, Use, equal, buffer}
use libsigcplusplus.Signal.Ranges.{same-at}

-- The accumulator reads no slot at or behind the end of a range of `n`, and leaves the range at
-- neither end; its iterators are at the places `ps`. A comparison comes out as the places do.
abbrev pub Respects : ℕ → List ℕ → Use → Type 0
Respects n ps (Accumulate.returns r) = Unit {0}
Respects n ps (Accumulate.derefs j k) =
    (p : ℕ) × (get_elem? ps j ≡ some p) × (p < n) × ((r : ℕ) → Respects n ps (k r))
Respects n ps (Accumulate.increments j u) =
    (p : ℕ) × (get_elem? ps j ≡ some p) × (p < n) × Respects n (set_at j (suc p) ps) u
Respects n ps (Accumulate.decrements j u) =
    (p : ℕ) × (get_elem? ps j ≡ some (suc p)) × Respects n (set_at j p ps) u
Respects n ps (Accumulate.compares i j k) =
    (p : ℕ) × (q : ℕ) × (get_elem? ps i ≡ some p)
    × (get_elem? ps j ≡ some q)
    × Respects n ps (k (p == q))
Respects n ps (Accumulate.copies j u) =
    (p : ℕ) × (get_elem? ps j ≡ some p) × Respects n (ps ++ p ∷ []) u

module _ (base : List Node) where
  pub record BufferAt (b : Buffer) (p : ℕ) : Type 0 where
    pub node : Node
    pub place : get_elem? base p ≡ some node
    pub iter : b.iter ≡ some node.id
    pub emitter : b.has_emitter ≡ true
    pub valued : is_some b.result ≡ true

  abbrev pub Located : List Buffer → List ℕ → Type 0
  Located [] [] = Unit {0}
  Located [] (p ∷ ps) = ⊥
  Located (b ∷ bs) [] = ⊥
  Located (b ∷ bs) (p ∷ ps) = BufferAt b p × Located bs ps

  pub buffer-at :
      (j p : ℕ) (bs : List Buffer) (ps : List ℕ)
      → Located bs ps
      → get_elem? ps j ≡ some p
      → (b : Buffer) × (buffer j bs ≡ ok b) × BufferAt b p
  buffer-at j p [] [] l e = absurd (cc)
  buffer-at j p [] (q ∷ ps) l e = absurd l
  buffer-at j p (b ∷ bs) [] l e = absurd l
  buffer-at zero p (b ∷ bs) (q ∷ ps) l e = (b, refl, subst (BufferAt b) (some-injective e) l.0)
  buffer-at (suc j) p (b ∷ bs) (q ∷ ps) l e = buffer-at j p bs ps l.1 e

  pub Located-set :
      (j p : ℕ) (b : Buffer) (bs : List Buffer) (ps : List ℕ)
      → Located bs ps
      → BufferAt b p
      → Located (set_at j b bs) (set_at j p ps)
  Located-set j p b [] [] l h = tt
  Located-set j p b [] (q ∷ ps) l h = absurd l
  Located-set j p b (c ∷ bs) [] l h = absurd l
  Located-set zero p b (c ∷ bs) (q ∷ ps) l h = (h, l.1)
  Located-set (suc j) p b (c ∷ bs) (q ∷ ps) l h = (l.0, Located-set j p b bs ps l.1 h)

  pub Located-put :
      (j p : ℕ) (b : Buffer) (bs : List Buffer) (ps : List ℕ)
      → Located bs ps
      → get_elem? ps j ≡ some p
      → BufferAt b p
      → Located (set_at j b bs) ps
  Located-put j p b [] [] l e h = tt
  Located-put j p b [] (q ∷ ps) l e h = absurd l
  Located-put j p b (c ∷ bs) [] l e h = absurd l
  Located-put zero p b (c ∷ bs) (q ∷ ps) l e h =
      (subst (BufferAt b) (sym (some-injective e)) h, l.1)
  Located-put (suc j) p b (c ∷ bs) (q ∷ ps) l e h = (l.0, Located-put j p b bs ps l.1 e h)

  pub Located-append :
      (p : ℕ) (b : Buffer) (bs : List Buffer) (ps : List ℕ)
      → Located bs ps
      → BufferAt b p
      → Located (bs ++ b ∷ []) (ps ++ p ∷ [])
  Located-append p b [] [] l h = (h, tt)
  Located-append p b [] (q ∷ ps) l h = absurd l
  Located-append p b (c ∷ bs) [] l h = absurd l
  Located-append p b (c ∷ bs) (q ∷ ps) l h = (l.0, Located-append p b bs ps l.1 h)

  pub equal-at :
      (b c : Buffer) (p q : ℕ) → Distinct base → BufferAt b p → BufferAt c q → equal b c ≡ (p == q)
  equal-at b c p q d h k =
      rw (h.emitter, h.iter, k.iter) (same-at p q h.node k.node base h.place k.place d)
