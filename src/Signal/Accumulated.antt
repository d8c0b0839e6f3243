-- ===== src/Signal/Accumulated.antt =====
-- An accumulator that stays in its range, as an emission runs it.
use libsigcplusplus.Prelude.{
  ℕ, suc, ◌+◌, ◌<◌, ◌≡◌, refl, sym, ◌∙◌, subst, Bool, true, false, not, ◌&&◌, Option, none, some,
  List, [], ◌∷◌, ◌++◌, length, get_elem?, set_at, is_some, if◌then◌else◌, ◌==◌, arith,
  get_elem-length, get_elem-some, ok-injective, Outcome, ok, fault, no_fuel, ◌>>=◌, Safe, safe,
  deep, Safe-bind, Safe-map,
}
use libsigcplusplus.Signal.Slot.{empty}
use libsigcplusplus.Signal.Nodes.{Node, deref}
use libsigcplusplus.Signal.Impl.{Impl}
use libsigcplusplus.Signal.Emit.{Act, visit}
use libsigcplusplus.Signal.EmitLast.{state, visit_ret}
use libsigcplusplus.Signal.LastState.{state-visit_ret}
use libsigcplusplus.Signal.Extension.{Distinct, Later, Ext, Ext-trans}
use libsigcplusplus.Signal.Invariant.{Wf, Good, Good-refl, Good-trans}
use libsigcplusplus.Signal.Acts.{EmitGood}
use libsigcplusplus.Signal.Turns.{turns}
use libsigcplusplus.Signal.Emission.{BodyMade, visit-Good}
use libsigcplusplus.Signal.Accumulate
use libsigcplusplus.Signal.Accumulate.{
  Buffer, Use, increment, decrement, equal, buffer, call_buffered, deref_buffer, accumulate,
}
use libsigcplusplus.Signal.Ranges.{deref-at, next_iter-at, prev_iter-at}
use libsigcplusplus.Signal.Located.{
  Respects, BufferAt, Located, buffer-at, Located-set, Located-put, Located-append, equal-at,
}
use libsigcplusplus.Signal.Among.{Among, Among-refl, Among-trans, Turn-Among}

-- What is safe of the state that a call leaves is safe of the call.
module _ {D : Type 0} {P : Impl → Type 0} where
  Safe-is :
      (m : Outcome (ℕ × Impl)) (n : Outcome Impl)
      → Safe D P n
      → state m ≡ n
      → Safe D (λ (r : ℕ × Impl). P r.1) m
  Safe-is (ok (r, s)) _ (safe p) e = safe (subst P (sym (ok-injective e)) p)
  Safe-is (ok (r, s)) _ (deep d) e = absurd (cc)
  Safe-is fault _ (safe p) e = absurd (cc)
  Safe-is fault _ (deep d) e = absurd (cc)
  Safe-is no_fuel _ (safe p) e = absurd (cc)
  Safe-is no_fuel _ (deep d) e = deep d

module _ (D : Type 0) (R : ℕ → ℕ → Type 0) (body : ℕ → ℕ → Impl → List Act) (made : BodyMade R body)
    (d a : ℕ) (nested : ℕ → Impl → Outcome Impl) (good : EmitGood D (R a) d nested)
    (ret : ℕ → ℕ → Impl → ℕ) (default : Option ℕ) (use_range : ℕ → Use) (e n : ℕ) (base : List Node)
    (size : length base ≡ suc n) (di : Distinct base) where
  -- What holds from one state to a later one.
  abbrev pub Led : Impl → Impl → Type 0
  Led s t = Good e s t × Among (suc e) base s (turns (suc e) t.log)

  Led-trans : (s t u : Impl) → Led s t → Led t u → Led s u
  Led-trans s t u h k =
      (Good-trans e s t u h.0 k.0, Among-trans (suc e) base s t (turns (suc e) u.log) h.1 k.1)

  -- The state in which an accumulator goes on.
  pub record Running (s : Impl) : Type 0 where
    pub ext : Ext base s.slots
    pub wf : Wf s
    pub lvl : s.exec ≡ suc e
    pub small : s.exec + d < 32768

  Led-Running : (s t : Impl) → Running s → Led s t → Running t
  Led-Running s t r h = record {
    ext = Ext-trans base s.slots t.slots r.ext h.0.inner.ext;
    wf = h.0.wf;
    lvl = h.0.inner.exec ∙ r.lvl;
    small = omega (arith, r.small, h.0.inner.exec);
  }

  call_buffered-Led :
      (p : ℕ) (b : Buffer) (h : BufferAt base b p) (m : Node) (s : Impl)
      → Running s
      → deref h.node.id s.slots ≡ ok m
      → Later h.node m
      → Safe D
          (λ (v : Buffer × Impl). Led s v.1 × BufferAt base v.0 p)
          (call_buffered body ret default use_range nested a b m s)
  unfolding call_buffered
  call_buffered-Led p b h m s r found l =
      by_test (not (empty m.slot) && not m.slot.blocked && not b.invoked)
    where
      by_test :
          (c : Bool)
          → Safe D
              (λ (v : Buffer × Impl). Led s v.1 × BufferAt base v.0 p)
              (if c
                then (visit_ret body ret nested a 0 m s >>= λ v.
                    ok (record b { result = some v.0; invoked = true }, v.1))
                else ok (b, s))
      by_test false = safe ((Good-refl e s r.wf, Among-refl (suc e) base s), h)
      by_test true =
          Safe-bind
            (Safe-is (visit_ret body ret nested a 0 m s) (visit body nested a m s)
              (visit-Good D R body made d a nested good e s h.node m r.wf r.lvl r.small found l)
              (state-visit_ret body ret nested a 0 m s))
            (λ v w. safe (
              (w.0, Turn-Among (suc e) p h.node base s v.1 h.place w.1),
              record {
                node = h.node;
                place = h.place;
                iter = h.iter;
                emitter = h.emitter;
                valued = refl;
              },
            ))

  deref_buffer-Led :
      (p : ℕ) (b : Buffer) (s : Impl)
      → BufferAt base b p
      → Running s
      → Safe D
          (λ (v : ℕ × Buffer × Impl). Led s v.2 × BufferAt base v.1 p)
          (deref_buffer body ret default use_range nested a b s)
  unfolding deref_buffer
  deref_buffer-Led p b s h r = Safe-bind reached (λ m found.
      Safe-bind (call_buffered-Led p b h m s r found.0 found.1)
        (λ v w. read v.0 v.1 v.0.result w.1.valued w))
    where
      reached :
          Safe D
            (λ m. (deref h.node.id s.slots ≡ ok m) × Later h.node m)
            (elim b.iter as (λ x. Outcome Node) [ none ↦ fault | some i ↦ deref i s.slots ])
      reached =
          let (m, found, l) = deref-at p h.node base s.slots h.place r.ext r.wf.distinct in
          rw (h.iter, found) (safe (refl, l))

      read :
          (b' : Buffer) (t : Impl) (o : Option ℕ)
          → is_some o ≡ true
          → Led s t × BufferAt base b' p
          → Safe D
              (λ (v : ℕ × Buffer × Impl). Led s v.2 × BufferAt base v.1 p)
              (elim o as (λ x. Outcome (ℕ × Buffer × Impl)) [
                | none ↦ fault
                | some r ↦ ok (r, b', t)
              ])
      read b' t none v w = absurd (cc)
      read b' t (some q) v w = safe w

  -- A step of an iterator to a place of the range.
  moved :
      (b : Buffer) (p q : ℕ) (x : Node)
      → BufferAt base b p
      → get_elem? base q ≡ some x
      → BufferAt base (record b { iter = some x.id; invoked = false }) q
  moved b p q x h at = record {
    node = x;
    place = at;
    iter = refl;
    emitter = h.emitter;
    valued = h.valued;
  }

  increment-at :
      (p : ℕ) (b : Buffer) (s : Impl)
      → p < n
      → BufferAt base b p
      → Running s
      → (b' : Buffer) × (increment b s ≡ ok b') × BufferAt base b' (suc p)
  unfolding increment
  increment-at p b s lt h r =
      let (x, at) = get_elem-some (suc p) base (omega (arith, size, lt)) in
      (
        record b { iter = some x.id; invoked = false },
        rw (h.iter, next_iter-at p h.node x base s.slots h.place at r.ext r.wf.distinct) refl,
        moved b p (suc p) x h at,
      )

  decrement-at :
      (p : ℕ) (b : Buffer) (s : Impl)
      → BufferAt base b (suc p)
      → Running s
      → (b' : Buffer) × (decrement b s ≡ ok b') × BufferAt base b' p
  unfolding decrement
  decrement-at p b s h r =
      let (x, at) =
        get_elem-some p base
          (let i = get_elem-length (suc p) h.node base h.place in omega (arith, i)) in
      (
        record b { iter = some x.id; invoked = false },
        rw (h.iter, prev_iter-at p x h.node base s.slots at h.place r.ext r.wf.distinct) refl,
        moved b (suc p) p x h at,
      )

  pub accumulate-Led :
      (u : Use) (bs : List Buffer) (ps : List ℕ) (s : Impl)
      → Respects n ps u
      → Located base bs ps
      → Running s
      → Safe D (λ (v : ℕ × Impl). Led s v.1) (accumulate body ret default use_range nested a u bs s)
  unfolding accumulate
  accumulate-Led (Accumulate.returns q) bs ps s h l r =
      safe (Good-refl e s r.wf, Among-refl (suc e) base s)
  accumulate-Led (Accumulate.derefs j k) bs ps s (p, at, lt, h) l r =
      let (b, found, w) = buffer-at base j p bs ps l at in
      rw found (
        Safe-bind (deref_buffer-Led p b s w r) (λ v g.
          Safe-map
            (accumulate-Led (k v.0) (set_at j v.1 bs) ps v.2 (h v.0)
              (Located-put base j p v.1 bs ps l at g.1) (Led-Running s v.2 r g.0))
            (λ t q. Led-trans s v.2 t.1 g.0 q)))
  accumulate-Led (Accumulate.increments j u) bs ps s (p, at, lt, h) l r =
      let (b, found, w) = buffer-at base j p bs ps l at in
      let (b', step, w') = increment-at p b s lt w r in
      rw (found, step)
        (accumulate-Led u (set_at j b' bs) (set_at j (suc p) ps) s h
          (Located-set base j (suc p) b' bs ps l w') r)
  accumulate-Led (Accumulate.decrements j u) bs ps s (p, at, h) l r =
      let (b, found, w) = buffer-at base j (suc p) bs ps l at in
      let (b', step, w') = decrement-at p b s w r in
      rw (found, step)
        (accumulate-Led u (set_at j b' bs) (set_at j p ps) s h (Located-set base j p b' bs ps l w')
          r)
  accumulate-Led (Accumulate.compares i j k) bs ps s (p, q, at, at', h) l r =
      let (b, found, w) = buffer-at base i p bs ps l at in
      let (c, found', w') = buffer-at base j q bs ps l at' in
      rw (found, found', equal-at base b c p q di w w') (accumulate-Led (k (p == q)) bs ps s h l r)
  accumulate-Led (Accumulate.copies j u) bs ps s (p, at, h) l r =
      let (b, found, w) = buffer-at base j p bs ps l at in
      rw found
        (accumulate-Led u (bs ++ b ∷ []) (ps ++ p ∷ []) s h (Located-append base p b bs ps l w) r)
