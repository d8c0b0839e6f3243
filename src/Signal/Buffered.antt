-- ===== src/Signal/Buffered.antt =====
-- slot_iterator_buf::operator* twice.
use libsigcplusplus.Prelude.{
  ℕ, ◌≡◌, refl, sym, ap, ◌∙◌, subst, Bool, true, false, not, ◌&&◌, Option, none, some, List,
  if◌then◌else◌, Outcome, ok, fault, no_fuel, ◌>>=◌, ok-injective,
}
use libsigcplusplus.Signal.Slot.{empty}
use libsigcplusplus.Signal.Nodes.{Node, deref}
use libsigcplusplus.Signal.Impl.{Impl}
use libsigcplusplus.Signal.Emit.{Act, has, is_ok}
use libsigcplusplus.Signal.EmitLast.{visit_ret}
use libsigcplusplus.Signal.Accumulate.{Use, Buffer, call_buffered, deref_buffer}

and_false : (b : Bool) → (b && false) ≡ false
and_false true = refl
and_false false = refl

module _ (body : ℕ → ℕ → Impl → List Act) (ret : ℕ → ℕ → Impl → ℕ) (default : Option ℕ)
    (use_range : ℕ → Use) (nested : ℕ → Impl → Outcome Impl) (a i : ℕ) where
  abbrev read : Buffer → Impl → Outcome (ℕ × Buffer × Impl)
  read = deref_buffer body ret default use_range nested a

  -- What is read through a buffer is read again, and nothing changes.
  abbrev Again : ℕ × Buffer × Impl → Type 0
  Again w = read w.1 w.2 ≡ ok w

  abbrev read_result : Outcome (Buffer × Impl) → Outcome (ℕ × Buffer × Impl)
  read_result m = m >>= λ w. elim w.0.result as (λ x. Outcome (ℕ × Buffer × Impl)) [
    | none ↦ fault
    | some r ↦ ok (r, w.0, w.1)
  ]

  -- A buffer that has been invoked gives its result and calls nothing.
  read_invoked :
      (e : Bool) (t : Impl) (q : ℕ)
      → has i t.slots ≡ true
      → Again (q, record { iter = some i; has_emitter = e; result = some q; invoked = true }, t)
  unfolding deref_buffer call_buffered
  read_invoked e t q there = by_node (deref i t.slots) refl there
    where
      by_node :
          (m : Outcome Node)
          → deref i t.slots ≡ m
          → is_ok m ≡ true
          → Again (q, record { iter = some i; has_emitter = e; result = some q; invoked = true }, t)
      by_node (ok n) found h = rw (found, and_false (not (empty n.slot) && not n.slot.blocked)) refl
      by_node fault found h = absurd (cc)
      by_node no_fuel found h = absurd (cc)

  read_twice :
      (e v : Bool) (o : Option ℕ) (s t : Impl) (b' : Buffer) (r : ℕ)
      → read (record { iter = some i; has_emitter = e; result = o; invoked = v }) s ≡ ok (r, b', t)
      → has i t.slots ≡ true
      → Again (r, b', t)
  unfolding deref_buffer call_buffered
  read_twice e v o s t b' r run there = by_node (deref i s.slots) refl run
    where
      b : Buffer
      b = record { iter = some i; has_emitter = e; result = o; invoked = v }

      unchanged :
          (x : Option ℕ)
          → o ≡ x
          → (elim x as (λ x. Outcome (ℕ × Buffer × Impl)) [ none ↦ fault | some q ↦ ok (q, b, s) ])
            ≡ ok (r, b', t)
          → Again (r, b', t)
      unchanged none h d = absurd (cc)
      unchanged (some q) h d =
          let same : (q, b, s) ≡ (r, b', t) = ok-injective d in
          subst Again same (run ∙ ap ok (sym same))

      called_now :
          (m : Outcome (ℕ × Impl))
          → read_result (m >>= λ w. ok (record b { result = some w.0; invoked = true }, w.1))
            ≡ ok (r, b', t)
          → Again (r, b', t)
      called_now (ok (q, u)) d =
          let same : (
            q,
            record { iter = some i; has_emitter = e; result = some q; invoked = true },
            u,
          )
              ≡ (r, b', t) =
            ok-injective d in
          subst Again same
            (read_invoked e u q (ap (λ (w : ℕ × Buffer × Impl). has i w.2.slots) same ∙ there))
      called_now fault d = absurd (cc)
      called_now no_fuel d = absurd (cc)

      by_test :
          (c : Bool) (m : Outcome (ℕ × Impl))
          → read_result (
              if c
              then (m >>= λ w. ok (record b { result = some w.0; invoked = true }, w.1))
              else ok (b, s))
            ≡ ok (r, b', t)
          → Again (r, b', t)
      by_test true m d = called_now m d
      by_test false m d = unchanged o refl d

      by_node :
          (m : Outcome Node)
          → deref i s.slots ≡ m
          → (m >>= λ n. read_result (call_buffered body ret default use_range nested a b n s))
            ≡ ok (r, b', t)
          → Again (r, b', t)
      by_node (ok n) found d =
          by_test (not (empty n.slot) && not n.slot.blocked && not v)
            (visit_ret body ret nested a 0 n s) d
      by_node fault found d = absurd (cc)
      by_node no_fuel found d = absurd (cc)

  -- A slot iterator that is dereferenced a second time, while its slot is still in the list, gives the
  -- same value, calls nothing and changes nothing, whether the slot was called the first time or, being
  -- blocked or empty, was not.
  pub deref_buffer-again :
      (b b' : Buffer) (s t : Impl) (r : ℕ)
      → b.iter ≡ some i
      → deref_buffer body ret default use_range nested a b s ≡ ok (r, b', t)
      → has i t.slots ≡ true
      → deref_buffer body ret default use_range nested a b' t ≡ ok (r, b', t)
  deref_buffer-again b b' s t r it run there =
      read_twice b.has_emitter b.invoked b.result s t b' r
        (subst (λ x. read (record b { iter = x }) s ≡ ok (r, b', t)) it run) there
