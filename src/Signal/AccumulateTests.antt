-- ===== src/Signal/AccumulateTests.antt =====
-- Emissions with an accumulator at concrete inputs.
use libsigcplusplus.Prelude.{
  ℕ, zero, suc, ◌+◌, ◌≡◌, refl, true, false, none, some, [], ◌∷◌, ◌==◌, arith, ok, fault, Safe,
  ◌>>=◌,
}
use libsigcplusplus.Signal.Slot.{called, empty}
use libsigcplusplus.Signal.Nodes.{erase, deref}
use libsigcplusplus.Signal.Impl.{Impl, reference_exec, erase_node, unreference_exec}
use libsigcplusplus.Signal.Emit.{emit, add_placeholder}
use libsigcplusplus.Signal.Passive.{passive}
use libsigcplusplus.Signal.Accumulate
use libsigcplusplus.Signal.Accumulate.{Buffer, Use, deref_buffer, emit_accumulated}
use libsigcplusplus.Signal.Located.{Respects}
use libsigcplusplus.Signal.AccumulatedEmission.{
  Accumulated, emit_accumulated-Accumulated, emit_accumulated-total,
}
use libsigcplusplus.Signal.Buffered.{deref_buffer-again}
use libsigcplusplus.Signal.Tests.{
  body, falling_body, body-BodyMade, falling-BodyMade, place, resting, resting-Settled,
}

-- for (; first != last; ++first) sum += *first; return sum;
abbrev sum_from : ℕ → ℕ → Use
sum_from zero q = Accumulate.compares 0 1 (λ b. Accumulate.returns q)
sum_from (suc k) q = Accumulate.compares 0 1 (λ b. elim b [
  | true ↦ Accumulate.returns q
  | false ↦ Accumulate.derefs 0 (λ r. Accumulate.increments 0 (sum_from k (q + r)))
])

abbrev sum : ℕ → Use
sum n = sum_from n 0

sum_from-Respects : (k p n q : ℕ) → p + k ≡ n → Respects n (p ∷ n ∷ []) (sum_from k q)
sum_from-Respects zero p n q e = (p, n, refl, refl, tt)
sum_from-Respects (suc k) p n q e =
    let before : (p == n) ≡ false = ground (arith, e) in
    (
      p,
      n,
      refl,
      refl,
      rw before (
        p,
        refl,
        omega arith,
        λ r. (p, refl, omega arith, sum_from-Respects k (suc p) n (q + r) (omega arith)),
      ),
    )

sum-Respects : (n : ℕ) → Respects n (0 ∷ n ∷ []) (sum n)
sum-Respects n = sum_from-Respects n 0 n 0 (omega arith)

-- A functor returns its number and the argument.
abbrev returned : ℕ → ℕ → Impl → ℕ
returned f a s = f + a

emit_accumulated-Accumulated_example :
    Safe Unit
      (λ (r : ℕ × Impl). Accumulated resting r.1)
      (emit_accumulated body returned (some 0) sum 5 4 resting)
emit_accumulated-Accumulated_example =
    emit_accumulated-Accumulated body returned 0 sum 5 4 resting body-BodyMade sum-Respects
      (omega arith) resting-Settled

emit_accumulated-total_example :
    (r : ℕ × Impl) × (emit_accumulated falling_body returned (some 0) sum 5 4 resting ≡ ok r)
    × Accumulated resting r.1
emit_accumulated-total_example =
    emit_accumulated-total falling_body returned 0 sum 4 resting falling-BodyMade sum-Respects
      (omega arith) resting-Settled

-- The sum of 1 + 4 and 3 + 4.
summed : (emit_accumulated passive returned (some 0) sum 1 4 resting >>= λ r. ok r.0) ≡ ok 12
unfolding emit_accumulated reference_exec add_placeholder empty erase_node erase unreference_exec
summed = refl

-- A buffer at the first slot, which is read twice.
abbrev first : Buffer
first = record { iter = some 0; has_emitter = true; result = none; invoked = false }

abbrev first_read : Buffer
first_read = record first { result = some 5; invoked = true }

abbrev once : Impl
once = record resting { log = called 0 0 1 4 ∷ [] }

reads :
    deref_buffer passive returned none sum (emit passive 1) 4 first resting
    ≡ ok (5, first_read, once)
unfolding deref_buffer empty
reads = refl

deref_buffer-again_example :
    deref_buffer passive returned none sum (emit passive 1) 4 first_read once
    ≡ ok (5, first_read, once)
unfolding deref
deref_buffer-again_example =
    deref_buffer-again passive returned none sum (emit passive 1) 4 0 first first_read resting once
      5 refl reads refl

-- With a blocked first slot and a result type that has no value of its own, r_ is read before it is
-- assigned.
abbrev blocked_first : Impl
blocked_first = record resting {
  slots =
      record (place 0 1) { slot = record ((place 0 1).slot) { blocked = true } } ∷ place 1 3 ∷ [];
}

unassigned : emit_accumulated passive returned none sum 1 4 blocked_first ≡ fault
unfolding emit_accumulated reference_exec add_placeholder empty
unassigned = refl
