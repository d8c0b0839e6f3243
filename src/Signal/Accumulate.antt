-- ===== src/Signal/Accumulate.antt =====
-- slot_iterator_buf and signal_emit with an accumulator (sigc++/signal.h).
use libsigcplusplus.Prelude.{
  ℕ, zero, suc, Bool, true, false, not, ◌&&◌, ◌||◌, Option, none, some, List, [], ◌∷◌, ◌++◌, length,
  get_elem?, set_at, if◌then◌else◌, ◌==◌, Outcome, ok, fault, no_fuel, ◌>>=◌,
}
use libsigcplusplus.Signal.Slot.{empty}
use libsigcplusplus.Signal.Nodes.{Node, begin, at_end, deref, next_iter}
use libsigcplusplus.Signal.Impl.{Impl, reference_exec, unreference_exec, sweep_fuel, erase_node}
use libsigcplusplus.Signal.Emit.{Act, add_placeholder}
use libsigcplusplus.Signal.EmitLast.{state, visit_ret}

-- slot_iterator_buf: `has_emitter` says that c_ is no null pointer, and `result` is none while r_ has
-- no value.
pub record Buffer : Type 0 where
  pub iter : Option ℕ
  pub has_emitter : Bool
  pub result : Option ℕ
  pub invoked : Bool

-- What the call operator of an accumulator does with its iterators, one step after the other: these
-- are numbered, the first of the range is 0, its end 1, and a copy is the next number.
pub data Use : Type 0 where
  returns : ℕ → Use
  derefs : ℕ → (ℕ → Use) → Use
  increments : ℕ → Use → Use
  decrements : ℕ → Use → Use
  compares : ℕ → ℕ → (Bool → Use) → Use
  copies : ℕ → Use → Use

-- std::list's decrement, from a node and from the end.
abbrev pub prev_from : ℕ → ℕ → List Node → Outcome (Option ℕ)
prev_from p i [] = fault
prev_from p i (n ∷ ns) = if n.id == i then ok (some p) else prev_from n.id i ns

abbrev pub last_iter : List Node → Outcome (Option ℕ)
last_iter [] = fault
last_iter (n ∷ []) = ok (some n.id)
last_iter (_ ∷ n ∷ ns) = last_iter (n ∷ ns)

unfoldable pub prev_iter : Option ℕ → List Node → Outcome (Option ℕ)
prev_iter none ns = last_iter ns
prev_iter (some i) [] = fault
prev_iter (some i) (n ∷ ns) = if n.id == i then fault else prev_from n.id i ns

-- ++ and --
unfoldable pub increment : Buffer → Impl → Outcome Buffer
unfolding next_iter
increment b s = do
  it ← elim b.iter [ none ↦ fault | some i ↦ next_iter i s.slots ]
  ok (record b { iter = it; invoked = false })

unfoldable pub decrement : Buffer → Impl → Outcome Buffer
unfolding prev_iter
decrement b s = do it ← prev_iter b.iter s.slots; ok (record b { iter = it; invoked = false })

-- ==
abbrev pub equal : Buffer → Buffer → Bool
equal b c = not b.has_emitter || at_end b.iter c.iter

abbrev pub buffer : ℕ → List Buffer → Outcome Buffer
buffer j bs = elim (get_elem? bs j) [ none ↦ fault | some b ↦ ok b ]

-- `default` is what T_return has before it is assigned: none for a fundamental type. `use` is what
-- the accumulator does on a range of the given length.
module _ (body : ℕ → ℕ → Impl → List Act) (ret : ℕ → ℕ → Impl → ℕ) (default : Option ℕ)
    (use_range : ℕ → Use) where
  abbrev pub buffer_at : Option ℕ → Buffer
  buffer_at it = record { iter = it; has_emitter = true; result = default; invoked = false }

  -- The call in slot_iterator_buf::operator*, by slot::operator().
  unfoldable pub call_buffered :
      (ℕ → Impl → Outcome Impl) → ℕ → Buffer → Node → Impl → Outcome (Buffer × Impl)
  unfolding visit_ret
  call_buffered nested a b n s =
      let invoking : Outcome (Buffer × Impl) = visit_ret body ret nested a 0 n s >>= λ v.
      ok (record b { result = some v.0; invoked = true }, v.1) in
      if not (empty n.slot) && not n.slot.blocked && not b.invoked then invoking else ok (b, s)

  -- slot_iterator_buf::operator*, with the value that it reads from r_.
  unfoldable pub deref_buffer :
      (ℕ → Impl → Outcome Impl) → ℕ → Buffer → Impl → Outcome (ℕ × Buffer × Impl)
  unfolding call_buffered deref
  deref_buffer nested a b s = do
    n ← elim b.iter [ none ↦ fault | some i ↦ deref i s.slots ]
    (b', s') ← call_buffered nested a b n s
    elim b'.result [ none ↦ fault | some r ↦ ok (r, b', s') ]

  unfoldable pub accumulate :
      (ℕ → Impl → Outcome Impl) → ℕ → Use → List Buffer → Impl → Outcome (ℕ × Impl)
  unfolding deref_buffer increment decrement
  accumulate nested a (returns r) bs s = ok (r, s)
  accumulate nested a (derefs j k) bs s = do
    b ← buffer j bs
    (r, b', s') ← deref_buffer nested a b s
    accumulate nested a (k r) (set_at j b' bs) s'
  accumulate nested a (increments j u) bs s = do
    b ← buffer j bs
    b' ← increment b s
    accumulate nested a u (set_at j b' bs) s
  accumulate nested a (decrements j u) bs s = do
    b ← buffer j bs
    b' ← decrement b s
    accumulate nested a u (set_at j b' bs) s
  accumulate nested a (compares i j k) bs s = do
    b ← buffer i bs
    c ← buffer j bs
    accumulate nested a (k (equal b c)) bs s
  accumulate nested a (copies j u) bs s = do b ← buffer j bs; accumulate nested a u (bs ++ b ∷ []) s

  -- signal_emit::emit with an accumulator.
  unfoldable pub emit_accumulated : ℕ → ℕ → Impl → Outcome (ℕ × Impl)
  unfolding accumulate
  emit_accumulated zero a s = no_fuel
  emit_accumulated (suc depth) a s = do
    let s1 = reference_exec s
    let s2 = add_placeholder s1
    (r, s3) ←
        accumulate (λ b t. state (emit_accumulated depth b t)) a (use_range (length s1.slots))
          (buffer_at (begin s2.slots) ∷ buffer_at (some s1.next) ∷ []) s2
    s4 ← erase_node s1.next s3
    s5 ← unreference_exec sweep_fuel s4
    ok (r, s5)
