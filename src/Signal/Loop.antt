-- ===== src/Signal/Loop.antt =====
-- One round of a loop over the slots.
use libsigcplusplus.Prelude.{ℕ, suc, ◌≡◌, true, false, Option, some, Outcome, ok, ◌>>=◌}
use libsigcplusplus.Signal.Nodes.{Node, at_end, deref, next_iter}
use libsigcplusplus.Signal.Impl.{Impl, for_each}

module _ (k : ℕ) (end : Option ℕ) (visit : Node → Impl → Outcome Impl) where
  pub for_each-end :
      (it : Option ℕ) (s : Impl) → at_end it end ≡ true → for_each (suc k) end visit it s ≡ ok s
  unfolding for_each
  for_each-end it s h = rw h

  pub for_each-round :
      (i : ℕ) (n : Node) (s : Impl)
      → at_end (some i) end ≡ false
      → deref i s.slots ≡ ok n
      → for_each (suc k) end visit (some i) s
        ≡ (visit n s >>= λ s'. next_iter i s'.slots >>= λ it'. for_each k end visit it' s')
  unfolding for_each
  for_each-round i n s h e = rw (h, e)

  pub for_each-step :
      (i : ℕ) (n : Node) (s s' : Impl) (it' : Option ℕ)
      → at_end (some i) end ≡ false
      → deref i s.slots ≡ ok n
      → visit n s ≡ ok s'
      → next_iter i s'.slots ≡ ok it'
      → for_each (suc k) end visit (some i) s ≡ for_each k end visit it' s'
  for_each-step i n s s' it' h e v o = rw (for_each-round i n s h e, v, o)
