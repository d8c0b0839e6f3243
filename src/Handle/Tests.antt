-- ===== src/Handle/Tests.antt =====
-- Signal objects at concrete inputs.
use libsigcplusplus.Prelude.{
  ◌≡◌, refl, Bool, true, false, none, some, List, [], ◌∷◌, ◌++◌, map, arith, ok, ◌>>=◌, is_some,
}
use libsigcplusplus.Signal.Abstract
use libsigcplusplus.Signal.Abstract.{Request}
use libsigcplusplus.Signal.Impl.{
  connect, insert, add_notification, clear, destroy_impl, for_each, reference_exec, disconnect,
  notify_invalidated, unreference_exec, clear_list,
}
use libsigcplusplus.Signal.Slot.{set_parent}
use libsigcplusplus.Signal.Nodes.{insert_before, update_slot, deref, next_iter}
use libsigcplusplus.Handle.Store.{Store, pointer, copy_signal, signal_size, signal_blocked}
use libsigcplusplus.Handle.Owned.{Owned}
use libsigcplusplus.Handle.References.{references, after_all}
use libsigcplusplus.Handle.Calls
use libsigcplusplus.Handle.Calls.{Call, perform_all}
use libsigcplusplus.Handle.Lifetime.{perform_all-Owned}
use libsigcplusplus.Handle.Sharing.{ask_all, ask_either, copy-shares}

abbrev no_signals : Store
no_signals = record { handles = []; impls = λ k. none; next = 0 }

no_signals-Owned : Owned no_signals
no_signals-Owned = record { shared = λ k. refl; ready = λ k s e. absurd (cc); fresh = λ k i. refl }

-- A signal object, a slot connected, a copy, a slot connected through the copy, the first object
-- destroyed.
abbrev shared_calls : List Call
shared_calls =
    Calls.creates
    ∷ Calls.asks 0 (Abstract.connects (some 3) false)
    ∷ Calls.copies 0
    ∷ Calls.asks 1 (Abstract.connects (some 4) false)
    ∷ Calls.destroys 0
    ∷ []

sizes : (perform_all shared_calls no_signals >>= signal_size 1) ≡ ok 2
unfolding perform_all signal_size pointer connect insert insert_before add_notification update_slot
sizes = refl

-- The implementation goes with the last object.
abbrev gone_calls : List Call
gone_calls = shared_calls ++ Calls.destroys 1 ∷ []

gone : (perform_all gone_calls no_signals >>= λ st. ok (is_some (st.impls 0))) ≡ ok false
unfolding perform_all pointer connect insert insert_before add_notification update_slot clear
    destroy_impl for_each reference_exec deref disconnect set_parent notify_invalidated next_iter
    unreference_exec clear_list
gone = refl

-- One signal object without an implementation assigned to another: they stay apart.
apart :
    (perform_all
        (Calls.creates
          ∷ Calls.creates
          ∷ Calls.assigns 0 1
          ∷ Calls.asks 0 (Abstract.connects (some 3) false)
          ∷ [])
        no_signals
      >>= signal_size 1)
    ≡ ok 0
unfolding perform_all signal_size pointer connect insert insert_before add_notification update_slot
apart = refl

-- Blocked, as there is nothing to call.
blocked_without : signal_blocked 0 (record no_signals { handles = none ∷ [] }) ≡ ok true
unfolding signal_blocked pointer
blocked_without = refl

perform_all-Owned_example :
    (t : Store) × (perform_all shared_calls no_signals ≡ ok t)
    × Owned t
    × (references t ≡ after_all shared_calls (references no_signals))
perform_all-Owned_example = perform_all-Owned shared_calls no_signals no_signals-Owned refl

abbrev one_signal : Store
one_signal = record no_signals { handles = none ∷ [] }

one_signal-Owned : Owned one_signal
one_signal-Owned = record { shared = λ k. refl; ready = λ k s e. absurd (cc); fresh = λ k i. refl }

abbrev mixed : List (Bool × Request)
mixed = (true, Abstract.connects (some 3) false) ∷ (false, Abstract.emits 7) ∷ []

copy-shares_example :
    (t : Store) × (copy_signal 0 one_signal ≡ ok t)
    × (ask_either 1 0 mixed t ≡ ask_all 0 (map (λ r. r.1) mixed) t)
copy-shares_example = copy-shares 0 mixed one_signal one_signal-Owned (omega arith)
