-- ===== src/World/Invalidate.antt =====
-- slot_rep::notify_slot_rep_invalidated on a slot of a signal at rest.
use libsigcplusplus.Prelude.{
  ℕ, ◌≡◌, refl, sym, ◌∙◌, subst, true, false, Option, none, some, List, [], ◌∷◌, ◌==◌, arith,
  if◌then◌else◌, Bool-cases, inl, inr, ok, ok-injective,
}
use libsigcplusplus.Signal.Slot.{destroy_slot}
use libsigcplusplus.Signal.Nodes.{Node, deref}
use libsigcplusplus.Signal.Impl.{Impl, disconnect}
use libsigcplusplus.Signal.Emit.{has}
use libsigcplusplus.Signal.Extension.{has_id, Distinct}
use libsigcplusplus.Signal.Erase.{remove_id}
use libsigcplusplus.Signal.Guarantee.{Settled}
use libsigcplusplus.Signal.Rest.{disconnect-rest}
use libsigcplusplus.Trackable.Callbacks.{CallbackList}
use libsigcplusplus.Trackable.Removal.{live}
use libsigcplusplus.World.State.{World, set, release, release_gone, on_signal, invalidate}
use libsigcplusplus.World.Watchers.{unless_slot}
use libsigcplusplus.World.Registry.{bound, set-cases}
use libsigcplusplus.World.Slots.{has-has_id, has_id-remove_id}

-- Every registration with an object is one of a slot in the list.
abbrev pub Registered : (ℕ → List ℕ) → World → Type 0
Registered targets w = (r o : ℕ) → live r (w.objects o).callbacks ≡ bound targets r o w.impl.slots

-- The list of one object changed to one with the registrations that the slots ask for.
pub Registered-set :
    (targets : ℕ → List ℕ) (o : ℕ) (h : CallbackList → CallbackList) (w : World)
    → ((r : ℕ) → live r (h (w.objects o)).callbacks ≡ bound targets r o w.impl.slots)
    → Registered targets w
    → Registered targets (record w { objects = set o (h (w.objects o)) w.objects })
Registered-set targets o h w here reg r x =
    set-cases (λ l. live r l.callbacks ≡ bound targets r x w.impl.slots) h o x w.objects
      (λ e.
        subst (λ k. live r (h (w.objects k)).callbacks ≡ bound targets r k w.impl.slots)
          (sym (ground (arith, e))) (here r))
      (λ e. reg r x)

-- What a connection refers to when it is told of the slots that are gone.
abbrev pub present : List Node → Option ℕ → Option ℕ
present ns none = none
present ns (some i) = if has_id i ns then some i else none

pub unless_slot-present :
    (r : ℕ) (ns : List Node) (c : Option ℕ)
    → Distinct ns
    → unless_slot r (present ns c) ≡ present (remove_id r ns) c
unless_slot-present r ns none d = refl
unless_slot-present r ns (some i) d = ground (arith, has_id-remove_id i r ns d)

distinct-other :
    (i j : ℕ) (ns : List Node) → has_id i ns ≡ false → has_id j ns ≡ true → (j == i) ≡ false
distinct-other i j ns out there = elim (Bool-cases (j == i)) [
  | inl e ↦
      let clash : has_id j ns ≡ false = subst (λ u. has_id u ns ≡ false) (ground arith) out in
      absurd (cc)
  | inr e ↦ e
]

module _ (targets : ℕ → List ℕ) where
  pub release_gone-all :
      (ns after : List Node) (w : World)
      → ((j : ℕ) → has_id j ns ≡ true → has_id j after ≡ true)
      → release_gone targets ns after w ≡ w
  unfolding release_gone
  release_gone-all [] after w h = refl
  release_gone-all (n ∷ ns) after w h =
      let there : has n.id after ≡ true = has-has_id n.id after ∙ h n.id (ground arith) in
      rw there (release_gone-all ns after w (λ j k. h j (ground (arith, k))))

  release_gone-one :
      (i : ℕ) (n : Node) (ns after : List Node) (w : World)
      → deref i ns ≡ ok n
      → Distinct ns
      → has_id i after ≡ false
      → ((j : ℕ) → has_id j ns ≡ true → (j == i) ≡ false → has_id j after ≡ true)
      → release_gone targets ns after w ≡ release targets n w
  unfolding release_gone deref
  release_gone-one i n [] after w e d gone h = absurd (cc)
  release_gone-one i n (x ∷ ns) after w e d gone h = elim (Bool-cases (x.id == i)) [
    | inl hit ↦
        let out : has x.id after ≡ false =
          has-has_id x.id after ∙ subst (λ k. has_id k after ≡ false) (ground arith) gone in
        let same : x ≡ n = ok-injective (rw hit at e) in
        rw (out, sym same)
          (release_gone-all ns after (release targets x w) (λ j k.
            h j (ground (arith, k))
              (distinct-other i j ns (subst (λ u. has_id u ns ≡ false) (ground arith) d.0) k)))
    | inr miss ↦
        let there : has x.id after ≡ true = has-has_id x.id after ∙ h x.id (ground arith) miss in
        rw there
          (release_gone-one i n ns after w (rw miss at e) d.1 gone (λ j k. h j (ground (arith, k))))
  ]

  -- What a disconnection leaves: the slot is erased, its functor is bound to nothing any more, and no
  -- connection refers to it.
  pub on_signal-disconnect :
      (i : ℕ) (n : Node) (w : World)
      → Settled w.impl
      → deref i w.impl.slots ≡ ok n
      → let t : Impl = record (w.impl) {
        slots = remove_id i w.impl.slots;
        log = destroy_slot n.slot w.impl.log;
      } in
        (on_signal targets (disconnect i) w ≡ ok (release targets n (record w { impl = t })))
        × Settled t
  unfolding on_signal
  on_signal-disconnect i n w st found =
      let d = st.wf.distinct in
      let (run, st') = disconnect-rest i n w.impl st found in
      let t : Impl = record (w.impl) {
        slots = remove_id i w.impl.slots;
        log = destroy_slot n.slot w.impl.log;
      } in
      let gone : has_id i (remove_id i w.impl.slots) ≡ false =
        has_id-remove_id i i w.impl.slots d ∙ ground arith in
      let freed =
        release_gone-one i n w.impl.slots (remove_id i w.impl.slots) (record w { impl = t }) found d
          gone (λ j k m. has_id-remove_id j i w.impl.slots d ∙ ground (arith, k, m)) in
      (rw (run, freed), st')

  -- The notification from a trackable comes to the same.
  pub invalidate-rest :
      (i : ℕ) (n : Node) (w : World)
      → Settled w.impl
      → deref i w.impl.slots ≡ ok n
      → let t : Impl = record (w.impl) {
        slots = remove_id i w.impl.slots;
        log = destroy_slot n.slot w.impl.log;
      } in
        (invalidate targets i w ≡ ok (release targets n (record w { impl = t }))) × Settled t
  unfolding invalidate
  invalidate-rest i n w st found =
      let (run, st') = on_signal-disconnect i n w st found in
      let out : has i (remove_id i w.impl.slots) ≡ false =
        has-has_id i (remove_id i w.impl.slots)
        ∙ (has_id-remove_id i i w.impl.slots st.wf.distinct ∙ ground arith) in
      (rw (found, run, out), st')
