-- ===== src/World/Consistent.antt =====
-- The invariant of a signal at rest with trackables and connections.
use libsigcplusplus.Prelude.{
  ℕ, suc, ◌≡◌, refl, sym, ap, ◌∙◌, subst, true, false, Option, none, some, List, ◌==◌, arith,
  Bool-cases, inl, inr, ok,
}
use libsigcplusplus.Signal.Slot.{destroy_slot}
use libsigcplusplus.Signal.Nodes.{Node, deref}
use libsigcplusplus.Signal.Impl.{Impl}
use libsigcplusplus.Signal.Extension.{has_id, Distinct}
use libsigcplusplus.Signal.Erase.{remove_id}
use libsigcplusplus.Signal.Guarantee.{Settled}
use libsigcplusplus.World.State.{World, release}
use libsigcplusplus.World.Invalidate.{Registered}
use libsigcplusplus.Signal.Rest.{deref-id}
use libsigcplusplus.Trackable.Callbacks.{CallbackList}
use libsigcplusplus.World.State.{node_targets, destroy_object}
use libsigcplusplus.World.Watchers.{Watched, unless_slot, tell_all-Watched, tell_all-kept}
use libsigcplusplus.World.Registry.{unbind-clearing}
use libsigcplusplus.World.Slots.{has_id-remove_id, has_id-deref}
use libsigcplusplus.World.Invalidate.{on_signal-disconnect, unless_slot-present}
use libsigcplusplus.World.Program.{destroys_object}
use libsigcplusplus.World.Spec.{view, drop_referent, spec_step, still, shown}
use libsigcplusplus.World.Shown.{shown-remove_id, shown-without, still-shown, View-same}
use libsigcplusplus.World.Step.{Registered-erased}
use libsigcplusplus.World.Destroyed.{
  Pointing, present-all, destroy_object-rest, some-injective, none-some,
}
use libsigcplusplus.World.Connections.{disconnect_slot}

pub record Consistent (targets : ℕ → List ℕ) (w : World) : Type 0 where
  pub settled : Settled w.impl
  pub registered : Registered targets w
  pub pointing : Pointing w
  pub watched : Watched w
  pub idle : (o : ℕ) → (w.objects o).clearing ≡ false

-- A connection that was told of an erased slot refers to one that is left.
unless_slot-there :
    (r : ℕ) (ns : List Node) (c : Option ℕ) (j : ℕ)
    → Distinct ns
    → ((i : ℕ) → c ≡ some i → has_id i ns ≡ true)
    → unless_slot r c ≡ some j
    → has_id j (remove_id r ns) ≡ true
unless_slot-there r ns none j d h e = absurd (cc)
unless_slot-there r ns (some i) j d h e = elim (Bool-cases (i == r)) [
  | inl hit ↦ absurd (none-some (rw hit at e))
  | inr miss ↦
      subst (λ k. has_id k (remove_id r ns) ≡ true) (some-injective (rw miss at e))
        (has_id-remove_id i r ns d ∙ ground (arith, h i refl))
]

-- Connections that refer to the same slot before do so afterwards.
abbrev pub Together : World → World → Type 0
Together w u = (d e : ℕ) → w.conns d ≡ w.conns e → u.conns d ≡ u.conns e

module _ (targets : ℕ → List ℕ) where
  release-Consistent :
      (i : ℕ) (n : Node) (w : World)
      → Consistent targets w
      → deref i w.impl.slots ≡ ok n
      → let t : Impl = record (w.impl) {
        slots = remove_id i w.impl.slots;
        log = destroy_slot n.slot w.impl.log;
      } in
        Settled t → Consistent targets (release targets n (record w { impl = t }))
  release-Consistent i n w h found st = record {
    settled = st;
    registered = Registered-erased targets 0 i n w h.settled.wf.distinct found h.registered;
    pointing = λ c j e.
        unless_slot-there i w.impl.slots (w.conns c) j h.settled.wf.distinct (h.pointing c) (
          subst (λ k. unless_slot k (w.conns c) ≡ some j) (deref-id i n w.impl.slots found)
            (sym (tell_all-Watched n.id w h.watched c) ∙ e));
    watched = tell_all-kept n.id w h.watched;
    idle = λ x. unbind-clearing n.id (node_targets targets n) w.objects x ∙ h.idle x;
  }

  -- What the program sees of the slot that goes away.
  release-view :
      (i : ℕ) (n : Node) (w : World)
      → Consistent targets w
      → deref i w.impl.slots ≡ ok n
      → let t : Impl = record (w.impl) {
        slots = remove_id i w.impl.slots;
        log = destroy_slot n.slot w.impl.log;
      } in
        view (release targets n (record w { impl = t })) ≡ drop_referent (some i) (view w)
  release-view i n w h found =
      let ns = w.impl.slots in
      let erased = shown-remove_id i ns in
      View-same _ _ erased
        (λ c.
          let o = w.conns (suc c) in
          tell_all-Watched n.id w h.watched (suc c)
          ∙ (ap (λ k. unless_slot k o) (deref-id i n ns found)
              ∙ (ap (unless_slot i) (present-all ns o (h.pointing (suc c)))
                  ∙ (unless_slot-present i ns o h.settled.wf.distinct
                      ∙ (still-shown (remove_id i ns) o ∙ ap (λ es. still es o) erased)))))
        refl

  release-Together :
      (n : Node) (w : World) (t : Impl)
      → Consistent targets w
      → Together w (release targets n (record w { impl = t }))
  release-Together n w t h d e same =
      tell_all-Watched n.id w h.watched d
      ∙ (ap (unless_slot n.id) same ∙ sym (tell_all-Watched n.id w h.watched e))

  pub disconnect_slot-Consistent :
      (c : ℕ) (w : World)
      → Consistent targets w
      → (u : World) × (disconnect_slot targets c w ≡ ok u)
        × Consistent targets u
        × (view u ≡ drop_referent (w.conns c) (view w))
        × Together w u
  unfolding disconnect_slot
  disconnect_slot-Consistent c w h = go (w.conns c) refl
    where
      t : ℕ → Node → Impl
      t i n = record (w.impl) {
        slots = remove_id i w.impl.slots;
        log = destroy_slot n.slot w.impl.log;
      }

      go :
          (o : Option ℕ)
          → w.conns c ≡ o
          → (u : World) × (disconnect_slot targets c w ≡ ok u)
            × Consistent targets u
            × (view u ≡ drop_referent (w.conns c) (view w))
            × Together w u
      go none e = (w, rw (e, disconnect_slot), h, rw e refl, λ x y s. s)
      go (some i) e =
          let (n, found) = has_id-deref i w.impl.slots (h.pointing c i e) in
          let (run, st) = on_signal-disconnect targets i n w h.settled found in
          (
            _,
            rw (e, disconnect_slot) run,
            release-Consistent i n w h found st,
            release-view i n w h found ∙ ap (λ o. drop_referent o (view w)) (sym e),
            release-Together n w (t i n) h,
          )

  pub destroy_object-Consistent :
      (o : ℕ) (w : World)
      → Consistent targets w
      → (u : World) × (destroy_object targets o w ≡ ok u)
        × Consistent targets u
        × (view u ≡ spec_step targets (destroys_object o) (view w))
  destroy_object-Consistent o w h =
      let (u, run, d) =
        destroy_object-rest targets o w h.settled h.registered h.pointing h.watched in
      (
        u,
        run,
        record {
          settled = d.settled;
          registered = d.registered;
          pointing = d.pointing;
          watched = d.watched;
          idle = λ x. elim (Bool-cases (x == o)) [
            | inl e ↦
                subst (λ k. (u.objects k).clearing ≡ false) (sym (ground (arith, e)))
                  (ap (λ (l : CallbackList). l.clearing) d.list)
            | inr e ↦ d.flags x e ∙ h.idle x
          ];
        },
        let entries = ap shown d.slots ∙ shown-without targets o w.impl.slots in
            View-same _ _ entries
              (λ c.
                d.conns (suc c)
                ∙ (still-shown u.impl.slots (w.conns (suc c))
                    ∙ ap (λ es. still es (w.conns (suc c))) entries))
              d.next,
      )
