-- ===== src/World/Clear.antt =====
-- signal_base::clear and block, and connection::block, with trackables and connections
-- (sigc++/signal_base.cc, sigc++/connection.cc).
use libsigcplusplus.Prelude.{
  ℕ, suc, ◌≡◌, refl, sym, ap, ◌∙◌, subst, Bool, true, false, Option, none, some, List, [], ◌∷◌,
  ◌==◌, arith, if◌then◌else◌, ok, Bool-cases, inl, inr,
}
use libsigcplusplus.Signal.Nodes.{Node, deref, update_slot, destroy_nodes}
use libsigcplusplus.Signal.Impl.{Impl, block}
use libsigcplusplus.Signal.Emit.{set_blocked}
use libsigcplusplus.Signal.Extension.{has_id, Distinct}
use libsigcplusplus.Signal.Invariant.{has_id-update_slot, has_id-map_slots, map_slots}
use libsigcplusplus.Signal.Acts.{block_nodes_lem, block-Good, block_slot-Good}
use libsigcplusplus.Signal.Connect.{Settled-Good}
use libsigcplusplus.Signal.Guarantee.{Settled}
use libsigcplusplus.Signal.Rest.{clear-rest, Settled-cleared}
use libsigcplusplus.Trackable.Removal.{live}
use libsigcplusplus.World.State.{
  World, node_targets, release, release_gone, on_signal, clear_signal, block_signal,
}
use libsigcplusplus.World.Watchers.{Watched, unless_slot, tell_all-Watched, tell_all-kept}
use libsigcplusplus.World.Program.{clears}
use libsigcplusplus.World.Spec.{view, spec_step, still, shown}
use libsigcplusplus.World.Shown.{shown-map_blocked, shown-update_blocked, View-same}
use libsigcplusplus.World.Registry.{count, bound, live-unbind, unbind-clearing}
use libsigcplusplus.World.Slots.{bound-absent, has_id-deref}
use libsigcplusplus.World.Connections.{block_slot}
use libsigcplusplus.World.Destroyed.{some-injective, none-some}
use libsigcplusplus.World.Consistent.{Consistent}

-- What is left when every slot of a list is released.
pub record Released (targets : ℕ → List ℕ) (w u : World) : Type 0 where
  pub impl : u.impl ≡ w.impl
  pub unbound : (e x : ℕ) → live e (u.objects x).callbacks ≡ 0
  pub nowhere : (c i : ℕ) → u.conns c ≡ some i → has_id i [] ≡ true
  pub idle : (o : ℕ) → (u.objects o).clearing ≡ false
  pub watched : Watched u

unless_slot-tail :
    (n : Node) (ns : List Node) (o : Option ℕ) (i : ℕ)
    → ((j : ℕ) → o ≡ some j → has_id j (n ∷ ns) ≡ true)
    → unless_slot n.id o ≡ some i
    → has_id i ns ≡ true
unless_slot-tail n ns none i h e = absurd (cc)
unless_slot-tail n ns (some j) i h e = elim (Bool-cases (j == n.id)) [
  | inl hit ↦ absurd (none-some (rw hit at e))
  | inr miss ↦
      subst (λ k. has_id k ns ≡ true) (some-injective (rw miss at e)) (ground (arith, h j refl))
]

none_left : (o : Option ℕ) → ((i : ℕ) → o ≡ some i → has_id i [] ≡ true) → o ≡ none
none_left none h = refl
none_left (some i) h = absurd (no_id (h i refl))
  where
    no_id : has_id i [] ≡ true → ⊥
    no_id e = absurd (cc)

still-empty : (o : Option ℕ) → still [] o ≡ none
still-empty none = refl
still-empty (some i) = refl

module _ (targets : ℕ → List ℕ) where
  release_gone-every :
      (ns : List Node) (w : World)
      → Distinct ns
      → ((e x : ℕ) → live e (w.objects x).callbacks ≡ bound targets e x ns)
      → ((c i : ℕ) → w.conns c ≡ some i → has_id i ns ≡ true)
      → ((o : ℕ) → (w.objects o).clearing ≡ false)
      → Watched w
      → Released targets w (release_gone targets ns [] w)
  unfolding release_gone deref
  release_gone-every [] w d reg p idle wt = record {
    impl = refl;
    unbound = reg;
    nowhere = p;
    idle = idle;
    watched = wt;
  }
  release_gone-every (n ∷ ns) w d reg p idle wt =
      let v = release targets n w in
      let rest =
        release_gone-every ns v d.1 (λ e x. unbound_head e x)
          (λ c i e.
            unless_slot-tail n ns (w.conns c) i (p c) (sym (tell_all-Watched n.id w wt c) ∙ e))
          (λ o. unbind-clearing n.id (node_targets targets n) w.objects o ∙ idle o)
          (tell_all-kept n.id w wt) in
      record {
        impl = rest.impl;
        unbound = rest.unbound;
        nowhere = rest.nowhere;
        idle = rest.idle;
        watched = rest.watched;
      }
    where
      unbound_head :
          (e x : ℕ) → live e ((release targets n w).objects x).callbacks ≡ bound targets e x ns
      unbound_head e x =
          let left = live-unbind n.id e (node_targets targets n) w.objects x in
          let had = reg e x in
          elim (Bool-cases (n.id == e)) [
            | inl hit ↦
                let gone : bound targets e x ns ≡ 0 =
                  bound-absent targets x e ns
                    (subst (λ k. has_id k ns ≡ false) (ground (arith, hit)) d.0) in
                let all : live e (w.objects x).callbacks ≡ count x (node_targets targets n) =
                  rw hit at had in
                left ∙ (rw (hit, all, gone) (omega arith))
            | inr miss ↦
                let all : live e (w.objects x).callbacks ≡ bound targets e x ns = rw miss at had in
                left ∙ (rw miss all)
          ]

  pub clear_signal-Consistent :
      (w : World)
      → Consistent targets w
      → (u : World) × (clear_signal targets w ≡ ok u)
        × Consistent targets u
        × (view u ≡ spec_step targets clears (view w))
  unfolding clear_signal on_signal
  clear_signal-Consistent w h =
      let st = h.settled in
      let run = clear-rest w.impl st.wf.distinct st.idle st.clean in
      let t : Impl = record (w.impl) { slots = []; log = destroy_nodes w.impl.slots w.impl.log } in
      let r =
        release_gone-every w.impl.slots (record w { impl = t }) st.wf.distinct h.registered
          h.pointing h.idle h.watched in
      (
        _,
        rw run refl,
        record {
          settled = subst Settled (sym r.impl) (Settled-cleared w.impl _ st);
          registered =
              λ e x. r.unbound e x ∙ ap (λ (s : Impl). bound targets e x s.slots) (sym r.impl);
          pointing =
              λ c i e. subst (λ (s : Impl). has_id i s.slots ≡ true) (sym r.impl) (r.nowhere c i e);
          idle = r.idle;
          watched = r.watched;
        },
        View-same _ _ (ap (λ (s : Impl). shown s.slots) r.impl)
            (λ c. none_left _ (r.nowhere (suc c)) ∙ sym (still-empty (w.conns (suc c))))
            (ap (λ (s : Impl). s.next) r.impl),
      )

  -- The signal changed in its slots' blocking only.
  same_slots-Consistent :
      (w : World) (t : Impl)
      → Settled t
      → ((e x : ℕ) → bound targets e x t.slots ≡ bound targets e x w.impl.slots)
      → ((j : ℕ) → has_id j t.slots ≡ has_id j w.impl.slots)
      → Consistent targets w
      → Consistent targets (record w { impl = t })
  same_slots-Consistent w t st b p h = record {
    settled = st;
    registered = λ e x. h.registered e x ∙ sym (b e x);
    pointing = λ c i e. p i ∙ h.pointing c i e;
    idle = h.idle;
    watched = h.watched;
  }

  bound-map_blocked :
      (b : Bool) (e x : ℕ) (ns : List Node)
      → bound targets e x (map_slots (set_blocked b) ns) ≡ bound targets e x ns
  bound-map_blocked b e x [] = refl
  bound-map_blocked b e x (n ∷ ns) =
      ap (λ k. if n.id == e then count x (node_targets targets n) else k)
        (bound-map_blocked b e x ns)

  pub block_signal-Consistent :
      (b : Bool) (w : World) → Consistent targets w → Consistent targets (block_signal b w)
  unfolding block_signal block
  block_signal-Consistent b w h =
      same_slots-Consistent w (block b w.impl)
        (Settled-Good w.impl (block b w.impl) h.settled refl (block-Good w.impl h.settled.wf b))
        (λ e x.
          ap (bound targets e x) (block_nodes_lem b w.impl.slots)
          ∙ bound-map_blocked b e x w.impl.slots)
        (λ j.
          ap (has_id j) (block_nodes_lem b w.impl.slots)
          ∙ has_id-map_slots (set_blocked b) j w.impl.slots)
        h

  pub block_signal-view : (b : Bool) (w : World) → view (block_signal b w) ≡ view w
  unfolding block_signal block
  block_signal-view b w =
      View-same _ _ (ap shown (block_nodes_lem b w.impl.slots) ∙ shown-map_blocked b w.impl.slots)
        (λ c. refl) refl

  bound-update_blocked :
      (b : Bool) (i e x : ℕ) (ns : List Node)
      → bound targets e x (update_slot i (set_blocked b) ns) ≡ bound targets e x ns
  unfolding update_slot
  bound-update_blocked b i e x [] = refl
  bound-update_blocked b i e x (n ∷ ns) = ground (arith, bound-update_blocked b i e x ns)

  pub block_slot-Consistent :
      (c : ℕ) (b : Bool) (w : World)
      → Consistent targets w
      → (r : Bool × World) × (block_slot c b w ≡ ok r)
        × Consistent targets r.1
        × (view r.1 ≡ view w)
  unfolding block_slot
  block_slot-Consistent c b w h = by_connection (w.conns c) refl
    where
      by_connection :
          (o : Option ℕ)
          → w.conns c ≡ o
          → (r : Bool × World) × (block_slot c b w ≡ ok r)
            × Consistent targets r.1
            × (view r.1 ≡ view w)
      by_connection none e = ((false, w), rw (e, block_slot) refl, h, refl)
      by_connection (some i) e =
          let (n, found) = has_id-deref i w.impl.slots (h.pointing c i e) in
          let t : Impl = record (w.impl) { slots = update_slot i (set_blocked b) w.impl.slots } in
          (
            (n.slot.blocked, record w { impl = t }),
            rw (e, block_slot, found) refl,
            same_slots-Consistent w t
                (Settled-Good w.impl t h.settled refl (block_slot-Good w.impl h.settled.wf i b))
                (λ e x. bound-update_blocked b i e x w.impl.slots)
                (λ j. has_id-update_slot i (set_blocked b) j w.impl.slots) h,
            View-same _ _ (shown-update_blocked i b w.impl.slots) (λ c. refl) refl,
          )
