-- ===== src/World/State.antt =====
-- A signal, the trackables that its functors refer to, and the connections to its slots:
-- slot_do_bind, slot_do_unbind, slot_rep::notify_slot_rep_invalidated (sigc++/functors/slot_base.{h,cc}),
-- weak_raw_ptr (sigc++/weak_raw_ptr.h) and ~trackable (sigc++/trackable.cc).
use libsigcplusplus.Prelude.{
  Bool, ℕ, zero, suc, ◌+◌, true, false, Option, none, some, List, [], ◌∷◌, length, get_elem?, ◌==◌,
  if◌then◌else◌, Outcome, ok, no_fuel, ◌>>=◌,
}
use libsigcplusplus.Signal.Slot.{Slot, copy_slot, destroy_slot}
use libsigcplusplus.Signal.Nodes.{Node, deref, update_slot}
use libsigcplusplus.Signal.Impl.{Impl, connect, connect_first, clear, block, disconnect}
use libsigcplusplus.Signal.Emit.{functor_of, has}
use libsigcplusplus.Trackable.Callbacks.{
  Callback, CallbackList, new_list, add_callback, remove_callback,
}

-- `objects` gives the callback list of each trackable, whose entries name slots of the signal by
-- their address, `conns` the slot that each connection's weak_raw_ptr points to (p_), and `watchers`
-- the callback list of each slot's rep, which is a trackable: its entries name connections.
pub record World : Type 0 where
  pub impl : Impl
  pub objects : ℕ → CallbackList
  pub conns : ℕ → Option ℕ
  pub watchers : ℕ → CallbackList

abbrev pub set {ℓ} : {A : Type ℓ} → ℕ → A → (ℕ → A) → ℕ → A
set k v g j = if j == k then v else g j

-- slot_do_bind and slot_do_unbind on every trackable that a functor refers to.
unfoldable pub bind_all : List ℕ → ℕ → (ℕ → CallbackList) → ℕ → CallbackList
bind_all [] r g = g
bind_all (o ∷ os) r g = bind_all os r (set o (add_callback r 0 (g o)) g)

unfoldable pub unbind_all : List ℕ → ℕ → (ℕ → CallbackList) → ℕ → CallbackList
unbind_all [] r g = g
unbind_all (o ∷ os) r g = unbind_all os r (set o (remove_callback r (g o)) g)

-- The loop over the callbacks of a rep that is destroyed: weak_raw_ptr::notify_object_invalidated, on
-- each connection that is registered there.
unfoldable pub tell_all : List Callback → (ℕ → Option ℕ) → ℕ → Option ℕ
tell_all [] g = g
tell_all (c ∷ cs) g = tell_all cs (elim c.func [ none ↦ g | some f ↦ set c.object none g ])

-- What weak_raw_ptr does when it comes to point to a slot, and when it ceases to:
-- slot_base::add_destroy_notify_callback and remove_destroy_notify_callback, on the rep.
abbrev pub attach : ℕ → Option ℕ → (ℕ → CallbackList) → ℕ → CallbackList
attach c none p = p
attach c (some i) p = set i (add_callback c 0 (p i)) p

abbrev pub detach : ℕ → Option ℕ → (ℕ → CallbackList) → ℕ → CallbackList
detach c none p = p
detach c (some i) p = set i (remove_callback c (p i)) p

-- weak_raw_ptr::operator=, where `v` is src.p_: p_ and the registrations.
unfoldable pub point_to : ℕ → Option ℕ → World → World
unfolding add_callback remove_callback
point_to c v w = record w {
  conns = set c v w.conns;
  watchers = attach c v (detach c (w.conns c) w.watchers);
}

-- signal_base::block and unblock
unfoldable pub block_signal : Bool → World → World
block_signal b w = record w { impl = block b w.impl }

-- `targets` is what visit_each_trackable finds in a functor.
module _ (targets : ℕ → List ℕ) where
  abbrev pub targets_of : Option ℕ → List ℕ
  targets_of none = []
  targets_of (some f) = targets f

  abbrev pub node_targets : Node → List ℕ
  node_targets n = targets_of (functor_of n.slot.rep)

  -- What the destructor of a slot's rep does outside the list: typed_slot_rep::destroy unbinds it,
  -- and ~trackable tells the connections that are registered with the rep.
  abbrev pub release : Node → World → World
  release n w = record w {
    objects = unbind_all (node_targets n) n.id w.objects;
    conns = tell_all (w.watchers n.id).callbacks w.conns;
    watchers = set n.id new_list w.watchers;
  }

  unfoldable pub release_gone : List Node → List Node → World → World
  release_gone [] after w = w
  release_gone (n ∷ ns) after w = release_gone ns after (if has n.id after then w else release n w)

  -- An operation of the signal, with the destructors of the slots that it erases.
  unfoldable pub on_signal : (Impl → Outcome Impl) → World → Outcome World
  unfolding release_gone
  on_signal op w = op w.impl >>= λ t. ok (release_gone w.impl.slots t.slots (record w { impl = t }))

  -- typed_slot_rep::destroy on a rep that stays in the list.
  abbrev pub rep_destroyed : Slot → Slot
  rep_destroyed s = record s {
    rep = elim s.rep [ none ↦ none | some r ↦ some (record r { call = false; functor = none }) ];
  }

  unfoldable pub destroy_in_place : Node → World → World
  unfolding unbind_all
  destroy_in_place n w = record w {
    impl = record (w.impl) {
      slots = update_slot n.id rep_destroyed w.impl.slots;
      log = destroy_slot n.slot w.impl.log;
    };
    objects = unbind_all (node_targets n) n.id w.objects;
  }

  -- slot_rep::notify_slot_rep_invalidated: `has` is what the local weak_raw_ptr tells.
  unfoldable pub invalidate : ℕ → World → Outcome World
  unfolding on_signal destroy_in_place
  invalidate i w = do
    n ← deref i w.impl.slots
    w' ← on_signal (disconnect i) w
    if has i w'.impl.slots then ok (destroy_in_place n w') else ok w'

  -- The loop of ~trackable_callback_list, whose callbacks are all notify_slot_rep_invalidated.
  unfoldable pub notify_all : ℕ → ℕ → ℕ → World → Outcome World
  unfolding invalidate
  notify_all o zero i w = no_fuel
  notify_all o (suc k) i w = elim (get_elem? (w.objects o).callbacks i) [
    | none ↦ ok w
    | some c ↦ do
      w' ← elim c.func [ none ↦ ok w | some f ↦ invalidate c.object w ]
      notify_all o k (i + 1) w'
  ]

  -- trackable::notify_callbacks, also ~trackable: the object has no list afterwards.
  unfoldable pub destroy_object : ℕ → World → Outcome World
  unfolding notify_all
  destroy_object o w = do
    let l = w.objects o
    w' ←
        notify_all o (suc (length l.callbacks)) 0
          (record w { objects = set o (record l { clearing = true }) w.objects })
    ok (record w' { objects = set o new_list w'.objects })

  -- signal::connect (sigc++/signal.h): the copy of the slot is bound, and `c` is the connection made.
  unfoldable pub connect_slot : ℕ → Slot → World → Outcome World
  unfolding bind_all point_to
  connect_slot c sl w = do
    t ← connect sl w.impl
    ok (
        point_to c (some w.impl.next) (record w {
          impl = t;
          objects = bind_all (targets_of (functor_of (copy_slot sl).rep)) w.impl.next w.objects;
        }))

  -- signal::connect_first
  unfoldable pub connect_slot_first : ℕ → Slot → World → Outcome World
  unfolding bind_all point_to
  connect_slot_first c sl w = do
    t ← connect_first sl w.impl
    ok (
        point_to c (some w.impl.next) (record w {
          impl = t;
          objects = bind_all (targets_of (functor_of (copy_slot sl).rep)) w.impl.next w.objects;
        }))

  -- signal_base::clear
  unfoldable pub clear_signal : World → Outcome World
  unfolding on_signal
  clear_signal w = on_signal clear w
