-- ===== src/World/Runs.antt =====
-- Any sequence of what a program does with a signal at rest, its connections and its trackables.
use libsigcplusplus.Prelude.{
  ℕ, suc, ◌≡◌, refl, ap, ◌∙◌, Bool, true, false, Option, none, some, List, [], ◌∷◌, Outcome, ok,
  ◌>>=◌, All,
}
use libsigcplusplus.World.State.{World, point_to, block_signal}
use libsigcplusplus.World.Watchers.{point_to-Watched}
use libsigcplusplus.World.Connections.{local, assign, reset, is_empty, is_blocked, disconnect_slot}
use libsigcplusplus.World.Consistent.{
  Consistent, Together, disconnect_slot-Consistent, destroy_object-Consistent,
}
use libsigcplusplus.World.Clear.{
  clear_signal-Consistent, block_signal-Consistent, block_signal-view, block_slot-Consistent,
}
use libsigcplusplus.World.Spec.{View, view, cut, spec_step, spec_steps}
use libsigcplusplus.World.Pointed.{assign-view, reset-view, exchange-view, swap-view, taken_seen}
use libsigcplusplus.Signal.Slot.{empty}
use libsigcplusplus.Signal.Impl.{new_impl}
use libsigcplusplus.Signal.Extension.{has_id}
use libsigcplusplus.Trackable.Callbacks.{new_list}
use libsigcplusplus.World.Registry.{set-cases}
use libsigcplusplus.World.Slots.{has_id-deref}
use libsigcplusplus.World.Scoped
use libsigcplusplus.World.Connect.{connect_slot-Consistent, connect_slot_first-Consistent}
use libsigcplusplus.World.Destroyed.{Pointing}
use libsigcplusplus.World.Program.{
  Step, connects, connects_first, disconnects, blocks_connection, blocks, clears, copies, resets,
  destroys_object, scoped_exchanges, scoped_swaps, scoped_assigns, scoped_moves, scoped_destroys,
  StepMade, run_step, run_steps,
}

module _ (targets : ℕ → List ℕ) where
  -- A run that ends well, and in the view `v`.
  abbrev Ends : View → Outcome World → Type 0
  Ends v m = (u : World) × (m ≡ ok u) × Consistent targets u × (view u ≡ v)

  -- A connection made to refer to a slot, or to none.
  point_to-Consistent :
      (c : ℕ) (v : Option ℕ) (w : World)
      → ((i : ℕ) → v ≡ some i → has_id i w.impl.slots ≡ true)
      → Consistent targets w
      → Consistent targets (point_to c v w)
  unfolding point_to
  point_to-Consistent c v w p h = record {
    settled = h.settled;
    registered = h.registered;
    pointing = λ d i.
        set-cases (λ o. o ≡ some i → has_id i w.impl.slots ≡ true) (λ o. v) c d w.conns
          (λ k e. p i e) (λ k e. h.pointing d i e);
    watched = point_to-Watched c v w h.watched;
    idle = h.idle;
  }

  assign-Consistent :
      (c d : ℕ) (w : World) → Consistent targets w → Consistent targets (assign c d w)
  unfolding assign
  assign-Consistent c d w h = point_to-Consistent c (w.conns d) w (h.pointing d) h

  reset-Consistent : (c : ℕ) (w : World) → Consistent targets w → Consistent targets (reset c w)
  unfolding reset
  reset-Consistent c w h = point_to-Consistent c none w (λ i e. absurd (cc)) h

  exchange-Consistent :
      (s t : ℕ) (w : World) → Consistent targets w → Consistent targets (Scoped.exchange s t w)
  unfolding Scoped.exchange
  exchange-Consistent s t w h =
      reset-Consistent local _
        (assign-Consistent s local _ (reset-Consistent t _ (assign-Consistent local t w h)))

  swap-Consistent :
      (s t : ℕ) (w : World) → Consistent targets w → Consistent targets (Scoped.swap s t w)
  unfolding Scoped.swap
  swap-Consistent s t w h =
      reset-Consistent local _
        (assign-Consistent t local _ (assign-Consistent s t _ (assign-Consistent local s w h)))

  -- A disconnection, and then a change of the connections.
  after_disconnect :
      (s : ℕ) (f : World → World) (w : World) (r : View)
      → ((v : World) → Consistent targets v → Consistent targets (f v))
      → ((v : World) → view v ≡ cut s (view w) → Together w v → view (f v) ≡ r)
      → Consistent targets w
      → Ends r (disconnect_slot targets (suc s) w >>= λ v. ok (f v))
  after_disconnect s f w r step seen h =
      let (v, run, k, cutting, together) = disconnect_slot-Consistent targets (suc s) w h in
      (f v, ap (λ m. m >>= λ v. ok (f v)) run, step v k, seen v cutting together)

  run_step-Consistent :
      (x : Step) (w : World)
      → StepMade x
      → Consistent targets w
      → Ends (spec_step targets x (view w)) (run_step targets x w)
  unfolding run_step Scoped.assign_connection Scoped.assign_move Scoped.destroy
  run_step-Consistent (connects c sl) w m h = connect_slot-Consistent targets c sl w m h
  run_step-Consistent (connects_first c sl) w m h = connect_slot_first-Consistent targets c sl w m h
  run_step-Consistent (disconnects c) w m h =
      let (u, run, k, seen, together) = disconnect_slot-Consistent targets (suc c) w h in
      (u, run, k, seen)
  run_step-Consistent (blocks_connection c b) w m h =
      let (r, run, k, seen) = block_slot-Consistent targets (suc c) b w h in
      (r.1, rw run refl, k, seen)
  run_step-Consistent (blocks b) w m h =
      (block_signal b w, refl, block_signal-Consistent targets b w h, block_signal-view targets b w)
  run_step-Consistent clears w m h = clear_signal-Consistent targets w h
  run_step-Consistent (copies c d) w m h =
      (_, refl, assign-Consistent (suc c) (suc d) w h, assign-view c d w)
  run_step-Consistent (resets c) w m h = (_, refl, reset-Consistent (suc c) w h, reset-view c w)
  run_step-Consistent (destroys_object o) w m h = destroy_object-Consistent targets o w h
  run_step-Consistent (scoped_exchanges s t) w m h =
      (_, refl, exchange-Consistent (suc s) (suc t) w h, exchange-view s t w)
  run_step-Consistent (scoped_swaps s t) w m h =
      (_, refl, swap-Consistent (suc s) (suc t) w h, swap-view s t w)
  run_step-Consistent (scoped_assigns s c) w m h =
      let (v, run, k, cutting, together) =
        disconnect_slot-Consistent targets (suc s) (assign local (suc c) w)
          (assign-Consistent local (suc c) w h) in
      (
        reset local (assign (suc s) local v),
        ap (λ o. o >>= λ v. ok (reset local (assign (suc s) local v))) run,
        reset-Consistent local _ (assign-Consistent (suc s) local v k),
        taken_seen s c w v cutting together,
      )
  run_step-Consistent (scoped_moves s t) w m h =
      after_disconnect s (Scoped.exchange (suc s) (suc t)) w _ (exchange-Consistent (suc s) (suc t))
        (λ v e _. exchange-view s t v ∙ ap (spec_step targets (scoped_exchanges s t)) e) h
  run_step-Consistent (scoped_destroys s) w m h =
      after_disconnect s (reset (suc s)) w _ (reset-Consistent (suc s))
        (λ v e _. reset-view s v ∙ ap (spec_step targets (resets s)) e) h

  run_steps-Consistent :
      (xs : List Step) (w : World)
      → All StepMade xs
      → Consistent targets w
      → Ends (spec_steps targets xs (view w)) (run_steps targets xs w)
  unfolding run_steps
  run_steps-Consistent [] w m h = (w, refl, h, refl)
  run_steps-Consistent (x ∷ xs) w m h =
      let (v, run, k, seen) = run_step-Consistent x w m.0 h in
      let (u, rest, l, end) = run_steps-Consistent xs v m.1 k in
      (u, ap (λ o. o >>= run_steps targets xs) run ∙ rest, l, end ∙ ap (spec_steps targets xs) seen)

abbrev pub new_world : World
new_world = record {
  impl = new_impl;
  objects = λ o. new_list;
  conns = λ c. none;
  watchers = λ r. new_list;
}

new_world-Consistent : (targets : ℕ → List ℕ) → Consistent targets new_world
unfolding libsigcplusplus.Trackable.Removal.live
new_world-Consistent targets = record {
  settled = record {
    wf = record { alive = refl; distinct = tt; below = tt; nodes = tt };
    idle = refl;
    clean = refl;
    reps = tt;
  };
  registered = λ r o. refl;
  pointing = λ c i e. absurd (cc);
  watched = record { once = λ c r. refl; idle = λ r. refl };
  idle = λ o. refl;
}

reads :
    (w : World)
    → Pointing w
    → (c : ℕ) → (b : Bool) × (d : Bool) × (is_empty c w ≡ ok b) × (is_blocked c w ≡ ok d)
unfolding is_empty is_blocked
reads w p c = go (w.conns c) refl
  where
    go :
        (o : Option ℕ)
        → w.conns c ≡ o
        → (b : Bool) × (d : Bool) × (is_empty c w ≡ ok b) × (is_blocked c w ≡ ok d)
    go none e = (true, false, rw (e, is_empty), rw (e, is_blocked))
    go (some i) e =
        let (n, found) = has_id-deref i w.impl.slots (p c i e) in
        (empty n.slot, n.slot.blocked, rw (e, is_empty, found), rw (e, is_blocked, found))

abbrev pub new_view : View
new_view = record { entries = []; refs = λ c. none; next = 0 }

-- Whatever a program does, from the start, with a signal at rest, its connections, scoped
-- connections and trackables, in whatever order: no step uses a slot that is gone; afterwards the
-- signal is at rest, each trackable has exactly the registrations of the slots in the list, each
-- connection is registered exactly with the slot that it refers to, and can be asked whether it is
-- empty or blocked; and the slots that are connected, their order, and what each connection refers to
-- are those of the specification, in which a reference to a slot that is gone is a reference to none.
pub reachable-Consistent :
    (targets : ℕ → List ℕ) (xs : List Step)
    → All StepMade xs
    → (u : World) × (run_steps targets xs new_world ≡ ok u)
      × Consistent targets u
      × (view u ≡ spec_steps targets xs new_view)
      × ((c : ℕ) → (b : Bool) × (d : Bool) × (is_empty c u ≡ ok b) × (is_blocked c u ≡ ok d))
reachable-Consistent targets xs m =
    let (u, run, h, seen) =
      run_steps-Consistent targets xs new_world m (new_world-Consistent targets) in
    (u, run, h, seen, reads u h.pointing)
