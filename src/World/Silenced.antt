-- ===== src/World/Silenced.antt =====
-- What the destruction of a trackable leaves of a signal that emits (sigc++/trackable.cc).
use libsigcplusplus.Prelude.{
  ℕ, suc, ◌<◌, ◌≡◌, refl, sym, ◌∙◌, true, false, List, [], ◌==◌, arith, eq_self, ok, length,
}
use libsigcplusplus.Signal.Invariant.{Wf}
use libsigcplusplus.Trackable.Callbacks.{new_list}
use libsigcplusplus.Trackable.Removal.{live}
use libsigcplusplus.World.State.{World, set, destroy_object}
use libsigcplusplus.World.Registry.{bound}
use libsigcplusplus.World.Silence.{silenced, silenced-none}
use libsigcplusplus.World.Invalidate.{Registered, Registered-set}
use libsigcplusplus.World.Entries.{live-Dead}
use libsigcplusplus.World.Notify.{notify_all-kept}
use libsigcplusplus.World.Emitting.{Silencing, Silencing-step}

module _ (targets : ℕ → List ℕ) (o : ℕ) where
  pub record Silenced (w u : World) : Type 0 where
    pub wf : Wf u.impl
    pub exec : u.impl.exec ≡ w.impl.exec
    pub next : u.impl.next ≡ w.impl.next
    pub slots : u.impl.slots ≡ silenced targets o w.impl.slots
    pub registered : Registered targets u
    pub conns : (c : ℕ) → u.conns c ≡ w.conns c
    pub watchers : u.watchers ≡ w.watchers
    pub flags : (x : ℕ) → (x == o) ≡ false → (u.objects x).clearing ≡ (w.objects x).clearing
    pub list : u.objects o ≡ new_list

  clearing_list : World → World
  clearing_list w = record w {
    objects = set o (record (w.objects o) { clearing = true }) w.objects;
  }

  clearing_list-Silencing :
      (w : World) → Wf w.impl → Registered targets w → Silencing targets o w (clearing_list w)
  unfolding clearing_list
  clearing_list-Silencing w wf reg = record {
    wf = wf;
    exec = refl;
    next = refl;
    registered = Registered-set targets o (λ l. record l { clearing = true }) w (λ r. reg r o) reg;
    clearing = rw (eq_self o);
    flags = λ x h. rw h;
    slots = refl;
    conns = λ c. refl;
    watchers = refl;
  }

  -- A trackable is destroyed, or overwritten, while the signal is emitting: the notification comes to
  -- an end and uses no slot that is gone; every slot is still in the list and in its place; exactly
  -- those whose functors refer to the object have lost the functor and cannot be called; the count,
  -- the invariant, the connections and their registrations are as they were; and the registrations are those of the
  -- functors that are left.
  pub destroy_object-emitting :
      (w : World)
      → Wf w.impl
      → 0 < w.impl.exec
      → Registered targets w
      → (u : World) × (destroy_object targets o w ≡ ok u) × Silenced w u
  unfolding destroy_object clearing_list live
  destroy_object-emitting w wf pos reg =
      let cs = (w.objects o).callbacks in
      let busy : (w.impl.exec == 0) ≡ false = ground arith in
      let (u, run, walk, dead) =
        notify_all-kept targets o (Silencing targets o w)
          (λ v r. Silencing-step targets o w v r busy) (suc (length cs)) [] cs (clearing_list w) 0
          (rw (eq_self o)) tt refl refl (clearing_list-Silencing w wf reg) in
      let zero_left : (r : ℕ) → bound targets r o u.impl.slots ≡ 0 =
        λ r. sym (walk.registered r o) ∙ live-Dead r (u.objects o).callbacks dead in
      (
        record u { objects = set o new_list u.objects },
        rw run,
        record {
          wf = walk.wf;
          exec = walk.exec;
          next = walk.next;
          slots =
              sym (silenced-none targets o u.impl.slots walk.wf.distinct zero_left) ∙ walk.slots;
          registered =
              Registered-set targets o (λ l. new_list) u (λ r. sym (zero_left r)) walk.registered;
          conns = walk.conns;
          watchers = walk.watchers;
          flags = λ x h. rw h (walk.flags x h);
          list = rw (eq_self o);
        },
      )
