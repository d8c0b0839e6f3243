-- ===== src/World/Destroyed.antt =====
-- A trackable that is destroyed while slots of a signal at rest refer to it (sigc++/trackable.cc).
use libsigcplusplus.Prelude.{
  ℕ, suc, ◌≡◌, refl, sym, ◌∙◌, subst, true, false, Option, none, some, List, [], ◌==◌, Bool-cases,
  inl, inr, eq_self, ok, length,
}
use libsigcplusplus.Signal.Nodes.{Node}
use libsigcplusplus.Signal.Extension.{has_id}
use libsigcplusplus.Signal.Guarantee.{Settled}
use libsigcplusplus.Trackable.Callbacks.{new_list}
use libsigcplusplus.Trackable.Removal.{live}
use libsigcplusplus.World.State.{World, set, destroy_object}
use libsigcplusplus.World.Watchers.{Watched}
use libsigcplusplus.World.Registry.{bound}
use libsigcplusplus.World.Slots.{without, without-none}
use libsigcplusplus.World.Invalidate.{Registered, Registered-set, present}
use libsigcplusplus.World.Step.{Walk, Walk-step}
use libsigcplusplus.World.Entries.{live-Dead}
use libsigcplusplus.World.Notify.{notify_all-kept}

-- Every connection refers to a slot in the list, or to none.
abbrev pub Pointing : World → Type 0
Pointing w = (c i : ℕ) → w.conns c ≡ some i → has_id i w.impl.slots ≡ true

pub present-all :
    (ns : List Node) (c : Option ℕ) → ((i : ℕ) → c ≡ some i → has_id i ns ≡ true) → c ≡ present ns c
present-all ns none h = refl
present-all ns (some i) h = rw (h i refl)

pub some-injective : {a b : ℕ} → some a ≡ some b → a ≡ b
some-injective h = cc

pub none-some : {b : ℕ} → none ≡ some b → ⊥
none-some h = absurd (cc)

present-Pointing :
    (ns : List Node) (c : Option ℕ) (i : ℕ) → present ns c ≡ some i → has_id i ns ≡ true
present-Pointing ns none i e = absurd (cc)
present-Pointing ns (some j) i e = elim (Bool-cases (has_id j ns)) [
  | inl here ↦ subst (λ k. has_id k ns ≡ true) (some-injective (rw here at e)) here
  | inr gone ↦ absurd (none-some (rw gone at e))
]

module _ (targets : ℕ → List ℕ) (o : ℕ) where
  -- What the destruction of the object leaves.
  pub record Destroyed (w u : World) : Type 0 where
    pub settled : Settled u.impl
    pub slots : u.impl.slots ≡ without targets o w.impl.slots
    pub registered : Registered targets u
    pub conns : (c : ℕ) → u.conns c ≡ present u.impl.slots (w.conns c)
    pub pointing : Pointing u
    pub watched : Watched u
    pub next : u.impl.next ≡ w.impl.next
    pub flags : (x : ℕ) → (x == o) ≡ false → (u.objects x).clearing ≡ (w.objects x).clearing
    pub list : u.objects o ≡ new_list

  open_list : World → World
  open_list w = record w { objects = set o (record (w.objects o) { clearing = true }) w.objects }

  open_list-Walk :
      (w : World)
      → Settled w.impl
      → Registered targets w
      → Pointing w
      → Watched w
      → Walk targets o w (open_list w)
  unfolding open_list
  open_list-Walk w st reg pt wt = record {
    settled = st;
    registered = Registered-set targets o (λ l. record l { clearing = true }) w (λ r. reg r o) reg;
    clearing = rw (eq_self o);
    flags = λ x h. rw h;
    slots = refl;
    conns = λ c. present-all w.impl.slots (w.conns c) (pt c);
    watched = wt;
    next = refl;
  }

  -- A trackable is destroyed, or overwritten, while the signal is at rest: the notification comes to
  -- an end and uses no slot that is gone; the signal has lost exactly the slots whose functors refer
  -- to the object, the others are in their order; it is at rest again; the registrations of the slots
  -- that are left are those they had; and the connections to the slots that went away refer to none,
  -- the others to what they did, and are registered there. Every connection is registered with the
  -- slot that it refers to when the object is destroyed.
  pub destroy_object-rest :
      (w : World)
      → Settled w.impl
      → Registered targets w
      → Pointing w
      → Watched w
      → (u : World) × (destroy_object targets o w ≡ ok u) × Destroyed w u
  unfolding destroy_object open_list live
  destroy_object-rest w st reg pt wt =
      let cs = (w.objects o).callbacks in
      let (u, run, walk, dead) =
        notify_all-kept targets o (Walk targets o w) (Walk-step targets o w) (suc (length cs)) [] cs
          (open_list w) 0 (rw (eq_self o)) tt refl refl (open_list-Walk w st reg pt wt) in
      let zero_left : (r : ℕ) → bound targets r o u.impl.slots ≡ 0 =
        λ r. sym (walk.registered r o) ∙ live-Dead r (u.objects o).callbacks dead in
      (
        record u { objects = set o new_list u.objects },
        rw run,
        record {
          settled = walk.settled;
          slots =
              sym (without-none targets o u.impl.slots walk.settled.wf.distinct zero_left)
              ∙ walk.slots;
          registered =
              Registered-set targets o (λ l. new_list) u (λ r. sym (zero_left r)) walk.registered;
          conns = walk.conns;
          pointing = λ c i e. present-Pointing u.impl.slots (w.conns c) i (sym (walk.conns c) ∙ e);
          watched = walk.watched;
          next = walk.next;
          flags = λ x h. rw h (walk.flags x h);
          list = rw (eq_self o);
        },
      )
