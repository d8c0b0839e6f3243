-- ===== src/World/Pointed.antt =====
-- What a program sees of the assignments of its connections (sigc++/connection.cc,
-- sigc++/scoped_connection.cc): their local connections leave no trace.
use libsigcplusplus.Prelude.{
  ℕ, suc, ◌≡◌, refl, sym, ap, ◌∙◌, false, Option, none, ◌==◌, arith, if◌then◌else◌,
}
use libsigcplusplus.World.State.{World, point_to}
use libsigcplusplus.World.Connections.{local, assign, reset}
use libsigcplusplus.World.Scoped
use libsigcplusplus.World.Consistent.{Together}
use libsigcplusplus.World.Spec.{View, view, refer, cut}
use libsigcplusplus.World.Shown.{set-refs, set-local}

same_refs : (v : View) (g : ℕ → Option ℕ) → ((c : ℕ) → v.refs c ≡ g c) → v ≡ record v { refs = g }
same_refs v g h = λ i. record v { refs = λ c. h c i }

pub point_to-view :
    (c : ℕ) (o : Option ℕ) (w : World) → view (point_to (suc c) o w) ≡ refer c o (view w)
unfolding point_to
point_to-view c o w = same_refs _ _ (set-refs c o w.conns)

local_unseen : (o : Option ℕ) (w : World) → view (point_to local o w) ≡ view w
unfolding point_to
local_unseen o w = same_refs _ _ (set-local o w.conns)

pub assign-view :
    (c d : ℕ) (w : World) → view (assign (suc c) (suc d) w) ≡ refer c (w.conns (suc d)) (view w)
unfolding assign
assign-view c d w = point_to-view c (w.conns (suc d)) w

pub reset-view : (c : ℕ) (w : World) → view (reset (suc c) w) ≡ refer c none (view w)
unfolding reset
reset-view c w = point_to-view c none w

-- The local connection refers to what is put there.
local-conns : (d : ℕ) (w : World) → (assign local d w).conns local ≡ w.conns d
unfolding assign point_to
local-conns d w = refl

other-conns :
    (c : ℕ) (o : Option ℕ) (w : World) → (point_to (suc c) o w).conns local ≡ w.conns local
unfolding point_to
other-conns c o w = ap (λ b. if b then o else w.conns local) other
  where
    other : (0 == suc c) ≡ false
    other = ground arith

-- The local connection, put into one of the program, and gone.
from_local :
    (c : ℕ) (w : World)
    → view (reset local (assign (suc c) local w)) ≡ refer c (w.conns local) (view w)
unfolding assign reset
from_local c w =
    local_unseen none (point_to (suc c) (w.conns local) w) ∙ point_to-view c (w.conns local) w

to_local : (d : ℕ) (w : World) → view (assign local d w) ≡ view w
unfolding assign
to_local d w = local_unseen (w.conns d) w

exchange-local :
    (t : ℕ) (w : World) → (reset (suc t) (assign local (suc t) w)).conns local ≡ w.conns (suc t)
unfolding reset
exchange-local t w = other-conns t none (assign local (suc t) w) ∙ local-conns (suc t) w

swap-local :
    (s t : ℕ) (w : World)
    → (assign (suc s) (suc t) (assign local (suc s) w)).conns local ≡ w.conns (suc s)
unfolding assign
swap-local s t w = other-conns s _ (point_to local (w.conns (suc s)) w) ∙ local-conns (suc s) w

pub exchange-view :
    (s t : ℕ) (w : World)
    → view (Scoped.exchange (suc s) (suc t) w) ≡ refer s (w.conns (suc t)) (refer t none (view w))
unfolding Scoped.exchange
exchange-view s t w =
    let v = assign local (suc t) w in
    from_local s (reset (suc t) v) ∙ λ i.
    refer s (exchange-local t w i) ((reset-view t v ∙ ap (refer t none) (to_local (suc t) w)) i)

pub swap-view :
    (s t : ℕ) (w : World)
    → view (Scoped.swap (suc s) (suc t) w)
      ≡ refer t (w.conns (suc s)) (refer s (w.conns (suc t)) (view w))
unfolding Scoped.swap
swap-view s t w =
    let v = assign local (suc s) w in
    from_local t (assign (suc s) (suc t) v) ∙ λ i. refer t (swap-local s t w i) (
      (assign-view s t v ∙ λ j.
      refer s (ap (λ (x : View). x.refs t) (to_local (suc s) w) j) (to_local (suc s) w j))
        i)

-- operator=(connection): the parameter is told of a slot that goes away as its source is.
pub taken_seen :
    (s c : ℕ) (w v : World)
    → view v ≡ cut s (view (assign local (suc c) w))
    → Together (assign local (suc c) w) v
    → view (reset local (assign (suc s) local v))
      ≡ refer s ((cut s (view w)).refs c) (cut s (view w))
taken_seen s c w v cutting together = from_local s v ∙ λ i. refer s (held i) (seen i)
  where
    seen : view v ≡ cut s (view w)
    seen = cutting ∙ ap (cut s) (to_local (suc c) w)

    held : v.conns local ≡ (cut s (view w)).refs c
    held =
        together local (suc c)
          (local-conns (suc c) w ∙ sym (ap (λ (x : View). x.refs c) (to_local (suc c) w)))
        ∙ ap (λ (x : View). x.refs c) seen
