-- ===== src/World/Watchers.antt =====
-- The connections registered with the reps of the slots: weak_raw_ptr (sigc++/weak_raw_ptr.h).
use libsigcplusplus.Prelude.{
  ℕ, ◌+◌, ◌-◌, ◌≡◌, refl, sym, ap, ◌∙◌, true, false, Option, none, some, List, [], ◌∷◌, ◌==◌, arith,
  if◌then◌else◌,
}
use libsigcplusplus.Trackable.Callbacks.{
  Callback, CallbackList, new_list, add_callback, remove_callback, is_entry,
}
use libsigcplusplus.Trackable.Removal.{live, live-remove-add}
use libsigcplusplus.World.State.{World, set, tell_all, attach, detach, point_to}
use libsigcplusplus.World.Registry.{set-cases, add_callback-idle}

-- How often a connection has to be registered with a slot.
abbrev pub refers : ℕ → Option ℕ → ℕ
refers r none = 0
refers r (some i) = if i == r then 1 else 0

-- What a connection to a slot refers to when the slot is gone.
abbrev pub unless_slot : ℕ → Option ℕ → Option ℕ
unless_slot r none = none
unless_slot r (some i) = if i == r then none else some i

-- A connection is registered once with the slot that it refers to, and with no other.
pub record WatchedBy (p : ℕ → CallbackList) (g : ℕ → Option ℕ) : Type 0 where
  pub once : (c r : ℕ) → live c (p r).callbacks ≡ refers r (g c)
  pub idle : (r : ℕ) → (p r).clearing ≡ false

abbrev pub Watched : World → Type 0
Watched w = WatchedBy w.watchers w.conns

tell_all-live :
    (cs : List Callback) (g : ℕ → Option ℕ) (c : ℕ)
    → tell_all cs g c ≡ (if live c cs == 0 then g c else none)
unfolding tell_all live is_entry
tell_all-live [] g c = refl
tell_all-live (x ∷ cs) g c = by_func (λ f. tell_all-live cs f c) x.func refl
  where
    by_func :
        ((f : ℕ → Option ℕ) → tell_all cs f c ≡ (if live c cs == 0 then f c else none))
        → (o : Option ℕ) → x.func ≡ o
        → tell_all (x ∷ cs) g c ≡ (if live c (x ∷ cs) == 0 then g c else none)
    by_func rest none e = rw e (rest g ∙ ground arith)
    by_func rest (some f) e = rw e (rest (set x.object none g) ∙ ground arith)

-- The notification of a rep tells exactly the connections that refer to the slot.
pub tell_all-Watched :
    (r : ℕ) (w : World)
    → Watched w
    → (c : ℕ) → tell_all (w.watchers r).callbacks w.conns c ≡ unless_slot r (w.conns c)
tell_all-Watched r w h c =
    tell_all-live (w.watchers r).callbacks w.conns c ∙ by_pointer (w.conns c) (h.once c r)
  where
    by_pointer :
        (o : Option ℕ)
        → live c (w.watchers r).callbacks ≡ refers r o
        → (if live c (w.watchers r).callbacks == 0 then o else none) ≡ unless_slot r o
    by_pointer none e = ground arith
    by_pointer (some i) e = ground arith

-- The slot is gone, and no registration with it is left.
pub tell_all-kept :
    (r : ℕ) (w : World)
    → Watched w
    → WatchedBy (set r new_list w.watchers) (tell_all (w.watchers r).callbacks w.conns)
unfolding live
tell_all-kept r w h = record {
  once = λ c i.
      set-cases (λ l. live c l.callbacks ≡ refers i (unless_slot r (w.conns c))) (λ l. new_list) r i
        w.watchers (λ e. gone c i (w.conns c) e) (λ e. h.once c i ∙ other c i (w.conns c) e)
      ∙ ap (refers i) (sym (tell_all-Watched r w h c));
  idle = λ i.
      set-cases (λ l. l.clearing ≡ false) (λ l. new_list) r i w.watchers (λ e. refl)
        (λ e. h.idle i);
}
  where
    gone : (c i : ℕ) (o : Option ℕ) → (i == r) ≡ true → 0 ≡ refers i (unless_slot r o)
    gone c i none e = refl
    gone c i (some j) e = ground arith

    other : (c i : ℕ) (o : Option ℕ) → (i == r) ≡ false → refers i o ≡ refers i (unless_slot r o)
    other c i none e = refl
    other c i (some j) e = ground arith

module _ (c : ℕ) (p : ℕ → CallbackList) where
  live-detach :
      (v : Option ℕ) (e r : ℕ)
      → live e (detach c v p r).callbacks
        ≡ (if c == e then live e (p r).callbacks - refers r v else live e (p r).callbacks)
  live-detach none e r = ground arith
  live-detach (some i) e r =
      set-cases
        (λ l.
          live e l.callbacks
          ≡ (if c == e then live e (p r).callbacks - refers r (some i) else live e (p r).callbacks))
        (remove_callback c) i r p (λ h. ground (arith, (live-remove-add c e 0 (p r)).0))
        (λ h. ground arith)

  live-attach :
      (v : Option ℕ) (e r : ℕ)
      → (p r).clearing ≡ false
      → live e (attach c v p r).callbacks
        ≡ (if c == e then live e (p r).callbacks + refers r v else live e (p r).callbacks)
  live-attach none e r off = ground arith
  live-attach (some i) e r off =
      set-cases
        (λ l.
          live e l.callbacks
          ≡ (if c == e then live e (p r).callbacks + refers r (some i) else live e (p r).callbacks))
        (add_callback c 0) i r p (λ h. ground (arith, (live-remove-add c e 0 (p r)).1, off))
        (λ h. ground arith)

  detach-idle : (v : Option ℕ) (r : ℕ) → (p r).clearing ≡ false → (detach c v p r).clearing ≡ false
  unfolding remove_callback
  detach-idle none r off = off
  detach-idle (some i) r off =
      set-cases (λ l. l.clearing ≡ false) (remove_callback c) i r p (λ h. off) (λ h. off)

  attach-idle : (v : Option ℕ) (r : ℕ) → (p r).clearing ≡ false → (attach c v p r).clearing ≡ false
  attach-idle none r off = off
  attach-idle (some i) r off =
      set-cases (λ l. l.clearing ≡ false) (add_callback c 0) i r p
        (λ h. add_callback-idle c 0 (p r) off) (λ h. off)

-- Every connection that is made to point elsewhere takes its registration with it.
pub point_to-Watched : (c : ℕ) (v : Option ℕ) (w : World) → Watched w → Watched (point_to c v w)
unfolding point_to
point_to-Watched c v w h = record {
  once = counts;
  idle = λ r. attach-idle c (detach c (w.conns c) w.watchers) v r (off r);
}
  where
    off : (r : ℕ) → (detach c (w.conns c) w.watchers r).clearing ≡ false
    off r = detach-idle c w.watchers (w.conns c) r (h.idle r)

    counts :
        (e r : ℕ)
        → live e (attach c v (detach c (w.conns c) w.watchers) r).callbacks
          ≡ refers r (set c v w.conns e)
    counts e r =
        let had = h.once e r in
        let taken = live-detach c w.watchers (w.conns c) e r in
        let given = live-attach c (detach c (w.conns c) w.watchers) v e r (off r) in
        set-cases
          (λ o. live e (attach c v (detach c (w.conns c) w.watchers) r).callbacks ≡ refers r o)
          (λ o. v) c e w.conns
          (λ k.
            let same : w.conns c ≡ w.conns e = ap w.conns (ground (arith, k)) in
            let back : refers r (w.conns c) ≡ refers r (w.conns e) = ap (refers r) same in
            ground (arith, given, taken, had, back, k))
          (λ k. ground (arith, given, taken, had, k))
