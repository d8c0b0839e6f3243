-- ===== src/Signal/Refinement.antt =====
-- signal_impl and signal_emit at rest against the ordered list of entries.
use libsigcplusplus.Prelude.{
  ℕ, ◌+◌, ◌≤◌, ◌≡◌, refl, sym, ap, ◌∙◌, subst, Bool, false, Option, List, [], ◌∷◌, ◌++◌,
  if◌then◌else◌, All, arith, Outcome, ok, fault, no_fuel, ◌>>=◌,
}
use libsigcplusplus.Signal.Slot.{Event}
use libsigcplusplus.Signal.Nodes.{Node, deref}
use libsigcplusplus.Signal.Impl.{Impl, block}
use libsigcplusplus.Signal.Emit.{has, is_ok, set_blocked}
use libsigcplusplus.Signal.Erase.{All-remove_id}
use libsigcplusplus.Signal.Invariant.{All-append, All-map, All-map_slots, All-update_slot}
use libsigcplusplus.Signal.Guarantee.{Settled}
use libsigcplusplus.Signal.Steps.{connected}
use libsigcplusplus.Signal.Acts.{block_nodes_lem, block-Good, block_slot-Good}
use libsigcplusplus.Signal.Connect.{Settled-Good, connect-rest}
use libsigcplusplus.Signal.Rest.{disconnect-rest, clear-rest}
use libsigcplusplus.Signal.Passive.{calls, emit-passive}
use libsigcplusplus.Signal.Abstract
use libsigcplusplus.Signal.Abstract.{Entry, Spec, Request, answer, answers}
use libsigcplusplus.Signal.View.{
  made_slot, serve, serve_all, entries, view, Whole, entries-append, connected-entry,
  made_slot-SlotMade, entries-remove_id, log_without-deref, without_id-absent, entries-clear,
  entries-block, entries-block_one, entries-emit, has_none-entries, Ready,
}

-- What a request leaves.
abbrev pub Served : Request → Impl → Type 0
Served q s = (t : Impl) × (serve q s ≡ ok t) × Ready t × (view t ≡ answer q (view s))

serve-connects : (o : Option ℕ) (b : Bool) (s : Impl) → Ready s → Served (Abstract.connects o b) s
unfolding serve answer
serve-connects o b s h =
    let (run, st) = (connect-rest s (made_slot o b) (made_slot-SlotMade o b) h.settled).0 in
    let (e, w) = connected-entry s.next o b in
    (
      _,
      run,
      record { settled = st; whole = All-append Whole s.slots _ h.whole (w, tt) },
      λ j. record {
        entries =
            (entries-append s.slots (connected s.next (made_slot o b) ∷ [])
                ∙ ap (λ x. entries s.slots ++ x ∷ []) e)
              j;
        next = s.next + 1;
        log = s.log;
      },
    )

serve-connects_first :
    (o : Option ℕ) (b : Bool) (s : Impl) → Ready s → Served (Abstract.connects_first o b) s
unfolding serve answer
serve-connects_first o b s h =
    let (run, st) = (connect-rest s (made_slot o b) (made_slot-SlotMade o b) h.settled).1 in
    let (e, w) = connected-entry s.next o b in
    (
      _,
      run,
      record { settled = st; whole = (w, h.whole) },
      λ j. record { entries = e j ∷ entries s.slots; next = s.next + 1; log = s.log },
    )

serve-absent :
    (i : ℕ) (s : Impl) → Ready s → has i s.slots ≡ false → Served (Abstract.disconnects i) s
unfolding serve answer
serve-absent i s h out =
    let (p, q) = without_id-absent i s.slots s.log out in
    (s, rw out, h, λ j. record { entries = sym p j; next = s.next; log = sym q j })

serve-disconnects : (i : ℕ) (s : Impl) → Ready s → Served (Abstract.disconnects i) s
unfolding serve answer
serve-disconnects i s h = go (deref i s.slots) refl
  where
    go : (r : Outcome Node) → deref i s.slots ≡ r → Served (Abstract.disconnects i) s
    go (ok n) e =
        let (run, st) = disconnect-rest i n s h.settled e in
        (
          _,
          rw e run,
          record { settled = st; whole = All-remove_id Whole i s.slots h.whole },
          λ j. record {
            entries = entries-remove_id i s.slots j;
            next = s.next;
            log = log_without-deref i n s.slots s.log e j;
          },
        )
    go fault e = serve-absent i s h (ap is_ok e)
    go no_fuel e = serve-absent i s h (ap is_ok e)

serve-clears : (s : Impl) → Ready s → Served Abstract.clears s
unfolding serve answer
serve-clears s h =
    let st = h.settled in
    (
      _,
      clear-rest s st.wf.distinct st.idle st.clean,
      record {
        settled = record {
          wf = record { alive = st.wf.alive; distinct = tt; below = tt; nodes = tt };
          idle = st.idle;
          clean = st.clean;
          reps = tt;
        };
        whole = tt;
      },
      λ j. record { entries = []; next = s.next; log = entries-clear s.slots s.log j },
    )

serve-blocks : (b : Bool) (s : Impl) → Ready s → Served (Abstract.blocks b) s
unfolding serve answer block
serve-blocks b s h = (
  block b s,
  refl,
  record {
    settled = Settled-Good s (block b s) h.settled refl (block-Good s h.settled.wf b);
    whole =
        subst (λ u. All Whole u) (sym (block_nodes_lem b s.slots))
          (All-map_slots (set_blocked b) Whole Whole (λ n w. w) s.slots h.whole);
  },
  λ j. record {
    entries = (ap entries (block_nodes_lem b s.slots) ∙ entries-block b s.slots) j;
    next = s.next;
    log = s.log;
  },
)

serve-blocks_slot : (i : ℕ) (b : Bool) (s : Impl) → Ready s → Served (Abstract.blocks_slot i b) s
unfolding serve answer
serve-blocks_slot i b s h = (
  _,
  refl,
  record {
    settled = Settled-Good s _ h.settled refl (block_slot-Good s h.settled.wf i b);
    whole = All-update_slot i (set_blocked b) Whole (λ n w. w) s.slots h.whole;
  },
  λ j. record { entries = entries-block_one i b s.slots j; next = s.next; log = s.log },
)

-- An emission to passive functors leaves the slots.
Settled-log :
    (s : Impl) (k : ℕ) (log : List Event)
    → s.next ≤ k
    → Settled s
    → Settled (record s { next = k; log = log })
Settled-log s k log le st = record {
  wf = record {
    alive = st.wf.alive;
    distinct = st.wf.distinct;
    below = All-map (λ n h. omega arith) s.slots st.wf.below;
    nodes = st.wf.nodes;
  };
  idle = st.idle;
  clean = st.clean;
  reps = st.reps;
}

serve-emits : (a : ℕ) (s : Impl) → Ready s → Served (Abstract.emits a) s
unfolding serve answer
serve-emits a s h = (
  _,
  emit-passive 0 a s h.settled,
  record {
    settled = Settled-log s _ (calls 1 a s.slots s.log) (ground arith) h.settled;
    whole = h.whole;
  },
  λ j. record {
    entries = entries s.slots;
    next = if has_none-entries s.slots j then s.next else s.next + 1;
    log = entries-emit a s.slots s.log h.whole j;
  },
)

pub serve-answer : (q : Request) (s : Impl) → Ready s → Served q s
serve-answer (Abstract.connects o b) s h = serve-connects o b s h
serve-answer (Abstract.connects_first o b) s h = serve-connects_first o b s h
serve-answer (Abstract.disconnects i) s h = serve-disconnects i s h
serve-answer Abstract.clears s h = serve-clears s h
serve-answer (Abstract.blocks b) s h = serve-blocks b s h
serve-answer (Abstract.blocks_slot i b) s h = serve-blocks_slot i b s h
serve-answer (Abstract.emits a) s h = serve-emits a s h

-- Any requests to a signal at rest, with functors that leave it alone, are served without a fault and
-- as an ordered list of entries answers them: what is seen of the signal afterwards, the calls and
-- the destroyed functors with it, is what the list of entries gives.
pub serve_all-answers :
    (qs : List Request) (s : Impl)
    → Ready s
    → (t : Impl) × (serve_all qs s ≡ ok t) × Ready t × (view t ≡ answers qs (view s))
unfolding serve_all answers
serve_all-answers [] s h = (s, refl, h, refl)
serve_all-answers (q ∷ qs) s h =
    let (t, run, k, e) = serve-answer q s h in
    let (u, rest, l, e') = serve_all-answers qs t k in
    (u, ap (λ m. m >>= serve_all qs) run ∙ rest, l, e' ∙ ap (answers qs) e)
