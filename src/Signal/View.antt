-- ===== src/Signal/View.antt =====
-- What is seen of a signal between emissions, and what a program asks of it.
use libsigcplusplus.Prelude.{
  ℕ, ◌≡◌, refl, sym, ap, ◌∙◌, Bool, true, false, not, ◌||◌, Option, none, some, List, [], ◌∷◌, ◌++◌,
  ◌==◌, if◌then◌else◌, is_some, All, arith, Bool-cases, inl, inr, Outcome, ok, ◌>>=◌, ok-injective,
}
use libsigcplusplus.Signal.Slot.{
  Rep, Slot, Event, slot_of, empty, copy_slot, set_parent, destroy_slot,
}
use libsigcplusplus.Signal.Nodes.{Node, deref, update_slot, destroy_nodes}
use libsigcplusplus.Signal.Impl.{Impl}
use libsigcplusplus.Signal.Emit.{Act, functor_of, has, is_empty, set_blocked, run_act, emit}
use libsigcplusplus.Signal.Erase.{remove_id}
use libsigcplusplus.Signal.Invariant.{map_slots}
use libsigcplusplus.Signal.Guarantee.{Settled}
use libsigcplusplus.Signal.Steps.{SlotMade, connected}
use libsigcplusplus.Signal.Passive.{calls, call_log, called_by, passive}
use libsigcplusplus.Signal.Abstract
use libsigcplusplus.Signal.Abstract.{Entry, Spec, Request, answer, answers}

-- A slot made for a request.
abbrev pub made_slot : Option ℕ → Bool → Slot
made_slot none b = record { rep = none; blocked = b }
made_slot (some f) b = record (slot_of f) { blocked = b }

-- What a program does to the signal, with functors that leave it alone.
abbrev pub request_act : Request → Act
request_act (Abstract.connects o b) = Act.connects (made_slot o b)
request_act (Abstract.connects_first o b) = Act.connects_first (made_slot o b)
request_act (Abstract.disconnects i) = Act.disconnects i
request_act Abstract.clears = Act.clears
request_act (Abstract.blocks b) = Act.blocks b
request_act (Abstract.blocks_slot i b) = Act.blocks_slot i b
request_act (Abstract.emits a) = Act.emits a

unfoldable pub serve : Request → Impl → Outcome Impl
unfolding run_act
serve q = run_act (emit passive 1) (request_act q)

unfoldable pub serve_all : List Request → Impl → Outcome Impl
unfolding serve
serve_all [] s = ok s
serve_all (q ∷ qs) s = serve q s >>= serve_all qs

-- What is seen of a signal.
abbrev pub entry : Node → Entry
entry n = record { id = n.id; functor = functor_of n.slot.rep; blocked = n.slot.blocked }

abbrev pub entries : List Node → List Entry
entries [] = []
entries (n ∷ ns) = entry n ∷ entries ns

abbrev pub view : Impl → Spec
view s = record { entries = entries s.slots; next = s.next; log = s.log }

-- A slot that can be called has a functor, and the other way round.
abbrev pub RepWhole : Option Rep → Type 0
RepWhole none = Unit {0}
RepWhole (some r) = r.call ≡ is_some r.functor

abbrev pub Whole : Node → Type 0
Whole n = RepWhole n.slot.rep

pub record Ready (s : Impl) : Type 0 where
  pub settled : Settled s
  pub whole : All Whole s.slots

pub entries-append : (xs ys : List Node) → entries (xs ++ ys) ≡ entries xs ++ entries ys
entries-append [] ys = refl
entries-append (x ∷ xs) ys = ap (λ u. entry x ∷ u) (entries-append xs ys)

pub connected-entry :
    (i : ℕ) (o : Option ℕ) (b : Bool)
    → (entry (connected i (made_slot o b)) ≡ record { id = i; functor = o; blocked = b })
      × Whole (connected i (made_slot o b))
unfolding set_parent copy_slot
connected-entry i none b = (refl, refl)
connected-entry i (some f) b = (refl, refl)

pub made_slot-SlotMade : (o : Option ℕ) (b : Bool) → SlotMade (made_slot o b)
made_slot-SlotMade none b = tt
made_slot-SlotMade (some f) b = λ e. refl

pub destroyed-entry :
    (sl : Slot) (log : List Event)
    → destroy_slot sl log ≡ Abstract.destroyed_of (functor_of sl.rep) log
unfolding destroy_slot
destroyed-entry sl log = by_rep sl.rep sl.blocked
  where
    by_functor :
        (c : Bool) (f : Option ℕ) (p : Option ℕ) (b : Bool)
        → destroy_slot
            (record { rep = some (record { call = c; functor = f; parent = p }); blocked = b })
            log
          ≡ Abstract.destroyed_of f log
    by_functor c none p b = refl
    by_functor c (some f) p b = refl

    by_rep :
        (r : Option Rep) (b : Bool)
        → destroy_slot (record { rep = r; blocked = b }) log
          ≡ Abstract.destroyed_of (functor_of r) log
    by_rep none b = refl
    by_rep (some r) b = by_functor r.call r.functor r.parent b

pub entries-remove_id :
    (i : ℕ) (ns : List Node) → entries (remove_id i ns) ≡ Abstract.without_id i (entries ns)
entries-remove_id i [] = refl
entries-remove_id i (n ∷ ns) = ground (arith, entries-remove_id i ns)

pub log_without-deref :
    (i : ℕ) (n : Node) (ns : List Node) (log : List Event)
    → deref i ns ≡ ok n
    → destroy_slot n.slot log ≡ Abstract.log_without i (entries ns) log
unfolding deref
log_without-deref i n [] log e = absurd (cc)
log_without-deref i n (x ∷ ns) log e = elim (Bool-cases (x.id == i)) [
  | inl hit ↦ rw hit (
      ap (λ m. destroy_slot m.slot log) (sym (ok-injective (rw hit at e)))
      ∙ destroyed-entry x.slot log)
  | inr miss ↦ rw miss (log_without-deref i n ns log (rw miss at e))
]

pub without_id-absent :
    (i : ℕ) (ns : List Node) (log : List Event)
    → has i ns ≡ false
    → (Abstract.without_id i (entries ns) ≡ entries ns)
      × (Abstract.log_without i (entries ns) log ≡ log)
unfolding deref
without_id-absent i [] log h = (refl, refl)
without_id-absent i (x ∷ ns) log h = elim (Bool-cases (x.id == i)) [
  | inl hit ↦ (let clash : true ≡ false = rw hit at h in absurd (cc))
  | inr miss ↦
      let (p, q) = without_id-absent i ns log (rw miss at h) in
      (rw miss (ap (λ u. entry x ∷ u) p), rw miss q)
]

pub entries-clear :
    (ns : List Node) (log : List Event) → destroy_nodes ns log ≡ Abstract.log_clear (entries ns) log
unfolding destroy_nodes
entries-clear [] log = refl
entries-clear (n ∷ ns) log =
    ap (destroy_nodes ns) (destroyed-entry n.slot log)
    ∙ entries-clear ns (Abstract.destroyed_of (functor_of n.slot.rep) log)

pub entries-block :
    (b : Bool) (ns : List Node)
    → entries (map_slots (set_blocked b) ns) ≡ Abstract.block_all b (entries ns)
entries-block b [] = refl
entries-block b (n ∷ ns) = ap (λ u. record (entry n) { blocked = b } ∷ u) (entries-block b ns)

pub entries-block_one :
    (i : ℕ) (b : Bool) (ns : List Node)
    → entries (update_slot i (set_blocked b) ns) ≡ Abstract.block_one i b (entries ns)
unfolding update_slot
entries-block_one i b [] = refl
entries-block_one i b (n ∷ ns) = ground (arith, entries-block_one i b ns)

pub called-entry :
    (a : ℕ) (n : Node) (log : List Event)
    → Whole n
    → call_log 1 a n log
      ≡ (if n.slot.blocked then log else Abstract.called_of a n.id (functor_of n.slot.rep) log)
unfolding empty
called-entry a n log w = by_rep n.slot.rep n.slot.blocked w
  where
    by_functor :
        (c : Bool) (f p : Option ℕ) (b : Bool)
        → c ≡ is_some f
        → (if not c || b then log else called_by 1 a n.id f log)
          ≡ (if b then log else Abstract.called_of a n.id f log)
    by_functor true none p b h = absurd (cc)
    by_functor false none p true h = refl
    by_functor false none p false h = refl
    by_functor true (some f) p true h = refl
    by_functor true (some f) p false h = refl
    by_functor false (some f) p b h = absurd (cc)

    by_rep :
        (r : Option Rep) (b : Bool)
        → RepWhole r
        → call_log 1 a (record { id = n.id; slot = record { rep = r; blocked = b } }) log
          ≡ (if b then log else Abstract.called_of a n.id (functor_of r) log)
    by_rep none true h = refl
    by_rep none false h = refl
    by_rep (some r) b h = by_functor r.call r.functor r.parent b h

pub entries-emit :
    (a : ℕ) (ns : List Node) (log : List Event)
    → All Whole ns
    → calls 1 a ns log ≡ Abstract.log_emit a (entries ns) log
entries-emit a [] log h = refl
entries-emit a (n ∷ ns) log h =
    ap (calls 1 a ns) (called-entry a n log h.0) ∙ entries-emit a ns _ h.1

pub has_none-entries : (ns : List Node) → is_empty ns ≡ Abstract.has_none (entries ns)
has_none-entries [] = refl
has_none-entries (n ∷ ns) = refl
