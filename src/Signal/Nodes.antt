-- ===== src/Signal/Nodes.antt =====
-- The std::list<slot_base> of a signal_impl (sigc++/signal_base.{h,cc}) and its iterators.
use libsigcplusplus.Prelude.{
  ℕ, Bool, true, false, not, Option, none, some, List, [], ◌∷◌, ◌++◌, ◌==◌, if◌then◌else◌, Outcome,
  ok, fault, ◌>>=◌,
}
use libsigcplusplus.Signal.Slot.{Rep, Slot, empty, Event, destroy_slot}

-- A node of the std::list<slot_base>: `id` is its address, which is what an iterator holds.
pub record Node : Type 0 where
  pub id : ℕ
  pub slot : Slot

-- Iterators: `none` is end().
abbrev pub begin : List Node → Option ℕ
begin [] = none
begin (n ∷ ns) = some n.id

-- *i
unfoldable pub deref : ℕ → List Node → Outcome Node
deref i [] = fault
deref i (n ∷ ns) = if n.id == i then ok n else deref i ns

-- ++i
unfoldable pub next_iter : ℕ → List Node → Outcome (Option ℕ)
next_iter i [] = fault
next_iter i (n ∷ ns) = if n.id == i then ok (begin ns) else next_iter i ns

-- std::list::erase
unfoldable pub erase : ℕ → List Node → Outcome (List Node)
erase i [] = fault
erase i (n ∷ ns) = if n.id == i then ok ns else (erase i ns >>= λ rest. ok (n ∷ rest))

-- std::list::insert before the iterator
unfoldable pub insert_before : Option ℕ → Node → List Node → Outcome (List Node)
insert_before none m ns = ok (ns ++ m ∷ [])
insert_before (some i) m [] = fault
insert_before (some i) m (n ∷ ns) =
    if n.id == i then ok (m ∷ n ∷ ns) else (insert_before (some i) m ns >>= λ rest. ok (n ∷ rest))

abbrev pub at_end : Option ℕ → Option ℕ → Bool
at_end none none = true
at_end (some i) (some j) = i == j
at_end _ _ = false

-- A change to the slot at an iterator.
unfoldable pub update_slot : ℕ → (Slot → Slot) → List Node → List Node
update_slot i f [] = []
update_slot i f (n ∷ ns) =
    if n.id == i then record n { slot = f n.slot } ∷ ns else n ∷ update_slot i f ns

-- The loop of signal_impl::sweep: the slots that stay, and the log after the rest is destroyed.
unfoldable pub keep_nonempty : List Node → List Node
keep_nonempty [] = []
keep_nonempty (n ∷ ns) = if empty n.slot then keep_nonempty ns else n ∷ keep_nonempty ns

unfoldable pub destroy_empty : List Node → List Event → List Event
destroy_empty [] log = log
destroy_empty (n ∷ ns) log =
    destroy_empty ns (if empty n.slot then destroy_slot n.slot log else log)

-- slots_.clear(): the log after every slot is destroyed.
unfoldable pub destroy_nodes : List Node → List Event → List Event
destroy_nodes [] log = log
destroy_nodes (n ∷ ns) log = destroy_nodes ns (destroy_slot n.slot log)

-- The loops of signal_impl::blocked and signal_impl::block.
unfoldable pub all_blocked : List Node → Bool
all_blocked [] = true
all_blocked (n ∷ ns) = if not n.slot.blocked then false else all_blocked ns

unfoldable pub block_nodes : Bool → List Node → List Node
block_nodes b [] = []
block_nodes b (n ∷ ns) = record n { slot = record (n.slot) { blocked = b } } ∷ block_nodes b ns

-- slot_rep::disconnect, before it calls the parent's cleanup.
abbrev pub rep_disconnected : Slot → Slot
rep_disconnected s = record s {
  rep = elim s.rep [ none ↦ none | some r ↦ some (record r { call = false; parent = none }) ];
}

abbrev pub rep_parent : Option Rep → Option ℕ
rep_parent none = none
rep_parent (some r) = r.parent
