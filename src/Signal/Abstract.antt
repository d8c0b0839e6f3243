-- ===== src/Signal/Abstract.antt =====
-- What a signal promises between emissions, without lists of slots: an ordered list of entries.
use libsigcplusplus.Prelude.{
  ℕ, ◌+◌, Bool, true, false, Option, none, some, List, [], ◌∷◌, ◌++◌, ◌==◌, if◌then◌else◌,
}
use libsigcplusplus.Signal.Slot.{Event, called, destroyed}

-- `functor` is none for an empty slot.
pub record Entry : Type 0 where
  pub id : ℕ
  pub functor : Option ℕ
  pub blocked : Bool

pub record Spec : Type 0 where
  pub entries : List Entry
  pub next : ℕ
  pub log : List Event

pub data Request : Type 0 where
  connects : Option ℕ → Bool → Request
  connects_first : Option ℕ → Bool → Request
  disconnects : ℕ → Request
  clears : Request
  blocks : Bool → Request
  blocks_slot : ℕ → Bool → Request
  emits : ℕ → Request

abbrev pub destroyed_of : Option ℕ → List Event → List Event
destroyed_of none log = log
destroyed_of (some f) log = destroyed f ∷ log

abbrev pub without_id : ℕ → List Entry → List Entry
without_id i [] = []
without_id i (e ∷ es) = if e.id == i then es else e ∷ without_id i es

abbrev pub log_without : ℕ → List Entry → List Event → List Event
log_without i [] log = log
log_without i (e ∷ es) log = if e.id == i then destroyed_of e.functor log else log_without i es log

abbrev pub log_clear : List Entry → List Event → List Event
log_clear [] log = log
log_clear (e ∷ es) log = log_clear es (destroyed_of e.functor log)

abbrev pub block_all : Bool → List Entry → List Entry
block_all b [] = []
block_all b (e ∷ es) = record e { blocked = b } ∷ block_all b es

abbrev pub block_one : ℕ → Bool → List Entry → List Entry
block_one i b [] = []
block_one i b (e ∷ es) = if e.id == i then record e { blocked = b } ∷ es else e ∷ block_one i b es

-- Every entry with a functor that is not blocked, in order.
abbrev pub called_of : ℕ → ℕ → Option ℕ → List Event → List Event
called_of a i none log = log
called_of a i (some f) log = called 1 i f a ∷ log

abbrev pub log_emit : ℕ → List Entry → List Event → List Event
log_emit a [] log = log
log_emit a (e ∷ es) log = log_emit a es (if e.blocked then log else called_of a e.id e.functor log)

abbrev pub has_none : List Entry → Bool
has_none [] = true
has_none (e ∷ es) = false

unfoldable pub answer : Request → Spec → Spec
answer (connects o b) p = record p {
  entries = p.entries ++ record { id = p.next; functor = o; blocked = b } ∷ [];
  next = p.next + 1;
}
answer (connects_first o b) p = record p {
  entries = record { id = p.next; functor = o; blocked = b } ∷ p.entries;
  next = p.next + 1;
}
answer (disconnects i) p = record p {
  entries = without_id i p.entries;
  log = log_without i p.entries p.log;
}
answer clears p = record p { entries = []; log = log_clear p.entries p.log }
answer (blocks b) p = record p { entries = block_all b p.entries }
answer (blocks_slot i b) p = record p { entries = block_one i b p.entries }
answer (emits a) p = record p {
  next = if has_none p.entries then p.next else p.next + 1;
  log = log_emit a p.entries p.log;
}

unfoldable pub answers : List Request → Spec → Spec
unfolding answer
answers [] p = p
answers (q ∷ qs) p = answers qs (answer q p)
