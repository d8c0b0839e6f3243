-- ===== src/World/Spec.antt =====
-- What a program sees of a signal and its connections: which slots are connected, in their order, and
-- to which of them each connection refers; and what each step does to that.
use libsigcplusplus.Prelude.{
  ℕ, suc, ◌+◌, Bool, false, ◌||◌, Option, none, some, List, [], ◌∷◌, ◌++◌, ◌==◌, if◌then◌else◌,
}
use libsigcplusplus.Signal.Slot.{copy_slot}
use libsigcplusplus.Signal.Nodes.{Node}
use libsigcplusplus.Signal.Emit.{functor_of}
use libsigcplusplus.World.State.{World, set, targets_of}
use libsigcplusplus.World.Registry.{count}
use libsigcplusplus.World.Program.{
  Step, connects, connects_first, disconnects, blocks_connection, blocks, clears, copies, resets,
  destroys_object, scoped_exchanges, scoped_swaps, scoped_assigns, scoped_moves, scoped_destroys,
}

-- An entry is a slot's address and its functor; `next` is the next address.
pub record View : Type 0 where
  pub entries : List (ℕ × Option ℕ)
  pub refs : ℕ → Option ℕ
  pub next : ℕ

abbrev pub shown : List Node → List (ℕ × Option ℕ)
shown [] = []
shown (n ∷ ns) = (n.id, functor_of n.slot.rep) ∷ shown ns

abbrev pub view : World → View
view w = record { entries = shown w.impl.slots; refs = λ c. w.conns (suc c); next = w.impl.next }

abbrev pub among : ℕ → List (ℕ × Option ℕ) → Bool
among i [] = false
among i (e ∷ es) = (e.0 == i) || among i es

abbrev pub drop_entry : ℕ → List (ℕ × Option ℕ) → List (ℕ × Option ℕ)
drop_entry i [] = []
drop_entry i (e ∷ es) = if e.0 == i then es else e ∷ drop_entry i es

-- A reference to an entry that is gone is a reference to none.
abbrev pub still : List (ℕ × Option ℕ) → Option ℕ → Option ℕ
still es none = none
still es (some i) = if among i es then some i else none

abbrev pub leave : List (ℕ × Option ℕ) → View → View
leave es v = record v { entries = es; refs = λ c. still es (v.refs c) }

abbrev pub refer : ℕ → Option ℕ → View → View
refer c r v = record v { refs = set c r v.refs }

abbrev pub drop_referent : Option ℕ → View → View
drop_referent none v = v
drop_referent (some i) v = leave (drop_entry i v.entries) v

abbrev pub cut : ℕ → View → View
cut c v = drop_referent (v.refs c) v

module _ (targets : ℕ → List ℕ) where
  abbrev pub avoid : ℕ → List (ℕ × Option ℕ) → List (ℕ × Option ℕ)
  avoid o [] = []
  avoid o (e ∷ es) = if count o (targets_of targets e.1) == 0 then e ∷ avoid o es else avoid o es

  abbrev pub spec_step : Step → View → View
  spec_step (connects c sl) v = record {
    entries = v.entries ++ (v.next, functor_of (copy_slot sl).rep) ∷ [];
    refs = set c (some v.next) v.refs;
    next = v.next + 1;
  }
  spec_step (connects_first c sl) v = record {
    entries = (v.next, functor_of (copy_slot sl).rep) ∷ v.entries;
    refs = set c (some v.next) v.refs;
    next = v.next + 1;
  }
  spec_step (disconnects c) v = cut c v
  spec_step (blocks_connection c b) v = v
  spec_step (blocks b) v = v
  spec_step clears v = leave [] v
  spec_step (copies c d) v = refer c (v.refs d) v
  spec_step (resets c) v = refer c none v
  spec_step (destroys_object o) v = leave (avoid o v.entries) v
  spec_step (scoped_exchanges s t) v = refer s (v.refs t) (refer t none v)
  spec_step (scoped_swaps s t) v = refer t (v.refs s) (refer s (v.refs t) v)
  spec_step (scoped_assigns s c) v = refer s ((cut s v).refs c) (cut s v)
  spec_step (scoped_moves s t) v = refer s ((cut s v).refs t) (refer t none (cut s v))
  spec_step (scoped_destroys s) v = refer s none (cut s v)

  abbrev pub spec_steps : List Step → View → View
  spec_steps [] v = v
  spec_steps (x ∷ xs) v = spec_steps xs (spec_step x v)
