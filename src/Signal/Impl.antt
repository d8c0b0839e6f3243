-- ===== src/Signal/Impl.antt =====
-- signal_impl (sigc++/signal_base.{h,cc}): the execution count and the deferred sweep.
use libsigcplusplus.Prelude.{
  ℕ, zero, suc, ◌+◌, ◌%◌, Bool, true, false, not, ◌&&◌, Option, none, List, [], length, ltb, ◌==◌,
  if◌then◌else◌, Outcome, ok, fault, no_fuel, ◌>>=◌, some,
}
use libsigcplusplus.Signal.Slot.{Slot, copy_slot, move_slot, set_parent, Event, destroy_slot}
use libsigcplusplus.Signal.Nodes.{
  Node, begin, at_end, deref, next_iter, erase, insert_before, update_slot, keep_nonempty,
  destroy_empty, destroy_nodes, all_blocked, block_nodes, rep_disconnected, rep_parent,
}

-- `exec` is the 16 bits of the `short` exec_count_, `alive` is false once no shared_ptr is left,
-- `next` is the next fresh address, and `log` records the run, newest first.
pub record Impl : Type 0 where
  pub slots : List Node
  pub exec : ℕ
  pub deferred : Bool
  pub alive : Bool
  pub next : ℕ
  pub log : List Event

-- signal_impl()
abbrev pub new_impl : Impl
new_impl = record { slots = []; exec = 0; deferred = false; alive = true; next = 0; log = [] }

-- ++ and -- on a short, and its test > 0.
abbrev pub inc_short : ℕ → ℕ
inc_short c = (c + 1) % 65536

abbrev pub dec_short : ℕ → ℕ
dec_short c = (c + 65535) % 65536

abbrev pub positive_short : ℕ → Bool
positive_short c = ltb 0 c && ltb c 32768

-- slots_.erase(i), with the destruction of the slot.
unfoldable pub erase_node : ℕ → Impl → Outcome Impl
erase_node i s = do
  n ← deref i s.slots
  rest ← erase i s.slots
  ok (record s { slots = rest; log = destroy_slot n.slot s.log })

-- signal_impl::reference_exec
unfoldable pub reference_exec : Impl → Impl
reference_exec s = record s { exec = inc_short s.exec }

-- The loop of signal_impl::sweep.
unfoldable pub sweep_loop : Impl → Impl
sweep_loop s = record s {
  slots = keep_nonempty s.slots;
  deferred = false;
  log = destroy_empty s.slots s.log;
}

-- signal_impl::unreference_exec, whose call of sweep comes back to it on fuel.
unfoldable pub unreference_exec : ℕ → Impl → Outcome Impl
unfolding reference_exec sweep_loop
unreference_exec zero s = no_fuel
unreference_exec (suc k) s =
    let s' = record s { exec = dec_short s.exec } in
    let swept = unreference_exec k (sweep_loop (reference_exec s')) in
    if s'.exec == 0 && s'.deferred then swept else ok s'

-- Enough fuel for one signal, by `unreference_exec-settle`.
abbrev pub sweep_fuel : ℕ
sweep_fuel = 2

-- signal_impl::sweep
unfoldable pub sweep : Impl → Outcome Impl
sweep s = unreference_exec sweep_fuel (sweep_loop (reference_exec s))

-- signal_impl::notify_self_and_iter_of_invalidated_slot
unfoldable pub notify_invalidated : ℕ → Impl → Outcome Impl
notify_invalidated i s =
    if not s.alive
    then ok s
    else if s.exec == 0
    then (erase_node i (reference_exec s) >>= unreference_exec sweep_fuel)
    else ok (record s { deferred = true })

-- slot_rep::disconnect through slot_base::disconnect, on the slot at an iterator.
unfoldable pub disconnect : ℕ → Impl → Outcome Impl
disconnect i s = do
  n ← deref i s.slots
  let s' = record s { slots = update_slot i rep_disconnected s.slots }
  elim (rep_parent n.slot.rep) [ none ↦ ok s' | some p ↦ notify_invalidated p s' ]

-- for (it = ...; it != end; ++it) visit(*it), which reads the list anew in each round.
unfoldable pub for_each :
    ℕ → Option ℕ → (Node → Impl → Outcome Impl) → Option ℕ → Impl → Outcome Impl
for_each zero end visit it s = no_fuel
for_each (suc k) end visit it s =
    let round : Outcome Impl = elim it [
      | none ↦ fault
      | some i ↦ do
        n ← deref i s.slots
        s' ← visit n s
        it' ← next_iter i s'.slots
        for_each k end visit it' s'
    ] in
    if at_end it end then ok s else round

-- signal_impl::clear
unfoldable pub clear_list : Impl → Impl
clear_list s = record s { slots = []; log = destroy_nodes s.slots s.log }

unfoldable pub clear : Impl → Outcome Impl
clear s = do
  let during_emission = positive_short s.exec
  let s1 = reference_exec s
  s2 ← for_each (suc (length s1.slots)) none (λ n. disconnect n.id) (begin s1.slots) s1
  let s3 = if during_emission then s2 else clear_list (record s2 { deferred = s.deferred })
  unreference_exec sweep_fuel s3

-- ~signal_impl: clear() with no shared_ptr left.
unfoldable pub destroy_impl : Impl → Outcome Impl
destroy_impl s = clear (record s { alive = false })

-- signal_impl::size, blocked, block
unfoldable pub size : Impl → ℕ
size s = length s.slots

unfoldable pub blocked : Impl → Bool
unfolding all_blocked
blocked s = all_blocked s.slots

unfoldable pub block : Bool → Impl → Impl
unfolding block_nodes
block b s = record s { slots = block_nodes b s.slots }

-- signal_impl::add_notification_to_iter: shared_from_this() needs an owner.
unfoldable pub add_notification : ℕ → Impl → Outcome Impl
add_notification i s =
    if s.alive then ok (record s { slots = update_slot i (set_parent i) s.slots }) else fault

-- signal_impl::insert(i, slot): the copy, and the parent. The new iterator is `s.next`.
unfoldable pub insert_slot : Option ℕ → Slot → Impl → Outcome Impl
insert_slot i sl s = do
  slots ← insert_before i (record { id = s.next; slot = sl }) s.slots
  add_notification s.next (record s { slots = slots; next = s.next + 1 })

unfoldable pub insert : Option ℕ → Slot → Impl → Outcome Impl
unfolding insert_slot
insert i sl s = insert_slot i (copy_slot sl) s

-- insert(i, slot&&): also what is left of the source.
unfoldable pub insert_move : Option ℕ → Slot → Impl → Outcome (Impl × Slot)
unfolding insert_slot
insert_move i sl s = insert_slot i (move_slot sl).0 s >>= λ t. ok (t, (move_slot sl).1)

-- signal_impl::connect and connect_first
unfoldable pub connect : Slot → Impl → Outcome Impl
connect = insert none

unfoldable pub connect_first : Slot → Impl → Outcome Impl
connect_first sl s = insert (begin s.slots) sl s

-- connect(slot&&) and connect_first(slot&&): also what is left of the source.
unfoldable pub connect_move : Slot → Impl → Outcome (Impl × Slot)
connect_move = insert_move none

unfoldable pub connect_first_move : Slot → Impl → Outcome (Impl × Slot)
connect_first_move sl s = insert_move (begin s.slots) sl s
