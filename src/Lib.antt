-- ===== src/Lib.antt =====
-- libsigc++ (sigc++/): typesafe callbacks.
--
-- A signal holds a list of slots and calls them when it is emitted; a slot owns a functor; a
-- trackable object tells those who watch it when it is destroyed or overwritten. What makes the
-- library hard is reentrancy: the functors that a signal calls may connect, disconnect, block and
-- clear slots of the same signal and emit it again, and the callbacks of a trackable may change the
-- list that is being walked.
--
-- Where the code is:
--   Signal/Slot, Signal/Nodes   sigc++/functors/slot_base.{h,cc}, sigc++/functors/slot.h: slot_base,
--     slot_rep, typed_slot_rep, and the std::list<slot_base> of a signal with its iterators.
--   Signal/Impl                 sigc++/signal_base.{h,cc}: signal_impl, one function per member:
--     reference_exec, unreference_exec, sweep, notify_invalidated (the source's
--     notify_self_and_iter_of_invalidated_slot), clear, destroy_impl (~signal_impl), size, blocked,
--     block, connect, connect_first, connect_move and connect_first_move (of a slot&&), insert,
--     insert_move, add_notification (add_notification_to_iter).
--   Signal/Emit, Signal/EmitLast   sigc++/signal.h: temp_slot_list (add_placeholder, with_slots) and
--     signal_emit without an accumulator, for void and for another result.
--   Signal/Throw                sigc++/signal.h, sigc++/signal_base.h: signal_emit for void with
--     functors that throw. An exception is a mark that the emission gives back with the signal; the
--     destructors of temp_slot_list and signal_impl_holder run on its way.
--   Signal/Assign               sigc++/functors/slot_base.cc: operator= of slot_base, to a slot of a
--     signal's list, with delete_rep_with_check.
--   Signal/Accumulate           sigc++/signal.h: slot_iterator_buf and signal_emit with an accumulator.
--   Network/Emit                sigc++/signal.h: signal_emit for void among several signals, whose
--     functors use one another's signals and emit them, as a functor made by make_slot does.
--   Trackable/Callbacks, Trackable/Object   sigc++/trackable.{h,cc}: trackable_callback_list and
--     trackable.
--   World/State                 sigc++/functors/slot_base.{h,cc}, sigc++/weak_raw_ptr.h: a signal
--     with the trackables that its functors refer to (slot_do_bind, slot_do_unbind,
--     notify_slot_rep_invalidated as `invalidate`, ~trackable as `destroy_object`).
--   World/Connections, World/Scoped   sigc++/connection.{h,cc}, sigc++/scoped_connection.{h,cc}.
--   Tuple/Utils                 sigc++/tuple-utils/*.h, on tuples as lists of their elements.
--   Adaptor/Functors, Adaptor/Visitors   sigc++/adaptors/{bind,hide,compose,bind_return,
--     retype_return,exception_catch,track_obj,retype}.h, sigc++/functors/mem_fun.h and
--     sigc++/visit_each.h: the adaptors as a tree, operator() of each (`call`) and the visitor of
--     each (`visit_each`). A call that does not compile is `ill_formed`; the functors at the leaves
--     are a parameter.
--   Handle/Store, Handle/Calls  sigc++/signal_base.{h,cc}: signal objects (signal_base) that share
--     implementations by shared_ptr, and sequences of calls of their members.
--
-- The other modules hold proofs, each with the code that its first line names; Signal/Tests,
-- Signal/AccumulateTests, Signal/AssignTests, Signal/ThrowTests, Signal/OverflowTests,
-- Trackable/Tests, World/Tests, Handle/Tests, Network/Tests, Tuple/Tests and Adaptor/Tests hold runs
-- and instances.
--
-- How state is modelled. A signal is a record `Impl` that every operation takes and gives back. A
-- list position is the address of its node, fresh at each insertion, so that a stale iterator is an
-- address that is not in the list; reading through one is the result `fault`. Each slot holds its
-- rep, since a slot is its rep's only owner; a rep's parent is the position that its notification
-- names. A functor is a number, and what it does when it is called is a parameter `body`, a list of
-- acts that may depend on the argument and on the state of the signal. The field `log` records calls
-- and destructions of functors, newest first; it and `next` (the next fresh address) are not in the
-- source. exec_count_ is kept as the 16 bits of a short, with its wrap-around; theorems on emission
-- bound the depth of nested emissions so that it does not overflow.
--
-- Bounds. A loop over the slot list runs on fuel: for an emission the length of the list when it
-- starts, one round for each slot and one to meet the placeholder, and for `clear` one more than the
-- length. `sweep` and `unreference_exec` call each other, and two levels are enough, because a sweep
-- ends with no sweep due. The depth of nested emissions is an argument: running out of it, or of a
-- loop's fuel, is the result `no_fuel`, which is no `fault`. The walk over a callback list has one
-- round more than the list has entries.
--
-- In World, a slot's rep is named by the address of its node, a connection by a number and a
-- trackable by a number; what a functor refers to is a parameter `targets`. When an operation of the
-- signal erases slots, their destructors' effects on trackables and connections follow it in the
-- order of the list, which cannot be told apart, since the signal's operations read neither. A
-- connection's weak_raw_ptr registers with the callback list of the slot's rep (`watchers`), and a rep
-- that is destroyed tells those that are registered there, and nobody else. The connections that a
-- member function has as locals or by value are at the address 0; the one that connect returns is
-- assigned without a temporary.
--
-- An accumulator is user code, a parameter: the tree of what its call operator does with iterators,
-- for each length of the range. slot_iterator_buf for void has the same operators without r_.
--
-- In Handle, a signal object is a number, a destroyed one stays as a null pointer, and a shared_ptr's
-- use count is the number of objects that point there; the shared_ptr in a signal_impl_holder lives
-- only while a member of signal_impl runs. The slots that an emission calls in Handle leave the signal
-- alone. Each implementation has its own `log`, which ends with it.
--
-- What is not modelled: assignment to a slot that no signal holds, or from one of the same list;
-- connections to a slot that no signal holds; trackable_signal, whose end disconnects the slots of
-- other signals that refer to it; functor destructors that use the signal; exceptions in an emission
-- with a result; an emission whose functors destroy trackables, of which World has the single
-- destruction; insert at an iterator through a signal object. Type-level code (type_traits.h, the
-- traits of functors) has no behaviour at run time.
pub mod Prelude
pub mod Signal
pub mod Trackable
pub mod World
pub mod Handle
pub mod Network
pub mod Tuple
pub mod Adaptor
