-- ===== src/Handle/Calls.antt =====
-- What a program does with its signal objects, one member function after the other.
use libsigcplusplus.Prelude.{ℕ, ◌+◌, Bool, true, ◌&&◌, List, [], ◌∷◌, ltb, Outcome, ok, ◌>>=◌}
use libsigcplusplus.Signal.Abstract.{Request}
use libsigcplusplus.Handle.Store.{
  Store, new_signal, copy_signal, move_signal, assign_signal, assign_move_signal, destroy_signal,
  ask,
}

-- The first number of an assignment is the object assigned to.
pub data Call : Type 0 where
  creates : Call
  copies : ℕ → Call
  moves : ℕ → Call
  assigns : ℕ → ℕ → Call
  assigns_move : ℕ → ℕ → Call
  destroys : ℕ → Call
  asks : ℕ → Request → Call

unfoldable pub perform : Call → Store → Outcome Store
unfolding new_signal copy_signal move_signal assign_signal assign_move_signal destroy_signal ask
perform creates st = ok (new_signal st)
perform (copies h) st = copy_signal h st
perform (moves h) st = move_signal h st
perform (assigns d h) st = assign_signal d h st
perform (assigns_move d h) st = assign_move_signal d h st
perform (destroys h) st = destroy_signal h st
perform (asks h q) st = ask h q st

unfoldable pub perform_all : List Call → Store → Outcome Store
unfolding perform
perform_all [] st = ok st
perform_all (c ∷ cs) st = perform c st >>= perform_all cs

-- The calls name objects that are there, when there are `n` of them.
abbrev pub names : Call → ℕ → Bool
names creates n = true
names (copies h) n = ltb h n
names (moves h) n = ltb h n
names (assigns d h) n = ltb d n && ltb h n
names (assigns_move d h) n = ltb d n && ltb h n
names (destroys h) n = ltb h n
names (asks h q) n = ltb h n

abbrev pub objects_after : Call → ℕ → ℕ
objects_after creates n = n + 1
objects_after (copies h) n = n + 1
objects_after (moves h) n = n + 1
objects_after (assigns d h) n = n
objects_after (assigns_move d h) n = n
objects_after (destroys h) n = n
objects_after (asks h q) n = n

abbrev pub names_all : List Call → ℕ → Bool
names_all [] n = true
names_all (c ∷ cs) n = names c n && names_all cs (objects_after c n)
