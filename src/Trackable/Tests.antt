-- ===== src/Trackable/Tests.antt =====
-- A list of callbacks that change it, and the theorems on callbacks at it.
use libsigcplusplus.Prelude.{
  ℕ, ◌+◌, ◌-◌, ◌≡◌, refl, true, false, not, ◌&&◌, some, List, [], ◌∷◌, ◌++◌, ok, ◌==◌,
  if◌then◌else◌,
}
use libsigcplusplus.Trackable.Callbacks.{
  CallbackList, new_list, add_callback, remove_callback, Op, adds, removes, Clearing, clear,
  is_entry,
}
use libsigcplusplus.Trackable.Clearing.{Calls, Removed, reverse_calls, clear-Calls}
use libsigcplusplus.Trackable.Object.{
  Trackable, new_trackable, entries, copy_assign, move_assign, assign-Calls,
}
use libsigcplusplus.Trackable.Removal.{live, live-remove-add}

-- Function 9, when it is called for the object 1, removes the entry of the object 2 and adds one.
abbrev react : ℕ → ℕ → List Op
react f d = if (f == 9) && (d == 1) then removes 2 ∷ adds 5 5 ∷ [] else []

abbrev watched : CallbackList
watched = record {
  callbacks =
      record { object = 1; func = some 9 }
      ∷ record { object = 2; func = some 9 }
      ∷ record { object = 3; func = some 8 }
      ∷ [];
  clearing = false;
}

clear_example : clear react watched ≡ ok (record { list = new_list; calls = (8, 3) ∷ (9, 1) ∷ [] })
unfolding clear is_entry
clear_example = refl

abbrev object : Trackable
object = record { callback_list = some watched }

clear-Calls_example :
    (t : Clearing) × (clear react watched ≡ ok t)
    × (t.list ≡ new_list)
    × ((ps : List (ℕ × ℕ)) × Calls (Removed react) ps watched.callbacks
        × (t.calls ≡ reverse_calls ps []))
clear-Calls_example = clear-Calls react watched

assign-Calls_example :
    (copy_assign react true object ≡ ok (object, []))
    × (move_assign react true object object ≡ ok (object, object, []))
    × ((ps : List (ℕ × ℕ)) × (qs : List (ℕ × ℕ)) × Calls (Removed react) ps (entries react object)
        × Calls (Removed react) qs (entries react object)
        × (copy_assign react false object ≡ ok (new_trackable, reverse_calls ps []))
        × (move_assign react false object object
            ≡ ok (new_trackable, new_trackable, reverse_calls qs [] ++ reverse_calls ps [])))
assign-Calls_example = assign-Calls react object object

live-remove-add_example :
    (live 2 (remove_callback 2 watched).callbacks
      ≡ (if 2 == 2 then live 2 watched.callbacks - 1 else live 2 watched.callbacks))
    × (live 2 (add_callback 2 7 watched).callbacks
        ≡ live 2 watched.callbacks + (if not false && (2 == 2) then 1 else 0))
live-remove-add_example = live-remove-add 2 2 7 watched
