-- ===== src/Trackable/Callbacks.antt =====
-- trackable_callback_list (sigc++/trackable.{h,cc}), with callbacks that use the list themselves.
use libsigcplusplus.Prelude.{
  ℕ, zero, suc, ◌+◌, Bool, true, false, not, ◌&&◌, Option, none, some, List, [], ◌∷◌, ◌++◌, ◌==◌,
  is_some, get_elem?, length, if◌then◌else◌, Outcome, ok, no_fuel, ◌>>=◌,
}

-- trackable_callback: `func` is none once it has been set to a null pointer.
pub record Callback : Type 0 where
  pub object : ℕ
  pub func : Option ℕ

pub record CallbackList : Type 0 where
  pub callbacks : List Callback
  pub clearing : Bool

abbrev pub new_list : CallbackList
new_list = record { callbacks = []; clearing = false }

-- add_callback: ignored while the list is being cleared.
unfoldable pub add_callback : ℕ → ℕ → CallbackList → CallbackList
add_callback d f l =
    if not l.clearing
    then record l { callbacks = l.callbacks ++ record { object = d; func = some f } ∷ [] }
    else l

-- remove_callback: the first entry for the object that has a function is erased, or loses its
-- function while the list is being cleared.
unfoldable pub is_entry : ℕ → Callback → Bool
is_entry d c = (c.object == d) && is_some c.func

unfoldable pub remove_entry : Bool → ℕ → List Callback → List Callback
remove_entry clearing d [] = []
remove_entry clearing d (c ∷ cs) =
    if is_entry d c
    then (if clearing then record c { func = none } ∷ cs else cs)
    else c ∷ remove_entry clearing d cs

unfoldable pub remove_callback : ℕ → CallbackList → CallbackList
unfolding remove_entry
remove_callback d l = record l { callbacks = remove_entry l.clearing d l.callbacks }

-- What a callback may do to the list that invokes it.
pub data Op : Type 0 where
  adds : ℕ → ℕ → Op
  removes : ℕ → Op

unfoldable pub run_op : Op → CallbackList → CallbackList
unfolding add_callback remove_callback
run_op (adds d f) l = add_callback d f l
run_op (removes d) l = remove_callback d l

unfoldable pub run_ops : List Op → CallbackList → CallbackList
unfolding run_op
run_ops [] l = l
run_ops (o ∷ os) l = run_ops os (run_op o l)

-- The list, and the calls made, newest first.
pub record Clearing : Type 0 where
  pub list : CallbackList
  pub calls : List (ℕ × ℕ)

-- `react f d` is what the function `f` does with the list when it is called for the object `d`.
module _ (react : ℕ → ℕ → List Op) where
  unfoldable pub call_entry : Callback → Clearing → Clearing
  unfolding run_ops
  call_entry c s = elim c.func [
    | none ↦ s
    | some f ↦ record { list = run_ops (react f c.object) s.list; calls = (f, c.object) ∷ s.calls }
  ]

  -- for (auto& callback : callbacks_), by the position of the iterator in the list as it is then.
  unfoldable pub call_all : ℕ → ℕ → Clearing → Outcome Clearing
  unfolding call_entry
  call_all zero i s = no_fuel
  call_all (suc k) i s = elim (get_elem? s.list.callbacks i) [
    | none ↦ ok s
    | some c ↦ call_all k (i + 1) (call_entry c s)
  ]

  -- ~trackable_callback_list
  unfoldable pub destroy_list : CallbackList → Outcome Clearing
  unfolding call_all
  destroy_list l =
      call_all (suc (length l.callbacks)) 0
        (record { list = record l { clearing = true }; calls = [] })

  unfoldable pub clear : CallbackList → Outcome Clearing
  unfolding call_all
  clear l = do
    s ←
        call_all (suc (length l.callbacks)) 0
          (record { list = record l { clearing = true }; calls = [] })
    ok (record s { list = new_list })
