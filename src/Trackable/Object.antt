-- ===== src/Trackable/Object.antt =====
-- trackable (sigc++/trackable.{h,cc}), whose callback list is made on demand.
use libsigcplusplus.Prelude.{
  ℕ, ◌≡◌, refl, Bool, true, false, Option, none, some, List, [], ◌++◌, if◌then◌else◌, Outcome, ok,
  ◌>>=◌,
}
use libsigcplusplus.Trackable.Callbacks.{
  Callback, CallbackList, new_list, add_callback, remove_callback, Op, destroy_list,
}
use libsigcplusplus.Trackable.Clearing.{Calls, nil, Removed, reverse_calls, destroy_list-Calls}

-- `callback_list` is none for a null pointer.
pub record Trackable : Type 0 where
  pub callback_list : Option CallbackList

-- trackable(), and trackable(const trackable&), which copies no callbacks.
abbrev pub new_trackable : Trackable
new_trackable = record { callback_list = none }

-- trackable::callback_list
abbrev pub list_of : Option CallbackList → CallbackList
list_of none = new_list
list_of (some l) = l

unfoldable pub add_destroy_notify_callback : ℕ → ℕ → Trackable → Trackable
add_destroy_notify_callback d f t = record {
  callback_list = some (add_callback d f (list_of t.callback_list));
}

unfoldable pub remove_destroy_notify_callback : ℕ → Trackable → Trackable
remove_destroy_notify_callback d t = record {
  callback_list = some (remove_callback d (list_of t.callback_list));
}

module _ (react : ℕ → ℕ → List Op) where
  -- trackable::notify_callbacks, also the destructor: the object, and the calls, newest first.
  notify_list : Option CallbackList → Outcome (List (ℕ × ℕ))
  notify_list none = ok []
  notify_list (some l) = destroy_list react l >>= λ s. ok s.calls

  unfoldable pub notify_callbacks : Trackable → Outcome (Trackable × List (ℕ × ℕ))
  unfolding notify_list
  notify_callbacks t = notify_list t.callback_list >>= λ calls. ok (new_trackable, calls)

  -- trackable(trackable&&): the new object, and the source.
  unfoldable pub move_new : Trackable → Outcome (Trackable × Trackable × List (ℕ × ℕ))
  unfolding notify_callbacks
  move_new src = do (src', calls) ← notify_callbacks src; ok (new_trackable, src', calls)

  -- operator=(const trackable&); `self` is `this == &src`.
  unfoldable pub copy_assign : Bool → Trackable → Outcome (Trackable × List (ℕ × ℕ))
  unfolding notify_callbacks
  copy_assign self t = if self then ok (t, []) else notify_callbacks t

  -- operator=(trackable&&): this object and the source, with the calls of the second notification
  -- in front.
  unfoldable pub move_assign :
      Bool → Trackable → Trackable → Outcome (Trackable × Trackable × List (ℕ × ℕ))
  unfolding notify_callbacks
  move_assign self t src =
      let both : Outcome (Trackable × Trackable × List (ℕ × ℕ)) = do
        (t', calls) ← notify_callbacks t
        (src', more) ← notify_callbacks src
        ok (t', src', more ++ calls)
      in if self then ok (t, src, []) else both

  abbrev pub entries : Trackable → List Callback
  entries t = (list_of t.callback_list).callbacks

  -- A notification comes to an end, calls the entries as `Calls` says, and leaves no list.
  pub notify-Calls :
      (t : Trackable)
      → (ps : List (ℕ × ℕ)) × Calls (Removed react) ps (entries t)
        × (notify_callbacks t ≡ ok (new_trackable, reverse_calls ps []))
  unfolding notify_callbacks
  notify-Calls t = go t.callback_list
    where
      go :
          (o : Option CallbackList)
          → (ps : List (ℕ × ℕ)) × Calls (Removed react) ps (list_of o).callbacks
            × (notify_callbacks (record { callback_list = o })
                ≡ ok (new_trackable, reverse_calls ps []))
      go none = ([], nil, refl)
      go (some l) =
          let (s, run, more) = destroy_list-Calls react l in (more.0, more.1, rw (run, more.2))

  -- Assignment notifies the watchers of the object, and if it moves also those of the source, before
  -- it returns; a self-assignment notifies nobody and changes nothing.
  pub assign-Calls :
      (t src : Trackable)
      → (copy_assign true t ≡ ok (t, []))
        × (move_assign true t src ≡ ok (t, src, []))
        × ((ps : List (ℕ × ℕ)) × (qs : List (ℕ × ℕ)) × Calls (Removed react) ps (entries t)
            × Calls (Removed react) qs (entries src)
            × (copy_assign false t ≡ ok (new_trackable, reverse_calls ps []))
            × (move_assign false t src
                ≡ ok (new_trackable, new_trackable, reverse_calls qs [] ++ reverse_calls ps [])))
  unfolding copy_assign move_assign
  assign-Calls t src =
      let (ps, c, e) = notify-Calls t in
      let (qs, d, h) = notify-Calls src in (refl, refl, (ps, qs, c, d, rw e, rw (e, h)))
