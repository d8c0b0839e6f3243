-- ===== src/Trackable/Removal.antt =====
-- What add_callback and remove_callback do to the entries of a list.
use libsigcplusplus.Prelude.{
  ℕ, suc, ◌+◌, ◌-◌, ◌≡◌, Bool, true, false, not, ◌&&◌, some, none, List, [], ◌∷◌, ◌++◌, ◌==◌, arith,
  if◌then◌else◌, Bool-cases, inl, inr,
}
use libsigcplusplus.Trackable.Callbacks.{
  Callback, CallbackList, is_entry, remove_entry, remove_callback, add_callback,
}

-- How many entries of an object still have a function.
unfoldable pub live : ℕ → List Callback → ℕ
live e [] = 0
live e (c ∷ cs) = if is_entry e c then suc (live e cs) else live e cs

entry_same : (d e : ℕ) (c : Callback) → is_entry d c ≡ true → is_entry e c ≡ (d == e)
unfolding is_entry
entry_same d e c h = ground arith

entry_nulled : (e : ℕ) (c : Callback) → is_entry e (record c { func = none }) ≡ false
unfolding is_entry
entry_nulled e c = ground arith

entry_other :
    (d e : ℕ) (c : Callback) → is_entry d c ≡ false → is_entry e c ≡ true → (d == e) ≡ false
unfolding is_entry
entry_other d e c h k = ground arith

live-hit :
    (b : Bool) (d e : ℕ) (c : Callback) (cs : List Callback)
    → is_entry d c ≡ true
    → live e (if b then record c { func = none } ∷ cs else cs)
      ≡ (if d == e then live e (c ∷ cs) - 1 else live e (c ∷ cs))
unfolding live
live-hit true d e c cs h = ground (arith, entry_same d e c h, entry_nulled e c)
live-hit false d e c cs h = ground (arith, entry_same d e c h)

live-remove_entry :
    (b : Bool) (d e : ℕ) (cs : List Callback)
    → live e (remove_entry b d cs) ≡ (if d == e then live e cs - 1 else live e cs)
unfolding live remove_entry
live-remove_entry b d e [] = ground arith
live-remove_entry b d e (c ∷ cs) = elim (Bool-cases (is_entry d c)) [
  | inl hit ↦ rw hit (live-hit b d e c cs hit)
  | inr miss ↦ rw miss (ground (arith, live-remove_entry b d e cs, entry_other d e c miss))
]

live-append :
    (d e f : ℕ) (cs : List Callback)
    → live e (cs ++ record { object = d; func = some f } ∷ [])
      ≡ live e cs + (if d == e then 1 else 0)
unfolding live is_entry
live-append d e f [] = ground arith
live-append d e f (c ∷ cs) = ground (arith, live-append d e f cs)

-- `remove_callback` takes one live entry of its object away, if there is one, and no entry of
-- another object, also while the list is being cleared; `add_callback` makes one more live entry of
-- its object and none of another, unless the list is being cleared: then it changes nothing.
pub live-remove-add :
    (d e f : ℕ) (l : CallbackList)
    → (live e (remove_callback d l).callbacks
        ≡ (if d == e then live e l.callbacks - 1 else live e l.callbacks))
      × (live e (add_callback d f l).callbacks
          ≡ live e l.callbacks + (if not l.clearing && (d == e) then 1 else 0))
unfolding remove_callback add_callback
live-remove-add d e f l = (live-remove_entry l.clearing d e l.callbacks, go l.clearing)
  where
    go :
        (b : Bool)
        → live e (add_callback d f (record { callbacks = l.callbacks; clearing = b })).callbacks
          ≡ live e l.callbacks + (if not b && (d == e) then 1 else 0)
    go true = omega arith
    go false = live-append d e f l.callbacks

remove_entry-last :
    (d f : ℕ) (cs : List Callback)
    → live d cs ≡ 0
    → remove_entry false d (cs ++ record { object = d; func = some f } ∷ []) ≡ cs
unfolding live remove_entry is_entry
remove_entry-last d f [] h = ground arith
remove_entry-last d f (c ∷ cs) h = ground (arith, remove_entry-last d f cs)

-- For an object with no live entry, `remove_callback` undoes `add_callback`, in any list that is not
-- being cleared.
pub remove-add :
    (d f : ℕ) (l : CallbackList)
    → l.clearing ≡ false
    → live d l.callbacks ≡ 0
    → remove_callback d (add_callback d f l) ≡ l
unfolding remove_callback add_callback
remove-add d f l off h = go l.clearing off
  where
    go :
        (b : Bool)
        → b ≡ false
        → remove_callback d (add_callback d f (record { callbacks = l.callbacks; clearing = b }))
          ≡ record { callbacks = l.callbacks; clearing = b }
    go true e = absurd (cc)
    go false e = λ i. record { callbacks = remove_entry-last d f l.callbacks h i; clearing = false }
