-- ===== src/Handle/Store.antt =====
-- signal_base (sigc++/signal_base.{h,cc}): a signal object holds a shared_ptr to a signal_impl, which
-- it makes when it first needs one.
use libsigcplusplus.Prelude.{
  set_at, ℕ, ◌+◌, Bool, true, false, Option, none, some, List, [], ◌∷◌, ◌++◌, ◌==◌, if◌then◌else◌,
  get_elem?, Outcome, ok, fault, ◌>>=◌,
}
use libsigcplusplus.Signal.Impl.{Impl, new_impl, size, blocked, destroy_impl}
use libsigcplusplus.Signal.Abstract
use libsigcplusplus.Signal.Abstract.{Request}
use libsigcplusplus.Signal.View.{serve}
use libsigcplusplus.World.State.{set}

-- `handles` gives the pointer of each signal object, none for a null pointer, and `impls` what is
-- allocated. A shared_ptr's use count is the number of the handles that point there.
pub record Store : Type 0 where
  pub handles : List (Option ℕ)
  pub impls : ℕ → Option Impl
  pub next : ℕ

abbrev pub same_ptr : Option ℕ → Option ℕ → Bool
same_ptr none none = true
same_ptr (some j) (some k) = j == k
same_ptr p q = false

abbrev pub use_count : ℕ → List (Option ℕ) → ℕ
use_count k [] = 0
use_count k (p ∷ ps) = (if same_ptr p (some k) then 1 else 0) + use_count k ps

-- impl_ of a signal object; there is no such object out of range.
unfoldable pub pointer : ℕ → Store → Outcome (Option ℕ)
pointer h st = elim (get_elem? st.handles h) [ none ↦ fault | some p ↦ ok p ]

-- std::shared_ptr<signal_impl> lets go of an implementation: as that class documents, the last one that
-- points there destroys it. The shared_ptr of a signal_impl_holder is one more only while a member of
-- signal_impl runs, and no signal object changes then.
unfoldable pub let_go : Option ℕ → Store → Outcome Store
let_go none st = ok st
let_go (some k) st =
    let destroyed : Outcome Store = elim (st.impls k) [
      | none ↦ fault
      | some s ↦ destroy_impl s >>= λ t. ok (record st { impls = set k none st.impls })
    ] in
    if use_count k st.handles == 0 then destroyed else ok st

-- A signal object made to point elsewhere.
unfoldable pub point_to : ℕ → Option ℕ → Store → Outcome Store
unfolding let_go
point_to h p st = do old ← pointer h st; let_go old (record st { handles = set_at h p st.handles })

-- signal_base::impl: the implementation, made when there is none.
unfoldable pub impl : ℕ → Store → Outcome (ℕ × Store)
impl h st = do
  p ← pointer h st
  elim p [
    | some k ↦ ok (k, st)
    | none ↦ ok (
      st.next,
      record {
        handles = set_at h (some st.next) st.handles;
        impls = set st.next (some new_impl) st.impls;
        next = st.next + 1;
      },
    )
  ]

-- signal_base(): the new object is the last one.
unfoldable pub new_signal : Store → Store
new_signal st = record st { handles = st.handles ++ none ∷ [] }

-- signal_base(const signal_base&)
unfoldable pub copy_signal : ℕ → Store → Outcome Store
unfolding impl
copy_signal src st =
    impl src st >>= λ r. ok (record (r.1) { handles = r.1.handles ++ some r.0 ∷ [] })

-- signal_base(signal_base&&)
unfoldable pub move_signal : ℕ → Store → Outcome Store
unfolding point_to
move_signal src st = do
  p ← pointer src st
  point_to src none (record st { handles = st.handles ++ p ∷ [] })

-- operator=(const signal_base&)
unfoldable pub assign_signal : ℕ → ℕ → Store → Outcome Store
unfolding impl point_to
assign_signal dst src st = do
  p ← pointer src st
  q ← pointer dst st
  if same_ptr p q then ok st else (impl src st >>= λ r. point_to dst (some r.0) r.1)

-- operator=(signal_base&&)
unfoldable pub assign_move_signal : ℕ → ℕ → Store → Outcome Store
unfolding point_to
assign_move_signal dst src st = do
  p ← pointer src st
  q ← pointer dst st
  if same_ptr p q then ok st else (point_to dst p st >>= point_to src none)

-- ~signal_base: a destroyed object stays in its place as a null pointer.
unfoldable pub destroy_signal : ℕ → Store → Outcome Store
unfolding point_to
destroy_signal h = point_to h none

-- signal_base::size and blocked.
unfoldable pub signal_size : ℕ → Store → Outcome ℕ
unfolding size
signal_size h st = do
  p ← pointer h st
  elim p [ none ↦ ok 0 | some k ↦ elim (st.impls k) [ none ↦ fault | some s ↦ ok (size s) ] ]

unfoldable pub signal_blocked : ℕ → Store → Outcome Bool
unfolding blocked
signal_blocked h st = do
  p ← pointer h st
  elim p [ none ↦ ok true | some k ↦ elim (st.impls k) [ none ↦ fault | some s ↦ ok (blocked s) ] ]

-- A request through a pointer.
unfoldable pub on_impl : ℕ → Request → Store → Outcome Store
unfolding serve
on_impl k q st = elim (st.impls k) [
  | none ↦ fault
  | some s ↦ serve q s >>= λ t. ok (record st { impls = set k (some t) st.impls })
]

-- The connecting members make an implementation; the others do nothing without one.
abbrev pub makes : Request → Bool
makes (Abstract.connects o b) = true
makes (Abstract.connects_first o b) = true
makes (Abstract.disconnects i) = false
makes Abstract.clears = false
makes (Abstract.blocks b) = false
makes (Abstract.blocks_slot i b) = false
makes (Abstract.emits a) = false

-- signal_base::connect, connect_first, clear, block, unblock, and signal::emit.
unfoldable pub ask : ℕ → Request → Store → Outcome Store
unfolding impl on_impl
ask h q st = do
  p ← pointer h st
  let there : Outcome Store = elim p [ none ↦ ok st | some k ↦ on_impl k q st ]
  if makes q then (impl h st >>= λ r. on_impl r.0 q r.1) else there
