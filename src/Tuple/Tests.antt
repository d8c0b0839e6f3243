-- ===== src/Tuple/Tests.antt =====
-- The tuple utilities at small tuples.
use libsigcplusplus.Prelude.{
  ℕ, ◌-◌, ◌≡◌, some, [], ◌∷◌, List, length, leb, ◌++◌, none, is_some, if◌then◌else◌,
}
use libsigcplusplus.Tuple.Utils.{tuple_start, tuple_end, ◌>>=◌}
use libsigcplusplus.Tuple.Laws.{tuple_start-tuple_end}

abbrev three : List ℕ
three = 10 ∷ 20 ∷ 30 ∷ []

tuple_start-tuple_end_example :
    ((tuple_start 2 three >>= λ a. tuple_end (length three - 2) three >>= λ b. some (a ++ b))
      ≡ (if leb 2 (length three) then some three else none))
    × (is_some (tuple_start 2 three) ≡ leb 2 (length three))
    × (is_some (tuple_end 2 three) ≡ leb 2 (length three))
tuple_start-tuple_end_example = tuple_start-tuple_end 2 three
