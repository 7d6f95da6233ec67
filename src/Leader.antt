-- ===== src/Leader.antt =====
-- examples/zookeeper/zkleader.cc: the election of a leader among the ephemeral sequential nodes under
-- /election.
pub mod Order
pub mod Choice
pub mod Tests
use zns_emulation_bench.Prelude.{
  ℕ, zero, suc, ◌-◌, Bool, true, false, ◌&&◌, if◌then◌else◌, ltb, ◌==◌, Option, none, some, List,
  [], ◌∷◌, ◌++◌, get_elem?, length, ℤ, pos, negsuc,
}
use zns_emulation_bench.Text.{Bytes, codes, same_text}
use Order.{sort}

abbrev pub election_path : Bytes
election_path = codes "/election"

-- `current_node` and `predecessor_node`.
pub record Election : Type 0 where
  pub current_node : Bytes
  pub predecessor_node : Bytes

-- How a look at the children ends: with an error or an exception, as the leader, or with a watch.
pub data Outcome : Type 0 where
  error : ℤ → Outcome
  out_of_range : Outcome
  leader : Outcome
  watches : Bytes → Outcome

abbrev pub drop : ℕ → Bytes → Bytes
drop zero xs = xs
drop (suc n) [] = []
drop (suc n) (x ∷ xs) = drop n xs

-- `std::find`: the length of the list stands for `end()`.
unfoldable pub find : Bytes → List Bytes → ℕ
find own [] = 0
find own (x ∷ xs) = let rest = suc (find own xs) in if same_text x own then 0 else rest

-- `*std::prev(it)`, and nothing before the beginning.
unfoldable pub previous : ℕ → List Bytes → Option Bytes
previous zero xs = none
previous (suc i) xs = get_elem? xs i

abbrev pub own_name : Election → Bytes
own_name e = drop 10 e.current_node

abbrev pub path_of : Bytes → Bytes
path_of name = election_path ++ (codes "/" ++ name)

-- The leader has nobody before it; every other client watches who is before it.
abbrev pub elect : Election → Option Bytes → Election × Outcome
elect e none = (e, leader)
elect e (some p) = (record e { predecessor_node = path_of p }, watches (path_of p))

-- The decision on the sorted children.
unfoldable pub decide : List Bytes → Election → Election × Outcome
unfolding find previous
decide sorted e = elect e (previous (find (own_name e) sorted) sorted)

-- `check_leadership`; `rc` and the children are what `zoo_get_children` answers.
unfoldable pub check_leadership : ℤ → List Bytes → Election → Election × Outcome
unfolding decide sort
check_leadership (pos zero) children e =
    if ltb (length e.current_node) 10 then (e, out_of_range) else decide (sort children) e
check_leadership (pos (suc rc)) children e = (e, error (pos (suc rc)))
check_leadership (negsuc rc) children e = (e, error (negsuc rc))

-- `watcher_callback`; `deleted` is whether the event is ZOO_DELETED_EVENT.
unfoldable pub watcher_callback :
    Bool → Bytes → ℤ → List Bytes → Election → Option (Election × Outcome)
unfolding check_leadership same_text
watcher_callback deleted path rc children e =
    if deleted && same_text path e.predecessor_node
    then some (check_leadership rc children e)
    else none

-- `create_ephemeral_sequential_node`, where `none` is `exit(EXIT_FAILURE)`.
unfoldable pub create_ephemeral_sequential_node :
    ℤ → Bytes → ℤ → List Bytes → Election → Option (Election × Outcome)
unfolding check_leadership
create_ephemeral_sequential_node (pos zero) buffer rc children e =
    some (check_leadership rc children (record e { current_node = buffer }))
create_ephemeral_sequential_node (pos (suc n)) buffer rc children e = none
create_ephemeral_sequential_node (negsuc n) buffer rc children e = none
