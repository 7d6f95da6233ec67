-- ===== src/Leader/Tests.antt =====
-- Small elections.
use mathlib.Core.List.Memᴰ.{head, tail}
use zns_emulation_bench.Prelude.{◌≡◌, ◌⊎◌, refl, true, some, List, [], ◌∷◌, pos, All, arith}
use zns_emulation_bench.Text.{Bytes, codes, same_text}
use zns_emulation_bench.Leader.{
  Election, leader, watches, path_of, own_name, find, previous, decide, check_leadership,
  watcher_callback,
}
use zns_emulation_bench.Leader.Order.{text_lt, insert, sort, Le}
use zns_emulation_bench.Leader.Choice.{IsPredecessor, check_leadership-chooses, one_leader}

-- The children come in any order.
abbrev children : List Bytes
children = codes "node3" ∷ codes "node1" ∷ codes "node2" ∷ []

abbrev third : Election
third = record { current_node = codes "/election/node3"; predecessor_node = [] }

abbrev first : Election
first = record { current_node = codes "/election/node1"; predecessor_node = [] }

third_watches : check_leadership (pos 0) children third ≡ (
  record third { predecessor_node = codes "/election/node2" },
  watches (codes "/election/node2"),
)
unfolding check_leadership decide find previous sort insert text_lt same_text
third_watches = refl

first_leads : check_leadership (pos 0) children first ≡ (first, leader)
unfolding check_leadership decide find previous sort insert text_lt same_text
first_leads = refl

-- When node2 is gone, node3 looks again.
third_looks_again :
    watcher_callback true
      (codes "/election/node2")
      (pos 0)
      (codes "node3" ∷ codes "node1" ∷ [])
      (record third { predecessor_node = codes "/election/node2" })
    ≡ some (
      record third { predecessor_node = codes "/election/node1" },
      watches (codes "/election/node1"),
    )
unfolding watcher_callback check_leadership decide find previous sort insert text_lt same_text
third_looks_again = refl

check_leadership-chooses_example :
    ((check_leadership (pos 0) children third ≡ (third, leader))
      × All (λ x. Le (own_name third) x) children)
    ⊎ ((p : Bytes) × (check_leadership (pos 0) children third
          ≡ (record third { predecessor_node = path_of p }, watches (path_of p)))
        × IsPredecessor (own_name third) p children)
check_leadership-chooses_example = check_leadership-chooses children third (omega arith) (head refl)

one_leader_example : own_name first ≡ own_name first
unfolding check_leadership decide find previous sort insert text_lt same_text
one_leader_example =
    one_leader children children first first (λ x i. i) (λ x i. i) (omega arith) (omega arith)
      (tail (head refl)) (tail (head refl)) refl refl
