-- ===== src/Lock/Tests.antt =====
-- Small runs of the lock.
use mathlib.Core.List.{Memᴰ}
use mathlib.Core.List.Memᴰ.{head, tail}
use zns_emulation_bench.Prelude.{
  ℕ, ◌+◌, ◌<◌, ◌≤◌, ◌≡◌, ◌⊎◌, refl, false, true, some, List, [], ◌∷◌, ◌++◌, pos, negsuc, All, arith,
}
use zns_emulation_bench.Text.{int_zero, digits, scan_digits, scan_sign, sscanf_d, Bytes, codes}
use zns_emulation_bench.Lock.{
  Mutex, delete_node, exists_node, lock_path, behind, scan_child, scan_children, conclude,
  zk_create_lock_res1_es, zk_get_children_lock_res1, zk_watcher_disconnect,
}
use zns_emulation_bench.Lock.Choice.{number, IsNumeric, zk_get_children_lock_res1-chooses}
use zns_emulation_bench.Lock.Protocol.{
  sequence, listing, listed, deleting, System, put, go_on, enter, names, blank, Step, Steps, stay,
  step, start, create, create_callback, session_event, serve_list, list_callback,
}
use zns_emulation_bench.Lock.Exclusion.{mutual_exclusion}

abbrev node_0 : Bytes
node_0 = codes "0000000000"

abbrev node_1 : Bytes
node_1 = codes "0000000001"

node_0-IsNumeric : IsNumeric node_0
unfolding sscanf_d digits scan_digits scan_sign
node_0-IsNumeric v = refl

node_1-IsNumeric : IsNumeric node_1
unfolding sscanf_d digits scan_digits scan_sign
node_1-IsNumeric v = refl

-- Of 2, 5 and 3 the client with the node 5 watches 3.
abbrev children : List Bytes
children = codes "0000000002" ∷ codes "0000000005" ∷ codes "0000000003" ∷ []

abbrev fifth : Mutex
fifth = record { seq_me = int_zero + 5; seq_watch = int_zero; watch = [] }

fifth_watches : zk_get_children_lock_res1 9 (pos 0) children fifth ≡ (
  record { seq_me = int_zero + 5; seq_watch = int_zero + 3; watch = codes "/lock/res1/0000000003" },
  exists_node (some (codes "0000000003")),
)
unfolding zk_get_children_lock_res1 scan_children scan_child conclude sscanf_d digits scan_digits
    scan_sign
fifth_watches = refl

children-IsNumeric : All IsNumeric children
unfolding sscanf_d digits scan_digits scan_sign
children-IsNumeric = ((λ v. refl), ((λ v. refl), ((λ v. refl), tt)))

zk_get_children_lock_res1-chooses_example :
    ((name : Bytes) × ((zk_get_children_lock_res1 9 (pos 0) children fifth).1
        ≡ delete_node (some name))
      × (number name ≡ int_zero + 5)
      × All (λ x. int_zero + 5 ≤ number x) children)
    ⊎ ((name : Bytes) × (zk_get_children_lock_res1 9 (pos 0) children fifth ≡ (
      record fifth { seq_watch = number name; watch = lock_path ++ name },
      exists_node (some name),
    ))
        × Memᴰ name children
        × (number name < int_zero + 5)
        × All (λ x. number x < int_zero + 5 → number x ≤ number name) children)
unfolding sscanf_d digits scan_digits scan_sign
zk_get_children_lock_res1-chooses_example =
    zk_get_children_lock_res1-chooses 9 children (codes "0000000005") fifth children-IsNumeric
      (tail (head refl)) refl

-- Behind the overflow of ZooKeeper's counter a client takes the lock at once.
overflow_takes :
    (zk_create_lock_res1_es 0 (pos 0) (codes "/lock/res1/-2147483648") blank).1
    ≡ delete_node (some (codes "-2147483648"))
unfolding zk_create_lock_res1_es behind sscanf_d digits scan_digits scan_sign
overflow_takes = refl

-- Two clients, of which the first one takes the lock.
abbrev s1 : System
s1 =
    put 0 (record { name = node_0; mutex = blank; is_new = true; tasks = [] })
      (record start { next = start.next + 1; nodes = start.nodes ++ start.next ∷ [] })

abbrev s2 : System
s2 =
    put 1 (record { name = node_1; mutex = blank; is_new = true; tasks = listing ∷ [] })
      (record s1 { next = s1.next + 1; nodes = s1.nodes ++ s1.next ∷ [] })

abbrev s3 : System
s3 =
    go_on 0 false
      (zk_create_lock_res1_es 0 (pos 0) (lock_path ++ (s2.client 0).name) (s2.client 0).mutex)
      (s2.client 0).tasks s2

s3_reached : Steps start s3
unfolding sscanf_d digits scan_digits scan_sign
s3_reached =
    step
      (step (step stay (create start node_0 [] node_0-IsNumeric refl tt))
        (create s1 node_1 (listing ∷ []) node_1-IsNumeric refl (refl, tt)))
      (create_callback s2 0 0 (pos 0) (omega arith) refl)

first_takes : (s3.client 0).tasks ≡ deleting (sequence 0) (some node_0) ∷ []
unfolding zk_create_lock_res1_es behind sscanf_d digits scan_digits scan_sign
first_takes = refl

mutual_exclusion_example : ◌≡◌ {A = ℕ} 0 0
unfolding zk_create_lock_res1_es behind sscanf_d digits scan_digits scan_sign
mutual_exclusion_example =
    mutual_exclusion s3 0 0 (some node_0) (some node_0) s3_reached (omega arith) (omega arith)
      (omega arith) (omega arith) (head refl) (head refl) (head refl) (head refl)

-- The second one's creation is reported as failed. It has asked for the children when its session began,
-- and takes the lock with the number 0, which is not its own.
abbrev s4 : System
s4 =
    go_on 1 false
      (zk_create_lock_res1_es 0 (negsuc 3) (lock_path ++ (s3.client 1).name) (s3.client 1).mutex)
      (s3.client 1).tasks s3

abbrev s5 : System
s5 = enter 1 ([] ++ listed (names s4) ∷ []) s4

abbrev s6 : System
s6 =
    go_on 1 (s5.client 1).is_new
      (zk_get_children_lock_res1 0 (pos 0) (names s4) (s5.client 1).mutex) ([] ++ []) s5

s6_reached : Steps start s6
unfolding zk_create_lock_res1_es
s6_reached =
    step
      (step (step s3_reached (create_callback s3 1 0 (negsuc 3) (omega arith) refl))
        (serve_list s4 1 [] [] (omega arith) refl))
      (list_callback s5 1 0 (pos 0) (names s4) [] [] (omega arith) refl)

both_take :
    ((s6.client 0).tasks ≡ deleting (sequence 0) (some node_0) ∷ [])
    × ((s6.client 1).tasks ≡ deleting (sequence 0) (some node_0) ∷ [])
    × (s6.nodes ≡ 0 ∷ 1 ∷ [])
unfolding zk_create_lock_res1_es zk_get_children_lock_res1 scan_children scan_child conclude behind
    sscanf_d digits scan_digits scan_sign
both_take = (refl, refl, refl)

-- The session's event comes with an empty path, which is what is watched at first.
event_lists : Step s3 (
    go_on 1 true
      ((s3.client 1).mutex, zk_watcher_disconnect [] (s3.client 1).mutex)
      (listing ∷ [])
      s3)
event_lists = session_event s3 1 (omega arith)
