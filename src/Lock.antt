-- ===== src/Lock.antt =====
-- examples/zookeeper/zklock.cc: a lock as a queue of ephemeral sequential nodes under /lock/res1. The
-- callbacks of one client; `Lock/Protocol.antt` puts many of them around a server.
pub mod Choice
pub mod Protocol
pub mod Orderly
pub mod Exclusion
pub mod Tests
use zns_emulation_bench.Prelude.{
  ℕ, zero, suc, ◌+◌, ◌-◌, ◌*◌, Bool, true, false, ◌&&◌, ◌||◌, if◌then◌else◌, ltb, leb, ◌==◌, Option,
  none, some, List, [], ◌∷◌, ◌++◌, ℤ, pos, negsuc,
}
use zns_emulation_bench.Text.{int_zero, sscanf_d, Bytes, codes, same_text}

-- `zk_mutex_t`, an `int` being kept as its distance from INT_MIN. The 64 characters of `watch` have room for
-- the paths of nodes such as `main` creates, whose names are sequence numbers; the model does not bound it.
pub record Mutex : Type 0 where
  pub seq_me : ℕ
  pub seq_watch : ℕ
  pub watch : Bytes

abbrev pub lock_path : Bytes
lock_path = codes "/lock/res1/"

-- The text behind a prefix.
unfoldable pub behind : Bytes → Bytes → Option Bytes
behind [] text = some text
behind (p ∷ ps) [] = none
behind (p ∷ ps) (c ∷ cs) = let rest = behind ps cs in if p == c then rest else none

-- What a callback asks of the server. A name is that of a child of /lock/res1.
pub data Request : Type 0 where
  nothing : Request
  get_children : Request
  delete_node : Option Bytes → Request
  exists_node : Option Bytes → Request

-- The variables of the loop over the children.
pub record Scan : Type 0 where
  pub v : ℕ
  pub n : ℕ
  pub seq_watch : ℕ
  pub value_self : Option Bytes
  pub value_other : Option Bytes

-- The body of the loop.
unfoldable pub scan_child : ℕ → Bytes → Scan → Scan
unfolding sscanf_d
scan_child me name s =
    if ltb v me
    then (if s.n == 0 || ltb s.seq_watch v
        then record s { v = v; n = s.n + 1; seq_watch = v; value_other = some name }
        else record s { v = v })
    else if v == me
    then record s { v = v; value_self = some name }
    else record s { v = v }
  where
    v : ℕ
    v = sscanf_d name s.v

unfoldable pub scan_children : ℕ → List Bytes → Scan → Scan
unfolding scan_child
scan_children me [] s = s
scan_children me (name ∷ names) s = scan_children me names (scan_child me name s)

-- `v` starts with what is on the stack.
abbrev pub first_scan : ℕ → Mutex → Scan
first_scan junk m = record {
  v = junk;
  n = 0;
  seq_watch = m.seq_watch;
  value_self = none;
  value_other = none;
}

-- `zk_get_children_lock_res1` after its loop.
unfoldable pub conclude : Mutex → Scan → Mutex × Request
conclude m s =
    if s.n == 0 then (record m { seq_watch = s.seq_watch }, delete_node s.value_self) else (
      record m { seq_watch = s.seq_watch; watch = path s.value_other },
      exists_node s.value_other,
    )
  where
    path : Option Bytes → Bytes
    path none = []
    path (some name) = lock_path ++ name

-- `zk_get_children_lock_res1` does nothing on an error.
unfoldable pub zk_get_children_lock_res1 : ℕ → ℤ → List Bytes → Mutex → Mutex × Request
unfolding scan_children conclude
zk_get_children_lock_res1 junk (pos zero) names m =
    conclude m (scan_children m.seq_me names (first_scan junk m))
zk_get_children_lock_res1 junk (pos (suc rc)) names m = (m, nothing)
zk_get_children_lock_res1 junk (negsuc rc) names m = (m, nothing)

-- `zk_create_lock_res1_es`, called with the path of the new node; `seq` starts with what is on the stack.
unfoldable pub zk_create_lock_res1_es : ℕ → ℤ → Bytes → Mutex → Mutex × Request
unfolding sscanf_d behind
zk_create_lock_res1_es junk (pos zero) value m =
    if ltb int_zero seq
    then (record m { seq_me = seq }, get_children)
    else (record m { seq_me = seq }, delete_node (behind lock_path value))
  where
    number : Option Bytes → ℕ
    number none = junk
    number (some name) = sscanf_d name junk

    seq : ℕ
    seq = number (behind lock_path value)
zk_create_lock_res1_es junk (pos (suc rc)) value m = (m, nothing)
zk_create_lock_res1_es junk (negsuc rc) value m = (m, nothing)

-- `zk_watcher_disconnect`.
unfoldable pub zk_watcher_disconnect : Bytes → Mutex → Request
unfolding same_text
zk_watcher_disconnect path m = if same_text m.watch path then get_children else nothing
