-- ===== src/Lock/Protocol.antt =====
-- Any number of clients of examples/zookeeper/zklock.cc around one server, as a step relation. A client
-- is known by how many nodes had been created before its own. Several of its requests may be under way at
-- once, since the watcher is called for the events of its session too, with an empty path.
use zns_emulation_bench.Prelude.{
  ℕ, ◌+◌, ◌%◌, ◌^◌, ◌<◌, ◌≡◌, All, Bool, true, false, ◌||◌, if◌then◌else◌, ◌==◌, Option, none, some,
  List, [], ◌∷◌, ◌++◌, ℤ, map,
}
use zns_emulation_bench.Text.{int_zero, Bytes, same_text}
use zns_emulation_bench.Lock.{
  Mutex, Request, nothing, get_children, delete_node, exists_node, lock_path,
  zk_create_lock_res1_es, zk_get_children_lock_res1, zk_watcher_disconnect,
}
use zns_emulation_bench.Lock.Choice.{number, IsNumeric}

-- The sequence number of the `n`-th node, an `int` that ZooKeeper lets overflow.
abbrev pub sequence : ℕ → ℕ
sequence n = (n + int_zero) % 2 ^ 32

-- What a client waits for: the server's list, the callback with that list, the server's answer on a node
-- to watch, the event of a node that was there, the deletion of a node. A client that deletes has taken
-- the lock, with the `seq_me` that it had then.
pub data Task : Type 0 where
  listing : Task
  listed : List Bytes → Task
  asking : Bytes → Task
  watching : Bytes → Task
  deleting : ℕ → Option Bytes → Task

-- The tasks that a request makes; `zk_watch_children`, the callback of an answer on a node, only prints.
abbrev pub requested : Mutex → Request → List Task
requested m nothing = []
requested m get_children = listing ∷ []
requested m (delete_node o) = deleting m.seq_me o ∷ []
requested m (exists_node o) = asking m.watch ∷ []

-- `is_new` until the callback of the creation has been called.
pub record Client : Type 0 where
  pub name : Bytes
  pub mutex : Mutex
  pub is_new : Bool
  pub tasks : List Task

-- The nodes are the children of /lock/res1, by their clients.
pub record System : Type 0 where
  pub next : ℕ
  pub nodes : List ℕ
  pub client : ℕ → Client

abbrev pub put : ℕ → Client → System → System
put n c s = record s { client = λ k. if k == n then c else s.client k }

-- A client goes on with what a callback has left in its mutex and has asked for, and other tasks.
abbrev pub go_on : ℕ → Bool → Mutex × Request → List Task → System → System
go_on n is_new (m, r) tasks s =
    put n
      (record {
        name = (s.client n).name;
        mutex = m;
        is_new = is_new;
        tasks = requested m r ++ tasks;
      })
      s

-- A client's tasks become these.
abbrev pub enter : ℕ → List Task → System → System
enter n tasks s = put n (record (s.client n) { tasks = tasks }) s

abbrev pub names : System → List Bytes
names s = map (λ k. (s.client k).name) s.nodes

-- Whether a path is that of a node.
abbrev pub is_there : Bytes → List Bytes → Bool
is_there path [] = false
is_there path (x ∷ xs) = same_text path (lock_path ++ x) || is_there path xs

abbrev pub without : (ℕ → Bool) → List ℕ → List ℕ
without out [] = []
without out (k ∷ ks) = let rest = without out ks in if out k then rest else k ∷ rest

abbrev pub is_named : System → Option Bytes → ℕ → Bool
is_named s none k = false
is_named s (some x) k = same_text x (s.client k).name

abbrev pub blank : Mutex
blank = record { seq_me = int_zero; seq_watch = int_zero; watch = [] }

-- ZooKeeper gives a new node the next sequence number, and its name reads as that. It sends an event for a
-- watched node when that is gone. `rc` is what a callback is told, and a task is taken from any place.
-- At its creation a client may have asked for lists already. A node may go without its client's doing,
-- as when a session ends.
pub data Step : System → System → Type 0 where
  create :
      (s : System) (name : Bytes) (lists : List Task)
      → IsNumeric name
      → number name ≡ sequence s.next
      → All (λ t. t ≡ listing) lists
      → Step s (
          put s.next
            (record { name = name; mutex = blank; is_new = true; tasks = lists })
            (record s { next = s.next + 1; nodes = s.nodes ++ s.next ∷ [] }))
  create_callback :
      (s : System) (n junk : ℕ) (rc : ℤ)
      → n < s.next
      → (s.client n).is_new ≡ true
      → Step s (
          go_on n false
            (zk_create_lock_res1_es junk rc (lock_path ++ (s.client n).name) (s.client n).mutex)
            (s.client n).tasks
            s)
  session_event :
      (s : System) (n : ℕ)
      → n < s.next
      → Step s (
          go_on n
            (s.client n).is_new
            ((s.client n).mutex, zk_watcher_disconnect [] (s.client n).mutex)
            (s.client n).tasks
            s)
  serve_list :
      (s : System) (n : ℕ) (before after : List Task)
      → n < s.next
      → (s.client n).tasks ≡ before ++ listing ∷ after
      → Step s (enter n (before ++ listed (names s) ∷ after) s)
  list_callback :
      (s : System) (n junk : ℕ) (rc : ℤ) (xs : List Bytes) (before after : List Task)
      → n < s.next
      → (s.client n).tasks ≡ before ++ listed xs ∷ after
      → Step s (
          go_on n
            (s.client n).is_new
            (zk_get_children_lock_res1 junk rc xs (s.client n).mutex)
            (before ++ after)
            s)
  serve_exists :
      (s : System) (n : ℕ) (path : Bytes) (before after : List Task)
      → n < s.next
      → (s.client n).tasks ≡ before ++ asking path ∷ after
      → Step s
          (enter n (before ++ (if is_there path (names s) then watching path ∷ after else after)) s)
  notify :
      (s : System) (n : ℕ) (path : Bytes) (before after : List Task)
      → n < s.next
      → (s.client n).tasks ≡ before ++ watching path ∷ after
      → is_there path (names s) ≡ false
      → Step s (
          go_on n
            (s.client n).is_new
            ((s.client n).mutex, zk_watcher_disconnect path (s.client n).mutex)
            (before ++ after)
            s)
  serve_delete :
      (s : System) (n me : ℕ) (o : Option Bytes) (before after : List Task)
      → n < s.next
      → (s.client n).tasks ≡ before ++ deleting me o ∷ after
      → Step s (record (enter n (before ++ after) s) { nodes = without (is_named s o) s.nodes })
  node_goes : (s : System) (out : ℕ → Bool) → Step s (record s { nodes = without out s.nodes })

pub data Steps (s : System) : System → Type 0 where
  stay : Steps s s
  step : {t u : System} → Steps s t → Step t u → Steps s u

abbrev pub start : System
start = record {
  next = 0;
  nodes = [];
  client = λ k. record { name = []; mutex = blank; is_new = true; tasks = [] };
}
