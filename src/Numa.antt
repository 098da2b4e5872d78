-- ===== src/Numa.antt =====
-- include/numa_temp/rcu_numa.hpp: the `rcu_protected<T>` with one pointer, one object pool and two
-- retire lists for each NUMA node. The operations as one thread runs them with nothing in between.
pub mod Aliasing
pub mod Destroy
pub mod Updates
pub mod Batches
pub mod Plain
pub mod Threads
pub mod Interleaved
mod Tests
use mathlib.Core.Option
use writeboost_rcu.Common.{
  ℕ, zero, suc, ◌+◌, ◌*◌, ◌/◌, ◌%◌, ◌^◌, Bool, true, false, not, ◌||◌, Option, none, some, List, [],
  ◌∷◌, if◌then◌else◌, ◌==◌, ltb, bit, length, update, ◌>>=◌,
}
use writeboost_rcu.Readers.{Counters, increment, decrement, epoch_is_clear}
use writeboost_rcu.Rcu.{Config, set_list}

-- Memory at an address: none; memory from `numa_alloc_onnode` on which no constructor has run, with the
-- bytes that are there read as a `T`; or an object.
pub data Cell (T : Type 0) : Type 0 where
  absent : Cell T
  raw : (bytes : T) → Cell T
  object : T → Cell T

module _ {T : Type 0} where
  -- `numa_free(p, sizeof(T))` and `delete p`; `none` is undefined behaviour.
  release_cell : (ℕ → Cell T) → ℕ → Cell T → Option (ℕ → Cell T)
  release_cell h p absent = none
  release_cell h p _ = some (update h p absent)

  unfoldable pub numa_free : (ℕ → Cell T) → ℕ → Option (ℕ → Cell T)
  unfolding release_cell
  numa_free h p = release_cell h p (h p)

  unfoldable pub numa_free_all : (ℕ → Cell T) → List ℕ → Option (ℕ → Cell T)
  unfolding numa_free
  numa_free_all h [] = some h
  numa_free_all h (p ∷ ps) = do h' ← numa_free h p; numa_free_all h' ps

  -- A read of a `T` at an address, undefined where no memory is. Without an object it gives the bytes
  -- that are there; nothing is promised of them.
  unfoldable pub read_object : Cell T → Option T
  read_object absent = none
  read_object (raw bytes) = some bytes
  read_object (object v) = some v

  -- `*p = v` for memory that is there.
  write_cell : (ℕ → Cell T) → ℕ → T → Cell T → Option (ℕ → Cell T)
  write_cell h p v absent = none
  write_cell h p v _ = some (update h p (object v))

  -- `std::invoke(f, p)`: what `f` makes of what is there. A callback that only writes makes the same of
  -- everything.
  unfoldable pub invoke : (ℕ → Cell T) → ℕ → (T → T) → Option (ℕ → Cell T)
  unfolding read_object
  invoke h p f = Option.map (λ v. update h p (object (f v))) (read_object (h p))

-- What `sched_getcpu` and `numa_node_of_cpu` come to: no processor, a call that is undefined, as libnuma
-- leaves every one of its functions where `numa_available()` is -1, a negative answer, or a node.
pub data NodeAnswer : Type 0 where
  no_cpu : NodeAnswer
  undefined_call : NodeAnswer
  negative : NodeAnswer
  on_node : (node : ℕ) → NodeAnswer

-- `get_current_numa_node`; `none` where the assertion fails or the call is undefined.
unfoldable pub get_current_numa_node : NodeAnswer → Option ℕ
get_current_numa_node no_cpu = none
get_current_numa_node undefined_call = none
get_current_numa_node negative = some 0
get_current_numa_node (on_node node) = some node

-- `heap` is the memory of the program, and `bytes` what `numa_alloc_onnode` leaves in the memory that
-- it returns, by address. The other fields are the members of the class.
pub record NumaRcu (T : Type 0) : Type 0 where
  pub heap : ℕ → Cell T
  pub bytes : ℕ → T
  pub is_numa_available : Bool
  pub max_node : ℕ
  pub ptr : ℕ
  pub retire_lists : Bool → List ℕ
  pub finished : List ℕ
  pub node_ptrs : ℕ → ℕ
  pub node_finished : ℕ → List ℕ
  pub node_retire_lists : ℕ → Bool → List ℕ
  pub epoch : Bool
  pub counters : Counters
  pub update_cnt : ℕ
  pub update_queue : List (T → T)

module _ {T : Type 0} where
  -- The second loop of the constructor, for the nodes from `i` on; `alloc i` is what
  -- `numa_alloc_onnode(sizeof(T), i)` returns.
  unfoldable pub construct_nodes : (ℕ → ℕ) → T → ℕ → ℕ → NumaRcu T → NumaRcu T
  construct_nodes alloc v zero i r = r
  construct_nodes alloc v (suc left) i r = construct_nodes alloc v left (i + 1) (record r {
    heap = update r.heap (alloc i) (object v);
    node_ptrs = update r.node_ptrs i (alloc i);
    node_finished = update r.node_finished i [];
    node_retire_lists = update r.node_retire_lists i (λ _. []);
  })

  -- `explicit rcu_protected(T* ptr)`, where `ptr` leads to `v`; `available` and `max` are the answers
  -- of `numa_available` and `numa_max_node`.
  unfoldable pub construct : Bool → ℕ → (ℕ → ℕ) → (ℕ → T) → ℕ → T → NumaRcu T
  unfolding construct_nodes
  construct available max alloc bytes p v =
      let max_node = if available then max else 0 in
      let r : NumaRcu T = record {
        heap = update (λ _. absent) p (object v);
        bytes = bytes;
        is_numa_available = available;
        max_node = max_node;
        ptr = p;
        retire_lists = λ _. [];
        finished = [];
        node_ptrs = λ _. 0;
        node_finished = λ _. [];
        node_retire_lists = λ _ _. [];
        epoch = false;
        counters = λ _. 0;
        update_cnt = 0;
        update_queue = [];
      } in
      if available then construct_nodes alloc v (max_node + 1) 0 r else r

  -- What one node of the destructor's first loop gives back. Address 0 is the null pointer.
  unfoldable pub destroy_node : NumaRcu T → (ℕ → Cell T) → ℕ → Option (ℕ → Cell T)
  unfolding numa_free numa_free_all
  destroy_node r h i = do
    h ← if r.node_ptrs i == 0 then some h else numa_free h (r.node_ptrs i)
    h ← numa_free_all h (r.node_retire_lists i false)
    h ← numa_free_all h (r.node_retire_lists i true)
    numa_free_all h (r.node_finished i)

  pub destroy_nodes : NumaRcu T → ℕ → ℕ → (ℕ → Cell T) → Option (ℕ → Cell T)
  unfolding destroy_node
  destroy_nodes r zero i h = some h
  destroy_nodes r (suc left) i h = do h ← destroy_node r h i; destroy_nodes r left (i + 1) h

  -- `~rcu_protected()`
  unfoldable pub destroy : NumaRcu T → Option (ℕ → Cell T)
  unfolding destroy_nodes numa_free numa_free_all
  destroy r = do
    h ← if r.is_numa_available then destroy_nodes r (r.max_node + 1) 0 r.heap else some r.heap
    h ← numa_free h r.ptr
    h ← numa_free_all h (r.retire_lists false)
    h ← numa_free_all h (r.retire_lists true)
    numa_free_all h r.finished

  -- `get_ptr` by a thread asks for the node first, also without NUMA.
  unfoldable pub get_ptr : NumaRcu T → ℕ → NodeAnswer → Option (ℕ × NumaRcu T)
  unfolding increment get_current_numa_node
  get_ptr r thread answer = do
    node ← get_current_numa_node answer
    some (
      if r.is_numa_available then r.node_ptrs node else r.ptr,
      record r { counters = increment r.counters thread (bit r.epoch) },
    )

  unfoldable pub rcu_read_unlock : NumaRcu T → ℕ → NumaRcu T
  unfolding decrement
  rcu_read_unlock r thread = record r { counters = decrement r.counters thread }

  -- `get_copy` on a node: from its pool, or else memory that `numa_alloc_onnode` returns.
  copy_on_node : NumaRcu T → ℕ → ℕ → List ℕ → Option (ℕ × NumaRcu T)
  unfolding write_cell read_object
  copy_on_node r node fresh [] =
      some (fresh, record r { heap = update r.heap fresh (raw (r.bytes fresh)) })
  copy_on_node r node fresh (pooled ∷ rest) = do
    curr ← read_object (r.heap (r.node_ptrs node))
    h ← write_cell r.heap pooled curr (r.heap pooled)
    some (pooled, record r { heap = h; node_finished = update r.node_finished node rest })

  copy_without_node : NumaRcu T → ℕ → List ℕ → Option (ℕ × NumaRcu T)
  unfolding write_cell read_object
  copy_without_node r fresh [] = do
    curr ← read_object (r.heap r.ptr)
    some (fresh, record r { heap = update r.heap fresh (object curr) })
  copy_without_node r fresh (pooled ∷ rest) = do
    curr ← read_object (r.heap r.ptr)
    h ← write_cell r.heap pooled curr (r.heap pooled)
    some (pooled, record r { heap = h; finished = rest })

  unfoldable pub get_copy : NumaRcu T → ℕ → ℕ → Option (ℕ × NumaRcu T)
  unfolding copy_on_node copy_without_node
  get_copy r node fresh =
      if r.is_numa_available
      then copy_on_node r node fresh (r.node_finished node)
      else copy_without_node r fresh r.finished

  -- `retire(ptr, node)`, on the lists of the node and on those of the whole.
  retire_on_node : Config → NumaRcu T → ℕ → ℕ → Option (NumaRcu T)
  unfolding numa_free_all epoch_is_clear
  retire_on_node c r p node =
      let curr = r.epoch in
      let lists : Bool → List ℕ =
        set_list (r.node_retire_lists node) curr (p ∷ r.node_retire_lists node curr) in
      let pushed : NumaRcu T = record r {
        node_retire_lists = update r.node_retire_lists node lists;
      } in
      if ltb (length (lists curr)) (c.hardware_concurrency / (r.max_node + 1))
        || not (epoch_is_clear c.threads r.counters (bit (not curr)))
      then some pushed
      else do
        h ← numa_free_all r.heap (r.node_finished node)
        some (record pushed {
          heap = h;
          node_finished = update r.node_finished node (lists (not curr));
          node_retire_lists = update r.node_retire_lists node (set_list lists (not curr) []);
          epoch = not curr;
        })

  retire_without_node : Config → NumaRcu T → ℕ → Option (NumaRcu T)
  unfolding numa_free_all epoch_is_clear
  retire_without_node c r p =
      let curr = r.epoch in
      let lists : Bool → List ℕ = set_list r.retire_lists curr (p ∷ r.retire_lists curr) in
      if ltb (length (lists curr)) (c.hardware_concurrency / (r.max_node + 1))
        || not (epoch_is_clear c.threads r.counters (bit (not curr)))
      then some (record r { retire_lists = lists })
      else do
        h ← numa_free_all r.heap r.finished
        some (record r {
          heap = h;
          retire_lists = set_list lists (not curr) [];
          finished = lists (not curr);
          epoch = not curr;
        })

  unfoldable pub retire : Config → NumaRcu T → ℕ → ℕ → Option (NumaRcu T)
  unfolding retire_on_node retire_without_node
  retire c r p node =
      if r.is_numa_available then retire_on_node c r p node else retire_without_node c r p

  -- The loop of `do_updates` that publishes `copied` on the nodes from `i` on.
  unfoldable pub publish_nodes : Config → ℕ → ℕ → ℕ → NumaRcu T → Option (NumaRcu T)
  unfolding retire
  publish_nodes c copied zero i r = some r
  publish_nodes c copied (suc left) i r = do
    r' ← retire c (record r { node_ptrs = update r.node_ptrs i copied }) (r.node_ptrs i) i
    publish_nodes c copied left (i + 1) r'

  unfoldable pub publish : Config → ℕ → NumaRcu T → Option (NumaRcu T)
  unfolding publish_nodes
  publish c copied r =
      if r.is_numa_available
      then publish_nodes c copied (r.max_node + 1) 0 r
      else retire c (record r { ptr = copied }) r.ptr 0

  -- A call of `update` that meets no other: it registers, copies, performs its own update, publishes
  -- and resets the count. `fresh` is what the allocation returns.
  unfoldable pub update_alone : Config → NumaRcu T → ℕ → ℕ → (T → T) → Option (NumaRcu T)
  unfolding get_copy publish invoke
  update_alone c r node fresh f = do
    (copied, r') ← get_copy (record r { update_cnt = 1 }) node fresh
    h ← invoke r'.heap copied f
    r'' ← publish c copied (record r' { heap = h })
    some (record r'' { update_cnt = 0 })
