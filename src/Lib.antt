-- ===== src/Lib.antt =====
-- writeboost-rcu: an object of type T that many threads read without waiting, while updates are
-- collected and carried out by one thread at a time. A reader takes a pointer with `get_ptr`; a writer
-- hands `update` a callback. The first to find `m_updateCnt` at zero becomes the updater: it copies the
-- object, runs its own callback and then those that the others have queued, publishes the copy in
-- `m_ptr`, retires the old object and starts again until no call is left. Retired objects are put aside
-- in one of two lists, by the parity of `m_epoch`, and come back as a pool for copies once no reader's
-- byte names the epoch before.
--
-- Parts and files:
--   * include/wbrcu/detail/ThreadCachedReaders.hpp: Readers.antt. `increment`, `decrement` and
--     `epoch_is_clear` are `increment`, `decrement` and `epochIsClear`; the thread-local bytes are a
--     family by thread number.
--   * include/wbrcu/rcu_protected.hpp, the class: Rcu.antt has its members as the record `Rcu` and its
--     functions as they run with nothing in between (`construct`, `destroy`, `get_copy`, `retire` and
--     the parts that they consist of), on the memory of Heap.antt, where a use or a `delete` of an
--     address without an object is `none`; Rcu/Places.antt has what they do to the places of an address.
--   * The same file, the order in which threads run it: Threads.antt has the place of a thread in
--     `get_ptr` (`ReadPc`) and in `update`, `try_register`, `do_updates` and `retire` (`WritePc`),
--     and the step from each; a step makes one access to shared memory; Threads/Alone.antt compares
--     the steps with the function `retire`, and Threads/Retire.antt has what both leave. System.antt has all threads and `Reach`, the states that
--     some interleaving leads to, with the history of calls, turns, performances and publications.
--     Below it, System/Safety, Snapshot, Lifetime, Delivery, Refinement, Progress, Termination,
--     Completion, Freshness, Own, Latency, Space and Nested hold what follows for the users of the
--     class, Thrown the steps in which a callback throws and what they lead to, and the others what
--     this rests on: Registry for `m_updateCnt` and the updater, Shelter for what readers hold,
--     Ownership and Memory for who may use which address, Accounts, Carried and Waiting for the
--     updates under way, Values, Order and Stages for what was performed and published, Effort and
--     Supply for the runs of the updater alone.
--   * The same, with a reader's store of its byte held back in a store buffer: Buffered.antt, with
--     the steps of Threads.antt for the updater; Buffered/Fenced.antt has the runs in which the store
--     is never held back past the load of `m_ptr`.
--   * include/wbrcu/rcu_protected.hpp, `wbrcu::rand`: Rand.antt.
--   * benchmark/common.hpp: Locks.antt, `lock_protected` and `rwlock_protected` as one object over the
--     interface `Lock`, which Locks/Mutexes fills with `std::mutex` and `std::shared_mutex`.
--     FollyRcu.antt: `follyrcu_protected`, its threads interleaved with the deleters of a domain that
--     is a parameter; FollyRcu/Retirement.antt has what is asked of that domain, Quiescent.antt beside
--     it one that keeps it; Invariant, Updates, Steps and Reachable have what Safety rests on.
--   * include/numa_temp/rcu_numa.hpp: Numa.antt, the class with one pointer, pool and pair of lists for
--     each node, its operations as one thread runs them; Numa/Updates.antt has `do_updates` for calls
--     that have all arrived, and Numa/Plain.antt, with the files below it, the class on
--     a machine without NUMA, beside Rcu.antt. Numa/Threads.antt has the places of a thread in
--     `get_ptr` and `update` and the step from each, Numa/Interleaved.antt all threads; below it,
--     Plain, Simulation and Runs compare them with those of System.antt without NUMA. Memory from
--     `numa_alloc_onnode` holds bytes that are a parameter until something is assigned to it, and a
--     callback may use it as it is. What `get_current_numa_node` meets is a parameter too
--     (`NodeAnswer`): `get_ptr` calls it also without NUMA, where libnuma leaves it undefined.
--   * benchmark/bm_rw_ratio.cpp, bm_rw_ratio2.cpp and bm_sizeof_data.cpp: Benchmarks.antt, what one
--     thread does in `bm_read`, `bm_write`, `bm_explicit_ratio` and `bm_func`.
--   * Common.antt: the names and the lemmas on lists, sums and counts that the others share.
--
-- Choices and bounds:
--   * Steps are sequentially consistent. The memory orders that the source gives are weaker: nothing
--     keeps the store of a reader's byte before the load of `m_ptr` that follows it. What System has of
--     readers holds of runs in which it is kept; Buffered.antt has runs in which it is not.
--   * There are `threads` threads, any number. `epochIsClear` goes through all of them in order, one
--     byte at a step; a thread that has never read has the byte 0.
--   * A thread's places in the reader's and in the updater's code move independently. A call of
--     `update` from inside a callback is a call by another thread number, at any moment, and the
--     callback does not wait for it; System/Nested has the callback that waits.
--   * `m_updateCnt` and the counters of `do_updates` wrap at 2^64. Theorems on runs ask for fewer than
--     2^64 calls of `update`; with more, the count can be zero again while an updater works.
--   * `new` returns an address where no object lives (`Allocates`), any such address.
--   * A vector is a list with `back()` at its head. The queue is bounded, as `MPMCQueue` is, by 500 for
--     each hardware thread: `blockingWrite` waits while it is full and `blockingRead` while it is empty.
--   * Loops of the updater are steps of `WritePc`; the others are structural, but for the outer loop of
--     the NUMA class (`do_updates` in Numa/Updates.antt), whose fuel counts publications: one for each
--     `flushingThreshold` of the queued calls, and one at least, is enough without NUMA. With NUMA
--     nothing is stated of that loop as a whole, only of its batches, which need no fuel.
--
-- Not modelled: the insides of folly, libnuma and the standard library, which are what the steps
-- stand on; exceptions of `new`, of copies and of the containers; the benchmarks' fixtures and
-- registrations, the tests and the build files.
mod Common
pub mod Heap
pub mod Readers
pub mod Rcu
pub mod Threads
pub mod System
pub mod Buffered
pub mod Locks
pub mod FollyRcu
pub mod Rand
pub mod Numa
pub mod Benchmarks
