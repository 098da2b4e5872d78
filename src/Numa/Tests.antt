-- ===== src/Numa/Tests.antt =====
-- Two NUMA nodes, with objects at 20 and 21 and the caller's at 10.
use writeboost_rcu.Common.{
  ℕ, ◌+◌, ◌*◌, ◌≤◌, ◌≡◌, ◌≢◌, ◌⊎◌, refl, ℕ_discrete, Option, none, some, true, false, List, [], ◌∷◌,
  ◌++◌, length, update, arith,
}
use writeboost_rcu.Rcu.{Config, rcu_read_lock, exchange}
use writeboost_rcu.Numa.{
  NumaRcu, Cell, get_current_numa_node, get_ptr, rcu_read_unlock, invoke, absent, object, negative,
  construct, get_copy, publish, update_alone, destroy, destroy_node,
}
use writeboost_rcu.Numa.Updates.{Batch, collect, do_updates, update_with_others}
use writeboost_rcu.Numa.Batches.{apply_queue, collect_lem}
use writeboost_rcu.Numa.Aliasing.{update_uninitialised, publish_aliases}
use writeboost_rcu.Numa.Destroy.{destroy_double_free}
use writeboost_rcu.Numa.Plain.Memory.{contents, NoRaw}
use writeboost_rcu.Numa.Plain.{plain, without_numa}
use writeboost_rcu.Numa.Plain.Loop.{AtRest}
use writeboost_rcu.Numa.Plain.Total.{construct-AtRest, update_total}
use writeboost_rcu.Heap.{modify}
use writeboost_rcu.Rcu as Wbrcu
use mathlib.Core.Option

abbrev eight : Config
eight = record { hardware_concurrency = 8; flushing_threshold = 20; threads = 8 }

abbrev two_nodes : NumaRcu ℕ
two_nodes = construct true 1 (λ i. 20 + i) (λ p. 5) 10 7

-- The state after the object at 30 was published.
abbrev published : NumaRcu ℕ
published = elim (publish eight 30 two_nodes) [ none ↦ two_nodes | some r ↦ r ]

publishes : publish eight 30 two_nodes ≡ some published
unfolding publish construct
publishes = refl

update_uninitialised_example :
    (k : NumaRcu ℕ) × (update_alone eight two_nodes 0 30 (λ x. x + 1) ≡ some k)
    × ((n : ℕ) → n ≤ 1 → k.heap (k.node_ptrs n) ≡ object 6)
unfolding construct
update_uninitialised_example =
    update_uninitialised eight two_nodes 0 30 (λ x. x + 1) refl (λ n. ground arith)

publish_aliases_example : published.node_ptrs 1 ≡ 30
unfolding construct
publish_aliases_example = publish_aliases eight 30 two_nodes refl publishes 1 (omega arith)

-- The same with an object at 30, which the destructor frees for node 0.
abbrev copied_object : NumaRcu ℕ
copied_object = record two_nodes { heap = update two_nodes.heap 30 (object 8) }

abbrev shared : NumaRcu ℕ
shared = elim (publish eight 30 copied_object) [ none ↦ copied_object | some r ↦ r ]

shares : publish eight 30 copied_object ≡ some shared
unfolding publish construct
shares = refl

abbrev freed_once : ℕ → Cell ℕ
freed_once = elim (destroy_node shared shared.heap 0) [ none ↦ shared.heap | some h ↦ h ]

frees : destroy_node shared shared.heap 0 ≡ some freed_once
unfolding destroy_node publish construct
frees = refl

destroy_double_free_example :
    (shared.heap 30 ≢ absent)
    × (freed_once 30 ≡ absent)
    × (shared.node_ptrs 1 ≡ 30)
    × (destroy_node shared freed_once 1 ≡ none)
    × (destroy shared ≡ none)
unfolding construct
destroy_double_free_example =
    destroy_double_free eight 30 copied_object refl (omega arith) (omega arith) shares frees

-- Without NUMA, with a threshold of two: the updater's own update is performed at 11, and three
-- others are queued.
abbrev two_at_once : Config
two_at_once = record { hardware_concurrency = 1; flushing_threshold = 2; threads = 2 }

abbrev three_queued : List (ℕ → ℕ)
three_queued = (λ x. x + 1) ∷ (λ x. x * 2) ∷ (λ x. x + 5) ∷ []

abbrev working : NumaRcu ℕ
working = record (construct false 0 (λ i. 20 + i) (λ p. 5) 10 7) {
  heap = update (update (λ _. absent) 10 (object 7)) 11 (object 8);
  update_cnt = 4;
  update_queue = three_queued;
}

-- The object and the count after `do_updates`, which publishes twice.
result : Option (NumaRcu ℕ) → Option (Cell ℕ × ℕ)
result none = none
result (some r) = some (r.heap r.ptr, r.update_cnt)

two_publications :
    result (do_updates two_at_once 0 (λ n. 30 + n) 2 11 1 working) ≡ some (object 23, 0)
unfolding do_updates construct result ℕ_discrete
two_publications = refl

collect_lem_example :
    (b : Batch ℕ) × (performed : List (ℕ → ℕ)) × (collect two_at_once 11 4 working.heap 1 0
        three_queued
      ≡ some b)
    × (three_queued ≡ performed ++ b.queue)
    × (b.heap 11 ≡ object (apply_queue performed 8))
    × (b.fin ≡ 1 + length performed)
    × (b.fin ≤ 4)
    × (0 + length performed ≤ 2)
    × ((b.fin ≡ 4) ⊎ (0 + length performed ≡ 2))
unfolding construct
collect_lem_example =
    collect_lem two_at_once 11 4 working.heap 8 1 0 three_queued refl (omega arith) (omega arith)
      (omega arith) (omega arith) (omega arith)

-- A machine without NUMA, before any update.
abbrev one_node : NumaRcu ℕ
one_node = construct false 0 (λ i. 20 + i) (λ p. 5) 10 7

one_node-NoRaw : NoRaw one_node.heap
unfolding construct
one_node-NoRaw p = elim (ℕ_discrete 10 p) [ yes here ↦ ground arith | no apart ↦ ground arith ]

without_numa_example :
    (plain {T = ℕ} (construct false 0 (λ i. 20 + i) (λ p. 5) 10 7) ≡ Wbrcu.construct 10 7)
    × ((k : NumaRcu ℕ) × (get_ptr one_node 1 negative ≡ some (one_node.ptr, k))
        × (plain k ≡ rcu_read_lock (plain one_node) 1 one_node.epoch))
    × (plain (rcu_read_unlock one_node 1) ≡ Wbrcu.rcu_read_unlock (plain one_node) 1)
    × (Option.map (λ (copied, k). (copied, plain k)) (get_copy one_node 0 30)
        ≡ Wbrcu.get_copy (plain one_node) 30)
    × (Option.map contents (invoke one_node.heap 10 (λ x. x + 1))
        ≡ modify (plain one_node).heap 10 (λ x. x + 1))
    × (Option.map plain (publish eight 10 one_node)
        ≡ Wbrcu.retire eight (exchange (plain one_node) 10).1 (exchange (plain one_node) 10).0)
    × (Option.map contents (destroy one_node) ≡ Wbrcu.destroy (plain one_node))
unfolding construct get_current_numa_node
without_numa_example =
    without_numa eight one_node 1 negative 30 10 0 (λ x. x + 1) (λ i. 20 + i) (λ p. 5) 7 refl refl
      one_node-NoRaw refl

update_total_example :
    (k : NumaRcu ℕ) × (h : ℕ → Cell ℕ) × (update_with_others two_at_once 0
        (λ n. 30 + n)
        2
        (λ x. x + 1)
        three_queued
        one_node
      ≡ some k)
    × AtRest k 23
    × (destroy k ≡ some h)
    × ((p : ℕ) → contents h p ≡ none)
unfolding construct
update_total_example =
    update_total two_at_once one_node 0 1 (λ n. 30 + n) (λ x. x + 1) three_queued
      (construct-AtRest 0 (λ i. 20 + i) (λ p. 5) 10 7) (omega arith) (omega arith) (omega arith)
      (omega arith) (λ n below. ground arith) (λ m n below same. omega arith)
