-- ===== src/Numa/Aliasing.antt =====
-- What goes wrong on a machine with NUMA: the copy that is not made, and the object that is shared
-- by all nodes.

use writeboost_rcu.Common.{
  ℕ, zero, suc, ◌+◌, ◌≤◌, ◌<◌, ◌≡◌, ◌≢◌, refl, ◌∙◌, true, some, Option-cases, [], update, arith,
  ℕ_discrete, inl, inr,
}
use writeboost_rcu.Rcu.{Config}
use writeboost_rcu.Numa.{
  NumaRcu, raw, object, invoke, get_copy, publish, publish_nodes, retire, update_alone,
}

module _ {T : Type 0} where
  -- A node's pointer after a retirement is what it was: `retire` writes to no pointer.
  retire-node_ptrs :
      (c : Config) (r : NumaRcu T) (p node : ℕ) {r' : NumaRcu T}
      → retire c r p node ≡ some r'
      → (r'.node_ptrs ≡ r.node_ptrs)
        × (r'.is_numa_available ≡ r.is_numa_available)
        × (r'.max_node ≡ r.max_node)
  unfolding retire
  retire-node_ptrs c r p node e = ground arith

  publish_nodes-ptrs :
      (c : Config) (copied left i : ℕ) (r : NumaRcu T) {r' : NumaRcu T}
      → publish_nodes c copied left i r ≡ some r'
      → ((k : ℕ) → i ≤ k → k < i + left → r'.node_ptrs k ≡ copied)
        × ((k : ℕ) → k < i → r'.node_ptrs k ≡ r.node_ptrs k)
        × (r'.is_numa_available ≡ r.is_numa_available)
        × (r'.max_node ≡ r.max_node)
  unfolding publish_nodes
  publish_nodes-ptrs c copied zero i r e =
      (λ k a b. absurd (omega arith), λ k lt. ground arith, ground arith, ground arith)
  publish_nodes-ptrs c copied (suc left) i r {r'} e =
      elim (Option-cases
        (retire c (record r { node_ptrs = update r.node_ptrs i copied }) (r.node_ptrs i) i)) [
          | inl d ↦ absurd (ground arith)
          | inr (m, d) ↦
              let (same, numa, max) =
                retire-node_ptrs c (record r { node_ptrs = update r.node_ptrs i copied })
                  (r.node_ptrs i) i d in
              let (above, below, numa', max') =
                publish_nodes-ptrs c copied left (i + 1) m {r' = r'} (ground arith) in
              (
                λ k a b. elim (ℕ_discrete k i) [
                  | yes here ↦ ground (arith, below k)
                  | no there ↦ above k (omega arith) (omega arith)
                ],
                λ k lt. ground (arith, below k),
                numa' ∙ numa,
                max' ∙ max,
              )
        ]

  -- With NUMA, a publication leaves every node with the same object, though each node was given one
  -- of its own and gives its own back in the destructor.
  pub publish_aliases :
      (c : Config) (copied : ℕ) (r : NumaRcu T) {r' : NumaRcu T}
      → r.is_numa_available ≡ true
      → publish c copied r ≡ some r'
      → (k : ℕ) → k ≤ r.max_node
      → r'.node_ptrs k ≡ copied
  unfolding publish
  publish_aliases c copied r {r'} numa e k h =
      (publish_nodes-ptrs c copied (r.max_node + 1) 0 r {r' = r'} (ground arith)).0 k (omega arith)
        (omega arith)

  pub publish-same :
      (c : Config) (copied : ℕ) (r : NumaRcu T) {r' : NumaRcu T}
      → r.is_numa_available ≡ true
      → publish c copied r ≡ some r'
      → (r'.is_numa_available ≡ true) × (r'.max_node ≡ r.max_node)
  unfolding publish
  publish-same c copied r {r'} numa e =
      let (above, below, numa', max') =
        publish_nodes-ptrs c copied (r.max_node + 1) 0 r {r' = r'} (ground arith) in
      (numa' ∙ numa, max')

  -- With empty pools a retirement deletes nothing.
  retire_empty :
      (c : Config) (r : NumaRcu T) (p node : ℕ)
      → r.is_numa_available ≡ true
      → r.node_finished node ≡ []
      → (k : NumaRcu T) × (retire c r p node ≡ some k)
        × (k.heap ≡ r.heap)
        × ((n : ℕ) → n ≢ node → k.node_finished n ≡ r.node_finished n)
  unfolding retire
  retire_empty c r p node numa empty = elim (Option-cases (retire c r p node)) [
    | inl d ↦ absurd (ground arith)
    | inr (k, d) ↦ (k, d, ground arith, λ n apart. ground arith)
  ]

  publish_nodes_empty :
      (c : Config) (copied left i : ℕ) (r : NumaRcu T)
      → r.is_numa_available ≡ true
      → ((n : ℕ) → i ≤ n → r.node_finished n ≡ [])
      → (k : NumaRcu T) × (publish_nodes c copied left i r ≡ some k) × (k.heap ≡ r.heap)
  unfolding publish_nodes
  publish_nodes_empty c copied zero i r numa empty = (r, refl, refl)
  publish_nodes_empty c copied (suc left) i r numa empty =
      let moved : NumaRcu T = record r { node_ptrs = update r.node_ptrs i copied } in
      let (m, d, heap, pools) =
        retire_empty c moved (r.node_ptrs i) i numa (empty i (omega arith)) in
      let (ptrs, numa', max) = retire-node_ptrs c moved (r.node_ptrs i) i {r' = m} d in
      let (k, e, heap') =
        publish_nodes_empty c copied left (i + 1) m (numa' ∙ numa)
          (λ n above. pools n (λ same. absurd (omega arith)) ∙ empty n (omega arith)) in
      (k, rw d e, heap' ∙ heap)

  -- With NUMA and no pool filled yet, a call of `update` that meets no other returns, and every node's
  -- pointer then leads to what its callback makes of the bytes that `numa_alloc_onnode` left in the
  -- new memory, whatever the object was that it should have changed: the current object is not copied.
  pub update_uninitialised :
      (c : Config) (r : NumaRcu T) (node fresh : ℕ) (f : T → T)
      → r.is_numa_available ≡ true
      → ((n : ℕ) → r.node_finished n ≡ [])
      → (k : NumaRcu T) × (update_alone c r node fresh f ≡ some k)
        × ((n : ℕ) → n ≤ r.max_node → k.heap (k.node_ptrs n) ≡ object (f (r.bytes fresh)))
  unfolding get_copy update_alone invoke publish
  update_uninitialised c r node fresh f numa empty =
      let ready : NumaRcu T = record r {
        heap =
            update (update r.heap fresh (raw (r.bytes fresh))) fresh (object (f (r.bytes fresh)));
        update_cnt = 1;
      } in
      let (k, e, heap) =
        publish_nodes_empty c fresh (r.max_node + 1) 0 ready numa (λ n above. empty n) in
      let (above, below, numa', max) =
        publish_nodes-ptrs c fresh (r.max_node + 1) 0 ready {r' = k} e in
      (
        record k { update_cnt = 0 },
        ground (arith, empty node, e),
        λ n inside. ground (arith, heap, above n (omega arith) (omega arith)),
      )
