-- ===== src/Numa/Destroy.antt =====
-- The destructor after two nodes were given the same object.

use writeboost_rcu.Common.{
  ℕ, suc, ◌+◌, ◌-◌, ◌≤◌, ◌≡◌, ◌≢◌, sym, ap, subst, ◌∙◌, true, false, none, some, Option-cases, List,
  [], ◌∷◌, arith, inl, inr,
}
use writeboost_rcu.Rcu.{Config}
use writeboost_rcu.Numa.{
  NumaRcu, Cell, absent, destroy, destroy_nodes, destroy_node, numa_free, numa_free_all, publish,
}
use writeboost_rcu.Numa.Aliasing.{publish_aliases, publish-same}

module _ {T : Type 0} where
  numa_free-absent :
      (h : ℕ → Cell T) (p q : ℕ) {h' : ℕ → Cell T}
      → numa_free h q ≡ some h'
      → (h p ≡ absent)
      → h' p ≡ absent
  unfolding numa_free
  numa_free-absent h p q e a = ground arith

  numa_free_all-absent :
      (h : ℕ → Cell T) (ps : List ℕ) (p : ℕ) {h' : ℕ → Cell T}
      → numa_free_all h ps ≡ some h'
      → h p ≡ absent
      → h' p ≡ absent
  unfolding numa_free_all
  numa_free_all-absent h [] p e a = ground arith
  numa_free_all-absent h (q ∷ ps) p {h'} e a = elim (Option-cases (numa_free h q)) [
    | inl d ↦ absurd (ground arith)
    | inr (m, d) ↦ numa_free_all-absent m ps p {h' = h'} (ground arith) (numa_free-absent h p q d a)
  ]

  numa_free_lem :
      (h : ℕ → Cell T) (p : ℕ) {h' : ℕ → Cell T} → numa_free h p ≡ some h' → h' p ≡ absent
  unfolding numa_free
  numa_free_lem h p e = ground arith

  -- A node's part of the destructor leaves nothing at the node's address.
  destroy_node-absent :
      (r : NumaRcu T) (h : ℕ → Cell T) (i : ℕ) {h' : ℕ → Cell T}
      → r.node_ptrs i ≢ 0
      → destroy_node r h i ≡ some h'
      → h' (r.node_ptrs i) ≡ absent
  unfolding destroy_node
  destroy_node-absent r h i {h'} live e = elim (Option-cases (numa_free h (r.node_ptrs i))) [
    | inl d ↦ absurd (ground arith)
    | inr (a, d) ↦ elim (Option-cases (numa_free_all a (r.node_retire_lists i false))) [
      | inl d' ↦ absurd (ground arith)
      | inr (b, d') ↦ elim (Option-cases (numa_free_all b (r.node_retire_lists i true))) [
        | inl d'' ↦ absurd (ground arith)
        | inr (k, d'') ↦
            numa_free_all-absent k (r.node_finished i) (r.node_ptrs i) {h' = h'} (ground arith) (
              numa_free_all-absent b (r.node_retire_lists i true) _ d''
                (numa_free_all-absent a (r.node_retire_lists i false) _ d' (numa_free_lem h _ d)))
      ]
    ]
  ]

  destroy_node-twice :
      (r : NumaRcu T) (h : ℕ → Cell T) (i : ℕ)
      → r.node_ptrs i ≢ 0
      → h (r.node_ptrs i) ≡ absent
      → destroy_node r h i ≡ none
  unfolding destroy_node
  destroy_node-twice r h i live gone = ground arith

  destroy_nodes-twice :
      (r : NumaRcu T) (more : ℕ) (h : ℕ → Cell T)
      → r.node_ptrs 0 ≢ 0
      → r.node_ptrs 1 ≡ r.node_ptrs 0
      → destroy_nodes r (suc (suc more)) 0 h ≡ none
  unfolding destroy_nodes
  destroy_nodes-twice r more h live same = elim (Option-cases (destroy_node r h 0)) [
    | inl d ↦ rw d
    | inr (m, d) ↦ ground (
      arith,
      d,
      destroy_node-twice r m 1 (λ z. live (sym same ∙ z))
          (ground (arith, destroy_node-absent r h 0 live d)),
    )
  ]

  destroy-twice :
      (r : NumaRcu T) (more : ℕ)
      → r.max_node ≡ suc more
      → r.is_numa_available ≡ true
      → r.node_ptrs 0 ≢ 0
      → r.node_ptrs 1 ≡ r.node_ptrs 0
      → destroy r ≡ none
  unfolding destroy
  destroy-twice r more e numa live same =
      let max : r.max_node + 1 ≡ suc (suc more) = omega arith in
      rw (numa, max, destroy_nodes-twice r more r.heap live same)

  numa_free-live :
      (h : ℕ → Cell T) (p : ℕ) {h' : ℕ → Cell T} → numa_free h p ≡ some h' → h p ≢ absent
  unfolding numa_free
  numa_free-live h p e a = absurd (ground arith)

  destroy_node-live :
      (r : NumaRcu T) (h : ℕ → Cell T) (i : ℕ) {h' : ℕ → Cell T}
      → r.node_ptrs i ≢ 0
      → destroy_node r h i ≡ some h'
      → h (r.node_ptrs i) ≢ absent
  unfolding destroy_node
  destroy_node-live r h i live e = elim (Option-cases (numa_free h (r.node_ptrs i))) [
    | inl d ↦ absurd (ground arith)
    | inr (a, d) ↦ numa_free-live h (r.node_ptrs i) {h' = a} d
  ]

  -- On a machine with two NUMA nodes or more, after an update was published at an address that is not
  -- null, if the destructor's loop comes through node 0: the published object was there, node 0's part
  -- frees it, node 1's part frees the same address again, which is undefined, and with it the destructor.
  pub destroy_double_free :
      (c : Config) (copied : ℕ) (r : NumaRcu T) {r' : NumaRcu T}
      → r.is_numa_available ≡ true
      → 1 ≤ r.max_node
      → copied ≢ 0
      → publish c copied r ≡ some r'
      → {h : ℕ → Cell T} → destroy_node r' r'.heap 0 ≡ some h
      → (r'.heap copied ≢ absent)
        × (h copied ≡ absent)
        × (r'.node_ptrs 1 ≡ copied)
        × (destroy_node r' h 1 ≡ none)
        × (destroy r' ≡ none)
  destroy_double_free c copied r {r'} numa many live e {h} once =
      let (numa', max) = publish-same c copied r numa e in
      let first : r'.node_ptrs 0 ≡ copied = publish_aliases c copied r numa e 0 (omega arith) in
      let second : r'.node_ptrs 1 ≡ copied = publish_aliases c copied r numa e 1 many in
      let gone : h copied ≡ absent =
        subst (λ p. h p ≡ absent) first
          (destroy_node-absent r' r'.heap 0 {h' = h} (λ z. live (sym first ∙ z)) once) in
      (
        subst (λ p. r'.heap p ≢ absent) first
            (destroy_node-live r' r'.heap 0 {h' = h} (λ z. live (sym first ∙ z)) once),
        gone,
        second,
        destroy_node-twice r' h 1 (λ z. live (sym second ∙ z)) (ap h second ∙ gone),
        destroy-twice r' (r.max_node - 1) (omega arith) numa' (λ z. live (sym first ∙ z))
            (second ∙ sym first),
      )
