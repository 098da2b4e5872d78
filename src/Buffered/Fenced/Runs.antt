-- ===== src/Buffered/Fenced/Runs.antt =====
-- Fenced runs are runs of writeboost_rcu.System, and what they inherit.
use writeboost_rcu.Common.{
  ℕ, ◌<◌, ◌^◌, ◌≡◌, refl, ap, sym, subst, ◌∙◌, inl, inr, some, List, length,
}
use writeboost_rcu.Rcu.{Config}
use writeboost_rcu.Threads.{done}
use writeboost_rcu.System as Wbrcu
use writeboost_rcu.System.{
  System, History, Reach, start, step, nothing_yet, record_step, call_from, write_from,
}
use writeboost_rcu.System.Snapshot.{held_step, held_lives}
use writeboost_rcu.Buffered.{
  reading, BufferedSystem, BufferedAction, buffered_step, buffered_start, Allocates,
}
use writeboost_rcu.Buffered.Fenced.{InOrder, asked, FencedReach, begin, later}
use writeboost_rcu.Buffered.Fenced.Simulation.{
  settled_pc, Behind, settled, Simulated, step-Simulated,
}
use writeboost_rcu.Buffered.Fenced.Places.{step-Behind}

module _ {T : Type 0} where
  start-settled : (p : ℕ) (v : T) → settled (buffered_start p v) ≡ start p v
  unfolding buffered_start start
  start-settled p v = refl

  start-Behind : (p : ℕ) (v : T) (j : ℕ) → Behind ((buffered_start p v).reads j)
  unfolding buffered_start
  start-Behind p v j = tt

  abbrev Runs : Config → ℕ → T → List (T → T) → System T → Type 0
  Runs c p₀ v fs s = (h : History T) × Reach c p₀ v h s × (h.calls ≡ fs)

  Simulated-Runs :
      {c : Config} {p₀ : ℕ} {v : T} {fs gs : List (T → T)} (s s' : BufferedSystem T)
      (a : BufferedAction T)
      → Allocates s a
      → gs ≡ asked a fs
      → Runs c p₀ v fs (settled s)
      → Simulated c s a s'
      → Runs c p₀ v gs (settled s')
  Simulated-Runs {c} {p₀} {v} {fs} s s' a ok q (h, way, called_fs) (inl (same, none_new)) =
      (h, subst (Reach c p₀ v h) (sym same) way, called_fs ∙ sym (none_new fs) ∙ sym q)
  Simulated-Runs s s' a ok q (h, way, called_fs) (inr (b, allocates, moved, calls)) = (
    record_step (settled s) b h,
    Wbrcu.later way b (allocates ok) moved refl,
    calls h ∙ ap (asked a) called_fs ∙ sym q,
  )

  FencedReach-Behind :
      {c : Config} {p₀ : ℕ} {v : T} {fs : List (T → T)} {s : BufferedSystem T}
      → FencedReach c p₀ v fs s
      → (j : ℕ) → Behind (s.reads j)
  FencedReach-Behind {p₀ = p₀} {v = v} begin = start-Behind p₀ v
  FencedReach-Behind {c} (later {s = s} {s' = s'} r a ok order e q) =
      step-Behind c s a {s' = s'} (FencedReach-Behind r) order e

  -- Where no reader loads `m_ptr` while its store waits, store buffers change nothing: every state
  -- reached is one that the steps without them reach by the same calls of `update`, when a store that
  -- waits is taken for one that has not begun.
  pub fenced_run :
      {c : Config} {p₀ : ℕ} {v : T} {fs : List (T → T)} {s : BufferedSystem T}
      → FencedReach c p₀ v fs s
      → (h : History T) × Reach c p₀ v h (settled s) × (h.calls ≡ fs)
  fenced_run {c} {p₀} {v} begin =
      (nothing_yet, subst (Reach c p₀ v nothing_yet) (sym (start-settled p₀ v)) Wbrcu.begin, refl)
  fenced_run {c} (later {s = s} {s' = s'} r a ok order e q) =
      Simulated-Runs s s' a ok q (fenced_run r)
        (step-Simulated c s a {s' = s'} (FencedReach-Behind r) order e)

  kept :
      {c : Config} {p₀ : ℕ} {v : T} {h : History T} (s s' : BufferedSystem T) (a : BufferedAction T)
      (j p : ℕ)
      → Reach c p₀ v h (settled s)
      → length h.calls < 2 ^ 64
      → s.reads j ≡ reading p
      → Allocates s a
      → Simulated c s a s'
      → (u : T) × (s.heap p ≡ some u) × (s'.heap p ≡ some u)
  kept s s' a j p way fits at ok (inl (same, none_new)) =
      let (u, live) = held_lives j p way fits (ap settled_pc at) in
      (u, live, ap (λ (t : System T). t.heap p) same ∙ live)
  kept s s' a j p way fits at ok (inr (b, allocates, moved, calls)) =
      held_step {s' = settled s'} b j p way fits (ap settled_pc at) (allocates ok) moved

  -- Where no reader loads `m_ptr` while its store waits, with fewer than 2^64 calls of `update`: a
  -- thread that holds a pointer finds an object there, which no step of any thread changes or deletes.
  pub fenced_reader_keeps :
      {c : Config} {p₀ : ℕ} {v : T} {fs : List (T → T)} {s s' : BufferedSystem T} (j p : ℕ)
      → FencedReach c p₀ v fs s
      → length fs < 2 ^ 64
      → s.reads j ≡ reading p
      → (a : BufferedAction T) → Allocates s a
      → InOrder s a
      → buffered_step c s a ≡ done s'
      → (u : T) × (s.heap p ≡ some u) × (s'.heap p ≡ some u)
  fenced_reader_keeps {c} {s = s} {s' = s'} j p r fits at a ok order e =
      let (h, way, called_fs) = fenced_run r in
      kept s s' a j p way (rw called_fs fits) at ok
        (step-Simulated c s a {s' = s'} (FencedReach-Behind r) order e)
