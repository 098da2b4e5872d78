-- ===== src/System/Supply.antt =====
-- There is always memory left: from some address on, no object lives.
use writeboost_rcu.Common.{ℕ, suc, ◌+◌, ◌≤◌, ◌≡◌, ◌≢◌, refl, none, arith}
use writeboost_rcu.Heap.Free.{free_all-none}
use writeboost_rcu.Rcu.{Config, Rcu}
use writeboost_rcu.Threads.{done, WritePc, idle, reclaiming, call_step, write_step}
use writeboost_rcu.System.{System, History, Action, start, Reach, begin, later}
use writeboost_rcu.System.Moves.{Stepped, reads, calls, writes, step-Stepped}
use writeboost_rcu.System.Registry.{read_step-same}

module _ {T : Type 0} where
  write-none :
      (c : Config) (fresh : ℕ) (r : Rcu T) {r' : Rcu T} {pc' : WritePc T} (p : ℕ) (pc : WritePc T)
      → write_step c fresh r pc ≡ done (r', pc')
      → r.heap p ≡ none
      → p ≢ fresh
      → r'.heap p ≡ none
  unfolding write_step
  write-none c fresh r p idle e n a = ground arith
  write-none c fresh r {r'} p (reclaiming fin cnt) e n a =
      ground (arith, free_all-none r.heap r.finished p {h' = r'.heap})
  write-none c fresh r p _ e n a = ground arith

  call-heap : (f : T → T) (r : Rcu T) → (call_step f r).0.heap ≡ r.heap
  unfolding call_step
  call-heap f r = refl

  abbrev FreeFrom : System T → ℕ → Type 0
  FreeFrom s b = (p : ℕ) → b ≤ p → s.heap p ≡ none

  Stepped-free :
      {c : Config} {s s' : System T} {a : Action T} (b : ℕ)
      → Stepped c s a s'
      → FreeFrom s b
      → (b' : ℕ) × FreeFrom s' b'
  Stepped-free {s} b (reads i lt) h = (b, ground (arith, h, read_step-same i s.rcu (s.reads i)))
  Stepped-free {s} b (calls i f lt e) h = (b, ground (arith, h, call-heap f s.rcu))
  Stepped-free {c} {s} b (writes i fresh lt e) h = (
    b + suc fresh,
    λ p le. write-none c fresh s.rcu p (s.writes i) e (h p (omega arith)) (λ same. omega arith),
  )

  start-free : (p : ℕ) (v : T) → FreeFrom (start p v) (suc p)
  unfolding start
  start-free p v q le = ground arith

  pub free_address :
      {c : Config} {p₀ : ℕ} {v : T} {h : History T} {s : System T}
      → Reach c p₀ v h s
      → (b : ℕ) × ((p : ℕ) → b ≤ p → s.heap p ≡ none)
  free_address {p₀ = p₀} {v = v} begin = (suc p₀, start-free p₀ v)
  free_address {c} (later {s = s} r a ok e q) =
      let (b, unused) = free_address r in Stepped-free b (step-Stepped c s a e) unused
