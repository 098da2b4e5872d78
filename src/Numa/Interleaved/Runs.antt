-- ===== src/Numa/Interleaved/Runs.antt =====
-- The runs of the threads without NUMA, and what they inherit.
use writeboost_rcu.Common.{
  Option, some, none, ℕ, ◌<◌, ◌^◌, ◌≡◌, ◌≢◌, refl, ap, sym, subst, ◌∙◌, Bool-cases, inl, inr, false,
  List, length, ltb, arith,
}
use writeboost_rcu.Rcu.{Config, Rcu}
use writeboost_rcu.Threads as Threads
use writeboost_rcu.Threads.{map_outcome, Outcome, done, blocked, fault, WritePc, working}
use writeboost_rcu.System as Wbrcu
use writeboost_rcu.System.{
  System, History, Reach, start, step, nothing_yet, record_write, record_step, Allocates,
}
use writeboost_rcu.System.Registry.{record_write-calls}
use writeboost_rcu.System.Safety.{step-ne-fault}
use writeboost_rcu.System.Snapshot.{held_step}
use writeboost_rcu.Numa.{NumaRcu, object}
use writeboost_rcu.Numa.Threads.{
  NumaReadPc, locking, reading, NumaWritePc, idle, numa_read_step, numa_call_step, numa_write_step,
}
use writeboost_rcu.Numa.Interleaved.{
  Answered, read_asks, node_for, with_node, numa_read, NumaSystem, NumaAction, read, call, write,
  numa_call, numa_write, numa_step, numa_start, Environment, asked, NumaReach, begin, later,
}
use writeboost_rcu.Numa.Interleaved.Plain.{plain_read}
use writeboost_rcu.Numa.Interleaved.Simulation.{
  write_asks-plain, taken-Answered, plain_system, plain_action, write-Quiet, numa_step-plain,
}
use writeboost_rcu.Numa.Plain.Memory.{content}
use writeboost_rcu.Numa.Plain.{plain, construct-plain}
use writeboost_rcu.Numa.Plain.Quiet.{Quiet}
use writeboost_rcu.Numa.Plain.Loop.{object_at}

module _ {T : Type 0} where
  read-Quiet :
      (i node : ℕ) (r : NumaRcu T) (pc : NumaReadPc)
      → Quiet r
      → Quiet (numa_read_step i node r pc).0
  unfolding numa_read_step
  read-Quiet i node r (locking on e) quiet = quiet
  read-Quiet i node r _ quiet = quiet

  called-Quiet : (f : T → T) (r : NumaRcu T) → Quiet r → Quiet (numa_call_step f r).0
  unfolding numa_call_step
  called-Quiet f r quiet = quiet

  write_at-Quiet :
      (c : Config) (s : NumaSystem T) (i node fresh : ℕ) {s' : NumaSystem T}
      (o : Outcome (NumaRcu T × NumaWritePc T))
      → numa_write_step c node fresh s.rcu (s.writes i) ≡ o
      → Quiet s.rcu
      → numa_write s i o ≡ done s'
      → Quiet s'.rcu
  unfolding numa_write
  write_at-Quiet c s i node fresh {s'} (done (r, pc)) q quiet e =
      let kept = write-Quiet c node fresh s.rcu (s.writes i) {k = r} {pc' = pc} quiet q in
      let same : r ≡ s'.rcu = ground arith in subst Quiet same kept
  write_at-Quiet c s i node fresh blocked q quiet e = absurd (ground arith)
  write_at-Quiet c s i node fresh fault q quiet e = absurd (ground arith)

  call_at-Quiet :
      (s : NumaSystem T) (i : ℕ) (f : T → T) (pc : NumaWritePc T) {s' : NumaSystem T}
      → Quiet s.rcu
      → numa_call s i f pc ≡ done s'
      → Quiet s'.rcu
  unfolding numa_call
  call_at-Quiet s i f idle {s'} quiet e =
      let same : (numa_call_step f s.rcu).0 ≡ s'.rcu = ground arith in
      subst Quiet same (called-Quiet f s.rcu quiet)
  call_at-Quiet s i f _ quiet e = absurd (ground arith)

  read_at-Quiet :
      (s : NumaSystem T) (i : ℕ) (o : Option ℕ) {s' : NumaSystem T}
      → Quiet s.rcu
      → with_node (λ node. done (numa_read s i (numa_read_step i node s.rcu (s.reads i)))) o
        ≡ done s'
      → Quiet s'.rcu
  unfolding numa_read
  read_at-Quiet s i none quiet e = absurd (ground arith)
  read_at-Quiet s i (some node) {s'} quiet e =
      let same : (numa_read_step i node s.rcu (s.reads i)).0 ≡ s'.rcu = ground arith in
      subst Quiet same (read-Quiet i node s.rcu (s.reads i) quiet)

  step-Quiet :
      (c : Config) (s : NumaSystem T) (a : NumaAction T) {s' : NumaSystem T}
      → Quiet s.rcu
      → numa_step c s a ≡ done s'
      → Quiet s'.rcu
  unfolding numa_step
  step-Quiet c s (read i answer) {s'} quiet e = elim (Bool-cases (ltb i c.threads)) [
    | inl h ↦
        read_at-Quiet s i (node_for (read_asks (s.reads i)) answer) {s' = s'} quiet (ground arith)
    | inr h ↦ absurd (ground arith)
  ]
  step-Quiet c s (call i f) {s'} quiet e = elim (Bool-cases (ltb i c.threads)) [
    | inl h ↦ call_at-Quiet s i f (s.writes i) {s' = s'} quiet (ground arith)
    | inr h ↦ absurd (ground arith)
  ]
  step-Quiet c s (write i answer fresh) {s'} quiet e = elim (Bool-cases (ltb i c.threads)) [
    | inl h ↦
        write_at-Quiet c s i 0 fresh {s' = s'} _ refl quiet
          (ground (arith, write_asks-plain c s quiet (s.writes i)))
    | inr h ↦ absurd (ground arith)
  ]

  -- Only a call of `update` asks for an update.
  record_step-asked :
      (s : NumaSystem T) (a : NumaAction T) (h : History T)
      → (record_step (plain_system s) (plain_action a) h).calls ≡ asked a h.calls
  record_step-asked s (read i answer) h = refl
  record_step-asked s (call i f) h = refl
  record_step-asked s (write i answer fresh) h =
      record_write-calls (plain s.rcu) ((plain_system s).writes i) h

  allocates :
      (s : NumaSystem T) (a : NumaAction T)
      → Environment s a
      → Allocates (plain_system s) (plain_action a)
  allocates s (read i answer) env = tt
  allocates s (call i f) env = tt
  allocates s (write i answer fresh) env = ap content env

  start-plain :
      (max : ℕ) (alloc : ℕ → ℕ) (bytes : ℕ → T) (p : ℕ) (v : T)
      → plain_system (numa_start false max alloc bytes p v) ≡ start p v
  unfolding numa_start start
  start-plain max alloc bytes p v =
      ap
        (λ (r : Rcu T). record {
          rcu = r;
          reads = λ _. Threads.outside;
          writes = λ _. Threads.idle;
        })
        (construct-plain max alloc bytes p v)

  start-Quiet :
      (max : ℕ) (alloc : ℕ → ℕ) (bytes : ℕ → T) (p : ℕ) (v : T)
      → Quiet (numa_start false max alloc bytes p v).rcu
  unfolding numa_start
  start-Quiet max alloc bytes p v = (refl, refl, λ q. ground arith)

  -- A step that is taken had its answer.
  taken-plain :
      (c : Config) (s : NumaSystem T)
      → Quiet s.rcu
      → (a : NumaAction T) {s' : NumaSystem T} → numa_step c s a ≡ done s'
      → map_outcome plain_system (numa_step c s a) ≡ step c (plain_system s) (plain_action a)
  taken-plain c s quiet a {s'} e = numa_step-plain c s quiet a (taken-Answered c s a {s' = s'} e)

  simulation :
      {c : Config} {max : ℕ} {alloc : ℕ → ℕ} {bytes : ℕ → T} {p₀ : ℕ} {v : T} {fs : List (T → T)}
      {s : NumaSystem T}
      → NumaReach c false max alloc bytes p₀ v fs s
      → Quiet s.rcu × ((h : History T) × Reach c p₀ v h (plain_system s) × (h.calls ≡ fs))
  simulation {c} {max} {alloc} {bytes} {p₀} {v} begin = (
    start-Quiet max alloc bytes p₀ v,
    (
      nothing_yet,
      subst (Reach c p₀ v nothing_yet) (sym (start-plain max alloc bytes p₀ v)) Wbrcu.begin,
      refl,
    ),
  )
  simulation {c} (later {s = s} {s' = s'} r a env e q) =
      let (quiet, (h, way, called)) = simulation r in
      let moved : step c (plain_system s) (plain_action a) ≡ done (plain_system s') =
        sym (taken-plain c s quiet a {s' = s'} e) ∙ ap (map_outcome plain_system) e in
      (
        step-Quiet c s a {s' = s'} quiet e,
        (
          record_step (plain_system s) (plain_action a) h,
          Wbrcu.later way (plain_action a) (allocates s a env) moved refl,
          record_step-asked s a h ∙ ap (asked a) called ∙ sym q,
        ),
      )

  -- On a machine without NUMA, every state that some interleaving of the threads leads to is one that
  -- `wbrcu::rcu_protected` reaches by the same calls of `update`; and from there every step of a thread,
  -- taken, blocked or undefined, is the same step there, except the first step of a `get_ptr` whose call
  -- of `get_current_numa_node` does not return, which libnuma allows where there is no NUMA.
  pub numa_simulation :
      {c : Config} {max : ℕ} {alloc : ℕ → ℕ} {bytes : ℕ → T} {p₀ : ℕ} {v : T} {fs : List (T → T)}
      {s : NumaSystem T} (a : NumaAction T)
      → NumaReach c false max alloc bytes p₀ v fs s
      → Answered s a
      → ((h : History T) × Reach c p₀ v h (plain_system s) × (h.calls ≡ fs))
        × (map_outcome plain_system (numa_step c s a) ≡ step c (plain_system s) (plain_action a))
  numa_simulation {c} {s = s} a r ok =
      let (quiet, way) = simulation r in (way, numa_step-plain c s quiet a ok)

  -- On a machine without NUMA, in a state that is reached by fewer than 2^64 calls of `update`: no step
  -- of a thread uses or deletes memory without an object, and none is undefined but for the call of
  -- `get_current_numa_node` in `get_ptr`.
  pub numa_step-ne-fault :
      {c : Config} {max : ℕ} {alloc : ℕ → ℕ} {bytes : ℕ → T} {p₀ : ℕ} {v : T} {fs : List (T → T)}
      {s : NumaSystem T} (a : NumaAction T)
      → NumaReach c false max alloc bytes p₀ v fs s
      → length fs < 2 ^ 64
      → Answered s a
      → numa_step c s a ≢ fault
  numa_step-ne-fault {c} {s = s} a r fits ok e =
      let (quiet, (h, way, called)) = simulation r in
      let fits' : length h.calls < 2 ^ 64 = rw called fits in
      step-ne-fault way fits' (plain_action a)
        (sym (numa_step-plain c s quiet a ok) ∙ ap (map_outcome plain_system) e)

  -- On a machine without NUMA, in a state that is reached by fewer than 2^64 calls of `update`: while a
  -- thread holds a pointer there is an object behind it, which no step changes or deletes.
  pub numa_reader_keeps :
      {c : Config} {max : ℕ} {alloc : ℕ → ℕ} {bytes : ℕ → T} {p₀ : ℕ} {v : T} {fs : List (T → T)}
      {s s' : NumaSystem T} (j p : ℕ)
      → NumaReach c false max alloc bytes p₀ v fs s
      → length fs < 2 ^ 64
      → s.reads j ≡ reading p
      → (a : NumaAction T) → Environment s a
      → numa_step c s a ≡ done s'
      → (u : T) × (s.heap p ≡ object u) × (s'.heap p ≡ object u)
  numa_reader_keeps {c} {s = s} {s' = s'} j p r fits at a env e =
      let (quiet, (h, way, called)) = simulation r in
      let fits' : length h.calls < 2 ^ 64 = rw called fits in
      let moved : step c (plain_system s) (plain_action a) ≡ done (plain_system s') =
        sym (taken-plain c s quiet a {s' = s'} e) ∙ ap (map_outcome plain_system) e in
      let (u, before, after) =
        held_step {s' = plain_system s'} (plain_action a) j p way fits' (ap plain_read at)
          (allocates s a env) moved in
      (u, object_at (s.heap p) before, object_at (s'.heap p) after)
