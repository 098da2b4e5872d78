-- ===== src/System/Snapshot.antt =====
-- What a reader sees while it holds the pointer that `get_ptr` returned.

use writeboost_rcu.Common.{
  apply_all, ℕ, ◌≤◌, ◌<◌, ◌^◌, ◌≡◌, refl, ◌∙◌, some, length, count, le-total, arith,
}
use writeboost_rcu.Heap.{allocated}
use writeboost_rcu.Heap.Free.{allocated-some}
use writeboost_rcu.Rcu.{Config}
use writeboost_rcu.Threads.{done, reading, call_step}
use writeboost_rcu.System.{System, History, Action, step, Allocates, record_step, Reach}
use writeboost_rcu.System.Moves.{Stepped, reads, calls, writes, step-Stepped}
use writeboost_rcu.System.Registry.{calls-le, read_step-same}
use writeboost_rcu.System.Ownership.{private, write-keeps}
use writeboost_rcu.System.Memory.{Memory, copies}
use writeboost_rcu.System.Invariant.{Inv, Reach-Inv, step-Inv}

module _ {T : Type 0} where
  held_places :
      {c : Config} {s : System T} (j p : ℕ)
      → Memory c s
      → s.reads j ≡ reading p
      → (copies c s p ≡ 0) × (count p s.finished ≡ 0) × (allocated (s.heap p) ≡ 1)
  held_places {c} {s} j p m q = ground (arith, m.held j p q, m.owned p)

  Stepped-keeps :
      {c : Config} {s s' : System T} {a : Action T} (j p : ℕ)
      → Stepped c s a s'
      → Allocates s a
      → Memory c s
      → s.reads j ≡ reading p
      → s'.heap p ≡ s.heap p
  unfolding call_step
  Stepped-keeps {s} j p (reads i lt) ok m q = ground (arith, read_step-same i s.rcu (s.reads i))
  Stepped-keeps j p (calls i f lt e) ok m q = ground arith
  Stepped-keeps {c} {s} j p (writes i fresh lt e) ok m q =
      let (mine, pooled, live) = held_places j p m q in
      write-keeps c fresh s.rcu p (s.writes i) e ok
        (omega (arith, le-total (private p) c.threads s.writes i lt)) pooled (omega arith)

  -- The steps in which thread `j` holds `p`, from a state on.
  pub data Holding (c : Config) (j p : ℕ) (h : History T) (s : System T)
      : History T → System T → Type 0 where
    here : Holding c j p h s h s
    next :
        {k k' : History T} {t t' : System T}
        → Holding c j p h s k t
        → (a : Action T) → Allocates t a
        → step c t a ≡ done t'
        → k' ≡ record_step t a k
        → t'.reads j ≡ reading p
        → Holding c j p h s k' t'

  holds :
      {c : Config} {j p : ℕ} {h : History T} {s : System T} {k : History T} {t : System T}
      → s.reads j ≡ reading p
      → Holding c j p h s k t
      → t.reads j ≡ reading p
  holds q here = q
  holds q (next w a ok e r q') = q'

  Holding-Inv :
      {c : Config} {j p : ℕ} {v : T} {h : History T} {s : System T} {k : History T} {t : System T}
      → (length h.calls < 2 ^ 64 → Inv c v h s)
      → Holding c j p h s k t
      → length k.calls < 2 ^ 64
      → Inv c v k t
  Holding-Inv inv here fits = inv fits
  Holding-Inv inv (next {k = k} {t = t} w a ok e r q) fits =
      step-Inv a ok e r fits (Holding-Inv inv w (omega (arith, calls-le k t a r)))

  calls-le-Holding :
      {c : Config} {j p : ℕ} {h : History T} {s : System T} {k : History T} {t : System T}
      → Holding c j p h s k t
      → length h.calls ≤ length k.calls
  calls-le-Holding here = omega arith
  calls-le-Holding (next {k = k} {t = t} w a ok e r q) =
      omega (arith, calls-le-Holding w, calls-le k t a r)

  Holding-keeps :
      {c : Config} {j p : ℕ} {v : T} {h : History T} {s : System T} {k : History T} {t : System T}
      → (length h.calls < 2 ^ 64 → Inv c v h s)
      → s.reads j ≡ reading p
      → Holding c j p h s k t
      → length k.calls < 2 ^ 64
      → t.heap p ≡ s.heap p
  Holding-keeps inv q here fits = refl
  Holding-keeps {c} {j} {p} inv q (next {k = k} {t = t} w a ok e r q') fits =
      let few : length k.calls < 2 ^ 64 = omega (arith, calls-le k t a r) in
      Stepped-keeps j p (step-Stepped c t a e) ok (Holding-Inv inv w few).memory (holds q w)
      ∙ Holding-keeps inv q w few

  -- Let thread `j` have just loaded `m_ptr`. For as long as it holds the pointer, through any steps
  -- of any threads, the object there is the initial one after the updates that were published at
  -- the load, as long as `update` was called fewer than 2^64 times.
  pub snapshot :
      {c : Config} {p₀ : ℕ} {v : T} {h : History T} {s : System T} {k : History T} {t : System T}
      {j : ℕ}
      → Reach c p₀ v h s
      → s.reads j ≡ reading s.ptr
      → Holding c j s.ptr h s k t
      → length k.calls < 2 ^ 64
      → t.heap s.ptr ≡ some (apply_all h.published v)
  snapshot r q w fits =
      Holding-keeps (Reach-Inv r) q w fits
      ∙ (Reach-Inv r (omega (arith, calls-le-Holding w))).values.visible

  -- There is an object at the pointer that a thread holds.
  pub held_lives :
      {c : Config} {p₀ : ℕ} {v : T} {h : History T} {s : System T} (j p : ℕ)
      → Reach c p₀ v h s
      → length h.calls < 2 ^ 64
      → s.reads j ≡ reading p
      → (u : T) × (s.heap p ≡ some u)
  held_lives {c} {s = s} j p r fits q =
      allocated-some (s.heap p) (omega (arith, (held_places j p (Reach-Inv r fits).memory q).2))

  -- A step leaves the object that a thread holds as it is.
  pub held_step :
      {c : Config} {p₀ : ℕ} {v : T} {h : History T} {s s' : System T} (a : Action T) (j p : ℕ)
      → Reach c p₀ v h s
      → length h.calls < 2 ^ 64
      → s.reads j ≡ reading p
      → Allocates s a
      → step c s a ≡ done s'
      → (u : T) × (s.heap p ≡ some u) × (s'.heap p ≡ some u)
  held_step {c} {s = s} a j p r fits q ok e =
      let (u, live) = held_lives j p r fits q in
      (u, live, Stepped-keeps j p (step-Stepped c s a e) ok (Reach-Inv r fits).memory q ∙ live)
