-- ===== src/System/Thrown/Stopped.antt =====
-- What an exception of a callback leaves: an `rcu_protected` that performs no update any more.
use mathlib.Core.List.{append_assoc}
use writeboost_rcu.Common.{
  ℕ, ◌+◌, ◌≤◌, ◌<◌, ◌^◌, ◌≡◌, ◌≢◌, refl, ap, sym, subst, ◌∙◌, Bool-cases, inl, inr, List, [], ◌∷◌,
  ◌++◌, ltb, ltb→lt, length, update, ℕ_discrete, arith,
}
use writeboost_rcu.Rcu.{Config, Rcu}
use writeboost_rcu.Rcu.Places.{places}
use writeboost_rcu.Threads.{
  Outcome, done, blocked, fault, WritePc, idle, enqueueing, call_step, write_step,
}
use writeboost_rcu.System.{System, Action, read, call, write, write_from}
use writeboost_rcu.System.Moves.{Stepped, reads, calls, writes, step-Stepped}
use writeboost_rcu.System.Registry.{is_updater, read_step-same}
use writeboost_rcu.System.Thrown.{
  ThrowAction, runs, throws, throw_from, throw_step, called_on, Onward, here, next,
}

module _ {T : Type 0} where
  -- Nobody is the updater, and the count is not zero, so nobody becomes it. `s` is where this began.
  pub record Stopped (c : Config) (s : System T) (n : ℕ) (t : System T) : Type 0 where
    pub heap : t.heap ≡ s.heap
    pub ptr : t.ptr ≡ s.ptr
    pub places : (q : ℕ) → places t.rcu q ≡ places s.rcu q
    pub pos : 0 < t.update_cnt
    pub few : t.update_cnt ≤ s.update_cnt + n
    pub queue : (late : List (T → T)) × (t.update_queue ≡ s.update_queue ++ late)
    pub nobody : (j : ℕ) → j < c.threads → is_updater (t.writes j) ≡ 0

  write_waits :
      (c : Config) (fresh : ℕ) (r : Rcu T) {r' : Rcu T} {pc' : WritePc T} (pc : WritePc T)
      → write_step c fresh r pc ≡ done (r', pc')
      → is_updater pc ≡ 0
      → (r'.heap ≡ r.heap)
        × (r'.ptr ≡ r.ptr)
        × ((q : ℕ) → places r' q ≡ places r q)
        × (r'.update_cnt ≡ r.update_cnt)
        × (is_updater pc' ≡ 0)
        × ((late : List (T → T)) × (r'.update_queue ≡ r.update_queue ++ late))
  unfolding write_step
  write_waits c fresh r idle e z = absurd (ground arith)
  write_waits c fresh r (enqueueing f) e z = (
    ground arith,
    ground arith,
    λ q. ground arith,
    ground arith,
    ground arith,
    (f ∷ [], ground arith),
  )
  write_waits c fresh r _ e z = absurd (omega arith)

  call_waits :
      (f : T → T) (r : Rcu T)
      → 0 < r.update_cnt
      → r.update_cnt + 1 < 2 ^ 64
      → ((call_step f r).0.heap ≡ r.heap)
        × ((call_step f r).0.ptr ≡ r.ptr)
        × ((q : ℕ) → places (call_step f r).0 q ≡ places r q)
        × ((call_step f r).0.update_cnt ≡ r.update_cnt + 1)
        × (is_updater (call_step f r).1 ≡ 0)
        × ((call_step f r).0.update_queue ≡ r.update_queue)
  unfolding call_step
  call_waits f r pos fits =
      (ground arith, ground arith, λ q. ground arith, ground arith, ground arith, ground arith)

  throw_waits :
      (r : Rcu T) (left : T) {z : Rcu T × WritePc T} (pc : WritePc T)
      → is_updater pc ≡ 0
      → throw_from r left pc ≢ done z
  unfolding throw_from
  throw_waits r left idle z e = ground arith
  throw_waits r left (enqueueing f) z e = ground arith
  throw_waits r left _ z e = absurd (omega arith)

  pub nobody_after :
      (c : Config) (u : ℕ → WritePc T) (i : ℕ) (pc : WritePc T)
      → is_updater pc ≡ 0
      → ((j : ℕ) → j < c.threads → j ≢ i → is_updater (u j) ≡ 0)
      → (j : ℕ) → j < c.threads
      → is_updater (update u i pc j) ≡ 0
  nobody_after c u i pc z others j below = elim (ℕ_discrete i j) [
    | yes same ↦ ground arith
    | no apart ↦ ground (arith, others j below (λ e. apart (sym e)))
  ]

  grown :
      (xs late more : List (T → T)) {ys zs : List (T → T)}
      → ys ≡ xs ++ late
      → zs ≡ ys ++ more
      → (later : List (T → T)) × (zs ≡ xs ++ later)
  grown xs late more p q = (late ++ more, q ∙ ap (λ l. l ++ more) p ∙ append_assoc xs late more)

  thrown_waits :
      (c : Config) (t : System T) (i : ℕ) (left : T) {t' : System T}
      (o : Outcome (Rcu T × WritePc T))
      → throw_from t.rcu left (t.writes i) ≡ o
      → is_updater (t.writes i) ≡ 0
      → write_from c t i 0 o ≢ done t'
  unfolding write_from
  thrown_waits c t i left (done z) q waits e = throw_waits t.rcu left {z = z} (t.writes i) waits q
  thrown_waits c t i left blocked q waits e = ground arith
  thrown_waits c t i left fault q waits e = ground arith

  called_on-longer : (a : ThrowAction T) (fs : List (T → T)) → length fs ≤ length (called_on a fs)
  called_on-longer (runs (read i)) fs = omega arith
  called_on-longer (runs (call i f)) fs = omega arith
  called_on-longer (runs (write i fresh)) fs = omega arith
  called_on-longer (throws i left) fs = omega arith

  module _ {c : Config} {s : System T} where
    Stepped-Stopped :
        {t t' : System T} {a : Action T} (fs : List (T → T))
        → Stepped c t a t'
        → s.update_cnt + length (called_on (runs a) fs) < 2 ^ 64
        → Stopped c s (length fs) t
        → Stopped c s (length (called_on (runs a) fs)) t'
    Stepped-Stopped {t} fs (reads i lt) fits m =
        let (counters, same) = read_step-same i t.rcu (t.reads i) in
        record {
          heap = ap (λ (r : Rcu T). r.heap) same ∙ m.heap;
          ptr = ap (λ (r : Rcu T). r.ptr) same ∙ m.ptr;
          places = λ q. ap (λ (r : Rcu T). places r q) same ∙ m.places q;
          pos = ground (arith, same, m.pos);
          few = ground (arith, same, m.few);
          queue = (m.queue.0, ap (λ (r : Rcu T). r.update_queue) same ∙ m.queue.1);
          nobody = m.nobody;
        }
    Stepped-Stopped {t} fs (calls i f lt e) fits m =
        let (heap, ptr, at, cnt, waits, queue) = call_waits f t.rcu m.pos (omega (arith, m.few)) in
        record {
          heap = heap ∙ m.heap;
          ptr = ptr ∙ m.ptr;
          places = λ q. at q ∙ m.places q;
          pos = omega (arith, cnt);
          few = omega (arith, cnt, m.few);
          queue = (m.queue.0, queue ∙ m.queue.1);
          nobody = nobody_after c t.writes i _ waits (λ j below apart. m.nobody j below);
        }
    Stepped-Stopped {t} fs (writes i fresh lt {r = r} {pc = pc} e) fits m =
        let (heap, ptr, at, cnt, waits, (more, queue)) =
          write_waits c fresh t.rcu {r' = r} {pc' = pc} (t.writes i) e (m.nobody i lt) in
        record {
          heap = heap ∙ m.heap;
          ptr = ptr ∙ m.ptr;
          places = λ q. at q ∙ m.places q;
          pos = omega (arith, cnt, m.pos);
          few = omega (arith, cnt, m.few);
          queue = grown s.update_queue m.queue.0 more m.queue.1 queue;
          nobody = nobody_after c t.writes i pc waits (λ j below apart. m.nobody j below);
        }

    step-Stopped :
        (a : ThrowAction T) {t t' : System T} (fs : List (T → T))
        → throw_step c t a ≡ done t'
        → s.update_cnt + length (called_on a fs) < 2 ^ 64
        → Stopped c s (length fs) t
        → Stopped c s (length (called_on a fs)) t'
    unfolding throw_step
    step-Stopped (runs a) {t} fs e fits m = Stepped-Stopped fs (step-Stepped c t a e) fits m
    step-Stopped (throws i left) {t} {t'} fs e fits m = elim (Bool-cases (ltb i c.threads)) [
      | inl h ↦
          absurd
            (thrown_waits c t i left {t' = t'} _ refl (m.nobody i (ltb→lt _ _ h)) (ground arith))
      | inr h ↦ absurd (ground arith)
    ]

    pub Onward-Stopped :
        {fs : List (T → T)} {t : System T}
        → Stopped c s 0 s
        → Onward c s fs t
        → s.update_cnt + length fs < 2 ^ 64
        → Stopped c s (length fs) t
    Onward-Stopped m here fits = m
    Onward-Stopped m (next {fs = fs} {t' = t'} w a e q) fits =
        let longer : s.update_cnt + length (called_on a fs) < 2 ^ 64 =
          subst (λ gs. s.update_cnt + length gs < 2 ^ 64) q fits in
        let before = Onward-Stopped m w (omega (arith, called_on-longer a fs)) in
        subst (λ gs. Stopped c s (length gs) t') (sym q) (step-Stopped a fs e longer before)
