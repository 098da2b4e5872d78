-- ===== src/FollyRcu/Invariant.antt =====
-- Who may use which address of `follyrcu_protected`.
use writeboost_rcu.Common.{
  ℕ, ◌+◌, ◌<◌, ◌≡◌, ◌≢◌, subst, Bool, true, some, ◌==◌, bit, update, total, total_unique,
  ℕ_discrete, arith,
}
use writeboost_rcu.Heap.{Heap, allocated}
use writeboost_rcu.FollyRcu.{
  GetPtrPc, outside, entered, holding, UpdatePc, idle, locking, invoking, exchanging, unlocking,
  retiring, FollyRcu, FollySystem,
}
use writeboost_rcu.FollyRcu.Retirement.{Domain}

module _ {T : Type 0} where
  -- 1 if the thread holds `mut_`.
  abbrev pub critical : UpdatePc T → ℕ
  critical idle = 0
  critical (locking f) = 0
  critical (retiring old) = 0
  critical _ = 1

  -- 1 if the thread alone knows `p`, its copy.
  abbrev pub private : ℕ → UpdatePc T → ℕ
  private p (invoking f q) = bit (p == q)
  private p (exchanging f q) = bit (p == q)
  private p _ = 0

  -- 1 if the thread took `p` out of `ptr_` and has not retired it.
  abbrev pub outgoing : ℕ → UpdatePc T → ℕ
  outgoing p (unlocking old) = bit (p == old)
  outgoing p (retiring old) = bit (p == old)
  outgoing p _ = 0

  -- What the copy of a thread holds, where `w` is the object that is published.
  abbrev pub CopyOk : Heap T → T → UpdatePc T → Type 0
  CopyOk h w (invoking f p) = h p ≡ some w
  CopyOk h w (exchanging f p) = h p ≡ some (f w)
  CopyOk h w pc = Unit {0}

  -- The object that is published after a step.
  abbrev pub next_value : UpdatePc T → T → T
  next_value (exchanging f p) w = f w
  next_value _ w = w

module _ {State T : Type 0} (d : Domain State) where
  -- Why the object of a reader lives: it is published, or about to be retired, or waits for the
  -- reader.
  abbrev pub HeldOk : FollyRcu State T → (ℕ → ℕ) → ℕ → GetPtrPc → Type 0
  HeldOk r out j outside = Unit {0}
  HeldOk r out j entered = d.inside r.domain j ≡ true
  HeldOk r out j (holding p) =
      (d.inside r.domain j ≡ true) × (0 < bit (p == r.ptr) + out p + bit (d.waits r.domain j p))

  pub record Inv (n : ℕ) (w : T) (s : FollySystem State T) : Type 0 where
    pub owned :
        (p : ℕ)
        → bit (p == s.ptr)
            + total (private p) n s.updates
            + total (outgoing p) n s.updates
            + d.retired s.domain p
          ≡ allocated (s.heap p)
    pub mutex : total critical n s.updates ≡ bit s.is_locked
    pub value : s.heap s.ptr ≡ some w
    pub copies : (i : ℕ) → i < n → CopyOk s.heap w (s.updates i)
    pub held : (j : ℕ) → HeldOk s.rcu (λ p. total (outgoing p) n s.updates) j (s.reads j)

module _ {T : Type 0} where
  CopyOk-free : (h : Heap T) (w : T) (pc : UpdatePc T) → critical pc ≡ 0 → CopyOk h w pc
  CopyOk-free h w (invoking f p) z = absurd (ground arith)
  CopyOk-free h w (exchanging f p) z = absurd (ground arith)
  CopyOk-free h w _ z = tt

  -- What a step of one thread makes of the copies, for the threads that it leaves where they are.
  pub copies_after :
      (n i : ℕ) (u : ℕ → UpdatePc T) (h : Heap T) (w : T) (pc : UpdatePc T)
      → CopyOk h w pc
      → ((k : ℕ) → k < n → i ≢ k → CopyOk h w (u k))
      → (k : ℕ) → k < n
      → CopyOk h w (update u i pc k)
  copies_after n i u h w pc ok others k below = elim (ℕ_discrete i k) [
    | yes same ↦ let eq : pc ≡ update u i pc k = ground arith in subst (CopyOk h w) eq ok
    | no apart ↦
        let eq : u k ≡ update u i pc k = ground arith in
        subst (CopyOk h w) eq (others k below apart)
  ]

  -- Where one thread holds `mut_`, no other one has a copy.
  pub copies-critical :
      (n i : ℕ) (u : ℕ → UpdatePc T) (l : Bool) (h : Heap T) (w : T) (pc : UpdatePc T)
      → i < n
      → total critical n u ≡ bit l
      → critical (u i) ≡ 1
      → CopyOk h w pc
      → (k : ℕ) → k < n
      → CopyOk h w (update u i pc k)
  copies-critical n i u l h w pc lt m c ok = copies_after n i u h w pc ok (λ k below apart.
      CopyOk-free h w (u k) (elim (ℕ_discrete (critical (u k)) 0) [
        | yes z ↦ z
        | no more ↦ absurd (
            apart
              (total_unique critical n u i k lt below (ground arith) (omega arith) (omega arith)))
      ]))

module _ {State T : Type 0} (d : Domain State) where
  -- Why a reader's object still lives after a step.
  pub HeldOk-keeps :
      (r r' : FollyRcu State T) (out out' : ℕ → ℕ) (j : ℕ) (pc : GetPtrPc)
      → (d.inside r.domain j ≡ true → d.inside r'.domain j ≡ true)
      → ((p : ℕ)
          → d.inside r.domain j ≡ true
          → 0 < bit (p == r.ptr) + out p + bit (d.waits r.domain j p)
          → 0 < bit (p == r'.ptr) + out' p + bit (d.waits r'.domain j p))
      → HeldOk d r out j pc
      → HeldOk d r' out' j pc
  HeldOk-keeps r r' out out' j outside stays lives h = tt
  HeldOk-keeps r r' out out' j entered stays lives h = stays h
  HeldOk-keeps r r' out out' j (holding p) stays lives (inside, live) =
      (stays inside, lives p inside live)
