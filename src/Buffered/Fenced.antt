-- ===== src/Buffered/Fenced.antt =====
-- Runs in which no reader loads `m_ptr` while its store waits, as a fence between the two would have it.
mod Simulation
mod Places
pub mod Runs
mod Tests
use writeboost_rcu.Common.{ℕ, ◌≡◌, List, [], ◌∷◌}
use writeboost_rcu.Rcu.{Config}
use writeboost_rcu.Threads.{done}
use writeboost_rcu.Buffered.{
  BufferedPc, stored, BufferedSystem, BufferedAction, read, call, buffered_step, buffered_start,
  Allocates,
}

abbrev pub Written : BufferedPc → Type 0
Written (stored e) = ⊥
Written _ = Unit {0}

module _ {T : Type 0} where
  -- The byte of a reader is written before it loads `m_ptr`.
  abbrev pub InOrder : BufferedSystem T → BufferedAction T → Type 0
  InOrder s (read i) = Written (s.reads i)
  InOrder s _ = Unit {0}

  abbrev pub asked : BufferedAction T → List (T → T) → List (T → T)
  asked (call i f) fs = f ∷ fs
  asked _ fs = fs

  -- The states that some such run leads to, with the calls of `update` on the way.
  pub data FencedReach (c : Config) (p₀ : ℕ) (v : T)
      : List (T → T) → BufferedSystem T → Type 0 where
    begin : FencedReach c p₀ v [] (buffered_start p₀ v)
    later :
        {fs gs : List (T → T)} {s s' : BufferedSystem T}
        → FencedReach c p₀ v fs s
        → (a : BufferedAction T) → Allocates s a
        → InOrder s a
        → buffered_step c s a ≡ done s'
        → gs ≡ asked a fs
        → FencedReach c p₀ v gs s'
