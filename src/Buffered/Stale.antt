-- ===== src/Buffered/Stale.antt =====
-- What a store that waits lets happen to a reader.

use writeboost_rcu.Common.{ℕ, Bool, true, false, update}
use writeboost_rcu.Rcu.{Config}
use writeboost_rcu.System as Wbrcu
use writeboost_rcu.System.{System, History, Reach}
use writeboost_rcu.Buffered.{
  BufferedPc, outside, locking, stored, ahead, BufferedSystem, read, call, write, begin, later,
}

-- Thread `i` after its load of `m_ptr`, with its store in the buffer.
waiting : ℕ → ℕ → ℕ → BufferedPc
waiting i p =
    update (update (update (λ _. outside) i (locking false)) i (stored false)) i (ahead false p)

module _ {T : Type 0} where
  -- Whether no step of a run of System.antt is a reader's.
  abbrev pub unread :
      {c : Config} {p₀ : ℕ} {v : T} {h : History T} {s : System T} → Reach c p₀ v h s → Bool
  unread Wbrcu.begin = true
  unread (Wbrcu.later r (Wbrcu.read i) ok e q) = false
  unread (Wbrcu.later r (Wbrcu.call i f) ok e q) = unread r
  unread (Wbrcu.later r (Wbrcu.write i fresh) ok e q) = unread r

  module _ (reads : ℕ → BufferedPc) where
    -- The same memory and the same updates, with other readers.
    over : System T → BufferedSystem T
    over s = record { rcu = s.rcu; reads = reads; writes = s.writes }
