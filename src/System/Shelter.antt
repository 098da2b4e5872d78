-- ===== src/System/Shelter.antt =====
-- Why a pointer that a reader holds is not reclaimed: `m_ptr` or a retire list that the reader's
-- byte keeps holds it.
use writeboost_rcu.Common.{ℕ, ◌+◌, ◌<◌, ◌≡◌, ◌⊎◌, not, if◌then◌else◌, ◌==◌, count, bit, arith}
use writeboost_rcu.Readers.{reading_of}
use writeboost_rcu.Rcu.{Config, Rcu}
use writeboost_rcu.Threads.{
  done, ReadPc, outside, locking, locked, reading, WritePc, idle, scanning, reclaiming, flipping,
  write_step,
}
use writeboost_rcu.System.Ownership.{outgoing}

-- The byte of a thread, by where the thread stands.
abbrev pub ByteOk : ReadPc → ℕ → Type 0
ByteOk outside byte = byte ≡ 0
ByteOk (locking e) byte = byte ≡ 0
ByteOk locked byte = (byte ≡ 1) ⊎ (byte ≡ 3)
ByteOk (reading p) byte = (byte ≡ 1) ⊎ (byte ≡ 3)

module _ {T : Type 0} where
  -- How often `p` stands in `m_ptr` or in a list that a reader with this byte protects: that of the
  -- current epoch, and for a reader of the previous epoch that one too.
  abbrev pub shelter : Rcu T → ℕ → ℕ → ℕ
  shelter r byte p =
      bit (p == r.ptr)
      + count p (r.retire_lists r.epoch)
      + (if byte == reading_of (bit (not r.epoch))
          then count p (r.retire_lists (not r.epoch))
          else 0)

  -- How many threads the scan of `retire` has passed, until the epoch changes.
  abbrev pub passed : ℕ → WritePc T → ℕ
  passed n (scanning k fin cnt) = k
  passed n (reclaiming fin cnt) = n
  passed n (flipping fin cnt) = n
  passed n _ = 0

  module _ (c : Config) (fresh : ℕ) (r : Rcu T) {r' : Rcu T} {pc' : WritePc T} (j p z z' : ℕ)
      (byte : (r.counters j ≡ 1) ⊎ (r.counters j ≡ 3)) (inside : j < c.threads) where
    -- A reader that the scan has passed and that reads in the previous epoch came later, and holds
    -- what `m_ptr` holds.
    pub write-shelter :
        (pc : WritePc T)
        → write_step c fresh r pc ≡ done (r', pc')
        → z' + outgoing p pc ≡ z + outgoing p pc'
        → (j < passed c.threads pc → r.counters j ≡ reading_of (bit (not r.epoch)) → p ≡ r.ptr)
        → 0 < shelter r (r.counters j) p + z
        → 0 < shelter r' (r'.counters j) p + z'
    unfolding write_step
    write-shelter idle e a late h = ground arith
    write-shelter (reclaiming fin cnt) e a late h = ground (arith, late inside)
    write-shelter (flipping fin cnt) e a late h = ground (arith, late inside)
    write-shelter _ e a late h = ground arith

    pub write-late :
        (pc : WritePc T)
        → write_step c fresh r pc ≡ done (r', pc')
        → (j < passed c.threads pc → r.counters j ≡ reading_of (bit (not r.epoch)) → p ≡ r.ptr)
        → j < passed c.threads pc'
        → r'.counters j ≡ reading_of (bit (not r'.epoch))
        → p ≡ r'.ptr
    unfolding write_step
    write-late idle e late h b = ground arith
    write-late (scanning k fin cnt) e late h b = ground (arith, late)
    write-late (reclaiming fin cnt) e late h b = ground (arith, late)
    write-late _ e late h b = ground arith
