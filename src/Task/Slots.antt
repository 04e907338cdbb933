-- ===== src/Task/Slots.antt =====
-- A driver's chain of writes as one list of bytes, put at the task's offset.
use ecat_v2_master.Base.{ℕ, ◌+◌, ◌≤◌, ◌<◌, ◌≡◌, List, none, some, length}
use ecat_v2_master.Io.Splice.{splice}
use ecat_v2_master.Io.Writing.{write_all, write_all-splice, write_all-overflow}
use ecat_v2_master.Task.{write_at}

module _ (bs buf : List ℕ) (start : ℕ) where
  pub write_at-splice :
      start + length bs ≤ length buf
      → write_at start (write_all bs) buf ≡ some (splice start bs buf)
  write_at-splice h = rw (write_all-splice bs buf start h)

  pub write_at-overflow :
      start ≤ length buf → length buf < start + length bs → write_at start (write_all bs) buf ≡ none
  write_at-overflow h k = rw (write_all-overflow bs buf start h k)
