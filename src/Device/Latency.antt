-- ===== src/Device/Latency.antt =====
-- The status that master and slave pass to and fro (`SlaveDevice::process_pdo`).
use ecat_v2_master.Base.{
  ℕ, ◌≤◌, ◌≡◌, ◌≢◌, List, [], some, arith, ◌==◌, ==_iff, Bool-cases, inl, inr,
}
use ecat_v2_master.Task.Class.{TaskClass}
use ecat_v2_master.Device.{SlaveDevice, Event, next_master_status, process_pdo}

module _ (C : TaskClass) where
  -- The status of a device that works, 5 after 250.
  pub record InStatus (d : SlaveDevice C.Task) : Type 0 where
    pub above : 3 ≤ d.master_status
    pub below : d.master_status ≤ 250

  pub next_master_status_lem :
      (m : ℕ)
      → 3 ≤ m
      → m ≤ 250
      → (4 ≤ next_master_status C m) × (next_master_status C m ≤ 250) × (next_master_status C m ≢ m)
  unfolding next_master_status
  next_master_status_lem m h k = ground arith

  process_pdo-ignored :
      (d : SlaveDevice C.Task) (t : ℕ) (s : C.Shared)
      → d.slave_status ≢ d.master_status
      → process_pdo C d t s ≡ some (d, s, [])
  unfolding process_pdo
  process_pdo-ignored d t s h = ground arith

  process_pdo-kept :
      (d : SlaveDevice C.Task) (t : ℕ) (s : C.Shared) {d' : SlaveDevice C.Task} {s' : C.Shared}
      {out : List (Event C.Message)}
      → d.slave_status ≢ d.master_status
      → process_pdo C d t s ≡ some (d', s', out)
      → d ≡ d'
  process_pdo-kept d t s h e = cc (e, process_pdo-ignored d t s h)

  process_pdo-answered :
      (d : SlaveDevice C.Task) (t : ℕ) (s : C.Shared) {d' : SlaveDevice C.Task} {s' : C.Shared}
      {out : List (Event C.Message)}
      → d.slave_status ≡ d.master_status
      → process_pdo C d t s ≡ some (d', s', out)
      → (d'.slave_status ≡ d.slave_status)
        × (d'.master_status ≡ next_master_status C d.master_status)
  unfolding process_pdo
  process_pdo-answered d t s same e = ground arith

  -- A working device has a status from 3 to 250. It stays there, and when process_pdo is called
  -- again before the slave has taken over the new status, nothing is published and nothing
  -- changes.
  pub process_pdo-once :
      (d : SlaveDevice C.Task) (t t' : ℕ) (s : C.Shared) {d' : SlaveDevice C.Task} {s' : C.Shared}
      {out : List (Event C.Message)}
      → InStatus d
      → process_pdo C d t s ≡ some (d', s', out)
      → InStatus d' × (process_pdo C d' t' s' ≡ some (d', s', []))
  process_pdo-once d t t' s {d'} {s'} v e = elim (Bool-cases (d.slave_status == d.master_status)) [
    | inl same ↦
        let (kept, new) = process_pdo-answered d t s ((==_iff _ _).0 same) e in
        let (least, most, changed) = next_master_status_lem d.master_status v.above v.below in
        (
          record { above = omega (arith, new, least); below = omega (arith, new, most) },
          process_pdo-ignored d' t' s' (ground (arith, kept, new, changed, same)),
        )
    | inr other ↦
        let kept = process_pdo-kept d t s (ground (arith, other)) e in
        (rw (← kept) v, rw (← kept) (process_pdo-ignored d t' s' (ground (arith, other))))
  ]
