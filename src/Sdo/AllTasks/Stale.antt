-- ===== src/Sdo/AllTasks/Stale.antt =====
-- The static messages: what a task publishes that is offline.
use ecat_v2_master.Base.{
  ℕ, ◌+◌, ◌≡◌, sym, ap, ◌∙◌, List, [], ◌∷◌, Option, some, >>=-eq-some, get_elem?,
}
use ecat_v2_master.Float.{Float}
use ecat_v2_master.Io.Half.{Powers}
use ecat_v2_master.Task.{TaskInfo}
use ecat_v2_master.Task.Pressure
use ecat_v2_master.Task.Pressure.{ReadMs5837Ba30}
use ecat_v2_master.Sdo.TaskList.{ms5837_30ba}
use ecat_v2_master.Sdo.AllTasks.{AnyMessage, read_ms5837, Statics, read}

module _ (fl : Float) (p : Powers fl) (of_bits : ℕ → fl.Real) where
  open fl use {Real}

  -- When a pressure sensor has published a message and another one then reports that it is
  -- offline, the message that is published for the other is the first one's with its own time and
  -- the offline flag.
  pub read-stale :
      (t t' : TaskInfo) (stamp stamp' : ℕ) (buf buf' : List ℕ) (s : Statics Real)
      {s1 : Statics Real} (m : ReadMs5837Ba30 Real)
      → read fl p of_bits (ms5837_30ba t) stamp buf s ≡ some (s1, read_ms5837 m ∷ [])
      → get_elem? buf' (t'.pdoread_offset + 8) ≡ some 0
      → read fl p of_bits (ms5837_30ba t') stamp' buf' s1
        ≡ some (
          record s1 { ms5837 = record m { stamp = stamp'; online = 0 } },
          read_ms5837 (record m { stamp = stamp'; online = 0 }) ∷ [],
        )
  unfolding read Pressure.read
  read-stale t t' stamp stamp' buf buf' s {s1} m e off =
      let (m', q, r) = >>=-eq-some (Pressure.read fl t stamp buf s.ms5837) _ e in
      published t' stamp' s1 buf' (kept s s1 r) off
    where
      kept :
          (s s1 : Statics Real) {m m' : ReadMs5837Ba30 Real}
          → ◌≡◌ {A = Option (Statics Real × List (AnyMessage Real))}
              (some (record s { ms5837 = m' }, read_ms5837 m' ∷ []))
              (some (s1, read_ms5837 m ∷ []))
          → s1.ms5837 ≡ m
      kept s s1 {m} {m'} r =
          let same : record s { ms5837 = m' } ≡ s1 = cc r in
          let like : m' ≡ m = cc r in sym (ap (λ (x : Statics Real). x.ms5837) same) ∙ like

      published :
          (t' : TaskInfo) (stamp' : ℕ) (s1 : Statics Real) (buf' : List ℕ) {m : ReadMs5837Ba30 Real}
          → s1.ms5837 ≡ m
          → get_elem? buf' (t'.pdoread_offset + 8) ≡ some 0
          → read fl p of_bits (ms5837_30ba t') stamp' buf' s1
            ≡ some (
              record s1 { ms5837 = record m { stamp = stamp'; online = 0 } },
              read_ms5837 (record m { stamp = stamp'; online = 0 }) ∷ [],
            )
      published t' stamp' s1 buf' e off = rw off (
          ap
            (λ (x : ReadMs5837Ba30 Real). some (
              record s1 { ms5837 = record x { stamp = stamp'; online = 0 } },
              read_ms5837 (record x { stamp = stamp'; online = 0 }) ∷ [],
            ))
            e)
