-- ===== src/Task/PmuCan.antt =====
-- src/soem_wrapper/src/tasks/pmu_can.cpp: the power management unit. When it is offline, the static
-- message, which all tasks of the class share, keeps its last values. The constant 273.15f is the
-- float nearest to a quotient of integers, as a division of floats gives it.
use ecat_v2_master.Base.{ℕ, ◌+◌, pos, List, Option, some, ◌>>=◌, get_elem?, ◌==◌, if◌then◌else◌}
use ecat_v2_master.Float.{Float}
use ecat_v2_master.Io.Half.{Powers, read_float16}
use ecat_v2_master.Task.{TaskInfo}

pub record ReadCanPmu (R : Type 0) : Type 0 where
  pub stamp : ℕ
  pub online : ℕ
  pub temperature : R
  pub voltage : R
  pub current : R

module _ (fl : Float) (p : Powers fl) where
  open fl use {Real, of_int, sub, div}

  unfoldable pub publish_empty_message : ℕ → ReadCanPmu Real
  publish_empty_message now = record {
    stamp = now;
    online = 0;
    temperature = of_int (pos 0);
    voltage = of_int (pos 0);
    current = of_int (pos 0);
  }

  -- The values of a unit that is online
  unfoldable pub read_values : TaskInfo → ℕ → List ℕ → Option (ReadCanPmu Real)
  read_values t stamp buf = do
    (kelvin, c1) ← read_float16 fl p (record { bytes = buf; offset = t.pdoread_offset })
    (voltage, c2) ← read_float16 fl p c1
    (current, c3) ← read_float16 fl p c2
    some (record {
      stamp = stamp;
      online = 1;
      temperature = sub kelvin (div (of_int (pos 27315)) (of_int (pos 100)));
      voltage = voltage;
      current = current;
    })

  -- The message before is the last argument.
  unfoldable pub read : TaskInfo → ℕ → List ℕ → ReadCanPmu Real → Option (ReadCanPmu Real)
  unfolding read_values
  read t stamp buf last = get_elem? buf (t.pdoread_offset + 6) >>= λ flag.
      if flag == 0
      then some (record last { stamp = stamp; online = 0 })
      else read_values t stamp buf
