-- ===== src/Task/Pressure.antt =====
-- src/soem_wrapper/src/tasks/ms5837_30ba.cpp: the pressure sensor. When the sensor is offline, the
-- static message, which all tasks of the class share, keeps its last values. The numbers are
-- doubles, whose arithmetic is a parameter.
use ecat_v2_master.Base.{ℕ, ◌+◌, pos, List, Option, some, ◌>>=◌, get_elem?, ◌==◌, if◌then◌else◌}
use ecat_v2_master.Float.{Float}
use ecat_v2_master.Io.{read_int32}
use ecat_v2_master.Task.{TaskInfo}

pub record ReadMs5837Ba30 (R : Type 0) : Type 0 where
  pub stamp : ℕ
  pub online : ℕ
  pub temperature : R
  pub pressure : R

module _ (fl : Float) where
  open fl use {Real, of_int, div}

  unfoldable pub publish_empty_message : ℕ → ReadMs5837Ba30 Real
  publish_empty_message now = record {
    stamp = now;
    online = 0;
    temperature = of_int (pos 0);
    pressure = of_int (pos 0);
  }

  -- The values of a sensor that is online
  unfoldable pub read_values : TaskInfo → ℕ → List ℕ → Option (ReadMs5837Ba30 Real)
  read_values t stamp buf = do
    (temperature, c1) ← read_int32 (record { bytes = buf; offset = t.pdoread_offset })
    (pressure, c2) ← read_int32 c1
    some (record {
      stamp = stamp;
      online = 1;
      temperature = div (of_int temperature) (of_int (pos 100));
      pressure = div (of_int pressure) (of_int (pos 10));
    })

  -- The message before is the last argument.
  unfoldable pub read : TaskInfo → ℕ → List ℕ → ReadMs5837Ba30 Real → Option (ReadMs5837Ba30 Real)
  unfolding read_values
  read t stamp buf last = get_elem? buf (t.pdoread_offset + 8) >>= λ flag.
      if flag == 0
      then some (record last { stamp = stamp; online = 0 })
      else read_values t stamp buf
