-- ===== src/Device/Safety/Setup.antt =====
-- What makes a device sound: motor tasks with room in both images, and `SlaveDevice::init`, which
-- the configuration hook runs.
use ecat_v2_master.Base.{
  ℕ, ◌%◌, ◌^◌, ◌+◌, ◌≤◌, ◌≡◌, refl, sym, ◌∙◌, not, ◌&&◌, Option, none, some, arith,
  length-replicate, Runs-bind, either, ◌==◌, if◌then◌else◌,
}
use ecat_v2_master.Task.Class.{TaskClass}
use ecat_v2_master.Task.DjiMotor.{DjiMotor, init_value, read}
use ecat_v2_master.Task.DjiMotor.Instance.{dji_motors}
use ecat_v2_master.Task.Quad.Room.{read-Runs, init_value-Runs}
use ecat_v2_master.Device.{SlaveDevice, master_ready, master_sending_arguments}
use ecat_v2_master.Device.Safety.{Fits, IsSound}
use ecat_v2_master.Device.Init.{Answers, lt_int, init, configure, clear_bufs}

-- A DJI motor task with twelve bytes of room in the output and 36 in the input
pub dji_motor-Fits :
    (t : DjiMotor) (outs ins : ℕ)
    → t.info.pdowrite_offset + 12 ≤ outs
    → t.info.pdoread_offset + 36 ≤ ins
    → Fits dji_motors outs ins t
unfolding init_value read
dji_motor-Fits t outs ins h k = record {
  writes = λ buf e. init_value-Runs t.info.pdowrite_offset buf (omega (arith, e, h));
  reads = λ stamp buf s e.
      Runs-bind (λ r. Unit) (λ r. Unit) (read t stamp buf) _
        (read-Runs t.is_motor_enabled t.info.pdoread_offset stamp buf (omega (arith, e, k)))
        λ r u. (_, refl, tt);
}

module _ (C : TaskClass) (outs ins : ℕ) where
  open C use {Task}

  abbrev Kept : SlaveDevice Task × ℕ → Type 0
  Kept (d, result) = IsSound C outs ins d

  clear_bufs-IsSound :
      (a : Answers) (d : SlaveDevice Task)
      → a.master_to_slave_buf_len ≡ outs
      → a.slave_to_master_buf_len ≡ ins
      → IsSound C outs ins d
      → IsSound C outs ins (clear_bufs a d)
  unfolding clear_bufs
  clear_bufs-IsSound a d h k v = record {
    out_is = h;
    in_is = k;
    out_size = length-replicate {A = ℕ} a.master_to_slave_buf_len 0;
    in_size = length-replicate {A = ℕ} a.slave_to_master_buf_len 0;
    out_room = omega (arith, h, v.out_room, v.out_is);
    in_room = omega (arith, k, v.in_room, v.in_is);
    arg_size = v.arg_size;
    arg_fits = v.arg_fits;
    idx_pos = v.idx_pos;
    idx_le = v.idx_le;
    tasks = rw (h ∙ sym v.out_is, k ∙ sym v.in_is) v.tasks;
  }

  configure-IsSound :
      (old_sn : ℕ) (a : Answers) (o : Option ℕ) (d : SlaveDevice Task)
      → a.master_to_slave_buf_len ≡ outs
      → a.slave_to_master_buf_len ≡ ins
      → IsSound C outs ins d
      → Kept (configure old_sn a o d)
  unfolding configure
  configure-IsSound old_sn a none d h k v = v
  configure-IsSound old_sn a (some len) d h k v =
      let d1 : SlaveDevice Task = record d {
        device_type = a.eep_id % 2 ^ 8;
        master_status = if len == 0 then master_ready else master_sending_arguments;
      } in
      either (λ d. IsSound C outs ins d) (old_sn == 0) (clear_bufs a d1) d1
        (clear_bufs-IsSound a d1 h k v) v

  -- `init` keeps a device sound when the registered sizes are those of the images.
  pub init-IsSound :
      (a : Answers) (d : SlaveDevice Task)
      → a.master_to_slave_buf_len ≡ outs
      → a.slave_to_master_buf_len ≡ ins
      → IsSound C outs ins d
      → IsSound C outs ins (init a d).0
  unfolding init
  init-IsSound a d h k v = either Kept (not (d.sn == 0) && not (d.sn == a.sn)) _ _ v (
      either Kept (lt_int a.sw_rev a.min_sw_rev) _ _ v (configure-IsSound d.sn a a.sdo_len _ h k v))
