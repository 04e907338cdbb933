-- ===== src/Device/Safety.antt =====
-- That no access is out of bounds: what must hold of a slave device, and chains of steps that keep
-- it.
pub mod Sending
pub mod Tasks
pub mod Losing
pub mod Setup
use ecat_v2_master.Base.{
  ℕ, ◌+◌, ◌^◌, ◌≤◌, ◌<◌, ◌≡◌, refl, Bool, true, false, List, Option, none, some, length, All, Runs,
  ◌>>=◌, when, if◌then◌else◌,
}
use ecat_v2_master.Task.Class.{TaskClass}
use ecat_v2_master.Device.{SlaveDevice}

module _ (C : TaskClass) where
  open C use {Task, Shared}

  -- A task that works on an image of `out` bytes and an input of `inp` bytes without leaving them
  pub record Fits (out inp : ℕ) (t : Task) : Type 0 where
    pub writes : (buf : List ℕ) → length buf ≡ out → Runs (λ b. Unit {0}) (C.init_value t buf)
    pub reads :
        (stamp : ℕ) (buf : List ℕ) (s : Shared)
        → length buf ≡ inp
        → Runs (λ r. Unit {0}) (C.read t stamp buf s)

module _ (C : TaskClass) (outs ins : ℕ) where
  open C use {Task}

  -- Both images have their registered sizes, `outs` and `ins`, of three bytes at least, the transfer stands inside
  -- the arguments, which are at most 65535, and the tasks fit.
  pub record Sizes (out : List ℕ) (out_len : ℕ) (inp : List ℕ) (in_len : ℕ) (args : List ℕ)
      (args_len idx : ℕ) (ts : List Task) : Type 0 where
    pub out_is : out_len ≡ outs
    pub in_is : in_len ≡ ins
    pub out_size : length out ≡ out_len
    pub in_size : length inp ≡ in_len
    pub out_room : 3 ≤ out_len
    pub in_room : 3 ≤ in_len
    pub arg_size : args_len ≡ length args
    pub arg_fits : args_len < 2 ^ 16
    pub idx_pos : 1 ≤ idx
    pub idx_le : idx ≤ args_len
    pub tasks : All (Fits C out_len in_len) ts

  abbrev pub IsSound : SlaveDevice Task → Type 0
  IsSound d =
      Sizes d.master_to_slave_buf d.master_to_slave_buf_len d.slave_to_master_buf
        d.slave_to_master_buf_len d.arg_buf d.arg_buf_len d.sending_arg_buf_idx d.task_list

  pub with_out :
      (d : SlaveDevice Task) (buf : List ℕ)
      → IsSound d
      → length buf ≡ d.master_to_slave_buf_len
      → IsSound (record d { master_to_slave_buf = buf })
  with_out d buf v h = record {
    out_is = v.out_is;
    in_is = v.in_is;
    out_size = h;
    in_size = v.in_size;
    out_room = v.out_room;
    in_room = v.in_room;
    arg_size = v.arg_size;
    arg_fits = v.arg_fits;
    idx_pos = v.idx_pos;
    idx_le = v.idx_le;
    tasks = v.tasks;
  }

  pub with_in :
      (d : SlaveDevice Task) (status : ℕ) (buf : List ℕ)
      → IsSound d
      → length buf ≡ d.slave_to_master_buf_len
      → IsSound (record d { slave_status = status; slave_to_master_buf = buf })
  with_in d status buf v h = record {
    out_is = v.out_is;
    in_is = v.in_is;
    out_size = v.out_size;
    in_size = h;
    out_room = v.out_room;
    in_room = v.in_room;
    arg_size = v.arg_size;
    arg_fits = v.arg_fits;
    idx_pos = v.idx_pos;
    idx_le = v.idx_le;
    tasks = v.tasks;
  }

  pub with_idx :
      (d : SlaveDevice Task) (i : ℕ)
      → IsSound d
      → 1 ≤ i
      → i ≤ d.arg_buf_len
      → IsSound (record d { sending_arg_buf_idx = i })
  with_idx d i v h k = record {
    out_is = v.out_is;
    in_is = v.in_is;
    out_size = v.out_size;
    in_size = v.in_size;
    out_room = v.out_room;
    in_room = v.in_room;
    arg_size = v.arg_size;
    arg_fits = v.arg_fits;
    idx_pos = h;
    idx_le = k;
    tasks = v.tasks;
  }
