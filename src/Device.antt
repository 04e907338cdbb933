-- ===== src/Device.antt =====
-- src/soem_wrapper/include/soem_wrapper/wrapper.hpp and src/soem_wrapper/src/soem_backend.cpp: a
-- slave device. A method returns the new device; `none` is undefined behaviour. The two PDO
-- buffers are given by their storage: the source resizes each vector, clears it, and goes on to
-- use the storage that is left. Times are numbers; log output, the mutex and the latency
-- publisher's life are left out.
pub mod Args
pub mod Delivery
pub mod Recovery
pub mod Progress
pub mod Latency
pub mod Init
pub mod Lost
pub mod Safety
use ecat_v2_master.Base.{
  ℕ, zero, suc, ◌+◌, ◌-◌, ◌%◌, ◌^◌, ◌≡◌, ℤ, sub_ℕ, Bool, true, false, not, ◌&&◌, List, [], ◌∷◌,
  ◌++◌, Option, none, some, length, get_elem?, replicate, ◌>>=◌, when, ◌>>>◌, ◌<<<◌, low_bits,
  bit_or, ltb, leb, ◌==◌, if◌then◌else◌,
}
use ecat_v2_master.Io.{memcpy}
use ecat_v2_master.Task.Class.{TaskClass}

abbrev pub slave_initializing : ℕ
slave_initializing = 1

abbrev pub slave_ready : ℕ
slave_ready = 2

abbrev pub slave_confirm_ready : ℕ
slave_confirm_ready = 3

abbrev pub master_sending_arguments : ℕ
master_sending_arguments = 2

abbrev pub master_ready : ℕ
master_ready = 3

pub record SlaveDevice (T : Type 0) : Type 0 where
  pub index : ℕ
  pub sw_rev : ℤ
  pub sn : ℕ
  pub device_type : ℕ
  pub is_sw_rev_check_passed : Bool
  pub is_recover_rejected : Bool
  pub is_ready : Bool
  pub last_latency_check_packet_send_time : ℕ
  pub current_data_stamp : ℕ
  pub master_status : ℕ
  pub master_to_slave_buf : List ℕ
  pub master_to_slave_buf_backup : List ℕ
  pub master_to_slave_buf_len : ℕ
  pub slave_status : ℕ
  pub slave_to_master_buf : List ℕ
  pub slave_to_master_buf_len : ℕ
  pub arg_buf : List ℕ
  pub arg_buf_len : ℕ
  pub sending_arg_buf_idx : ℕ
  pub is_arg_sent : Bool
  pub is_ecat_conf_done : Bool
  pub is_conf_ros_done : Bool
  pub reconnected_times : ℕ
  pub task_list : List T

-- The first `n` bytes; fewer are undefined.
unfoldable pub first : ℕ → List ℕ → Option (List ℕ)
first zero xs = some []
first (suc n) [] = none
first (suc n) (x ∷ xs) = first n xs >>= λ ys. some (x ∷ ys)

module _ {T : Type 0} where
  -- The image in `ec_slave[index_].outputs`: the status, then the buffer.
  unfoldable pub transfer_to_slave : SlaveDevice T → List ℕ → Option (List ℕ)
  transfer_to_slave d outputs = memcpy outputs 0 (d.master_status ∷ []) >>= λ o.
      first d.master_to_slave_buf_len d.master_to_slave_buf >>= memcpy o 1

  unfoldable pub receive_from_slave : SlaveDevice T → ℕ → List ℕ → Option (SlaveDevice T)
  receive_from_slave d status inputs =
      first d.slave_to_master_buf_len inputs >>= memcpy d.slave_to_master_buf 0 >>= λ buf.
      some (record d { slave_status = status; slave_to_master_buf = buf })

  -- arg_buf_[sending_arg_buf_idx_ - 1], where the subtraction is of ints
  pub arg_byte : SlaveDevice T → Option ℕ
  arg_byte d =
      if d.sending_arg_buf_idx == 0 then none else get_elem? d.arg_buf (d.sending_arg_buf_idx - 1)

  -- Whether the slave has sent back the index and the byte that are being sent.
  pub echoed : SlaveDevice T → Option Bool
  unfolding arg_byte
  echoed d = do
    b0 ← get_elem? d.slave_to_master_buf 0
    b1 ← get_elem? d.slave_to_master_buf 1
    if bit_or (b1 <<< 8) b0 == d.sending_arg_buf_idx
        then (do b2 ← get_elem? d.slave_to_master_buf 2; a ← arg_byte d; some (b2 == a))
        else some false

  advance : Bool → SlaveDevice T → SlaveDevice T
  advance false d = d
  advance true d =
      if d.sending_arg_buf_idx == d.arg_buf_len
      then record d { is_arg_sent = true }
      else record d { sending_arg_buf_idx = (d.sending_arg_buf_idx + 1) % 2 ^ 16 }

  pub send_current : SlaveDevice T → Option (SlaveDevice T)
  unfolding arg_byte
  send_current d = do
    a ← arg_byte d
    let idx = d.sending_arg_buf_idx
    buf ← memcpy d.master_to_slave_buf 0 (low_bits idx 8 ∷ low_bits (idx >>> 8) 8 ∷ a ∷ [])
    some (record d { master_to_slave_buf = buf })

  unfoldable pub send_arg : SlaveDevice T → Option (SlaveDevice T)
  unfolding echoed advance send_current
  send_arg d = echoed d >>= λ confirmed.
      when (not (advance confirmed d).is_arg_sent) send_current (advance confirmed d)

  unfoldable pub recover_master_to_slave_buf : SlaveDevice T → Option (SlaveDevice T)
  recover_master_to_slave_buf d =
      if length d.master_to_slave_buf_backup == d.master_to_slave_buf_len
      then (memcpy d.master_to_slave_buf 0 d.master_to_slave_buf_backup >>= λ buf.
          some (record d { master_to_slave_buf = buf }))
      else some d

  unfoldable pub pre_recover : SlaveDevice T → SlaveDevice T
  pre_recover d = record d {
    is_arg_sent = false;
    sending_arg_buf_idx = 1;
    reconnected_times = (d.reconnected_times + 1) % 2 ^ 8;
    is_conf_ros_done = true;
  }

  unfoldable pub reset_state : SlaveDevice T → SlaveDevice T
  reset_state d = record d {
    is_ready = false;
    is_conf_ros_done = false;
    slave_status = slave_initializing;
  }

  unfoldable pub recover_state : SlaveDevice T → SlaveDevice T
  recover_state d = record d { is_ready = true; is_conf_ros_done = true }

  -- The backup is cleared, resized with zeros, and filled.
  unfoldable pub backup_master_to_slave_buf : SlaveDevice T → Option (SlaveDevice T)
  backup_master_to_slave_buf d =
      first d.master_to_slave_buf_len d.master_to_slave_buf
      >>= memcpy (replicate d.master_to_slave_buf_len 0) 0
      >>= λ backup. some (record d { master_to_slave_buf_backup = backup })

-- What a method publishes: the time between sending and receiving, and the tasks' messages.
pub data Event (M : Type 0) : Type 0 where
  latency : ℤ → Event M
  report : M → Event M

abbrev pub reports : {M : Type 0} → List M → List (Event M)
reports [] = []
reports (m ∷ ms) = report m ∷ reports ms

module _ (C : TaskClass) where
  open C use {Task, Shared, Message}

  -- for (task : task_list_) if (task->has_publishers()) task->read();
  pub read_tasks : ℕ → List ℕ → List Task → Shared → Option (Shared × List (Event Message))
  read_tasks stamp buf [] s = some (s, [])
  read_tasks stamp buf (t ∷ ts) s =
      (if C.has_publishers t then C.read t stamp buf s else some (s, [])) >>= λ (s', out).
      read_tasks stamp buf ts s' >>= λ (s'', rest). some (s'', reports out ++ rest)

  pub next_master_status : ℕ → ℕ
  next_master_status m = if leb 250 m then master_ready + 2 else (m + 1) % 2 ^ 8

  unfoldable pub process_pdo :
      SlaveDevice Task → ℕ → Shared → Option (SlaveDevice Task × Shared × List (Event Message))
  unfolding read_tasks next_master_status
  process_pdo d current_time s =
      if d.slave_status == d.master_status
      then (read_tasks d.last_latency_check_packet_send_time d.slave_to_master_buf d.task_list s
          >>= λ (s', out). some (
            record d {
              current_data_stamp = d.last_latency_check_packet_send_time;
              last_latency_check_packet_send_time = current_time;
              master_status = next_master_status d.master_status;
            },
            s',
            latency (sub_ℕ current_time d.last_latency_check_packet_send_time) ∷ out,
          ))
      else some (d, s, [])

  pub init_tasks : List Task → List ℕ → Option (List ℕ)
  init_tasks [] buf = some buf
  init_tasks (t ∷ ts) buf = when (C.has_subscribers t) (C.init_value t) buf >>= init_tasks ts

  -- memset, then the tasks' initial values.
  unfoldable pub write_init_values : SlaveDevice Task → Option (SlaveDevice Task)
  unfolding init_tasks
  write_init_values d =
      memcpy d.master_to_slave_buf 0 (replicate d.master_to_slave_buf_len 0)
      >>= init_tasks d.task_list
      >>= λ buf. some (record d { master_to_slave_buf = buf })

  pub lose_tasks : ℕ → List Task → List ℕ → Shared → Option (List ℕ × Shared × List (Event Message))
  lose_tasks now [] buf s = some (buf, s, [])
  lose_tasks now (t ∷ ts) buf s =
      when (C.connection_lost_write_action t == 0x02) (C.init_value t) buf >>= λ buf'.
      let (s', out) =
        if C.connection_lost_read_action t == 0x02
        then C.publish_empty_message t now s
        else (s, []) in
      lose_tasks now ts buf' s' >>= λ (buf'', s'', rest). some (buf'', s'', reports out ++ rest)

  unfoldable pub on_connection_lost :
      SlaveDevice Task → ℕ → Shared → Option (SlaveDevice Task × Shared × List (Event Message))
  unfolding lose_tasks
  on_connection_lost d now s =
      lose_tasks now d.task_list d.master_to_slave_buf s >>= λ (buf, s', out).
      some (record d { master_to_slave_buf = buf }, s', out)
