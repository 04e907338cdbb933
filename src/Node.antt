-- ===== src/Node.antt =====
-- src/soem_wrapper/src/ecat_node.cpp: the node's data cycle over its slaves.
--
-- `receive_frames` to `transfer_images` are the loops of one round of `datacycle_callback`; the
-- frame that the EtherCAT stack holds for a slave is its status byte and its input bytes, and the
-- image is its output bytes. Reading the clock gives one time for the round.
pub mod Start
pub mod Phases
pub mod Health
pub mod Safety
pub mod Registry
pub mod Setup
pub mod Checker
pub mod Shutdown
use ecat_v2_master.Base.{
  ℕ, ◌≡◌, Bool, true, false, not, ◌&&◌, ◌||◌, List, [], ◌∷◌, ◌++◌, Option, none, some, ◌>>=◌, when,
  ltb, ◌==◌, if◌then◌else◌,
}
use ecat_v2_master.Task.Class.{TaskClass}
use ecat_v2_master.Device.{
  SlaveDevice, Event, slave_ready, slave_confirm_ready, master_sending_arguments, master_ready,
  transfer_to_slave, receive_from_slave, send_arg, recover_master_to_slave_buf, process_pdo,
  write_init_values,
}

pub record Frame : Type 0 where
  pub status : ℕ
  pub bytes : List ℕ

module _ (C : TaskClass) where
  pub record Node : Type 0 where
    pub slave_devices : List (SlaveDevice C.Task)
    pub all_slave_ready : Bool
    pub exiting : Bool
    pub exiting_reset_called : Bool

  pub receive_frames : List (SlaveDevice C.Task) → List Frame → Option (List (SlaveDevice C.Task))
  receive_frames [] fs = some []
  receive_frames (d ∷ ds) [] = none
  receive_frames (d ∷ ds) (f ∷ fs) = do
    d' ← receive_from_slave d f.status f.bytes
    ds' ← receive_frames ds fs
    some (d' ∷ ds')

  are_all_ready : List (SlaveDevice C.Task) → Bool
  are_all_ready [] = true
  are_all_ready (d ∷ ds) =
      if ltb d.slave_status slave_confirm_ready || not d.is_ready then false else are_all_ready ds

  confirm_ready : SlaveDevice C.Task → SlaveDevice C.Task
  confirm_ready d =
      if (d.slave_status == slave_confirm_ready) && not d.is_ready
      then record d { is_ready = true }
      else d

  first_image : SlaveDevice C.Task → Option (SlaveDevice C.Task)
  first_image d =
      if d.master_status == master_ready
      then some d
      else (if d.reconnected_times == 0
          then write_init_values C d
          else recover_master_to_slave_buf d)

  pub start_working : SlaveDevice C.Task → Option (SlaveDevice C.Task)
  unfolding first_image
  start_working d = first_image d >>= λ d'. some (record d' { master_status = master_ready })

  is_starting : SlaveDevice C.Task → Bool
  is_starting d = not d.is_ready && (d.is_arg_sent && (d.slave_status == slave_ready))

  is_sending : SlaveDevice C.Task → Bool
  is_sending d = (d.master_status == master_sending_arguments) && not d.is_arg_sent

  -- The body of the loop over the slaves, for one of them.
  unfoldable pub process_slave :
      SlaveDevice C.Task
      → ℕ
      → C.Shared
      → Option (SlaveDevice C.Task × C.Shared × List (Event C.Message))
  unfolding confirm_ready start_working is_starting is_sending
  process_slave d now s =
      if not d.is_conf_ros_done || not d.is_ecat_conf_done
      then some (d, s, [])
      else (when (is_sending (confirm_ready d)) send_arg (confirm_ready d) >>= λ d1.
          when (is_starting d1) start_working d1 >>= λ d2.
          if d2.is_ready then process_pdo C d2 now s else some (d2, s, []))

  pub process_slaves :
      List (SlaveDevice C.Task)
      → ℕ
      → C.Shared
      → Option (List (SlaveDevice C.Task) × C.Shared × List (Event C.Message))
  unfolding process_slave
  process_slaves [] now s = some ([], s, [])
  process_slaves (d ∷ ds) now s = process_slave d now s >>= λ (d', s', out).
      process_slaves ds now s' >>= λ (ds', s'', rest). some (d' ∷ ds', s'', out ++ rest)

  pub exit_reset : List (SlaveDevice C.Task) → Option (List (SlaveDevice C.Task))
  exit_reset [] = some []
  exit_reset (d ∷ ds) = do
    d' ← when d.is_arg_sent (write_init_values C) d
    ds' ← exit_reset ds
    some (d' ∷ ds')

  pub transfer_images : List (SlaveDevice C.Task) → List (List ℕ) → Option (List (List ℕ))
  transfer_images [] os = some []
  transfer_images (d ∷ ds) [] = none
  transfer_images (d ∷ ds) (o ∷ os) = do
    o' ← transfer_to_slave d o
    os' ← transfer_images ds os
    some (o' ∷ os')

  pub reset_on_exit : Node → List (SlaveDevice C.Task) → Option (List (SlaveDevice C.Task))
  unfolding exit_reset
  reset_on_exit n ds = when (n.exiting && not n.exiting_reset_called) exit_reset ds

  unfoldable pub data_cycle :
      Node
      → List Frame
      → List (List ℕ)
      → ℕ
      → C.Shared
      → Option (Node × List (List ℕ) × C.Shared × List (Event C.Message))
  unfolding receive_frames are_all_ready process_slaves reset_on_exit transfer_images
  data_cycle n frames outputs now s = receive_frames n.slave_devices frames >>= λ ds.
      process_slaves ds now s >>= λ (ds', s', out). reset_on_exit n ds' >>= λ ds''.
      transfer_images ds'' outputs >>= λ outputs'. some (
        record {
          slave_devices = ds'';
          all_slave_ready = n.all_slave_ready || are_all_ready ds;
          exiting = n.exiting;
          exiting_reset_called = n.exiting_reset_called || n.exiting;
        },
        outputs',
        s',
        out,
      )
