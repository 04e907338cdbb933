-- ===== src/Sdo/Cleanup.antt =====
-- The ROS handles of a task and `cleanup` (src/soem_wrapper/include/soem_wrapper/task_defs.hpp), and
-- `SlaveDevice::cleanup` (src/soem_wrapper/src/soem_backend.cpp).
--
-- Of the handles, the ones that are not null are kept, each under its member's name; the members of
-- the subscriptions are named after their handlers.
pub mod Closed
pub mod Parts
pub mod Classes
pub mod Ended
use ecat_v2_master.Base.{
  ℕ, Bool, true, false, List, [], ◌∷◌, Option, none, some, ◌==◌, if◌then◌else◌,
}
use ecat_v2_master.Sdo.{
  Handler, on_command, on_command_openloop_control, on_command_torque_control,
  on_command_speed_with_torque_limit_control, on_command_multi_round_pos_control,
  on_command_multi_round_pos_with_speed_limit_control, on_command_single_round_pos_control,
  on_command_single_round_pos_with_speed_limit_control, on_command_broadcast_current_control,
  on_command_mit_control, on_command_pos_with_speed_limit_control, on_command_speed_control,
  Endpoint, publisher, subscription,
}
use ecat_v2_master.Sdo.TaskList.{
  AnyTask, dbus_rc, lk_motor, hipnuc_imu_can, dshot, dji_motor, onboard_pwm, external_pwm,
  ms5837_30ba, pmu_can, sbus_rc, dm_motor, super_cap, vt13_rc, dd_motor,
}

pub data Member : Type 0 where
  publisher_ptr : Member
  publisher_single_motor : Member
  publisher_multi_motor : Member
  subscriber : Handler → Member

abbrev handler_number : Handler → ℕ
handler_number on_command = 0
handler_number on_command_openloop_control = 1
handler_number on_command_torque_control = 2
handler_number on_command_speed_with_torque_limit_control = 3
handler_number on_command_multi_round_pos_control = 4
handler_number on_command_multi_round_pos_with_speed_limit_control = 5
handler_number on_command_single_round_pos_control = 6
handler_number on_command_single_round_pos_with_speed_limit_control = 7
handler_number on_command_broadcast_current_control = 8
handler_number on_command_mit_control = 9
handler_number on_command_pos_with_speed_limit_control = 10
handler_number on_command_speed_control = 11

abbrev member_number : Member → ℕ
member_number publisher_ptr = 100
member_number publisher_single_motor = 101
member_number publisher_multi_motor = 102
member_number (subscriber h) = handler_number h

abbrev pub same_member : Member → Member → Bool
same_member m n = member_number m == member_number n

abbrev pub Held : Type 0
Held = List (Member × Endpoint)

-- The member that init_sdo stores its publisher in
abbrev pub publisher_of : AnyTask → Member
publisher_of (lk_motor t) =
    if t.is_broadcast_mode then publisher_multi_motor else publisher_single_motor
publisher_of _ = publisher_ptr

abbrev pub member_for : AnyTask → Endpoint → Member
member_for t (publisher topic) = publisher_of t
member_for t (subscription topic handler) = subscriber handler

-- What a task holds whose init_sdo has created these
abbrev pub hold : AnyTask → List Endpoint → Held
hold t [] = []
hold t (e ∷ es) = (member_for t e, e) ∷ hold t es

-- if (m) m.reset();
abbrev pub reset_member : Member → Held → Held
reset_member m [] = []
reset_member m ((n, e) ∷ held) =
    if same_member m n then reset_member m held else (n, e) ∷ reset_member m held

-- The members that the cleanup of each class resets
abbrev pub dbus_rc_members : List Member
dbus_rc_members = publisher_ptr ∷ []

abbrev pub lk_motor_members : List Member
lk_motor_members =
    publisher_single_motor
    ∷ publisher_multi_motor
    ∷ subscriber on_command_openloop_control
    ∷ subscriber on_command_torque_control
    ∷ subscriber on_command_speed_with_torque_limit_control
    ∷ subscriber on_command_multi_round_pos_control
    ∷ subscriber on_command_multi_round_pos_with_speed_limit_control
    ∷ subscriber on_command_single_round_pos_control
    ∷ subscriber on_command_single_round_pos_with_speed_limit_control
    ∷ subscriber on_command_broadcast_current_control
    ∷ []

abbrev pub hipnuc_imu_can_members : List Member
hipnuc_imu_can_members = publisher_ptr ∷ []

abbrev pub dshot_members : List Member
dshot_members = subscriber on_command ∷ []

abbrev pub dji_motor_members : List Member
dji_motor_members = publisher_ptr ∷ subscriber on_command ∷ []

abbrev pub onboard_pwm_members : List Member
onboard_pwm_members = subscriber on_command ∷ []

abbrev pub external_pwm_members : List Member
external_pwm_members = subscriber on_command ∷ []

abbrev pub ms5837_30ba_members : List Member
ms5837_30ba_members = publisher_ptr ∷ []

abbrev pub pmu_can_members : List Member
pmu_can_members = publisher_ptr ∷ []

abbrev pub sbus_rc_members : List Member
sbus_rc_members = publisher_ptr ∷ []

abbrev pub dm_motor_members : List Member
dm_motor_members =
    publisher_ptr
    ∷ subscriber on_command_mit_control
    ∷ subscriber on_command_pos_with_speed_limit_control
    ∷ subscriber on_command_speed_control
    ∷ []

abbrev pub super_cap_members : List Member
super_cap_members = publisher_ptr ∷ subscriber on_command ∷ []

abbrev pub vt13_rc_members : List Member
vt13_rc_members = publisher_ptr ∷ []

abbrev pub dd_motor_members : List Member
dd_motor_members = publisher_ptr ∷ subscriber on_command ∷ []

abbrev pub members : AnyTask → List Member
members (dbus_rc t) = dbus_rc_members
members (lk_motor t) = lk_motor_members
members (hipnuc_imu_can t) = hipnuc_imu_can_members
members (dshot t) = dshot_members
members (dji_motor t) = dji_motor_members
members (onboard_pwm t) = onboard_pwm_members
members (external_pwm t) = external_pwm_members
members (ms5837_30ba t) = ms5837_30ba_members
members (pmu_can t) = pmu_can_members
members (sbus_rc t) = sbus_rc_members
members (dm_motor t) = dm_motor_members
members (super_cap t) = super_cap_members
members (vt13_rc t) = vt13_rc_members
members (dd_motor t) = dd_motor_members

abbrev pub reset_members : List Member → Held → Held
reset_members [] held = held
reset_members (m ∷ ms) held = reset_members ms (reset_member m held)

unfoldable pub cleanup : AnyTask → Held → Held
cleanup t held = reset_members (members t) held

-- A task of the device with what it holds
abbrev pub HeldTask : Type 0
HeldTask = AnyTask × Held

-- SlaveDevice::cleanup, of the latency publisher and the tasks' handles
unfoldable pub cleanup_tasks : List HeldTask → List HeldTask
unfolding cleanup
cleanup_tasks [] = []
cleanup_tasks ((t, held) ∷ ts) = (t, cleanup t held) ∷ cleanup_tasks ts

unfoldable pub device_cleanup : Option Endpoint × List HeldTask → Option Endpoint × List HeldTask
unfolding cleanup_tasks
device_cleanup (latency_publisher, ts) = (none, cleanup_tasks ts)
