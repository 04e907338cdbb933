-- ===== src/Sdo.antt =====
-- The configuration of the drivers (`init_sdo` in src/soem_wrapper/src/tasks/) and of a slave's
-- list of tasks (src/soem_wrapper/src/soem_backend.cpp).
--
-- The argument buffer and the running offset are a cursor whose storage has the configured length.
-- Creating a publisher or a subscription is a call into ROS: what is kept of it is the topic, and
-- for a subscription the handler. The printing of a number by fmt is the parameter `decimal`.
pub mod Motors
pub mod Sensors
pub mod TaskList
pub mod Emits
pub mod Outputs
pub mod Arguments
pub mod Written
pub mod Whole
pub mod Delivery
pub mod AllTasks
pub mod Complete
pub mod Cleanup
use ecat_v2_master.Base.{ℕ, ◌+◌, Bool, List, [], ◌∷◌, ◌++◌, Option, none, some}
use ecat_v2_master.Io.{Cursor, memcpy}
use ecat_v2_master.Config.{
  Variant, uint8, uint16, uint32, float, string, Outcome, value, and_then, defined, Key, Entries,
  get_field_as, get_field_or, build_buf,
}
pub use ecat_v2_master.Config.Text.{codes}
use ecat_v2_master.Task.{TaskInfo}
use ecat_v2_master.Device.{first}

infixl 5 ◌>>=◌
abbrev pub ◌>>=◌ : {A B : Type 0} → Outcome A → (A → Outcome B) → Outcome B
o >>= f = and_then o f

-- The type that a call of `std::get` asks for
abbrev pub as_uint8 : Variant → Option ℕ
as_uint8 (uint8 n) = some n
as_uint8 _ = none

abbrev pub as_uint16 : Variant → Option ℕ
as_uint16 (uint16 n) = some n
as_uint16 _ = none

abbrev pub as_uint32 : Variant → Option ℕ
as_uint32 (uint32 n) = some n
as_uint32 _ = none

abbrev pub as_float : Variant → Option ℕ
as_float (float n) = some n
as_float _ = none

abbrev pub as_string : Variant → Option Key
as_string (string s) = some s
as_string _ = none

-- The callbacks that are bound to subscriptions
pub data Handler : Type 0 where
  on_command : Handler
  on_command_openloop_control : Handler
  on_command_torque_control : Handler
  on_command_speed_with_torque_limit_control : Handler
  on_command_multi_round_pos_control : Handler
  on_command_multi_round_pos_with_speed_limit_control : Handler
  on_command_single_round_pos_control : Handler
  on_command_single_round_pos_with_speed_limit_control : Handler
  on_command_broadcast_current_control : Handler
  on_command_mit_control : Handler
  on_command_pos_with_speed_limit_control : Handler
  on_command_speed_control : Handler

pub data Endpoint : Type 0 where
  publisher : (topic : Key) → Endpoint
  subscription : (topic : Key) → (handler : Handler) → Endpoint

-- A task, what it has created, and the buffer behind its arguments.
abbrev pub Made : Type 0 → Type 0
Made A = (A × List Endpoint) × Cursor

module _ (es : Entries) (prefix : Key) where
  -- auto [sdo_buf, sdo_len] = build_buf(prefix, names); memcpy(buf + *offset, sdo_buf, sdo_len);
  -- *offset += sdo_len;
  unfoldable pub copy_fields : List Key → Cursor → Outcome Cursor
  unfolding build_buf
  copy_fields names c = build_buf prefix names es >>= λ sdo.
      defined (first sdo.offset sdo.bytes) >>= λ bs.
      defined (memcpy c.bytes c.offset bs) >>= λ bytes.
      value (record { bytes = bytes; offset = c.offset + sdo.offset })

  pub load_slave_info : ℕ → Bool → Bool → Outcome TaskInfo
  unfolding get_field_or
  load_slave_info type_id has_publishers has_subscribers = do
    pdoread_offset ← get_field_or as_uint16 (prefix ++ codes "pdoread_offset") 0 es
    pdowrite_offset ← get_field_or as_uint16 (prefix ++ codes "pdowrite_offset") 0 es
    read_action ← get_field_or as_uint8 (prefix ++ codes "conf_connection_lost_read_action") 0 es
    write_action ←
        get_field_or as_uint8 (prefix ++ codes "sdowrite_connection_lost_write_action") 0 es
    value (record {
      type_id = type_id;
      has_publishers = has_publishers;
      has_subscribers = has_subscribers;
      pdowrite_offset = pdowrite_offset;
      pdoread_offset = pdoread_offset;
      connection_lost_read_action = read_action;
      connection_lost_write_action = write_action;
    })

  unfoldable pub pub_topic : Outcome Endpoint
  unfolding get_field_as
  pub_topic = get_field_as as_string (prefix ++ codes "pub_topic") es >>= λ t. value (publisher t)

  unfoldable pub sub_topic : Handler → Outcome Endpoint
  unfolding get_field_as
  sub_topic handler = get_field_as as_string (prefix ++ codes "sub_topic") es >>= λ t.
      value (subscription t handler)
