-- ===== src/Task/DmMotor.antt =====
-- src/soem_wrapper/src/tasks/dm_motor.cpp. `b k` is the byte at `pdoread_offset_ + k`, of which the
-- ninth is the last that is read. Messages carry floats, and the position and speed commands are
-- written as bit patterns.
pub mod Mit
pub mod Feedback
use ecat_v2_master.Base.{
  ℕ, suc, ◌+◌, ◌-◌, ◌^◌, ℤ, pos, List, [], ◌∷◌, Option, some, get_elem?, get_or, ◌>>=◌, ◌>>>◌,
  ◌<<<◌, low_bits, bit_or, to_unsigned, ◌==◌, if◌then◌else◌,
}
use ecat_v2_master.Float.{Float}
use ecat_v2_master.Io.{Cursor, write_uint8, write_float, memcpy}
use ecat_v2_master.Task.{TaskInfo, write_at}

pub record DmMotor (R : Type 0) : Type 0 where
  pub info : TaskInfo
  pub pmax : R
  pub vmax : R
  pub tmax : R

pub record ReadDmMotor (R : Type 0) : Type 0 where
  pub stamp : ℕ
  pub online : ℕ
  pub disabled : ℕ
  pub enabled : ℕ
  pub overvoltage : ℕ
  pub undervoltage : ℕ
  pub overcurrent : ℕ
  pub mos_overtemperature : ℕ
  pub rotor_overtemperature : ℕ
  pub communication_lost : ℕ
  pub overload : ℕ
  pub position : R
  pub velocity : R
  pub torque : R
  pub mos_temperature : ℕ
  pub rotor_temperature : ℕ

pub record WriteDmMotorMitControl (R : Type 0) : Type 0 where
  pub enable : ℕ
  pub p_des : R
  pub v_des : R
  pub kp : R
  pub kd : R
  pub torque : R

-- The eight bytes of `WriteDmMotorMITControl_data`, from the five 16-bit values.
unfoldable pub mit_bytes : ℕ → ℕ → ℕ → ℕ → ℕ → List ℕ
mit_bytes p v kp kd t =
    low_bits (p >>> 8) 8
    ∷ low_bits p 8
    ∷ low_bits (v >>> 4) 8
    ∷ low_bits (bit_or (low_bits v 4 <<< 4) (kp >>> 8)) 8
    ∷ low_bits kp 8
    ∷ low_bits (kd >>> 4) 8
    ∷ low_bits (bit_or (low_bits kd 4 <<< 4) (t >>> 8)) 8
    ∷ low_bits t 8
    ∷ []

-- A case of the switch over the state in the high half of the first byte.
abbrev pub case_of : ℕ → ℕ → ℕ
case_of state code = if state == code then 1 else 0

unfoldable pub init_value : TaskInfo → List ℕ → Option (List ℕ)
init_value t buf = write_at t.pdowrite_offset (write_uint8 0) buf

unfoldable pub on_command_pos_with_speed_limit_control :
    TaskInfo → (enable position speed : ℕ) → List ℕ → Option (List ℕ)
on_command_pos_with_speed_limit_control t enable position speed buf =
    write_at t.pdowrite_offset
      (λ c. write_uint8 enable c >>= write_float position >>= write_float speed) buf

unfoldable pub on_command_speed_control : TaskInfo → (enable speed : ℕ) → List ℕ → Option (List ℕ)
on_command_speed_control t enable speed buf =
    write_at t.pdowrite_offset (λ c. write_uint8 enable c >>= write_float speed) buf

module _ (fl : Float) where
  open fl use {Real, of_int, to_int, neg, add, sub, mul, div}

  unfoldable pub float_to_uint : Real → Real → Real → ℕ → ℤ
  float_to_uint x_float x_min x_max bits =
      let span = sub x_max x_min in
      to_int (div (mul (sub x_float x_min) (of_int (pos (2 ^ bits - 1)))) span)

  unfoldable pub uint_to_float : ℕ → Real → Real → ℕ → Real
  uint_to_float x_int x_min x_max bits =
      let span = sub x_max x_min in
      add (div (mul (of_int (pos x_int)) span) (of_int (pos (2 ^ bits - 1)))) x_min

  -- const uint16_t x = float_to_uint(…)
  abbrev pub scaled : Real → Real → Real → ℕ → ℕ
  scaled x x_min x_max bits = to_unsigned 16 (float_to_uint x x_min x_max bits)

  unfoldable pub on_command_mit_control :
      DmMotor Real → WriteDmMotorMitControl Real → List ℕ → Option (List ℕ)
  on_command_mit_control t msg buf =
      write_uint8 msg.enable (record { bytes = buf; offset = t.info.pdowrite_offset }) >>= λ c.
      memcpy c.bytes c.offset (
        mit_bytes (scaled msg.p_des (neg t.pmax) t.pmax 16)
          (scaled msg.v_des (neg t.vmax) t.vmax 12)
          (scaled msg.kp (of_int (pos 0)) (of_int (pos 500)) 12)
          (scaled msg.kd (of_int (pos 0)) (of_int (pos 5)) 12)
          (scaled msg.torque (neg t.tmax) t.tmax 12))

  unfoldable pub decode : DmMotor Real → (ℕ → ℕ) → ℕ → ReadDmMotor Real
  decode t b stamp =
      let state = b 0 >>> 4 in
      record {
        stamp = stamp;
        online = b 8;
        disabled = case_of state 0x0;
        enabled = case_of state 0x1;
        overvoltage = case_of state 0x8;
        undervoltage = case_of state 0x9;
        overcurrent = case_of state 0xA;
        mos_overtemperature = case_of state 0xB;
        rotor_overtemperature = case_of state 0xC;
        communication_lost = case_of state 0xD;
        overload = case_of state 0xE;
        position = uint_to_float (bit_or (b 1 <<< 8) (b 2)) (neg t.pmax) t.pmax 16;
        velocity = uint_to_float (bit_or (b 3 <<< 4) (b 4 >>> 4)) (neg t.vmax) t.vmax 12;
        torque = uint_to_float (bit_or (low_bits (b 4) 4 <<< 8) (b 5)) (neg t.tmax) t.tmax 12;
        mos_temperature = b 6;
        rotor_temperature = b 7;
      }

  unfoldable pub read : DmMotor Real → ℕ → List ℕ → Option (ReadDmMotor Real)
  unfolding decode
  read t stamp buf = get_elem? buf (t.info.pdoread_offset + 8) >>= λ _.
      some (decode t (λ k. get_or buf (t.info.pdoread_offset + k) 0) stamp)

  unfoldable pub publish_empty_message : ℕ → ReadDmMotor Real
  publish_empty_message now = record {
    stamp = now;
    online = 0;
    disabled = 0;
    enabled = 0;
    overvoltage = 0;
    undervoltage = 0;
    overcurrent = 0;
    mos_overtemperature = 0;
    rotor_overtemperature = 0;
    communication_lost = 0;
    overload = 0;
    position = of_int (pos 0);
    velocity = of_int (pos 0);
    torque = of_int (pos 0);
    mos_temperature = 0;
    rotor_temperature = 0;
  }
