-- ===== src/Task/SuperCap/Layout.antt =====
-- The bytes of the super capacitor's command and report.
use ecat_v2_master.Base.{ℕ, ◌+◌, ◌≤◌, ◌≡◌, ◌∙◌, List, [], ◌∷◌, ◌++◌, some, length, drop, drop_next}
use ecat_v2_master.Io.Splice.{splice}
use ecat_v2_master.Io.Writing.{write_all, writers}
use ecat_v2_master.Io.Stream.{next_uint8}
use ecat_v2_master.Task.{TaskInfo, write_at}
use ecat_v2_master.Task.Slots.{write_at-splice}
use ecat_v2_master.Task.SuperCap.{WriteSuperCap, ReadSuperCap, on_command, read}

abbrev pub command_bytes : WriteSuperCap → List ℕ
command_bytes m = m.cap_enable ∷ m.do_charge ∷ m.max_charge_power ∷ m.allow_charge_power ∷ []

abbrev pub report_bytes : ReadSuperCap → List ℕ
report_bytes r =
    r.online ∷ r.cap_valid ∷ r.cap_status ∷ r.cap_remain_percentage ∷ r.chassis_power
    ∷ r.battery_voltage ∷ r.chassis_only_power ∷ []

on_command_lem :
    (t : TaskInfo) (msg : WriteSuperCap) (buf : List ℕ)
    → on_command t msg buf ≡ write_at t.pdowrite_offset (write_all (command_bytes msg)) buf
unfolding on_command
on_command_lem t msg buf = simp writers

pub on_command-command_bytes :
    (t : TaskInfo) (msg : WriteSuperCap) (buf : List ℕ)
    → t.pdowrite_offset + 4 ≤ length buf
    → on_command t msg buf ≡ some (splice t.pdowrite_offset (command_bytes msg) buf)
on_command-command_bytes t msg buf h = on_command_lem t msg buf ∙ write_at-splice _ buf _ h

-- When the input holds the bytes of a report from the task's offset on, the published message is
-- that report.
read-report_bytes :
    (t : TaskInfo) (r : ReadSuperCap) (buf rest : List ℕ)
    → drop t.pdoread_offset buf ≡ report_bytes r ++ rest
    → read t r.stamp buf ≡ some r
unfolding read
read-report_bytes t r buf rest e =
    let i = t.pdoread_offset in
    let e1 = drop_next i buf e in
    let e2 = drop_next (i + 1) buf e1 in
    let e3 = drop_next (i + 1 + 1) buf e2 in
    let e4 = drop_next (i + 1 + 1 + 1) buf e3 in
    let e5 = drop_next (i + 1 + 1 + 1 + 1) buf e4 in
    let e6 = drop_next (i + 1 + 1 + 1 + 1 + 1) buf e5 in
    rw (
      next_uint8 buf i e,
      next_uint8 buf (i + 1) e1,
      next_uint8 buf (i + 1 + 1) e2,
      next_uint8 buf (i + 1 + 1 + 1) e3,
      next_uint8 buf (i + 1 + 1 + 1 + 1) e4,
      next_uint8 buf (i + 1 + 1 + 1 + 1 + 1) e5,
      next_uint8 buf (i + 1 + 1 + 1 + 1 + 1 + 1) e6,
    )
