-- ===== src/Device/Lost.antt =====
-- The loss of a slave leaves the size of its image.
use ecat_v2_master.Base.{
  ℕ, ◌≡◌, true, false, Bool, List, [], ◌∷◌, some, length, >>=-eq-some, when, ◌==◌,
}
use ecat_v2_master.Task.Class.{TaskClass}
use ecat_v2_master.Device.{SlaveDevice, Event, lose_tasks, on_connection_lost}

module _ (C : TaskClass) where
  length-init_when :
      (b : Bool) (t : C.Task) (buf : List ℕ) {buf' : List ℕ}
      → when b (C.init_value t) buf ≡ some buf'
      → length buf' ≡ length buf
  length-init_when true t buf e = C.length-init_value t buf e
  length-init_when false t buf e = cc e

  length-lose_tasks :
      (now : ℕ) (ts : List C.Task) (buf : List ℕ) (s : C.Shared) {buf' : List ℕ} {s' : C.Shared}
      {out : List (Event C.Message)}
      → lose_tasks C now ts buf s ≡ some (buf', s', out)
      → length buf' ≡ length buf
  unfolding lose_tasks
  length-lose_tasks now [] buf s e = cc e
  length-lose_tasks now (t ∷ ts) buf s e =
      let (buf1, p, q) =
        >>=-eq-some (when (C.connection_lost_write_action t == 0x02) (C.init_value t) buf) _ e in
      let ((buf2, s2, out2), p2, q2) = >>=-eq-some (lose_tasks C now ts buf1 _) _ q in
      cc (
        q2,
        length-lose_tasks now ts buf1 _ p2,
        length-init_when (C.connection_lost_write_action t == 0x02) t buf p,
      )

  -- The image keeps its size, and the device everything else.
  pub on_connection_lost_lem :
      (d : SlaveDevice C.Task) (now : ℕ) (s : C.Shared) {d' : SlaveDevice C.Task} {s' : C.Shared}
      {out : List (Event C.Message)}
      → on_connection_lost C d now s ≡ some (d', s', out)
      → (length d'.master_to_slave_buf ≡ length d.master_to_slave_buf)
        × (d'.master_to_slave_buf_len ≡ d.master_to_slave_buf_len)
  unfolding on_connection_lost
  on_connection_lost_lem d now s e =
      let ((buf, s1, out1), p, q) =
        >>=-eq-some (lose_tasks C now d.task_list d.master_to_slave_buf s) _ e in
      (cc (q, length-lose_tasks now d.task_list d.master_to_slave_buf s p), cc q)
