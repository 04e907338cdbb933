-- ===== src/Node/Start.antt =====
-- The start of a slave: when the master goes from sending arguments to working.
use ecat_v2_master.Base.{
  ◌⊎◌, inl, inr, Bool-cases, ℕ, suc, ◌≡◌, ◌≢◌, refl, sym, ap, ◌∙◌, true, false, List, [], ◌∷◌,
  Option, some, length, arith, ◌>>=◌, >>=-eq-some, when, if◌then◌else◌, drop,
}
use ecat_v2_master.Task.Class.{TaskClass}
use ecat_v2_master.Device.{
  SlaveDevice, Event, process_pdo, send_arg, receive_from_slave, master_sending_arguments,
  slave_confirm_ready,
}
use ecat_v2_master.Device.Args.{send_arg-Sent, send_arg-IsKept}
use ecat_v2_master.Device.Delivery.{Delivered, frame_accounted, InTransfer}
use ecat_v2_master.Device.Recovery.{first-whole, memcpy-whole}
use ecat_v2_master.Node.{
  Frame, process_slave, confirm_ready, is_sending, is_starting, start_working,
}

module _ (C : TaskClass) where
  -- The rounds of the data cycle for one slave, each with its frame; the time of the round is in
  -- front of it.
  unfoldable pub slave_run :
      SlaveDevice C.Task → C.Shared → List (ℕ × Frame) → Option (SlaveDevice C.Task × C.Shared)
  slave_run d s [] = some (d, s)
  slave_run d s ((now, f) ∷ fs) = receive_from_slave d f.status f.bytes >>= λ d1.
      process_slave C d1 now s >>= λ (d', s', out). slave_run d' s' fs

  abbrev pub bytes_of : List (ℕ × Frame) → List (List ℕ)
  bytes_of [] = []
  bytes_of ((now, f) ∷ fs) = f.bytes ∷ bytes_of fs

  -- A configured device that still sends its arguments
  pub record IsStarting (d : SlaveDevice C.Task) : Type 0 where
    pub transfer : InTransfer d
    pub unsent : d.is_arg_sent ≡ false
    pub sending : d.master_status ≡ master_sending_arguments
    pub not_ready : d.is_ready ≡ false
    pub ros_done : d.is_conf_ros_done ≡ true
    pub ecat_done : d.is_ecat_conf_done ≡ true
    pub room : length d.slave_to_master_buf ≡ d.slave_to_master_buf_len

  -- The frames have the input's size, and none reports the state that follows the start.
  pub data AreFrames (n : ℕ) : List (ℕ × Frame) → Type 0 where
    none_left : AreFrames n []
    next_frame :
        {now : ℕ} {f : Frame} {fs : List (ℕ × Frame)}
        → length f.bytes ≡ n
        → f.status ≢ slave_confirm_ready
        → AreFrames n fs
        → AreFrames n ((now, f) ∷ fs)

  receive_lem :
      (d : SlaveDevice C.Task) (f : Frame)
      → length d.slave_to_master_buf ≡ d.slave_to_master_buf_len
      → length f.bytes ≡ d.slave_to_master_buf_len
      → receive_from_slave d f.status f.bytes
        ≡ some (record d { slave_status = f.status; slave_to_master_buf = f.bytes })
  unfolding receive_from_slave
  receive_lem d f e h =
      rw (← h, first-whole f.bytes, memcpy-whole f.bytes d.slave_to_master_buf (h ∙ sym e)) refl

  not_confirmed :
      (d : SlaveDevice C.Task) → d.slave_status ≢ slave_confirm_ready → confirm_ready C d ≡ d
  unfolding confirm_ready
  not_confirmed d h = ground arith

  is_sending-true : (d : SlaveDevice C.Task) → IsStarting d → is_sending C d ≡ true
  unfolding is_sending
  is_sending-true d v = ground (arith, v.sending, v.unsent)

  is_starting-unsent : (d : SlaveDevice C.Task) → d.is_arg_sent ≡ false → is_starting C d ≡ false
  unfolding is_starting
  is_starting-unsent d u = ground (arith, u)

  process_sending :
      (d : SlaveDevice C.Task) (now : ℕ) (s : C.Shared)
      → IsStarting d
      → d.slave_status ≢ slave_confirm_ready
      → process_slave C d now s ≡ (
          send_arg d >>= λ d1. when (is_starting C d1) (start_working C) d1 >>= λ d2.
          if d2.is_ready then process_pdo C d2 now s else some (d2, s, []))
  unfolding process_slave
  process_sending d now s v h = ground (arith, h, v.sending, v.unsent, v.ros_done, v.ecat_done)

  unsent_stays :
      (d : SlaveDevice C.Task) (now : ℕ) (s : C.Shared) {d' : SlaveDevice C.Task} {s' : C.Shared}
      {out : List (Event C.Message)}
      → d.is_arg_sent ≡ false
      → d.is_ready ≡ false
      → (when (is_starting C d) (start_working C) d >>= λ d2.
          if d2.is_ready then process_pdo C d2 now s else some (d2, s, []))
        ≡ some (d', s', out)
      → d ≡ d'
  unsent_stays d now s u r e = cc (rw (is_starting-unsent d u, r) at e)

  after_send :
      (d : SlaveDevice C.Task) (now : ℕ) (s : C.Shared) {d' : SlaveDevice C.Task} {s' : C.Shared}
      {out : List (Event C.Message)}
      → IsStarting d
      → d.slave_status ≢ slave_confirm_ready
      → process_slave C d now s ≡ some (d', s', out)
      → (d1 : SlaveDevice C.Task) × (send_arg d ≡ some d1)
        × ((d1.is_arg_sent ≡ true) ⊎ ((d1.is_arg_sent ≡ false) × (d1 ≡ d')))
  after_send d now s v h e =
      let (d1, p, q) = >>=-eq-some (send_arg d) _ (sym (process_sending d now s v h) ∙ e) in
      let k = send_arg-IsKept d p in
      (
        d1,
        p,
        elim (Bool-cases d1.is_arg_sent) [
          | inl done ↦ inl done
          | inr left ↦ inr (left, unsent_stays d1 now s left (k.is_ready ∙ v.not_ready) q)
        ],
      )

  IsStarting-keeps :
      (d : SlaveDevice C.Task) {d1 : SlaveDevice C.Task}
      → IsStarting d
      → send_arg d ≡ some d1
      → d1.is_arg_sent ≡ false
      → InTransfer d1
      → IsStarting d1
  IsStarting-keeps d v e u t =
      let k = send_arg-IsKept d e in
      record {
        transfer = t;
        unsent = u;
        sending = k.master_status ∙ v.sending;
        not_ready = k.is_ready ∙ v.not_ready;
        ros_done = k.is_conf_ros_done ∙ v.ros_done;
        ecat_done = k.is_ecat_conf_done ∙ v.ecat_done;
        room = ap length k.slave_to_master_buf ∙ v.room ∙ sym k.slave_to_master_buf_len;
      }

  IsStarting-receive :
      (d : SlaveDevice C.Task) (f : Frame)
      → IsStarting d
      → length f.bytes ≡ d.slave_to_master_buf_len
      → IsStarting (record d { slave_status = f.status; slave_to_master_buf = f.bytes })
  IsStarting-receive d f v h = record {
    transfer = record {
      len_is = v.transfer.len_is;
      len_fits = v.transfer.len_fits;
      idx_pos = v.transfer.idx_pos;
      idx_le = v.transfer.idx_le;
    };
    unsent = v.unsent;
    sending = v.sending;
    not_ready = v.not_ready;
    ros_done = v.ros_done;
    ecat_done = v.ecat_done;
    room = h;
  }

  -- A configured slave that is not ready is being sent its arguments, at most 65535 bytes, and
  -- index i + 1, inside them, is next; no frame of the run reports the state 3 and each has the
  -- input's size. If at the end of the run the master's status is no longer that of sending
  -- arguments, then the frames have acknowledged all remaining arguments, byte by byte and in
  -- order.
  pub Delivered-slave_run :
      (fs : List (ℕ × Frame)) (d : SlaveDevice C.Task) (i : ℕ) (s : C.Shared)
      {d' : SlaveDevice C.Task} {s' : C.Shared}
      → IsStarting d
      → d.sending_arg_buf_idx ≡ suc i
      → AreFrames d.slave_to_master_buf_len fs
      → slave_run d s fs ≡ some (d', s')
      → d'.master_status ≢ master_sending_arguments
      → Delivered (suc i) (drop i d.arg_buf) (bytes_of fs)
  unfolding slave_run
  Delivered-slave_run [] d i s v x a e h = absurd (h (cc (e, v.sending)))
  Delivered-slave_run ((now, f) ∷ fs) d i s v x (next_frame size status a) e h =
      let d1 = record d { slave_status = f.status; slave_to_master_buf = f.bytes } in
      let v1 = IsStarting-receive d f v size in
      let ((d3, s3, out), p1, q1) =
        >>=-eq-some (process_slave C d1 now s) (λ (d', s', out). slave_run d' s' fs)
          (rw (receive_lem d f v.room size) at e) in
      let (d2, sent, left) = after_send d1 now s v1 status p1 in
      let (step, bufs, lens) = send_arg-Sent d1 v1.unsent sent in
      let k = send_arg-IsKept d1 sent in
      frame_accounted (bytes_of fs) f.bytes d1 i v1.transfer x step bufs lens (λ j t y u.
        elim left [
          | inl done ↦ absurd (cc (done, u))
          | inr (_, same) ↦
              Delivered-slave_run fs d2 j s3 (IsStarting-keeps d1 v1 sent u t) y
                (rw k.slave_to_master_buf_len a) (ap (λ c. slave_run c s3 fs) same ∙ q1) h
        ])
