-- ===== src/Node/Phases/Rounds.antt =====
-- The rounds of the data cycle for one slave follow the automaton of its phases.
use ecat_v2_master.Base.{
  Ends, Ends-some, Ends-bind, Ends-when, Ends-if, ℕ, ◌≡◌, ◌≢◌, refl, subst, ◌∙◌, inl, inr, false,
  not, ◌||◌, ◌&&◌, ◌==◌, Bool-cases, arith, List, [], ◌∷◌, Option, some, ◌>>=◌, >>=-eq-some, when,
  length, replicate,
}
use ecat_v2_master.Task.Class.{TaskClass}
use ecat_v2_master.Device.{
  SlaveDevice, Event, first, slave_confirm_ready, receive_from_slave, send_arg, process_pdo,
  write_init_values, recover_master_to_slave_buf, init_tasks, read_tasks, master_ready,
}
use ecat_v2_master.Io.{memcpy}
use ecat_v2_master.Device.Args.{send_arg-IsKept, send_arg-stays_sent}
use ecat_v2_master.Node.{
  Frame, confirm_ready, first_image, start_working, is_starting, is_sending, process_slave,
}
use ecat_v2_master.Node.Start.{slave_run}
use ecat_v2_master.Node.Phases.{
  Phase, Move, Moves, stay, done, next, Flags, phase, AreConfirmed, AreSent, Move-phases, working,
  HasConfirmed, Moves-HasConfirmed,
}

module _ (C : TaskClass) where
  open C use {Task, Shared, Message}

  abbrev pub flags : SlaveDevice Task → Flags
  flags d = record {
    is_conf_ros_done = d.is_conf_ros_done;
    is_ecat_conf_done = d.is_ecat_conf_done;
    is_ready = d.is_ready;
    is_arg_sent = d.is_arg_sent;
  }

  abbrev pub phase_of : SlaveDevice Task → Phase
  phase_of d = phase (flags d)

  abbrev Confirmed : SlaveDevice Task → SlaveDevice Task → Type 0
  Confirmed d d' = AreConfirmed d.slave_status (flags d) (flags d')

  abbrev Sent : SlaveDevice Task → SlaveDevice Task → Type 0
  Sent d d' = AreSent (flags d) (flags d')

  confirm_ready-Confirmed : (d : SlaveDevice Task) → Confirmed d (confirm_ready C d)
  unfolding confirm_ready
  confirm_ready-Confirmed d =
      elim (Bool-cases ((d.slave_status == slave_confirm_ready) && not d.is_ready)) [
        | inl b ↦ inr (ground (arith, b), rw b refl)
        | inr b ↦ inl (rw b refl)
      ]

  send_arg-Sent : (d d' : SlaveDevice Task) → send_arg d ≡ some d' → Sent d d'
  send_arg-Sent d d' e =
      let k = send_arg-IsKept d e in
      elim (Bool-cases d'.is_arg_sent) [
        | inl b ↦ inr (rw (k.is_conf_ros_done, k.is_ecat_conf_done, k.is_ready, b) refl)
        | inr b ↦
            let unsent : d.is_arg_sent ≡ false = elim (Bool-cases d.is_arg_sent) [
              | inl was ↦ absurd (cc (b, send_arg-stays_sent d e was))
              | inr was ↦ was
            ] in
            inl (rw (k.is_conf_ros_done, k.is_ecat_conf_done, k.is_ready, b, unsent) refl)
      ]

  abbrev SameFlags : SlaveDevice Task → SlaveDevice Task → Type 0
  SameFlags d d' = flags d' ≡ flags d

  anything : {A : Type 0} (o : Option A) → Ends (λ a. Unit) o
  anything o a e = tt

  with_image :
      (d : SlaveDevice Task) (buf : List ℕ)
      → Ends (SameFlags d) (some (record d { master_to_slave_buf = buf }))
  with_image d buf = Ends-some (SameFlags d) (record d { master_to_slave_buf = buf }) refl

  write_init_values-SameFlags : (d : SlaveDevice Task) → Ends (SameFlags d) (write_init_values C d)
  unfolding write_init_values
  write_init_values-SameFlags d d' e =
      let (buf, p, q) =
        >>=-eq-some
          (memcpy d.master_to_slave_buf 0 (replicate d.master_to_slave_buf_len 0)
            >>= init_tasks C d.task_list)
          _ e in
      with_image d buf d' q

  recover_master_to_slave_buf-SameFlags :
      (d : SlaveDevice Task) → Ends (SameFlags d) (recover_master_to_slave_buf d)
  unfolding recover_master_to_slave_buf
  recover_master_to_slave_buf-SameFlags d =
      Ends-if (SameFlags d) (length d.master_to_slave_buf_backup == d.master_to_slave_buf_len) _ _
        (Ends-bind (λ buf. Unit) (SameFlags d)
          (memcpy d.master_to_slave_buf 0 d.master_to_slave_buf_backup) _ (anything _)
          λ buf u. with_image d buf)
        (Ends-some (SameFlags d) d refl)

  start_working-SameFlags : (d : SlaveDevice Task) → Ends (SameFlags d) (start_working C d)
  unfolding start_working first_image
  start_working-SameFlags d =
      Ends-bind (SameFlags d) (SameFlags d) (first_image C d) _
        (Ends-if (SameFlags d) (d.master_status == master_ready) _ _
          (Ends-some (SameFlags d) d refl)
          (Ends-if (SameFlags d) (d.reconnected_times == 0) _ _ (write_init_values-SameFlags d)
            (recover_master_to_slave_buf-SameFlags d)))
        λ d' same. Ends-some (SameFlags d) (record d' { master_status = master_ready }) same

  -- What a part of a round gives besides the device
  abbrev After :
      (SlaveDevice Task → Type 0) → SlaveDevice Task × Shared × List (Event Message) → Type 0
  After P (d, s, out) = P d

  process_pdo-SameFlags :
      (d : SlaveDevice Task) (now : ℕ) (s : Shared)
      → Ends (After (SameFlags d)) (process_pdo C d now s)
  unfolding process_pdo
  process_pdo-SameFlags d now s =
      Ends-if (After (SameFlags d)) (d.slave_status == d.master_status) _ _
        (Ends-bind (λ r. Unit) (After (SameFlags d))
          (read_tasks C d.last_latency_check_packet_send_time d.slave_to_master_buf d.task_list s) _
          (anything _) λ (s', out) u (d', s'', out') e. cc e)
        (Ends-some (After (SameFlags d)) (d, s, []) refl)

  abbrev Moved : SlaveDevice Task → SlaveDevice Task → Type 0
  Moved d d' = Move d.slave_status (phase_of d) (phase_of d')

  moved :
      (d d0 d1 d' : SlaveDevice Task) → Confirmed d d0 → Sent d0 d1 → SameFlags d1 d' → Moved d d'
  moved d d0 d1 d' = Move-phases d.slave_status (flags d) (flags d0) (flags d1) (flags d')

  pub process_slave-Move :
      (d : SlaveDevice Task) (now : ℕ) (s : Shared)
      → Ends (After (Moved d)) (process_slave C d now s)
  unfolding process_slave
  process_slave-Move d now s =
      let d0 = confirm_ready C d in
      let a = confirm_ready-Confirmed d in
      Ends-if (After (Moved d)) (not d.is_conf_ros_done || not d.is_ecat_conf_done) _ _
        (Ends-some (After (Moved d)) (d, s, []) stay)
        (Ends-bind (Sent d0) (After (Moved d)) (when (is_sending C d0) send_arg d0) _
          (Ends-when (Sent d0) (is_sending C d0) send_arg d0 (inl refl) (send_arg-Sent d0))
          λ d1 b.
            Ends-bind (SameFlags d1) (After (Moved d))
              (when (is_starting C d1) (start_working C) d1) _
              (Ends-when (SameFlags d1) (is_starting C d1) (start_working C) d1 refl
                (start_working-SameFlags d1))
              λ d2 c.
                Ends-if (After (Moved d)) d2.is_ready _ _
                  (λ (d', s', out) e.
                    moved d d0 d1 d' a b (process_pdo-SameFlags d2 now s (d', s', out) e ∙ c))
                  (Ends-some (After (Moved d)) (d2, s, []) (moved d d0 d1 d2 a b c)))

  receive_from_slave-same :
      (d : SlaveDevice Task) (status : ℕ) (inputs : List ℕ)
      → Ends
          (λ d'. (d'.slave_status ≡ status) × SameFlags d d')
          (receive_from_slave d status inputs)
  unfolding receive_from_slave
  receive_from_slave-same d status inputs d' e =
      let (buf, p, q) =
        >>=-eq-some (first d.slave_to_master_buf_len inputs >>= memcpy d.slave_to_master_buf 0) _
          e in
      Ends-some (λ d'. (d'.slave_status ≡ status) × SameFlags d d')
        (record d { slave_status = status; slave_to_master_buf = buf }) (refl, refl) d' q

  round-Move :
      (d d1 d' : SlaveDevice Task) (status : ℕ)
      → (d1.slave_status ≡ status) × SameFlags d d1
      → Moved d1 d'
      → Move status (phase_of d) (phase_of d')
  round-Move d d1 d' status (e, same) m =
      subst (λ x. Move x (phase_of d) (phase_of d')) e
        (subst (λ x. Move d1.slave_status (phase x) (phase_of d')) same m)

  -- Every run of the data cycle for one slave follows the automaton of its phases. In a round it
  -- may stay in its phase, go from sending arguments to having sent them, or, when it is
  -- configured and the round's frame reports that it is ready, go to working; it never goes back.
  pub slave_run-Moves :
      (fs : List (ℕ × Frame)) (d : SlaveDevice Task) (s : Shared) {d' : SlaveDevice Task}
      {s' : Shared}
      → slave_run C d s fs ≡ some (d', s')
      → Moves fs (phase_of d) (phase_of d')
  unfolding slave_run
  slave_run-Moves [] d s {d'} e = let same : d ≡ d' = cc e in rw (← same) done
  slave_run-Moves ((now, f) ∷ fs) d s {d'} e =
      let (d1, p, q) = >>=-eq-some (receive_from_slave d f.status f.bytes) _ e in
      let ((d2, s2, out), r, t) = >>=-eq-some (process_slave C d1 now s) _ q in
      next
        (round-Move d d1 d2 f.status (receive_from_slave-same d f.status f.bytes d1 p)
          (process_slave-Move d1 now s (d2, s2, out) r))
        (slave_run-Moves fs d2 s2 t)

  -- When a slave that is not working is working at the end of a run of the data cycle, a frame of
  -- the run has reported that it is ready.
  slave_run-HasConfirmed :
      (fs : List (ℕ × Frame)) (d : SlaveDevice Task) (s : Shared) {d' : SlaveDevice Task}
      {s' : Shared}
      → phase_of d ≢ working
      → slave_run C d s fs ≡ some (d', s')
      → phase_of d' ≡ working
      → HasConfirmed fs
  slave_run-HasConfirmed fs d s h e w = Moves-HasConfirmed (slave_run-Moves fs d s e) h w
