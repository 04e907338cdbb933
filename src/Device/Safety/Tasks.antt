-- ===== src/Device/Safety/Tasks.antt =====
-- `process_pdo` and `write_init_values` stay inside their buffers.
use ecat_v2_master.Base.{
  Runs, Runs-bind, Runs-when, Runs-if, ℕ, ◌≡◌, refl, ◌∙◌, List, [], ◌∷◌, some, arith, length,
  length-replicate, replicate, All, ◌>>=◌, when, ◌==◌, if◌then◌else◌,
}
use ecat_v2_master.Io.{memcpy}
use ecat_v2_master.Task.Class.{TaskClass}
use ecat_v2_master.Device.{
  SlaveDevice, Event, read_tasks, process_pdo, init_tasks, write_init_values,
}
use ecat_v2_master.Device.Safety.{Fits, IsSound, with_out}
use ecat_v2_master.Device.Safety.Sending.{memcpy-Runs}

module _ (C : TaskClass) (outs ins : ℕ) where
  open C use {Task, Shared, Message}

  -- A device that stays sound, with what a method returns beside it
  abbrev pub StaysSound : SlaveDevice Task × Shared × List (Event Message) → Type 0
  StaysSound (d, s, out) = IsSound C outs ins d

  read_tasks-Runs :
      (stamp : ℕ) (buf : List ℕ) (out : ℕ) (ts : List Task) (s : Shared)
      → All (Fits C out (length buf)) ts
      → Runs (λ r. Unit {0}) (read_tasks C stamp buf ts s)
  unfolding read_tasks
  read_tasks-Runs stamp buf out [] s v = ((s, []), refl, tt)
  read_tasks-Runs stamp buf out (t ∷ ts) s (fits, rest) =
      Runs-bind (λ r. Unit) (λ r. Unit)
        (if C.has_publishers t then C.read t stamp buf s else some (s, [])) _
        (Runs-if (λ r. Unit) (C.has_publishers t) (C.read t stamp buf s) (some (s, []))
          (fits.reads stamp buf s refl) ((s, []), refl, tt))
        λ (s', msgs) u.
          Runs-bind (λ r. Unit) (λ r. Unit) (read_tasks C stamp buf ts s') _
            (read_tasks-Runs stamp buf out ts s' rest) λ r w. (_, refl, tt)

  pub process_pdo-Runs :
      (d : SlaveDevice Task) (now : ℕ) (s : Shared)
      → IsSound C outs ins d
      → Runs StaysSound (process_pdo C d now s)
  unfolding process_pdo
  process_pdo-Runs d now s v =
      Runs-if StaysSound (d.slave_status == d.master_status) _ (some (d, s, []))
        (Runs-bind (λ r. Unit) StaysSound
          (read_tasks C d.last_latency_check_packet_send_time d.slave_to_master_buf d.task_list s) _
          (read_tasks-Runs _ d.slave_to_master_buf d.master_to_slave_buf_len d.task_list s
            (rw v.in_size v.tasks))
          λ r u. (_, refl, v))
        ((d, s, []), refl, v)

  pub init_value-Runs :
      (inp : ℕ) (t : Task) (buf : List ℕ) (out : ℕ)
      → length buf ≡ out
      → Fits C out inp t
      → Runs (λ b. length b ≡ out) (C.init_value t buf)
  init_value-Runs inp t buf out h fits =
      let (b, e, u) = fits.writes buf h in (b, e, C.length-init_value t buf e ∙ h)

  pub init_tasks-Runs :
      (inp : ℕ) (ts : List Task) (buf : List ℕ) (out : ℕ)
      → length buf ≡ out
      → All (Fits C out inp) ts
      → Runs (λ b. length b ≡ out) (init_tasks C ts buf)
  unfolding init_tasks
  init_tasks-Runs inp [] buf out h v = (buf, refl, h)
  init_tasks-Runs inp (t ∷ ts) buf out h (fits, rest) =
      Runs-bind (λ b. length b ≡ out) (λ b. length b ≡ out)
        (when (C.has_subscribers t) (C.init_value t) buf) _
        (Runs-when (λ b. length b ≡ out) (C.has_subscribers t) (C.init_value t) buf h
          (init_value-Runs inp t buf out h fits))
        λ b k. init_tasks-Runs inp ts b out k rest

  pub write_init_values-Runs :
      (d : SlaveDevice Task)
      → IsSound C outs ins d
      → Runs (λ d'. IsSound C outs ins d') (write_init_values C d)
  unfolding write_init_values
  write_init_values-Runs d v =
      Runs-bind (λ b. length b ≡ d.master_to_slave_buf_len) (λ d'. IsSound C outs ins d')
        (memcpy d.master_to_slave_buf 0 (replicate d.master_to_slave_buf_len 0)
          >>= init_tasks C d.task_list)
        _
        (Runs-bind (λ b. length b ≡ d.master_to_slave_buf_len)
          (λ b. length b ≡ d.master_to_slave_buf_len)
          (memcpy d.master_to_slave_buf 0 (replicate d.master_to_slave_buf_len 0)) _
          (memcpy-Runs d.master_to_slave_buf _ 0 d.master_to_slave_buf_len v.out_size
            (omega (arith, length-replicate {A = ℕ} d.master_to_slave_buf_len 0)))
          λ b k.
            init_tasks-Runs d.slave_to_master_buf_len d.task_list b d.master_to_slave_buf_len k
              v.tasks)
        λ b k. (_, refl, with_out C outs ins d b v k)
