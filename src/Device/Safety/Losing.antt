-- ===== src/Device/Safety/Losing.antt =====
-- `on_connection_lost`, the saving and recovering of the image, and the restart of a transfer stay
-- inside their buffers.
use ecat_v2_master.Base.{
  Runs, Runs-bind, Runs-when, ℕ, ◌≡◌, refl, inl, inr, List, [], ◌∷◌, arith, length,
  length-replicate, replicate, All, ◌>>=◌, when, ◌==◌, Bool-cases, if◌then◌else◌,
}
use ecat_v2_master.Io.{memcpy}
use ecat_v2_master.Task.Class.{TaskClass}
use ecat_v2_master.Device.{
  SlaveDevice, Event, first, lose_tasks, on_connection_lost, pre_recover,
  recover_master_to_slave_buf, backup_master_to_slave_buf,
}
use ecat_v2_master.Device.Recovery.{first-whole}
use ecat_v2_master.Device.Safety.{Fits, IsSound, with_out, with_idx}
use ecat_v2_master.Device.Safety.Sending.{memcpy-Runs}
use ecat_v2_master.Device.Safety.Tasks.{StaysSound, init_value-Runs}

pub first-Runs : (xs : List ℕ) (n : ℕ) → length xs ≡ n → Runs (λ ys. length ys ≡ n) (first n xs)
first-Runs xs n e = (xs, rw (← e) (first-whole xs), e)

module _ (C : TaskClass) (outs ins : ℕ) where
  open C use {Task, Shared, Message}

  abbrev OfSize : ℕ → List ℕ × Shared × List (Event Message) → Type 0
  OfSize n (b, s, out) = length b ≡ n

  lose_tasks-Runs :
      (now inp : ℕ) (ts : List Task) (buf : List ℕ) (s : Shared) (out : ℕ)
      → length buf ≡ out
      → All (Fits C out inp) ts
      → Runs (OfSize out) (lose_tasks C now ts buf s)
  unfolding lose_tasks
  lose_tasks-Runs now inp [] buf s out h v = ((buf, s, []), refl, h)
  lose_tasks-Runs now inp (t ∷ ts) buf s out h (fits, rest) =
      Runs-bind (λ b. length b ≡ out) (OfSize out)
        (when (C.connection_lost_write_action t == 0x02) (C.init_value t) buf) _
        (Runs-when (λ b. length b ≡ out) (C.connection_lost_write_action t == 0x02) (C.init_value t)
          buf h (init_value-Runs C outs ins inp t buf out h fits))
        λ b k.
          Runs-bind (OfSize out) (OfSize out)
            (lose_tasks C now ts b
              (if C.connection_lost_read_action t == 0x02
                then C.publish_empty_message t now s
                else (s, [])).0)
            _ (lose_tasks-Runs now inp ts b _ out k rest) λ (b', s', msgs) k'. (_, refl, k')

  pub on_connection_lost-Runs :
      (d : SlaveDevice Task) (now : ℕ) (s : Shared)
      → IsSound C outs ins d
      → Runs (StaysSound C outs ins) (on_connection_lost C d now s)
  unfolding on_connection_lost
  on_connection_lost-Runs d now s v =
      Runs-bind (OfSize d.master_to_slave_buf_len) (StaysSound C outs ins)
        (lose_tasks C now d.task_list d.master_to_slave_buf s) _
        (lose_tasks-Runs now d.slave_to_master_buf_len d.task_list d.master_to_slave_buf s
          d.master_to_slave_buf_len v.out_size v.tasks)
        λ (b, s', msgs) k. (_, refl, with_out C outs ins d b v k)

  pub backup_master_to_slave_buf-Runs :
      (d : SlaveDevice Task)
      → IsSound C outs ins d
      → Runs (λ d'. IsSound C outs ins d') (backup_master_to_slave_buf d)
  unfolding backup_master_to_slave_buf
  backup_master_to_slave_buf-Runs d v =
      Runs-bind (λ b. Unit) (λ d'. IsSound C outs ins d')
        (first d.master_to_slave_buf_len d.master_to_slave_buf
          >>= memcpy (replicate d.master_to_slave_buf_len 0) 0)
        _
        (Runs-bind (λ b. length b ≡ d.master_to_slave_buf_len) (λ b. Unit)
          (first d.master_to_slave_buf_len d.master_to_slave_buf) _
          (first-Runs d.master_to_slave_buf d.master_to_slave_buf_len v.out_size)
          λ bs k.
            let (b, e, l) =
              memcpy-Runs (replicate d.master_to_slave_buf_len 0) bs 0 d.master_to_slave_buf_len
                (length-replicate d.master_to_slave_buf_len 0) (omega (arith, k)) in
            (b, e, tt))
        λ b k. (_, refl, v)

  pub recover_master_to_slave_buf-Runs :
      (d : SlaveDevice Task)
      → IsSound C outs ins d
      → Runs (λ d'. IsSound C outs ins d') (recover_master_to_slave_buf d)
  unfolding recover_master_to_slave_buf
  recover_master_to_slave_buf-Runs d v =
      elim (Bool-cases (length d.master_to_slave_buf_backup == d.master_to_slave_buf_len)) [
        | inl same ↦ rw same (
            Runs-bind (λ b. length b ≡ d.master_to_slave_buf_len) (λ d'. IsSound C outs ins d')
              (memcpy d.master_to_slave_buf 0 d.master_to_slave_buf_backup) _
              (memcpy-Runs d.master_to_slave_buf d.master_to_slave_buf_backup 0
                d.master_to_slave_buf_len v.out_size (ground (arith, same)))
              λ b k. (_, refl, with_out C outs ins d b v k))
        | inr other ↦ rw other (d, refl, v)
      ]

  pub pre_recover-IsSound :
      (d : SlaveDevice Task) → IsSound C outs ins d → IsSound C outs ins (pre_recover d)
  unfolding pre_recover
  pre_recover-IsSound d v =
      with_idx C outs ins d 1 v (omega arith) (omega (arith, v.idx_pos, v.idx_le))
