-- ===== src/Node/Shutdown.antt =====
-- The end of the node: `on_shutdown` waits until the data cycle has reset the slaves
-- (src/soem_wrapper/src/ecat_node.cpp).
use ecat_v2_master.Base.{
  Runs, Runs-bind, Runs-when_known, Runs-passed, ℕ, suc, ◌≡◌, refl, sym, ap, ◌∙◌, Bool, true, false,
  List, [], ◌∷◌, Option, some, ◌>>=◌, when, length, length-replicate, replicate, All, arith,
  if◌then◌else◌,
}
use ecat_v2_master.Io.Splice.{overlay-whole}
use ecat_v2_master.Io.Writing.{memcpy-splice}
use ecat_v2_master.Task.Class.{TaskClass}
use ecat_v2_master.Device.{
  SlaveDevice, Event, first, init_tasks, transfer_to_slave, write_init_values,
}
use ecat_v2_master.Device.Recovery.{first-whole, memcpy-whole}
use ecat_v2_master.Device.Safety.{IsSound, with_out}
use ecat_v2_master.Device.Safety.Tasks.{init_tasks-Runs}
use ecat_v2_master.Node.{
  Frame, Node, receive_frames, process_slaves, exit_reset, reset_on_exit, transfer_images,
  data_cycle,
}
use ecat_v2_master.Node.Safety.Cycle.{
  AreWired, no_slaves, slave, Wired, receive_frames-Runs, process_slaves-Runs,
}

-- What a round of the data cycle works with
pub record Round : Type 0 where
  pub frames : List Frame
  pub now : ℕ

module _ (C : TaskClass) where
  open C use {Task, Shared, Message}

  -- while (!exiting_reset_called_), with the rounds that the data cycle has meanwhile; the first
  -- component says whether the loop has ended.
  unfoldable pub wait_for_reset :
      List Round → Node C → List (List ℕ) → Shared → Option (Bool × Node C × List (List ℕ) × Shared)
  unfolding data_cycle
  wait_for_reset [] n os s = some (n.exiting_reset_called, n, os, s)
  wait_for_reset (r ∷ rs) n os s =
      if n.exiting_reset_called
      then some (true, n, os, s)
      else (data_cycle C n r.frames os r.now s >>= λ (n', os', s', out).
          wait_for_reset rs n' os' s')

  unfoldable pub on_shutdown :
      List Round → Node C → List (List ℕ) → Shared → Option (Bool × Node C × List (List ℕ) × Shared)
  unfolding wait_for_reset
  on_shutdown rounds n = wait_for_reset rounds (record n { exiting = true })

  -- The image holds the initial values of the device's tasks, over zeros.
  abbrev pub IsReset : SlaveDevice Task → List ℕ → Type 0
  IsReset d image =
      d.is_arg_sent ≡ true
      → init_tasks C d.task_list (replicate d.master_to_slave_buf_len 0) ≡ some image

  write_init_values-IsReset :
      (outs ins : ℕ) (d : SlaveDevice Task)
      → IsSound C outs ins d
      → Runs
          (λ d'. IsSound C outs ins d' × IsReset d' d'.master_to_slave_buf)
          (write_init_values C d)
  unfolding write_init_values
  write_init_values-IsReset outs ins d v =
      let n = d.master_to_slave_buf_len in
      let zeros = length-replicate {A = ℕ} n 0 in
      let (buf, e, h) =
        init_tasks-Runs C outs ins d.slave_to_master_buf_len d.task_list (replicate n 0) n zeros
          v.tasks in
      (
        record d { master_to_slave_buf = buf },
        rw (memcpy-whole (replicate n 0) d.master_to_slave_buf (zeros ∙ sym v.out_size), e) refl,
        (with_out C outs ins d buf v h, λ sent. e),
      )

  abbrev pub AreReset : List (SlaveDevice Task) → Type 0
  AreReset ds = All (λ (d : SlaveDevice Task). IsReset d d.master_to_slave_buf) ds

  one_slave-Runs :
      (outs ins : ℕ) (d : SlaveDevice Task)
      → IsSound C outs ins d
      → Runs
          (λ d'. IsSound C outs ins d' × IsReset d' d'.master_to_slave_buf)
          (when d.is_arg_sent (write_init_values C) d)
  one_slave-Runs outs ins d v =
      Runs-when_known (λ d'. IsSound C outs ins d' × IsReset d' d'.master_to_slave_buf)
        d.is_arg_sent (write_init_values C) d (λ sent. write_init_values-IsReset outs ins d v)
        λ unsent. (v, λ sent. absurd (cc (sent, unsent)))

  exit_reset-AreReset :
      {ds : List (SlaveDevice Task)} {fs : List Frame} {os : List (List ℕ)}
      → AreWired C ds fs os
      → Runs (λ ds'. AreWired C ds' fs os × AreReset ds') (exit_reset C ds)
  unfolding exit_reset
  exit_reset-AreReset no_slaves = ([], refl, (no_slaves, tt))
  exit_reset-AreReset (slave {d} {f} {o} {ds} {fs} {os} outs ins v h k rest) =
      Runs-bind (λ d'. IsSound C outs ins d' × IsReset d' d'.master_to_slave_buf)
        (λ ds'. AreWired C ds' (f ∷ fs) (o ∷ os) × AreReset ds')
        (when d.is_arg_sent (write_init_values C) d) _ (one_slave-Runs outs ins d v)
        λ d' (v', r).
          Runs-bind (λ ds'. AreWired C ds' fs os × AreReset ds')
            (λ ds'. AreWired C ds' (f ∷ fs) (o ∷ os) × AreReset ds') (exit_reset C ds) _
            (exit_reset-AreReset rest)
            λ ds' (rest', rs). (_, refl, (slave outs ins v' h k rest', (r, rs)))

  -- What stands in the stack for a device: its status, then its image
  pub transfer_to_slave-whole :
      (d : SlaveDevice Task) (o : List ℕ)
      → length d.master_to_slave_buf ≡ d.master_to_slave_buf_len
      → length o ≡ suc d.master_to_slave_buf_len
      → transfer_to_slave d o ≡ some (d.master_status ∷ d.master_to_slave_buf)
  unfolding transfer_to_slave
  transfer_to_slave-whole d [] h k = absurd (cc k)
  transfer_to_slave-whole d (x ∷ xs) h k =
      let one = memcpy-splice (d.master_status ∷ []) (x ∷ xs) 0 (omega arith) in
      let image = d.master_to_slave_buf in
      let two = memcpy-splice image (d.master_status ∷ xs) 1 (omega (arith, h, k)) in
      rw (
        one,
        ap (λ n. first n image) (sym h) ∙ first-whole image,
        two,
        overlay-whole image xs (omega (arith, h, k)),
      )

  -- Each image in the stack is the device's status and the initial values of its tasks, when the
  -- device's arguments are sent.
  abbrev pub AreImages : List (SlaveDevice Task) → List (List ℕ) → Type 0
  AreImages [] os = Unit
  AreImages (d ∷ ds) [] = ⊥
  AreImages (d ∷ ds) (o ∷ os) =
      ((image : List ℕ) × (o ≡ d.master_status ∷ image) × IsReset d image) × AreImages ds os

  transfer_images-AreImages :
      {ds : List (SlaveDevice Task)} {fs : List Frame} {os : List (List ℕ)}
      → AreWired C ds fs os
      → AreReset ds
      → Runs (AreImages ds) (transfer_images C ds os)
  unfolding transfer_images
  transfer_images-AreImages no_slaves r = ([], refl, tt)
  transfer_images-AreImages (slave {d} {f} {o} {ds} {fs} {os} outs ins v h k rest) (r, rs) =
      let (os', e, images) = transfer_images-AreImages rest rs in
      (
        (d.master_status ∷ d.master_to_slave_buf) ∷ os',
        rw (transfer_to_slave-whole d o v.out_size (k ∙ ap suc (sym v.out_is)), e) refl,
        ((d.master_to_slave_buf, refl, r), images),
      )

  -- The end of the wait: the reset is marked, and the images hold it.
  abbrev pub HasEnded : Bool × Node C × List (List ℕ) × Shared → Type 0
  HasEnded (ended, n, os, s) =
      (ended ≡ true) × (n.exiting_reset_called ≡ true) × AreImages n.slave_devices os

  abbrev RoundEnded : Node C × List (List ℕ) × Shared × List (Event Message) → Type 0
  RoundEnded (n, os, s, out) = (n.exiting_reset_called ≡ true) × AreImages n.slave_devices os

  data_cycle-RoundEnded :
      (n : Node C) (fs : List Frame) (os : List (List ℕ)) (now : ℕ) (s : Shared)
      → n.exiting ≡ true
      → n.exiting_reset_called ≡ false
      → AreWired C n.slave_devices fs os
      → Runs RoundEnded (data_cycle C n fs os now s)
  unfolding data_cycle reset_on_exit
  data_cycle-RoundEnded n fs os now s exiting called wired =
      Runs-bind (λ ds. AreWired C ds fs os) RoundEnded (receive_frames C n.slave_devices fs) _
        (receive_frames-Runs C wired)
        λ ds w1.
          Runs-bind (Wired C fs os) RoundEnded (process_slaves C ds now s) _
            (process_slaves-Runs C now s w1)
            λ (ds', s', out) w2.
              Runs-bind (λ ds''. AreWired C ds'' fs os × AreReset ds'') RoundEnded
                (reset_on_exit C n ds') _ (rw (exiting, called) (exit_reset-AreReset w2))
                λ ds'' (w3, r).
                  Runs-bind (AreImages ds'') RoundEnded (transfer_images C ds'' os) _
                    (transfer_images-AreImages w3 r)
                    λ os' images. (_, refl, (rw (exiting, called) refl, images))

  wait_for_reset-done :
      (rs : List Round) (n : Node C) (os : List (List ℕ)) (s : Shared)
      → n.exiting_reset_called ≡ true
      → wait_for_reset rs n os s ≡ some (true, n, os, s)
  unfolding wait_for_reset
  wait_for_reset-done [] n os s e = rw e refl
  wait_for_reset-done (r ∷ rs) n os s e = rw e refl

  -- The reset has not been called, all devices are sound, each frame has the size of its device's
  -- input and each image of the EtherCAT stack has the size of its device's output and one byte.
  -- Then the wait of on_shutdown ends after one round of the data cycle, without an access out of
  -- bounds, the reset is marked as called, and what stands in the stack for each device is its
  -- status and an image; for a device whose arguments are sent the image is the initial values of
  -- its tasks over zeros.
  pub on_shutdown-HasEnded :
      (r : Round) (rs : List Round) (n : Node C) (os : List (List ℕ)) (s : Shared)
      → n.exiting_reset_called ≡ false
      → AreWired C n.slave_devices r.frames os
      → Runs HasEnded (on_shutdown (r ∷ rs) n os s)
  unfolding on_shutdown wait_for_reset
  on_shutdown-HasEnded r rs n os s called wired =
      Runs-passed HasEnded n.exiting_reset_called _ _ called (
        Runs-bind RoundEnded HasEnded
          (data_cycle C (record n { exiting = true }) r.frames os r.now s) _
          (data_cycle-RoundEnded (record n { exiting = true }) r.frames os r.now s refl called
            wired)
          λ (n', os', s', out) (marked, images).
            ((true, n', os', s'), wait_for_reset-done rs n' os' s' marked, (refl, marked, images)))
