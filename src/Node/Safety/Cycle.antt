-- ===== src/Node/Safety/Cycle.antt =====
-- One round of the data cycle over all slaves returns.
use ecat_v2_master.Base.{
  Runs, Runs-bind, Runs-when, ℕ, suc, ◌≡◌, refl, sym, ◌∙◌, not, ◌&&◌, ◌||◌, List, [], ◌∷◌, length,
  arith, when,
}
use ecat_v2_master.Io.{memcpy}
use ecat_v2_master.Task.Class.{TaskClass}
use ecat_v2_master.Device.{
  SlaveDevice, Event, first, receive_from_slave, transfer_to_slave, write_init_values,
}
use ecat_v2_master.Device.Safety.{IsSound}
use ecat_v2_master.Device.Safety.Sending.{memcpy-Runs, receive_from_slave-Runs}
use ecat_v2_master.Device.Safety.Tasks.{StaysSound, write_init_values-Runs}
use ecat_v2_master.Device.Safety.Losing.{first-Runs}
use ecat_v2_master.Node.{
  Frame, Node, receive_frames, process_slave, process_slaves, exit_reset, reset_on_exit,
  transfer_images, data_cycle,
}
use ecat_v2_master.Node.Safety.{process_slave-Runs}

module _ (C : TaskClass) where
  open C use {Task, Shared, Message}

  -- Each device with its frame and its image in the EtherCAT stack: the device is sound, the frame
  -- has the input's size, and the image has room for the status and the output.
  pub data AreWired : List (SlaveDevice Task) → List Frame → List (List ℕ) → Type 0 where
    no_slaves : AreWired [] [] []
    slave :
        {d : SlaveDevice Task} {f : Frame} {o : List ℕ} {ds : List (SlaveDevice Task)}
        {fs : List Frame} {os : List (List ℕ)} (outs ins : ℕ)
        → IsSound C outs ins d
        → length f.bytes ≡ ins
        → length o ≡ suc outs
        → AreWired ds fs os
        → AreWired (d ∷ ds) (f ∷ fs) (o ∷ os)

  pub receive_frames-Runs :
      {ds : List (SlaveDevice Task)} {fs : List Frame} {os : List (List ℕ)}
      → AreWired ds fs os
      → Runs (λ ds'. AreWired ds' fs os) (receive_frames C ds fs)
  unfolding receive_frames
  receive_frames-Runs no_slaves = ([], refl, no_slaves)
  receive_frames-Runs (slave {d} {f} {o} {ds} {fs} {os} outs ins v h k rest) =
      Runs-bind (λ d'. IsSound C outs ins d') (λ ds'. AreWired ds' (f ∷ fs) (o ∷ os))
        (receive_from_slave d f.status f.bytes) _
        (receive_from_slave-Runs C outs ins d f.status f.bytes v (h ∙ sym v.in_is))
        λ d' v'.
          Runs-bind (λ ds'. AreWired ds' fs os) (λ ds'. AreWired ds' (f ∷ fs) (o ∷ os))
            (receive_frames C ds fs) _ (receive_frames-Runs rest)
            λ ds' rest'. (_, refl, slave outs ins v' h k rest')

  abbrev pub Wired :
      List Frame → List (List ℕ) → List (SlaveDevice Task) × Shared × List (Event Message) → Type 0
  Wired fs os (ds, s, out) = AreWired ds fs os

  pub process_slaves-Runs :
      (now : ℕ) (s : Shared) {ds : List (SlaveDevice Task)} {fs : List Frame} {os : List (List ℕ)}
      → AreWired ds fs os
      → Runs (Wired fs os) (process_slaves C ds now s)
  unfolding process_slaves
  process_slaves-Runs now s no_slaves = (_, refl, no_slaves)
  process_slaves-Runs now s (slave {d} {f} {o} {ds} {fs} {os} outs ins v h k rest) =
      Runs-bind (StaysSound C outs ins) (Wired (f ∷ fs) (o ∷ os)) (process_slave C d now s) _
        (process_slave-Runs C outs ins d now s v)
        λ (d', s', out) v'.
          Runs-bind (Wired fs os) (Wired (f ∷ fs) (o ∷ os)) (process_slaves C ds now s') _
            (process_slaves-Runs now s' rest)
            λ (ds', s'', out') rest'. (_, refl, slave outs ins v' h k rest')

  exit_reset-Runs :
      {ds : List (SlaveDevice Task)} {fs : List Frame} {os : List (List ℕ)}
      → AreWired ds fs os
      → Runs (λ ds'. AreWired ds' fs os) (exit_reset C ds)
  unfolding exit_reset
  exit_reset-Runs no_slaves = ([], refl, no_slaves)
  exit_reset-Runs (slave {d} {f} {o} {ds} {fs} {os} outs ins v h k rest) =
      Runs-bind (λ d'. IsSound C outs ins d') (λ ds'. AreWired ds' (f ∷ fs) (o ∷ os))
        (when d.is_arg_sent (write_init_values C) d) _
        (Runs-when (λ d'. IsSound C outs ins d') d.is_arg_sent (write_init_values C) d v
          (write_init_values-Runs C outs ins d v))
        λ d' v'.
          Runs-bind (λ ds'. AreWired ds' fs os) (λ ds'. AreWired ds' (f ∷ fs) (o ∷ os))
            (exit_reset C ds) _ (exit_reset-Runs rest)
            λ ds' rest'. (_, refl, slave outs ins v' h k rest')

  pub transfer_to_slave-Runs :
      (outs ins : ℕ) (d : SlaveDevice Task) (o : List ℕ)
      → IsSound C outs ins d
      → length o ≡ suc outs
      → Runs (λ o'. length o' ≡ suc outs) (transfer_to_slave d o)
  unfolding transfer_to_slave
  transfer_to_slave-Runs outs ins d o v k =
      Runs-bind (λ o'. length o' ≡ suc outs) (λ o'. length o' ≡ suc outs)
        (memcpy o 0 (d.master_status ∷ [])) _
        (memcpy-Runs o (d.master_status ∷ []) 0 (suc outs) k (omega arith))
        λ o1 k1.
          Runs-bind (λ bs. length bs ≡ d.master_to_slave_buf_len) (λ o'. length o' ≡ suc outs)
            (first d.master_to_slave_buf_len d.master_to_slave_buf) _
            (first-Runs d.master_to_slave_buf d.master_to_slave_buf_len v.out_size)
            λ bs l. memcpy-Runs o1 bs 1 (suc outs) k1 (omega (arith, l, v.out_is))

  transfer_images-Runs :
      {ds : List (SlaveDevice Task)} {fs : List Frame} {os : List (List ℕ)}
      → AreWired ds fs os
      → Runs (λ os'. AreWired ds fs os') (transfer_images C ds os)
  unfolding transfer_images
  transfer_images-Runs no_slaves = ([], refl, no_slaves)
  transfer_images-Runs (slave {d} {f} {o} {ds} {fs} {os} outs ins v h k rest) =
      Runs-bind (λ o'. length o' ≡ suc outs) (λ os'. AreWired (d ∷ ds) (f ∷ fs) os')
        (transfer_to_slave d o) _ (transfer_to_slave-Runs outs ins d o v k)
        λ o' k'.
          Runs-bind (λ os'. AreWired ds fs os') (λ os'. AreWired (d ∷ ds) (f ∷ fs) os')
            (transfer_images C ds os) _ (transfer_images-Runs rest)
            λ os' rest'. (_, refl, slave outs ins v h k' rest')

  abbrev pub RoundWired :
      Node C → List Frame → Node C × List (List ℕ) × Shared × List (Event Message) → Type 0
  RoundWired n fs (n', os, s, out) =
      AreWired n'.slave_devices fs os
      × (n'.exiting_reset_called ≡ (n.exiting_reset_called || n.exiting))

  -- When all devices are sound, each frame has the size of its device's input and each image of
  -- the EtherCAT stack has the size of its device's output and one byte, a round of the data cycle
  -- over all slaves returns without an access out of bounds, and the same holds after it. That the
  -- exit reset was called is marked in it exactly when it was marked before or exit is requested.
  data_cycle-RoundWired :
      (n : Node C) (fs : List Frame) (os : List (List ℕ)) (now : ℕ) (s : Shared)
      → AreWired n.slave_devices fs os
      → Runs (RoundWired n fs) (data_cycle C n fs os now s)
  unfolding data_cycle reset_on_exit
  data_cycle-RoundWired n fs os now s wired =
      Runs-bind (λ ds. AreWired ds fs os) (RoundWired n fs) (receive_frames C n.slave_devices fs) _
        (receive_frames-Runs wired)
        λ ds w1.
          Runs-bind (Wired fs os) (RoundWired n fs) (process_slaves C ds now s) _
            (process_slaves-Runs now s w1)
            λ (ds', s', out) w2.
              Runs-bind (λ ds''. AreWired ds'' fs os) (RoundWired n fs) (reset_on_exit C n ds') _
                (Runs-when (λ ds''. AreWired ds'' fs os) (n.exiting && not n.exiting_reset_called)
                  (exit_reset C) ds' w2 (exit_reset-Runs w2))
                λ ds'' w3.
                  Runs-bind (λ os'. AreWired ds'' fs os') (RoundWired n fs)
                    (transfer_images C ds'' os) _ (transfer_images-Runs w3)
                    λ os' w4. (_, refl, (w4, refl))
