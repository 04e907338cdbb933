-- ===== src/Node/Safety/Schedule.antt =====
-- The two threads of the node and the subscriptions, interleaved in any order, for one slave
-- (`datacycle_callback` and `state_check_callback` in src/soem_wrapper/src/ecat_node.cpp).
--
-- A step is a section that holds the device's mutex, a call of the check into the EtherCAT stack,
-- or one of the two sections that take no lock, the reset at the exit and `recover_state` of a slave
-- that the stack has recovered; an unlocked section is taken as whole too.
use ecat_v2_master.Base.{
  suc, when, Runs, Runs-bind, Runs-when, ℕ, ◌≡◌, refl, sym, ◌∙◌, List, Option, some, length, ◌>>=◌,
}
use ecat_v2_master.Task.Class.{TaskClass}
use ecat_v2_master.Device.{SlaveDevice, receive_from_slave, transfer_to_slave, write_init_values}
use ecat_v2_master.Device.Safety.{IsSound, with_out}
use ecat_v2_master.Device.Safety.Sending.{receive_from_slave-Runs}
use ecat_v2_master.Device.Safety.Tasks.{StaysSound, write_init_values-Runs}
use ecat_v2_master.Node.{Frame, process_slave}
use ecat_v2_master.Node.Safety.{process_slave-Runs}
use ecat_v2_master.Node.Safety.Cycle.{transfer_to_slave-Runs}
use ecat_v2_master.Node.Health.{EcState, Entry, Bus}
use ecat_v2_master.Node.Health.Sections.{Place, section}
use ecat_v2_master.Node.Health.Bounds.{IsSoundBus, PlacedSound, section-Runs}

module _ (C : TaskClass) where
  open C use {Task, Shared}

  -- The device, the EtherCAT stack's entry and image of the slave, where the check of the slave
  -- stands, and the tasks' static messages
  pub record Watched : Type 0 where
    pub device : SlaveDevice Task
    pub entry : Entry
    pub place : Place
    pub output : List ℕ
    pub shared : Shared

  -- What a round of the data cycle does with the slave: it takes the frame, processes it and sends
  -- the image, and it resets the tasks when exit is requested. The check reads the states of the
  -- bus, which gives the slave any state, and takes its sections one by one, each with what the bus
  -- answers. The handler of a subscription comes with its message.
  pub data Step : Type 0 where
    receive : (frame : Frame) → Step
    process : (now : ℕ) → Step
    reset : Step
    transfer : Step
    read_state : (state : EcState) → Step
    check : (now : ℕ) → (bus : Bus C) → Step
    command : (handler : List ℕ → Option (List ℕ)) → Step

  unfoldable pub take_step : Step → Watched → Option Watched
  unfolding receive_from_slave process_slave section write_init_values transfer_to_slave
  take_step (receive frame) w =
      receive_from_slave w.device frame.status frame.bytes >>= λ d. some (record w { device = d })
  take_step (process now) w = process_slave C w.device now w.shared >>= λ (d', s', out).
      some (record w { device = d'; shared = s' })
  take_step reset w = when w.device.is_arg_sent (write_init_values C) w.device >>= λ d.
      some (record w { device = d })
  take_step transfer w = transfer_to_slave w.device w.output >>= λ o. some (record w { output = o })
  take_step (read_state state) w = some (record w { entry = record w.entry { state = state } })
  take_step (check now bus) w =
      section C bus now w.place w.device w.entry w.shared >>= λ (p, (d', e', s', out)).
      some (record w { device = d'; entry = e'; place = p; shared = s' })
  take_step (command handler) w = handler w.device.master_to_slave_buf >>= λ image.
      some (record w { device = record w.device { master_to_slave_buf = image } })

  module _ (outs ins : ℕ) where
    -- A frame has the input's size, a handler works on an image of the registered size and leaves
    -- its size, and the hook that the bus runs keeps a device sound.
    abbrev pub IsFair : Step → Type 0
    IsFair (receive frame) = length frame.bytes ≡ ins
    IsFair (process now) = Unit
    IsFair reset = Unit
    IsFair transfer = Unit
    IsFair (read_state state) = Unit
    IsFair (check now bus) = IsSoundBus C outs ins bus
    IsFair (command handler) =
        (image : List ℕ) → length image ≡ outs → Runs (λ b. length b ≡ outs) (handler image)

    abbrev pub WatchedSound : Watched → Type 0
    WatchedSound w = IsSound C outs ins w.device × (length w.output ≡ suc outs)

    pub take_step-Runs :
        (a : Step) (w : Watched) → IsFair a → WatchedSound w → Runs WatchedSound (take_step a w)
    unfolding take_step
    take_step-Runs (receive frame) w fair (v, o) =
        Runs-bind (λ d. IsSound C outs ins d) WatchedSound
          (receive_from_slave w.device frame.status frame.bytes) _
          (receive_from_slave-Runs C outs ins w.device frame.status frame.bytes v
            (fair ∙ sym v.in_is))
          λ d v1. (_, refl, (v1, o))
    take_step-Runs (process now) w fair (v, o) =
        Runs-bind (StaysSound C outs ins) WatchedSound (process_slave C w.device now w.shared) _
          (process_slave-Runs C outs ins w.device now w.shared v)
          λ (d', s', out) v1. (_, refl, (v1, o))
    take_step-Runs reset w fair (v, o) =
        Runs-bind (λ d. IsSound C outs ins d) WatchedSound
          (when w.device.is_arg_sent (write_init_values C) w.device) _
          (Runs-when (λ d. IsSound C outs ins d) w.device.is_arg_sent (write_init_values C) w.device
            v (write_init_values-Runs C outs ins w.device v))
          λ d v1. (_, refl, (v1, o))
    take_step-Runs transfer w fair (v, o) =
        Runs-bind (λ o'. length o' ≡ suc outs) WatchedSound (transfer_to_slave w.device w.output) _
          (transfer_to_slave-Runs C outs ins w.device w.output v o) λ o' h. (_, refl, (v, h))
    take_step-Runs (read_state state) w fair (v, o) = (_, refl, (v, o))
    take_step-Runs (check now bus) w fair (v, o) =
        Runs-bind (PlacedSound C outs ins) WatchedSound
          (section C bus now w.place w.device w.entry w.shared) _
          (section-Runs C outs ins bus now w.place w.device w.entry w.shared fair v)
          λ (p, (d', e', s', out)) v1. (_, refl, (v1, o))
    take_step-Runs (command handler) w fair (v, o) =
        Runs-bind (λ image. length image ≡ outs) WatchedSound (handler w.device.master_to_slave_buf)
          _ (fair w.device.master_to_slave_buf (v.out_size ∙ v.out_is))
          λ image h. (_, refl, (with_out C outs ins w.device image v (h ∙ sym v.out_is), o))
