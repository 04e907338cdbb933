-- ===== src/Examples/Rounds.antt =====
-- Two slaves with an SBUS receiver and a DSHOT output each: the first is lost between two sections
-- of the data cycle, is configured again by `init` and is found, and is sent a command on the way.
use ecat_v2_master.Base.{
  Runs, ℕ, ◌≡◌, refl, ◌∙◌, List, [], ◌∷◌, true, false, some, replicate, pos, All, arith, length,
}
use ecat_v2_master.Io.Splice.{splice, length-splice}
use ecat_v2_master.Task.Pwm.{FourChannels, WriteChannels, dshot_on_command}
use ecat_v2_master.Task.Pwm.Channels.{channel_bytes, four, dshot_on_command-splice}
use ecat_v2_master.Device.Init.{Answers, init}
use ecat_v2_master.Device.Safety.Setup.{init-IsSound}
use ecat_v2_master.Sdo.AllTasks.Fitting.{all_tasks}
use ecat_v2_master.Node.Health.{Bus, state_none, state_init, state_operational}
use ecat_v2_master.Node.Health.Bounds.{IsSoundBus}
use ecat_v2_master.Node.Health.Sections.{away}
use ecat_v2_master.Node.Safety.Schedule.{
  Step, receive, process, reset, transfer, read_state, check, command,
}
use ecat_v2_master.Node.Safety.System.{
  Slot, run_system, AreSound, IsFairAt, SystemSound, run_system-Runs,
}
use ecat_v2_master.Examples.Inputs.{ints}
use ecat_v2_master.Examples.Sdos.{dshot_info}
use ecat_v2_master.Examples.Systems.{powers, bits, wide, wide-IsSound, messages}

abbrev slot : Slot (all_tasks ints powers bits)
slot = record {
  device = wide;
  entry = record { state = state_operational; islost = false };
  place = away;
  output = replicate 13 0;
}

abbrev sizes : List (ℕ × ℕ)
sizes = (12, 24) ∷ (12, 24) ∷ []

slots-AreSound : AreSound (all_tasks ints powers bits) sizes (slot ∷ slot ∷ [])
slots-AreSound = ((wide-IsSound, refl), ((wide-IsSound, refl), tt))

abbrev answers : Answers
answers = record {
  sn = 7;
  sw_rev = pos 8;
  eep_id = 3;
  min_sw_rev = pos 8;
  master_to_slave_buf_len = 12;
  slave_to_master_buf_len = 24;
  sdo_len = some 8;
}

-- The hook runs `init`.
abbrev bus : Bus (all_tasks ints powers bits)
bus = record {
  after_operational = state_operational;
  second_look = state_init;
  reconfig_slave = λ d. ((init answers d).0, state_operational, true);
  is_recovered = false;
}

abbrev fan : FourChannels
fan = record { info = dshot_info; init_value = 300 }

abbrev speeds : WriteChannels
speeds = record { channel1 = 300; channel2 = 400; channel3 = 500; channel4 = 600 }

abbrev frame : ℕ → Step (all_tasks ints powers bits)
frame n = receive (record { status = n; bytes = replicate 24 1 })

abbrev steps : List (ℕ × Step (all_tasks ints powers bits))
steps =
    (0, frame 2)
    ∷ (0, read_state state_none)
    ∷ (0, check 5 bus)
    ∷ (0, process 6)
    ∷ (0, check 7 bus)
    ∷ (1, check 7 bus)
    ∷ (0, command (dshot_on_command fan speeds))
    ∷ (0, check 8 bus)
    ∷ (0, read_state state_init)
    ∷ (0, check 9 bus)
    ∷ (0, check 9 bus)
    ∷ (1, transfer)
    ∷ (0, check 9 bus)
    ∷ (0, frame 3)
    ∷ (0, check 9 bus)
    ∷ (0, check 9 bus)
    ∷ (0, reset)
    ∷ []

command-Runs :
    (image : List ℕ)
    → length image ≡ 12
    → Runs (λ b. length b ≡ 12) (dshot_on_command fan speeds image)
command-Runs image h = (
  splice 2 (channel_bytes (four speeds)) image,
  dshot_on_command-splice fan speeds image (omega (arith, h)),
  length-splice 2 (channel_bytes (four speeds)) image ∙ h,
)

steps-AreFair : All (IsFairAt (all_tasks ints powers bits) sizes) steps
steps-AreFair =
    let keeps : IsSoundBus (all_tasks ints powers bits) 12 24 bus =
      λ d v. init-IsSound (all_tasks ints powers bits) 12 24 answers d refl refl v in
    (
      refl,
      (
        tt,
        (
          keeps,
          (
            tt,
            (
              keeps,
              (
                keeps,
                (
                  command-Runs,
                  (
                    keeps,
                    (tt, (keeps, (keeps, (tt, (keeps, (refl, (keeps, (keeps, (tt, tt))))))))),
                  ),
                ),
              ),
            ),
          ),
        ),
      ),
    )

run_system-Runs_example :
    Runs
      (SystemSound (all_tasks ints powers bits) sizes)
      (run_system (all_tasks ints powers bits) steps (slot ∷ slot ∷ [], messages))
run_system-Runs_example =
    run_system-Runs (all_tasks ints powers bits) sizes steps (slot ∷ slot ∷ []) messages
      steps-AreFair slots-AreSound
