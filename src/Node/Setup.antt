-- ===== src/Node/Setup.antt =====
-- The start of the node: `setup_ecat` (src/soem_wrapper/src/ecat_node.cpp) and
-- `init_slave_devices_vector`
-- (src/soem_wrapper/src/soem_backend.cpp).
--
-- What the EtherCAT stack answers is a `Master`. Its mapping runs the configuration hook of each
-- device, so it is a function on the devices; the state of the bus is asked once a round.
pub mod Started
use ecat_v2_master.Base.{
  ℕ, zero, suc, ◌+◌, ◌≤◌, ◌<◌, ◌≡◌, ◌≢◌, ==-false, All, refl, sym, ap, subst, ◌∙◌, inl, inr, ◌⊎◌,
  Bool, true, false, not, ◌||◌, List, [], ◌∷◌, ◌++◌, Option, some, arith, pos, Bool-cases, taken,
  passed, ◌==◌, if◌then◌else◌,
}
use ecat_v2_master.Config.{Outcome, value, Key, Entries}
use ecat_v2_master.Config.Buffer.{and_then-value}
use ecat_v2_master.Device.{SlaveDevice}
use ecat_v2_master.Sdo.{◌>>=◌, Endpoint}
use ecat_v2_master.Sdo.TaskList.{AnyTask, init_task_list}
use ecat_v2_master.Sdo.Arguments.{task_arguments}
use ecat_v2_master.Sdo.Whole.{init_task_list-task_arguments}
use ecat_v2_master.Node.Health.{EcState, state_operational}

abbrev pub is_operational : EcState → Bool
is_operational state_operational = true
is_operational _ = false

-- do … while (chk-- && state != EC_STATE_OPERATIONAL), from a round on; the number of rounds so far
-- and the last state
unfoldable pub mock_data_process : (ℕ → EcState) → ℕ → ℕ → ℕ × EcState
mock_data_process states zero round = (round + 1, states round)
mock_data_process states (suc chk) round =
    let rest = mock_data_process states chk (round + 1) in
    if is_operational (states round) then (round + 1, states round) else rest

abbrev pub AreNotOperational : (ℕ → EcState) → ℕ → ℕ → Type 0
AreNotOperational states first last =
    (k : ℕ) → first ≤ k → k < last → is_operational (states k) ≡ false

extend :
    (states : ℕ → EcState) (first last : ℕ)
    → is_operational (states first) ≡ false
    → AreNotOperational states (first + 1) last
    → AreNotOperational states first last
extend states first last now later k h l = elim (Bool-cases (first == k)) [
  | inl here ↦ let same : first ≡ k = ground (arith, here) in rw (← same) now
  | inr there ↦ later k (ground (arith, there, h)) l
]

-- The loop of setup_ecat ends with a last round, after at most as many rounds as the counter says
-- and one more: the state is operational in it or the counter has run out, and in no earlier round
-- the state was operational.
pub mock_data_process_lem :
    (states : ℕ → EcState) (chk round : ℕ)
    → (last : ℕ) × (mock_data_process states chk round ≡ (last + 1, states last))
      × (round ≤ last)
      × (last ≤ round + chk)
      × ((is_operational (states last) ≡ true) ⊎ (last ≡ round + chk))
      × AreNotOperational states round last
unfolding mock_data_process
mock_data_process_lem states zero round = (
  round,
  refl,
  omega arith,
  omega arith,
  inr (omega arith),
  λ k h l. absurd (omega (arith, h, l)),
)
mock_data_process_lem states (suc chk) round = elim (Bool-cases (is_operational (states round))) [
  | inl up ↦
      (round, rw up refl, omega arith, omega arith, inl up, λ k h l. absurd (omega (arith, h, l)))
  | inr down ↦
      let (last, e, ge, le, end, before) = mock_data_process_lem states chk (round + 1) in
      (
        last,
        rw down e,
        omega (arith, ge),
        omega (arith, le),
        later (states last) last chk round end,
        extend states round last down before,
      )
]
  where
    later :
        (s : EcState) (last chk round : ℕ)
        → (is_operational s ≡ true) ⊎ (last ≡ round + 1 + chk)
        → (is_operational s ≡ true) ⊎ (last ≡ round + suc chk)
    later s last chk round (inl up) = inl up
    later s last chk round (inr out) = inr (omega (arith, out))

abbrev pub fresh : ℕ → SlaveDevice AnyTask
fresh index = record {
  index = index;
  sw_rev = pos 0;
  sn = 0;
  device_type = 0;
  is_sw_rev_check_passed = false;
  is_recover_rejected = false;
  is_ready = false;
  last_latency_check_packet_send_time = 0;
  current_data_stamp = 0;
  master_status = 0;
  master_to_slave_buf = [];
  master_to_slave_buf_backup = [];
  master_to_slave_buf_len = 0;
  slave_status = 0;
  slave_to_master_buf = [];
  slave_to_master_buf_len = 0;
  arg_buf = [];
  arg_buf_len = 0;
  sending_arg_buf_idx = 1;
  is_arg_sent = false;
  is_ecat_conf_done = false;
  is_conf_ros_done = false;
  reconnected_times = 0;
  task_list = [];
}

-- The loop of init_slave_devices_vector, with the rounds left and the next index
unfoldable pub init_slave_devices : ℕ → ℕ → List (SlaveDevice AnyTask)
init_slave_devices zero index = []
init_slave_devices (suc rounds) index = fresh index ∷ init_slave_devices rounds (index + 1)

pub record Master : Type 0 where
  pub is_open : Bool
  -- 0 when none are found
  pub slaves_found : ℕ
  pub config_map : List (SlaveDevice AnyTask) → List (SlaveDevice AnyTask)
  pub states : ℕ → EcState

-- What setup_ecat returns, the devices, whether the two threads run, and the rounds of its loop
pub record Ready : Type 0 where
  pub result : Bool
  pub devices : List (SlaveDevice AnyTask)
  pub are_threads_started : Bool
  pub rounds : ℕ

-- What comes of the devices behind one whose init_task_list has returned
unfoldable pub next_devices :
    SlaveDevice AnyTask
    → List (SlaveDevice AnyTask)
    → Bool
    → Outcome (List (SlaveDevice AnyTask) × Bool)
    → Outcome (List (SlaveDevice AnyTask) × Bool)
next_devices d ds false rest = value (d ∷ ds, false)
next_devices d ds true rest = rest >>= λ (ds', all_done). value (d ∷ ds', all_done)

module _ (decimal : ℕ → Key) (es : Entries) where
  -- for (device : get_slave_devices()) if (!device->init_task_list()) return false;
  unfoldable pub init_task_lists :
      List (SlaveDevice AnyTask) → Outcome (List (SlaveDevice AnyTask) × Bool)
  unfolding init_task_list next_devices
  init_task_lists [] = value ([], true)
  init_task_lists (d ∷ ds) = init_task_list decimal es d >>= λ (d', done, endpoints).
      next_devices d' ds done (init_task_lists ds)

  unfoldable pub setup_ecat : Master → Outcome Ready
  unfolding init_slave_devices init_task_lists mock_data_process
  setup_ecat m =
      if not m.is_open || (m.slaves_found == 0)
      then value (record { result = false; devices = []; are_threads_started = false; rounds = 0 })
      else (init_task_lists (m.config_map (init_slave_devices m.slaves_found 1)) >>= λ (ds, done).
          if done
          then (let (rounds, state) = mock_data_process m.states 50 0 in
              value (record {
                result = true;
                devices = ds;
                are_threads_started = is_operational state;
                rounds = rounds;
              }))
          else value
              (record { result = false; devices = ds; are_threads_started = false; rounds = 0 }))
