-- ===== src/Examples/Starts.antt =====
-- A node with one slave, which reaches the operational state in the third round or never.
use ecat_v2_master.Base.{
  ℕ, ◌+◌, ◌≤◌, ◌≡◌, ◌⊎◌, refl, true, false, [], ◌∷◌, none, some, pos, All, arith, ◌==◌,
  if◌then◌else◌,
}
use ecat_v2_master.Io.{memcpy}
use ecat_v2_master.Config.{value}
use ecat_v2_master.Device.{SlaveDevice, first, send_arg}
use ecat_v2_master.Device.Init.{init}
use ecat_v2_master.Sdo.{copy_fields}
use ecat_v2_master.Sdo.TaskList.{AnyTask}
use ecat_v2_master.Examples.Sdos.{digit, tasks, blank, listed}
use ecat_v2_master.Node.Health.{EcState, state_safe_op, state_operational}
use ecat_v2_master.Node.Registry.{register_components, answers_for, send_arg-unregistered}
use ecat_v2_master.Node.Setup.{
  is_operational, mock_data_process, mock_data_process_lem, AreNotOperational, init_task_lists,
  Master, Ready, setup_ecat,
}
use ecat_v2_master.Node.Setup.Started.{IsListed, setup_ecat-started, setup_ecat-silent}

abbrev third : ℕ → EcState
third k = if k == 2 then state_operational else state_safe_op

mock_data_process_lem_example :
    (last : ℕ) × (mock_data_process third 50 0 ≡ (last + 1, third last))
    × (0 ≤ last)
    × (last ≤ 0 + 50)
    × ((is_operational (third last) ≡ true) ⊎ (last ≡ 0 + 50))
    × AreNotOperational third 0 last
mock_data_process_lem_example = mock_data_process_lem third 50 0

abbrev master : (ℕ → EcState) → Master
master states = record {
  is_open = true;
  slaves_found = 1;
  config_map = λ ds. blank ∷ [];
  states = states;
}

abbrev started : Ready
started = record { result = true; devices = listed ∷ []; are_threads_started = true; rounds = 3 }

setup_run : setup_ecat digit (tasks 8) (master third) ≡ value started
unfolding setup_ecat first memcpy copy_fields
setup_run = refl

setup_ecat-started_example :
    All (IsListed digit (tasks 8)) (listed ∷ [])
    × ((last : ℕ) × (3 ≡ last + 1)
        × (last ≤ 50)
        × (is_operational (third last) ≡ true)
        × AreNotOperational third 0 last)
setup_ecat-started_example =
    setup_ecat-started digit (tasks 8) (master third) started setup_run refl

lists_run : init_task_lists digit (tasks 8) (blank ∷ []) ≡ value (listed ∷ [], true)
unfolding init_task_lists first memcpy copy_fields
lists_run = refl

setup_ecat-silent_example :
    setup_ecat digit (tasks 8) (master (λ k. state_safe_op))
    ≡ value
        (record { result = true; devices = listed ∷ []; are_threads_started = false; rounds = 51 })
setup_ecat-silent_example =
    setup_ecat-silent digit (tasks 8) (master (λ k. state_safe_op)) (listed ∷ []) refl (omega arith)
      lists_run (λ k h l. refl)

abbrev unknown : SlaveDevice AnyTask
unknown = record blank { sn = 0 }

send_arg-unregistered_example :
    ((init (answers_for register_components 9 (pos 0) 5 (some 4)) unknown).1 ≡ 1)
    × (send_arg (init (answers_for register_components 9 (pos 0) 5 (some 4)) unknown).0 ≡ none)
send_arg-unregistered_example =
    send_arg-unregistered 9 5 0 4 unknown (omega arith) (omega arith) refl
