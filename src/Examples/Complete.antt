-- ===== src/Examples/Complete.antt =====
-- The configuration of the slave with an SBUS receiver and a DSHOT output is complete, and its arguments do
-- not fit into six bytes.
use ecat_v2_master.Base.{ℕ, ◌≡◌, refl, sym, ap, subst, ◌∙◌, List, [], ◌∷◌, some, true, arith}
use ecat_v2_master.Config.{value, out_of_bounds, Key}
use ecat_v2_master.Device.{SlaveDevice}
use ecat_v2_master.Sdo.{codes, Endpoint}
use ecat_v2_master.Sdo.TaskList.{
  AnyTask, AppType, sbus, dshot_app, app_types, case_for, task_type, init_task_list,
}
use ecat_v2_master.Sdo.Arguments.{task_arguments}
use ecat_v2_master.Sdo.Sensors.{publish_only}
use ecat_v2_master.Sdo.Outputs.{finish_four}
use ecat_v2_master.Sdo.Complete.Classes.{IsConfigured}
use ecat_v2_master.Sdo.Complete.Whole.{AreConfigured, init_task_list-completes}
use ecat_v2_master.Sdo.Complete.Spills.Whole.{init_task_list-spills}
use ecat_v2_master.Examples.Sdos.{digit, tasks, blank}

-- A type stands for one class.
set_as :
    (len : ℕ) (prefix : Key) (n : ℕ) (b : AppType)
    → task_type digit (tasks len) prefix ≡ value n
    → case_for n app_types ≡ some b
    → IsConfigured digit (tasks len) b prefix
    → (type : ℕ) (a : AppType) → task_type digit (tasks len) prefix ≡ value type
    → case_for type app_types ≡ some a
    → IsConfigured digit (tasks len) a prefix
set_as len prefix n b p q g type a e k =
    let same : n ≡ type = cc (sym p ∙ e) in
    let like : b ≡ a = cc (sym q ∙ ap (λ n. case_for n app_types) same ∙ k) in
    subst (λ a. IsConfigured digit (tasks len) a prefix) like g

both_set : (len : ℕ) → AreConfigured digit (tasks len) 2 7 1
unfolding task_type case_for publish_only finish_four app_types
both_set len = (
  set_as len (codes "sn7_app_1_") 11 sbus refl refl (_, refl),
  (set_as len (codes "sn7_app_2_") 4 dshot_app refl refl (_, refl), tt),
)

init_task_list-completes_example :
    (d' : SlaveDevice AnyTask) × (endpoints : List Endpoint) × (init_task_list digit (tasks 8) blank
      ≡ value (d', true, endpoints))
unfolding task_arguments
init_task_list-completes_example =
    init_task_list-completes digit (tasks 8) blank 8 2 (codes "l")
      (2 ∷ 11 ∷ 4 ∷ 1 ∷ 5 ∷ 44 ∷ 1 ∷ []) refl refl refl refl refl (both_set 8) refl (omega arith)

init_task_list-spills_example : init_task_list digit (tasks 6) blank ≡ out_of_bounds
unfolding task_arguments
init_task_list-spills_example =
    init_task_list-spills digit (tasks 6) blank 6 2 (codes "l") (2 ∷ 11 ∷ 4 ∷ 1 ∷ 5 ∷ 44 ∷ 1 ∷ [])
      refl refl refl refl refl (both_set 6) refl (omega arith)
