-- ===== src/Sdo/Cleanup/Ended.antt =====
-- `SlaveDevice::cleanup`, which the data cycle calls for each device at its end.
use ecat_v2_master.Base.{ℕ, ◌≡◌, ap, ap₂, refl, List, [], ◌∷◌, Option, none}
use ecat_v2_master.Io.{Cursor}
use ecat_v2_master.Config.{value, Key, Entries}
use ecat_v2_master.Sdo.{Endpoint}
use ecat_v2_master.Sdo.TaskList.{AnyTask, AppType, init_sdo}
use ecat_v2_master.Sdo.Cleanup.{hold, HeldTask, cleanup_tasks, device_cleanup}
use ecat_v2_master.Sdo.Cleanup.Classes.{init_sdo-closed}

module _ (decimal : ℕ → Key) (es : Entries) where
  -- The tasks hold what a call of init_sdo has created for each.
  pub data AreMade : List HeldTask → Type 0 where
    no_tasks : AreMade []
    made :
        (app : AppType) (prefix : Key) (c : Cursor) {t : AnyTask} {eps : List Endpoint}
        {c' : Cursor} {ts : List HeldTask}
        → init_sdo decimal es app prefix c ≡ value ((t, eps), c')
        → AreMade ts
        → AreMade ((t, hold t eps) ∷ ts)

  -- The tasks without their handles
  abbrev pub emptied : List HeldTask → List HeldTask
  emptied [] = []
  emptied ((t, held) ∷ ts) = (t, []) ∷ emptied ts

  cleanup_tasks-emptied : {ts : List HeldTask} → AreMade ts → cleanup_tasks ts ≡ emptied ts
  unfolding cleanup_tasks
  cleanup_tasks-emptied no_tasks = refl
  cleanup_tasks-emptied (made app prefix c {t} e rest) =
      ap₂ (λ held ts. (t, held) ∷ ts) (init_sdo-closed es prefix decimal app c e)
        (cleanup_tasks-emptied rest)

  -- When each task of a device holds what init_sdo has created for it, of any of the fourteen
  -- classes and with any configuration, then the cleanup of the device leaves its tasks, no
  -- publisher of the latency, and no publisher and no subscription of any task.
  pub device_cleanup-emptied :
      (latency : Option Endpoint) (ts : List HeldTask)
      → AreMade ts
      → device_cleanup (latency, ts) ≡ (none, emptied ts)
  unfolding device_cleanup
  device_cleanup-emptied latency ts m = ap (λ ts. (none, ts)) (cleanup_tasks-emptied m)
