-- ===== src/Task/Class.antt =====
-- The virtual methods of `TaskWrapper` (src/soem_wrapper/include/soem_wrapper/task_defs.hpp), as
-- what a slave device relies on. `Shared` holds the static messages of the task classes.
use ecat_v2_master.Base.{ℕ, ◌≡◌, List, Option, some, Bool, length}

pub record TaskClass : Type 1 where
  pub Task : Type 0
  pub Shared : Type 0
  pub Message : Type 0
  pub has_publishers : Task → Bool
  pub has_subscribers : Task → Bool
  pub connection_lost_read_action : Task → ℕ
  pub connection_lost_write_action : Task → ℕ
  pub init_value : Task → List ℕ → Option (List ℕ)
  pub read : Task → ℕ → List ℕ → Shared → Option (Shared × List Message)
  pub publish_empty_message : Task → ℕ → Shared → Shared × List Message
  -- A task writes inside the buffer and leaves its size.
  pub length-init_value :
      (t : Task) (buf : List ℕ) {buf' : List ℕ}
      → init_value t buf ≡ some buf'
      → length buf' ≡ length buf
