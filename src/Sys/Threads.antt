-- ===== src/Sys/Threads.antt =====
-- `exec_cmd` and `move_threads` (src/soem_wrapper/src/utils/sys_utils.cpp).
--
-- What a command prints, as the pieces that fgets reads, is the parameter `popen`: nothing when the
-- pipe cannot be opened. Of `std::system` the commands are kept, in their order.
pub mod Moved
use ecat_v2_master.Base.{
  ◌>>=◌, ℕ, ℤ, pos, negsuc, Bool, true, false, ◌||◌, List, [], ◌∷◌, ◌++◌, Option, none, some, ◌==◌,
  if◌then◌else◌,
}
use ecat_v2_master.Config.{Key}
use ecat_v2_master.Config.Text.{codes}
use ecat_v2_master.Sys.Words.{
  lines, skip_spaces, word, Extracted, untouched, failed, extracted, extract_int, to_string,
  contains, same_text,
}

-- std::strlen stops at the first 0.
abbrev pub c_str : Key → Key
c_str [] = []
c_str (c ∷ s) = let rest = c_str s in if c == 0 then [] else c ∷ rest

abbrev pub appended : List Key → Key
appended [] = []
appended (piece ∷ pieces) = c_str piece ++ appended pieces

unfoldable pub exec_cmd : (Key → Option (List Key)) → Key → Key
exec_cmd popen cmd = elim (popen cmd) [ none ↦ codes "ERROR" | some pieces ↦ appended pieces ]

pub record Thread : Type 0 where
  pub pid : ℤ
  pub psr : ℤ
  pub comm : Key

-- What is read from the second number on; without one, `psr` is not set at all
abbrev pub thread_of : ℤ → Extracted → Option Thread
thread_of pid untouched = none
thread_of pid (failed z) = some (record { pid = pid; psr = z; comm = [] })
thread_of pid (extracted z rest) =
    some (record { pid = pid; psr = z; comm = word (skip_spaces rest) })

abbrev pub second : Extracted → Option Thread
second (extracted pid rest) = thread_of pid (extract_int rest)
second _ = none

-- linestream >> pid >> psr >> comm, or nothing where a variable is not set
unfoldable pub read_thread : Key → Option Thread
read_thread line = second (extract_int line)

abbrev pub same_int : ℤ → ℤ → Bool
same_int (pos m) (pos n) = m == n
same_int (negsuc m) (negsuc n) = m == n
same_int _ _ = false

module _ (cpu_id : ℤ) (cpu_list nic_name : Key) where
  unfoldable pub is_kept : Key → Bool
  is_kept comm = same_text comm (codes "soem_backend") || contains nic_name comm

  unfoldable pub taskset_cmd : ℤ → Key
  taskset_cmd pid =
      codes "sudo taskset -cp "
      ++ cpu_list
      ++ codes " "
      ++ to_string pid
      ++ codes " > /dev/null 2>&1"

  -- The command for one thread, if there is one
  unfoldable pub move_thread : Thread → List Key
  unfolding is_kept taskset_cmd
  move_thread t =
      if same_int t.psr cpu_id then (if is_kept t.comm then [] else taskset_cmd t.pid ∷ []) else []

  -- Nothing where a variable that is not set is read
  unfoldable pub move_lines : List Key → Option (List Key)
  unfolding read_thread move_thread
  move_lines [] = some []
  move_lines (line ∷ rest) = do
    t ← read_thread line
    cmds ← move_lines rest
    some (move_thread t ++ cmds)

  unfoldable pub move_threads : (Key → Option (List Key)) → Option (List Key)
  unfolding exec_cmd move_lines
  move_threads popen =
      move_lines (lines (exec_cmd popen (codes "ps -eLo pid,psr,comm --no-headers")))
