-- ===== src/Sys/Irqs.antt =====
-- `move_irq` (src/soem_wrapper/src/utils/sys_utils.cpp).
--
-- What /proc/interrupts holds is the parameter `interrupts`, and `opens` says which files can be
-- opened for writing. Kept are the files written and what is written into them, in their order.
pub mod Bound
use ecat_v2_master.Base.{
  ℕ, zero, suc, ◌+◌, ◌^◌, ◌/◌, ◌%◌, Bool, true, false, ◌&&◌, List, [], ◌∷◌, ◌++◌, ◌==◌, ltb,
  if◌then◌else◌, Option, none, some,
}
use ecat_v2_master.Config.{Key}
use ecat_v2_master.Config.Text.{codes}
use ecat_v2_master.Sys.Words.{lines, skip_spaces, word, contains}

-- regex_replace(irq_str, std::regex(":"), "")
abbrev pub drop_colons : Key → Key
drop_colons [] = []
drop_colons (c ∷ s) = let rest = drop_colons s in if c == 58 then rest else c ∷ rest

abbrev pub hex_digit : ℕ → ℕ
hex_digit n = if ltb n 10 then 48 + n else 87 + n

-- std::hex of a number of at most as many digits
abbrev pub hex_list : ℕ → ℕ → Key
hex_list zero n = []
hex_list (suc fuel) n =
    let rest = hex_list fuel (n / 16) in
    if ltb n 16 then hex_digit n ∷ [] else rest ++ (hex_digit (n % 16) ∷ [])

-- A file and what is written into it
abbrev pub Written : Type 0
Written = Key × Key

unfoldable pub affinity_path : Key → Key
affinity_path line =
    codes "/proc/irq/" ++ drop_colons (word (skip_spaces line)) ++ codes "/smp_affinity"

-- 1U << cpu_id, which is undefined from the width of the type on
abbrev pub cpu_mask : ℕ → Option ℕ
cpu_mask cpu_id = if ltb cpu_id 32 then some (2 ^ cpu_id) else none

module _ (nic_name : Key) (opens : Key → Bool) (mask : ℕ) where
  unfoldable pub bind_lines : List Key → List Written
  unfolding affinity_path
  bind_lines [] = []
  bind_lines (line ∷ rest) =
      let others = bind_lines rest in
      if contains nic_name line && opens (affinity_path line)
      then (affinity_path line, hex_list 8 mask) ∷ others
      else others

unfoldable pub move_irq : ℕ → Key → (Key → Bool) → Key → Option (List Written)
unfolding bind_lines
move_irq cpu_id nic_name opens interrupts = elim (cpu_mask cpu_id) [
  | none ↦ none
  | some mask ↦ some (bind_lines nic_name opens mask (lines interrupts))
]
