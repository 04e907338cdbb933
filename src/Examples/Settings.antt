-- ===== src/Examples/Settings.antt =====
-- Two threads and two interrupts of a small system, and a network device.
use ecat_v2_master.Base.{
  ℕ, All, ◌≡◌, refl, inl, inr, pos, List, [], ◌∷◌, true, Bool, false, some, Option, ◌==◌,
  if◌then◌else◌, arith, Bool-cases, taken, passed, ◌^◌,
}
use ecat_v2_master.Config.{Key}
use ecat_v2_master.Config.Text.{codes}
use ecat_v2_master.Sys.Threads.{taskset_cmd, move_threads}
use ecat_v2_master.Sys.Threads.Moved.{move_threads-printed}
use ecat_v2_master.Sys.Threads.Moved
use ecat_v2_master.Sys.Words.{is_space}
use ecat_v2_master.Sys.Irqs.{move_irq}
use ecat_v2_master.Sys.Irqs.Bound
use ecat_v2_master.Sys.Nic.{EthtoolCoalesce, Ioctl, setup_nic}
use ecat_v2_master.Sys.Nic.Coalesced.{setup_nic-set}

abbrev any : (ℕ → Bool) → Key → Bool
any p [] = false
any p (c ∷ s) = if p c then true else any p s

none_is : (p : ℕ → Bool) (s : Key) → any p s ≡ false → All (λ c. p c ≡ false) s
none_is p [] e = tt
none_is p (c ∷ s) e = elim (Bool-cases (p c)) [
  | inl h ↦ absurd (cc (taken (p c) true (any p s) h e))
  | inr h ↦ (h, none_is p s (passed (p c) true (any p s) h e))
]

abbrev eth : Key
eth = codes "eth0"

abbrev rows : List Moved.Row
rows =
    record { pad = 4; pid = 12; gap = 2; psr = 2; name = codes "kworker/2:1"; tail = [] }
    ∷ record { pad = 3; pid = 340; gap = 2; psr = 2; name = codes "irq/9-eth0"; tail = codes " s" }
    ∷ []

-- ps printing these threads in one piece
abbrev popen : Key → Option (List Key)
popen cmd = some (Moved.printed rows ∷ [])

move_threads-printed_example :
    move_threads (pos 2) (codes "0,1") eth popen
    ≡ some (codes "sudo taskset -cp 0,1 12 > /dev/null 2>&1" ∷ [])
unfolding taskset_cmd
move_threads-printed_example =
    move_threads-printed 2 (codes "0,1") eth popen (Moved.printed rows ∷ []) rows refl refl (
      (
        omega arith,
        omega arith,
        (omega arith, none_is is_space (codes "kworker/2:1") refl),
        tt,
        tt,
      ),
      (
        (
          omega arith,
          omega arith,
          (omega arith, none_is is_space (codes "irq/9-eth0") refl),
          refl,
          none_is (λ c. c == 10) (codes " s") refl,
        ),
        tt,
      ),
    )

abbrev interrupts : List Bound.Row
interrupts =
    record { pad = 2; irq = codes "9"; counts = codes "4 eth0-rx" }
    ∷ record { pad = 0; irq = codes "NMI"; counts = codes "0 masked" }
    ∷ []

abbrev cpus : Key
cpus = codes "     CPU0       CPU1"

move_irq-printed_example :
    (text : Key) × (Bound.hex_value 0 text ≡ 2 ^ 3)
    × (move_irq 3 eth (λ path. true) (Bound.file cpus interrupts)
        ≡ some ((codes "/proc/irq/9/smp_affinity", text) ∷ []))
move_irq-printed_example =
    Bound.move_irq-printed eth (λ path. true) 3 cpus interrupts (omega arith)
      (none_is (λ c. c == 10) cpus refl) refl
      (
        (
          (omega arith, none_is is_space (codes "9") refl),
          none_is (λ c. c == 58) (codes "9") refl,
          none_is (λ c. c == 10) (codes "4 eth0-rx") refl,
        ),
        (
          (
            (omega arith, none_is is_space (codes "NMI") refl),
            none_is (λ c. c == 58) (codes "NMI") refl,
            none_is (λ c. c == 10) (codes "0 masked") refl,
          ),
          tt,
        ),
      )

abbrev slow : EthtoolCoalesce
slow = record {
  rx_coalesce_usecs = 3;
  tx_coalesce_usecs = 5;
  rx_max_coalesced_frames = 64;
  tx_max_coalesced_frames = 32;
  others = 7 ∷ [];
}

abbrev willing : Ioctl
willing = record {
  Nic = EthtoolCoalesce;
  get_coalesce = λ nic. some nic;
  set_coalesce = λ new nic. new;
}

setup_nic-set_example :
    (nic : EthtoolCoalesce) × (setup_nic willing true slow ≡ some nic)
    × (some nic
        ≡ some (record {
          rx_coalesce_usecs = 0;
          tx_coalesce_usecs = 0;
          rx_max_coalesced_frames = 1;
          tx_max_coalesced_frames = 1;
          others = 7 ∷ [];
        }))
setup_nic-set_example = setup_nic-set willing slow slow (λ nic new. refl) refl
