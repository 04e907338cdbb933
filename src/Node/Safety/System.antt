-- ===== src/Node/Safety/System.antt =====
-- All slaves together: the sections of the node's threads and the handlers of the subscriptions,
-- each for one slave, in any order (`datacycle_callback` and `state_check_callback` in
-- src/soem_wrapper/src/ecat_node.cpp).
use ecat_v2_master.Base.{
  Runs, Runs-bind, ℕ, zero, suc, ◌≡◌, refl, List, [], ◌∷◌, Option, none, some, length, All, ◌>>=◌,
}
use ecat_v2_master.Task.Class.{TaskClass}
use ecat_v2_master.Device.{SlaveDevice}
use ecat_v2_master.Device.Safety.{IsSound}
use ecat_v2_master.Node.Health.{Entry}
use ecat_v2_master.Node.Health.Sections.{Place}
use ecat_v2_master.Node.Safety.Schedule.{
  Watched, Step, take_step, IsFair, WatchedSound, take_step-Runs,
}

module _ (C : TaskClass) where
  open C use {Task, Shared}

  -- A device with its entry and its image in the EtherCAT stack, and where its check stands
  pub record Slot : Type 0 where
    pub device : SlaveDevice Task
    pub entry : Entry
    pub place : Place
    pub output : List ℕ

  abbrev watched : Slot → Shared → Watched C
  watched w s = record {
    device = w.device;
    entry = w.entry;
    place = w.place;
    output = w.output;
    shared = s;
  }

  abbrev slot : Watched C → Slot
  slot w = record { device = w.device; entry = w.entry; place = w.place; output = w.output }

  abbrev pub System : Type 0
  System = List Slot × Shared

  -- A section of a thread for the slave at this place
  unfoldable pub step_at : ℕ → Step C → List Slot → Shared → Option System
  unfolding take_step
  step_at k a [] s = none
  step_at zero a (w ∷ ws) s = take_step C a (watched w s) >>= λ w'. some (slot w' ∷ ws, w'.shared)
  step_at (suc k) a (w ∷ ws) s = step_at k a ws s >>= λ (ws', s'). some (w ∷ ws', s')

  unfoldable pub run_system : List (ℕ × Step C) → System → Option System
  unfolding step_at
  run_system [] y = some y
  run_system ((k, a) ∷ rest) (ws, s) = step_at k a ws s >>= run_system rest

  -- Each slave is sound for the sizes of its image and its input.
  abbrev pub AreSound : List (ℕ × ℕ) → List Slot → Type 0
  AreSound [] [] = Unit
  AreSound [] (w ∷ ws) = ⊥
  AreSound (n ∷ ns) [] = ⊥
  AreSound ((outs, ins) ∷ ns) (w ∷ ws) =
      (IsSound C outs ins w.device × (length w.output ≡ suc outs)) × AreSound ns ws

  -- The step is for one of the slaves, and fair for its sizes.
  abbrev pub IsFairAt : List (ℕ × ℕ) → ℕ × Step C → Type 0
  IsFairAt [] (k, a) = ⊥
  IsFairAt ((outs, ins) ∷ ns) (zero, a) = IsFair C outs ins a
  IsFairAt (n ∷ ns) (suc k, a) = IsFairAt ns (k, a)

  abbrev pub SystemSound : List (ℕ × ℕ) → System → Type 0
  SystemSound ns (ws, s) = AreSound ns ws

  step_at-Runs :
      (ns : List (ℕ × ℕ)) (k : ℕ) (a : Step C) (ws : List Slot) (s : Shared)
      → IsFairAt ns (k, a)
      → AreSound ns ws
      → Runs (SystemSound ns) (step_at k a ws s)
  unfolding step_at
  step_at-Runs [] k a ws s fair v = absurd fair
  step_at-Runs (n ∷ ns) k a [] s fair v = absurd v
  step_at-Runs ((outs, ins) ∷ ns) zero a (w ∷ ws) s fair (v, vs) =
      Runs-bind (WatchedSound C outs ins) (SystemSound ((outs, ins) ∷ ns))
        (take_step C a (watched w s)) _ (take_step-Runs C outs ins a (watched w s) fair v)
        λ w' v'. (_, refl, (v', vs))
  step_at-Runs (n ∷ ns) (suc k) a (w ∷ ws) s fair (v, vs) =
      Runs-bind (SystemSound ns) (SystemSound (n ∷ ns)) (step_at k a ws s) _
        (step_at-Runs ns k a ws s fair vs) λ (ws', s') vs'. (_, refl, (v, vs'))

  -- For any number of slaves, the sections of the data cycle, the sections of the state check, the
  -- readings of the bus's states, with any result, the reset at the exit and the commands of the
  -- subscriptions are taken in any order, each for one of the slaves. At the start each image has
  -- its registered size, of three bytes at least, each place in the EtherCAT stack one byte more,
  -- each transfer stands inside the arguments, of which there are at most 65535, and all tasks
  -- work inside images of these sizes; frames have the input's size, the handlers work inside the
  -- image and leave its size, and the configuration hook keeps all this. Then no step accesses a
  -- buffer out of bounds, and all this holds at the end.
  pub run_system-Runs :
      (ns : List (ℕ × ℕ)) (steps : List (ℕ × Step C)) (ws : List Slot) (s : Shared)
      → All (IsFairAt ns) steps
      → AreSound ns ws
      → Runs (SystemSound ns) (run_system steps (ws, s))
  unfolding run_system
  run_system-Runs ns [] ws s fair v = ((ws, s), refl, v)
  run_system-Runs ns ((k, a) ∷ rest) ws s (fair, others) v =
      Runs-bind (SystemSound ns) (SystemSound ns) (step_at k a ws s) _
        (step_at-Runs ns k a ws s fair v) λ (ws', s') v'. run_system-Runs ns rest ws' s' others v'
