-- ===== src/Node/Phases.antt =====
-- The phases of one slave in the data cycle: an automaton that the loop body of
-- `datacycle_callback` (src/soem_wrapper/src/ecat_node.cpp) follows.
pub mod Rounds
use ecat_v2_master.Base.{
  Ends, Ends-some, Ends-bind, Ends-when, Ends-if, ℕ, ◌≡◌, ◌≢◌, refl, sym, ap, ◌∙◌, inl, inr, ◌⊎◌,
  Bool, true, false, not, ◌||◌, ◌&&◌, ◌==◌, ==_iff, Bool-cases, arith, List, [], ◌∷◌, Option, none,
  some, ◌>>=◌, >>=-eq-some, when, length, replicate, if◌then◌else◌,
}
use ecat_v2_master.Task.Class.{TaskClass}
use ecat_v2_master.Device.{
  SlaveDevice, Event, slave_confirm_ready, receive_from_slave, send_arg, process_pdo,
  write_init_values, recover_master_to_slave_buf, init_tasks, read_tasks, master_ready,
}
use ecat_v2_master.Io.{memcpy}
use ecat_v2_master.Device.Args.{send_arg-IsKept, send_arg-stays_sent}
use ecat_v2_master.Node.{
  Frame, confirm_ready, first_image, start_working, is_starting, is_sending, process_slave,
}
use ecat_v2_master.Node.Start.{slave_run}

pub data Phase : Type 0 where
  unconfigured : Phase
  sending : Phase
  sent : Phase
  working : Phase

-- One round, with the state that the slave reports in it
pub data Move (status : ℕ) : Phase → Phase → Type 0 where
  stay : {p : Phase} → Move status p p
  finish_sending : Move status sending sent
  confirm : {p : Phase} → p ≢ unconfigured → status ≡ slave_confirm_ready → Move status p working

-- The rounds of a run, with their frames
pub data Moves : List (ℕ × Frame) → Phase → Phase → Type 0 where
  done : {p : Phase} → Moves [] p p
  next :
      {now : ℕ} {f : Frame} {fs : List (ℕ × Frame)} {p q r : Phase}
      → Move f.status p q
      → Moves fs q r
      → Moves ((now, f) ∷ fs) p r

pub record Flags : Type 0 where
  pub is_conf_ros_done : Bool
  pub is_ecat_conf_done : Bool
  pub is_ready : Bool
  pub is_arg_sent : Bool

abbrev pub phase : Flags → Phase
phase f =
    if not f.is_conf_ros_done || not f.is_ecat_conf_done
    then unconfigured
    else (if f.is_ready then working else (if f.is_arg_sent then sent else sending))

sent-Move :
    (status : ℕ) (ros ecat ready args : Bool)
    → Move status
        (phase (record {
          is_conf_ros_done = ros;
          is_ecat_conf_done = ecat;
          is_ready = ready;
          is_arg_sent = args;
        }))
        (phase (record {
          is_conf_ros_done = ros;
          is_ecat_conf_done = ecat;
          is_ready = ready;
          is_arg_sent = true;
        }))
sent-Move status false ecat ready args = stay
sent-Move status true false ready args = stay
sent-Move status true true true args = stay
sent-Move status true true false true = stay
sent-Move status true true false false = finish_sending

confirmed-Move :
    (status : ℕ) (ros ecat ready args args' : Bool)
    → status ≡ slave_confirm_ready
    → Move status
        (phase (record {
          is_conf_ros_done = ros;
          is_ecat_conf_done = ecat;
          is_ready = ready;
          is_arg_sent = args;
        }))
        (phase (record {
          is_conf_ros_done = ros;
          is_ecat_conf_done = ecat;
          is_ready = true;
          is_arg_sent = args';
        }))
confirmed-Move status false ecat ready args args' e = stay
confirmed-Move status true false ready args args' e = stay
confirmed-Move status true true true args args' e = stay
confirmed-Move status true true false true args' e = confirm (λ h. absurd (cc)) e
confirmed-Move status true true false false args' e = confirm (λ h. absurd (cc)) e

-- What a round may do to the flags: confirm readiness, then finish the sending
abbrev pub AreConfirmed : ℕ → Flags → Flags → Type 0
AreConfirmed status f g =
    (g ≡ f) ⊎ ((status ≡ slave_confirm_ready) × (g ≡ record f { is_ready = true }))

abbrev pub AreSent : Flags → Flags → Type 0
AreSent f g = (g ≡ f) ⊎ (g ≡ record f { is_arg_sent = true })

pub Move-phases :
    (status : ℕ) (f g h k : Flags)
    → AreConfirmed status f g
    → AreSent g h
    → k ≡ h
    → Move status (phase f) (phase k)
Move-phases status f g h k (inl a) (inl b) c = rw (c, b, a) stay
Move-phases status f g h k (inl a) (inr b) c =
    rw (c, b, a) (sent-Move status f.is_conf_ros_done f.is_ecat_conf_done f.is_ready f.is_arg_sent)
Move-phases status f g h k (inr (e, a)) (inl b) c =
    rw (c, b, a)
      (confirmed-Move status f.is_conf_ros_done f.is_ecat_conf_done f.is_ready f.is_arg_sent
        f.is_arg_sent e)
Move-phases status f g h k (inr (e, a)) (inr b) c =
    rw (c, b, a)
      (confirmed-Move status f.is_conf_ros_done f.is_ecat_conf_done f.is_ready f.is_arg_sent true e)

-- A frame reports that the slave is ready.
abbrev pub HasConfirmed : List (ℕ × Frame) → Type 0
HasConfirmed [] = ⊥
HasConfirmed ((now, f) ∷ fs) = (f.status ≡ slave_confirm_ready) ⊎ HasConfirmed fs

pub Moves-HasConfirmed :
    {fs : List (ℕ × Frame)} {p q : Phase}
    → Moves fs p q
    → p ≢ working
    → q ≡ working
    → HasConfirmed fs
Moves-HasConfirmed done h e = absurd (h e)
Moves-HasConfirmed (next stay ms) h e = inr (Moves-HasConfirmed ms h e)
Moves-HasConfirmed (next finish_sending ms) h e = inr (Moves-HasConfirmed ms (λ w. absurd (cc w)) e)
Moves-HasConfirmed (next (confirm configured status) ms) h e = inl status
