-- ===== src/Node/Health.antt =====
-- src/soem_wrapper/src/ecat_node.cpp, `state_check_callback`: the check of one slave.
--
-- The EtherCAT stack's view of the slave is an `Entry`. What its calls answer in this check is a
-- `Bus`: the state that the change to operational leaves, the state that the second look finds, the
-- reconfiguration, which runs the node's configuration hook on the device, leaves a state and says
-- whether it worked, and whether the recovery worked.
pub mod Lost
pub mod Restore
pub mod Sections
pub mod Bounds
use ecat_v2_master.Base.{
  ℕ, ◌≡◌, Bool, true, false, not, ◌&&◌, ◌||◌, List, [], Option, none, some, ◌>>=◌, if◌then◌else◌,
}
use ecat_v2_master.Task.Class.{TaskClass}
use ecat_v2_master.Device.{
  SlaveDevice, Event, pre_recover, reset_state, recover_state, on_connection_lost,
  backup_master_to_slave_buf,
}

pub data EcState : Type 0 where
  state_none : EcState
  state_init : EcState
  state_safe_op : EcState
  state_operational : EcState
  state_other : EcState

abbrev is_none : EcState → Bool
is_none state_none = true
is_none _ = false

pub record Entry : Type 0 where
  pub state : EcState
  pub islost : Bool

module _ (C : TaskClass) where
  pub record Bus : Type 0 where
    pub after_operational : EcState
    pub second_look : EcState
    pub reconfig_slave : SlaveDevice C.Task → SlaveDevice C.Task × EcState × Bool
    pub is_recovered : Bool

  abbrev pub Checked : Type 0
  Checked = SlaveDevice C.Task × Entry × C.Shared × List (Event C.Message)

  unfoldable pub lose : ℕ → SlaveDevice C.Task → Entry → C.Shared → Option Checked
  lose now d e s = on_connection_lost C (reset_state d) now s >>= λ (d', s', out).
      backup_master_to_slave_buf d' >>= λ d''. some (d'', record e { islost = true }, s', out)

  unfoldable pub reconfigure : Bus → SlaveDevice C.Task → Entry → SlaveDevice C.Task × Entry
  reconfigure b d e =
      let (d', state, done) = b.reconfig_slave d in
      (
        reset_state d',
        if done
            then (if d'.is_recover_rejected
                then record e { state = state_init }
                else record e { state = state; islost = false })
            else record e { state = state },
      )

  unfoldable pub lose_or_stay : ℕ → SlaveDevice C.Task → Entry → C.Shared → Option Checked
  unfolding lose
  lose_or_stay now d e s =
      if not e.islost && is_none e.state then lose now d e s else some (d, e, s, [])

  -- The branches for a slave that is not operational
  unfoldable pub handle_state :
      Bus → ℕ → EcState → SlaveDevice C.Task → Entry → C.Shared → Option Checked
  unfolding reconfigure lose_or_stay
  handle_state b now state_operational d e s = some (d, e, s, [])
  handle_state b now state_safe_op d e s =
      if d.is_recover_rejected
      then lose_or_stay now d e s
      else some (pre_recover d, record e { state = b.after_operational }, s, [])
  handle_state b now state_init d e s =
      if is_none b.second_look
      then some (d, record e { state = b.second_look }, s, [])
      else (let (d', e') = reconfigure b d e in some (d', e', s, []))
  handle_state b now state_none d e s = lose_or_stay now d e s
  handle_state b now state_other d e s = lose_or_stay now d e s

  -- The branches for a slave that is lost
  unfoldable pub find_again : Bus → SlaveDevice C.Task → Entry → SlaveDevice C.Task × Entry
  find_again b d e =
      if e.islost && (not (is_none e.state) || b.is_recovered)
      then (recover_state d, record e { islost = false })
      else (d, e)

  unfoldable pub check_slave : Bus → ℕ → SlaveDevice C.Task → Entry → C.Shared → Option Checked
  unfolding handle_state find_again
  check_slave b now d e s = handle_state b now e.state d e s >>= λ (d', e', s', out).
      let (d'', e'') = find_again b d' e' in some (d'', e'', s', out)
