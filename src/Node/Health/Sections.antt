-- ===== src/Node/Health/Sections.antt =====
-- The check of one slave in `state_check_callback` (src/soem_wrapper/src/ecat_node.cpp), cut where
-- the other threads can come in between: at each place where the device's mutex is taken or given
-- back, and at each call into the EtherCAT stack. `recover_state` is called with the mutex in one
-- branch and without it in the other; it is a section of its own in both.
use ecat_v2_master.Base.{
  ℕ, zero, suc, true, false, not, ◌&&◌, ◌||◌, [], ◌++◌, Option, some, ◌>>=◌, if◌then◌else◌,
}
use ecat_v2_master.Task.Class.{TaskClass}
use ecat_v2_master.Device.{
  SlaveDevice, pre_recover, reset_state, recover_state, on_connection_lost,
  backup_master_to_slave_buf,
}
use ecat_v2_master.Node.Health.{
  EcState, state_none, state_init, state_safe_op, state_operational, state_other, is_none, Entry,
  Bus, Checked, find_again,
}

-- What the check of the slave does next
pub data Place : Type 0 where
  away : Place
  at_pre_recover : Place
  at_operational : Place
  at_second_look : Place
  at_reconfigure : Place
  at_reset : Place
  at_loss : Place
  at_lost : Place
  at_recover : Place

abbrev pub lose_branch : Entry → Place × Entry
lose_branch e =
    if not e.islost && is_none e.state then (at_loss, record e { islost = true }) else (at_lost, e)

module _ (C : TaskClass) where
  open C use {Task, Shared, Message}

  -- The branch for the state that the slave has
  unfoldable pub look : EcState → SlaveDevice Task → Entry → Place × Entry
  look state_operational d e = (at_lost, e)
  look state_safe_op d e = if d.is_recover_rejected then lose_branch e else (at_pre_recover, e)
  look state_init d e = (at_second_look, e)
  look state_none d e = lose_branch e
  look state_other d e = lose_branch e

  abbrev pub Placed : Type 0
  Placed = Place × Checked C

  unfoldable pub section : Bus C → ℕ → Place → SlaveDevice Task → Entry → Shared → Option Placed
  unfolding look
  section b now away d e s = let (p, e') = look e.state d e in some (p, (d, e', s, []))
  section b now at_pre_recover d e s = some (at_operational, (pre_recover d, e, s, []))
  section b now at_operational d e s =
      some (at_lost, (d, record e { state = b.after_operational }, s, []))
  section b now at_second_look d e s = some (
    if is_none b.second_look then at_lost else at_reconfigure,
    (d, record e { state = b.second_look }, s, []),
  )
  section b now at_reconfigure d e s =
      let (d', state, done) = b.reconfig_slave d in
      some (
        at_reset,
        (
          d',
          if done
              then (if d'.is_recover_rejected
                  then record e { state = state_init }
                  else record e { state = state; islost = false })
              else record e { state = state },
          s,
          [],
        ),
      )
  section b now at_reset d e s = some (at_lost, (reset_state d, e, s, []))
  section b now at_loss d e s = on_connection_lost C (reset_state d) now s >>= λ (d', s', out).
      backup_master_to_slave_buf d' >>= λ d''. some (at_lost, (d'', e, s', out))
  section b now at_lost d e s =
      if e.islost && (not (is_none e.state) || b.is_recovered)
      then some (at_recover, (d, record e { islost = false }, s, []))
      else some (away, (d, e, s, []))
  section b now at_recover d e s = some (away, (recover_state d, e, s, []))

  -- At most this many sections, with nothing in between, until the check leaves the slave
  unfoldable pub sections :
      ℕ → Bus C → ℕ → Place → SlaveDevice Task → Entry → Shared → Option Placed
  unfolding section
  sections n b now away d e s = some (away, (d, e, s, []))
  sections zero b now p d e s = some (p, (d, e, s, []))
  sections (suc n) b now p d e s = section b now p d e s >>= λ (p1, (d1, e1, s1, out)).
      sections n b now p1 d1 e1 s1 >>= λ (p2, (d2, e2, s2, rest)).
      some (p2, (d2, e2, s2, out ++ rest))

  -- A visit of the check, with the section that begins it
  unfoldable pub visit : Bus C → ℕ → SlaveDevice Task → Entry → Shared → Option Placed
  unfolding sections
  visit b now d e s =
      section b now away d e s >>= λ (p, (d1, e1, s1, out)). sections 5 b now p d1 e1 s1

  -- What is left of the check behind the branches for a slave that is not operational
  abbrev ends : Bus C → Option (Checked C) → Option Placed
  ends b o =
      o >>= λ (d, e, s, out). some (away, ((find_again C b d e).0, (find_again C b d e).1, s, out))

  abbrev then_sections : ℕ → Bus C → ℕ → Option Placed → Option Placed
  then_sections n b now o = o >>= λ (p1, (d1, e1, s1, out)).
      sections n b now p1 d1 e1 s1 >>= λ (p2, (d2, e2, s2, rest)).
      some (p2, (d2, e2, s2, out ++ rest))
