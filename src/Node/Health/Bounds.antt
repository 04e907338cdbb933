-- ===== src/Node/Health/Bounds.antt =====
-- The check of a slave stays inside its buffers.
use ecat_v2_master.Base.{
  Runs, Runs-bind, Runs-if, either, ℕ, refl, false, not, ◌&&◌, ◌||◌, [], some,
}
use ecat_v2_master.Task.Class.{TaskClass}
use ecat_v2_master.Device.{
  SlaveDevice, pre_recover, reset_state, recover_state, on_connection_lost,
  backup_master_to_slave_buf,
}
use ecat_v2_master.Device.Safety.{IsSound}
use ecat_v2_master.Device.Safety.Tasks.{StaysSound}
use ecat_v2_master.Device.Safety.Losing.{
  on_connection_lost-Runs, backup_master_to_slave_buf-Runs, pre_recover-IsSound,
}
use ecat_v2_master.Node.Health.Sections.{
  Place, away, at_pre_recover, at_operational, at_second_look, at_reconfigure, at_reset, at_loss,
  at_lost, at_recover, Placed, section,
}
use ecat_v2_master.Node.Health.{
  EcState, state_none, state_init, state_safe_op, state_operational, state_other, is_none, Entry,
  Bus, Checked, lose, reconfigure, lose_or_stay, handle_state, find_again, check_slave,
}

module _ (C : TaskClass) (outs ins : ℕ) where
  open C use {Task, Shared, Message}

  -- What the configuration hook does to a device keeps it sound.
  abbrev pub IsSoundBus : Bus C → Type 0
  IsSoundBus b =
      (d : SlaveDevice Task) → IsSound C outs ins d → IsSound C outs ins (b.reconfig_slave d).0

  abbrev pub CheckedSound : Checked C → Type 0
  CheckedSound (d, e, s, out) = IsSound C outs ins d

  reset_state-IsSound :
      (d : SlaveDevice Task) → IsSound C outs ins d → IsSound C outs ins (reset_state d)
  unfolding reset_state
  reset_state-IsSound d v = v

  recover_state-IsSound :
      (d : SlaveDevice Task) → IsSound C outs ins d → IsSound C outs ins (recover_state d)
  unfolding recover_state
  recover_state-IsSound d v = v

  lose-Runs :
      (now : ℕ) (d : SlaveDevice Task) (e : Entry) (s : Shared)
      → IsSound C outs ins d
      → Runs CheckedSound (lose C now d e s)
  unfolding lose
  lose-Runs now d e s v =
      Runs-bind (StaysSound C outs ins) CheckedSound (on_connection_lost C (reset_state d) now s) _
        (on_connection_lost-Runs C outs ins (reset_state d) now s (reset_state-IsSound d v))
        λ (d', s', out) w.
          Runs-bind (λ d''. IsSound C outs ins d'') CheckedSound (backup_master_to_slave_buf d') _
            (backup_master_to_slave_buf-Runs C outs ins d' w) λ d'' w'. (_, refl, w')

  lose_or_stay-Runs :
      (now : ℕ) (d : SlaveDevice Task) (e : Entry) (s : Shared)
      → IsSound C outs ins d
      → Runs CheckedSound (lose_or_stay C now d e s)
  unfolding lose_or_stay
  lose_or_stay-Runs now d e s v =
      Runs-if CheckedSound (not e.islost && is_none e.state) (lose C now d e s) (some (d, e, s, []))
        (lose-Runs now d e s v) ((d, e, s, []), refl, v)

  reconfigure-IsSound :
      (b : Bus C) (d : SlaveDevice Task) (e : Entry)
      → IsSoundBus b
      → IsSound C outs ins d
      → IsSound C outs ins (reconfigure C b d e).0
  unfolding reconfigure
  reconfigure-IsSound b d e sound v = reset_state-IsSound (b.reconfig_slave d).0 (sound d v)

  handle_state-Runs :
      (b : Bus C) (now : ℕ) (state : EcState) (d : SlaveDevice Task) (e : Entry) (s : Shared)
      → IsSoundBus b
      → IsSound C outs ins d
      → Runs CheckedSound (handle_state C b now state d e s)
  unfolding handle_state
  handle_state-Runs b now state_operational d e s sound v = ((d, e, s, []), refl, v)
  handle_state-Runs b now state_safe_op d e s sound v =
      Runs-if CheckedSound d.is_recover_rejected (lose_or_stay C now d e s)
        (some (pre_recover d, record e { state = b.after_operational }, s, []))
        (lose_or_stay-Runs now d e s v) (_, refl, pre_recover-IsSound C outs ins d v)
  handle_state-Runs b now state_init d e s sound v =
      Runs-if CheckedSound (is_none b.second_look)
        (some (d, record e { state = b.second_look }, s, [])) _ (_, refl, v)
        (_, refl, reconfigure-IsSound b d e sound v)
  handle_state-Runs b now state_none d e s sound v = lose_or_stay-Runs now d e s v
  handle_state-Runs b now state_other d e s sound v = lose_or_stay-Runs now d e s v

  find_again-IsSound :
      (b : Bus C) (d : SlaveDevice Task) (e : Entry)
      → IsSound C outs ins d
      → IsSound C outs ins (find_again C b d e).0
  unfolding find_again
  find_again-IsSound b d e v =
      either (λ (p : SlaveDevice Task × Entry). IsSound C outs ins p.0)
        (e.islost && (not (is_none e.state) || b.is_recovered))
        (recover_state d, record e { islost = false }) (d, e) (recover_state-IsSound d v) v

  -- On a bus whose configuration hook keeps sound devices sound, the check of a sound slave returns
  -- without an access out of bounds and leaves it sound.
  pub check_slave-Runs :
      (b : Bus C) (now : ℕ) (d : SlaveDevice Task) (e : Entry) (s : Shared)
      → IsSoundBus b
      → IsSound C outs ins d
      → Runs CheckedSound (check_slave C b now d e s)
  unfolding check_slave
  check_slave-Runs b now d e s sound v =
      Runs-bind CheckedSound CheckedSound (handle_state C b now e.state d e s) _
        (handle_state-Runs b now e.state d e s sound v)
        λ (d', e', s', out) w. (_, refl, find_again-IsSound b d' e' w)

  abbrev pub PlacedSound : Placed C → Type 0
  PlacedSound (p, c) = CheckedSound c

  -- The same for each section of a check
  pub section-Runs :
      (b : Bus C) (now : ℕ) (p : Place) (d : SlaveDevice Task) (e : Entry) (s : Shared)
      → IsSoundBus b
      → IsSound C outs ins d
      → Runs PlacedSound (section C b now p d e s)
  unfolding section
  section-Runs b now away d e s sound v = (_, refl, v)
  section-Runs b now at_pre_recover d e s sound v = (_, refl, pre_recover-IsSound C outs ins d v)
  section-Runs b now at_operational d e s sound v = (_, refl, v)
  section-Runs b now at_second_look d e s sound v = (_, refl, v)
  section-Runs b now at_reconfigure d e s sound v = (_, refl, sound d v)
  section-Runs b now at_reset d e s sound v = (_, refl, reset_state-IsSound d v)
  section-Runs b now at_loss d e s sound v =
      Runs-bind (StaysSound C outs ins) PlacedSound (on_connection_lost C (reset_state d) now s) _
        (on_connection_lost-Runs C outs ins (reset_state d) now s (reset_state-IsSound d v))
        λ (d', s', out) w.
          Runs-bind (λ d''. IsSound C outs ins d'') PlacedSound (backup_master_to_slave_buf d') _
            (backup_master_to_slave_buf-Runs C outs ins d' w) λ d'' w'. (_, refl, w')
  section-Runs b now at_lost d e s sound v =
      Runs-if PlacedSound (e.islost && (not (is_none e.state) || b.is_recovered)) _ _ (_, refl, v)
        (_, refl, v)
  section-Runs b now at_recover d e s sound v = (_, refl, recover_state-IsSound d v)
