-- ===== src/Node/Health/Restore.antt =====
-- What a lost slave was commanded comes back when the slave starts again.
use ecat_v2_master.Base.{
  ℕ, ◌≡◌, ◌≢◌, refl, sym, ap, ◌∙◌, List, Option, some, length, ◌>>=◌, >>=-eq-some, arith,
}
use ecat_v2_master.Task.Class.{TaskClass}
use ecat_v2_master.Device.{
  SlaveDevice, Event, master_ready, reset_state, on_connection_lost, backup_master_to_slave_buf,
  recover_master_to_slave_buf,
}
use ecat_v2_master.Device.Recovery.{backup_lem, recover_lem}
use ecat_v2_master.Device.Lost.{on_connection_lost_lem}
use ecat_v2_master.Node.{start_working}
use ecat_v2_master.Node.Health.{Entry, lose}

module _ (C : TaskClass) where
  reset_state-keeps :
      (d : SlaveDevice C.Task)
      → ((reset_state d).master_to_slave_buf ≡ d.master_to_slave_buf)
        × ((reset_state d).master_to_slave_buf_len ≡ d.master_to_slave_buf_len)
  unfolding reset_state
  reset_state-keeps d = (refl, refl)

  -- What a loss saves is the image that it leaves, of the registered size.
  lose-saves :
      (now : ℕ) (d : SlaveDevice C.Task) (e : Entry) (s : C.Shared) {d' : SlaveDevice C.Task}
      {e' : Entry} {s' : C.Shared} {out : List (Event C.Message)}
      → length d.master_to_slave_buf ≡ d.master_to_slave_buf_len
      → lose C now d e s ≡ some (d', e', s', out)
      → (d'.master_to_slave_buf_backup ≡ d'.master_to_slave_buf)
        × (length d'.master_to_slave_buf ≡ d.master_to_slave_buf_len)
  unfolding lose
  lose-saves now d e s h q =
      let ((d1, s1, out1), p1, q1) = >>=-eq-some (on_connection_lost C (reset_state d) now s) _ q in
      let (size, len) = on_connection_lost_lem C (reset_state d) now s p1 in
      let (same, same_len) = reset_state-keeps d in
      let full = size ∙ ap length same ∙ h in
      let (d2, p2, q2) = >>=-eq-some (backup_master_to_slave_buf d1) _ q1 in
      let saved = backup_lem d1 (full ∙ sym (len ∙ same_len)) in
      (cc (q2, p2, saved), cc (q2, p2, saved, full))

  start_working-recovers :
      (d : SlaveDevice C.Task)
      → d.reconnected_times ≢ 0
      → d.master_status ≢ master_ready
      → start_working C d ≡ (
          recover_master_to_slave_buf d >>= λ d'. some (record d' { master_status = master_ready }))
  unfolding start_working
  start_working-recovers d r m = ground (arith, r, m)

  -- A slave is lost while its image has the registered size, and the device keeps the saved image
  -- and the registered size, whatever else happens to it and whatever is in its image, of that
  -- size, since then. When it starts working again with a count of reconnections that is not 0 and
  -- a status that is not yet the working one, its image is the one that the loss left, with the
  -- tasks' reset commands, and nothing else but the status changes.
  pub start_working-lose :
      (now : ℕ) (d : SlaveDevice C.Task) (e : Entry) (s : C.Shared) {d1 : SlaveDevice C.Task}
      {e1 : Entry} {s1 : C.Shared} {out : List (Event C.Message)} (d2 : SlaveDevice C.Task)
      → length d.master_to_slave_buf ≡ d.master_to_slave_buf_len
      → lose C now d e s ≡ some (d1, e1, s1, out)
      → d2.master_to_slave_buf_backup ≡ d1.master_to_slave_buf_backup
      → d2.master_to_slave_buf_len ≡ d.master_to_slave_buf_len
      → length d2.master_to_slave_buf ≡ d2.master_to_slave_buf_len
      → d2.reconnected_times ≢ 0
      → d2.master_status ≢ master_ready
      → start_working C d2
        ≡ some (record d2 {
          master_to_slave_buf = d1.master_to_slave_buf;
          master_status = master_ready;
        })
  start_working-lose now d e s {d1} d2 h q saved len full r m =
      let (backup, size) = lose-saves now d e s h q in
      let image = saved ∙ backup in
      start_working-recovers d2 r m
      ∙ ap
          (λ (o : Option (SlaveDevice C.Task)).
            ◌>>=◌ {B = SlaveDevice C.Task} o
              λ d'. some (record d' { master_status = master_ready }))
          (recover_lem d2 (ap length image ∙ size ∙ sym len) full)
      ∙ ap (λ buf. some (record d2 { master_to_slave_buf = buf; master_status = master_ready }))
          image
