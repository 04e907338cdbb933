-- ===== src/Node/Health/Lost.antt =====
-- The states that the check leaves: a lost slave does not work, and what was commanded is saved.
use ecat_v2_master.Base.{
  taken, passed, ℕ, ◌≡◌, refl, ◌∙◌, inl, inr, true, false, not, ◌&&◌, List, Option, some,
  >>=-eq-some, arith, Bool-cases,
}
use ecat_v2_master.Task.Class.{TaskClass}
use ecat_v2_master.Device.{
  SlaveDevice, Event, pre_recover, reset_state, on_connection_lost, backup_master_to_slave_buf,
}
use ecat_v2_master.Node.Health.{
  EcState, state_none, state_init, state_safe_op, state_operational, state_other, is_none, Entry,
  Bus, Checked, lose, reconfigure, lose_or_stay, handle_state, find_again, check_slave,
}

module _ (C : TaskClass) where
  -- A slave that is lost does not work.
  abbrev pub IsConsistent : SlaveDevice C.Task → Entry → Type 0
  IsConsistent d e = (e.islost && d.is_ready) ≡ false

  idle_if_lost :
      (d : SlaveDevice C.Task) (e : Entry) → IsConsistent d e → e.islost ≡ true → d.is_ready ≡ false
  idle_if_lost d e h lost = ground (arith, h, lost)

  -- The same as a function
  abbrev IsIdle : SlaveDevice C.Task → Entry → Type 0
  IsIdle d e = e.islost ≡ true → d.is_ready ≡ false

  find_again-IsIdle :
      (b : Bus C) (d : SlaveDevice C.Task) (e : Entry)
      → IsIdle d e
      → IsIdle (find_again C b d e).0 (find_again C b d e).1
  unfolding find_again
  find_again-IsIdle b d e h = ground arith

  on_connection_lost-keeps :
      (d : SlaveDevice C.Task) (now : ℕ) (s : C.Shared) {d' : SlaveDevice C.Task} {s' : C.Shared}
      {out : List (Event C.Message)}
      → on_connection_lost C d now s ≡ some (d', s', out)
      → d'.is_ready ≡ d.is_ready
  unfolding on_connection_lost
  on_connection_lost-keeps d now s e = ground arith

  backup-keeps :
      (d : SlaveDevice C.Task) {d' : SlaveDevice C.Task}
      → backup_master_to_slave_buf d ≡ some d'
      → d'.is_ready ≡ d.is_ready
  unfolding backup_master_to_slave_buf
  backup-keeps d e = ground arith

  lost_or_idle : (d : SlaveDevice C.Task) (e : Entry) → IsIdle d e → IsConsistent d e
  lost_or_idle d e h = elim (Bool-cases e.islost) [
    | inl lost ↦ ground (arith, h lost)
    | inr found ↦ ground (arith, found)
  ]

  reset_state_lem : (d : SlaveDevice C.Task) → (reset_state d).is_ready ≡ false
  unfolding reset_state
  reset_state_lem d = refl

  backed_up :
      {d2 d' : SlaveDevice C.Task} {e e' : Entry} {s s' : C.Shared}
      {out out' : List (Event C.Message)}
      → d2.is_ready ≡ false
      → ◌≡◌ {A = Option (Checked C)} (some (d2, e, s, out)) (some (d', e', s', out'))
      → d'.is_ready ≡ false
  backed_up a q = cc (a, q)

  -- What is left as it was
  stay :
      {d d' : SlaveDevice C.Task} {e e' : Entry} {s s' : C.Shared}
      {out out' : List (Event C.Message)}
      → IsIdle d e
      → ◌≡◌ {A = Option (Checked C)} (some (d, e, s, out)) (some (d', e', s', out'))
      → IsIdle d' e'
  stay h q lost = cc (q, h (cc (q, lost)))

  lose-not_ready :
      (now : ℕ) (d : SlaveDevice C.Task) (e : Entry) (s : C.Shared) {d' : SlaveDevice C.Task}
      {e' : Entry} {s' : C.Shared} {out : List (Event C.Message)}
      → lose C now d e s ≡ some (d', e', s', out)
      → d'.is_ready ≡ false
  unfolding lose
  lose-not_ready now d e s h =
      let ((d1, s1, out1), p, q) = >>=-eq-some (on_connection_lost C (reset_state d) now s) _ h in
      let (d2, p2, q2) = >>=-eq-some (backup_master_to_slave_buf d1) _ q in
      backed_up
        (backup-keeps d1 p2 ∙ on_connection_lost-keeps (reset_state d) now s p ∙ reset_state_lem d)
        q2

  lose_or_stay-IsIdle :
      (now : ℕ) (d : SlaveDevice C.Task) (e : Entry) (s : C.Shared) {d' : SlaveDevice C.Task}
      {e' : Entry} {s' : C.Shared} {out : List (Event C.Message)}
      → IsIdle d e
      → lose_or_stay C now d e s ≡ some (d', e', s', out)
      → IsIdle d' e'
  unfolding lose_or_stay
  lose_or_stay-IsIdle now d e s h q = elim (Bool-cases (not e.islost && is_none e.state)) [
    | inl found ↦ λ lost. lose-not_ready now d e s (rw found at q)
    | inr known ↦ stay h (rw known at q)
  ]

  pre_recover-IsIdle :
      (d : SlaveDevice C.Task) (e : Entry) (st : EcState)
      → IsIdle d e
      → IsIdle (pre_recover d) (record e { state = st })
  unfolding pre_recover
  pre_recover-IsIdle d e st h = h

  reconfigure-IsIdle :
      (b : Bus C) (d : SlaveDevice C.Task) (e : Entry)
      → IsIdle (reconfigure C b d e).0 (reconfigure C b d e).1
  unfolding reconfigure reset_state
  reconfigure-IsIdle b d e lost = refl

  handle_state-IsIdle :
      (b : Bus C) (now : ℕ) (st : EcState) (d : SlaveDevice C.Task) (e : Entry) (s : C.Shared)
      {d' : SlaveDevice C.Task} {e' : Entry} {s' : C.Shared} {out : List (Event C.Message)}
      → IsIdle d e
      → handle_state C b now st d e s ≡ some (d', e', s', out)
      → IsIdle d' e'
  unfolding handle_state
  handle_state-IsIdle b now state_operational d e s h q = stay h q
  handle_state-IsIdle b now state_safe_op d e s h q = elim (Bool-cases d.is_recover_rejected) [
    | inl rejected ↦ lose_or_stay-IsIdle now d e s h (taken d.is_recover_rejected _ _ rejected q)
    | inr accepted ↦
        stay (pre_recover-IsIdle d e b.after_operational h)
          (passed d.is_recover_rejected _ _ accepted q)
  ]
  handle_state-IsIdle b now state_init d e s h q = elim (Bool-cases (is_none b.second_look)) [
    | inl gone ↦ stay h (rw gone at q)
    | inr there ↦ stay (reconfigure-IsIdle b d e) (rw there at q)
  ]
  handle_state-IsIdle b now state_none d e s h q = lose_or_stay-IsIdle now d e s h q
  handle_state-IsIdle b now state_other d e s h q = lose_or_stay-IsIdle now d e s h q

  -- When a slave that is marked as lost is not in the working state before a check, then it is not
  -- after it either, whatever the bus answers.
  pub check_slave-IsConsistent :
      (b : Bus C) (now : ℕ) (d : SlaveDevice C.Task) (e : Entry) (s : C.Shared)
      {d' : SlaveDevice C.Task} {e' : Entry} {s' : C.Shared} {out : List (Event C.Message)}
      → IsConsistent d e
      → check_slave C b now d e s ≡ some (d', e', s', out)
      → IsConsistent d' e'
  unfolding check_slave
  check_slave-IsConsistent b now d e s {d'} {e'} h q =
      let ((d1, e1, s1, out1), p, r) = >>=-eq-some (handle_state C b now e.state d e s) _ q in
      lost_or_idle d' e' (
        stay
          (find_again-IsIdle b d1 e1
            (handle_state-IsIdle b now e.state d e s (idle_if_lost d e h) p))
          r)
