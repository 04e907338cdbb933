-- ===== src/Node/Setup/Started.antt =====
-- When the node's threads are started, and when not.
use ecat_v2_master.Base.{
  ℕ, ◌+◌, ◌≤◌, ◌≡◌, ◌≢◌, ==-false, All, refl, sym, ap, subst, ◌∙◌, inl, inr, ◌⊎◌, Bool, true, false,
  not, ◌||◌, List, [], ◌∷◌, arith, Bool-cases, taken, passed, ◌==◌,
}
use ecat_v2_master.Config.{Outcome, value, Key, Entries}
use ecat_v2_master.Config.Buffer.{and_then-value}
use ecat_v2_master.Device.{SlaveDevice}
use ecat_v2_master.Sdo.{Endpoint}
use ecat_v2_master.Sdo.TaskList.{AnyTask, init_task_list}
use ecat_v2_master.Node.Health.{EcState}
use ecat_v2_master.Node.Setup.{
  is_operational, mock_data_process, mock_data_process_lem, AreNotOperational, init_slave_devices,
  Master, Ready, next_devices, init_task_lists, setup_ecat,
}

module _ (decimal : ℕ → Key) (es : Entries) where
  -- When the socket opens, there are slaves, all devices get their task lists and the bus is
  -- operational in none of the 51 rounds, setup_ecat returns true without starting the threads.
  pub setup_ecat-silent :
      (m : Master) (ds : List (SlaveDevice AnyTask))
      → m.is_open ≡ true
      → m.slaves_found ≢ 0
      → init_task_lists decimal es (m.config_map (init_slave_devices m.slaves_found 1))
        ≡ value (ds, true)
      → AreNotOperational m.states 0 51
      → setup_ecat decimal es m
        ≡ value (record { result = true; devices = ds; are_threads_started = false; rounds = 51 })
  unfolding setup_ecat
  setup_ecat-silent m ds opened found lists silent =
      let (last, e, ge, le, end, before) = mock_data_process_lem m.states 50 0 in
      let down : is_operational (m.states last) ≡ false =
        silent last (omega arith) (omega (arith, le)) in
      let at_end : last ≡ 50 = out_of_rounds (m.states last) last down end in
      rw (opened, ==-false m.slaves_found 0 found, lists, e, down, at_end) refl
    where
      out_of_rounds :
          (s : EcState) (last : ℕ)
          → is_operational s ≡ false
          → (is_operational s ≡ true) ⊎ (last ≡ 0 + 50)
          → last ≡ 50
      out_of_rounds s last down (inl up) = absurd (cc)
      out_of_rounds s last down (inr out) = omega (arith, out)

  -- A device that a successful init_task_list has left
  abbrev pub IsListed : SlaveDevice AnyTask → Type 0
  IsListed d' =
      (d : SlaveDevice AnyTask) × (endpoints : List Endpoint) × (init_task_list decimal es d
        ≡ value (d', true, endpoints))

  init_task_lists-IsListed :
      (ds ds' : List (SlaveDevice AnyTask))
      → init_task_lists decimal es ds ≡ value (ds', true)
      → All IsListed ds'
  unfolding init_task_lists next_devices
  init_task_lists-IsListed [] ds' e = first_listed [] ds' e tt
    where
      first_listed :
          (ds ds' : List (SlaveDevice AnyTask))
          → ◌≡◌ {A = Outcome (List (SlaveDevice AnyTask) × Bool)}
              (value (ds, true))
              (value (ds', true))
          → All IsListed ds
          → All IsListed ds'
      first_listed ds ds' e all = let same : ds ≡ ds' = cc e in rw (← same) all
  init_task_lists-IsListed (d ∷ ds) ds' e =
      let ((d', done, endpoints), p, q) = and_then-value (init_task_list decimal es d) _ e in
      after d d' done endpoints ds' (λ ds1 h. init_task_lists-IsListed ds ds1 h) p q
    where
      behind :
          (d' : SlaveDevice AnyTask) (ds1 ds' : List (SlaveDevice AnyTask)) (all_done : Bool)
          → ◌≡◌ {A = Outcome (List (SlaveDevice AnyTask) × Bool)}
              (value (d' ∷ ds1, all_done))
              (value (ds', true))
          → (d' ∷ ds1 ≡ ds') × (all_done ≡ true)
      behind d' ds1 ds' all_done e = (cc e, cc e)

      after :
          (d d' : SlaveDevice AnyTask) (done : Bool) (endpoints : List Endpoint)
          (ds' : List (SlaveDevice AnyTask))
          → ((ds1 : List (SlaveDevice AnyTask))
              → init_task_lists decimal es ds ≡ value (ds1, true)
              → All IsListed ds1)
          → init_task_list decimal es d ≡ value (d', done, endpoints)
          → next_devices d' ds done (init_task_lists decimal es ds) ≡ value (ds', true)
          → All IsListed ds'
      after d d' false endpoints ds' ih p q = absurd (cc)
      after d d' true endpoints ds' ih p q =
          let ((ds1, all_done), u, v) = and_then-value (init_task_lists decimal es ds) _ q in
          let (same, done) = behind d' ds1 ds' all_done v in
          rw (← same) ((d, endpoints, p), ih ds1 (u ∙ ap (λ b. value (ds1, b)) done))

  abbrev pub IsStarted : Master → Ready → Type 0
  IsStarted m r =
      All IsListed r.devices
      × ((last : ℕ) × (r.rounds ≡ last + 1)
          × (last ≤ 50)
          × (is_operational (m.states last) ≡ true)
          × AreNotOperational m.states 0 last)

  loop_ended :
      (m : Master) (r : Ready) (ds : List (SlaveDevice AnyTask))
      → All IsListed ds
      → value (record {
        result = true;
        devices = ds;
        are_threads_started = is_operational (mock_data_process m.states 50 0).1;
        rounds = (mock_data_process m.states 50 0).0;
      })
        ≡ value r
      → r.are_threads_started ≡ true
      → IsStarted m r
  loop_ended m r ds listed e =
      let made : Ready = record {
        result = true;
        devices = ds;
        are_threads_started = is_operational (mock_data_process m.states 50 0).1;
        rounds = (mock_data_process m.states 50 0).0;
      } in
      let is : made ≡ r = cc e in
      let (last, loop, ge, le, end, before) = mock_data_process_lem m.states 50 0 in
      subst (λ (x : Ready). x.are_threads_started ≡ true → IsStarted m x) is
        (λ up. (
          listed,
          (
            last,
            ap (λ (p : ℕ × EcState). p.0) loop,
            omega (arith, le),
            ap (λ (p : ℕ × EcState). is_operational p.1) (sym loop) ∙ up,
            before,
          ),
        ))

  -- When setup_ecat starts the two threads, init_task_list has succeeded for every device, and the
  -- loop that waits for the operational state has ended after at most 51 rounds in the first round
  -- in which the bus was operational.
  pub setup_ecat-started :
      (m : Master) (r : Ready)
      → setup_ecat decimal es m ≡ value r
      → r.are_threads_started ≡ true
      → All IsListed r.devices
        × ((last : ℕ) × (r.rounds ≡ last + 1)
            × (last ≤ 50)
            × (is_operational (m.states last) ≡ true)
            × AreNotOperational m.states 0 last)
  unfolding setup_ecat
  setup_ecat-started m r e started = elim (Bool-cases (not m.is_open || (m.slaves_found == 0))) [
    | inl none_there ↦
        absurd (stopped r (taken (not m.is_open || (m.slaves_found == 0)) _ _ none_there e) started)
    | inr there ↦
        let f = passed (not m.is_open || (m.slaves_found == 0)) _ _ there e in
        let ((ds, done), p, q) =
          and_then-value
            (init_task_lists decimal es (m.config_map (init_slave_devices m.slaves_found 1))) _ f in
        elim (Bool-cases done) [
          | inl all ↦
              let listed = init_task_lists-IsListed _ ds (p ∙ ap (λ b. value (ds, b)) all) in
              loop_ended m r ds listed (taken done _ _ all q) started
          | inr left ↦ absurd (stopped r (passed done _ _ left q) started)
        ]
  ]
    where
      stopped :
          (r : Ready) {ds : List (SlaveDevice AnyTask)} {b : Bool} {n : ℕ}
          → value (record { result = b; devices = ds; are_threads_started = false; rounds = n })
            ≡ value r
          → r.are_threads_started ≡ true
          → ⊥
      stopped r e started = absurd (cc (e, started))
