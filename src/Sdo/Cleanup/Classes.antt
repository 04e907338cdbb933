-- ===== src/Sdo/Cleanup/Classes.antt =====
-- What `init_sdo` of each class creates is reset by `cleanup` of the same class.
use ecat_v2_master.Base.{ℕ, ◌≡◌, refl, List, [], ◌∷◌, ◌==◌}
use ecat_v2_master.Io.{Cursor}
use ecat_v2_master.Config.{Outcome, value, Key, Entries}
use ecat_v2_master.Task.{TaskInfo}
use ecat_v2_master.Sdo.{◌>>=◌, Endpoint, publisher, Made, copy_fields}
use ecat_v2_master.Sdo.Sensors.{publish_only, init_sdo_receiver, init_sdo_ms5837, init_sdo_imu}
use ecat_v2_master.Sdo.Outputs.{init_sdo_dshot, init_sdo_onboard_pwm, init_sdo_external_pwm}
use ecat_v2_master.Sdo.Motors.{
  control_type, publish_and_subscribe, four_motors, dji_motor, dd_motor, init_sdo_dji, init_sdo_dd,
  init_sdo_lk, init_sdo_dm, init_sdo_super_cap,
}
use ecat_v2_master.Sdo.TaskList.{
  AnyTask, dbus_rc, lk_motor, hipnuc_imu_can, dshot, dji_motor as dji_task, onboard_pwm,
  external_pwm, ms5837_30ba, pmu_can, sbus_rc, dm_motor, super_cap, vt13_rc, dd_motor as dd_task,
  AppType, djirc, lk, imu, dshot_app, djican, onboard_pwm_app, external_pwm_app, ms5837, can_pmu,
  sbus, dm, super_cap_app, vt13, dd, made_as, init_sdo,
}
use ecat_v2_master.Sdo.Cleanup.{hold, members, cleanup}
use ecat_v2_master.Sdo.Cleanup.Closed.{Yields, Yields-bind, Yields-value, any_step, IsOwned, closed}
use ecat_v2_master.Sdo.Cleanup.Parts.{
  publish_only-Owns, finish_imu-Owns, finish_four-Owns, finish_external-Owns,
  publish_and_subscribe-IsPair, finish_super_cap-Owns, finish_lk-Owns, finish_dm-Owns, Owns, IsPair,
}

module _ (es : Entries) (prefix : Key) where
  -- init_sdo of a class that is done with its arguments
  abbrev OwnsMade : {A : Type 0} → (A → AnyTask) → Made A → Type 0
  OwnsMade wrap (made, c) = Owns es prefix wrap made

  abbrev OwnsTask : Made AnyTask → Type 0
  OwnsTask ((t, eps), c) = IsOwned t eps

  ends_with :
      {A : Type 0} (wrap : A → AnyTask) (o : Outcome (A × List Endpoint)) (c : Cursor)
      → Yields (Owns es prefix wrap) o
      → Yields (OwnsMade wrap) (o >>= λ made. value (made, c))
  ends_with wrap o c h =
      Yields-bind (Owns es prefix wrap) (OwnsMade wrap) o _ h
        λ made v. Yields-value (OwnsMade wrap) (made, c) v

  wrapped :
      {A : Type 0} (wrap : A → AnyTask) (o : Outcome (Made A))
      → Yields (OwnsMade wrap) o
      → Yields OwnsTask (made_as wrap o)
  wrapped wrap o h =
      Yields-bind (OwnsMade wrap) OwnsTask o _ h λ ((t, eps), c) v. Yields-value OwnsTask _ v

  receiver-Owns :
      (wrap : TaskInfo → AnyTask) (type_id : ℕ) (c : Cursor)
      → ((t : TaskInfo) (topic : Key) → IsOwned (wrap t) (publisher topic ∷ []))
      → Yields OwnsTask (made_as wrap (init_sdo_receiver es prefix type_id c))
  unfolding init_sdo_receiver
  receiver-Owns wrap type_id c k = wrapped wrap _ (
      ends_with wrap (publish_only es prefix type_id) c
        (publish_only-Owns es prefix wrap type_id k))

  -- Behind the arguments
  copied_first :
      {A : Type 0} (wrap : A → AnyTask) (place : Key) (names : List Key) (c : Cursor)
      (o : Outcome (A × List Endpoint))
      → Yields (Owns es prefix wrap) o
      → Yields OwnsTask
          (made_as wrap (copy_fields es place names c >>= λ c'. o >>= λ made. value (made, c')))
  copied_first wrap place names c o h =
      wrapped wrap _ (any_step _ (copy_fields es place names c) _ λ c'. ends_with wrap o c' h)

  module _ (decimal : ℕ → Key) where
    init_sdo-Owns :
        (app : AppType) (c : Cursor) → Yields OwnsTask (init_sdo decimal es app prefix c)
    unfolding init_sdo init_sdo_lk init_sdo_imu init_sdo_dshot init_sdo_onboard_pwm
        init_sdo_external_pwm init_sdo_ms5837 init_sdo_dm init_sdo_super_cap init_sdo_dji
        init_sdo_dd
    init_sdo-Owns djirc c = receiver-Owns dbus_rc 1 c λ t topic. (refl, tt)
    init_sdo-Owns lk c = wrapped lk_motor _ (
        any_step _ (control_type es prefix) _ λ type.
          any_step _ (copy_fields es _ _ c) _
            λ c'. ends_with lk_motor _ c' (finish_lk-Owns es prefix 2 (type == 8)))
    init_sdo-Owns imu c = copied_first hipnuc_imu_can _ _ c _ (finish_imu-Owns es prefix 3)
    init_sdo-Owns dshot_app c =
        copied_first dshot _ _ c _ (finish_four-Owns es prefix dshot 4 λ t topic. (refl, tt))
    init_sdo-Owns djican c = wrapped dji_task _ (
        any_step _ (copy_fields es _ _ c) _ λ c1.
          any_step _ (four_motors decimal (dji_motor es prefix) c1) _ λ (enabled, c2).
            Yields-bind (IsPair es prefix) (OwnsMade dji_task) (publish_and_subscribe es prefix 5) _
              (publish_and_subscribe-IsPair es prefix 5)
              λ (info, eps) (topic, other, same).
                Yields-value (OwnsMade dji_task) _ (rw same (refl, (refl, tt))))
    init_sdo-Owns onboard_pwm_app c =
        copied_first onboard_pwm _ _ c _
          (finish_four-Owns es prefix onboard_pwm 6 λ t topic. (refl, tt))
    init_sdo-Owns external_pwm_app c =
        copied_first external_pwm _ _ c _ (finish_external-Owns es prefix 7)
    init_sdo-Owns ms5837 c =
        copied_first ms5837_30ba _ _ c _
          (publish_only-Owns es prefix ms5837_30ba 8 λ t topic. (refl, tt))
    init_sdo-Owns can_pmu c = receiver-Owns pmu_can 10 c λ t topic. (refl, tt)
    init_sdo-Owns sbus c = receiver-Owns sbus_rc 11 c λ t topic. (refl, tt)
    init_sdo-Owns dm c = copied_first dm_motor _ _ c _ (finish_dm-Owns es prefix 12)
    init_sdo-Owns super_cap_app c =
        copied_first super_cap _ _ c _ (finish_super_cap-Owns es prefix 13)
    init_sdo-Owns vt13 c = receiver-Owns vt13_rc 14 c λ t topic. (refl, tt)
    init_sdo-Owns dd c = wrapped dd_task _ (
        any_step _ (copy_fields es _ _ c) _ λ c1.
          any_step _ (four_motors decimal (dd_motor es prefix) c1) _ λ (enabled, c2).
            Yields-bind (IsPair es prefix) (OwnsMade dd_task) (publish_and_subscribe es prefix 15) _
              (publish_and_subscribe-IsPair es prefix 15)
              λ (info, eps) (topic, other, same).
                Yields-value (OwnsMade dd_task) _ (rw same (refl, (refl, tt))))

    -- Whatever init_sdo of a task creates, for any of the fourteen classes and any configuration,
    -- the class's cleanup resets: afterwards the task holds no publisher and no subscription.
    pub init_sdo-closed :
        (app : AppType) (c : Cursor) {t : AnyTask} {eps : List Endpoint} {c' : Cursor}
        → init_sdo decimal es app prefix c ≡ value ((t, eps), c')
        → cleanup t (hold t eps) ≡ []
    unfolding cleanup
    init_sdo-closed app c {t} {eps} {c'} e =
        closed (members t) (hold t eps) (init_sdo-Owns app c ((t, eps), c') e)
