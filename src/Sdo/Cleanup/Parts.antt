-- ===== src/Sdo/Cleanup/Parts.antt =====
-- What the parts of `init_sdo` create belongs to the task of its class.
use ecat_v2_master.Base.{ℕ, ◌≡◌, refl, Bool, true, false, List, [], ◌∷◌, ◌++◌}
use ecat_v2_master.Config.{Outcome, Key, Entries, get_field_as, get_field_or}
use ecat_v2_master.Task.{TaskInfo}
use ecat_v2_master.Task.LkMotor.{LkMotor}
use ecat_v2_master.Task.DmMotor.{DmMotor}
use ecat_v2_master.Task.Pwm.{FourChannels}
use ecat_v2_master.Sdo.{
  ◌>>=◌, Handler, on_command, codes, as_string, Endpoint, publisher, subscription, pub_topic,
  sub_topic, load_slave_info, as_uint8, as_uint16, as_float,
}
use ecat_v2_master.Sdo.Sensors.{publish_only, finish_imu}
use ecat_v2_master.Sdo.Outputs.{finish_four, finish_external}
use ecat_v2_master.Sdo.Motors.{
  lk_handler, dm_handler, control_type, subscribe, publish_and_subscribe, finish_lk, finish_dm,
  finish_super_cap,
}
use ecat_v2_master.Sdo.TaskList.{
  AnyTask, lk_motor, hipnuc_imu_can, external_pwm, dm_motor, super_cap,
}
use ecat_v2_master.Sdo.Cleanup.Closed.{
  Yields, Yields-bind, Yields-value, any_step, IsOwned, IsOwned-append, AreOffered,
  lk_handler-AreOffered, dm_handler-AreOffered,
}

-- The parts of init_sdo that create an endpoint
module _ {B : Type 0} (Q : B → Type 0) (es : Entries) (prefix : Key)
    (f : Endpoint → Outcome B) where
  after_pub_topic :
      ((topic : Key) → Yields Q (f (publisher topic))) → Yields Q (pub_topic es prefix >>= f)
  unfolding pub_topic
  after_pub_topic k =
      Yields-bind (λ e. (topic : Key) × (e ≡ publisher topic)) Q (pub_topic es prefix) f
        (any_step _ (get_field_as as_string (prefix ++ codes "pub_topic") es) _
          λ t. Yields-value _ (publisher t) (t, refl))
        λ e (t, same). rw same (k t)

  after_sub_topic :
      (h : Handler)
      → ((topic : Key) → Yields Q (f (subscription topic h)))
      → Yields Q (sub_topic es prefix h >>= f)
  unfolding sub_topic
  after_sub_topic h k =
      Yields-bind (λ e. (topic : Key) × (e ≡ subscription topic h)) Q (sub_topic es prefix h) f
        (any_step _ (get_field_as as_string (prefix ++ codes "sub_topic") es) _
          λ t. Yields-value _ (subscription t h) (t, refl))
        λ e (t, same). rw same (k t)

module _ (es : Entries) (prefix : Key) where
  subscribe-IsOwned :
      (t : AnyTask) (hs : List Handler)
      → AreOffered t hs
      → Yields (IsOwned t) (subscribe es prefix hs)
  unfolding subscribe
  subscribe-IsOwned t [] v = Yields-value (IsOwned t) [] tt
  subscribe-IsOwned t (h ∷ hs) (v, vs) =
      after_sub_topic (IsOwned t) es prefix _ h
        λ topic. Yields-value (IsOwned t) (subscription topic h ∷ []) (v, tt)

  -- A task of a class with what it has created
  abbrev pub Owns : {A : Type 0} → (A → AnyTask) → A × List Endpoint → Type 0
  Owns wrap (t, eps) = IsOwned (wrap t) eps

  pub publish_only-Owns :
      (wrap : TaskInfo → AnyTask) (type_id : ℕ)
      → ((t : TaskInfo) (topic : Key) → IsOwned (wrap t) (publisher topic ∷ []))
      → Yields (Owns wrap) (publish_only es prefix type_id)
  unfolding publish_only
  publish_only-Owns wrap type_id k =
      any_step _ (load_slave_info es prefix type_id true false) _ λ info.
        after_pub_topic (Owns wrap) es prefix _
          λ topic. Yields-value (Owns wrap) (info, publisher topic ∷ []) (k info topic)

  pub finish_imu-Owns : (type_id : ℕ) → Yields (Owns hipnuc_imu_can) (finish_imu es prefix type_id)
  unfolding finish_imu
  finish_imu-Owns type_id = any_step _ (load_slave_info es prefix type_id true false) _ λ info.
      any_step _ (get_field_or as_string (prefix ++ codes "conf_frame_name") (codes "imu_link") es)
        _
        λ name.
          after_pub_topic (Owns hipnuc_imu_can) es prefix _
            λ topic. Yields-value (Owns hipnuc_imu_can) _ (refl, tt)

  pub finish_four-Owns :
      (wrap : FourChannels → AnyTask) (type_id : ℕ)
      → ((t : FourChannels) (topic : Key) → IsOwned (wrap t) (subscription topic on_command ∷ []))
      → Yields (Owns wrap) (finish_four es prefix type_id)
  unfolding finish_four
  finish_four-Owns wrap type_id k =
      any_step _ (load_slave_info es prefix type_id false true) _ λ info.
        any_step _ (get_field_as as_uint16 (prefix ++ codes "sdowrite_init_value") es) _ λ init.
          after_sub_topic (Owns wrap) es prefix _ on_command
            λ topic. Yields-value (Owns wrap) _ (k _ topic)

  pub finish_external-Owns :
      (type_id : ℕ) → Yields (Owns external_pwm) (finish_external es prefix type_id)
  unfolding finish_external
  finish_external-Owns type_id = any_step _ (load_slave_info es prefix type_id false true) _ λ info.
      any_step _ (get_field_as as_uint16 (prefix ++ codes "sdowrite_init_value") es) _ λ init.
        any_step _ (get_field_as as_uint8 (prefix ++ codes "sdowrite_channel_num") es) _ λ count.
          after_sub_topic (Owns external_pwm) es prefix _ on_command
            λ topic. Yields-value (Owns external_pwm) _ (refl, tt)

  -- A publisher and the subscription to the commands, whichever task they are of
  abbrev pub IsPair : TaskInfo × List Endpoint → Type 0
  IsPair (info, eps) =
      (topic : Key) × (other : Key) × (eps ≡ publisher topic ∷ subscription other on_command ∷ [])

  pub publish_and_subscribe-IsPair :
      (type_id : ℕ) → Yields IsPair (publish_and_subscribe es prefix type_id)
  unfolding publish_and_subscribe
  publish_and_subscribe-IsPair type_id =
      any_step _ (load_slave_info es prefix type_id true true) _ λ info.
        after_pub_topic IsPair es prefix _ λ topic.
          after_sub_topic IsPair es prefix _ on_command
            λ other. Yields-value IsPair _ (topic, other, refl)

  pub finish_super_cap-Owns :
      (type_id : ℕ) → Yields (Owns super_cap) (finish_super_cap es prefix type_id)
  unfolding finish_super_cap
  finish_super_cap-Owns type_id = any_step _ (load_slave_info es prefix type_id true true) _ λ info.
      after_sub_topic (Owns super_cap) es prefix _ on_command λ other.
        after_pub_topic (Owns super_cap) es prefix _
          λ topic. Yields-value (Owns super_cap) _ (refl, (refl, tt))

  lk_publisher-IsOwned : (t : LkMotor) (topic : Key) → IsOwned (lk_motor t) (publisher topic ∷ [])
  lk_publisher-IsOwned t topic = either t.info t.is_broadcast_mode
    where
      either :
          (i : TaskInfo) (b : Bool)
          → IsOwned (lk_motor (record { info = i; is_broadcast_mode = b })) (publisher topic ∷ [])
      either i true = (refl, tt)
      either i false = (refl, tt)

  pub finish_lk-Owns :
      (type_id : ℕ) (b : Bool) → Yields (Owns lk_motor) (finish_lk es prefix type_id b)
  unfolding finish_lk
  finish_lk-Owns type_id b = any_step _ (load_slave_info es prefix type_id true true) _ λ info.
      any_step _ (control_type es prefix) _ λ type.
        let t : LkMotor = record { info = info; is_broadcast_mode = b } in
        Yields-bind (IsOwned (lk_motor t)) (Owns lk_motor) (subscribe es prefix (lk_handler type)) _
          (subscribe-IsOwned (lk_motor t) (lk_handler type) (lk_handler-AreOffered t type))
          λ eps v. after_pub_topic (Owns lk_motor) es prefix _ λ topic.
            Yields-value (Owns lk_motor) _
              (IsOwned-append (lk_motor t) eps (publisher topic) v (lk_publisher-IsOwned t topic))

  pub finish_dm-Owns : (type_id : ℕ) → Yields (Owns dm_motor) (finish_dm es prefix type_id)
  unfolding finish_dm
  finish_dm-Owns type_id = any_step _ (load_slave_info es prefix type_id true true) _ λ info.
      any_step _ (control_type es prefix) _ λ type.
        let any : DmMotor ℕ = record { info = info; pmax = 0; vmax = 0; tmax = 0 } in
        Yields-bind (IsOwned (dm_motor any)) (Owns dm_motor) (subscribe es prefix (dm_handler type))
          _ (subscribe-IsOwned (dm_motor any) (dm_handler type) (dm_handler-AreOffered any type))
          λ eps v.
            any_step _ (get_field_or as_float (prefix ++ codes "conf_pmax") 0x40490fdb es) _ λ pmax.
              any_step _ (get_field_as as_float (prefix ++ codes "conf_vmax") es) _ λ vmax.
                any_step _ (get_field_as as_float (prefix ++ codes "conf_tmax") es) _ λ tmax.
                  after_pub_topic (Owns dm_motor) es prefix _
                    λ topic. Yields-value (Owns dm_motor) _ (made info pmax vmax tmax eps topic v)
    where
      made :
          (info : TaskInfo) (pmax vmax tmax : ℕ) (eps : List Endpoint) (topic : Key)
          → IsOwned (dm_motor (record { info = info; pmax = 0; vmax = 0; tmax = 0 })) eps
          → IsOwned
              (dm_motor (record { info = info; pmax = pmax; vmax = vmax; tmax = tmax }))
              (eps ++ (publisher topic ∷ []))
      made info pmax vmax tmax [] topic v = (refl, tt)
      made info pmax vmax tmax (publisher t ∷ eps) topic (v, vs) =
          (v, made info pmax vmax tmax eps topic vs)
      made info pmax vmax tmax (subscription t h ∷ eps) topic (v, vs) =
          (v, made info pmax vmax tmax eps topic vs)
