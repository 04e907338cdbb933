-- ===== src/Sdo/Complete/Spills/Whole.antt =====
-- `init_task_list` of a configured slave whose configured length is too small writes past the end of
-- the argument buffer.
use ecat_v2_master.Base.{
  ℕ, zero, suc, ◌+◌, ◌<◌, ◌≡◌, refl, sym, ap, ◌∙◌, inl, inr, Bool-cases, true, false, List, [], ◌∷◌,
  ◌++◌, Option, none, some, arith, length, length-append, length-replicate, replicate, ◌==◌, ltb,
}
use ecat_v2_master.Io.{Cursor, write_uint8}
use ecat_v2_master.Io.Splice.{splice, length-splice}
use ecat_v2_master.Io.Writing.{write_uint8_at, write_all-splice, write_all-overflow}
use ecat_v2_master.Config.{value, out_of_bounds, Key, Entries, get_field_as}
use ecat_v2_master.Device.{SlaveDevice}
use ecat_v2_master.Sdo.{◌>>=◌, codes, as_uint8, as_uint16, as_string, Endpoint, publisher}
use ecat_v2_master.Sdo.Emits.{both}
use ecat_v2_master.Sdo.TaskList.{
  AnyTask, AppType, app_types, case_for, init_sdo, init_app, app_prefix, slave_key, copy_task_type,
  task_type, init_apps, fill_arg_buf, init_task_list,
}
use ecat_v2_master.Sdo.Arguments.{
  sdo_arguments, app_arguments, apps_arguments, slave_arguments, task_arguments,
}
use ecat_v2_master.Sdo.Complete.{both_parts}
use ecat_v2_master.Sdo.Complete.Whole.{
  AreConfigured, init_app-Makes, type_byte, copy_task_type-Moves, init_task_list-fill,
}
use ecat_v2_master.Sdo.Complete.Spills.{
  Spills, Spills-nothing, Spills-before, Spills-behind, Spills-both, Spills-look, built-Spills,
}
use ecat_v2_master.Sdo.Complete.Spills.Classes.{Spills-sdo}

module _ (decimal : ℕ → Key) (es : Entries) where
  init_app-Spills :
      (o : Option AppType) (prefix : Key)
      → Spills
          (elim o [ none ↦ out_of_bounds | some app ↦ sdo_arguments decimal es app prefix ])
          (λ c. elim o [ none ↦ out_of_bounds | some app ↦ init_sdo decimal es app prefix c ])
  init_app-Spills none prefix bs e c inside over = refl
  init_app-Spills (some app) prefix bs e c inside over =
      Spills-sdo decimal es app prefix bs e c inside over

  copy_task_type-Spills :
      (prefix : Key) (type : ℕ)
      → task_type decimal es prefix ≡ value type
      → Spills (value (type ∷ [])) (copy_task_type decimal es prefix)
  unfolding copy_task_type
  copy_task_type-Spills prefix type e bs h c inside over =
      built-Spills es (prefix ++ codes "sdowrite_") (codes "task_type" ∷ []) (λ sdo. 1)
        (omega arith) bs (type_byte decimal es prefix type e ∙ h) c inside over

  init_apps-Spills :
      (rounds sn app : ℕ)
      → AreConfigured decimal es rounds sn app
      → Spills (apps_arguments decimal es rounds sn app) (init_apps decimal es rounds sn app)
  unfolding init_apps apps_arguments init_app app_arguments
  init_apps-Spills zero sn app g = Spills-nothing (init_apps decimal es zero sn app)
  init_apps-Spills (suc rounds) sn app (g, gs) =
      let place = app_prefix decimal es sn app in
      Spills-look (task_type decimal es place) _ _ λ type p.
        Spills-behind (value (type ∷ [])) _ (copy_task_type decimal es place) _
          (copy_task_type-Moves decimal es place type p) (copy_task_type-Spills place type p)
          (Spills-both _ (apps_arguments decimal es rounds sn (app + 1)) _ _
            (init_app-Makes decimal es (case_for type app_types) place λ a k. g type a p k)
            (init_app-Spills (case_for type app_types) place)
            λ (t, endpoints).
              Spills-before _ (init_apps decimal es rounds sn (app + 1)) _
                (init_apps-Spills rounds sn (app + 1) gs))

  fill_arg_buf-no_count :
      (d : SlaveDevice AnyTask) (latency : Endpoint) (count : ℕ)
      → write_uint8 count (record { bytes = d.arg_buf; offset = 0 }) ≡ none
      → fill_arg_buf decimal es d latency count ≡ out_of_bounds
  unfolding fill_arg_buf
  fill_arg_buf-no_count d latency count put = rw put refl

  fill_arg_buf-full :
      (d : SlaveDevice AnyTask) (latency : Endpoint) (count : ℕ) (start : Cursor)
      → write_uint8 count (record { bytes = d.arg_buf; offset = 0 }) ≡ some start
      → init_apps decimal es count d.sn 1 start ≡ out_of_bounds
      → fill_arg_buf decimal es d latency count ≡ out_of_bounds
  unfolding fill_arg_buf
  fill_arg_buf-full d latency count start put full = rw (put, full) refl

  fill_arg_buf-spills :
      (d : SlaveDevice AnyTask) (latency : Endpoint) (count : ℕ) (rest : List ℕ)
      → AreConfigured decimal es count d.sn 1
      → apps_arguments decimal es count d.sn 1 ≡ value rest
      → length d.arg_buf < 1 + length rest
      → fill_arg_buf decimal es d latency count ≡ out_of_bounds
  fill_arg_buf-spills d latency count rest set e over =
      let zeros = d.arg_buf in
      let empty : Cursor = record { bytes = zeros; offset = 0 } in
      elim (Bool-cases (ltb 0 (length zeros))) [
        | inl some_room ↦
            fill_arg_buf-full d latency count
              (record { bytes = splice 0 (count ∷ []) zeros; offset = 1 })
              (write_uint8_at count empty
                ∙ write_all-splice (count ∷ []) zeros 0 (ground (arith, some_room)))
              (init_apps-Spills count d.sn 1 set rest e _
                (ground (arith, some_room, length-splice 0 (count ∷ []) zeros))
                (omega (arith, over, length-splice 0 (count ∷ []) zeros)))
        | inr no_room ↦ fill_arg_buf-no_count d latency count (
            write_uint8_at count empty
            ∙ write_all-overflow (count ∷ []) zeros 0 (omega arith) (ground (arith, no_room)))
      ]

  -- The revision check has passed, the length, the latency topic and a number of tasks that is not
  -- 0 are configured, the described arguments of the slave's tasks exist but do not fit into the
  -- length, and for each task the other fields and topics that its class looks up are configured.
  -- Then init_task_list writes past the end of the argument buffer: the result is out_of_bounds.
  pub init_task_list-spills :
      (d : SlaveDevice AnyTask) (len count : ℕ) (topic : Key) (bs : List ℕ)
      → d.is_sw_rev_check_passed ≡ true
      → get_field_as as_uint16 (slave_key decimal es d.sn (codes "sdo_len")) es ≡ value len
      → get_field_as as_string (slave_key decimal es d.sn (codes "latency_pub_topic")) es
        ≡ value topic
      → get_field_as as_uint8 (slave_key decimal es d.sn (codes "task_count")) es ≡ value count
      → (count == 0) ≡ false
      → AreConfigured decimal es count d.sn 1
      → task_arguments decimal es d.sn ≡ value bs
      → len < length bs
      → init_task_list decimal es d ≡ out_of_bounds
  unfolding task_arguments slave_arguments
  init_task_list-spills d len count topic bs passed_check p q r some_tasks set e short =
      let args = apps_arguments decimal es count d.sn 1 in
      let counted : both (value (count ∷ [])) args ≡ value bs =
        sym (ap (λ o. o >>= λ count. slave_arguments decimal es count d.sn) r) ∙ e in
      let (one, rest, o, s, whole) = both_parts (value (count ∷ [])) args counted in
      let byte : count ∷ [] ≡ one = cc o in
      let long : length bs ≡ 1 + length rest =
        omega (arith, ap length whole, length-append one rest, ap length byte) in
      init_task_list-fill decimal es d len count topic passed_check p q r some_tasks
      ∙ fill_arg_buf-spills (record d { arg_buf_len = len; arg_buf = replicate len 0 })
          (publisher topic) count rest set s
          (omega (arith, long, short, length-replicate {A = ℕ} len 0))
