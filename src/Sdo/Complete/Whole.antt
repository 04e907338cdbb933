-- ===== src/Sdo/Complete/Whole.antt =====
-- `init_task_list` of a configured slave does not fail.
use ecat_v2_master.Base.{
  ℕ, zero, suc, ◌+◌, ◌≤◌, ◌≡◌, refl, sym, ap, subst, ◌∙◌, true, false, List, [], ◌∷◌, ◌++◌, Option,
  none, some, arith, length, length-append, length-replicate, replicate, ◌==◌,
}
use ecat_v2_master.Io.{Cursor, write_uint8}
use ecat_v2_master.Io.Splice.{splice, length-splice}
use ecat_v2_master.Io.Writing.{write_uint8_at, write_all-splice}
use ecat_v2_master.Config.{Outcome, value, out_of_bounds, defined, Key, Entries, get, get_field_as}
use ecat_v2_master.Config.Buffer.{and_then-value, variant_bytes}
use ecat_v2_master.Device.{SlaveDevice}
use ecat_v2_master.Sdo.{◌>>=◌, codes, as_uint8, as_uint16, as_string, Endpoint, publisher}
use ecat_v2_master.Sdo.Emits.{both, field_bytes}
use ecat_v2_master.Sdo.TaskList.{
  AnyTask, AppType, app_types, case_for, init_sdo, init_app, app_prefix, slave_key, copy_task_type,
  task_type, init_apps, fill_arg_buf, init_task_list,
}
use ecat_v2_master.Sdo.Arguments.{
  sdo_arguments, app_arguments, apps_arguments, slave_arguments, task_arguments,
}
use ecat_v2_master.Sdo.Complete.{
  Moves, Makes, IsBehind, both_parts, built-moves, Makes-look, Makes-behind, Makes-both, Makes-map,
  nothing-Makes,
}
use ecat_v2_master.Sdo.Whole.{type_key, held_uint8}
use ecat_v2_master.Sdo.Complete.Classes.{IsConfigured, Makes-sdo}

then_value :
    {A B : Type 0} (o : Outcome A) (f : A → Outcome B) {a : A} {r : Outcome B}
    → o ≡ value a
    → f a ≡ r
    → (o >>= f) ≡ r
then_value o f e h = ap (λ o. o >>= f) e ∙ h

module _ (decimal : ℕ → Key) (es : Entries) where
  -- All tasks of the slave have their other fields, whichever class their types stand for.
  abbrev pub AreConfigured : ℕ → ℕ → ℕ → Type 0
  AreConfigured zero sn app = Unit
  AreConfigured (suc rounds) sn app =
      ((type : ℕ) (a : AppType)
        → task_type decimal es (app_prefix decimal es sn app) ≡ value type
        → case_for type app_types ≡ some a
        → IsConfigured decimal es a (app_prefix decimal es sn app))
      × AreConfigured rounds sn (app + 1)

  pub init_app-Makes :
      (o : Option AppType) (prefix : Key)
      → ((a : AppType) → o ≡ some a → IsConfigured decimal es a prefix)
      → Makes
          (elim o [ none ↦ out_of_bounds | some app ↦ sdo_arguments decimal es app prefix ])
          (λ c. elim o [ none ↦ out_of_bounds | some app ↦ init_sdo decimal es app prefix c ])
  init_app-Makes none prefix g bs e c room = absurd (cc)
  init_app-Makes (some app) prefix g bs e c room =
      Makes-sdo decimal es app prefix (g app refl) bs e c room

  -- A type that is read as a number of 8 bits is one byte of the arguments.
  pub type_byte :
      (prefix : Key) (type : ℕ)
      → task_type decimal es prefix ≡ value type
      → field_bytes es (prefix ++ codes "sdowrite_") (codes "task_type" ∷ []) ≡ value (type ∷ [])
  unfolding task_type get_field_as field_bytes
  type_byte prefix type e =
      let (v, p, q) = and_then-value (get (prefix ++ codes "sdowrite_task_type") es) _ e in
      ap (λ k. get k es >>= λ v. value [] >>= λ bs. value (variant_bytes v ++ bs)) (type_key prefix)
      ∙ ap (λ o. o >>= λ v. value [] >>= λ bs. value (variant_bytes v ++ bs)) p
      ∙ ap (λ v. value (variant_bytes v ++ [])) (held_uint8 v q)

  copy_task_type-moves :
      (prefix : Key) (type : ℕ)
      → task_type decimal es prefix ≡ value type
      → (c : Cursor) → c.offset + 1 ≤ length c.bytes
      → (c' : Cursor) × (copy_task_type decimal es prefix c ≡ value c') × IsBehind c 1 c'
  unfolding copy_task_type
  copy_task_type-moves prefix type e c room =
      built-moves es (prefix ++ codes "sdowrite_") (codes "task_type" ∷ []) (λ sdo. 1) (omega arith)
        (type ∷ []) (type_byte prefix type e) (λ storage. refl) c room

  pub copy_task_type-Moves :
      (prefix : Key) (type : ℕ)
      → task_type decimal es prefix ≡ value type
      → Moves (value (type ∷ [])) (copy_task_type decimal es prefix)
  copy_task_type-Moves prefix type e bs h =
      let same : type ∷ [] ≡ bs = cc h in
      subst
        (λ bs.
          (c : Cursor)
          → c.offset + length bs ≤ length c.bytes
          → (c' : Cursor) × (copy_task_type decimal es prefix c ≡ value c')
            × IsBehind c (length bs) c')
        same (copy_task_type-moves prefix type e)

  init_apps-Makes :
      (rounds sn app : ℕ)
      → AreConfigured rounds sn app
      → Makes (apps_arguments decimal es rounds sn app) (init_apps decimal es rounds sn app)
  unfolding init_apps apps_arguments init_app app_arguments
  init_apps-Makes zero sn app g = nothing-Makes (value ([], [])) (([], []), refl)
  init_apps-Makes (suc rounds) sn app (g, gs) =
      let place = app_prefix decimal es sn app in
      Makes-look (task_type decimal es place) _ _ λ type p.
        Makes-behind (value (type ∷ [])) _ (copy_task_type decimal es place) _
          (copy_task_type-Moves place type p)
          (Makes-both _ (apps_arguments decimal es rounds sn (app + 1)) _ _
            (init_app-Makes (case_for type app_types) place λ a k. g type a p k)
            λ (t, endpoints).
              Makes-map _ (init_apps decimal es rounds sn (app + 1))
                (λ (ts, others). (t ∷ ts, endpoints ++ others))
                (init_apps-Makes rounds sn (app + 1) gs))

  fill_arg_buf-value :
      (d : SlaveDevice AnyTask) (latency : Endpoint) (count : ℕ) (start c : Cursor)
      {ts : List AnyTask} {ends : List Endpoint}
      → write_uint8 count (record { bytes = d.arg_buf; offset = 0 }) ≡ some start
      → init_apps decimal es count d.sn 1 start ≡ value ((ts, ends), c)
      → fill_arg_buf decimal es d latency count
        ≡ value (
          record d { arg_buf = c.bytes; task_list = ts; is_conf_ros_done = true },
          true,
          latency ∷ ends,
        )
  unfolding fill_arg_buf
  fill_arg_buf-value d latency count start c {ts} {ends} put made =
      ap
        (λ o. defined o >>= λ c. init_apps decimal es count d.sn 1 c >>= λ ((tasks, endpoints), c').
          value (
            record d { arg_buf = c'.bytes; task_list = tasks; is_conf_ros_done = true },
            true,
            latency ∷ endpoints,
          ))
        put
      ∙ ap
          (λ o. o >>= λ ((tasks, endpoints), c'). value (
            record d { arg_buf = c'.bytes; task_list = tasks; is_conf_ros_done = true },
            true,
            latency ∷ endpoints,
          ))
          made

  pub init_task_list-fill :
      (d : SlaveDevice AnyTask) (len count : ℕ) (topic : Key)
      → d.is_sw_rev_check_passed ≡ true
      → get_field_as as_uint16 (slave_key decimal es d.sn (codes "sdo_len")) es ≡ value len
      → get_field_as as_string (slave_key decimal es d.sn (codes "latency_pub_topic")) es
        ≡ value topic
      → get_field_as as_uint8 (slave_key decimal es d.sn (codes "task_count")) es ≡ value count
      → (count == 0) ≡ false
      → init_task_list decimal es d
        ≡ fill_arg_buf decimal es
            (record d { arg_buf_len = len; arg_buf = replicate len 0 })
            (publisher topic)
            count
  unfolding init_task_list
  init_task_list-fill d len count topic b p q r n = rw (b, p, q, r, n) refl

  -- The revision check has passed, the length, the latency topic and a number of tasks that is not
  -- 0 are configured, the described arguments of the slave's tasks exist and fit into the length,
  -- and for each task the other fields and topics that its class looks up are configured. Then
  -- init_task_list succeeds.
  pub init_task_list-completes :
      (d : SlaveDevice AnyTask) (len count : ℕ) (topic : Key) (bs : List ℕ)
      → d.is_sw_rev_check_passed ≡ true
      → get_field_as as_uint16 (slave_key decimal es d.sn (codes "sdo_len")) es ≡ value len
      → get_field_as as_string (slave_key decimal es d.sn (codes "latency_pub_topic")) es
        ≡ value topic
      → get_field_as as_uint8 (slave_key decimal es d.sn (codes "task_count")) es ≡ value count
      → (count == 0) ≡ false
      → AreConfigured count d.sn 1
      → task_arguments decimal es d.sn ≡ value bs
      → length bs ≤ len
      → (d' : SlaveDevice AnyTask) × (endpoints : List Endpoint) × (init_task_list decimal es d
          ≡ value (d', true, endpoints))
  unfolding task_arguments slave_arguments
  init_task_list-completes d len count topic bs passed_check p q r some_tasks set e fits =
      let args = apps_arguments decimal es count d.sn 1 in
      let counted : both (value (count ∷ [])) args ≡ value bs =
        sym (ap (λ o. o >>= λ count. slave_arguments decimal es count d.sn) r) ∙ e in
      let (one, rest, o, s, whole) = both_parts (value (count ∷ [])) args counted in
      let byte : count ∷ [] ≡ one = cc o in
      let long : length bs ≡ 1 + length rest =
        omega (arith, ap length whole, length-append one rest, ap length byte) in
      let zeros = replicate len 0 in
      let size = length-replicate {A = ℕ} len 0 in
      let start : Cursor = record { bytes = splice 0 (count ∷ []) zeros; offset = 1 } in
      let put : write_uint8 count (record { bytes = zeros; offset = 0 }) ≡ some start =
        write_uint8_at count (record { bytes = zeros; offset = 0 })
        ∙ write_all-splice (count ∷ []) zeros 0 (omega (arith, long, fits, size)) in
      let ((ts, ends), c, t, i) =
        init_apps-Makes count d.sn 1 set rest s start
          (omega (arith, long, fits, size, length-splice 0 (count ∷ []) zeros)) in
      let d1 = record d { arg_buf_len = len; arg_buf = zeros } in
      (
        record d1 { arg_buf = c.bytes; task_list = ts; is_conf_ros_done = true },
        publisher topic ∷ ends,
        init_task_list-fill d len count topic passed_check p q r some_tasks
            ∙ fill_arg_buf-value d1 (publisher topic) count start c put t,
      )
