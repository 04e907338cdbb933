-- ===== src/Sdo/Whole.antt =====
-- The argument buffer that `init_task_list` leaves, as a whole.
use ecat_v2_master.Base.{
  ℕ, zero, suc, ◌+◌, ◌≤◌, ◌≡◌, refl, sym, ap, subst, ◌∙◌, inl, inr, Bool, true, false, not, List,
  [], ◌∷◌, ◌++◌, Option, none, some, arith, Bool-cases, taken, passed, ltb, ltb→lt, length,
  replicate, length-replicate, ◌==◌, if◌then◌else◌,
}
use ecat_v2_master.Io.{Cursor, memcpy, write_uint8}
use ecat_v2_master.Io.Splice.{splice}
use ecat_v2_master.Io.Writing.{write_all, write_all-splice, write_all-overflow, write_uint8_at}
use ecat_v2_master.Config.{
  Variant, uint8, uint16, int8, int16, uint32, int32, float, string, bool, Outcome, value,
  out_of_bounds, held, defined, Key, Entries, get, get_field_as,
}
use ecat_v2_master.Config.Buffer.{and_then-value, variant_bytes}
use ecat_v2_master.Device.{SlaveDevice}
use ecat_v2_master.Sdo.{◌>>=◌, codes, as_uint8, as_uint16, as_string, Endpoint, publisher, Made}
use ecat_v2_master.Sdo.Emits.{
  field_bytes, both, Wrote, Wrote-nothing, Wrote-both, Wrote-as, defined-value, built, copied,
}
use ecat_v2_master.Sdo.TaskList.{
  AnyTask, AppType, app_types, case_for, init_sdo, init_app, app_prefix, slave_key, copy_task_type,
  task_type, init_apps, fill_arg_buf, init_task_list,
}
use ecat_v2_master.Sdo.Arguments.{
  sdo_arguments, app_arguments, apps_arguments, slave_arguments, task_arguments,
}
use ecat_v2_master.Sdo.Written.{Wrote-sdo}

pub held_uint8 : (v : Variant) {n : ℕ} → held (as_uint8 v) ≡ value n → v ≡ uint8 n
held_uint8 (uint8 m) e = cc e
held_uint8 (uint16 m) e = absurd (cc)
held_uint8 (int8 m) e = absurd (cc)
held_uint8 (int16 m) e = absurd (cc)
held_uint8 (uint32 m) e = absurd (cc)
held_uint8 (int32 m) e = absurd (cc)
held_uint8 (float m) e = absurd (cc)
held_uint8 (string m) e = absurd (cc)
held_uint8 (bool m) e = absurd (cc)

pub type_key :
    (prefix : Key)
    → (prefix ++ codes "sdowrite_") ++ codes "task_type" ≡ prefix ++ codes "sdowrite_task_type"
type_key [] = refl
type_key (x ∷ prefix) = ap (λ k. x ∷ k) (type_key prefix)

abbrev tasks_of : Outcome (Made (List AnyTask)) → List AnyTask
tasks_of (value ((ts, ends), c)) = ts
tasks_of _ = []

abbrev device_of :
    SlaveDevice AnyTask → Outcome (SlaveDevice AnyTask × Bool × List Endpoint) → SlaveDevice AnyTask
device_of d (value (d', done, ends)) = d'
device_of d _ = d

module _ (decimal : ℕ → Key) (es : Entries) where
  -- A task's type that is read as a number of 8 bits is one byte in the buffer.
  type_bytes :
      (prefix : Key) (type : ℕ) {bs : List ℕ}
      → task_type decimal es prefix ≡ value type
      → field_bytes es (prefix ++ codes "sdowrite_") (codes "task_type" ∷ []) ≡ value bs
      → bs ≡ type ∷ []
  unfolding task_type get_field_as field_bytes
  type_bytes prefix type e h =
      let (v, p, q) = and_then-value (get (prefix ++ codes "sdowrite_task_type") es) _ e in
      let (w, r, s) =
        and_then-value (get ((prefix ++ codes "sdowrite_") ++ codes "task_type") es) _ h in
      let same : w ≡ uint8 type =
        cc (sym r ∙ ap (λ k. get k es) (type_key prefix) ∙ p, held_uint8 v q) in
      cc (ap (λ v. value (variant_bytes v ++ [])) (sym same) ∙ s)

  copy_task_type-Wrote :
      (prefix : Key) (type : ℕ) (c : Cursor) {c' : Cursor}
      → task_type decimal es prefix ≡ value type
      → copy_task_type decimal es prefix c ≡ value c'
      → Wrote (value (type ∷ [])) c c'
  unfolding copy_task_type
  copy_task_type-Wrote prefix type c e h =
      let (sdo, bs, r, l, s) =
        built es (prefix ++ codes "sdowrite_") (codes "task_type" ∷ [])
          (λ sdo bs. defined (memcpy c.bytes c.offset bs) >>= λ bytes.
            value (record { bytes = bytes; offset = c.offset + 1 }))
          (omega arith) h in
      let one = type_bytes prefix type e r in
      (bs, sym (ap value one), copied bs c.bytes c.offset 1 (sym (ap length one)) s)

  init_app-Wrote :
      (o : Option AppType) (prefix : Key) (c : Cursor) {made : AnyTask × List Endpoint}
      {c' : Cursor}
      → elim o [ none ↦ out_of_bounds | some app ↦ init_sdo decimal es app prefix c ]
        ≡ value (made, c')
      → Wrote
          (elim o [ none ↦ out_of_bounds | some app ↦ sdo_arguments decimal es app prefix ])
          c
          c'
  init_app-Wrote none prefix c e = absurd (cc)
  init_app-Wrote (some app) prefix c e = Wrote-sdo decimal es app prefix c e

  init_apps-Wrote :
      (rounds sn app : ℕ) (c : Cursor) {made : List AnyTask × List Endpoint} {c' : Cursor}
      → init_apps decimal es rounds sn app c ≡ value (made, c')
      → Wrote (apps_arguments decimal es rounds sn app) c c'
  unfolding init_apps apps_arguments init_app app_arguments
  init_apps-Wrote zero sn app c {made} {c'} e = Wrote-as c c c' refl (cc e) (Wrote-nothing c)
  init_apps-Wrote (suc rounds) sn app c {made} {c'} e =
      let place = app_prefix decimal es sn app in
      let (type, p, q) = and_then-value (task_type decimal es place) _ e in
      let (c1, r, s) = and_then-value (copy_task_type decimal es place c) _ q in
      let (((t, ends), c2), u, v) = and_then-value (init_app decimal es type place c1) _ s in
      let (((ts, others), c3), w, x) =
        and_then-value (init_apps decimal es rounds sn (app + 1) c2) _ v in
      let last : c3 ≡ c' = cc x in
      Wrote-as c c' c' (apps_step rounds sn app type p) refl (
        Wrote-both c c1 c' (copy_task_type-Wrote place type c p r) (
          Wrote-both c1 c2 c' (init_app-Wrote (case_for type app_types) place c1 u)
            (Wrote-as c2 c3 c' refl last (init_apps-Wrote rounds sn (app + 1) c2 w))))
    where
      apps_step :
          (rounds sn app type : ℕ)
          → task_type decimal es (app_prefix decimal es sn app) ≡ value type
          → apps_arguments decimal es (suc rounds) sn app
            ≡ both (value (type ∷ [])) (
                both
                  (app_arguments decimal es type (app_prefix decimal es sn app))
                  (apps_arguments decimal es rounds sn (app + 1)))
      apps_step rounds sn app type p = rw p refl

  length-init_apps :
      (rounds sn app : ℕ) (c : Cursor) {ts : List AnyTask} {ends : List Endpoint} {c' : Cursor}
      → init_apps decimal es rounds sn app c ≡ value ((ts, ends), c')
      → length ts ≡ rounds
  unfolding init_apps
  length-init_apps zero sn app c e = cc e
  length-init_apps (suc rounds) sn app c e =
      let place = app_prefix decimal es sn app in
      let (type, p, q) = and_then-value (task_type decimal es place) _ e in
      let (c1, r, s) = and_then-value (copy_task_type decimal es place c) _ q in
      let (((t, ends), c2), u, v) = and_then-value (init_app decimal es type place c1) _ s in
      let (((ts, others), c3), w, x) =
        and_then-value (init_apps decimal es rounds sn (app + 1) c2) _ v in
      ap (λ o. length (tasks_of o)) (sym x) ∙ ap suc (length-init_apps rounds sn (app + 1) c2 w)

  -- The bytes of a chain that succeeded from the start of a buffer of zeros
  whole :
      (bs : List ℕ) (n : ℕ) {c' : Cursor}
      → write_all bs (record { bytes = replicate n 0; offset = 0 }) ≡ some c'
      → (length bs ≤ n) × (c'.bytes ≡ splice 0 bs (replicate n 0))
  whole bs n e = elim (Bool-cases (ltb n (length bs))) [
    | inl long ↦
        let none_is =
          write_all-overflow bs (replicate n 0) 0 (omega arith)
            (omega (arith, ltb→lt n (length bs) long, length-replicate {A = ℕ} n 0)) in
        absurd (cc (sym none_is ∙ e))
    | inr fits ↦
        let short : length bs ≤ n = ground (arith, fits) in
        (
          short,
          ap (λ (o : Option Cursor). bytes_of o)
              (sym e
                ∙ write_all-splice bs (replicate n 0) 0
                    (omega (arith, short, length-replicate {A = ℕ} n 0))),
        )
  ]
    where
      bytes_of : Option Cursor → List ℕ
      bytes_of none = []
      bytes_of (some c) = c.bytes

  -- What the device keeps of the buffer
  kept :
      (d d' : SlaveDevice AnyTask) (c : Cursor) (ts : List AnyTask) (ends ends' : List Endpoint)
      (bs : List ℕ)
      → d.arg_buf ≡ replicate d.arg_buf_len 0
      → write_all bs (record { bytes = d.arg_buf; offset = 0 }) ≡ some c
      → ◌≡◌ {A = Outcome (SlaveDevice AnyTask × Bool × List Endpoint)}
          (value
            (record d { arg_buf = c.bytes; task_list = ts; is_conf_ros_done = true }, true, ends))
          (value (d', true, ends'))
      → (d'.arg_buf_len ≡ d.arg_buf_len)
        × (length bs ≤ d'.arg_buf_len)
        × (d'.arg_buf ≡ splice 0 bs (replicate d'.arg_buf_len 0))
        × (d'.task_list ≡ ts)
        × (d'.is_conf_ros_done ≡ true)
  kept d d' c ts ends ends' bs z w e =
      let (short, same) =
        whole bs d.arg_buf_len
          (ap (λ xs. write_all bs (record { bytes = xs; offset = 0 })) (sym z) ∙ w) in
      subst
        (λ (a : SlaveDevice AnyTask).
          (a.arg_buf_len ≡ d.arg_buf_len)
          × (length bs ≤ a.arg_buf_len)
          × (a.arg_buf ≡ splice 0 bs (replicate a.arg_buf_len 0))
          × (a.task_list ≡ ts)
          × (a.is_conf_ros_done ≡ true))
        (ap (device_of d) e) (refl, short, same, refl, refl)

  filled :
      (d d' : SlaveDevice AnyTask) (latency : Endpoint) (count : ℕ) {endpoints : List Endpoint}
      → d.arg_buf ≡ replicate d.arg_buf_len 0
      → fill_arg_buf decimal es d latency count ≡ value (d', true, endpoints)
      → (bs : List ℕ) × (slave_arguments decimal es count d.sn ≡ value bs)
        × (d'.arg_buf_len ≡ d.arg_buf_len)
        × (length bs ≤ d'.arg_buf_len)
        × (d'.arg_buf ≡ splice 0 bs (replicate d'.arg_buf_len 0))
        × (length d'.task_list ≡ count)
        × (d'.is_conf_ros_done ≡ true)
  unfolding fill_arg_buf slave_arguments
  filled d d' latency count {endpoints} z e =
      let start : Cursor = record { bytes = d.arg_buf; offset = 0 } in
      let (c, p, q) = and_then-value (defined (write_uint8 count start)) _ e in
      let (((ts, ends), c'), r, s) = and_then-value (init_apps decimal es count d.sn 1 c) _ q in
      let head : Wrote (value (count ∷ [])) start c =
        (count ∷ [], refl, sym (write_uint8_at count start) ∙ defined-value _ p) in
      let (bs, t, u) = Wrote-both start c c' head (init_apps-Wrote count d.sn 1 c r) in
      let (len, short, same, tasks, done) = kept d d' c' ts (latency ∷ ends) endpoints bs z u s in
      (bs, t, len, short, same, ap length tasks ∙ length-init_apps count d.sn 1 c r, done)

  with_count :
      (d d' : SlaveDevice AnyTask) (len count : ℕ) (topic : Key) {endpoints : List Endpoint}
      → get_field_as as_uint8 (slave_key decimal es d.sn (codes "task_count")) es ≡ value count
      → ◌≡◌ {A = Outcome (SlaveDevice AnyTask × Bool × List Endpoint)}
          (if count == 0
            then value (
              record d { arg_buf_len = len; arg_buf = replicate len 0 },
              false,
              publisher topic ∷ [],
            )
            else fill_arg_buf decimal es
                (record d { arg_buf_len = len; arg_buf = replicate len 0 })
                (publisher topic)
                count)
          (value (d', true, endpoints))
      → (bs : List ℕ) × (task_arguments decimal es d.sn ≡ value bs)
        × (d'.arg_buf_len ≡ len)
        × (length bs ≤ d'.arg_buf_len)
        × (d'.arg_buf ≡ splice 0 bs (replicate d'.arg_buf_len 0))
        × (d'.is_conf_ros_done ≡ true)
  unfolding task_arguments
  with_count d d' len count topic t u = elim (Bool-cases (count == 0)) [
    | inl zero_tasks ↦ absurd (cc (taken (count == 0) _ _ zero_tasks u))
    | inr tasks ↦
        let (bs, a, n, b, x, y, z) =
          filled (record d { arg_buf_len = len; arg_buf = replicate len 0 }) d' (publisher topic)
            count refl (passed (count == 0) _ _ tasks u) in
        (bs, rw t a, n, b, x, z)
  ]

  -- When init_task_list succeeds, the argument buffer has the configured length and holds the
  -- arguments as they are described without buffers and offsets: the number of the tasks, then for
  -- each task its type and the bytes of its configured fields in the driver's order; behind them
  -- are zeros. They fit into the length, and the slave's configuration is marked as done.
  pub init_task_list-task_arguments :
      (d d' : SlaveDevice AnyTask) (endpoints : List Endpoint)
      → init_task_list decimal es d ≡ value (d', true, endpoints)
      → (bs : List ℕ) × (task_arguments decimal es d.sn ≡ value bs)
        × (get_field_as as_uint16 (slave_key decimal es d.sn (codes "sdo_len")) es
            ≡ value d'.arg_buf_len)
        × (length bs ≤ d'.arg_buf_len)
        × (d'.arg_buf ≡ splice 0 bs (replicate d'.arg_buf_len 0))
        × (d'.is_conf_ros_done ≡ true)
  unfolding init_task_list
  init_task_list-task_arguments d d' endpoints e =
      elim (Bool-cases (not d.is_sw_rev_check_passed)) [
        | inl failed ↦ absurd (cc (taken (not d.is_sw_rev_check_passed) _ _ failed e))
        | inr checked ↦
            let f = passed (not d.is_sw_rev_check_passed) _ _ checked e in
            let (len, p, q) =
              and_then-value
                (get_field_as as_uint16 (slave_key decimal es d.sn (codes "sdo_len")) es) _ f in
            let (topic, r, s) =
              and_then-value
                (get_field_as as_string (slave_key decimal es d.sn (codes "latency_pub_topic")) es)
                _ q in
            let (count, t, u) =
              and_then-value
                (get_field_as as_uint8 (slave_key decimal es d.sn (codes "task_count")) es) _ s in
            let (bs, a, n, short, same, done) = with_count d d' len count topic t u in
            (bs, a, p ∙ ap value (sym n), short, same, done)
      ]
