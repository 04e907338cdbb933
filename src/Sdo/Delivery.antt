-- ===== src/Sdo/Delivery.antt =====
-- From the configuration to the slave: the arguments that `init_task_list` has prepared, and the
-- transfer that `send_arg` makes of them.
use ecat_v2_master.Base.{
  ℕ, ◌^◌, ◌≤◌, ◌<◌, ◌≡◌, sym, ap, subst, ◌∙◌, true, false, List, [], ◌∷◌, ◌++◌, some, arith, length,
  length-replicate, replicate,
}
use ecat_v2_master.Io.Splice.{splice, length-splice}
use ecat_v2_master.Config.{Outcome, value, Key, Entries, get_field_as}
use ecat_v2_master.Config.Buffer.{and_then-value}
use ecat_v2_master.Device.{SlaveDevice}
use ecat_v2_master.Device.Delivery.{Delivered, InTransfer, arg_run, Delivered-arg_run}
use ecat_v2_master.Sdo.{codes, as_uint8, Endpoint}
use ecat_v2_master.Sdo.TaskList.{AnyTask, slave_key, init_task_list}
use ecat_v2_master.Sdo.Arguments.{apps_arguments, slave_arguments, task_arguments}
use ecat_v2_master.Sdo.Whole.{init_task_list-task_arguments}

module _ (decimal : ℕ → Key) (es : Entries) where
  -- The number of the tasks is there at least.
  pub some_bytes : (sn : ℕ) {bs : List ℕ} → task_arguments decimal es sn ≡ value bs → 1 ≤ length bs
  unfolding task_arguments slave_arguments
  some_bytes sn {bs} e =
      let (count, p, q) =
        and_then-value (get_field_as as_uint8 (slave_key decimal es sn (codes "task_count")) es) _
          e in
      let (rest, r, s) = and_then-value (apps_arguments decimal es count sn 1) _ q in
      not_empty count rest bs s
    where
      not_empty :
          (count : ℕ) (rest bs : List ℕ)
          → ◌≡◌ {A = Outcome (List ℕ)} (value ((count ∷ []) ++ rest)) (value bs)
          → 1 ≤ length bs
      not_empty count rest bs e =
          let same : count ∷ rest ≡ bs = cc e in omega (arith, ap length same)

  -- When init_task_list has succeeded with at most 65535 bytes, the transfer stands at the first
  -- index and is not over, and then it ends, whatever frames the slave sends: some of the frames
  -- have acknowledged the described arguments of the slave's tasks and the zeros behind them, in
  -- order, each by its index and its byte.
  pub Delivered-task_arguments :
      (fs : List (List ℕ)) (d d' d'' : SlaveDevice AnyTask) (endpoints : List Endpoint)
      → init_task_list decimal es d ≡ value (d', true, endpoints)
      → d'.arg_buf_len < 2 ^ 16
      → d'.sending_arg_buf_idx ≡ 1
      → d'.is_arg_sent ≡ false
      → arg_run d' fs ≡ some d''
      → d''.is_arg_sent ≡ true
      → (bs : List ℕ) × (task_arguments decimal es d.sn ≡ value bs)
        × Delivered 1 (splice 0 bs (replicate d'.arg_buf_len 0)) fs
  Delivered-task_arguments fs d d' d'' endpoints e small idx unsent run done =
      let (bs, described, len, fits, buf, conf) =
        init_task_list-task_arguments decimal es d d' endpoints e in
      let size : length d'.arg_buf ≡ d'.arg_buf_len =
        ap length buf
        ∙ length-splice 0 bs (replicate d'.arg_buf_len 0)
        ∙ length-replicate {A = ℕ} d'.arg_buf_len 0 in
      let v : InTransfer d' = record {
        len_is = sym size;
        len_fits = small;
        idx_pos = omega (arith, idx);
        idx_le = omega (arith, idx, fits, some_bytes d.sn described);
      } in
      (
        bs,
        described,
        subst (λ xs. Delivered 1 xs fs) buf (Delivered-arg_run fs d' 0 v idx unsent run done),
      )
