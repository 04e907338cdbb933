-- ===== src/Node/Safety/Configured.antt =====
-- From the configuration to the node: a slave whose tasks `init_task_list` has made is ready for any
-- order of the threads' steps, whatever the kinds of its tasks are.
use ecat_v2_master.Base.{
  ℕ, ◌^◌, ◌≤◌, ◌<◌, ◌≡◌, sym, ap, ◌∙◌, true, List, [], ◌∷◌, arith, length, length-replicate,
  replicate, All,
}
use ecat_v2_master.Float.{Float}
use ecat_v2_master.Io.Half.{Powers}
use ecat_v2_master.Io.Splice.{length-splice}
use ecat_v2_master.Config.{value, Key, Entries}
use ecat_v2_master.Device.{SlaveDevice}
use ecat_v2_master.Device.Safety.{Fits, IsSound}
use ecat_v2_master.Sdo.{Endpoint}
use ecat_v2_master.Sdo.TaskList.{AnyTask, init_task_list}
use ecat_v2_master.Sdo.Delivery.{some_bytes}
use ecat_v2_master.Sdo.Whole.{init_task_list-task_arguments}
use ecat_v2_master.Sdo.AllTasks.Fitting.{HasRoom, all_tasks, HasRoom-Fits}

-- What `init` has left: images of the registered sizes, and a transfer that is at its start
pub record HasImages (outs ins : ℕ) (d : SlaveDevice AnyTask) : Type 0 where
  pub out_is : d.master_to_slave_buf_len ≡ outs
  pub in_is : d.slave_to_master_buf_len ≡ ins
  pub out_size : length d.master_to_slave_buf ≡ outs
  pub in_size : length d.slave_to_master_buf ≡ ins
  pub out_room : 3 ≤ outs
  pub in_room : 3 ≤ ins
  pub first_index : d.sending_arg_buf_idx ≡ 1

module _ (fl : Float) (p : Powers fl) (of_bits : ℕ → fl.Real) where
  all_fit :
      (ts : List AnyTask) (outs ins : ℕ)
      → All (HasRoom outs ins) ts
      → All (Fits (all_tasks fl p of_bits) outs ins) ts
  all_fit [] outs ins h = tt
  all_fit (t ∷ ts) outs ins (h, rest) =
      (HasRoom-Fits fl p of_bits t outs ins h, all_fit ts outs ins rest)

  -- When init_task_list has succeeded for a device with at most 65535 bytes of arguments, images
  -- of their registered sizes, of three bytes at least, and a transfer at its first index, and
  -- each task of the list has room for its initial values and its report inside the images, then
  -- the device is sound, with tasks of any of the fourteen classes in its list.
  pub init_task_list-IsSound :
      (decimal : ℕ → Key) (es : Entries) (d d' : SlaveDevice AnyTask) (endpoints : List Endpoint)
      (outs ins : ℕ)
      → init_task_list decimal es d ≡ value (d', true, endpoints)
      → d'.arg_buf_len < 2 ^ 16
      → HasImages outs ins d'
      → All (HasRoom outs ins) d'.task_list
      → IsSound (all_tasks fl p of_bits) outs ins d'
  init_task_list-IsSound decimal es d d' endpoints outs ins e small images room =
      let (bs, described, len, fits, buf, conf) =
        init_task_list-task_arguments decimal es d d' endpoints e in
      let size : length d'.arg_buf ≡ d'.arg_buf_len =
        ap length buf
        ∙ length-splice 0 bs (replicate d'.arg_buf_len 0)
        ∙ length-replicate {A = ℕ} d'.arg_buf_len 0 in
      record {
        out_is = images.out_is;
        in_is = images.in_is;
        out_size = images.out_size ∙ sym images.out_is;
        in_size = images.in_size ∙ sym images.in_is;
        out_room = omega (arith, images.out_room, images.out_is);
        in_room = omega (arith, images.in_room, images.in_is);
        arg_size = sym size;
        arg_fits = small;
        idx_pos = omega (arith, images.first_index);
        idx_le = omega (arith, images.first_index, fits, some_bytes decimal es d.sn described);
        tasks = rw (images.out_is, images.in_is) (all_fit d'.task_list outs ins room);
      }
