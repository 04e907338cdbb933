-- ===== src/Device/Progress.antt =====
-- The transfer of the arguments ends: a slave that sends back what it is sent gets them all.
mod Steps
use ecat_v2_master.Base.{
  ◌⊎◌, ℕ, zero, suc, ◌+◌, ◌-◌, ◌/◌, ◌%◌, ◌^◌, ◌≤◌, ◌<◌, ◌≡◌, refl, ◌∙◌, Bool, true, false, List, [],
  ◌∷◌, Option, some, length, get_elem?-in_range, arith, ◌>>=◌, low_bits, ◌>>>◌, ◌<<<◌, bit_or,
  bit_or_disjoint', Bool-cases, inl, inr, ◌==◌, ==_iff,
}
use ecat_v2_master.Io.Splice.{splice, length-splice}
use ecat_v2_master.Io.Writing.{memcpy-splice}
use ecat_v2_master.Device.{SlaveDevice, arg_byte, echoed, advance, send_current, send_arg}
use ecat_v2_master.Device.Args.{Acknowledges}
use ecat_v2_master.Device.Delivery.{InTransfer, arg_cycle}
use ecat_v2_master.Device.Progress.Steps.{
  arg_byte_lem, IsLoaded, send_current-IsLoaded, echoed-Acknowledges, last_step, next_step,
  arg_cycle-unsent, arg_cycle-sent, before_last, InTransfer-next, confirmed_step, loaded_echo,
  echoed_total, waiting_step,
}

module _ {T : Type 0} where
  -- `n` cycles in which the slave sends back the image of the cycle before
  pub echo_run : ℕ → SlaveDevice T → Option (SlaveDevice T)
  echo_run zero d = some d
  echo_run (suc n) d = arg_cycle d d.master_to_slave_buf >>= echo_run n

  echo_run-sent :
      (n : ℕ) (d : SlaveDevice T)
      → d.is_arg_sent ≡ true
      → (d' : SlaveDevice T) × (echo_run n d ≡ some d') × (d'.is_arg_sent ≡ true)
  unfolding echo_run
  echo_run-sent zero d u = (d, refl, u)
  echo_run-sent (suc n) d u =
      rw (arg_cycle-sent d d.master_to_slave_buf u)
        (echo_run-sent n (record d { slave_to_master_buf = d.master_to_slave_buf }) u)

  echo_run-loaded :
      (n : ℕ) (d : SlaveDevice T)
      → IsLoaded d
      → d.arg_buf_len - d.sending_arg_buf_idx < n
      → (d' : SlaveDevice T) × (echo_run n d ≡ some d') × (d'.is_arg_sent ≡ true)
  unfolding echo_run
  echo_run-loaded zero d l h = absurd (omega arith)
  echo_run-loaded (suc n) d l h =
      elim (confirmed_step d l.transfer l.unsent l.room (loaded_echo d l)) [
        | inl (d1, e, u) ↦ rw e (echo_run-sent n d1 u)
        | inr (d1, e, l1, k) ↦ rw e (echo_run-loaded n d1 l1 (omega arith))
      ]

  after_first :
      (d : SlaveDevice T) (b : Bool)
      → InTransfer d
      → d.is_arg_sent ≡ false
      → 3 ≤ length d.master_to_slave_buf
      → echoed (record d { slave_to_master_buf = d.master_to_slave_buf }) ≡ some b
      → (d' : SlaveDevice T) × (echo_run (suc (suc (d.arg_buf_len - d.sending_arg_buf_idx))) d
          ≡ some d')
        × (d'.is_arg_sent ≡ true)
  unfolding echo_run
  after_first d true v u h e = elim (confirmed_step d v u h e) [
    | inl (d1, p, s) ↦ rw p (echo_run-sent (suc (d.arg_buf_len - d.sending_arg_buf_idx)) d1 s)
    | inr (d1, p, l, k) ↦
        rw p (echo_run-loaded (suc (d.arg_buf_len - d.sending_arg_buf_idx)) d1 l (omega arith))
  ]
  after_first d false v u h e =
      let f = record d { slave_to_master_buf = d.master_to_slave_buf } in
      let (d1, p, l, idx, len) =
        send_current-IsLoaded f
          (record {
            len_is = v.len_is;
            len_fits = v.len_fits;
            idx_pos = v.idx_pos;
            idx_le = v.idx_le;
          })
          u h in
      rw (arg_cycle-unsent d d.master_to_slave_buf u ∙ waiting_step f u e ∙ p) (
        echo_run-loaded (suc (d.arg_buf_len - d.sending_arg_buf_idx)) d1 l
          (omega (arith, idx, len)))

  -- Of a device, not all arguments, at most 65535 bytes, are sent, its index is inside them, and
  -- its image has three bytes at least. If the slave sends back the image of each cycle in the
  -- next, then after one cycle for each argument from the current one on and one more all
  -- arguments are sent, and no access is out of bounds on the way.
  pub echo_run-ends :
      (d : SlaveDevice T)
      → InTransfer d
      → d.is_arg_sent ≡ false
      → 3 ≤ length d.master_to_slave_buf
      → (d' : SlaveDevice T) × (echo_run (suc (suc (d.arg_buf_len - d.sending_arg_buf_idx))) d
          ≡ some d')
        × (d'.is_arg_sent ≡ true)
  echo_run-ends d v u h =
      let (b, e) =
        echoed_total (record d { slave_to_master_buf = d.master_to_slave_buf })
          (record {
            len_is = v.len_is;
            len_fits = v.len_fits;
            idx_pos = v.idx_pos;
            idx_le = v.idx_le;
          })
          h in
      after_first d b v u h e
