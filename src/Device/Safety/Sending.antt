-- ===== src/Device/Safety/Sending.antt =====
-- `receive_from_slave` and `send_arg` stay inside their buffers.
use ecat_v2_master.Base.{
  Runs, Runs-bind, Runs-when, Runs-if, ℕ, ◌+◌, ◌-◌, ◌%◌, ◌^◌, ◌≤◌, ◌<◌, ◌≡◌, ◌≢◌, refl, sym, ◌∙◌,
  inl, inr, Bool, true, false, not, List, [], ◌∷◌, arith, length, get_elem?, get_elem?-in_range,
  Bool-cases, ==-false, ◌==◌, ◌>>>◌, ◌<<<◌, low_bits, bit_or,
}
use ecat_v2_master.Io.{memcpy}
use ecat_v2_master.Io.Splice.{splice, length-splice}
use ecat_v2_master.Io.Writing.{memcpy-splice}
use ecat_v2_master.Task.Class.{TaskClass}
use ecat_v2_master.Device.{
  SlaveDevice, receive_from_slave, arg_byte, echoed, advance, send_current, send_arg,
}
use ecat_v2_master.Device.Recovery.{first-whole, memcpy-whole}
use ecat_v2_master.Device.Safety.{IsSound, with_out, with_in, with_idx}

-- Bytes inside a buffer are put there, and its size stays.
pub memcpy-Runs :
    (xs bs : List ℕ) (i n : ℕ)
    → length xs ≡ n
    → i + length bs ≤ n
    → Runs (λ ys. length ys ≡ n) (memcpy xs i bs)
memcpy-Runs xs bs i n e h =
    (splice i bs xs, memcpy-splice bs xs i (omega (arith, e, h)), length-splice i bs xs ∙ e)

byte-Runs : (xs : List ℕ) (i : ℕ) → i < length xs → Runs (λ b. Unit {0}) (get_elem? xs i)
byte-Runs xs i h = let (b, e) = get_elem?-in_range xs i h in (b, e, tt)

below :
    (i n : ℕ)
    → (i == n) ≡ false
    → i ≤ n
    → n < 2 ^ 16
    → (1 ≤ (i + 1) % 2 ^ 16) × ((i + 1) % 2 ^ 16 ≤ n)
below i n e h k =
    let differs : i ≢ n = ground (arith, e) in
    (omega (arith, h, k, differs), omega (arith, h, k, differs))

module _ (C : TaskClass) (outs ins : ℕ) where
  open C use {Task}

  pub receive_from_slave-Runs :
      (d : SlaveDevice Task) (status : ℕ) (bytes : List ℕ)
      → IsSound C outs ins d
      → length bytes ≡ d.slave_to_master_buf_len
      → Runs (λ d'. IsSound C outs ins d') (receive_from_slave d status bytes)
  unfolding receive_from_slave
  receive_from_slave-Runs d status bytes v h = (
    record d { slave_status = status; slave_to_master_buf = bytes },
    rw (← h, first-whole bytes, memcpy-whole bytes d.slave_to_master_buf (h ∙ sym v.in_size)) refl,
    with_in C outs ins d status bytes v h,
  )

  arg_byte-Runs : (d : SlaveDevice Task) → IsSound C outs ins d → Runs (λ a. Unit {0}) (arg_byte d)
  unfolding arg_byte
  arg_byte-Runs d v = rw (==-false d.sending_arg_buf_idx 0 (omega (arith, v.idx_pos))) (
      byte-Runs d.arg_buf (d.sending_arg_buf_idx - 1)
        (omega (arith, v.idx_pos, v.idx_le, v.arg_size)))

  echoed-Runs : (d : SlaveDevice Task) → IsSound C outs ins d → Runs (λ b. Unit {0}) (echoed d)
  unfolding echoed
  echoed-Runs d v =
      Runs-bind (λ b. Unit) (λ b. Unit) (get_elem? d.slave_to_master_buf 0) _
        (byte_in 0 (omega arith))
        λ b0 t0.
          Runs-bind (λ b. Unit) (λ b. Unit) (get_elem? d.slave_to_master_buf 1) _
            (byte_in 1 (omega arith))
            λ b1 t1.
              Runs-if (λ b. Unit) (bit_or (b1 <<< 8) b0 == d.sending_arg_buf_idx) _ _
                (Runs-bind (λ b. Unit) (λ b. Unit) (get_elem? d.slave_to_master_buf 2) _
                  (byte_in 2 (omega arith))
                  λ b2 t2.
                    Runs-bind (λ b. Unit) (λ b. Unit) (arg_byte d) _ (arg_byte-Runs d v)
                      λ a t. (b2 == a, refl, tt))
                (false, refl, tt)
    where
      byte_in : (i : ℕ) → i < 3 → Runs (λ b. Unit {0}) (get_elem? d.slave_to_master_buf i)
      byte_in i h = byte-Runs d.slave_to_master_buf i (omega (arith, h, v.in_size, v.in_room))

  advance-IsSound :
      (b : Bool) (d : SlaveDevice Task) → IsSound C outs ins d → IsSound C outs ins (advance b d)
  unfolding advance
  advance-IsSound false d v = v
  advance-IsSound true d v = elim (Bool-cases (d.sending_arg_buf_idx == d.arg_buf_len)) [
    | inl last ↦ rw last v
    | inr more ↦
        let inside = below d.sending_arg_buf_idx d.arg_buf_len more v.idx_le v.arg_fits in
        rw more (with_idx C outs ins d ((d.sending_arg_buf_idx + 1) % 2 ^ 16) v inside.0 inside.1)
  ]

  send_current-Runs :
      (d : SlaveDevice Task)
      → IsSound C outs ins d
      → Runs (λ d'. IsSound C outs ins d') (send_current d)
  unfolding send_current
  send_current-Runs d v =
      Runs-bind (λ a. Unit) (λ d'. IsSound C outs ins d') (arg_byte d) _ (arg_byte-Runs d v)
        λ a t.
          Runs-bind (λ buf. length buf ≡ d.master_to_slave_buf_len) (λ d'. IsSound C outs ins d')
            (memcpy d.master_to_slave_buf 0 (
              low_bits d.sending_arg_buf_idx 8 ∷ low_bits (d.sending_arg_buf_idx >>> 8) 8 ∷ a ∷ []))
            _
            (memcpy-Runs d.master_to_slave_buf _ 0 d.master_to_slave_buf_len v.out_size
              (omega (arith, v.out_room)))
            λ buf h. (record d { master_to_slave_buf = buf }, refl, with_out C outs ins d buf v h)

  pub send_arg-Runs :
      (d : SlaveDevice Task)
      → IsSound C outs ins d
      → Runs (λ d'. IsSound C outs ins d') (send_arg d)
  unfolding send_arg
  send_arg-Runs d v =
      Runs-bind (λ b. Unit) (λ d'. IsSound C outs ins d') (echoed d) _ (echoed-Runs d v)
        λ b t.
          let w = advance-IsSound b d v in
          Runs-when (λ d'. IsSound C outs ins d') (not (advance b d).is_arg_sent) send_current
            (advance b d) w (send_current-Runs (advance b d) w)
