-- ===== src/Device/Delivery.antt =====
-- What the end of the transfer means, whatever the slave has sent.
use ecat_v2_master.Base.{
  drop_all, ℕ, suc, ◌+◌, ◌%◌, ◌^◌, ◌≤◌, ◌<◌, ◌≡◌, sym, ap, ◌∙◌, true, false, not, List, [], ◌∷◌,
  Option, some, length, drop, drop_in_range, arith, ◌>>=◌, >>=-eq-some, when,
}
use ecat_v2_master.Device.{SlaveDevice, arg_byte, send_arg}
use ecat_v2_master.Device.Args.{
  Acknowledges, step_taken, Sent, waiting, acknowledged, finished, send_arg-Sent,
}

-- The arguments `bs`, the first of them at index `i`, are acknowledged in order by some of the
-- frames.
pub data Delivered : ℕ → List ℕ → List (List ℕ) → Type 0 where
  all_done : {i : ℕ} {fs : List (List ℕ)} → Delivered i [] fs
  other : {i : ℕ} {bs f : List ℕ} {fs : List (List ℕ)} → Delivered i bs fs → Delivered i bs (f ∷ fs)
  ack :
      {i a : ℕ} {bs f : List ℕ} {fs : List (List ℕ)}
      → Acknowledges f i a
      → Delivered (suc i) bs fs
      → Delivered i (a ∷ bs) (f ∷ fs)

module _ {T : Type 0} where
  -- One data cycle of a device that sends arguments: the frame comes in, and `send_arg` is called
  -- as long as arguments are left.
  unfoldable pub arg_cycle : SlaveDevice T → List ℕ → Option (SlaveDevice T)
  arg_cycle d f = when (not d.is_arg_sent) send_arg (record d { slave_to_master_buf = f })

  unfoldable pub arg_run : SlaveDevice T → List (List ℕ) → Option (SlaveDevice T)
  arg_run d [] = some d
  arg_run d (f ∷ fs) = arg_cycle d f >>= λ d'. arg_run d' fs

  -- The next index is one of the arguments'.
  pub record InTransfer (d : SlaveDevice T) : Type 0 where
    pub len_is : d.arg_buf_len ≡ length d.arg_buf
    pub len_fits : d.arg_buf_len < 2 ^ 16
    pub idx_pos : 1 ≤ d.sending_arg_buf_idx
    pub idx_le : d.sending_arg_buf_idx ≤ d.arg_buf_len

  arg_byte-drop :
      (d : SlaveDevice T) (i : ℕ) {a : ℕ}
      → i < length d.arg_buf
      → d.sending_arg_buf_idx ≡ suc i
      → arg_byte d ≡ some a
      → drop i d.arg_buf ≡ a ∷ drop (suc i) d.arg_buf
  unfolding arg_byte
  arg_byte-drop d i {a} l e h =
      let (b, at, dropped) = drop_in_range i d.arg_buf l in
      dropped
      ∙ ap (λ n. b ∷ drop n d.arg_buf) one_more
      ∙ ap (λ c. c ∷ drop (suc i) d.arg_buf) (ground (arith, at, h, e))
    where
      one_more : i + 1 ≡ suc i
      one_more = omega arith

  arg_cycle-Sent :
      (d : SlaveDevice T) (f : List ℕ) {d' : SlaveDevice T}
      → d.is_arg_sent ≡ false
      → arg_cycle d f ≡ some d'
      → Sent (record d { slave_to_master_buf = f }) d'
        × (d'.arg_buf ≡ d.arg_buf)
        × (d'.arg_buf_len ≡ d.arg_buf_len)
  unfolding arg_cycle
  arg_cycle-Sent d f s e =
      send_arg-Sent (record d { slave_to_master_buf = f }) s (step_taken send_arg d.is_arg_sent s e)

  InTransfer-keeps :
      {d d1 : SlaveDevice T}
      → InTransfer d
      → d1.arg_buf ≡ d.arg_buf
      → d1.arg_buf_len ≡ d.arg_buf_len
      → 1 ≤ d1.sending_arg_buf_idx
      → d1.sending_arg_buf_idx ≤ d.arg_buf_len
      → InTransfer d1
  InTransfer-keeps v bufs lens pos le = record {
    len_is = lens ∙ v.len_is ∙ ap length (sym bufs);
    len_fits = rw lens v.len_fits;
    idx_pos = pos;
    idx_le = rw lens le;
  }

  pub frame_accounted :
      (fs : List (List ℕ)) (f : List ℕ) (d : SlaveDevice T) (i : ℕ) {d1 : SlaveDevice T}
      → InTransfer d
      → d.sending_arg_buf_idx ≡ suc i
      → Sent (record d { slave_to_master_buf = f }) d1
      → d1.arg_buf ≡ d.arg_buf
      → d1.arg_buf_len ≡ d.arg_buf_len
      → ((j : ℕ)
          → InTransfer d1
          → d1.sending_arg_buf_idx ≡ suc j
          → d1.is_arg_sent ≡ false
          → Delivered (suc j) (drop j d1.arg_buf) fs)
      → Delivered (suc i) (drop i d.arg_buf) (f ∷ fs)
  unfolding arg_byte
  frame_accounted fs f d i v x (waiting same unsent) bufs lens ih = other (
      rw (← bufs) (
        ih i (InTransfer-keeps v bufs lens (rw same v.idx_pos) (rw same v.idx_le)) (same ∙ x)
          unsent))
  frame_accounted fs f d i v x (acknowledged a at ak more next unsent) bufs lens ih =
      let index = next ∙ no_wrap in
      rw (arg_byte-drop d i here x at) (
        ack (rw (← x) ak) (
          rw (← bufs) (
            ih (suc i)
              (InTransfer-keeps v bufs lens (omega (arith, index))
                (omega (arith, index, v.idx_le, more, x)))
              index unsent)))
    where
      here : i < length d.arg_buf
      here = omega (arith, v.len_is, v.idx_le, x)

      no_wrap : (d.sending_arg_buf_idx + 1) % 2 ^ 16 ≡ suc (suc i)
      no_wrap = omega (arith, v.len_fits, v.idx_le, more, x)
  frame_accounted fs f d i v x (finished a at ak last) bufs lens ih =
      rw (arg_byte-drop d i here x at, drop_all (suc i) d.arg_buf at_end)
        (ack (rw (← x) ak) all_done)
    where
      here : i < length d.arg_buf
      here = omega (arith, v.len_is, v.idx_le, x)

      at_end : length d.arg_buf ≤ suc i
      at_end = omega (arith, v.len_is, last, x)

  -- Whatever frames a slave sends: if a transfer of at most 65535 bytes that has reached index i +
  -- 1, inside them, and is not over ends, then some of the frames have acknowledged the arguments
  -- from there on, in order, each by its index and its byte.
  pub Delivered-arg_run :
      (fs : List (List ℕ)) (d : SlaveDevice T) (i : ℕ) {d' : SlaveDevice T}
      → InTransfer d
      → d.sending_arg_buf_idx ≡ suc i
      → d.is_arg_sent ≡ false
      → arg_run d fs ≡ some d'
      → d'.is_arg_sent ≡ true
      → Delivered (suc i) (drop i d.arg_buf) fs
  unfolding arg_run
  Delivered-arg_run [] d i v x s e t = absurd (cc)
  Delivered-arg_run (f ∷ fs) d i v x s e t =
      let (d1, p, q) = >>=-eq-some (arg_cycle d f) _ e in
      let (sent, bufs, lens) = arg_cycle-Sent d f s p in
      frame_accounted fs f d i v x sent bufs lens
        (λ j v1 x1 s1. Delivered-arg_run fs d1 j v1 x1 s1 q t)
