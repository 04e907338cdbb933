-- ===== src/Device/Progress/Steps.antt =====
-- What one cycle of the transfer does when the frame echoes, and when it does not.
use ecat_v2_master.Base.{
  ◌⊎◌, ℕ, ◌+◌, ◌-◌, ◌/◌, ◌%◌, ◌^◌, ◌≤◌, ◌<◌, ◌≡◌, refl, ◌∙◌, Bool, true, false, List, [], ◌∷◌, some,
  length, get_elem?-in_range, arith, low_bits, ◌>>>◌, ◌<<<◌, bit_or, bit_or_disjoint', Bool-cases,
  inl, inr, ◌==◌, ==_iff,
}
use ecat_v2_master.Io.Splice.{splice, length-splice}
use ecat_v2_master.Io.Writing.{memcpy-splice}
use ecat_v2_master.Device.{SlaveDevice, arg_byte, echoed, advance, send_current, send_arg}
use ecat_v2_master.Device.Args.{Acknowledges}
use ecat_v2_master.Device.Delivery.{InTransfer, arg_cycle}

index_bytes : (i : ℕ) → i < 2 ^ 16 → bit_or (low_bits (i >>> 8) 8 <<< 8) (low_bits i 8) ≡ i
index_bytes i h =
    bit_or_disjoint' 8 (i / 2 ^ 8 % 2 ^ 8) (i % 2 ^ 8) (omega arith) ∙ omega (arith, h)

Acknowledges-splice :
    (i a : ℕ) (xs : List ℕ)
    → i < 2 ^ 16
    → 3 ≤ length xs
    → Acknowledges (splice 0 (low_bits i 8 ∷ low_bits (i >>> 8) 8 ∷ a ∷ []) xs) i a
Acknowledges-splice i a [] f h = absurd (omega arith)
Acknowledges-splice i a (x ∷ []) f h = absurd (omega arith)
Acknowledges-splice i a (x ∷ y ∷ []) f h = absurd (omega arith)
Acknowledges-splice i a (x ∷ y ∷ z ∷ xs) f h = (_, _, refl, refl, index_bytes i f, refl)

module _ {T : Type 0} where
  pub arg_byte_lem : (d : SlaveDevice T) → InTransfer d → (a : ℕ) × (arg_byte d ≡ some a)
  unfolding arg_byte
  arg_byte_lem d v =
      let (a, at) =
        get_elem?-in_range d.arg_buf (d.sending_arg_buf_idx - 1)
          (omega (arith, v.len_is, v.idx_le, v.idx_pos)) in
      (a, ground (arith, at, v.idx_pos))

  -- The image holds the current index and byte.
  pub record IsLoaded (d : SlaveDevice T) : Type 0 where
    pub transfer : InTransfer d
    pub unsent : d.is_arg_sent ≡ false
    pub room : 3 ≤ length d.master_to_slave_buf
    pub at : ℕ
    pub byte_is : arg_byte d ≡ some at
    pub image : Acknowledges d.master_to_slave_buf d.sending_arg_buf_idx at

  pub send_current-IsLoaded :
      (d : SlaveDevice T)
      → InTransfer d
      → d.is_arg_sent ≡ false
      → 3 ≤ length d.master_to_slave_buf
      → (d' : SlaveDevice T) × (send_current d ≡ some d')
        × IsLoaded d'
        × (d'.sending_arg_buf_idx ≡ d.sending_arg_buf_idx)
        × (d'.arg_buf_len ≡ d.arg_buf_len)
  unfolding send_current arg_byte
  send_current-IsLoaded d v u h =
      let (a, is) = arg_byte_lem d v in
      let i = d.sending_arg_buf_idx in
      let bs = low_bits i 8 ∷ low_bits (i >>> 8) 8 ∷ a ∷ [] in
      let xs = d.master_to_slave_buf in
      (
        record d { master_to_slave_buf = splice 0 bs xs },
        rw (is, memcpy-splice bs xs 0 (omega (arith, h))) refl,
        record {
          transfer = record {
            len_is = v.len_is;
            len_fits = v.len_fits;
            idx_pos = v.idx_pos;
            idx_le = v.idx_le;
          };
          unsent = u;
          room = rw (length-splice 0 bs xs) h;
          at = a;
          byte_is = is;
          image = Acknowledges-splice i a xs (omega (arith, v.idx_le, v.len_fits)) h;
        },
        refl,
        refl,
      )

  pub echoed-Acknowledges :
      (d : SlaveDevice T) {a : ℕ}
      → arg_byte d ≡ some a
      → Acknowledges d.slave_to_master_buf d.sending_arg_buf_idx a
      → echoed d ≡ some true
  unfolding echoed
  echoed-Acknowledges d e (lo, hi, l, h, i, b) = ground arith

  -- The step of a loaded device whose frame echoes
  pub last_step :
      (d : SlaveDevice T)
      → d.sending_arg_buf_idx ≡ d.arg_buf_len
      → echoed d ≡ some true
      → send_arg d ≡ some (record d { is_arg_sent = true })
  unfolding send_arg advance
  last_step d e h = rw h (ground (arith, e))

  pub next_step :
      (d : SlaveDevice T)
      → d.is_arg_sent ≡ false
      → d.sending_arg_buf_idx < d.arg_buf_len
      → d.arg_buf_len < 2 ^ 16
      → echoed d ≡ some true
      → send_arg d ≡ send_current (record d { sending_arg_buf_idx = d.sending_arg_buf_idx + 1 })
  unfolding send_arg advance
  next_step d u e f h = rw h (ground (arith, e, f, u))

  pub arg_cycle-unsent :
      (d : SlaveDevice T) (f : List ℕ)
      → d.is_arg_sent ≡ false
      → arg_cycle d f ≡ send_arg (record d { slave_to_master_buf = f })
  unfolding arg_cycle
  arg_cycle-unsent d f u = rw u refl

  pub arg_cycle-sent :
      (d : SlaveDevice T) (f : List ℕ)
      → d.is_arg_sent ≡ true
      → arg_cycle d f ≡ some (record d { slave_to_master_buf = f })
  unfolding arg_cycle
  arg_cycle-sent d f u = rw u refl

  pub before_last :
      (d : SlaveDevice T)
      → InTransfer d
      → (d.sending_arg_buf_idx == d.arg_buf_len) ≡ false
      → d.sending_arg_buf_idx < d.arg_buf_len
  before_last d v more = ground (arith, v.idx_le, more)

  pub InTransfer-next :
      (d : SlaveDevice T)
      → InTransfer d
      → d.sending_arg_buf_idx < d.arg_buf_len
      → InTransfer (record d {
        slave_to_master_buf = d.master_to_slave_buf;
        sending_arg_buf_idx = d.sending_arg_buf_idx + 1;
      })
  InTransfer-next d v h = record {
    len_is = v.len_is;
    len_fits = v.len_fits;
    idx_pos = omega arith;
    idx_le = omega (arith, h);
  }

  -- A frame that echoes takes the device to the end or to the next byte.
  pub confirmed_step :
      (d : SlaveDevice T)
      → InTransfer d
      → d.is_arg_sent ≡ false
      → 3 ≤ length d.master_to_slave_buf
      → echoed (record d { slave_to_master_buf = d.master_to_slave_buf }) ≡ some true
      → ((d' : SlaveDevice T) × (arg_cycle d d.master_to_slave_buf ≡ some d')
          × (d'.is_arg_sent ≡ true))
        ⊎ ((d' : SlaveDevice T) × (arg_cycle d d.master_to_slave_buf ≡ some d')
            × IsLoaded d'
            × (d'.arg_buf_len - d'.sending_arg_buf_idx < d.arg_buf_len - d.sending_arg_buf_idx))
  confirmed_step d v u h echo =
      let f = record d { slave_to_master_buf = d.master_to_slave_buf } in
      elim (Bool-cases (d.sending_arg_buf_idx == d.arg_buf_len)) [
        | inl end ↦ inl (
          _,
          arg_cycle-unsent d d.master_to_slave_buf u ∙ last_step f ((==_iff _ _).0 end) echo,
          refl,
        )
        | inr more ↦
            let before_end = before_last d v more in
            let moved = record f { sending_arg_buf_idx = d.sending_arg_buf_idx + 1 } in
            let (d1, sent, loaded, idx, len) =
              send_current-IsLoaded moved (InTransfer-next d v before_end) u h in
            inr (
              d1,
              arg_cycle-unsent d d.master_to_slave_buf u
                  ∙ next_step f u before_end v.len_fits echo
                  ∙ sent,
              loaded,
              omega (arith, idx, len, before_end),
            )
      ]

  pub loaded_echo :
      (d : SlaveDevice T)
      → IsLoaded d
      → echoed (record d { slave_to_master_buf = d.master_to_slave_buf }) ≡ some true
  unfolding arg_byte
  loaded_echo d l =
      echoed-Acknowledges (record d { slave_to_master_buf = d.master_to_slave_buf }) l.byte_is
        l.image

  pub echoed_total :
      (d : SlaveDevice T)
      → InTransfer d
      → 3 ≤ length d.slave_to_master_buf
      → (b : Bool) × (echoed d ≡ some b)
  unfolding echoed
  echoed_total d v h =
      let (b0, e0) = get_elem?-in_range d.slave_to_master_buf 0 (omega arith) in
      let (b1, e1) = get_elem?-in_range d.slave_to_master_buf 1 (omega arith) in
      let (b2, e2) = get_elem?-in_range d.slave_to_master_buf 2 (omega arith) in
      let (a, e) = arg_byte_lem d v in
      elim (Bool-cases (bit_or (b1 <<< 8) b0 == d.sending_arg_buf_idx)) [
        | inl here ↦ (b2 == a, ground (arith, e0, e1, e2, e, here))
        | inr elsewhere ↦ (false, ground (arith, e0, e1, elsewhere))
      ]

  pub waiting_step :
      (d : SlaveDevice T)
      → d.is_arg_sent ≡ false
      → echoed d ≡ some false
      → send_arg d ≡ send_current d
  unfolding send_arg advance
  waiting_step d u h = rw h (ground (arith, u))
