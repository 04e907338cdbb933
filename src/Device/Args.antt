-- ===== src/Device/Args.antt =====
-- The transfer of the arguments, byte by byte with an echo (`SlaveDevice::send_arg`).
use ecat_v2_master.Base.{
  ℕ, ◌+◌, ◌%◌, ◌^◌, ◌≡◌, ◌∙◌, Bool, true, false, not, List, [], ◌∷◌, Option, some, get_elem?, arith,
  >>=-eq-some, when, ◌>>>◌, ◌<<<◌, low_bits, bit_or, ◌==◌, Bool-cases, inl, inr, ◌≢◌, ==_iff,
}
use ecat_v2_master.Io.{memcpy}
use ecat_v2_master.Device.{SlaveDevice, echoed, advance, arg_byte, send_current, send_arg}

-- A frame that acknowledges byte `a` at index `i`: the index, low byte first, then the byte.
abbrev pub Acknowledges : List ℕ → ℕ → ℕ → Type 0
Acknowledges f i a =
    (lo : ℕ) × (hi : ℕ) × (get_elem? f 0 ≡ some lo)
    × (get_elem? f 1 ≡ some hi)
    × (bit_or (hi <<< 8) lo ≡ i)
    × (get_elem? f 2 ≡ some a)

pub step_taken :
    {A : Type 0} (f : A → Option A) {x : A} {r : Option A} (b : Bool)
    → b ≡ false
    → when (not b) f x ≡ r
    → f x ≡ r
step_taken f false e q = q
step_taken f true e q = absurd (cc)

module _ {T : Type 0} where
  -- What `echoed` finds, it finds in the frame.
  echoed-true :
      (d : SlaveDevice T)
      → echoed d ≡ some true
      → (a : ℕ) × (arg_byte d ≡ some a) × Acknowledges d.slave_to_master_buf d.sending_arg_buf_idx a
  unfolding echoed
  echoed-true d e = ground arith

  send_current_lem :
      (d : SlaveDevice T) {d' : SlaveDevice T}
      → send_current d ≡ some d'
      → (a : ℕ) × (buf : List ℕ) × (arg_byte d ≡ some a)
        × (memcpy d.master_to_slave_buf 0
              (low_bits d.sending_arg_buf_idx 8 ∷ low_bits (d.sending_arg_buf_idx >>> 8) 8 ∷ a ∷ [])
            ≡ some buf)
        × (record d { master_to_slave_buf = buf } ≡ d')
  unfolding send_current
  send_current_lem d e = ground arith

  -- What one call of `send_arg` can do while arguments are left.
  pub data Sent (d d' : SlaveDevice T) : Type 0 where
    waiting : d'.sending_arg_buf_idx ≡ d.sending_arg_buf_idx → d'.is_arg_sent ≡ false → Sent d d'
    acknowledged :
        (a : ℕ)
        → arg_byte d ≡ some a
        → Acknowledges d.slave_to_master_buf d.sending_arg_buf_idx a
        → d.sending_arg_buf_idx ≢ d.arg_buf_len
        → d'.sending_arg_buf_idx ≡ (d.sending_arg_buf_idx + 1) % 2 ^ 16
        → d'.is_arg_sent ≡ false
        → Sent d d'
    finished :
        (a : ℕ)
        → arg_byte d ≡ some a
        → Acknowledges d.slave_to_master_buf d.sending_arg_buf_idx a
        → d.sending_arg_buf_idx ≡ d.arg_buf_len
        → Sent d d'

  send_current-keeps :
      (d : SlaveDevice T) {d' : SlaveDevice T}
      → send_current d ≡ some d'
      → (d'.sending_arg_buf_idx ≡ d.sending_arg_buf_idx)
        × (d'.is_arg_sent ≡ d.is_arg_sent)
        × (d'.arg_buf ≡ d.arg_buf)
        × (d'.arg_buf_len ≡ d.arg_buf_len)
  unfolding send_current
  send_current-keeps d e = ground arith

  after_echo :
      (d : SlaveDevice T) (confirmed : Bool) {d' : SlaveDevice T}
      → d.is_arg_sent ≡ false
      → echoed d ≡ some confirmed
      → when (not (advance confirmed d).is_arg_sent) send_current (advance confirmed d) ≡ some d'
      → Sent d d' × (d'.arg_buf ≡ d.arg_buf) × (d'.arg_buf_len ≡ d.arg_buf_len)
  unfolding advance
  after_echo d false {d'} s p q =
      let k = send_current-keeps d (step_taken send_current d.is_arg_sent s q) in
      (waiting k.0 (k.1 ∙ s), k.2, k.3)
  after_echo d true {d'} s p q = elim (Bool-cases (d.sending_arg_buf_idx == d.arg_buf_len)) [
    | inl last ↦
        let (a, at, ack) = echoed-true d p in
        (finished a at ack ((==_iff _ _).0 last), ground arith, ground arith)
    | inr more ↦
        let (a, at, ack) = echoed-true d p in
        let k =
          send_current-keeps (advance true d)
            (step_taken send_current (advance true d).is_arg_sent (ground arith) q) in
        (
          acknowledged a at ack (ground arith) (ground (arith, k)) (ground (arith, k)),
          ground (arith, k),
          ground (arith, k),
        )
  ]

  pub send_arg-Sent :
      (d : SlaveDevice T) {d' : SlaveDevice T}
      → d.is_arg_sent ≡ false
      → send_arg d ≡ some d'
      → Sent d d' × (d'.arg_buf ≡ d.arg_buf) × (d'.arg_buf_len ≡ d.arg_buf_len)
  unfolding send_arg
  send_arg-Sent d s e = let (c, p, q) = >>=-eq-some (echoed d) _ e in after_echo d c s p q

  -- What `send_arg` leaves alone
  pub record IsKept (d d' : SlaveDevice T) : Type 0 where
    pub is_ready : d'.is_ready ≡ d.is_ready
    pub master_status : d'.master_status ≡ d.master_status
    pub is_conf_ros_done : d'.is_conf_ros_done ≡ d.is_conf_ros_done
    pub is_ecat_conf_done : d'.is_ecat_conf_done ≡ d.is_ecat_conf_done
    pub slave_to_master_buf : d'.slave_to_master_buf ≡ d.slave_to_master_buf
    pub slave_to_master_buf_len : d'.slave_to_master_buf_len ≡ d.slave_to_master_buf_len

  advance-IsKept : (b : Bool) (d : SlaveDevice T) → IsKept d (advance b d)
  unfolding advance
  advance-IsKept b d = ground arith

  send_current-IsKept :
      (b : Bool) (d : SlaveDevice T) {d' : SlaveDevice T}
      → when b send_current d ≡ some d'
      → IsKept d d'
  unfolding send_current
  send_current-IsKept b d e = ground arith

  advance-stays_sent :
      (b : Bool) (d : SlaveDevice T) → d.is_arg_sent ≡ true → (advance b d).is_arg_sent ≡ true
  unfolding advance
  advance-stays_sent b d h = ground arith

  send_current-same_sent :
      (b : Bool) (d : SlaveDevice T) {d' : SlaveDevice T}
      → when b send_current d ≡ some d'
      → d'.is_arg_sent ≡ d.is_arg_sent
  unfolding send_current
  send_current-same_sent b d e = ground arith

  pub send_arg-stays_sent :
      (d : SlaveDevice T) {d' : SlaveDevice T}
      → send_arg d ≡ some d'
      → d.is_arg_sent ≡ true
      → d'.is_arg_sent ≡ true
  unfolding send_arg
  send_arg-stays_sent d e h =
      let (c, p, q) = >>=-eq-some (echoed d) _ e in
      send_current-same_sent _ (advance c d) q ∙ advance-stays_sent c d h

  pub send_arg-IsKept :
      (d : SlaveDevice T) {d' : SlaveDevice T} → send_arg d ≡ some d' → IsKept d d'
  unfolding send_arg
  send_arg-IsKept d e =
      let (c, p, q) = >>=-eq-some (echoed d) _ e in
      let k = advance-IsKept c d in
      let l = send_current-IsKept _ (advance c d) q in
      record {
        is_ready = l.is_ready ∙ k.is_ready;
        master_status = l.master_status ∙ k.master_status;
        is_conf_ros_done = l.is_conf_ros_done ∙ k.is_conf_ros_done;
        is_ecat_conf_done = l.is_ecat_conf_done ∙ k.is_ecat_conf_done;
        slave_to_master_buf = l.slave_to_master_buf ∙ k.slave_to_master_buf;
        slave_to_master_buf_len = l.slave_to_master_buf_len ∙ k.slave_to_master_buf_len;
      }
