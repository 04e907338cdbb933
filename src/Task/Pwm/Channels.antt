-- ===== src/Task/Pwm/Channels.antt =====
-- The bytes of the channels, for any number of channels.
use mathlib.Core.Path.{fun_ext}
use ecat_v2_master.Base.{
  ℕ, zero, suc, ◌+◌, ◌*◌, ◌≤◌, ◌<◌, ◌≡◌, refl, ap, List, [], ◌∷◌, ◌++◌, none, some, length,
  drop_in_range, Option-cases, Bool-cases, ltb, inl, inr, length-replicate, get_elem?-out_of_range,
  drop, replicate, arith,
}
use ecat_v2_master.Io.{Cursor, write_uint16}
use ecat_v2_master.Io.Splice.{splice, le_bytes}
use ecat_v2_master.Io.Writing.{write_all, write_uint16_at, write_all-append, writers}
use ecat_v2_master.Task.Slots.{write_at-splice}
use ecat_v2_master.Task.Pwm.{
  FourChannels, ExternalPwm, WriteChannels, write_repeated, write_channels, dshot_on_command,
  external_pwm_init_value, external_pwm_on_command,
}

abbrev pub channel_bytes : List ℕ → List ℕ
channel_bytes [] = []
channel_bytes (v ∷ vs) = le_bytes 2 v ++ channel_bytes vs

pub length-channel_bytes : (vs : List ℕ) → length (channel_bytes vs) ≡ 2 * length vs
length-channel_bytes [] = refl
length-channel_bytes (v ∷ vs) = omega (arith, length-channel_bytes vs)

abbrev pub take : ℕ → List ℕ → List ℕ
take zero vs = []
take (suc n) [] = []
take (suc n) (v ∷ vs) = v ∷ take n vs

length-take : (n : ℕ) (vs : List ℕ) → n ≤ length vs → length (take n vs) ≡ n
length-take zero vs h = refl
length-take (suc n) [] h = absurd (omega arith)
length-take (suc n) (v ∷ vs) h = ap suc (length-take n vs (omega arith))

pub write_repeated_lem : (n v : ℕ) → write_repeated n v ≡ write_all (channel_bytes (replicate n v))
unfolding write_repeated write_all
write_repeated_lem zero v = refl
write_repeated_lem (suc n) v =
    fun_ext λ c. simp (write_repeated_lem n v, write_uint16_at, write_all-append)

write_channels_lem :
    (n i : ℕ) (vs : List ℕ)
    → i + n ≤ length vs
    → write_channels n i vs ≡ write_all (channel_bytes (take n (drop i vs)))
unfolding write_channels write_all
write_channels_lem zero i vs h = refl
write_channels_lem (suc n) i vs h =
    let (v, e, d) = drop_in_range i vs (omega arith) in
    fun_ext λ c.
      rw (e, d)
        (simp (write_uint16_at, write_channels_lem n (i + 1) vs (omega arith), write_all-append))

write_channels-overrun :
    (n i : ℕ) (vs : List ℕ) (c : Cursor)
    → i ≤ length vs
    → length vs < i + n
    → write_channels n i vs c ≡ none
unfolding write_channels
write_channels-overrun zero i vs c h k = absurd (omega arith)
write_channels-overrun (suc n) i vs c h k = elim (Bool-cases (ltb i (length vs))) [
  | inl inside ↦
      let (v, e, _) = drop_in_range i vs (ground arith) in
      rw e (elim (Option-cases (write_uint16 v c)) [
        | inl f ↦ rw f
        | inr (c', f) ↦ rw f (write_channels-overrun n (i + 1) vs c' (ground arith) (omega arith))
      ])
  | inr outside ↦ rw (get_elem?-out_of_range vs i (ground arith))
]

abbrev pub four : WriteChannels → List ℕ
four msg = msg.channel1 ∷ msg.channel2 ∷ msg.channel3 ∷ msg.channel4 ∷ []

pub dshot_on_command-splice :
    (t : FourChannels) (msg : WriteChannels) (buf : List ℕ)
    → t.info.pdowrite_offset + 8 ≤ length buf
    → dshot_on_command t msg buf
      ≡ some (splice t.info.pdowrite_offset (channel_bytes (four msg)) buf)
unfolding dshot_on_command
dshot_on_command-splice t msg buf h =
    simp writers (write_at-splice (channel_bytes (four msg)) buf _ h)

-- A message with too few channels is read past its end; one with enough puts the bytes of its
-- first `channel_num` channels.
module _ (t : ExternalPwm) (channels buf : List ℕ) where
  -- A message with enough channels puts the 16-bit values of the first channels, as many as the
  -- task has, at the task's offset when there is room, and leaves the rest of the image.
  pub external_pwm_on_command-splice :
      t.channel_num ≤ length channels
      → t.info.pdowrite_offset + 2 * t.channel_num ≤ length buf
      → external_pwm_on_command t channels buf
        ≡ some (splice t.info.pdowrite_offset (channel_bytes (take t.channel_num channels)) buf)
  unfolding external_pwm_on_command
  external_pwm_on_command-splice h k =
      rw (write_channels_lem t.channel_num 0 channels (omega arith)) (
        write_at-splice _ buf _ (
          omega (
            arith,
            length-channel_bytes (take t.channel_num channels),
            length-take t.channel_num channels h,
          )))

  -- A message with fewer channels than the task has is read past its end.
  pub external_pwm_on_command-overrun :
      length channels < t.channel_num → external_pwm_on_command t channels buf ≡ none
  unfolding external_pwm_on_command
  external_pwm_on_command-overrun h =
      rw (write_channels-overrun t.channel_num 0 channels _ (omega arith) (omega arith))

  pub external_pwm_init_value-splice :
      t.info.pdowrite_offset + 2 * t.channel_num ≤ length buf
      → external_pwm_init_value t buf
        ≡ some (
            splice t.info.pdowrite_offset
              (channel_bytes (replicate t.channel_num t.init_value))
              buf)
  unfolding external_pwm_init_value
  external_pwm_init_value-splice k = rw write_repeated_lem (
      write_at-splice _ buf _ (
        omega (
          arith,
          length-channel_bytes (replicate t.channel_num t.init_value),
          length-replicate t.channel_num t.init_value,
        )))
