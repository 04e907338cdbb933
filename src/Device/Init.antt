-- ===== src/Device/Init.antt =====
-- `SlaveDevice::init`: what a device takes over when a slave is configured, also again after it
-- was lost.
--
-- The answers of the slave (its serial number, its revision, its EEPROM id) and the values that
-- the node has registered for the EEPROM id are a record; `sdo_len` is the configured length, and
-- nothing if the lookup throws.
use ecat_v2_master.Base.{
  ℕ, ◌≡◌, ◌≢◌, refl, sym, ap, ◌∙◌, List, [], ◌∷◌, All, ◌%◌, ◌^◌, Bool, true, false, not, ◌&&◌,
  Option, none, some, replicate, arith, ℤ, pos, negsuc, ltb, ◌==◌, if◌then◌else◌,
}
use ecat_v2_master.Device.{SlaveDevice, master_ready, master_sending_arguments}

pub record Answers : Type 0 where
  pub sn : ℕ
  pub sw_rev : ℤ
  pub eep_id : ℕ
  pub min_sw_rev : ℤ
  pub master_to_slave_buf_len : ℕ
  pub slave_to_master_buf_len : ℕ
  pub sdo_len : Option ℕ

-- a < b
abbrev pub lt_int : ℤ → ℤ → Bool
lt_int (pos a) (pos b) = ltb a b
lt_int (pos a) (negsuc b) = false
lt_int (negsuc a) (pos b) = true
lt_int (negsuc a) (negsuc b) = ltb b a

module _ {T : Type 0} where
  unfoldable pub clear_bufs : Answers → SlaveDevice T → SlaveDevice T
  clear_bufs a d = record d {
    master_to_slave_buf = replicate a.master_to_slave_buf_len 0;
    master_to_slave_buf_len = a.master_to_slave_buf_len;
    slave_to_master_buf = replicate a.slave_to_master_buf_len 0;
    slave_to_master_buf_len = a.slave_to_master_buf_len;
  }

  -- From the length on; the exception of the lookup is caught, and what was done before it stays.
  unfoldable pub configure : ℕ → Answers → Option ℕ → SlaveDevice T → SlaveDevice T × ℕ
  unfolding clear_bufs
  configure old_sn a none d = (d, 0)
  configure old_sn a (some len) d =
      let d1 = record d {
        device_type = a.eep_id % 2 ^ 8;
        master_status = if len == 0 then master_ready else master_sending_arguments;
      } in
      let d2 = if old_sn == 0 then clear_bufs a d1 else d1 in
      (record d2 { is_ecat_conf_done = true }, 1)

  unfoldable pub init : Answers → SlaveDevice T → SlaveDevice T × ℕ
  unfolding configure
  init a d =
      let read = record d { sn = a.sn; sw_rev = a.sw_rev } in
      if not (d.sn == 0) && not (d.sn == a.sn)
      then (record read { sn = d.sn; is_recover_rejected = true }, 0)
      else (if lt_int a.sw_rev a.min_sw_rev
          then (record read { is_recover_rejected = false }, 0)
          else configure d.sn a a.sdo_len
              (record read { is_recover_rejected = false; is_sw_rev_check_passed = true }))

  -- One configuration after another
  unfoldable pub init_all : List Answers → SlaveDevice T → SlaveDevice T
  unfolding init
  init_all [] d = d
  init_all (b ∷ bs) d = init_all bs (init b d).0

  -- What other boards leave
  abbrev rejecting : ℤ → Bool → SlaveDevice T → SlaveDevice T
  rejecting sw_rev rejected d = record d { sw_rev = sw_rev; is_recover_rejected = rejected }

  init-rejecting :
      (b : Answers) (d : SlaveDevice T) (r : ℤ) (q : Bool)
      → d.sn ≢ 0
      → d.sn ≢ b.sn
      → (init b (rejecting r q d)).0 ≡ rejecting b.sw_rev true d
  unfolding init
  init-rejecting b d r q h k = ground (arith, h, k)

  init_all-rejecting :
      (bs : List Answers) (d : SlaveDevice T) (r : ℤ) (q : Bool)
      → d.sn ≢ 0
      → All (λ (b : Answers). d.sn ≢ b.sn) bs
      → (r' : ℤ) × (q' : Bool) × (init_all bs (rejecting r q d) ≡ rejecting r' q' d)
  unfolding init_all
  init_all-rejecting [] d r q h v = (r, q, refl)
  init_all-rejecting (b ∷ bs) d r q h (v, vs) =
      let (r', q', e) = init_all-rejecting bs d b.sw_rev true h vs in
      (r', q', ap (init_all bs) (init-rejecting b d r q h v) ∙ e)

  forgotten :
      (a : Answers) (d : SlaveDevice T) (r : ℤ) (q : Bool) → init a (rejecting r q d) ≡ init a d
  unfolding init
  forgotten a d r q = refl

  -- Of a device with a known serial number, configurations with boards of other serial numbers,
  -- any number of them, do not matter: a configuration behind them, with any board, gives the same
  -- device and the same result as without them.
  pub init-init_all :
      (a : Answers) (bs : List Answers) (d : SlaveDevice T)
      → d.sn ≢ 0
      → All (λ (b : Answers). d.sn ≢ b.sn) bs
      → init a (init_all bs d) ≡ init a d
  init-init_all a bs d h v =
      let (r, q, e) = init_all-rejecting bs d d.sw_rev d.is_recover_rejected h v in
      ap (init a) e ∙ forgotten a d r q

  -- The device with what a configuration may change taken from another
  abbrev pub with_answers : SlaveDevice T → SlaveDevice T → SlaveDevice T
  with_answers e d = record d {
    sw_rev = e.sw_rev;
    is_recover_rejected = e.is_recover_rejected;
    is_sw_rev_check_passed = e.is_sw_rev_check_passed;
    device_type = e.device_type;
    master_status = e.master_status;
    is_ecat_conf_done = e.is_ecat_conf_done;
  }

  init-with_answers :
      (a : Answers) (d : SlaveDevice T) → d.sn ≢ 0 → (init a d).0 ≡ with_answers (init a d).0 d
  unfolding init configure
  init-with_answers a d h = ground (arith, h)

  -- Of a device with a known serial number, any sequence of configurations, accepted or not,
  -- leaves the serial number, both images and their sizes, the saved image, the arguments and the
  -- transfer's position, the tasks and the rest as they are; it changes at most the revision, the
  -- rejection, the passed check, the device's type, the master's status and the mark that the
  -- slave is configured.
  pub init_all-with_answers :
      (bs : List Answers) (d : SlaveDevice T)
      → d.sn ≢ 0
      → init_all bs d ≡ with_answers (init_all bs d) d
  unfolding init_all
  init_all-with_answers [] d h = refl
  init_all-with_answers (b ∷ bs) d h =
      let d1 = (init b d).0 in
      let first_is = init-with_answers b d h in
      let same : d1.sn ≡ d.sn = ap (λ (d : SlaveDevice T). d.sn) first_is in
      init_all-with_answers bs d1 (λ e. h (sym same ∙ e))
      ∙ ap (with_answers (init_all bs d1)) first_is

  -- The first configuration of a slave with a sufficient revision and a configured length gives it
  -- images of the registered sizes, all zero, and the result is 1.
  pub init-first_board :
      (a : Answers) (d : SlaveDevice T) (len : ℕ)
      → d.sn ≡ 0
      → lt_int a.sw_rev a.min_sw_rev ≡ false
      → a.sdo_len ≡ some len
      → init a d ≡ (
        record d {
          sn = a.sn;
          sw_rev = a.sw_rev;
          is_recover_rejected = false;
          is_sw_rev_check_passed = true;
          device_type = a.eep_id % 2 ^ 8;
          master_status = if len == 0 then master_ready else master_sending_arguments;
          master_to_slave_buf = replicate a.master_to_slave_buf_len 0;
          master_to_slave_buf_len = a.master_to_slave_buf_len;
          slave_to_master_buf = replicate a.slave_to_master_buf_len 0;
          slave_to_master_buf_len = a.slave_to_master_buf_len;
          is_ecat_conf_done = true;
        },
        1,
      )
  unfolding init
  init-first_board a d len h r e = ground (arith, h, r, e)
