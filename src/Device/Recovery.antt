-- ===== src/Device/Recovery.antt =====
-- What a slave device does when the connection was lost and comes back: the command image is
-- saved and restored, and the arguments are sent again.
use ecat_v2_master.Base.{
  ℕ, zero, suc, ◌+◌, ◌%◌, ◌^◌, ◌≤◌, ◌<◌, ◌≡◌, refl, sym, ap, ◌∙◌, true, List, [], ◌∷◌, some, length,
  length-replicate, replicate, arith, ◌>>=◌,
}
use ecat_v2_master.Io.{memcpy}
use ecat_v2_master.Io.Splice.{overlay-whole}
use ecat_v2_master.Io.Writing.{memcpy-splice}
use ecat_v2_master.Device.{
  SlaveDevice, first, pre_recover, backup_master_to_slave_buf, recover_master_to_slave_buf,
}
use ecat_v2_master.Device.Delivery.{Delivered, arg_run, Delivered-arg_run}

pub first-whole : (xs : List ℕ) → first (length xs) xs ≡ some xs
unfolding first
first-whole [] = refl
first-whole (x ∷ xs) = rw (first-whole xs)

pub memcpy-whole : (bs xs : List ℕ) → length bs ≡ length xs → memcpy xs 0 bs ≡ some bs
memcpy-whole bs xs e = memcpy-splice bs xs 0 (omega (arith, e)) ∙ ap some (overlay-whole bs xs e)

module _ {T : Type 0} where
  pub backup_lem :
      (d : SlaveDevice T)
      → length d.master_to_slave_buf ≡ d.master_to_slave_buf_len
      → backup_master_to_slave_buf d
        ≡ some (record d { master_to_slave_buf_backup = d.master_to_slave_buf })
  unfolding backup_master_to_slave_buf
  backup_lem d e = rw (
    ← e,
    first-whole d.master_to_slave_buf,
    memcpy-whole d.master_to_slave_buf (replicate (length d.master_to_slave_buf) 0)
        (sym (length-replicate (length d.master_to_slave_buf) 0)),
  )

  pub recover_lem :
      (d : SlaveDevice T)
      → length d.master_to_slave_buf_backup ≡ d.master_to_slave_buf_len
      → length d.master_to_slave_buf ≡ d.master_to_slave_buf_len
      → recover_master_to_slave_buf d
        ≡ some (record d { master_to_slave_buf = d.master_to_slave_buf_backup })
  unfolding recover_master_to_slave_buf
  recover_lem d e h =
      ground (arith, e, memcpy-whole d.master_to_slave_buf_backup d.master_to_slave_buf (e ∙ sym h))

  -- When the image has its registered size, saving it, overwriting it with any bytes of that size
  -- and recovering it gives back the image, with the copy saved beside it.
  recover-backup :
      (d : SlaveDevice T) (xs : List ℕ)
      → length d.master_to_slave_buf ≡ d.master_to_slave_buf_len
      → length xs ≡ d.master_to_slave_buf_len
      → (backup_master_to_slave_buf d >>= λ d'.
          recover_master_to_slave_buf (record d' { master_to_slave_buf = xs }))
        ≡ some (record d { master_to_slave_buf_backup = d.master_to_slave_buf })
  recover-backup d xs e h = rw (backup_lem d e) (
      recover_lem
        (record d { master_to_slave_buf_backup = d.master_to_slave_buf; master_to_slave_buf = xs })
        e h)

  -- `n` restarts of a slave
  pub pre_recover_times : ℕ → SlaveDevice T → SlaveDevice T
  pre_recover_times zero d = d
  pre_recover_times (suc n) d = pre_recover_times n (pre_recover d)

  -- After n restarts the count of reconnections is its old value plus n, modulo 256.
  pre_recover_times-count :
      (n : ℕ) (d : SlaveDevice T)
      → (pre_recover_times n d).reconnected_times % 256 ≡ (d.reconnected_times + n) % 256
  unfolding pre_recover_times pre_recover
  pre_recover_times-count zero d = omega arith
  pre_recover_times-count (suc n) d = pre_recover_times-count n (pre_recover d) ∙ omega arith

  -- After a restart of the slave, if the transfer ends, then all arguments have been acknowledged
  -- again from the first one on, in order; there is at least one argument and there are at most
  -- 65535.
  pub Delivered-pre_recover :
      (d : SlaveDevice T) (fs : List (List ℕ)) {d' : SlaveDevice T}
      → d.arg_buf_len ≡ length d.arg_buf
      → 1 ≤ d.arg_buf_len
      → d.arg_buf_len < 2 ^ 16
      → arg_run (pre_recover d) fs ≡ some d'
      → d'.is_arg_sent ≡ true
      → Delivered 1 d.arg_buf fs
  unfolding pre_recover
  Delivered-pre_recover d fs l p f e s =
      Delivered-arg_run fs (pre_recover d) 0
        (record { len_is = l; len_fits = f; idx_pos = omega arith; idx_le = p }) refl refl e s
