-- ===== src/Task/SbusRc.antt =====
-- src/soem_wrapper/src/tasks/sbus_rc.cpp. `b k` is the byte at `pdoread_offset_ + k`. The status
-- byte is the last that the method reads, so the others are in range where it is.
pub mod Channels
use ecat_v2_master.Base.{
  ℕ, ◌+◌, List, [], ◌∷◌, Option, some, Bool, get_elem?, get_or, replicate, ◌>>=◌, ◌>>>◌, ◌<<<◌,
  low_bits, bit_or, ◌==◌, if◌then◌else◌,
}
use ecat_v2_master.Task.{TaskInfo}

pub record ReadSbusRc : Type 0 where
  pub stamp : ℕ
  pub online : ℕ
  pub channels : List ℕ
  pub ch17 : ℕ
  pub ch18 : ℕ
  pub fail_safe : ℕ
  pub frame_lost : ℕ

-- x & (1 << k) ? 1 : 0
abbrev pub flag : ℕ → ℕ → ℕ
flag x k = low_bits (x >>> k) 1

-- The sixteen assignments to `channels`.
unfoldable pub decode_channels : (ℕ → ℕ) → List ℕ
decode_channels b =
    low_bits (bit_or (b 0) (b 1 <<< 8)) 11
    ∷ low_bits (bit_or (b 1 >>> 3) (b 2 <<< 5)) 11
    ∷ low_bits (bit_or (bit_or (b 2 >>> 6) (b 3 <<< 2)) (b 4 <<< 10)) 11
    ∷ low_bits (bit_or (b 4 >>> 1) (b 5 <<< 7)) 11
    ∷ low_bits (bit_or (b 5 >>> 4) (b 6 <<< 4)) 11
    ∷ low_bits (bit_or (bit_or (b 6 >>> 7) (b 7 <<< 1)) (b 8 <<< 9)) 11
    ∷ low_bits (bit_or (b 8 >>> 2) (b 9 <<< 6)) 11
    ∷ low_bits (bit_or (b 9 >>> 5) (b 10 <<< 3)) 11
    ∷ low_bits (bit_or (b 11) (b 12 <<< 8)) 11
    ∷ low_bits (bit_or (b 12 >>> 3) (b 13 <<< 5)) 11
    ∷ low_bits (bit_or (bit_or (b 13 >>> 6) (b 14 <<< 2)) (b 15 <<< 10)) 11
    ∷ low_bits (bit_or (b 15 >>> 1) (b 16 <<< 7)) 11
    ∷ low_bits (bit_or (b 16 >>> 4) (b 17 <<< 4)) 11
    ∷ low_bits (bit_or (bit_or (b 17 >>> 7) (b 18 <<< 1)) (b 19 <<< 9)) 11
    ∷ low_bits (bit_or (b 19 >>> 2) (b 20 <<< 6)) 11
    ∷ low_bits (bit_or (b 20 >>> 5) (b 21 <<< 3)) 11
    ∷ []

unfoldable pub decode : (ℕ → ℕ) → ℕ → ReadSbusRc
unfolding decode_channels
decode b stamp = record {
  stamp = stamp;
  online = 1;
  channels = decode_channels b;
  ch17 = flag (b 22) 0;
  ch18 = flag (b 22) 1;
  fail_safe = flag (b 22) 2;
  frame_lost = flag (b 22) 3;
}

-- The message is a static member that all SBUS tasks share: offline, it keeps what was read last.
unfoldable pub read : TaskInfo → ℕ → List ℕ → ReadSbusRc → Option ReadSbusRc
unfolding decode
read t stamp buf msg = get_elem? buf (t.pdoread_offset + 23) >>= λ status. some (
    if status == 0
    then record msg { stamp = stamp; online = 0 }
    else decode (λ k. get_or buf (t.pdoread_offset + k) 0) stamp)

unfoldable pub publish_empty_message : ℕ → ReadSbusRc
publish_empty_message now = record {
  stamp = now;
  online = 0;
  channels = replicate 16 0;
  ch17 = 0;
  ch18 = 0;
  fail_safe = 0;
  frame_lost = 0;
}
