-- ===== src/Examples/Values.antt =====
-- Round trips of values through a buffer (src/soem_wrapper/src/utils/io_utils.cpp).
use ecat_v2_master.Base.{◌≡◌, some, replicate, negsuc, ◌>>=◌, to_unsigned, arith}
use ecat_v2_master.Io.{write_int32, read_int32}
use ecat_v2_master.Io.Splice.{splice, le_bytes}
use ecat_v2_master.Io.Reading.{read_int32-write_int32}

-- -300

-- -70000
read_int32-write_int32_example :
    (write_int32 (negsuc 69999) (record { bytes = replicate 6 7; offset = 1 }) >>= λ c.
    read_int32 (record c { offset = 1 }))
    ≡ some (
      negsuc 69999,
      record {
        bytes = splice 1 (le_bytes 4 (to_unsigned 32 (negsuc 69999))) (replicate 6 7);
        offset = 5;
      },
    )
read_int32-write_int32_example =
    read_int32-write_int32 (replicate 6 7) 1 (negsuc 69999) (omega arith) (omega arith)

-- The pattern of 1.5
