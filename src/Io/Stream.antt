-- ===== src/Io/Stream.antt =====
-- The readers on storage whose content from the offset on is known.
use ecat_v2_master.Base.{
  ℕ, ◌+◌, ◌/◌, ◌%◌, ◌^◌, ◌<◌, ◌≡◌, ap, ◌∙◌, List, ◌∷◌, ◌++◌, some, arith, drop, get_elem?-drop,
  drop_next, ℤ, to_unsigned, InRange,
}
use ecat_v2_master.Io.{Cursor, read_uint8, read_uint16, read_int16}
use ecat_v2_master.Io.Splice.{le_bytes}
use ecat_v2_master.Io.Reading.{read_uint16_lem, residue_16, signed_16}

module _ (xs : List ℕ) (i : ℕ) {rest : List ℕ} where
  pub next_uint8 :
      {b : ℕ}
      → drop i xs ≡ b ∷ rest
      → read_uint8 (record { bytes = xs; offset = i })
        ≡ some (b, record { bytes = xs; offset = i + 1 })
  unfolding read_uint8
  next_uint8 e = rw (get_elem?-drop i xs e)

  pub next_uint16 :
      (v : ℕ)
      → v < 2 ^ 16
      → drop i xs ≡ le_bytes 2 v ++ rest
      → read_uint16 (record { bytes = xs; offset = i })
        ≡ some (v, record { bytes = xs; offset = i + 2 })
  next_uint16 v h e =
      read_uint16_lem xs i (v % 256) (v / 256 % 256) (get_elem?-drop i xs e)
        (get_elem?-drop (i + 1) xs (drop_next i xs e)) (omega arith)
      ∙ ap (λ (n : ℕ). some (n, behind)) (omega arith)
    where
      behind : Cursor
      behind = record { bytes = xs; offset = i + 2 }

  pub int16_after :
      (z : ℤ)
      → InRange 15 z
      → drop i xs ≡ le_bytes 2 (to_unsigned 16 z) ++ rest
      → read_int16 (record { bytes = xs; offset = i })
        ≡ some (z, record { bytes = xs; offset = i + 2 })
  unfolding read_int16
  int16_after z h e = rw (next_uint16 (to_unsigned 16 z) (residue_16 z) e, signed_16 z h)
