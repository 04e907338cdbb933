-- ===== src/Examples/Fields.antt =====
-- A small configuration.
use ecat_v2_master.Base.{ℕ, [], ◌∷◌, Option, none, some, negsuc}
use ecat_v2_master.Config.{Variant, uint8, int16, string, Entries}

-- a_1, a_2 and a_3
abbrev entries : Entries
entries =
    (97 ∷ 95 ∷ 49 ∷ [], uint8 7)
    ∷ (97 ∷ 95 ∷ 50 ∷ [], int16 (negsuc 1))
    ∷ (97 ∷ 95 ∷ 51 ∷ [], string (120 ∷ []))
    ∷ []

abbrev as_uint8 : Variant → Option ℕ
as_uint8 (uint8 n) = some n
as_uint8 _ = none
