-- ===== src/Config/Text.antt =====
-- The texts of the configuration's keys, as lists of character codes.
use Prim.Native.Char.{code}
use Prim.Native.String.{String}
use ecat_v2_master.Base.{[], ◌∷◌}
use ecat_v2_master.Config.{Key}

abbrev pub codes : String → Key
codes String.[] = []
codes (String.◌∷◌ c s) = code c ∷ codes s
