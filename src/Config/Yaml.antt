-- ===== src/Config/Yaml.antt =====
-- Loading the configuration: `parse_map` and `load_initial_value_from_config`
-- (src/soem_wrapper/src/utils/config_utils.cpp).
--
-- A document is yaml-cpp's tree. Its conversions of a scalar's text, and whether iterating over a
-- node that is not a map ends without an element or throws, are that library's and parameters.
-- `none` is an exception, which ends the loading.
pub mod Flat
pub mod Loaded
use ecat_v2_master.Base.{ℕ, ℤ, Bool, List, ◌++◌, Option, none, some, ◌>>=◌, if◌then◌else◌}
use ecat_v2_master.Config.{
  Variant, uint8, uint16, int8, int16, uint32, int32, float, string, Key, Entries, set, same_key,
}
use ecat_v2_master.Config.Text.{codes}

mutual
  pub data Yaml : Type 0 where
    scalar : (tag text : Key) → Yaml
    sequence : Items → Yaml
    mapping : Fields → Yaml
    absent : Yaml

  pub data Items : Type 0 where
    no_items : Items
    item : Yaml → Items → Items

  -- A key that is not a text is none.
  pub data Fields : Type 0 where
    no_fields : Fields
    field : Option Key → Yaml → Fields → Fields

pub record YamlCpp : Type 0 where
  -- val.as<T>()
  pub as_uint8 : Key → Option ℕ
  pub as_int8 : Key → Option ℤ
  pub as_uint16 : Key → Option ℕ
  pub as_int16 : Key → Option ℤ
  pub as_uint32 : Key → Option ℕ
  pub as_int32 : Key → Option ℤ
  -- The bit pattern
  pub as_float : Key → Option ℕ
  -- The loop over a node that is not a map ends without an element.
  pub is_skipped : Yaml → Bool

abbrev converted : {A : Type 0} → (A → Variant) → Option A → Option Variant
converted f o = o >>= λ a. some (f a)

-- fmt::format("{}_{}", path, key)
abbrev pub joined : Key → Key → Key
joined path key = path ++ codes "_" ++ key

module _ (y : YamlCpp) where
  -- The value that the tag asks for; an unsupported tag throws.
  unfoldable pub scalar_value : Key → Key → Option Variant
  scalar_value tag text =
      if same_key tag (codes "!uint8_t")
      then converted uint8 (y.as_uint8 text)
      else (if same_key tag (codes "!int8_t")
          then converted int8 (y.as_int8 text)
          else (if same_key tag (codes "!uint16_t")
              then converted uint16 (y.as_uint16 text)
              else (if same_key tag (codes "!int16_t")
                  then converted int16 (y.as_int16 text)
                  else (if same_key tag (codes "!uint32_t")
                      then converted uint32 (y.as_uint32 text)
                      else (if same_key tag (codes "!int32_t")
                          then converted int32 (y.as_int32 text)
                          else (if same_key tag (codes "!float")
                              then converted float (y.as_float text)
                              else (if same_key tag (codes "!std::string")
                                  then some (string text)
                                  else none)))))))

  -- for (const auto &kv: node), over a node that is not a map
  abbrev pub skip : Yaml → Entries → Option Entries
  skip node es = if y.is_skipped node then some es else none

  unfoldable mutual
    -- for (const auto &kv: node)
    pub parse_fields : Key → Fields → Entries → Option Entries
    parse_fields path no_fields es = some es
    parse_fields path (field none val rest) es = none
    parse_fields path (field (some key) val rest) es =
        parse_value path key val es >>= parse_fields path rest

    pub parse_value : Key → Key → Yaml → Entries → Option Entries
    parse_value path key (scalar tag text) es =
        scalar_value tag text >>= λ v. some (set (joined path key) v es)
    parse_value path key (sequence items) es = parse_items path items es
    parse_value path key (mapping fs) es = some es
    parse_value path key absent es = some es

    -- for (auto &&slave: val)
    pub parse_items : Key → Items → Entries → Option Entries
    parse_items path no_items es = some es
    parse_items path (item i rest) es = parse_item path i es >>= parse_items path rest

    pub parse_item : Key → Yaml → Entries → Option Entries
    parse_item path (mapping fs) es = parse_slave path fs es
    parse_item path (scalar tag text) es = some es
    parse_item path (sequence items) es = some es
    parse_item path absent es = some es

    -- for (auto it = slave.begin(); it != slave.end(); ++it)
    pub parse_slave : Key → Fields → Entries → Option Entries
    parse_slave path no_fields es = some es
    parse_slave path (field none val rest) es = none
    parse_slave path (field (some key) val rest) es =
        parse_map (joined path key) val es >>= parse_slave path rest

    pub parse_map : Key → Yaml → Entries → Option Entries
    parse_map path (mapping fs) es = parse_fields path fs es
    parse_map path (scalar tag text) es = skip (scalar tag text) es
    parse_map path (sequence items) es = skip (sequence items) es
    parse_map path absent es = skip absent es

  -- for (auto it = slave.begin(); it != slave.end(); ++it)
  unfoldable pub load_slave : Fields → Entries → Option Entries
  load_slave no_fields es = some es
  load_slave (field none val rest) es = none
  load_slave (field (some key) val rest) es = parse_map key val es >>= load_slave rest

  -- for (auto &&slave: slaves)
  unfoldable pub load_slaves : Items → Entries → Option Entries
  unfolding load_slave
  load_slaves no_items es = some es
  load_slaves (item (mapping fs) rest) es = load_slave fs es >>= load_slaves rest
  load_slaves (item (scalar tag text) rest) es = load_slaves rest es
  load_slaves (item (sequence items) rest) es = load_slaves rest es
  load_slaves (item absent rest) es = load_slaves rest es

  -- Of root["slaves"], as yaml-cpp finds it in the file
  unfoldable pub load_initial_value_from_config : Yaml → Entries → Option Entries
  unfolding load_slaves
  load_initial_value_from_config (sequence items) es = load_slaves items es
  load_initial_value_from_config (scalar tag text) es = some es
  load_initial_value_from_config (mapping fs) es = some es
  load_initial_value_from_config absent es = some es
