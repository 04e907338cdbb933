-- ===== src/Examples/Files.antt =====
-- A configuration file with one slave that has two tasks.
use ecat_v2_master.Base.{ℕ, ◌-◌, ◌≡◌, refl, true, [], ◌∷◌, Option, none, some}
use ecat_v2_master.Config.{uint8, uint16, string, Key, Entries, get}
use ecat_v2_master.Config.Text.{codes}
use ecat_v2_master.Config.Yaml.{
  Yaml, scalar, sequence, mapping, no_items, item, no_fields, field, YamlCpp, scalar_value,
  load_initial_value_from_config,
}
use ecat_v2_master.Config.Yaml.Flat.{latest, map_of}
use ecat_v2_master.Config.Yaml.Loaded.{of_result, document_of, get-load_initial_value_from_config}

abbrev digit_of : Key → Option ℕ
digit_of (c ∷ []) = some (c - 48)
digit_of _ = none

-- Numbers of one digit
abbrev one_digit : YamlCpp
one_digit = record {
  as_uint8 = λ text. digit_of text;
  as_int8 = λ text. none;
  as_uint16 = λ text. digit_of text;
  as_int16 = λ text. none;
  as_uint32 = λ text. none;
  as_int32 = λ text. none;
  as_float = λ text. none;
  is_skipped = λ node. true;
}

abbrev tasks : Yaml
tasks = sequence (
    item
      (mapping (
        field (some (codes "app_1"))
          (mapping
            (field (some (codes "topic")) (scalar (codes "!std::string") (codes "p")) no_fields))
          no_fields))
      (item
        (mapping (
          field (some (codes "app_2"))
            (mapping
              (field (some (codes "type")) (scalar (codes "!uint8_t") (codes "4")) no_fields))
            no_fields))
        no_items))

abbrev file : Yaml
file = sequence (
    item
      (mapping (
        field (some (codes "sn7"))
          (mapping (
            field (some (codes "sdo_len")) (scalar (codes "!uint16_t") (codes "9"))
              (field (some (codes "tasks")) tasks no_fields)))
          no_fields))
      no_items)

abbrev before : Entries
before = (codes "sn7_sdo_len", uint16 1) ∷ []

get-load_initial_value_from_config_example :
    of_result (get (codes "sn7_sdo_len")) (load_initial_value_from_config one_digit file before)
    ≡ of_result
        (λ kvs. latest (codes "sn7_sdo_len") kvs (get (codes "sn7_sdo_len") before))
        (document_of one_digit file)
get-load_initial_value_from_config_example =
    get-load_initial_value_from_config one_digit (codes "sn7_sdo_len") file before

-- What the file holds
file_lem :
    document_of one_digit file
    ≡ some (
        (codes "sn7_sdo_len", uint16 9)
        ∷ (codes "sn7_app_1_topic", string (codes "p"))
        ∷ (codes "sn7_app_2_type", uint8 4)
        ∷ [])
unfolding document_of map_of scalar_value
file_lem = refl
