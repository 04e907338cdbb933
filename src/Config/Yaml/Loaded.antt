-- ===== src/Config/Yaml/Loaded.antt =====
-- What a lookup gives after the configuration file is loaded.
use ecat_v2_master.Base.{◌≡◌, refl, [], Option, none, some}
use ecat_v2_master.Config.{Key, Entries, get}
use ecat_v2_master.Config.Yaml.{
  Yaml, scalar, sequence, mapping, absent, Items, no_items, item, Fields, no_fields, field, YamlCpp,
  parse_map, load_slave, load_slaves, load_initial_value_from_config,
}
use ecat_v2_master.Config.Yaml.Flat.{
  latest, get-set_all, both, setting, Sets, Sets-both, map_of, parse_map-Sets,
}

-- What a function gives of a result that may be missing
abbrev pub of_result : {A B : Type 0} → (A → B) → Option A → Option B
of_result f none = none
of_result f (some a) = some (f a)

module _ (y : YamlCpp) where
  unfoldable loaded_slave : Fields → Option Entries
  loaded_slave no_fields = some []
  loaded_slave (field none val rest) = none
  loaded_slave (field (some key) val rest) = both (map_of y key val) (loaded_slave rest)

  unfoldable loaded_slaves : Items → Option Entries
  unfolding loaded_slave
  loaded_slaves no_items = some []
  loaded_slaves (item (mapping fs) rest) = both (loaded_slave fs) (loaded_slaves rest)
  loaded_slaves (item (scalar tag text) rest) = loaded_slaves rest
  loaded_slaves (item (sequence items) rest) = loaded_slaves rest
  loaded_slaves (item absent rest) = loaded_slaves rest

  -- All keys and values that loading sets, in their order
  unfoldable pub document_of : Yaml → Option Entries
  unfolding loaded_slaves
  document_of (sequence items) = loaded_slaves items
  document_of (scalar tag text) = some []
  document_of (mapping fs) = some []
  document_of absent = some []

  load_slave-Sets : (fs : Fields) → Sets (load_slave y fs) (loaded_slave fs)
  unfolding load_slave loaded_slave
  load_slave-Sets no_fields es = refl
  load_slave-Sets (field none val rest) es = refl
  load_slave-Sets (field (some key) val rest) es =
      Sets-both (parse_map y key val) (load_slave y rest) _ _ (parse_map-Sets y key val)
        (load_slave-Sets rest) es

  load_slaves-Sets : (is : Items) → Sets (load_slaves y is) (loaded_slaves is)
  unfolding load_slaves loaded_slaves
  load_slaves-Sets no_items es = refl
  load_slaves-Sets (item (mapping fs) rest) es =
      Sets-both (load_slave y fs) (load_slaves y rest) _ _ (load_slave-Sets fs)
        (load_slaves-Sets rest) es
  load_slaves-Sets (item (scalar tag text) rest) es = load_slaves-Sets rest es
  load_slaves-Sets (item (sequence items) rest) es = load_slaves-Sets rest es
  load_slaves-Sets (item absent rest) es = load_slaves-Sets rest es

  load-Sets : (doc : Yaml) → Sets (load_initial_value_from_config y doc) (document_of doc)
  unfolding load_initial_value_from_config document_of
  load-Sets (sequence items) es = load_slaves-Sets items es
  load-Sets (scalar tag text) es = refl
  load-Sets (mapping fs) es = refl
  load-Sets absent es = refl

  of_setting :
      (k : Key) (o : Option Entries) (es : Entries)
      → of_result (get k) (setting o es) ≡ of_result (λ kvs. latest k kvs (get k es)) o
  of_setting k none es = refl
  of_setting k (some kvs) es = rw (get-set_all k kvs es) refl

  -- Loading a configuration file throws exactly when the list of the keys and values that are in
  -- the file cannot be made. Otherwise a lookup of any key then gives the last value that this
  -- list has for it, in the order of the file, and what it gave before when the list has none.
  pub get-load_initial_value_from_config :
      (k : Key) (doc : Yaml) (es : Entries)
      → of_result (get k) (load_initial_value_from_config y doc es)
        ≡ of_result (λ kvs. latest k kvs (get k es)) (document_of doc)
  get-load_initial_value_from_config k doc es =
      rw (load-Sets doc es) (of_setting k (document_of doc) es)
