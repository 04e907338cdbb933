-- ===== src/Config/Yaml/Flat.antt =====
-- A configuration file as the list of the keys and values in it, in their order.
use ecat_v2_master.Base.{
  ◌≡◌, refl, [], ◌∷◌, ◌++◌, Option, none, some, ◌>>=◌, if◌then◌else◌, Bool-cases, inl, inr,
}
use ecat_v2_master.Config.{Variant, Outcome, value, Key, Entries, same_key, set, set_all, get}
use ecat_v2_master.Config.Fields.{get-set}
use ecat_v2_master.Config.Yaml.{
  Yaml, scalar, sequence, mapping, absent, Items, no_items, item, Fields, no_fields, field, YamlCpp,
  joined, scalar_value, skip, parse_fields, parse_value, parse_items, parse_slave, parse_map,
}

-- The last value of a key, or what there was before
abbrev pub latest : Key → Entries → Outcome Variant → Outcome Variant
latest k [] before = before
latest k ((l, v) ∷ kvs) before = latest k kvs (if same_key l k then value v else before)

set_all-append : (a b es : Entries) → set_all (a ++ b) es ≡ set_all b (set_all a es)
set_all-append [] b es = refl
set_all-append ((k, v) ∷ a) b es = set_all-append a b (set k v es)

pub get-set_all : (k : Key) (kvs es : Entries) → get k (set_all kvs es) ≡ latest k kvs (get k es)
get-set_all k [] es = refl
get-set_all k ((l, v) ∷ kvs) es = rw (get-set_all k kvs (set l v es), get-set l k v es) refl

-- The keys and values of one part, then those of another
abbrev pub both : Option Entries → Option Entries → Option Entries
both none p = none
both (some a) none = none
both (some a) (some b) = some (a ++ b)

-- What is left of the entries when these keys and values are set
abbrev pub setting : Option Entries → Entries → Option Entries
setting none es = none
setting (some kvs) es = some (set_all kvs es)

-- A part of the loading sets these keys and values.
abbrev pub Sets : (Entries → Option Entries) → Option Entries → Type 0
Sets f o = (es : Entries) → f es ≡ setting o es

pub Sets-both :
    (f g : Entries → Option Entries) (o p : Option Entries)
    → Sets f o
    → Sets g p
    → Sets (λ es. f es >>= g) (both o p)
Sets-both f g none p hf hg es = rw (hf es) refl
Sets-both f g (some a) none hf hg es = rw (hf es, hg (set_all a es)) refl
Sets-both f g (some a) (some b) hf hg es = rw (hf es, hg (set_all a es), set_all-append a b es) refl

module _ (y : YamlCpp) where
  abbrev single : Key → Option Variant → Option Entries
  single k none = none
  single k (some v) = some ((k, v) ∷ [])

  single-Sets :
      (k : Key) (o : Option Variant) → Sets (λ es. o >>= λ v. some (set k v es)) (single k o)
  single-Sets k none es = refl
  single-Sets k (some v) es = refl

  abbrev skipped : Yaml → Option Entries
  skipped node = if y.is_skipped node then some [] else none

  -- The keys and values of a node, in their order
  unfoldable mutual
    fields_of : Key → Fields → Option Entries
    fields_of path no_fields = some []
    fields_of path (field none val rest) = none
    fields_of path (field (some key) val rest) = both (value_of path key val) (fields_of path rest)

    value_of : Key → Key → Yaml → Option Entries
    value_of path key (scalar tag text) = single (joined path key) (scalar_value y tag text)
    value_of path key (sequence items) = items_of path items
    value_of path key (mapping fs) = some []
    value_of path key absent = some []

    items_of : Key → Items → Option Entries
    items_of path no_items = some []
    items_of path (item (mapping fs) rest) = both (slave_of path fs) (items_of path rest)
    items_of path (item (scalar tag text) rest) = items_of path rest
    items_of path (item (sequence items) rest) = items_of path rest
    items_of path (item absent rest) = items_of path rest

    slave_of : Key → Fields → Option Entries
    slave_of path no_fields = some []
    slave_of path (field none val rest) = none
    slave_of path (field (some key) val rest) =
        both (map_of (joined path key) val) (slave_of path rest)

    pub map_of : Key → Yaml → Option Entries
    map_of path (mapping fs) = fields_of path fs
    map_of path (scalar tag text) = skipped (scalar tag text)
    map_of path (sequence items) = skipped (sequence items)
    map_of path absent = skipped absent

  skip-Sets : (node : Yaml) → Sets (skip y node) (skipped node)
  skip-Sets node es = elim (Bool-cases (y.is_skipped node)) [
    | inl skips ↦ rw skips refl
    | inr throws ↦ rw throws refl
  ]

  mutual
    unfolding parse_map map_of

    parse_fields-Sets :
        (path : Key) (fs : Fields) → Sets (parse_fields y path fs) (fields_of path fs)
    parse_fields-Sets path no_fields es = refl
    parse_fields-Sets path (field none val rest) es = refl
    parse_fields-Sets path (field (some key) val rest) es =
        Sets-both (parse_value y path key val) (parse_fields y path rest) _ _
          (parse_value-Sets path key val) (parse_fields-Sets path rest) es

    parse_value-Sets :
        (path key : Key) (val : Yaml) → Sets (parse_value y path key val) (value_of path key val)
    parse_value-Sets path key (scalar tag text) es =
        single-Sets (joined path key) (scalar_value y tag text) es
    parse_value-Sets path key (sequence items) es = parse_items-Sets path items es
    parse_value-Sets path key (mapping fs) es = refl
    parse_value-Sets path key absent es = refl

    parse_items-Sets : (path : Key) (is : Items) → Sets (parse_items y path is) (items_of path is)
    parse_items-Sets path no_items es = refl
    parse_items-Sets path (item (mapping fs) rest) es =
        Sets-both (parse_slave y path fs) (parse_items y path rest) _ _ (parse_slave-Sets path fs)
          (parse_items-Sets path rest) es
    parse_items-Sets path (item (scalar tag text) rest) es = parse_items-Sets path rest es
    parse_items-Sets path (item (sequence items) rest) es = parse_items-Sets path rest es
    parse_items-Sets path (item absent rest) es = parse_items-Sets path rest es

    parse_slave-Sets : (path : Key) (fs : Fields) → Sets (parse_slave y path fs) (slave_of path fs)
    parse_slave-Sets path no_fields es = refl
    parse_slave-Sets path (field none val rest) es = refl
    parse_slave-Sets path (field (some key) val rest) es =
        Sets-both (parse_map y (joined path key) val) (parse_slave y path rest) _ _
          (parse_map-Sets (joined path key) val) (parse_slave-Sets path rest) es

    pub parse_map-Sets :
        (path : Key) (node : Yaml) → Sets (parse_map y path node) (map_of path node)
    parse_map-Sets path (mapping fs) es = parse_fields-Sets path fs es
    parse_map-Sets path (scalar tag text) es = skip-Sets (scalar tag text) es
    parse_map-Sets path (sequence items) es = skip-Sets (sequence items) es
    parse_map-Sets path absent es = skip-Sets absent es
