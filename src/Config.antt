-- ===== src/Config.antt =====
-- src/soem_wrapper/src/utils/config_utils.cpp and
-- src/soem_wrapper/include/soem_wrapper/utils/config_utils.hpp: the configuration values by key.
--
-- The hash map is an association list. Keys and text values are lists of character codes. The
-- ways a call can end without a value are the constructors of `Outcome`.
pub mod Fields
pub mod Buffer
pub mod Text
pub mod Yaml
use ecat_v2_master.Base.{
  ℕ, zero, suc, ◌≡◌, ℤ, Bool, true, false, ◌&&◌, List, [], ◌∷◌, ◌++◌, Option, none, some, replicate,
  ◌==◌, if◌then◌else◌,
}
use ecat_v2_master.Io.{
  Cursor, write_uint8, write_int8, write_uint16, write_int16, write_uint32, write_int32,
  write_float,
}

pub data Variant : Type 0 where
  uint8 : ℕ → Variant
  uint16 : ℕ → Variant
  int8 : ℤ → Variant
  int16 : ℤ → Variant
  uint32 : ℕ → Variant
  int32 : ℤ → Variant
  float : ℕ → Variant
  string : List ℕ → Variant
  bool : Bool → Variant

-- `key_not_found` and `bad_variant_access` are exceptions; `out_of_bounds` is undefined behaviour.
pub data Outcome (A : Type 0) : Type 0 where
  value : A → Outcome A
  key_not_found : Outcome A
  bad_variant_access : Outcome A
  out_of_bounds : Outcome A

abbrev pub and_then : {A B : Type 0} → Outcome A → (A → Outcome B) → Outcome B
and_then (value a) f = f a
and_then key_not_found f = key_not_found
and_then bad_variant_access f = bad_variant_access
and_then out_of_bounds f = out_of_bounds

-- An access that may be undefined
abbrev pub defined : {A : Type 0} → Option A → Outcome A
defined none = out_of_bounds
defined (some a) = value a

-- std::get
abbrev pub held : {A : Type 0} → Option A → Outcome A
held none = bad_variant_access
held (some a) = value a

-- catch (const std::runtime_error &) { return default_value; }
abbrev pub or_default : {A : Type 0} → A → Outcome A → Outcome A
or_default d (value a) = value a
or_default d key_not_found = value d
or_default d bad_variant_access = bad_variant_access
or_default d out_of_bounds = out_of_bounds

abbrev pub Key : Type 0
Key = List ℕ

abbrev pub Entries : Type 0
Entries = List (Key × Variant)

abbrev pub same_key : Key → Key → Bool
same_key [] [] = true
same_key [] (y ∷ ys) = false
same_key (x ∷ xs) [] = false
same_key (x ∷ xs) (y ∷ ys) = (x == y) && same_key xs ys

pub set : Key → Variant → Entries → Entries
set k v [] = (k, v) ∷ []
set k v ((k', w) ∷ es) = if same_key k' k then (k', v) ∷ es else (k', w) ∷ set k v es

-- Setting all keys in order, as the constructor does from no entries on
abbrev pub set_all : Entries → Entries → Entries
set_all [] es = es
set_all ((k, v) ∷ kvs) es = set_all kvs (set k v es)

unfoldable pub find : Key → Entries → Option Variant
find k [] = none
find k ((k', v) ∷ es) = if same_key k' k then some v else find k es

unfoldable pub get : Key → Entries → Outcome Variant
unfolding find
get k es = elim (find k es) [ none ↦ key_not_found | some v ↦ value v ]

unfoldable pub has : Key → Entries → Bool
unfolding find
has k es = elim (find k es) [ none ↦ false | some v ↦ true ]

erase : Key → Entries → Entries
erase k [] = []
erase k ((k', v) ∷ es) = if same_key k' k then es else (k', v) ∷ erase k es

unfoldable pub remove : Key → Entries → Outcome Entries
unfolding erase has
remove k es = if has k es then value (erase k es) else key_not_found

-- `alternative` gives the value of a variant that holds the type asked for.
module _ {A : Type 0} (alternative : Variant → Option A) where
  unfoldable pub get_field_as : Key → Entries → Outcome A
  unfolding get
  get_field_as k es = and_then (get k es) λ v. held (alternative v)

  -- With a default value
  unfoldable pub get_field_or : Key → A → Entries → Outcome A
  unfolding get_field_as
  get_field_or k default es = or_default default (get_field_as k es)

-- The branch of the visitor that the alternative of the variant selects
unfoldable pub write_variant : Variant → Cursor → Option Cursor
unfolding write_uint8 write_int8 write_uint16 write_int16 write_uint32 write_int32 write_float
write_variant (uint8 n) c = write_uint8 n c
write_variant (uint16 n) c = write_uint16 n c
write_variant (int8 z) c = write_int8 z c
write_variant (int16 z) c = write_int16 z c
write_variant (uint32 n) c = write_uint32 n c
write_variant (int32 z) c = write_int32 z c
write_variant (float f) c = write_float f c
write_variant (string s) c = some c
write_variant (bool b) c = some c

visit : Variant → Cursor → Outcome Cursor
unfolding write_variant
visit v c = defined (write_variant v c)

write_fields : Key → List Key → Entries → Cursor → Outcome Cursor
unfolding get visit
write_fields prefix [] es c = value c
write_fields prefix (name ∷ names) es c =
    and_then (get (prefix ++ name) es) λ v. and_then (visit v c) (write_fields prefix names es)

-- temp_buf_ and offset_
unfoldable pub build_buf : Key → List Key → Entries → Outcome Cursor
unfolding write_fields
build_buf prefix names es =
    write_fields prefix names es (record { bytes = replicate 1024 0; offset = 0 })
