-- ===== src/Node/Registry.antt =====
-- The registered modules (`register_module` and the lookups of src/soem_wrapper/src/ecat_node.cpp
-- and src/soem_wrapper/include/soem_wrapper/ecat_node.hpp), and what a slave of an unregistered
-- module gets. The names are only logged and are left out. Looking a key up by operator[] inserts
-- a default value, which changes no later answer.
use ecat_v2_master.Base.{
  ℕ, ◌≡◌, ◌≢◌, refl, sym, ap, ◌∙◌, List, [], ◌∷◌, Option, none, some, ℤ, pos, arith, ==-false, ◌%◌,
  ◌^◌, ◌==◌, if◌then◌else◌,
}
use ecat_v2_master.Device.{SlaveDevice, send_arg}
use ecat_v2_master.Device.Init.{Answers, init, init-first_board}

-- m2s, s2m
pub record BufLens : Type 0 where
  pub master_to_slave : ℕ
  pub slave_to_master : ℕ

pub record Registry : Type 0 where
  pub registered_module_buf_lens : List (ℕ × BufLens)
  pub registered_module_sw_rev : List (ℕ × ℤ)

-- map[key], a default if the key is missing
abbrev at_key {ℓ} : {V : Type ℓ} → ℕ → V → List (ℕ × V) → V
at_key k default [] = default
at_key k default ((j, v) ∷ m) = if j == k then v else at_key k default m

-- map[key] = value
abbrev assign {ℓ} : {V : Type ℓ} → ℕ → V → List (ℕ × V) → List (ℕ × V)
assign k v [] = (k, v) ∷ []
assign k v ((j, w) ∷ m) = if j == k then (k, v) ∷ m else (j, w) ∷ assign k v m

-- The lengths are stored with 16 bits.
unfoldable pub register_module : ℕ → ℕ → ℕ → ℤ → Registry → Registry
register_module eep_id master_to_slave_buf_len slave_to_master_buf_len min_sw_rev r = record {
  registered_module_buf_lens =
      assign eep_id
        (record {
          master_to_slave = master_to_slave_buf_len % 2 ^ 16;
          slave_to_master = slave_to_master_buf_len % 2 ^ 16;
        })
        r.registered_module_buf_lens;
  registered_module_sw_rev = assign eep_id min_sw_rev r.registered_module_sw_rev;
}

unfoldable pub register_components : Registry
unfolding register_module
register_components = register_module 4 80 112 (pos 8) (
    register_module 3 80 80 (pos 8)
      (record { registered_module_buf_lens = []; registered_module_sw_rev = [] }))

unfoldable pub get_device_min_sw_rev_requirement : ℕ → Registry → ℤ
get_device_min_sw_rev_requirement eep_id r = at_key eep_id (pos 0) r.registered_module_sw_rev

unfoldable pub get_device_buf_lens : ℕ → Registry → BufLens
get_device_buf_lens eep_id r =
    at_key eep_id (record { master_to_slave = 0; slave_to_master = 0 }) r.registered_module_buf_lens

-- What `SlaveDevice::init` works with, for a slave with this EEPROM id
unfoldable pub answers_for : Registry → ℕ → ℤ → ℕ → Option ℕ → Answers
unfolding get_device_min_sw_rev_requirement get_device_buf_lens
answers_for r sn sw_rev eep_id sdo_len = record {
  sn = sn;
  sw_rev = sw_rev;
  eep_id = eep_id;
  min_sw_rev = get_device_min_sw_rev_requirement eep_id r;
  master_to_slave_buf_len = (get_device_buf_lens eep_id r).master_to_slave;
  slave_to_master_buf_len = (get_device_buf_lens eep_id r).slave_to_master;
  sdo_len = sdo_len;
}

unregistered :
    (sn eep_id : ℕ) (sw_rev : ℤ) (sdo_len : Option ℕ)
    → eep_id ≢ 3
    → eep_id ≢ 4
    → answers_for register_components sn sw_rev eep_id sdo_len ≡ record {
      sn = sn;
      sw_rev = sw_rev;
      eep_id = eep_id;
      min_sw_rev = pos 0;
      master_to_slave_buf_len = 0;
      slave_to_master_buf_len = 0;
      sdo_len = sdo_len;
    }
unfolding answers_for register_components
unregistered sn eep_id sw_rev sdo_len h k =
    rw (==-false 3 eep_id (λ e. h (sym e)), ==-false 4 eep_id (λ e. k (sym e))) refl

module _ {T : Type 0} where
  no_input : (d : SlaveDevice T) → d.slave_to_master_buf ≡ [] → send_arg d ≡ none
  unfolding send_arg
  no_input d e = rw e refl

  -- A board whose EEPROM id is not registered is accepted at its first configuration, with any
  -- revision that is not negative and a configured length, but its images are empty, and sending
  -- its first argument accesses them out of bounds.
  pub send_arg-unregistered :
      (sn eep_id rev len : ℕ) (d : SlaveDevice T)
      → eep_id ≢ 3
      → eep_id ≢ 4
      → d.sn ≡ 0
      → ((init (answers_for register_components sn (pos rev) eep_id (some len)) d).1 ≡ 1)
        × (send_arg (init (answers_for register_components sn (pos rev) eep_id (some len)) d).0
            ≡ none)
  send_arg-unregistered sn eep_id rev len d h k e =
      let a : Answers = record {
        sn = sn;
        sw_rev = pos rev;
        eep_id = eep_id;
        min_sw_rev = pos 0;
        master_to_slave_buf_len = 0;
        slave_to_master_buf_len = 0;
        sdo_len = some len;
      } in
      let first = init-first_board a d len e (ground arith) refl in
      rw (unregistered sn eep_id (pos rev) (some len) h k) (
        ap (λ (p : SlaveDevice T × ℕ). p.1) first,
        ap (λ (p : SlaveDevice T × ℕ). send_arg p.0) first ∙ no_input _ refl,
      )
