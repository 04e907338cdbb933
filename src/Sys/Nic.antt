-- ===== src/Sys/Nic.antt =====
-- `setup_nic` (src/soem_wrapper/src/utils/sys_utils.cpp).
--
-- The two ethtool requests of ioctl are a record of the kernel's side: what a request for the
-- coalesce parameters reads, or nothing where it fails, and what a request to set them leaves.
pub mod Coalesced
use ecat_v2_master.Base.{ℕ, List, [], ◌∷◌, Option, none, some, Bool, true, false, if◌then◌else◌}

-- ethtool_coalesce, of which `others` are the fields that the code never names
pub record EthtoolCoalesce : Type 0 where
  pub rx_coalesce_usecs : ℕ
  pub tx_coalesce_usecs : ℕ
  pub rx_max_coalesced_frames : ℕ
  pub tx_max_coalesced_frames : ℕ
  pub others : List ℕ

pub record Ioctl : Type 1 where
  pub Nic : Type 0
  pub get_coalesce : Nic → Option EthtoolCoalesce
  pub set_coalesce : EthtoolCoalesce → Nic → Nic

-- The four calls
pub data Change : Type 0 where
  rx_usecs : Change
  tx_usecs : Change
  rx_frames : Change
  tx_frames : Change

unfoldable pub modify_fn : Change → EthtoolCoalesce → EthtoolCoalesce
modify_fn rx_usecs e = record e { rx_coalesce_usecs = 0 }
modify_fn tx_usecs e = record e { tx_coalesce_usecs = 0 }
modify_fn rx_frames e = record e { rx_max_coalesced_frames = 1 }
modify_fn tx_frames e = record e { tx_max_coalesced_frames = 1 }

module _ (I : Ioctl) where
  -- Where the parameters cannot be read, nothing is set.
  unfoldable pub set_coalesce_param : Change → I.Nic → I.Nic
  unfolding modify_fn
  set_coalesce_param change nic = elim (I.get_coalesce nic) [
    | none ↦ nic
    | some ecoal ↦ I.set_coalesce (modify_fn change ecoal) nic
  ]

  unfoldable pub set_params : List Change → I.Nic → I.Nic
  unfolding set_coalesce_param
  set_params [] nic = nic
  set_params (change ∷ changes) nic = set_params changes (set_coalesce_param change nic)

  -- Nothing where the socket is refused and the process ends
  unfoldable pub setup_nic : Bool → I.Nic → Option I.Nic
  unfolding set_params
  setup_nic has_socket nic =
      if has_socket
      then some (set_params (rx_usecs ∷ tx_usecs ∷ rx_frames ∷ tx_frames ∷ []) nic)
      else none
