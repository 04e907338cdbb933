-- ===== src/Sys/Nic/Coalesced.antt =====
-- The coalesce parameters that `setup_nic` leaves.
use ecat_v2_master.Base.{◌≡◌, refl, ap, List, [], ◌∷◌, none, some, true}
use ecat_v2_master.Sys.Nic.{
  EthtoolCoalesce, Ioctl, Change, rx_usecs, tx_usecs, rx_frames, tx_frames, modify_fn,
  set_coalesce_param, set_params, setup_nic,
}

-- A device that takes all requests
abbrev pub Sets : (I : Ioctl) → Type 0
Sets I = (nic : I.Nic) (new : EthtoolCoalesce) → I.get_coalesce (I.set_coalesce new nic) ≡ some new

module _ (I : Ioctl) where
  set_coalesce_param-read :
      (change : Change) (nic : I.Nic) (e : EthtoolCoalesce)
      → I.get_coalesce nic ≡ some e
      → set_coalesce_param I change nic ≡ I.set_coalesce (modify_fn change e) nic
  unfolding set_coalesce_param
  set_coalesce_param-read change nic e p =
      ap (λ o. elim o [ none ↦ nic | some e ↦ I.set_coalesce (modify_fn change e) nic ]) p

  abbrev all_modified : List Change → EthtoolCoalesce → EthtoolCoalesce
  all_modified [] e = e
  all_modified (change ∷ changes) e = all_modified changes (modify_fn change e)

  set_params-set :
      (changes : List Change) (old : EthtoolCoalesce) (nic : I.Nic)
      → Sets I
      → I.get_coalesce nic ≡ some old
      → I.get_coalesce (set_params I changes nic) ≡ some (all_modified changes old)
  unfolding set_params
  set_params-set [] old nic h p = p
  set_params-set (change ∷ changes) old nic h p =
      set_params-set changes (modify_fn change old) (set_coalesce_param I change nic) h
        (rw (set_coalesce_param-read change nic old p) (h nic (modify_fn change old)))

  -- When the socket opens, the parameters can be read and every request to set them is taken, then
  -- setup_nic leaves no delay and single frames in both directions and all other parameters as
  -- they were.
  pub setup_nic-set :
      (nic : I.Nic) (old : EthtoolCoalesce)
      → Sets I
      → I.get_coalesce nic ≡ some old
      → (nic' : I.Nic) × (setup_nic I true nic ≡ some nic')
        × (I.get_coalesce nic'
            ≡ some (record {
              rx_coalesce_usecs = 0;
              tx_coalesce_usecs = 0;
              rx_max_coalesced_frames = 1;
              tx_max_coalesced_frames = 1;
              others = old.others;
            }))
  unfolding setup_nic modify_fn
  setup_nic-set nic old h p =
      let changes = rx_usecs ∷ tx_usecs ∷ rx_frames ∷ tx_frames ∷ [] in
      (set_params I changes nic, refl, set_params-set changes old nic h p)
