-- ===== src/Request/Dl/Parts/Mapping.antt =====
-- L2_to_L1/P7/dl_tti_request.c, `map_beamforming_none`. A field of an nFAPI structure holds what is
-- assigned to it without a cast.
use x_fapi.Prelude.{ℕ}

-- `nfapi_nr_tx_precoding_and_beamforming_t`, with one precoding group.
pub record Precoding : Type 0 where
  pub num_prgs : ℕ
  pub prg_size : ℕ
  pub dig_bf_interfaces : ℕ
  pub pm_idx : ℕ

abbrev pub map_beamforming_none : Precoding
map_beamforming_none = record { num_prgs = 1; prg_size = 275; dig_bf_interfaces = 0; pm_idx = 0 }
