-- ===== src/Request/Ul/Prach/Mapper.antt =====
-- L2_to_L1/P7/ul_tti_request.c, `map_prach`: the nFAPI PRACH PDU.
use x_fapi.Prelude.{ℕ}
use x_fapi.Request.Ul.Mapping.{Beamforming, ul_bf_none}
use x_fapi.Request.Ul.Prach.{CapPrach}

-- `nfapi_nr_prach_pdu_t`
pub record PrachPdu : Type 0 where
  pub phys_cell_id : ℕ
  pub num_prach_ocas : ℕ
  pub prach_format : ℕ
  pub num_ra : ℕ
  pub prach_start_symbol : ℕ
  pub num_cs : ℕ
  pub beamforming : Beamforming

unfoldable pub map_prach : CapPrach → ℕ → PrachPdu
map_prach c pci = record {
  phys_cell_id = pci;
  num_prach_ocas = c.num_prach_ocas;
  prach_format = c.prach_format;
  num_ra = c.index_fd_ra;
  prach_start_symbol = c.prach_start_symbol;
  num_cs = c.num_cs;
  beamforming = ul_bf_none;
}
