-- ===== src/Request/Dl/Csi/Mapper.antt =====
-- L2_to_L1/P7/dl_tti_request.c, `map_csi_rs`: the nFAPI CSI-RS PDU.
use x_fapi.Prelude.{ℕ, ◌+◌, ◌*◌, ◌%◌, ◌^◌, get_or}
use x_fapi.Request.Ul.Mapping.{span16}
use x_fapi.Request.Dl.Csi.{CapCsi}

-- `nfapi_nr_dl_tti_csi_rs_pdu_rel15_t`
pub record CsiRsPdu : Type 0 where
  pub bwp_size : ℕ
  pub bwp_start : ℕ
  pub subcarrier_spacing : ℕ
  pub cyclic_prefix : ℕ
  pub start_rb : ℕ
  pub nr_of_rbs : ℕ
  pub csi_type : ℕ
  pub row : ℕ
  pub freq_domain : ℕ
  pub symb_l0 : ℕ
  pub symb_l1 : ℕ
  pub cdm_type : ℕ
  pub freq_density : ℕ
  pub scramb_id : ℕ
  pub power_control_offset : ℕ
  pub power_control_offset_ss : ℕ

unfoldable pub map_csi_rs : CapCsi → CsiRsPdu
map_csi_rs c = record {
  bwp_size = span16 c.bwp_stop c.bwp_start;
  bwp_start = c.bwp_start % 2 ^ 16;
  subcarrier_spacing = c.scs;
  cyclic_prefix = c.cp;
  start_rb = c.crb_start % 2 ^ 16;
  nr_of_rbs = span16 c.crb_stop c.crb_start;
  csi_type = c.csi_type;
  row = c.row;
  freq_domain = (get_or c.freq_dom 0 0 + get_or c.freq_dom 1 0 * 2 ^ 8) % 2 ^ 16;
  symb_l0 = c.symb_l0;
  symb_l1 = c.symb_l1;
  cdm_type = c.cdm_type;
  freq_density = c.freq_density;
  scramb_id = c.scramb_id;
  power_control_offset = c.power_nr % 2 ^ 8;
  power_control_offset_ss = c.power_ss;
}
