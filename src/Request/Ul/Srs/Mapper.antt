-- ===== src/Request/Ul/Srs/Mapper.antt =====
-- L2_to_L1/P7/ul_tti_request.c, `map_srs`: the nFAPI SRS PDU.
use x_fapi.Prelude.{ℕ, ◌%◌, ◌^◌}
use x_fapi.Request.Ul.Mapping.{span16, span8, Beamforming, ul_bf_none}
use x_fapi.Request.Ul.Srs.{CapSrs}

-- `nfapi_nr_srs_pdu_t`
pub record SrsPdu : Type 0 where
  pub rnti : ℕ
  pub handle : ℕ
  pub bwp_size : ℕ
  pub bwp_start : ℕ
  pub subcarrier_spacing : ℕ
  pub cyclic_prefix : ℕ
  pub num_ant_ports : ℕ
  pub num_symbols : ℕ
  pub num_repetitions : ℕ
  pub time_start_position : ℕ
  pub config_index : ℕ
  pub sequence_id : ℕ
  pub bandwidth_index : ℕ
  pub comb_size : ℕ
  pub comb_offset : ℕ
  pub cyclic_shift : ℕ
  pub frequency_position : ℕ
  pub frequency_shift : ℕ
  pub frequency_hopping : ℕ
  pub group_or_sequence_hopping : ℕ
  pub resource_type : ℕ
  pub t_srs : ℕ
  pub t_offset : ℕ
  pub beamforming : Beamforming

unfoldable pub map_srs : CapSrs → SrsPdu
map_srs c = record {
  rnti = c.rnti;
  handle = c.handle;
  bwp_size = span16 c.bwp_stop c.bwp_start;
  bwp_start = c.bwp_start % 2 ^ 16;
  subcarrier_spacing = c.scs;
  cyclic_prefix = c.cp;
  num_ant_ports = c.num_ant_ports;
  num_symbols = span8 c.sym_stop c.sym_start;
  num_repetitions = c.num_repetitions;
  time_start_position = c.time_start;
  config_index = c.config_index;
  sequence_id = c.sequence_id;
  bandwidth_index = c.bandwidth_index;
  comb_size = c.comb_size;
  comb_offset = c.comb_offset;
  cyclic_shift = c.cyclic_shift;
  frequency_position = c.freq_position;
  frequency_shift = c.freq_shift;
  frequency_hopping = c.freq_hopping;
  group_or_sequence_hopping = c.grp_seq_hopping;
  resource_type = c.resource_type;
  t_srs = c.t_srs;
  t_offset = c.t_offset;
  beamforming = ul_bf_none;
}
