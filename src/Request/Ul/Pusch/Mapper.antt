-- ===== src/Request/Ul/Pusch/Mapper.antt =====
-- L2_to_L1/P7/ul_tti_request.c, `map_pusch`: the nFAPI PUSCH PDU.
use x_fapi.Prelude.{ℕ, ◌%◌, ◌^◌, ◌==◌, if◌then◌else◌, List}
use x_fapi.Request.Ul.Mapping.{span16, span8, Beamforming, ul_bf_none, derive_bg}
use x_fapi.Request.Ul.Pusch.{CapPusch}

-- `nfapi_nr_pusch_pdu_t`
pub record PuschPdu : Type 0 where
  pub pdu_bit_map : ℕ
  pub rnti : ℕ
  pub handle : ℕ
  pub bwp_size : ℕ
  pub bwp_start : ℕ
  pub subcarrier_spacing : ℕ
  pub cyclic_prefix : ℕ
  pub target_code_rate : ℕ
  pub qam_mod_order : ℕ
  pub mcs_index : ℕ
  pub mcs_table : ℕ
  pub transform_precoding : ℕ
  pub data_scrambling_id : ℕ
  pub nr_of_layers : ℕ
  pub ul_dmrs_symb_pos : ℕ
  pub dmrs_config_type : ℕ
  pub ul_dmrs_scrambling_id : ℕ
  pub pusch_identity : ℕ
  pub scid : ℕ
  pub num_dmrs_cdm_grps_no_data : ℕ
  pub dmrs_ports : ℕ
  pub resource_alloc : ℕ
  pub rb_bitmap : List ℕ
  pub rb_start : ℕ
  pub rb_size : ℕ
  pub vrb_to_prb_mapping : ℕ
  pub frequency_hopping : ℕ
  pub tx_direct_current_location : ℕ
  pub uplink_frequency_shift_7p5khz : ℕ
  pub start_symbol_index : ℕ
  pub nr_of_symbols : ℕ
  pub rv_index : ℕ
  pub harq_process_id : ℕ
  pub new_data_indicator : ℕ
  pub tb_size : ℕ
  pub num_cb : ℕ
  pub harq_ack_bit_length : ℕ
  pub csi_part1_bit_length : ℕ
  pub csi_part2_bit_length : ℕ
  pub alpha_scaling : ℕ
  pub beta_offset_harq_ack : ℕ
  pub beta_offset_csi1 : ℕ
  pub beta_offset_csi2 : ℕ
  pub num_ptrs_ports : ℕ
  pub low_papr_group_number : ℕ
  pub low_papr_sequence_number : ℕ
  pub ul_ptrs_sample_density : ℕ
  pub ul_ptrs_time_density_transform_precoding : ℕ
  pub beamforming : Beamforming
  pub ldpc_base_graph : ℕ
  pub tb_size_lbrm_bytes : ℕ

unfoldable pub map_pusch : CapPusch → PuschPdu
unfolding derive_bg
map_pusch c = record {
  pdu_bit_map = c.pdu_bitmap % 2 ^ 16;
  rnti = c.rnti;
  handle = c.handle;
  bwp_size = span16 c.bwp_stop c.bwp_start;
  bwp_start = c.bwp_start % 2 ^ 16;
  subcarrier_spacing = c.scs;
  cyclic_prefix = c.cp;
  target_code_rate = c.target_code_rate;
  qam_mod_order = c.qam;
  mcs_index = c.mcs;
  mcs_table = c.mcs_table;
  transform_precoding = if c.transform_precoding == 0 then 1 else 0;
  data_scrambling_id = c.nid_pusch;
  nr_of_layers = if c.num_layers == 0 then 1 else c.num_layers;
  ul_dmrs_symb_pos = c.ul_dmrs_symb_pos;
  dmrs_config_type = c.dmrs_type;
  ul_dmrs_scrambling_id = c.dmrs_scram_id;
  pusch_identity = c.dmrs_identity;
  scid = c.nscid;
  num_dmrs_cdm_grps_no_data = c.num_cdm_no_data;
  dmrs_ports = c.dmrs_ports;
  resource_alloc = c.resource_alloc;
  rb_bitmap = c.rb_bitmap;
  rb_start = c.vrb_start % 2 ^ 16;
  rb_size = span16 c.vrb_stop c.vrb_start;
  vrb_to_prb_mapping = c.vrb_to_prb;
  frequency_hopping = c.intra_hop;
  tx_direct_current_location = c.tx_dc;
  uplink_frequency_shift_7p5khz = c.ufs_7p5;
  start_symbol_index = c.sym_start;
  nr_of_symbols = span8 c.sym_stop c.sym_start;
  rv_index = c.rv_index;
  harq_process_id = c.harq_id;
  new_data_indicator = c.new_data;
  tb_size = c.tb_size;
  num_cb = c.num_cb;
  harq_ack_bit_length = c.harq_ack_bits;
  csi_part1_bit_length = c.csi1_bits;
  csi_part2_bit_length = c.csi2_flags;
  alpha_scaling = c.alpha;
  beta_offset_harq_ack = c.beta_harq;
  beta_offset_csi1 = c.beta_csi1;
  beta_offset_csi2 = c.beta_csi2;
  num_ptrs_ports = 0;
  low_papr_group_number = c.dfts_grp;
  low_papr_sequence_number = c.dfts_seq;
  ul_ptrs_sample_density = c.dfts_sample_den;
  ul_ptrs_time_density_transform_precoding = c.dfts_time_den;
  beamforming = ul_bf_none;
  ldpc_base_graph = derive_bg c.ldpc_base_graph c.tb_size c.target_code_rate;
  tb_size_lbrm_bytes = c.tb_size_lbrm;
}
