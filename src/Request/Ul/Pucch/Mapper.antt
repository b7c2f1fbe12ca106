-- ===== src/Request/Ul/Pucch/Mapper.antt =====
-- L2_to_L1/P7/ul_tti_request.c, `map_pucch`: the nFAPI PUCCH PDU.
use x_fapi.Prelude.{ℕ, ◌%◌, ◌^◌, ◌==◌, if◌then◌else◌}
use x_fapi.Request.Ul.Mapping.{span16, span8, Beamforming, ul_bf_none}
use x_fapi.Request.Ul.Pucch.{CapPucch}

-- `nfapi_nr_pucch_pdu_t`
pub record PucchPdu : Type 0 where
  pub rnti : ℕ
  pub handle : ℕ
  pub bwp_size : ℕ
  pub bwp_start : ℕ
  pub subcarrier_spacing : ℕ
  pub cyclic_prefix : ℕ
  pub format_type : ℕ
  pub multi_slot_tx_indicator : ℕ
  pub pi_2bpsk : ℕ
  pub prb_start : ℕ
  pub prb_size : ℕ
  pub start_symbol_index : ℕ
  pub nr_of_symbols : ℕ
  pub freq_hop_flag : ℕ
  pub second_hop_prb : ℕ
  pub group_hop_flag : ℕ
  pub sequence_hop_flag : ℕ
  pub hopping_id : ℕ
  pub initial_cyclic_shift : ℕ
  pub data_scrambling_id : ℕ
  pub time_domain_occ_idx : ℕ
  pub pre_dft_occ_idx : ℕ
  pub pre_dft_occ_len : ℕ
  pub add_dmrs_flag : ℕ
  pub dmrs_scrambling_id : ℕ
  pub dmrs_cyclic_shift : ℕ
  pub sr_flag : ℕ
  pub bit_len_harq : ℕ
  pub bit_len_csi_part1 : ℕ
  pub bit_len_csi_part2 : ℕ
  pub beamforming : Beamforming

unfoldable pub map_pucch : CapPucch → PucchPdu
map_pucch c = record {
  rnti = c.rnti;
  handle = c.handle;
  bwp_size = span16 c.bwp_stop c.bwp_start;
  bwp_start = c.bwp_start % 2 ^ 16;
  subcarrier_spacing = c.scs;
  cyclic_prefix = c.cp;
  format_type = c.format_type;
  multi_slot_tx_indicator = c.multi_slot;
  pi_2bpsk = c.pi2_bpsk;
  prb_start = c.prb_start % 2 ^ 16;
  prb_size = span16 c.prb_stop c.prb_start;
  start_symbol_index = c.sym_start;
  nr_of_symbols = span8 c.sym_stop c.sym_start;
  freq_hop_flag = c.intra_hop;
  second_hop_prb = c.second_hop_prb;
  group_hop_flag = if c.grp_hopping == 1 then 1 else 0;
  sequence_hop_flag = if c.grp_hopping == 2 then 1 else 0;
  hopping_id = c.nid_hopping;
  initial_cyclic_shift = c.init_cyclic_shift;
  data_scrambling_id = c.nid_scrambling;
  time_domain_occ_idx = c.time_occ;
  pre_dft_occ_idx = c.pre_dft_idx;
  pre_dft_occ_len = c.pre_dft_len;
  add_dmrs_flag = c.add_dmrs;
  dmrs_scrambling_id = c.nid0_dmrs;
  dmrs_cyclic_shift = c.m0_shift;
  sr_flag = c.sr_bit_len;
  bit_len_harq = c.bit_len_harq;
  bit_len_csi_part1 = c.csi1_bits;
  bit_len_csi_part2 = 0;
  beamforming = ul_bf_none;
}
