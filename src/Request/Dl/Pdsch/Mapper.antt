-- ===== src/Request/Dl/Pdsch/Mapper.antt =====
-- L2_to_L1/P7/dl_tti_request.c, `map_pdsch`: the nFAPI PDSCH PDU. `none` is what the code takes from
-- memory that nothing was written to.
use x_fapi.Prelude.{ℕ, ◌%◌, ◌^◌, List, [], ◌∷◌, Option, none, some, ◌==◌, ◌||◌, if◌then◌else◌}
use x_fapi.Request.Ul.Mapping.{span16, span8, derive_bg}
use x_fapi.Request.Dl.Parts.{Codeword}
use x_fapi.Request.Dl.Parts.Mapping.{Precoding, map_beamforming_none}
use x_fapi.Request.Dl.Pdsch.{CapPdsch}

-- `nfapi_nr_dl_tti_pdsch_pdu_rel15_t`; the arrays over the codewords are `codewords`.
pub record PdschPdu : Type 0 where
  pub pdu_bitmap : ℕ
  pub rnti : ℕ
  pub pdu_index : ℕ
  pub bwp_size : ℕ
  pub bwp_start : ℕ
  pub subcarrier_spacing : ℕ
  pub cyclic_prefix : ℕ
  pub nr_of_codewords : ℕ
  pub codewords : List (Option Codeword)
  pub data_scrambling_id : ℕ
  pub nr_of_layers : ℕ
  pub transmission_scheme : ℕ
  pub ref_point : ℕ
  pub dl_dmrs_symb_pos : ℕ
  pub dmrs_config_type : ℕ
  pub dl_dmrs_scrambling_id : ℕ
  pub scid : ℕ
  pub num_dmrs_cdm_grps_no_data : ℕ
  pub dmrs_ports : ℕ
  pub resource_alloc : ℕ
  pub rb_bitmap : List ℕ
  pub rb_start : ℕ
  pub rb_size : ℕ
  pub vrb_to_prb_mapping : ℕ
  pub start_symbol_index : ℕ
  pub nr_of_symbols : ℕ
  pub precoding : Precoding
  pub power_control_offset : ℕ
  pub power_control_offset_ss : ℕ
  pub ldpc_base_graph : Option ℕ
  pub tb_size_lbrm_bytes : ℕ

-- A count that the L2 may leave at 0.
abbrev pub or_one : ℕ → ℕ
or_one n = if n == 0 then 1 else n

-- The codeword at place 0 and the codeword at place 1.
unfoldable pub first_word : List Codeword → Option Codeword
first_word [] = none
first_word (w ∷ more) = some w

unfoldable pub second_word : List Codeword → Option Codeword
unfolding first_word
second_word [] = none
second_word (w ∷ more) = first_word more

-- The base graph of the L2, or one from the rate and the size of the first codeword.
unfoldable pub base_graph : ℕ → Option Codeword → Option ℕ
base_graph bg none = if (bg == 1) || (bg == 2) then some bg else none
base_graph bg (some w) = some (derive_bg bg w.tb_size w.target_code_rate)

unfoldable pub map_pdsch : CapPdsch → PdschPdu
unfolding first_word second_word base_graph
map_pdsch c = record {
  pdu_bitmap = c.pdu_bitmap % 2 ^ 16;
  rnti = c.rnti;
  pdu_index = c.pdu_index;
  bwp_size = span16 c.bwp_stop c.bwp_start;
  bwp_start = c.bwp_start % 2 ^ 16;
  subcarrier_spacing = c.scs;
  cyclic_prefix = c.cp;
  nr_of_codewords = or_one c.nof_cws;
  codewords = first_word c.cws ∷ second_word c.cws ∷ [];
  data_scrambling_id = c.nid_pdsch;
  nr_of_layers = or_one c.num_layers;
  transmission_scheme = c.tx_scheme;
  ref_point = c.ref_point;
  dl_dmrs_symb_pos = c.dl_dmrs_symb_pos;
  dmrs_config_type = c.dmrs_type;
  dl_dmrs_scrambling_id = c.dmrs_scram_id;
  scid = c.nscid;
  num_dmrs_cdm_grps_no_data = c.num_cdm_no_data;
  dmrs_ports = c.dmrs_ports;
  resource_alloc = c.resource_alloc;
  rb_bitmap = c.rb_bitmap;
  rb_start = c.vrb_start % 2 ^ 16;
  rb_size = span16 c.vrb_stop c.vrb_start;
  vrb_to_prb_mapping = c.vrb_to_prb;
  start_symbol_index = c.sym_start;
  nr_of_symbols = span8 c.sym_stop c.sym_start;
  precoding = map_beamforming_none;
  power_control_offset = c.power_ss % 2 ^ 8;
  power_control_offset_ss = c.power_ss % 2 ^ 8;
  ldpc_base_graph = base_graph c.ldpc_base_graph (first_word c.cws);
  tb_size_lbrm_bytes = c.tb_size_lbrm;
}
