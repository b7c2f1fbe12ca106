-- ===== src/Request/Dl/Pdsch.antt =====
-- L2_to_L1/P7/dl_tti_request.c: the PDSCH part of a downlink PDU, `cap_pdsch_t`, `walk_pdsch` and
-- `walk_pdsch_maint_v3`.
pub mod Spec
pub mod Mapper
use x_fapi.Prelude.{
  ℕ, ◌+◌, ◌*◌, ◌/◌, ◌%◌, ◌^◌, ◌==◌, ltb, if◌then◌else◌, List, [], ◌∷◌, ◌||◌, take, min,
}
use x_fapi.Wire.Cursor.{
  Rd, ◌>>=◌, ◌>>◌, return, rd_u8, rd_u16, rd_u32, rd_u64, rd_bytes, rd_skip, rd_skip_sv_u8,
  rd_skip_sv_u16, rd_times, rd_list,
}
use x_fapi.Request.Dl.Parts.{
  BitBytes, rd_bitset_bytes, Power, walk_power, walk_power_nr, walk_optional_u32, Interleaving,
  walk_interleaving, walk_context, Codeword, rd_codeword, walk_pdsch_context, rd_two_words,
}

-- What `walk_pdsch_maint_v3` captures
pub record MaintV3 : Type 0 where
  pub ldpc_base_graph : ℕ
  pub tb_size_lbrm : ℕ

-- `cap_pdsch_t`. `cws` has the codewords that were read, two at most: the places of the arrays that were
-- not written are left out.
pub record CapPdsch : Type 0 where
  pub pdu_bitmap : ℕ
  pub rnti : ℕ
  pub pdu_index : ℕ
  pub bwp_start : ℕ
  pub bwp_stop : ℕ
  pub scs : ℕ
  pub cp : ℕ
  pub nof_cws : ℕ
  pub cws : List Codeword
  pub nid_pdsch : ℕ
  pub num_layers : ℕ
  pub tx_scheme : ℕ
  pub ref_point : ℕ
  pub dl_dmrs_symb_pos : ℕ
  pub dmrs_scram_id : ℕ
  pub dmrs_type : ℕ
  pub dmrs_scram_id_compl : ℕ
  pub low_papr : ℕ
  pub nscid : ℕ
  pub num_cdm_no_data : ℕ
  pub dmrs_ports : ℕ
  pub resource_alloc : ℕ
  pub rb_bitmap : List ℕ
  pub vrb_start : ℕ
  pub vrb_stop : ℕ
  pub vrb_to_prb : ℕ
  pub sym_start : ℕ
  pub sym_stop : ℕ
  pub prg_size : ℕ
  pub pm_index : ℕ
  pub power_nr : ℕ
  pub power_ss : ℕ
  pub ldpc_base_graph : ℕ
  pub tb_size_lbrm : ℕ

unfoldable pub walk_pdsch_maint_v3 : Rd MaintV3
unfolding ◌>>=◌ ◌>>◌
walk_pdsch_maint_v3 = do
  rd_u8
  rd_u16
  rd_u16
  ldpc_base_graph ← rd_u8
  tb_size_lbrm ← rd_u32
  rd_u8
  rd_times 8 (rd_u16 >> return tt)
  rd_u16
  rd_u8
  rd_skip_sv_u8
  rd_u8
  rd_u8
  rd_u16
  rd_u16
  rd_u8
  rd_skip_sv_u8
  rd_skip_sv_u16
  rd_u8
  rd_skip_sv_u8
  return (record { ldpc_base_graph = ldpc_base_graph; tb_size_lbrm = tb_size_lbrm })

unfoldable pub walk_pdsch : Rd CapPdsch
unfolding ◌>>=◌ ◌>>◌
walk_pdsch = do
  pdu_bitmap ← rd_u64
  rnti ← rd_u16
  pdu_index ← rd_u16
  bwp_start ← rd_u32
  bwp_stop ← rd_u32
  scs ← rd_u8
  cp ← rd_u8
  nof_cws ← rd_u16
  cws ← rd_list nof_cws rd_codeword
  nid_pdsch ← rd_u16
  num_layers ← rd_u8
  tx_scheme ← rd_u8
  ref_point ← rd_u8
  dl_dmrs_symb_pos ← rd_u16
  dmrs_scram_id ← rd_u16
  dmrs_type ← rd_u8
  dmrs_scram_id_compl ← rd_u16
  low_papr ← rd_u8
  nscid ← rd_u8
  num_cdm_no_data ← rd_u8
  dmrs_ports ← rd_u16
  resource_alloc ← rd_u8
  rb_bitmap ← rd_bytes 36
  vrb_start ← rd_u32
  vrb_stop ← rd_u32
  vrb_to_prb ← rd_u8
  sym_start ← rd_u8
  sym_stop ← rd_u8
  power_idx ← rd_u8
  power ← walk_power_nr power_idx
  prg_size ← rd_u16
  pm_index ← rd_u16
  rd_u8
  rd_u8
  rd_u32
  rd_u32
  maint ← walk_pdsch_maint_v3
  rd_u8
  rd_skip_sv_u8
  rd_u8
  rd_skip_sv_u8
  has_ctx ← rd_u8
  walk_pdsch_context has_ctx
  return (record {
    pdu_bitmap = pdu_bitmap;
    rnti = rnti;
    pdu_index = pdu_index;
    bwp_start = bwp_start;
    bwp_stop = bwp_stop;
    scs = scs;
    cp = cp;
    nof_cws = min nof_cws 2;
    cws = take 2 cws;
    nid_pdsch = nid_pdsch;
    num_layers = num_layers;
    tx_scheme = tx_scheme;
    ref_point = ref_point;
    dl_dmrs_symb_pos = dl_dmrs_symb_pos;
    dmrs_scram_id = dmrs_scram_id;
    dmrs_type = dmrs_type;
    dmrs_scram_id_compl = dmrs_scram_id_compl;
    low_papr = low_papr;
    nscid = nscid;
    num_cdm_no_data = num_cdm_no_data;
    dmrs_ports = dmrs_ports;
    resource_alloc = resource_alloc;
    rb_bitmap = rb_bitmap;
    vrb_start = vrb_start;
    vrb_stop = vrb_stop;
    vrb_to_prb = vrb_to_prb;
    sym_start = sym_start;
    sym_stop = sym_stop;
    prg_size = prg_size;
    pm_index = pm_index;
    power_nr = power.power_nr;
    power_ss = power.power_ss;
    ldpc_base_graph = maint.ldpc_base_graph;
    tb_size_lbrm = maint.tb_size_lbrm;
  })
