-- ===== src/Request/Ul/Pusch.antt =====
-- L2_to_L1/P7/ul_tti_request.c: the PUSCH part of an uplink PDU, `cap_pusch_t` and `walk_pusch`.
pub mod Spec
pub mod Mapper
use x_fapi.Prelude.{ℕ, List, ◌+◌, ◌-◌, ◌%◌, ◌^◌, ◌==◌, if◌then◌else◌}
use x_fapi.Wire.Cursor.{
  Rd, ◌>>=◌, ◌>>◌, return, rd_u8, rd_u16, rd_u32, rd_u64, rd_bytes, rd_skip, rd_skip_sv_u8,
  rd_times,
}
use x_fapi.Request.Ul.Corr.{walk_uci_corr, walk_ptrs_port, walk_context}

-- `cap_pusch_t`
pub record CapPusch : Type 0 where
  pub pdu_bitmap : ℕ
  pub rnti : ℕ
  pub handle : ℕ
  pub bwp_start : ℕ
  pub bwp_stop : ℕ
  pub scs : ℕ
  pub cp : ℕ
  pub target_code_rate : ℕ
  pub qam : ℕ
  pub mcs : ℕ
  pub mcs_table : ℕ
  pub transform_precoding : ℕ
  pub nid_pusch : ℕ
  pub num_layers : ℕ
  pub ul_dmrs_symb_pos : ℕ
  pub dmrs_type : ℕ
  pub dmrs_scram_id : ℕ
  pub dmrs_scram_id_compl : ℕ
  pub low_papr : ℕ
  pub dmrs_identity : ℕ
  pub nscid : ℕ
  pub num_cdm_no_data : ℕ
  pub dmrs_ports : ℕ
  pub resource_alloc : ℕ
  pub rb_bitmap : List ℕ
  pub vrb_start : ℕ
  pub vrb_stop : ℕ
  pub vrb_to_prb : ℕ
  pub intra_hop : ℕ
  pub tx_dc : ℕ
  pub ufs_7p5 : ℕ
  pub sym_start : ℕ
  pub sym_stop : ℕ
  pub rv_index : ℕ
  pub harq_id : ℕ
  pub new_data : ℕ
  pub tb_size : ℕ
  pub num_cb : ℕ
  pub harq_ack_bits : ℕ
  pub csi1_bits : ℕ
  pub csi2_flags : ℕ
  pub alpha : ℕ
  pub beta_harq : ℕ
  pub beta_csi1 : ℕ
  pub beta_csi2 : ℕ
  pub dfts_grp : ℕ
  pub dfts_seq : ℕ
  pub dfts_sample_den : ℕ
  pub dfts_time_den : ℕ
  pub group_seq_hop : ℕ
  pub ldpc_base_graph : ℕ
  pub tb_size_lbrm : ℕ

unfoldable pub walk_pusch : Rd CapPusch
unfolding ◌>>=◌ ◌>>◌
walk_pusch = do
  pdu_bitmap ← rd_u64
  rnti ← rd_u16
  handle ← rd_u32
  bwp_start ← rd_u32
  bwp_stop ← rd_u32
  scs ← rd_u8
  cp ← rd_u8
  target_code_rate ← rd_u16
  qam ← rd_u8
  mcs ← rd_u8
  mcs_table ← rd_u8
  transform_precoding ← rd_u8
  nid_pusch ← rd_u16
  num_layers ← rd_u8
  ul_dmrs_symb_pos ← rd_u16
  dmrs_type ← rd_u8
  dmrs_scram_id ← rd_u16
  dmrs_scram_id_compl ← rd_u16
  low_papr ← rd_u8
  dmrs_identity ← rd_u16
  nscid ← rd_u8
  num_cdm_no_data ← rd_u8
  dmrs_ports ← rd_u16
  resource_alloc ← rd_u8
  rb_bitmap ← rd_bytes 36
  vrb_start ← rd_u32
  vrb_stop ← rd_u32
  vrb_to_prb ← rd_u8
  intra_hop ← rd_u8
  tx_dc ← rd_u16
  ufs_7p5 ← rd_u8
  sym_start ← rd_u8
  sym_stop ← rd_u8
  rv_index ← rd_u8
  harq_id ← rd_u8
  new_data ← rd_u8
  tb_size ← rd_u32
  num_cb ← rd_u16
  rd_skip_sv_u8
  harq_ack_bits ← rd_u16
  csi1_bits ← rd_u16
  csi2_flags ← rd_u16
  alpha ← rd_u8
  beta_harq ← rd_u8
  beta_csi1 ← rd_u8
  beta_csi2 ← rd_u8
  nof_ports ← rd_u16
  rd_times nof_ports walk_ptrs_port
  rd_u8
  rd_u8
  rd_u8
  dfts_grp ← rd_u8
  dfts_seq ← rd_u16
  dfts_sample_den ← rd_u8
  dfts_time_den ← rd_u8
  rd_u8
  rd_u16
  rd_u16
  group_seq_hop ← rd_u8
  rd_u16
  ldpc_base_graph ← rd_u8
  tb_size_lbrm ← rd_u32
  rd_u8
  rd_u32
  rd_u8
  rd_u8
  rd_skip 64
  walk_uci_corr
  has_ctx ← rd_u8
  walk_context has_ctx
  return (record {
    pdu_bitmap = pdu_bitmap;
    rnti = rnti;
    handle = handle;
    bwp_start = bwp_start;
    bwp_stop = bwp_stop;
    scs = scs;
    cp = cp;
    target_code_rate = target_code_rate;
    qam = qam;
    mcs = mcs;
    mcs_table = mcs_table;
    transform_precoding = transform_precoding;
    nid_pusch = nid_pusch;
    num_layers = num_layers;
    ul_dmrs_symb_pos = ul_dmrs_symb_pos;
    dmrs_type = dmrs_type;
    dmrs_scram_id = dmrs_scram_id;
    dmrs_scram_id_compl = dmrs_scram_id_compl;
    low_papr = low_papr;
    dmrs_identity = dmrs_identity;
    nscid = nscid;
    num_cdm_no_data = num_cdm_no_data;
    dmrs_ports = dmrs_ports;
    resource_alloc = resource_alloc;
    rb_bitmap = rb_bitmap;
    vrb_start = vrb_start;
    vrb_stop = vrb_stop;
    vrb_to_prb = vrb_to_prb;
    intra_hop = intra_hop;
    tx_dc = tx_dc;
    ufs_7p5 = ufs_7p5;
    sym_start = sym_start;
    sym_stop = sym_stop;
    rv_index = rv_index;
    harq_id = harq_id;
    new_data = new_data;
    tb_size = tb_size;
    num_cb = num_cb;
    harq_ack_bits = harq_ack_bits;
    csi1_bits = csi1_bits;
    csi2_flags = csi2_flags;
    alpha = alpha;
    beta_harq = beta_harq;
    beta_csi1 = beta_csi1;
    beta_csi2 = beta_csi2;
    dfts_grp = dfts_grp;
    dfts_seq = dfts_seq;
    dfts_sample_den = dfts_sample_den;
    dfts_time_den = dfts_time_den;
    group_seq_hop = group_seq_hop;
    ldpc_base_graph = ldpc_base_graph;
    tb_size_lbrm = tb_size_lbrm;
  })
