-- ===== src/Request/Ul/Pusch/Spec.antt =====
-- The layout of the PUSCH part of an uplink PDU, and that the walker reads just that.
use x_fapi.Wire.Cursor.Parser as P
use x_fapi.Wire.Cursor.Parser.{Parser, ◌>>=◌, ◌>>◌, pure}
use x_fapi.Wire.Cursor.Faithful.{Faithful, bind, then_do, ret}
use x_fapi.Wire.Cursor.Reads.{
  rd_u8_lem, rd_u16_lem, rd_u32_lem, rd_u64_lem, rd_bytes_lem, rd_skip_lem,
}
use x_fapi.Request.Ul.Corr.Spec.{rounds, sv_u8, uci_corr, ptrs_port, context}
use x_fapi.Request.Ul.Corr.Laws.{
  rd_times_lem, rd_skip_sv_u8_lem, walk_uci_corr_lem, walk_ptrs_port_lem, walk_context_lem,
}
use x_fapi.Request.Ul.Pusch.{CapPusch, walk_pusch}

unfoldable pub pusch_pdu : Parser CapPusch
unfolding ◌>>=◌ ◌>>◌
pusch_pdu = do
  pdu_bitmap ← P.le_uint 8
  rnti ← P.le_uint 2
  handle ← P.le_uint 4
  bwp_start ← P.le_uint 4
  bwp_stop ← P.le_uint 4
  scs ← P.byte
  cp ← P.byte
  target_code_rate ← P.le_uint 2
  qam ← P.byte
  mcs ← P.byte
  mcs_table ← P.byte
  transform_precoding ← P.byte
  nid_pusch ← P.le_uint 2
  num_layers ← P.byte
  ul_dmrs_symb_pos ← P.le_uint 2
  dmrs_type ← P.byte
  dmrs_scram_id ← P.le_uint 2
  dmrs_scram_id_compl ← P.le_uint 2
  low_papr ← P.byte
  dmrs_identity ← P.le_uint 2
  nscid ← P.byte
  num_cdm_no_data ← P.byte
  dmrs_ports ← P.le_uint 2
  resource_alloc ← P.byte
  rb_bitmap ← P.bytes 36
  vrb_start ← P.le_uint 4
  vrb_stop ← P.le_uint 4
  vrb_to_prb ← P.byte
  intra_hop ← P.byte
  tx_dc ← P.le_uint 2
  ufs_7p5 ← P.byte
  sym_start ← P.byte
  sym_stop ← P.byte
  rv_index ← P.byte
  harq_id ← P.byte
  new_data ← P.byte
  tb_size ← P.le_uint 4
  num_cb ← P.le_uint 2
  sv_u8
  harq_ack_bits ← P.le_uint 2
  csi1_bits ← P.le_uint 2
  csi2_flags ← P.le_uint 2
  alpha ← P.byte
  beta_harq ← P.byte
  beta_csi1 ← P.byte
  beta_csi2 ← P.byte
  nof_ports ← P.le_uint 2
  rounds nof_ports ptrs_port
  P.byte
  P.byte
  P.byte
  dfts_grp ← P.byte
  dfts_seq ← P.le_uint 2
  dfts_sample_den ← P.byte
  dfts_time_den ← P.byte
  P.byte
  P.le_uint 2
  P.le_uint 2
  group_seq_hop ← P.byte
  P.le_uint 2
  ldpc_base_graph ← P.byte
  tb_size_lbrm ← P.le_uint 4
  P.byte
  P.le_uint 4
  P.byte
  P.byte
  P.skip 64
  uci_corr
  has_ctx ← P.byte
  context has_ctx
  pure (record {
    pdu_bitmap = pdu_bitmap;
    rnti = rnti;
    handle = handle;
    bwp_start = bwp_start;
    bwp_stop = bwp_stop;
    scs = scs;
    cp = cp;
    target_code_rate = target_code_rate;
    qam = qam;
    mcs = mcs;
    mcs_table = mcs_table;
    transform_precoding = transform_precoding;
    nid_pusch = nid_pusch;
    num_layers = num_layers;
    ul_dmrs_symb_pos = ul_dmrs_symb_pos;
    dmrs_type = dmrs_type;
    dmrs_scram_id = dmrs_scram_id;
    dmrs_scram_id_compl = dmrs_scram_id_compl;
    low_papr = low_papr;
    dmrs_identity = dmrs_identity;
    nscid = nscid;
    num_cdm_no_data = num_cdm_no_data;
    dmrs_ports = dmrs_ports;
    resource_alloc = resource_alloc;
    rb_bitmap = rb_bitmap;
    vrb_start = vrb_start;
    vrb_stop = vrb_stop;
    vrb_to_prb = vrb_to_prb;
    intra_hop = intra_hop;
    tx_dc = tx_dc;
    ufs_7p5 = ufs_7p5;
    sym_start = sym_start;
    sym_stop = sym_stop;
    rv_index = rv_index;
    harq_id = harq_id;
    new_data = new_data;
    tb_size = tb_size;
    num_cb = num_cb;
    harq_ack_bits = harq_ack_bits;
    csi1_bits = csi1_bits;
    csi2_flags = csi2_flags;
    alpha = alpha;
    beta_harq = beta_harq;
    beta_csi1 = beta_csi1;
    beta_csi2 = beta_csi2;
    dfts_grp = dfts_grp;
    dfts_seq = dfts_seq;
    dfts_sample_den = dfts_sample_den;
    dfts_time_den = dfts_time_den;
    group_seq_hop = group_seq_hop;
    ldpc_base_graph = ldpc_base_graph;
    tb_size_lbrm = tb_size_lbrm;
  })

pub walk_pusch_lem : Faithful walk_pusch pusch_pdu
unfolding walk_pusch pusch_pdu
walk_pusch_lem = bind rd_u64_lem λ pdu_bitmap. bind rd_u16_lem λ rnti. bind rd_u32_lem λ handle.
    bind rd_u32_lem λ bwp_start. bind rd_u32_lem λ bwp_stop. bind rd_u8_lem λ scs.
      bind rd_u8_lem λ cp. bind rd_u16_lem λ target_code_rate. bind rd_u8_lem λ qam.
        bind rd_u8_lem λ mcs. bind rd_u8_lem λ mcs_table. bind rd_u8_lem λ transform_precoding.
          bind rd_u16_lem λ nid_pusch. bind rd_u8_lem λ num_layers.
            bind rd_u16_lem λ ul_dmrs_symb_pos. bind rd_u8_lem λ dmrs_type.
              bind rd_u16_lem λ dmrs_scram_id. bind rd_u16_lem λ dmrs_scram_id_compl.
                bind rd_u8_lem λ low_papr. bind rd_u16_lem λ dmrs_identity. bind rd_u8_lem λ nscid.
                  bind rd_u8_lem λ num_cdm_no_data. bind rd_u16_lem λ dmrs_ports.
                    bind rd_u8_lem λ resource_alloc. bind (rd_bytes_lem 36) λ rb_bitmap.
                      bind rd_u32_lem λ vrb_start. bind rd_u32_lem λ vrb_stop.
                        bind rd_u8_lem λ vrb_to_prb. bind rd_u8_lem λ intra_hop.
                          bind rd_u16_lem λ tx_dc. bind rd_u8_lem λ ufs_7p5.
                            bind rd_u8_lem λ sym_start. bind rd_u8_lem λ sym_stop.
                              bind rd_u8_lem λ rv_index. bind rd_u8_lem λ harq_id.
                                bind rd_u8_lem λ new_data. bind rd_u32_lem λ tb_size.
                                  bind rd_u16_lem λ num_cb. then_do rd_skip_sv_u8_lem (
                                    bind rd_u16_lem λ harq_ack_bits. bind rd_u16_lem λ csi1_bits.
                                      bind rd_u16_lem λ csi2_flags. bind rd_u8_lem λ alpha.
                                        bind rd_u8_lem λ beta_harq. bind rd_u8_lem λ beta_csi1.
                                          bind rd_u8_lem λ beta_csi2. bind rd_u16_lem λ nof_ports.
                                            then_do (rd_times_lem nof_ports walk_ptrs_port_lem) (
                                              then_do rd_u8_lem (
                                                then_do rd_u8_lem (
                                                  then_do rd_u8_lem (
                                                    bind rd_u8_lem λ dfts_grp.
                                                      bind rd_u16_lem λ dfts_seq.
                                                        bind rd_u8_lem λ dfts_sample_den.
                                                          bind rd_u8_lem λ dfts_time_den.
                                                            then_do rd_u8_lem (
                                                            then_do rd_u16_lem (
                                                            then_do rd_u16_lem (
                                                            bind rd_u8_lem λ group_seq_hop.
                                                            then_do rd_u16_lem (
                                                            bind rd_u8_lem λ ldpc_base_graph.
                                                            bind rd_u32_lem λ tb_size_lbrm.
                                                            then_do rd_u8_lem (
                                                            then_do rd_u32_lem (
                                                            then_do rd_u8_lem (
                                                            then_do rd_u8_lem (
                                                            then_do (rd_skip_lem 64) (
                                                            then_do walk_uci_corr_lem (
                                                            bind rd_u8_lem λ has_ctx.
                                                            then_do (walk_context_lem has_ctx)
                                                            (ret _))))))))))))))))
