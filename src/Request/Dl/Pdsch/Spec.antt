-- ===== src/Request/Dl/Pdsch/Spec.antt =====
-- The layout of the PDSCH part, and that the walker reads just that.
use x_fapi.Prelude.{take, min}
use x_fapi.Wire.Cursor.Parser as P
use x_fapi.Wire.Cursor.Parser.{Parser, ◌>>=◌, ◌>>◌, pure}
use x_fapi.Wire.Cursor.Faithful.{Faithful, bind, then_do, ret}
use x_fapi.Wire.Cursor.Reads.{
  rd_u8_lem, rd_u16_lem, rd_u32_lem, rd_u64_lem, rd_bytes_lem, rd_list_lem,
}
use x_fapi.Request.Ul.Corr.Spec.{rounds, sv_u8, sv_u16}
use x_fapi.Request.Ul.Corr.Laws.{rd_times_lem, rd_skip_sv_u8_lem, rd_skip_sv_u16_lem}
use x_fapi.Request.Dl.Parts.Spec.{power, power_nr, codeword, pdsch_context}
use x_fapi.Request.Dl.Parts.Laws.{walk_power_nr_lem, rd_codeword_lem, walk_pdsch_context_lem}
use x_fapi.Request.Dl.Pdsch.{MaintV3, CapPdsch, walk_pdsch_maint_v3, walk_pdsch}

unfoldable pub maint_v3 : Parser MaintV3
unfolding ◌>>=◌ ◌>>◌
maint_v3 = do
  P.byte
  P.le_uint 2
  P.le_uint 2
  ldpc_base_graph ← P.byte
  tb_size_lbrm ← P.le_uint 4
  P.byte
  rounds 8 (P.le_uint 2 >> pure tt)
  P.le_uint 2
  P.byte
  sv_u8
  P.byte
  P.byte
  P.le_uint 2
  P.le_uint 2
  P.byte
  sv_u8
  sv_u16
  P.byte
  sv_u8
  pure (record { ldpc_base_graph = ldpc_base_graph; tb_size_lbrm = tb_size_lbrm })

unfoldable pub pdsch_part : Parser CapPdsch
unfolding ◌>>=◌ ◌>>◌
pdsch_part = do
  pdu_bitmap ← P.le_uint 8
  rnti ← P.le_uint 2
  pdu_index ← P.le_uint 2
  bwp_start ← P.le_uint 4
  bwp_stop ← P.le_uint 4
  scs ← P.byte
  cp ← P.byte
  nof_cws ← P.le_uint 2
  cws ← P.times nof_cws codeword
  nid_pdsch ← P.le_uint 2
  num_layers ← P.byte
  tx_scheme ← P.byte
  ref_point ← P.byte
  dl_dmrs_symb_pos ← P.le_uint 2
  dmrs_scram_id ← P.le_uint 2
  dmrs_type ← P.byte
  dmrs_scram_id_compl ← P.le_uint 2
  low_papr ← P.byte
  nscid ← P.byte
  num_cdm_no_data ← P.byte
  dmrs_ports ← P.le_uint 2
  resource_alloc ← P.byte
  rb_bitmap ← P.bytes 36
  vrb_start ← P.le_uint 4
  vrb_stop ← P.le_uint 4
  vrb_to_prb ← P.byte
  sym_start ← P.byte
  sym_stop ← P.byte
  power_idx ← P.byte
  power ← power_nr power_idx
  prg_size ← P.le_uint 2
  pm_index ← P.le_uint 2
  P.byte
  P.byte
  P.le_uint 4
  P.le_uint 4
  maint ← maint_v3
  P.byte
  sv_u8
  P.byte
  sv_u8
  has_ctx ← P.byte
  pdsch_context has_ctx
  pure (record {
    pdu_bitmap = pdu_bitmap;
    rnti = rnti;
    pdu_index = pdu_index;
    bwp_start = bwp_start;
    bwp_stop = bwp_stop;
    scs = scs;
    cp = cp;
    nof_cws = min nof_cws 2;
    cws = take 2 cws;
    nid_pdsch = nid_pdsch;
    num_layers = num_layers;
    tx_scheme = tx_scheme;
    ref_point = ref_point;
    dl_dmrs_symb_pos = dl_dmrs_symb_pos;
    dmrs_scram_id = dmrs_scram_id;
    dmrs_type = dmrs_type;
    dmrs_scram_id_compl = dmrs_scram_id_compl;
    low_papr = low_papr;
    nscid = nscid;
    num_cdm_no_data = num_cdm_no_data;
    dmrs_ports = dmrs_ports;
    resource_alloc = resource_alloc;
    rb_bitmap = rb_bitmap;
    vrb_start = vrb_start;
    vrb_stop = vrb_stop;
    vrb_to_prb = vrb_to_prb;
    sym_start = sym_start;
    sym_stop = sym_stop;
    prg_size = prg_size;
    pm_index = pm_index;
    power_nr = power.power_nr;
    power_ss = power.power_ss;
    ldpc_base_graph = maint.ldpc_base_graph;
    tb_size_lbrm = maint.tb_size_lbrm;
  })

pub walk_pdsch_maint_v3_lem : Faithful walk_pdsch_maint_v3 maint_v3
unfolding walk_pdsch_maint_v3 maint_v3
walk_pdsch_maint_v3_lem = then_do rd_u8_lem (
    then_do rd_u16_lem (
      then_do rd_u16_lem (
        bind rd_u8_lem λ ldpc_base_graph. bind rd_u32_lem λ tb_size_lbrm. then_do rd_u8_lem (
          then_do (rd_times_lem 8 (then_do rd_u16_lem (ret tt))) (
            then_do rd_u16_lem (
              then_do rd_u8_lem (
                then_do rd_skip_sv_u8_lem (
                  then_do rd_u8_lem (
                    then_do rd_u8_lem (
                      then_do rd_u16_lem (
                        then_do rd_u16_lem (
                          then_do rd_u8_lem (
                            then_do rd_skip_sv_u8_lem (
                              then_do rd_skip_sv_u16_lem (
                                then_do rd_u8_lem (then_do rd_skip_sv_u8_lem (ret _)))))))))))))))))

pub walk_pdsch_lem : Faithful walk_pdsch pdsch_part
unfolding walk_pdsch pdsch_part
walk_pdsch_lem = bind rd_u64_lem λ pdu_bitmap. bind rd_u16_lem λ rnti. bind rd_u16_lem λ pdu_index.
    bind rd_u32_lem λ bwp_start. bind rd_u32_lem λ bwp_stop. bind rd_u8_lem λ scs.
      bind rd_u8_lem λ cp. bind rd_u16_lem λ nof_cws.
        bind (rd_list_lem nof_cws rd_codeword_lem) λ cws. bind rd_u16_lem λ nid_pdsch.
          bind rd_u8_lem λ num_layers. bind rd_u8_lem λ tx_scheme. bind rd_u8_lem λ ref_point.
            bind rd_u16_lem λ dl_dmrs_symb_pos. bind rd_u16_lem λ dmrs_scram_id.
              bind rd_u8_lem λ dmrs_type. bind rd_u16_lem λ dmrs_scram_id_compl.
                bind rd_u8_lem λ low_papr. bind rd_u8_lem λ nscid. bind rd_u8_lem λ num_cdm_no_data.
                  bind rd_u16_lem λ dmrs_ports. bind rd_u8_lem λ resource_alloc.
                    bind (rd_bytes_lem 36) λ rb_bitmap. bind rd_u32_lem λ vrb_start.
                      bind rd_u32_lem λ vrb_stop. bind rd_u8_lem λ vrb_to_prb.
                        bind rd_u8_lem λ sym_start. bind rd_u8_lem λ sym_stop.
                          bind rd_u8_lem λ power_idx. bind (walk_power_nr_lem power_idx) λ power.
                            bind rd_u16_lem λ prg_size. bind rd_u16_lem λ pm_index.
                              then_do rd_u8_lem (
                                then_do rd_u8_lem (
                                  then_do rd_u32_lem (
                                    then_do rd_u32_lem (
                                      bind walk_pdsch_maint_v3_lem λ maint. then_do rd_u8_lem (
                                        then_do rd_skip_sv_u8_lem (
                                          then_do rd_u8_lem (
                                            then_do rd_skip_sv_u8_lem (
                                              bind rd_u8_lem λ has_ctx.
                                                then_do (walk_pdsch_context_lem has_ctx)
                                                  (ret _)))))))))
