-- ===== src/Request/Dl/Tests.antt =====
-- Runs of the downlink translators on small bodies.
use x_fapi.Prelude.{ℕ, ◌≡◌, List, [], ◌∷◌, ◌++◌, pos, arith, replicate, true}
use x_fapi.Wire.Bytes.{le}
use x_fapi.Wire.Cursor.Parser as P
use x_fapi.Request.{sent, sent_code, sfn_of, slot_of, slots_per_frame}
use x_fapi.Request.Gather.{picked}
use x_fapi.Request.Ul.Corr.Spec.{rounds}
use x_fapi.Request.Dl.{dl_tti_request, ssb_config}
use x_fapi.Request.Dl.Parts.{bitset_bytes, unpack_chunk}
use x_fapi.Request.Dl.Parts.Mapping.{map_beamforming_none}
use x_fapi.Request.Dl.Parts.Spec.{
  bitset, two_words, power, both_powers, power_nr, optional_u32, some_context, context, interleaved,
  plain, interleaving, codeword, some_pdsch_context, pdsch_context,
}
use x_fapi.Request.Dl.Ssb.Mapper.{bch_payload, map_ssb}
use x_fapi.Request.Dl.Ssb.Spec.{ssb_part, prs_part}
use x_fapi.Request.Dl.Pdcch.{Dci}
use x_fapi.Request.Dl.Pdcch.Spec.{dci_part, pdcch_part}
use x_fapi.Request.Dl.Pdcch.Mapper.{dci_payload, dci_word, word_bytes, fill_dci, fill_pdcch_rel15}
use x_fapi.Request.Dl.Pdcch.Bits.{first_bits, dci_payload_lem}
use x_fapi.Request.Dl.Pdsch.Spec.{maint_v3, pdsch_part}
use x_fapi.Request.Dl.Csi.Spec.{csi_part}
use x_fapi.Request.Dl.Spec.{
  dl_head, dl_pdu, ssb_of, pdcch_of, pdsch_of, csi_of, dl_body, dl_request,
}
use x_fapi.Request.Dl.Laws.{dl_tti_request_lem}
use x_fapi.Request.Dl.Dci.{ul_dci_request}
use x_fapi.Request.Dl.Dci.Spec.{dci_head, dci_body, dci_request}
use x_fapi.Request.Dl.Dci.Laws.{ul_dci_request_lem}

-- Slot count 25 at numerology 1 and one SSB PDU; all its other parts are zero.
abbrev dl_body_bytes : List ℕ
dl_body_bytes =
    (1 ∷ 1 ∷ 25 ∷ 0 ∷ 0 ∷ 0 ∷ [])
    ++ (replicate 12 0
        ++ ((1 ∷ 0 ∷ 3 ∷ 0 ∷ [])
            ++ (replicate 240 0
                ++ ((5 ∷ 0 ∷ 1 ∷ 2 ∷ 6 ∷ 0 ∷ 7 ∷ 0 ∷ 3 ∷ 2 ∷ 1 ∷ 0 ∷ 0 ∷ 1 ∷ 8 ∷ [])
                    ++ replicate 21 0))))

dl_tti_request_lem_example :
    dl_tti_request 4 8 3 true (λ m. pos 0) dl_body_bytes 298
    ≡ sent (pos 1) (record {
      phy_id = 3;
      sfn = 1;
      slot = 5;
      n_group = 0;
      n_pdus = 1;
      dl_tti_pdu_list =
          ssb_config (record {
            phys_cell_id = 5;
            beta_pss = 1;
            ssb_block_index = 2;
            ssb_subcarrier_offset = 6;
            ssb_offset_point_a = 7;
            bch_payload_flag = 0;
            bch_payload = 0x030201;
          })
          ∷ [];
    })
unfolding dl_head dl_pdu dl_body dl_request picked ssb_of pdcch_of pdsch_of csi_of ssb_part prs_part
    dci_part pdcch_part maint_v3 pdsch_part csi_part rounds bitset bitset_bytes two_words power
    both_powers power_nr optional_u32 some_context context interleaved plain interleaving codeword
    some_pdsch_context pdsch_context map_ssb bch_payload sfn_of slot_of slots_per_frame sent_code
    P.times P.field P.◌>>=◌ P.◌>>◌ le
dl_tti_request_lem_example =
    dl_tti_request_lem 4 8 3 true (λ m. pos 0) dl_body_bytes 298 (omega arith) (omega arith)

-- One PDCCH PDU with a DCI of the three bits 1, 1, 0.
abbrev dci_body_bytes : List ℕ
dci_body_bytes =
    (1 ∷ 1 ∷ 25 ∷ 0 ∷ 0 ∷ 0 ∷ 1 ∷ 0 ∷ [])
    ++ (replicate 22 0
        ++ ((9 ∷ 0 ∷ []) ++ (replicate 14 0 ++ ((3 ∷ 0 ∷ 0 ∷ 0 ∷ 3 ∷ []) ++ replicate 8 0))))

ul_dci_request_lem_example :
    ul_dci_request 4 2 8 3 true (λ m. pos 0) dci_body_bytes 59
    ≡ sent (pos 1) (record {
      phy_id = 3;
      sfn = 1;
      slot = 5;
      num_pdus = 1;
      ul_dci_pdu_list =
          (record {
            bwp_size = 0;
            bwp_start = 0;
            subcarrier_spacing = 0;
            cyclic_prefix = 0;
            start_symbol_index = 0;
            duration_symbols = 0;
            freq_domain_resource = replicate 6 0;
            cce_reg_mapping_type = 1;
            reg_bundle_size = 0;
            interleaver_size = 0;
            core_set_type = 0;
            shift_index = 0;
            precoder_granularity = 0;
            num_dl_dci = 1;
            dci_pdu = record {
              rnti = 9;
              scrambling_id = 0;
              scrambling_rnti = 0;
              cce_index = 0;
              aggregation_level = 1;
              precoding = map_beamforming_none;
              beta_pdcch_1_0 = 0;
              power_control_offset_ss = 0;
              payload_size_bits = 3;
              payload = 6 ∷ replicate 7 0;
            };
          })
          ∷ [];
    })
unfolding dci_head dci_body dci_request dci_part pdcch_part bitset bitset_bytes unpack_chunk
    two_words power optional_u32 some_context context interleaved plain interleaving dci_payload
    dci_word word_bytes fill_dci fill_pdcch_rel15 sfn_of slot_of slots_per_frame sent_code P.times
    P.field P.◌>>=◌ P.◌>>◌ le
ul_dci_request_lem_example =
    ul_dci_request_lem 4 2 8 3 true (λ m. pos 0) dci_body_bytes 59 (omega arith) (omega arith)

abbrev three_bits : Dci
three_bits = record {
  rnti = 9;
  nid_data = 0;
  nid_dmrs = 0;
  nrnti = 0;
  cce = 0;
  agg_enum = 0;
  prg_size = 0;
  pm_index = 0;
  power_ss = 0;
  payload = 3 ∷ replicate 7 0;
  nbits = 3;
}

dci_payload_lem_example : le (dci_payload 8 three_bits) ≡ 6
unfolding first_bits
dci_payload_lem_example = dci_payload_lem 8 three_bits (omega arith)
