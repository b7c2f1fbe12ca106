-- ===== src/Request/Tests.antt =====
-- Runs of the request translators on small bodies.
use x_fapi.Prelude.{ℕ, ◌≡◌, List, [], ◌∷◌, ◌++◌, pos, arith, replicate, true}
use x_fapi.Prelude.{◌⊎◌}
use x_fapi.Wire.Bytes.{le}
use x_fapi.Wire.Cursor.Parser as P
use x_fapi.Wire.Header.{hdr_build}
use x_fapi.Prelude.{some, refl}
use x_fapi.Request.Dispatch.{Handlers, p7_translate_and_send, ul_tti_routed}
use x_fapi.Request.{returned, sent, sent_code, sfn_of, slot_of, slots_per_frame}
use x_fapi.Request.Tx.{fitting, tx_data_request}
use x_fapi.Request.Gather.{picked}
use x_fapi.Request.Tx.Spec.{tx_head, tx_pdu, tx_body, tx_request}
use x_fapi.Request.Ul.{UlTti, ul_tti_request, prach_config}
use x_fapi.Request.Ul.Mapping.{ul_bf_none, derive_bg, derive_bg_valid}
use x_fapi.Request.Ul.Prach.Mapper.{map_prach}
use x_fapi.Request.Ul.Prach.Spec.{prach_pdu}
use x_fapi.Request.Ul.Pusch.Spec.{pusch_pdu}
use x_fapi.Request.Ul.Pucch.Spec.{pucch_pdu}
use x_fapi.Request.Ul.Srs.Spec.{srs_pdu}
use x_fapi.Request.Ul.Corr.Spec.{rounds, correlation, uci_corr, ptrs_port, context}
use x_fapi.Request.Ul.Spec.{
  ul_head, ul_pdu, ul_body, ul_request, prach_of, pusch_of, pucch_of, srs_of,
}
use x_fapi.Request.Ul.Laws.{ul_tti_request_lem}
use x_fapi.Request.Tx.Laws.{tx_data_request_lem}

-- Slot count 25 at numerology 1, two blocks of one and two bytes, room for one.
abbrev tx_body_bytes : List ℕ
tx_body_bytes =
    1 ∷ 1 ∷ 25 ∷ 0 ∷ 0 ∷ 0 ∷ 2 ∷ 0 ∷ 7 ∷ 0 ∷ 0 ∷ 1 ∷ 0 ∷ 0 ∷ 0 ∷ 0xAB ∷ 8 ∷ 0 ∷ 0 ∷ 2 ∷ 0 ∷ 0 ∷ 0
    ∷ 1 ∷ 2 ∷ []

tx_data_request_lem_example :
    tx_data_request 1 3 true (λ m. pos 0) tx_body_bytes 25
    ≡ sent (pos 1) (record {
      phy_id = 3;
      sfn = 1;
      slot = 5;
      number_of_pdus = 1;
      pdu_list = (record { pdu_index = 7; tb_size = 1; tb = 0xAB ∷ [] }) ∷ [];
    })
unfolding tx_head tx_pdu picked fitting tx_body tx_request sfn_of slot_of slots_per_frame sent_code
    P.times P.field P.◌>>=◌ le
tx_data_request_lem_example =
    tx_data_request_lem 1 3 true (λ m. pos 0) tx_body_bytes 25 (omega arith) (omega arith)

-- One PRACH PDU; all its other parts are zero.
abbrev ul_body_bytes : List ℕ
ul_body_bytes =
    (1 ∷ 1 ∷ 25 ∷ 0 ∷ 0 ∷ 0 ∷ [])
    ++ (replicate 14 0
        ++ ((1 ∷ 0 ∷ 0 ∷ 0 ∷ 0 ∷ 0 ∷ 1 ∷ 9 ∷ 2 ∷ 0 ∷ 13 ∷ 0 ∷ []) ++ replicate 320 0))

ul_tti_request_lem_example :
    ul_tti_request 4 3 70000 true (λ m. pos 0) ul_body_bytes 352
    ≡ sent (pos 1) (record {
      phy_id = 3;
      sfn = 1;
      slot = 5;
      n_pdus = 1;
      rach_present = 1;
      n_ulsch = 0;
      n_ulcch = 0;
      n_group = 0;
      pdus_list =
          prach_config (record {
            phys_cell_id = 4464;
            num_prach_ocas = 1;
            prach_format = 9;
            num_ra = 2;
            prach_start_symbol = 0;
            num_cs = 13;
            beamforming = ul_bf_none;
          })
          ∷ [];
    })
unfolding ul_head ul_pdu ul_body ul_request picked prach_of pusch_of pucch_of srs_of prach_pdu
    pusch_pdu pucch_pdu srs_pdu rounds correlation uci_corr ptrs_port context map_prach sfn_of
    slot_of slots_per_frame sent_code P.times P.field P.◌>>=◌ P.◌>>◌ le
ul_tti_request_lem_example =
    ul_tti_request_lem 4 3 70000 true (λ m. pos 0) ul_body_bytes 352 (omega arith) (omega arith)

derive_bg_valid_example : (derive_bg 0 100 3000 ≡ 1) ⊎ (derive_bg 0 100 3000 ≡ 2)
derive_bg_valid_example = derive_bg_valid 0 100 3000

-- The message behind a header: an UL_TTI.request with no PDU is accepted, and nothing is sent.
abbrev empty_ul : List ℕ
empty_ul = (1 ∷ 1 ∷ 25 ∷ []) ++ replicate 19 0

abbrev ul_handlers : Handlers UlTti
ul_handlers = record {
  dl_tti = λ body n. returned (pos 0);
  tx_data = λ body n. returned (pos 0);
  ul_tti = ul_tti_request 4 3 7 true (λ m. pos 0);
  ul_dci = λ body n. returned (pos 0);
}

ul_tti_routed_example :
    p7_translate_and_send ul_handlers true
      (some (hdr_build (replicate 40 9 ++ (empty_ul ++ [])) 0x81 22 5))
      62
    ≡ returned (pos 0)
unfolding ul_head ul_pdu ul_body ul_request picked prach_of pusch_of pucch_of srs_of rounds
    slots_per_frame P.times P.field P.◌>>=◌ P.◌>>◌ le
ul_tti_routed_example =
    ul_tti_routed 4 3 7 true (λ m. pos 0) ul_handlers (replicate 40 9 ++ (empty_ul ++ [])) empty_ul
      [] 5 62 refl (omega arith) (omega arith) refl
