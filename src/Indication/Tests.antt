-- ===== src/Indication/Tests.antt =====
-- Runs of the uplink translators on small messages, behind a header of two bytes.
use x_fapi.Prelude.{
  ℤ, Option, ℕ, ◌≡◌, List, [], ◌∷◌, none, some, pos, negsuc, arith, replicate, length-replicate,
  true, false,
}
use x_fapi.Prelude.{◌≢◌, ◌+◌, ◌*◌, ◌%◌, ◌^◌}
use x_fapi.Wire.Bytes.{be, le_bytes}
use x_fapi.Wire.Cursor.Parser as P
use x_fapi.Wire.Header.{hdr_parse}
use x_fapi.Indication.Relay.{put, mu_of, slot_count}
use x_fapi.Indication.Relay.Spec.{relayed, parse_head}
use x_fapi.Indication.Sinr.{cqi_to_ul_sinr_metric, as_u16, metric_exact}
use x_fapi.Indication.Crc.{crc_indication}
use x_fapi.Indication.Crc.Spec.{cbs, crc_pdu}
use x_fapi.Indication.Crc.Laws.{crc_indication_lem}
use x_fapi.Indication.RxData.{rx_data_indication}
use x_fapi.Indication.RxData.Spec.{rx_pdu}
use x_fapi.Indication.RxData.Laws.{rx_data_indication_lem}
use x_fapi.Indication.Rach.{rach_indication, ta_tc}
use x_fapi.Indication.Rach.Spec.{rach_head, preamble, rach_pdu}
use x_fapi.Indication.Rach.Laws.{rach_indication_lem}
use x_fapi.Indication.Uci.{uci_indication, harq_val, crc_to_detection_status}
use x_fapi.Indication.Uci.Bitset.{chunk_at, chunk_bytes}
use x_fapi.Indication.Uci.Spec.{pucch, short_pdu, bits, report, uci_pdu}
use x_fapi.Indication.Uci.Laws.{uci_indication_lem}
use x_fapi.Indication.Slot.{slot_indication, slot_indication_lem}
use x_fapi.Indication.Xsm.{
  l2_xsm_put, one_owner, filled, Owner, of_library, handed_back, owner_of, put_ends, XsmAnswers,
}
use x_fapi.Indication.Dispatch.Laws.{hdr_parse-filled}

abbrev scratch : List ℕ
scratch = replicate 4096 7

-- SFN 1, slot 2, one CRC with nine code blocks and quality 130.
abbrev crc_message : List ℕ
crc_message =
    9 ∷ 9 ∷ 0 ∷ 1 ∷ 0 ∷ 2 ∷ 0 ∷ 1 ∷ 0 ∷ 0 ∷ 0 ∷ 5 ∷ 0x12 ∷ 0x34 ∷ 3 ∷ 0 ∷ 0 ∷ 9 ∷ 0xAA ∷ 0xBB ∷ 130
    ∷ 0 ∷ 0 ∷ 1 ∷ 2 ∷ []

crc_indication_lem_example :
    crc_indication 2 (some (pos 1)) scratch (some crc_message) 25
    ≡ put 0x86 (
        1 ∷ 1 ∷ 22 ∷ 0 ∷ 0 ∷ 0 ∷ 1 ∷ 0 ∷ 5 ∷ 0 ∷ 0 ∷ 0 ∷ 0x34 ∷ 0x12 ∷ 3 ∷ 1 ∷ 0xF4 ∷ 1 ∷ 0 ∷ 2 ∷ 1
        ∷ 0xFF ∷ 0xFF ∷ [])
unfolding relayed parse_head P.times P.field crc_pdu cbs P.◌>>=◌ P.◌>>◌ be le_bytes slot_count mu_of
    cqi_to_ul_sinr_metric
crc_indication_lem_example =
    crc_indication_lem 2 (some (pos 1)) scratch crc_message 25 (length-replicate {A = ℕ} 4096 7)
      (omega arith) (omega arith)

-- A block of two bytes.
abbrev rx_message : List ℕ
rx_message =
    9 ∷ 9 ∷ 0 ∷ 1 ∷ 0 ∷ 2 ∷ 0 ∷ 1 ∷ 0 ∷ 0 ∷ 0 ∷ 5 ∷ 0x12 ∷ 0x34 ∷ 3 ∷ 0 ∷ 0 ∷ 0 ∷ 2 ∷ 130 ∷ 0 ∷ 0
    ∷ 0 ∷ 0 ∷ 0xAB ∷ 0xCD ∷ []

rx_data_indication_lem_example :
    rx_data_indication 2 (some (negsuc 0)) (some (replicate 90 7)) (some rx_message) 26
    ≡ put 0x85 (
        1 ∷ 1 ∷ 22 ∷ 0 ∷ 0 ∷ 0 ∷ 1 ∷ 0 ∷ 5 ∷ 0 ∷ 0 ∷ 0 ∷ 0x34 ∷ 0x12 ∷ 3 ∷ 2 ∷ 0 ∷ 0 ∷ 0 ∷ 0xAB
        ∷ 0xCD ∷ [])
unfolding relayed parse_head P.times P.field rx_pdu P.◌>>=◌ P.◌>>◌ be le_bytes slot_count mu_of
rx_data_indication_lem_example =
    rx_data_indication_lem 2 (some (negsuc 0)) (replicate 90 7) rx_message 26
      (length-replicate {A = ℕ} 90 7) (omega arith) (omega arith)

-- One PDU with one preamble, whose timing advance is 3.
abbrev rach_message : List ℕ
rach_message =
    9 ∷ 9 ∷ 0 ∷ 1 ∷ 0 ∷ 2 ∷ 1 ∷ 0 ∷ 0 ∷ 4 ∷ 5 ∷ 6 ∷ 7 ∷ 8 ∷ 1 ∷ 11 ∷ 0 ∷ 3 ∷ 0 ∷ 0 ∷ 0 ∷ 9 ∷ []

rach_indication_lem_example :
    rach_indication 2 none scratch (some rach_message) 22
    ≡ put 0x89 (
        1 ∷ 1 ∷ 22 ∷ 0 ∷ 0 ∷ 0 ∷ 1 ∷ 0 ∷ 0 ∷ 0 ∷ 0 ∷ 0 ∷ 4 ∷ 5 ∷ 6 ∷ 7 ∷ 0 ∷ 0 ∷ 0 ∷ 8 ∷ 1 ∷ 0 ∷ 11
        ∷ 1 ∷ 0 ∷ 6 ∷ 0 ∷ 0 ∷ 0 ∷ 0 ∷ 0 ∷ 0 ∷ 9 ∷ 0 ∷ 0 ∷ 0 ∷ 8 ∷ [])
unfolding relayed parse_head P.times P.field rach_pdu rach_head preamble ta_tc P.◌>>=◌ P.◌>>◌ be
    le_bytes slot_count mu_of
rach_indication_lem_example =
    rach_indication_lem 2 none scratch rach_message 22 (length-replicate {A = ℕ} 4096 7)
      (omega arith) (omega arith)

-- A PUCCH 2/3/4 PDU with a passed HARQ report of three bits and no other part.
abbrev uci_message : List ℕ
uci_message =
    9 ∷ 9 ∷ 0 ∷ 1 ∷ 0 ∷ 2 ∷ 0 ∷ 1 ∷ 0 ∷ 2 ∷ 0 ∷ 0 ∷ 2 ∷ 0 ∷ 0 ∷ 0 ∷ 5 ∷ 0x12 ∷ 0x34 ∷ 1 ∷ 128 ∷ 0
    ∷ 0 ∷ 0 ∷ 7 ∷ 0 ∷ 0 ∷ 3 ∷ 0xFD ∷ []

uci_indication_lem_example :
    uci_indication 2 none scratch (some uci_message) 29
    ≡ put 0x87 (
        1 ∷ 1 ∷ 22 ∷ 0 ∷ 0 ∷ 0 ∷ 1 ∷ 0 ∷ 2 ∷ 5 ∷ 0 ∷ 0 ∷ 0 ∷ 0x34 ∷ 0x12 ∷ 1 ∷ 0 ∷ 0 ∷ 0 ∷ 7 ∷ 0
        ∷ 0xFF ∷ 0xFF ∷ 0 ∷ 1 ∷ 1 ∷ 3 ∷ 0 ∷ 0 ∷ 0 ∷ 3 ∷ 0 ∷ 0 ∷ 0 ∷ 5 ∷ 0 ∷ 0 ∷ 0 ∷ 0 ∷ 0 ∷ 0 ∷ 0
        ∷ 0 ∷ 0 ∷ [])
unfolding relayed parse_head P.times P.field uci_pdu pucch short_pdu bits report P.◌>>=◌ P.◌>>◌ be
    le_bytes slot_count mu_of cqi_to_ul_sinr_metric harq_val crc_to_detection_status chunk_bytes
    chunk_at
uci_indication_lem_example =
    uci_indication_lem 2 none scratch uci_message 29 (length-replicate {A = ℕ} 4096 7) (omega arith)
      (omega arith)

slot_indication_lem_example :
    slot_indication 2 (some (pos 0)) (replicate 13 7) 258 (some (9 ∷ 9 ∷ 0 ∷ 1 ∷ 0 ∷ 2 ∷ [])) 6
    ≡ put 0x82 (0 ∷ 12 ∷ 0 ∷ 0 ∷ 0 ∷ 2 ∷ 1 ∷ 0 ∷ 0 ∷ 0 ∷ 0 ∷ 0 ∷ 0 ∷ [])
unfolding le_bytes slot_count mu_of
slot_indication_lem_example =
    slot_indication_lem 2 (some (pos 0)) (replicate 13 7) 258 (9 ∷ 9 ∷ 0 ∷ 1 ∷ 0 ∷ 2 ∷ []) 6
      (length-replicate {A = ℕ} 13 7) (omega arith)

metric_exact_example :
    ((as_u16 (cqi_to_ul_sinr_metric 127) + 32000) % 2 ^ 16 ≡ 127 * 250)
    × (as_u16 (cqi_to_ul_sinr_metric 127) ≢ 0x8000)
metric_exact_example = metric_exact 127 (omega arith)

abbrev refusing : XsmAnswers
refusing = record { acquired = some 4; memory = some (replicate 48 0); accepted = false }

one_owner_example :
    ◌≡◌ {A = ℤ × Option Owner}
      (
        (l2_xsm_put true refusing 9 0x82 (1 ∷ 2 ∷ [])).0,
        owner_of refusing (l2_xsm_put true refusing 9 0x82 (1 ∷ 2 ∷ [])).1 of_library,
      )
      (negsuc 0, some (handed_back 4))
unfolding put_ends
one_owner_example = one_owner true refusing 9 0x82 (1 ∷ 2 ∷ [])

hdr_parse-filled_example :
    hdr_parse (some (filled (replicate 43 7) 0x82 (1 ∷ 2 ∷ []) 9)) 42
    ≡ some (record { msg_type = 0x82; body = 1 ∷ 2 ∷ 7 ∷ []; body_len = 2 })
hdr_parse-filled_example = hdr_parse-filled (replicate 43 7) 0x82 (1 ∷ 2 ∷ []) 9 (omega arith)
