-- ===== src/Indication/Uci/Laws/Reads.antt =====
-- The reads of a UCI PDU against their parsers.
use x_fapi.Prelude.{ℕ, ◌+◌, ◌/◌, ◌^◌, ◌<◌, Bool, [], arith}
use x_fapi.Wire.Cursor.{Rd, be_bytes, return, ◌>>=◌}
use x_fapi.Wire.Cursor.Parser as P
use x_fapi.Wire.Cursor.Parser.{Parser}
use x_fapi.Wire.Cursor.Faithful.{Faithful, bind, ret, branch, grab_bind}
use x_fapi.Wire.Cursor.Reads.{
  rd_list_lem, be_u8_lem, be_u16_lem, be_u32_lem, be_bytes_lem, be_u16-Grabs,
}
use x_fapi.Indication.Uci.{
  has_bit, Bits, read_pucch, read_sr, read_harq, read_short, read_payload, read_report,
}
use x_fapi.Indication.Uci.Spec.{pucch, sr_part, harq_part, short_pdu, bits, report}

pub read_pucch_lem : Faithful read_pucch pucch
unfolding read_pucch pucch
read_pucch_lem = bind be_u8_lem λ bitmap. bind be_u32_lem λ handle. bind be_u16_lem λ rnti.
    bind be_u8_lem
      λ pucch_fmt. bind be_u8_lem λ ul_cqi. bind be_u16_lem λ ta. bind be_u16_lem λ rssi. ret _

read_sr_lem : (present : Bool) → Faithful (read_sr present) (sr_part present)
unfolding read_sr
read_sr_lem present =
    branch present (bind be_u8_lem λ sr_ind. bind be_u8_lem λ conf. ret sr_ind) (ret 0)

read_harq_lem : (present : Bool) → Faithful (read_harq present) (harq_part present)
unfolding read_harq
read_harq_lem present =
    branch present (bind be_u8_lem λ n. bind be_u8_lem λ conf. rd_list_lem n be_u8_lem) (ret [])

pub read_short_lem : Faithful read_short short_pdu
unfolding read_short short_pdu
read_short_lem = bind read_pucch_lem λ u. bind (read_sr_lem (has_bit u.bitmap 0)) λ sr_ind.
    bind (read_harq_lem (has_bit u.bitmap 1))
      λ harq. ret (record { pucch = u; sr_ind = sr_ind; harq = harq })

with_payload : ℕ → Rd Bits
with_payload bit_len = be_bytes ((bit_len + 7) / 8) >>= λ payload.
    return (record { bit_len = bit_len; payload = payload })

pub read_payload_lem : Faithful read_payload bits
unfolding read_payload bits with_payload
read_payload_lem =
    grab_bind with_payload
      (λ bit_len.
        P.◌>>=◌ (P.bytes ((bit_len + 7) / 8))
          (λ payload. P.pure (record { bit_len = bit_len; payload = payload })))
      (λ n. n < 2 ^ 16) be_u16-Grabs ((be_bytes_lem 0 (omega arith)).sticky) (λ bs. omega arith)
      (λ n small r v. (bind (be_bytes_lem ((n + 7) / 8) (omega arith)) λ payload. ret _).agrees r v)

pub read_report_lem : Faithful read_report report
unfolding read_report report
read_report_lem = bind be_u8_lem λ crc. bind read_payload_lem λ b. ret _
