-- ===== src/Indication/RxData/Laws.antt =====
-- What the RX_DATA translation delivers: for every message, in terms of its parse.
use x_fapi.Prelude.{ℕ, ◌+◌, ◌%◌, ◌^◌, ◌≤◌, ◌<◌, ◌≡◌, refl, Bool, true, false}
use x_fapi.Prelude.{Option, some, List, ltb, if◌then◌else◌, ℤ, arith, length}
use x_fapi.Wire.Bytes.{be}
use x_fapi.Wire.Cursor.{Cursor}
use x_fapi.Wire.Cursor.Parser as P
use x_fapi.Wire.Cursor.Laws.{IsLive, view}
use x_fapi.Wire.Cursor.Faithful.{Faithful, Agrees, Within-refl, bind, ret, takes}
use x_fapi.Wire.Cursor.Reads.{be_u8_lem, be_u16_lem, be_u32_lem}
use x_fapi.Wire.Writer.Emits.{Emits, Emits-none, seq, choose}
use x_fapi.Wire.Writer.Writes.{wr_u8_lem, wr_u16_lem, wr_u32_lem, wr_bytes_lem}
use x_fapi.Indication.Relay.{dropped, mu_of, read_write, body_cursor}
use x_fapi.Indication.Relay.Spec.{relayed}
use x_fapi.Indication.Relay.Laws.{read_write_lem, framed_lem}
use x_fapi.Indication.RxData.{RxPdu, max_tb_bytes, take_tb, read_rx, write_rx, rx_data_indication}
use x_fapi.Indication.RxData.Spec.{block, rx_pdu, rx_bytes}

take_tb-Agrees :
    (n : ℕ) (b : Bool)
    → ltb max_tb_bytes n ≡ b
    → (r : Cursor) → IsLive r
    → Agrees r (take_tb n r) ((if b then P.fail else P.bytes n) (view r))
unfolding take_tb
take_tb-Agrees n true e r v = ground (arith, Within-refl {b = true} v)
take_tb-Agrees n false e r v =
    takes {m = take_tb n} n (λ bs. bs) List.[] (λ r v h. ground arith) (λ r v h. ground arith) r v

take_tb_lem : (n : ℕ) → Faithful (take_tb n) (block n)
take_tb_lem n = record {
  sticky = unfold take_tb in λ r e. ground arith;
  agrees = take_tb-Agrees n (ltb max_tb_bytes n) refl;
}

read_rx_lem : Faithful read_rx rx_pdu
unfolding read_rx rx_pdu
read_rx_lem = bind be_u32_lem λ handle. bind be_u16_lem λ rnti. bind be_u8_lem λ harq_id.
    bind be_u32_lem λ pdu_len.
      bind be_u8_lem λ ul_cqi.
        bind be_u16_lem λ ta. bind be_u16_lem λ rssi. bind (take_tb_lem pdu_len) λ tb. ret _

write_rx_lem : (x : RxPdu) → Emits (write_rx x) (rx_bytes x)
unfolding write_rx
write_rx_lem x = seq (wr_u32_lem x.handle) (
    seq (wr_u16_lem x.rnti) (
      seq (wr_u8_lem x.harq_id) (
        seq (wr_u32_lem x.pdu_len)
          (choose (ltb 0 x.pdu_len) (wr_bytes_lem x.tb x.pdu_len) Emits-none))))

-- An RX_DATA.indication is delivered if and only if all its PDUs parse inside the body, with
-- transport blocks of at most 32768 bytes, and the translation fits the allocated 64 + len bytes,
-- and what is delivered, with type 0x85, is the OCUDU head and each PDU with its block unchanged,
-- for an allocated buffer of 64 + len bytes and a message length len that is at most the bytes
-- there are and below 2^31. A message shorter than the header and 6 bytes is dropped.
pub rx_data_indication_lem :
    (header : ℕ) (numerology : Option ℤ) (scratch msg : List ℕ) (len : ℕ)
    → length scratch ≡ 64 + len
    → len ≤ length msg
    → len < 2 ^ 31
    → rx_data_indication header numerology (some scratch) (some msg) len ≡ (
        if ltb len (header + 6)
        then dropped
        else relayed P.be_u16 rx_pdu rx_bytes 0x85
            (mu_of numerology)
            (64 + len)
            (view (body_cursor header msg len)))
unfolding rx_data_indication
rx_data_indication_lem header numerology scratch msg len room backed short =
    let fits : (64 + len) % 2 ^ 32 ≡ 64 + len = omega arith in
    rw fits (
      framed_lem 2 (λ bs. be 0 bs % 2 ^ 16) (read_write read_rx write_rx) rx_pdu be_u16_lem
        (read_write_lem write_rx read_rx_lem) write_rx_lem 0x85 (mu_of numerology) (64 + len)
        scratch room (omega arith) header msg len backed short)
