-- ===== src/Indication/Crc/Laws.antt =====
-- What the CRC translation delivers: for every message, in terms of its parse.
use x_fapi.Prelude.{ℕ, ◌+◌, ◌%◌, ◌^◌, ◌≤◌, ◌<◌, ◌≡◌, refl}
use x_fapi.Prelude.{Option, some, List, ltb, if◌then◌else◌, ℤ, arith}
use x_fapi.Prelude.{length}
use x_fapi.Wire.Bytes.{be}
use x_fapi.Wire.Cursor.{Cursor}
use x_fapi.Wire.Cursor.Parser as P
use x_fapi.Wire.Cursor.Laws.{IsLive, view}
use x_fapi.Wire.Cursor.Faithful.{Faithful, Agrees, bind, then_do, ret, grab_bind, takes}
use x_fapi.Wire.Cursor.Reads.{be_u8_lem, be_u16_lem, be_u32_lem, be_u16-Grabs}
use x_fapi.Wire.Writer.Emits.{Emits, seq}
use x_fapi.Wire.Writer.Writes.{wr_u8_lem, wr_u16_lem, wr_u32_lem}
use x_fapi.Indication.Relay.{dropped, mu_of, read_write, body_cursor}
use x_fapi.Indication.Relay.Spec.{relayed}
use x_fapi.Indication.Relay.Laws.{read_write_lem, framed_lem}
use x_fapi.Indication.Crc.{Crc, skip_cb, skip_cbs, read_crc, write_crc, crc_indication}
use x_fapi.Indication.Crc.Spec.{cb_len, cbs, crc_pdu, crc_bytes}

skip_cb-Agrees :
    (n : ℕ)
    → n < 2 ^ 16
    → (r : Cursor) → IsLive r
    → Agrees r (skip_cb n r) (P.skip (cb_len n) (view r))
unfolding skip_cb
skip_cb-Agrees n small =
    takes (cb_len n) (λ bs. tt) tt (λ r v h. ground arith) (λ r v h. ground arith)

skip_cbs_lem : Faithful skip_cbs cbs
unfolding skip_cbs cbs
skip_cbs_lem =
    grab_bind skip_cb (λ n. P.skip (cb_len n)) (λ n. n < 2 ^ 16) be_u16-Grabs
      (unfold skip_cb in λ r e. refl) (λ bs. omega arith) skip_cb-Agrees

read_crc_lem : Faithful read_crc crc_pdu
unfolding read_crc crc_pdu
read_crc_lem = bind be_u32_lem λ handle. bind be_u16_lem λ rnti. bind be_u8_lem λ harq_id.
    bind be_u8_lem λ crc_status.
      then_do skip_cbs_lem
        (bind be_u8_lem λ ul_cqi. bind be_u16_lem λ ta. bind be_u16_lem λ rssi. ret _)

write_crc_lem : (c : Crc) → Emits (write_crc c) (crc_bytes c)
unfolding write_crc
write_crc_lem c = seq (wr_u32_lem c.handle) (
    seq (wr_u16_lem c.rnti) (
      seq (wr_u8_lem c.harq_id) (
        seq (wr_u8_lem _)
          (seq (wr_u16_lem _) (seq (wr_u8_lem 0) (seq (wr_u16_lem c.rssi) (wr_u16_lem 0xFFFF)))))))

-- A CRC.indication is delivered if and only if all its CRCs parse inside the body, code-block
-- bytes included, and the translation fits 4096 bytes, and what is delivered, with type 0x86, is
-- the OCUDU head and the 15 bytes of each CRC in order, for a body buffer of 4096 bytes and a
-- message length that is at most the bytes there are and below 2^31. A message shorter than the
-- header and 6 bytes is dropped.
pub crc_indication_lem :
    (header : ℕ) (numerology : Option ℤ) (scratch msg : List ℕ) (len : ℕ)
    → length scratch ≡ 4096
    → len ≤ length msg
    → len < 2 ^ 31
    → crc_indication header numerology scratch (some msg) len ≡ (
        if ltb len (header + 6)
        then dropped
        else relayed P.be_u16 crc_pdu crc_bytes 0x86
            (mu_of numerology)
            4096
            (view (body_cursor header msg len)))
unfolding crc_indication
crc_indication_lem header numerology scratch msg len room =
    framed_lem 2 (λ bs. be 0 bs % 2 ^ 16) (read_write read_crc write_crc) crc_pdu be_u16_lem
      (read_write_lem write_crc read_crc_lem) write_crc_lem 0x86 (mu_of numerology) 4096 scratch
      room (omega arith) header msg len
