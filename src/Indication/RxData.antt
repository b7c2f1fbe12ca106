-- ===== src/Indication/RxData.antt =====
-- L1_to_L2/P7/rx_data_indication.c: nFAPI RX_DATA.indication to OCUDU RX_DATA_INDICATION.
pub mod Spec
pub mod Laws
use x_fapi.Prelude.{ℕ, ◌+◌, ◌%◌, ◌^◌, Bool, true, ◌||◌, List, [], Option, none, some, ℤ}
use x_fapi.Prelude.{ltb, if◌then◌else◌}
use x_fapi.Wire.Bytes.{bytes_at}
use x_fapi.Wire.Cursor.{Cursor, Rd, return, ◌>>=◌, advance, be_u8, be_u16, be_u32}
use x_fapi.Wire.Writer.{Writer, wr_u8, wr_u16, wr_u32, wr_bytes, write_none, ◌⨾◌}
use x_fapi.Indication.Relay.{Delivery, dropped, mu_of, read_write, relay, body_cursor}

-- OCUDU_RXDATA_MAX_TB_BYTES
abbrev pub max_tb_bytes : ℕ
max_tb_bytes = 32768

pub record RxPdu : Type 0 where
  pub handle : ℕ
  pub rnti : ℕ
  pub harq_id : ℕ
  pub pdu_len : ℕ
  pub tb : List ℕ

-- `if (r.err) break;`, the overrun and size check, and the step over the transport block. The sum of
-- the check is taken in 64 bits.
unfoldable pub take_tb : ℕ → Rd (List ℕ)
take_tb n r =
    if r.error
    then ([], r)
    else if ltb r.len (r.off + n) || ltb max_tb_bytes n
    then ([], record r { error = true })
    else (bytes_at r.buf r.off n, advance r n)

unfoldable pub read_rx : Rd RxPdu
unfolding ◌>>=◌
read_rx = do
  handle ← be_u32
  rnti ← be_u16
  harq_id ← be_u8
  pdu_len ← be_u32
  ul_cqi ← be_u8
  ta ← be_u16
  rssi ← be_u16
  tb ← take_tb pdu_len
  return (record { handle = handle; rnti = rnti; harq_id = harq_id; pdu_len = pdu_len; tb = tb })

unfoldable pub write_rx : RxPdu → Writer → Writer
unfolding ◌⨾◌
write_rx x =
    wr_u32 x.handle
    ⨾ wr_u16 x.rnti
    ⨾ wr_u8 x.harq_id
    ⨾ wr_u32 x.pdu_len
    ⨾ (if ltb 0 x.pdu_len then wr_bytes x.tb x.pdu_len else write_none)

-- The body is allocated: none for a failed `malloc`, else what the `64u + len` bytes held.
unfoldable pub rx_data_indication : ℕ → Option ℤ → Option (List ℕ) → Option (List ℕ) → ℕ → Delivery
rx_data_indication header numerology scratch none len = dropped
rx_data_indication header numerology none (some msg) len = dropped
rx_data_indication header numerology (some scratch) (some msg) len =
    if ltb len (header + 6)
    then dropped
    else relay be_u16 (read_write read_rx write_rx) 0x85 (mu_of numerology) scratch
        ((64 + len) % 2 ^ 32) (body_cursor header msg len)
