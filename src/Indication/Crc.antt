-- ===== src/Indication/Crc.antt =====
-- L1_to_L2/P7/crc_indication.c: nFAPI CRC.indication to OCUDU CRC_INDICATION.
pub mod Spec
pub mod Laws
use x_fapi.Prelude.{ℕ, ◌+◌, ◌/◌, ◌%◌, ◌^◌, Bool, true, List, Option, none, some, ℤ}
use x_fapi.Prelude.{ltb, ◌==◌, if◌then◌else◌}
use x_fapi.Wire.Cursor.{Cursor, Rd, return, ◌>>=◌, ◌>>◌, advance, be_u8, be_u16, be_u32}
use x_fapi.Wire.Writer.{Writer, wr_u8, wr_u16, wr_u32, ◌⨾◌}
use x_fapi.Indication.Relay.{Delivery, dropped, mu_of, read_write, relay, body_cursor}
use x_fapi.Indication.Sinr.{cqi_to_ul_sinr_metric, as_u16}

pub record Crc : Type 0 where
  pub handle : ℕ
  pub rnti : ℕ
  pub harq_id : ℕ
  pub crc_status : ℕ
  pub ul_cqi : ℕ
  pub rssi : ℕ

-- OAI packs `num_cb / 8 + 1` bytes of code-block CRCs, which are stepped over.
unfoldable pub skip_cb : ℕ → Rd (Unit {0})
skip_cb num_cb r =
    if num_cb == 0
    then (tt, r)
    else if ltb r.len ((r.off + (num_cb / 8 + 1)) % 2 ^ 32)
    then (tt, record r { error = true })
    else (tt, advance r (num_cb / 8 + 1))

unfoldable pub skip_cbs : Rd (Unit {0})
unfolding ◌>>=◌ skip_cb
skip_cbs = do num_cb ← be_u16; skip_cb num_cb

unfoldable pub read_crc : Rd Crc
unfolding ◌>>=◌ ◌>>◌
read_crc = do
  handle ← be_u32
  rnti ← be_u16
  harq_id ← be_u8
  crc_status ← be_u8
  skip_cbs
  ul_cqi ← be_u8
  ta ← be_u16
  rssi ← be_u16
  return (record {
    handle = handle;
    rnti = rnti;
    harq_id = harq_id;
    crc_status = crc_status;
    ul_cqi = ul_cqi;
    rssi = rssi;
  })

-- `crc_status == 0` is a pass. There is no timing advance, and 0xFFFF is an invalid RSRP.
unfoldable pub write_crc : Crc → Writer → Writer
unfolding ◌⨾◌
write_crc c =
    wr_u32 c.handle
    ⨾ wr_u16 c.rnti
    ⨾ wr_u8 c.harq_id
    ⨾ wr_u8 (if c.crc_status == 0 then 1 else 0)
    ⨾ wr_u16 (as_u16 (cqi_to_ul_sinr_metric c.ul_cqi))
    ⨾ wr_u8 0
    ⨾ wr_u16 c.rssi
    ⨾ wr_u16 0xFFFF

-- `header` is NFAPI_NR_P7_HEADER_LENGTH, and `scratch` the 4096 bytes of the local `body`.
unfoldable pub crc_indication : ℕ → Option ℤ → List ℕ → Option (List ℕ) → ℕ → Delivery
crc_indication header numerology scratch none len = dropped
crc_indication header numerology scratch (some msg) len =
    if ltb len (header + 6)
    then dropped
    else relay be_u16 (read_write read_crc write_crc) 0x86 (mu_of numerology) scratch 4096
        (body_cursor header msg len)
