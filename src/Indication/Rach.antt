-- ===== src/Indication/Rach.antt =====
-- L1_to_L2/P7/rach_indication.c: nFAPI RACH.indication to OCUDU RACH_INDICATION. A PDU holds a list
-- of preambles, so the loop over PDUs has a loop inside.
pub mod Spec
pub mod Laws
use x_fapi.Prelude.{ℕ, ◌+◌, ◌*◌, ◌/◌, ◌%◌, ◌^◌, Bool, true, List, Option, none, some, ℤ}
use x_fapi.Prelude.{ltb, ◌==◌, if◌then◌else◌}
use x_fapi.Wire.Cursor.{Cursor, Rd, return, ◌>>=◌, be_u8, be_u16, be_u32}
use x_fapi.Wire.Writer.{Writer, wr_u8, wr_u16, wr_u32, wr_u64, ◌⨾◌}
use x_fapi.Indication.Relay.{
  Delivery, dropped, mu_of, Round, read_write, pdu_loop, relay, body_cursor,
}

pub record RachPdu : Type 0 where
  pub symbol_index : ℕ
  pub slot_index : ℕ
  pub freq_index : ℕ
  pub avg_rssi : ℕ
  pub avg_snr : ℕ
  pub n_pre : ℕ

pub record Preamble : Type 0 where
  pub preamble_index : ℕ
  pub ta : ℕ
  pub pwr : ℕ

unfoldable pub read_rach : Rd RachPdu
unfolding ◌>>=◌
read_rach = do
  phy_cell_id ← be_u16
  symbol_index ← be_u8
  slot_index ← be_u8
  freq_index ← be_u8
  avg_rssi ← be_u8
  avg_snr ← be_u8
  n_pre ← be_u8
  return (record {
    symbol_index = symbol_index;
    slot_index = slot_index;
    freq_index = freq_index;
    avg_rssi = avg_rssi;
    avg_snr = avg_snr;
    n_pre = n_pre;
  })

unfoldable pub read_preamble : Rd Preamble
unfolding ◌>>=◌
read_preamble = do
  preamble_index ← be_u8
  ta ← be_u16
  pwr ← be_u32
  return (record { preamble_index = preamble_index; ta = ta; pwr = pwr })

-- The timing advance in Tc: `(ta * 1024) >> mu`, and 0 for the invalid 0xffff.
unfoldable pub ta_tc : ℕ → ℕ → ℕ
ta_tc mu ta = if ta == 0xffff then 0 else ta * 1024 / 2 ^ mu

-- The handle is 0, `ra_index` is the frequency index.
unfoldable pub write_rach : RachPdu → Writer → Writer
unfolding ◌⨾◌
write_rach x =
    wr_u32 0
    ⨾ wr_u8 x.symbol_index
    ⨾ wr_u8 x.slot_index
    ⨾ wr_u8 x.freq_index
    ⨾ wr_u32 x.avg_rssi
    ⨾ wr_u8 x.avg_snr
    ⨾ wr_u16 x.n_pre

-- The timing advance is present, and the SNR is that of the PDU.
unfoldable pub write_preamble : ℕ → ℕ → Preamble → Writer → Writer
unfolding ◌⨾◌
write_preamble mu avg_snr p =
    wr_u8 p.preamble_index ⨾ wr_u8 1 ⨾ wr_u64 (ta_tc mu p.ta) ⨾ wr_u32 p.pwr ⨾ wr_u8 avg_snr

unfoldable pub rach_round : ℕ → Round
rach_round mu r w =
    let (x, r') = read_rach r in
    let preambles =
      pdu_loop x.n_pre (read_write read_preamble (write_preamble mu x.avg_snr)) r'
        (write_rach x w) in
    if r'.error then (r', w) else preambles

-- `header` is NFAPI_NR_P7_HEADER_LENGTH, and `scratch` the 4096 bytes of the local `body`.
unfoldable pub rach_indication : ℕ → Option ℤ → List ℕ → Option (List ℕ) → ℕ → Delivery
rach_indication header numerology scratch none len = dropped
rach_indication header numerology scratch (some msg) len =
    if ltb len (header + 5)
    then dropped
    else relay be_u8 (rach_round (mu_of numerology)) 0x89 (mu_of numerology) scratch 4096
        (body_cursor header msg len)
