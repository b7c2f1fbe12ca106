-- ===== src/Request/Config/Cell.antt =====
-- L2_to_L1/P5/config_request.c: the `fapi::cell_configuration` in the body of a CONFIG.request, in the order
-- of the reads. Fields that are read and dropped have no place in the records.
use x_fapi.Prelude.{ℕ, zero, suc, ◌+◌, ◌%◌, ◌^◌, List, Option, none, some, ◌==◌, ltb, if◌then◌else◌}
use x_fapi.Wire.Cursor.{
  Cursor, Rd, ◌>>=◌, ◌>>◌, return, rd_u8, rd_u16, rd_u32, rd_u64, rd_bytes, rd_skip, rd_list,
}
use x_fapi.Request.Config.Values.{TddPattern}

pub record Carrier : Type 0 where
  pub scs_common : ℕ
  pub pci : ℕ
  pub duplex : ℕ
  pub dl_bandwidth : ℕ
  pub dl_arfcn : ℕ
  pub dl_k0 : List ℕ
  pub dl_grid : List ℕ
  pub num_tx_ant : ℕ
  pub ul_bandwidth : ℕ
  pub ul_arfcn : ℕ
  pub ul_grid : List ℕ
  pub num_rx_ant : ℕ

unfoldable pub read_carrier : Rd Carrier
unfolding ◌>>=◌ ◌>>◌
read_carrier = do
  scs_common ← rd_u8
  rd_u8
  pci ← rd_u16
  duplex ← rd_u8
  dl_bandwidth ← rd_u16
  dl_arfcn ← rd_u32
  dl_k0 ← rd_list 5 rd_u16
  dl_grid ← rd_list 5 rd_u16
  num_tx_ant ← rd_u16
  ul_bandwidth ← rd_u16
  ul_arfcn ← rd_u32
  rd_list 5 rd_u16
  ul_grid ← rd_list 5 rd_u16
  num_rx_ant ← rd_u16
  rd_u8
  rd_u8
  rd_u8
  rd_u8
  return (record {
    scs_common = scs_common;
    pci = pci;
    duplex = duplex;
    dl_bandwidth = dl_bandwidth;
    dl_arfcn = dl_arfcn;
    dl_k0 = dl_k0;
    dl_grid = dl_grid;
    num_tx_ant = num_tx_ant;
    ul_bandwidth = ul_bandwidth;
    ul_arfcn = ul_arfcn;
    ul_grid = ul_grid;
    num_rx_ant = num_rx_ant;
  })

pub record Rach : Type 0 where
  pub cfg_index : ℕ
  pub msg1_fdm : ℕ
  pub msg1_freq_start : ℕ
  pub zero_corr_conf : ℕ
  pub is_l839 : ℕ
  pub root_seq : ℕ
  pub msg1_scs : ℕ
  pub restricted_set : ℕ

-- One element of `ra_prio_slice_info_list`.
unfoldable pub read_slice : Rd (Unit {0})
unfolding ◌>>=◌ ◌>>◌
read_slice = do
  nsag ← rd_u32
  rd_skip nsag
  rd_u8
  scaling_bi ← rd_u8
  if scaling_bi == 0 then return tt else (do rd_u8; return tt)

-- `for (s = 0; s < n && !r.error; s++)`
unfoldable pub read_slices : ℕ → Rd (Unit {0})
read_slices zero r = (tt, r)
read_slices (suc n) r =
    let rest = read_slices n (read_slice r).1 in if r.error then (tt, r) else rest

unfoldable pub read_rach : Rd Rach
unfolding ◌>>=◌ ◌>>◌ read_slices
read_rach = do
  cfg_index ← rd_u8
  rd_u32
  msg1_fdm ← rd_u32
  msg1_freq_start ← rd_u32
  zero_corr_conf ← rd_u16
  rd_u32
  rd_u8
  rd_u8
  rd_u32
  rd_u64
  is_l839 ← rd_u8
  root_seq ← rd_u32
  msg1_scs ← rd_u8
  restricted_set ← rd_u8
  rd_u8
  rd_u8
  rd_u8
  n_slices ← rd_u32
  read_slices n_slices
  return (record {
    cfg_index = cfg_index;
    msg1_fdm = msg1_fdm;
    msg1_freq_start = msg1_freq_start;
    zero_corr_conf = zero_corr_conf;
    is_l839 = if is_l839 == 0 then 0 else 1;
    root_seq = root_seq;
    msg1_scs = msg1_scs;
    restricted_set = restricted_set;
  })

-- The loop over the chunks of the SSB bitmap, from bit `b` on, of which the first chunk is kept. `b` is a
-- `uint32_t`; none if the fuel does not reach the end.
unfoldable pub bitmap_chunks : ℕ → ℕ → ℕ → ℕ → Rd (Option ℕ)
bitmap_chunks zero b nbits bitmap r = (none, r)
bitmap_chunks (suc fuel) b nbits bitmap r =
    let rest =
      bitmap_chunks fuel ((b + 64) % 2 ^ 32) nbits (if b == 0 then (rd_u64 r).0 else bitmap)
        (rd_u64 r).1 in
    if ltb b nbits then rest else (some bitmap, r)

-- No more rounds than this one: 2^26 chunks of 64 bits, and the last test.
abbrev pub bitmap_fuel : ℕ
bitmap_fuel = 2 ^ 26 + 1

-- A loop that does not end leaves the cursor where the loop was entered.
abbrev pub ended_at : Cursor → Option ℕ × Cursor → Option ℕ × Cursor
ended_at r (none, r') = (none, r)
ended_at r (some bitmap, r') = (some bitmap, r')

unfoldable pub read_bitmap : ℕ → Rd (Option ℕ)
read_bitmap nbits r = ended_at r (bitmap_chunks bitmap_fuel 0 nbits 0 r)

pub record Ssb : Type 0 where
  pub offset_point_a : ℕ
  pub period : ℕ
  pub k_ssb : ℕ
  pub bitmap : Option ℕ

unfoldable pub read_ssb : Rd Ssb
unfolding ◌>>=◌ ◌>>◌ read_bitmap
read_ssb = do
  rd_u8
  offset_point_a ← rd_u16
  period ← rd_u16
  k_ssb ← rd_u8
  nbits ← rd_u32
  bitmap ← read_bitmap nbits
  return
      (record { offset_point_a = offset_point_a; period = period; k_ssb = k_ssb; bitmap = bitmap })

-- Behind the bitmap: the beams, the power, and the TDD pattern.
pub record Tail : Type 0 where
  pub block_power : ℕ
  pub has_tdd : ℕ
  pub tdd : TddPattern

abbrev pub no_pattern : TddPattern
no_pattern = record { period = 0; dl_slots = 0; dl_symbols = 0; ul_slots = 0; ul_symbols = 0 }

unfoldable pub read_period2 : Rd ℕ
unfolding ◌>>=◌ ◌>>◌
read_period2 = do p2_period ← rd_u32; rd_u32; rd_u32; rd_u32; rd_u32; return p2_period

-- The period of the second pattern, if there is one, and 0 otherwise.
unfoldable pub read_pattern2 : Rd ℕ
unfolding ◌>>=◌ read_period2
read_pattern2 = do present ← rd_u8; if present == 0 then return 0 else read_period2

unfoldable pub read_tdd : Rd TddPattern
unfolding ◌>>=◌ ◌>>◌ read_pattern2
read_tdd = do
  rd_u8
  period ← rd_u32
  dl_slots ← rd_u32
  dl_symbols ← rd_u32
  ul_slots ← rd_u32
  ul_symbols ← rd_u32
  p2_period ← read_pattern2
  return (record {
    period = (period + p2_period) % 2 ^ 32;
    dl_slots = dl_slots;
    dl_symbols = dl_symbols;
    ul_slots = ul_slots;
    ul_symbols = ul_symbols;
  })

unfoldable pub read_tail : Rd Tail
unfolding ◌>>=◌ ◌>>◌ read_tdd
read_tail = do
  rd_bytes 64
  rd_u8
  block_power ← rd_u32
  has_tdd ← rd_u8
  tdd ← if has_tdd == 0 then return no_pattern else read_tdd
  return (record { block_power = block_power; has_tdd = has_tdd; tdd = tdd })

pub record CellConfiguration : Type 0 where
  pub carrier : Carrier
  pub rach : Rach
  pub ssb : Ssb
  pub tail : Tail

-- Nothing is read behind a loop that does not end.
unfoldable pub read_tail_if : Option ℕ → Rd Tail
unfolding read_tail
read_tail_if none = return (record { block_power = 0; has_tdd = 0; tdd = no_pattern })
read_tail_if (some bitmap) = read_tail

unfoldable pub read_cell : Rd CellConfiguration
unfolding ◌>>=◌ read_carrier read_rach read_ssb read_tail_if
read_cell = do
  carrier ← read_carrier
  rach ← read_rach
  ssb ← read_ssb
  tail ← read_tail_if ssb.bitmap
  return (record { carrier = carrier; rach = rach; ssb = ssb; tail = tail })
