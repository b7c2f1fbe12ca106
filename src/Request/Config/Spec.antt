-- ===== src/Request/Config/Spec.antt =====
-- What a CONFIG.request should become: parse the cell, and build the message from it.
use x_fapi.Prelude.{
  ℕ, ◌+◌, ◌-◌, ◌/◌, ◌%◌, ◌^◌, Bool, List, Option, none, some, ℤ, ◌==◌, leb, if◌then◌else◌, get_or,
}
use x_fapi.Wire.Cursor.Parser as P
use x_fapi.Wire.Cursor.Parser.{Parser, ◌>>=◌, ◌>>◌, pure}
use x_fapi.Request.Ul.Corr.Spec.{rounds}
use x_fapi.Request.Config.Values.{TddPattern}
use x_fapi.Request.Config.Cell.{Carrier, Rach, Ssb, Tail, CellConfiguration, no_pattern}
use x_fapi.Request.Config.Message.{ConfigReq, Local}
use x_fapi.Request.Config.{ConfigOutcome, refused, configure}

unfoldable pub carrier : Parser Carrier
unfolding ◌>>=◌ ◌>>◌
carrier = do
  scs_common ← P.byte
  P.byte
  pci ← P.le_uint 2
  duplex ← P.byte
  dl_bandwidth ← P.le_uint 2
  dl_arfcn ← P.le_uint 4
  dl_k0 ← P.times 5 (P.le_uint 2)
  dl_grid ← P.times 5 (P.le_uint 2)
  num_tx_ant ← P.le_uint 2
  ul_bandwidth ← P.le_uint 2
  ul_arfcn ← P.le_uint 4
  P.times 5 (P.le_uint 2)
  ul_grid ← P.times 5 (P.le_uint 2)
  num_rx_ant ← P.le_uint 2
  P.byte
  P.byte
  P.byte
  P.byte
  pure (record {
    scs_common = scs_common;
    pci = pci;
    duplex = duplex;
    dl_bandwidth = dl_bandwidth;
    dl_arfcn = dl_arfcn;
    dl_k0 = dl_k0;
    dl_grid = dl_grid;
    num_tx_ant = num_tx_ant;
    ul_bandwidth = ul_bandwidth;
    ul_arfcn = ul_arfcn;
    ul_grid = ul_grid;
    num_rx_ant = num_rx_ant;
  })

unfoldable pub slice : Parser (Unit {0})
unfolding ◌>>=◌ ◌>>◌
slice = do
  nsag ← P.le_uint 4
  P.skip nsag
  P.byte
  scaling_bi ← P.byte
  if scaling_bi == 0 then pure tt else (do P.byte; pure tt)

unfoldable pub rach : Parser Rach
unfolding ◌>>=◌ ◌>>◌ slice
rach = do
  cfg_index ← P.byte
  P.le_uint 4
  msg1_fdm ← P.le_uint 4
  msg1_freq_start ← P.le_uint 4
  zero_corr_conf ← P.le_uint 2
  P.le_uint 4
  P.byte
  P.byte
  P.le_uint 4
  P.le_uint 8
  is_l839 ← P.byte
  root_seq ← P.le_uint 4
  msg1_scs ← P.byte
  restricted_set ← P.byte
  P.byte
  P.byte
  P.byte
  n_slices ← P.le_uint 4
  rounds n_slices slice
  pure (record {
    cfg_index = cfg_index;
    msg1_fdm = msg1_fdm;
    msg1_freq_start = msg1_freq_start;
    zero_corr_conf = zero_corr_conf;
    is_l839 = if is_l839 == 0 then 0 else 1;
    root_seq = root_seq;
    msg1_scs = msg1_scs;
    restricted_set = restricted_set;
  })

-- One chunk for each 64 bits begun. Above 2^32 - 64 bits there is no end.
unfoldable pub bitmap : ℕ → Parser (Option ℕ)
unfolding ◌>>=◌
bitmap nbits =
    if leb nbits (2 ^ 32 - 64)
    then (P.times ((nbits + 63) / 64) (P.le_uint 8) >>= λ chunks. pure (some (get_or chunks 0 0)))
    else pure none

unfoldable pub ssb : Parser Ssb
unfolding ◌>>=◌ ◌>>◌ bitmap
ssb = do
  P.byte
  offset_point_a ← P.le_uint 2
  period ← P.le_uint 2
  k_ssb ← P.byte
  nbits ← P.le_uint 4
  bits ← bitmap nbits
  pure (record { offset_point_a = offset_point_a; period = period; k_ssb = k_ssb; bitmap = bits })

unfoldable pub period2 : Parser ℕ
unfolding ◌>>=◌ ◌>>◌
period2 = do
  p2_period ← P.le_uint 4
  P.le_uint 4
  P.le_uint 4
  P.le_uint 4
  P.le_uint 4
  pure p2_period

unfoldable pub pattern2 : Parser ℕ
unfolding ◌>>=◌ period2
pattern2 = do present ← P.byte; if present == 0 then pure 0 else period2

unfoldable pub tdd : Parser TddPattern
unfolding ◌>>=◌ ◌>>◌ pattern2
tdd = do
  P.byte
  period ← P.le_uint 4
  dl_slots ← P.le_uint 4
  dl_symbols ← P.le_uint 4
  ul_slots ← P.le_uint 4
  ul_symbols ← P.le_uint 4
  p2_period ← pattern2
  pure (record {
    period = (period + p2_period) % 2 ^ 32;
    dl_slots = dl_slots;
    dl_symbols = dl_symbols;
    ul_slots = ul_slots;
    ul_symbols = ul_symbols;
  })

unfoldable pub tail : Parser Tail
unfolding ◌>>=◌ ◌>>◌ tdd
tail = do
  P.bytes 64
  P.byte
  block_power ← P.le_uint 4
  has_tdd ← P.byte
  pattern ← if has_tdd == 0 then pure no_pattern else tdd
  pure (record { block_power = block_power; has_tdd = has_tdd; tdd = pattern })

unfoldable pub tail_if : Option ℕ → Parser Tail
unfolding tail
tail_if none = pure (record { block_power = 0; has_tdd = 0; tdd = no_pattern })
tail_if (some bits) = tail

unfoldable pub cell : Parser CellConfiguration
unfolding ◌>>=◌ carrier rach ssb tail_if
cell = do
  c ← carrier
  p ← rach
  s ← ssb
  t ← tail_if s.bitmap
  pure (record { carrier = c; rach = p; ssb = s; tail = t })

-- The configuration that a body of just these bytes holds.
unfoldable pub config : (ℕ → Bool) → Local → (ConfigReq → ℤ) → List ℕ → ConfigOutcome
unfolding cell configure
config mem l send bs = elim (cell bs) [ none ↦ refused | some (c, rest) ↦ configure mem l send c ]
