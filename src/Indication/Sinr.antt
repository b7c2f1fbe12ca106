-- ===== src/Indication/Sinr.antt =====
-- `cqi_to_ul_sinr_metric` of crc_indication.c and uci_indication.c: the SNR of an nFAPI `ul_cqi` in
-- steps of 0.002 dB, as the 16-bit pattern that goes on the wire.
use x_fapi.Prelude.{ℕ, ◌+◌, ◌-◌, ◌*◌, ◌%◌, ◌^◌, ◌<◌, ◌≡◌, ◌≢◌, arith}
use x_fapi.Prelude.{ltb, leb, if◌then◌else◌, ℤ, pos, negsuc}

-- `((int32_t)ul_cqi - 128) * 250`; `negsuc n` is -(n + 1).
abbrev scaled : ℕ → ℤ
scaled cqi = if leb 128 cqi then pos ((cqi - 128) * 250) else negsuc ((128 - cqi) * 250 - 1)

-- `if (m > 32767) m = 32767; if (m < -32767) m = -32767;`
abbrev clamp : ℤ → ℤ
clamp (pos n) = if ltb 32767 n then pos 32767 else pos n
clamp (negsuc n) = if leb 32767 n then negsuc 32766 else negsuc n

-- The `uint16_t` that an `int16_t` is written as.
abbrev pub as_u16 : ℤ → ℕ
as_u16 (pos n) = n % 2 ^ 16
as_u16 (negsuc n) = 2 ^ 16 - 1 - n % 2 ^ 16

unfoldable pub cqi_to_ul_sinr_metric : ℕ → ℤ
cqi_to_ul_sinr_metric cqi = clamp (scaled cqi)

-- For every quality below 256 the 16-bit pattern of the SINR metric is 250 times the offset of the
-- quality from 128 in two's complement, so that no clamp takes effect, and the reserved pattern
-- 0x8000 is never written.
pub metric_exact :
    (cqi : ℕ)
    → cqi < 256
    → ((as_u16 (cqi_to_ul_sinr_metric cqi) + 32000) % 2 ^ 16 ≡ cqi * 250)
      × (as_u16 (cqi_to_ul_sinr_metric cqi) ≢ 0x8000)
unfolding cqi_to_ul_sinr_metric
metric_exact cqi h = ground arith
