-- ===== src/Request/Ul/Prach.antt =====
-- L2_to_L1/P7/ul_tti_request.c: the PRACH part of an uplink PDU, `cap_prach_t` and `read_prach`.
pub mod Spec
pub mod Mapper
use x_fapi.Prelude.{ℕ, List, ◌+◌, ◌-◌, ◌%◌, ◌^◌, ◌==◌, if◌then◌else◌}
use x_fapi.Wire.Cursor.{
  Rd, ◌>>=◌, ◌>>◌, return, rd_u8, rd_u16, rd_u32, rd_u64, rd_bytes, rd_skip, rd_skip_sv_u8,
  rd_times,
}
use x_fapi.Request.Ul.Corr.{walk_uci_corr, walk_ptrs_port, walk_context}

-- `cap_prach_t`
pub record CapPrach : Type 0 where
  pub num_prach_ocas : ℕ
  pub prach_format : ℕ
  pub index_fd_ra : ℕ
  pub prach_start_symbol : ℕ
  pub num_cs : ℕ
  pub handle : ℕ
  pub num_fd_ra : ℕ
  pub preamble_start : ℕ
  pub preamble_stop : ℕ

unfoldable pub read_prach : Rd CapPrach
unfolding ◌>>=◌ ◌>>◌
read_prach = do
  num_prach_ocas ← rd_u8
  prach_format ← rd_u8
  index_fd_ra ← rd_u8
  prach_start_symbol ← rd_u8
  num_cs ← rd_u16
  handle ← rd_u32
  num_fd_ra ← rd_u8
  preamble_start ← rd_u8
  preamble_stop ← rd_u8
  return (record {
    num_prach_ocas = num_prach_ocas;
    prach_format = prach_format;
    index_fd_ra = index_fd_ra;
    prach_start_symbol = prach_start_symbol;
    num_cs = num_cs;
    handle = handle;
    num_fd_ra = num_fd_ra;
    preamble_start = preamble_start;
    preamble_stop = preamble_stop;
  })
