-- ===== src/Request/Dl/Ssb.antt =====
-- L2_to_L1/P7/dl_tti_request.c: the SSB part of a downlink PDU, `cap_ssb_t` and `read_ssb`, and the PRS
-- part, which `walk_prs` steps over.
pub mod Spec
pub mod Mapper
use x_fapi.Prelude.{
  ℕ, ◌+◌, ◌*◌, ◌/◌, ◌%◌, ◌^◌, ◌==◌, ltb, if◌then◌else◌, List, [], ◌∷◌, ◌||◌, take, min,
}
use x_fapi.Wire.Cursor.{
  Rd, ◌>>=◌, ◌>>◌, return, rd_u8, rd_u16, rd_u32, rd_u64, rd_bytes, rd_skip, rd_skip_sv_u8,
  rd_skip_sv_u16, rd_times, rd_list,
}
use x_fapi.Request.Dl.Parts.{
  BitBytes, rd_bitset_bytes, Power, walk_power, walk_power_nr, walk_optional_u32, Interleaving,
  walk_interleaving, walk_context, Codeword, rd_codeword, walk_pdsch_context, rd_two_words,
}

-- `cap_ssb_t`
pub record CapSsb : Type 0 where
  pub pci : ℕ
  pub beta : ℕ
  pub blk_idx : ℕ
  pub subc_off : ℕ
  pub offset_point_a : ℕ
  pub bch : ℕ
  pub case_type : ℕ
  pub scs : ℕ
  pub l_max : ℕ

unfoldable pub read_ssb : Rd CapSsb
unfolding ◌>>=◌ ◌>>◌
read_ssb = do
  pci ← rd_u16
  beta ← rd_u8
  blk_idx ← rd_u8
  subc_off ← rd_u16
  offset_point_a ← rd_u16
  bch ← rd_u32
  case_type ← rd_u8
  scs ← rd_u8
  l_max ← rd_u8
  return (record {
    pci = pci;
    beta = beta;
    blk_idx = blk_idx;
    subc_off = subc_off;
    offset_point_a = offset_point_a;
    bch = bch;
    case_type = case_type;
    scs = scs;
    l_max = l_max;
  })

unfoldable pub walk_prs : Rd (Unit {0})
unfolding ◌>>=◌ ◌>>◌
walk_prs = do
  rd_u8
  rd_u8
  rd_u16
  rd_u8
  rd_u8
  rd_u8
  rd_u8
  rd_u32
  rd_u32
  has_power ← rd_u8
  walk_optional_u32 has_power
  rd_u16
  rd_u16
  return tt
