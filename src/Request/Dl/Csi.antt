-- ===== src/Request/Dl/Csi.antt =====
-- L2_to_L1/P7/dl_tti_request.c: the CSI-RS part of a downlink PDU, `cap_csi_t` and `walk_csi_rs`.
-- A signed power offset is kept as its 32-bit pattern.
pub mod Spec
pub mod Mapper
use x_fapi.Prelude.{
  ℕ, ◌+◌, ◌*◌, ◌/◌, ◌%◌, ◌^◌, ◌==◌, ltb, if◌then◌else◌, List, [], ◌∷◌, ◌||◌, take, min,
}
use x_fapi.Wire.Cursor.{
  Rd, ◌>>=◌, ◌>>◌, return, rd_u8, rd_u16, rd_u32, rd_u64, rd_bytes, rd_skip, rd_skip_sv_u8,
  rd_skip_sv_u16, rd_times, rd_list,
}
use x_fapi.Request.Dl.Parts.{
  BitBytes, rd_bitset_bytes, Power, walk_power, walk_power_nr, walk_optional_u32, Interleaving,
  walk_interleaving, walk_context, Codeword, rd_codeword, walk_pdsch_context, rd_two_words,
}

-- `cap_csi_t`
pub record CapCsi : Type 0 where
  pub scs : ℕ
  pub cp : ℕ
  pub crb_start : ℕ
  pub crb_stop : ℕ
  pub csi_type : ℕ
  pub row : ℕ
  pub freq_dom : List ℕ
  pub symb_l0 : ℕ
  pub symb_l1 : ℕ
  pub cdm_type : ℕ
  pub freq_density : ℕ
  pub scramb_id : ℕ
  pub power_nr : ℕ
  pub power_ss : ℕ
  pub bwp_start : ℕ
  pub bwp_stop : ℕ

unfoldable pub walk_csi_rs : Rd CapCsi
unfolding ◌>>=◌ ◌>>◌
walk_csi_rs = do
  scs ← rd_u8
  cp ← rd_u8
  crb_start ← rd_u32
  crb_stop ← rd_u32
  csi_type ← rd_u8
  row ← rd_u8
  freq ← rd_bitset_bytes 2
  symb_l0 ← rd_u8
  symb_l1 ← rd_u8
  cdm_type ← rd_u8
  freq_density ← rd_u8
  scramb_id ← rd_u16
  power_nr ← rd_u32
  power_ss ← rd_u8
  bwp_start ← rd_u32
  bwp_stop ← rd_u32
  return (record {
    scs = scs;
    cp = cp;
    crb_start = crb_start;
    crb_stop = crb_stop;
    csi_type = csi_type;
    row = row;
    freq_dom = freq.bytes;
    symb_l0 = symb_l0;
    symb_l1 = symb_l1;
    cdm_type = cdm_type;
    freq_density = freq_density;
    scramb_id = scramb_id;
    power_nr = power_nr;
    power_ss = power_ss;
    bwp_start = bwp_start;
    bwp_stop = bwp_stop;
  })
