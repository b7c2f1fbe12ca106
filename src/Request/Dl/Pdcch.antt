-- ===== src/Request/Dl/Pdcch.antt =====
-- L2_to_L1/P7/dl_tti_request.c: the PDCCH part of a downlink PDU, `cap_pdcch_t`, `walk_pdcch` and
-- `walk_dci`. `dci_len` is DCI_PAYLOAD_BYTE_LEN.
pub mod Spec
pub mod Mapper
pub mod Bits
use x_fapi.Prelude.{
  ℕ, ◌+◌, ◌*◌, ◌/◌, ◌%◌, ◌^◌, ◌==◌, ltb, if◌then◌else◌, List, [], ◌∷◌, ◌||◌, take, min,
}
use x_fapi.Wire.Cursor.{
  Rd, ◌>>=◌, ◌>>◌, return, rd_u8, rd_u16, rd_u32, rd_u64, rd_bytes, rd_skip, rd_skip_sv_u8,
  rd_skip_sv_u16, rd_times, rd_list,
}
use x_fapi.Request.Dl.Parts.{
  BitBytes, rd_bitset_bytes, Power, walk_power, walk_power_nr, walk_optional_u32, Interleaving,
  walk_interleaving, walk_context, Codeword, rd_codeword, walk_pdsch_context, rd_two_words,
}

-- The single DCI of `cap_pdcch_t`
pub record Dci : Type 0 where
  pub rnti : ℕ
  pub nid_data : ℕ
  pub nid_dmrs : ℕ
  pub nrnti : ℕ
  pub cce : ℕ
  pub agg_enum : ℕ
  pub prg_size : ℕ
  pub pm_index : ℕ
  pub power_ss : ℕ
  pub payload : List ℕ
  pub nbits : ℕ

-- `cap_pdcch_t`
pub record CapPdcch : Type 0 where
  pub bwp_start : ℕ
  pub bwp_stop : ℕ
  pub scs : ℕ
  pub cp : ℕ
  pub sym_start : ℕ
  pub sym_stop : ℕ
  pub freq_dom : List ℕ
  pub mapping_idx : ℕ
  pub reg_bundle : ℕ
  pub interleaver : ℕ
  pub shift_index : ℕ
  pub precoder_gran : ℕ
  pub dci : Dci

unfoldable pub walk_dci : ℕ → Rd Dci
unfolding ◌>>=◌ ◌>>◌
walk_dci dci_len = do
  rnti ← rd_u16
  nid_data ← rd_u16
  nid_dmrs ← rd_u16
  nrnti ← rd_u16
  cce ← rd_u8
  agg_enum ← rd_u8
  prg_size ← rd_u16
  pm_index ← rd_u16
  power_idx ← rd_u8
  power_ss ← walk_power power_idx
  dci_bits ← rd_bitset_bytes dci_len
  has_ctx ← rd_u8
  walk_context has_ctx
  return (record {
    rnti = rnti;
    nid_data = nid_data;
    nid_dmrs = nid_dmrs;
    nrnti = nrnti;
    cce = cce;
    agg_enum = agg_enum;
    prg_size = prg_size;
    pm_index = pm_index;
    power_ss = power_ss;
    payload = dci_bits.bytes;
    nbits = dci_bits.nbits;
  })

unfoldable pub walk_pdcch : ℕ → Rd CapPdcch
unfolding ◌>>=◌ ◌>>◌
walk_pdcch dci_len = do
  bwp_start ← rd_u32
  bwp_stop ← rd_u32
  scs ← rd_u8
  cp ← rd_u8
  sym_start ← rd_u8
  sym_stop ← rd_u8
  freq ← rd_bitset_bytes 6
  mapping_idx ← rd_u8
  il ← walk_interleaving mapping_idx
  precoder_gran ← rd_u8
  dci ← walk_dci dci_len
  return (record {
    bwp_start = bwp_start;
    bwp_stop = bwp_stop;
    scs = scs;
    cp = cp;
    sym_start = sym_start;
    sym_stop = sym_stop;
    freq_dom = freq.bytes;
    mapping_idx = mapping_idx;
    reg_bundle = il.reg_bundle;
    interleaver = il.interleaver;
    shift_index = il.shift_index;
    precoder_gran = precoder_gran;
    dci = dci;
  })
