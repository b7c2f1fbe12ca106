-- ===== src/Request/Ul/Pucch.antt =====
-- L2_to_L1/P7/ul_tti_request.c: the PUCCH part of an uplink PDU, `cap_pucch_t` and `walk_pucch`.
pub mod Spec
pub mod Mapper
use x_fapi.Prelude.{ℕ, List, ◌+◌, ◌-◌, ◌%◌, ◌^◌, ◌==◌, if◌then◌else◌}
use x_fapi.Wire.Cursor.{
  Rd, ◌>>=◌, ◌>>◌, return, rd_u8, rd_u16, rd_u32, rd_u64, rd_bytes, rd_skip, rd_skip_sv_u8,
  rd_times,
}
use x_fapi.Request.Ul.Corr.{walk_uci_corr, walk_ptrs_port, walk_context}

-- `cap_pucch_t`
pub record CapPucch : Type 0 where
  pub rnti : ℕ
  pub handle : ℕ
  pub bwp_start : ℕ
  pub bwp_stop : ℕ
  pub scs : ℕ
  pub cp : ℕ
  pub format_type : ℕ
  pub multi_slot : ℕ
  pub pi2_bpsk : ℕ
  pub prb_start : ℕ
  pub prb_stop : ℕ
  pub sym_start : ℕ
  pub sym_stop : ℕ
  pub intra_hop : ℕ
  pub second_hop_prb : ℕ
  pub grp_hopping : ℕ
  pub nid_hopping : ℕ
  pub init_cyclic_shift : ℕ
  pub nid_scrambling : ℕ
  pub time_occ : ℕ
  pub pre_dft_idx : ℕ
  pub pre_dft_len : ℕ
  pub add_dmrs : ℕ
  pub nid0_dmrs : ℕ
  pub m0_shift : ℕ
  pub sr_bit_len : ℕ
  pub bit_len_harq : ℕ
  pub csi1_bits : ℕ

unfoldable pub walk_pucch : Rd CapPucch
unfolding ◌>>=◌ ◌>>◌
walk_pucch = do
  rnti ← rd_u16
  handle ← rd_u32
  bwp_start ← rd_u32
  bwp_stop ← rd_u32
  scs ← rd_u8
  cp ← rd_u8
  format_type ← rd_u8
  multi_slot ← rd_u8
  pi2_bpsk ← rd_u8
  prb_start ← rd_u32
  prb_stop ← rd_u32
  sym_start ← rd_u8
  sym_stop ← rd_u8
  intra_hop ← rd_u8
  second_hop_prb ← rd_u16
  grp_hopping ← rd_u8
  rd_u8
  nid_hopping ← rd_u16
  init_cyclic_shift ← rd_u16
  nid_scrambling ← rd_u16
  time_occ ← rd_u8
  pre_dft_idx ← rd_u8
  pre_dft_len ← rd_u8
  add_dmrs ← rd_u8
  nid0_dmrs ← rd_u16
  m0_shift ← rd_u8
  sr_bit_len ← rd_u8
  bit_len_harq ← rd_u16
  csi1_bits ← rd_u16
  rd_u8
  rd_u8
  walk_uci_corr
  return (record {
    rnti = rnti;
    handle = handle;
    bwp_start = bwp_start;
    bwp_stop = bwp_stop;
    scs = scs;
    cp = cp;
    format_type = format_type;
    multi_slot = multi_slot;
    pi2_bpsk = pi2_bpsk;
    prb_start = prb_start;
    prb_stop = prb_stop;
    sym_start = sym_start;
    sym_stop = sym_stop;
    intra_hop = intra_hop;
    second_hop_prb = second_hop_prb;
    grp_hopping = grp_hopping;
    nid_hopping = nid_hopping;
    init_cyclic_shift = init_cyclic_shift;
    nid_scrambling = nid_scrambling;
    time_occ = time_occ;
    pre_dft_idx = pre_dft_idx;
    pre_dft_len = pre_dft_len;
    add_dmrs = add_dmrs;
    nid0_dmrs = nid0_dmrs;
    m0_shift = m0_shift;
    sr_bit_len = sr_bit_len;
    bit_len_harq = bit_len_harq;
    csi1_bits = csi1_bits;
  })
