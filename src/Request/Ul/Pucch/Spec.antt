-- ===== src/Request/Ul/Pucch/Spec.antt =====
-- The layout of the PUCCH part of an uplink PDU, and that the walker reads just that.
use x_fapi.Wire.Cursor.Parser as P
use x_fapi.Wire.Cursor.Parser.{Parser, ◌>>=◌, ◌>>◌, pure}
use x_fapi.Wire.Cursor.Faithful.{Faithful, bind, then_do, ret}
use x_fapi.Wire.Cursor.Reads.{rd_u8_lem, rd_u16_lem, rd_u32_lem}
use x_fapi.Request.Ul.Corr.Spec.{uci_corr}
use x_fapi.Request.Ul.Corr.Laws.{walk_uci_corr_lem}
use x_fapi.Request.Ul.Pucch.{CapPucch, walk_pucch}

unfoldable pub pucch_pdu : Parser CapPucch
unfolding ◌>>=◌ ◌>>◌
pucch_pdu = do
  rnti ← P.le_uint 2
  handle ← P.le_uint 4
  bwp_start ← P.le_uint 4
  bwp_stop ← P.le_uint 4
  scs ← P.byte
  cp ← P.byte
  format_type ← P.byte
  multi_slot ← P.byte
  pi2_bpsk ← P.byte
  prb_start ← P.le_uint 4
  prb_stop ← P.le_uint 4
  sym_start ← P.byte
  sym_stop ← P.byte
  intra_hop ← P.byte
  second_hop_prb ← P.le_uint 2
  grp_hopping ← P.byte
  P.byte
  nid_hopping ← P.le_uint 2
  init_cyclic_shift ← P.le_uint 2
  nid_scrambling ← P.le_uint 2
  time_occ ← P.byte
  pre_dft_idx ← P.byte
  pre_dft_len ← P.byte
  add_dmrs ← P.byte
  nid0_dmrs ← P.le_uint 2
  m0_shift ← P.byte
  sr_bit_len ← P.byte
  bit_len_harq ← P.le_uint 2
  csi1_bits ← P.le_uint 2
  P.byte
  P.byte
  uci_corr
  pure (record {
    rnti = rnti;
    handle = handle;
    bwp_start = bwp_start;
    bwp_stop = bwp_stop;
    scs = scs;
    cp = cp;
    format_type = format_type;
    multi_slot = multi_slot;
    pi2_bpsk = pi2_bpsk;
    prb_start = prb_start;
    prb_stop = prb_stop;
    sym_start = sym_start;
    sym_stop = sym_stop;
    intra_hop = intra_hop;
    second_hop_prb = second_hop_prb;
    grp_hopping = grp_hopping;
    nid_hopping = nid_hopping;
    init_cyclic_shift = init_cyclic_shift;
    nid_scrambling = nid_scrambling;
    time_occ = time_occ;
    pre_dft_idx = pre_dft_idx;
    pre_dft_len = pre_dft_len;
    add_dmrs = add_dmrs;
    nid0_dmrs = nid0_dmrs;
    m0_shift = m0_shift;
    sr_bit_len = sr_bit_len;
    bit_len_harq = bit_len_harq;
    csi1_bits = csi1_bits;
  })

pub walk_pucch_lem : Faithful walk_pucch pucch_pdu
unfolding walk_pucch pucch_pdu
walk_pucch_lem = bind rd_u16_lem λ rnti. bind rd_u32_lem λ handle. bind rd_u32_lem λ bwp_start.
    bind rd_u32_lem λ bwp_stop. bind rd_u8_lem λ scs. bind rd_u8_lem λ cp.
      bind rd_u8_lem λ format_type. bind rd_u8_lem λ multi_slot. bind rd_u8_lem λ pi2_bpsk.
        bind rd_u32_lem λ prb_start. bind rd_u32_lem λ prb_stop. bind rd_u8_lem λ sym_start.
          bind rd_u8_lem λ sym_stop. bind rd_u8_lem λ intra_hop. bind rd_u16_lem λ second_hop_prb.
            bind rd_u8_lem λ grp_hopping. then_do rd_u8_lem (
              bind rd_u16_lem λ nid_hopping. bind rd_u16_lem λ init_cyclic_shift.
                bind rd_u16_lem λ nid_scrambling. bind rd_u8_lem λ time_occ.
                  bind rd_u8_lem λ pre_dft_idx. bind rd_u8_lem λ pre_dft_len.
                    bind rd_u8_lem λ add_dmrs. bind rd_u16_lem λ nid0_dmrs.
                      bind rd_u8_lem λ m0_shift. bind rd_u8_lem λ sr_bit_len.
                        bind rd_u16_lem λ bit_len_harq. bind rd_u16_lem λ csi1_bits.
                          then_do rd_u8_lem (then_do rd_u8_lem (then_do walk_uci_corr_lem (ret _))))
