-- ===== src/Request/Dl/Pdcch/Spec.antt =====
-- The layout of the PDCCH part, and that the walker reads just that.
use x_fapi.Prelude.{ℕ}
use x_fapi.Wire.Cursor.Parser as P
use x_fapi.Wire.Cursor.Parser.{Parser, ◌>>=◌, ◌>>◌, pure}
use x_fapi.Wire.Cursor.Faithful.{Faithful, bind, then_do, ret}
use x_fapi.Wire.Cursor.Reads.{rd_u8_lem, rd_u16_lem, rd_u32_lem}
use x_fapi.Request.Dl.Parts.Spec.{bitset, power, interleaving, context}
use x_fapi.Request.Dl.Parts.Laws.{
  rd_bitset_bytes_lem, walk_power_lem, walk_interleaving_lem, walk_context_lem,
}
use x_fapi.Request.Dl.Pdcch.{Dci, CapPdcch, walk_dci, walk_pdcch}

unfoldable pub dci_part : ℕ → Parser Dci
unfolding ◌>>=◌ ◌>>◌
dci_part dci_len = do
  rnti ← P.le_uint 2
  nid_data ← P.le_uint 2
  nid_dmrs ← P.le_uint 2
  nrnti ← P.le_uint 2
  cce ← P.byte
  agg_enum ← P.byte
  prg_size ← P.le_uint 2
  pm_index ← P.le_uint 2
  power_idx ← P.byte
  power_ss ← power power_idx
  dci_bits ← bitset dci_len
  has_ctx ← P.byte
  context has_ctx
  pure (record {
    rnti = rnti;
    nid_data = nid_data;
    nid_dmrs = nid_dmrs;
    nrnti = nrnti;
    cce = cce;
    agg_enum = agg_enum;
    prg_size = prg_size;
    pm_index = pm_index;
    power_ss = power_ss;
    payload = dci_bits.bytes;
    nbits = dci_bits.nbits;
  })

unfoldable pub pdcch_part : ℕ → Parser CapPdcch
unfolding ◌>>=◌ ◌>>◌
pdcch_part dci_len = do
  bwp_start ← P.le_uint 4
  bwp_stop ← P.le_uint 4
  scs ← P.byte
  cp ← P.byte
  sym_start ← P.byte
  sym_stop ← P.byte
  freq ← bitset 6
  mapping_idx ← P.byte
  il ← interleaving mapping_idx
  precoder_gran ← P.byte
  dci ← dci_part dci_len
  pure (record {
    bwp_start = bwp_start;
    bwp_stop = bwp_stop;
    scs = scs;
    cp = cp;
    sym_start = sym_start;
    sym_stop = sym_stop;
    freq_dom = freq.bytes;
    mapping_idx = mapping_idx;
    reg_bundle = il.reg_bundle;
    interleaver = il.interleaver;
    shift_index = il.shift_index;
    precoder_gran = precoder_gran;
    dci = dci;
  })

pub walk_dci_lem : (dci_len : ℕ) → Faithful (walk_dci dci_len) (dci_part dci_len)
unfolding walk_dci dci_part
walk_dci_lem dci_len = bind rd_u16_lem λ rnti. bind rd_u16_lem λ nid_data.
    bind rd_u16_lem λ nid_dmrs. bind rd_u16_lem λ nrnti. bind rd_u8_lem λ cce.
      bind rd_u8_lem λ agg_enum. bind rd_u16_lem λ prg_size. bind rd_u16_lem λ pm_index.
        bind rd_u8_lem λ power_idx. bind (walk_power_lem power_idx) λ power_ss.
          bind (rd_bitset_bytes_lem dci_len)
            λ dci_bits. bind rd_u8_lem λ has_ctx. then_do (walk_context_lem has_ctx) (ret _)

pub walk_pdcch_lem : (dci_len : ℕ) → Faithful (walk_pdcch dci_len) (pdcch_part dci_len)
unfolding walk_pdcch pdcch_part
walk_pdcch_lem dci_len = bind rd_u32_lem λ bwp_start. bind rd_u32_lem λ bwp_stop.
    bind rd_u8_lem λ scs. bind rd_u8_lem λ cp. bind rd_u8_lem λ sym_start.
      bind rd_u8_lem λ sym_stop. bind (rd_bitset_bytes_lem 6) λ freq. bind rd_u8_lem λ mapping_idx.
        bind (walk_interleaving_lem mapping_idx)
          λ il. bind rd_u8_lem λ precoder_gran. bind (walk_dci_lem dci_len) λ dci. ret _
