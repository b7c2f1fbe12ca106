-- ===== src/Request/Dl/Ssb/Mapper.antt =====
-- L2_to_L1/P7/dl_tti_request.c, `map_ssb`: the nFAPI SSB PDU.
use x_fapi.Prelude.{ℕ, ◌+◌, ◌*◌, ◌/◌, ◌%◌, ◌^◌}
use x_fapi.Request.Dl.Ssb.{CapSsb}

-- `nfapi_nr_dl_tti_ssb_pdu_rel15_t`
pub record SsbPdu : Type 0 where
  pub phys_cell_id : ℕ
  pub beta_pss : ℕ
  pub ssb_block_index : ℕ
  pub ssb_subcarrier_offset : ℕ
  pub ssb_offset_point_a : ℕ
  pub bch_payload_flag : ℕ
  pub bch_payload : ℕ

-- The three bytes of a MIB, the other way round; the terms share no bit, so `|` adds.
unfoldable pub bch_payload : ℕ → ℕ
bch_payload bch =
    let v = bch % 2 ^ 24 in v % 2 ^ 8 * 2 ^ 16 + v / 2 ^ 8 % 2 ^ 8 * 2 ^ 8 + v / 2 ^ 16 % 2 ^ 8

unfoldable pub map_ssb : CapSsb → SsbPdu
map_ssb s = record {
  phys_cell_id = s.pci;
  beta_pss = s.beta % 2 ^ 8;
  ssb_block_index = s.blk_idx % 2 ^ 8;
  ssb_subcarrier_offset = s.subc_off % 2 ^ 8;
  ssb_offset_point_a = s.offset_point_a;
  bch_payload_flag = 0;
  bch_payload = bch_payload s.bch;
}
