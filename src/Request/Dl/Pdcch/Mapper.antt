-- ===== src/Request/Dl/Pdcch/Mapper.antt =====
-- L2_to_L1/P7/dl_tti_request.c, `fill_pdcch_rel15`: the nFAPI PDCCH PDU, which `map_pdcch` wraps.
use x_fapi.Prelude.{
  ℕ, zero, suc, ◌+◌, ◌-◌, ◌*◌, ◌/◌, ◌%◌, ◌^◌, List, [], ◌∷◌, ◌==◌, leb, if◌then◌else◌, get_or, min,
}
use x_fapi.Request.Ul.Mapping.{span16, span8}
use x_fapi.Request.Dl.Parts.{or_bit}
use x_fapi.Request.Dl.Parts.Mapping.{Precoding, map_beamforming_none}
use x_fapi.Request.Dl.Pdcch.{Dci, CapPdcch}

-- `nfapi_nr_dl_dci_pdu_t`; `payload` has the bytes that are written behind the `memset`.
pub record DciPdu : Type 0 where
  pub rnti : ℕ
  pub scrambling_id : ℕ
  pub scrambling_rnti : ℕ
  pub cce_index : ℕ
  pub aggregation_level : ℕ
  pub precoding : Precoding
  pub beta_pdcch_1_0 : ℕ
  pub power_control_offset_ss : ℕ
  pub payload_size_bits : ℕ
  pub payload : List ℕ

-- `nfapi_nr_dl_tti_pdcch_pdu_rel15_t`
pub record PdcchPdu : Type 0 where
  pub bwp_size : ℕ
  pub bwp_start : ℕ
  pub subcarrier_spacing : ℕ
  pub cyclic_prefix : ℕ
  pub start_symbol_index : ℕ
  pub duration_symbols : ℕ
  pub freq_domain_resource : List ℕ
  pub cce_reg_mapping_type : ℕ
  pub reg_bundle_size : ℕ
  pub interleaver_size : ℕ
  pub core_set_type : ℕ
  pub shift_index : ℕ
  pub precoder_granularity : ℕ
  pub num_dl_dci : ℕ
  pub dci_pdu : DciPdu

-- The transmitted bit `k`.
abbrev pub dci_bit : List ℕ → ℕ → ℕ
dci_bit payload k = get_or payload (k / 8) 0 / 2 ^ (k % 8) % 2

-- The loop over the bits, with `n` of them to go from bit `k` on.
unfoldable pub dci_word : List ℕ → ℕ → ℕ → ℕ → ℕ → ℕ
dci_word payload nbits zero k u = u
dci_word payload nbits (suc n) k u =
    dci_word payload nbits n (k + 1)
      (if dci_bit payload k == 1 then or_bit u (nbits - 1 - k) else u)

-- The low bytes of the word, the lowest first.
unfoldable pub word_bytes : ℕ → ℕ → ℕ → List ℕ
word_bytes u zero b = []
word_bytes u (suc n) b = u / 2 ^ (8 * b) % 2 ^ 8 ∷ word_bytes u n (b + 1)

abbrev pub dci_bits_sent : Dci → ℕ
dci_bits_sent d = if leb d.nbits 64 then d.nbits else 64

unfoldable pub dci_payload : ℕ → Dci → List ℕ
unfolding dci_word word_bytes
dci_payload dci_len d =
    let nbits = dci_bits_sent d in word_bytes (dci_word d.payload nbits nbits 0 0) (min 8 dci_len) 0

unfoldable pub fill_dci : ℕ → Dci → DciPdu
unfolding dci_payload
fill_dci dci_len d = record {
  rnti = d.rnti;
  scrambling_id = d.nid_data;
  scrambling_rnti = d.nrnti;
  cce_index = d.cce;
  aggregation_level = 2 ^ (d.agg_enum % 8) % 2 ^ 8;
  precoding = map_beamforming_none;
  beta_pdcch_1_0 = 0;
  power_control_offset_ss = d.power_ss % 2 ^ 8;
  payload_size_bits = d.nbits % 2 ^ 16;
  payload = dci_payload dci_len d;
}

unfoldable pub fill_pdcch_rel15 : ℕ → CapPdcch → PdcchPdu
unfolding fill_dci
fill_pdcch_rel15 dci_len c = record {
  bwp_size = span16 c.bwp_stop c.bwp_start;
  bwp_start = c.bwp_start % 2 ^ 16;
  subcarrier_spacing = c.scs;
  cyclic_prefix = c.cp;
  start_symbol_index = c.sym_start;
  duration_symbols = span8 c.sym_stop c.sym_start;
  freq_domain_resource = c.freq_dom;
  cce_reg_mapping_type = if c.mapping_idx == 2 then 0 else 1;
  reg_bundle_size = c.reg_bundle;
  interleaver_size = c.interleaver;
  core_set_type = if c.mapping_idx == 0 then 0 else 1;
  shift_index = c.shift_index;
  precoder_granularity = c.precoder_gran;
  num_dl_dci = 1;
  dci_pdu = fill_dci dci_len c.dci;
}
