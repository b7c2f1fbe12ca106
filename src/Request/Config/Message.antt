-- ===== src/Request/Config/Message.antt =====
-- L2_to_L1/P5/config_request.c: the nFAPI CONFIG.request. The tag of a TLV is a constant of the message
-- library, and has no place here; a TLV that is not written is none.
use x_fapi.Prelude.{
  ℕ, ◌+◌, ◌-◌, ◌*◌, ◌%◌, ◌^◌, List, [], ◌∷◌, Option, none, some, ◌==◌, ltb, leb, ◌&&◌,
  if◌then◌else◌, get_or, replicate, Bool, not,
}
use x_fapi.Request.Config.Values.{
  ssb_period_ms_to_nfapi, arfcn_to_khz, tdd_period_to_enum, prach_num_root_sequences, ssb_masks,
  ssb_case, slot_table,
}
use x_fapi.Request.Config.Cell.{Carrier, Rach, Ssb, Tail, CellConfiguration}

-- `nfapi_nr_num_prach_fd_occasions_t`
pub record FdOccasion : Type 0 where
  pub root_sequence_index : ℕ
  pub num_root_sequences : ℕ
  pub k1 : ℕ
  pub zero_corr_conf : ℕ
  pub num_unused_root_sequences : ℕ

-- `tdd_table`: the period and the symbols of each slot.
pub record TddTable : Type 0 where
  pub tdd_period : ℕ
  pub periodicity_list : List (List ℕ)

pub record CarrierConfig : Type 0 where
  pub dl_bandwidth : ℕ
  pub dl_frequency : ℕ
  pub uplink_bandwidth : ℕ
  pub uplink_frequency : ℕ
  pub num_tx_ant : ℕ
  pub num_rx_ant : ℕ
  pub frequency_shift_7p5khz : ℕ
  pub dl_k0 : List ℕ
  pub dl_grid_size : List ℕ
  pub ul_k0 : List ℕ
  pub ul_grid_size : List ℕ

pub record SsbConfig : Type 0 where
  pub ss_pbch_power : ℕ
  pub bch_payload : ℕ
  pub scs_common : ℕ
  pub offset_point_a : ℕ
  pub subcarrier_offset : ℕ
  pub period : ℕ
  pub mask_list : List ℕ
  pub case_v3 : ℕ

pub record PrachConfig : Type 0 where
  pub sequence_length : ℕ
  pub sub_c_spacing : ℕ
  pub restricted_set_config : ℕ
  pub num_fd_occasions : ℕ
  pub configuration_index : ℕ
  pub ssb_per_rach : ℕ
  pub fd_occasions : List FdOccasion

pub record NfapiConfig : Type 0 where
  pub p7_vnf_address : Option (List ℕ)
  pub p7_vnf_port : ℕ
  pub timing_window : ℕ

-- `nfapi_nr_config_request_scf_t`
pub record ConfigReq : Type 0 where
  pub phy_id : ℕ
  pub carrier : CarrierConfig
  pub phy_cell_id : ℕ
  pub frame_duplex_type : ℕ
  pub ssb : SsbConfig
  pub prach : PrachConfig
  pub tdd : Option TddTable
  pub nfapi : NfapiConfig

-- The numerology that is used and latched.
abbrev pub cell_mu : Carrier → ℕ
cell_mu c = if ltb c.scs_common 5 then c.scs_common else 1

abbrev pub slots_table : List ℕ
slots_table = 10 ∷ 20 ∷ 40 ∷ 80 ∷ 160 ∷ []

abbrev pub n_slots : Carrier → ℕ
n_slots c = get_or slots_table (cell_mu c) 0

-- Half the carrier in kHz, and the frequency of Point A; `grid` is below 2^16.
abbrev pub half_bw_khz : List ℕ → ℕ → ℕ
half_bw_khz grid mu = get_or grid mu 0 * 6 % 2 ^ 32 * (15 * 2 ^ mu) % 2 ^ 32

unfoldable pub point_a_khz : ℕ → List ℕ → ℕ → ℕ
point_a_khz arfcn grid mu = (arfcn_to_khz arfcn + 2 ^ 32 - half_bw_khz grid mu) % 2 ^ 32

-- `ul_k0` and the frequency shift of the L2 are not used.
unfoldable pub carrier_config : Carrier → CarrierConfig
unfolding point_a_khz
carrier_config c = record {
  dl_bandwidth = c.dl_bandwidth;
  dl_frequency = point_a_khz c.dl_arfcn c.dl_grid (cell_mu c);
  uplink_bandwidth = c.ul_bandwidth;
  uplink_frequency = point_a_khz c.ul_arfcn c.ul_grid (cell_mu c);
  num_tx_ant = c.num_tx_ant;
  num_rx_ant = c.num_rx_ant;
  frequency_shift_7p5khz = 0;
  dl_k0 = c.dl_k0;
  dl_grid_size = c.dl_grid;
  ul_k0 = c.dl_k0;
  ul_grid_size = c.ul_grid;
}

unfoldable pub ssb_config : Carrier → Ssb → ℕ → ℕ → SsbConfig
unfolding ssb_masks
ssb_config c s bitmap block_power = record {
  ss_pbch_power = block_power;
  bch_payload = 1;
  scs_common = c.scs_common;
  offset_point_a = s.offset_point_a;
  subcarrier_offset = s.k_ssb;
  period = ssb_period_ms_to_nfapi s.period;
  mask_list = ssb_masks bitmap;
  case_v3 = ssb_case c.scs_common;
}

abbrev pub n_fd : Rach → ℕ
n_fd p = if leb 1 p.msg1_fdm && leb p.msg1_fdm 8 then p.msg1_fdm else 1

abbrev pub occasion : Rach → FdOccasion
occasion p = record {
  root_sequence_index = p.root_seq % 2 ^ 16;
  num_root_sequences = prach_num_root_sequences p.is_l839 p.zero_corr_conf;
  k1 = p.msg1_freq_start % 2 ^ 16;
  zero_corr_conf = p.zero_corr_conf % 2 ^ 8;
  num_unused_root_sequences = 0;
}

unfoldable pub prach_config : Rach → PrachConfig
prach_config p = record {
  sequence_length = if p.is_l839 == 0 then 1 else 0;
  sub_c_spacing = p.msg1_scs;
  restricted_set_config = p.restricted_set;
  num_fd_occasions = n_fd p;
  configuration_index = p.cfg_index;
  ssb_per_rach = 3;
  fd_occasions = replicate (n_fd p) (occasion p);
}

-- TDD with a pattern that has a period.
abbrev pub wants_tdd : Carrier → Tail → Bool
wants_tdd c t = c.duplex == 1 && (not (t.has_tdd == 0) && ltb 0 t.tdd.period)

unfoldable pub tdd_table : Carrier → Tail → TddTable
unfolding slot_table
tdd_table c t = record {
  tdd_period = tdd_period_to_enum t.tdd.period (cell_mu c);
  periodicity_list = slot_table t.tdd 0 (n_slots c);
}

-- What xFAPI knows of itself: the PHY, and of its context (if it has one) the address as text and the port.
-- `scan` is what `sscanf` leaves in the four zero bytes of the address.
pub record Local : Type 0 where
  pub phy_id : ℕ
  pub local_ip : Option (List ℕ)
  pub p7_local_port : ℕ
  pub scan : List ℕ → List ℕ

unfoldable pub vnf_address : Local → Option (List ℕ)
vnf_address l = elim l.local_ip [
  | none ↦ none
  | some text ↦ elim text [ [] ↦ none | ch ∷ more ↦ some (l.scan (ch ∷ more)) ]
]

unfoldable pub config_message : Local → CellConfiguration → ℕ → ConfigReq
unfolding carrier_config ssb_config prach_config tdd_table vnf_address
config_message l c bitmap = record {
  phy_id = l.phy_id % 2 ^ 16;
  carrier = carrier_config c.carrier;
  phy_cell_id = c.carrier.pci;
  frame_duplex_type = c.carrier.duplex;
  ssb = ssb_config c.carrier c.ssb bitmap c.tail.block_power;
  prach = prach_config c.rach;
  tdd = if wants_tdd c.carrier c.tail then some (tdd_table c.carrier c.tail) else none;
  nfapi = record {
    p7_vnf_address = vnf_address l;
    p7_vnf_port = l.p7_local_port % 2 ^ 16;
    timing_window = 30;
  };
}
