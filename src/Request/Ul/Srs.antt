-- ===== src/Request/Ul/Srs.antt =====
-- L2_to_L1/P7/ul_tti_request.c: the SRS part of an uplink PDU, `cap_srs_t` and `walk_srs`.
pub mod Spec
pub mod Mapper
use x_fapi.Prelude.{ℕ, List, ◌+◌, ◌-◌, ◌%◌, ◌^◌, ◌==◌, if◌then◌else◌}
use x_fapi.Wire.Cursor.{
  Rd, ◌>>=◌, ◌>>◌, return, rd_u8, rd_u16, rd_u32, rd_u64, rd_bytes, rd_skip, rd_skip_sv_u8,
  rd_times,
}
use x_fapi.Request.Ul.Corr.{walk_uci_corr, walk_ptrs_port, walk_context}

-- `cap_srs_t`
pub record CapSrs : Type 0 where
  pub rnti : ℕ
  pub handle : ℕ
  pub bwp_start : ℕ
  pub bwp_stop : ℕ
  pub scs : ℕ
  pub cp : ℕ
  pub num_ant_ports : ℕ
  pub sym_start : ℕ
  pub sym_stop : ℕ
  pub num_repetitions : ℕ
  pub time_start : ℕ
  pub config_index : ℕ
  pub sequence_id : ℕ
  pub bandwidth_index : ℕ
  pub comb_size : ℕ
  pub comb_offset : ℕ
  pub cyclic_shift : ℕ
  pub freq_position : ℕ
  pub freq_shift : ℕ
  pub freq_hopping : ℕ
  pub grp_seq_hopping : ℕ
  pub resource_type : ℕ
  pub t_srs : ℕ
  pub t_offset : ℕ

unfoldable pub walk_srs : Rd CapSrs
unfolding ◌>>=◌ ◌>>◌
walk_srs = do
  rnti ← rd_u16
  handle ← rd_u32
  bwp_start ← rd_u32
  bwp_stop ← rd_u32
  scs ← rd_u8
  cp ← rd_u8
  num_ant_ports ← rd_u8
  sym_start ← rd_u8
  sym_stop ← rd_u8
  num_repetitions ← rd_u8
  time_start ← rd_u8
  config_index ← rd_u8
  sequence_id ← rd_u16
  bandwidth_index ← rd_u8
  comb_size ← rd_u8
  comb_offset ← rd_u8
  cyclic_shift ← rd_u8
  freq_position ← rd_u8
  freq_shift ← rd_u16
  freq_hopping ← rd_u8
  grp_seq_hopping ← rd_u8
  resource_type ← rd_u8
  t_srs ← rd_u16
  t_offset ← rd_u16
  rd_u8
  rd_u8
  return (record {
    rnti = rnti;
    handle = handle;
    bwp_start = bwp_start;
    bwp_stop = bwp_stop;
    scs = scs;
    cp = cp;
    num_ant_ports = num_ant_ports;
    sym_start = sym_start;
    sym_stop = sym_stop;
    num_repetitions = num_repetitions;
    time_start = time_start;
    config_index = config_index;
    sequence_id = sequence_id;
    bandwidth_index = bandwidth_index;
    comb_size = comb_size;
    comb_offset = comb_offset;
    cyclic_shift = cyclic_shift;
    freq_position = freq_position;
    freq_shift = freq_shift;
    freq_hopping = freq_hopping;
    grp_seq_hopping = grp_seq_hopping;
    resource_type = resource_type;
    t_srs = t_srs;
    t_offset = t_offset;
  })
