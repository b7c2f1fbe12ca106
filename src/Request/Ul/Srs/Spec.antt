-- ===== src/Request/Ul/Srs/Spec.antt =====
-- The layout of the SRS part of an uplink PDU, and that the walker reads just that.
use x_fapi.Wire.Cursor.Parser as P
use x_fapi.Wire.Cursor.Parser.{Parser, ◌>>=◌, ◌>>◌, pure}
use x_fapi.Wire.Cursor.Faithful.{Faithful, bind, then_do, ret}
use x_fapi.Wire.Cursor.Reads.{rd_u8_lem, rd_u16_lem, rd_u32_lem}
use x_fapi.Request.Ul.Srs.{CapSrs, walk_srs}

unfoldable pub srs_pdu : Parser CapSrs
unfolding ◌>>=◌ ◌>>◌
srs_pdu = do
  rnti ← P.le_uint 2
  handle ← P.le_uint 4
  bwp_start ← P.le_uint 4
  bwp_stop ← P.le_uint 4
  scs ← P.byte
  cp ← P.byte
  num_ant_ports ← P.byte
  sym_start ← P.byte
  sym_stop ← P.byte
  num_repetitions ← P.byte
  time_start ← P.byte
  config_index ← P.byte
  sequence_id ← P.le_uint 2
  bandwidth_index ← P.byte
  comb_size ← P.byte
  comb_offset ← P.byte
  cyclic_shift ← P.byte
  freq_position ← P.byte
  freq_shift ← P.le_uint 2
  freq_hopping ← P.byte
  grp_seq_hopping ← P.byte
  resource_type ← P.byte
  t_srs ← P.le_uint 2
  t_offset ← P.le_uint 2
  P.byte
  P.byte
  pure (record {
    rnti = rnti;
    handle = handle;
    bwp_start = bwp_start;
    bwp_stop = bwp_stop;
    scs = scs;
    cp = cp;
    num_ant_ports = num_ant_ports;
    sym_start = sym_start;
    sym_stop = sym_stop;
    num_repetitions = num_repetitions;
    time_start = time_start;
    config_index = config_index;
    sequence_id = sequence_id;
    bandwidth_index = bandwidth_index;
    comb_size = comb_size;
    comb_offset = comb_offset;
    cyclic_shift = cyclic_shift;
    freq_position = freq_position;
    freq_shift = freq_shift;
    freq_hopping = freq_hopping;
    grp_seq_hopping = grp_seq_hopping;
    resource_type = resource_type;
    t_srs = t_srs;
    t_offset = t_offset;
  })

pub walk_srs_lem : Faithful walk_srs srs_pdu
unfolding walk_srs srs_pdu
walk_srs_lem = bind rd_u16_lem λ rnti. bind rd_u32_lem λ handle. bind rd_u32_lem λ bwp_start.
    bind rd_u32_lem λ bwp_stop. bind rd_u8_lem λ scs. bind rd_u8_lem λ cp.
      bind rd_u8_lem λ num_ant_ports. bind rd_u8_lem λ sym_start. bind rd_u8_lem λ sym_stop.
        bind rd_u8_lem λ num_repetitions. bind rd_u8_lem λ time_start.
          bind rd_u8_lem λ config_index. bind rd_u16_lem λ sequence_id.
            bind rd_u8_lem λ bandwidth_index. bind rd_u8_lem λ comb_size.
              bind rd_u8_lem λ comb_offset. bind rd_u8_lem λ cyclic_shift.
                bind rd_u8_lem λ freq_position. bind rd_u16_lem λ freq_shift.
                  bind rd_u8_lem λ freq_hopping. bind rd_u8_lem λ grp_seq_hopping.
                    bind rd_u8_lem λ resource_type. bind rd_u16_lem λ t_srs.
                      bind rd_u16_lem λ t_offset. then_do rd_u8_lem (then_do rd_u8_lem (ret _))
