-- ===== src/Request/Ul/Prach/Spec.antt =====
-- The layout of the PRACH part of an uplink PDU, and that the walker reads just that.
use x_fapi.Wire.Cursor.Parser as P
use x_fapi.Wire.Cursor.Parser.{Parser, ◌>>=◌, ◌>>◌, pure}
use x_fapi.Wire.Cursor.Faithful.{Faithful, bind, ret}
use x_fapi.Wire.Cursor.Reads.{rd_u8_lem, rd_u16_lem, rd_u32_lem}
use x_fapi.Request.Ul.Prach.{CapPrach, read_prach}

unfoldable pub prach_pdu : Parser CapPrach
unfolding ◌>>=◌ ◌>>◌
prach_pdu = do
  num_prach_ocas ← P.byte
  prach_format ← P.byte
  index_fd_ra ← P.byte
  prach_start_symbol ← P.byte
  num_cs ← P.le_uint 2
  handle ← P.le_uint 4
  num_fd_ra ← P.byte
  preamble_start ← P.byte
  preamble_stop ← P.byte
  pure (record {
    num_prach_ocas = num_prach_ocas;
    prach_format = prach_format;
    index_fd_ra = index_fd_ra;
    prach_start_symbol = prach_start_symbol;
    num_cs = num_cs;
    handle = handle;
    num_fd_ra = num_fd_ra;
    preamble_start = preamble_start;
    preamble_stop = preamble_stop;
  })

pub read_prach_lem : Faithful read_prach prach_pdu
unfolding read_prach prach_pdu
read_prach_lem = bind rd_u8_lem λ num_prach_ocas. bind rd_u8_lem λ prach_format.
    bind rd_u8_lem λ index_fd_ra. bind rd_u8_lem λ prach_start_symbol. bind rd_u16_lem λ num_cs.
      bind rd_u32_lem λ handle.
        bind rd_u8_lem
          λ num_fd_ra. bind rd_u8_lem λ preamble_start. bind rd_u8_lem λ preamble_stop. ret _
