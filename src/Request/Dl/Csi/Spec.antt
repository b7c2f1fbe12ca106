-- ===== src/Request/Dl/Csi/Spec.antt =====
-- The layout of the CSI-RS part, and that the walker reads just that.
use x_fapi.Wire.Cursor.Parser as P
use x_fapi.Wire.Cursor.Parser.{Parser, ◌>>=◌, ◌>>◌, pure}
use x_fapi.Wire.Cursor.Faithful.{Faithful, bind, ret}
use x_fapi.Wire.Cursor.Reads.{rd_u8_lem, rd_u16_lem, rd_u32_lem}
use x_fapi.Request.Dl.Parts.Spec.{bitset, power_nr}
use x_fapi.Request.Dl.Parts.Laws.{rd_bitset_bytes_lem}
use x_fapi.Request.Dl.Csi.{CapCsi, walk_csi_rs}

unfoldable pub csi_part : Parser CapCsi
unfolding ◌>>=◌ ◌>>◌
csi_part = do
  scs ← P.byte
  cp ← P.byte
  crb_start ← P.le_uint 4
  crb_stop ← P.le_uint 4
  csi_type ← P.byte
  row ← P.byte
  freq ← bitset 2
  symb_l0 ← P.byte
  symb_l1 ← P.byte
  cdm_type ← P.byte
  freq_density ← P.byte
  scramb_id ← P.le_uint 2
  power_nr ← P.le_uint 4
  power_ss ← P.byte
  bwp_start ← P.le_uint 4
  bwp_stop ← P.le_uint 4
  pure (record {
    scs = scs;
    cp = cp;
    crb_start = crb_start;
    crb_stop = crb_stop;
    csi_type = csi_type;
    row = row;
    freq_dom = freq.bytes;
    symb_l0 = symb_l0;
    symb_l1 = symb_l1;
    cdm_type = cdm_type;
    freq_density = freq_density;
    scramb_id = scramb_id;
    power_nr = power_nr;
    power_ss = power_ss;
    bwp_start = bwp_start;
    bwp_stop = bwp_stop;
  })

pub walk_csi_rs_lem : Faithful walk_csi_rs csi_part
unfolding walk_csi_rs csi_part
walk_csi_rs_lem = bind rd_u8_lem λ scs. bind rd_u8_lem λ cp. bind rd_u32_lem λ crb_start.
    bind rd_u32_lem λ crb_stop. bind rd_u8_lem λ csi_type. bind rd_u8_lem λ row.
      bind (rd_bitset_bytes_lem 2) λ freq. bind rd_u8_lem λ symb_l0. bind rd_u8_lem λ symb_l1.
        bind rd_u8_lem λ cdm_type. bind rd_u8_lem λ freq_density. bind rd_u16_lem λ scramb_id.
          bind rd_u32_lem λ power_nr.
            bind rd_u8_lem
              λ power_ss. bind rd_u32_lem λ bwp_start. bind rd_u32_lem λ bwp_stop. ret _
