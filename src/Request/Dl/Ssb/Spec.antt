-- ===== src/Request/Dl/Ssb/Spec.antt =====
-- The layouts of the SSB and the PRS part, and that the walkers read just those.
use x_fapi.Wire.Cursor.Parser as P
use x_fapi.Wire.Cursor.Parser.{Parser, ◌>>=◌, ◌>>◌, pure}
use x_fapi.Wire.Cursor.Faithful.{Faithful, bind, then_do, ret}
use x_fapi.Wire.Cursor.Reads.{rd_u8_lem, rd_u16_lem, rd_u32_lem}
use x_fapi.Request.Dl.Parts.Spec.{optional_u32}
use x_fapi.Request.Dl.Parts.Laws.{walk_optional_u32_lem}
use x_fapi.Request.Dl.Ssb.{CapSsb, read_ssb, walk_prs}

unfoldable pub ssb_part : Parser CapSsb
unfolding ◌>>=◌ ◌>>◌
ssb_part = do
  pci ← P.le_uint 2
  beta ← P.byte
  blk_idx ← P.byte
  subc_off ← P.le_uint 2
  offset_point_a ← P.le_uint 2
  bch ← P.le_uint 4
  case_type ← P.byte
  scs ← P.byte
  l_max ← P.byte
  pure (record {
    pci = pci;
    beta = beta;
    blk_idx = blk_idx;
    subc_off = subc_off;
    offset_point_a = offset_point_a;
    bch = bch;
    case_type = case_type;
    scs = scs;
    l_max = l_max;
  })

unfoldable pub prs_part : Parser (Unit {0})
unfolding ◌>>=◌ ◌>>◌
prs_part = do
  P.byte
  P.byte
  P.le_uint 2
  P.byte
  P.byte
  P.byte
  P.byte
  P.le_uint 4
  P.le_uint 4
  has_power ← P.byte
  optional_u32 has_power
  P.le_uint 2
  P.le_uint 2
  pure tt

pub read_ssb_lem : Faithful read_ssb ssb_part
unfolding read_ssb ssb_part
read_ssb_lem = bind rd_u16_lem λ pci. bind rd_u8_lem λ beta. bind rd_u8_lem λ blk_idx.
    bind rd_u16_lem λ subc_off. bind rd_u16_lem λ offset_point_a.
      bind rd_u32_lem
        λ bch. bind rd_u8_lem λ case_type. bind rd_u8_lem λ scs. bind rd_u8_lem λ l_max. ret _

pub walk_prs_lem : Faithful walk_prs prs_part
unfolding walk_prs prs_part
walk_prs_lem = then_do rd_u8_lem (
    then_do rd_u8_lem (
      then_do rd_u16_lem (
        then_do rd_u8_lem (
          then_do rd_u8_lem (
            then_do rd_u8_lem (
              then_do rd_u8_lem (
                then_do rd_u32_lem (
                  then_do rd_u32_lem (
                    bind rd_u8_lem λ has_power.
                      then_do (walk_optional_u32_lem has_power)
                        (then_do rd_u16_lem (then_do rd_u16_lem (ret _))))))))))))
