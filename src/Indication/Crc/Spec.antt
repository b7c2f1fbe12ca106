-- ===== src/Indication/Crc/Spec.antt =====
-- The layouts of one CRC: what nFAPI packs, and what OCUDU reads.
use x_fapi.Prelude.{ℕ, ◌+◌, ◌/◌, ◌%◌, ◌^◌, List, ◌∷◌, ◌++◌, ◌==◌, if◌then◌else◌}
use x_fapi.Wire.Bytes.{le_bytes}
use x_fapi.Wire.Cursor.Parser as P
use x_fapi.Wire.Cursor.Parser.{Parser, ◌>>=◌, ◌>>◌, pure}
use x_fapi.Indication.Sinr.{cqi_to_ul_sinr_metric, as_u16}
use x_fapi.Indication.Crc.{Crc}

-- The length of the code-block CRCs: none without code blocks.
abbrev pub cb_len : ℕ → ℕ
cb_len num_cb = if num_cb == 0 then 0 else num_cb / 8 + 1

unfoldable pub cbs : Parser (Unit {0})
unfolding ◌>>=◌
cbs = do num_cb ← P.be_u16; P.skip (cb_len num_cb)

unfoldable pub crc_pdu : Parser Crc
unfolding ◌>>=◌ ◌>>◌
crc_pdu = do
  handle ← P.be_u32
  rnti ← P.be_u16
  harq_id ← P.byte
  crc_status ← P.byte
  cbs
  ul_cqi ← P.byte
  ta ← P.be_u16
  rssi ← P.be_u16
  pure (record {
    handle = handle;
    rnti = rnti;
    harq_id = harq_id;
    crc_status = crc_status;
    ul_cqi = ul_cqi;
    rssi = rssi;
  })

-- handle, RNTI, HARQ process, tb_crc_status_ok, ul_sinr_metric, no timing advance, RSSI, no RSRP.
abbrev pub crc_bytes : Crc → List ℕ
crc_bytes c =
    le_bytes 4 c.handle
    ++ (le_bytes 2 c.rnti
        ++ ((c.harq_id % 2 ^ 8)
            ∷ ((if c.crc_status == 0 then 1 else 0) % 2 ^ 8)
            ∷ (le_bytes 2 (as_u16 (cqi_to_ul_sinr_metric c.ul_cqi))
                ++ (0 ∷ (le_bytes 2 c.rssi ++ le_bytes 2 0xFFFF)))))
