-- ===== src/Indication/RxData/Spec.antt =====
-- The layouts of one received transport block: what nFAPI packs, and what OCUDU reads.
use x_fapi.Prelude.{ℕ, ◌%◌, ◌^◌, List, [], ◌∷◌, ◌++◌, ltb, if◌then◌else◌}
use x_fapi.Wire.Bytes.{le_bytes}
use x_fapi.Wire.Cursor.Parser as P
use x_fapi.Wire.Cursor.Parser.{Parser, ◌>>=◌, pure}
use x_fapi.Wire.Writer.{copied}
use x_fapi.Indication.RxData.{RxPdu, max_tb_bytes}

-- A transport block of at most 32768 bytes.
abbrev pub block : ℕ → Parser (List ℕ)
block n = if ltb max_tb_bytes n then P.fail else P.bytes n

unfoldable pub rx_pdu : Parser RxPdu
unfolding ◌>>=◌
rx_pdu = do
  handle ← P.be_u32
  rnti ← P.be_u16
  harq_id ← P.byte
  pdu_len ← P.be_u32
  ul_cqi ← P.byte
  ta ← P.be_u16
  rssi ← P.be_u16
  tb ← block pdu_len
  pure (record { handle = handle; rnti = rnti; harq_id = harq_id; pdu_len = pdu_len; tb = tb })

-- handle, RNTI, HARQ process, and the block behind its length.
abbrev pub rx_bytes : RxPdu → List ℕ
rx_bytes x =
    le_bytes 4 x.handle
    ++ (le_bytes 2 x.rnti
        ++ ((x.harq_id % 2 ^ 8)
            ∷ (le_bytes 4 x.pdu_len ++ (if ltb 0 x.pdu_len then copied x.pdu_len x.tb else []))))
