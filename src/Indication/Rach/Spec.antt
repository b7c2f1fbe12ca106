-- ===== src/Indication/Rach/Spec.antt =====
-- The layouts of one RACH PDU: what nFAPI packs, and what OCUDU reads.
use x_fapi.Prelude.{ℕ, ◌%◌, ◌^◌, List, [], ◌∷◌, ◌++◌}
use x_fapi.Wire.Bytes.{le_bytes}
use x_fapi.Wire.Cursor.Parser as P
use x_fapi.Wire.Cursor.Parser.{Parser, ◌>>=◌, pure}
use x_fapi.Wire.Writer.Emits.{all_bytes}
use x_fapi.Indication.Rach.{RachPdu, Preamble, ta_tc}

unfoldable pub rach_head : Parser RachPdu
unfolding ◌>>=◌
rach_head = do
  phy_cell_id ← P.be_u16
  symbol_index ← P.byte
  slot_index ← P.byte
  freq_index ← P.byte
  avg_rssi ← P.byte
  avg_snr ← P.byte
  n_pre ← P.byte
  pure (record {
    symbol_index = symbol_index;
    slot_index = slot_index;
    freq_index = freq_index;
    avg_rssi = avg_rssi;
    avg_snr = avg_snr;
    n_pre = n_pre;
  })

unfoldable pub preamble : Parser Preamble
unfolding ◌>>=◌
preamble = do
  preamble_index ← P.byte
  ta ← P.be_u16
  pwr ← P.be_u32
  pure (record { preamble_index = preamble_index; ta = ta; pwr = pwr })

-- A PDU head and as many preambles as it announces.
unfoldable pub rach_pdu : Parser (RachPdu × List Preamble)
unfolding ◌>>=◌
rach_pdu = do x ← rach_head; ps ← P.times x.n_pre preamble; pure (x, ps)

abbrev pub preamble_bytes : ℕ → ℕ → Preamble → List ℕ
preamble_bytes mu avg_snr p =
    (p.preamble_index % 2 ^ 8)
    ∷ 1
    ∷ (le_bytes 8 (ta_tc mu p.ta) ++ (le_bytes 4 p.pwr ++ ((avg_snr % 2 ^ 8) ∷ [])))

abbrev pub rach_bytes : ℕ → RachPdu × List Preamble → List ℕ
rach_bytes mu (x, ps) =
    (le_bytes 4 0
      ++ ((x.symbol_index % 2 ^ 8)
          ∷ (x.slot_index % 2 ^ 8)
          ∷ (x.freq_index % 2 ^ 8)
          ∷ (le_bytes 4 x.avg_rssi ++ ((x.avg_snr % 2 ^ 8) ∷ le_bytes 2 x.n_pre))))
    ++ all_bytes (preamble_bytes mu x.avg_snr) ps
