-- ===== src/Indication/Uci/Laws/Writes.antt =====
-- The writes of a UCI PDU, with the bytes that they stand for.
use x_fapi.Prelude.{ℕ, List, [], ◌∷◌, Option, none, some}
use x_fapi.Wire.Writer.{Writer, wr_u8, ◌⨾◌}
use x_fapi.Wire.Writer.Emits.{Emits, seq, choose}
use x_fapi.Wire.Writer.Writes.{wr_u8_lem, wr_u16_lem, wr_u32_lem}
use x_fapi.Indication.Relay.InTurn.{enc_both}
use x_fapi.Indication.Uci.{
  Pucch, Short, Bits, Report, has_bit, write_pucch, write_harq_vals, write_short,
}
use x_fapi.Indication.Uci.{write_sr_bits, write_report}
use x_fapi.Indication.Uci.Bitset.{wr_bitset_lem}
use x_fapi.Indication.Uci.Spec.{
  UciPdu, short, long, Parts, uci_bytes, pucch_bytes, harq_bytes, short_bytes,
}
use x_fapi.Indication.Uci.Spec.{optional_bytes, sr_bytes, report_bytes}

abbrev pub enc_optional : {A : Type 0} → (A → Writer → Writer) → Option A → Writer → Writer
enc_optional enc none = wr_u8 0
enc_optional enc (some a) = enc a

abbrev pub enc_parts : Parts → Writer → Writer
enc_parts = enc_both (enc_optional write_sr_bits) (
    enc_both (enc_optional write_report)
      (enc_both (enc_optional write_report) (enc_optional write_report)))

abbrev pub write_uci : UciPdu → Writer → Writer
write_uci (short s) = write_short s
write_uci (long u ps) = write_pucch 2 u ⨾ enc_parts ps

write_pucch_lem : (variant : ℕ) (u : Pucch) → Emits (write_pucch variant u) (pucch_bytes variant u)
unfolding write_pucch
write_pucch_lem variant u = seq (wr_u8_lem variant) (
    seq (wr_u32_lem u.handle) (
      seq (wr_u16_lem u.rnti) (
        seq (wr_u8_lem u.pucch_fmt)
          (seq (wr_u16_lem _) (seq (wr_u8_lem 0) (seq (wr_u16_lem u.rssi) (wr_u16_lem 0xFFFF)))))))

write_harq_vals_lem : (vals : List ℕ) → Emits (write_harq_vals vals) (harq_bytes vals)
unfolding write_harq_vals
write_harq_vals_lem [] = wr_u16_lem 0
write_harq_vals_lem (a ∷ []) = seq (wr_u16_lem 1) (wr_u8_lem _)
write_harq_vals_lem (a ∷ b ∷ more) = seq (wr_u16_lem 2) (seq (wr_u8_lem _) (wr_u8_lem _))

write_short_lem : (s : Short) → Emits (write_short s) (short_bytes s)
unfolding write_short
write_short_lem s = seq (write_pucch_lem 1 s.pucch) (
    seq (choose (has_bit s.pucch.bitmap 0) (seq (wr_u8_lem 1) (wr_u8_lem _)) (wr_u8_lem 0)) (
      choose (has_bit s.pucch.bitmap 1) (seq (wr_u8_lem 1) (write_harq_vals_lem s.harq))
        (wr_u8_lem 0)))

optional_write :
    {A : Type 0} {enc : A → Writer → Writer} {f : A → List ℕ}
    → ((a : A) → Emits (enc a) (f a))
    → (o : Option A) → Emits (enc_optional enc o) (optional_bytes f o)
optional_write e none = wr_u8_lem 0
optional_write e (some a) = e a

write_sr_bits_lem : (b : Bits) → Emits (write_sr_bits b) (sr_bytes b)
unfolding write_sr_bits
write_sr_bits_lem b = seq (wr_u8_lem 1) (wr_bitset_lem b.payload b.bit_len)

write_report_lem : (p : Report) → Emits (write_report p) (report_bytes p)
unfolding write_report
write_report_lem p = seq (wr_u8_lem 1) (
    seq (wr_u8_lem _)
      (seq (wr_u32_lem p.bits.bit_len) (wr_bitset_lem p.bits.payload p.bits.bit_len)))

pub write_uci_lem : (u : UciPdu) → Emits (write_uci u) (uci_bytes u)
write_uci_lem (short s) = write_short_lem s
write_uci_lem (long u (sr, (harq, (csi1, csi2)))) = seq (write_pucch_lem 2 u) (
    seq (optional_write write_sr_bits_lem sr) (
      seq (optional_write write_report_lem harq)
        (seq (optional_write write_report_lem csi1) (optional_write write_report_lem csi2))))
