-- ===== src/Indication/Uci/Spec.antt =====
-- The layouts of one UCI PDU: what nFAPI packs, and what OCUDU reads.
use x_fapi.Prelude.{ℕ, ◌+◌, ◌/◌, ◌%◌, ◌^◌, Bool, List, [], ◌∷◌, ◌++◌, Option, none, some}
use x_fapi.Prelude.{◌==◌, if◌then◌else◌}
use x_fapi.Wire.Bytes.{le_bytes}
use x_fapi.Wire.Cursor.Parser as P
use x_fapi.Wire.Cursor.Parser.{Parser, ◌>>=◌, pure}
use x_fapi.Indication.Relay.Pieces.{mapped}
use x_fapi.Indication.Relay.InTurn.{both}
use x_fapi.Indication.Sinr.{cqi_to_ul_sinr_metric, as_u16}
use x_fapi.Indication.Uci.{Pucch, Short, Bits, Report, has_bit, harq_val}
use x_fapi.Indication.Uci.{crc_to_detection_status}
use x_fapi.Indication.Uci.Bitset.{bitset_bytes}

unfoldable pub pucch : Parser Pucch
unfolding ◌>>=◌
pucch = do
  bitmap ← P.byte
  handle ← P.be_u32
  rnti ← P.be_u16
  pucch_fmt ← P.byte
  ul_cqi ← P.byte
  ta ← P.be_u16
  rssi ← P.be_u16
  pure (record {
    bitmap = bitmap;
    handle = handle;
    rnti = rnti;
    pucch_fmt = pucch_fmt;
    ul_cqi = ul_cqi;
    rssi = rssi;
  })

abbrev pub sr_part : Bool → Parser ℕ
sr_part present =
    if present then (P.byte >>= λ sr_ind. (P.byte >>= λ conf. pure sr_ind)) else pure 0

abbrev pub harq_part : Bool → Parser (List ℕ)
harq_part present =
    if present then (P.byte >>= λ n. (P.byte >>= λ conf. P.times n P.byte)) else pure []

unfoldable pub short_pdu : Parser Short
unfolding ◌>>=◌
short_pdu = do
  u ← pucch
  sr_ind ← sr_part (has_bit u.bitmap 0)
  harq ← harq_part (has_bit u.bitmap 1)
  pure (record { pucch = u; sr_ind = sr_ind; harq = harq })

unfoldable pub bits : Parser Bits
unfolding ◌>>=◌
bits = do
  bit_len ← P.be_u16
  payload ← P.bytes ((bit_len + 7) / 8)
  pure (record { bit_len = bit_len; payload = payload })

unfoldable pub report : Parser Report
unfolding ◌>>=◌
report = do crc ← P.byte; b ← bits; pure (record { crc = crc; bits = b })

abbrev pub optional : {A : Type 0} → Bool → Parser A → Parser (Option A)
optional present p = if present then mapped some p else pure none

-- The four optional parts of a PUCCH 2/3/4 PDU: SR, HARQ, CSI part 1 and CSI part 2.
abbrev pub Parts : Type 0
Parts = Option Bits × (Option Report × (Option Report × Option Report))

abbrev pub parts : ℕ → Parser Parts
parts bitmap = both (optional (has_bit bitmap 0) bits) (
    both (optional (has_bit bitmap 1) report)
      (both (optional (has_bit bitmap 2) report) (optional (has_bit bitmap 3) report)))

pub data UciPdu : Type 0 where
  short : Short → UciPdu
  long : Pucch → Parts → UciPdu

unfoldable pub uci_pdu : Parser UciPdu
unfolding ◌>>=◌
uci_pdu = do
  pdu_type ← P.be_u16
  pdu_size ← P.be_u16
  if pdu_type == 2
      then (pucch >>= λ u. mapped (long u) (parts u.bitmap))
      else (if pdu_type == 1 then mapped short short_pdu else P.fail)

-- Variant, handle, RNTI, format, ul_sinr_metric, no timing advance, RSSI, no RSRP.
abbrev pub pucch_bytes : ℕ → Pucch → List ℕ
pucch_bytes variant u =
    (variant % 2 ^ 8)
    ∷ (le_bytes 4 u.handle
        ++ (le_bytes 2 u.rnti
            ++ ((u.pucch_fmt % 2 ^ 8)
                ∷ (le_bytes 2 (as_u16 (cqi_to_ul_sinr_metric u.ul_cqi))
                    ++ (0 ∷ (le_bytes 2 u.rssi ++ le_bytes 2 0xFFFF))))))

-- At most two HARQ values, mapped to OCUDU's.
abbrev pub harq_bytes : List ℕ → List ℕ
harq_bytes [] = le_bytes 2 0
harq_bytes (a ∷ []) = le_bytes 2 1 ++ ((harq_val a % 2 ^ 8) ∷ [])
harq_bytes (a ∷ b ∷ more) = le_bytes 2 2 ++ ((harq_val a % 2 ^ 8) ∷ (harq_val b % 2 ^ 8) ∷ [])

abbrev pub short_bytes : Short → List ℕ
short_bytes s =
    pucch_bytes 1 s.pucch
    ++ ((if has_bit s.pucch.bitmap 0
          then 1 ∷ ((if s.sr_ind == 0 then 0 else 1) % 2 ^ 8) ∷ []
          else 0 ∷ [])
        ++ (if has_bit s.pucch.bitmap 1 then 1 ∷ harq_bytes s.harq else 0 ∷ []))

abbrev pub optional_bytes : {A : Type 0} → (A → List ℕ) → Option A → List ℕ
optional_bytes f none = 0 ∷ []
optional_bytes f (some a) = f a

abbrev pub sr_bytes : Bits → List ℕ
sr_bytes b = 1 ∷ bitset_bytes b.payload b.bit_len

abbrev pub report_bytes : Report → List ℕ
report_bytes p =
    1
    ∷ (crc_to_detection_status p.crc % 2 ^ 8)
    ∷ (le_bytes 4 p.bits.bit_len ++ bitset_bytes p.bits.payload p.bits.bit_len)

abbrev pub uci_bytes : UciPdu → List ℕ
uci_bytes (short s) = short_bytes s
uci_bytes (long u (sr, (harq, (csi1, csi2)))) =
    pucch_bytes 2 u
    ++ (optional_bytes sr_bytes sr
        ++ (optional_bytes report_bytes harq
            ++ (optional_bytes report_bytes csi1 ++ optional_bytes report_bytes csi2)))
