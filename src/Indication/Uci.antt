-- ===== src/Indication/Uci.antt =====
-- L1_to_L2/P7/uci_indication.c: nFAPI UCI.indication to OCUDU UCI_INDICATION. A PUCCH 0/1 PDU is read
-- whole and then written; the reports of a PUCCH 2/3/4 PDU are read and written one by one.
pub mod Bitset
pub mod Spec
pub mod Laws
use x_fapi.Prelude.{
  ℕ, zero, suc, ◌+◌, ◌/◌, ◌%◌, ◌^◌, Bool, true, false, List, Option, none, some, ℤ,
}
use x_fapi.Prelude.{ltb, ◌==◌, if◌then◌else◌, get_or, [], ◌∷◌}
use x_fapi.Wire.Cursor.{Cursor, Rd, return, ◌>>=◌, be_u8, be_u16, be_u32, be_bytes, rd_list}
use x_fapi.Wire.Writer.{Writer, wr_u8, wr_u16, wr_u32, wr_u64, ◌⨾◌}
use x_fapi.Indication.Relay.{Delivery, dropped, mu_of, Round, read_write, relay, body_cursor}
use x_fapi.Indication.Sinr.{cqi_to_ul_sinr_metric, as_u16}
use x_fapi.Indication.Uci.Bitset.{wr_bitset_from_bytes}

-- Bit `k` of a bitmap.
abbrev pub has_bit : ℕ → ℕ → Bool
has_bit bitmap k = bitmap / 2 ^ k % 2 == 1

-- The fields that both PUCCH PDUs begin with; the timing advance is read and dropped.
pub record Pucch : Type 0 where
  pub bitmap : ℕ
  pub handle : ℕ
  pub rnti : ℕ
  pub pucch_fmt : ℕ
  pub ul_cqi : ℕ
  pub rssi : ℕ

unfoldable pub read_pucch : Rd Pucch
unfolding ◌>>=◌
read_pucch = do
  bitmap ← be_u8
  handle ← be_u32
  rnti ← be_u16
  pucch_fmt ← be_u8
  ul_cqi ← be_u8
  ta ← be_u16
  rssi ← be_u16
  return (record {
    bitmap = bitmap;
    handle = handle;
    rnti = rnti;
    pucch_fmt = pucch_fmt;
    ul_cqi = ul_cqi;
    rssi = rssi;
  })

-- The variant index, and the fields that both OCUDU PDUs begin with.
unfoldable pub write_pucch : ℕ → Pucch → Writer → Writer
unfolding ◌⨾◌
write_pucch variant u =
    wr_u8 variant
    ⨾ wr_u32 u.handle
    ⨾ wr_u16 u.rnti
    ⨾ wr_u8 u.pucch_fmt
    ⨾ wr_u16 (as_u16 (cqi_to_ul_sinr_metric u.ul_cqi))
    ⨾ wr_u8 0
    ⨾ wr_u16 u.rssi
    ⨾ wr_u16 0xFFFF

-- The SR indication of a PUCCH 0/1 PDU, 0 if it has none; the confidence is dropped.
unfoldable pub read_sr : Bool → Rd ℕ
unfolding ◌>>=◌
read_sr present = if present then (do sr_ind ← be_u8; sr_conf ← be_u8; return sr_ind) else return 0

-- The HARQ values: `num_harq`, and all values read. The code keeps the first two.
unfoldable pub read_harq : Bool → Rd (List ℕ)
unfolding ◌>>=◌
read_harq present =
    if present then (do num_harq ← be_u8; harq_conf ← be_u8; rd_list num_harq be_u8) else return []

pub record Short : Type 0 where
  pub pucch : Pucch
  pub sr_ind : ℕ
  pub harq : List ℕ

unfoldable pub read_short : Rd Short
unfolding ◌>>=◌
read_short = do
  u ← read_pucch
  sr_ind ← read_sr (has_bit u.bitmap 0)
  harq ← read_harq (has_bit u.bitmap 1)
  return (record { pucch = u; sr_ind = sr_ind; harq = harq })

-- nFAPI pass 0, fail 1, not present 2 to OCUDU ack 1, nack 0, dtx 2; anything else is dtx.
unfoldable pub harq_val : ℕ → ℕ
harq_val nf = if ltb nf 3 then get_or (1 ∷ 0 ∷ 2 ∷ []) nf 0 else 2

unfoldable pub write_harq_vals : List ℕ → Writer → Writer
write_harq_vals [] = wr_u16 0
write_harq_vals (a ∷ []) = wr_u16 1 ⨾ wr_u8 (harq_val a)
write_harq_vals (a ∷ b ∷ more) = wr_u16 2 ⨾ wr_u8 (harq_val a) ⨾ wr_u8 (harq_val b)

unfoldable pub write_short : Short → Writer → Writer
unfolding write_pucch write_harq_vals ◌⨾◌
write_short s =
    write_pucch 1 s.pucch
    ⨾ (if has_bit s.pucch.bitmap 0
        then wr_u8 1 ⨾ wr_u8 (if s.sr_ind == 0 then 0 else 1)
        else wr_u8 0)
    ⨾ (if has_bit s.pucch.bitmap 1 then wr_u8 1 ⨾ write_harq_vals s.harq else wr_u8 0)

-- A bit string of a PUCCH 2/3/4 PDU: its length, and the bytes that hold it.
pub record Bits : Type 0 where
  pub bit_len : ℕ
  pub payload : List ℕ

unfoldable pub read_payload : Rd Bits
unfolding ◌>>=◌
read_payload = do
  bit_len ← be_u16
  payload ← be_bytes ((bit_len + 7) / 8)
  return (record { bit_len = bit_len; payload = payload })

unfoldable pub write_sr_bits : Bits → Writer → Writer
unfolding ◌⨾◌
write_sr_bits b = wr_u8 1 ⨾ wr_bitset_from_bytes b.payload b.bit_len

pub record Report : Type 0 where
  pub crc : ℕ
  pub bits : Bits

unfoldable pub read_report : Rd Report
unfolding ◌>>=◌
read_report = do crc ← be_u8; bits ← read_payload; return (record { crc = crc; bits = bits })

-- `crc_to_detection_status`: 0 is a pass (1), anything else a failure (2).
unfoldable pub crc_to_detection_status : ℕ → ℕ
crc_to_detection_status crc = if crc == 0 then 1 else 2

unfoldable pub write_report : Report → Writer → Writer
unfolding crc_to_detection_status ◌⨾◌
write_report p =
    wr_u8 1
    ⨾ wr_u8 (crc_to_detection_status p.crc)
    ⨾ wr_u32 p.bits.bit_len
    ⨾ wr_bitset_from_bytes p.bits.payload p.bits.bit_len

-- An optional part: translated if it is present, else marked as absent.
unfoldable pub optional_part {ℓ} : {A : Type ℓ} → Bool → Rd A → (A → Writer → Writer) → Round
optional_part present m enc = if present then read_write m enc else (λ r w. (r, wr_u8 0 w))

-- `xlate_uci_234_report`, if the report is present.
unfoldable pub xlate_uci_234_report : Bool → Round
unfolding optional_part read_report write_report read_write
xlate_uci_234_report present = optional_part present read_report write_report

-- A PUCCH 2/3/4 PDU: the head, then SR, HARQ, CSI part 1 and CSI part 2.
unfoldable pub long_round : Round
unfolding read_pucch write_pucch
long_round r0 w0 =
    let (u, r1) = read_pucch r0 in
    let (r2, w2) =
      optional_part (has_bit u.bitmap 0) read_payload write_sr_bits r1 (write_pucch 2 u w0) in
    let (r3, w3) = xlate_uci_234_report (has_bit u.bitmap 1) r2 w2 in
    let (r4, w4) = xlate_uci_234_report (has_bit u.bitmap 2) r3 w3 in
    xlate_uci_234_report (has_bit u.bitmap 3) r4 w4

-- One PDU of either kind. Any other kind, as UCI on the PUSCH, is an error.
unfoldable pub uci_round : Round
unfolding long_round read_write read_short write_short
uci_round r0 w =
    let (pdu_type, r1) = be_u16 r0 in
    let (pdu_size, r2) = be_u16 r1 in
    if pdu_type == 2
    then long_round r2 w
    else if pdu_type == 1
    then read_write read_short write_short r2 w
    else (record r2 { error = true }, w)

-- `header` is NFAPI_NR_P7_HEADER_LENGTH, and `scratch` the 4096 bytes of the local `body`.
unfoldable pub uci_indication : ℕ → Option ℤ → List ℕ → Option (List ℕ) → ℕ → Delivery
uci_indication header numerology scratch none len = dropped
uci_indication header numerology scratch (some msg) len =
    if ltb len (header + 6)
    then dropped
    else relay be_u16 uci_round 0x87 (mu_of numerology) scratch 4096 (body_cursor header msg len)
