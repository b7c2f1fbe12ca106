-- ===== src/Indication/Uci/Laws.antt =====
-- What the UCI translation delivers: for every message, in terms of its parse.
mod Reads
mod Writes
use x_fapi.Prelude.{
  ℕ, ◌+◌, ◌^◌, ◌%◌, ◌≤◌, ◌<◌, ◌≡◌, Option, some, List, ltb, if◌then◌else◌, ◌==◌, ℤ, arith, length,
  Bool,
}
use x_fapi.Wire.Bytes.{be}
use x_fapi.Wire.Cursor.Parser as P
use x_fapi.Wire.Cursor.Laws.{view}
use x_fapi.Wire.Cursor.Reads.{be_u16_lem}
use x_fapi.Wire.Writer.{Writer, wr_u8, ◌⨾◌}
use x_fapi.Indication.Relay.{dropped, mu_of, body_cursor, Round}
use x_fapi.Indication.Relay.Spec.{relayed}
use x_fapi.Indication.Relay.Laws.{framed_lem}
use x_fapi.Indication.Relay.Pieces.{
  Piece, Piece-read, Piece-choice, Piece-map, Piece-write, reads_writes, writes_only, fails,
}
use x_fapi.Indication.Relay.Pieces.{read_then, in_turn, write_first}
use x_fapi.Indication.Relay.InTurn.{Piece-both}
use x_fapi.Indication.Uci.{
  Pucch, has_bit, uci_round, long_round, xlate_uci_234_report, optional_part, uci_indication,
}
use x_fapi.Indication.Uci.{
  read_pucch, read_short, write_short, read_payload, write_sr_bits, read_report, write_report,
  write_pucch,
}
use x_fapi.Indication.Uci.Spec.{
  UciPdu, short, long, uci_pdu, uci_bytes, optional, bits, report, parts, pucch, Parts,
}
use x_fapi.Wire.Cursor.{Rd}
use x_fapi.Wire.Cursor.Faithful.{Faithful}
use x_fapi.Prelude.{true, false, none}
use x_fapi.Indication.Relay.Pieces.{mapped}
use Reads.{read_pucch_lem, read_short_lem, read_payload_lem, read_report_lem}
use Writes.{write_uci, write_uci_lem, enc_optional, enc_parts}

optional_lem :
    {A : Type 0} {m : Rd A} {p : P.Parser A} (present : Bool) (enc : A → Writer → Writer)
    → Faithful m p
    → Piece (optional_part present m enc) (optional present p) (enc_optional enc)
unfolding optional_part
optional_lem true enc fm = Piece-map some (enc_optional enc) (reads_writes enc fm)
optional_lem false enc fm = writes_only none (enc_optional enc)

report_lem :
    (present : Bool)
    → Piece (xlate_uci_234_report present) (optional present report) (enc_optional write_report)
unfolding xlate_uci_234_report
report_lem present = optional_lem present write_report read_report_lem

long_round_lem : Piece long_round (P.◌>>=◌ pucch (λ u. mapped (long u) (parts u.bitmap))) write_uci
unfolding long_round
long_round_lem =
    Piece-read
      (λ u. Piece-map (long u) write_uci (
        Piece-write (write_pucch 2 u) (
          Piece-both (optional_lem (has_bit u.bitmap 0) write_sr_bits read_payload_lem) (
            Piece-both (report_lem (has_bit u.bitmap 1))
              (Piece-both (report_lem (has_bit u.bitmap 2)) (report_lem (has_bit u.bitmap 3)))))))
      read_pucch_lem

uci_round_lem : Piece uci_round uci_pdu write_uci
unfolding uci_round uci_pdu
uci_round_lem =
    Piece-read
      (λ pdu_type.
        Piece-read
          (λ pdu_size. Piece-choice (pdu_type == 2) long_round_lem (
            Piece-choice (pdu_type == 1)
              (Piece-map short write_uci (reads_writes write_short read_short_lem))
              (fails write_uci)))
          be_u16_lem)
      be_u16_lem

-- A UCI.indication is delivered if and only if all its PDUs (PUCCH format 0/1 and 2/3/4) parse
-- inside the body and the translation fits 4096 bytes, and what is delivered, with type 0x87, is
-- the OCUDU head and the bytes of each PDU in order, for a body buffer of 4096 bytes and a message
-- length that is at most the bytes there are and below 2^31. A message shorter than the header and
-- 6 bytes is dropped.
pub uci_indication_lem :
    (header : ℕ) (numerology : Option ℤ) (scratch msg : List ℕ) (len : ℕ)
    → length scratch ≡ 4096
    → len ≤ length msg
    → len < 2 ^ 31
    → uci_indication header numerology scratch (some msg) len ≡ (
        if ltb len (header + 6)
        then dropped
        else relayed P.be_u16 uci_pdu uci_bytes 0x87
            (mu_of numerology)
            4096
            (view (body_cursor header msg len)))
unfolding uci_indication
uci_indication_lem header numerology scratch msg len room =
    framed_lem 2 (λ bs. be 0 bs % 2 ^ 16) uci_round uci_pdu be_u16_lem uci_round_lem.relays
      write_uci_lem 0x87 (mu_of numerology) 4096 scratch room (omega arith) header msg len
