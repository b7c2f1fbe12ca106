-- ===== src/Indication/Rach/Laws.antt =====
-- What the RACH translation delivers: for every message, in terms of its parse.
use x_fapi.Prelude.{ℕ, ◌+◌, ◌^◌, ◌≤◌, ◌<◌, ◌≡◌, sym, ap, ◌∙◌, subst}
use x_fapi.Prelude.{Option, none, some, List, ltb, if◌then◌else◌, if_yes, if_no, ℤ, arith, length}
use x_fapi.Wire.Cursor.{Cursor}
use x_fapi.Wire.Cursor.Parser as P
use x_fapi.Wire.Cursor.Laws.{view}
use x_fapi.Wire.Cursor.Faithful.{Faithful, Agrees, bind, ret}
use x_fapi.Wire.Cursor.Reads.{be_u8_lem, be_u16_lem, be_u32_lem}
use x_fapi.Wire.Writer.{Writer, write_all, ◌⨾◌}
use x_fapi.Wire.Writer.Emits.{Emits, seq, every}
use x_fapi.Wire.Writer.Writes.{wr_u8_lem, wr_u16_lem, wr_u32_lem, wr_u64_lem}
use x_fapi.Indication.Relay.{dropped, mu_of, Round, read_write, pdu_loop, body_cursor}
use x_fapi.Indication.Relay.Spec.{relayed}
use x_fapi.Indication.Relay.Laws.{Relays, RoundRelays, read_write_lem, pdu_loop_lem, framed_lem}
use x_fapi.Indication.Rach.{RachPdu, Preamble, read_rach, read_preamble, write_rach}
use x_fapi.Indication.Rach.{write_preamble, rach_round, rach_indication}
use x_fapi.Indication.Rach.Spec.{rach_head, preamble, rach_pdu, preamble_bytes, rach_bytes}

read_rach_lem : Faithful read_rach rach_head
unfolding read_rach rach_head
read_rach_lem = bind be_u16_lem λ phy_cell_id. bind be_u8_lem λ symbol_index.
    bind be_u8_lem λ slot_index. bind be_u8_lem λ freq_index.
      bind be_u8_lem λ avg_rssi. bind be_u8_lem λ avg_snr. bind be_u8_lem λ n_pre. ret _

read_preamble_lem : Faithful read_preamble preamble
unfolding read_preamble preamble
read_preamble_lem =
    bind be_u8_lem λ preamble_index. bind be_u16_lem λ ta. bind be_u32_lem λ pwr. ret _

write_preamble_lem :
    (mu avg_snr : ℕ) (p : Preamble)
    → Emits (write_preamble mu avg_snr p) (preamble_bytes mu avg_snr p)
unfolding write_preamble
write_preamble_lem mu avg_snr p =
    seq (wr_u8_lem p.preamble_index)
      (seq (wr_u8_lem 1) (seq (wr_u64_lem _) (seq (wr_u32_lem p.pwr) (wr_u8_lem avg_snr))))

-- The writes for a whole PDU.
abbrev write_pdu : ℕ → RachPdu × List Preamble → Writer → Writer
write_pdu mu (x, ps) = write_rach x ⨾ write_all (write_preamble mu x.avg_snr) ps

write_pdu_lem : (mu : ℕ) (a : RachPdu × List Preamble) → Emits (write_pdu mu a) (rach_bytes mu a)
unfolding write_rach
write_pdu_lem mu (x, ps) =
    seq
      (seq (wr_u32_lem 0) (
        seq (wr_u8_lem x.symbol_index) (
          seq (wr_u8_lem x.slot_index) (
            seq (wr_u8_lem x.freq_index)
              (seq (wr_u32_lem x.avg_rssi) (seq (wr_u8_lem x.avg_snr) (wr_u16_lem x.n_pre)))))))
      (every (write_preamble_lem mu x.avg_snr) ps)

module _ (mu : ℕ) where
  preambles_lem :
      (x : RachPdu) (w : Writer) (out : Cursor × Writer) (o : Option (List Preamble × List ℕ))
      → Relays (write_all (write_preamble mu x.avg_snr)) (write_rach x w) out o
      → Relays
          (write_pdu mu)
          w
          out
          (elim o [ none ↦ none | some (ps, rest) ↦ some ((x, ps), rest) ])
  unfolding ◌⨾◌
  preambles_lem x w out none e = e
  preambles_lem x w out (some (ps, rest)) h = h

  abbrev inner : RachPdu → Round
  inner x = pdu_loop x.n_pre (read_write read_preamble (write_preamble mu x.avg_snr))

  after_head :
      (r : Cursor) (w : Writer) (out : RachPdu × Cursor) (o : Option (RachPdu × List ℕ))
      → Agrees r out o
      → Relays
          (write_pdu mu)
          w
          (if out.1.error then (out.1, w) else inner out.0 out.1 (write_rach out.0 w))
          (elim o [
            | none ↦ none
            | some (x, rest) ↦ elim (P.times x.n_pre preamble rest) [
              | none ↦ none
              | some (ps, more) ↦ some ((x, ps), more)
            ]
          ])
  after_head r w out none (e, u) =
      ap (λ (s : Cursor × Writer). s.0.error) (if_yes (out.1, w) _ e) ∙ e
  after_head r w out (some (x, rest)) (e, live, ve, u) =
      subst
        (λ (s : Cursor × Writer). Relays (write_pdu mu) w s (elim (P.times x.n_pre preamble rest) [
          | none ↦ none
          | some (ps, more) ↦ some ((x, ps), more)
        ]))
        (sym (
          if_no (out.1, w) (inner out.0 out.1 (write_rach out.0 w)) live.fine
          ∙ ap (λ (y : RachPdu). inner y out.1 (write_rach y w)) e))
        (preambles_lem x w (inner x out.1 (write_rach x w)) (P.times x.n_pre preamble rest) (
          subst
            (λ (l : List ℕ).
              Relays (write_all (write_preamble mu x.avg_snr)) (write_rach x w)
                (inner x out.1 (write_rach x w)) (P.times x.n_pre preamble l))
            ve
            (pdu_loop_lem (read_write read_preamble (write_preamble mu x.avg_snr)) preamble
              (write_preamble mu x.avg_snr)
              (read_write_lem (write_preamble mu x.avg_snr) read_preamble_lem) x.n_pre out.1
              (write_rach x w) live)))

  rach_round_lem : RoundRelays (rach_round mu) rach_pdu (write_pdu mu)
  unfolding rach_round rach_pdu
  rach_round_lem r w v =
      after_head r w (read_rach r) (rach_head (view r)) (read_rach_lem.agrees r v)

-- A RACH.indication is delivered if and only if all its PDUs and their preambles parse inside the
-- body and the translation fits 4096 bytes, and what is delivered, with type 0x89, is the OCUDU
-- head and each PDU followed by its preambles, for a body buffer of 4096 bytes and a message
-- length that is at most the bytes there are and below 2^31. A message shorter than the header and
-- 5 bytes is dropped.
pub rach_indication_lem :
    (header : ℕ) (numerology : Option ℤ) (scratch msg : List ℕ) (len : ℕ)
    → length scratch ≡ 4096
    → len ≤ length msg
    → len < 2 ^ 31
    → rach_indication header numerology scratch (some msg) len ≡ (
        if ltb len (header + 5)
        then dropped
        else relayed P.byte rach_pdu
            (rach_bytes (mu_of numerology))
            0x89
            (mu_of numerology)
            4096
            (view (body_cursor header msg len)))
unfolding rach_indication
rach_indication_lem header numerology scratch msg len room =
    framed_lem 1 P.first (rach_round (mu_of numerology)) rach_pdu be_u8_lem
      (rach_round_lem (mu_of numerology)) (write_pdu_lem (mu_of numerology)) 0x89 (mu_of numerology)
      4096 scratch room (omega arith) header msg len
