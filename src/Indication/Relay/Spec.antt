-- ===== src/Indication/Relay/Spec.antt =====
-- What a relayed indication should be: parse the whole message, and if it parses and its translation
-- fits the buffer, deliver the head and the translated PDUs.
use x_fapi.Prelude.{ℕ, ◌%◌, ◌^◌, List, [], ◌∷◌, ◌++◌, none, some, leb, if◌then◌else◌, length}
use x_fapi.Wire.Bytes.{le_bytes}
use x_fapi.Wire.Cursor.Parser as P
use x_fapi.Wire.Cursor.Parser.{Parser, ◌>>=◌, ◌>>◌, pure}
use x_fapi.Wire.Writer.Emits.{all_bytes}
use x_fapi.Indication.Relay.{Delivery, dropped, put, Head, slot_count}

unfoldable pub parse_head : Parser ℕ → Parser Head
unfolding ◌>>=◌
parse_head count = do
  sfn ← P.be_u16
  slot ← P.be_u16
  n ← count
  pure (record { sfn = sfn; slot = slot; pdus = n })

abbrev pub head_bytes : ℕ → Head → List ℕ
head_bytes mu h =
    (1 ∷ []) ++ ((mu % 2 ^ 8) ∷ []) ++ le_bytes 4 (slot_count mu h.sfn h.slot) ++ le_bytes 2 h.pdus

abbrev pub message : {A : Type 0} → (A → List ℕ) → ℕ → Head → List A → List ℕ
message f mu h pdus = head_bytes mu h ++ all_bytes f pdus

-- Deliver a body that fits `cap` bytes.
abbrev pub deliver : ℕ → ℕ → List ℕ → Delivery
deliver cap msg_type body = if leb (length body) cap then put msg_type body else dropped

unfoldable pub relayed :
    {A : Type 0} → Parser ℕ → Parser A → (A → List ℕ) → ℕ → ℕ → ℕ → List ℕ → Delivery
relayed count pdu f msg_type mu cap bs = elim (parse_head count bs) [
  | none ↦ dropped
  | some (h, rest) ↦ elim (P.times h.pdus pdu rest) [
    | none ↦ dropped
    | some (pdus, more) ↦ deliver cap msg_type (message f mu h pdus)
  ]
]
