-- ===== src/Request/Tx/Spec.antt =====
-- What a TX_DATA.request should become: parse all of it, and keep the first blocks that fit a TLV.
use x_fapi.Prelude.{ℕ, Bool, not, List, [], ◌∷◌, Option, none, some}
use x_fapi.Prelude.{◌==◌, if◌then◌else◌, take, ℤ, pos, negsuc}
use x_fapi.Wire.Cursor.Parser as P
use x_fapi.Wire.Cursor.Parser.{Parser, ◌>>=◌, pure}
use x_fapi.Request.{send_by, Outcome, fault, returned, slots_per_frame}
use x_fapi.Request.Gather.{picked}
use x_fapi.Request.Tx.{fitting, TxHead, TxPdu, TxData, tx_message}

unfoldable pub tx_head : Parser TxHead
unfolding ◌>>=◌
tx_head = do
  mu ← P.byte
  count ← P.le_uint 4
  n_pdus ← P.le_uint 2
  pure (record { mu = mu; count = count; n_pdus = n_pdus })

unfoldable pub tx_pdu : Parser TxPdu
unfolding ◌>>=◌
tx_pdu = do
  pdu_index ← P.le_uint 2
  cw_index ← P.byte
  tb_size ← P.le_uint 4
  tb ← P.bytes tb_size
  pure (record { pdu_index = pdu_index; tb_size = tb_size; tb = tb })

-- The request of a body that ends behind the last of its PDUs.
abbrev pub tx_end : ℕ → ℕ → (TxData → ℤ) → TxHead → Option (List TxPdu × List ℕ) → Outcome TxData
tx_end max phy_id send h none = returned (negsuc 0)
tx_end max phy_id send h (some (pdus, [])) =
    send_by send (tx_message phy_id h (take max (picked fitting pdus)))
tx_end max phy_id send h (some (pdus, b ∷ more)) = returned (negsuc 0)

unfoldable pub tx_body : ℕ → ℕ → Bool → (TxData → ℤ) → TxHead → List ℕ → Outcome TxData
tx_body max phy_id alloc send h bs =
    if slots_per_frame h.mu == 0
    then fault
    else if not alloc
    then returned (negsuc 0)
    else tx_end max phy_id send h (P.times h.n_pdus tx_pdu bs)

unfoldable pub tx_request : ℕ → ℕ → Bool → (TxData → ℤ) → List ℕ → Outcome TxData
tx_request max phy_id alloc send bs = elim (P.byte bs) [
  | none ↦ returned (pos 0)
  | some (valid, rest) ↦ if valid == 0 then returned (pos 0) else elim (tx_head rest) [
    | none ↦ returned (negsuc 0)
    | some (h, pdus) ↦ tx_body max phy_id alloc send h pdus
  ]
]
