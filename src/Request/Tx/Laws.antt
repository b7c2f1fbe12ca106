-- ===== src/Request/Tx/Laws.antt =====
-- The TX_DATA translator against its specification.
use x_fapi.Prelude.{
  ℕ, ◌-◌, ◌^◌, ◌≤◌, ◌<◌, ◌≡◌, refl, ap, ◌∙◌, Bool, true, false, ◌&&◌, not, List, [], ◌∷◌,
}
use x_fapi.Prelude.{
  Option, none, some, ◌==◌, if◌then◌else◌, if_yes, if_no, length, take, ℤ, negsuc, arith,
}
use x_fapi.Wire.Cursor.{Cursor, rd_skip}
use x_fapi.Wire.Cursor.Parser as P
use x_fapi.Wire.Cursor.Laws.{IsLive, view, length-view}
use x_fapi.Wire.Cursor.Faithful.{Faithful, bind, ret, grab}
use x_fapi.Wire.Cursor.Reads.{rd_u8_lem, rd_u16_lem, rd_u32_lem}
use x_fapi.Request.{send_by, Outcome, fault, returned, slots_per_frame}
use x_fapi.Request.Start.{request_lem}
use x_fapi.Request.Gather.{gather, picked, Ran, gather_lem, folded-picked}
use x_fapi.Request.Tx.{
  fitting, TxHead, TxPdu, TxData, read_tx_head, take_block, read_tx_pdu, keep, tx_message, tx_pdus,
  tx_data_request,
}
use x_fapi.Request.Tx.Spec.{tx_head, tx_pdu, tx_end, tx_body, tx_request}

take_block_lem : (n : ℕ) → Faithful (take_block n) (P.bytes n)
unfolding take_block rd_skip
take_block_lem n = grab {d = []} (record {
  stuck = λ r e. ground arith;
  enough = λ r v h. ground arith;
  overrun = λ r v h. ground arith;
})

read_tx_head_lem : Faithful read_tx_head tx_head
unfolding read_tx_head tx_head
read_tx_head_lem = bind rd_u8_lem λ mu. bind rd_u32_lem λ count. bind rd_u16_lem λ n. ret _

read_tx_pdu_lem : Faithful read_tx_pdu tx_pdu
unfolding read_tx_pdu tx_pdu
read_tx_pdu_lem =
    bind rd_u16_lem
      λ pdu_index. bind rd_u8_lem λ cw. bind rd_u32_lem λ n. bind (take_block_lem n) λ tb. ret _

module _ (max phy_id : ℕ) (alloc : Bool) (send : TxData → ℤ) where
  abbrev ending : TxHead → List TxPdu × Cursor → Outcome TxData
  ending h (out, r') =
      if not r'.error && (r'.off == r'.len)
      then send_by send (tx_message phy_id h out)
      else returned (negsuc 0)

  ending_lem :
      (h : TxHead) (r : Cursor) (res : List TxPdu × Cursor) (o : Option (List TxPdu × List ℕ))
      → Ran read_tx_pdu_lem (keep max) r [] res o
      → ending h res ≡ tx_end max phy_id send h o
  unfolding keep
  ending_lem h r res none (e, l) = rw e refl
  ending_lem h r res (some (pdus, [])) (e, live, ve, l) =
      let at_end : res.1.off ≡ res.1.len =
        omega (arith, length-view live, live.inside, ap (length {A = ℕ}) ve) in
      let all : max - 0 ≡ max = omega arith in
      let whole : (not res.1.error && (res.1.off == res.1.len)) ≡ true =
        ground (arith, live.fine, at_end) in
      if_yes _ _ whole
      ∙ ap (λ out. send_by send (tx_message phy_id h out))
          (e ∙ folded-picked max fitting pdus [] ∙ ap (λ k. take k (picked fitting pdus)) all)
  ending_lem h r res (some (pdus, b ∷ more)) (e, live, ve, l) =
      let behind : res.1.off < res.1.len =
        omega (arith, length-view live, live.inside, ap (length {A = ℕ}) ve) in
      let partial : (not res.1.error && (res.1.off == res.1.len)) ≡ false =
        ground (arith, behind) in
      if_no _ _ partial

  tx_pdus_lem :
      (h : TxHead) (r : Cursor)
      → IsLive r
      → tx_pdus max phy_id alloc send h r ≡ tx_body max phy_id alloc send h (view r)
  unfolding tx_pdus tx_body
  tx_pdus_lem h r v =
      ap
        (λ (o : Outcome TxData).
          if slots_per_frame h.mu == 0
          then fault
          else (if not alloc then returned (negsuc 0) else o))
        (ending_lem h r (gather read_tx_pdu (keep max) h.n_pdus [] r)
          (P.times h.n_pdus tx_pdu (view r))
          (gather_lem read_tx_pdu_lem (keep max) h.n_pdus [] r v))

  -- A TX_DATA.request is sent if and only if its slot point is valid, its head and all its PDUs
  -- parse inside the body and end where the body ends, the numerology is below 31 and the allocation
  -- succeeds; what is sent holds, in order, the first max blocks of at most 152064 bytes, for a body
  -- length that is at most the bytes there are and below 2^31. Otherwise the code is 0 for an
  -- invalid slot point, -1 for a parse or an allocation that fails, and the behaviour undefined for
  -- the numerology.
  pub tx_data_request_lem :
      (body : List ℕ) (body_len : ℕ)
      → body_len ≤ length body
      → body_len < 2 ^ 31
      → tx_data_request max phy_id alloc send body body_len
        ≡ tx_request max phy_id alloc send (take body_len body)
  unfolding tx_data_request tx_request
  tx_data_request_lem =
      request_lem read_tx_head_lem (tx_pdus max phy_id alloc send) (tx_body max phy_id alloc send)
        tx_pdus_lem
