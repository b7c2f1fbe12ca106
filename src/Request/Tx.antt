-- ===== src/Request/Tx.antt =====
-- L2_to_L1/P7/tx_data_request.c, `ocudu_l2l1_tx_data_request`: each transport block becomes a PDU with
-- one inline TLV.
pub mod Spec
pub mod Laws
use x_fapi.Prelude.{
  ℕ, zero, suc, ◌+◌, ◌%◌, ◌^◌, Bool, true, false, ◌||◌, ◌&&◌, not, List, [], ◌∷◌, ◌++◌,
}
use x_fapi.Prelude.{ltb, leb, ◌==◌, if◌then◌else◌, length, Option, none, some, ℤ, pos, negsuc}
use x_fapi.Wire.Bytes.{bytes_at}
use x_fapi.Wire.Cursor.{Cursor, Rd, ◌>>=◌, return, rd_init, rd_u8, rd_u16, rd_u32, rd_skip}
use x_fapi.Request.Gather.{gather, add_some}
use x_fapi.Request.{Outcome, fault, returned, sent, send_by, slots_per_frame, sfn_of, slot_of}

abbrev pub max_tb_bytes : ℕ
max_tb_bytes = 152064

pub record TxHead : Type 0 where
  pub mu : ℕ
  pub count : ℕ
  pub n_pdus : ℕ

unfoldable pub read_tx_head : Rd TxHead
unfolding ◌>>=◌
read_tx_head = do
  mu ← rd_u8
  count ← rd_u32
  n_pdus ← rd_u16
  return (record { mu = mu; count = count; n_pdus = n_pdus })

-- A PDU with its index, and its single TLV: tag 0, the length of the block, the block.
pub record TxPdu : Type 0 where
  pub pdu_index : ℕ
  pub tb_size : ℕ
  pub tb : List ℕ

-- The check of the block against the body, in 64 bits, and the step over it.
unfoldable pub take_block : ℕ → Rd (List ℕ)
take_block n r =
    if r.error || ltb r.len (r.off + n)
    then ([], record r { error = true })
    else (bytes_at r.buf r.off n, (rd_skip n r).1)

unfoldable pub read_tx_pdu : Rd TxPdu
unfolding ◌>>=◌
read_tx_pdu = do
  pdu_index ← rd_u16
  cw_index ← rd_u8
  tb_size ← rd_u32
  tb ← take_block tb_size
  return (record { pdu_index = pdu_index; tb_size = tb_size; tb = tb })

-- The block fits a TLV.
unfoldable pub fitting : TxPdu → Option TxPdu
fitting p = if leb p.tb_size max_tb_bytes then some p else none

-- A PDU is taken while there is room for it, if its block fits a TLV. `max` is
-- NFAPI_NR_MAX_TX_REQUEST_PDUS.
unfoldable pub keep : ℕ → List TxPdu → TxPdu → List TxPdu
unfolding add_some fitting
keep max out p = add_some max out (fitting p)

-- `nfapi_nr_tx_data_request_t`
pub record TxData : Type 0 where
  pub phy_id : ℕ
  pub sfn : ℕ
  pub slot : ℕ
  pub number_of_pdus : ℕ
  pub pdu_list : List TxPdu

abbrev pub tx_message : ℕ → TxHead → List TxPdu → TxData
tx_message phy_id h out = record {
  phy_id = phy_id % 2 ^ 16;
  sfn = sfn_of h.mu h.count;
  slot = slot_of h.mu h.count;
  number_of_pdus = length out % 2 ^ 16;
  pdu_list = out;
}

-- Behind the header: `alloc` says whether `calloc` succeeds, `send` is `oai_vnf_send_p7`.
unfoldable pub tx_pdus : ℕ → ℕ → Bool → (TxData → ℤ) → TxHead → Cursor → Outcome TxData
unfolding gather keep
tx_pdus max phy_id alloc send h r =
    if slots_per_frame h.mu == 0
    then fault
    else if not alloc
    then returned (negsuc 0)
    else let (out, r') = gather read_tx_pdu (keep max) h.n_pdus [] r in
      if not r'.error && (r'.off == r'.len)
      then send_by send (tx_message phy_id h out)
      else returned (negsuc 0)

unfoldable pub tx_data_request : ℕ → ℕ → Bool → (TxData → ℤ) → List ℕ → ℕ → Outcome TxData
unfolding read_tx_head tx_pdus
tx_data_request max phy_id alloc send body body_len =
    let (valid, r) = rd_u8 (rd_init body body_len) in
    let (h, r') = read_tx_head r in
    if valid == 0
    then returned (pos 0)
    else if r'.error
    then returned (negsuc 0)
    else tx_pdus max phy_id alloc send h r'
