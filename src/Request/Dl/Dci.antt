-- ===== src/Request/Dl/Dci.antt =====
-- L2_to_L1/P7/dl_tti_request.c, `ocudu_l2l1_ul_dci_request`: the PDCCH PDUs of the uplink grants.
pub mod Spec
pub mod Laws
use x_fapi.Prelude.{
  ℕ, ◌+◌, ◌%◌, ◌^◌, Bool, ◌&&◌, not, List, [], ◌∷◌, ◌++◌, ℤ, pos, negsuc, Option, none, some, take,
}
use x_fapi.Prelude.{ltb, ◌==◌, if◌then◌else◌, length, map}
use x_fapi.Wire.Cursor.{Cursor, Rd, ◌>>=◌, return, rd_init, rd_u8, rd_u16, rd_u32}
use x_fapi.Request.{Outcome, fault, returned, send_by, slots_per_frame, sfn_of, slot_of}
use x_fapi.Request.Gather.{gather, add}
use x_fapi.Request.Ul.{emit}
use x_fapi.Request.Dl.Pdcch.{CapPdcch, walk_pdcch}
use x_fapi.Request.Dl.Pdcch.Mapper.{PdcchPdu, fill_pdcch_rel15}

pub record DciHead : Type 0 where
  pub mu : ℕ
  pub count : ℕ
  pub n_pdus : ℕ

unfoldable pub read_dci_head : Rd DciHead
unfolding ◌>>=◌
read_dci_head = do
  mu ← rd_u8
  count ← rd_u32
  n_pdus ← rd_u16
  return (record { mu = mu; count = count; n_pdus = n_pdus })

-- `nfapi_nr_ul_dci_request_t`; every PDU is a PDCCH PDU, of type 0.
pub record UlDci : Type 0 where
  pub phy_id : ℕ
  pub sfn : ℕ
  pub slot : ℕ
  pub num_pdus : ℕ
  pub ul_dci_pdu_list : List PdcchPdu

abbrev pub dci_message : ℕ → DciHead → List PdcchPdu → UlDci
dci_message phy_id h pdus = record {
  phy_id = phy_id % 2 ^ 16;
  sfn = sfn_of h.mu h.count;
  slot = slot_of h.mu h.count;
  num_pdus = length pdus % 2 ^ 8;
  ul_dci_pdu_list = pdus;
}

-- Behind the header. `max` is NFAPI_NR_MAX_DL_TTI_PDUS, `cs` is NFAPI_NR_MAX_NB_CORESETS.
unfoldable pub dci_pdus : ℕ → ℕ → ℕ → ℕ → Bool → (UlDci → ℤ) → DciHead → Cursor → Outcome UlDci
unfolding gather emit
dci_pdus max cs dci_len phy_id alloc send h r =
    if slots_per_frame h.mu == 0
    then fault
    else let (s, r') = gather (walk_pdcch dci_len) (add max) h.n_pdus [] r in
      if ltb 0 h.n_pdus && not (not r'.error && (r'.off == r'.len))
      then returned (negsuc 0)
      else if length s == 0
      then returned (pos 0)
      else if not alloc
      then returned (negsuc 0)
      else send_by send (dci_message phy_id h (emit cs [] (map (fill_pdcch_rel15 dci_len) s)))

unfoldable pub ul_dci_request : ℕ → ℕ → ℕ → ℕ → Bool → (UlDci → ℤ) → List ℕ → ℕ → Outcome UlDci
unfolding read_dci_head dci_pdus
ul_dci_request max cs dci_len phy_id alloc send body body_len =
    let (valid, r) = rd_u8 (rd_init body body_len) in
    let (h, r') = read_dci_head r in
    if valid == 0
    then returned (pos 0)
    else if r'.error
    then returned (negsuc 0)
    else dci_pdus max cs dci_len phy_id alloc send h r'
