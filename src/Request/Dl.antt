-- ===== src/Request/Dl.antt =====
-- L2_to_L1/P7/dl_tti_request.c, `ocudu_l2l1_dl_tti_request`: the PDUs are walked in wire order, captured
-- by kind, and mapped to nFAPI kind by kind.
pub mod Parts
pub mod Pdcch
pub mod Pdsch
pub mod Csi
pub mod Ssb
pub mod Spec
pub mod Laws
pub mod Dci
mod Tests
use x_fapi.Prelude.{
  ℕ, zero, suc, ◌+◌, ◌%◌, ◌^◌, Bool, true, false, ◌&&◌, not, List, [], ◌∷◌, ℤ, pos, negsuc,
}
use x_fapi.Prelude.{ltb, ◌==◌, if◌then◌else◌, length, map}
use x_fapi.Wire.Cursor.{Cursor, Rd, ◌>>=◌, ◌>>◌, return, rd_init, rd_u8, rd_u16, rd_u32, rd_times}
use x_fapi.Request.{Outcome, fault, returned, send_by, slots_per_frame, sfn_of, slot_of}
use x_fapi.Request.Gather.{gather, add}
use x_fapi.Request.Ul.{emit, read_count}
use x_fapi.Request.Dl.Ssb.{CapSsb, read_ssb, walk_prs}
use x_fapi.Request.Dl.Ssb.Mapper.{SsbPdu, map_ssb}
use x_fapi.Request.Dl.Pdcch.{CapPdcch, walk_pdcch}
use x_fapi.Request.Dl.Pdcch.Mapper.{PdcchPdu, fill_pdcch_rel15}
use x_fapi.Request.Dl.Pdsch.{CapPdsch, walk_pdsch}
use x_fapi.Request.Dl.Pdsch.Mapper.{PdschPdu, map_pdsch}
use x_fapi.Request.Dl.Csi.{CapCsi, walk_csi_rs}
use x_fapi.Request.Dl.Csi.Mapper.{CsiRsPdu, map_csi_rs}

pub record DlHead : Type 0 where
  pub mu : ℕ
  pub count : ℕ
  pub total_pdus : ℕ

-- The counts of the six PDU kinds, OCUDU_DL_TTI_NUM_PDU_TYPES, are read and not used.
unfoldable pub read_dl_head : Rd DlHead
unfolding ◌>>=◌ ◌>>◌
read_dl_head = do
  mu ← rd_u8
  count ← rd_u32
  rd_times 6 read_count
  total_pdus ← rd_u16
  return (record { mu = mu; count = count; total_pdus = total_pdus })

-- Every PDU has the parts of all five kinds; its type says which one counts.
pub record DlPdu : Type 0 where
  pub pdu_type : ℕ
  pub pdcch : CapPdcch
  pub pdsch : CapPdsch
  pub csi : CapCsi
  pub ssb : CapSsb

unfoldable pub read_dl_pdu : ℕ → Rd DlPdu
unfolding ◌>>=◌ ◌>>◌
read_dl_pdu dci_len = do
  pdu_type ← rd_u16
  pdcch ← walk_pdcch dci_len
  pdsch ← walk_pdsch
  csi ← walk_csi_rs
  ssb ← read_ssb
  walk_prs
  return (record { pdu_type = pdu_type; pdcch = pdcch; pdsch = pdsch; csi = csi; ssb = ssb })

-- The four arrays of captured parts.
pub record Captures : Type 0 where
  pub ssbs : List CapSsb
  pub pdcchs : List CapPdcch
  pub pdschs : List CapPdsch
  pub csis : List CapCsi

abbrev pub no_captures : Captures
no_captures = record { ssbs = []; pdcchs = []; pdschs = []; csis = [] }

-- The `switch` over the type, each array with room for `max`, NFAPI_NR_MAX_DL_TTI_PDUS.
unfoldable pub capture : ℕ → Captures → DlPdu → Captures
capture max s u =
    if u.pdu_type == 0
    then record s { pdcchs = add max s.pdcchs u.pdcch }
    else if u.pdu_type == 1
    then record s { pdschs = add max s.pdschs u.pdsch }
    else if u.pdu_type == 2
    then record s { csis = add max s.csis u.csi }
    else (if u.pdu_type == 3 then record s { ssbs = add max s.ssbs u.ssb } else s)

-- A PDU of `nfapi_nr_dl_tti_request_t`: its type and size follow from its kind.
pub data DlConfig : Type 0 where
  ssb_config : SsbPdu → DlConfig
  pdcch_config : PdcchPdu → DlConfig
  pdsch_config : PdschPdu → DlConfig
  csi_rs_config : CsiRsPdu → DlConfig

pub record DlTti : Type 0 where
  pub phy_id : ℕ
  pub sfn : ℕ
  pub slot : ℕ
  pub n_group : ℕ
  pub n_pdus : ℕ
  pub dl_tti_pdu_list : List DlConfig

abbrev pub to_ssb : CapSsb → DlConfig
to_ssb c = ssb_config (map_ssb c)

abbrev pub to_pdcch : ℕ → CapPdcch → DlConfig
to_pdcch dci_len c = pdcch_config (fill_pdcch_rel15 dci_len c)

abbrev pub to_pdsch : CapPdsch → DlConfig
to_pdsch c = pdsch_config (map_pdsch c)

abbrev pub to_csi : CapCsi → DlConfig
to_csi c = csi_rs_config (map_csi_rs c)

abbrev pub emitted : ℕ → ℕ → Captures → List DlConfig
emitted max dci_len s =
    emit max
      (emit max (emit max (emit max [] (map to_ssb s.ssbs)) (map (to_pdcch dci_len) s.pdcchs))
        (map to_pdsch s.pdschs))
      (map to_csi s.csis)

abbrev pub dl_message : ℕ → DlHead → List DlConfig → DlTti
dl_message phy_id h pdus = record {
  phy_id = phy_id % 2 ^ 16;
  sfn = sfn_of h.mu h.count;
  slot = slot_of h.mu h.count;
  n_group = 0;
  n_pdus = length pdus % 2 ^ 8;
  dl_tti_pdu_list = pdus;
}

-- Behind the header. When the walk does not end at the end of the body, and there is a PDU to walk, the
-- captures are dropped and the message is sent without them.
unfoldable pub dl_pdus : ℕ → ℕ → ℕ → Bool → (DlTti → ℤ) → DlHead → Cursor → Outcome DlTti
unfolding gather emit
dl_pdus max dci_len phy_id alloc send h r =
    if slots_per_frame h.mu == 0
    then fault
    else let (s, r') = gather (read_dl_pdu dci_len) (capture max) h.total_pdus no_captures r in
      let kept =
        if (ltb 0 h.total_pdus && not (not r'.error && (r'.off == r'.len)))
        then no_captures
        else s in
      if not alloc
      then returned (negsuc 0)
      else send_by send (dl_message phy_id h (emitted max dci_len kept))

unfoldable pub dl_tti_request : ℕ → ℕ → ℕ → Bool → (DlTti → ℤ) → List ℕ → ℕ → Outcome DlTti
unfolding read_dl_head dl_pdus
dl_tti_request max dci_len phy_id alloc send body body_len =
    let (valid, r) = rd_u8 (rd_init body body_len) in
    let (h, r') = read_dl_head r in
    if valid == 0
    then returned (pos 0)
    else if r'.error
    then returned (negsuc 0)
    else dl_pdus max dci_len phy_id alloc send h r'
