-- ===== src/Request/Dl/Spec.antt =====
-- What a DL_TTI.request should become: parse all of it, sort the PDUs by kind, and send the first ones,
-- or none of them when the body is not what its head says.
use x_fapi.Prelude.{ℕ, Bool, ◌&&◌, not, List, [], ◌++◌, Option, none, some}
use x_fapi.Prelude.{ltb, ◌==◌, if◌then◌else◌, length, take, map, ℤ, pos, negsuc}
use x_fapi.Wire.Cursor.Parser as P
use x_fapi.Wire.Cursor.Parser.{Parser, ◌>>=◌, ◌>>◌, pure}
use x_fapi.Request.{Outcome, fault, returned, send_by, slots_per_frame}
use x_fapi.Request.Gather.{picked}
use x_fapi.Request.Ul.Corr.Spec.{rounds}
use x_fapi.Request.Dl.Ssb.{CapSsb}
use x_fapi.Request.Dl.Ssb.Spec.{ssb_part, prs_part}
use x_fapi.Request.Dl.Pdcch.{CapPdcch}
use x_fapi.Request.Dl.Pdcch.Spec.{pdcch_part}
use x_fapi.Request.Dl.Pdsch.{CapPdsch}
use x_fapi.Request.Dl.Pdsch.Spec.{pdsch_part}
use x_fapi.Request.Dl.Csi.{CapCsi}
use x_fapi.Request.Dl.Csi.Spec.{csi_part}
use x_fapi.Request.Dl.{
  DlHead, DlPdu, DlTti, DlConfig, dl_message, to_ssb, to_pdcch, to_pdsch, to_csi,
}

unfoldable pub dl_head : Parser DlHead
unfolding ◌>>=◌ ◌>>◌
dl_head = do
  mu ← P.byte
  count ← P.le_uint 4
  rounds 6 (P.le_uint 2 >> pure tt)
  total_pdus ← P.le_uint 2
  pure (record { mu = mu; count = count; total_pdus = total_pdus })

unfoldable pub dl_pdu : ℕ → Parser DlPdu
unfolding ◌>>=◌ ◌>>◌
dl_pdu dci_len = do
  pdu_type ← P.le_uint 2
  pdcch ← pdcch_part dci_len
  pdsch ← pdsch_part
  csi ← csi_part
  ssb ← ssb_part
  prs_part
  pure (record { pdu_type = pdu_type; pdcch = pdcch; pdsch = pdsch; csi = csi; ssb = ssb })

-- The part that counts: type 0 is PDCCH, 1 PDSCH, 2 CSI-RS, 3 SSB.
unfoldable pub ssb_of : DlPdu → Option CapSsb
ssb_of u = if u.pdu_type == 3 then some u.ssb else none

unfoldable pub pdcch_of : DlPdu → Option CapPdcch
pdcch_of u = if u.pdu_type == 0 then some u.pdcch else none

unfoldable pub pdsch_of : DlPdu → Option CapPdsch
pdsch_of u = if u.pdu_type == 1 then some u.pdsch else none

unfoldable pub csi_of : DlPdu → Option CapCsi
csi_of u = if u.pdu_type == 2 then some u.csi else none

-- All PDUs, kind by kind.
abbrev pub sorted : ℕ → List DlPdu → List DlConfig
sorted dci_len pdus =
    ((map to_ssb (picked ssb_of pdus) ++ map (to_pdcch dci_len) (picked pdcch_of pdus))
      ++ map to_pdsch (picked pdsch_of pdus))
    ++ map to_csi (picked csi_of pdus)

-- What is sent of the PDUs of a body.
abbrev pub dl_sent : ℕ → ℕ → DlHead → Option (List DlPdu × List ℕ) → List DlConfig
dl_sent max dci_len h none = []
dl_sent max dci_len h (some (pdus, rest)) =
    if ltb 0 h.total_pdus && ltb 0 (length rest) then [] else take max (sorted dci_len pdus)

unfoldable pub dl_body : ℕ → ℕ → ℕ → Bool → (DlTti → ℤ) → DlHead → List ℕ → Outcome DlTti
dl_body max dci_len phy_id alloc send h bs =
    if slots_per_frame h.mu == 0
    then fault
    else if not alloc
    then returned (negsuc 0)
    else send_by send
        (dl_message phy_id h (dl_sent max dci_len h (P.times h.total_pdus (dl_pdu dci_len) bs)))

unfoldable pub dl_request : ℕ → ℕ → ℕ → Bool → (DlTti → ℤ) → List ℕ → Outcome DlTti
dl_request max dci_len phy_id alloc send bs = elim (P.byte bs) [
  | none ↦ returned (pos 0)
  | some (valid, rest) ↦ if valid == 0 then returned (pos 0) else elim (dl_head rest) [
    | none ↦ returned (negsuc 0)
    | some (h, pdus) ↦ dl_body max dci_len phy_id alloc send h pdus
  ]
]
